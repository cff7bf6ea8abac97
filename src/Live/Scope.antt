-- ===== src/Live/Scope.antt =====
-- Who gets a message (Publish and PublishSummary, internal/live/live.go): the loop over the targets is a
-- map over the subscriptions.
use uptime_cairn.Base.{
  ℕ, suc, ◌≡◌, refl, ap, ◌∙◌, Bool, ◌&&◌, List, [], ◌∷◌, map, if◌then◌else◌, Bool-cases, inl, inr,
}
use uptime_cairn.Live.{
  Update, Summary, Message, update, summary, Subscription, wants, deliver, at, targets, deliver_all,
  publish, publish_summary,
}

module _ {ℓ} {Real : Type ℓ} where
  deliver_all-suc :
      (m : Message Real) (ts : List ℕ) (s : Subscription Real) (rest : List (Subscription Real))
      → deliver_all m (map suc ts) (s ∷ rest) ≡ s ∷ deliver_all m ts rest
  unfolding deliver_all at
  deliver_all-suc m [] s rest = refl
  deliver_all-suc m (i ∷ ts) s rest = deliver_all-suc m ts s (at i (deliver m) rest)

  -- The delivery to the chosen ones, as a map.
  abbrev pub deliver_where :
      (Subscription Real → Bool) → Message Real → Subscription Real → Subscription Real
  deliver_where chosen m s = if chosen s then deliver m s else s

  deliver_all-targets :
      (chosen : Subscription Real → Bool) (m : Message Real) (subs : List (Subscription Real))
      → deliver_all m (targets chosen subs) subs ≡ map (deliver_where chosen m) subs
  unfolding deliver_all targets at deliver_where
  deliver_all-targets chosen m [] = refl
  deliver_all-targets chosen m (s ∷ rest) = elim (Bool-cases (chosen s)) [
    | inl e ↦ rw e (
        deliver_all-suc m (targets chosen rest) (deliver m s) rest
        ∙ ap (◌∷◌ (deliver m s)) (deliver_all-targets chosen m rest))
    | inr e ↦ rw e (
        deliver_all-suc m (targets chosen rest) s rest
        ∙ ap (◌∷◌ s) (deliver_all-targets chosen m rest))
  ]

  -- Publish changes each subscription by itself: it delivers to those that are open and hold the
  -- monitor, and leaves the others as they are.
  pub publish-map :
      (u : Update Real) (subs : List (Subscription Real))
      → publish u subs
        ≡ map (deliver_where (λ s. s.is_registered && wants s u.monitor_id) (update u)) subs
  unfolding publish
  publish-map u subs = deliver_all-targets _ (update u) subs

  pub publish_summary-map :
      (sum : Summary) (subs : List (Subscription Real))
      → publish_summary sum subs ≡ map (deliver_where (λ s. s.is_registered) (summary sum)) subs
  unfolding publish_summary
  publish_summary-map sum subs = deliver_all-targets _ (summary sum) subs

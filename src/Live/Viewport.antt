-- ===== src/Live/Viewport.antt =====
-- What one subscriber gets of a stream of updates (Publish, deliver: internal/live/live.go).
use uptime_cairn.Base.{
  ℕ, zero, suc, ◌+◌, ◌-◌, ◌%◌, ◌^◌, ◌≤◌, ◌<◌, ◌≡◌, refl, ap, ◌∙◌, true, false, ◌&&◌, List, [], ◌∷◌,
  ◌++◌, map, some, arith, if◌then◌else◌, length, take, ltb, length-append, get_elem?, Bool-cases,
  inl, inr,
}
use mathlib.Core.List.{append-nil, append_assoc}
use uptime_cairn.Model.{EntityId}
use uptime_cairn.Live.{
  Update, Message, update, Subscription, in_scope, wants, deliver, send_or_drop, publish,
  buffer_depth,
}
use uptime_cairn.Live.Scope.{deliver_where, publish-map}

module _ {ℓ} {Real : Type ℓ} where
  -- The updates of the monitors in a scope.
  pub relevant : List EntityId → List (Update Real) → List (Message Real)
  relevant scope [] = []
  relevant scope (u ∷ us) =
      let others = relevant scope us in
      if in_scope scope u.monitor_id then update u ∷ others else others

  pub publish_each : List (Update Real) → List (Subscription Real) → List (Subscription Real)
  publish_each [] subs = subs
  publish_each (u ∷ us) subs = publish_each us (publish u subs)

  offer : Update Real → Subscription Real → Subscription Real
  offer u s = deliver_where (λ t. t.is_registered && wants t u.monitor_id) (update u) s

  offer_each : List (Update Real) → Subscription Real → Subscription Real
  offer_each [] s = s
  offer_each (u ∷ us) s = offer_each us (offer u s)

  -- A subscriber with room for n messages after some messages were offered.
  pub after : Subscription Real → ℕ → List (Message Real) → Subscription Real
  after s n ms = record s {
    channel = s.channel ++ take n ms;
    dropped = (s.dropped + (length ms - n)) % 2 ^ 64;
  }

  record Open (s : Subscription Real) (n : ℕ) : Type ℓ where
    room : length s.channel + n ≡ buffer_depth
    is_open : s.closed ≡ false
    registered : s.is_registered ≡ true
    small : s.dropped < 2 ^ 64

  offer_lem :
      (u : Update Real) (s : Subscription Real) (n : ℕ)
      → Open s n
      → offer u s ≡ (if in_scope s.scope u.monitor_id then send_or_drop (update u) s else s)
  unfolding offer deliver wants
  offer_lem u s n o = rw (o.registered, o.is_open) refl

  take_nil : (n : ℕ) → ◌≡◌ {A = List (Message Real)} (take n []) []
  take_nil zero = refl
  take_nil (suc n) = refl

  after_nothing : (s : Subscription Real) (n : ℕ) → s.dropped < 2 ^ 64 → s ≡ after s n []
  unfolding after
  after_nothing s n h =
      let same : (s.dropped + (0 - n)) % 2 ^ 64 ≡ s.dropped = omega arith in
      simp (take_nil n, append-nil, same)

  send_or_drop-Open :
      (m : Message Real) (s : Subscription Real) (n : ℕ)
      → Open s n
      → Open (send_or_drop m s) (n - 1)
  unfolding send_or_drop
  send_or_drop-Open m s zero o = record {
    room = ground (arith, o.room);
    is_open = ground (arith, o.is_open);
    registered = ground (arith, o.registered);
    small = ground (arith, o.small, o.room);
  }
  send_or_drop-Open m s (suc n) o = record {
    room = ground (arith, o.room, length-append s.channel (m ∷ []));
    is_open = ground (arith, o.is_open);
    registered = ground (arith, o.registered);
    small = ground (arith, o.small, o.room);
  }

  after-send_or_drop :
      (m : Message Real) (s : Subscription Real) (n : ℕ) (ms : List (Message Real))
      → Open s n
      → after (send_or_drop m s) (n - 1) ms ≡ after s n (m ∷ ms)
  unfolding after send_or_drop
  after-send_or_drop m s zero ms o =
      let full : ltb (length s.channel) buffer_depth ≡ false = ground (arith, o.room) in
      let count : ((s.dropped + 1) % 2 ^ 64 + (length ms - 0)) % 2 ^ 64
          ≡ (s.dropped + (suc (length ms) - 0)) % 2 ^ 64 =
        omega arith in
      simp (full, count)
  after-send_or_drop m s (suc n) ms o =
      let free : ltb (length s.channel) buffer_depth ≡ true = ground (arith, o.room) in
      let less : suc n - 1 ≡ n = omega arith in
      let count : length ms - n ≡ suc (length ms) - suc n = omega arith in
      simp (free, less, append_assoc, count)

  scope-send_or_drop :
      (m : Message Real) (s : Subscription Real) → (send_or_drop m s).scope ≡ s.scope
  unfolding send_or_drop
  scope-send_or_drop m s = ground arith

  offer_each-after :
      (us : List (Update Real)) (s : Subscription Real) (n : ℕ)
      → Open s n
      → offer_each us s ≡ after s n (relevant s.scope us)
  unfolding offer_each relevant
  offer_each-after [] s n o = after_nothing s n o.small
  offer_each-after (u ∷ us) s n o = elim (Bool-cases (in_scope s.scope u.monitor_id)) [
    | inl e ↦
        let offered : offer u s ≡ send_or_drop (update u) s = offer_lem u s n o ∙ rw e refl in
        let rest =
          offer_each-after us (send_or_drop (update u) s) (n - 1)
            (send_or_drop-Open (update u) s n o) in
        rw (offered, e)
          (rest
            ∙ ap (λ scope. after (send_or_drop (update u) s) (n - 1) (relevant scope us))
                (scope-send_or_drop (update u) s)
            ∙ after-send_or_drop (update u) s n (relevant s.scope us) o)
    | inr e ↦
        let offered : offer u s ≡ s = offer_lem u s n o ∙ rw e refl in
        rw (offered, e) (offer_each-after us s n o)
  ]

  get_elem?-map :
      (f : Subscription Real → Subscription Real) (subs : List (Subscription Real)) (i : ℕ)
      (s : Subscription Real)
      → get_elem? subs i ≡ some s
      → get_elem? (map f subs) i ≡ some (f s)
  get_elem?-map f [] i s h = absurd cc
  get_elem?-map f (x ∷ subs) zero s h = let same : x ≡ s = cc in ap (λ t. some (f t)) same
  get_elem?-map f (x ∷ subs) (suc i) s h = get_elem?-map f subs i s h

  publish_each-offer_each :
      (us : List (Update Real)) (subs : List (Subscription Real)) (i : ℕ) (s : Subscription Real)
      → get_elem? subs i ≡ some s
      → get_elem? (publish_each us subs) i ≡ some (offer_each us s)
  unfolding publish_each offer_each offer
  publish_each-offer_each [] subs i s h = h
  publish_each-offer_each (u ∷ us) subs i s h =
      publish_each-offer_each us (publish u subs) i (offer u s)
        (rw (publish-map u subs) (get_elem?-map _ subs i s h))

  -- What an open subscription gets of a sequence of updates is the updates of the monitors in its
  -- scope, in order, as many as its channel has room for; the others are counted as dropped,
  -- modulo 2 ^ 64.
  pub publish_each-after :
      (us : List (Update Real)) (subs : List (Subscription Real)) (i : ℕ) (s : Subscription Real)
      → get_elem? subs i ≡ some s
      → s.closed ≡ false
      → s.is_registered ≡ true
      → length s.channel ≤ buffer_depth
      → s.dropped < 2 ^ 64
      → get_elem? (publish_each us subs) i
        ≡ some (after s (buffer_depth - length s.channel) (relevant s.scope us))
  publish_each-after us subs i s h is_open registered room small =
      publish_each-offer_each us subs i s h
      ∙ ap some (
          offer_each-after us s (buffer_depth - length s.channel) (record {
            room = omega arith;
            is_open = is_open;
            registered = registered;
            small = small;
          }))

-- ===== src/Live/Summariser/Debounce.antt =====
-- A transition reaches the header count (Summariser, internal/live/summary.go).
use uptime_cairn.Base.{◌≡◌, refl, true, false, List, [], ◌∷◌, arith}
use uptime_cairn.Live
use uptime_cairn.Live.{Update, Summary, Subscription}
use uptime_cairn.Live.Summariser.{
  Summariser, Counts, counted, failed, cancelled, Event, publish, publish_summary, subscribe, touch,
  tick, handle, handle_all, ticked, published, counts_read, summary_published, touched,
}

module _ {ℓ} {Real : Type ℓ} where
  -- No tick among the events reads the counts, and none meets the end of the context.
  abbrev pub Unread : List (Event Real) → Type 0
  Unread [] = Unit
  Unread (tick (counted sum) ∷ rest) = ⊥
  Unread (tick cancelled ∷ rest) = ⊥
  Unread (tick failed ∷ rest) = Unread rest
  Unread (publish u ∷ rest) = Unread rest
  Unread (publish_summary sum ∷ rest) = Unread rest
  Unread (subscribe ids ∷ rest) = Unread rest
  Unread (touch ∷ rest) = Unread rest

  published-dirty :
      (u : Update Real) (s : Summariser Real) → s.dirty ≡ true → (published u s).dirty ≡ true
  unfolding published touched
  published-dirty u s h = ground arith

  stays_dirty :
      (es : List (Event Real)) (s : Summariser Real)
      → Unread es
      → s.dirty ≡ true
      → (handle_all es s).dirty ≡ true
  unfolding handle_all handle ticked counts_read touched summary_published
  stays_dirty [] s u h = h
  stays_dirty (tick (counted sum) ∷ rest) s u h = elim u [ ]
  stays_dirty (tick cancelled ∷ rest) s u h = elim u [ ]
  stays_dirty (tick failed ∷ rest) s u h = stays_dirty rest _ u (ground arith)
  stays_dirty (publish v ∷ rest) s u h = stays_dirty rest (published v s) u (published-dirty v s h)
  stays_dirty (publish_summary sum ∷ rest) s u h = stays_dirty rest _ u h
  stays_dirty (subscribe ids ∷ rest) s u h = stays_dirty rest _ u h
  stays_dirty (touch ∷ rest) s u h = stays_dirty rest _ u refl

  important-dirty :
      (v : Update Real) (s : Summariser Real)
      → v.important ≡ true
      → (handle (publish v) s).dirty ≡ true
  unfolding handle published touched
  important-dirty v s h = rw h refl

  -- After a transition the next tick whose query succeeds sends the counts, whatever is published
  -- in between.
  pub transition_counted :
      (v : Update Real) (es : List (Event Real)) (sum : Summary) (s : Summariser Real)
      → v.important ≡ true
      → Unread es
      → handle (tick (counted sum)) (handle_all es (handle (publish v) s)) ≡ record {
        subs = Live.publish_summary sum (handle_all es (handle (publish v) s)).subs;
        dirty = false;
      }
  unfolding handle ticked counts_read summary_published
  transition_counted v es sum s h u =
      rw (stays_dirty es (handle (publish v) s) u (important-dirty v s h)) refl

  -- A tick with nothing to tell sends nothing.
  tick_idle : (c : Counts) (s : Summariser Real) → s.dirty ≡ false → handle (tick c) s ≡ s
  unfolding handle ticked
  tick_idle c s h = simp h refl

-- ===== src/Live/Summariser.antt =====
-- internal/live/summary.go: the header count, sent at most once per tick of its loop.
pub mod Debounce
use uptime_cairn.Base.{ℕ, Bool, true, false, List, [], ◌∷◌, if◌then◌else◌}
use uptime_cairn.Model.{EntityId}
use uptime_cairn.Live
use uptime_cairn.Live.{Update, Summary, Subscription}

-- The wrapped bus, and whether the channel of depth one holds its signal.
pub record Summariser {ℓ} (Real : Type ℓ) : Type ℓ where
  pub subs : List (Subscription Real)
  pub dirty : Bool

-- What the query of the counts gives. A failure may come of the context's end.
pub data Counts : Type 0 where
  counted : Summary → Counts
  failed cancelled : Counts

pub data Event {ℓ} (Real : Type ℓ) : Type ℓ where
  publish : Update Real → Event Real
  publish_summary : Summary → Event Real
  subscribe : List EntityId → Event Real
  touch : Event Real
  tick : Counts → Event Real

module _ {ℓ} {Real : Type ℓ} where
  pub touched : Summariser Real → Summariser Real
  touched s = record s { dirty = true }

  published : Update Real → Summariser Real → Summariser Real
  unfolding touched Live.publish
  published u s =
      let forwarded : Summariser Real = record s { subs = Live.publish u s.subs } in
      if u.important then touched forwarded else forwarded

  pub summary_published : Summary → Summariser Real → Summariser Real
  unfolding Live.publish_summary
  summary_published sum s = record s { subs = Live.publish_summary sum s.subs }

  -- The turn of the loop after it took the signal.
  counts_read : Counts → Summariser Real → Summariser Real
  unfolding summary_published touched
  counts_read (counted sum) s = summary_published sum s
  counts_read failed s = touched s
  counts_read cancelled s = s

  ticked : Counts → Summariser Real → Summariser Real
  unfolding counts_read
  ticked c s = if s.dirty then counts_read c (record s { dirty = false }) else s

  pub handle : Event Real → Summariser Real → Summariser Real
  unfolding published summary_published touched ticked Live.subscribe
  handle (publish u) s = published u s
  handle (publish_summary sum) s = summary_published sum s
  handle (subscribe ids) s = record s { subs = Live.subscribe ids s.subs }
  handle touch s = touched s
  handle (tick c) s = ticked c s

  pub handle_all : List (Event Real) → Summariser Real → Summariser Real
  unfolding handle
  handle_all [] s = s
  handle_all (e ∷ rest) s = handle_all rest (handle e s)

-- ===== src/Live/Steps.antt =====
-- internal/live/live.go, cut at its locks: the goroutines of publishers and of Close take turns. The walk
-- that collects the targets holds the lock of the bus and is one step.
mod Invariant
mod Channels
mod Tests
mod Race
use uptime_cairn.Base.{
  ℕ, suc, ◌+◌, Bool, true, false, ◌&&◌, List, [], ◌∷◌, ◌++◌, Option, none, some, if◌then◌else◌,
  get_elem?, set, length, ltb,
}
use uptime_cairn.Model.{EntityId}
use uptime_cairn.Live.{
  Update, Summary, Message, update, summary, Subscription, wants, send_or_drop, set_scope, receive,
  at, targets, subscribe,
}

-- A call of Publish: what it delivers, to whom it still has to, and whether the first of them has passed
-- the test of `closed`.
pub record Publisher {ℓ} (Real : Type ℓ) : Type ℓ where
  pub message : Message Real
  pub pending : List ℕ
  pub checked : Bool

-- A call of Close, before it sets `closed`, before bus.remove, and before close(C).
pub data Phase : Type 0 where
  marking removing closing returned : Phase

pub record Closer : Type 0 where
  pub target : ℕ
  pub phase : Phase

-- `panicked` is a send on a closed channel, or a second close of one.
pub record System {ℓ} (Real : Type ℓ) : Type ℓ where
  pub subs : List (Subscription Real)
  pub publishers : List (Publisher Real)
  pub closers : List Closer
  pub panicked : Bool

pub data Action {ℓ} (Real : Type ℓ) : Type ℓ where
  open_stream : List EntityId → Action Real
  rescope : ℕ → List EntityId → Action Real
  take_message : ℕ → Action Real
  start_publish : Update Real → Action Real
  start_summary : Summary → Action Real
  start_close : ℕ → Action Real
  advance_publisher advance_closer : ℕ → Action Real

module _ {ℓ} {Real : Type ℓ} where
  pub panic : System Real → System Real
  panic sys = record sys { panicked = true }

  -- The first lock of deliver, and then its `select`.
  pub deliver_step : ℕ → Publisher Real → ℕ → List ℕ → Subscription Real → System Real → System Real
  unfolding panic at send_or_drop
  deliver_step k p i rest s sys =
      if p.checked
      then (if s.channel_closed then panic sys else record sys {
        subs = at i (send_or_drop p.message) sys.subs;
        publishers = set sys.publishers k (record p { pending = rest; checked = false });
      })
      else (if s.closed
          then record sys { publishers = set sys.publishers k (record p { pending = rest }) }
          else record sys { publishers = set sys.publishers k (record p { checked = true }) })

  deliver_to :
      ℕ → Publisher Real → ℕ → List ℕ → Option (Subscription Real) → System Real → System Real
  unfolding deliver_step
  deliver_to k p i rest none sys = sys
  deliver_to k p i rest (some s) sys = deliver_step k p i rest s sys

  deliver_next : ℕ → Publisher Real → List ℕ → System Real → System Real
  unfolding deliver_to
  deliver_next k p [] sys = sys
  deliver_next k p (i ∷ rest) sys = deliver_to k p i rest (get_elem? sys.subs i) sys

  publisher_turn : ℕ → Option (Publisher Real) → System Real → System Real
  unfolding deliver_next
  publisher_turn k none sys = sys
  publisher_turn k (some p) sys = deliver_next k p p.pending sys

  pub mark : Subscription Real → Subscription Real
  mark s = record s { closed = true }

  pub unregister : Subscription Real → Subscription Real
  unregister s = record s { is_registered = false }

  pub close_channel : Subscription Real → Subscription Real
  close_channel s = record s { channel_closed = true }

  pub close_step : ℕ → ℕ → Phase → Subscription Real → System Real → System Real
  unfolding panic at mark unregister close_channel
  close_step k i marking s sys =
      if s.closed
      then record sys { closers = set sys.closers k (record { target = i; phase = returned }) }
      else record sys {
        subs = at i mark sys.subs;
        closers = set sys.closers k (record { target = i; phase = removing });
      }
  close_step k i removing s sys = record sys {
    subs = at i unregister sys.subs;
    closers = set sys.closers k (record { target = i; phase = closing });
  }
  close_step k i closing s sys = if s.channel_closed then panic sys else record sys {
    subs = at i close_channel sys.subs;
    closers = set sys.closers k (record { target = i; phase = returned });
  }
  close_step k i returned s sys = sys

  close_at : ℕ → Closer → Option (Subscription Real) → System Real → System Real
  unfolding close_step
  close_at k c none sys = sys
  close_at k c (some s) sys = close_step k c.target c.phase s sys

  closer_turn : ℕ → Option Closer → System Real → System Real
  unfolding close_at
  closer_turn k none sys = sys
  closer_turn k (some c) sys = close_at k c (get_elem? sys.subs c.target) sys

  -- A new call of Publish, at the end of the list.
  new_publisher : Message Real → (Subscription Real → Bool) → System Real → System Real
  unfolding targets
  new_publisher m chosen sys = record sys {
    publishers =
        sys.publishers
        ++ record { message = m; pending = targets chosen sys.subs; checked = false } ∷ [];
  }

  act : Action Real → System Real → System Real
  unfolding subscribe at set_scope receive new_publisher wants publisher_turn closer_turn
  act (open_stream ids) sys = record sys { subs = subscribe ids sys.subs }
  act (rescope i ids) sys = record sys { subs = at i (set_scope ids) sys.subs }
  act (take_message i) sys = record sys { subs = at i receive sys.subs }
  act (start_publish u) sys =
      new_publisher (update u) (λ s. s.is_registered && wants s u.monitor_id) sys
  act (start_summary sum) sys = new_publisher (summary sum) (λ s. s.is_registered) sys
  act (start_close i) sys =
      if ltb i (length sys.subs)
      then record sys { closers = sys.closers ++ record { target = i; phase = marking } ∷ [] }
      else sys
  act (advance_publisher k) sys = publisher_turn k (get_elem? sys.publishers k) sys
  act (advance_closer k) sys = closer_turn k (get_elem? sys.closers k) sys

  -- A panic ends the process.
  pub step : Action Real → System Real → System Real
  unfolding act
  step a sys = if sys.panicked then sys else act a sys

  pub run : List (Action Real) → System Real → System Real
  unfolding step
  run [] sys = sys
  run (a ∷ rest) sys = run rest (step a sys)

  pub new_system : System Real
  new_system = record { subs = []; publishers = []; closers = []; panicked = false }

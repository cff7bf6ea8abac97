-- ===== src/Live/Steps/Tests.antt =====
-- The theorems on interleaved calls, at one stream that a delivery meets while it is closed.
use uptime_cairn.Base.{ℕ, ◌≡◌, refl, true, false, List, [], ◌∷◌, none, some, get_elem?}
use uptime_cairn.Base.Int.{pos}
use uptime_cairn.Base.Bytes.{codes}
use uptime_cairn.Live.{Update, update, Subscription}
use uptime_cairn.Live.Steps.{
  System, Action, open_stream, start_publish, start_close, advance_publisher, advance_closer, run,
  step, new_system,
}
use uptime_cairn.Live.Steps.Channels.{closers_never_panic}
use uptime_cairn.Live.Steps.Race.{close_during_delivery}

abbrev down : Update ℕ
down = record {
  monitor_id = 7;
  status = codes "down";
  at = pos 0;
  response_time_ms = none;
  important = true;
  message = codes "timeout";
  state_version = 3;
}

abbrev viewer : Subscription ℕ
viewer = record {
  channel = [];
  channel_closed = false;
  scope = 7 ∷ [];
  closed = false;
  is_registered = true;
  dropped = 0;
}

-- One stream, a publication to it, and a call of Close that runs between its two locks.
abbrev opening : List (Action ℕ)
opening = open_stream (7 ∷ []) ∷ start_publish down ∷ []

abbrev publishing : System ℕ
publishing = record {
  subs = viewer ∷ [];
  publishers = record { message = update down; pending = 0 ∷ []; checked = false } ∷ [];
  closers = [];
  panicked = false;
}

reached : run opening new_system ≡ publishing
unfolding run new_system
reached = refl

abbrev deliver_once : List (Action ℕ)
deliver_once =
    open_stream (7 ∷ []) ∷ start_publish down ∷ advance_publisher 0 ∷ advance_publisher 0 ∷ []

abbrev filled : Subscription ℕ
filled = record viewer { channel = update down ∷ [] }

delivered : get_elem? (run deliver_once new_system).subs 0 ≡ some filled
unfolding run new_system
delivered = refl

abbrev two_closes : List (Action ℕ)
two_closes =
    open_stream (7 ∷ [])
    ∷ start_close 0
    ∷ start_close 0
    ∷ advance_closer 0
    ∷ advance_closer 0
    ∷ advance_closer 1
    ∷ []

closers_never_panic_example :
    (step (advance_closer 0) (run two_closes new_system)).panicked
    ≡ (run two_closes new_system).panicked
closers_never_panic_example = closers_never_panic two_closes 0

close_during_delivery_example :
    (run
      (advance_publisher 0
        ∷ start_close 0
        ∷ advance_closer 0
        ∷ advance_closer 0
        ∷ advance_closer 0
        ∷ advance_publisher 0
        ∷ [])
      publishing).panicked
    ≡ true
close_during_delivery_example =
    close_during_delivery 0 0 (record { message = update down; pending = 0 ∷ []; checked = false })
      [] viewer publishing refl refl refl refl refl refl refl

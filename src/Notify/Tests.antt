-- ===== src/Notify/Tests.antt =====
-- One alert to three channels, one of which refuses it for now.
use uptime_cairn.Base.{◌≡◌, refl, true, false, List, [], ◌∷◌, ◌++◌, none, some, ◌==◌, if◌then◌else◌}
use uptime_cairn.Base.Bytes.{codes}
use uptime_cairn.Notify.{Event, Channel, provider, Dispatcher, Met, attempt_each, new_dispatcher}
use uptime_cairn.Notify.Attempts.{
  Bounded, Call, publish_event, worker_turn, timer_fires, handle_all, handle_all_new-Bounded,
}
use uptime_cairn.Notify.FanOut.{wanting, first_rows, second_attempts, attempt_each_lem}

abbrev is_down : Event
is_down = record { event_type = codes "monitor.down"; monitor_id = 7 }

abbrev channels : List Channel
channels =
    record { id = 1; enabled = true; events = [] }
    ∷ record { id = 2; enabled = true; events = codes "monitor.up" ∷ [] }
    ∷ record { id = 3; enabled = false; events = [] }
    ∷ record { id = 4; enabled = true; events = codes "monitor.down" ∷ [] }
    ∷ []

-- The channel 4 answers 503.
abbrev met : Channel → Met
met c = record {
  error = if c.id == 4 then some (provider 503 (codes "busy")) else none;
  recorded = true;
  marked = true;
}

abbrev fresh : Dispatcher
fresh = record { queue = []; timers = []; dropped = 0; deliveries = []; last_errors = [] }

attempt_each_lem_example :
    ((attempt_each is_down met channels fresh).deliveries
      ≡ [] ++ first_rows is_down met (wanting is_down channels))
    × ((attempt_each is_down met channels fresh).timers
        ≡ [] ++ second_attempts is_down met (wanting is_down channels))
attempt_each_lem_example = attempt_each_lem is_down met channels fresh (λ c. refl)

abbrev calls : List Call
calls =
    publish_event is_down
    ∷ worker_turn met (some channels)
    ∷ timer_fires 0
    ∷ worker_turn met none
    ∷ timer_fires 0
    ∷ worker_turn met none
    ∷ []

handle_all_new-Bounded_example : Bounded (handle_all calls (new_dispatcher []))
handle_all_new-Bounded_example = handle_all_new-Bounded calls []

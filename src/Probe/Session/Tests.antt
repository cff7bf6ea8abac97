-- ===== src/Probe/Session/Tests.antt =====
-- The theorems on a session, at one monitor that is checked every minute.
use uptime_cairn.Base.{◌<◌, ◌≡◌, ◌↔◌, refl, false, List, [], ◌∷◌, none, some}
use uptime_cairn.Base.Int.{pos}
use uptime_cairn.Base.Bytes.{codes}
use uptime_cairn.Base.Maps.{lookup}
use uptime_cairn.Model.{Status}
use uptime_cairn.Probe.Wire.{Outcome, Result}
use uptime_cairn.Probe.Buffer.{add}
use uptime_cairn.Probe.Schedule.{Task}
use uptime_cairn.Probe.Schedule.Pops.{tasks_of}
use uptime_cairn.Probe.Session.{
  Assignment, Registry, Observation, Session, new_session, assignment_key,
}
use uptime_cairn.Probe.Session.Invariant.{pending}
use uptime_cairn.Probe.Session.Assignments.{apply_delta, apply_full_set, validate}
use uptime_cairn.Probe.Session.Results.{finish_run, schedule_turn}
use uptime_cairn.Probe.Session.Results.Outcomes.{Buffers, SaysDown, down_by_target}
use uptime_cairn.Probe.Session.Covered.{Event, full_set, run, assigned-pending}
use uptime_cairn.Probe.Session.Doubled.{update_doubles}

abbrev minute_check : Assignment
minute_check = record {
  monitor_id = 7 ∷ [];
  kind = codes "http";
  config = [];
  interval_seconds = 60;
  timeout_seconds = 0;
  retries = 1;
  retry_interval_seconds = 20;
  upside_down = false;
  config_version = codes "1";
}

abbrev any_config : Registry
any_config kind = some (λ config. none)

abbrev assigned : List Event
assigned = full_set (minute_check ∷ []) (pos 0) ∷ []

is_assigned :
    lookup (assignment_key minute_check) (run any_config assigned (new_session 4)).assignments
    ≡ some minute_check
unfolding lookup run new_session assignment_key apply_full_set validate
is_assigned = refl

assigned-pending_example :
    0 < pending (assignment_key minute_check) (run any_config assigned (new_session 4))
assigned-pending_example =
    assigned-pending any_config 4 assigned (assignment_key minute_check) minute_check is_assigned

abbrev first_task : Task
unfolding assignment_key
first_task = record { monitor_id = assignment_key minute_check; due = pos 0; attempt = 1 }

abbrev under_way : Session
under_way = record (new_session 4) {
  assignments = (assignment_key minute_check, minute_check) ∷ [];
  in_flight = (minute_check, first_task) ∷ [];
  started = 1;
}

abbrev refused : Observation
refused = record {
  status = Status.down;
  response_time_ns = 0;
  code = [];
  message = codes "connection refused";
  certificate = none;
  domain = none;
}

is_valid : validate any_config (record minute_check { retries = 2 }) ≡ none
unfolding validate
is_valid = refl

update_doubles_example :
    tasks_of
      (assignment_key (record minute_check { retries = 2 }))
      (finish_run [] 0 (some refused) (pos 30) (pos 40) (
        apply_delta any_config
          (record { added = []; updated = record minute_check { retries = 2 } ∷ []; removed = [] })
          (pos 20)
          under_way)).queue
    ≡ 2
update_doubles_example =
    update_doubles any_config under_way 0 minute_check (record minute_check { retries = 2 })
      first_task (pos 20) [] (some refused) (pos 30) (pos 40) refl (unfold assignment_key in refl)
      is_valid

down_by_target_example :
    Buffers (λ o. o ≡ Outcome.skipped) under_way (schedule_turn [] (pos 40) under_way)
    × ((r : Result) × ((finish_run [] 0 (some refused) (pos 30) (pos 40) under_way).buffer
          ≡ add under_way.buffer r)
        × ((r.outcome ≡ Outcome.down) ↔ SaysDown minute_check (some refused)))
down_by_target_example =
    down_by_target [] 0 minute_check first_task (some refused) (pos 30) (pos 40) under_way refl

-- ===== src/Maintenance/Sweep/Tests.antt =====
-- A sweep over one window and the monitor that it covers.
use uptime_cairn.Base.{◌≡◌, refl, true, false, [], ◌∷◌, none, some}
use uptime_cairn.Base.Int.{pos}
use uptime_cairn.Model.{MonitorStatus}
use uptime_cairn.Control.Samples.{state_at}
use uptime_cairn.Maintenance.{MaintenanceWindow, Location, Locations, strategy_single}
use uptime_cairn.Store.Maintenance.{monitor, due_windows, monitors_under}
use uptime_cairn.Store.Maintenance.Flags.{AllSettled}
use uptime_cairn.Maintenance.Sweep.{Store, Failures, sweep}
use uptime_cairn.Maintenance.Sweep.Flags.{no_failures, suppressing, sweep-AllSettled}

-- A zone whose calendar no one-off window asks for.
abbrev any_zone : Location
any_zone = record {
  calendar = record {
    date = λ year month day hour minute. pos 0;
    day_of = λ t. record { year = pos 1970; month = pos 1; day = pos 1; weekday = pos 4 };
  };
  clock = λ t. record { hour = pos 0; minute = pos 0 };
  add_days = λ t n. t;
}

abbrev zones : Locations
zones = record { utc = any_zone; load = λ name. none }

abbrev once : MaintenanceWindow
once = record {
  id = 1;
  strategy = strategy_single;
  timezone = [];
  starts_at = pos 1000000000;
  ends_at = some (pos 9000000000);
  duration = pos 0;
  recurrence = record { weekdays = []; days_of_month = []; cron = []; until = none };
  suppress_notifications = true;
  cancelled_at = none;
  next_occurrence_at = none;
}

abbrev store : Store
store = record {
  windows = once ∷ [];
  targets = record { window_id = 1; target_type = monitor; target_id = 7 } ∷ [];
  monitors = record { id = 7; enabled = true; group_id = none; tags = [] } ∷ [];
  states = state_at MonitorStatus.up 0 ∷ [];
}

sweep-AllSettled_example :
    ((sweep zones no_failures (pos 5000000000) store).failed ≡ false)
    × AllSettled
        (monitors_under
          (suppressing zones (pos 5000000000) (due_windows (pos 5000000000) store.windows))
          store.targets
          store.monitors)
        store.states
        (sweep zones no_failures (pos 5000000000) store).store.states
sweep-AllSettled_example = sweep-AllSettled zones (pos 5000000000) store

abbrev write_fails : Failures
write_fails = record { due = false; set_next = λ id. true; resolve = false; apply = false }

write_failed : (sweep zones write_fails (pos 5000000000) store).failed ≡ true
unfolding sweep due_windows
write_failed = refl

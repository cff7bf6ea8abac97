-- ===== src/Maintenance/Sweep.antt =====
-- internal/maintenance/sweep.go: one sweep, and the trigger of its loop. Which calls of the store fail is
-- a parameter.
mod Flags
mod Tests
use uptime_cairn.Base.{
  ℕ, ◌+◌, Bool, true, false, ◌||◌, List, [], ◌∷◌, ◌++◌, Option, none, some, if◌then◌else◌,
}
use uptime_cairn.Base.Result.{Result, ok, err}
use uptime_cairn.Model.{EntityId, Instant, MonitorState}
use uptime_cairn.Maintenance.{
  MaintenanceWindow, Locations, ScheduleError, Occurrence, next, covered,
}
use uptime_cairn.Store.Maintenance.{
  Target, MonitorRow, Moved, due_windows, set_next_occurrence, monitors_under, apply_maintenance,
}

pub record Store : Type 0 where
  pub windows : List MaintenanceWindow
  pub targets : List Target
  pub monitors : List MonitorRow
  pub states : List MonitorState

-- The calls that fail.
pub record Failures : Type 0 where
  pub due : Bool
  pub set_next : EntityId → Bool
  pub resolve : Bool
  pub apply : Bool

pub record SweepResult : Type 0 where
  pub active : ℕ
  pub entered : ℕ
  pub exited : ℕ
  pub rejected : ℕ

-- What the loop has done so far: `covering` are the ids of the windows that suppress.
pub record Progress : Type 0 where
  pub windows : List MaintenanceWindow
  pub covering : List EntityId
  pub result : SweepResult
  pub failed : Bool

start_of : Option Occurrence → Option Instant
start_of none = none
start_of (some o) = some o.start

count_active : Bool → MaintenanceWindow → Progress → Progress
count_active false w p = p
count_active true w p = record p {
  result = record p.result { active = p.result.active + 1 };
  covering = if w.suppress_notifications then p.covering ++ w.id ∷ [] else p.covering;
}

-- The body of the loop, with the schedule evaluated.
pub evaluated :
    Failures
    → Instant
    → MaintenanceWindow
    → Result ScheduleError (Option Occurrence)
    → Progress
    → Progress
unfolding start_of count_active set_next_occurrence covered
evaluated f now w (err e) p = record p {
  result = record p.result { rejected = p.result.rejected + 1 };
}
evaluated f now w (ok answer) p =
    if f.set_next w.id
    then record p { failed = true }
    else count_active (covered answer now) w
        (record p { windows = set_next_occurrence w.id (start_of answer) p.windows })

pub evaluate_all : Locations → Failures → Instant → List MaintenanceWindow → Progress → Progress
unfolding evaluated next
evaluate_all ls f now [] p = p
evaluate_all ls f now (w ∷ rest) p =
    let p' = evaluated f now w (next ls w now) p in
    let later = evaluate_all ls f now rest p' in if p'.failed then p' else later

-- What a sweep returns, and the store that it leaves.
pub record Swept : Type 0 where
  pub store : Store
  pub result : SweepResult
  pub failed : Bool

nothing_done : SweepResult
nothing_done = record { active = 0; entered = 0; exited = 0; rejected = 0 }

moved : Store → SweepResult → Moved → Swept
moved store result m = record {
  store = record store { states = m.states };
  result = record result { entered = m.entered; exited = m.exited };
  failed = false;
}

-- After the loop.
applied : Failures → Store → Progress → Swept
unfolding moved monitors_under apply_maintenance
applied f store p =
    let written = record store { windows = p.windows } in
    let done =
      moved written p.result
        (apply_maintenance (monitors_under p.covering store.targets store.monitors) store.states) in
    if p.failed || f.resolve || f.apply
    then record { store = written; result = p.result; failed = true }
    else done

pub sweep : Locations → Failures → Instant → Store → Swept
unfolding applied evaluate_all due_windows nothing_done
sweep ls f now store =
    let swept = applied f store (
      evaluate_all ls f now (due_windows now store.windows) (record {
        windows = store.windows;
        covering = [];
        result = nothing_done;
        failed = false;
      })) in
    if f.due then record { store = store; result = nothing_done; failed = true } else swept

-- A Trigger: whether its channel of depth one holds a signal. Notify never blocks.
pub notify : Bool → Bool
notify pending = true

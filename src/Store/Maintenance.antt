-- ===== src/Store/Maintenance.antt =====
-- internal/store/sqlite/maintenance.go: the statements of the sweep, by what they do to the rows of one
-- organisation. Instants are stored in whole milliseconds.
pub mod Flags
mod Tests
use uptime_cairn.Base.{
  ℕ, ◌+◌, Bool, true, false, ◌&&◌, ◌||◌, not, List, [], ◌∷◌, Option, none, some, if◌then◌else◌,
  ◌==◌, map,
}
use uptime_cairn.Base.Int.{pos, ◌*ℤ◌, floor_div, leb_ℤ}
use uptime_cairn.Model.{
  EntityId, Instant, MonitorStatus, MonitorStatus-discrete, SuppressedBy, MonitorState,
}
use uptime_cairn.Maintenance.{MaintenanceWindow}

whole_millis : Instant → Instant
unfolding ◌*ℤ◌ floor_div
whole_millis t = pos 1000000 *ℤ floor_div t 1000000

is_due : Instant → Option Instant → Bool
unfolding whole_millis
is_due now none = true
is_due now (some next) = leb_ℤ next (whole_millis now)

is_cancelled : Option Instant → Bool
is_cancelled none = false
is_cancelled (some t) = true

-- DueMaintenanceWindows. The rows stand in the order of their ids.
unfoldable pub due_windows : Instant → List MaintenanceWindow → List MaintenanceWindow
unfolding is_due is_cancelled
due_windows now [] = []
due_windows now (w ∷ rest) =
    let others = due_windows now rest in
    if not (is_cancelled w.cancelled_at) && is_due now w.next_occurrence_at
    then w ∷ others
    else others

stored_next : Option Instant → Option Instant
unfolding whole_millis
stored_next none = none
stored_next (some t) = some (whole_millis t)

unfoldable pub set_next_occurrence :
    EntityId → Option Instant → List MaintenanceWindow → List MaintenanceWindow
unfolding stored_next
set_next_occurrence id next [] = []
set_next_occurrence id next (w ∷ rest) =
    (if w.id == id then record w { next_occurrence_at = stored_next next } else w)
    ∷ set_next_occurrence id next rest

-- maintenance_targets, and what the query reads of a monitor.
pub data TargetType : Type 0 where
  monitor group tag : TargetType

pub record Target : Type 0 where
  pub window_id : EntityId
  pub target_type : TargetType
  pub target_id : EntityId

pub record MonitorRow : Type 0 where
  pub id : EntityId
  pub enabled : Bool
  pub group_id : Option EntityId
  pub tags : List EntityId

-- `id IN (…)`.
unfoldable pub is_in : EntityId → List EntityId → Bool
is_in id [] = false
is_in id (x ∷ rest) = x == id || is_in id rest

in_group : EntityId → Option EntityId → Bool
in_group id none = false
in_group id (some g) = g == id

unfoldable pub selects : Target → MonitorRow → Bool
unfolding is_in in_group
selects t m = elim t.target_type [
  | monitor ↦ t.target_id == m.id
  | group ↦ in_group t.target_id m.group_id
  | tag ↦ is_in t.target_id m.tags
]

any_selects : List EntityId → List Target → MonitorRow → Bool
unfolding selects is_in
any_selects windows [] m = false
any_selects windows (t ∷ rest) m =
    is_in t.window_id windows && selects t m || any_selects windows rest m

-- MonitorsUnderWindows.
unfoldable pub monitors_under : List EntityId → List Target → List MonitorRow → List EntityId
unfolding any_selects
monitors_under windows targets [] = []
monitors_under windows targets (m ∷ rest) =
    let others = monitors_under windows targets rest in
    if m.enabled && any_selects windows targets m then m.id ∷ others else others

is_paused : MonitorStatus → Bool
is_paused MonitorStatus.paused = true
is_paused _ = false

is_maintenance : SuppressedBy → Bool
is_maintenance SuppressedBy.maintenance = true
is_maintenance _ = false

-- The two updates of ApplyMaintenance, at one row: whether it is updated, and to what.
enters : List EntityId → MonitorState → Bool
unfolding is_in is_paused is_maintenance
enters under st =
    is_in st.monitor_id under && not (is_paused st.status) && not (is_maintenance st.suppressed_by)

leaves : List EntityId → MonitorState → Bool
unfolding is_in is_maintenance
leaves under st = is_maintenance st.suppressed_by && not (is_in st.monitor_id under)

entered_row : MonitorState → MonitorState
entered_row st = record st {
  status = MonitorStatus.maintenance;
  suppressed_by = SuppressedBy.maintenance;
  state_version = st.state_version + 1;
}

left_row : MonitorState → MonitorState
left_row st = record st {
  status = MonitorStatus.pending;
  suppressed_by = SuppressedBy.nothing;
  state_version = st.state_version + 1;
}

-- An UPDATE … WHERE, with the number of the rows it changed.
pub update_where :
    (MonitorState → Bool)
    → (MonitorState → MonitorState)
    → List MonitorState
    → List MonitorState × ℕ
update_where chosen change [] = ([], 0)
update_where chosen change (st ∷ rest) =
    let (others, n) = update_where chosen change rest in
    if chosen st then (change st ∷ others, n + 1) else (st ∷ others, n)

pub record Moved : Type 0 where
  pub states : List MonitorState
  pub entered : ℕ
  pub exited : ℕ

left_after : List EntityId → List MonitorState × ℕ → Moved
unfolding update_where leaves left_row
left_after under (states, entered) =
    let (states', exited) = update_where (leaves under) left_row states in
    record { states = states'; entered = entered; exited = exited }

-- ApplyMaintenance, where the transaction commits.
unfoldable pub apply_maintenance : List EntityId → List MonitorState → Moved
unfolding left_after update_where enters entered_row
apply_maintenance [] states = left_after [] (states, 0)
apply_maintenance (id ∷ under) states =
    left_after (id ∷ under) (update_where (enters (id ∷ under)) entered_row states)

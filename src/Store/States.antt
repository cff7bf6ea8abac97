-- ===== src/Store/States.antt =====
-- SaveState (internal/store/sqlite/monitors.go): the update of a monitor_state row, which leaves
-- maintenance to the sweep. Instants are stored in whole milliseconds.
use uptime_cairn.Base.{◌+◌, Option, none, some}
use uptime_cairn.Base.Int.{pos, ◌*ℤ◌, floor_div}
use uptime_cairn.Model.{Instant, MonitorStatus, SuppressedBy, MonitorState}

unfoldable to_millis : Option Instant → Option Instant
unfolding floor_div ◌*ℤ◌
to_millis none = none
to_millis (some t) = some (pos 1000000 *ℤ floor_div t 1000000)

unfoldable kept_status : SuppressedBy → MonitorStatus → MonitorStatus
kept_status SuppressedBy.maintenance s = MonitorStatus.maintenance
kept_status _ s = s

unfoldable kept_reason : SuppressedBy → SuppressedBy → SuppressedBy
kept_reason SuppressedBy.maintenance s = SuppressedBy.maintenance
kept_reason _ s = s

-- The row after the update, from the row before and the state that is saved.
unfoldable pub update_state : MonitorState → MonitorState → MonitorState
unfolding to_millis kept_status kept_reason
update_state row st = record row {
  status = kept_status row.suppressed_by st.status;
  last_check_at = to_millis st.last_check_at;
  next_check_at = to_millis st.next_check_at;
  last_status_change_at = to_millis st.last_status_change_at;
  consecutive_failures = st.consecutive_failures;
  last_response_time_us = st.last_response_time_us;
  last_message = st.last_message;
  suppressed_by = kept_reason row.suppressed_by st.suppressed_by;
  state_version = row.state_version + 1;
}

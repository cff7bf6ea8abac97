-- ===== src/Store/Maintenance/Tests.antt =====
-- One monitor that a sweep moves, while a batch of results holds its state.
use uptime_cairn.Base.{◌≡◌, refl, [], some}
use uptime_cairn.Model.{MonitorStatus, Status, SuppressedBy, Suppression, MonitorState}
use uptime_cairn.Probe.Wire.{Outcome, Result}
use uptime_cairn.Control.Samples.{site, state_at, result_of}
use uptime_cairn.Control.Ingest.{Applied, apply, new_beat, checked, no_alert}
use uptime_cairn.Store.States.{update_state}
use uptime_cairn.Store.Maintenance.{is_in}
use uptime_cairn.Store.Maintenance.Flags.{settled, late_save_reenters}

abbrev row : MonitorState
row = state_at MonitorStatus.up 0

abbrev flagged : MonitorState
flagged = record row {
  status = MonitorStatus.maintenance;
  suppressed_by = SuppressedBy.maintenance;
}

abbrev failing : Result
failing = result_of Outcome.down 3

-- What the batch makes of the state that it read before the sweep.
applied : Applied
unfolding new_beat checked
applied =
    let beat = record (new_beat flagged failing 9 Status.down Suppression.maintenance) {
      status = Status.maintenance;
    } in
    record { beat = beat; state = checked site beat flagged; alert = no_alert }

is_applied : apply site flagged failing 9 Suppression.maintenance ≡ some applied
unfolding apply applied
is_applied = refl

late_save_reenters_example :
    ((settled [] flagged).suppressed_by ≡ SuppressedBy.nothing)
    × ((update_state (settled [] flagged) applied.state).suppressed_by ≡ SuppressedBy.maintenance)
    × ((update_state (settled [] flagged) applied.state).status ≡ MonitorStatus.maintenance)
late_save_reenters_example =
    late_save_reenters [] flagged site failing 9 applied refl (unfold is_in in refl) is_applied

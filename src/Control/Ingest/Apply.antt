-- ===== src/Control/Ingest/Apply.antt =====
-- One result at a time: heartbeat, silence and alerts (apply, internal/controlplane/ingest.go).

use uptime_cairn.Base.{◌≡◌, ◌≢◌, ◌↔◌, ◌⊎◌, true, false, some, if◌then◌else◌, arith}
use uptime_cairn.Probe.Wire.{Result, Outcome}
use uptime_cairn.Model.{
  EntityId, of_micros, MonitorStatus, Status, Suppression, Monitor, MonitorState,
}
use uptime_cairn.Control.Ingest.{
  Applied, apply, is_suppressed, no_alert, apply_suppression, new_beat, should_resend, status_of,
}

-- Every outcome that stands for a status is applied, and the heartbeat carries the monitor of the
-- state, the probe of the session, the result's own time and message, and the reason of its silence.
apply_total :
    (m : Monitor) (st : MonitorState) (r : Result) (probe_id : EntityId) (s : Suppression)
    {status : Status}
    → status_of r.outcome ≡ some status
    → (a : Applied) × (apply m st r probe_id s ≡ some a)
      × (a.beat.monitor_id ≡ st.monitor_id)
      × (a.beat.probe_id ≡ probe_id)
      × (a.beat.time ≡ of_micros r.time_unix_micros)
      × (a.beat.message ≡ r.message)
      × (a.beat.suppression_reason ≡ s)
      × (a.state.monitor_id ≡ st.monitor_id)
unfolding apply
apply_total m st r probe_id s {status} e =
    let beat = new_beat st r probe_id status s in
    let a = apply_suppression s m beat st in
    (
      a,
      rw (e, apply),
      (ground arith),
      (ground arith),
      (ground arith),
      (ground arith),
      (ground arith),
      (ground arith),
    )

module _ (m : Monitor) (st : MonitorState) (r : Result) (probe_id : EntityId) (s : Suppression)
    {a : Applied} (applied : apply m st r probe_id s ≡ some a) where
  -- A suppressed result never raises an alert.
  pub suppressed_silent : is_suppressed s ≡ true → a.alert.fire ≡ false
  unfolding apply
  suppressed_silent h = ground arith

  -- Under maintenance the heartbeat and the monitor are recorded as under maintenance, the failure
  -- count and the time of the last change stay as they were, and the heartbeat is not important
  -- and raises no alert.
  pub maintenance_freezes :
      s ≡ Suppression.maintenance
      → (a.beat.status ≡ Status.maintenance)
        × (a.state.status ≡ MonitorStatus.maintenance)
        × (a.state.consecutive_failures ≡ st.consecutive_failures)
        × (a.state.last_status_change_at ≡ st.last_status_change_at)
        × (a.beat.important ≡ false)
        × (a.alert ≡ no_alert)
  unfolding apply
  maintenance_freezes h = ground arith

  -- Outside maintenance a heartbeat is important exactly when the monitor's status changed, and
  -- then the time of the change is the heartbeat's; else that time stays.
  pub important_iff_changed :
      s ≢ Suppression.maintenance
      → ((a.beat.important ≡ true) ↔ (a.state.status ≢ st.status))
        × (a.state.last_status_change_at
            ≡ (if a.beat.important then some a.beat.time else st.last_status_change_at))
  unfolding apply
  important_iff_changed h = ground arith

  -- Outside maintenance, a result that says something of the probe only (unknown or skipped) moves
  -- neither the verdict nor the failure count, and is not important.
  pub probe_trouble_inert :
      s ≢ Suppression.maintenance
      → (r.outcome ≡ Outcome.unknown) ⊎ (r.outcome ≡ Outcome.skipped)
      → (a.state.status ≡ st.status)
        × (a.state.consecutive_failures ≡ st.consecutive_failures)
        × (a.beat.important ≡ false)
  unfolding apply
  probe_trouble_inert h o = ground arith

-- When an unsuppressed result raises an alert: a change to down or to pending, a recovery from
-- down that the monitor announces, or no change and a resend that is due.
abbrev pub Announces : Monitor → MonitorState → MonitorState → Type 0
Announces m before after =
    ((after.status ≢ before.status)
      × ((after.status ≡ MonitorStatus.down)
          ⊎ (after.status ≡ MonitorStatus.pending)
          ⊎ ((after.status ≡ MonitorStatus.up)
              × (before.status ≡ MonitorStatus.down)
              × (m.notify_on_recovery ≡ true))))
    ⊎ ((after.status ≡ before.status) × (should_resend m after ≡ true))

module _ (m : Monitor) (st : MonitorState) (r : Result) (probe_id : EntityId) {a : Applied}
    (applied : apply m st r probe_id Suppression.unsuppressed ≡ some a) where
  -- An unsuppressed result raises an alert exactly on a change to down or to pending, on a
  -- recovery from down that the monitor announces, or on no change where a resend is due.
  pub fires_iff : (a.alert.fire ≡ true) ↔ Announces m st a.state
  unfolding apply
  fires_iff = ground arith

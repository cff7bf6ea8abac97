-- ===== src/Control/Ingest.antt =====
-- internal/controlplane/ingest.go, the half that decides: whether a result is silent, and what one
-- result does to a monitor's state, to its heartbeat and to its alerts.
mod Apply
mod Verdict
mod Dependency
mod Tests
use mathlib.Core.Logic.{ite}
use uptime_cairn.Base.{
  ℕ, zero, suc, ◌+◌, ◌-◌, ◌/◌, ◌%◌, Bool, true, false, ◌&&◌, ◌||◌, Option, none, some, ltb, leb,
  ◌==◌, if◌then◌else◌,
}
use uptime_cairn.Base.Int.{pos, ◌+ℤ◌}
use uptime_cairn.Probe.Wire.{Result, Outcome}
use uptime_cairn.Store.{Loaded, found, missing, failed}
use uptime_cairn.Model.{
  EntityId, Instant, of_micros, MonitorStatus, MonitorStatus-discrete, Status, Suppression,
  SuppressedBy, EventType, monitor_up, monitor_down, monitor_pending, Monitor, MonitorState,
  Heartbeat,
}

pub record Alert : Type 0 where
  pub fire : Bool
  pub event_type : Option EventType
  pub previous : Option MonitorStatus

-- alert{}
abbrev pub no_alert : Alert
no_alert = record { fire = false; event_type = none; previous = none }

unfoldable pub is_unavailable : MonitorStatus → Bool
is_unavailable MonitorStatus.down = true
is_unavailable MonitorStatus.maintenance = true
is_unavailable _ = false

abbrev max_dependency_depth : ℕ
max_dependency_depth = 10

module _ (batch : EntityId → Option MonitorState) (get_state : EntityId → Loaded MonitorState)
    (load_monitor : EntityId → Loaded Monitor) where
  -- The batch first, then the stored row.
  pub ancestor_state : EntityId → Loaded MonitorState
  ancestor_state id = elim (batch id) [ some st ↦ found st | none ↦ get_state id ]

  -- The rounds of ancestorUnavailable that are left, and the parent to look at.
  pub walk : ℕ → Option EntityId → Bool
  unfolding ancestor_state is_unavailable
  walk zero parent = false
  walk (suc depth) none = false
  walk (suc depth) (some id) = elim (ancestor_state id) [
    | missing ↦ false
    | failed ↦ false
    | found st ↦ elim (is_unavailable st.status) [
      | true ↦ true
      | false ↦ elim (load_monitor id) [
        | found parent ↦ walk depth parent.parent_monitor_id
        | missing ↦ false
        | failed ↦ false
      ]
    ]
  ]

  pub ancestor_unavailable : Monitor → Bool
  unfolding walk
  ancestor_unavailable m = walk max_dependency_depth m.parent_monitor_id

  suppression_by : SuppressedBy → Monitor → Suppression
  unfolding ancestor_unavailable
  suppression_by SuppressedBy.maintenance m = Suppression.maintenance
  suppression_by _ m =
      if ancestor_unavailable m then Suppression.dependency else Suppression.unsuppressed

  pub suppression : Monitor → MonitorState → Suppression
  unfolding suppression_by
  suppression m st = suppression_by st.suppressed_by m

-- `none` is an outcome that the switch does not handle.
unfoldable pub status_of : Outcome → Option Status
status_of Outcome.up = some Status.up
status_of Outcome.down = some Status.down
status_of Outcome.unknown = some Status.unknown
status_of Outcome.skipped = some Status.skipped
status_of Outcome.unspecified = none
status_of (Outcome.unrecognised n) = none

unfoldable pub is_suppressed : Suppression → Bool
is_suppressed Suppression.unsuppressed = false
is_suppressed _ = true

unfoldable pub new_beat : MonitorState → Result → EntityId → Status → Suppression → Heartbeat
unfolding of_micros is_suppressed
new_beat st r probe_id status suppressed_by = record {
  time = of_micros r.time_unix_micros;
  monitor_id = st.monitor_id;
  org_id = st.org_id;
  probe_id = probe_id;
  status = status;
  response_time = if ltb 0 r.response_time_ns then some r.response_time_ns else none;
  code = r.code;
  message = r.message;
  attempt = r.attempt;
  important = false;
  suppressed = is_suppressed suppressed_by;
  suppression_reason = suppressed_by;
}

abbrev response_us : Option ℕ → Option ℕ → Option ℕ
response_us none previous = previous
response_us (some ns) previous = some (ns / 1000)

-- What both paths through `apply` write to the state last.
unfoldable pub checked : Monitor → Heartbeat → MonitorState → MonitorState
unfolding ◌+ℤ◌
checked m beat st = record st {
  last_check_at = some beat.time;
  next_check_at = some (beat.time +ℤ pos m.interval);
  last_message = beat.message;
  last_response_time_us = response_us beat.response_time st.last_response_time_us;
}

unfoldable suppressed_name : Suppression → SuppressedBy
suppressed_name Suppression.dependency = SuppressedBy.dependency
suppressed_name _ = SuppressedBy.nothing

-- The switch on the heartbeat's status: the verdict and the failure count.
unfoldable pub verdict : Monitor → Status → MonitorState → MonitorState
verdict m Status.up st = record st { status = MonitorStatus.up; consecutive_failures = 0 }
verdict m Status.down st = record st {
  status =
      if ltb m.retries (st.consecutive_failures + 1)
      then MonitorStatus.down
      else MonitorStatus.pending;
  consecutive_failures = st.consecutive_failures + 1;
}
verdict m _ st = st

unfoldable pub should_resend : Monitor → MonitorState → Bool
should_resend m st =
    ite (MonitorStatus-discrete st.status MonitorStatus.down)
      (ltb 0 m.resend_after
        && ltb (m.retries + 1) st.consecutive_failures
        && (st.consecutive_failures - (m.retries + 1)) % m.resend_after == 0)
      false

abbrev raise_event : EventType → MonitorStatus → Alert
raise_event e previous = record { fire = true; event_type = some e; previous = some previous }

abbrev quiet : MonitorStatus → Alert
quiet previous = record { fire = false; event_type = none; previous = some previous }

-- The inner switch, on the new status of a monitor whose status changed.
unfoldable transition_alert : Monitor → MonitorStatus → MonitorStatus → Alert
transition_alert m previous MonitorStatus.down = raise_event monitor_down previous
transition_alert m previous MonitorStatus.up =
    ite (MonitorStatus-discrete previous MonitorStatus.down)
      (if m.notify_on_recovery then raise_event monitor_up previous else quiet previous)
      (quiet previous)
transition_alert m previous MonitorStatus.pending = raise_event monitor_pending previous
transition_alert m previous _ = quiet previous

pub record Applied : Type 0 where
  pub beat : Heartbeat
  pub state : MonitorState
  pub alert : Alert

-- A result under maintenance.
unfoldable apply_maintenance : Monitor → Heartbeat → MonitorState → Applied
unfolding checked
apply_maintenance m beat st = record {
  beat = record beat { status = Status.maintenance };
  state = checked m beat (record st { status = MonitorStatus.maintenance });
  alert = no_alert;
}

-- A result that may move the verdict.
unfoldable apply_verdict : Monitor → Heartbeat → MonitorState → Suppression → Applied
unfolding checked verdict suppressed_name transition_alert should_resend is_suppressed
apply_verdict m beat st suppressed_by =
    let moved =
      verdict m beat.status (record st { suppressed_by = suppressed_name suppressed_by }) in
    let same = MonitorStatus-discrete moved.status st.status in
    let raised =
      ite same
        (if should_resend m moved then raise_event monitor_down st.status else quiet st.status)
        (transition_alert m st.status moved.status) in
    record {
      beat = ite same beat (record beat { important = true });
      state =
          checked m beat (ite same moved (record moved { last_status_change_at = some beat.time }));
      alert = if is_suppressed suppressed_by then record raised { fire = false } else raised;
    }

apply_suppression : Suppression → Monitor → Heartbeat → MonitorState → Applied
unfolding apply_maintenance apply_verdict
apply_suppression Suppression.maintenance m beat st = apply_maintenance m beat st
apply_suppression s m beat st = apply_verdict m beat st s

-- `none` is the error on an outcome that the switch does not handle.
unfoldable pub apply : Monitor → MonitorState → Result → EntityId → Suppression → Option Applied
unfolding apply_suppression status_of new_beat
apply m st r probe_id suppressed_by = elim (status_of r.outcome) [
  | none ↦ none
  | some s ↦ some (apply_suppression suppressed_by m (new_beat st r probe_id s suppressed_by) st)
]

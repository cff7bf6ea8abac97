-- ===== src/Control/Samples.antt =====
-- A monitor, its state and results to try the control plane on.
use uptime_cairn.Base.{ℕ, ◌*◌, none, [], ◌∷◌, true}
use uptime_cairn.Base.Int.{pos}
use uptime_cairn.Base.Bytes.{Bytes, codes}
use uptime_cairn.Probe.Wire.{Result, Outcome}
use uptime_cairn.Model.{Monitor, MonitorState, MonitorStatus, SuppressedBy}

-- Two retries, and an alert again at every third failed check.
abbrev pub site : Monitor
site = record {
  id = 7;
  org_id = 1;
  target = codes "example.org";
  interval = 60_000_000_000;
  retries = 2;
  resend_after = 3;
  notify_on_recovery = true;
  parent_monitor_id = none;
}

abbrev pub state_at : MonitorStatus → ℕ → MonitorState
state_at status failures = record {
  monitor_id = 7;
  org_id = 1;
  status = status;
  last_check_at = none;
  next_check_at = none;
  last_status_change_at = none;
  consecutive_failures = failures;
  last_response_time_us = none;
  last_message = [];
  suppressed_by = SuppressedBy.nothing;
  state_version = 0;
}

-- The sixteen bytes of the id 7.
abbrev seven : Bytes
seven = 0 ∷ 0 ∷ 0 ∷ 0 ∷ 0 ∷ 0 ∷ 0 ∷ 0 ∷ 0 ∷ 0 ∷ 0 ∷ 0 ∷ 0 ∷ 0 ∷ 0 ∷ 7 ∷ []

abbrev pub result_of : Outcome → ℕ → Result
result_of outcome id = record {
  result_id = id ∷ [];
  monitor_id = seven;
  time_unix_micros = pos (1_000_000 * id);
  outcome = outcome;
  response_time_ns = 5000;
  code = [];
  message = codes "checked";
  attempt = 1;
  outcome_changed = true;
  certificate = none;
  domain = none;
}

-- ===== src/Probe/Session.antt =====
-- internal/probe/session.go: the state of a session, one control plane's assignments, their queue and the
-- checks under way. A method, or a turn of a loop, is one step; the clock's readings, the fresh ids and
-- what the checkers say are arguments.
pub mod Assignments
pub mod Results
pub mod Invariant
mod Covered
mod Doubled
mod Tests
use uptime_cairn.Base.{
  ℕ, zero, suc, ◌+◌, ◌-◌, ◌*◌, ◌/◌, ◌%◌, ◌^◌, Bool, true, false, not, ◌&&◌, ◌||◌, List, [], ◌∷◌,
  ◌++◌, Option, none, some, if◌then◌else◌, ltb, leb, ◌==◌, length, get_elem?,
}
use uptime_cairn.Base.Int.{ℤ, pos, ◌+ℤ◌, ◌-ℤ◌, ltb_ℤ, floor_div}
use uptime_cairn.Base.Bytes.{Bytes, codes, eqb}
use uptime_cairn.Base.Maps.{lookup, insert, remove}
use uptime_cairn.Model.{EntityId, Instant, Status, id_of_bytes}
use uptime_cairn.Probe.Wire
use uptime_cairn.Probe.Wire.{Outcome, Result, CertificateObservation, DomainObservation}
use uptime_cairn.Probe.Buffer.{Buffer, new_buffer, add}
use uptime_cairn.Probe.Schedule.{
  Task, push, Popped, empty, waiting, ready, pop, drop_monitor, first_due,
}

pub record Assignment : Type 0 where
  pub monitor_id : Bytes
  pub kind : Bytes
  pub config : Bytes
  pub interval_seconds : ℕ
  pub timeout_seconds : ℕ
  pub retries : ℕ
  pub retry_interval_seconds : ℕ
  pub upside_down : Bool
  pub config_version : Bytes

pub data Reason : Type 0 where
  unsupported_type : Bytes → Reason
  interval_zero : Reason
  invalid_config : Bytes → Reason

pub record Rejection : Type 0 where
  pub monitor_id : Bytes
  pub config_version : Bytes
  pub reason : Reason

-- The checker of a type, by its validation: what it says against a configuration.
abbrev pub Registry : Type 0
Registry = Bytes → Option (Bytes → Option Bytes)

-- What a check saw; the certificate and the registration as internal/observation puts them on the wire.
pub record Observation : Type 0 where
  pub status : Status
  pub response_time_ns : ℕ
  pub code : Bytes
  pub message : Bytes
  pub certificate : Option CertificateObservation
  pub domain : Option DomainObservation

-- The text of observationKey is a function of this.
pub data ObservationKey : Type 0 where
  certificate : Bytes → ObservationKey
  domain : ℤ → ObservationKey

pub record ObservationMark : Type 0 where
  pub key : ObservationKey
  pub sent : Instant

pub record Session : Type 0 where
  pub assignments : List (EntityId × Assignment)
  pub last_outcome : List (EntityId × Outcome)
  pub last_seen : List (EntityId × ObservationMark)
  pub rejections : List Rejection
  pub queue : List Task
  pub in_flight : List (Assignment × Task)
  pub buffer : Buffer
  pub max_concurrent : ℕ
  pub started : ℕ
  pub completed : ℕ
  pub skipped : ℕ

pub new_session : ℕ → Session
new_session max_concurrent = record {
  assignments = [];
  last_outcome = [];
  last_seen = [];
  rejections = [];
  queue = [];
  in_flight = [];
  buffer = new_buffer;
  max_concurrent = if max_concurrent == 0 then 2000 else max_concurrent;
  started = 0;
  completed = 0;
  skipped = 0;
}

pub assignment_key : Assignment → EntityId
unfolding id_of_bytes
assignment_key a = id_of_bytes a.monitor_id

abbrev pub second : ℕ
second = 1_000_000_000

pub interval : Assignment → ℕ
interval a = a.interval_seconds * second

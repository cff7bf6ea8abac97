-- ===== src/Probe/Session/Results.antt =====
-- internal/probe/execute.go: the loop that starts checks or sheds them, and what a check leaves behind.
pub mod Kept
pub mod Outcomes
use uptime_cairn.Base.{
  ℕ, zero, suc, ◌+◌, ◌-◌, ◌*◌, ◌/◌, ◌%◌, ◌^◌, Bool, true, false, not, ◌&&◌, ◌||◌, List, [], ◌∷◌,
  ◌++◌, Option, none, some, if◌then◌else◌, ltb, leb, ◌==◌, length, get_elem?,
}
use uptime_cairn.Base.Int.{ℤ, pos, ◌+ℤ◌, ◌-ℤ◌, ltb_ℤ, floor_div}
use uptime_cairn.Base.Bytes.{Bytes, codes, eqb}
use uptime_cairn.Base.Maps.{lookup, insert, remove}
use uptime_cairn.Model.{EntityId, Instant, Status, id_of_bytes}
use uptime_cairn.Probe.Wire
use uptime_cairn.Probe.Wire.{Outcome, Result, CertificateObservation, DomainObservation}
use uptime_cairn.Probe.Buffer.{Buffer, new_buffer, add}
use uptime_cairn.Probe.Schedule.{
  Task, push, Popped, empty, waiting, ready, pop, drop_monitor, first_due,
}
use uptime_cairn.Probe.Session.{
  Assignment, Reason, unsupported_type, interval_zero, invalid_config, Rejection, Registry,
  Observation, ObservationKey, certificate, domain, ObservationMark, Session, assignment_key,
  second, interval,
}

pub to_outcome : Status → Outcome
to_outcome Status.up = Outcome.up
to_outcome Status.down = Outcome.down
to_outcome Status.skipped = Outcome.skipped
to_outcome _ = Outcome.unknown

same_outcome : Outcome → Outcome → Bool
same_outcome Outcome.unspecified Outcome.unspecified = true
same_outcome Outcome.up Outcome.up = true
same_outcome Outcome.down Outcome.down = true
same_outcome Outcome.unknown Outcome.unknown = true
same_outcome Outcome.skipped Outcome.skipped = true
same_outcome (Outcome.unrecognised a) (Outcome.unrecognised b) = a == b
same_outcome _ _ = false

-- A key that is missing reads as the zero value.
outcome_or_zero : Option Outcome → Outcome
outcome_or_zero none = Outcome.unspecified
outcome_or_zero (some o) = o

observation_key : Observation → Option ObservationKey
unfolding floor_div
observation_key obs = elim obs.certificate [
  | some c ↦ some (certificate c.fingerprint_sha256)
  | none ↦ elim obs.domain [
    | some d ↦ some (domain (floor_div d.expires_at_unix_micros 1_000_000))
    | none ↦ none
  ]
]

same_key : ObservationKey → ObservationKey → Bool
unfolding eqb
same_key (certificate x) (certificate y) = eqb x y
same_key (domain x) (domain y) = not (ltb_ℤ x y) && not (ltb_ℤ y x)
same_key _ _ = false

abbrev observation_interval : ℕ
observation_interval = 3600 * second

reported_lately : Option ObservationMark → ObservationKey → Instant → Bool
unfolding same_key ◌-ℤ◌
reported_lately none key at = false
reported_lately (some previous) key at =
    same_key previous.key key && ltb_ℤ (at -ℤ previous.sent) (pos observation_interval)

-- shouldReport: whether the result carries its observation, and the marks after it.
pub should_report :
    EntityId
    → Observation
    → Instant
    → List (EntityId × ObservationMark)
    → Bool × List (EntityId × ObservationMark)
unfolding observation_key reported_lately lookup insert
should_report key obs at seen = elim (observation_key obs) [
  | none ↦ (false, seen)
  | some mark ↦
      if reported_lately (lookup key seen) mark at
      then (false, seen)
      else (true, insert key (record { key = mark; sent = at }) seen)
]

-- The result that emit buffers; the instant in microseconds rounds down.
result_of : Bytes → Assignment → Task → Observation → Instant → Bool → Bool → Result
unfolding to_outcome floor_div
result_of id a t obs at changed report = record {
  result_id = id;
  monitor_id = a.monitor_id;
  time_unix_micros = floor_div at 1000;
  outcome = to_outcome obs.status;
  response_time_ns = obs.response_time_ns / 1000 * 1000;
  code = obs.code;
  message = obs.message;
  attempt = t.attempt;
  outcome_changed = changed;
  certificate = if report then obs.certificate else none;
  domain = if report then obs.domain else none;
}

pub emit : Bytes → Assignment → Task → Observation → Instant → Session → Session
unfolding assignment_key to_outcome outcome_or_zero same_outcome lookup insert should_report
    result_of
emit id a t obs at s =
    let key = assignment_key a in
    let outcome = to_outcome obs.status in
    let changed = not (same_outcome (outcome_or_zero (lookup key s.last_outcome)) outcome) in
    let (report, seen) = should_report key obs at s.last_seen in
    record s {
      last_outcome = insert key outcome s.last_outcome;
      last_seen = seen;
      buffer = add s.buffer (result_of id a t obs at changed report);
    }

is_down : Status → Bool
is_down Status.down = true
is_down _ = false

-- The task that reschedule pushes; the attempt is a uint32.
pub next_task : Assignment → Task → Status → Instant → Task
unfolding assignment_key interval is_down ◌+ℤ◌
next_task a t status now =
    let key = assignment_key a in
    let kept = t.due +ℤ pos (interval a) in
    if is_down status && leb t.attempt a.retries
    then record {
      monitor_id = key;
      due =
          now
          +ℤ pos (
              if a.retry_interval_seconds == 0
              then interval a
              else a.retry_interval_seconds * second);
      attempt = (t.attempt + 1) % 2 ^ 32;
    }
    else record {
      monitor_id = key;
      due = if ltb_ℤ kept now then first_due key (interval a) now else kept;
      attempt = 1;
    }

pub reschedule : Assignment → Task → Status → Instant → Session → Session
unfolding next_task
reschedule a t status now s = record s { queue = push (next_task a t status now) s.queue }

-- The message says how late the check is, which the model leaves out.
pub shed_observation : Observation
shed_observation = record {
  status = Status.skipped;
  response_time_ns = 0;
  code = [];
  message = codes "shed under load";
  certificate = none;
  domain = none;
}

pub shed : Bytes → Assignment → Task → Instant → Session → Session
unfolding emit reschedule shed_observation
shed id a t now s =
    reschedule a t Status.skipped now
      (emit id a t shed_observation now (record s { skipped = (s.skipped + 1) % 2 ^ 64 }))

-- upside_down, which leaves what is said of the probe.
pub invert : Status → Observation → Observation
invert Status.up obs = record obs {
  status = Status.down;
  message = codes "check succeeded, but the monitor is upside down";
}
invert Status.down obs = record obs { status = Status.up; message = [] }
invert _ obs = obs

pub inverted : Bool → Observation → Observation
unfolding invert
inverted upside_down obs = if upside_down then invert obs.status obs else obs

-- The start of a check, on a worker that is free.
pub start_run : Assignment → Task → Session → Session
start_run a t s = record s {
  started = (s.started + 1) % 2 ^ 64;
  in_flight = s.in_flight ++ (a, t) ∷ [];
}

late : Assignment → Task → Instant → Bool
unfolding ◌-ℤ◌ interval
late a t now = ltb_ℤ (pos (interval a / 2)) (now -ℤ t.due)

start_or_shed : Bytes → Instant → Task → Option Assignment → Session → Session
unfolding late shed start_run
start_or_shed id now t none s = s
start_or_shed id now t (some a) s =
    if late a t now
    then shed id a t now s
    else (if ltb (length s.in_flight) s.max_concurrent then start_run a t s else shed id a t now s)

popped_turn : Bytes → Instant → Popped → Session → Session
unfolding start_or_shed lookup
popped_turn id now empty s = s
popped_turn id now (waiting d) s = s
popped_turn id now (ready t others) s =
    start_or_shed id now t (lookup t.monitor_id s.assignments) (record s { queue = others })

-- A turn of the loop of `schedule`.
pub schedule_turn : Bytes → Instant → Session → Session
unfolding popped_turn
schedule_turn id now s = popped_turn id now (pop now s.queue) s

pub no_checker : Bytes → Observation
no_checker kind = record {
  status = Status.unknown;
  response_time_ns = 0;
  code = [];
  message = codes "no checker for type " ++ kind;
  certificate = none;
  domain = none;
}

-- What run emits, where `none` says that the registry has no checker.
pub run_observation : Assignment → Option Observation → Observation
unfolding no_checker inverted
run_observation a none = no_checker a.kind
run_observation a (some obs) = inverted a.upside_down obs

remove_at : ℕ → List (Assignment × Task) → List (Assignment × Task)
remove_at i [] = []
remove_at zero (r ∷ rest) = rest
remove_at (suc i) (r ∷ rest) = r ∷ remove_at i rest

finish : Bytes → Assignment → Task → Observation → Instant → Instant → Session → Session
unfolding emit reschedule
finish id a t obs started_at now s =
    let s' = reschedule a t obs.status now (emit id a t obs started_at s) in
    record s' { completed = (s'.completed + 1) % 2 ^ 64 }

finish_found :
    Bytes
    → ℕ
    → Option (Assignment × Task)
    → Option Observation
    → Instant
    → Instant
    → Session
    → Session
unfolding finish run_observation remove_at
finish_found id i none obs started_at now s = s
finish_found id i (some (a, t)) obs started_at now s =
    finish id a t (run_observation a obs) started_at now
      (record s { in_flight = remove_at i s.in_flight })

-- The end of the check at a place among those under way.
pub finish_run : Bytes → ℕ → Option Observation → Instant → Instant → Session → Session
unfolding finish_found
finish_run id i obs started_at now s =
    finish_found id i (get_elem? s.in_flight i) obs started_at now s

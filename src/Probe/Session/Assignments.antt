-- ===== src/Probe/Session/Assignments.antt =====
-- internal/probe/watch.go: a full set and a delta of assignments.
pub mod Kept
use uptime_cairn.Base.{
  ℕ, zero, suc, ◌+◌, ◌-◌, ◌*◌, ◌/◌, ◌%◌, ◌^◌, Bool, true, false, not, ◌&&◌, ◌||◌, List, [], ◌∷◌,
  ◌++◌, Option, none, some, if◌then◌else◌, ltb, leb, ◌==◌, length, get_elem?,
}
use uptime_cairn.Base.Int.{ℤ, pos, ◌+ℤ◌, ◌-ℤ◌, ltb_ℤ, floor_div}
use uptime_cairn.Base.Bytes.{Bytes, codes, eqb}
use uptime_cairn.Base.Maps.{lookup, insert, remove}
use uptime_cairn.Model.{EntityId, Instant, Status, id_of_bytes}
use uptime_cairn.Probe.Wire
use uptime_cairn.Probe.Wire.{Outcome, Result, CertificateObservation, DomainObservation}
use uptime_cairn.Probe.Buffer.{Buffer, new_buffer, add}
use uptime_cairn.Probe.Schedule.{
  Task, push, Popped, empty, waiting, ready, pop, drop_monitor, first_due,
}
use uptime_cairn.Probe.Session.{
  Assignment, Reason, unsupported_type, interval_zero, invalid_config, Rejection, Registry,
  Observation, ObservationKey, certificate, domain, ObservationMark, Session, assignment_key,
  second, interval,
}

reject : Assignment → Reason → Rejection
reject a reason = record {
  monitor_id = a.monitor_id;
  config_version = a.config_version;
  reason = reason;
}

validate_config : Assignment → Option Bytes → Option Rejection
unfolding reject
validate_config a none = none
validate_config a (some error) = some (reject a (invalid_config error))

validate_with : Assignment → Option (Bytes → Option Bytes) → Option Rejection
unfolding reject validate_config
validate_with a none = some (reject a (unsupported_type a.kind))
validate_with a (some checker) =
    if a.interval_seconds == 0
    then some (reject a interval_zero)
    else validate_config a (checker a.config)

unfoldable pub validate : Registry → Assignment → Option Rejection
unfolding validate_with
validate registry a = validate_with a (registry a.kind)

-- A task for a monitor at its place in its interval.
pub fresh_task : Assignment → Instant → Task
unfolding assignment_key interval
fresh_task a now = record {
  monitor_id = assignment_key a;
  due = first_due (assignment_key a) (interval a) now;
  attempt = 1;
}

accepted_of :
    Registry → List Assignment → List (EntityId × Assignment) → List (EntityId × Assignment)
unfolding validate assignment_key insert
accepted_of registry [] accepted = accepted
accepted_of registry (a ∷ rest) accepted =
    accepted_of registry rest (elim (validate registry a) [
      | none ↦ insert (assignment_key a) a accepted
      | some r ↦ accepted
    ])

rejected_of : Registry → List Assignment → List Rejection
unfolding validate
rejected_of registry [] = []
rejected_of registry (a ∷ rest) =
    let others = rejected_of registry rest in
    elim (validate registry a) [ none ↦ others | some r ↦ r ∷ others ]

drop_keys : List (EntityId × Assignment) → List Task → List Task
drop_keys [] queue = queue
drop_keys (entry ∷ rest) queue = drop_keys rest (drop_monitor entry.0 queue)

push_entries : Instant → List (EntityId × Assignment) → List Task → List Task
unfolding interval
push_entries now [] queue = queue
push_entries now ((key, a) ∷ rest) queue =
    push_entries now rest
      (push (record { monitor_id = key; due = first_due key (interval a) now; attempt = 1 }) queue)

unfoldable pub apply_full_set : Registry → List Assignment → Instant → Session → Session
unfolding accepted_of rejected_of drop_keys push_entries
apply_full_set registry given now s =
    let accepted = accepted_of registry given [] in
    record s {
      assignments = accepted;
      rejections = s.rejections ++ rejected_of registry given;
      queue = push_entries now accepted (drop_keys s.assignments s.queue);
    }

add_rejection : Rejection → Session → Session
add_rejection r s = record s { rejections = s.rejections ++ r ∷ [] }

pub remove_assignment : EntityId → Session → Session
unfolding remove
remove_assignment key s = record s {
  assignments = remove key s.assignments;
  last_outcome = remove key s.last_outcome;
  last_seen = remove key s.last_seen;
}

-- What a delta does with an assignment that validation lets pass, added or updated.
pub accept_added : Assignment → Instant → Session → Session
unfolding insert assignment_key fresh_task
accept_added a now s = record s {
  assignments = insert (assignment_key a) a s.assignments;
  queue = push (fresh_task a now) s.queue;
}

pub accept_updated : Assignment → Instant → Session → Session
unfolding insert assignment_key fresh_task
accept_updated a now s = record s {
  assignments = insert (assignment_key a) a s.assignments;
  queue = push (fresh_task a now) (drop_monitor (assignment_key a) s.queue);
}

pub unassign : EntityId → Session → Session
unfolding remove_assignment
unassign key s = let s' = remove_assignment key s in record s' { queue = drop_monitor key s'.queue }

pub add_one : Registry → Instant → Assignment → Session → Session
unfolding validate accept_added add_rejection
add_one registry now a s = elim (validate registry a) [
  | none ↦ accept_added a now s
  | some r ↦ add_rejection r s
]

pub update_one : Registry → Instant → Assignment → Session → Session
unfolding validate accept_updated unassign add_rejection assignment_key
update_one registry now a s = elim (validate registry a) [
  | none ↦ accept_updated a now s
  | some r ↦ add_rejection r (unassign (assignment_key a) s)
]

add_all : Registry → Instant → List Assignment → Session → Session
unfolding add_one
add_all registry now [] s = s
add_all registry now (a ∷ rest) s = add_all registry now rest (add_one registry now a s)

update_all : Registry → Instant → List Assignment → Session → Session
unfolding update_one
update_all registry now [] s = s
update_all registry now (a ∷ rest) s = update_all registry now rest (update_one registry now a s)

remove_all : List Bytes → Session → Session
unfolding unassign id_of_bytes
remove_all [] s = s
remove_all (id ∷ rest) s = remove_all rest (unassign (id_of_bytes id) s)

pub record Delta : Type 0 where
  pub added : List Assignment
  pub updated : List Assignment
  pub removed : List Bytes

pub apply_delta : Registry → Delta → Instant → Session → Session
unfolding add_all update_all remove_all
apply_delta registry delta now s =
    remove_all delta.removed
      (update_all registry now delta.updated (add_all registry now delta.added s))

-- takeRejections
pub take_rejections : Session → List Rejection × Session
take_rejections s = (s.rejections, record s { rejections = [] })

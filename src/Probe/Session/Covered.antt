-- ===== src/Probe/Session/Covered.antt =====
-- No monitor is forgotten (internal/probe/session.go, watch.go, execute.go).
use uptime_cairn.Base.{ℕ, ◌<◌, ◌≡◌, List, [], ◌∷◌, Option, some}
use uptime_cairn.Base.Bytes.{Bytes}
use uptime_cairn.Base.Maps.{lookup}
use uptime_cairn.Model.{EntityId, Instant}
use uptime_cairn.Probe.Session.{Assignment, Registry, Observation, Session, new_session}
use uptime_cairn.Probe.Session.Invariant.{pending, Inv}
use uptime_cairn.Probe.Session.Assignments.{Delta, apply_full_set, apply_delta, take_rejections}
use uptime_cairn.Probe.Session.Assignments.Kept.{
  apply_full_set-Inv, apply_delta-Inv, take_rejections-Inv,
}
use uptime_cairn.Probe.Session.Results.{schedule_turn, finish_run}
use uptime_cairn.Probe.Session.Results.Kept.{schedule_turn-Inv, finish_run-Inv}

pub data Event : Type 0 where
  full_set : List Assignment → Instant → Event
  delta : Delta → Instant → Event
  turn : Bytes → Instant → Event
  finished : Bytes → ℕ → Option Observation → Instant → Instant → Event
  rejections_taken : Event

pub handle : Registry → Event → Session → Session
handle registry (full_set given now) s = apply_full_set registry given now s
handle registry (delta d now) s = apply_delta registry d now s
handle registry (turn id now) s = schedule_turn id now s
handle registry (finished id i obs started_at now) s = finish_run id i obs started_at now s
handle registry rejections_taken s = (take_rejections s).1

unfoldable pub run : Registry → List Event → Session → Session
unfolding handle
run registry [] s = s
run registry (e ∷ rest) s = run registry rest (handle registry e s)

handle-Inv : (registry : Registry) (e : Event) (s : Session) → Inv s → Inv (handle registry e s)
unfolding handle
handle-Inv registry (full_set given now) s inv = apply_full_set-Inv registry given now s inv
handle-Inv registry (delta d now) s inv = apply_delta-Inv registry d now s inv
handle-Inv registry (turn id now) s inv = schedule_turn-Inv id now s inv
handle-Inv registry (finished id i obs started_at now) s inv =
    finish_run-Inv id i obs started_at now s inv
handle-Inv registry rejections_taken s inv = take_rejections-Inv s inv

run-Inv :
    (registry : Registry) (events : List Event) (s : Session) → Inv s → Inv (run registry events s)
unfolding run
run-Inv registry [] s inv = inv
run-Inv registry (e ∷ rest) s inv =
    run-Inv registry rest (handle registry e s) (handle-Inv registry e s inv)

new_session-Inv : (max_concurrent : ℕ) → Inv (new_session max_concurrent)
unfolding new_session lookup
new_session-Inv max_concurrent = record {
  keyed = λ id a h. absurd (cc);
  matching = tt;
  covered = λ id a h. absurd (cc);
}

-- Whatever full sets, deltas, turns of the schedule and ends of checks a new session sees, in
-- whatever order, every monitor that is assigned has a task in the queue or under way.
pub assigned-pending :
    (registry : Registry) (max_concurrent : ℕ) (events : List Event) (id : EntityId)
    (a : Assignment)
    → lookup id (run registry events (new_session max_concurrent)).assignments ≡ some a
    → 0 < pending id (run registry events (new_session max_concurrent))
assigned-pending registry max_concurrent events id a h =
    (run-Inv registry events (new_session max_concurrent) (new_session-Inv max_concurrent)).covered
      id a h

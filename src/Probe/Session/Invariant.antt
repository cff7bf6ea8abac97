-- ===== src/Probe/Session/Invariant.antt =====
-- What holds of a session between two steps (internal/probe/session.go).
use uptime_cairn.Base.{ℕ, ◌+◌, ◌<◌, ◌≡◌, List, [], ◌∷◌, ◌++◌, some, arith, if◌then◌else◌, ◌==◌}
use uptime_cairn.Base.Maps.{lookup}
use uptime_cairn.Model.{EntityId}
use uptime_cairn.Probe.Schedule.{Task}
use uptime_cairn.Probe.Schedule.Pops.{tasks_of}
use uptime_cairn.Probe.Session.{Assignment, Session, assignment_key}

-- The checks of a monitor that are under way.
pub flights_of : EntityId → List (Assignment × Task) → ℕ
flights_of id [] = 0
flights_of id ((a, t) ∷ rest) =
    let n = flights_of id rest in if t.monitor_id == id then n + 1 else n

-- The tasks of a monitor, queued or under way.
abbrev pub pending : EntityId → Session → ℕ
pending id s = tasks_of id s.queue + flights_of id s.in_flight

-- A check that is under way belongs to the monitor of its assignment.
abbrev pub Matching : List (Assignment × Task) → Type 0
Matching [] = Unit
Matching ((a, t) ∷ rest) = (assignment_key a ≡ t.monitor_id) × Matching rest

-- An assignment stands under its key, and every monitor that is assigned has a task.
pub record Inv (s : Session) : Type 0 where
  pub keyed :
      (id : EntityId) (a : Assignment) → lookup id s.assignments ≡ some a → assignment_key a ≡ id
  pub matching : Matching s.in_flight
  pub covered :
      (id : EntityId) (a : Assignment) → lookup id s.assignments ≡ some a → 0 < pending id s

pub flights_of-append :
    (id : EntityId) (fs : List (Assignment × Task)) (a : Assignment) (t : Task)
    → flights_of id (fs ++ (a, t) ∷ []) ≡ flights_of id fs + (if t.monitor_id == id then 1 else 0)
unfolding flights_of
flights_of-append id [] a t = ground arith
flights_of-append id ((b, u) ∷ rest) a t = ground (arith, flights_of-append id rest a t)

pub Matching-append :
    (fs : List (Assignment × Task)) (a : Assignment) (t : Task)
    → Matching fs
    → assignment_key a ≡ t.monitor_id
    → Matching (fs ++ (a, t) ∷ [])
Matching-append [] a t m e = (e, tt)
Matching-append ((b, u) ∷ rest) a t m e = (m.0, Matching-append rest a t m.1 e)

pub flights_of-cons :
    (id : EntityId) (a : Assignment) (t : Task) (fs : List (Assignment × Task))
    → flights_of id ((a, t) ∷ fs) ≡ flights_of id fs + (if t.monitor_id == id then 1 else 0)
unfolding flights_of
flights_of-cons id a t fs = ground arith

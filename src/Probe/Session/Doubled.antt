-- ===== src/Probe/Session/Doubled.antt =====
-- An update that arrives while the monitor's check is under way (applyDelta, internal/probe/watch.go;
-- reschedule, internal/probe/execute.go).
use uptime_cairn.Base.{ℕ, ◌+◌, ◌≡◌, sym, ap, ◌∙◌, [], ◌∷◌, Option, none, some, get_elem?}
use uptime_cairn.Base.Bytes.{Bytes}
use uptime_cairn.Model.{Instant}
use uptime_cairn.Probe.Schedule.{Task}
use uptime_cairn.Probe.Schedule.Pops.{tasks_of}
use uptime_cairn.Probe.Session.{Assignment, Registry, Observation, Session, assignment_key}
use uptime_cairn.Probe.Session.Assignments.{validate, apply_delta}
use uptime_cairn.Probe.Session.Assignments.Kept.{tasks_of-update}
use uptime_cairn.Probe.Session.Results.{finish_run}
use uptime_cairn.Probe.Session.Results.Kept.{tasks_of-finish_run}

-- An accepted update of a monitor whose check is under way leaves two tasks of the monitor in the
-- queue once the check ends: the update's own and the one that the check's end adds.
pub update_doubles :
    (registry : Registry) (s : Session) (i : ℕ) (running a : Assignment) (t : Task) (now : Instant)
    (id : Bytes) (obs : Option Observation) (started_at later : Instant)
    → get_elem? s.in_flight i ≡ some (running, t)
    → assignment_key running ≡ assignment_key a
    → validate registry a ≡ none
    → tasks_of
        (assignment_key a)
        (finish_run id i obs started_at later (
          apply_delta registry (record { added = []; updated = a ∷ []; removed = [] }) now s)).queue
      ≡ 2
update_doubles registry s i running a t now id obs started_at later h same valid =
    let s' = apply_delta registry (record { added = []; updated = a ∷ []; removed = [] }) now s in
    let (one, kept) = tasks_of-update registry a now s valid in
    let still : get_elem? s'.in_flight i ≡ some (running, t) = ap (λ fs. get_elem? fs i) kept ∙ h in
    let after = tasks_of-finish_run id i obs started_at later s' running t still in
    ap (λ key. tasks_of key (finish_run id i obs started_at later s').queue) (sym same)
    ∙ after
    ∙ ap (λ (n : ℕ). n + 1) (ap (λ key. tasks_of key s'.queue) same ∙ one)

-- ===== src/Probe/Session/Results/Kept.antt =====
-- The invariant under the start, the shedding and the end of checks (internal/probe/execute.go).
use uptime_cairn.Base.{
  ℕ, zero, suc, ◌+◌, ◌≤◌, ◌≡◌, refl, sym, ap, ◌∙◌, List, [], ◌∷◌, Option, none, some, arith,
  if◌then◌else◌, ◌==◌, Bool-cases, inl, inr, get_elem?, ltb, length,
}
use uptime_cairn.Base.Bytes.{Bytes}
use uptime_cairn.Base.Maps.{lookup}
use uptime_cairn.Model.{EntityId, Instant, Status}
use uptime_cairn.Probe.Schedule.{Task, push, Popped, empty, waiting, ready, pop}
use uptime_cairn.Probe.Schedule.Pops.{tasks_of, tasks_of-push, tasks_of-cons, tasks_of-pop}
use uptime_cairn.Probe.Session.{Assignment, Session, Observation, assignment_key}
use uptime_cairn.Probe.Session.Invariant.{
  flights_of, flights_of-cons, flights_of-append, Matching, Matching-append, pending, Inv,
}
use uptime_cairn.Probe.Session.Results.{
  emit, next_task, reschedule, shed, start_run, late, start_or_shed, popped_turn, schedule_turn,
  run_observation, remove_at, finish, finish_found, finish_run,
}

next_task-monitor :
    (a : Assignment) (t : Task) (status : Status) (now : Instant)
    → (next_task a t status now).monitor_id ≡ assignment_key a
unfolding next_task
next_task-monitor a t status now = ground arith

-- A step that leaves the assignments, and loses no task.
moved-Inv :
    (s s' : Session)
    → s'.assignments ≡ s.assignments
    → Matching s'.in_flight
    → ((id : EntityId) (a : Assignment)
        → lookup id s.assignments ≡ some a
        → pending id s ≤ pending id s')
    → Inv s
    → Inv s'
moved-Inv s s' same m more inv = record {
  keyed = λ id a h. inv.keyed id a (ap (lookup id) (sym same) ∙ h);
  matching = m;
  covered = λ id a h.
      let was = ap (lookup id) (sym same) ∙ h in omega (arith, inv.covered id a was, more id a was);
}

emit-assignments :
    (id : Bytes) (a : Assignment) (t : Task) (obs : Observation) (at : Instant) (s : Session)
    → (emit id a t obs at s).assignments ≡ s.assignments
unfolding emit
emit-assignments id a t obs at s = refl

emit-queue :
    (id : Bytes) (a : Assignment) (t : Task) (obs : Observation) (at : Instant) (s : Session)
    → (emit id a t obs at s).queue ≡ s.queue
unfolding emit
emit-queue id a t obs at s = refl

emit-in_flight :
    (id : Bytes) (a : Assignment) (t : Task) (obs : Observation) (at : Instant) (s : Session)
    → (emit id a t obs at s).in_flight ≡ s.in_flight
unfolding emit
emit-in_flight id a t obs at s = refl

tasks_of-reschedule :
    (key : EntityId) (a : Assignment) (t : Task) (status : Status) (now : Instant)
    (queue : List Task)
    → tasks_of key (push (next_task a t status now) queue)
      ≡ tasks_of key queue + (if assignment_key a == key then 1 else 0)
tasks_of-reschedule key a t status now queue =
    tasks_of-push key (next_task a t status now) queue
    ∙ tasks_of-cons key (next_task a t status now) queue
    ∙ ap (λ id. tasks_of key queue + (if id == key then 1 else 0))
        (next_task-monitor a t status now)

-- A task that was taken off the queue is queued again, or under way.
shed-pending :
    (id : Bytes) (a : Assignment) (t : Task) (now : Instant) (s : Session) (key : EntityId)
    → assignment_key a ≡ t.monitor_id
    → pending key (shed id a t now s) ≡ pending key s + (if t.monitor_id == key then 1 else 0)
unfolding shed reschedule emit
shed-pending id a t now s key e =
    let again = tasks_of-reschedule key a t Status.skipped now s.queue in
    rw (← e) (omega (arith, again))

start_run-pending :
    (a : Assignment) (t : Task) (s : Session) (key : EntityId)
    → pending key (start_run a t s) ≡ pending key s + (if t.monitor_id == key then 1 else 0)
unfolding start_run
start_run-pending a t s key = omega (arith, flights_of-append key s.in_flight a t)

-- With a task taken out of its queue, a session in which only that task's monitor may lack one.
record Taken (t : Task) (s s' : Session) : Type 0 where
  assignments : s'.assignments ≡ s.assignments
  in_flight : s'.in_flight ≡ s.in_flight
  queue :
      (key : EntityId)
      → tasks_of key s.queue ≡ tasks_of key s'.queue + (if t.monitor_id == key then 1 else 0)

shed-Inv :
    (id : Bytes) (a : Assignment) (t : Task) (now : Instant) (s s' : Session)
    → Taken t s s'
    → assignment_key a ≡ t.monitor_id
    → Inv s
    → Inv (shed id a t now s')
shed-Inv id a t now s s' taken e inv =
    moved-Inv s (shed id a t now s') (unfold shed reschedule emit in taken.assignments)
      (unfold shed reschedule emit in rw taken.in_flight inv.matching)
      (λ key b h. omega (
        arith,
        shed-pending id a t now s' key e,
        taken.queue key,
        ap (flights_of key) taken.in_flight,
      ))
      inv

start_run-Inv :
    (a : Assignment) (t : Task) (s s' : Session)
    → Taken t s s'
    → assignment_key a ≡ t.monitor_id
    → Inv s
    → Inv (start_run a t s')
start_run-Inv a t s s' taken e inv =
    moved-Inv s (start_run a t s') (unfold start_run in taken.assignments)
      (unfold start_run in rw taken.in_flight (Matching-append s.in_flight a t inv.matching e))
      (λ key b h.
        omega (
          arith,
          start_run-pending a t s' key,
          taken.queue key,
          ap (flights_of key) taken.in_flight,
        ))
      inv

start_or_shed-Inv :
    (id : Bytes) (now : Instant) (t : Task) (found : Option Assignment) (s s' : Session)
    → Taken t s s'
    → lookup t.monitor_id s.assignments ≡ found
    → Inv s
    → Inv (start_or_shed id now t found s')
unfolding start_or_shed
start_or_shed-Inv id now t none s s' taken h inv =
    moved-Inv s s' taken.assignments (rw taken.in_flight inv.matching)
      (λ key b held. elim (Bool-cases (t.monitor_id == key)) [
        | inl e ↦
            let here : t.monitor_id ≡ key = ground arith in
            absurd (let both : none ≡ some b = sym h ∙ rw here held in cc)
        | inr e ↦
            let same : tasks_of key s.queue ≡ tasks_of key s'.queue + 0 =
              taken.queue key ∙ rw e refl in
            omega (arith, same, ap (flights_of key) taken.in_flight)
      ])
      inv
start_or_shed-Inv id now t (some a) s s' taken h inv =
    let own = inv.keyed t.monitor_id a h in
    elim (Bool-cases (late a t now)) [
      | inl e ↦ rw e (shed-Inv id a t now s s' taken own inv)
      | inr e ↦ elim (Bool-cases (ltb (length s'.in_flight) s'.max_concurrent)) [
        | inl f ↦ rw (e, f) (start_run-Inv a t s s' taken own inv)
        | inr f ↦ rw (e, f) (shed-Inv id a t now s s' taken own inv)
      ]
    ]

popped_turn-Inv :
    (id : Bytes) (now : Instant) (popped : Popped) (s : Session)
    → pop now s.queue ≡ popped
    → Inv s
    → Inv (popped_turn id now popped s)
unfolding popped_turn
popped_turn-Inv id now empty s h inv = inv
popped_turn-Inv id now (waiting d) s h inv = inv
popped_turn-Inv id now (ready t others) s h inv =
    let s' : Session = record s { queue = others } in
    let taken : Taken t s s' = record {
      assignments = refl;
      in_flight = refl;
      queue = λ key. sym (tasks_of-pop key now s.queue t others h) ∙ tasks_of-cons key t others;
    } in
    start_or_shed-Inv id now t (lookup t.monitor_id s.assignments) s s' taken refl inv

pub schedule_turn-Inv :
    (id : Bytes) (now : Instant) (s : Session) → Inv s → Inv (schedule_turn id now s)
unfolding schedule_turn
schedule_turn-Inv id now s inv = popped_turn-Inv id now (pop now s.queue) s refl inv

flights_of-remove_at :
    (key : EntityId) (i : ℕ) (fs : List (Assignment × Task)) (a : Assignment) (t : Task)
    → get_elem? fs i ≡ some (a, t)
    → flights_of key fs ≡ flights_of key (remove_at i fs) + (if t.monitor_id == key then 1 else 0)
unfolding remove_at
flights_of-remove_at key i [] a t h = absurd cc
flights_of-remove_at key zero ((b, u) ∷ rest) a t h =
    let same : u ≡ t = cc in rw (← same) (flights_of-cons key b u rest)
flights_of-remove_at key (suc i) ((b, u) ∷ rest) a t h = omega (
  arith,
  flights_of-cons key b u rest,
  flights_of-cons key b u (remove_at i rest),
  flights_of-remove_at key i rest a t h,
)

Matching-remove_at :
    (i : ℕ) (fs : List (Assignment × Task)) → Matching fs → Matching (remove_at i fs)
unfolding remove_at
Matching-remove_at i [] m = tt
Matching-remove_at zero ((b, u) ∷ rest) m = m.1
Matching-remove_at (suc i) ((b, u) ∷ rest) m = (m.0, Matching-remove_at i rest m.1)

Matching-get :
    (i : ℕ) (fs : List (Assignment × Task)) (a : Assignment) (t : Task)
    → Matching fs
    → get_elem? fs i ≡ some (a, t)
    → assignment_key a ≡ t.monitor_id
Matching-get i [] a t m h = absurd cc
Matching-get zero ((b, u) ∷ rest) a t m h =
    let one : b ≡ a = cc in let two : u ≡ t = cc in rw (← one, ← two) m.0
Matching-get (suc i) ((b, u) ∷ rest) a t m h = Matching-get i rest a t m.1 h

finish-pending :
    (id : Bytes) (a : Assignment) (t : Task) (obs : Observation) (started_at now : Instant)
    (s : Session) (key : EntityId)
    → pending key (finish id a t obs started_at now s)
      ≡ pending key s + (if assignment_key a == key then 1 else 0)
unfolding finish reschedule emit
finish-pending id a t obs started_at now s key =
    omega (arith, tasks_of-reschedule key a t obs.status now s.queue)

finish_found-Inv :
    (id : Bytes) (i : ℕ) (found : Option (Assignment × Task)) (obs : Option Observation)
    (started_at now : Instant) (s : Session)
    → get_elem? s.in_flight i ≡ found
    → Inv s
    → Inv (finish_found id i found obs started_at now s)
unfolding finish_found
finish_found-Inv id i none obs started_at now s h inv = inv
finish_found-Inv id i (some (a, t)) obs started_at now s h inv =
    let s' : Session = record s { in_flight = remove_at i s.in_flight } in
    let own = Matching-get i s.in_flight a t inv.matching h in
    moved-Inv s (finish id a t (run_observation a obs) started_at now s')
      (unfold finish reschedule emit in refl)
      (unfold finish reschedule emit in Matching-remove_at i s.in_flight inv.matching)
      (λ key b held.
        let again = finish-pending id a t (run_observation a obs) started_at now s' key in
        let same : ◌≡◌ {A = ℕ} (if assignment_key a == key then 1 else 0)
            (if t.monitor_id == key then 1 else 0) =
          ap (λ (k : ℕ). if k == key then 1 else 0) own in
        omega (arith, again, flights_of-remove_at key i s.in_flight a t h, same))
      inv

pub finish_run-Inv :
    (id : Bytes) (i : ℕ) (obs : Option Observation) (started_at now : Instant) (s : Session)
    → Inv s
    → Inv (finish_run id i obs started_at now s)
unfolding finish_run
finish_run-Inv id i obs started_at now s inv =
    finish_found-Inv id i (get_elem? s.in_flight i) obs started_at now s refl inv

-- The end of a check queues its monitor again.
pub tasks_of-finish_run :
    (id : Bytes) (i : ℕ) (obs : Option Observation) (started_at now : Instant) (s : Session)
    (a : Assignment) (t : Task)
    → get_elem? s.in_flight i ≡ some (a, t)
    → tasks_of (assignment_key a) (finish_run id i obs started_at now s).queue
      ≡ tasks_of (assignment_key a) s.queue + 1
unfolding finish_run finish_found finish reschedule emit
tasks_of-finish_run id i obs started_at now s a t h =
    rw (h, finish_found)
      (tasks_of-reschedule (assignment_key a) a t (run_observation a obs).status now s.queue
        ∙ ground arith)

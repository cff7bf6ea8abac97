-- ===== src/Probe/Schedule/Pops.antt =====
-- What pop and drop do to the queue (internal/probe/scheduler.go).
use mathlib.Core.List.{Perm}
use mathlib.Core.List.Perm
use uptime_cairn.Base.{
  ℕ, ◌+◌, ◌≡◌, refl, List, [], ◌∷◌, arith, if◌then◌else◌, ◌==◌, Bool-cases, inl, inr,
}
use uptime_cairn.Base.Int.{◌≤ℤ◌, ◌<ℤ◌, ◌-ℤ◌, ltb_ℤ}
use uptime_cairn.Model.{EntityId, Instant}
use uptime_cairn.Probe.Schedule.{
  Task, push, earliest, Popped, empty, waiting, ready, pop_first, pop, drop_monitor,
}

-- No task of a list is due before an instant.
abbrev pub NoneBefore : Instant → List Task → Type 0
NoneBefore at [] = Unit
NoneBefore at (t ∷ rest) = (at ≤ℤ t.due) × NoneBefore at rest

later_none_before : (a b : Instant) (ts : List Task) → a ≤ℤ b → NoneBefore b ts → NoneBefore a ts
later_none_before a b [] h k = tt
later_none_before a b (t ∷ rest) h k = (omega (arith, k.0), later_none_before a b rest h k.1)

record Earliest (queue : List Task) (first : Task) (others : List Task) : Type 0 where
  same : Perm (first ∷ others) queue
  none_before : NoneBefore first.due others
  whole : NoneBefore first.due queue

earliest_lem :
    (t : Task) (rest : List Task) → Earliest (t ∷ rest) (earliest t rest).0 (earliest t rest).1
unfolding earliest
earliest_lem t [] = record {
  same = Perm.refl (t ∷ []);
  none_before = tt;
  whole = (omega arith, tt);
}
earliest_lem t (u ∷ rest) =
    let (first, others) = earliest u rest in
    let found = earliest_lem u rest in
    elim (Bool-cases (ltb_ℤ first.due t.due)) [
      | inl e ↦ rw e (record {
        same = Perm.trans (Perm.swap t first others) (Perm.cons t found.same);
        none_before = (ground arith, found.none_before);
        whole = (ground arith, found.whole);
      })
      | inr e ↦
          let ordered : t.due ≤ℤ first.due = ground arith in
          rw e (record {
            same = Perm.refl (t ∷ u ∷ rest);
            none_before = later_none_before t.due first.due (u ∷ rest) ordered found.whole;
            whole = (omega arith, later_none_before t.due first.due (u ∷ rest) ordered found.whole);
          })
    ]

-- What pop answers of a queue at an instant.
abbrev pub Answers : Instant → List Task → Popped → Type 0
Answers now queue empty = queue ≡ []
Answers now queue (waiting d) =
    (t : Task) × (rest : List Task) × Perm (t ∷ rest) queue
    × NoneBefore t.due queue
    × (now <ℤ t.due)
    × (d ≡ t.due -ℤ now)
Answers now queue (ready t others) =
    Perm (t ∷ others) queue × NoneBefore t.due queue × (t.due ≤ℤ now)

pop_first-Answers :
    (now : Instant) (queue : List Task) (first : Task) (others : List Task)
    → Earliest queue first others
    → Answers now queue (pop_first now (first, others))
unfolding pop_first
pop_first-Answers now queue first others e = elim (Bool-cases (ltb_ℤ now first.due)) [
  | inl wait ↦ rw wait (first, others, e.same, e.whole, ground arith, refl)
  | inr due ↦ rw due (e.same, e.whole, ground arith)
]

-- Pop takes out the earliest task where that is due, and else tells how long it is until then.
pub pop-Answers : (now : Instant) (queue : List Task) → Answers now queue (pop now queue)
unfolding pop
pop-Answers now [] = refl
pop-Answers now (t ∷ rest) =
    pop_first-Answers now (t ∷ rest) (earliest t rest).0 (earliest t rest).1 (earliest_lem t rest)

-- The tasks of a monitor.
pub tasks_of : EntityId → List Task → ℕ
tasks_of id [] = 0
tasks_of id (t ∷ rest) = let n = tasks_of id rest in if t.monitor_id == id then n + 1 else n

pub tasks_of-push :
    (id : EntityId) (t : Task) (queue : List Task)
    → tasks_of id (push t queue) ≡ tasks_of id (t ∷ queue)
unfolding tasks_of push
tasks_of-push id t [] = refl
tasks_of-push id t (u ∷ rest) = ground (arith, tasks_of-push id t rest)

pub tasks_of-drop :
    (id other : EntityId) (queue : List Task)
    → tasks_of other (drop_monitor id queue) ≡ (if id == other then 0 else tasks_of other queue)
unfolding tasks_of drop_monitor
tasks_of-drop id other [] = ground arith
tasks_of-drop id other (u ∷ rest) = ground (arith, tasks_of-drop id other rest)

tasks_of-earliest :
    (id : EntityId) (t : Task) (rest : List Task)
    → tasks_of id ((earliest t rest).0 ∷ (earliest t rest).1) ≡ tasks_of id (t ∷ rest)
unfolding tasks_of earliest
tasks_of-earliest id t [] = refl
tasks_of-earliest id t (u ∷ rest) = elim (Bool-cases (ltb_ℤ (earliest u rest).0.due t.due)) [
  | inl e ↦ rw e (ground (arith, tasks_of-earliest id u rest))
  | inr e ↦ rw e refl
]

pub tasks_of-pop :
    (id : EntityId) (now : Instant) (queue : List Task) (t : Task) (others : List Task)
    → pop now queue ≡ ready t others
    → tasks_of id (t ∷ others) ≡ tasks_of id queue
unfolding pop pop_first
tasks_of-pop id now [] t others h = absurd cc
tasks_of-pop id now (u ∷ rest) t others h = elim (Bool-cases (ltb_ℤ now (earliest u rest).0.due)) [
  | inl e ↦
      absurd
        (let h' : waiting ((earliest u rest).0.due -ℤ now) ≡ ready t others = simp e at h in cc)
  | inr e ↦
      let h' : ready (earliest u rest).0 (earliest u rest).1 ≡ ready t others = simp e at h in
      let one : (earliest u rest).0 ≡ t = cc in
      let two : (earliest u rest).1 ≡ others = cc in rw (← one, ← two) (tasks_of-earliest id u rest)
]

pub tasks_of-cons :
    (id : EntityId) (t : Task) (queue : List Task)
    → tasks_of id (t ∷ queue) ≡ tasks_of id queue + (if t.monitor_id == id then 1 else 0)
unfolding tasks_of
tasks_of-cons id t queue = ground arith

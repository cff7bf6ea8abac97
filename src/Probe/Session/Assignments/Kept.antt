-- ===== src/Probe/Session/Assignments/Kept.antt =====
-- The invariant under changes of the assignments (internal/probe/watch.go).
use uptime_cairn.Base.{
  ◌+◌, ◌≤◌, ◌<◌, ◌≡◌, refl, sym, ◌∙◌, false, List, [], ◌∷◌, none, some, arith, ◌==◌, Bool-cases,
  Option-cases, inl, inr,
}
use uptime_cairn.Base.Bytes.{Bytes}
use uptime_cairn.Base.Maps.{lookup, insert, lookup-insert, lookup-remove}
use uptime_cairn.Model.{EntityId, Instant, id_of_bytes}
use uptime_cairn.Probe.Schedule.{Task, push, drop_monitor, first_due}
use uptime_cairn.Probe.Schedule.Pops.{tasks_of, tasks_of-push, tasks_of-drop, tasks_of-cons}
use uptime_cairn.Probe.Session.{Assignment, Rejection, Registry, Session, assignment_key, interval}
use uptime_cairn.Probe.Session.Invariant.{Inv}
use uptime_cairn.Probe.Session.Assignments.{
  validate, fresh_task, accepted_of, drop_keys, push_entries, apply_full_set, add_rejection,
  remove_assignment, accept_added, accept_updated, unassign, add_one, update_one, add_all,
  update_all, remove_all, Delta, apply_delta, take_rejections,
}

add_rejection-Inv : (r : Rejection) (s : Session) → Inv s → Inv (add_rejection r s)
unfolding add_rejection
add_rejection-Inv r s inv = record {
  keyed = inv.keyed;
  matching = inv.matching;
  covered = inv.covered;
}

-- An assignment under its key, and a queue that has a task of it and no fewer of any other monitor.
put-Inv :
    (a : Assignment) (s : Session) (queue : List Task)
    → 0 < tasks_of (assignment_key a) queue
    → ((id : EntityId) → (assignment_key a == id) ≡ false → tasks_of id s.queue ≤ tasks_of id queue)
    → Inv s
    → Inv (record s { assignments = insert (assignment_key a) a s.assignments; queue = queue })
put-Inv a s queue some_task others inv = record {
  keyed = λ id b h. elim (Bool-cases (assignment_key a == id)) [
    | inl e ↦
        let it : some a ≡ some b =
          sym (lookup-insert (assignment_key a) id a s.assignments ∙ rw e refl) ∙ h in
        let same : a ≡ b = cc in rw (← same) (ground arith)
    | inr e ↦
        inv.keyed id b (sym (lookup-insert (assignment_key a) id a s.assignments ∙ rw e refl) ∙ h)
  ];
  matching = inv.matching;
  covered = λ id b h. elim (Bool-cases (assignment_key a == id)) [
    | inl e ↦
        let here : assignment_key a ≡ id = ground arith in
        let task : 0 < tasks_of id queue = rw (← here) some_task in omega arith
    | inr e ↦
        let old =
          inv.covered id b
            (sym (lookup-insert (assignment_key a) id a s.assignments ∙ rw e refl) ∙ h) in
        omega (arith, old, others id e)
  ];
}

fresh_task-monitor :
    (a : Assignment) (now : Instant) → (fresh_task a now).monitor_id ≡ assignment_key a
unfolding fresh_task
fresh_task-monitor a now = refl

tasks_of-push_self :
    (t : Task) (queue : List Task)
    → tasks_of t.monitor_id (push t queue) ≡ tasks_of t.monitor_id queue + 1
tasks_of-push_self t queue =
    ground (arith, tasks_of-push t.monitor_id t queue, tasks_of-cons t.monitor_id t queue)

tasks_of-push_le :
    (id : EntityId) (t : Task) (queue : List Task) → tasks_of id queue ≤ tasks_of id (push t queue)
tasks_of-push_le id t queue = ground (arith, tasks_of-push id t queue, tasks_of-cons id t queue)

pub accept_added-Inv :
    (a : Assignment) (now : Instant) (s : Session) → Inv s → Inv (accept_added a now s)
unfolding accept_added
accept_added-Inv a now s inv =
    put-Inv a s (push (fresh_task a now) s.queue)
      (omega (arith, tasks_of-push_self (fresh_task a now) s.queue))
      (λ id e. tasks_of-push_le id (fresh_task a now) s.queue) inv

pub accept_updated-Inv :
    (a : Assignment) (now : Instant) (s : Session) → Inv s → Inv (accept_updated a now s)
unfolding accept_updated
accept_updated-Inv a now s inv =
    let dropped = drop_monitor (assignment_key a) s.queue in
    put-Inv a s (push (fresh_task a now) dropped)
      (omega (arith, tasks_of-push_self (fresh_task a now) dropped))
      (λ id e.
        let same : tasks_of id dropped ≡ tasks_of id s.queue =
          tasks_of-drop (assignment_key a) id s.queue ∙ rw e refl in
        omega (arith, same, tasks_of-push_le id (fresh_task a now) dropped))
      inv

pub unassign-Inv : (key : EntityId) (s : Session) → Inv s → Inv (unassign key s)
unfolding unassign remove_assignment
unassign-Inv key s inv = record {
  keyed = λ id a h. elim (Bool-cases (key == id)) [
    | inl e ↦
        absurd (
          let gone : none ≡ some a = sym (lookup-remove key id s.assignments ∙ rw e refl) ∙ h in cc)
    | inr e ↦ inv.keyed id a (sym (lookup-remove key id s.assignments ∙ rw e refl) ∙ h)
  ];
  matching = inv.matching;
  covered = λ id a h. elim (Bool-cases (key == id)) [
    | inl e ↦
        absurd (
          let gone : none ≡ some a = sym (lookup-remove key id s.assignments ∙ rw e refl) ∙ h in cc)
    | inr e ↦
        let old = inv.covered id a (sym (lookup-remove key id s.assignments ∙ rw e refl) ∙ h) in
        let same : tasks_of id (drop_monitor key s.queue) ≡ tasks_of id s.queue =
          tasks_of-drop key id s.queue ∙ rw e refl in
        omega (arith, old, same)
  ];
}

add_one-Inv :
    (registry : Registry) (now : Instant) (a : Assignment) (s : Session)
    → Inv s
    → Inv (add_one registry now a s)
unfolding add_one
add_one-Inv registry now a s inv = elim (Option-cases (validate registry a)) [
  | inl e ↦ rw (e, add_one) (accept_added-Inv a now s inv)
  | inr (r, e) ↦ rw (e, add_one) (add_rejection-Inv r s inv)
]

update_one-Inv :
    (registry : Registry) (now : Instant) (a : Assignment) (s : Session)
    → Inv s
    → Inv (update_one registry now a s)
unfolding update_one
update_one-Inv registry now a s inv = elim (Option-cases (validate registry a)) [
  | inl e ↦ rw (e, update_one) (accept_updated-Inv a now s inv)
  | inr (r, e) ↦
      rw (e, update_one)
        (add_rejection-Inv r (unassign (assignment_key a) s)
          (unassign-Inv (assignment_key a) s inv))
]

add_all-Inv :
    (registry : Registry) (now : Instant) (given : List Assignment) (s : Session)
    → Inv s
    → Inv (add_all registry now given s)
unfolding add_all
add_all-Inv registry now [] s inv = inv
add_all-Inv registry now (a ∷ rest) s inv =
    add_all-Inv registry now rest (add_one registry now a s) (add_one-Inv registry now a s inv)

update_all-Inv :
    (registry : Registry) (now : Instant) (given : List Assignment) (s : Session)
    → Inv s
    → Inv (update_all registry now given s)
unfolding update_all
update_all-Inv registry now [] s inv = inv
update_all-Inv registry now (a ∷ rest) s inv =
    update_all-Inv registry now rest (update_one registry now a s)
      (update_one-Inv registry now a s inv)

remove_all-Inv : (ids : List Bytes) (s : Session) → Inv s → Inv (remove_all ids s)
unfolding remove_all
remove_all-Inv [] s inv = inv
remove_all-Inv (id ∷ rest) s inv =
    remove_all-Inv rest (unassign (id_of_bytes id) s) (unassign-Inv (id_of_bytes id) s inv)

pub apply_delta-Inv :
    (registry : Registry) (delta : Delta) (now : Instant) (s : Session)
    → Inv s
    → Inv (apply_delta registry delta now s)
unfolding apply_delta
apply_delta-Inv registry delta now s inv =
    remove_all-Inv delta.removed _
      (update_all-Inv registry now delta.updated _ (add_all-Inv registry now delta.added s inv))

-- Every entry stands under its key.
abbrev Keyed : List (EntityId × Assignment) → Type 0
Keyed entries =
    (id : EntityId) (a : Assignment) → lookup id entries ≡ some a → assignment_key a ≡ id

insert-Keyed :
    (a : Assignment) (entries : List (EntityId × Assignment))
    → Keyed entries
    → Keyed (insert (assignment_key a) a entries)
insert-Keyed a entries k id b h = elim (Bool-cases (assignment_key a == id)) [
  | inl e ↦
      let it : some a ≡ some b =
        sym (lookup-insert (assignment_key a) id a entries ∙ rw e refl) ∙ h in
      let same : a ≡ b = cc in rw (← same) (ground arith)
  | inr e ↦ k id b (sym (lookup-insert (assignment_key a) id a entries ∙ rw e refl) ∙ h)
]

accepted_of-Keyed :
    (registry : Registry) (given : List Assignment) (entries : List (EntityId × Assignment))
    → Keyed entries
    → Keyed (accepted_of registry given entries)
unfolding accepted_of
accepted_of-Keyed registry [] entries k = k
accepted_of-Keyed registry (a ∷ rest) entries k = elim (Option-cases (validate registry a)) [
  | inl e ↦ rw e (
      accepted_of-Keyed registry rest (insert (assignment_key a) a entries)
        (insert-Keyed a entries k))
  | inr (r, e) ↦ rw e (accepted_of-Keyed registry rest entries k)
]

push_entries-keeps :
    (now : Instant) (entries : List (EntityId × Assignment)) (queue : List Task) (id : EntityId)
    → tasks_of id queue ≤ tasks_of id (push_entries now entries queue)
unfolding push_entries
push_entries-keeps now [] queue id = omega arith
push_entries-keeps now ((key, a) ∷ rest) queue id =
    let t : Task = record { monitor_id = key; due = first_due key (interval a) now; attempt = 1 } in
    omega (arith, tasks_of-push_le id t queue, push_entries-keeps now rest (push t queue) id)

push_entries-covers :
    (now : Instant) (entries : List (EntityId × Assignment)) (queue : List Task) (id : EntityId)
    (a : Assignment)
    → lookup id entries ≡ some a
    → 0 < tasks_of id (push_entries now entries queue)
unfolding push_entries lookup
push_entries-covers now [] queue id a h = absurd cc
push_entries-covers now ((key, b) ∷ rest) queue id a h =
    let t : Task = record { monitor_id = key; due = first_due key (interval b) now; attempt = 1 } in
    elim (Bool-cases (key == id)) [
      | inl e ↦
          let here : key ≡ id = ground arith in
          let mine : 0 < tasks_of id (push t queue) =
            rw (← here) (omega (arith, tasks_of-push_self t queue)) in
          omega (arith, mine, push_entries-keeps now rest (push t queue) id)
      | inr e ↦
          let further : lookup id rest ≡ some a = simp e at h in
          push_entries-covers now rest (push t queue) id a further
    ]

pub apply_full_set-Inv :
    (registry : Registry) (given : List Assignment) (now : Instant) (s : Session)
    → Inv s
    → Inv (apply_full_set registry given now s)
unfolding apply_full_set
apply_full_set-Inv registry given now s inv =
    let accepted = accepted_of registry given [] in
    record {
      keyed = accepted_of-Keyed registry given [] (λ id a h. absurd (unfold lookup in cc));
      matching = inv.matching;
      covered = λ id a h.
          omega (arith, push_entries-covers now accepted (drop_keys s.assignments s.queue) id a h);
    }

pub take_rejections-Inv : (s : Session) → Inv s → Inv (take_rejections s).1
unfolding take_rejections
take_rejections-Inv s inv = record {
  keyed = inv.keyed;
  matching = inv.matching;
  covered = inv.covered;
}

-- An update that passes leaves one task of its monitor in the queue, and the checks under way.
pub tasks_of-update :
    (registry : Registry) (a : Assignment) (now : Instant) (s : Session)
    → validate registry a ≡ none
    → let s' = apply_delta registry (record { added = []; updated = a ∷ []; removed = [] }) now s in
      (tasks_of (assignment_key a) s'.queue ≡ 1) × (s'.in_flight ≡ s.in_flight)
unfolding apply_delta add_all update_all remove_all update_one accept_updated
tasks_of-update registry a now s valid =
    let dropped = drop_monitor (assignment_key a) s.queue in
    let none_left : tasks_of (assignment_key a) dropped ≡ 0 =
      tasks_of-drop (assignment_key a) (assignment_key a) s.queue ∙ ground arith in
    rw (valid, update_one)
      (omega (arith, tasks_of-push_self (fresh_task a now) dropped, none_left), refl)

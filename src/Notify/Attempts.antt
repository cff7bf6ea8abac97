-- ===== src/Notify/Attempts.antt =====
-- How often a delivery is attempted (internal/notify/dispatcher.go).
use uptime_cairn.Base.{
  ℕ, zero, suc, ◌+◌, ◌≤◌, ◌≡◌, refl, Bool, ◌&&◌, List, [], ◌∷◌, ◌++◌, Option, none, some, All,
  All-append, ltb, arith, Bool-cases, Option-cases, inl, inr, if◌then◌else◌,
}
use uptime_cairn.Base.Bytes.{Bytes}
use uptime_cairn.Model.{EntityId}
use uptime_cairn.Notify.{
  Event, Channel, SendError, not_applicable, render, other, provider, Delivery, Job, Dispatcher,
  Met, max_attempts, retryable, row_of, recorded_row, mark, schedule_retry, concluded, attempt,
  attempt_each, fan_out, run, has_room, publish, worked, work, requeue, take_timer, fired, fire,
  new_dispatcher, wants_event,
}

abbrev pub IsAttempt : ℕ → Type 0
IsAttempt n = (1 ≤ n) × (n ≤ max_attempts)

pub record Bounded (d : Dispatcher) : Type 0 where
  pub queued : All (λ j. IsAttempt j.attempt) d.queue
  pub waiting : All (λ j. IsAttempt j.attempt) d.timers
  pub rows : All (λ r. IsAttempt r.attempt) d.deliveries

recorded_row-Bounded :
    (ev : Event) (c : Channel) (n : ℕ) (met : Met) (d : Dispatcher)
    → IsAttempt n
    → Bounded d
    → Bounded (recorded_row ev c n met d)
unfolding recorded_row row_of
recorded_row-Bounded ev c n met d h b = elim (Bool-cases met.recorded) [
  | inl e ↦ rw e (record {
    queued = b.queued;
    waiting = b.waiting;
    rows = All-append (λ (r : Delivery). IsAttempt r.attempt) d.deliveries _ b.rows (h, tt);
  })
  | inr e ↦ rw e b
]

mark-Bounded :
    (id : EntityId) (text : Bytes) (met : Met) (d : Dispatcher)
    → Bounded d
    → Bounded (mark id text met d)
unfolding mark
mark-Bounded id text met d b = elim (Bool-cases met.marked) [
  | inl e ↦ rw e (record { queued = b.queued; waiting = b.waiting; rows = b.rows })
  | inr e ↦ rw e b
]

-- A failure: the channel is marked, or a retry waits that is not beyond the last.
retry_or_mark-Bounded :
    (ev : Event) (c : Channel) (n : ℕ) (met : Met) (text : Bytes) (again : Bool) (d : Dispatcher)
    → IsAttempt n
    → Bounded d
    → Bounded (
        if ltb n max_attempts && again
        then schedule_retry (record { event = ev; channel = some c; attempt = n + 1 }) d
        else mark c.id text met d)
unfolding schedule_retry
retry_or_mark-Bounded ev c n met text again d h b =
    elim (Bool-cases (ltb n max_attempts && again)) [
      | inl e ↦ rw e (record {
        queued = b.queued;
        waiting =
            All-append (λ (j : Job). IsAttempt j.attempt) d.timers _ b.waiting
              ((omega arith, ground arith), tt);
        rows = b.rows;
      })
      | inr e ↦ rw e (mark-Bounded c.id text met d b)
    ]

concluded-Bounded :
    (ev : Event) (c : Channel) (n : ℕ) (met : Met) (error : Option SendError) (d : Dispatcher)
    → IsAttempt n
    → Bounded d
    → Bounded (concluded ev c n met error d)
unfolding concluded
concluded-Bounded ev c n met none d h b = mark-Bounded c.id [] met d b
concluded-Bounded ev c n met (some (not_applicable text)) d h b = b
concluded-Bounded ev c n met (some (render text)) d h b =
    retry_or_mark-Bounded ev c n met text (retryable (render text)) d h b
concluded-Bounded ev c n met (some (other text)) d h b =
    retry_or_mark-Bounded ev c n met text (retryable (other text)) d h b
concluded-Bounded ev c n met (some (provider status text)) d h b =
    retry_or_mark-Bounded ev c n met text (retryable (provider status text)) d h b

attempt-Bounded :
    (ev : Event) (c : Channel) (n : ℕ) (met : Met) (d : Dispatcher)
    → IsAttempt n
    → Bounded d
    → Bounded (attempt ev c n met d)
unfolding attempt
attempt-Bounded ev c n met d h b =
    concluded-Bounded ev c n met met.error _ h (recorded_row-Bounded ev c n met d h b)

attempt_each-Bounded :
    (ev : Event) (met : Channel → Met) (channels : List Channel) (d : Dispatcher)
    → Bounded d
    → Bounded (attempt_each ev met channels d)
unfolding attempt_each
attempt_each-Bounded ev met [] d b = b
attempt_each-Bounded ev met (c ∷ rest) d b =
    elim (Bool-cases (c.enabled && wants_event c.events ev.event_type)) [
      | inl e ↦ rw e (
          attempt_each-Bounded ev met rest _
            (attempt-Bounded ev c 1 (met c) d (omega arith, omega arith) b))
      | inr e ↦ rw e (attempt_each-Bounded ev met rest d b)
    ]

fan_out-Bounded :
    (ev : Event) (met : Channel → Met) (channels : Option (List Channel)) (d : Dispatcher)
    → Bounded d
    → Bounded (fan_out ev met channels d)
unfolding fan_out
fan_out-Bounded ev met none d b = b
fan_out-Bounded ev met (some channels) d b = attempt_each-Bounded ev met channels d b

run_job-Bounded :
    (ev : Event) (channel : Option Channel) (n : ℕ) (met : Channel → Met)
    (channels : Option (List Channel)) (d : Dispatcher)
    → IsAttempt n
    → Bounded d
    → Bounded (run (record { event = ev; channel = channel; attempt = n }) met channels d)
unfolding run
run_job-Bounded ev none n met channels d h b = fan_out-Bounded ev met channels d b
run_job-Bounded ev (some c) n met channels d h b = attempt-Bounded ev c n (met c) d h b

-- The calls that the rest of the program and the runtime make.
pub data Call : Type 0 where
  publish_event : Event → Call
  worker_turn : (Channel → Met) → Option (List Channel) → Call
  timer_fires : ℕ → Call

pub handle : Call → Dispatcher → Dispatcher
handle (publish_event ev) d = publish ev d
handle (worker_turn met channels) d = work met channels d
handle (timer_fires i) d = fire i d

pub handle_all : List Call → Dispatcher → Dispatcher
unfolding handle
handle_all [] d = d
handle_all (call ∷ rest) d = handle_all rest (handle call d)

enqueue-Bounded :
    (j : Job) (d : Dispatcher)
    → IsAttempt j.attempt
    → Bounded d
    → Bounded (record d { queue = d.queue ++ j ∷ [] })
enqueue-Bounded j d h b = record {
  queued = All-append (λ (j : Job). IsAttempt j.attempt) d.queue _ b.queued (h, tt);
  waiting = b.waiting;
  rows = b.rows;
}

publish-Bounded : (ev : Event) (d : Dispatcher) → Bounded d → Bounded (publish ev d)
unfolding publish
publish-Bounded ev d b = elim (Bool-cases (has_room d)) [
  | inl e ↦ rw e (enqueue-Bounded _ d (omega arith, omega arith) b)
  | inr e ↦ rw e (record { queued = b.queued; waiting = b.waiting; rows = b.rows })
]

worked-Bounded :
    (met : Channel → Met) (channels : Option (List Channel)) (queue : List Job) (d : Dispatcher)
    → All (λ (j : Job). IsAttempt j.attempt) queue
    → Bounded d
    → Bounded (worked met channels queue d)
unfolding worked
worked-Bounded met channels [] d h b = b
worked-Bounded met channels (j ∷ rest) d (here, later) b =
    run_job-Bounded j.event j.channel j.attempt met channels (record d { queue = rest }) here
      (record { queued = later; waiting = b.waiting; rows = b.rows })

requeue-Bounded :
    (j : Job) (d : Dispatcher) → IsAttempt j.attempt → Bounded d → Bounded (requeue j d)
unfolding requeue
requeue-Bounded j d h b = elim (Bool-cases (has_room d)) [
  | inl e ↦ rw e (enqueue-Bounded j d h b)
  | inr e ↦ rw e b
]

-- A timer and the others.
take_timer-All :
    (i : ℕ) (timers : List Job) (j : Job) (others : List Job)
    → take_timer i timers ≡ some (j, others)
    → All (λ (j : Job). IsAttempt j.attempt) timers
    → IsAttempt j.attempt × All (λ (j : Job). IsAttempt j.attempt) others
unfolding take_timer
take_timer-All i [] j others e h = absurd (cc)
take_timer-All zero (t ∷ rest) j others e (here, later) =
    let same : t ≡ j = cc in
    let same_rest : rest ≡ others = cc in rw (← same, ← same_rest) (here, later)
take_timer-All (suc i) (t ∷ rest) j others e (here, later) =
    elim (Option-cases (take_timer i rest)) [
      | inl none_left ↦ absurd (let e' : none ≡ some (j, others) = simp none_left at e in cc)
      | inr ((k, left), found) ↦
          let e' : some (k, t ∷ left) ≡ some (j, others) = simp found at e in
          let same : k ≡ j = cc in
          let same_rest : t ∷ left ≡ others = cc in
          let (ok_j, ok_left) = take_timer-All i rest k left found later in
          rw (← same, ← same_rest) (ok_j, (here, ok_left))
    ]

fired-Bounded :
    (i : ℕ) (d : Dispatcher) (taken : Option (Job × List Job))
    → take_timer i d.timers ≡ taken
    → Bounded d
    → Bounded (fired taken d)
unfolding fired
fired-Bounded i d none e b = b
fired-Bounded i d (some (j, others)) e b =
    let (here, left) = take_timer-All i d.timers j others e b.waiting in
    requeue-Bounded j (record d { timers = others }) here
      (record { queued = b.queued; waiting = left; rows = b.rows })

handle-Bounded : (call : Call) (d : Dispatcher) → Bounded d → Bounded (handle call d)
unfolding handle work fire
handle-Bounded (publish_event ev) d b = publish-Bounded ev d b
handle-Bounded (worker_turn met channels) d b = worked-Bounded met channels d.queue d b.queued b
handle-Bounded (timer_fires i) d b = fired-Bounded i d (take_timer i d.timers) refl b

handle_all-Bounded : (calls : List Call) (d : Dispatcher) → Bounded d → Bounded (handle_all calls d)
unfolding handle_all
handle_all-Bounded [] d b = b
handle_all-Bounded (call ∷ rest) d b =
    handle_all-Bounded rest (handle call d) (handle-Bounded call d b)

-- Whatever is published, and in whatever order workers take jobs and timers fire, every job that
-- waits and every recorded delivery of a new dispatcher is one of the attempts 1 to 3.
pub handle_all_new-Bounded :
    (calls : List Call) (last_errors : List (EntityId × Bytes))
    → Bounded (handle_all calls (new_dispatcher last_errors))
handle_all_new-Bounded calls last_errors =
    handle_all-Bounded calls (new_dispatcher last_errors)
      (unfold new_dispatcher in record { queued = tt; waiting = tt; rows = tt })

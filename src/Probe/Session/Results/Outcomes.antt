-- ===== src/Probe/Session/Results/Outcomes.antt =====
-- What a result says of the target (internal/probe/execute.go).
use uptime_cairn.Base.{
  ℕ, ◌≡◌, ◌⊎◌, ◌↔◌, inl, inr, refl, Bool, true, false, Option, none, some, Bool-cases, get_elem?,
  length, ltb,
}
use uptime_cairn.Base.Bytes.{Bytes}
use uptime_cairn.Base.Maps.{lookup}
use uptime_cairn.Model.{Instant, Status}
use uptime_cairn.Probe.Wire.{Outcome, Result}
use uptime_cairn.Probe.Buffer.{add}
use uptime_cairn.Probe.Session.{Assignment, Session, Observation}
use uptime_cairn.Probe.Schedule.{Task, Popped, empty, waiting, ready, pop}
use uptime_cairn.Probe.Session.Results.{
  to_outcome, result_of, emit, invert, inverted, run_observation, no_checker, shed,
  shed_observation, finish, finish_found, finish_run, reschedule, start_run, start_or_shed, late,
  popped_turn, schedule_turn,
}

-- What the checker has to say for a result to be down.
pub SaysDown : Assignment → Option Observation → Type 0
SaysDown a none = ⊥
SaysDown a (some obs) =
    ((a.upside_down ≡ false) × (obs.status ≡ Status.down))
    ⊎ ((a.upside_down ≡ true) × (obs.status ≡ Status.up))

to_outcome_down : (status : Status) → (to_outcome status ≡ Outcome.down) ↔ (status ≡ Status.down)
unfolding to_outcome
to_outcome_down Status.down = (λ h. refl, λ h. refl)
to_outcome_down Status.up = (λ h. absurd (cc), λ h. absurd (cc))
to_outcome_down Status.pending = (λ h. absurd (cc), λ h. absurd (cc))
to_outcome_down Status.maintenance = (λ h. absurd (cc), λ h. absurd (cc))
to_outcome_down Status.unknown = (λ h. absurd (cc), λ h. absurd (cc))
to_outcome_down Status.skipped = (λ h. absurd (cc), λ h. absurd (cc))

invert_down :
    (status : Status) (obs : Observation)
    → obs.status ≡ status
    → ((invert status obs).status ≡ Status.down) ↔ (status ≡ Status.up)
unfolding invert
invert_down Status.up obs e = (λ h. refl, λ h. refl)
invert_down Status.down obs e = (λ h. absurd (cc), λ h. absurd (cc))
invert_down Status.pending obs e = (λ h. absurd (cc), λ h. absurd (cc))
invert_down Status.maintenance obs e = (λ h. absurd (cc), λ h. absurd (cc))
invert_down Status.unknown obs e = (λ h. absurd (cc), λ h. absurd (cc))
invert_down Status.skipped obs e = (λ h. absurd (cc), λ h. absurd (cc))

inverted_down :
    (upside_down : Bool) (obs : Observation)
    → ((inverted upside_down obs).status ≡ Status.down) ↔ (
        (upside_down ≡ false) × (obs.status ≡ Status.down)
        ⊎ (upside_down ≡ true) × (obs.status ≡ Status.up))
unfolding inverted
inverted_down true obs =
    let (to, from) = invert_down obs.status obs refl in
    (λ h. inr (refl, to h), λ h. elim h [ inl (f, d) ↦ absurd (cc) | inr (t, u) ↦ from u ])
inverted_down false obs =
    (λ h. inl (refl, h), λ h. elim h [ inl (f, d) ↦ d | inr (t, u) ↦ absurd (cc) ])

says_down :
    (a : Assignment) (obs : Option Observation)
    → ((run_observation a obs).status ≡ Status.down) ↔ SaysDown a obs
unfolding run_observation SaysDown no_checker
says_down a none = (λ h. absurd (cc), λ h. elim h [ ])
says_down a (some obs) = inverted_down a.upside_down obs

-- The result that the end of a check buffers.
emit-buffer :
    (id : Bytes) (a : Assignment) (t : Task) (obs : Observation) (at : Instant) (s : Session)
    → (r : Result) × ((emit id a t obs at s).buffer ≡ add s.buffer r)
      × (r.outcome ≡ to_outcome obs.status)
unfolding emit result_of
emit-buffer id a t obs at s = (_, refl, refl)

-- What a step adds to the buffer: nothing, or a result whose outcome is in a set.
pub Buffers : (Outcome → Type 0) → Session → Session → Type 0
Buffers P s s' =
    (s'.buffer ≡ s.buffer) ⊎ ((r : Result) × (s'.buffer ≡ add s.buffer r) × P r.outcome)

shed-buffer :
    (id : Bytes) (a : Assignment) (t : Task) (now : Instant) (s : Session)
    → (r : Result) × ((shed id a t now s).buffer ≡ add s.buffer r) × (r.outcome ≡ Outcome.skipped)
unfolding shed reschedule emit result_of shed_observation to_outcome
shed-buffer id a t now s = (_, refl, refl)

start_or_shed-Buffers :
    (id : Bytes) (now : Instant) (t : Task) (found : Option Assignment) (s : Session)
    → Buffers (λ o. o ≡ Outcome.skipped) s (start_or_shed id now t found s)
unfolding Buffers start_or_shed start_run
start_or_shed-Buffers id now t none s = inl refl
start_or_shed-Buffers id now t (some a) s = elim (Bool-cases (late a t now)) [
  | inl e ↦ rw e (inr (shed-buffer id a t now s))
  | inr e ↦ elim (Bool-cases (ltb (length s.in_flight) s.max_concurrent)) [
    | inl f ↦ rw (e, f) (inl refl)
    | inr f ↦ rw (e, f) (inr (shed-buffer id a t now s))
  ]
]

popped_turn-Buffers :
    (id : Bytes) (now : Instant) (popped : Popped) (s : Session)
    → Buffers (λ o. o ≡ Outcome.skipped) s (popped_turn id now popped s)
unfolding Buffers popped_turn
popped_turn-Buffers id now empty s = inl refl
popped_turn-Buffers id now (waiting d) s = inl refl
popped_turn-Buffers id now (ready t others) s =
    unfold Buffers in
    start_or_shed-Buffers id now t (lookup t.monitor_id s.assignments) (record s { queue = others })

finish_run-Buffers :
    (id : Bytes) (i : ℕ) (a : Assignment) (t : Task) (obs : Option Observation)
    (started_at now : Instant) (s : Session)
    → get_elem? s.in_flight i ≡ some (a, t)
    → (r : Result) × ((finish_run id i obs started_at now s).buffer ≡ add s.buffer r)
      × ((r.outcome ≡ Outcome.down) ↔ SaysDown a obs)
unfolding finish_run finish_found finish reschedule emit result_of
finish_run-Buffers id i a t obs started_at now s h =
    let (to, from) = says_down a obs in
    let (down_to, down_from) = to_outcome_down (run_observation a obs).status in
    rw (h, finish_found) (_, refl, (λ d. to (down_to d), λ d. down_from (from d)))

-- A turn of the schedule adds no result but skipped ones to the buffer, and the end of a check
-- adds one result, which is down exactly when the checker saw the target down and the monitor is
-- not upside down, or up and the monitor is upside down: neither overload nor a missing checker is
-- reported as down.
pub down_by_target :
    (id : Bytes) (i : ℕ) (a : Assignment) (t : Task) (obs : Option Observation)
    (started_at now : Instant) (s : Session)
    → get_elem? s.in_flight i ≡ some (a, t)
    → Buffers (λ o. o ≡ Outcome.skipped) s (schedule_turn id now s)
      × ((r : Result) × ((finish_run id i obs started_at now s).buffer ≡ add s.buffer r)
          × ((r.outcome ≡ Outcome.down) ↔ SaysDown a obs))
unfolding schedule_turn
down_by_target id i a t obs started_at now s h = (
  popped_turn-Buffers id now (pop now s.queue) s,
  finish_run-Buffers id i a t obs started_at now s h,
)

-- ===== src/Notify/FanOut.antt =====
-- Which channels an event reaches, and what is left to retry (internal/notify/dispatcher.go).
use mathlib.Core.List.{append_assoc, append-nil}
use uptime_cairn.Base.{
  ℕ, ◌≡◌, refl, ap, sym, ◌∙◌, Bool, true, false, ◌&&◌, List, [], ◌∷◌, ◌++◌, Option, none, some, map,
  arith, Bool-cases, inl, inr, if◌then◌else◌,
}
use uptime_cairn.Base.Bytes.{Bytes}
use uptime_cairn.Notify.{
  Event, Channel, SendError, Delivery, Job, Dispatcher, Met, retryable, row_of, recorded_row, mark,
  schedule_retry, concluded, attempt, attempt_each, wants_event,
}

-- The enabled channels that want an event.
pub wanting : Event → List Channel → List Channel
wanting ev [] = []
wanting ev (c ∷ rest) =
    let others = wanting ev rest in
    if c.enabled && wants_event c.events ev.event_type then c ∷ others else others

-- A first attempt's failure that another could mend.
pub mendable : Option SendError → Bool
mendable none = false
mendable (some e) = retryable e

pub second_attempts : Event → (Channel → Met) → List Channel → List Job
unfolding mendable
second_attempts ev met [] = []
second_attempts ev met (c ∷ rest) =
    let others = second_attempts ev met rest in
    if mendable (met c).error
    then record { event = ev; channel = some c; attempt = 2 } ∷ others
    else others

abbrev pub first_rows : Event → (Channel → Met) → List Channel → List Delivery
first_rows ev met channels = map (λ c. row_of ev c 1 (met c)) channels

deliveries-mark :
    (id : ℕ) (text : Bytes) (met : Met) (d : Dispatcher)
    → (mark id text met d).deliveries ≡ d.deliveries
unfolding mark
deliveries-mark id text met d = ground arith

timers-mark :
    (id : ℕ) (text : Bytes) (met : Met) (d : Dispatcher) → (mark id text met d).timers ≡ d.timers
unfolding mark
timers-mark id text met d = ground arith

deliveries-concluded :
    (ev : Event) (c : Channel) (n : ℕ) (met : Met) (e : Option SendError) (d : Dispatcher)
    → (concluded ev c n met e d).deliveries ≡ d.deliveries
unfolding concluded schedule_retry mark
deliveries-concluded ev c n met e d = ground arith

timers-concluded :
    (ev : Event) (c : Channel) (met : Met) (e : Option SendError) (d : Dispatcher)
    → (concluded ev c 1 met e d).timers
      ≡ d.timers
        ++ (if mendable e then record { event = ev; channel = some c; attempt = 2 } ∷ [] else [])
unfolding concluded schedule_retry mark mendable retryable
timers-concluded ev c met e d = ground (arith, append-nil d.timers)

deliveries-attempt :
    (ev : Event) (c : Channel) (met : Met) (d : Dispatcher)
    → met.recorded ≡ true
    → (attempt ev c 1 met d).deliveries ≡ d.deliveries ++ row_of ev c 1 met ∷ []
unfolding attempt recorded_row
deliveries-attempt ev c met d h = deliveries-concluded ev c 1 met met.error _ ∙ rw h refl

timers-attempt :
    (ev : Event) (c : Channel) (met : Met) (d : Dispatcher)
    → met.recorded ≡ true
    → (attempt ev c 1 met d).timers
      ≡ d.timers
        ++ (if mendable met.error
            then record { event = ev; channel = some c; attempt = 2 } ∷ []
            else [])
unfolding attempt recorded_row
timers-attempt ev c met d h = timers-concluded ev c met met.error _ ∙ rw h refl

second_attempts-cons :
    (ev : Event) (met : Channel → Met) (c : Channel) (rest : List Channel)
    → second_attempts ev met (c ∷ rest)
      ≡ (if mendable (met c).error
          then record { event = ev; channel = some c; attempt = 2 } ∷ []
          else [])
        ++ second_attempts ev met rest
unfolding second_attempts
second_attempts-cons ev met c rest = elim (Bool-cases (mendable (met c).error)) [
  | inl e ↦ rw e refl
  | inr e ↦ rw e refl
]

-- Where every row is written, an event leaves one row of a first attempt for each enabled channel
-- of its monitor that wants it, in order, and a second attempt waits for exactly those whose
-- failure is one that another attempt could mend.
pub attempt_each_lem :
    (ev : Event) (met : Channel → Met) (channels : List Channel) (d : Dispatcher)
    → ((c : Channel) → (met c).recorded ≡ true)
    → ((attempt_each ev met channels d).deliveries
        ≡ d.deliveries ++ first_rows ev met (wanting ev channels))
      × ((attempt_each ev met channels d).timers
          ≡ d.timers ++ second_attempts ev met (wanting ev channels))
unfolding attempt_each wanting
attempt_each_lem ev met [] d h =
    (sym (append-nil d.deliveries), unfold second_attempts in sym (append-nil d.timers))
attempt_each_lem ev met (c ∷ rest) d h =
    elim (Bool-cases (c.enabled && wants_event c.events ev.event_type)) [
      | inl e ↦
          let (rows, waiting) = attempt_each_lem ev met rest (attempt ev c 1 (met c) d) h in
          rw e (
            rows
                ∙ ap (λ (r : List Delivery). r ++ first_rows ev met (wanting ev rest))
                    (deliveries-attempt ev c (met c) d (h c))
                ∙ append_assoc d.deliveries _ _,
            waiting
                ∙ ap (λ (r : List Job). r ++ second_attempts ev met (wanting ev rest))
                    (timers-attempt ev c (met c) d (h c))
                ∙ append_assoc d.timers _ _
                ∙ ap (λ (r : List Job). d.timers ++ r)
                    (sym (second_attempts-cons ev met c (wanting ev rest))),
          )
      | inr e ↦ rw e (attempt_each_lem ev met rest d h)
    ]

-- ===== src/Notify.antt =====
-- internal/notify/dispatcher.go: events, their deliveries and retries. What a send gives and which writes
-- of the store succeed are parameters; a worker's turn is one step, and so is a timer's.
mod Attempts
mod FanOut
mod Tests
use uptime_cairn.Base.{
  ℕ, zero, suc, ◌+◌, ◌%◌, ◌^◌, Bool, true, false, ◌&&◌, ◌||◌, not, List, [], ◌∷◌, ◌++◌, Option,
  none, some, if◌then◌else◌, ltb, leb, ◌==◌, length, take,
}
use uptime_cairn.Base.Bytes.{Bytes, codes, eqb}
use uptime_cairn.Model.{EntityId}

pub record Event : Type 0 where
  pub event_type : Bytes
  pub monitor_id : EntityId

-- What delivery reads of a channel.
pub record Channel : Type 0 where
  pub id : EntityId
  pub enabled : Bool
  pub events : List Bytes

abbrev event_monitor_up : Bytes
event_monitor_up = codes "monitor.up"

abbrev event_monitor_down : Bytes
event_monitor_down = codes "monitor.down"

is_listed : Bytes → List Bytes → Bool
unfolding eqb
is_listed t [] = false
is_listed t (e ∷ rest) = eqb e t || is_listed t rest

pub wants_event : List Bytes → Bytes → Bool
unfolding is_listed eqb
wants_event [] t = eqb t event_monitor_up || eqb t event_monitor_down
wants_event (e ∷ rest) t = is_listed t (e ∷ rest)

-- The errors that the policy tells apart, with their text.
pub data SendError : Type 0 where
  not_applicable render other : Bytes → SendError
  provider : ℕ → Bytes → SendError

permanent : ℕ → Bool
permanent status =
    if status == 408 || status == 425 || status == 429
    then false
    else leb 400 status && ltb status 500

pub retryable : SendError → Bool
unfolding permanent
retryable (not_applicable text) = false
retryable (render text) = false
retryable (provider status text) = not (permanent status)
retryable (other text) = true

text_of : SendError → Bytes
text_of (not_applicable text) = text
text_of (render text) = text
text_of (provider status text) = text
text_of (other text) = text

pub data DeliveryOutcome : Type 0 where
  succeeded failed suppressed : DeliveryOutcome

-- The row of one attempt.
pub record Delivery : Type 0 where
  pub channel_id : EntityId
  pub monitor_id : Option EntityId
  pub event_type : Bytes
  pub outcome : DeliveryOutcome
  pub error : Bytes
  pub attempt : ℕ

-- `none` for the channel asks for the list first.
pub record Job : Type 0 where
  pub event : Event
  pub channel : Option Channel
  pub attempt : ℕ

-- The dispatcher, and the rows it writes: `last_errors` of the channels.
pub record Dispatcher : Type 0 where
  pub queue : List Job
  pub timers : List Job
  pub dropped : ℕ
  pub deliveries : List Delivery
  pub last_errors : List (EntityId × Bytes)

abbrev pub queue_depth : ℕ
queue_depth = 4096

abbrev pub max_attempts : ℕ
max_attempts = 3

abbrev max_last_error : ℕ
max_last_error = 300

-- "… (truncated)", in UTF-8.
truncated : Bytes
truncated = 226 ∷ 128 ∷ 166 ∷ codes " (truncated)"

truncate : Bytes → ℕ → Bytes
unfolding truncated
truncate s limit = if leb (length s) limit then s else take limit s ++ truncated

-- What an attempt met: the error of the send, and whether each write succeeded.
pub record Met : Type 0 where
  pub error : Option SendError
  pub recorded : Bool
  pub marked : Bool

outcome_of : Option SendError → DeliveryOutcome
outcome_of none = succeeded
outcome_of (some (not_applicable text)) = suppressed
outcome_of (some e) = failed

failure_of : Option SendError → Bytes
unfolding text_of
failure_of none = []
failure_of (some e) = text_of e

monitor_id_of : EntityId → Option EntityId
monitor_id_of id = if id == 0 then none else some id

pub row_of : Event → Channel → ℕ → Met → Delivery
unfolding outcome_of failure_of monitor_id_of
row_of ev channel n met = record {
  channel_id = channel.id;
  monitor_id = monitor_id_of ev.monitor_id;
  event_type = ev.event_type;
  outcome = outcome_of met.error;
  error = failure_of met.error;
  attempt = n;
}

recorded_row : Event → Channel → ℕ → Met → Dispatcher → Dispatcher
unfolding row_of
recorded_row ev channel n met d =
    if met.recorded
    then record d { deliveries = d.deliveries ++ row_of ev channel n met ∷ [] }
    else d

-- MarkChannelResult: an UPDATE of the channel's row, where it is there.
set_error : EntityId → Bytes → List (EntityId × Bytes) → List (EntityId × Bytes)
set_error id text [] = []
set_error id text ((c, old) ∷ rest) = (c, if c == id then text else old) ∷ set_error id text rest

mark : EntityId → Bytes → Met → Dispatcher → Dispatcher
unfolding truncate set_error
mark id failure met d =
    if met.marked
    then record d { last_errors = set_error id (truncate failure max_last_error) d.last_errors }
    else d

schedule_retry : Job → Dispatcher → Dispatcher
schedule_retry j d = record d { timers = d.timers ++ j ∷ [] }

-- What follows the row: by the outcome.
concluded : Event → Channel → ℕ → Met → Option SendError → Dispatcher → Dispatcher
unfolding mark schedule_retry retryable text_of
concluded ev channel n met none d = mark channel.id [] met d
concluded ev channel n met (some (not_applicable text)) d = d
concluded ev channel n met (some e) d =
    if ltb n max_attempts && retryable e
    then schedule_retry (record { event = ev; channel = some channel; attempt = n + 1 }) d
    else mark channel.id (text_of e) met d

pub attempt : Event → Channel → ℕ → Met → Dispatcher → Dispatcher
unfolding recorded_row concluded
attempt ev channel n met d = concluded ev channel n met met.error (recorded_row ev channel n met d)

-- The loop over the channels of the event's monitor.
pub attempt_each : Event → (Channel → Met) → List Channel → Dispatcher → Dispatcher
unfolding attempt wants_event
attempt_each ev met [] d = d
attempt_each ev met (c ∷ rest) d =
    let tried = attempt_each ev met rest (attempt ev c 1 (met c) d) in
    let skipped = attempt_each ev met rest d in
    if c.enabled && wants_event c.events ev.event_type then tried else skipped

-- `none` is a list of channels that could not be loaded.
fan_out : Event → (Channel → Met) → Option (List Channel) → Dispatcher → Dispatcher
unfolding attempt_each
fan_out ev met none d = d
fan_out ev met (some channels) d = attempt_each ev met channels d

pub run : Job → (Channel → Met) → Option (List Channel) → Dispatcher → Dispatcher
unfolding attempt fan_out
run j met channels d = elim j.channel [
  | some c ↦ attempt j.event c j.attempt (met c) d
  | none ↦ fan_out j.event met channels d
]

has_room : Dispatcher → Bool
has_room d = ltb (length d.queue) queue_depth

pub publish : Event → Dispatcher → Dispatcher
unfolding has_room
publish ev d =
    if has_room d
    then record d { queue = d.queue ++ record { event = ev; channel = none; attempt = 1 } ∷ [] }
    else record d { dropped = (d.dropped + 1) % 2 ^ 64 }

-- A worker takes the first job.
worked : (Channel → Met) → Option (List Channel) → List Job → Dispatcher → Dispatcher
unfolding run
worked met channels [] d = d
worked met channels (j ∷ rest) d = run j met channels (record d { queue = rest })

pub work : (Channel → Met) → Option (List Channel) → Dispatcher → Dispatcher
unfolding worked
work met channels d = worked met channels d.queue d

-- A timer fires: its job goes into the queue, where that has room.
requeue : Job → Dispatcher → Dispatcher
unfolding has_room
requeue j d = if has_room d then record d { queue = d.queue ++ j ∷ [] } else d

-- Some timer, by its place, and the others.
pub take_timer : ℕ → List Job → Option (Job × List Job)
take_timer i [] = none
take_timer zero (j ∷ rest) = some (j, rest)
take_timer (suc i) (j ∷ rest) = elim (take_timer i rest) [
  | none ↦ none
  | some (k, others) ↦ some (k, j ∷ others)
]

fired : Option (Job × List Job) → Dispatcher → Dispatcher
unfolding requeue
fired none d = d
fired (some (j, others)) d = requeue j (record d { timers = others })

pub fire : ℕ → Dispatcher → Dispatcher
unfolding fired take_timer
fire i d = fired (take_timer i d.timers) d

pub new_dispatcher : List (EntityId × Bytes) → Dispatcher
new_dispatcher last_errors = record {
  queue = [];
  timers = [];
  dropped = 0;
  deliveries = [];
  last_errors = last_errors;
}

-- ===== src/Maintenance.antt =====
-- internal/maintenance/schedule.go: the occurrences of a maintenance window. A time zone (time.Date, the
-- parts of an instant, AddDate) and the zones found by name are parameters; the strategies and states are
-- the strings of internal/model/maintenance.go.
mod Occurrences
mod Tests
pub mod Sweep
use uptime_cairn.Base.{
  ℕ, zero, suc, ◌+◌, Bool, true, false, ◌&&◌, ◌||◌, not, List, [], ◌∷◌, Option, none, some,
  if◌then◌else◌,
}
use uptime_cairn.Base.Int.{ℤ, pos, negsuc, ◌+ℤ◌, ltb_ℤ, leb_ℤ}
use uptime_cairn.Base.Bytes.{Bytes, codes, eqb}
use uptime_cairn.Base.Result.{Result, ok, err, ◌>>=◌}
use uptime_cairn.Model.{EntityId, Instant}
use uptime_cairn.Cron
use uptime_cairn.Cron.{Expression, Calendar, CronError, Day, matches_day, member, sorted_keys}

pub record Recurrence : Type 0 where
  pub weekdays : List ℤ
  pub days_of_month : List ℤ
  pub cron : Bytes
  pub until : Option Instant

pub record MaintenanceWindow : Type 0 where
  pub id : EntityId
  pub strategy : Bytes
  pub timezone : Bytes
  pub starts_at : Instant
  pub ends_at : Option Instant
  pub duration : ℤ
  pub recurrence : Recurrence
  pub suppress_notifications : Bool
  pub cancelled_at : Option Instant
  pub next_occurrence_at : Option Instant

abbrev pub strategy_single : Bytes
strategy_single = codes "single"

abbrev pub recurring_daily : Bytes
recurring_daily = codes "recurring_daily"

abbrev pub recurring_weekly : Bytes
recurring_weekly = codes "recurring_weekly"

abbrev pub recurring_monthly : Bytes
recurring_monthly = codes "recurring_monthly"

abbrev pub strategy_cron : Bytes
strategy_cron = codes "cron"

-- A time of day in the window's zone.
pub record Clock : Type 0 where
  pub hour : ℤ
  pub minute : ℤ

pub record Location : Type 0 where
  pub calendar : Calendar
  pub clock : Instant → Clock
  pub add_days : Instant → ℤ → Instant

pub record Locations : Type 0 where
  pub utc : Location
  pub load : Bytes → Option Location

pub data ScheduleError : Type 0 where
  unknown_timezone : Bytes → ScheduleError
  needs_duration : Bytes → ScheduleError
  no_weekdays no_days : ScheduleError
  bad_weekday bad_day : ℤ → ScheduleError
  bad_cron : CronError → ScheduleError
  unknown_strategy : Bytes → ScheduleError

pub record Occurrence : Type 0 where
  pub start : Instant
  pub end : Instant

pub covers : Occurrence → Instant → Bool
covers o at = not (ltb_ℤ at o.start) && ltb_ℤ at o.end

abbrev pub lookahead_days : ℕ
lookahead_days = 1500

loaded : Bytes → Option Location → Result ScheduleError Location
loaded name none = err (unknown_timezone name)
loaded name (some location) = ok location

pub zone : Locations → Bytes → Result ScheduleError Location
unfolding loaded eqb
zone ls name =
    if eqb name [] || eqb name (codes "UTC") then ok ls.utc else loaded name (ls.load name)

single_end : MaintenanceWindow → Instant
unfolding ◌+ℤ◌
single_end w = elim w.ends_at [
  | some at ↦ at
  | none ↦ if ltb_ℤ (pos 0) w.duration then w.starts_at +ℤ w.duration else w.starts_at
]

-- The first value outside of a range.
first_outside : ℤ → ℤ → List ℤ → Option ℤ
first_outside low high [] = none
first_outside low high (v ∷ rest) =
    let later = first_outside low high rest in if ltb_ℤ v low || ltb_ℤ high v then some v else later

from_cron : Cron.Result Expression → Result ScheduleError Expression
from_cron (Cron.ok e) = ok e
from_cron (Cron.err e) = err (bad_cron e)

-- A set of days that is not empty and within its range.
day_set : ScheduleError → (ℤ → ScheduleError) → ℤ → ℤ → List ℤ → Result ScheduleError (List ℤ)
unfolding first_outside
day_set empty outside low high [] = err empty
day_set empty outside low high (v ∷ rest) = elim (first_outside low high (v ∷ rest)) [
  | none ↦ ok (v ∷ rest)
  | some bad ↦ err (outside bad)
]

pub day_matcher : MaintenanceWindow → Result ScheduleError (Day → Bool)
unfolding day_set from_cron Cron.parse matches_day member eqb
day_matcher w =
    let weekly = day_set no_weekdays bad_weekday (pos 0) (pos 6) w.recurrence.weekdays >>= λ days.
    ok (λ d. member d.weekday days) in
    let monthly = day_set no_days bad_day (pos 1) (pos 31) w.recurrence.days_of_month >>= λ days.
    ok (λ d. member d.day days) in
    let by_cron = from_cron (Cron.parse w.recurrence.cron) >>= λ e. ok (matches_day e) in
    if eqb w.strategy recurring_daily
    then ok (λ d. true)
    else if eqb w.strategy recurring_weekly
    then weekly
    else if eqb w.strategy recurring_monthly
    then monthly
    else if eqb w.strategy strategy_cron
    then by_cron
    else err (unknown_strategy w.strategy)

at_minutes : ℤ → List ℤ → List Clock → List Clock
at_minutes hour [] more = more
at_minutes hour (m ∷ rest) more = record { hour = hour; minute = m } ∷ at_minutes hour rest more

at_hours : List ℤ → List ℤ → List Clock
unfolding at_minutes
at_hours [] minutes = []
at_hours (h ∷ rest) minutes = at_minutes h minutes (at_hours rest minutes)

pub start_times : Locations → MaintenanceWindow → Result ScheduleError (List Clock)
unfolding zone from_cron Cron.parse at_hours sorted_keys eqb
start_times ls w =
    let anchored = zone ls w.timezone >>= λ location. ok (location.clock w.starts_at ∷ []) in
    let by_cron = from_cron (Cron.parse w.recurrence.cron) >>= λ e.
    ok (at_hours (sorted_keys e.hours) (sorted_keys e.minutes)) in
    if eqb w.strategy strategy_cron then by_cron else anchored

-- What the loop does at one start: it goes on, ends without an occurrence, or finds it.
pub data Turn : Type 0 where
  go_on stop : Turn
  found : Occurrence → Turn

pub past_until : Option Instant → Instant → Bool
past_until none start = false
past_until (some until) start = ltb_ℤ until start

pub try_start : MaintenanceWindow → Instant → Instant → Turn
unfolding past_until ◌+ℤ◌
try_start w after start =
    if ltb_ℤ start w.starts_at
    then go_on
    else if past_until w.recurrence.until start
    then stop
    else if ltb_ℤ after (start +ℤ w.duration)
    then found (record { start = start; end = start +ℤ w.duration })
    else go_on

or_later : Turn → Option Occurrence → Option Occurrence
or_later go_on later = later
or_later stop later = none
or_later (found o) later = some o

pub start_on : Location → Day → Clock → Instant
start_on location d c = location.calendar.date d.year d.month d.day c.hour c.minute

-- The starts of a day, and then what follows.
try_clocks :
    MaintenanceWindow
    → Instant
    → Location
    → Day
    → List Clock
    → Option Occurrence
    → Option Occurrence
unfolding or_later try_start start_on
try_clocks w after location d [] later = later
try_clocks w after location d (c ∷ rest) later =
    or_later (try_start w after (start_on location d c)) (try_clocks w after location d rest later)

-- The loop over the days: `left` of them, from the one with the number `i` on.
pub try_days :
    ℕ
    → MaintenanceWindow
    → Instant
    → Location
    → (Day → Bool)
    → List Clock
    → Instant
    → ℕ
    → Option Occurrence
unfolding try_clocks
try_days zero w after location matches starts day i = none
try_days (suc left) w after location matches starts day i =
    let later = try_days left w after location matches starts day (suc i) in
    let candidate = location.calendar.day_of (location.add_days day (pos i)) in
    if matches candidate then try_clocks w after location candidate starts later else later

-- Local midnight of the day before the later of the anchor and the cursor.
pub first_day : Location → MaintenanceWindow → Instant → Instant
first_day location w after =
    let from = if ltb_ℤ w.starts_at after then after else w.starts_at in
    let local = location.calendar.day_of (location.add_days from (negsuc 0)) in
    location.calendar.date local.year local.month local.day (pos 0) (pos 0)

next_single : MaintenanceWindow → Instant → Option Occurrence
unfolding single_end
next_single w after =
    if ltb_ℤ after (single_end w)
    then some (record { start = w.starts_at; end = single_end w })
    else none

recurring :
    Locations → MaintenanceWindow → Instant → Location → Result ScheduleError (Option Occurrence)
unfolding day_matcher start_times try_days first_day
recurring ls w after location = do
  matches ← day_matcher w
  starts ← start_times ls w
  ok (try_days lookahead_days w after location matches starts (first_day location w after) 0)

in_zone :
    Locations → MaintenanceWindow → Instant → Location → Result ScheduleError (Option Occurrence)
unfolding next_single recurring eqb
in_zone ls w after location =
    if eqb w.strategy strategy_single
    then ok (next_single w after)
    else if ltb_ℤ (pos 0) w.duration
    then recurring ls w after location
    else err (needs_duration w.strategy)

-- After the test of `cancelled_at`.
unless_cancelled :
    Locations
    → MaintenanceWindow
    → Instant
    → Option Instant
    → Result ScheduleError (Option Occurrence)
unfolding zone in_zone
unless_cancelled ls w after (some at) = ok none
unless_cancelled ls w after none = zone ls w.timezone >>= λ location. in_zone ls w after location

pub next : Locations → MaintenanceWindow → Instant → Result ScheduleError (Option Occurrence)
unfolding unless_cancelled
next ls w after = unless_cancelled ls w after w.cancelled_at

pub covered : Option Occurrence → Instant → Bool
unfolding covers
covered none at = false
covered (some o) at = covers o at

pub active_at : Locations → MaintenanceWindow → Instant → Result ScheduleError Bool
unfolding next covered
active_at ls w at = next ls w at >>= λ o. ok (covered o at)

pub data State : Type 0 where
  scheduled active ended cancelled : State

state_of : Result ScheduleError (Option Occurrence) → Instant → State
unfolding covers
state_of (err e) at = ended
state_of (ok none) at = ended
state_of (ok (some o)) at = if covers o at then active else scheduled

pub state : Locations → MaintenanceWindow → Instant → State
unfolding state_of next
state ls w at = elim w.cancelled_at [ some t ↦ cancelled | none ↦ state_of (next ls w at) at ]

-- ===== src/Report/Schedule.antt =====
-- internal/report/schedule.go: when a report schedule fires. The zones that time.LoadLocation finds, and
-- UTC, are parameters.
mod Runs
mod Presets
mod Tests
use uptime_cairn.Base.{
  ℕ, Bool, true, false, ◌&&◌, ◌||◌, not, ◌==◌, List, [], ◌∷◌, ◌++◌, Option, none, some, length,
  if◌then◌else◌,
}
use uptime_cairn.Base.Int.{ℤ, pos, pos_part, ltb_ℤ}
use uptime_cairn.Base.Bytes.{Bytes, codes, eqb}
use uptime_cairn.Base.Decimal.{itoa, atoi}
use uptime_cairn.Base.Text.{trim_space, cut}
use uptime_cairn.Model.{Instant}
use uptime_cairn.Cron.{Expression, CronError, Calendar, Result, parse, next}
use uptime_cairn.Cron

pub record ScheduleSpec : Type 0 where
  pub frequency : Bytes
  pub cron : Bytes
  pub timezone : Bytes
  pub send_at : Bytes

pub data ScheduleError : Type 0 where
  no_expression never_fires : ScheduleError
  cron_not_accepted unknown_frequency not_hh_mm hour_outside minute_outside unknown_zone :
      Bytes → ScheduleError
  bad_cron : CronError → ScheduleError

pub data Outcome (A : Type 0) : Type 0 where
  done : A → Outcome A
  failed : ScheduleError → Outcome A

send_at_minute : Bytes → ℤ → Option ℤ → Outcome (ℤ × ℤ)
send_at_minute value hour none = failed (minute_outside value)
send_at_minute value hour (some minute) =
    if ltb_ℤ minute (pos 0) || ltb_ℤ (pos 59) minute
    then failed (minute_outside value)
    else done (hour, minute)

send_at_hour : Bytes → Bytes → Option ℤ → Outcome (ℤ × ℤ)
unfolding send_at_minute atoi
send_at_hour value after none = failed (hour_outside value)
send_at_hour value after (some hour) =
    if ltb_ℤ hour (pos 0) || ltb_ℤ (pos 23) hour
    then failed (hour_outside value)
    else send_at_minute value hour (atoi after)

send_at_parts : Bytes → Option (Bytes × Bytes) → Outcome (ℤ × ℤ)
unfolding send_at_hour atoi
send_at_parts value none = failed (not_hh_mm value)
send_at_parts value (some (before, after)) =
    if not (length before == 2) || not (length after == 2)
    then failed (not_hh_mm value)
    else send_at_hour value after (atoi before)

default_send_at : Bytes → Bytes
default_send_at [] = codes "09:00"
default_send_at (c ∷ cs) = c ∷ cs

pub parse_send_at : Bytes → Outcome (ℤ × ℤ)
unfolding send_at_parts default_send_at trim_space cut
parse_send_at given =
    let value = default_send_at (trim_space given) in send_at_parts value (cut value 58)

-- The format "%d %d" with the minute before the hour, which are not negative here.
minute_and_hour : ℤ → ℤ → Bytes
unfolding itoa
minute_and_hour hour minute = itoa (pos_part minute) ++ 32 ∷ itoa (pos_part hour)

pub named_frequency : Bytes → Outcome (ℤ × ℤ) → Outcome Bytes
unfolding minute_and_hour eqb
named_frequency frequency (failed e) = failed e
named_frequency frequency (done (hour, minute)) =
    if eqb frequency (codes "daily")
    then done (minute_and_hour hour minute ++ codes " * * *")
    else (if eqb frequency (codes "weekly")
        then done (minute_and_hour hour minute ++ codes " * * 1")
        else (if eqb frequency (codes "monthly")
            then done (minute_and_hour hour minute ++ codes " 1 * *")
            else (if eqb frequency (codes "quarterly")
                then done (minute_and_hour hour minute ++ codes " 1 1,4,7,10 *")
                else failed (unknown_frequency frequency))))

is_blank : Bytes → Bool
unfolding trim_space eqb
is_blank text = eqb (trim_space text) []

pub cron_for : ScheduleSpec → Outcome Bytes
unfolding is_blank named_frequency parse_send_at eqb
cron_for spec =
    if eqb spec.frequency (codes "cron")
    then (if is_blank spec.cron then failed no_expression else done spec.cron)
    else (if not (is_blank spec.cron)
        then failed (cron_not_accepted spec.frequency)
        else named_frequency spec.frequency (parse_send_at spec.send_at))

pub record Zones : Type 0 where
  pub utc : Calendar
  pub load : Bytes → Option Calendar

pub schedule_zone : Zones → Bytes → Option Calendar
schedule_zone zones [] = some zones.utc
schedule_zone zones (c ∷ cs) = zones.load (c ∷ cs)

answered : Option Instant → Outcome Instant
answered none = failed never_fires
answered (some at) = done at

run_in : Expression → Bytes → Option Calendar → Instant → Outcome Instant
unfolding answered
run_in parsed name none after = failed (unknown_zone name)
run_in parsed name (some loc) after = answered (next parsed loc after)

run_parsed : Zones → Bytes → Result Expression → Instant → Outcome Instant
unfolding run_in schedule_zone
run_parsed zones name (Cron.err e) after = failed (bad_cron e)
run_parsed zones name (Cron.ok parsed) after = run_in parsed name (schedule_zone zones name) after

run_expression : Zones → Bytes → Outcome Bytes → Instant → Outcome Instant
unfolding run_parsed
run_expression zones name (failed e) after = failed e
run_expression zones name (done expression) after = run_parsed zones name (parse expression) after

pub next_run : Zones → ScheduleSpec → Instant → Outcome Instant
unfolding run_expression cron_for
next_run zones spec after = run_expression zones spec.timezone (cron_for spec) after

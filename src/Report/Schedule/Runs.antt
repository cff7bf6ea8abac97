-- ===== src/Report/Schedule/Runs.antt =====
-- What a computed run of a schedule is (NextRun, internal/report/schedule.go).
use uptime_cairn.Base.{◌≡◌, refl, ap, Option, none, some}
use uptime_cairn.Base.Int.{◌<ℤ◌}
use uptime_cairn.Base.Bytes.{Bytes}
use uptime_cairn.Model.{Instant}
use uptime_cairn.Cron.{Expression, Calendar, Result, ok, err, parse, next, sorted_keys}
use uptime_cairn.Cron.Firings.{next-Fires, Fires}
use uptime_cairn.Report.Schedule.{
  ScheduleSpec, Outcome, done, failed, Zones, cron_for, next_run, run_expression, run_parsed,
  run_in, answered, schedule_zone,
}

-- An instant at which a schedule fires: at its expression, in its zone, and later than another.
pub record RunOf (zones : Zones) (spec : ScheduleSpec) (after at : Instant) : Type 0 where
  pub text : Bytes
  pub parsed : Expression
  pub zone : Calendar
  pub is_text : cron_for spec ≡ done text
  pub is_parsed : parse text ≡ ok parsed
  pub is_zone : schedule_zone zones spec.timezone ≡ some zone
  pub fires : Fires parsed zone (sorted_keys parsed.hours) (sorted_keys parsed.minutes) at
  pub later : after <ℤ at

answered-done : (found : Option Instant) (at : Instant) → answered found ≡ done at → found ≡ some at
unfolding answered
answered-done none at h = absurd cc
answered-done (some found) at h = let same : found ≡ at = cc in ap some same

run_in-next :
    (e : Expression) (name : Bytes) (zone : Option Calendar) (after at : Instant)
    → run_in e name zone after ≡ done at
    → (loc : Calendar) × (zone ≡ some loc) × (next e loc after ≡ some at)
unfolding run_in
run_in-next e name none after at h = absurd cc
run_in-next e name (some loc) after at h = (loc, refl, answered-done (next e loc after) at h)

run_in-RunOf :
    (zones : Zones) (spec : ScheduleSpec) (after at : Instant) (text : Bytes) (e : Expression)
    → cron_for spec ≡ done text
    → parse text ≡ ok e
    → run_in e spec.timezone (schedule_zone zones spec.timezone) after ≡ done at
    → RunOf zones spec after at
run_in-RunOf zones spec after at text e t p h =
    let (loc, z, is) = run_in-next e spec.timezone (schedule_zone zones spec.timezone) after at h in
    let (fires, later) = next-Fires e loc after at is in
    record {
      text = text;
      parsed = e;
      zone = loc;
      is_text = t;
      is_parsed = p;
      is_zone = z;
      fires = fires;
      later = later;
    }

run_parsed-RunOf :
    (zones : Zones) (spec : ScheduleSpec) (after at : Instant) (text : Bytes)
    (parsed : Result Expression)
    → cron_for spec ≡ done text
    → parse text ≡ parsed
    → run_parsed zones spec.timezone parsed after ≡ done at
    → RunOf zones spec after at
unfolding run_parsed
run_parsed-RunOf zones spec after at text (err e) t p h = absurd cc
run_parsed-RunOf zones spec after at text (ok e) t p h =
    run_in-RunOf zones spec after at text e t p h

run_expression-RunOf :
    (zones : Zones) (spec : ScheduleSpec) (after at : Instant) (text : Outcome Bytes)
    → cron_for spec ≡ text
    → run_expression zones spec.timezone text after ≡ done at
    → RunOf zones spec after at
unfolding run_expression
run_expression-RunOf zones spec after at (failed e) t h = absurd cc
run_expression-RunOf zones spec after at (done text) t h =
    run_parsed-RunOf zones spec after at text (parse text) t refl h

-- A run that NextRun answers is later than the instant asked about, and is a time at which the
-- expression of the schedule fires in the zone that the schedule names.
pub next_run-RunOf :
    (zones : Zones) (spec : ScheduleSpec) (after at : Instant)
    → next_run zones spec after ≡ done at
    → RunOf zones spec after at
unfolding next_run
next_run-RunOf zones spec after at h =
    run_expression-RunOf zones spec after at (cron_for spec) refl h

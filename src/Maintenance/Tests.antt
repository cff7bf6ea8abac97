-- ===== src/Maintenance/Tests.antt =====
-- Windows in a zone that is always at UTC, on a calendar that numbers its days.
use uptime_cairn.Base.{
  ℕ, ◌+◌, ◌-◌, ◌*◌, ◌/◌, ◌%◌, ◌≡◌, refl, Bool, true, false, List, [], ◌∷◌, none, some, arith,
}
use uptime_cairn.Base.Int.{ℤ, pos, negsuc, ◌<ℤ◌, ◌+ℤ◌}
use uptime_cairn.Base.Bytes.{eqb}
use uptime_cairn.Base.Result.{ok}
use uptime_cairn.Model.{Instant}
use uptime_cairn.Cron.{Calendar, Day, member}
use uptime_cairn.Maintenance.{
  MaintenanceWindow, Location, Locations, Clock, Occurrence, next, active_at, zone, day_matcher,
  start_times, start_on, covers, past_until, recurring_weekly,
}
use uptime_cairn.Maintenance.Occurrences.{
  IsIn, here, there, Start, Fits, midnight_before, OccurrenceOf, next-OccurrenceOf,
  active_at_forgets,
}

abbrev day_length : ℕ
day_length = 86400000000000

abbrev natural_part : ℤ → ℕ
natural_part (pos n) = n
natural_part (negsuc n) = 0

abbrev plus_days : ℕ → ℤ → ℤ
plus_days t (pos n) = pos (t + n * day_length)
plus_days t (negsuc n) = pos (t - (n + 1) * day_length)

abbrev numbered_day : ℕ → Day
numbered_day n = record { year = pos 1970; month = pos 1; day = pos n; weekday = pos (n % 7) }

abbrev numbered_days : Calendar
numbered_days = record {
  date = λ year month day hour minute. pos (
      natural_part day * day_length
      + natural_part hour * 3600000000000
      + natural_part minute * 60000000000);
  day_of = λ t. numbered_day (natural_part t / day_length);
}

abbrev here_utc : Location
here_utc = record {
  calendar = numbered_days;
  clock = λ t. record {
    hour = pos (natural_part t / 3600000000000 % 24);
    minute = pos (natural_part t / 60000000000 % 60);
  };
  add_days = λ t n. plus_days (natural_part t) n;
}

abbrev only_utc : Locations
only_utc = record { utc = here_utc; load = λ name. none }

-- From midnight on the days whose number leaves 1 at 7, for three days.
abbrev long_weekly : MaintenanceWindow
long_weekly = record {
  id = 1;
  strategy = recurring_weekly;
  timezone = [];
  starts_at = pos 86400000000000;
  ends_at = none;
  duration = pos 259200000000000;
  recurrence = record { weekdays = pos 1 ∷ []; days_of_month = []; cron = []; until = none };
  suppress_notifications = true;
  cancelled_at = none;
  next_occurrence_at = none;
}

abbrev first_occurrence : Occurrence
first_occurrence = record { start = pos 86400000000000; end = pos 345600000000000 }

-- At noon of its second day.
second_day : next only_utc long_weekly (pos 216000000000000) ≡ ok (some first_occurrence)
unfolding next eqb member
second_day = refl

next-OccurrenceOf_example : OccurrenceOf only_utc long_weekly (pos 216000000000000) first_occurrence
next-OccurrenceOf_example =
    next-OccurrenceOf only_utc long_weekly (pos 216000000000000) first_occurrence
      (unfold eqb in refl) second_day

abbrev third_noon : Instant
third_noon = pos 302400000000000

abbrev on_first : Day → Bool
unfolding member
on_first d = member d.weekday (pos 1 ∷ [])

abbrev midnight : List Clock
midnight = record { hour = pos 0; minute = pos 0 } ∷ []

is_midnight : (c : Clock) → IsIn c midnight → (c.hour ≡ pos 0) × (c.minute ≡ pos 0)
is_midnight c here = (refl, refl)
is_midnight c (there later) = elim later [ ]

none_recent :
    (start : Instant)
    → Start here_utc on_first midnight (midnight_before here_utc third_noon) start
    → third_noon <ℤ start
unfolding start_on member
none_recent start s =
    let (at_hour, at_minute) = is_midnight s.clock s.is_time in
    let on_day = s.on_day in rw (s.is_start, at_hour, at_minute) (ground arith)

-- The first occurrence starts on its day.
first_start : Start here_utc on_first midnight (pos 86400000000000) (pos 86400000000000)
unfolding start_on member
first_start = record {
  after_days = 0;
  clock = record { hour = pos 0; minute = pos 0 };
  is_time = here;
  on_day = refl;
  is_start = refl;
}

first_occurrence-Fits : Fits long_weekly third_noon first_occurrence
unfolding past_until ◌+ℤ◌
first_occurrence-Fits = record {
  anchored = omega arith;
  in_time = refl;
  lasts = refl;
  unfinished = omega arith;
}

-- At noon of the third day of the occurrence.
active_at_forgets_example :
    (covers first_occurrence third_noon ≡ true)
    × (active_at only_utc long_weekly third_noon ≡ ok false)
unfolding zone day_matcher start_times eqb
active_at_forgets_example =
    active_at_forgets only_utc long_weekly third_noon here_utc on_first midnight
      (pos 86400000000000) first_occurrence refl refl refl refl refl first_start
      first_occurrence-Fits (omega arith) none_recent

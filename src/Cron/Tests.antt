-- ===== src/Cron/Tests.antt =====
-- The theorems on cron expressions, at concrete ones.
use uptime_cairn.Base.{◌≡◌, refl, true, false, [], ◌∷◌, some}
use uptime_cairn.Base.Int.{pos, ◌<ℤ◌, ◌+ℤ◌, ◌*ℤ◌, floor_div}
use uptime_cairn.Base.Bytes.{codes}
use uptime_cairn.Cron.{
  Expression, Calendar, Part, ok, parse_part, expand, expand_fuel, next, sorted_keys, minute,
}
use uptime_cairn.Cron.Firings.{next-Fires, Fires}

abbrev quarters : Part
quarters = record { start = pos 10; end = pos 40; step = pos 15; restricted = true }

parsed : parse_part minute (pos 0) (pos 59) (codes "10-40/15") ≡ ok quarters
unfolding parse_part
parsed = refl

ten_to_forty : expand expand_fuel (pos 10) (pos 40) (pos 15) ≡ pos 10 ∷ pos 25 ∷ pos 40 ∷ []
unfolding expand
ten_to_forty = refl

-- A calendar with one endless month, counted in minutes from its day 0.
abbrev flat : Calendar
flat = record {
  date = λ y mo d h m. (d *ℤ pos 1440) +ℤ (h *ℤ pos 60) +ℤ m;
  day_of = λ t. record { year = pos 2026; month = pos 1; day = floor_div t 1440; weekday = pos 0 };
}

-- Half past nine on every day.
abbrev daily : Expression
daily = record {
  minutes = pos 30 ∷ [];
  hours = pos 9 ∷ [];
  doms = pos 1 ∷ [];
  months = pos 1 ∷ [];
  dows = pos 0 ∷ [];
  dom_restricted = false;
  dow_restricted = false;
}

-- From ten o'clock on day 0 it is half past nine on day 1.
fires : next daily flat (pos 600) ≡ some (pos 2010)
unfolding next floor_div ◌*ℤ◌ ◌+ℤ◌
fires = refl

next-Fires_example :
    Fires daily flat (sorted_keys daily.hours) (sorted_keys daily.minutes) (pos 2010)
    × (pos 600 <ℤ pos 2010)
next-Fires_example = next-Fires daily flat (pos 600) (pos 2010) fires

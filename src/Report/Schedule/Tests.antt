-- ===== src/Report/Schedule/Tests.antt =====
-- The theorem on schedules, in a calendar of one endless month that counts in minutes.
use uptime_cairn.Base.{◌≡◌, refl, [], none, arith}
use uptime_cairn.Base.Int.{pos, floor_div, ◌*ℤ◌, ◌+ℤ◌}
use uptime_cairn.Base.Bytes.{codes}
use uptime_cairn.Cron.{Calendar, next, parse}
use uptime_cairn.Report.Schedule.{
  ScheduleSpec, Zones, done, cron_for, parse_send_at, next_run, named_frequency,
}
use uptime_cairn.Report.Schedule.Presets.{
  ParsesTo, expected, quarterly, name, named_frequency-ParsesTo,
}

abbrev endless : Calendar
endless = record {
  date = λ y mo d h m. (d *ℤ pos 1440) +ℤ (h *ℤ pos 60) +ℤ m;
  day_of = λ t. record { year = pos 2026; month = pos 1; day = floor_div t 1440; weekday = pos 1 };
}

abbrev zones : Zones
zones = record { utc = endless; load = λ name. none }

abbrev quarter_to_seven : ScheduleSpec
quarter_to_seven = record {
  frequency = codes "weekly";
  cron = [];
  timezone = [];
  send_at = codes "06:45";
}

as_cron : cron_for quarter_to_seven ≡ done (codes "45 6 * * 1")
unfolding cron_for
as_cron = refl

by_default : parse_send_at [] ≡ done (pos 9, pos 0)
unfolding parse_send_at
by_default = refl

signed_hour : parse_send_at (codes "+9:30") ≡ done (pos 9, pos 30)
unfolding parse_send_at
signed_hour = refl

runs : next_run zones quarter_to_seven (pos 600) ≡ done (pos 1845)
unfolding next_run next parse floor_div ◌*ℤ◌ ◌+ℤ◌
runs = refl

named_frequency-ParsesTo_example :
    ParsesTo (expected quarterly 6 45) (named_frequency (name quarterly) (done (pos 6, pos 45)))
named_frequency-ParsesTo_example =
    named_frequency-ParsesTo quarterly 6 45 (omega arith) (omega arith)

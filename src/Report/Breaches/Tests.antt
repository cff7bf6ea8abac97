-- ===== src/Report/Breaches/Tests.antt =====
-- The theorems on breaches, at concrete days.
use uptime_cairn.Base.{ℕ, ◌*◌, ◌<◌, ◌≡◌, refl, [], ◌∷◌, none, arith}
use uptime_cairn.Base.Int.{pos}
use uptime_cairn.Report.{HistoryBucket, exclude}
use uptime_cairn.Report.Breaches.{
  compute_breaches, days, day_step, add_day, flush, day_length, down_checks, observed_checks,
  day_downtime_seconds,
}
use uptime_cairn.Report.Breaches.Runs.{AllDown}

abbrev day_at : ℕ → ℕ → ℕ → HistoryBucket
day_at n up down = record {
  start = pos (n * day_length);
  up = up;
  down = down;
  pending = 0;
  maintenance = 0;
  unknown = 2;
  skipped = 0;
  response_time_sum = 0;
  response_time_count = 0;
}

-- A tenth of a day, over two days with a gap between them.
spanned :
    compute_breaches (day_at 1 90 10 ∷ day_at 2 0 0 ∷ day_at 3 90 10 ∷ []) exclude
    ≡ record {
      started_at = pos (1 * day_length);
      ended_at = pos (4 * day_length);
      duration_seconds = 17_280;
      incident_id = none;
    }
      ∷ []
unfolding compute_breaches days day_step add_day flush down_checks observed_checks
    day_downtime_seconds
spanned = refl

clean : (down_checks exclude (day_at 2 100 0) ≡ 0) × (0 < observed_checks exclude (day_at 2 100 0))
unfolding down_checks observed_checks
clean = (refl, omega arith)

both_down : AllDown exclude (day_at 1 90 10 ∷ day_at 2 0 5 ∷ [])
unfolding down_checks
both_down = (omega arith, (omega arith, omega arith))

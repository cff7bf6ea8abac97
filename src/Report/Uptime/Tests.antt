-- ===== src/Report/Uptime/Tests.antt =====
-- The theorems on uptime, at concrete counts.
use uptime_cairn.Base.{ℕ, ◌<◌, List, [], ◌∷◌, arith}
use uptime_cairn.Base.Int.{pos}
use uptime_cairn.Report.{HistoryBucket, Fraction, exclude}
use uptime_cairn.Report.Uptime.{compute_uptime, sum}
use uptime_cairn.Report.Uptime.Ratios.{AllAtLeast}

abbrev counts : ℕ → ℕ → ℕ → HistoryBucket
counts up down maintenance = record {
  start = pos 0;
  up = up;
  down = down;
  pending = 0;
  maintenance = maintenance;
  unknown = 3;
  skipped = 0;
  response_time_sum = 0;
  response_time_count = 0;
}

abbrev nine_tenths : Fraction
nine_tenths = record { num = 9; den = 10 }

abbrev estate : List HistoryBucket
estate = counts 90 10 0 ∷ counts 100 0 7 ∷ []

each : AllAtLeast nine_tenths exclude estate
unfolding AllAtLeast
each = (omega arith, (omega arith, omega arith))

observed : 0 < (compute_uptime (sum estate) exclude).observed_checks
unfolding compute_uptime sum
observed = omega arith

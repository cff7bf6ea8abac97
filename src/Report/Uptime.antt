-- ===== src/Report/Uptime.antt =====
-- internal/report/uptime.go: the uptime of a bucket, and the sum of buckets.
mod Ratios
mod Tests
use uptime_cairn.Base.{
  ℕ, ◌+◌, Bool, true, false, List, [], ◌∷◌, Option, none, some, if◌then◌else◌, ltb,
}
use uptime_cairn.Base.Int.{ltb_ℤ, pos}
use uptime_cairn.Model.{Instant}
use uptime_cairn.Report.{
  MaintenanceHandling, unset, exclude, count_as_up, count_as_down, HistoryBucket, Fraction,
}

pub record Uptime : Type 0 where
  pub ratio : Option Fraction
  pub maintenance_handling : MaintenanceHandling
  pub observed_checks : ℕ
  pub up_checks : ℕ
  pub down_checks : ℕ
  pub maintenance_checks : ℕ
  pub unknown_checks : ℕ
  pub skipped_checks : ℕ
  pub unobserved_share : Option Fraction

named : MaintenanceHandling → MaintenanceHandling
named unset = exclude
named exclude = exclude
named count_as_up = count_as_up
named count_as_down = count_as_down

-- The checks that count as up and as down.
up_of : MaintenanceHandling → HistoryBucket → ℕ
up_of count_as_up b = b.up + b.maintenance
up_of count_as_down b = b.up
up_of exclude b = b.up
up_of unset b = b.up

down_of : MaintenanceHandling → HistoryBucket → ℕ
down_of count_as_up b = b.down
down_of count_as_down b = b.down + b.maintenance
down_of exclude b = b.down
down_of unset b = b.down

share : ℕ → ℕ → Option Fraction
share num den = if ltb 0 den then some (record { num = num; den = den }) else none

pub compute_uptime : HistoryBucket → MaintenanceHandling → Uptime
unfolding named up_of down_of share
compute_uptime b handling =
    let policy = named handling in
    let up = up_of policy b in
    let observed = up + down_of policy b in
    record {
      ratio = share up observed;
      maintenance_handling = policy;
      observed_checks = observed;
      up_checks = b.up;
      down_checks = b.down;
      maintenance_checks = b.maintenance;
      unknown_checks = b.unknown;
      skipped_checks = b.skipped;
      unobserved_share =
          share (b.unknown + b.skipped) (b.up + b.down + b.maintenance + b.unknown + b.skipped);
    }

-- One bucket more in a total that holds at least one.
add_bucket : HistoryBucket → HistoryBucket → HistoryBucket
add_bucket total b = record {
  start = if ltb_ℤ b.start total.start then b.start else total.start;
  up = total.up + b.up;
  down = total.down + b.down;
  pending = total.pending + b.pending;
  maintenance = total.maintenance + b.maintenance;
  unknown = total.unknown + b.unknown;
  skipped = total.skipped + b.skipped;
  response_time_sum = total.response_time_sum + b.response_time_sum;
  response_time_count = total.response_time_count + b.response_time_count;
}

sum_from : HistoryBucket → List HistoryBucket → HistoryBucket
unfolding add_bucket
sum_from total [] = total
sum_from total (b ∷ rest) = sum_from (add_bucket total b) rest

-- The total of no bucket; its start stands for the zero time.
abbrev pub zero_bucket : HistoryBucket
zero_bucket = record {
  start = pos 0;
  up = 0;
  down = 0;
  pending = 0;
  maintenance = 0;
  unknown = 0;
  skipped = 0;
  response_time_sum = 0;
  response_time_count = 0;
}

-- The first bucket sets the start, and the counts are added to 0.
pub sum : List HistoryBucket → HistoryBucket
unfolding sum_from
sum [] = zero_bucket
sum (b ∷ rest) = sum_from b rest

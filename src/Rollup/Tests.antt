-- ===== src/Rollup/Tests.antt =====
-- The theorems on buckets and ranges, at concrete times.
use uptime_cairn.Base.{◌+◌, ◌*◌, ◌≡◌, refl, false, List, [], ◌∷◌, All, some, none, arith}
use uptime_cairn.Base.Int.{pos, negsuc, floor_div, ◌+ℤ◌, ◌-ℤ◌, ◌*ℤ◌, ◌≤ℤ◌}
use uptime_cairn.Model.{Instant, Heartbeat, Status, Suppression}
use uptime_cairn.Store.Rollups.{Row, latest_bucket, in_range}
use uptime_cairn.Rollup.{
  tier_1m, Queries, window, bucket, second, grace, max_buckets_per_run, closed_before,
}
use uptime_cairn.Rollup.Windows.{WholeBuckets, window_bounds, window_progress}
use uptime_cairn.Rollup.Stalls.{
  TimedPass, Beyond, minute_passes, minute_seconds, minute_passes_stall,
}

-- Half a second before the epoch is in the minute before it.
before_epoch : bucket (negsuc 499_999_999) (second * 60) ≡ negsuc 59_999_999_999
unfolding bucket
before_epoch = refl

-- The newest bucket starts an hour after the epoch.
abbrev newest : Instant
newest = pos 3_600_000_000_000

abbrev store : Queries
store = record {
  latest_bucket = λ tier. some (some newest);
  earliest_raw = some none;
  earliest_bucket = λ tier. some none;
}

-- Two minutes and a half later, and two days later.
abbrev soon : Instant
soon = pos 3_750_000_000_000

abbrev later : Instant
later = pos 176_400_000_000_000

soon_range : window store tier_1m soon ≡ some (pos 3_000_000_000_000, pos 3_720_000_000_000)
unfolding window
soon_range = refl

window_bounds_example :
    (pos 3_720_000_000_000 +ℤ pos grace ≤ℤ soon)
    × (pos 3_720_000_000_000 ≤ℤ pos 3_000_000_000_000 +ℤ pos (max_buckets_per_run * 60_000_000_000))
    × WholeBuckets tier_1m (pos 3_000_000_000_000, pos 3_720_000_000_000)
window_bounds_example =
    window_bounds store tier_1m soon (pos 3_000_000_000_000, pos 3_720_000_000_000) minute_seconds
      soon_range

-- The bucket of the newest and one more.
closed_soon : newest +ℤ pos ((1 + 1) * 60_000_000_000) ≤ℤ closed_before tier_1m soon
unfolding closed_before bucket ◌+ℤ◌
closed_soon = omega arith

window_progress_example :
    (range : Instant × Instant) × (window store tier_1m soon ≡ some range)
    × (range.0 ≤ℤ newest -ℤ pos 600_000_000_000)
    × (newest +ℤ pos ((1 + 1) * 60_000_000_000) ≤ℤ range.1)
window_progress_example =
    window_progress store tier_1m soon newest 1 minute_seconds (omega arith) refl closed_soon

abbrev minute_row : Row
minute_row = record {
  bucket_start = pos 3_600_000;
  monitor_id = 5;
  org_id = 1;
  up_count = 3;
  down_count = 0;
  pending_count = 0;
  maintenance_count = 0;
  unknown_count = 0;
  skipped_count = 0;
  response_time_sum = none;
  response_time_count = 0;
  response_time_min = none;
  response_time_max = none;
  response_time_p95 = none;
}

-- A check just before the pass.
abbrev after_gap : Heartbeat
after_gap = record {
  time = pos 176_000_000_000_000;
  monitor_id = 5;
  org_id = 1;
  probe_id = 9;
  status = Status.up;
  response_time = none;
  code = [];
  message = [];
  attempt = 1;
  important = false;
  suppressed = false;
  suppression_reason = Suppression.unsuppressed;
}

-- Two passes, two days after the newest bucket.
abbrev two_passes : List TimedPass
two_passes =
    record { now = later; beats = after_gap ∷ [] }
    ∷ record { now = later +ℤ pos 60_000_000_000; beats = after_gap ∷ [] }
    ∷ []

newest_row : latest_bucket (minute_row ∷ []) ≡ some newest
unfolding latest_bucket ◌*ℤ◌
newest_row = refl

two_passes-Beyond : All (Beyond newest) two_passes
unfolding in_range bucket ◌+ℤ◌ ◌-ℤ◌ floor_div
two_passes-Beyond =
    (record { late = omega arith; gap = refl }, (record { late = omega arith; gap = refl }, tt))

minute_passes_stall_example : minute_passes two_passes (minute_row ∷ []) ≡ minute_row ∷ []
minute_passes_stall_example =
    minute_passes_stall newest two_passes (minute_row ∷ []) newest_row two_passes-Beyond

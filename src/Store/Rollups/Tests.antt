-- ===== src/Store/Rollups/Tests.antt =====
-- The theorems on rollups, at concrete heartbeats.
use uptime_cairn.Base.{ℕ, ◌≡◌, refl, false, List, [], ◌∷◌, some}
use uptime_cairn.Base.Int.{pos}
use uptime_cairn.Model.{Heartbeat, Status, Suppression}
use uptime_cairn.Store.Rollups.{Row, aggregate_raw, aggregate_tier, group_row, same_bucket, merge}
use uptime_cairn.Store.Rollups.Totals.{total_of, ups, read_rows, tier_conserves}

abbrev beat_at : ℕ → Status → Heartbeat
beat_at t status = record {
  time = pos t;
  monitor_id = 7;
  org_id = 1;
  probe_id = 9;
  status = status;
  response_time = some 5000;
  code = [];
  message = [];
  attempt = 1;
  important = false;
  suppressed = false;
  suppression_reason = Suppression.unsuppressed;
}

-- Two minutes, with three checks in the first.
abbrev beats : List Heartbeat
beats =
    beat_at 1_000_000_000 Status.up
    ∷ beat_at 21_000_000_000 Status.down
    ∷ beat_at 41_000_000_000 Status.up
    ∷ beat_at 61_000_000_000 Status.up
    ∷ []

abbrev minutes : List Row
unfolding aggregate_raw
minutes = aggregate_raw (pos 0) (pos 120_000_000_000) beats

tier_conserves_example :
    total_of ups (aggregate_tier 300_000 (pos 0) (pos 300_000_000_000) minutes)
    ≡ total_of ups (read_rows (pos 0) (pos 300_000_000_000) minutes)
tier_conserves_example = tier_conserves ups 300_000 (pos 0) (pos 300_000_000_000) minutes

two_ups : total_of ups (aggregate_raw (pos 0) (pos 60_000_000_000) beats) ≡ 2
unfolding aggregate_raw total_of group_row same_bucket merge
two_ups = refl

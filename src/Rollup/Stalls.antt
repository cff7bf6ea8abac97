-- ===== src/Rollup/Stalls.antt =====
-- The minute tier over the store, pass after pass (Rollup, internal/rollup/rollup.go, over RollUpRaw,
-- LatestBucket and EarliestRaw of internal/store/sqlite/rollup.go).
use uptime_cairn.Base.{
  ◌+◌, ◌*◌, ◌≡◌, refl, ap, List, [], ◌∷◌, Option, none, some, All, arith, if◌then◌else◌, Bool-cases,
  inl, inr,
}
use uptime_cairn.Base.Int.{pos, ◌+ℤ◌, ◌-ℤ◌, ◌≤ℤ◌, ◌<ℤ◌, ltb_ℤ, +ℤ_parts}
use uptime_cairn.Model.{Instant, Heartbeat}
use uptime_cairn.Store.Rollups.{Row, latest_bucket, earliest_raw, roll_up_raw, in_range}
use uptime_cairn.Store.Rollups.Reruns.{roll_up_raw_nothing}
use uptime_cairn.Rollup.{
  Queries, tier_1m, bucket, window, closed_before, grace, max_buckets_per_run,
}
use uptime_cairn.Rollup.Windows.{WholeSeconds, window_capped, closed_high}

-- What the store answers for the minute tier.
minute_queries : List Heartbeat → List Row → Queries
unfolding latest_bucket earliest_raw
minute_queries beats rows = record {
  latest_bucket = λ tier. some (latest_bucket rows);
  earliest_raw = some (earliest_raw beats);
  earliest_bucket = λ tier. some none;
}

minute_range : List Heartbeat → List Row → Option (Instant × Instant) → List Row
unfolding roll_up_raw
minute_range beats rows none = rows
minute_range beats rows (some (from, to)) =
    let built = roll_up_raw from to beats rows in if ltb_ℤ from to then built else rows

-- What a pass makes of the rows of the minute tier.
pub minute_pass : List Heartbeat → Instant → List Row → List Row
unfolding window minute_queries minute_range
minute_pass beats now rows =
    minute_range beats rows (window (minute_queries beats rows) tier_1m now)

-- The time of a pass, and the heartbeats that it finds.
pub record TimedPass : Type 0 where
  pub now : Instant
  pub beats : List Heartbeat

pub minute_passes : List TimedPass → List Row → List Row
unfolding minute_pass
minute_passes [] rows = rows
minute_passes (p ∷ rest) rows = minute_passes rest (minute_pass p.beats p.now rows)

-- Where the range starts, and where the cap ends it.
abbrev pub start_after : Instant → Instant
start_after latest = bucket (latest -ℤ pos tier_1m.reprocess) tier_1m.interval

abbrev pub limit_after : Instant → Instant
limit_after latest = start_after latest +ℤ pos (max_buckets_per_run * tier_1m.interval)

-- A pass that comes after the cap, over heartbeats none of which lies in the range.
pub record Beyond (latest : Instant) (p : TimedPass) : Type 0 where
  pub late : limit_after latest +ℤ pos (tier_1m.interval + grace) ≤ℤ p.now
  pub gap : in_range (start_after latest) (limit_after latest) p.beats ≡ []

minute_range_nothing :
    (from to : Instant) (beats : List Heartbeat) (rows : List Row)
    → in_range from to beats ≡ []
    → minute_range beats rows (some (from, to)) ≡ rows
unfolding minute_range
minute_range_nothing from to beats rows h =
    let built = roll_up_raw_nothing from to beats rows h in
    elim (Bool-cases (ltb_ℤ from to)) [ inl e ↦ rw e built | inr e ↦ rw e refl ]

pub minute_seconds : WholeSeconds tier_1m
minute_seconds = record { seconds = 60; some_seconds = omega arith; interval_is = refl }

minute_pass_stalls :
    (latest : Instant) (p : TimedPass) (rows : List Row)
    → latest_bucket rows ≡ some latest
    → Beyond latest p
    → minute_pass p.beats p.now rows ≡ rows
unfolding minute_pass
minute_pass_stalls latest p rows e b =
    let late = b.late in
    let q = minute_queries p.beats rows in
    let answer : q.latest_bucket tier_1m.name ≡ some (some latest) =
      unfold minute_queries in ap some e in
    let beyond : limit_after latest <ℤ closed_before tier_1m p.now = omega (
      arith,
      late,
      closed_high tier_1m p.now minute_seconds,
      +ℤ_parts (limit_after latest) (pos (tier_1m.interval + grace)),
      +ℤ_parts (closed_before tier_1m p.now) (pos (tier_1m.interval + grace)),
    ) in
    rw (window_capped q tier_1m p.now latest answer beyond)
      (minute_range_nothing (start_after latest) (limit_after latest) p.beats rows b.gap)

-- Where no heartbeat lies between the start of the range after the newest minute bucket and the
-- cap of that range, passes that come later than the cap by a bucket and the grace period leave
-- the rows of the minute tier as they are, however many they are, whenever they come, and whatever
-- heartbeats there are beyond the range.
pub minute_passes_stall :
    (latest : Instant) (passes : List TimedPass) (rows : List Row)
    → latest_bucket rows ≡ some latest
    → All (Beyond latest) passes
    → minute_passes passes rows ≡ rows
unfolding minute_passes
minute_passes_stall latest [] rows e h = refl
minute_passes_stall latest (p ∷ rest) rows e (b, later) =
    rw (minute_pass_stalls latest p rows e b) (minute_passes_stall latest rest rows e later)

-- ===== src/Store/Rollups.antt =====
-- internal/store/sqlite/rollup.go: the rows that RollUpRaw and RollUpTier write. A row's bucket is in
-- milliseconds, response times are whole microseconds, and a SUM, MIN or MAX over nothing is `none`.
pub mod Totals
pub mod Upserts
pub mod Reruns
mod Tests
use uptime_cairn.Base.{
  ℕ, suc, ◌+◌, ◌-◌, ◌*◌, ◌/◌, min, max, Bool, true, false, ◌&&◌, List, [], ◌∷◌, ◌++◌, Option, none,
  some, map, length, get_elem?, if◌then◌else◌, leb, ltb, ◌==◌,
}
use uptime_cairn.Base.Int.{ℤ, pos, negsuc, floor_div, leb_ℤ, ltb_ℤ, eqb_ℤ, ◌*ℤ◌}
use uptime_cairn.Model.{EntityId, Instant, Heartbeat, Status}
use uptime_cairn.Rollup.{quot}

pub record Row : Type 0 where
  pub bucket_start : ℤ
  pub monitor_id : EntityId
  pub org_id : EntityId
  pub up_count : ℕ
  pub down_count : ℕ
  pub pending_count : ℕ
  pub maintenance_count : ℕ
  pub unknown_count : ℕ
  pub skipped_count : ℕ
  pub response_time_sum : Option ℕ
  pub response_time_count : ℕ
  pub response_time_min : Option ℕ
  pub response_time_max : Option ℕ
  pub response_time_p95 : Option ℕ

-- SUM(status = n) of one row.
one_if : Status → Status → ℕ
one_if Status.up Status.up = 1
one_if Status.down Status.down = 1
one_if Status.pending Status.pending = 1
one_if Status.maintenance Status.maintenance = 1
one_if Status.unknown Status.unknown = 1
one_if Status.skipped Status.skipped = 1
one_if _ _ = 0

-- measuredResponseTime: only a check that succeeded has one.
measured : Status → Option ℕ → Option ℕ
measured Status.up none = none
measured Status.up (some ns) = some (ns / 1000)
measured _ response = none

abbrev one_if_some : Option ℕ → ℕ
one_if_some none = 0
one_if_some (some a) = 1

raw_bucket : Instant → ℤ
unfolding floor_div quot ◌*ℤ◌
raw_bucket time = quot (floor_div time 1000) 60_000_000 *ℤ pos 60_000

-- A heartbeat as the aggregate of itself.
pub row_of_beat : Heartbeat → Row
unfolding measured one_if raw_bucket
row_of_beat b =
    let response = measured b.status b.response_time in
    record {
      bucket_start = raw_bucket b.time;
      monitor_id = b.monitor_id;
      org_id = b.org_id;
      up_count = one_if Status.up b.status;
      down_count = one_if Status.down b.status;
      pending_count = one_if Status.pending b.status;
      maintenance_count = one_if Status.maintenance b.status;
      unknown_count = one_if Status.unknown b.status;
      skipped_count = one_if Status.skipped b.status;
      response_time_sum = response;
      response_time_count = one_if_some response;
      response_time_min = response;
      response_time_max = response;
      response_time_p95 = none;
    }

-- An aggregate of two values either of which may be missing.
combine : (ℕ → ℕ → ℕ) → Option ℕ → Option ℕ → Option ℕ
combine f none b = b
combine f (some a) none = some a
combine f (some a) (some b) = some (f a b)

-- Two rows of one group.
pub merge : Row → Row → Row
unfolding combine
merge a b = record {
  bucket_start = a.bucket_start;
  monitor_id = a.monitor_id;
  org_id = a.org_id;
  up_count = a.up_count + b.up_count;
  down_count = a.down_count + b.down_count;
  pending_count = a.pending_count + b.pending_count;
  maintenance_count = a.maintenance_count + b.maintenance_count;
  unknown_count = a.unknown_count + b.unknown_count;
  skipped_count = a.skipped_count + b.skipped_count;
  response_time_sum = combine (λ x y. x + y) a.response_time_sum b.response_time_sum;
  response_time_count = a.response_time_count + b.response_time_count;
  response_time_min = combine min a.response_time_min b.response_time_min;
  response_time_max = combine max a.response_time_max b.response_time_max;
  response_time_p95 = combine max a.response_time_p95 b.response_time_p95;
}

pub same_bucket : Row → Row → Bool
same_bucket a b = a.monitor_id == b.monitor_id && eqb_ℤ a.bucket_start b.bucket_start

-- GROUP BY monitor_id, bucket.
pub group_row : List Row → Row → List Row
group_row [] r = r ∷ []
group_row (g ∷ groups) r =
    let further = group_row groups r in if same_bucket g r then merge g r ∷ groups else g ∷ further

pub group_rows : List Row → List Row → List Row
group_rows groups [] = groups
group_rows groups (r ∷ rest) = group_rows (group_row groups r) rest

-- ORDER BY response_time_ms.
insert_value : ℕ → List ℕ → List ℕ
insert_value v [] = v ∷ []
insert_value v (x ∷ rest) =
    let further = insert_value v rest in if leb v x then v ∷ x ∷ rest else x ∷ further

pub sorted : List ℕ → List ℕ
unfolding insert_value
sorted [] = []
sorted (v ∷ rest) = insert_value v (sorted rest)

-- Nearest rank: the ceil(0.95 n)-th of the ordered measurements.
pub p95 : List ℕ → Option ℕ
unfolding sorted
p95 values = get_elem? (sorted values) ((length values * 95 + 99) / 100 - 1)

add_response : Bool → Option ℕ → List ℕ → List ℕ
add_response true (some v) rest = v ∷ rest
add_response true none rest = rest
add_response false response rest = rest

-- The measurements of a group.
pub responses : Row → List Heartbeat → List ℕ
unfolding row_of_beat add_response
responses g [] = []
responses g (b ∷ beats) =
    let r = row_of_beat b in add_response (same_bucket g r) r.response_time_sum (responses g beats)

with_p95 : List Heartbeat → List Row → List Row
unfolding responses p95
with_p95 beats [] = []
with_p95 beats (g ∷ groups) =
    record g { response_time_p95 = p95 (responses g beats) } ∷ with_p95 beats groups

-- time >= from AND time < to, in whole microseconds.
unfoldable pub in_range : Instant → Instant → List Heartbeat → List Heartbeat
unfolding floor_div
in_range from to [] = []
in_range from to (b ∷ beats) =
    let rest = in_range from to beats in
    let time = floor_div b.time 1000 in
    if leb_ℤ (floor_div from 1000) time && ltb_ℤ time (floor_div to 1000) then b ∷ rest else rest

beat_rows : List Heartbeat → List Row
unfolding row_of_beat
beat_rows [] = []
beat_rows (b ∷ beats) = row_of_beat b ∷ beat_rows beats

-- INSERT … ON CONFLICT (monitor_id, bucket_start) DO UPDATE. The update leaves the org_id as it is.
pub upsert : List Row → Row → List Row
unfolding same_bucket
upsert [] r = r ∷ []
upsert (x ∷ rows) r =
    let further = upsert rows r in
    if same_bucket x r then record r { org_id = x.org_id } ∷ rows else x ∷ further

pub upsert_all : List Row → List Row → List Row
unfolding upsert
upsert_all rows [] = rows
upsert_all rows (r ∷ rest) = upsert_all (upsert rows r) rest

pub aggregate_raw : Instant → Instant → List Heartbeat → List Row
unfolding with_p95 group_rows beat_rows in_range
aggregate_raw from to beats =
    let sample = in_range from to beats in with_p95 sample (group_rows [] (beat_rows sample))

unfoldable pub roll_up_raw : Instant → Instant → List Heartbeat → List Row → List Row
unfolding aggregate_raw upsert_all
roll_up_raw from to beats rows = upsert_all rows (aggregate_raw from to beats)

-- bucketExpr: the bucket of a tier, by its interval in milliseconds.
rebucket : ℕ → Row → Row
unfolding quot ◌*ℤ◌
rebucket interval r = record r { bucket_start = quot r.bucket_start interval *ℤ pos interval }

pub source_rows : ℕ → Instant → Instant → List Row → List Row
unfolding rebucket floor_div
source_rows interval from to [] = []
source_rows interval from to (r ∷ rows) =
    let rest = source_rows interval from to rows in
    if leb_ℤ (floor_div from 1_000_000) r.bucket_start
      && ltb_ℤ r.bucket_start (floor_div to 1_000_000)
    then rebucket interval r ∷ rest
    else rest

pub aggregate_tier : ℕ → Instant → Instant → List Row → List Row
unfolding group_rows source_rows
aggregate_tier interval from to source = group_rows [] (source_rows interval from to source)

pub roll_up_tier : ℕ → Instant → Instant → List Row → List Row → List Row
unfolding aggregate_tier upsert_all
roll_up_tier interval from to source rows = upsert_all rows (aggregate_tier interval from to source)

-- MIN or MAX over a column; a NULL is `none`.
least : List ℤ → Option ℤ
least [] = none
least (v ∷ values) = elim (least values) [
  | none ↦ some v
  | some other ↦ some (if leb_ℤ v other then v else other)
]

greatest : List ℤ → Option ℤ
greatest [] = none
greatest (v ∷ values) = elim (greatest values) [
  | none ↦ some v
  | some other ↦ some (if leb_ℤ v other then other else v)
]

-- time.UnixMilli and time.UnixMicro of a value.
from_unit : ℕ → Option ℤ → Option Instant
unfolding ◌*ℤ◌
from_unit unit none = none
from_unit unit (some v) = some (v *ℤ pos unit)

unfoldable pub latest_bucket : List Row → Option Instant
unfolding greatest from_unit
latest_bucket rows = from_unit 1_000_000 (greatest (map (λ (r : Row). r.bucket_start) rows))

unfoldable pub earliest_raw : List Heartbeat → Option Instant
unfolding least from_unit floor_div
earliest_raw beats = from_unit 1000 (least (map (λ (b : Heartbeat). floor_div b.time 1000) beats))

-- ===== src/Rollup/Windows.antt =====
-- Which buckets a pass computes (window in internal/rollup/rollup.go).
use uptime_cairn.Base.{
  ℕ, ◌+◌, ◌*◌, ◌<◌, ◌≤◌, ◌≡◌, refl, sym, if◌then◌else◌, arith, Option, some, none, Bool-cases, inl,
  inr,
}
use uptime_cairn.Base.Division.{times_step, times_plus}
use uptime_cairn.Base.Int.{
  ℤ, pos, floor_div, ◌*ℤ◌, ◌+ℤ◌, ◌-ℤ◌, ◌≤ℤ◌, ◌<ℤ◌, ltb_ℤ, +ℤ_parts, -ℤ_parts,
}
use uptime_cairn.Model.{Instant}
use uptime_cairn.Rollup.{
  second, bucket, Tier, Queries, window, bounded_range, closed_before, from_source, from_latest,
  earliest_source, max_buckets_per_run, grace,
}
use uptime_cairn.Rollup.Buckets.{bucket_bounds, bucket-floor_div}

-- The tier's interval is a whole number of seconds, not 0.
pub record WholeSeconds (tier : Tier) : Type 0 where
  pub seconds : ℕ
  pub some_seconds : 0 < seconds
  pub interval_is : tier.interval ≡ second * seconds

tier_bucket_bounds :
    (tier : Tier)
    → WholeSeconds tier
    → (t : Instant)
    → (bucket t tier.interval ≤ℤ t) × (t <ℤ bucket t tier.interval +ℤ pos tier.interval)
tier_bucket_bounds tier w t = rw (w.interval_is) (bucket_bounds t w.seconds w.some_seconds)

-- A boundary between two buckets of a tier.
abbrev Aligned : Tier → Instant → Type 0
Aligned tier t = (k : ℤ) × (t ≡ k *ℤ pos tier.interval)

bucket-Aligned :
    (tier : Tier) → WholeSeconds tier → (t : Instant) → Aligned tier (bucket t tier.interval)
bucket-Aligned tier w t =
    rw (w.interval_is)
      (floor_div t (second * w.seconds), bucket-floor_div t w.seconds w.some_seconds)

Aligned-later :
    (tier : Tier) (t : Instant) (buckets : ℕ)
    → Aligned tier t
    → Aligned tier (t +ℤ pos (buckets * tier.interval))
Aligned-later tier t buckets (k, e) = (k +ℤ pos buckets, rw e (times_plus k buckets tier.interval))

Aligned-step :
    (tier : Tier) (t u : Instant)
    → Aligned tier t
    → Aligned tier u
    → t <ℤ u
    → t +ℤ pos tier.interval ≤ℤ u
Aligned-step tier t u (k, e) (j, f) = rw (e, f) (times_step k j tier.interval)

-- A range between two boundaries that ends by `closed`, with at most `max_buckets_per_run` buckets.
record Bounded (tier : Tier) (closed : Instant) (range : Instant × Instant) : Type 0 where
  pub ends : range.1 ≤ℤ closed
  pub few : range.1 ≤ℤ range.0 +ℤ pos (max_buckets_per_run * tier.interval)
  pub from_boundary : Aligned tier range.0
  pub to_boundary : Aligned tier range.1

-- The end of a range, by the test that `bounded_range` makes.
capped : Instant → Instant → Instant
capped limit closed = if ltb_ℤ limit closed then limit else closed

capped_bounds :
    (limit closed : Instant) → (capped limit closed ≤ℤ closed) × (capped limit closed ≤ℤ limit)
unfolding capped
capped_bounds limit closed = ground arith

le_capped : (x limit closed : Instant) → x ≤ℤ limit → x ≤ℤ closed → x ≤ℤ capped limit closed
unfolding capped
le_capped x limit closed h k = ground arith

capped_eq : (limit closed : Instant) → limit <ℤ closed → capped limit closed ≡ limit
unfolding capped
capped_eq limit closed h = ground arith

capped-Aligned :
    (tier : Tier) (limit closed : Instant)
    → Aligned tier limit
    → Aligned tier closed
    → Aligned tier (capped limit closed)
unfolding capped
capped-Aligned tier limit closed a b = elim (Bool-cases (ltb_ℤ limit closed)) [
  | inl e ↦ rw e a
  | inr e ↦ rw e b
]

bounded_range-capped :
    (tier : Tier) (t closed : Instant)
    → bounded_range tier t closed ≡ (
      bucket t tier.interval,
      capped (bucket t tier.interval +ℤ pos (max_buckets_per_run * tier.interval)) closed,
    )
unfolding bounded_range capped
bounded_range-capped tier t closed = refl

window-bounded_range :
    (q : Queries) (tier : Tier) (now latest : Instant)
    → q.latest_bucket tier.name ≡ some (some latest)
    → window q tier now
      ≡ some (bounded_range tier (latest -ℤ pos tier.reprocess) (closed_before tier now))
unfolding window from_latest
window-bounded_range q tier now latest e = rw e

bounded_range-Bounded :
    (tier : Tier) (t closed : Instant)
    → WholeSeconds tier
    → Aligned tier closed
    → Bounded tier closed (bounded_range tier t closed)
bounded_range-Bounded tier t closed w aligned =
    let start = bucket t tier.interval in
    let limit = start +ℤ pos (max_buckets_per_run * tier.interval) in
    let from = bucket-Aligned tier w t in
    let (ends, few) = capped_bounds limit closed in
    rw (bounded_range-capped tier t closed) (record {
      ends = ends;
      few = few;
      from_boundary = from;
      to_boundary =
          capped-Aligned tier limit closed (Aligned-later tier start max_buckets_per_run from)
            aligned;
    })

closed-Bounded :
    (tier : Tier) (closed : Instant) → Aligned tier closed → Bounded tier closed (closed, closed)
closed-Bounded tier closed aligned =
    let e = +ℤ_parts closed (pos (max_buckets_per_run * tier.interval)) in
    record {
      ends = omega arith;
      few = omega (arith, e);
      from_boundary = aligned;
      to_boundary = aligned;
    }

from_source-Bounded :
    (tier : Tier) (closed : Instant) (earliest : Option (Option Instant))
    (range : Instant × Instant)
    → WholeSeconds tier
    → Aligned tier closed
    → from_source tier closed earliest ≡ some range
    → Bounded tier closed range
unfolding from_source
from_source-Bounded tier closed none range w aligned h = absurd cc
from_source-Bounded tier closed (some none) range w aligned h =
    let e : (closed, closed) ≡ range = cc in rw (sym e) (closed-Bounded tier closed aligned)
from_source-Bounded tier closed (some (some t)) range w aligned h =
    let e : bounded_range tier t closed ≡ range = cc in
    rw (sym e) (bounded_range-Bounded tier t closed w aligned)

from_latest-Bounded :
    (q : Queries) (tier : Tier) (closed : Instant) (latest : Option (Option Instant))
    (range : Instant × Instant)
    → WholeSeconds tier
    → Aligned tier closed
    → from_latest q tier closed latest ≡ some range
    → Bounded tier closed range
unfolding from_latest
from_latest-Bounded q tier closed none range w aligned h = absurd cc
from_latest-Bounded q tier closed (some (some latest)) range w aligned h =
    let e : bounded_range tier (latest -ℤ pos tier.reprocess) closed ≡ range = cc in
    rw (sym e) (bounded_range-Bounded tier (latest -ℤ pos tier.reprocess) closed w aligned)
from_latest-Bounded q tier closed (some none) range w aligned h =
    from_source-Bounded tier closed (earliest_source q tier.source) range w aligned h

closed-Aligned :
    (tier : Tier) (now : Instant) → WholeSeconds tier → Aligned tier (closed_before tier now)
unfolding closed_before
closed-Aligned tier now w = bucket-Aligned tier w (now -ℤ pos grace)

closed_lem :
    (tier : Tier) (now : Instant) → WholeSeconds tier → closed_before tier now +ℤ pos grace ≤ℤ now
unfolding closed_before
closed_lem tier now w =
    let (low, high) = tier_bucket_bounds tier w (now -ℤ pos grace) in
    omega (
      arith,
      low,
      -ℤ_parts now (pos grace),
      +ℤ_parts (bucket (now -ℤ pos grace) tier.interval) (pos grace),
    )

-- The end of the closed buckets is less than an interval behind.
pub closed_high :
    (tier : Tier) (now : Instant)
    → WholeSeconds tier
    → now <ℤ closed_before tier now +ℤ pos (tier.interval + grace)
unfolding closed_before
closed_high tier now w =
    let (low, high) = tier_bucket_bounds tier w (now -ℤ pos grace) in
    let start = bucket (now -ℤ pos grace) tier.interval in
    omega (
      arith,
      high,
      -ℤ_parts now (pos grace),
      +ℤ_parts start (pos tier.interval),
      +ℤ_parts start (pos (tier.interval + grace)),
    )

-- The buckets that have an instant in the range lie in it whole.
abbrev pub WholeBuckets : Tier → Instant × Instant → Type 0
WholeBuckets tier range =
    (t : Instant)
    → range.0 ≤ℤ t
    → t <ℤ range.1
    → (range.0 ≤ℤ bucket t tier.interval) × (bucket t tier.interval +ℤ pos tier.interval ≤ℤ range.1)

Bounded-WholeBuckets :
    (tier : Tier) (closed : Instant) (range : Instant × Instant)
    → WholeSeconds tier
    → Bounded tier closed range
    → WholeBuckets tier range
Bounded-WholeBuckets tier closed range w b t from to =
    let start = bucket t tier.interval in
    let aligned = bucket-Aligned tier w t in
    let (low, high) = tier_bucket_bounds tier w t in
    (
      elim (Bool-cases (ltb_ℤ start range.0)) [
        | inl e ↦
            let before : start <ℤ range.0 = ground arith in
            absurd (
              omega
                (arith, from, high, Aligned-step tier start range.0 aligned b.from_boundary before))
        | inr e ↦ ground arith
      ],
      Aligned-step tier start range.1 aligned b.to_boundary (omega (arith, low, to)),
    )

-- For a tier whose interval is a whole number of seconds, the range of a pass ends at least the
-- grace period before now and holds at most max_buckets_per_run buckets, and each bucket that has
-- an instant in it lies in it whole, from its start to its end: no open bucket is computed, and
-- none in part.
pub window_bounds :
    (q : Queries) (tier : Tier) (now : Instant) (range : Instant × Instant)
    → WholeSeconds tier
    → window q tier now ≡ some range
    → (range.1 +ℤ pos grace ≤ℤ now)
      × (range.1 ≤ℤ range.0 +ℤ pos (max_buckets_per_run * tier.interval))
      × WholeBuckets tier range
unfolding window
window_bounds q tier now range w h =
    let closed = closed_before tier now in
    let b =
      from_latest-Bounded q tier closed (q.latest_bucket tier.name) range w
        (closed-Aligned tier now w) h in
    let ends = b.ends in
    let e = +ℤ_parts range.1 (pos grace) in
    let e' = +ℤ_parts closed (pos grace) in
    (
      omega (arith, ends, e, e', closed_lem tier now w),
      b.few,
      Bounded-WholeBuckets tier closed range w b,
    )

-- For a tier of whole seconds, the range of a pass starts no later than the newest bucket less
-- what is reprocessed, and where some buckets after the newest have closed it reaches to the end
-- of the last of them, if the reprocessing, those buckets and two more fit into the cap.
pub window_progress :
    (q : Queries) (tier : Tier) (now latest : Instant) (more : ℕ)
    → WholeSeconds tier
    → tier.reprocess + (more + 2) * tier.interval ≤ max_buckets_per_run * tier.interval
    → q.latest_bucket tier.name ≡ some (some latest)
    → latest +ℤ pos ((more + 1) * tier.interval) ≤ℤ closed_before tier now
    → (range : Instant × Instant) × (window q tier now ≡ some range)
      × (range.0 ≤ℤ latest -ℤ pos tier.reprocess)
      × (latest +ℤ pos ((more + 1) * tier.interval) ≤ℤ range.1)
window_progress q tier now latest more w room e due =
    let from = latest -ℤ pos tier.reprocess in
    let start = bucket from tier.interval in
    let span = max_buckets_per_run * tier.interval in
    let ahead = (more + 1) * tier.interval in
    let one_more : (more + 2) * tier.interval ≡ ahead + tier.interval = grind arith in
    let (low, high) = tier_bucket_bounds tier w from in
    let closed = closed_before tier now in
    (
      bounded_range tier from closed,
      window-bounded_range q tier now latest e,
      rw (bounded_range-capped tier from closed) low,
      rw (bounded_range-capped tier from closed) (
          le_capped (latest +ℤ pos ahead) (start +ℤ pos span) closed
            (omega (
              arith,
              high,
              room,
              one_more,
              +ℤ_parts start (pos span),
              +ℤ_parts start (pos tier.interval),
              +ℤ_parts latest (pos ahead),
              -ℤ_parts latest (pos tier.reprocess),
            ))
            due),
    )

-- Where the cap ends the range of a pass, the newest bucket alone decides it.
pub window_capped :
    (q : Queries) (tier : Tier) (now latest : Instant)
    → q.latest_bucket tier.name ≡ some (some latest)
    → bucket (latest -ℤ pos tier.reprocess) tier.interval
        +ℤ pos (max_buckets_per_run * tier.interval)
      <ℤ closed_before tier now
    → window q tier now
      ≡ some (
        bucket (latest -ℤ pos tier.reprocess) tier.interval,
        bucket (latest -ℤ pos tier.reprocess) tier.interval
            +ℤ pos (max_buckets_per_run * tier.interval),
      )
window_capped q tier now latest e reached =
    let from = latest -ℤ pos tier.reprocess in
    let span = max_buckets_per_run * tier.interval in
    rw (
      window-bounded_range q tier now latest e,
      bounded_range-capped tier from (closed_before tier now),
      capped_eq (bucket from tier.interval +ℤ pos span) (closed_before tier now) reached,
    )

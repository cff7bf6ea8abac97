-- ===== src/Rollup.antt =====
-- internal/rollup/rollup.go: the chain of aggregate tiers, the buckets of a tier, and which buckets a
-- pass computes. Instants and widths are nanoseconds; the zero time is `none`.
mod Buckets
mod Stalls
mod Tests
mod Windows
pub mod Retention
use uptime_cairn.Base.{
  ℕ, ◌+◌, ◌*◌, ◌/◌, Bool, true, false, not, ◌&&◌, List, [], ◌∷◌, ◌++◌, Option, none, some,
  if◌then◌else◌,
}
use uptime_cairn.Base.Int.{ℤ, pos, negsuc, sub_ℕ, floor_div, ◌+ℤ◌, ◌-ℤ◌, ◌*ℤ◌, ltb_ℤ, eqb_ℤ}
use uptime_cairn.Model.{Instant}

abbrev pub second : ℕ
second = 1_000_000_000

pub data TierName : Type 0 where
  minute five_minutes hour day : TierName

pub record Tier : Type 0 where
  pub name : TierName
  pub interval : ℕ
  pub source : Option TierName
  pub reprocess : ℕ

abbrev pub tier_1m : Tier
tier_1m = record {
  name = minute;
  interval = 60_000_000_000;
  source = none;
  reprocess = 600_000_000_000;
}

abbrev tier_5m : Tier
tier_5m = record {
  name = five_minutes;
  interval = 300_000_000_000;
  source = some minute;
  reprocess = 3_600_000_000_000;
}

abbrev tier_1h : Tier
tier_1h = record {
  name = hour;
  interval = 3_600_000_000_000;
  source = some five_minutes;
  reprocess = 43_200_000_000_000;
}

abbrev tier_1d : Tier
tier_1d = record {
  name = day;
  interval = 86_400_000_000_000;
  source = some hour;
  reprocess = 259_200_000_000_000;
}

abbrev pub tiers : List Tier
tiers = tier_1m ∷ tier_5m ∷ tier_1h ∷ tier_1d ∷ []

abbrev pub grace : ℕ
grace = 30_000_000_000

abbrev pub max_buckets_per_run : ℕ
max_buckets_per_run = 2000

-- Go's integer division, which rounds towards zero.
unfoldable pub quot : ℤ → ℕ → ℤ
quot (pos n) d = pos (n / d)
quot (negsuc n) d = sub_ℕ 0 ((n + 1) / d)

-- The seconds to which Bucket floors a number of seconds.
pub floor_seconds : ℤ → ℕ → ℤ
unfolding quot ◌*ℤ◌ ◌-ℤ◌
floor_seconds secs step =
    let floored = quot secs step *ℤ pos step in
    if ltb_ℤ secs (pos 0) && not (eqb_ℤ floored secs) then floored -ℤ pos step else floored

pub bucket : Instant → ℕ → Instant
unfolding floor_seconds floor_div ◌*ℤ◌
bucket t interval = floor_seconds (floor_div t second) (interval / second) *ℤ pos second

-- What the store answers: the newest bucket of a tier, and the oldest thing to aggregate. The outer
-- `none` is an error, the inner one the zero time.
pub record Queries : Type 0 where
  pub latest_bucket : TierName → Option (Option Instant)
  pub earliest_raw : Option (Option Instant)
  pub earliest_bucket : TierName → Option (Option Instant)

earliest_source : Queries → Option TierName → Option (Option Instant)
earliest_source q none = q.earliest_raw
earliest_source q (some t) = q.earliest_bucket t

-- The range from a start that is not yet aligned, at most `max_buckets_per_run` buckets long.
pub bounded_range : Tier → Instant → Instant → Instant × Instant
unfolding bucket ◌+ℤ◌
bounded_range tier from to =
    let start = bucket from tier.interval in
    let limit = start +ℤ pos (max_buckets_per_run * tier.interval) in
    (start, if ltb_ℤ limit to then limit else to)

pub closed_before : Tier → Instant → Instant
unfolding bucket ◌-ℤ◌
closed_before tier now = bucket (now -ℤ pos grace) tier.interval

from_source : Tier → Instant → Option (Option Instant) → Option (Instant × Instant)
unfolding bounded_range
from_source tier to none = none
from_source tier to (some none) = some (to, to)
from_source tier to (some (some earliest)) = some (bounded_range tier earliest to)

from_latest : Queries → Tier → Instant → Option (Option Instant) → Option (Instant × Instant)
unfolding bounded_range from_source earliest_source ◌-ℤ◌
from_latest q tier to none = none
from_latest q tier to (some (some latest)) =
    some (bounded_range tier (latest -ℤ pos tier.reprocess) to)
from_latest q tier to (some none) = from_source tier to (earliest_source q tier.source)

-- `none` is an error of the store.
pub window : Queries → Tier → Instant → Option (Instant × Instant)
unfolding from_latest closed_before
window q tier now = from_latest q tier (closed_before tier now) (q.latest_bucket tier.name)

-- One call of RollUpRaw or RollUpTier.
pub record Build : Type 0 where
  pub tier : TierName
  pub source : Option TierName
  pub from : Instant
  pub to : Instant

-- The calls that a pass makes, in order, and whether it ran to its end. The queries are asked again
-- for each tier, so they may depend on the calls made before; `roll_up` says whether a call succeeds.
pub record Backend : Type 0 where
  pub queries : List Build → Queries
  pub roll_up : List Build → Build → Bool

build_tier : Backend → Tier → List Build → Option (Instant × Instant) → List Build × Bool
build_tier s tier done none = (done, false)
build_tier s tier done (some (from, to)) =
    let call : Build = record { tier = tier.name; source = tier.source; from = from; to = to } in
    if ltb_ℤ from to
    then (if s.roll_up done call then (done ++ call ∷ [], true) else (done ++ call ∷ [], false))
    else (done, true)

rollup_tiers : Backend → Instant → List Tier → List Build → List Build × Bool
unfolding build_tier window
rollup_tiers s now [] done = (done, true)
rollup_tiers s now (tier ∷ rest) done =
    let (done', ok) = build_tier s tier done (window (s.queries done) tier now) in
    let more = rollup_tiers s now rest done' in if ok then more else (done', false)

pub rollup : Backend → Instant → List Build × Bool
unfolding rollup_tiers
rollup s now = rollup_tiers s now tiers []

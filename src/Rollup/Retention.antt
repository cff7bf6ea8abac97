-- ===== src/Rollup/Retention.antt =====
-- internal/rollup/rollup.go: the retention policy and the deletes that enforce it, with the deletes of
-- internal/store/sqlite/rollup.go. A table is the list of its rows' instants. Days are Go integers.
pub mod Policy
pub mod Deletes
pub mod Passes
mod Outcome
mod Tests
use uptime_cairn.Base.{
  ℕ, zero, suc, ◌+◌, ◌-◌, ◌==◌, ◌++◌, map, Bool, true, false, not, ◌&&◌, ◌||◌, List, [], ◌∷◌,
  Option, none, some, if◌then◌else◌, ltb,
}
use uptime_cairn.Base.Int.{ℤ, pos, negsuc, floor_div, ◌-ℤ◌, ◌*ℤ◌, leb_ℤ, ltb_ℤ, eqb_ℤ}
use uptime_cairn.Model.{Instant}
use uptime_cairn.Rollup.{TierName, Tier, tiers, second}

-- Zero days keep a table for ever.
pub record Retention : Type 0 where
  pub raw_days : ℤ
  pub rollup_1m_days : ℤ
  pub rollup_5m_days : ℤ
  pub rollup_1h_days : ℤ
  pub rollup_1d_days : ℤ
  pub webhook_delivery_days : ℤ
  pub notification_delivery_days : ℤ

abbrev pub default_retention : Retention
default_retention = record {
  raw_days = pos 7;
  rollup_1m_days = pos 30;
  rollup_5m_days = pos 90;
  rollup_1h_days = pos 365;
  rollup_1d_days = pos 0;
  webhook_delivery_days = pos 30;
  notification_delivery_days = pos 90;
}

pub data Table : Type 0 where
  raw : Table
  bucket_table : TierName → Table
  webhook_deliveries notification_deliveries : Table

-- Which rule a policy breaks: a tier kept for less time than the one below it, or no raw day at all.
pub data RetentionError : Type 0 where
  leaves_hole : Table → Table → RetentionError
  no_raw_days : RetentionError

longer : ℤ → ℤ → Bool
longer coarse fine = eqb_ℤ coarse (pos 0) || not (eqb_ℤ fine (pos 0)) && leb_ℤ fine coarse

record Pair : Type 0 where
  pub coarse_name : Table
  pub fine_name : Table
  pub coarse : ℤ
  pub fine : ℤ

pairs : Retention → List Pair
pairs r =
    record {
      coarse_name = bucket_table TierName.minute;
      fine_name = raw;
      coarse = r.rollup_1m_days;
      fine = r.raw_days;
    }
    ∷ record {
      coarse_name = bucket_table TierName.five_minutes;
      fine_name = bucket_table TierName.minute;
      coarse = r.rollup_5m_days;
      fine = r.rollup_1m_days;
    }
    ∷ record {
      coarse_name = bucket_table TierName.hour;
      fine_name = bucket_table TierName.five_minutes;
      coarse = r.rollup_1h_days;
      fine = r.rollup_5m_days;
    }
    ∷ record {
      coarse_name = bucket_table TierName.day;
      fine_name = bucket_table TierName.hour;
      coarse = r.rollup_1d_days;
      fine = r.rollup_1h_days;
    }
    ∷ []

check_pairs : List Pair → Option RetentionError
unfolding longer
check_pairs [] = none
check_pairs (p ∷ rest) =
    let later = check_pairs rest in
    if not (longer p.coarse p.fine) then some (leaves_hole p.coarse_name p.fine_name) else later

after_pairs : Retention → Option RetentionError → Option RetentionError
after_pairs r (some e) = some e
after_pairs r none = if ltb_ℤ r.raw_days (pos 1) then some no_raw_days else none

-- `none` accepts the policy.
pub validate : Retention → Option RetentionError
unfolding after_pairs check_pairs pairs
validate r = after_pairs r (check_pairs (pairs r))

pub for_tier : Retention → TierName → ℤ
for_tier r TierName.minute = r.rollup_1m_days
for_tier r TierName.five_minutes = r.rollup_5m_days
for_tier r TierName.hour = r.rollup_1h_days
for_tier r TierName.day = r.rollup_1d_days

-- AddDate(0, 0, -days) of an instant in UTC, where every day has 86,400 seconds.
pub days_before : ℤ → Instant → Instant
unfolding ◌*ℤ◌ ◌-ℤ◌
days_before days now = now -ℤ days *ℤ pos 86_400_000_000_000

abbrev pub delete_batch : ℕ
delete_batch = 5000

-- The nanoseconds of a table's times as they are stored: microseconds for heartbeats, else milliseconds.
pub resolution : Table → ℕ
resolution raw = 1000
resolution (bucket_table tier) = 1_000_000
resolution webhook_deliveries = 1_000_000
resolution notification_deliveries = 1_000_000

-- cutoff.UnixMicro() or cutoff.UnixMilli(), as the instant that it stands for.
pub stored_cutoff : Table → Instant → Instant
unfolding resolution floor_div ◌*ℤ◌
stored_cutoff table cutoff = let unit = resolution table in floor_div cutoff unit *ℤ pos unit

-- At most `limit` rows before a bound, and how many they were. SQL leaves open which rows these are;
-- here they are the first ones.
pub delete_rows : Instant → ℕ → List Instant → List Instant × ℕ
delete_rows bound limit [] = ([], 0)
delete_rows bound limit (t ∷ rows) =
    let hit = ltb_ℤ t bound && ltb 0 limit in
    let (rest, n) = delete_rows bound (if hit then limit - 1 else limit) rows in
    if hit then (rest, suc n) else (t ∷ rest, n)

-- One bounded delete.
pub delete_before : Table → Instant → ℕ → List Instant → List Instant × ℕ
unfolding stored_cutoff delete_rows
delete_before table cutoff limit rows = delete_rows (stored_cutoff table cutoff) limit rows

-- What the context and the store do at one turn of the loop.
pub data Turn : Type 0 where
  proceed cancelled failed : Turn

-- How a delete loop ended.
pub data Ending : Type 0 where
  done stopped broken out_of_fuel : Ending

pub record Deleted : Type 0 where
  pub rows : List Instant
  pub total : ℕ
  pub ending : Ending

take_turn : Turn → List Instant → ℕ → List Instant → ℕ → Deleted → Deleted
take_turn cancelled rows total rows' n rest = record {
  rows = rows;
  total = total;
  ending = stopped;
}
take_turn failed rows total rows' n rest = record { rows = rows; total = total; ending = broken }
take_turn proceed rows total rows' n rest =
    if ltb n delete_batch then record { rows = rows'; total = total + n; ending = done } else rest

-- `turns` is what happens at each turn, numbered from the start of the loop.
pub delete_all : ℕ → (ℕ → Turn) → Table → Instant → ℕ → ℕ → List Instant → Deleted
unfolding delete_before take_turn
delete_all zero turns table cutoff turn total rows = record {
  rows = rows;
  total = total;
  ending = out_of_fuel;
}
delete_all (suc fuel) turns table cutoff turn total rows =
    let (rows', n) = delete_before table cutoff delete_batch rows in
    let rest = delete_all fuel turns table cutoff (suc turn) (total + n) rows' in
    take_turn (turns turn) rows total rows' n rest

pub table_number : Table → ℕ
table_number raw = 0
table_number (bucket_table TierName.minute) = 1
table_number (bucket_table TierName.five_minutes) = 2
table_number (bucket_table TierName.hour) = 3
table_number (bucket_table TierName.day) = 4
table_number webhook_deliveries = 5
table_number notification_deliveries = 6

-- The rows of each table.
abbrev pub Tables : Type 0
Tables = Table → List Instant

pub update : Tables → Table → List Instant → Tables
unfolding table_number
update db table rows other = if table_number table == table_number other then rows else db other

-- A delete loop that Retain starts: a table and its days.
pub record Horizon : Type 0 where
  pub table : Table
  pub days : ℤ

-- The loops of a pass, in order: raw heartbeats where the days are positive, then the tiers and the
-- delivery logs where the days are not 0.
raw_horizon : Retention → List Horizon
raw_horizon r =
    if ltb_ℤ (pos 0) r.raw_days then record { table = raw; days = r.raw_days } ∷ [] else []

finite : List Horizon → List Horizon
finite [] = []
finite (h ∷ rest) = let more = finite rest in if eqb_ℤ h.days (pos 0) then more else h ∷ more

tier_horizon : Retention → Tier → Horizon
unfolding for_tier
tier_horizon r tier = record { table = bucket_table tier.name; days = for_tier r tier.name }

log_horizons : Retention → List Horizon
log_horizons r =
    record { table = webhook_deliveries; days = r.webhook_delivery_days }
    ∷ record { table = notification_deliveries; days = r.notification_delivery_days }
    ∷ []

pub horizons : Retention → List Horizon
horizons r = raw_horizon r ++ (finite (map (tier_horizon r) tiers) ++ finite (log_horizons r))

-- The state of a pass: the tables, the rows freed and whether every loop so far ended without error.
pub record Pass : Type 0 where
  pub tables : Tables
  pub freed : ℕ
  pub ok : Bool

fail_free : Ending → Bool
fail_free broken = false
fail_free done = true
fail_free stopped = true
fail_free out_of_fuel = true

-- `world` is what happens at each turn of the loop over a table.
abbrev pub World : Type 0
World = Table → ℕ → Turn

pub enforce : ℕ → World → Instant → Tables → ℕ → List Horizon → Pass
unfolding delete_all days_before update fail_free
enforce fuel world now db freed [] = record { tables = db; freed = freed; ok = true }
enforce fuel world now db freed (h ∷ rest) =
    let d = delete_all fuel (world h.table) h.table (days_before h.days now) 0 0 (db h.table) in
    let db' = update db h.table d.rows in
    let more = enforce fuel world now db' (freed + d.total) rest in
    if fail_free d.ending then more else record { tables = db'; freed = freed; ok = false }

-- The pass, and whether it goes on to reclaim space.
pub retain : ℕ → World → Retention → Instant → Tables → Pass × Bool
unfolding enforce horizons raw_horizon finite tier_horizon log_horizons
retain fuel world r now db =
    let pass = enforce fuel world now db 0 (horizons r) in (pass, pass.ok && ltb 0 pass.freed)

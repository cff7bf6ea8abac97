-- ===== src/Rollup/Retention/Tests.antt =====
-- The theorems on retention, at the default policy and small tables.
use uptime_cairn.Base.{◌<◌, ◌≡◌, refl, true, [], ◌∷◌, none, arith, length}
use uptime_cairn.Base.Int.{pos, ◌+ℤ◌, ◌≤ℤ◌, ◌<ℤ◌}
use uptime_cairn.Model.{Instant}
use uptime_cairn.Rollup.{TierName}
use uptime_cairn.Rollup.Retention.{
  Table, table_number, raw, bucket_table, Tables, World, proceed, failed, default_retention,
  validate, retain, days_before, stored_cutoff, resolution,
}
use uptime_cairn.Rollup.Retention.Policy.{policy_days, kept_by, kept_as_stored, chain_no_hole}
use uptime_cairn.Rollup.Retention.Deletes.{survivors}
use uptime_cairn.Rollup.Retention.Outcome.{retain_keeps, retain_complete}

-- Ten days after the epoch, and half a microsecond.
abbrev now : Instant
now = pos 864_000_000_000_500

-- The raw table has a row of ten days and one of a day.
abbrev tables : Tables
tables raw = pos 0 ∷ pos 777_600_000_000_000 ∷ []
tables other = []

abbrev calm : World
calm table turn = proceed

-- Every first delete fails.
abbrev broken_store : World
broken_store table turn = failed

valid : validate default_retention ≡ none
unfolding validate
valid = refl

small : (t : Table) → length (tables t) < 5
small raw = omega arith
small (bucket_table tier) = omega arith
small Table.webhook_deliveries = omega arith
small Table.notification_deliveries = omega arith

retain_complete_example :
    let pass = (retain 5 calm default_retention now tables).0 in
    let cutoff = days_before (policy_days default_retention raw) now in
    (pass.tables raw ≡ kept_as_stored default_retention now raw (tables raw))
    × (pass.ok ≡ true)
    × (stored_cutoff raw cutoff ≤ℤ cutoff)
    × (cutoff <ℤ stored_cutoff raw cutoff +ℤ pos (resolution raw))
retain_complete_example =
    retain_complete 5 calm default_retention now tables raw valid (λ t i. refl) small

retain_keeps_example :
    kept_by default_retention now raw
      ((retain 5 broken_store default_retention now tables).0.tables raw)
    ≡ kept_by default_retention now raw (tables raw)
retain_keeps_example = retain_keeps 5 broken_store default_retention now tables raw valid

-- A row of one day is kept raw.
fresh :
    kept_by default_retention now raw (pos 777_600_000_000_000 ∷ []) ≡ pos 777_600_000_000_000 ∷ []
unfolding kept_by survivors
fresh = refl

hour_after_raw :
    (table_number raw < table_number (bucket_table TierName.hour))
    × (table_number (bucket_table TierName.hour) < 5)
unfolding table_number
hour_after_raw = (omega arith, omega arith)

chain_no_hole_example :
    kept_by default_retention now (bucket_table TierName.hour) (pos 777_600_000_000_000 ∷ [])
    ≡ pos 777_600_000_000_000 ∷ []
chain_no_hole_example =
    chain_no_hole default_retention now (pos 777_600_000_000_000) raw (bucket_table TierName.hour)
      valid hour_after_raw.0 hour_after_raw.1 fresh

-- A row within the microsecond of the cutoff is left, although the policy does not keep it.
within_resolution :
    (kept_as_stored default_retention now raw (pos 259_200_000_000_000 ∷ [])
      ≡ pos 259_200_000_000_000 ∷ [])
    × (kept_by default_retention now raw (pos 259_200_000_000_000 ∷ []) ≡ [])
unfolding kept_as_stored kept_by survivors
within_resolution = (refl, refl)

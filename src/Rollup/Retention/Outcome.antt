-- ===== src/Rollup/Retention/Outcome.antt =====
-- What a retention pass leaves, by the policy (Runner.Retain, internal/rollup/rollup.go).
use uptime_cairn.Base.{
  ℕ, ◌+◌, ◌<◌, ◌≡◌, refl, sym, ap, ◌∙◌, ◌==◌, Bool, true, false, arith, List, [], ◌∷◌, ◌++◌, map,
  length, if◌then◌else◌, inl, inr, Bool-cases, none,
}
use uptime_cairn.Base.Int.{pos, eqb_ℤ, ltb_ℤ, ◌+ℤ◌, ◌≤ℤ◌, ◌<ℤ◌}
use uptime_cairn.Model.{Instant}
use uptime_cairn.Rollup.{TierName, tiers}
use uptime_cairn.Rollup.Retention.{
  proceed, delete_all, resolution, stored_cutoff, Table, table_number, Tables, update, Horizon,
  horizons, World, enforce, retain, Retention, validate, for_tier, days_before, fail_free, raw,
  bucket_table, webhook_deliveries, notification_deliveries, raw_horizon, finite, tier_horizon,
  log_horizons,
}
use uptime_cairn.Rollup.Retention.Deletes.{
  survivors, stored_cutoff_bounds, delete_all_complete, length-survivors,
}
use uptime_cairn.Rollup.Retention.Policy.{validate_raw, policy_days, kept_by, kept_as_stored}
use uptime_cairn.Rollup.Retention.Passes.{Cutoffs, policy_cut, swept, table_eq, enforce-swept}

-- What cutoffs leave of a table's rows: all of them for 0 days.
unfoldable kept_with : Cutoffs → Retention → Table → List Instant → List Instant
unfolding policy_days
kept_with cut r table rows =
    let days = policy_days r table in
    if eqb_ℤ days (pos 0) then rows else survivors (cut table days) rows

swept_append :
    (cut : Cutoffs) (table : Table) (xs ys : List Horizon) (rows : List Instant)
    → swept cut table (xs ++ ys) rows ≡ swept cut table ys (swept cut table xs rows)
unfolding swept
swept_append cut table [] ys rows = refl
swept_append cut table (h ∷ xs) ys rows = swept_append cut table xs ys (
    if table_number h.table == table_number table
    then survivors (cut h.table h.days) rows
    else rows)

-- One loop that runs where its days are not 0.
once : Cutoffs → Table → Horizon → List Instant → List Instant
once cut table h rows =
    if eqb_ℤ h.days (pos 0)
    then rows
    else (if table_number h.table == table_number table
        then survivors (cut h.table h.days) rows
        else rows)

swept-finite_cons :
    (cut : Cutoffs) (table : Table) (h : Horizon) (rest : List Horizon) (rows : List Instant)
    → swept cut table (finite (h ∷ rest)) rows
      ≡ swept cut table (finite rest) (once cut table h rows)
unfolding finite swept once
swept-finite_cons cut table h rest rows = elim (Bool-cases (eqb_ℤ h.days (pos 0))) [
  | inl e ↦ simp e refl
  | inr e ↦ simp e refl
]

swept_raw :
    (cut : Cutoffs) (table : Table) (r : Retention) (rows : List Instant)
    → pos 1 ≤ℤ r.raw_days
    → swept cut table (raw_horizon r) rows
      ≡ (if 0 == table_number table then survivors (cut raw r.raw_days) rows else rows)
unfolding swept raw_horizon table_number
swept_raw cut table r rows h = let e : ltb_ℤ (pos 0) r.raw_days ≡ true = ground arith in simp e refl

-- The tiers and the logs, one loop after the other.
tail_swept :
    (cut : Cutoffs) (table : Table) (r : Retention) (rows : List Instant)
    → swept cut table (finite (map (tier_horizon r) tiers) ++ finite (log_horizons r)) rows
      ≡ once cut table
          (record { table = notification_deliveries; days = r.notification_delivery_days })
          (once cut table
            (record { table = webhook_deliveries; days = r.webhook_delivery_days })
            (once cut table
              (record { table = bucket_table TierName.day; days = r.rollup_1d_days })
              (once cut table
                (record { table = bucket_table TierName.hour; days = r.rollup_1h_days })
                (once cut table
                  (record { table = bucket_table TierName.five_minutes; days = r.rollup_5m_days })
                  (once cut table
                    (record { table = bucket_table TierName.minute; days = r.rollup_1m_days })
                    rows)))))
tail_swept cut table r rows =
    unfold tier_horizon for_tier log_horizons in
    simp (swept_append, swept-finite_cons) (unfold finite swept in refl)

if_same {ℓ} : {A : Type ℓ} (b : Bool) (x : A) → (if b then x else x) ≡ x
if_same true x = refl
if_same false x = refl

all_swept :
    (cut : Cutoffs) (table : Table) (r : Retention) (rows : List Instant)
    → pos 1 ≤ℤ r.raw_days
    → swept cut table (horizons r) rows
      ≡ swept cut table
          (finite (map (tier_horizon r) tiers) ++ finite (log_horizons r))
          (if 0 == table_number table then survivors (cut raw r.raw_days) rows else rows)
unfolding horizons
all_swept cut table r rows h =
    let tail = finite (map (tier_horizon r) tiers) ++ finite (log_horizons r) in
    swept_append cut table (raw_horizon r) tail rows
    ∙ ap (swept cut table tail) (swept_raw cut table r rows h)

swept-horizons :
    (r : Retention) (cut : Cutoffs) (table : Table) (rows : List Instant)
    → pos 1 ≤ℤ r.raw_days
    → swept cut table (horizons r) rows ≡ kept_with cut r table rows
unfolding once kept_with policy_days for_tier table_number
swept-horizons r cut raw rows h =
    let e : eqb_ℤ r.raw_days (pos 0) ≡ false = ground arith in
    rw (all_swept cut raw r rows h, tail_swept) (simp (if_same, e) refl)
swept-horizons r cut (bucket_table TierName.minute) rows h =
    rw (all_swept cut (bucket_table TierName.minute) r rows h, tail_swept) (simp if_same refl)
swept-horizons r cut (bucket_table TierName.five_minutes) rows h =
    rw (all_swept cut (bucket_table TierName.five_minutes) r rows h, tail_swept) (simp if_same refl)
swept-horizons r cut (bucket_table TierName.hour) rows h =
    rw (all_swept cut (bucket_table TierName.hour) r rows h, tail_swept) (simp if_same refl)
swept-horizons r cut (bucket_table TierName.day) rows h =
    rw (all_swept cut (bucket_table TierName.day) r rows h, tail_swept) (simp if_same refl)
swept-horizons r cut webhook_deliveries rows h =
    rw (all_swept cut webhook_deliveries r rows h, tail_swept) (simp if_same refl)
swept-horizons r cut notification_deliveries rows h =
    rw (all_swept cut notification_deliveries r rows h, tail_swept) (simp if_same refl)

-- Under a valid policy, no retention pass deletes a row that the policy keeps, however the store
-- fails and wherever the context ends.
pub retain_keeps :
    (fuel : ℕ) (world : World) (r : Retention) (now : Instant) (db : Tables) (table : Table)
    → validate r ≡ none
    → kept_by r now table ((retain fuel world r now db).0.tables table)
      ≡ kept_by r now table (db table)
unfolding retain kept_by kept_with
retain_keeps fuel world r now db table valid =
    let some_raw = validate_raw r valid in
    let after = (enforce fuel world now db 0 (horizons r)).tables table in
    sym (swept-horizons r (policy_cut now) table after some_raw)
    ∙ enforce-swept fuel world now table (horizons r) db 0
    ∙ swept-horizons r (policy_cut now) table (db table) some_raw

update_short :
    (fuel : ℕ) (db : Tables) (table other : Table) (rows : List Instant)
    → ((t : Table) → length (db t) < fuel)
    → length rows < fuel
    → length (update db table rows other) < fuel
unfolding update
update_short fuel db table other rows small h =
    elim (Bool-cases (table_number table == table_number other)) [
      | inl e ↦ rw e h
      | inr e ↦ rw e (small other)
    ]

update-survivors :
    (cutoff : Instant) (db : Tables) (table other : Table) (rows : List Instant)
    → rows ≡ survivors cutoff (db table)
    → update db table rows other
      ≡ (if table_number table == table_number other then survivors cutoff (db other) else db other)
unfolding update
update-survivors cutoff db table other rows h =
    elim (Bool-cases (table_number table == table_number other)) [
      | inl e ↦ rw e (h ∙ ap (λ t. survivors cutoff (db t)) (table_eq table other e))
      | inr e ↦ rw e refl
    ]

-- As the statements compare.
abbrev stored_cut : Instant → Cutoffs
stored_cut now table days = stored_cutoff table (days_before days now)

-- A pass that nothing interrupts.
enforce_complete :
    (fuel : ℕ) (world : World) (now : Instant) (table : Table) (hs : List Horizon) (db : Tables)
    (freed : ℕ)
    → ((t : Table) (i : ℕ) → world t i ≡ proceed)
    → ((t : Table) → length (db t) < fuel)
    → let pass = enforce fuel world now db freed hs in
      (pass.tables table ≡ swept (stored_cut now) table hs (db table)) × (pass.ok ≡ true)
unfolding enforce swept
enforce_complete fuel world now table [] db freed calm small = (refl, refl)
enforce_complete fuel world now table (h ∷ rest) db freed calm small =
    let cutoff = days_before h.days now in
    let bound = stored_cutoff h.table cutoff in
    let d = delete_all fuel (world h.table) h.table cutoff 0 0 (db h.table) in
    let (ended, left) =
      delete_all_complete fuel (world h.table) h.table cutoff 0 0 (db h.table) (calm h.table)
        (small h.table) in
    let db' = update db h.table d.rows in
    let small' : (t : Table) → length (db' t) < fuel = λ t.
      update_short fuel db h.table t d.rows small
        (rw left (omega (arith, length-survivors bound (db h.table), small h.table))) in
    let (more, ok) = enforce_complete fuel world now table rest db' (freed + d.total) calm small' in
    let f : fail_free d.ending ≡ true = rw ended (unfold fail_free in refl) in
    rw f (
      more
          ∙ ap (swept (stored_cut now) table rest)
              (update-survivors bound db h.table table d.rows left),
      ok,
    )

-- A retention pass that nothing interrupts leaves of each table, under a valid policy, exactly the
-- rows at or after the policy's cutoff as the table's times are stored, in whole microseconds or
-- milliseconds, which is less than one of those before the cutoff itself; a table kept for 0 days
-- it leaves whole; it ends without error. The fuel of its loops is more than the rows of any
-- table.
pub retain_complete :
    (fuel : ℕ) (world : World) (r : Retention) (now : Instant) (db : Tables) (table : Table)
    → validate r ≡ none
    → ((t : Table) (i : ℕ) → world t i ≡ proceed)
    → ((t : Table) → length (db t) < fuel)
    → let pass = (retain fuel world r now db).0 in
      let cutoff = days_before (policy_days r table) now in
      (pass.tables table ≡ kept_as_stored r now table (db table))
      × (pass.ok ≡ true)
      × (stored_cutoff table cutoff ≤ℤ cutoff)
      × (cutoff <ℤ stored_cutoff table cutoff +ℤ pos (resolution table))
unfolding retain kept_as_stored kept_with
retain_complete fuel world r now db table valid calm small =
    let (swept_all, ok) = enforce_complete fuel world now table (horizons r) db 0 calm small in
    let (low, high) = stored_cutoff_bounds table (days_before (policy_days r table) now) in
    (
      swept_all ∙ swept-horizons r (stored_cut now) table (db table) (validate_raw r valid),
      ok,
      low,
      high,
    )

-- ===== src/Rollup/Retention/Policy.antt =====
-- What a valid policy promises (Retention.Validate, internal/rollup/rollup.go).
use uptime_cairn.Base.{
  ℕ, zero, suc, ◌+◌, ◌-◌, List, [], ◌∷◌, Bool-cases, ◌<◌, ◌≡◌, refl, sym, true, false, arith, none,
  if◌then◌else◌, inl, inr,
}
use uptime_cairn.Base.Int.{ℤ, pos, eqb_ℤ, ◌≤ℤ◌, -ℤ_parts, ◌*ℤ◌}
use uptime_cairn.Rollup.{TierName}
use uptime_cairn.Rollup.Retention.{
  Retention, validate, after_pairs, check_pairs, pairs, longer, for_tier, days_before,
  stored_cutoff, Table, table_number, raw, bucket_table, webhook_deliveries,
  notification_deliveries,
}
use uptime_cairn.Model.{Instant}
use uptime_cairn.Rollup.Retention.Deletes.{survivors, survivors_one}

-- The days a policy gives a table.
unfoldable pub policy_days : Retention → Table → ℤ
unfolding for_tier
policy_days r raw = r.raw_days
policy_days r (bucket_table tier) = for_tier r tier
policy_days r webhook_deliveries = r.webhook_delivery_days
policy_days r notification_deliveries = r.notification_delivery_days

-- What the policy keeps of a table's rows: all of them for 0 days, else those of its last days.
unfoldable pub kept_by : Retention → Instant → Table → List Instant → List Instant
unfolding policy_days days_before
kept_by r now table rows =
    let days = policy_days r table in
    if eqb_ℤ days (pos 0) then rows else survivors (days_before days now) rows

-- The same with the cutoff at the resolution of the table's stored times.
unfoldable pub kept_as_stored : Retention → Instant → Table → List Instant → List Instant
unfolding policy_days days_before stored_cutoff
kept_as_stored r now table rows =
    let days = policy_days r table in
    if eqb_ℤ days (pos 0) then rows else survivors (stored_cutoff table (days_before days now)) rows

longer_trans : (a b c : ℤ) → longer a b ≡ true → longer b c ≡ true → longer a c ≡ true
unfolding longer
longer_trans a b c h k = ground arith

validate-longer :
    (r : Retention)
    → validate r ≡ none
    → (longer r.rollup_1m_days r.raw_days ≡ true)
      × (longer r.rollup_5m_days r.rollup_1m_days ≡ true)
      × (longer r.rollup_1h_days r.rollup_5m_days ≡ true)
      × (longer r.rollup_1d_days r.rollup_1h_days ≡ true)
      × (pos 1 ≤ℤ r.raw_days)
unfolding validate check_pairs pairs after_pairs
validate-longer r h = ground arith

pub validate_raw : (r : Retention) → validate r ≡ none → pos 1 ≤ℤ r.raw_days
validate_raw r h = (validate-longer r h).4

-- The days along the chain, from raw to the coarsest tier.
days_at : Retention → ℕ → ℤ
days_at r zero = r.raw_days
days_at r (suc zero) = r.rollup_1m_days
days_at r (suc (suc zero)) = r.rollup_5m_days
days_at r (suc (suc (suc zero))) = r.rollup_1h_days
days_at r (suc (suc (suc (suc n)))) = r.rollup_1d_days

longer_refl : (a : ℤ) → longer a a ≡ true
unfolding longer
longer_refl a = ground arith

days_at_step :
    (r : Retention) (n : ℕ) → validate r ≡ none → longer (days_at r (suc n)) (days_at r n) ≡ true
unfolding days_at
days_at_step r zero h = (validate-longer r h).0
days_at_step r (suc zero) h = (validate-longer r h).1
days_at_step r (suc (suc zero)) h = (validate-longer r h).2
days_at_step r (suc (suc (suc zero))) h = (validate-longer r h).3
days_at_step r (suc (suc (suc (suc n)))) h = longer_refl r.rollup_1d_days

days_at_mono :
    (r : Retention) (n gap : ℕ)
    → validate r ≡ none
    → longer (days_at r (gap + n)) (days_at r n) ≡ true
days_at_mono r n zero h = let e : 0 + n ≡ n = omega arith in rw e (longer_refl (days_at r n))
days_at_mono r n (suc gap) h =
    let e : suc gap + n ≡ suc (gap + n) = omega arith in
    rw e (
      longer_trans (days_at r (suc (gap + n))) (days_at r (gap + n)) (days_at r n)
        (days_at_step r (gap + n) h) (days_at_mono r n gap h))

policy_days-days_at :
    (r : Retention) (table : Table)
    → table_number table < 5
    → policy_days r table ≡ days_at r (table_number table)
unfolding policy_days days_at table_number for_tier
policy_days-days_at r raw h = refl
policy_days-days_at r (bucket_table TierName.minute) h = refl
policy_days-days_at r (bucket_table TierName.five_minutes) h = refl
policy_days-days_at r (bucket_table TierName.hour) h = refl
policy_days-days_at r (bucket_table TierName.day) h = refl
policy_days-days_at r webhook_deliveries h = absurd (omega arith)
policy_days-days_at r notification_deliveries h = absurd (omega arith)

chain_longer :
    (r : Retention) (fine coarse : Table)
    → validate r ≡ none
    → table_number fine < table_number coarse
    → table_number coarse < 5
    → longer (policy_days r coarse) (policy_days r fine) ≡ true
chain_longer r fine coarse v h k =
    let n = table_number fine in
    let gap = table_number coarse - n in
    let e : gap + n ≡ table_number coarse = omega arith in
    rw (policy_days-days_at r coarse k, policy_days-days_at r fine (omega arith), sym e)
      (days_at_mono r n gap v)

days_before_mono :
    (fine coarse : ℤ) (now : Instant)
    → fine ≤ℤ coarse
    → days_before coarse now ≤ℤ days_before fine now
unfolding days_before ◌*ℤ◌
days_before_mono fine coarse now h =
    let span : ℤ → ℤ = λ d. d *ℤ pos 86_400_000_000_000 in
    let ordered : span fine ≤ℤ span coarse = ground arith in
    omega (arith, ordered, -ℤ_parts now (span fine), -ℤ_parts now (span coarse))

longer_finite :
    (coarse fine : ℤ)
    → longer coarse fine ≡ true
    → eqb_ℤ coarse (pos 0) ≡ false
    → (eqb_ℤ fine (pos 0) ≡ false) × (fine ≤ℤ coarse)
unfolding longer
longer_finite coarse fine h e = ground arith

-- A row that is kept for `fine` days is kept for `coarse` days.
longer-kept :
    (coarse fine : ℤ) (now t : Instant)
    → longer coarse fine ≡ true
    → (if eqb_ℤ fine (pos 0) then t ∷ [] else survivors (days_before fine now) (t ∷ [])) ≡ t ∷ []
    → (if eqb_ℤ coarse (pos 0) then t ∷ [] else survivors (days_before coarse now) (t ∷ []))
      ≡ t ∷ []
longer-kept coarse fine now t h k = elim (Bool-cases (eqb_ℤ coarse (pos 0))) [
  | inl e ↦ rw e refl
  | inr e ↦
      let (f, le) = longer_finite coarse fine h e in
      let kept : survivors (days_before fine now) (t ∷ []) ≡ t ∷ [] = simp f at k in
      let early = (survivors_one t (days_before fine now)).0 kept in
      rw e (
        (survivors_one t (days_before coarse now)).1
          (omega (arith, early, days_before_mono fine coarse now le)))
]

-- Under a valid policy history has no hole: at every instant, a row of an age that a table of the
-- chain raw, 1m, 5m, 1h, 1d keeps is kept by every coarser one.
pub chain_no_hole :
    (r : Retention) (now t : Instant) (fine coarse : Table)
    → validate r ≡ none
    → table_number fine < table_number coarse
    → table_number coarse < 5
    → kept_by r now fine (t ∷ []) ≡ t ∷ []
    → kept_by r now coarse (t ∷ []) ≡ t ∷ []
unfolding kept_by
chain_no_hole r now t fine coarse v h k kept =
    longer-kept (policy_days r coarse) (policy_days r fine) now t (chain_longer r fine coarse v h k)
      kept

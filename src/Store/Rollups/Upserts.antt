-- ===== src/Store/Rollups/Upserts.antt =====
-- A range that is rolled up again gives the rows that it has (RollUpRaw, RollUpTier,
-- internal/store/sqlite/rollup.go).
use uptime_cairn.Base.{
  ℕ, ◌≤◌, ◌≡◌, refl, sym, ap, ◌∙◌, Bool, true, false, List, [], ◌∷◌, arith, if◌then◌else◌,
  Bool-cases, inl, inr,
}
use uptime_cairn.Store.Rollups.{Row, same_bucket, upsert, upsert_all}

-- The first row of the same bucket is `r`, but for its org_id.
Holds : Row → List Row → Type 0
Holds r [] = 1 ≤ 0
Holds r (x ∷ rows) = if same_bucket x r then record r { org_id = x.org_id } ≡ x else Holds r rows

same_bucket_refl : (a : Row) → same_bucket a a ≡ true
unfolding same_bucket
same_bucket_refl a = ground arith

same_bucket_sym : (a b : Row) → same_bucket a b ≡ same_bucket b a
unfolding same_bucket
same_bucket_sym a b = ground arith

-- The org_id and the measurements are no part of the bucket.
same_bucket-org_id :
    (a b : Row) (org : ℕ) → same_bucket (record a { org_id = org }) b ≡ same_bucket a b
unfolding same_bucket
same_bucket-org_id a b org = refl

upsert-Holds : (rows : List Row) (r : Row) → Holds r (upsert rows r)
unfolding upsert Holds
upsert-Holds [] r = rw (same_bucket_refl r) refl
upsert-Holds (x ∷ rows) r = elim (Bool-cases (same_bucket x r)) [
  | inl e ↦ rw (e, same_bucket-org_id r r x.org_id, same_bucket_refl r) refl
  | inr e ↦ rw (e, e) (upsert-Holds rows r)
]

-- What is held is written again without effect.
upsert_held : (rows : List Row) (r : Row) → Holds r rows → upsert rows r ≡ rows
unfolding upsert Holds
upsert_held [] r h = absurd (omega arith)
upsert_held (x ∷ rows) r h = elim (Bool-cases (same_bucket x r)) [
  | inl e ↦ rw e (ap (λ y. y ∷ rows) (simp e at h))
  | inr e ↦ rw e (ap (◌∷◌ x) (upsert_held rows r (simp e at h)))
]

held_bucket :
    (x r other : Row)
    → record r { org_id = x.org_id } ≡ x
    → same_bucket r other ≡ false
    → same_bucket x other ≡ false
held_bucket x r other h apart =
    ap (λ y. same_bucket y other) (sym h) ∙ same_bucket-org_id r other x.org_id ∙ apart

-- Writing another bucket keeps it.
upsert-keeps-Holds :
    (rows : List Row) (r other : Row)
    → Holds r rows
    → same_bucket r other ≡ false
    → Holds r (upsert rows other)
unfolding upsert Holds
upsert-keeps-Holds [] r other h apart = absurd (omega arith)
upsert-keeps-Holds (x ∷ rows) r other h apart = elim (Bool-cases (same_bucket x r)) [
  | inl e ↦
      let held : record r { org_id = x.org_id } ≡ x = simp e at h in
      rw (held_bucket x r other held apart, e) held
  | inr e ↦ elim (Bool-cases (same_bucket x other)) [
    | inl f ↦
        rw (f, same_bucket-org_id other r x.org_id, same_bucket_sym other r, apart) (simp e at h)
    | inr f ↦ rw (f, e) (upsert-keeps-Holds rows r other (simp e at h) apart)
  ]
]

-- No row of the list has the bucket of `r`.
unfoldable pub absent : Row → List Row → Bool
absent r [] = true
absent r (x ∷ rows) = if same_bucket r x then false else absent r rows

unfoldable pub Distinct : List Row → Type 0
Distinct [] = 0 ≤ 0
Distinct (r ∷ rows) = (absent r rows ≡ true) × Distinct rows

AllHold : List Row → List Row → Type 0
AllHold [] rows = 0 ≤ 0
AllHold (r ∷ new) rows = Holds r rows × AllHold new rows

pub absent_cons :
    (r x : Row) (rows : List Row)
    → absent r (x ∷ rows) ≡ true
    → (same_bucket r x ≡ false) × (absent r rows ≡ true)
unfolding absent
absent_cons r x rows h = ground arith

upsert_all-keeps-Holds :
    (rows new : List Row) (r : Row)
    → Holds r rows
    → absent r new ≡ true
    → Holds r (upsert_all rows new)
unfolding upsert_all
upsert_all-keeps-Holds rows [] r h a = h
upsert_all-keeps-Holds rows (x ∷ new) r h a =
    let (apart, later) = absent_cons r x new a in
    upsert_all-keeps-Holds (upsert rows x) new r (upsert-keeps-Holds rows r x h apart) later

upsert_all-AllHold : (rows new : List Row) → Distinct new → AllHold new (upsert_all rows new)
unfolding upsert_all Distinct AllHold
upsert_all-AllHold rows [] d = omega arith
upsert_all-AllHold rows (r ∷ new) d = (
  upsert_all-keeps-Holds (upsert rows r) new r (upsert-Holds rows r) d.0,
  upsert_all-AllHold (upsert rows r) new d.1,
)

upsert_all_held : (rows new : List Row) → AllHold new rows → upsert_all rows new ≡ rows
unfolding upsert_all AllHold
upsert_all_held rows [] h = refl
upsert_all_held rows (r ∷ new) h =
    ap (λ rows'. upsert_all rows' new) (upsert_held rows r h.0) ∙ upsert_all_held rows new h.1

pub upsert_all_idem :
    (rows new : List Row)
    → Distinct new
    → upsert_all (upsert_all rows new) new ≡ upsert_all rows new
upsert_all_idem rows new d =
    upsert_all_held (upsert_all rows new) new (upsert_all-AllHold rows new d)

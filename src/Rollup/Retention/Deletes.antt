-- ===== src/Rollup/Retention/Deletes.antt =====
-- What the deletes of a pass remove and what they keep (deleteAll and Retain, internal/rollup/rollup.go).
use uptime_cairn.Base.{
  ℕ, zero, suc, ◌+◌, ◌-◌, ◌<◌, ◌≤◌, ◌≡◌, refl, ◌∙◌, ltb→lt, ◌↔◌, ap, true, false, ◌&&◌, arith, List,
  [], ◌∷◌, length, if◌then◌else◌, inl, inr, Bool-cases, ltb,
}
use uptime_cairn.Base.Int.{pos, ltb_ℤ, ◌+ℤ◌, ◌≤ℤ◌, ◌<ℤ◌}
use uptime_cairn.Base.Division.{floor_div_bounds}
use uptime_cairn.Model.{Instant}
use uptime_cairn.Rollup.Retention.{
  Turn, proceed, cancelled, failed, done, Deleted, delete_batch, delete_rows, delete_before, Table,
  resolution, stored_cutoff, take_turn, delete_all,
}

-- The rows at or after a cutoff, in order.
unfoldable pub survivors : Instant → List Instant → List Instant
survivors cutoff [] = []
survivors cutoff (t ∷ rows) =
    let rest = survivors cutoff rows in if ltb_ℤ t cutoff then rest else t ∷ rest

pub survivors_comm :
    (c d : Instant) (rows : List Instant)
    → survivors c (survivors d rows) ≡ survivors d (survivors c rows)
unfolding survivors
survivors_comm c d [] = refl
survivors_comm c d (t ∷ rows) =
    let same = survivors_comm c d rows in
    elim (Bool-cases (ltb_ℤ t c)) [
      | inl e ↦ elim (Bool-cases (ltb_ℤ t d)) [
        | inl e' ↦ simp (e, e') same
        | inr e' ↦ simp (e, e') same
      ]
      | inr e ↦ elim (Bool-cases (ltb_ℤ t d)) [
        | inl e' ↦ simp (e, e') same
        | inr e' ↦ simp (e, e') (ap (◌∷◌ t) same)
      ]
    ]

pub length-survivors : (c : Instant) (rows : List Instant) → length (survivors c rows) ≤ length rows
unfolding survivors
length-survivors c [] = omega arith
length-survivors c (t ∷ rows) = ground (arith, length-survivors c rows)

delete_rows_account :
    (cutoff : Instant) (limit : ℕ) (rows : List Instant)
    → let (rest, n) = delete_rows cutoff limit rows in (length rest + n ≡ length rows) × (n ≤ limit)
unfolding delete_rows
delete_rows_account cutoff limit [] = ground arith
delete_rows_account cutoff limit (t ∷ rows) =
    let hit = ltb_ℤ t cutoff && ltb 0 limit in
    ground (arith, delete_rows_account cutoff (if hit then limit - 1 else limit) rows)

survivors_cons :
    (t cutoff : Instant) (xs ys : List Instant)
    → survivors cutoff xs ≡ survivors cutoff ys
    → survivors cutoff (t ∷ xs) ≡ survivors cutoff (t ∷ ys)
unfolding survivors
survivors_cons t cutoff xs ys h = rw h

survivors_drop :
    (t cutoff : Instant) (xs : List Instant)
    → t <ℤ cutoff
    → survivors cutoff (t ∷ xs) ≡ survivors cutoff xs
unfolding survivors
survivors_drop t cutoff xs h = ground arith

hit_lt : (t cutoff : Instant) (limit : ℕ) → (ltb_ℤ t cutoff && ltb 0 limit) ≡ true → t <ℤ cutoff
hit_lt t cutoff limit h = ground arith

delete_rows_keeps :
    (cutoff later : Instant) (limit : ℕ) (rows : List Instant)
    → cutoff ≤ℤ later
    → survivors later (delete_rows cutoff limit rows).0 ≡ survivors later rows
unfolding delete_rows
delete_rows_keeps cutoff later limit [] h = refl
delete_rows_keeps cutoff later limit (t ∷ rows) h =
    elim (Bool-cases (ltb_ℤ t cutoff && ltb 0 limit)) [
      | inl e ↦
          let before = hit_lt t cutoff limit e in
          rw (e, survivors_drop t later rows (omega arith))
            (delete_rows_keeps cutoff later (limit - 1) rows h)
      | inr e ↦ rw e (
          survivors_cons t later (delete_rows cutoff limit rows).0 rows
            (delete_rows_keeps cutoff later limit rows h))
    ]

delete_rows_clean :
    (cutoff : Instant) (limit : ℕ) (rows : List Instant)
    → (delete_rows cutoff limit rows).1 < limit
    → (delete_rows cutoff limit rows).0 ≡ survivors cutoff rows
unfolding delete_rows survivors
delete_rows_clean cutoff limit [] h = refl
delete_rows_clean cutoff limit (t ∷ rows) h =
    let hit = ltb_ℤ t cutoff && ltb 0 limit in
    ground (arith, delete_rows_clean cutoff (if hit then limit - 1 else limit) rows)

-- Nothing at or after `later` is lost, and every row is either still there or counted.
pub record Safe (later : Instant) (total : ℕ) (rows : List Instant) (d : Deleted) : Type 0 where
  pub kept : survivors later d.rows ≡ survivors later rows
  pub counted : length d.rows + d.total ≡ length rows + total

take_turn-Safe :
    (now : Turn) (later : Instant) (rows : List Instant) (total : ℕ) (rows' : List Instant) (n : ℕ)
    (rest : Deleted)
    → survivors later rows' ≡ survivors later rows
    → length rows' + n ≡ length rows
    → Safe later (total + n) rows' rest
    → Safe later total rows (take_turn now rows total rows' n rest)
unfolding take_turn
take_turn-Safe cancelled later rows total rows' n rest h k safe = record {
  kept = refl;
  counted = refl;
}
take_turn-Safe failed later rows total rows' n rest h k safe = record {
  kept = refl;
  counted = refl;
}
take_turn-Safe proceed later rows total rows' n rest h k safe =
    elim (Bool-cases (ltb n delete_batch)) [
      | inl e ↦ rw e (record { kept = h; counted = omega arith })
      | inr e ↦ rw e (record { kept = safe.kept ∙ h; counted = omega (arith, safe.counted) })
    ]

some_resolution : (table : Table) → 0 < resolution table
unfolding resolution
some_resolution Table.raw = omega arith
some_resolution (Table.bucket_table tier) = omega arith
some_resolution Table.webhook_deliveries = omega arith
some_resolution Table.notification_deliveries = omega arith

pub stored_cutoff_bounds :
    (table : Table) (cutoff : Instant)
    → (stored_cutoff table cutoff ≤ℤ cutoff)
      × (cutoff <ℤ stored_cutoff table cutoff +ℤ pos (resolution table))
unfolding stored_cutoff
stored_cutoff_bounds table cutoff =
    floor_div_bounds cutoff (resolution table) (some_resolution table)

pub delete_all-Safe :
    (fuel : ℕ) (turns : ℕ → Turn) (table : Table) (cutoff later : Instant) (turn total : ℕ)
    (rows : List Instant)
    → cutoff ≤ℤ later
    → Safe later total rows (delete_all fuel turns table cutoff turn total rows)
unfolding delete_all delete_before
delete_all-Safe zero turns table cutoff later turn total rows h = record {
  kept = refl;
  counted = refl;
}
delete_all-Safe (suc fuel) turns table cutoff later turn total rows h =
    let bound = stored_cutoff table cutoff in
    let batch = delete_rows bound delete_batch rows in
    take_turn-Safe (turns turn) later rows total batch.0 batch.1
      (delete_all fuel turns table cutoff (suc turn) (total + batch.1) batch.0)
      (delete_rows_keeps bound later delete_batch rows
        (omega (arith, (stored_cutoff_bounds table cutoff).0, h)))
      (delete_rows_account bound delete_batch rows).0
      (delete_all-Safe fuel turns table cutoff later (suc turn) (total + batch.1) batch.0 h)

full_batch :
    (cutoff : Instant) (rows : List Instant)
    → ltb (delete_rows cutoff delete_batch rows).1 delete_batch ≡ false
    → length (delete_rows cutoff delete_batch rows).0 + delete_batch ≡ length rows
full_batch cutoff rows e =
    let (account, most) = delete_rows_account cutoff delete_batch rows in
    ground (arith, account, most)

-- A delete loop that nothing interrupts ends with exactly the rows at or after the stored cutoff, given
-- more turns than there are rows.
pub delete_all_complete :
    (fuel : ℕ) (turns : ℕ → Turn) (table : Table) (cutoff : Instant) (turn total : ℕ)
    (rows : List Instant)
    → ((i : ℕ) → turns i ≡ proceed)
    → length rows < fuel
    → let d = delete_all fuel turns table cutoff turn total rows in
      (d.ending ≡ done) × (d.rows ≡ survivors (stored_cutoff table cutoff) rows)
unfolding delete_all take_turn delete_before
delete_all_complete zero turns table cutoff turn total rows calm enough = absurd (omega arith)
delete_all_complete (suc fuel) turns table cutoff turn total rows calm enough =
    let bound = stored_cutoff table cutoff in
    let batch = delete_rows bound delete_batch rows in
    elim (Bool-cases (ltb batch.1 delete_batch)) [
      | inl e ↦
          rw (calm turn, e)
            (refl, delete_rows_clean bound delete_batch rows (ltb→lt batch.1 delete_batch e))
      | inr e ↦
          let left = full_batch bound rows e in
          let (ended, kept) =
            delete_all_complete fuel turns table cutoff (suc turn) (total + batch.1) batch.0 calm
              (omega (arith, left)) in
          rw (calm turn, e)
            (ended, kept ∙ delete_rows_keeps bound bound delete_batch rows (omega arith))
    ]

-- Of a single row, a cutoff leaves the row or nothing.
pub survivors_one : (t cutoff : Instant) → (survivors cutoff (t ∷ []) ≡ t ∷ []) ↔ (cutoff ≤ℤ t)
unfolding survivors
survivors_one t cutoff = ground arith

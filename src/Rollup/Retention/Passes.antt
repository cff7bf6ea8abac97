-- ===== src/Rollup/Retention/Passes.antt =====
-- A whole retention pass (Runner.Retain, internal/rollup/rollup.go).
use uptime_cairn.Base.{
  ℕ, zero, suc, ◌+◌, ◌≡◌, refl, sym, ap, ◌∙◌, ◌==◌, Bool, true, false, arith, List, [], ◌∷◌,
  if◌then◌else◌, inl, inr, Bool-cases,
}
use uptime_cairn.Base.Int.{ℤ}
use uptime_cairn.Model.{Instant}
use uptime_cairn.Rollup.{TierName}
use uptime_cairn.Rollup.Retention.{
  delete_all, Table, table_number, Tables, update, Horizon, Pass, World, enforce, days_before,
  fail_free, raw, bucket_table, webhook_deliveries, notification_deliveries,
}
use uptime_cairn.Rollup.Retention.Deletes.{survivors, delete_all-Safe, survivors_comm}

-- The cutoff of a table that is kept for some days.
abbrev pub Cutoffs : Type 0
Cutoffs = Table → ℤ → Instant

-- What a list of loops leaves of the rows of a table.
unfoldable pub swept : Cutoffs → Table → List Horizon → List Instant → List Instant
swept cut table [] rows = rows
swept cut table (h ∷ rest) rows = swept cut table rest (
    if table_number h.table == table_number table
    then survivors (cut h.table h.days) rows
    else rows)

swept_comm :
    (cut : Cutoffs) (c : Instant) (table : Table) (hs : List Horizon) (rows : List Instant)
    → swept cut table hs (survivors c rows) ≡ survivors c (swept cut table hs rows)
unfolding swept
swept_comm cut c table [] rows = refl
swept_comm cut c table (h ∷ rest) rows =
    elim (Bool-cases (table_number h.table == table_number table)) [
      | inl e ↦
          rw (e, survivors_comm (cut h.table h.days) c rows)
            (swept_comm cut c table rest (survivors (cut h.table h.days) rows))
      | inr e ↦ rw e (swept_comm cut c table rest rows)
    ]

table_of : ℕ → Table
table_of zero = raw
table_of (suc zero) = bucket_table TierName.minute
table_of (suc (suc zero)) = bucket_table TierName.five_minutes
table_of (suc (suc (suc zero))) = bucket_table TierName.hour
table_of (suc (suc (suc (suc zero)))) = bucket_table TierName.day
table_of (suc (suc (suc (suc (suc zero))))) = webhook_deliveries
table_of (suc (suc (suc (suc (suc (suc n)))))) = notification_deliveries

table_of-table_number : (table : Table) → table_of (table_number table) ≡ table
unfolding table_of table_number
table_of-table_number raw = refl
table_of-table_number (bucket_table TierName.minute) = refl
table_of-table_number (bucket_table TierName.five_minutes) = refl
table_of-table_number (bucket_table TierName.hour) = refl
table_of-table_number (bucket_table TierName.day) = refl
table_of-table_number webhook_deliveries = refl
table_of-table_number notification_deliveries = refl

pub table_eq : (a b : Table) → (table_number a == table_number b) ≡ true → a ≡ b
table_eq a b h =
    let same : table_number a ≡ table_number b = ground arith in
    sym (table_of-table_number a) ∙ ap table_of same ∙ table_of-table_number b

-- What the rest of a pass keeps of a table after the loop of `h`, which left `rows`, `kept` rows in
-- the end.
swept_step :
    (cut : Cutoffs) (table : Table) (h : Horizon) (rest : List Horizon) (db : Tables)
    (rows after : List Instant)
    → swept cut table rest after ≡ swept cut table rest (update db h.table rows table)
    → survivors (cut h.table h.days) rows ≡ survivors (cut h.table h.days) (db h.table)
    → swept cut table (h ∷ rest) after ≡ swept cut table (h ∷ rest) (db table)
unfolding swept update
swept_step cut table h rest db rows after later kept =
    let cutoff = cut h.table h.days in
    elim (Bool-cases (table_number h.table == table_number table)) [
      | inl e ↦
          let same = table_eq h.table table e in
          let later' : swept cut table rest after ≡ swept cut table rest rows = simp e at later in
          let kept' : survivors cutoff rows ≡ survivors cutoff (db table) =
            kept ∙ ap (λ t. survivors cutoff (db t)) same in
          rw e (
            swept_comm cut cutoff table rest after
            ∙ ap (survivors cutoff) later'
            ∙ sym (swept_comm cut cutoff table rest rows)
            ∙ ap (swept cut table rest) kept')
      | inr e ↦ simp e (simp e at later)
    ]

-- The tables of a pass after its first loop, whether or not the pass goes on.
either_pass :
    (cut : Cutoffs) (table : Table) (rest : List Horizon) (rows : List Instant) (ok : Bool)
    (p q : Pass)
    → swept cut table rest (p.tables table) ≡ swept cut table rest rows
    → swept cut table rest (q.tables table) ≡ swept cut table rest rows
    → swept cut table rest ((if ok then p else q).tables table) ≡ swept cut table rest rows
either_pass cut table rest rows true p q h k = h
either_pass cut table rest rows false p q h k = k

-- By the policy.
abbrev pub policy_cut : Instant → Cutoffs
policy_cut now table days = days_before days now

-- However a pass is interrupted, what the whole of it keeps is still there.
pub enforce-swept :
    (fuel : ℕ) (world : World) (now : Instant) (table : Table) (hs : List Horizon) (db : Tables)
    (freed : ℕ)
    → swept (policy_cut now) table hs ((enforce fuel world now db freed hs).tables table)
      ≡ swept (policy_cut now) table hs (db table)
unfolding enforce
enforce-swept fuel world now table [] db freed = refl
enforce-swept fuel world now table (h ∷ rest) db freed =
    let cutoff = days_before h.days now in
    let d = delete_all fuel (world h.table) h.table cutoff 0 0 (db h.table) in
    let db' = update db h.table d.rows in
    let safe =
      delete_all-Safe fuel (world h.table) h.table cutoff cutoff 0 0 (db h.table) (omega arith) in
    let more = enforce fuel world now db' (freed + d.total) rest in
    let halt : Pass = record { tables = db'; freed = freed; ok = false } in
    swept_step (policy_cut now) table h rest db d.rows
      ((if fail_free d.ending then more else halt).tables table)
      (either_pass (policy_cut now) table rest (db' table) (fail_free d.ending) more halt
        (enforce-swept fuel world now table rest db' (freed + d.total)) refl)
      (safe.kept)

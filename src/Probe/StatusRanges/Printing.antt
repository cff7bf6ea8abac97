-- ===== src/Probe/StatusRanges/Printing.antt =====
-- The printed parts of ranges are read back (String and parseStatusRanges,
-- internal/probe/check/statusranges.go).
use uptime_cairn.Base.{
  ℕ, ◌≤◌, ◌≡◌, ◌≢◌, refl, ◌∙◌, List, [], ◌∷◌, ◌++◌, none, some, All, All-mono, arith, Bool-cases,
  inl, inr,
}
use uptime_cairn.Base.Int.{ℤ, pos, negsuc, ◌≤ℤ◌, eqb_ℤ, eq_of_eqb_ℤ}
use uptime_cairn.Base.Bytes.{Bytes}
use uptime_cairn.Base.Decimal.{itoa, atoi-itoa, itoa-IsDigit}
use uptime_cairn.Base.Text.{cut, NotSpace, trim_space_none, cut-none, cut-append, is_space}
use uptime_cairn.Base.Result.{ok, went_on}
use uptime_cairn.Probe.StatusRanges.Reading.{IsRange, Ranges, parse_status_ranges-Ranges}
use uptime_cairn.Probe.StatusRanges.{
  StatusRange, bounded_code, parse_code, code_of, high_of, ordered_range, range_of, parse_entry,
  parse_entries, parse_status_ranges, default_status_range, part, parts, itoa_ℤ,
}

itoa-NotSpace : (n : ℕ) → All NotSpace (itoa n)
unfolding is_space
itoa-NotSpace n = All-mono (itoa n) (λ c d. ground (arith, d)) (itoa-IsDigit n)

itoa_no_dash : (n : ℕ) → All (λ c. c ≢ 45) (itoa n)
itoa_no_dash n = All-mono (itoa n) (λ c d e. omega (arith, d)) (itoa-IsDigit n)

parse_code-itoa : (n : ℕ) → 100 ≤ n → n ≤ 599 → parse_code (itoa n) ≡ ok (pos n)
unfolding parse_code bounded_code
parse_code-itoa n low high =
    rw (trim_space_none (itoa n) (itoa-NotSpace n), atoi-itoa n (omega arith)) (ground arith)

parse_code-itoa_ℤ :
    (code : ℤ) → pos 100 ≤ℤ code → code ≤ℤ pos 599 → parse_code (itoa_ℤ code) ≡ ok code
unfolding itoa_ℤ
parse_code-itoa_ℤ (pos n) low high = parse_code-itoa n (omega arith) (omega arith)
parse_code-itoa_ℤ (negsuc n) low high = absurd (omega arith)

cut-itoa_ℤ : (code : ℤ) → pos 100 ≤ℤ code → cut (itoa_ℤ code) 45 ≡ none
unfolding itoa_ℤ
cut-itoa_ℤ (pos n) low = cut-none (itoa n) 45 (itoa_no_dash n)
cut-itoa_ℤ (negsuc n) low = absurd (omega arith)

cut_pair :
    (code : ℤ) (rest : Bytes)
    → pos 100 ≤ℤ code
    → cut (itoa_ℤ code ++ 45 ∷ rest) 45 ≡ some (itoa_ℤ code, rest)
unfolding itoa_ℤ
cut_pair (pos n) rest low = cut-append (itoa n) 45 rest (itoa_no_dash n)
cut_pair (negsuc n) rest low = absurd (omega arith)

range_of_one :
    (entry : Bytes) (r : StatusRange)
    → IsRange r
    → r.lo ≡ r.hi
    → range_of entry (itoa_ℤ r.lo, none) ≡ ok r
unfolding range_of code_of high_of ordered_range
range_of_one entry r w same =
    let low : pos 100 ≤ℤ r.lo = w.from_100 in
    let high : r.hi ≤ℤ pos 599 = w.to_599 in
    rw (parse_code-itoa_ℤ r.lo low (ground arith)) (ground arith)

range_of_two :
    (entry : Bytes) (r : StatusRange)
    → IsRange r
    → range_of entry (itoa_ℤ r.lo, some (itoa_ℤ r.hi)) ≡ ok r
unfolding range_of code_of high_of ordered_range
range_of_two entry r w =
    let low : pos 100 ≤ℤ r.lo = w.from_100 in
    let high : r.hi ≤ℤ pos 599 = w.to_599 in
    let ordered : r.lo ≤ℤ r.hi = w.ordered in
    rw (parse_code-itoa_ℤ r.lo low (omega arith), parse_code-itoa_ℤ r.hi (omega arith) high)
      (ground arith)

parse_entry-part : (r : StatusRange) → IsRange r → parse_entry (part r) ≡ ok r
unfolding parse_entry part
parse_entry-part r w = elim (Bool-cases (eqb_ℤ r.lo r.hi)) [
  | inl same ↦
      rw (same, cut-itoa_ℤ r.lo w.from_100)
        (range_of_one (itoa_ℤ r.lo) r w (eq_of_eqb_ℤ r.lo r.hi same))
  | inr differ ↦ rw (differ, cut_pair r.lo (itoa_ℤ r.hi) w.from_100) (range_of_two _ r w)
]

parse_entries-parts : (rs : List StatusRange) → Ranges rs → parse_entries (parts rs) ≡ ok rs
unfolding parse_entries parts
parse_entries-parts [] h = refl
parse_entries-parts (r ∷ rest) (w, h) = rw (parse_entry-part r w, parse_entries-parts rest h) refl

parse_status_ranges_ne_nil : (spec : List Bytes) → parse_status_ranges spec ≢ ok []
unfolding parse_status_ranges parse_entries default_status_range
parse_status_ranges_ne_nil [] h = absurd (cc)
parse_status_ranges_ne_nil (entry ∷ rest) h =
    let (r, more, e) = went_on _ (parse_entry entry) h in
    let (others, final, e') = went_on _ (parse_entries rest) more in absurd (cc)

-- What is not empty is read entry by entry.
read_parts :
    (spec : List Bytes) (rs : List StatusRange)
    → rs ≢ []
    → Ranges rs
    → parse_status_ranges (parts rs) ≡ ok rs
unfolding parse_status_ranges parts
read_parts spec [] ne h = absurd (ne refl)
read_parts spec (r ∷ rest) ne h = parse_entries-parts (r ∷ rest) h

-- The ranges that any accepted configuration is read as are read back from the parts that String
-- prints of them.
pub parse_status_ranges-parts :
    (spec : List Bytes) (rs : List StatusRange)
    → parse_status_ranges spec ≡ ok rs
    → parse_status_ranges (parts rs) ≡ ok rs
parse_status_ranges-parts spec rs h =
    read_parts spec rs (λ e. parse_status_ranges_ne_nil spec (h ∙ rw e refl))
      (parse_status_ranges-Ranges spec rs h)

-- ===== src/Probe/StatusRanges/Reading.antt =====
-- What an accepted list of entries lets through, and the error that a refused one gives
-- (parseStatusRanges, internal/probe/check/statusranges.go).
use uptime_cairn.Base.{
  ◌≡◌, refl, ◌↔◌, true, ◌&&◌, ◌||◌, List, [], ◌∷◌, Option, none, some, arith, Bool-cases, inl, inr,
}
use uptime_cairn.Base.Int.{ℤ, pos, ◌≤ℤ◌, ltb_ℤ, leb_ℤ}
use uptime_cairn.Base.Bytes.{Bytes}
use uptime_cairn.Base.Decimal.{atoi}
use uptime_cairn.Base.Text.{trim_space, cut}
use uptime_cairn.Base.Result.{Result, ok, err, ◌>>=◌, went_on, broke_off}
use uptime_cairn.Probe.StatusRanges.{
  StatusRange, CodeError, RangeError, outside, bad_code, backwards, bounded_code, parse_code,
  code_of, high_of, ordered_range, range_of, cut_parts, parse_entry, parse_entries,
  parse_status_ranges, default_status_range, accepts,
}

pub record IsCode (code : ℤ) : Type 0 where
  pub from_100 : pos 100 ≤ℤ code
  pub to_599 : code ≤ℤ pos 599

pub record IsRange (r : StatusRange) : Type 0 where
  pub from_100 : pos 100 ≤ℤ r.lo
  pub to_599 : r.hi ≤ℤ pos 599
  pub ordered : r.lo ≤ℤ r.hi

abbrev pub Ranges : List StatusRange → Type 0
Ranges [] = Unit
Ranges (r ∷ rest) = IsRange r × Ranges rest

bounded_code-IsCode :
    (s : Bytes) (n : Option ℤ) (code : ℤ) → bounded_code s n ≡ ok code → IsCode code
unfolding bounded_code
bounded_code-IsCode s none code h = absurd (cc)
bounded_code-IsCode s (some n) code h = elim (Bool-cases (ltb_ℤ n (pos 100) || ltb_ℤ (pos 599) n)) [
  | inl e ↦ absurd (let h' : err (outside n) ≡ ok code = simp e at h in cc)
  | inr e ↦
      let h' : ok n ≡ ok code = simp e at h in
      let same : n ≡ code = cc in
      rw (← same) (record { from_100 = ground arith; to_599 = ground arith })
]

parse_code-IsCode : (s : Bytes) (code : ℤ) → parse_code s ≡ ok code → IsCode code
unfolding parse_code
parse_code-IsCode s code h = bounded_code-IsCode s (atoi (trim_space s)) code h

code_of-eq-ok :
    (entry : Bytes) (m : Result CodeError ℤ) (code : ℤ) → code_of entry m ≡ ok code → m ≡ ok code
unfolding code_of
code_of-eq-ok entry (ok n) code h = cc
code_of-eq-ok entry (err e) code h = absurd (cc)

code_of-IsCode : (entry s : Bytes) (code : ℤ) → code_of entry (parse_code s) ≡ ok code → IsCode code
code_of-IsCode entry s code h = parse_code-IsCode s code (code_of-eq-ok entry (parse_code s) code h)

high_of-IsCode :
    (entry : Bytes) (low : ℤ) (hi : Option Bytes) (high : ℤ)
    → IsCode low
    → high_of entry low hi ≡ ok high
    → IsCode high
unfolding high_of
high_of-IsCode entry low none high code h = let same : low ≡ high = cc in rw (← same) code
high_of-IsCode entry low (some hi) high code h = code_of-IsCode entry hi high h

-- The test at the end of a turn.
ordered-IsRange :
    (entry : Bytes) (low high : ℤ) (r : StatusRange)
    → IsCode low
    → IsCode high
    → ordered_range entry low high ≡ ok r
    → IsRange r
unfolding ordered_range
ordered-IsRange entry low high r l u h = elim (Bool-cases (ltb_ℤ high low)) [
  | inl e ↦ absurd (let h' : err (backwards entry) ≡ ok r = simp e at h in cc)
  | inr e ↦
      let h' : ok (record { lo = low; hi = high }) ≡ ok r = simp e at h in
      let same : record { lo = low; hi = high } ≡ r = cc in
      rw (← same) (record { from_100 = l.from_100; to_599 = u.to_599; ordered = ground arith })
]

range_of-IsRange :
    (entry lo : Bytes) (hi : Option Bytes) (r : StatusRange)
    → range_of entry (lo, hi) ≡ ok r
    → IsRange r
unfolding range_of
range_of-IsRange entry lo hi r h =
    let (low, rest, e) = went_on _ (code_of entry (parse_code lo)) h in
    let (high, final, e') = went_on _ (high_of entry low hi) rest in
    let l = code_of-IsCode entry lo low e in
    ordered-IsRange entry low high r l (high_of-IsCode entry low hi high l e') final

parse_entry-IsRange : (entry : Bytes) (r : StatusRange) → parse_entry entry ≡ ok r → IsRange r
unfolding parse_entry
parse_entry-IsRange entry r h =
    range_of-IsRange entry (cut_parts entry (cut entry 45)).0 (cut_parts entry (cut entry 45)).1 r h

parse_entries-Ranges :
    (spec : List Bytes) (rs : List StatusRange) → parse_entries spec ≡ ok rs → Ranges rs
unfolding parse_entries
parse_entries-Ranges [] rs h = let same : [] ≡ rs = cc in rw (← same) tt
parse_entries-Ranges (entry ∷ rest) rs h =
    let (r, more, e) = went_on _ (parse_entry entry) h in
    let (others, final, e') = went_on _ (parse_entries rest) more in
    let same : r ∷ others ≡ rs = cc in
    rw (← same) (parse_entry-IsRange entry r e, parse_entries-Ranges rest others e')

pub parse_status_ranges-Ranges :
    (spec : List Bytes) (rs : List StatusRange) → parse_status_ranges spec ≡ ok rs → Ranges rs
unfolding parse_status_ranges default_status_range
parse_status_ranges-Ranges [] rs h =
    let same : record { lo = pos 200; hi = pos 299 } ∷ [] ≡ rs = cc in
    rw (← same) (record { from_100 = omega arith; to_599 = omega arith; ordered = omega arith }, tt)
parse_status_ranges-Ranges (entry ∷ rest) rs h = parse_entries-Ranges (entry ∷ rest) rs h

accepts-IsCode :
    (rs : List StatusRange) (code : ℤ) → Ranges rs → accepts rs code ≡ true → IsCode code
unfolding accepts
accepts-IsCode [] code wf h = absurd (cc)
accepts-IsCode (r ∷ rest) code (w, wf) h = elim (Bool-cases (leb_ℤ r.lo code && leb_ℤ code r.hi)) [
  | inl e ↦
      let low : pos 100 ≤ℤ r.lo = w.from_100 in
      let high : r.hi ≤ℤ pos 599 = w.to_599 in
      record { from_100 = ground arith; to_599 = ground arith }
  | inr e ↦ accepts-IsCode rest code wf (simp e at h)
]

-- A code that an accepted list lets through is between 100 and 599.
pub accepts-parse_status_ranges :
    (spec : List Bytes) (rs : List StatusRange) (code : ℤ)
    → parse_status_ranges spec ≡ ok rs
    → accepts rs code ≡ true
    → IsCode code
accepts-parse_status_ranges spec rs code h =
    accepts-IsCode rs code (parse_status_ranges-Ranges spec rs h)

-- The entry that an error names.
pub entry_of : RangeError → Bytes
entry_of (bad_code entry e) = entry
entry_of (backwards entry) = entry

-- The first entry that is refused is refused with this error.
pub data FirstRefused (e : RangeError) : List Bytes → Type 0 where
  here :
      {entry : Bytes} {rest : List Bytes}
      → parse_entry entry ≡ err e
      → entry_of e ≡ entry
      → FirstRefused e (entry ∷ rest)
  later :
      {entry : Bytes} {rest : List Bytes} {r : StatusRange}
      → parse_entry entry ≡ ok r
      → FirstRefused e rest
      → FirstRefused e (entry ∷ rest)

code_of-entry :
    (entry : Bytes) (m : Result CodeError ℤ) (e : RangeError)
    → code_of entry m ≡ err e
    → entry_of e ≡ entry
unfolding code_of entry_of
code_of-entry entry (ok n) e h = absurd (cc)
code_of-entry entry (err c) e h = let same : bad_code entry c ≡ e = cc in rw (← same) refl

high_of-entry :
    (entry : Bytes) (low : ℤ) (hi : Option Bytes) (e : RangeError)
    → high_of entry low hi ≡ err e
    → entry_of e ≡ entry
unfolding high_of
high_of-entry entry low none e h = absurd (cc)
high_of-entry entry low (some hi) e h = code_of-entry entry (parse_code hi) e h

ordered-entry :
    (entry : Bytes) (low high : ℤ) (e : RangeError)
    → ordered_range entry low high ≡ err e
    → entry_of e ≡ entry
unfolding entry_of ordered_range
ordered-entry entry low high e h = elim (Bool-cases (ltb_ℤ high low)) [
  | inl t ↦
      let h' : err (backwards entry) ≡ err e = simp t at h in
      let same : backwards entry ≡ e = cc in rw (← same) refl
  | inr t ↦ absurd (let h' : ok (record { lo = low; hi = high }) ≡ err e = simp t at h in cc)
]

range_of-entry :
    (entry lo : Bytes) (hi : Option Bytes) (e : RangeError)
    → range_of entry (lo, hi) ≡ err e
    → entry_of e ≡ entry
unfolding range_of
range_of-entry entry lo hi e h = elim (broke_off _ (code_of entry (parse_code lo)) h) [
  | inr at_low ↦ code_of-entry entry (parse_code lo) e at_low
  | inl (low, rest, l) ↦ elim (broke_off _ (high_of entry low hi) rest) [
    | inr at_high ↦ high_of-entry entry low hi e at_high
    | inl (high, final, u) ↦ ordered-entry entry low high e final
  ]
]

parse_entry-entry :
    (entry : Bytes) (e : RangeError) → parse_entry entry ≡ err e → entry_of e ≡ entry
unfolding parse_entry
parse_entry-entry entry e h =
    range_of-entry entry (cut_parts entry (cut entry 45)).0 (cut_parts entry (cut entry 45)).1 e h

parse_entries-FirstRefused :
    (spec : List Bytes) (e : RangeError) → parse_entries spec ≡ err e → FirstRefused e spec
unfolding parse_entries
parse_entries-FirstRefused [] e h = absurd (cc)
parse_entries-FirstRefused (entry ∷ rest) e h = elim (broke_off _ (parse_entry entry) h) [
  | inr refused ↦ here refused (parse_entry-entry entry e refused)
  | inl (r, more, accepted) ↦ elim (broke_off _ (parse_entries rest) more) [
    | inr refused ↦ later accepted (parse_entries-FirstRefused rest e refused)
    | inl (others, final, done) ↦ absurd (cc)
  ]
]

FirstRefused-parse_entries :
    (spec : List Bytes) (e : RangeError) → FirstRefused e spec → parse_entries spec ≡ err e
unfolding parse_entries
FirstRefused-parse_entries [] e h = elim h [ ]
FirstRefused-parse_entries (entry ∷ rest) e (here refused named) = rw (refused, ◌>>=◌) refl
FirstRefused-parse_entries (entry ∷ rest) e (later accepted more) =
    rw (accepted, FirstRefused-parse_entries rest e more) refl

-- A list of entries is refused with an error exactly where its first entry that is refused by
-- itself is refused with that error, which names the entry; what follows that entry plays no part.
pub refused_iff :
    (spec : List Bytes) (e : RangeError) → (parse_status_ranges spec ≡ err e) ↔ FirstRefused e spec
unfolding parse_status_ranges
refused_iff [] e = (λ h. absurd (cc), λ h. elim h [ ])
refused_iff (entry ∷ rest) e =
    (parse_entries-FirstRefused (entry ∷ rest) e, FirstRefused-parse_entries (entry ∷ rest) e)

-- ===== src/Probe/StatusRanges.antt =====
-- internal/probe/check/statusranges.go: the accepted status codes of an HTTP check.
mod Reading
mod Printing
mod Tests
use uptime_cairn.Base.{
  ℕ, Bool, true, false, ◌&&◌, ◌||◌, List, [], ◌∷◌, ◌++◌, Option, none, some, if◌then◌else◌, ◌==◌,
}
use uptime_cairn.Base.Int.{ℤ, pos, negsuc, leb_ℤ, ltb_ℤ, eqb_ℤ}
use uptime_cairn.Base.Bytes.{Bytes}
use uptime_cairn.Base.Decimal.{atoi, itoa}
use uptime_cairn.Base.Text.{trim_space, cut}
use uptime_cairn.Base.Result.{Result, ok, err, ◌>>=◌}

pub record StatusRange : Type 0 where
  pub lo : ℤ
  pub hi : ℤ

-- The errors of parseCode, and of an entry.
pub data CodeError : Type 0 where
  not_a_code : Bytes → CodeError
  outside : ℤ → CodeError

pub data RangeError : Type 0 where
  bad_code : Bytes → CodeError → RangeError
  backwards : Bytes → RangeError

pub default_status_range : List StatusRange
default_status_range = record { lo = pos 200; hi = pos 299 } ∷ []

bounded_code : Bytes → Option ℤ → Result CodeError ℤ
bounded_code s none = err (not_a_code s)
bounded_code s (some code) =
    if ltb_ℤ code (pos 100) || ltb_ℤ (pos 599) code then err (outside code) else ok code

pub parse_code : Bytes → Result CodeError ℤ
unfolding bounded_code atoi trim_space
parse_code s = bounded_code s (atoi (trim_space s))

-- A code of an entry, with the entry in the error.
code_of : Bytes → Result CodeError ℤ → Result RangeError ℤ
code_of entry (ok code) = ok code
code_of entry (err e) = err (bad_code entry e)

high_of : Bytes → ℤ → Option Bytes → Result RangeError ℤ
unfolding code_of parse_code
high_of entry low none = ok low
high_of entry low (some hi) = code_of entry (parse_code hi)

-- What strings.Cut gives: the part before the dash, and the part after it where there is a dash.
abbrev cut_parts : Bytes → Option (Bytes × Bytes) → Bytes × Option Bytes
cut_parts entry none = (entry, none)
cut_parts entry (some (before, after)) = (before, some after)

ordered_range : Bytes → ℤ → ℤ → Result RangeError StatusRange
ordered_range entry low high =
    if ltb_ℤ high low then err (backwards entry) else ok (record { lo = low; hi = high })

range_of : Bytes → Bytes × Option Bytes → Result RangeError StatusRange
unfolding code_of high_of parse_code ordered_range
range_of entry (lo, hi) = do
  low ← code_of entry (parse_code lo)
  high ← high_of entry low hi
  ordered_range entry low high

-- One turn of the loop.
pub parse_entry : Bytes → Result RangeError StatusRange
unfolding range_of cut
parse_entry entry = range_of entry (cut_parts entry (cut entry 45))

pub parse_entries : List Bytes → Result RangeError (List StatusRange)
unfolding parse_entry
parse_entries [] = ok []
parse_entries (entry ∷ rest) = do
  range ← parse_entry entry
  ranges ← parse_entries rest
  ok (range ∷ ranges)

pub parse_status_ranges : List Bytes → Result RangeError (List StatusRange)
unfolding default_status_range parse_entries
parse_status_ranges [] = ok default_status_range
parse_status_ranges (entry ∷ rest) = parse_entries (entry ∷ rest)

pub accepts : List StatusRange → ℤ → Bool
accepts [] code = false
accepts (r ∷ rest) code = leb_ℤ r.lo code && leb_ℤ code r.hi || accepts rest code

-- strconv.Itoa with its sign.
itoa_ℤ : ℤ → Bytes
unfolding itoa
itoa_ℤ (pos n) = itoa n
itoa_ℤ (negsuc n) = 45 ∷ itoa (ℕ.suc n)

pub part : StatusRange → Bytes
unfolding itoa_ℤ
part r = if eqb_ℤ r.lo r.hi then itoa_ℤ r.lo else itoa_ℤ r.lo ++ 45 ∷ itoa_ℤ r.hi

pub parts : List StatusRange → List Bytes
unfolding part
parts [] = []
parts (r ∷ rest) = part r ∷ parts rest

pub join_comma : List Bytes → Bytes
join_comma [] = []
join_comma (s ∷ []) = s
join_comma (s ∷ next ∷ rest) = s ++ 44 ∷ 32 ∷ join_comma (next ∷ rest)

pub ranges_string : List StatusRange → Bytes
unfolding parts join_comma
ranges_string rs = join_comma (parts rs)

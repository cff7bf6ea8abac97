-- ===== src/Base/Decimal.antt =====
-- strconv.Itoa and strconv.Atoi on numbers that are not negative where the program prints them, and
-- on a sign and digits where it reads them.
use uptime_cairn.Base.{
  ℕ, zero, suc, ◌+◌, ◌-◌, ◌*◌, ◌/◌, ◌%◌, ◌^◌, ◌<◌, ◌≤◌, All, ◌≡◌, refl, ◌∙◌, Bool, true, false,
  ◌&&◌, [], ◌∷◌, Option, none, some, arith, ltb, leb, ◌==◌, if◌then◌else◌, Bool-cases, inl, inr,
}
use uptime_cairn.Base.Int.{ℤ, pos, sub_ℕ}
use uptime_cairn.Base.Bytes.{Bytes}

itoa_loop : ℕ → ℕ → Bytes → Bytes
itoa_loop zero n acc = acc
itoa_loop (suc fuel) n acc =
    let more = itoa_loop fuel (n / 10) ((48 + n % 10) ∷ acc) in
    if ltb n 10 then (48 + n) ∷ acc else more

-- Each round divides by ten, so `n + 1` rounds are enough.
unfoldable pub itoa : ℕ → Bytes
unfolding itoa_loop
itoa n = itoa_loop (suc n) n []

unfoldable is_digit : ℕ → Bool
is_digit c = leb 48 c && leb c 57

digits_from : Bytes → ℕ → Option ℕ
digits_from [] acc = some acc
digits_from (c ∷ rest) acc =
    let more = digits_from rest (acc * 10 + (c - 48)) in if is_digit c then more else none

-- At least one digit, and digits only.
unfoldable natural : Bytes → Option ℕ
unfolding digits_from is_digit
natural [] = none
natural (c ∷ rest) = digits_from (c ∷ rest) 0

in_range : Bool → ℕ → Option ℤ
in_range true n = if leb n (2 ^ 63) then some (sub_ℕ 0 n) else none
in_range false n = if ltb n (2 ^ 63) then some (pos n) else none

signed : Bool → Option ℕ → Option ℤ
signed negative none = none
signed negative (some n) = in_range negative n

unfoldable pub atoi : Bytes → Option ℤ
unfolding natural signed in_range
atoi [] = none
atoi (c ∷ rest) =
    if c == b'-'
    then signed true (natural rest)
    else if c == b'+'
    then signed false (natural rest)
    else signed false (natural (c ∷ rest))

-- Reading the printed digits of `n` from 0 is reading on from `n`.
itoa_loop-digits :
    (fuel n : ℕ) (acc : Bytes) → n < fuel → digits_from (itoa_loop fuel n acc) 0 ≡ digits_from acc n
unfolding itoa_loop digits_from is_digit
itoa_loop-digits zero n acc h = absurd (omega arith)
itoa_loop-digits (suc fuel) n acc h =
    ground (arith, itoa_loop-digits fuel (n / 10) ((48 + n % 10) ∷ acc))

data NonEmpty : Bytes → Type 0 where
  at_least : (c : ℕ) (rest : Bytes) → is_digit c ≡ true → NonEmpty (c ∷ rest)

itoa_loop-NonEmpty : (fuel n : ℕ) (acc : Bytes) → NonEmpty acc → NonEmpty (itoa_loop fuel n acc)
unfolding itoa_loop is_digit
itoa_loop-NonEmpty zero n acc h = h
itoa_loop-NonEmpty (suc fuel) n acc h = elim (Bool-cases (ltb n 10)) [
  | inl small ↦ rw small (at_least (48 + n) acc (ground arith))
  | inr big ↦
      rw big (itoa_loop-NonEmpty fuel (n / 10) _ (at_least (48 + n % 10) acc (ground arith)))
]

itoa-NonEmpty : (n : ℕ) → NonEmpty (itoa n)
unfolding itoa itoa_loop is_digit
itoa-NonEmpty n = elim (Bool-cases (ltb n 10)) [
  | inl small ↦ rw small (at_least (48 + n) [] (ground arith))
  | inr big ↦ rw big (itoa_loop-NonEmpty n (n / 10) _ (at_least (48 + n % 10) [] (ground arith)))
]

natural_of_NonEmpty : (b : Bytes) → NonEmpty b → natural b ≡ digits_from b 0
unfolding natural
natural_of_NonEmpty b (at_least c rest h) = refl

natural-itoa : (n : ℕ) → natural (itoa n) ≡ some n
unfolding itoa digits_from
natural-itoa n =
    natural_of_NonEmpty (itoa n) (itoa-NonEmpty n) ∙ itoa_loop-digits (suc n) n [] (omega arith)

atoi_of_NonEmpty :
    (b : Bytes) {n : ℕ} → NonEmpty b → natural b ≡ some n → n < 2 ^ 63 → atoi b ≡ some (pos n)
unfolding atoi is_digit
atoi_of_NonEmpty b (at_least c rest h) e l = ground arith

-- A number printed is read back, where it fits an int.
pub atoi-itoa : (n : ℕ) → n < 2 ^ 63 → atoi (itoa n) ≡ some (pos n)
atoi-itoa n h = atoi_of_NonEmpty (itoa n) (itoa-NonEmpty n) (natural-itoa n) h

abbrev pub IsDigit : ℕ → Type 0
IsDigit c = (48 ≤ c) × (c ≤ 57)

itoa_loop-IsDigit :
    (fuel n : ℕ) (acc : Bytes) → All IsDigit acc → All IsDigit (itoa_loop fuel n acc)
unfolding itoa_loop
itoa_loop-IsDigit zero n acc h = h
itoa_loop-IsDigit (suc fuel) n acc h = elim (Bool-cases (ltb n 10)) [
  | inl small ↦ rw small ((ground arith, ground arith), h)
  | inr big ↦ rw big (itoa_loop-IsDigit fuel (n / 10) _ ((ground arith, ground arith), h))
]

pub itoa-IsDigit : (n : ℕ) → All IsDigit (itoa n)
unfolding itoa
itoa-IsDigit n = itoa_loop-IsDigit (suc n) n [] tt

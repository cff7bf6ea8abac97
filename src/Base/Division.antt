-- ===== src/Base/Division.antt =====
-- Division of signed numbers that rounds down.
use native.Mathlib.Nat.{div-mul-le_self, lt-div-mul-add}
use native.Mathlib.Decide.{dec_le}
use uptime_cairn.Base.{ℕ, zero, suc, ◌+◌, ◌*◌, ◌/◌, ◌<◌, ◌≤◌, ◌≡◌, refl, ap, arith}
use uptime_cairn.Base.Int.{
  ℤ, pos, negsuc, floor_div, sub_ℕ, pos_part, neg_part, +ℤ_parts, eq_of_parts, ◌+ℤ◌, ◌*ℤ◌, ◌≤ℤ◌,
  ◌<ℤ◌,
}

pub neg_times : (a s : ℕ) → sub_ℕ 0 a *ℤ pos s ≡ sub_ℕ 0 (a * s)
unfolding ◌*ℤ◌
neg_times zero s = ground arith
neg_times (suc a) s = ground arith

pub negsuc_times : (q s : ℕ) → negsuc q *ℤ pos s ≡ sub_ℕ 0 ((q + 1) * s)
unfolding ◌*ℤ◌
negsuc_times q s = ground arith

pub mul_mono : (a b s : ℕ) → a ≤ b → a * s ≤ b * s
mul_mono a b s h = grind arith

pub pos_times : (q s : ℕ) → pos q *ℤ pos s ≡ pos (q * s)
unfolding ◌*ℤ◌
pos_times q s = ground arith

below_bounds :
    (p n d : ℕ) → n < p → p ≤ n + d → (sub_ℕ 0 p ≤ℤ negsuc n) × (negsuc n <ℤ sub_ℕ 0 p +ℤ pos d)
unfolding ◌+ℤ◌
below_bounds p n d h k = ground arith

above_bounds : (p n d : ℕ) → p ≤ n → n < p + d → (pos p ≤ℤ pos n) × (pos n <ℤ pos p +ℤ pos d)
unfolding ◌+ℤ◌
above_bounds p n d h k = ground arith

pub floor_div_bounds :
    (z : ℤ) (d : ℕ) → 0 < d → (floor_div z d *ℤ pos d ≤ℤ z) × (z <ℤ floor_div z d *ℤ pos d +ℤ pos d)
unfolding floor_div
floor_div_bounds (pos n) d h = rw (pos_times (n / d) d) (
    above_bounds (n / d * d) n d (omega (arith, div-mul-le_self n d))
      (omega (arith, lt-div-mul-add {a = n} h)))
floor_div_bounds (negsuc n) d h = rw (negsuc_times (n / d) d) (
    below_bounds ((n / d + 1) * d) n d (omega (arith, lt-div-mul-add {a = n} h))
      (omega (arith, div-mul-le_self n d)))

lt_of_times : (a b s : ℕ) → a * s < b * s → a + 1 ≤ b
lt_of_times a b s h = elim (dec_le b a) [
  | yes le ↦ absurd (omega (arith, mul_mono b a s le))
  | no gt ↦ omega arith
]

times_parts :
    (z : ℤ) (s : ℕ)
    → (pos_part (z *ℤ pos s) ≡ pos_part z * s) × (neg_part (z *ℤ pos s) ≡ neg_part z * s)
times_parts (pos n) s = rw (pos_times n s) (refl, omega arith)
times_parts (negsuc n) s = rw (negsuc_times n s) (ground arith)

distributed : (a b s : ℕ) → (a + b) * s ≡ a * s + b * s
distributed a b s = grind arith

-- Two multiples are at least one step apart.
pub times_step : (a b : ℤ) (s : ℕ) → a *ℤ pos s <ℤ b *ℤ pos s → a *ℤ pos s +ℤ pos s ≤ℤ b *ℤ pos s
times_step a b s h =
    let (pa, na) = times_parts a s in
    let (pb, nb) = times_parts b s in
    let left = distributed (pos_part a) (neg_part b) s in
    let right = distributed (pos_part b) (neg_part a) s in
    let next =
      lt_of_times (pos_part a + neg_part b) (pos_part b + neg_part a) s
        (omega (arith, pa, na, pb, nb, left, right, h)) in
    let le = mul_mono (pos_part a + neg_part b + 1) (pos_part b + neg_part a) s next in
    omega (
      arith,
      pa,
      na,
      pb,
      nb,
      left,
      right,
      le,
      distributed (pos_part a + neg_part b) 1 s,
      +ℤ_parts (a *ℤ pos s) (pos s),
    )

pub times_plus : (a : ℤ) (m s : ℕ) → a *ℤ pos s +ℤ pos (m * s) ≡ (a +ℤ pos m) *ℤ pos s
times_plus a m s =
    let sum = ap (λ n. n * s) (+ℤ_parts a (pos m)) in
    eq_of_parts _ _ (
      grind (
        arith,
        times_parts a s,
        times_parts (a +ℤ pos m) s,
        sum,
        +ℤ_parts (a *ℤ pos s) (pos (m * s)),
      ))

-- ===== src/Rollup/Buckets.antt =====
-- Bucket is a floor (internal/rollup/rollup.go).
use native.Mathlib.Nat.{div-mul-le_self, lt-div-mul-add, div-div-eq-div-mul, mul-div_cancel_left}
use native.Mathlib.Decide.{dec_le, ℕ_discrete}
use uptime_cairn.Base.{ℕ, ◌+◌, ◌*◌, ◌/◌, ◌<◌, ◌≡◌, refl, ap, not, ◌&&◌, if◌then◌else◌, arith, ◌≢◌}
use uptime_cairn.Base.Int.{
  ℤ, pos, negsuc, floor_div, sub_ℕ, ◌+ℤ◌, ◌-ℤ◌, ◌*ℤ◌, ◌≤ℤ◌, ◌<ℤ◌, eqb_ℤ, ltb_ℤ,
}
use uptime_cairn.Base.Division.{neg_times, negsuc_times, mul_mono, pos_times, floor_div_bounds}
use uptime_cairn.Model.{Instant}
use uptime_cairn.Rollup.{second, quot, floor_seconds, bucket}

neg_minus : (a s : ℕ) → sub_ℕ 0 a -ℤ pos s ≡ sub_ℕ 0 (a + s)
unfolding ◌-ℤ◌
neg_minus a s = ground arith

exact_step : (n s : ℕ) → 0 < s → (n + 1) / s * s ≡ n + 1 → (n / s + 1) * s ≡ n + 1
exact_step n s h e =
    let a = (n + 1) / s in
    let q = n / s in
    let low = div-mul-le_self n s in
    let high = lt-div-mul-add {a = n} h in
    elim (dec_le a q) [
      | yes le ↦ absurd (omega (arith, mul_mono a q s le, low))
      | no gt ↦ omega (arith, mul_mono (q + 1) a s (omega arith), low, high)
    ]

inexact_step : (n s : ℕ) → 0 < s → (n + 1) / s * s ≢ n + 1 → (n + 1) / s ≡ n / s
inexact_step n s h e =
    let a = (n + 1) / s in
    let q = n / s in
    let low = div-mul-le_self n s in
    let high = lt-div-mul-add {a = n} h in
    let low' = div-mul-le_self (n + 1) s in
    let high' = lt-div-mul-add {a = n + 1} h in
    elim (dec_le a q) [
      | yes le ↦ elim (dec_le q a) [
        | yes le' ↦ omega arith
        | no lt ↦ absurd (omega (arith, mul_mono (a + 1) q s (omega arith), low, high'))
      ]
      | no gt ↦ absurd (omega (arith, mul_mono (q + 1) a s (omega arith), e, low', high))
    ]

-- The nudge below the epoch, as a function of the truncated seconds.
nudged : ℕ → ℕ → ℕ → ℤ
unfolding ◌-ℤ◌
nudged p n s =
    let floored = sub_ℕ 0 p in
    if ltb_ℤ (negsuc n) (pos 0) && not (eqb_ℤ floored (negsuc n)) then floored -ℤ pos s else floored

nudged_exact : (p n s : ℕ) → p ≡ n + 1 → nudged p n s ≡ sub_ℕ 0 p
unfolding nudged
nudged_exact p n s e = ground arith

nudged_inexact : (p n s : ℕ) → p ≢ n + 1 → nudged p n s ≡ sub_ℕ 0 (p + s)
unfolding nudged
nudged_inexact p n s e = ground arith

floor_seconds-nudged : (n s : ℕ) → floor_seconds (negsuc n) s ≡ nudged ((n + 1) / s * s) n s
unfolding floor_seconds quot nudged
floor_seconds-nudged n s = rw (neg_times ((n + 1) / s) s) refl

-- On both sides of the epoch the nudge makes truncation a floor.
floor_seconds-floor_div :
    (secs : ℤ) (step : ℕ) → 0 < step → floor_seconds secs step ≡ floor_div secs step *ℤ pos step
unfolding floor_div
floor_seconds-floor_div (pos n) step h = unfold floor_seconds quot ◌*ℤ◌ in ground arith
floor_seconds-floor_div (negsuc n) step h =
    rw (floor_seconds-nudged n step, negsuc_times (n / step) step)
      (elim (ℕ_discrete ((n + 1) / step * step) (n + 1)) [
        | yes e ↦ rw (nudged_exact ((n + 1) / step * step) n step e, e, exact_step n step h e)
        | no ne ↦
            rw (nudged_inexact ((n + 1) / step * step) n step ne, inexact_step n step h ne)
              (ap (sub_ℕ 0) (omega arith))
      ])

times_assoc : (z : ℤ) (s k : ℕ) → z *ℤ pos s *ℤ pos k ≡ z *ℤ pos (s * k)
times_assoc (pos n) s k =
    rw (pos_times n s, pos_times (n * s) k, pos_times n (s * k)) (ap pos (grind arith))
times_assoc (negsuc n) s k =
    rw (negsuc_times n s, neg_times ((n + 1) * s) k, negsuc_times n (s * k))
      (ap (sub_ℕ 0) (grind arith))

-- (z / a) / b, both rounding down, is one division.
floor_div-floor_div :
    (z : ℤ) (a b : ℕ) → 0 < a → 0 < b → floor_div (floor_div z a) b ≡ floor_div z (a * b)
unfolding floor_div
floor_div-floor_div (pos n) a b h k = ap pos (div-div-eq-div-mul n a b)
floor_div-floor_div (negsuc n) a b h k = ap negsuc (div-div-eq-div-mul n a b)

zero-lt-second : 0 < second
zero-lt-second = omega arith

mul_comm : (a b : ℕ) → a * b ≡ b * a
mul_comm a b = grind arith

-- For an interval of `k` seconds, a bucket starts at a multiple of the interval, the last at or before
-- the instant.
pub bucket-floor_div :
    (t : Instant) (k : ℕ)
    → 0 < k
    → bucket t (second * k) ≡ floor_div t (second * k) *ℤ pos (second * k)
unfolding bucket
bucket-floor_div t k h = rw (
  mul-div_cancel_left k (zero-lt-second),
  floor_seconds-floor_div (floor_div t second) k h,
  floor_div-floor_div t second k zero-lt-second h,
  times_assoc (floor_div t (second * k)) k second,
  mul_comm k second,
)

-- For an interval of whole seconds a bucket starts at or before the instant and ends after it,
-- before the epoch too.
pub bucket_bounds :
    (t : Instant) (k : ℕ)
    → 0 < k
    → (bucket t (second * k) ≤ℤ t) × (t <ℤ bucket t (second * k) +ℤ pos (second * k))
bucket_bounds t k h = rw (bucket-floor_div t k h) (floor_div_bounds t (second * k) (omega arith))

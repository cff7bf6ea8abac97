-- ===== src/Probe/JsonPath/Assertion/Opposites.antt =====
-- Operators that negate each other (assert, internal/probe/check/jsonpath.go).
use Prim.Native.Nat.{Ordering}
use uptime_cairn.Base.{
  ◌≡◌, ◌≢◌, ◌↔◌, refl, Bool, true, false, not, Option, none, some, if◌then◌else◌,
}
use uptime_cairn.Base.Bytes.{Bytes, eqb}
use uptime_cairn.Probe.JsonPath.Assertion.{
  Json, Operator, eq, ne, gt, gte, lt, lte, exists, not_exists, Assertion, Failure, not_present,
  Floats, accepts, walk, render, compare_values, check, judge, judge_body, assert,
}

pub data Opposite : Operator → Operator → Type 0 where
  eq_ne : Opposite eq ne
  gt_lte : Opposite gt lte
  lt_gte : Opposite lt gte
  exists_not : Opposite exists not_exists

-- Exactly one of two verdicts is that the assertion holds.
abbrev pub OneHolds : Option Failure → Option Failure → Type 0
OneHolds a b = (a ≡ none) ↔ (b ≢ none)

-- The verdicts of opposite operators at what the path selects: one of the two holds, but where nothing is
-- there only the question whether something is there has an answer.
abbrev pub Verdicts {ℓ} :
    {Real : Type ℓ} → Operator → Option Failure → Option Failure → Option Real → Type 0
Verdicts o a b (some v) = OneHolds a b
Verdicts exists a b none = OneHolds a b
Verdicts o a b none = (a ≡ some not_present) × (b ≡ some not_present)

one_of :
    (b : Bool) (f g : Failure) → OneHolds (if b then none else some f) (if b then some g else none)
one_of true f g = (λ e h. cc, λ h. refl)
one_of false f g = (λ e h. cc, λ h. absurd (h refl))

negated :
    (b b' : Bool) (f : Failure)
    → b' ≡ not b
    → OneHolds (if b then none else some f) (if b' then none else some f)
negated true b' f h = rw h (λ e x. cc, λ x. refl)
negated false b' f h = rw h (λ e x. cc, λ x. absurd (x refl))

gt-lte : (order : Ordering) → accepts lte order ≡ not (accepts gt order)
unfolding accepts
gt-lte Ordering.lt = refl
gt-lte Ordering.eq = refl
gt-lte Ordering.gt = refl

lt-gte : (order : Ordering) → accepts gte order ≡ not (accepts lt order)
unfolding accepts
lt-gte Ordering.lt = refl
lt-gte Ordering.eq = refl
lt-gte Ordering.gt = refl

module _ {Real : Type 0} (lib : Floats Real) where
  judge-Verdicts :
      (o o' : Operator) (expected : Bytes) (v : Option (Json Real))
      → Opposite o o'
      → Verdicts o (judge lib o expected v) (judge lib o' expected v) v
  unfolding judge check compare_values
  judge-Verdicts o o' expected none eq_ne = (refl, refl)
  judge-Verdicts o o' expected (some v) eq_ne = one_of (eqb (render lib v) expected) _ _
  judge-Verdicts o o' expected none gt_lte = (refl, refl)
  judge-Verdicts o o' expected (some v) gt_lte = negated _ _ _ (gt-lte _)
  judge-Verdicts o o' expected none lt_gte = (refl, refl)
  judge-Verdicts o o' expected (some v) lt_gte = negated _ _ _ (lt-gte _)
  judge-Verdicts o o' expected none exists_not = (λ e. absurd (cc), λ h. absurd (h refl))
  judge-Verdicts o o' expected (some v) exists_not = (λ e h. cc, λ h. refl)

  -- On a body that is JSON, eq and ne, gt and lte, lt and gte, and exists and not_exists judge
  -- oppositely whatever the path selects: exactly one of the two assertions holds; where the path
  -- selects nothing, both comparisons fail as not present.
  pub assert-Verdicts :
      (a : Assertion) (o' : Operator) (body : Bytes) (document : Json Real)
      → lib.decode body ≡ some document
      → Opposite a.operator o'
      → Verdicts a.operator
          (assert lib a body)
          (assert lib (record a { operator = o' }) body)
          (walk a.segments (some document))
  unfolding assert judge_body
  assert-Verdicts a o' body document h opposite =
      rw h (judge-Verdicts a.operator o' a.expected (walk a.segments (some document)) opposite)

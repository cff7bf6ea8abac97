-- ===== src/Cron/Keys.antt =====
-- The sorted keys of a set (sortedKeys, Hours and Minutes, internal/cron/cron.go).
use uptime_cairn.Base.{
  ◌≤◌, ◌≡◌, refl, ap, ◌∙◌, Bool, true, false, ◌||◌, List, [], ◌∷◌, arith, Bool-cases, inl, inr,
}
use uptime_cairn.Base.Int.{ℤ, ◌<ℤ◌, ltb_ℤ, eqb_ℤ, eq_of_eqb_ℤ}
use uptime_cairn.Cron.{member, sorted_keys, insert_key}

-- Ascending from `low` on, each value once.
pub From : ℤ → List ℤ → Type 0
From low [] = 0 ≤ 0
From low (v ∷ rest) = (low <ℤ v) × From v rest

Ascending : List ℤ → Type 0
unfolding From
Ascending [] = 0 ≤ 0
Ascending (v ∷ rest) = From v rest

insert_key-From : (low v : ℤ) (vs : List ℤ) → low <ℤ v → From low vs → From low (insert_key v vs)
unfolding insert_key From
insert_key-From low v [] h k = (h, omega arith)
insert_key-From low v (x ∷ rest) h k = elim (Bool-cases (eqb_ℤ v x)) [
  | inl e ↦ rw e k
  | inr e ↦ elim (Bool-cases (ltb_ℤ v x)) [
    | inl f ↦ rw (e, f) (h, (ground arith, k.1))
    | inr f ↦ rw (e, f) (k.0, insert_key-From x v rest (ground arith) k.1)
  ]
]

or_idem : (a m : Bool) → (a || m) ≡ (a || (a || m))
or_idem true m = refl
or_idem false m = refl

or_swap : (a b m : Bool) → (a || (b || m)) ≡ (b || (a || m))
or_swap true true m = refl
or_swap true false m = refl
or_swap false true m = refl
or_swap false false m = refl

insert_key-member :
    (v w : ℤ) (vs : List ℤ) → member w (insert_key v vs) ≡ (eqb_ℤ v w || member w vs)
unfolding insert_key member
insert_key-member v w [] = refl
insert_key-member v w (x ∷ rest) = elim (Bool-cases (eqb_ℤ v x)) [
  | inl e ↦ rw (e, eq_of_eqb_ℤ v x e) (or_idem (eqb_ℤ x w) (member w rest))
  | inr e ↦ elim (Bool-cases (ltb_ℤ v x)) [
    | inl f ↦ rw (e, f) refl
    | inr f ↦
        rw (e, f)
          (ap (◌||◌ (eqb_ℤ x w)) (insert_key-member v w rest)
            ∙ or_swap (eqb_ℤ x w) (eqb_ℤ v w) (member w rest))
  ]
]

-- A lower bound of the values, below them all.
insert_key-Ascending : (v : ℤ) (vs : List ℤ) → Ascending vs → Ascending (insert_key v vs)
unfolding insert_key Ascending From
insert_key-Ascending v [] h = omega arith
insert_key-Ascending v (x ∷ rest) h = elim (Bool-cases (eqb_ℤ v x)) [
  | inl e ↦ rw e h
  | inr e ↦ elim (Bool-cases (ltb_ℤ v x)) [
    | inl f ↦ rw (e, f) (ground arith, h)
    | inr f ↦ rw (e, f) (insert_key-From x v rest (ground arith) h)
  ]
]

-- The sorted keys of a set are its members, in ascending order, each once.
sorted_keys_lem :
    (vs : List ℤ) (w : ℤ) → Ascending (sorted_keys vs) × (member w (sorted_keys vs) ≡ member w vs)
unfolding sorted_keys Ascending member
sorted_keys_lem [] w = (omega arith, refl)
sorted_keys_lem (v ∷ rest) w =
    let (up, same) = sorted_keys_lem rest w in
    (
      insert_key-Ascending v (sorted_keys rest) up,
      insert_key-member v w (sorted_keys rest) ∙ ap (◌||◌ (eqb_ℤ v w)) same,
    )

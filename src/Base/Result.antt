-- ===== src/Base/Result.antt =====
-- Go's (value, error): a value, or the error that is returned in its place.
use uptime_cairn.Base.{◌≡◌, refl, ap, ◌⊎◌, inl, inr}

pub data Result {ℓ} (E A : Type ℓ) : Type ℓ where
  ok : A → Result E A
  err : E → Result E A

pub ok_injective {ℓ} : {E A : Type ℓ} {a b : A} → ◌≡◌ {A = Result E A} (ok a) (ok b) → a ≡ b
ok_injective e = cc

-- The value goes on to what follows, an error does not.
infixl 5 ◌>>=◌
abbrev pub ◌>>=◌ {ℓ} : {E A B : Type ℓ} → Result E A → (A → Result E B) → Result E B
r >>= next = elim r [ ok value ↦ next value | err why ↦ err why ]

pub went {ℓ} :
    {E A B : Type ℓ} (next : A → Result E B) (first : Result E A) {value : A}
    → first ≡ ok value
    → (first >>= next) ≡ next value
went next first e = ap (λ r. r >>= next) e

-- A chain that ends well went on from a value.
pub went_on {ℓ} :
    {E A B : Type ℓ} (next : A → Result E B) (first : Result E A) {last : B}
    → (first >>= next) ≡ ok last
    → (value : A) × (next value ≡ ok last) × (first ≡ ok value)
went_on next (err why) e = absurd (cc)
went_on next (ok value) e = (value, e, refl)

-- A chain that fails does so after a value, or at once.
pub broke_off {ℓ} :
    {E A B : Type ℓ} (next : A → Result E B) (first : Result E A) {why : E}
    → (first >>= next) ≡ err why
    → ((value : A) × (next value ≡ err why) × (first ≡ ok value)) ⊎ (first ≡ err why)
broke_off next (err other) e = inr (cc)
broke_off next (ok value) e = inl (value, e, refl)

-- ===== src/Base/Bytes.antt =====
-- Go's []byte and string: a list of byte values, with the comparisons the program makes.
use Prim.Native.Nat.{compare, Ordering}
use Prim.Native.Char.{code}
use uptime_cairn.Base.{ℕ, String, ◌≡◌, refl, Bool, true, false, ◌&&◌, List, [], ◌∷◌, arith, ◌==◌}

abbrev pub Bytes : Type 0
Bytes = List ℕ

-- The bytes of an ASCII literal.
abbrev pub codes : String → Bytes
codes String.[] = []
codes (String.◌∷◌ c s) = code c ∷ codes s

-- `a == b` on strings and bytes.Equal.
unfoldable pub eqb : Bytes → Bytes → Bool
eqb [] [] = true
eqb [] (y ∷ ys) = false
eqb (x ∷ xs) [] = false
eqb (x ∷ xs) (y ∷ ys) = x == y && eqb xs ys

pub eqb-eq : (xs ys : Bytes) → eqb xs ys ≡ true → xs ≡ ys
unfolding eqb
eqb-eq [] [] h = refl
eqb-eq [] (y ∷ ys) h = ground arith
eqb-eq (x ∷ xs) [] h = ground arith
eqb-eq (x ∷ xs) (y ∷ ys) h = ground (arith, eqb-eq xs ys)

pub eqb_refl : (xs : Bytes) → eqb xs xs ≡ true
unfolding eqb
eqb_refl [] = refl
eqb_refl (x ∷ xs) = ground (arith, eqb_refl xs)

-- `bytes.Compare(a, b) <= 0`.
unfoldable pub leb_bytes : Bytes → Bytes → Bool
leb_bytes [] ys = true
leb_bytes (x ∷ xs) [] = false
leb_bytes (x ∷ xs) (y ∷ ys) = elim (compare x y) [
  | Ordering.lt ↦ true
  | Ordering.eq ↦ leb_bytes xs ys
  | Ordering.gt ↦ false
]

-- ===== src/Probe/Buffer/Delivery.antt =====
-- At-least-once delivery (Buffer.Next, Ack and Rewind, internal/probe/buffer.go).

use uptime_cairn.Base.{
  ℕ, zero, suc, ◌+◌, ◌-◌, ◌≤◌, min, ◌≡◌, refl, ◌≢◌, ap, zero-or-suc, inl, inr, true, false, List,
  [], ◌∷◌, ◌++◌, arith, length, length-take, length-drop, take, drop, if◌then◌else◌,
}
use mathlib.Core.List.{append-nil}
use uptime_cairn.Base.Bytes.{Bytes, leb_bytes}
use uptime_cairn.Probe.Wire.{Result}
use uptime_cairn.Probe.Buffer.{Buffer, next, covered, ack, rewind}
use uptime_cairn.Probe.Buffer.Bounds.{Inv}

drop-zero-length {ℓ} : {A : Type ℓ} (xs : List A) → take (length xs) xs ≡ xs
drop-zero-length [] = refl
drop-zero-length (x ∷ xs) = ap (◌∷◌ x) (drop-zero-length xs)

take-split {ℓ} :
    {A : Type ℓ} (m n : ℕ) (xs : List A) → m ≤ n → take n xs ≡ take m xs ++ take (n - m) (drop m xs)
take-split zero n xs h = let e : n - 0 ≡ n = omega arith in rw e
take-split (suc m) zero xs h = absurd (omega arith)
take-split (suc m) (suc n) [] h = elim (zero-or-suc (suc n - suc m)) [
  | inl e ↦ rw e
  | inr (k, e) ↦ rw e
]
take-split (suc m) (suc n) (x ∷ xs) h =
    let e : suc n - suc m ≡ n - m = omega arith in
    rw e (ap (◌∷◌ x) (take-split m n xs (omega arith)))

take-min-length {ℓ} : {A : Type ℓ} (n : ℕ) (xs : List A) → take (min n (length xs)) xs ≡ take n xs
take-min-length zero xs = let e : min 0 (length xs) ≡ 0 = omega arith in rw e
take-min-length (suc n) [] = let e : min (suc n) 0 ≡ 0 = omega arith in rw e
take-min-length (suc n) (x ∷ xs) =
    let e : min (suc n) (suc (length xs)) ≡ suc (min n (length xs)) = omega arith in
    rw e (ap (◌∷◌ x) (take-min-length n xs))

take_of_empty {ℓ} : {A : Type ℓ} (n : ℕ) (xs : List A) → length xs ≤ 0 → take n xs ≡ []
take_of_empty zero xs h = refl
take_of_empty (suc n) [] h = refl
take_of_empty (suc n) (x ∷ xs) h = absurd (omega arith)

-- On a buffer with exact accounting, Next hands out the results that follow those already sent, in
-- order and at most n of them, marks exactly these sent, and frees nothing.
pub next_lem :
    (n : ℕ) (b : Buffer)
    → Inv b
    → let (batch, b') = next n b in
      (b'.items ≡ b.items)
      × (take b'.sent b.items ≡ take b.sent b.items ++ batch)
      × (b.sent + length batch ≡ b'.sent)
      × (length batch ≤ n)
unfolding next
next_lem n b v =
    let end = min (b.sent + n) (length b.items) in
    ground (
      arith,
      append-nil (take b.sent b.items),
      take-split b.sent end b.items,
      length-take (end - b.sent) (drop b.sent b.items),
      length-drop b.sent b.items,
    )

-- After the stream drops, the results that come next are the first ones in the buffer, whatever was
-- in flight.
next-rewind : (n : ℕ) (b : Buffer) → (next n (rewind b)).0 ≡ take n b.items
unfolding next rewind
next-rewind n b =
    let e : min (0 + n) (length b.items) - 0 ≡ min n (length b.items) = omega arith in
    ground (arith, e, take_of_empty n b.items, take-min-length n b.items)

-- A result at or below an id is at or below any later one.
leb_bytes_trans :
    (xs ys zs : Bytes) → leb_bytes xs ys ≡ true → leb_bytes ys zs ≡ true → leb_bytes xs zs ≡ true
unfolding leb_bytes
leb_bytes_trans [] ys zs p q = refl
leb_bytes_trans (x ∷ xs) [] zs p q = ground arith
leb_bytes_trans (x ∷ xs) (y ∷ ys) [] p q = ground arith
leb_bytes_trans (x ∷ xs) (y ∷ ys) (z ∷ zs) p q = ground (arith, leb_bytes_trans xs ys zs)

-- The results are in the order of their ids, as a session generates them.
abbrev IsOrdered : List Result → Type 0
IsOrdered [] = Unit {0}
IsOrdered (x ∷ []) = Unit
IsOrdered (x ∷ y ∷ rest) = (leb_bytes x.result_id y.result_id ≡ true) × IsOrdered (y ∷ rest)

-- The results whose id is above the acknowledged one.
pub above : Bytes → List Result → List Result
above through [] = []
above through (r ∷ rest) =
    if leb_bytes r.result_id through then above through rest else r ∷ above through rest

above-id :
    (through : Bytes) (x : Result) (rest : List Result)
    → IsOrdered (x ∷ rest)
    → leb_bytes x.result_id through ≡ false
    → above through rest ≡ rest
unfolding above
above-id through x [] o h = refl
above-id through x (y ∷ rest) o h =
    ground (arith, above-id through y rest o.1, leb_bytes_trans x.result_id y.result_id through o.0)

drop-covered :
    (through : Bytes) (xs : List Result)
    → IsOrdered xs
    → drop (covered through xs) xs ≡ above through xs
unfolding covered above
drop-covered through [] o = refl
drop-covered through (x ∷ []) o = ground arith
drop-covered through (x ∷ y ∷ rest) o =
    ground (arith, drop-covered through (y ∷ rest) o.1, above-id through x (y ∷ rest) o)

-- With the results in the order of their ids, an acknowledgement of an id that is not empty frees
-- those at or below it and no others.
pub ack_lem :
    (through : Bytes) (b : Buffer)
    → IsOrdered b.items
    → through ≢ []
    → (ack through b).items ≡ above through b.items
unfolding ack
ack_lem [] b o h = absurd (h refl)
ack_lem (x ∷ xs) b o h = drop-covered (x ∷ xs) b.items o

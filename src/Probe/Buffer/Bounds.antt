-- ===== src/Probe/Buffer/Bounds.antt =====
-- Accounting and bounds of the result buffer (internal/probe/buffer.go).
use uptime_cairn.Base.{
  ℕ, zero, suc, ◌+◌, ◌≤◌, ◌<◌, ◌≡◌, refl, ◌∙◌, ◌⊎◌, inl, inr, false, List, [], ◌∷◌, ◌++◌, Option,
  none, some, arith, length, length-append, take, drop, length-take, length-drop, Bool-cases,
  Option-cases,
}
use uptime_cairn.Base.Bytes.{Bytes}
use uptime_cairn.Probe.Wire.{Result}
use uptime_cairn.Probe.Buffer.{
  Buffer, new_buffer, approx_size, sheddable, shed_one, over_bounds, changes, shed_loop, append,
  add, next, covered, total_size, ack, rewind,
}

-- The byte count is the size of the items held, and no more items are marked sent than there are.
pub record Inv (b : Buffer) : Type 0 where
  pub bytes_exact : b.bytes ≡ total_size b.items
  pub sent_in_range : b.sent ≤ length b.items

total_size-append : (xs ys : List Result) → total_size (xs ++ ys) ≡ total_size xs + total_size ys
unfolding total_size
total_size-append [] ys = omega arith
total_size-append (x ∷ xs) ys = omega (arith, total_size-append xs ys)

-- What the search for an item to shed returns: nothing where every item is a change, and
-- otherwise an item that is none, whose removal takes its size away and keeps the changes.
abbrev Found : List Result → Option (ℕ × Result) → Type 0
Found xs none = changes xs ≡ xs
Found xs (some (i, r)) =
    (i < length xs)
    × (total_size (take i xs ++ drop (suc i) xs) + approx_size r ≡ total_size xs)
    × (changes (take i xs ++ drop (suc i) xs) ≡ changes xs)

sheddable_cons-Found :
    (x : Result) (xs : List Result) (o : Option (ℕ × Result))
    → sheddable xs ≡ o
    → Found xs o
    → Found (x ∷ xs) (sheddable (x ∷ xs))
unfolding sheddable total_size changes
sheddable_cons-Found x xs none e f = ground arith
sheddable_cons-Found x xs (some (i, r)) e f = ground arith

sheddable-Found : (xs : List Result) → Found xs (sheddable xs)
unfolding sheddable changes
sheddable-Found [] = refl
sheddable-Found (x ∷ xs) = sheddable_cons-Found x xs (sheddable xs) refl (sheddable-Found xs)

length-removed :
    {A : Type 0} (i : ℕ) (xs : List A)
    → i < length xs
    → length (take i xs ++ drop (suc i) xs) + 1 ≡ length xs
length-removed i xs h =
    omega
      (arith, length-append (take i xs) (drop (suc i) xs), length-take i xs, length-drop (suc i) xs)

-- A round of shedding keeps the accounting and every change, and removes one item.
shed_one_lem :
    (b b' : Buffer)
    → Inv b
    → shed_one b ≡ some b'
    → Inv b'
      × (length b'.items + 1 ≡ length b.items)
      × (changes b'.items ≡ changes b.items)
      × (b'.max_items ≡ b.max_items)
      × (b'.max_bytes ≡ b.max_bytes)
unfolding shed_one
shed_one_lem b b' v h = go (sheddable b.items) refl (sheddable-Found b.items)
  where
    go :
        (o : Option (ℕ × Result))
        → sheddable b.items ≡ o
        → Found b.items o
        → Inv b'
          × (length b'.items + 1 ≡ length b.items)
          × (changes b'.items ≡ changes b.items)
          × (b'.max_items ≡ b.max_items)
          × (b'.max_bytes ≡ b.max_bytes)
    go none e f = ground arith
    go (some (i, r)) e f = ground (arith, length-removed i b.items f.0)

shed_one-none : (b : Buffer) → shed_one b ≡ none → changes b.items ≡ b.items
unfolding shed_one
shed_one-none b h = go (sheddable b.items) refl (sheddable-Found b.items)
  where
    go :
        (o : Option (ℕ × Result))
        → sheddable b.items ≡ o
        → Found b.items o
        → changes b.items ≡ b.items
    go none e f = f
    go (some (i, r)) e f = ground arith

-- What a run of shedding leaves behind, against the buffer it began with.
pub record Shed (b b' : Buffer) : Type 0 where
  pub inv : Inv b'
  pub kept : changes b'.items ≡ changes b.items
  pub same_items_bound : b'.max_items ≡ b.max_items
  pub same_bytes_bound : b'.max_bytes ≡ b.max_bytes
  pub bounded : (over_bounds b' ≡ false) ⊎ (changes b'.items ≡ b'.items)

changes_of_empty : (xs : List Result) → length xs ≤ 0 → changes xs ≡ xs
unfolding changes
changes_of_empty [] h = refl
changes_of_empty (x ∷ xs) h = absurd (omega arith)

ended : (b : Buffer) → Inv b → (over_bounds b ≡ false) ⊎ (changes b.items ≡ b.items) → Shed b b
ended b v e = record {
  inv = v;
  kept = refl;
  same_items_bound = refl;
  same_bytes_bound = refl;
  bounded = e;
}

shed_loop-Shed : (fuel : ℕ) (b : Buffer) → Inv b → length b.items ≤ fuel → Shed b (shed_loop fuel b)
unfolding shed_loop
shed_loop-Shed zero b v h = ended b v (inr (changes_of_empty b.items h))
shed_loop-Shed (suc fuel) b v h = elim (Bool-cases (over_bounds b)) [
  | inl over ↦ elim (Option-cases (shed_one b)) [
    | inl e ↦ rw (over, e, shed_loop) (ended b v (inr (shed_one-none b e)))
    | inr (b', e) ↦
        let (v', fewer, same, items, bytes) = shed_one_lem b b' v e in
        let rest = shed_loop-Shed fuel b' v' (omega arith) in
        rw (over, e, shed_loop)
          (record {
            inv = rest.inv;
            kept = rest.kept ∙ same;
            same_items_bound = rest.same_items_bound ∙ items;
            same_bytes_bound = rest.same_bytes_bound ∙ bytes;
            bounded = rest.bounded;
          })
  ]
  | inr fits ↦ rw (fits, shed_loop) (ended b v (inl fits))
]

append-Inv : (b : Buffer) (r : Result) → Inv b → Inv (append b r)
unfolding append total_size
append-Inv b r v = record {
  bytes_exact = omega (arith, total_size-append b.items (r ∷ []));
  sent_in_range = omega (arith, length-append b.items (r ∷ []));
}

pub add-Shed : (b : Buffer) (r : Result) → Inv b → Shed (append b r) (add b r)
unfolding add
add-Shed b r v = shed_loop-Shed _ (append b r) (append-Inv b r v) (omega arith)

next-Inv : (n : ℕ) (b : Buffer) → Inv b → Inv (next n b).1
unfolding next
next-Inv n b v = ground arith

covered-le : (through : Bytes) (xs : List Result) → covered through xs ≤ length xs
unfolding covered
covered-le through [] = omega arith
covered-le through (x ∷ xs) = ground (arith, covered-le through xs)

total_size-take-drop :
    (k : ℕ) (xs : List Result) → total_size (take k xs) + total_size (drop k xs) ≡ total_size xs
unfolding total_size
total_size-take-drop zero xs = omega arith
total_size-take-drop (suc k) [] = omega arith
total_size-take-drop (suc k) (x ∷ xs) = omega (arith, total_size-take-drop k xs)

ack-Inv : (through : Bytes) (b : Buffer) → Inv b → Inv (ack through b)
unfolding ack
ack-Inv [] b v = v
ack-Inv (x ∷ xs) b v = record {
  bytes_exact = omega (arith, total_size-take-drop (covered (x ∷ xs) b.items) b.items);
  sent_in_range =
      omega (arith, length-drop (covered (x ∷ xs) b.items) b.items, covered-le (x ∷ xs) b.items);
}

-- The calls that change a buffer.
pub data Call : Type 0 where
  adds : Result → Call
  nexts : ℕ → Call
  acks : Bytes → Call
  rewinds : Call

pub step : Buffer → Call → Buffer
step b (adds r) = add b r
step b (nexts n) = (next n b).1
step b (acks through) = ack through b
step b rewinds = rewind b

pub run : Buffer → List Call → Buffer
unfolding step
run b [] = b
run b (c ∷ cs) = run (step b c) cs

step-Inv : (b : Buffer) (c : Call) → Inv b → Inv (step b c)
unfolding step rewind
step-Inv b (adds r) v = (add-Shed b r v).inv
step-Inv b (nexts n) v = next-Inv n b v
step-Inv b (acks through) v = ack-Inv through b v
step-Inv b rewinds v = record { bytes_exact = v.bytes_exact; sent_in_range = omega arith }

run-Inv : (b : Buffer) (cs : List Call) → Inv b → Inv (run b cs)
unfolding run
run-Inv b [] v = v
run-Inv b (c ∷ cs) v = run-Inv (step b c) cs (step-Inv b c v)

-- Whatever calls are made on a new buffer, in whatever order, its byte count is the sum of the
-- sizes of the results it holds, and it marks no more results sent than it holds.
pub run_new-Inv : (cs : List Call) → Inv (run new_buffer cs)
unfolding new_buffer total_size
run_new-Inv cs = run-Inv new_buffer cs (record { bytes_exact = refl; sent_in_range = omega arith })

-- ===== src/Cron/Fields.antt =====
-- What a field of an expression accepts (parseField, internal/cron/cron.go).
use uptime_cairn.Base.{
  ℕ, zero, suc, ◌+◌, ◌-◌, ◌*◌, ◌^◌, ◌<◌, ◌≤◌, ◌≡◌, refl, sym, ap, ◌∙◌, Bool, true, false, ◌||◌,
  List, [], ◌∷◌, arith, Bool-cases, inl, inr,
}
use uptime_cairn.Base.Int.{
  ℤ, pos, negsuc, ◌+ℤ◌, ◌-ℤ◌, ◌≤ℤ◌, leb_ℤ, ltb_ℤ, eqb_ℤ, pos_part, neg_part,
}
use uptime_cairn.Base.Bytes.{Bytes, eqb}
use uptime_cairn.Base.Text.{trim_space, cut}
use uptime_cairn.Cron.{
  FieldName, Result, ok, err, Part, parse_part, with_step, in_bounds, cut_step, expand, add_64,
  range_of, member, outside, empty_field,
}

-- The range of an accepted part is within its field's bounds and its step is positive.
record Within (low high : ℤ) (p : Part) : Type 0 where
  pub from_low : low ≤ℤ p.start
  pub to_high : p.end ≤ℤ high
  pub ordered : p.start ≤ℤ p.end

in_bounds-Within :
    (name : FieldName) (low high : ℤ) (text : Bytes) (r : Result Part) (p : Part)
    → in_bounds name low high text r ≡ ok p
    → Within low high p
unfolding in_bounds
in_bounds-Within name low high text (err e) p h = absurd cc
in_bounds-Within name low high text (ok q) p h =
    elim (Bool-cases (ltb_ℤ q.start low || ltb_ℤ high q.end || ltb_ℤ q.end q.start)) [
      | inl e ↦ absurd (let h' : err (outside name text) ≡ ok p = simp e at h in cc)
      | inr e ↦
          let h' : ok q ≡ ok p = simp e at h in
          let same : q ≡ p = cc in
          rw (sym same)
            (record { from_low = ground arith; to_high = ground arith; ordered = ground arith })
    ]

with_step-Within :
    (name : FieldName) (low high : ℤ) (r : Result (Bytes × ℤ)) (p : Part)
    → with_step name low high r ≡ ok p
    → Within low high p
unfolding with_step
with_step-Within name low high (err e) p h = absurd cc
with_step-Within name low high (ok (text, step)) p h =
    in_bounds-Within name low high text (range_of name low high text step) p h

parse_part-Within :
    (name : FieldName) (low high : ℤ) (text : Bytes) (p : Part)
    → parse_part name low high text ≡ ok p
    → Within low high p
unfolding parse_part
parse_part-Within name low high text p h = elim (Bool-cases (eqb (trim_space text) [])) [
  | inl e ↦ absurd (let h' : err (empty_field name) ≡ ok p = simp e at h in cc)
  | inr e ↦
      with_step-Within name low high (cut_step name (trim_space text) (cut (trim_space text) 47)) p
        (simp e at h)
]

-- The bound on a step under which no sum wraps around.
abbrev pub step_limit : ℕ
step_limit = 2 ^ 62

add_small : (v step : ℕ) → v ≤ 59 → step ≤ step_limit → add_64 (pos v) (pos step) ≡ pos (v + step)
unfolding add_64 ◌+ℤ◌
add_small v step h k = ground arith

-- Every value is the start plus a number of steps, at most the end.
pub EachStep : ℕ → ℕ → ℕ → List ℤ → Type 0
EachStep start end step [] = 0 ≤ 0
EachStep start end step (v ∷ rest) =
    ((i : ℕ) × (v ≡ pos (start + i * step)) × (start + i * step ≤ end))
    × EachStep start end step rest

EachStep-later :
    (start end step : ℕ) (vs : List ℤ)
    → EachStep (start + step) end step vs
    → EachStep start end step vs
unfolding EachStep
EachStep-later start end step [] h = h
EachStep-later start end step (v ∷ rest) h =
    let ((i, e, le), more) = h in
    let shift : start + step + i * step ≡ start + suc i * step = grind arith in
    ((suc i, e ∙ ap pos shift, omega (arith, shift, le)), EachStep-later start end step rest more)

expand-EachStep :
    (fuel start end step : ℕ)
    → end ≤ 59
    → step ≤ step_limit
    → EachStep start end step (expand fuel (pos start) (pos end) (pos step))
unfolding expand EachStep
expand-EachStep zero start end step h k = omega arith
expand-EachStep (suc fuel) start end step h k = elim (Bool-cases (leb_ℤ (pos start) (pos end))) [
  | inl e ↦
      let le : start ≤ end = ground arith in
      let same = add_small start step (omega arith) k in
      rw (e, same)
        (
          (0, ap pos (omega arith), omega arith),
          EachStep-later start end step (expand fuel (pos (start + step)) (pos end) (pos step))
              (expand-EachStep fuel (start + step) end step h k),
        )
  | inr e ↦ rw e (omega arith)
]

or_true : (a : Bool) {b : Bool} → b ≡ true → (a || b) ≡ true
or_true true h = refl
or_true false h = h

-- No value is missed, with one turn for each.
expand_complete :
    (fuel start end step i : ℕ)
    → end ≤ 59
    → step ≤ step_limit
    → i < fuel
    → start + i * step ≤ end
    → member (pos (start + i * step)) (expand fuel (pos start) (pos end) (pos step)) ≡ true
unfolding expand member
expand_complete zero start end step i h k few le = absurd (omega arith)
expand_complete (suc fuel) start end step zero h k few le =
    let e : leb_ℤ (pos start) (pos end) ≡ true = ground arith in
    let e' : start + 0 * step ≡ start = omega arith in rw (e, e') (ground arith)
expand_complete (suc fuel) start end step (suc i) h k few le =
    let shift : start + suc i * step ≡ start + step + i * step = grind arith in
    let e : leb_ℤ (pos start) (pos end) ≡ true = ground (arith, shift, le) in
    let same = add_small start step (omega (arith, shift, le)) k in
    let found =
      expand_complete fuel (start + step) end step i h k (omega arith) (omega (arith, shift, le)) in
    rw (e, same)
      (or_true (eqb_ℤ (pos start) (pos (start + suc i * step))) (
        ap (λ n. member (pos n) (expand fuel (pos (start + step)) (pos end) (pos step))) shift
        ∙ found))

order_of : (a b : ℤ) (m n : ℕ) → a ≡ pos m → b ≡ pos n → a ≤ℤ b → m ≤ n
order_of a b m n e f h =
    omega (arith, h, ap pos_part e, ap neg_part e, ap pos_part f, ap neg_part f)

natural_of : (low : ℕ) (z : ℤ) → pos low ≤ℤ z → (n : ℕ) × (z ≡ pos n) × (low ≤ n)
natural_of low (pos n) h = (n, refl, omega arith)
natural_of low (negsuc n) h = absurd (omega arith)

-- The values that an accepted part adds to a field's set are in the field's bounds, for a field
-- whose bounds are within 0-59: each is the start of its range plus a number of steps, at most the
-- end, where the step is at most step_limit.
pub accepted_values :
    (name : FieldName) (low high step : ℕ) (text : Bytes) (fuel : ℕ) (p : Part)
    → parse_part name (pos low) (pos high) text ≡ ok p
    → high ≤ 59
    → p.step ≡ pos step
    → step ≤ step_limit
    → (start : ℕ) × (end : ℕ) × (low ≤ start)
      × (start ≤ end)
      × (end ≤ high)
      × (p.start ≡ pos start)
      × (p.end ≡ pos end)
      × EachStep start end step (expand fuel p.start p.end p.step)
accepted_values name low high step text fuel p h small e k =
    let w = parse_part-Within name (pos low) (pos high) text p h in
    let (start, es, low_le) = natural_of low p.start w.from_low in
    let (end, ee, low_le') = natural_of low p.end (omega (arith, w.ordered, w.from_low)) in
    let order = order_of p.start p.end start end es ee w.ordered in
    let top = order_of p.end (pos high) end high ee refl w.to_high in
    (
      start,
      end,
      low_le,
      order,
      top,
      es,
      ee,
      rw (es, ee, e) (expand-EachStep fuel start end step (omega arith) k),
    )

wrapped :
    (start : ℕ)
    → 1 ≤ start
    → start ≤ 59
    → add_64 (pos start) (pos (2 ^ 63 - 1)) ≡ negsuc (2 ^ 63 - start)
unfolding add_64 ◌+ℤ◌ ◌-ℤ◌
wrapped start h k = ground arith

or_first : (a b : Bool) → a ≡ true → (a || b) ≡ true
or_first true b h = refl
or_first false b h = absurd cc

negsuc_eqb : (n : ℕ) → eqb_ℤ (negsuc n) (negsuc n) ≡ true
negsuc_eqb n = ground arith

negative_fits : (n end : ℕ) → leb_ℤ (negsuc n) (pos end) ≡ true
negative_fits n end = ground arith

-- With the largest step, a range that starts above 0 and ends by 59 also adds a negative value,
-- which is outside the bounds of every field: the sum wraps around to below the end.
pub step_wraps :
    (fuel start end : ℕ)
    → 1 ≤ start
    → start ≤ end
    → end ≤ 59
    → member
        (negsuc (2 ^ 63 - start))
        (expand (suc (suc fuel)) (pos start) (pos end) (pos (2 ^ 63 - 1)))
      ≡ true
unfolding expand member
step_wraps fuel start end h k small =
    let e : leb_ℤ (pos start) (pos end) ≡ true = ground arith in
    let low = 2 ^ 63 - start in
    rw (e, wrapped start h (omega arith), negative_fits low end)
      (or_true (eqb_ℤ (pos start) (negsuc low)) (or_first _ _ (negsuc_eqb low)))

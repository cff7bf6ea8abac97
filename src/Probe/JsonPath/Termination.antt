-- ===== src/Probe/JsonPath/Termination.antt =====
-- The loop of parseJSONPath ends (internal/probe/check/jsonpath.go): each turn shortens what is left.
use uptime_cairn.Base.{
  ℕ, zero, suc, ◌≤◌, ◌≡◌, ◌≢◌, refl, Bool, true, false, List, [], ◌∷◌, Option, none, some, length,
  ◌==◌, if◌then◌else◌, arith, Bool-cases, inl, inr,
}
use uptime_cairn.Base.Bytes.{Bytes}
use uptime_cairn.Base.Text.{cut, cut-length}
use uptime_cairn.Base.Result.{Result, ok, err}
use uptime_cairn.Probe.JsonPath.{
  PathSegment, PathError, Step, Loop, before_step, contains_any, refused_in_names, plain_field,
  dotted, with_rest, segment_of, unquoted, bracketed, next_step, add_segment, after_step,
  parse_steps, some_segment, parse_json_path, recursive_descent, dot, open_bracket, close_bracket,
}

length-before_step : (b : Bytes) → length (before_step b).1 ≤ length b
unfolding before_step
length-before_step [] = omega arith
length-before_step (c ∷ rest) = ground (arith, length-before_step rest)

-- A step leaves no more than `n` bytes.
abbrev pub Leaves : ℕ → Step → Type 0
Leaves n (ok (s, after)) = length after ≤ n
Leaves n (err e) = Unit

plain_field-Leaves :
    (cut_at : Bytes × Bytes) (n : ℕ) → length cut_at.1 ≤ n → Leaves n (plain_field cut_at)
unfolding plain_field
plain_field-Leaves ([], after) n h = tt
plain_field-Leaves (c ∷ name, after) n h =
    elim (Bool-cases (contains_any (c ∷ name) refused_in_names)) [
      | inl e ↦ rw e tt
      | inr e ↦ rw e h
    ]

one_dot-Leaves :
    (second : Bool) (cut_at : Bytes × Bytes) (n : ℕ)
    → length cut_at.1 ≤ n
    → Leaves n (if second then err recursive_descent else plain_field cut_at)
one_dot-Leaves true cut_at n h = tt
one_dot-Leaves false cut_at n h = plain_field-Leaves cut_at n h

dotted-Leaves : (rest : Bytes) → Leaves (length rest) (dotted rest)
unfolding dotted
dotted-Leaves [] = tt
dotted-Leaves (c ∷ rest) =
    one_dot-Leaves (c == dot) (before_step (c ∷ rest)) (length (c ∷ rest))
      (length-before_step (c ∷ rest))

with_rest-Leaves :
    (after : Bytes) (r : Result PathError PathSegment) → Leaves (length after) (with_rest after r)
unfolding with_rest
with_rest-Leaves after (ok s) = omega arith
with_rest-Leaves after (err e) = tt

Leaves-mono : {m n : ℕ} (s : Step) → m ≤ n → Leaves m s → Leaves n s
Leaves-mono (ok (s, after)) h l = omega arith
Leaves-mono (err e) h l = tt

bracketed-Leaves :
    (rest : Bytes) (c : Option (Bytes × Bytes))
    → cut rest close_bracket ≡ c
    → Leaves (length rest) (bracketed c)
unfolding bracketed
bracketed-Leaves rest none h = tt
bracketed-Leaves rest (some (inner, after)) h =
    Leaves-mono _ (cut-length rest close_bracket h)
      (with_rest-Leaves after (segment_of inner (unquoted inner)))

next_step-Leaves : (c : ℕ) (rest : Bytes) → Leaves (length rest) (next_step c rest)
unfolding next_step
next_step-Leaves c rest = elim (Bool-cases (c == dot)) [
  | inl e ↦ rw e (dotted-Leaves rest)
  | inr e ↦ rw e (elim (Bool-cases (c == open_bracket)) [
    | inl f ↦ rw f (bracketed-Leaves rest _ refl)
    | inr f ↦ rw f tt
  ])
]

abbrev Ends : Loop → Type 0
Ends l = l ≢ none

add_segment-Ends : (s : PathSegment) (l : Loop) → Ends l → Ends (add_segment s l)
unfolding add_segment
add_segment-Ends s none h = absurd (h refl)
add_segment-Ends s (some (ok segments)) h = λ e. cc
add_segment-Ends s (some (err e)) h = λ e. cc

after_step-Ends :
    (n : ℕ) (more : Bytes → Loop) (s : Step)
    → ((rest : Bytes) → length rest ≤ n → Ends (more rest))
    → Leaves n s
    → Ends (after_step more s)
unfolding after_step
after_step-Ends n more (ok (s, rest)) h l = add_segment-Ends s (more rest) (h rest l)
after_step-Ends n more (err e) h l = λ e. cc

parse_steps-Ends : (fuel : ℕ) (b : Bytes) → length b ≤ fuel → Ends (parse_steps fuel b)
unfolding parse_steps
parse_steps-Ends fuel [] h = λ e. cc
parse_steps-Ends zero (c ∷ rest) h = absurd (omega arith)
parse_steps-Ends (suc fuel) (c ∷ rest) h =
    after_step-Ends (length rest) (parse_steps fuel) (next_step c rest)
      (λ b l. parse_steps-Ends fuel b (omega arith)) (next_step-Leaves c rest)

some_segment-Ends : (l : Loop) → Ends l → Ends (some_segment l)
unfolding some_segment
some_segment-Ends none h = absurd (h refl)
some_segment-Ends (some (err e)) h = λ e. cc
some_segment-Ends (some (ok [])) h = λ e. cc
some_segment-Ends (some (ok (s ∷ segments))) h = λ e. cc

parse_json_path-Ends : (path : Bytes) → Ends (parse_json_path path)
unfolding parse_json_path
parse_json_path-Ends [] = λ e. cc
parse_json_path-Ends (c ∷ rest) = elim (Bool-cases (c == b'$')) [
  | inl e ↦ rw e (some_segment-Ends _ (parse_steps-Ends (length rest) rest (omega arith)))
  | inr e ↦ rw e (λ f. cc)
]

result_of : (l : Loop) → Ends l → (r : Result PathError (List PathSegment)) × (l ≡ some r)
result_of none h = absurd (h refl)
result_of (some r) h = (r, refl)

-- The loop that parses a path ends on every text, with the segments or an error; its turns are no
-- more than the bytes after the first.
pub parse_json_path_ends :
    (path : Bytes) → (r : Result PathError (List PathSegment)) × (parse_json_path path ≡ some r)
parse_json_path_ends path = result_of (parse_json_path path) (parse_json_path-Ends path)

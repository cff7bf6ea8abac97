-- ===== src/Probe/JsonPath/Notation.antt =====
-- The notations of a path and what parseJSONPath reads them as (internal/probe/check/jsonpath.go).
use mathlib.Core.List.{append_assoc}
use uptime_cairn.Base.{
  ℕ, zero, suc, ◌<◌, ◌≤◌, ◌^◌, ◌≡◌, ◌≢◌, refl, ap, ◌∙◌, ◌⊎◌, Bool, false, if◌then◌else◌, List, [],
  ◌∷◌, ◌++◌, none, some, All, length, ◌==◌, arith, inl, inr, All-mono, length-append,
}
use uptime_cairn.Base.Bytes.{Bytes}
use uptime_cairn.Base.Decimal.{itoa, atoi-itoa, itoa-IsDigit, IsDigit}
use uptime_cairn.Base.Text.{cut, cut-append}
use uptime_cairn.Base.Result.{ok, err}
use uptime_cairn.Probe.JsonPath.{
  PathSegment, key_segment, index_segment, before_step, contains_any, is_one_of, refused_in_names,
  plain_field, dotted, with_rest, index_of, segment_of, drop_last, unquoted, bracketed, next_step,
  add_segment, after_step, parse_steps, some_segment, parse_json_path, recursive_descent, dot,
  open_bracket, close_bracket,
}

-- A byte of a name that may follow a dot.
pub record IsPlain (c : ℕ) : Type 0 where
  pub not_dot : c ≢ dot
  pub not_bracket : c ≢ open_bracket
  pub allowed : is_one_of refused_in_names c ≡ false

-- A text that selects a segment: `.name`, `['name']` or `["name"]`, `[12]`.
pub data Writes (s : PathSegment) (text : Bytes) : Type 0 where
  after_dot :
      (c : ℕ) (name : Bytes)
      → All IsPlain (c ∷ name)
      → s ≡ key_segment (c ∷ name)
      → text ≡ dot ∷ c ∷ name
      → Writes s text
  in_quotes :
      (q : ℕ) (name : Bytes)
      → (q ≡ 39) ⊎ (q ≡ 34)
      → All (λ c. c ≢ close_bracket) name
      → s ≡ key_segment name
      → text ≡ open_bracket ∷ ((q ∷ (name ++ q ∷ [])) ++ close_bracket ∷ [])
      → Writes s text
  in_brackets :
      (n : ℕ)
      → n < 2 ^ 63
      → s ≡ index_segment n
      → text ≡ open_bracket ∷ (itoa n ++ close_bracket ∷ [])
      → Writes s text

-- A path's text after its `$`.
pub data WritesAll : List PathSegment → Bytes → Type 0 where
  done : WritesAll [] []
  segment :
      {s : PathSegment} {segments : List PathSegment} {text rest whole : Bytes}
      → Writes s text
      → WritesAll segments rest
      → whole ≡ text ++ rest
      → WritesAll (s ∷ segments) whole

-- The end, or the start of a step.
abbrev AtStep : Bytes → Type 0
AtStep [] = Unit
AtStep (c ∷ rest) = (c ≡ dot) ⊎ (c ≡ open_bracket)

before_step-append :
    (name rest : Bytes) → All IsPlain name → AtStep rest → before_step (name ++ rest) ≡ (name, rest)
unfolding before_step
before_step-append [] [] h at = refl
before_step-append [] (c ∷ rest) h at = ground arith
before_step-append (c ∷ name) rest (p, h) at =
    let d : c ≢ dot = p.not_dot in
    let b : c ≢ open_bracket = p.not_bracket in
    rw (before_step-append name rest h at) (ground arith)

contains_any-IsPlain :
    (name : Bytes) → All IsPlain name → contains_any name refused_in_names ≡ false
unfolding contains_any
contains_any-IsPlain [] h = refl
contains_any-IsPlain (c ∷ rest) (p, h) = rw (p.allowed, contains_any-IsPlain rest h) refl

dotted-IsPlain :
    (c : ℕ) (name rest : Bytes)
    → All IsPlain (c ∷ name)
    → AtStep rest
    → dotted ((c ∷ name) ++ rest) ≡ ok (key_segment (c ∷ name), rest)
unfolding dotted plain_field
dotted-IsPlain c name rest (p, h) at =
    let d : c ≢ dot = p.not_dot in
    ap
      (λ (b : Bool).
        if b then err recursive_descent else plain_field (before_step ((c ∷ name) ++ rest)))
      {x = c == dot} {y = false} (ground arith)
    ∙ ap plain_field (before_step-append (c ∷ name) rest (p, h) at)
    ∙ rw (contains_any-IsPlain (c ∷ name) (p, h)) refl

drop_last-append : (q : ℕ) (name : Bytes) → drop_last q (name ++ q ∷ []) ≡ some name
unfolding drop_last
drop_last-append q [] = ground arith
drop_last-append q (c ∷ []) = ground arith
drop_last-append q (c ∷ d ∷ rest) = rw (drop_last-append q (d ∷ rest)) refl

unquoted-quotes :
    (q : ℕ) (name : Bytes) → (q ≡ 39) ⊎ (q ≡ 34) → unquoted (q ∷ (name ++ q ∷ [])) ≡ some name
unfolding unquoted
unquoted-quotes q name h = ground (arith, drop_last-append q name)

unquoted_digits : (b : Bytes) → All IsDigit b → unquoted b ≡ none
unfolding unquoted
unquoted_digits [] h = refl
unquoted_digits (c ∷ rest) ((low, high), h) = ground arith

segment_of-itoa :
    (n : ℕ) → n < 2 ^ 63 → segment_of (itoa n) (unquoted (itoa n)) ≡ ok (index_segment n)
unfolding segment_of index_of
segment_of-itoa n h = rw (unquoted_digits (itoa n) (itoa-IsDigit n), atoi-itoa n h) refl

-- What follows the opening bracket, up to the closing one.
bracketed_text :
    (inner rest : Bytes) (s : PathSegment)
    → All (λ c. c ≢ close_bracket) inner
    → segment_of inner (unquoted inner) ≡ ok s
    → bracketed (cut (inner ++ close_bracket ∷ rest) close_bracket) ≡ ok (s, rest)
unfolding bracketed with_rest
bracketed_text inner rest s h e = rw (cut-append inner close_bracket rest h, e) refl

-- One turn of the loop reads one segment.
record Read (s : PathSegment) (text rest : Bytes) : Type 0 where
  first : ℕ
  others : Bytes
  starts : text ++ rest ≡ first ∷ others
  step : next_step first others ≡ ok (s, rest)

-- A text in brackets.
Read-bracketed :
    (inner rest : Bytes) (s : PathSegment)
    → All (λ c. c ≢ close_bracket) inner
    → segment_of inner (unquoted inner) ≡ ok s
    → Read s (open_bracket ∷ (inner ++ close_bracket ∷ [])) rest
unfolding next_step
Read-bracketed inner rest s h e = record {
  first = open_bracket;
  others = inner ++ close_bracket ∷ rest;
  starts = ap (λ (b : Bytes). open_bracket ∷ b) (append_assoc inner (close_bracket ∷ []) rest);
  step = bracketed_text inner rest s h e;
}

quoted_bytes :
    (q : ℕ) (name : Bytes)
    → (q ≡ 39) ⊎ (q ≡ 34)
    → All (λ c. c ≢ close_bracket) name
    → All (λ c. c ≢ close_bracket) (name ++ q ∷ [])
quoted_bytes q [] h all = (λ e. ground arith, tt)
quoted_bytes q (c ∷ rest) h (d, all) = (d, quoted_bytes q rest h all)

Read-text : (s : PathSegment) (text rest : Bytes) → Writes s text → AtStep rest → Read s text rest
unfolding next_step segment_of
Read-text s text rest (after_dot c name h e t) at =
    rw (e, t)
      (record {
        first = dot;
        others = (c ∷ name) ++ rest;
        starts = refl;
        step = dotted-IsPlain c name rest h at;
      })
Read-text s text rest (in_quotes q name quote h e t) at =
    rw (e, t)
      (Read-bracketed (q ∷ (name ++ q ∷ [])) rest (key_segment name)
        ((λ x. ground arith), quoted_bytes q name quote h) (rw (unquoted-quotes q name quote) refl))
Read-text s text rest (in_brackets n bound e t) at =
    rw (e, t)
      (Read-bracketed (itoa n) rest (index_segment n)
        (All-mono (itoa n) (λ c d x. omega (arith, d)) (itoa-IsDigit n)) (segment_of-itoa n bound))

starts_at : (s : PathSegment) (text rest : Bytes) → Writes s text → AtStep (text ++ rest)
starts_at s text rest (after_dot c name h e t) = rw t (inl refl)
starts_at s text rest (in_quotes q name quote h e t) = rw t (inr refl)
starts_at s text rest (in_brackets n bound e t) = rw t (inr refl)

WritesAll-AtStep :
    (segments : List PathSegment) (whole : Bytes) → WritesAll segments whole → AtStep whole
WritesAll-AtStep [] whole done = tt
WritesAll-AtStep (s ∷ segments) whole (segment {text = text} {rest = rest} w more e) =
    rw e (starts_at s text rest w)

Read-step :
    (fuel : ℕ) (whole rest : Bytes) (s : PathSegment) (segments : List PathSegment) (text : Bytes)
    → whole ≡ text ++ rest
    → Read s text rest
    → parse_steps fuel rest ≡ some (ok segments)
    → parse_steps (suc fuel) whole ≡ some (ok (s ∷ segments))
unfolding parse_steps after_step add_segment
Read-step fuel whole rest s segments text e r h = rw (e, r.starts, r.step, h) refl

length-Writes : (s : PathSegment) (text : Bytes) → Writes s text → 0 < length text
length-Writes s text (after_dot c name h e t) = omega (arith, ap length t)
length-Writes s text (in_quotes q name quote h e t) = omega (arith, ap length t)
length-Writes s text (in_brackets n bound e t) = omega (arith, ap length t)

rest_shorter :
    (s : PathSegment) (text rest whole : Bytes)
    → Writes s text
    → whole ≡ text ++ rest
    → length rest < length whole
rest_shorter s text rest whole w e =
    omega (arith, ap length e, length-append text rest, length-Writes s text w)

parse_steps-WritesAll :
    (fuel : ℕ) (segments : List PathSegment) (whole : Bytes)
    → WritesAll segments whole
    → length whole ≤ fuel
    → parse_steps fuel whole ≡ some (ok segments)
unfolding parse_steps
parse_steps-WritesAll fuel [] whole done h = refl
parse_steps-WritesAll zero (s ∷ segments) whole (segment {text = text} {rest = rest} w more e) h =
    absurd (omega (arith, rest_shorter s text rest whole w e))
parse_steps-WritesAll (suc fuel) (s ∷ segments) whole (segment {text = text} {rest = rest} w more e)
      h =
    Read-step fuel whole rest s segments text e
      (Read-text s text rest w (WritesAll-AtStep segments rest more))
      (parse_steps-WritesAll fuel segments rest more
        (omega (arith, rest_shorter s text rest whole w e)))

some_segment-WritesAll :
    (segments : List PathSegment)
    → segments ≢ []
    → some_segment (some (ok segments)) ≡ some (ok segments)
unfolding some_segment
some_segment-WritesAll [] h = absurd (h refl)
some_segment-WritesAll (s ∷ segments) h = refl

-- A path that writes a non-empty list of segments, each as `.name` with a plain name, as a quoted
-- name in brackets or as an index below 2 ^ 63 in brackets, is read back as these segments.
pub parse_json_path-WritesAll :
    (segments : List PathSegment) (text : Bytes)
    → WritesAll segments text
    → segments ≢ []
    → parse_json_path (b'$' ∷ text) ≡ some (ok segments)
unfolding parse_json_path
parse_json_path-WritesAll segments text w ne =
    rw (parse_steps-WritesAll (length text) segments text w (omega arith))
      (some_segment-WritesAll segments ne)

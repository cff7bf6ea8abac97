-- ===== src/Probe/JsonPath.antt =====
-- internal/probe/check/jsonpath.go: the paths and assertions on a JSON response. Each turn of the loop of
-- parseJSONPath costs a unit of fuel; `none` is a run that has none left.
mod Termination
mod Notation
mod Tests
pub mod Assertion
use uptime_cairn.Base.{
  ℕ, zero, suc, ◌+◌, Bool, true, false, ◌&&◌, ◌||◌, List, [], ◌∷◌, ◌++◌, Option, none, some,
  if◌then◌else◌, ◌==◌, length,
}
use uptime_cairn.Base.Int.{ℤ, pos, negsuc}
use uptime_cairn.Base.Bytes.{Bytes, codes}
use uptime_cairn.Base.Decimal.{atoi}
use uptime_cairn.Base.Text.{cut}
use uptime_cairn.Base.Result.{Result, ok, err, ◌>>=◌}

-- A field has a name and an array index has a number; the other part is zero.
pub record PathSegment : Type 0 where
  pub name : Bytes
  pub index : ℕ
  pub is_key : Bool

abbrev pub key_segment : Bytes → PathSegment
key_segment name = record { name = name; index = 0; is_key = true }

abbrev pub index_segment : ℕ → PathSegment
index_segment i = record { name = []; index = i; is_key = false }

pub data PathError : Type 0 where
  path_required no_root recursive_descent empty_field_name not_plain unclosed whole_document :
      PathError
  bad_index : Bytes → PathError
  expected_step : Bytes → PathError

abbrev dot : ℕ
dot = 46

abbrev open_bracket : ℕ
open_bracket = 91

abbrev close_bracket : ℕ
close_bracket = 93

-- The cut at strings.IndexAny(rest, ".[").
pub before_step : Bytes → Bytes × Bytes
before_step [] = ([], [])
before_step (c ∷ rest) =
    let (name, after) = before_step rest in
    if c == dot || c == open_bracket then ([], c ∷ rest) else (c ∷ name, after)

pub is_one_of : Bytes → ℕ → Bool
is_one_of [] c = false
is_one_of (d ∷ rest) c = c == d || is_one_of rest c

-- strings.ContainsAny(name, "*?()@,:").
pub contains_any : Bytes → Bytes → Bool
unfolding is_one_of
contains_any [] set = false
contains_any (c ∷ rest) set = is_one_of set c || contains_any rest set

abbrev pub refused_in_names : Bytes
refused_in_names = codes "*?()@,:"

-- A step of the path, and what is left of it.
abbrev Step : Type 0
Step = Result PathError (PathSegment × Bytes)

plain_field : Bytes × Bytes → Step
unfolding contains_any
plain_field ([], after) = err empty_field_name
plain_field (c ∷ name, after) =
    if contains_any (c ∷ name) refused_in_names
    then err not_plain
    else ok (key_segment (c ∷ name), after)

-- After a dot.
dotted : Bytes → Step
unfolding plain_field before_step
dotted [] = err empty_field_name
dotted (c ∷ rest) = if c == dot then err recursive_descent else plain_field (before_step (c ∷ rest))

-- The last byte is the given one: what stands before it.
pub drop_last : ℕ → Bytes → Option Bytes
drop_last q [] = none
drop_last q (c ∷ []) = if c == q then some [] else none
drop_last q (c ∷ next ∷ rest) = elim (drop_last q (next ∷ rest)) [
  | none ↦ none
  | some name ↦ some (c ∷ name)
]

-- A name between two equal quotes.
pub unquoted : Bytes → Option Bytes
unfolding drop_last
unquoted [] = none
unquoted (q ∷ rest) = if q == 39 || q == 34 then drop_last q rest else none

index_of : Bytes → Option ℤ → Result PathError PathSegment
index_of inner none = err (bad_index inner)
index_of inner (some (negsuc n)) = err (bad_index inner)
index_of inner (some (pos n)) = ok (index_segment n)

segment_of : Bytes → Option Bytes → Result PathError PathSegment
unfolding index_of atoi
segment_of inner (some name) = ok (key_segment name)
segment_of inner none = index_of inner (atoi inner)

with_rest : Bytes → Result PathError PathSegment → Step
with_rest after (ok s) = ok (s, after)
with_rest after (err e) = err e

-- After an opening bracket.
bracketed : Option (Bytes × Bytes) → Step
unfolding with_rest segment_of unquoted
bracketed none = err unclosed
bracketed (some (inner, after)) = with_rest after (segment_of inner (unquoted inner))

-- The body of the loop, on a rest that is not empty.
pub next_step : ℕ → Bytes → Step
unfolding dotted bracketed cut
next_step c rest =
    if c == dot
    then dotted rest
    else if c == open_bracket
    then bracketed (cut rest close_bracket)
    else err (expected_step (c ∷ rest))

-- A loop's result, where it ends.
abbrev pub Loop : Type 0
Loop = Option (Result PathError (List PathSegment))

add_segment : PathSegment → Loop → Loop
add_segment s none = none
add_segment s (some (ok segments)) = some (ok (s ∷ segments))
add_segment s (some (err e)) = some (err e)

after_step : (Bytes → Loop) → Step → Loop
unfolding add_segment
after_step more (ok (s, rest)) = add_segment s (more rest)
after_step more (err e) = some (err e)

pub parse_steps : ℕ → Bytes → Loop
unfolding after_step next_step
parse_steps fuel [] = some (ok [])
parse_steps zero (c ∷ rest) = none
parse_steps (suc fuel) (c ∷ rest) = after_step (parse_steps fuel) (next_step c rest)

some_segment : Loop → Loop
some_segment none = none
some_segment (some (err e)) = some (err e)
some_segment (some (ok [])) = some (err whole_document)
some_segment (some (ok (s ∷ segments))) = some (ok (s ∷ segments))

pub parse_json_path : Bytes → Loop
unfolding some_segment parse_steps
parse_json_path [] = some (err path_required)
parse_json_path (c ∷ rest) =
    if c == b'$' then some_segment (parse_steps (length rest) rest) else some (err no_root)

-- ===== src/Probe/JsonPath/Assertion.antt =====
-- internal/probe/check/jsonpath.go: evaluate, assert and compare. What encoding/json decodes and what
-- strconv reads and prints of a float are parameters; a failure's message is its case here.
mod Opposites
mod Tests
use Prim.Native.Nat.{Ordering}
use uptime_cairn.Base.{
  ℕ, Bool, true, false, ◌&&◌, ◌||◌, List, [], ◌∷◌, Option, none, some, if◌then◌else◌, ◌==◌,
}
use uptime_cairn.Base.Bytes.{Bytes, codes, eqb, leb_bytes}
use uptime_cairn.Base.Result.{Result, ok, err}
use uptime_cairn.Probe.JsonPath.{PathSegment, PathError, parse_json_path}

-- What json.Unmarshal gives as `any`.
mutual
  pub data Json (Real : Type 0) : Type 0 where
    null : Json Real
    bool : Bool → Json Real
    number : Real → Json Real
    string : Bytes → Json Real
    array : Items Real → Json Real
    object : Members Real → Json Real

  pub data Items (Real : Type 0) : Type 0 where
    no_items : Items Real
    item : Json Real → Items Real → Items Real

  pub data Members (Real : Type 0) : Type 0 where
    no_members : Members Real
    member : Bytes → Json Real → Members Real → Members Real

pub data Operator : Type 0 where
  eq ne contains gt gte lt lte exists not_exists : Operator

pub record Assertion : Type 0 where
  pub segments : List PathSegment
  pub operator : Operator
  pub expected : Bytes
  pub raw_path : Bytes

-- The struct that the configuration decodes into.
pub record Spec : Type 0 where
  pub path : Bytes
  pub operator : Bytes
  pub expected : Option Bytes

pub data SpecError : Type 0 where
  bad_operator : Bytes → SpecError
  bad_path : PathError → SpecError
  expected_missing : Bytes → SpecError

-- The keys of jsonPathOperators.
pub operator_of : Bytes → Option Operator
operator_of s =
    if eqb s (codes "eq")
    then some eq
    else if eqb s (codes "ne")
    then some ne
    else if eqb s (codes "contains")
    then some contains
    else if eqb s (codes "gt")
    then some gt
    else if eqb s (codes "gte")
    then some gte
    else if eqb s (codes "lt")
    then some lt
    else if eqb s (codes "lte")
    then some lte
    else if eqb s (codes "exists")
    then some exists
    else if eqb s (codes "not_exists")
    then some not_exists
    else none

pub needs_expected : Operator → Bool
needs_expected exists = false
needs_expected not_exists = false
needs_expected _ = true

with_expected : Spec → Operator → List PathSegment → Option Bytes → Result SpecError Assertion
unfolding needs_expected
with_expected spec o segments (some text) =
    ok (record { segments = segments; operator = o; expected = text; raw_path = spec.path })
with_expected spec o segments none =
    if needs_expected o
    then err (expected_missing spec.operator)
    else ok (record { segments = segments; operator = o; expected = []; raw_path = spec.path })

-- After the path was parsed.
with_path :
    Spec
    → Operator
    → Option (Result PathError (List PathSegment))
    → Option (Result SpecError Assertion)
unfolding with_expected
with_path spec o none = none
with_path spec o (some (err e)) = some (err (bad_path e))
with_path spec o (some (ok segments)) = some (with_expected spec o segments spec.expected)

with_operator : Spec → Option Operator → Option (Result SpecError Assertion)
unfolding with_path parse_json_path
with_operator spec none = some (err (bad_operator spec.operator))
with_operator spec (some o) = with_path spec o (parse_json_path spec.path)

-- parseJSONPathAssertion, after the decoding.
pub parse_assertion : Spec → Option (Result SpecError Assertion)
unfolding with_operator operator_of
parse_assertion spec = with_operator spec (operator_of spec.operator)

module _ {Real : Type 0} where
  abbrev item_at : Items Real → ℕ → Option (Json Real)
  item_at no_items i = none
  item_at (item v rest) ℕ.zero = some v
  item_at (item v rest) (ℕ.suc i) = item_at rest i

  abbrev member_at : Members Real → Bytes → Option (Json Real)
  member_at no_members key = none
  member_at (member name v rest) key =
      let other = member_at rest key in if eqb name key then some v else other

  -- One segment of the walk: none is not found.
  field : Json Real → Bytes → Option (Json Real)
  field (object members) key = member_at members key
  field _ key = none

  element : Json Real → ℕ → Option (Json Real)
  element (array items) i = item_at items i
  element _ i = none

  select : Json Real → PathSegment → Option (Json Real)
  unfolding field element
  select v s = if s.is_key then field v s.name else element v s.index

  pub walk : List PathSegment → Option (Json Real) → Option (Json Real)
  unfolding select
  walk [] v = v
  walk (s ∷ rest) none = none
  walk (s ∷ rest) (some v) = walk rest (select v s)

-- strings.Contains.
has_prefix_of : Bytes → Bytes → Bool
has_prefix_of text [] = true
has_prefix_of [] (c ∷ part) = false
has_prefix_of (b ∷ text) (c ∷ part) = b == c && has_prefix_of text part

includes : Bytes → Bytes → Bool
unfolding has_prefix_of
includes [] part = has_prefix_of [] part
includes (b ∷ text) part = has_prefix_of (b ∷ text) part || includes text part

-- strings.Compare.
compare_bytes : Bytes → Bytes → Ordering
compare_bytes a b =
    if eqb a b then Ordering.eq else if leb_bytes a b then Ordering.lt else Ordering.gt

-- Whether an ordered operator accepts an ordering.
pub accepts : Operator → Ordering → Bool
accepts gt Ordering.gt = true
accepts gte Ordering.gt = true
accepts gte Ordering.eq = true
accepts lt Ordering.lt = true
accepts lte Ordering.lt = true
accepts lte Ordering.eq = true
accepts _ _ = false

pub data Failure : Type 0 where
  not_json not_present present : Failure
  differs : Bytes → Failure

-- json.Unmarshal, strconv.ParseFloat, the `<` of floats, strconv.FormatFloat and json.Marshal.
pub record Floats (Real : Type 0) : Type 0 where
  pub decode : Bytes → Option (Json Real)
  pub parse_float : Bytes → Option Real
  pub less : Real → Real → Bool
  pub format_float : Real → Bytes
  pub marshal : Json Real → Bytes

module _ {Real : Type 0} (lib : Floats Real) where
  -- renderJSONValue.
  pub render : Json Real → Bytes
  render null = codes "null"
  render (string s) = s
  render (bool true) = codes "true"
  render (bool false) = codes "false"
  render (number x) = lib.format_float x
  render v = lib.marshal v

  ordering_of : Bytes → Bytes → Option Real → Option Real → Ordering
  unfolding compare_bytes
  ordering_of got expected (some x) (some y) =
      if lib.less x y then Ordering.lt else if lib.less y x then Ordering.gt else Ordering.eq
  ordering_of got expected _ _ = compare_bytes got expected

  compare_values : Operator → Bytes → Bytes → Option Failure
  unfolding ordering_of accepts
  compare_values o expected got =
      if accepts o (ordering_of got expected (lib.parse_float got) (lib.parse_float expected))
      then none
      else some (differs got)

  check : Operator → Bytes → Bytes → Option Failure
  unfolding includes compare_values
  check eq expected got = if eqb got expected then none else some (differs got)
  check ne expected got = if eqb got expected then some (differs got) else none
  check contains expected got = if includes got expected then none else some (differs got)
  check o expected got = compare_values o expected got

  judge : Operator → Bytes → Option (Json Real) → Option Failure
  unfolding check render
  judge exists expected none = some not_present
  judge exists expected (some v) = none
  judge not_exists expected none = none
  judge not_exists expected (some v) = some present
  judge o expected none = some not_present
  judge o expected (some v) = check o expected (render v)

  judge_body : Assertion → Option (Json Real) → Option Failure
  unfolding judge walk
  judge_body a none = some not_json
  judge_body a (some document) = judge a.operator a.expected (walk a.segments (some document))

  -- `none` where the assertion holds.
  pub assert : Assertion → Bytes → Option Failure
  unfolding judge_body
  assert a body = judge_body a (lib.decode body)

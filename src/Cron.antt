-- ===== src/Cron.antt =====
-- internal/cron/cron.go: five-field cron expressions. A set of values is the list of them, in the order
-- in which they are added; Go's int is ℤ, and the step of a field wraps around at 64 bits.
pub mod Fields
mod Tests
pub mod Firings
pub mod Keys
use uptime_cairn.Base.{
  ℕ, zero, suc, ◌+◌, ◌-◌, ◌^◌, Bool, true, false, not, ◌&&◌, ◌||◌, List, [], ◌∷◌, ◌++◌, Option,
  none, some, length, if◌then◌else◌, ltb, ◌==◌,
}
use uptime_cairn.Base.Int.{ℤ, pos, negsuc, ◌+ℤ◌, ◌-ℤ◌, leb_ℤ, ltb_ℤ, eqb_ℤ}
use uptime_cairn.Base.Bytes.{Bytes, eqb}
use uptime_cairn.Base.Decimal.{atoi}
use uptime_cairn.Base.Text.{trim_space, split, fields, cut, has_prefix}
use uptime_cairn.Model.{Instant}

pub record Expression : Type 0 where
  pub minutes : List ℤ
  pub hours : List ℤ
  pub doms : List ℤ
  pub months : List ℤ
  pub dows : List ℤ
  pub dom_restricted : Bool
  pub dow_restricted : Bool

pub data FieldName : Type 0 where
  minute hour day_of_month month day_of_week : FieldName

pub data CronError : Type 0 where
  field_count : ℕ → CronError
  alias : CronError
  empty_field : FieldName → CronError
  bad_step : FieldName → Bytes → CronError
  not_a_number : FieldName → Bytes → CronError
  outside : FieldName → Bytes → CronError
  matches_nothing : FieldName → CronError

pub data Result (A : Type 0) : Type 0 where
  ok : A → Result A
  err : CronError → Result A

-- int64 addition.
unfoldable pub add_64 : ℤ → ℤ → ℤ
unfolding ◌+ℤ◌ ◌-ℤ◌
add_64 a b = let s = a +ℤ b in if leb_ℤ (pos (2 ^ 63)) s then s -ℤ pos (2 ^ 64) else s

-- The loop over the values of a range. `fuel` bounds its turns.
pub expand : ℕ → ℤ → ℤ → ℤ → List ℤ
unfolding add_64
expand zero value end step = []
expand (suc fuel) value end step =
    let rest = expand fuel (add_64 value step) end step in
    if leb_ℤ value end then value ∷ rest else []

-- The turns that are enough for the widest field, 0-59, at every step.
abbrev pub expand_fuel : ℕ
expand_fuel = 130

pub record Part : Type 0 where
  pub start : ℤ
  pub end : ℤ
  pub step : ℤ
  pub restricted : Bool

-- The `/step` of a part: what stands before it, and the step.
step_value : FieldName → Bytes → Bytes → Option ℤ → Result (Bytes × ℤ)
step_value name base text none = err (bad_step name text)
step_value name base text (some n) =
    if ltb_ℤ n (pos 1) then err (bad_step name text) else ok (base, n)

cut_step : FieldName → Bytes → Option (Bytes × Bytes) → Result (Bytes × ℤ)
unfolding step_value atoi
cut_step name part none = ok (part, pos 1)
cut_step name part (some (base, text)) = step_value name base text (atoi text)

-- The end of a part that is a number or a range.
range_end : FieldName → ℤ → ℤ → ℤ → Bytes → Option ℤ → Result Part
range_end name start high step last none = err (not_a_number name last)
range_end name start high step last (some end) =
    ok (record { start = start; end = end; step = step; restricted = true })

after_start : FieldName → ℤ → ℤ → Option Bytes → Bytes → Option ℤ → Result Part
unfolding range_end atoi trim_space
after_start name high step last first none = err (not_a_number name first)
after_start name high step (some last) first (some start) =
    range_end name start high step last (atoi (trim_space last))
after_start name high step none first (some start) = ok (record {
  start = start;
  end = if ltb_ℤ (pos 1) step then high else start;
  step = step;
  restricted = true;
})

bare_or_range : FieldName → ℤ → ℤ → Bytes → Option (Bytes × Bytes) → Result Part
unfolding after_start atoi trim_space
bare_or_range name high step part none =
    after_start name high step none part (atoi (trim_space part))
bare_or_range name high step part (some (first, last)) =
    after_start name high step (some last) first (atoi (trim_space first))

abbrev star : ℕ
star = 42

range_of : FieldName → ℤ → ℤ → Bytes → ℤ → Result Part
unfolding bare_or_range cut eqb
range_of name low high part step =
    let other = bare_or_range name high step part (cut part 45) in
    if eqb part (star ∷ [])
    then ok (record { start = low; end = high; step = step; restricted = ltb_ℤ (pos 1) step })
    else other

in_bounds : FieldName → ℤ → ℤ → Bytes → Result Part → Result Part
in_bounds name low high text (err e) = err e
in_bounds name low high text (ok p) =
    if ltb_ℤ p.start low || ltb_ℤ high p.end || ltb_ℤ p.end p.start
    then err (outside name text)
    else ok p

with_step : FieldName → ℤ → ℤ → Result (Bytes × ℤ) → Result Part
unfolding range_of in_bounds
with_step name low high (err e) = err e
with_step name low high (ok (text, step)) =
    in_bounds name low high text (range_of name low high text step)

-- One part, between commas.
pub parse_part : FieldName → ℤ → ℤ → Bytes → Result Part
unfolding with_step cut_step cut trim_space eqb
parse_part name low high text =
    let part = trim_space text in
    let parsed = with_step name low high (cut_step name part (cut part 47)) in
    if eqb part [] then err (empty_field name) else parsed

-- A field: the values so far and whether any part restricts it.
add_part : Result Part → List ℤ × Bool → Result (List ℤ × Bool)
unfolding expand
add_part (err e) (set, restricted) = err e
add_part (ok p) (set, restricted) =
    ok (set ++ expand expand_fuel p.start p.end p.step, restricted || p.restricted)

next_part :
    (List ℤ × Bool → Result (List ℤ × Bool)) → Result (List ℤ × Bool) → Result (List ℤ × Bool)
next_part go (err e) = err e
next_part go (ok acc) = go acc

parse_parts : FieldName → ℤ → ℤ → List Bytes → List ℤ × Bool → Result (List ℤ × Bool)
unfolding parse_part add_part next_part
parse_parts name low high [] acc = ok acc
parse_parts name low high (text ∷ rest) acc =
    next_part (parse_parts name low high rest) (add_part (parse_part name low high text) acc)

non_empty_set : FieldName → Result (List ℤ × Bool) → Result (List ℤ × Bool)
non_empty_set name (err e) = err e
non_empty_set name (ok ([], restricted)) = err (matches_nothing name)
non_empty_set name (ok (v ∷ set, restricted)) = ok (v ∷ set, restricted)

parse_field : Bytes → ℤ → ℤ → FieldName → Result (List ℤ × Bool)
unfolding parse_parts non_empty_set split
parse_field field low high name =
    non_empty_set name (parse_parts name low high (split field 44) ([], false))

-- The five fields, in order; the first error is the answer.
with_dows : List ℤ → List ℤ → List ℤ × Bool → List ℤ → Result (List ℤ × Bool) → Result Expression
with_dows minutes hours doms months (err e) = err e
with_dows minutes hours doms months (ok dows) = ok (record {
  minutes = minutes;
  hours = hours;
  doms = doms.0;
  months = months;
  dows = dows.0;
  dom_restricted = doms.1;
  dow_restricted = dows.1;
})

with_months : Bytes → List ℤ → List ℤ → List ℤ × Bool → Result (List ℤ × Bool) → Result Expression
unfolding with_dows parse_field
with_months dow minutes hours doms (err e) = err e
with_months dow minutes hours doms (ok months) =
    with_dows minutes hours doms months.0 (parse_field dow (pos 0) (pos 6) day_of_week)

with_doms : Bytes → Bytes → List ℤ → List ℤ → Result (List ℤ × Bool) → Result Expression
unfolding with_months parse_field
with_doms mon dow minutes hours (err e) = err e
with_doms mon dow minutes hours (ok doms) =
    with_months dow minutes hours doms (parse_field mon (pos 1) (pos 12) month)

with_hours : Bytes → Bytes → Bytes → List ℤ → Result (List ℤ × Bool) → Result Expression
unfolding with_doms parse_field
with_hours dom mon dow minutes (err e) = err e
with_hours dom mon dow minutes (ok hours) =
    with_doms mon dow minutes hours.0 (parse_field dom (pos 1) (pos 31) day_of_month)

with_minutes : Bytes → Bytes → Bytes → Bytes → Result (List ℤ × Bool) → Result Expression
unfolding with_hours parse_field
with_minutes hr dom mon dow (err e) = err e
with_minutes hr dom mon dow (ok minutes) =
    with_hours dom mon dow minutes.0 (parse_field hr (pos 0) (pos 23) hour)

abbrev at_sign : ℕ
at_sign = 64

five_fields : Bytes → List Bytes → Result Expression
unfolding with_minutes parse_field has_prefix trim_space
five_fields text (m ∷ hr ∷ dom ∷ mon ∷ dow ∷ []) =
    let parsed = with_minutes hr dom mon dow (parse_field m (pos 0) (pos 59) minute) in
    if has_prefix (trim_space text) at_sign then err alias else parsed
five_fields text other = err (field_count (length other))

unfoldable pub parse : Bytes → Result Expression
unfolding five_fields fields
parse text = five_fields text (fields text)

unfoldable pub member : ℤ → List ℤ → Bool
member v [] = false
member v (x ∷ rest) = eqb_ℤ x v || member v rest

-- A day, as the calendar reads it.
pub record Day : Type 0 where
  pub year : ℤ
  pub month : ℤ
  pub day : ℤ
  pub weekday : ℤ

unfoldable pub matches_day : Expression → Day → Bool
unfolding member
matches_day e d =
    if not (member d.month e.months)
    then false
    else (if e.dom_restricted
        then (if e.dow_restricted
            then member d.day e.doms || member d.weekday e.dows
            else member d.day e.doms)
        else (if e.dow_restricted then member d.weekday e.dows else true))

-- The keys of a set, each once, in ascending order.
insert_key : ℤ → List ℤ → List ℤ
insert_key v [] = v ∷ []
insert_key v (x ∷ rest) =
    let later = insert_key v rest in
    if eqb_ℤ v x then x ∷ rest else (if ltb_ℤ v x then v ∷ x ∷ rest else x ∷ later)

unfoldable pub sorted_keys : List ℤ → List ℤ
unfolding insert_key
sorted_keys [] = []
sorted_keys (v ∷ rest) = insert_key v (sorted_keys rest)

-- time.Date and Time.Date in a location, which stands on the zone's data: the instant of a wall clock
-- time, with days, hours and minutes out of their range carried over, and the day of an instant.
pub record Calendar : Type 0 where
  pub date : ℤ → ℤ → ℤ → ℤ → ℤ → Instant
  pub day_of : Instant → Day

abbrev pub lookahead_days : ℕ
lookahead_days = 1500

first_minute : Calendar → Instant → ℤ → ℤ → ℤ → ℤ → List ℤ → Option Instant
first_minute cal after year mon day hr [] = none
first_minute cal after year mon day hr (m ∷ rest) =
    let at = cal.date year mon day hr m in
    let later = first_minute cal after year mon day hr rest in
    if ltb_ℤ after at then some at else later

or_else : Option Instant → Option Instant → Option Instant
or_else none other = other
or_else (some at) other = some at

first_time : Calendar → Instant → ℤ → ℤ → ℤ → List ℤ → List ℤ → Option Instant
unfolding first_minute or_else
first_time cal after year mon day [] minutes = none
first_time cal after year mon day (hr ∷ hours) minutes =
    or_else (first_minute cal after year mon day hr minutes)
      (first_time cal after year mon day hours minutes)

-- `left` days more are looked at.
pub search : ℕ → Expression → Calendar → Instant → ℤ → ℤ → ℤ → List ℤ → List ℤ → Option Instant
unfolding matches_day first_time or_else ◌+ℤ◌
search zero e cal after year mon day hours minutes = none
search (suc left) e cal after year mon day hours minutes =
    let start = cal.day_of (cal.date year mon day (pos 0) (pos 0)) in
    let later = search left e cal after start.year start.month (start.day +ℤ pos 1) hours minutes in
    if matches_day e start
    then or_else (first_time cal after year mon day hours minutes) later
    else later

unfoldable pub next : Expression → Calendar → Instant → Option Instant
unfolding search sorted_keys
next e cal after =
    let local = cal.day_of after in
    search lookahead_days e cal after local.year local.month local.day (sorted_keys e.hours)
      (sorted_keys e.minutes)

-- ===== src/Maintenance/Occurrences.antt =====
-- What Next answers for a recurring window, and which occurrences it can answer
-- (internal/maintenance/schedule.go).
use uptime_cairn.Base.{
  ℕ, zero, suc, ◌≡◌, refl, ◌⊎◌, Bool, true, false, List, [], ◌∷◌, Option, none, some, arith,
  Bool-cases, ap, sym, ◌∙◌, inl, inr, if◌then◌else◌,
}
use uptime_cairn.Base.Int.{pos, negsuc, ◌+ℤ◌, ◌≤ℤ◌, ◌<ℤ◌, ltb_ℤ, +ℤ_parts, eq_of_parts}
use uptime_cairn.Base.Bytes.{eqb}
use uptime_cairn.Base.Result.{ok, err, went, went_on, ok_injective}
use uptime_cairn.Model.{Instant}
use uptime_cairn.Cron.{Day}
use uptime_cairn.Maintenance.{
  MaintenanceWindow, Locations, Location, Clock, Occurrence, Turn, go_on, stop, found, covers,
  covered, zone, day_matcher, start_times, past_until, try_start, or_later, start_on, try_clocks,
  try_days, lookahead_days, first_day, recurring, in_zone, unless_cancelled, next, active_at,
  strategy_single, needs_duration,
}

pub data IsIn (c : Clock) : List Clock → Type 0 where
  here : {rest : List Clock} → IsIn c (c ∷ rest)
  there : {d : Clock} {rest : List Clock} → IsIn c rest → IsIn c (d ∷ rest)

-- A start that the loop looks at: a time of day of the window, on a matching day from the given one on.
pub record Start (location : Location) (matches : Day → Bool) (starts : List Clock)
    (day start : Instant) : Type 0 where
  pub after_days : ℕ
  pub clock : Clock
  pub is_time : IsIn clock starts
  pub on_day : matches (location.calendar.day_of (location.add_days day (pos after_days))) ≡ true
  pub is_start :
      start
      ≡ start_on location (location.calendar.day_of (location.add_days day (pos after_days))) clock

-- What an answered occurrence is beside that.
pub record Fits (w : MaintenanceWindow) (after : Instant) (o : Occurrence) : Type 0 where
  pub anchored : w.starts_at ≤ℤ o.start
  pub in_time : past_until w.recurrence.until o.start ≡ false
  pub lasts : o.end ≡ o.start +ℤ w.duration
  pub unfinished : after <ℤ o.end

try_start-Fits :
    (w : MaintenanceWindow) (after start : Instant) (o : Occurrence)
    → try_start w after start ≡ found o
    → Fits w after o × (o.start ≡ start)
unfolding try_start
try_start-Fits w after start o h = elim (Bool-cases (ltb_ℤ start w.starts_at)) [
  | inl e ↦ absurd (let h' : go_on ≡ found o = simp e at h in cc)
  | inr e ↦ elim (Bool-cases (past_until w.recurrence.until start)) [
    | inl f ↦ absurd (let h' : stop ≡ found o = simp (e, f) at h in cc)
    | inr f ↦ elim (Bool-cases (ltb_ℤ after (start +ℤ w.duration))) [
      | inl g ↦
          let h' : found (record { start = start; end = start +ℤ w.duration }) ≡ found o =
            simp (e, f, g) at h in
          let same : record { start = start; end = start +ℤ w.duration } ≡ o = cc in
          rw (← same) (
            record {
              anchored = ground arith;
              in_time = f;
              lasts = refl;
              unfinished = ground arith;
            },
            refl,
          )
      | inr g ↦ absurd (let h' : go_on ≡ found o = simp (e, f, g) at h in cc)
    ]
  ]
]

or_later-some :
    (t : Turn) (later : Option Occurrence) (o : Occurrence)
    → or_later t later ≡ some o
    → (t ≡ found o) ⊎ (later ≡ some o)
unfolding or_later
or_later-some go_on later o h = inr h
or_later-some stop later o h = absurd (cc)
or_later-some (found p) later o h = inl (let same : p ≡ o = cc in rw same refl)

-- Found on this day, or later.
try_clocks_lem :
    (w : MaintenanceWindow) (after : Instant) (location : Location) (d : Day) (starts : List Clock)
    (later : Option Occurrence) (o : Occurrence)
    → try_clocks w after location d starts later ≡ some o
    → ((c : Clock) × IsIn c starts × (o.start ≡ start_on location d c) × Fits w after o)
      ⊎ (later ≡ some o)
unfolding try_clocks
try_clocks_lem w after location d [] later o h = inr h
try_clocks_lem w after location d (c ∷ rest) later o h =
    elim (or_later-some (try_start w after (start_on location d c)) _ o h) [
      | inl now ↦
          let (fits, is) = try_start-Fits w after (start_on location d c) o now in
          inl (c, here, is, fits)
      | inr then_on ↦ elim (try_clocks_lem w after location d rest later o then_on) [
        | inl (c', inside, is, fits) ↦ inl (c', there inside, is, fits)
        | inr beyond ↦ inr beyond
      ]
    ]

try_days_lem :
    (left : ℕ) (w : MaintenanceWindow) (after : Instant) (location : Location)
    (matches : Day → Bool) (starts : List Clock) (day : Instant) (i : ℕ) (o : Occurrence)
    → try_days left w after location matches starts day i ≡ some o
    → Start location matches starts day o.start × Fits w after o
unfolding try_days
try_days_lem zero w after location matches starts day i o h = absurd (cc)
try_days_lem (suc left) w after location matches starts day i o h =
    elim (Bool-cases (matches (location.calendar.day_of (location.add_days day (pos i))))) [
      | inl e ↦
          elim (try_clocks_lem w after location
            (location.calendar.day_of (location.add_days day (pos i))) starts _ o (simp e at h)) [
              | inl (c, inside, is, fits) ↦ (
                record { after_days = i; clock = c; is_time = inside; on_day = e; is_start = is },
                fits,
              )
              | inr later ↦ try_days_lem left w after location matches starts day (suc i) o later
            ]
      | inr e ↦ try_days_lem left w after location matches starts day (suc i) o (simp e at h)
    ]

-- What an occurrence of a recurring window is: in the zone that it names, at its days and its times.
pub record OccurrenceOf (ls : Locations) (w : MaintenanceWindow) (after : Instant) (o : Occurrence)
    : Type 0 where
  pub location : Location
  pub matches : Day → Bool
  pub starts : List Clock
  pub is_zone : zone ls w.timezone ≡ ok location
  pub is_matcher : day_matcher w ≡ ok matches
  pub is_times : start_times ls w ≡ ok starts
  pub start : Start location matches starts (first_day location w after) o.start
  pub fits : Fits w after o

recurring-OccurrenceOf :
    (ls : Locations) (w : MaintenanceWindow) (after : Instant) (location : Location)
    (o : Occurrence)
    → zone ls w.timezone ≡ ok location
    → recurring ls w after location ≡ ok (some o)
    → OccurrenceOf ls w after o
unfolding recurring
recurring-OccurrenceOf ls w after location o z h =
    let (matches, rest, m) = went_on _ (day_matcher w) h in
    let (starts, final, s) = went_on _ (start_times ls w) rest in
    let answer : try_days lookahead_days w after location matches starts
          (first_day location w after) 0
        ≡ some o =
      cc in
    let (start, fits) = try_days_lem lookahead_days w after location matches starts _ 0 o answer in
    record {
      location = location;
      matches = matches;
      starts = starts;
      is_zone = z;
      is_matcher = m;
      is_times = s;
      start = start;
      fits = fits;
    }

in_zone-OccurrenceOf :
    (ls : Locations) (w : MaintenanceWindow) (after : Instant) (location : Location)
    (o : Occurrence)
    → zone ls w.timezone ≡ ok location
    → eqb w.strategy strategy_single ≡ false
    → in_zone ls w after location ≡ ok (some o)
    → OccurrenceOf ls w after o
unfolding in_zone
in_zone-OccurrenceOf ls w after location o z recurs h =
    elim (Bool-cases (ltb_ℤ (pos 0) w.duration)) [
      | inl e ↦ recurring-OccurrenceOf ls w after location o z (simp (recurs, e) at h)
      | inr e ↦
          absurd
            (let h' : err (needs_duration w.strategy) ≡ ok (some o) = simp (recurs, e) at h in cc)
    ]

unless_cancelled-OccurrenceOf :
    (ls : Locations) (w : MaintenanceWindow) (after : Instant) (cancelled_at : Option Instant)
    (o : Occurrence)
    → eqb w.strategy strategy_single ≡ false
    → unless_cancelled ls w after cancelled_at ≡ ok (some o)
    → OccurrenceOf ls w after o
unfolding unless_cancelled
unless_cancelled-OccurrenceOf ls w after (some t) o recurs h = absurd (cc)
unless_cancelled-OccurrenceOf ls w after none o recurs h =
    let (location, rest, z) = went_on _ (zone ls w.timezone) h in
    in_zone-OccurrenceOf ls w after location o z recurs rest

-- What Next answers for a recurring window starts at a time of day of the window on a day that its
-- rule matches, in its zone, from the day before the instant or the anchor on, not before the
-- anchor and not past the end of the recurrence, lasts as long as the window says, and ends after
-- the instant asked about.
pub next-OccurrenceOf :
    (ls : Locations) (w : MaintenanceWindow) (after : Instant) (o : Occurrence)
    → eqb w.strategy strategy_single ≡ false
    → next ls w after ≡ ok (some o)
    → OccurrenceOf ls w after o
unfolding next
next-OccurrenceOf ls w after o recurs h =
    unless_cancelled-OccurrenceOf ls w after w.cancelled_at o recurs h

covered-some :
    (answer : Option Occurrence) (at : Instant)
    → covered answer at ≡ true
    → (o : Occurrence) × (answer ≡ some o) × (o.start ≤ℤ at)
unfolding covered covers
covered-some none at h = absurd (cc)
covered-some (some o) at h = (o, refl, ground arith)

-- Local midnight of the day before an instant.
abbrev pub midnight_before : Location → Instant → Instant
midnight_before location t =
    let day = location.calendar.day_of (location.add_days t (negsuc 0)) in
    location.calendar.date day.year day.month day.day (pos 0) (pos 0)

later_of-le : (a b : Instant) → a ≤ℤ b → (if ltb_ℤ a b then b else a) ≡ b
later_of-le a b h = elim (Bool-cases (ltb_ℤ a b)) [
  | inl e ↦ rw e refl
  | inr e ↦ rw e (eq_of_parts a b (ground arith))
]

-- For a window that has begun, the search starts there.
first_day-midnight_before :
    (location : Location) (w : MaintenanceWindow) (at : Instant)
    → w.starts_at ≤ℤ at
    → first_day location w at ≡ midnight_before location at
unfolding first_day
first_day-midnight_before location w at begun =
    ap (midnight_before location) (later_of-le w.starts_at at begun)

module _ (ls : Locations) (w : MaintenanceWindow) (at : Instant) (location : Location)
    (matches : Day → Bool) (starts : List Clock) (z : zone ls w.timezone ≡ ok location)
    (m : day_matcher w ≡ ok matches) (s : start_times ls w ≡ ok starts) where
  recurring-try_days :
      recurring ls w at location
      ≡ ok (try_days lookahead_days w at location matches starts (first_day location w at) 0)
  unfolding recurring
  recurring-try_days = went _ (day_matcher w) m ∙ went _ (start_times ls w) s

  in_zone-recurring :
      eqb w.strategy strategy_single ≡ false
      → ltb_ℤ (pos 0) w.duration ≡ true
      → in_zone ls w at location ≡ recurring ls w at location
  unfolding in_zone
  in_zone-recurring recurs lasts = simp (recurs, lasts) refl

  next-in_zone : w.cancelled_at ≡ none → next ls w at ≡ in_zone ls w at location
  unfolding next unless_cancelled
  next-in_zone live = ap (unless_cancelled ls w at) live ∙ went _ (zone ls w.timezone) z

  -- Starts after the instant, from the day before it on, leave nothing that covers it.
  next_uncovered :
      (answer : Option Occurrence)
      → eqb w.strategy strategy_single ≡ false
      → w.starts_at ≤ℤ at
      → ((start : Instant)
          → Start location matches starts (midnight_before location at) start
          → at <ℤ start)
      → next ls w at ≡ ok answer
      → covered answer at ≡ false
  next_uncovered answer recurs begun none_recent is = elim (Bool-cases (covered answer at)) [
    | inr e ↦ e
    | inl e ↦
        let (o, found_o, early) = covered-some answer at e in
        let of_w = next-OccurrenceOf ls w at o recurs (is ∙ ap ok found_o) in
        let same_zone : location ≡ of_w.location = ok_injective (sym z ∙ of_w.is_zone) in
        let same_days : matches ≡ of_w.matches = ok_injective (sym m ∙ of_w.is_matcher) in
        let same_times : starts ≡ of_w.starts = ok_injective (sym s ∙ of_w.is_times) in
        let start : Start location matches starts (first_day location w at) o.start =
          rw (same_zone, same_days, same_times) of_w.start in
        let later : at <ℤ o.start =
          none_recent o.start (rw (← first_day-midnight_before location w at begun) start) in
        absurd (omega arith)
  ]

covers_within : (o : Occurrence) (at : Instant) → o.start ≤ℤ at → at <ℤ o.end → covers o at ≡ true
unfolding covers
covers_within o at begun unfinished = ground arith

lasts_some :
    (start end duration at : Instant)
    → end ≡ start +ℤ duration
    → start ≤ℤ at
    → at <ℤ end
    → ltb_ℤ (pos 0) duration ≡ true
lasts_some start end duration at e begun unfinished =
    let h : pos 0 <ℤ duration = omega (arith, begun, rw e at unfinished, +ℤ_parts start duration) in
    ground arith

-- An occurrence of a recurring window that is not cancelled covers an instant, and still the
-- window counts as not active then, where every start from local midnight of the day before on
-- comes after the instant: an occurrence that started before that midnight is forgotten, however
-- long it lasts.
pub active_at_forgets :
    (ls : Locations) (w : MaintenanceWindow) (at : Instant) (location : Location)
    (matches : Day → Bool) (starts : List Clock) (day : Instant) (o : Occurrence)
    → w.cancelled_at ≡ none
    → eqb w.strategy strategy_single ≡ false
    → zone ls w.timezone ≡ ok location
    → day_matcher w ≡ ok matches
    → start_times ls w ≡ ok starts
    → Start location matches starts day o.start
    → Fits w at o
    → o.start ≤ℤ at
    → ((start : Instant)
        → Start location matches starts (midnight_before location at) start
        → at <ℤ start)
    → (covers o at ≡ true) × (active_at ls w at ≡ ok false)
unfolding active_at
active_at_forgets ls w at location matches starts day o live recurs z m s begins fits begun
      none_recent =
    let anchored : w.starts_at ≤ℤ o.start = fits.anchored in
    let unfinished : at <ℤ o.end = fits.unfinished in
    let positive = lasts_some o.start o.end w.duration at fits.lasts begun unfinished in
    let answer =
      next-in_zone ls w at location matches starts z m s live
      ∙ in_zone-recurring ls w at location matches starts z m s recurs positive
      ∙ recurring-try_days ls w at location matches starts z m s in
    let uncovered =
      next_uncovered ls w at location matches starts z m s _ recurs (omega arith) none_recent
        answer in
    (covers_within o at begun unfinished, went _ (next ls w at) answer ∙ ap ok uncovered)

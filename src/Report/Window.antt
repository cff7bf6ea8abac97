-- ===== src/Report/Window.antt =====
-- internal/report/window.go: the period that a report covers and the tier that answers it. The calendar
-- of a time zone (time.Date, Time.In, Time.AddDate) is a parameter.
mod Tiers
mod Periods
mod Tests
use uptime_cairn.Base.{
  ℕ, ◌+◌, ◌-◌, ◌*◌, ◌/◌, ◌%◌, Bool, true, false, ◌&&◌, ◌||◌, not, List, [], ◌∷◌, Option, none, some,
  if◌then◌else◌,
}
use uptime_cairn.Base.Int.{ℤ, pos, negsuc, ◌-ℤ◌, ltb_ℤ, leb_ℤ, eqb_ℤ}
use uptime_cairn.Base.Bytes.{Bytes, codes, eqb}
use uptime_cairn.Model.{Instant}

pub record Window : Type 0 where
  pub from : Instant
  pub to : Instant
  pub timezone : Bytes

-- Window.Duration
pub duration : Window → ℤ
duration w = w.to -ℤ w.from

-- A date in a zone: the month is 1 to 12, and Sunday is the weekday 0.
pub record LocalDate : Type 0 where
  pub year : ℤ
  pub month : ℕ
  pub day : ℕ
  pub weekday : ℕ

-- A time zone: midnight of a date, the date of an instant, and an instant moved by years, months and days.
pub record Zone : Type 0 where
  pub name : Bytes
  pub midnight : ℤ → ℕ → ℕ → Instant
  pub date : Instant → LocalDate
  pub add_date : Instant → ℤ → ℤ → ℤ → Instant

pub data WindowError : Type 0 where
  no_timezone : WindowError
  cannot_roll needs_dates unknown_period unknown_style : Bytes → WindowError

pub data Resolved : Type 0 where
  window : Window → Resolved
  refused : WindowError → Resolved

-- The window that counts back from the instant of the run.
rolling : Bytes → Zone → Instant → Resolved
unfolding eqb
rolling period loc to =
    if eqb period (codes "day")
    then window
        (record { from = loc.add_date to (pos 0) (pos 0) (negsuc 0); to = to; timezone = loc.name })
    else (if eqb period (codes "week")
        then window (record {
          from = loc.add_date to (pos 0) (pos 0) (negsuc 6);
          to = to;
          timezone = loc.name;
        })
        else (if eqb period (codes "month")
            then window (record {
              from = loc.add_date to (pos 0) (negsuc 0) (pos 0);
              to = to;
              timezone = loc.name;
            })
            else (if eqb period (codes "quarter")
                then window (record {
                  from = loc.add_date to (pos 0) (negsuc 2) (pos 0);
                  to = to;
                  timezone = loc.name;
                })
                else (if eqb period (codes "year")
                    then window (record {
                      from = loc.add_date to (negsuc 0) (pos 0) (pos 0);
                      to = to;
                      timezone = loc.name;
                    })
                    else refused (cannot_roll period)))))

-- The window that ends where the current period starts, and goes back by the given years, months and days.
complete : Zone → Instant → ℤ → ℤ → ℤ → Resolved
complete loc to y m d =
    window (record { from = loc.add_date to y m d; to = to; timezone = loc.name })

-- The last complete period before a date.
calendar : Bytes → Zone → LocalDate → Resolved
unfolding eqb complete
calendar period loc now =
    if eqb period (codes "day")
    then complete loc (loc.midnight now.year now.month now.day) (pos 0) (pos 0) (negsuc 0)
    else (if eqb period (codes "week")
        then complete loc
            (loc.add_date (loc.midnight now.year now.month now.day) (pos 0) (pos 0)
              (pos 0 -ℤ pos ((now.weekday + 6) % 7)))
            (pos 0) (pos 0) (negsuc 6)
        else (if eqb period (codes "month")
            then complete loc (loc.midnight now.year now.month 1) (pos 0) (negsuc 0) (pos 0)
            else (if eqb period (codes "quarter")
                then complete loc (loc.midnight now.year ((now.month - 1) / 3 * 3 + 1) 1) (pos 0)
                    (negsuc 2) (pos 0)
                else (if eqb period (codes "year")
                    then complete loc (loc.midnight now.year 1 1) (negsuc 0) (pos 0) (pos 0)
                    else (if eqb period (codes "custom")
                        then refused (needs_dates period)
                        else refused (unknown_period period))))))

resolve_in : Bytes → Bytes → Zone → Instant → Resolved
unfolding rolling calendar eqb
resolve_in period style loc now =
    if eqb style (codes "rolling")
    then rolling period loc now
    else (if eqb style (codes "calendar")
        then calendar period loc (loc.date now)
        else refused (unknown_style style))

with_default : Bytes → Bytes
with_default [] = codes "calendar"
with_default (c ∷ cs) = c ∷ cs

pub resolve_window : Bytes → Bytes → Option Zone → Instant → Resolved
unfolding resolve_in with_default
resolve_window period style none now = refused no_timezone
resolve_window period style (some loc) now = resolve_in period (with_default style) loc now

-- Days of each tier, 0 for indefinite.
pub record Retention : Type 0 where
  pub raw_days : ℤ
  pub rollup_1m_days : ℤ
  pub rollup_5m_days : ℤ
  pub rollup_1h_days : ℤ
  pub rollup_1d_days : ℤ

pub record Resolution : Type 0 where
  pub tier : Bytes
  pub requested_tier : Bytes
  pub downgraded : Bool
  pub covered_from : Option Instant

pub record TierRetention : Type 0 where
  pub tier : Bytes
  pub days : ℤ

pub tiers : Retention → List TierRetention
tiers r =
    record { tier = codes "1m"; days = r.rollup_1m_days }
    ∷ record { tier = codes "5m"; days = r.rollup_5m_days }
    ∷ record { tier = codes "1h"; days = r.rollup_1h_days }
    ∷ record { tier = codes "1d"; days = r.rollup_1d_days }
    ∷ []

-- A day count's start of retention: now.AddDate(0, 0, -days).
pub days_before : Zone → Instant → ℤ → Instant
days_before loc now days = loc.add_date now (pos 0) (pos 0) (pos 0 -ℤ days)

pub covers : Zone → Window → Instant → ℤ → Bool
unfolding days_before
covers loc w now days = eqb_ℤ days (pos 0) || not (ltb_ℤ w.from (days_before loc now days))

-- A tier is asked for by name.
pub is_named : Bytes → Bool
unfolding eqb
is_named requested = not (eqb requested []) && not (eqb requested (codes "auto"))

-- The tiers from the named one on, where there is one of this name.
starting_at : Bytes → List TierRetention → Option (List TierRetention)
unfolding eqb
starting_at requested [] = none
starting_at requested (t ∷ rest) =
    if eqb t.tier requested then some (t ∷ rest) else starting_at requested rest

-- The tiers that the loop goes through.
pub candidates : Bytes → List TierRetention → Option (List TierRetention)
unfolding starting_at is_named
candidates requested ts = if is_named requested then starting_at requested ts else some ts

-- The loop over the candidates; `later` is i > start.
pick : Zone → Window → Instant → Bytes → Bool → List TierRetention → Option Resolution
unfolding covers is_named
pick loc w now requested later [] = none
pick loc w now requested later (t ∷ rest) =
    if covers loc w now t.days
    then some (record {
      tier = t.tier;
      requested_tier = requested;
      downgraded = later && is_named requested;
      covered_from = none;
    })
    else pick loc w now requested true rest

-- The start of the daily tier, where it is kept for some days and starts after the window.
truncated : Zone → Window → Instant → ℤ → Option Instant
unfolding days_before
truncated loc w now days =
    if ltb_ℤ (pos 0) days && ltb_ℤ w.from (days_before loc now days)
    then some (days_before loc now days)
    else none

-- What the loop found, and the daily tier where it found none.
picked : Zone → Window → Instant → Bytes → ℤ → Option Resolution → Resolution
unfolding truncated is_named
picked loc w now requested days (some res) = res
picked loc w now requested days none = record {
  tier = codes "1d";
  requested_tier = requested;
  downgraded = is_named requested;
  covered_from = truncated loc w now days;
}

-- An unknown name gets the daily tier.
resolve_among : Zone → Window → Instant → Bytes → ℤ → Option (List TierRetention) → Resolution
unfolding picked pick
resolve_among loc w now requested days none = record {
  tier = codes "1d";
  requested_tier = requested;
  downgraded = true;
  covered_from = none;
}
resolve_among loc w now requested days (some ts) =
    picked loc w now requested days (pick loc w now requested false ts)

-- The zone is that of `now`.
pub resolve_tier : Zone → Bytes → Window → Instant → Retention → Resolution
unfolding resolve_among candidates tiers
resolve_tier loc requested w now r =
    resolve_among loc w now requested r.rollup_1d_days (candidates requested (tiers r))

pub raw_covers_trailing_week : Retention → Bool
raw_covers_trailing_week r = eqb_ℤ r.raw_days (pos 0) || leb_ℤ (pos 7) r.raw_days

-- ===== src/Report/Window/Periods.antt =====
-- The last complete period, as reports run one after the other see it (ResolveWindow,
-- internal/report/window.go).
use uptime_cairn.Base.{ℕ, suc, ◌-◌, ◌/◌, ◌≡◌, refl, sym, ap, ◌∙◌, ◌≤◌, [], some}
use uptime_cairn.Base.Int.{ℤ, pos, negsuc}
use uptime_cairn.Base.Bytes.{Bytes, codes}
use uptime_cairn.Model.{Instant}
use uptime_cairn.Report.Window.{
  Window, Zone, LocalDate, Resolved, window, complete, calendar, resolve_in, with_default,
  resolve_window,
}

-- Two dates in one day, month, quarter or year.
data SamePeriod (d e : LocalDate) : Bytes → Type 0 where
  same_day : d.year ≡ e.year → d.month ≡ e.month → d.day ≡ e.day → SamePeriod d e (codes "day")
  same_month : d.year ≡ e.year → d.month ≡ e.month → SamePeriod d e (codes "month")
  same_quarter :
      d.year ≡ e.year → (d.month - 1) / 3 ≡ (e.month - 1) / 3 → SamePeriod d e (codes "quarter")
  same_year : d.year ≡ e.year → SamePeriod d e (codes "year")

calendar_rerun :
    (loc : Zone) (d e : LocalDate) (period : Bytes)
    → SamePeriod d e period
    → calendar period loc d ≡ calendar period loc e
unfolding calendar
calendar_rerun loc d e _ (same_day y m day) = rw (y, m, day) refl
calendar_rerun loc d e _ (same_month y m) = rw (y, m) refl
calendar_rerun loc d e _ (same_quarter y q) = rw (y, q) refl
calendar_rerun loc d e _ (same_year y) = rw y refl

resolve_rerun :
    (loc : Zone) (first second : Instant) (period : Bytes)
    → SamePeriod (loc.date first) (loc.date second) period
    → resolve_window period [] (some loc) first ≡ resolve_window period [] (some loc) second
unfolding resolve_window with_default resolve_in
resolve_rerun loc first second period same =
    calendar_rerun loc (loc.date first) (loc.date second) period same

from_of : Resolved → Instant
from_of (window w) = w.from
from_of _ = pos 0

to_of : Resolved → Instant
to_of (window w) = w.to
to_of _ = pos 0

-- The monthly reports of two successive months of a year abut: the later one covers from the
-- instant at which the earlier one ends. It holds in a zone where a month back from the midnight
-- of a first is the midnight of the first before.
pub months_abut :
    (loc : Zone)
    → ((y : ℤ) (m : ℕ)
        → 1 ≤ m
        → loc.add_date (loc.midnight y (suc m) 1) (pos 0) (negsuc 0) (pos 0) ≡ loc.midnight y m 1)
    → (now later : Instant) → 1 ≤ (loc.date now).month
    → (loc.date later).year ≡ (loc.date now).year
    → (loc.date later).month ≡ suc (loc.date now).month
    → (w w' : Window) → resolve_window (codes "month") [] (some loc) now ≡ window w
    → resolve_window (codes "month") [] (some loc) later ≡ window w'
    → w'.from ≡ w.to
unfolding resolve_window with_default resolve_in calendar complete from_of to_of
months_abut loc law now later one y m w w' e e' =
    sym (ap from_of e')
    ∙ ap (λ x. loc.add_date (loc.midnight x (loc.date later).month 1) (pos 0) (negsuc 0) (pos 0)) y
    ∙ ap (λ x. loc.add_date (loc.midnight (loc.date now).year x 1) (pos 0) (negsuc 0) (pos 0)) m
    ∙ law (loc.date now).year (loc.date now).month one
    ∙ ap to_of e

-- ===== src/Report/Breaches.antt =====
-- internal/report/breach.go: the runs of days with downtime. Starts are days in UTC, so the next day is
-- 86,400 seconds later; the seconds of a run are the exact sum, which the code keeps in floats.
mod Periods
mod Runs
mod Tests
use uptime_cairn.Base.{
  ℕ, ◌+◌, ◌*◌, ◌/◌, Bool, true, false, ◌&&◌, List, [], ◌∷◌, ◌++◌, Option, none, some, if◌then◌else◌,
  ltb, ◌==◌,
}
use uptime_cairn.Base.Int.{ℤ, pos, ◌+ℤ◌}
use uptime_cairn.Model.{Instant, EntityId}
use uptime_cairn.Report.{
  MaintenanceHandling, unset, exclude, count_as_up, count_as_down, HistoryBucket, Fraction,
}

pub record Breach : Type 0 where
  pub started_at : Instant
  pub ended_at : Instant
  pub duration_seconds : ℕ
  pub incident_id : Option EntityId

abbrev pub day_length : ℕ
day_length = 86_400_000_000_000

-- The down checks and the observed checks of a day.
pub down_checks : MaintenanceHandling → HistoryBucket → ℕ
down_checks count_as_down b = b.down + b.maintenance
down_checks count_as_up b = b.down
down_checks exclude b = b.down
down_checks unset b = b.down

pub observed_checks : MaintenanceHandling → HistoryBucket → ℕ
observed_checks count_as_down b = b.up + b.down + b.maintenance
observed_checks count_as_up b = b.up + b.down + b.maintenance
observed_checks exclude b = b.up + b.down
observed_checks unset b = b.up + b.down

abbrev pub no_seconds : Fraction
no_seconds = record { num = 0; den = 1 }

pub day_downtime_seconds : ℕ → ℕ → Fraction
day_downtime_seconds down observed =
    if ltb 0 observed && ltb 0 down
    then record { num = down * 86_400; den = observed }
    else no_seconds

plus : Fraction → Fraction → Fraction
plus p q = record { num = p.num * q.den + q.num * p.den; den = p.den * q.den }

-- math.Round of a fraction that is not negative: halves go up.
pub round : Fraction → ℕ
round p = (2 * p.num + p.den) / (2 * p.den)

-- The state of the loop: the breaches so far, the run that is open, by its start and end, and the
-- seconds in it.
pub record Run : Type 0 where
  pub out : List Breach
  pub current : Option (Instant × Instant)
  pub seconds : Fraction

close : List Breach → Option (Instant × Instant) → Fraction → Run
unfolding round
close out none seconds = record { out = out; current = none; seconds = seconds }
close out (some (from, to)) seconds =
    let b : Breach = record {
      started_at = from;
      ended_at = to;
      duration_seconds = round seconds;
      incident_id = none;
    } in
    record { out = out ++ b ∷ []; current = none; seconds = no_seconds }

pub flush : Run → Run
unfolding close
flush r = close r.out r.current r.seconds

extend : Option (Instant × Instant) → Instant → Instant → Instant × Instant
extend none start end = (start, end)
extend (some (from, to)) start end = (from, end)

-- A day with downtime opens a run or lengthens it.
pub add_day : MaintenanceHandling → Run → HistoryBucket → Run
unfolding extend plus ◌+ℤ◌
add_day handling r b = record {
  out = r.out;
  current = some (extend r.current b.start (b.start +ℤ pos day_length));
  seconds =
      plus r.seconds (day_downtime_seconds (down_checks handling b) (observed_checks handling b));
}

pub day_step : MaintenanceHandling → Run → HistoryBucket → Run
day_step handling r b =
    if down_checks handling b == 0
    then (if ltb 0 (observed_checks handling b) then flush r else r)
    else add_day handling r b

pub days : MaintenanceHandling → Run → List HistoryBucket → Run
days handling r [] = r
days handling r (b ∷ rest) = days handling (day_step handling r b) rest

abbrev pub no_run : Run
no_run = record { out = []; current = none; seconds = no_seconds }

pub compute_breaches : List HistoryBucket → MaintenanceHandling → List Breach
compute_breaches daily handling = (flush (days handling no_run daily)).out

total_seconds : List Breach → ℕ
total_seconds [] = 0
total_seconds (b ∷ rest) = b.duration_seconds + total_seconds rest

downtime_seconds : List HistoryBucket → MaintenanceHandling → ℕ
downtime_seconds daily handling = total_seconds (compute_breaches daily handling)

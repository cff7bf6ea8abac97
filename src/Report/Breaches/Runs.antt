-- ===== src/Report/Breaches/Runs.antt =====
-- A run of days with downtime is one breach (internal/report/breach.go).
use uptime_cairn.Base.{
  ℕ, ◌<◌, ◌≤◌, ◌≡◌, refl, ap, ◌∙◌, false, List, [], ◌∷◌, none, some, arith, ◌==◌,
}
use uptime_cairn.Base.Int.{pos, ◌+ℤ◌}
use uptime_cairn.Model.{Instant}
use uptime_cairn.Report.{MaintenanceHandling, HistoryBucket, Fraction}
use uptime_cairn.Report.Breaches.{
  Run, close, flush, day_step, add_day, days, no_run, compute_breaches, round, day_length,
  down_checks,
}

abbrev pub AllDown : MaintenanceHandling → List HistoryBucket → Type 0
AllDown handling [] = 0 ≤ 0
AllDown handling (b ∷ rest) = (0 < down_checks handling b) × AllDown handling rest

-- The end of the last day of a run whose end so far is `to`.
pub run_end : Instant → List HistoryBucket → Instant
run_end to [] = to
run_end to (b ∷ rest) = run_end (b.start +ℤ pos day_length) rest

down_step :
    (handling : MaintenanceHandling) (from to : Instant) (seconds : Fraction) (b : HistoryBucket)
    → 0 < down_checks handling b
    → (more : Fraction) × (day_step handling
          (record { out = []; current = some (from, to); seconds = seconds })
          b
        ≡ record { out = []; current = some (from, b.start +ℤ pos day_length); seconds = more })
unfolding day_step add_day
down_step handling from to seconds b h =
    let r : Run = record { out = []; current = some (from, to); seconds = seconds } in
    let e : (down_checks handling b == 0) ≡ false = ground arith in
    ((add_day handling r b).seconds, rw e refl)

down_days :
    (handling : MaintenanceHandling) (from to : Instant) (seconds : Fraction)
    (bs : List HistoryBucket)
    → AllDown handling bs
    → (more : Fraction) × (days handling
          (record { out = []; current = some (from, to); seconds = seconds })
          bs
        ≡ record { out = []; current = some (from, run_end to bs); seconds = more })
unfolding days run_end
down_days handling from to seconds [] h = (seconds, refl)
down_days handling from to seconds (b ∷ rest) h =
    let (more, e) = down_step handling from to seconds b h.0 in
    let (all, e') = down_days handling from (b.start +ℤ pos day_length) more rest h.1 in
    (all, ap (λ r. days handling r rest) e ∙ e')

first_step :
    (handling : MaintenanceHandling) (b : HistoryBucket)
    → 0 < down_checks handling b
    → (more : Fraction) × (day_step handling no_run b
        ≡ record { out = []; current = some (b.start, b.start +ℤ pos day_length); seconds = more })
unfolding day_step add_day
first_step handling b h =
    let e : (down_checks handling b == 0) ≡ false = ground arith in
    ((add_day handling no_run b).seconds, rw e refl)

closed_run :
    (from to : Instant) (seconds : Fraction)
    → (flush (record { out = []; current = some (from, to); seconds = seconds })).out
      ≡ record {
        started_at = from;
        ended_at = to;
        duration_seconds = round seconds;
        incident_id = none;
      }
        ∷ []
unfolding flush close
closed_run from to seconds = refl

-- Consecutive days that all have downtime are one breach, from the start of the first to the end
-- of the last.
pub one_breach :
    (b : HistoryBucket) (rest : List HistoryBucket) (handling : MaintenanceHandling)
    → AllDown handling (b ∷ rest)
    → (n : ℕ) × (compute_breaches (b ∷ rest) handling
        ≡ record {
          started_at = b.start;
          ended_at = run_end (b.start +ℤ pos day_length) rest;
          duration_seconds = n;
          incident_id = none;
        }
          ∷ [])
unfolding compute_breaches days
one_breach b rest handling h =
    let end = b.start +ℤ pos day_length in
    let (seconds, e) = first_step handling b h.0 in
    let (all, e') = down_days handling b.start end seconds rest h.1 in
    (
      round all,
      ap (λ r. (flush r).out) (ap (λ r. days handling r rest) e ∙ e')
          ∙ closed_run b.start (run_end end rest) all,
    )

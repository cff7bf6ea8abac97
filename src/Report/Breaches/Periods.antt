-- ===== src/Report/Breaches/Periods.antt =====
-- How the days make the breaches (internal/report/breach.go).
use uptime_cairn.Base.{
  ◌<◌, ◌≤◌, ◌≡◌, refl, sym, ap, ◌∙◌, true, false, List, [], ◌∷◌, ◌++◌, Option, none, some, arith,
  ltb, ◌==◌, Bool-cases, inl, inr,
}
use mathlib.Core.List.{append_assoc, append-nil}
use uptime_cairn.Model.{Instant}
use uptime_cairn.Report.{MaintenanceHandling, HistoryBucket, Fraction}
use uptime_cairn.Report.Breaches.{
  Breach, Run, close, flush, day_step, add_day, days, no_run, compute_breaches, down_checks,
  observed_checks, no_seconds,
}

-- A run with breaches put before its own.
prefixed : List Breach → Run → Run
prefixed before r = record { out = before ++ r.out; current = r.current; seconds = r.seconds }

close-prefixed :
    (before out : List Breach) (current : Option (Instant × Instant)) (seconds : Fraction)
    → close (before ++ out) current seconds ≡ prefixed before (close out current seconds)
unfolding close prefixed
close-prefixed before out none seconds = refl
close-prefixed before out (some (from, to)) seconds = rw (append_assoc) refl

flush-prefixed :
    (before : List Breach) (r : Run) → flush (prefixed before r) ≡ prefixed before (flush r)
unfolding flush prefixed
flush-prefixed before r = close-prefixed before r.out r.current r.seconds

add_day-prefixed :
    (handling : MaintenanceHandling) (before : List Breach) (r : Run) (b : HistoryBucket)
    → add_day handling (prefixed before r) b ≡ prefixed before (add_day handling r b)
unfolding add_day prefixed
add_day-prefixed handling before r b = refl

day_step-prefixed :
    (handling : MaintenanceHandling) (before : List Breach) (r : Run) (b : HistoryBucket)
    → day_step handling (prefixed before r) b ≡ prefixed before (day_step handling r b)
unfolding day_step
day_step-prefixed handling before r b = elim (Bool-cases (down_checks handling b == 0)) [
  | inl e ↦ elim (Bool-cases (ltb 0 (observed_checks handling b))) [
    | inl f ↦ rw (e, f) (flush-prefixed before r)
    | inr f ↦ rw (e, f) refl
  ]
  | inr e ↦ rw e (add_day-prefixed handling before r b)
]

days-prefixed :
    (handling : MaintenanceHandling) (before : List Breach) (r : Run) (bs : List HistoryBucket)
    → days handling (prefixed before r) bs ≡ prefixed before (days handling r bs)
unfolding days
days-prefixed handling before r [] = refl
days-prefixed handling before r (b ∷ rest) =
    ap (λ r'. days handling r' rest) (day_step-prefixed handling before r b)
    ∙ days-prefixed handling before (day_step handling r b) rest

days-append :
    (handling : MaintenanceHandling) (r : Run) (xs ys : List HistoryBucket)
    → days handling r (xs ++ ys) ≡ days handling (days handling r xs) ys
unfolding days
days-append handling r [] ys = refl
days-append handling r (b ∷ xs) ys = days-append handling (day_step handling r b) xs ys

-- No run is open with seconds left over.
Rested : Option (Instant × Instant) → Fraction → Type 0
Rested none seconds = seconds ≡ no_seconds
Rested (some run) seconds = 0 ≤ 0

close_at_rest :
    (out : List Breach) (current : Option (Instant × Instant)) (seconds : Fraction)
    → Rested current seconds
    → close out current seconds ≡ prefixed (close out current seconds).out no_run
unfolding close prefixed Rested
close_at_rest out none seconds h = rw (h, append-nil) refl
close_at_rest out (some (from, to)) seconds h = rw (append-nil) refl

close-Rested :
    (out : List Breach) (current : Option (Instant × Instant)) (seconds : Fraction)
    → Rested current seconds
    → Rested (close out current seconds).current (close out current seconds).seconds
unfolding close Rested
close-Rested out none seconds h = h
close-Rested out (some (from, to)) seconds h = refl

day_step-Rested :
    (handling : MaintenanceHandling) (r : Run) (b : HistoryBucket)
    → Rested r.current r.seconds
    → Rested (day_step handling r b).current (day_step handling r b).seconds
unfolding day_step flush
day_step-Rested handling r b h = elim (Bool-cases (down_checks handling b == 0)) [
  | inl e ↦ elim (Bool-cases (ltb 0 (observed_checks handling b))) [
    | inl f ↦ rw (e, f) (close-Rested r.out r.current r.seconds h)
    | inr f ↦ rw (e, f) h
  ]
  | inr e ↦ rw e (unfold add_day Rested in omega arith)
]

days-Rested :
    (handling : MaintenanceHandling) (r : Run) (bs : List HistoryBucket)
    → Rested r.current r.seconds
    → Rested (days handling r bs).current (days handling r bs).seconds
unfolding days
days-Rested handling r [] h = h
days-Rested handling r (b ∷ rest) h =
    days-Rested handling (day_step handling r b) rest (day_step-Rested handling r b h)

clean_step :
    (handling : MaintenanceHandling) (r : Run) (clean : HistoryBucket)
    → down_checks handling clean ≡ 0
    → 0 < observed_checks handling clean
    → day_step handling r clean ≡ flush r
unfolding day_step
clean_step handling r clean quiet seen =
    let e : (down_checks handling clean == 0) ≡ true = ground arith in
    let f : ltb 0 (observed_checks handling clean) ≡ true = ground arith in rw (e, f) refl

gap_step :
    (handling : MaintenanceHandling) (r : Run) (gap : HistoryBucket)
    → down_checks handling gap ≡ 0
    → observed_checks handling gap ≡ 0
    → day_step handling r gap ≡ r
unfolding day_step
gap_step handling r gap quiet blind =
    let e : (down_checks handling gap == 0) ≡ true = ground arith in
    let f : ltb 0 (observed_checks handling gap) ≡ false = ground arith in rw (e, f) refl

flush-days :
    (handling : MaintenanceHandling) (xs : List HistoryBucket)
    → flush (days handling no_run xs) ≡ prefixed (flush (days handling no_run xs)).out no_run
unfolding flush
flush-days handling xs =
    let r = days handling no_run xs in
    close_at_rest r.out r.current r.seconds (days-Rested handling no_run xs (unfold Rested in refl))

-- A day with observed checks and no downtime parts the breach log: the breaches are those of the
-- days before it and then those of the days after it.
pub breaches_split :
    (xs ys : List HistoryBucket) (clean : HistoryBucket) (handling : MaintenanceHandling)
    → down_checks handling clean ≡ 0
    → 0 < observed_checks handling clean
    → compute_breaches (xs ++ clean ∷ ys) handling
      ≡ compute_breaches xs handling ++ compute_breaches ys handling
unfolding compute_breaches days day_step prefixed
breaches_split xs ys clean handling quiet seen =
    let r = days handling no_run xs in
    let before = (flush r).out in
    let at_clean = clean_step handling r clean quiet seen ∙ flush-days handling xs in
    let whole : days handling no_run (xs ++ clean ∷ ys)
        ≡ prefixed before (days handling no_run ys) =
      days-append handling no_run xs (clean ∷ ys)
      ∙ ap (λ r'. days handling r' ys) at_clean
      ∙ days-prefixed handling before no_run ys in
    ap (λ r'. (flush r').out) whole
    ∙ ap (λ r'. r'.out) (flush-prefixed before (days handling no_run ys))

-- A day with no observed check and no downtime leaves the breach log as it is without the day.
breaches_gap :
    (xs ys : List HistoryBucket) (gap : HistoryBucket) (handling : MaintenanceHandling)
    → down_checks handling gap ≡ 0
    → observed_checks handling gap ≡ 0
    → compute_breaches (xs ++ gap ∷ ys) handling ≡ compute_breaches (xs ++ ys) handling
unfolding compute_breaches days day_step
breaches_gap xs ys gap handling quiet blind =
    let r = days handling no_run xs in
    ap (λ r'. (flush r').out)
      (days-append handling no_run xs (gap ∷ ys)
        ∙ ap (λ r'. days handling r' ys) (gap_step handling r gap quiet blind)
        ∙ sym (days-append handling no_run xs ys))

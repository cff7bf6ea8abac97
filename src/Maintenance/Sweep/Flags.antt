-- ===== src/Maintenance/Sweep/Flags.antt =====
-- What a sweep leaves of the monitors' flags (internal/maintenance/sweep.go).
use mathlib.Core.List.{append_assoc, append-nil}
use uptime_cairn.Base.{
  ◌≡◌, refl, ap, sym, ◌∙◌, Bool, true, false, ◌&&◌, List, [], ◌∷◌, ◌++◌, Option, if◌then◌else◌,
  arith, Bool-cases, inl, inr,
}
use uptime_cairn.Base.Result.{Result, ok, err, ◌>>=◌}
use uptime_cairn.Model.{EntityId, Instant}
use uptime_cairn.Maintenance.{
  MaintenanceWindow, Locations, ScheduleError, Occurrence, next, covered, active_at,
}
use uptime_cairn.Store.Maintenance.{due_windows, monitors_under}
use uptime_cairn.Store.Maintenance.Flags.{AllSettled, apply_maintenance-AllSettled}
use uptime_cairn.Maintenance.Sweep.{
  Store, Failures, Progress, count_active, evaluated, evaluate_all, applied, moved, nothing_done,
  sweep,
}

abbrev pub no_failures : Failures
no_failures = record { due = false; set_next = λ id. false; resolve = false; apply = false }

-- The window is active, by ActiveAt, and suppresses.
pub suppresses : Result ScheduleError Bool → MaintenanceWindow → Bool
suppresses (ok active) w = active && w.suppress_notifications
suppresses (err e) w = false

pub suppressing : Locations → Instant → List MaintenanceWindow → List EntityId
unfolding suppresses
suppressing ls now [] = []
suppressing ls now (w ∷ rest) =
    let others = suppressing ls now rest in
    if suppresses (active_at ls w now) w then w.id ∷ others else others

with_active : Result ScheduleError (Option Occurrence) → Instant → Result ScheduleError Bool
with_active answer now = answer >>= λ o. ok (covered o now)

-- One turn that fails nowhere.
evaluated_lem :
    (now : Instant) (w : MaintenanceWindow) (answer : Result ScheduleError (Option Occurrence))
    (p : Progress)
    → ((evaluated no_failures now w answer p).failed ≡ p.failed)
      × ((evaluated no_failures now w answer p).covering
          ≡ p.covering ++ (if suppresses (with_active answer now) w then w.id ∷ [] else []))
unfolding evaluated count_active suppresses with_active
evaluated_lem now w (err e) p = (refl, sym (append-nil p.covering))
evaluated_lem now w (ok answer) p = elim (Bool-cases (covered answer now)) [
  | inl e ↦ rw e (
    refl,
    elim (Bool-cases w.suppress_notifications) [
      | inl s ↦ rw s refl
      | inr s ↦ rw s (sym (append-nil p.covering))
    ],
  )
  | inr e ↦ rw e (refl, sym (append-nil p.covering))
]

suppressing-cons :
    (ls : Locations) (now : Instant) (w : MaintenanceWindow) (rest : List MaintenanceWindow)
    → suppressing ls now (w ∷ rest)
      ≡ (if suppresses (with_active (next ls w now) now) w then w.id ∷ [] else [])
        ++ suppressing ls now rest
unfolding suppressing active_at with_active
suppressing-cons ls now w rest = elim (Bool-cases (suppresses (active_at ls w now) w)) [
  | inl e ↦ rw e refl
  | inr e ↦ rw e refl
]

evaluate_all_lem :
    (ls : Locations) (now : Instant) (windows : List MaintenanceWindow) (p : Progress)
    → p.failed ≡ false
    → ((evaluate_all ls no_failures now windows p).failed ≡ false)
      × ((evaluate_all ls no_failures now windows p).covering
          ≡ p.covering ++ suppressing ls now windows)
unfolding evaluate_all suppressing
evaluate_all_lem ls now [] p h = (h, sym (append-nil p.covering))
evaluate_all_lem ls now (w ∷ rest) p h =
    let (same, more) = evaluated_lem now w (next ls w now) p in
    let p' = evaluated no_failures now w (next ls w now) p in
    let going : p'.failed ≡ false = same ∙ h in
    let (failed, covering) = evaluate_all_lem ls now rest p' going in
    rw going (
      failed,
      covering
          ∙ ap (λ (ids : List EntityId). ids ++ suppressing ls now rest) more
          ∙ append_assoc p.covering _ (suppressing ls now rest)
          ∙ ap (λ (ids : List EntityId). p.covering ++ ids) (sym (suppressing-cons ls now w rest)),
    )

-- A sweep whose calls of the store all succeed does not fail, sets the maintenance flag of exactly
-- the enabled monitors that a target of a due, active and suppressing window selects, but for the
-- paused ones that did not have it, and leaves a row as it is where the flag is neither set nor
-- taken.
pub sweep-AllSettled :
    (ls : Locations) (now : Instant) (store : Store)
    → ((sweep ls no_failures now store).failed ≡ false)
      × AllSettled
          (monitors_under
            (suppressing ls now (due_windows now store.windows))
            store.targets
            store.monitors)
          store.states
          (sweep ls no_failures now store).store.states
unfolding sweep applied moved
sweep-AllSettled ls now store =
    let start : Progress = record {
      windows = store.windows;
      covering = [];
      result = nothing_done;
      failed = false;
    } in
    let (failed, covering) = evaluate_all_lem ls now (due_windows now store.windows) start refl in
    rw (failed, covering) (refl, apply_maintenance-AllSettled _ store.states)

applied_failed :
    (f : Failures) (store : Store) (p : Progress)
    → (applied f store p).failed ≡ true
    → (applied f store p).store.states ≡ store.states
unfolding applied moved
applied_failed f store p h = ground arith

-- A sweep that fails at any of its calls of the store moves no monitor.
pub failed_sweep_moves_none :
    (ls : Locations) (f : Failures) (now : Instant) (store : Store)
    → (sweep ls f now store).failed ≡ true
    → (sweep ls f now store).store.states ≡ store.states
unfolding sweep
failed_sweep_moves_none ls f now store h = elim (Bool-cases f.due) [
  | inl e ↦ rw e refl
  | inr e ↦ rw e (applied_failed f store _ (simp e at h))
]

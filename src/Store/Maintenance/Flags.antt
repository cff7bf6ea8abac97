-- ===== src/Store/Maintenance/Flags.antt =====
-- ApplyMaintenance and SaveState write one column (internal/store/sqlite/maintenance.go and monitors.go).
use uptime_cairn.Base.{
  ◌≡◌, ◌≢◌, ◌↔◌, ◌⊎◌, refl, ap, ◌∙◌, Bool, true, false, List, [], ◌∷◌, some, map, if◌then◌else◌,
  arith,
}
use uptime_cairn.Model.{EntityId, MonitorStatus, SuppressedBy, Suppression, Monitor, MonitorState}
use uptime_cairn.Probe.Wire.{Result}
use uptime_cairn.Store.States.{update_state}
use uptime_cairn.Control.Ingest.{apply, Applied}
use uptime_cairn.Store.Maintenance.{
  is_in, is_paused, is_maintenance, enters, leaves, entered_row, left_row, update_where, left_after,
  apply_maintenance,
}

-- The two updates at one row.
pub settled : List EntityId → MonitorState → MonitorState
unfolding enters leaves entered_row left_row
settled under st =
    let st' = if enters under st then entered_row st else st in
    if leaves under st' then left_row st' else st'

update_where-map :
    (chosen : MonitorState → Bool) (change : MonitorState → MonitorState)
    (states : List MonitorState)
    → (update_where chosen change states).0 ≡ map (λ st. if chosen st then change st else st) states
unfolding update_where
update_where-map chosen change [] = refl
update_where-map chosen change (st ∷ rest) = ground (arith, update_where-map chosen change rest)

-- What a sweep does to one row: the flag is set exactly for the monitors that are covered, but for those
-- that are paused and do not have it; where the flag is neither set nor taken the row stays as it is.
pub record Settled (under : List EntityId) (before after : MonitorState) : Type 0 where
  pub flagged :
      (after.suppressed_by ≡ SuppressedBy.maintenance)
      ↔ (is_in before.monitor_id under ≡ true)
        × ((before.status ≢ MonitorStatus.paused)
            ⊎ (before.suppressed_by ≡ SuppressedBy.maintenance))
  pub kept :
      (after ≡ before)
      ⊎ ((before.suppressed_by ≡ SuppressedBy.maintenance)
          ↔ (after.suppressed_by ≢ SuppressedBy.maintenance))

abbrev pub AllSettled : List EntityId → List MonitorState → List MonitorState → Type 0
AllSettled under [] [] = Unit
AllSettled under (st ∷ rest) (st' ∷ rest') = Settled under st st' × AllSettled under rest rest'
AllSettled under _ _ = ⊥

settled-Settled : (under : List EntityId) (st : MonitorState) → Settled under st (settled under st)
unfolding settled enters leaves is_paused is_maintenance
settled-Settled under st = record { flagged = ground arith; kept = ground arith }

-- One row through both updates.
leave_row : List EntityId → MonitorState → MonitorState
unfolding leaves left_row
leave_row under st = if leaves under st then left_row st else st

enter_row : List EntityId → MonitorState → MonitorState
unfolding enters entered_row
enter_row under st = if enters under st then entered_row st else st

settled_nil : (states : List MonitorState) → map (leave_row []) states ≡ map (settled []) states
unfolding leave_row settled enters is_in
settled_nil [] = refl
settled_nil (st ∷ rest) = rw (settled_nil rest) refl

map-settled :
    (under : List EntityId) (states : List MonitorState)
    → map (leave_row under) (map (enter_row under) states) ≡ map (settled under) states
unfolding leave_row enter_row settled
map-settled under [] = refl
map-settled under (st ∷ rest) = rw (map-settled under rest) refl

states-apply_maintenance :
    (under : List EntityId) (states : List MonitorState)
    → (apply_maintenance under states).states ≡ map (settled under) states
unfolding apply_maintenance left_after leave_row enter_row
states-apply_maintenance [] states =
    update_where-map (leaves []) left_row states ∙ settled_nil states
states-apply_maintenance (id ∷ under) states =
    update_where-map (leaves (id ∷ under)) left_row _
    ∙ ap (map (leave_row (id ∷ under))) (update_where-map (enters (id ∷ under)) entered_row states)
    ∙ map-settled (id ∷ under) states

map-AllSettled :
    (under : List EntityId) (states : List MonitorState)
    → AllSettled under states (map (settled under) states)
map-AllSettled under [] = tt
map-AllSettled under (st ∷ rest) = (settled-Settled under st, map-AllSettled under rest)

pub apply_maintenance-AllSettled :
    (under : List EntityId) (states : List MonitorState)
    → AllSettled under states (apply_maintenance under states).states
apply_maintenance-AllSettled under states =
    rw (states-apply_maintenance under states) (map-AllSettled under states)

-- No row of a list is chosen.
none_chosen :
    (under : List EntityId) (chosen : MonitorState → Bool) (change : MonitorState → MonitorState)
    (states : List MonitorState)
    → ((st : MonitorState) → chosen (settled under st) ≡ false)
    → update_where chosen change (map (settled under) states) ≡ (map (settled under) states, 0)
unfolding update_where
none_chosen under chosen change [] h = refl
none_chosen under chosen change (st ∷ rest) h =
    rw (none_chosen under chosen change rest h, h st) refl

settled_stays :
    (under : List EntityId) (st : MonitorState) → enters under (settled under st) ≡ false
unfolding enters leaves settled is_paused is_maintenance
settled_stays under st = ground arith

settled_in : (under : List EntityId) (st : MonitorState) → leaves under (settled under st) ≡ false
unfolding enters leaves settled is_paused is_maintenance
settled_in under st = ground arith

again-settled :
    (under : List EntityId) (states : List MonitorState)
    → apply_maintenance under (map (settled under) states)
      ≡ record { states = map (settled under) states; entered = 0; exited = 0 }
unfolding apply_maintenance left_after
again-settled [] states = rw (none_chosen [] (leaves []) left_row states (settled_in [])) refl
again-settled (id ∷ under) states =
    rw
      (
        none_chosen (id ∷ under) (enters (id ∷ under)) entered_row states
            (settled_stays (id ∷ under)),
        none_chosen (id ∷ under) (leaves (id ∷ under)) left_row states (settled_in (id ∷ under)),
      )
      refl

-- A second sweep over the same monitors changes no row and counts none.
pub apply_maintenance_idem :
    (under : List EntityId) (states : List MonitorState)
    → apply_maintenance under (apply_maintenance under states).states
      ≡ record { states = (apply_maintenance under states).states; entered = 0; exited = 0 }
apply_maintenance_idem under states =
    rw (states-apply_maintenance under states) (again-settled under states)

-- A state that was read before a sweep, and is saved after it, does not take a monitor that is not
-- paused out of the maintenance that the sweep put it in.
pub entering_wins :
    (under : List EntityId) (row saved : MonitorState)
    → is_in row.monitor_id under ≡ true
    → row.status ≢ MonitorStatus.paused
    → ((update_state (settled under row) saved).status ≡ MonitorStatus.maintenance)
      × ((update_state (settled under row) saved).suppressed_by ≡ SuppressedBy.maintenance)
unfolding settled enters leaves is_paused is_maintenance update_state
entering_wins under row saved h p = ground arith

-- Where a batch read a monitor's state under maintenance, and a sweep takes the monitor out before
-- the batch saves the state, the save puts the monitor back under maintenance, its status too.
pub late_save_reenters :
    (under : List EntityId) (row : MonitorState) (m : Monitor) (r : Result) (probe_id : EntityId)
    (a : Applied)
    → row.suppressed_by ≡ SuppressedBy.maintenance
    → is_in row.monitor_id under ≡ false
    → apply m row r probe_id Suppression.maintenance ≡ some a
    → ((settled under row).suppressed_by ≡ SuppressedBy.nothing)
      × ((update_state (settled under row) a.state).suppressed_by ≡ SuppressedBy.maintenance)
      × ((update_state (settled under row) a.state).status ≡ MonitorStatus.maintenance)
unfolding settled enters leaves is_paused is_maintenance update_state apply
late_save_reenters under row m r probe_id a h out e = ground arith

-- ===== src/Control/Ingest/Dependency.antt =====
-- The walk up the parents of a monitor (ancestorUnavailable, internal/controlplane/ingest.go).
use uptime_cairn.Base.{
  ℕ, zero, suc, ◌≡◌, refl, Bool, true, false, List, [], ◌∷◌, Option, none, some, take, inl, inr,
  Bool-cases, if◌then◌else◌,
}
use uptime_cairn.Model.{EntityId, Monitor, MonitorState, SuppressedBy, Suppression}
use uptime_cairn.Store.{Loaded, found}
use uptime_cairn.Control.Ingest.{is_unavailable, ancestor_state, walk, suppression_by, suppression}

pub any_unavailable : List (MonitorState × Monitor) → Bool
any_unavailable [] = false
any_unavailable ((st, m) ∷ rest) = if is_unavailable st.status then true else any_unavailable rest

-- Maintenance comes first, then an unavailable ancestor.
abbrev pub silence : SuppressedBy → Bool → Suppression
silence SuppressedBy.maintenance unavailable = Suppression.maintenance
silence _ unavailable = if unavailable then Suppression.dependency else Suppression.unsuppressed

module _ (batch : EntityId → Option MonitorState) (get_state : EntityId → Loaded MonitorState)
    (load_monitor : EntityId → Loaded Monitor) where
  -- The ancestors from a parent id on, nearest first, each with the state that ingest sees.
  abbrev pub Ancestors : Option EntityId → List (MonitorState × Monitor) → Type 0
  Ancestors parent [] = parent ≡ none
  Ancestors parent ((st, m) ∷ rest) =
      (id : EntityId) × (parent ≡ some id)
      × (ancestor_state batch get_state load_monitor id ≡ found st)
      × (load_monitor id ≡ found m)
      × Ancestors m.parent_monitor_id rest

  pub walk-any_unavailable :
      (depth : ℕ) (parent : Option EntityId) (chain : List (MonitorState × Monitor))
      → Ancestors parent chain
      → walk batch get_state load_monitor depth parent ≡ any_unavailable (take depth chain)
  unfolding walk any_unavailable
  walk-any_unavailable zero parent chain c = refl
  walk-any_unavailable (suc depth) parent [] c = rw c
  walk-any_unavailable (suc depth) parent ((st, m) ∷ rest) (id, p, s, l, c) =
      elim (Bool-cases (is_unavailable st.status)) [
        | inl down ↦ rw (p, walk, s, down)
        | inr fine ↦
            rw (p, walk, s, fine, l) ((walk-any_unavailable depth m.parent_monitor_id rest c))
      ]

  -- A monitor under maintenance is silenced as such. Any other whose ancestors can be read is
  -- silenced as a dependency exactly when one of its nearest ten ancestors is down or under
  -- maintenance, however long the chain is.
  pub suppression-Ancestors :
      (m : Monitor) (st : MonitorState) (chain : List (MonitorState × Monitor))
      → Ancestors m.parent_monitor_id chain
      → suppression batch get_state load_monitor m st
        ≡ silence st.suppressed_by (any_unavailable (take 10 chain))
  unfolding suppression
  suppression-Ancestors m st chain c = by_reason st.suppressed_by
    where
      by_reason :
          (by : SuppressedBy)
          → suppression_by batch get_state load_monitor by m
            ≡ silence by (any_unavailable (take 10 chain))
      by_reason SuppressedBy.maintenance = refl
      by_reason _ = rw (walk-any_unavailable 10 m.parent_monitor_id chain c) refl

-- ===== src/Control/Ingest/Tests.antt =====
-- The theorems on one monitor, at concrete results.
use uptime_cairn.Base.{◌≡◌, ◌↔◌, refl, inl, true, [], ◌∷◌, ◌++◌, Option, none, some, arith, take}
use uptime_cairn.Probe.Wire.{Result, Outcome}
use uptime_cairn.Model.{
  EntityId, Monitor, MonitorState, MonitorStatus, Status, Suppression, SuppressedBy,
}
use uptime_cairn.Store.{Loaded, found}
use uptime_cairn.Control.Samples.{site, state_at, result_of}
use uptime_cairn.Control.Ingest.{
  Applied, apply, no_alert, should_resend, suppression, ancestor_state, new_beat,
}
use uptime_cairn.Control.Ingest.Apply.{fires_iff, Announces}
use uptime_cairn.Control.Ingest.Verdict.{
  replay, verdict_since_success, redelivery_counts_twice, probe_trouble_realerts, failures,
  status_after,
}
use uptime_cairn.Control.Ingest.Dependency.{suppression-Ancestors, any_unavailable, silence}

abbrev get : Option Applied → Applied → Applied
get none a = a
get (some b) a = b

abbrev blank : Applied
unfolding apply
blank = record {
  beat =
      new_beat (state_at MonitorStatus.up 0) (result_of Outcome.up 1) 9 Status.up
        Suppression.unsuppressed;
  state = state_at MonitorStatus.up 0;
  alert = no_alert;
}

applied : MonitorState → Result → Suppression → Applied
unfolding apply blank
applied st r silent = get (apply site st r 9 silent) blank

abbrev up_0 : MonitorState
up_0 = state_at MonitorStatus.up 0

abbrev pending_1 : MonitorState
pending_1 = state_at MonitorStatus.pending 1

abbrev pending_2 : MonitorState
pending_2 = state_at MonitorStatus.pending 2

abbrev down_6 : MonitorState
down_6 = state_at MonitorStatus.down 6

abbrev failing : Result
failing = result_of Outcome.down 3

abbrev unseen : Result
unseen = result_of Outcome.unknown 4

abbrev unsuppressed : Suppression
unsuppressed = Suppression.unsuppressed

-- A third failed check of a pending monitor.
third_applied :
    apply site pending_2 failing 9 unsuppressed ≡ some (applied pending_2 failing unsuppressed)
unfolding applied apply blank
third_applied = refl

fires_iff_example :
    ((applied pending_2 failing unsuppressed).alert.fire ≡ true)
    ↔ Announces site pending_2 (applied pending_2 failing unsuppressed).state
fires_iff_example =
    fires_iff site pending_2 failing 9 {a = applied pending_2 failing unsuppressed} third_applied

silent_applied :
    apply site up_0 failing 9 Suppression.maintenance
    ≡ some (applied up_0 failing Suppression.maintenance)
unfolding applied apply blank
silent_applied = refl

unseen-applied : apply site down_6 unseen 9 unsuppressed ≡ some (applied down_6 unseen unsuppressed)
unfolding applied apply blank
unseen-applied = refl

verdict_since_success_example :
    let history = failing ∷ [] in
    let rs = failing ∷ unseen ∷ failing ∷ failing ∷ [] in
    let st' = replay site 9 pending_2 (history ++ result_of Outcome.up 2 ∷ rs) in
    (st'.consecutive_failures ≡ failures rs) × (st'.status ≡ status_after 2 (failures rs))
verdict_since_success_example =
    verdict_since_success site 9 pending_2 (failing ∷ []) (result_of Outcome.up 2)
      (failing ∷ unseen ∷ failing ∷ failing ∷ []) refl
      (
        (λ e. absurd (ground arith)),
        (
          (λ e. absurd (ground arith)),
          ((λ e. absurd (ground arith)), ((λ e. absurd (ground arith)), tt)),
        ),
      )

second_applied :
    apply site pending_1 failing 9 unsuppressed ≡ some (applied pending_1 failing unsuppressed)
unfolding applied apply blank
second_applied = refl

resent_applied :
    apply site (applied pending_1 failing unsuppressed).state failing 9 unsuppressed
    ≡ some (applied (applied pending_1 failing unsuppressed).state failing unsuppressed)
unfolding applied apply blank
resent_applied = refl

redelivery_counts_twice_example :
    let a = applied pending_1 failing unsuppressed in
    let b = applied a.state failing unsuppressed in
    (a.state.status ≡ MonitorStatus.pending)
    × (b.state.status ≡ MonitorStatus.down)
    × (b.alert.fire ≡ true)
    × (b.beat.time ≡ a.beat.time)
redelivery_counts_twice_example =
    redelivery_counts_twice site 9 pending_1 failing {a = applied pending_1 failing unsuppressed}
      {b = applied (applied pending_1 failing unsuppressed).state failing unsuppressed} refl refl
      second_applied resent_applied

due : should_resend site down_6 ≡ true
unfolding should_resend
due = ground arith

probe_trouble_realerts_example :
    ((applied down_6 unseen unsuppressed).alert.fire ≡ true)
    × (should_resend site (applied down_6 unseen unsuppressed).state ≡ true)
probe_trouble_realerts_example =
    probe_trouble_realerts site 9 down_6 unseen {a = applied down_6 unseen unsuppressed} (inl refl)
      due unseen-applied

-- A monitor below a router that is down, which no other monitor is above.
abbrev leaf : Monitor
leaf = record site { id = 8; parent_monitor_id = some 7 }

abbrev router_state : EntityId → Loaded MonitorState
router_state id = found (state_at MonitorStatus.down 6)

abbrev router : EntityId → Loaded Monitor
router id = found site

router_read :
    ancestor_state (λ id. none) router_state router 7 ≡ found (state_at MonitorStatus.down 6)
unfolding ancestor_state
router_read = refl

suppression-Ancestors_example :
    suppression (λ id. none) router_state router leaf up_0
    ≡ silence SuppressedBy.nothing
        (any_unavailable (take 10 ((state_at MonitorStatus.down 6, site) ∷ [])))
suppression-Ancestors_example =
    suppression-Ancestors (λ id. none) router_state router leaf up_0
      ((state_at MonitorStatus.down 6, site) ∷ []) (7, refl, router_read, refl, refl)

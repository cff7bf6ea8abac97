-- ===== src/Control/Ingest/Verdict.antt =====
-- Sequences of results: the verdict against the count of failures, and when alerts repeat
-- (apply and shouldResend, internal/controlplane/ingest.go).

use uptime_cairn.Base.{
  ℕ, ◌+◌, ◌-◌, ◌%◌, ◌<◌, ◌≡◌, ◌≢◌, ◌⊎◌, refl, true, ◌&&◌, ◌||◌, List, [], ◌∷◌, ◌++◌, Option, none,
  some, ltb, ◌==◌, if◌then◌else◌, arith,
}
use uptime_cairn.Probe.Wire.{Result, Outcome}
use uptime_cairn.Model.{EntityId, MonitorStatus, Suppression, Monitor, MonitorState}
use uptime_cairn.Control.Ingest.{Applied, apply, should_resend}

-- The state after one unsuppressed result, unchanged by an outcome that is refused.
abbrev pub after : MonitorState → Option Applied → MonitorState
after st none = st
after st (some a) = a.state

pub replay : Monitor → EntityId → MonitorState → List Result → MonitorState
replay m p st [] = st
replay m p st (r ∷ rs) = replay m p (after st (apply m st r p Suppression.unsuppressed)) rs

replay-append :
    (m : Monitor) (p : EntityId) (st : MonitorState) (xs ys : List Result)
    → replay m p st (xs ++ ys) ≡ replay m p (replay m p st xs) ys
unfolding replay
replay-append m p st [] ys = refl
replay-append m p st (x ∷ xs) ys =
    replay-append m p (after st (apply m st x p Suppression.unsuppressed)) xs ys

abbrev one_if_down : Outcome → ℕ
one_if_down Outcome.down = 1
one_if_down _ = 0

abbrev pub failures : List Result → ℕ
failures [] = 0
failures (r ∷ rs) = one_if_down r.outcome + failures rs

-- No result of the list reports the target up.
abbrev NoneUp : List Result → Type 0
NoneUp [] = Unit
NoneUp (r ∷ rs) = (r.outcome ≢ Outcome.up) × NoneUp rs

-- The status that a number of failures since the last success stands for.
abbrev pub status_after : ℕ → ℕ → MonitorStatus
status_after retries failed =
    if failed == 0
    then MonitorStatus.up
    else if ltb retries failed
    then MonitorStatus.down
    else MonitorStatus.pending

abbrev Counts : Monitor → ℕ → MonitorState → Type 0
Counts m n st = (st.consecutive_failures ≡ n) × (st.status ≡ status_after m.retries n)

step-Counts :
    (m : Monitor) (p : EntityId) (st : MonitorState) (n : ℕ) (r : Result)
    → Counts m n st
    → r.outcome ≢ Outcome.up
    → Counts m (n + one_if_down r.outcome) (after st (apply m st r p Suppression.unsuppressed))
unfolding apply
step-Counts m p st n r c h = ground arith

replay-Counts :
    (m : Monitor) (p : EntityId) (st : MonitorState) (n : ℕ) (rs : List Result)
    → Counts m n st
    → NoneUp rs
    → Counts m (n + failures rs) (replay m p st rs)
unfolding replay
replay-Counts m p st n [] c h = let e : n + 0 ≡ n = omega arith in rw e c
replay-Counts m p st n (r ∷ rs) c h =
    let st' = after st (apply m st r p Suppression.unsuppressed) in
    let e : n + (one_if_down r.outcome + failures rs) ≡ n + one_if_down r.outcome + failures rs =
      omega arith in
    rw e (replay-Counts m p st' (n + one_if_down r.outcome) rs (step-Counts m p st n r c h.0) h.1)

up-Counts :
    (m : Monitor) (p : EntityId) (st : MonitorState) (r : Result)
    → r.outcome ≡ Outcome.up
    → Counts m 0 (after st (apply m st r p Suppression.unsuppressed))
unfolding apply
up-Counts m p st r h = ground arith

-- Whatever came before, the verdict follows the unsuppressed results since the last success: with
-- no failed check among them the monitor is up, with more failed checks than its retries it is
-- down, and else it is pending, and its failure count is their number; results about the probe
-- itself count for nothing.
pub verdict_since_success :
    (m : Monitor) (p : EntityId) (st : MonitorState) (history : List Result) (r : Result)
    (rs : List Result)
    → r.outcome ≡ Outcome.up
    → NoneUp rs
    → let st' = replay m p st (history ++ r ∷ rs) in
      (st'.consecutive_failures ≡ failures rs) × (st'.status ≡ status_after m.retries (failures rs))
unfolding replay
verdict_since_success m p st history r rs h none_up =
    let before = replay m p st history in
    let start = after before (apply m before r p Suppression.unsuppressed) in
    let e : 0 + failures rs ≡ failures rs = omega arith in
    rw (replay-append m p st history (r ∷ rs))
      (rw e at (replay-Counts m p start 0 rs (up-Counts m p before r h) none_up))

-- A failed check of a monitor that already has failed ones, and whose status is the one that their
-- number stands for, raises an alert when it is the first beyond the retries, and later each time
-- that another resend_after failed checks have passed; it raises none otherwise.
pub down_alert_cadence :
    (m : Monitor) (p : EntityId) (st : MonitorState) (r : Result) {a : Applied}
    → r.outcome ≡ Outcome.down
    → 0 < st.consecutive_failures
    → st.status ≡ status_after m.retries st.consecutive_failures
    → apply m st r p Suppression.unsuppressed ≡ some a
    → a.alert.fire ≡ (
        st.consecutive_failures == m.retries
        || ltb 0 m.resend_after
          && ltb m.retries st.consecutive_failures
          && (st.consecutive_failures - m.retries) % m.resend_after == 0)
unfolding apply
down_alert_cadence m p st r o h c e = ground arith

-- A failed check that is delivered twice counts twice: for a monitor with one failed check fewer
-- than its retries it leads to pending at the first delivery, and to down, with an alert, at the
-- second, with two heartbeats of the same time.
pub redelivery_counts_twice :
    (m : Monitor) (p : EntityId) (st : MonitorState) (r : Result) {a b : Applied}
    → r.outcome ≡ Outcome.down
    → st.consecutive_failures + 1 ≡ m.retries
    → apply m st r p Suppression.unsuppressed ≡ some a
    → apply m a.state r p Suppression.unsuppressed ≡ some b
    → (a.state.status ≡ MonitorStatus.pending)
      × (b.state.status ≡ MonitorStatus.down)
      × (b.alert.fire ≡ true)
      × (b.beat.time ≡ a.beat.time)
unfolding apply
redelivery_counts_twice m p st r o h e f = ground arith

-- While a monitor is down and its last failed check was one at which the alert is repeated, each
-- result that says nothing of the target raises the alert again.
pub probe_trouble_realerts :
    (m : Monitor) (p : EntityId) (st : MonitorState) (r : Result) {a : Applied}
    → (r.outcome ≡ Outcome.unknown) ⊎ (r.outcome ≡ Outcome.skipped)
    → should_resend m st ≡ true
    → apply m st r p Suppression.unsuppressed ≡ some a
    → (a.alert.fire ≡ true) × (should_resend m a.state ≡ true)
unfolding apply
probe_trouble_realerts m p st r o h e = ground arith

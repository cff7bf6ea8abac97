-- ===== src/Probe/Schedule.antt =====
-- internal/probe/scheduler.go: the queue of due checks. container/heap is modelled by what it promises,
-- that Pop takes out an element that no other is less than; the mutex makes each method one step.
pub mod Pops
pub mod Phase
mod Tests
use Prim.Native.Nat.{bit_xor}
use uptime_cairn.Base.{
  ℕ, ◌*◌, ◌%◌, ◌^◌, Bool, true, false, not, List, [], ◌∷◌, ◌++◌, if◌then◌else◌, ◌==◌, length,
}
use uptime_cairn.Base.Int.{ℤ, pos, negsuc, ◌+ℤ◌, ◌-ℤ◌, ◌*ℤ◌, ltb_ℤ, floor_div}
use uptime_cairn.Base.Bytes.{Bytes}
use uptime_cairn.Model.{EntityId, Instant, id_string}

-- A monitor's string form is a function of its id, which stands for it here.
pub record Task : Type 0 where
  pub monitor_id : EntityId
  pub due : Instant
  pub attempt : ℕ

pub push : Task → List Task → List Task
push t queue = queue ++ t ∷ []

-- A task that is due no later than any other, and the others.
pub earliest : Task → List Task → Task × List Task
earliest t [] = (t, [])
earliest t (u ∷ rest) =
    let (first, others) = earliest u rest in
    if ltb_ℤ first.due t.due then (first, t ∷ others) else (t, u ∷ rest)

pub data Popped : Type 0 where
  empty : Popped
  waiting : ℤ → Popped
  ready : Task → List Task → Popped

pub pop_first : Instant → Task × List Task → Popped
unfolding ◌-ℤ◌
pop_first now (first, others) =
    if ltb_ℤ now first.due then waiting (first.due -ℤ now) else ready first others

pub pop : Instant → List Task → Popped
unfolding earliest pop_first
pop now [] = empty
pop now (t ∷ rest) = pop_first now (earliest t rest)

pub drop_monitor : EntityId → List Task → List Task
drop_monitor id [] = []
drop_monitor id (t ∷ rest) =
    let kept = drop_monitor id rest in if t.monitor_id == id then kept else t ∷ kept

-- fnv.New64a
fnv_from : ℕ → Bytes → ℕ
fnv_from h [] = h
fnv_from h (c ∷ rest) = fnv_from (bit_xor h c * 1099511628211 % 2 ^ 64) rest

pub fnv : Bytes → ℕ
unfolding fnv_from
fnv text = fnv_from 14695981039346656037 text

-- The first of January of the year 1, from which Time.Truncate counts.
abbrev pub year_one : Instant
year_one = negsuc 62_135_596_799_999_999_999

pub truncate : Instant → ℕ → Instant
unfolding ◌+ℤ◌ ◌-ℤ◌ ◌*ℤ◌ floor_div
truncate t interval = year_one +ℤ floor_div (t -ℤ year_one) interval *ℤ pos interval

-- firstDue for an offset within the interval.
pub due_at : ℕ → ℕ → Instant → Instant
unfolding truncate ◌+ℤ◌
due_at offset interval now =
    let due = truncate now interval +ℤ pos offset in
    if ltb_ℤ now due then due else due +ℤ pos interval

pub first_due : EntityId → ℕ → Instant → Instant
unfolding due_at fnv id_string
first_due id interval now = due_at (fnv (id_string id) % interval) interval now

-- ===== src/Probe/Schedule/Tests.antt =====
-- The theorems on the queue, at two tasks and at one monitor.
use uptime_cairn.Base.{◌%◌, ◌≡◌, ◌↔◌, refl, [], ◌∷◌, arith}
use uptime_cairn.Base.Int.{pos}
use uptime_cairn.Base.Bytes.{codes}
use uptime_cairn.Model.{id_string}
use uptime_cairn.Probe.Schedule.{Task, ready, pop, drop_monitor, first_due, fnv}
use uptime_cairn.Probe.Schedule.Phase.{IsDue, first_due_iff}

abbrev late_task : Task
late_task = record { monitor_id = 7; due = pos 90; attempt = 1 }

abbrev early_task : Task
early_task = record { monitor_id = 9; due = pos 40; attempt = 2 }

takes_the_earlier : pop (pos 50) (late_task ∷ early_task ∷ []) ≡ ready early_task (late_task ∷ [])
unfolding pop
takes_the_earlier = refl

drops_one_monitor : drop_monitor 7 (late_task ∷ early_task ∷ late_task ∷ []) ≡ early_task ∷ []
unfolding drop_monitor
drops_one_monitor = refl

hash_of_a : fnv (codes "a") ≡ 0xaf63dc4c8601ec8c
unfolding fnv
hash_of_a = refl

dashes : id_string 1 ≡ codes "00000000-0000-0000-0000-000000000001"
unfolding id_string
dashes = refl

first_due_iff_example :
    IsDue
      (fnv (id_string 7) % 60_000_000_000)
      60_000_000_000
      (pos 5)
      (first_due 7 60_000_000_000 (pos 5))
    ↔ (first_due 7 60_000_000_000 (pos 5) ≡ first_due 7 60_000_000_000 (pos 5))
first_due_iff_example =
    first_due_iff 7 60_000_000_000 (pos 5) (first_due 7 60_000_000_000 (pos 5)) (omega arith)

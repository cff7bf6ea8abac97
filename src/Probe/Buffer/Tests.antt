-- ===== src/Probe/Buffer/Tests.antt =====
-- The theorems on the buffer, at concrete results.
use uptime_cairn.Base.{
  ℕ, ◌≡◌, ◌≤◌, ◌⊎◌, refl, Bool, true, false, [], ◌∷◌, ◌++◌, none, arith, length,
}
use uptime_cairn.Base.Int.{pos}
use uptime_cairn.Base.Bytes.{leb_bytes}
use uptime_cairn.Probe.Wire.{Result, Outcome}
use uptime_cairn.Probe.Buffer.{Buffer, new_buffer, add, changes, total_size, approx_size}
use uptime_cairn.Probe.Buffer.Bounds.{Inv, run_new-Inv, run, adds, nexts, acks, rewinds}
use uptime_cairn.Probe.Buffer.Shedding.{changes-add, add_bounds}

abbrev sample : ℕ → Bool → Result
sample id changed = record {
  result_id = id ∷ [];
  monitor_id = [];
  time_unix_micros = pos 0;
  outcome = Outcome.down;
  response_time_ns = 0;
  code = [];
  message = [];
  attempt = 1;
  outcome_changed = changed;
  certificate = none;
  domain = none;
}

-- Two results, the first in flight, in a buffer of at most two.
abbrev full : Buffer
full = record {
  items = sample 1 false ∷ sample 2 true ∷ [];
  sent = 1;
  bytes = 130;
  shed = 0;
  max_items = 2;
  max_bytes = 1000;
}

full-Inv : Inv full
unfolding total_size approx_size
full-Inv = record { bytes_exact = refl; sent_in_range = omega arith }

-- Adding a third sheds the one that records no change.
add_sheds : (add full (sample 3 true)).items ≡ sample 2 true ∷ sample 3 true ∷ []
unfolding add
add_sheds = refl

run_new-Inv_example : Inv (
    run new_buffer
      (adds (sample 1 true) ∷ adds (sample 2 false) ∷ nexts 1 ∷ acks (1 ∷ []) ∷ rewinds ∷ []))
run_new-Inv_example =
    run_new-Inv
      (adds (sample 1 true) ∷ adds (sample 2 false) ∷ nexts 1 ∷ acks (1 ∷ []) ∷ rewinds ∷ [])

changes-add_example :
    changes (add full (sample 3 true)).items ≡ changes full.items ++ changes (sample 3 true ∷ [])
changes-add_example = changes-add full (sample 3 true) full-Inv

add_bounds_example :
    ((length (add full (sample 3 true)).items ≤ 2) × ((add full (sample 3 true)).bytes ≤ 1000))
    ⊎ (changes (add full (sample 3 true)).items ≡ (add full (sample 3 true)).items)
add_bounds_example = add_bounds full (sample 3 true) full-Inv

ordered : leb_bytes (1 ∷ []) (2 ∷ []) ≡ true
unfolding leb_bytes
ordered = refl

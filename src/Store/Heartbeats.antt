-- ===== src/Store/Heartbeats.antt =====
-- WriteBatch (internal/store/sqlite/heartbeats.go): inserts that do nothing on a conflict of the key
-- (org_id, monitor_id, time, probe_id).
pub mod Idempotence
mod Tests
use uptime_cairn.Base.{
  ℕ, ◌+◌, ◌*◌, ◌/◌, Bool, true, false, ◌&&◌, ◌||◌, List, [], ◌∷◌, ◌++◌, Option, none, some, ◌==◌,
  if◌then◌else◌,
}
use uptime_cairn.Base.Int.{floor_div, eqb_ℤ, ◌*ℤ◌, pos}
use uptime_cairn.Model.{Heartbeat, of_micros}

stored_response : Option ℕ → Option ℕ
stored_response none = none
stored_response (some ns) = some (ns / 1000 * 1000)

-- What a row holds of a heartbeat: times and response times in whole microseconds.
unfoldable pub row_of : Heartbeat → Heartbeat
unfolding floor_div of_micros stored_response
row_of b = record b {
  time = of_micros (floor_div b.time 1000);
  response_time = stored_response b.response_time;
}

unfoldable pub same_key : Heartbeat → Heartbeat → Bool
same_key a b =
    a.org_id == b.org_id
    && a.monitor_id == b.monitor_id
    && eqb_ℤ a.time b.time
    && a.probe_id == b.probe_id

pub has_key : Heartbeat → List Heartbeat → Bool
unfolding same_key
has_key b [] = false
has_key b (row ∷ rows) = same_key row b || has_key b rows

-- The rows and the number of them that were inserted.
pub insert_row : List Heartbeat → Heartbeat → List Heartbeat × ℕ
unfolding has_key row_of
insert_row rows b = if has_key (row_of b) rows then (rows, 0) else (rows ++ row_of b ∷ [], 1)

unfoldable pub write_batch : List Heartbeat → List Heartbeat → List Heartbeat × ℕ
unfolding insert_row
write_batch rows [] = (rows, 0)
write_batch rows (b ∷ beats) =
    let (rows', n) = insert_row rows b in
    let (rows'', written) = write_batch rows' beats in (rows'', n + written)

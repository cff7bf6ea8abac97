-- ===== src/Store/Heartbeats/Tests.antt =====
-- The theorems on stored heartbeats, at concrete ones.
use uptime_cairn.Base.{ℕ, ◌≡◌, refl, false, List, [], ◌∷◌, none}
use uptime_cairn.Base.Int.{pos}
use uptime_cairn.Model.{Heartbeat, Status, Suppression}
use uptime_cairn.Store.Heartbeats.{write_batch}
use uptime_cairn.Store.Heartbeats.Idempotence.{write_batch_idem}

abbrev beat_at : ℕ → Heartbeat
beat_at t = record {
  time = pos t;
  monitor_id = 7;
  org_id = 1;
  probe_id = 9;
  status = Status.up;
  response_time = none;
  code = [];
  message = [];
  attempt = 1;
  important = false;
  suppressed = false;
  suppression_reason = Suppression.unsuppressed;
}

-- The second and third fall into one microsecond.
abbrev batch : List Heartbeat
batch = beat_at 1000 ∷ beat_at 2000 ∷ beat_at 2001 ∷ []

two_rows : (write_batch [] batch).1 ≡ 2
unfolding write_batch
two_rows = refl

write_batch_idem_example :
    let later = (write_batch (write_batch [] batch).0 (beat_at 9000 ∷ [])).0 in
    write_batch later batch ≡ (later, 0)
write_batch_idem_example = write_batch_idem [] batch (beat_at 9000 ∷ [])

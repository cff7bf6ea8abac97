-- ===== src/Control/Batch.antt =====
-- ingestResults (internal/controlplane/ingest.go): a batch of results against the store, from the
-- sort to the acknowledgement. The store does not change under the loop, which only reads it.
mod Accounting
mod Durability
mod Tests
use uptime_cairn.Base.{
  ℕ, ◌+◌, ◌%◌, ◌^◌, ◌==◌, Bool, true, false, List, [], ◌∷◌, ◌++◌, Option, none, some, length,
  if◌then◌else◌,
}
use uptime_cairn.Base.Int.{leb_ℤ}
use uptime_cairn.Base.Bytes.{Bytes}
use uptime_cairn.Base.Maps.{lookup, insert}
use uptime_cairn.Probe.Wire.{Result, Outcome}
use uptime_cairn.Model.{EntityId, Instant, id_of_bytes, Monitor, MonitorState, Heartbeat}
use uptime_cairn.Store.{Loaded, found, missing, failed}
use uptime_cairn.Store.Heartbeats.{write_batch}
use uptime_cairn.Store.States.{update_state}
use uptime_cairn.Control.Ingest.{Alert, Applied, apply, suppression}
use uptime_cairn.Control.Observations.{Observed, PendingAlert, Expiries, record_all}

-- The store, with the statements that fail: the batch insert, and the update of a monitor's state.
pub record Database : Type 0 where
  pub load_monitor : EntityId → Loaded Monitor
  pub get_state : EntityId → Loaded MonitorState
  pub heartbeats : List Heartbeat
  pub write_fails : Bool
  pub save_fails : EntityId → Bool
  pub expiries : Expiries

-- What the loop does not set has its zero value: `duplicate` always.
pub record Ack : Type 0 where
  pub acknowledged_through : Bytes
  pub accepted : ℕ
  pub duplicate : ℕ
  pub rejected : ℕ

-- Everything that a call leaves behind. An error keeps what was written before it.
pub record BatchResult : Type 0 where
  pub database : Database
  pub ack : Option Ack
  pub beats : List Heartbeat
  pub raised : List PendingAlert

-- sort.SliceStable by time.
pub insert_by_time : Result → List Result → List Result
insert_by_time r [] = r ∷ []
insert_by_time r (x ∷ xs) =
    if leb_ℤ r.time_unix_micros x.time_unix_micros then r ∷ x ∷ xs else x ∷ insert_by_time r xs

pub sort_by_time : List Result → List Result
unfolding insert_by_time
sort_by_time [] = []
sort_by_time (r ∷ rs) = insert_by_time r (sort_by_time rs)

-- The variables of the loop.
pub record Loop : Type 0 where
  pub beats : List Heartbeat
  pub pending : List PendingAlert
  pub observations : List Observed
  pub rejected : ℕ
  pub states : List (EntityId × MonitorState)
  pub monitors : List (EntityId × Monitor)

abbrev pub start : Loop
start = record {
  beats = [];
  pending = [];
  observations = [];
  rejected = 0;
  states = [];
  monitors = [];
}

-- A cached value, or the store's.
abbrev cached_or : {A : Type 0} → Option A → Loaded A → Loaded A
cached_or (some a) loaded = found a
cached_or none loaded = loaded

abbrev pub reject : Loop → Loop
reject l = record l { rejected = (l.rejected + 1) % 2 ^ 32 }

has_observation : Result → Bool
has_observation r = elim r.certificate [
  | some c ↦ true
  | none ↦ elim r.domain [ some d ↦ true | none ↦ false ]
]

-- What the loop appends once a result is applied.
pub collect : Monitor → EntityId → Result → Applied → Loop → Loop
unfolding insert has_observation
collect m id r a l = record l {
  beats = l.beats ++ a.beat ∷ [];
  observations =
      if has_observation r
      then l.observations
        ++ record { monitor = m; beat = a.beat; status = a.state.status; result = r } ∷ []
      else l.observations;
  pending =
      if a.alert.fire
      then l.pending ++ record { monitor = m; beat = a.beat; alert = a.alert; status = none } ∷ []
      else l.pending;
  states = insert id a.state l.states;
  monitors = insert id m l.monitors;
}

-- `apply` returns an error for an outcome that its switch does not know, and the batch fails with it.
pub collect_applied : Monitor → EntityId → Result → Option Applied → Loop → Option Loop
unfolding collect
collect_applied m id r none l = none
collect_applied m id r (some a) l = some (collect m id r a l)

pub apply_loaded :
    Database → EntityId → Result → EntityId → Loop → Monitor → Loaded MonitorState → Option Loop
unfolding collect_applied insert lookup
apply_loaded db probe_id r id l m missing = none
apply_loaded db probe_id r id l m failed = none
apply_loaded db probe_id r id l m (found st) =
    let states = insert id st l.states in
    let silent = suppression (λ parent. lookup parent states) db.get_state db.load_monitor m st in
    collect_applied m id r (apply m st r probe_id silent) (record l { states = states })

pub load_and_apply : Database → EntityId → Result → EntityId → Loop → Loaded Monitor → Option Loop
unfolding apply_loaded lookup
load_and_apply db probe_id r id l failed = none
load_and_apply db probe_id r id l missing = some (reject l)
load_and_apply db probe_id r id l (found m) =
    apply_loaded db probe_id r id l m (cached_or (lookup id l.states) (db.get_state id))

ingest_outcome : Database → EntityId → Outcome → Result → Loop → Option Loop
unfolding load_and_apply lookup id_of_bytes
ingest_outcome db probe_id Outcome.unspecified r l = some (reject l)
ingest_outcome db probe_id o r l =
    let id = id_of_bytes r.monitor_id in
    load_and_apply db probe_id r id l (cached_or (lookup id l.monitors) (db.load_monitor id))

-- One round of the loop; `none` is the return of an error.
pub ingest_one : Database → EntityId → Result → Loop → Option Loop
unfolding ingest_outcome
ingest_one db probe_id r l = ingest_outcome db probe_id r.outcome r l

pub ingest_loop : Database → EntityId → List Result → Loop → Option Loop
unfolding ingest_one
ingest_loop db probe_id [] l = some l
ingest_loop db probe_id (r ∷ rs) l = elim (ingest_one db probe_id r l) [
  | none ↦ none
  | some l' ↦ ingest_loop db probe_id rs l'
]

abbrev save_found : MonitorState → Loaded MonitorState → Loaded MonitorState
save_found st (found row) = found (update_state row st)
save_found st missing = missing
save_found st failed = failed

save_one : Database → MonitorState → Database
save_one db st = record db {
  get_state = λ j. if st.monitor_id == j then save_found st (db.get_state j) else db.get_state j;
}

-- SaveState for each state of the batch; `false` is the return of an error. A Go map gives them in
-- no fixed order, which matters only where one of the updates fails.
pub save_states : Database → List (EntityId × MonitorState) → Database × Bool
unfolding save_one
save_states db [] = (db, true)
save_states db ((id, st) ∷ rest) =
    let more = save_states (save_one db st) rest in
    if db.save_fails st.monitor_id then (db, false) else more

pub last_id : List Result → Bytes
last_id [] = []
last_id (r ∷ []) = r.result_id
last_id (r ∷ x ∷ rest) = last_id (x ∷ rest)

refused : Database → BatchResult
refused db = record { database = db; ack = none; beats = []; raised = [] }

-- The end of the call, with the observations recorded after the states are saved.
pub finish : (Instant → Bytes) → List Result → Loop → Database × Bool → BatchResult
unfolding last_id refused
finish rfc3339 results l (db, false) = refused db
finish rfc3339 results l (db, true) =
    let (expiries, alerts) = record_all rfc3339 db.expiries l.observations in
    record {
      database = record db { expiries = expiries };
      ack = some (record {
        acknowledged_through = last_id results;
        accepted = length l.beats % 2 ^ 32;
        duplicate = 0;
        rejected = l.rejected;
      });
      beats = l.beats;
      raised = l.pending ++ alerts;
    }

-- A batch without heartbeats opens no transaction.
pub write_error : Database → List Heartbeat → Bool
write_error db [] = false
write_error db (b ∷ beats) = db.write_fails

pub write_and_finish : (Instant → Bytes) → Database → List Result → Option Loop → BatchResult
unfolding finish save_states refused write_error
write_and_finish rfc3339 db results none = refused db
write_and_finish rfc3339 db results (some l) =
    let written = record db { heartbeats = (write_batch db.heartbeats l.beats).0 } in
    if write_error db l.beats
    then refused db
    else finish rfc3339 results l (save_states written l.states)

abbrev empty_ack : Ack
empty_ack = record { acknowledged_through = []; accepted = 0; duplicate = 0; rejected = 0 }

pub ingest_results : (Instant → Bytes) → EntityId → Database → List Result → BatchResult
unfolding write_and_finish ingest_loop sort_by_time
ingest_results rfc3339 probe_id db [] = record {
  database = db;
  ack = some empty_ack;
  beats = [];
  raised = [];
}
ingest_results rfc3339 probe_id db (r ∷ rs) =
    write_and_finish rfc3339 db (r ∷ rs) (ingest_loop db probe_id (sort_by_time (r ∷ rs)) start)

-- ===== src/Control/Batch/Durability.antt =====
-- Nothing is acknowledged or announced that is not stored (ingestResults,
-- internal/controlplane/ingest.go).
use uptime_cairn.Base.{
  ◌≡◌, refl, Bool, true, false, List, [], ◌∷◌, ◌++◌, Option, none, some, inl, inr, Option-cases,
  arith, if◌then◌else◌,
}
use uptime_cairn.Base.Bytes.{Bytes}
use uptime_cairn.Probe.Wire.{Result, Outcome}
use uptime_cairn.Model.{EntityId, Instant, id_of_bytes, Monitor, MonitorState, Heartbeat}
use uptime_cairn.Store.{Loaded, found, missing, failed}
use uptime_cairn.Store.Heartbeats.{row_of, has_key, write_batch}
use uptime_cairn.Store.Heartbeats.Idempotence.{
  AllStored, write_batch-AllStored, AllStored-append_split, has_key-words,
}
use uptime_cairn.Control.Ingest.{Applied}
use uptime_cairn.Control.Observations.{Observed, PendingAlert}
use uptime_cairn.Control.Observations.Alerts.{
  AllAlerts, AllObserved, AllAlerts-append, record_all-AllAlerts,
}
use uptime_cairn.Control.Batch.{
  Database, Ack, BatchResult, Loop, start, sort_by_time, collect, collect_applied, has_observation,
  apply_loaded, write_error, load_and_apply, ingest_outcome, ingest_one, ingest_loop, save_one,
  save_states, refused, finish, write_and_finish, ingest_results, last_id, reject,
}

module _ (rows : List Heartbeat) where
  abbrev pub HasRow : Heartbeat → Type 0
  HasRow b = has_key (row_of b) rows ≡ true

  pub words :
      (b : Heartbeat) (message code : Bytes)
      → HasRow b
      → HasRow (record b { message = message; code = code })
  words b message code h = has_key-words b message code rows h

  -- Every alert is about a heartbeat that has a row, though an expiry alert changes its words.
  abbrev pub AlertsStored : List PendingAlert → Type 0
  AlertsStored = AllAlerts HasRow words

  abbrev ObservedStored : List Observed → Type 0
  ObservedStored = AllObserved HasRow words

ObservedStored-append :
    (rows : List Heartbeat) (xs ys : List Observed)
    → ObservedStored rows xs
    → ObservedStored rows ys
    → ObservedStored rows (xs ++ ys)
ObservedStored-append rows [] ys s t = t
ObservedStored-append rows (x ∷ xs) ys s t = (s.0, ObservedStored-append rows xs ys s.1 t)

-- What the loop holds back is about heartbeats that it collected.
record Sound (l : Loop) : Type 0 where
  alerts : (rows : List Heartbeat) → AllStored l.beats rows → AlertsStored rows l.pending
  observed : (rows : List Heartbeat) → AllStored l.beats rows → ObservedStored rows l.observations

reject-Sound : (l : Loop) → Sound l → Sound (reject l)
reject-Sound l s = record { alerts = s.alerts; observed = s.observed }

pending_if :
    (rows : List Heartbeat) (fire : Bool) (xs : List PendingAlert) (a : PendingAlert)
    → AlertsStored rows xs
    → HasRow rows a.beat
    → AlertsStored rows (if fire then xs ++ a ∷ [] else xs)
pending_if rows true xs a s h = AllAlerts-append (HasRow rows) (words rows) xs (a ∷ []) s (h, tt)
pending_if rows false xs a s h = s

observed_if :
    (rows : List Heartbeat) (carries : Bool) (xs : List Observed) (o : Observed)
    → ObservedStored rows xs
    → HasRow rows o.beat
    → ObservedStored rows (if carries then xs ++ o ∷ [] else xs)
observed_if rows true xs o s h = ObservedStored-append rows xs (o ∷ []) s (h, tt)
observed_if rows false xs o s h = s

collect-Sound :
    (m : Monitor) (id : EntityId) (r : Result) (a : Applied) (l : Loop)
    → Sound l
    → Sound (collect m id r a l)
unfolding collect
collect-Sound m id r a l s = record {
  alerts = λ rows stored.
      let (before, (last, _)) = AllStored-append_split l.beats (a.beat ∷ []) rows stored in
      pending_if rows a.alert.fire l.pending
        (record { monitor = m; beat = a.beat; alert = a.alert; status = none })
        (s.alerts rows before) last;
  observed = λ rows stored.
      let (before, (last, _)) = AllStored-append_split l.beats (a.beat ∷ []) rows stored in
      observed_if rows (has_observation r) l.observations
        (record { monitor = m; beat = a.beat; status = a.state.status; result = r })
        (s.observed rows before) last;
}

-- A round that is not an error.
abbrev SoundIf : Option Loop → Type 0
SoundIf none = Unit {0}
SoundIf (some l) = Sound l

collect_applied-Sound :
    (m : Monitor) (id : EntityId) (r : Result) (a : Option Applied) (l : Loop)
    → Sound l
    → SoundIf (collect_applied m id r a l)
unfolding collect_applied
collect_applied-Sound m id r none l s = tt
collect_applied-Sound m id r (some a) l s = collect-Sound m id r a l s

module _ (db : Database) (probe_id : EntityId) (r : Result) (l : Loop) (s : Sound l) where
  apply_loaded-Sound :
      (id : EntityId) (m : Monitor) (st : Loaded MonitorState)
      → SoundIf (apply_loaded db probe_id r id l m st)
  unfolding apply_loaded
  apply_loaded-Sound id m missing = tt
  apply_loaded-Sound id m failed = tt
  apply_loaded-Sound id m (found st) =
      collect_applied-Sound m id r _ _ (record { alerts = s.alerts; observed = s.observed })

  load_and_apply-Sound :
      (id : EntityId) (m : Loaded Monitor) → SoundIf (load_and_apply db probe_id r id l m)
  unfolding load_and_apply
  load_and_apply-Sound id failed = tt
  load_and_apply-Sound id missing = reject-Sound l s
  load_and_apply-Sound id (found m) = apply_loaded-Sound id m _

  ingest_outcome-Sound : (o : Outcome) → SoundIf (ingest_outcome db probe_id o r l)
  unfolding ingest_outcome
  ingest_outcome-Sound Outcome.unspecified = reject-Sound l s
  ingest_outcome-Sound _ = load_and_apply-Sound (id_of_bytes r.monitor_id) _

ingest_loop-Sound :
    (db : Database) (probe_id : EntityId) (rs : List Result) (l : Loop)
    → Sound l
    → SoundIf (ingest_loop db probe_id rs l)
unfolding ingest_loop ingest_one
ingest_loop-Sound db probe_id [] l s = s
ingest_loop-Sound db probe_id (r ∷ rs) l s =
    elim (Option-cases (ingest_outcome db probe_id r.outcome r l)) [
      | inl stop ↦ rw (stop, ingest_loop) tt
      | inr (next, go) ↦
          rw (go, ingest_loop)
            (ingest_loop-Sound db probe_id rs next
              (rw go at (ingest_outcome-Sound db probe_id r l s r.outcome)))
    ]

-- What holds of the result of a call. An acknowledgement names the last result of the batch, every
-- heartbeat of the batch has a row, and so has that of every alert. Without an acknowledgement no
-- heartbeat is handed back and no alert is raised.
abbrev pub Durable : List Result → BatchResult → Option Ack → Type 0
Durable results out none = (out.beats ≡ []) × (out.raised ≡ [])
Durable results out (some a) =
    (a.acknowledged_through ≡ last_id results)
    × AllStored out.beats out.database.heartbeats
    × AlertsStored out.database.heartbeats out.raised

save_states-heartbeats :
    (db : Database) (states : List (EntityId × MonitorState))
    → (save_states db states).0.heartbeats ≡ db.heartbeats
unfolding save_states
save_states-heartbeats db [] = refl
save_states-heartbeats db ((id, st) ∷ rest) =
    ground (arith, save_states-heartbeats (save_one db st) rest)

finish-Durable :
    (rfc3339 : Instant → Bytes) (results : List Result) (l : Loop) (db : Database) (saved : Bool)
    → Sound l
    → AllStored l.beats db.heartbeats
    → let out = finish rfc3339 results l (db, saved) in Durable results out out.ack
unfolding finish
finish-Durable rfc3339 results l db false s stored = (refl, refl)
finish-Durable rfc3339 results l db true s stored = (
  refl,
  stored,
  AllAlerts-append (HasRow db.heartbeats) (words db.heartbeats) l.pending _
      (s.alerts db.heartbeats stored)
      (record_all-AllAlerts (HasRow db.heartbeats) (words db.heartbeats) rfc3339 db.expiries
        l.observations (s.observed db.heartbeats stored)),
)

either_Durable :
    (b : Bool) (results : List Result) (x y : BatchResult)
    → Durable results x x.ack
    → Durable results y y.ack
    → let out = if b then x else y in Durable results out out.ack
either_Durable true results x y p q = p
either_Durable false results x y p q = q

write_and_finish-Durable :
    (rfc3339 : Instant → Bytes) (db : Database) (results : List Result) (o : Option Loop)
    → SoundIf o
    → let out = write_and_finish rfc3339 db results o in Durable results out out.ack
unfolding write_and_finish refused
write_and_finish-Durable rfc3339 db results none s = (refl, refl)
write_and_finish-Durable rfc3339 db results (some l) s =
    let written = record db { heartbeats = (write_batch db.heartbeats l.beats).0 } in
    let saved = save_states written l.states in
    either_Durable (write_error db l.beats) results (refused db) (finish rfc3339 results l saved)
      (refl, refl)
      (finish-Durable rfc3339 results l saved.0 saved.1 s (
        rw (save_states-heartbeats written l.states) (write_batch-AllStored db.heartbeats l.beats)))

-- A batch of results is acknowledged through its last result only after each heartbeat made of it
-- has a row, and each alert that is raised, an expiry alert too, is about a heartbeat that has
-- one; a batch that is not acknowledged raises no alert.
pub ingest-Durable :
    (rfc3339 : Instant → Bytes) (probe_id : EntityId) (db : Database) (results : List Result)
    → let out = ingest_results rfc3339 probe_id db results in Durable results out out.ack
unfolding ingest_results
ingest-Durable rfc3339 probe_id db [] = (refl, tt, tt)
ingest-Durable rfc3339 probe_id db (r ∷ rs) =
    write_and_finish-Durable rfc3339 db (r ∷ rs)
      (ingest_loop db probe_id (sort_by_time (r ∷ rs)) start)
      (ingest_loop-Sound db probe_id (sort_by_time (r ∷ rs)) start
        (record { alerts = λ rows _. tt; observed = λ rows _. tt }))

-- ===== src/Control/Batch/Accounting.antt =====
-- The counts of an acknowledgement (ingestResults, internal/controlplane/ingest.go).
use uptime_cairn.Base.{
  ℕ, suc, ◌+◌, ◌%◌, ◌^◌, ◌<◌, ◌≡◌, refl, Bool, true, false, List, [], ◌∷◌, Option, none, some, inl,
  inr, Option-cases, Bool-cases, arith, length, length-append,
}
use uptime_cairn.Probe.Wire.{Result, Outcome}
use uptime_cairn.Model.{EntityId, Instant, Monitor, MonitorState, id_of_bytes}
use uptime_cairn.Base.Maps.{lookup}
use uptime_cairn.Control.Ingest.{Applied}
use uptime_cairn.Store.{Loaded, found, missing, failed}
use uptime_cairn.Base.Bytes.{Bytes}
use uptime_cairn.Control.Batch.{
  Database, Ack, write_error, Loop, start, insert_by_time, sort_by_time, apply_loaded,
  load_and_apply, ingest_outcome, ingest_one, ingest_loop, finish, collect_applied,
  write_and_finish, ingest_results, cached_or,
}

length-insert_by_time :
    (r : Result) (rs : List Result) → length (insert_by_time r rs) ≡ suc (length rs)
unfolding insert_by_time
length-insert_by_time r [] = refl
length-insert_by_time r (x ∷ xs) = ground (arith, length-insert_by_time r xs)

length-sort_by_time : (rs : List Result) → length (sort_by_time rs) ≡ length rs
unfolding sort_by_time
length-sort_by_time [] = refl
length-sort_by_time (r ∷ rs) =
    omega (arith, length-insert_by_time r (sort_by_time rs), length-sort_by_time rs)

-- Results that a loop has dealt with.
abbrev seen : Loop → ℕ
seen l = length l.beats + l.rejected

collect_applied-seen :
    (m : Monitor) (id : EntityId) (r : Result) (a : Option Applied) (l : Loop) {l' : Loop}
    → collect_applied m id r a l ≡ some l'
    → seen l' ≡ seen l + 1
unfolding collect_applied
collect_applied-seen m id r none l e = ground arith
collect_applied-seen m id r (some a) l e = ground (arith, length-append l.beats (a.beat ∷ []))

module _ (db : Database) (probe_id : EntityId) (r : Result) (l : Loop)
    (small : seen l + 1 < 2 ^ 32) where
  apply_loaded-seen :
      (id : EntityId) (m : Monitor) (st : Loaded MonitorState) {l' : Loop}
      → apply_loaded db probe_id r id l m st ≡ some l'
      → seen l' ≡ seen l + 1
  unfolding apply_loaded
  apply_loaded-seen id m missing e = ground arith
  apply_loaded-seen id m failed e = ground arith
  apply_loaded-seen id m (found st) e = collect_applied-seen m id r _ _ e

  load_and_apply-seen :
      (id : EntityId) (m : Loaded Monitor) {l' : Loop}
      → load_and_apply db probe_id r id l m ≡ some l'
      → seen l' ≡ seen l + 1
  unfolding load_and_apply
  load_and_apply-seen id failed e = ground arith
  load_and_apply-seen id missing e = ground arith
  load_and_apply-seen id (found m) e =
      apply_loaded-seen id m (cached_or (lookup id l.states) (db.get_state id)) e

  ingest_outcome-seen :
      (o : Outcome) {l' : Loop} → ingest_outcome db probe_id o r l ≡ some l' → seen l' ≡ seen l + 1
  unfolding ingest_outcome
  ingest_outcome-seen Outcome.unspecified e = ground arith
  ingest_outcome-seen _ e =
      load_and_apply-seen (id_of_bytes r.monitor_id)
        (cached_or (lookup (id_of_bytes r.monitor_id) l.monitors)
          (db.load_monitor (id_of_bytes r.monitor_id)))
        e

ingest_loop-seen :
    (db : Database) (probe_id : EntityId) (rs : List Result) (l : Loop) {l' : Loop}
    → seen l + length rs < 2 ^ 32
    → ingest_loop db probe_id rs l ≡ some l'
    → seen l' ≡ seen l + length rs
unfolding ingest_loop ingest_one
ingest_loop-seen db probe_id [] l h e = ground arith
ingest_loop-seen db probe_id (r ∷ rs) l {l'} h e =
    elim (Option-cases (ingest_outcome db probe_id r.outcome r l)) [
      | inl stop ↦ ground arith
      | inr (next, go) ↦
          let one = ingest_outcome-seen db probe_id r l (omega arith) r.outcome go in
          let rest : ingest_loop db probe_id rs next ≡ some l' = ground arith in
          omega (arith, ingest_loop-seen db probe_id rs next (omega arith) rest)
    ]

finish-counts :
    (rfc3339 : Instant → Bytes) (results : List Result) (l : Loop) (saved : Database × Bool)
    {a : Ack}
    → (finish rfc3339 results l saved).ack ≡ some a
    → (a.accepted ≡ length l.beats % 2 ^ 32) × (a.rejected ≡ l.rejected) × (a.duplicate ≡ 0)
unfolding finish
finish-counts rfc3339 results l (db, false) e = ground arith
finish-counts rfc3339 results l (db, true) e = ground arith

write_and_finish-counts :
    (rfc3339 : Instant → Bytes) (db : Database) (results : List Result) (o : Option Loop) {a : Ack}
    → (write_and_finish rfc3339 db results o).ack ≡ some a
    → (l : Loop) × (o ≡ some l)
      × (a.accepted ≡ length l.beats % 2 ^ 32)
      × (a.rejected ≡ l.rejected)
      × (a.duplicate ≡ 0)
unfolding write_and_finish
write_and_finish-counts rfc3339 db results none e = ground arith
write_and_finish-counts rfc3339 db results (some l) e = elim (Bool-cases (write_error db l.beats)) [
  | inl stop ↦ ground arith
  | inr go ↦
      let counts = finish-counts rfc3339 results l _ (rw (go, write_and_finish) at e) in
      (l, refl, counts.0, counts.1, counts.2)
]

-- An acknowledgement counts every result of its batch as accepted or as rejected, where the batch
-- has fewer than 2 ^ 32 results, and none as a duplicate, whether or not its row was stored
-- before.
pub ingest_accounting :
    (rfc3339 : Instant → Bytes) (probe_id : EntityId) (db : Database) (results : List Result)
    {a : Ack}
    → length results < 2 ^ 32
    → (ingest_results rfc3339 probe_id db results).ack ≡ some a
    → (a.accepted + a.rejected ≡ length results) × (a.duplicate ≡ 0)
unfolding ingest_results
ingest_accounting rfc3339 probe_id db [] h e = ground arith
ingest_accounting rfc3339 probe_id db (r ∷ rs) h e =
    let sorted = sort_by_time (r ∷ rs) in
    let same : length sorted ≡ length (r ∷ rs) = length-sort_by_time (r ∷ rs) in
    let (l, run, accepted, rejected, none_duplicate) =
      write_and_finish-counts rfc3339 db (r ∷ rs) (ingest_loop db probe_id sorted start) e in
    (omega (arith, ingest_loop-seen db probe_id sorted start (omega arith) run), none_duplicate)

-- ===== src/Store/Heartbeats/Idempotence.antt =====
-- Resent heartbeats (WriteBatch, internal/store/sqlite/heartbeats.go).

use uptime_cairn.Base.{◌≡◌, refl, true, false, ◌||◌, List, [], ◌∷◌, ◌++◌, arith}
use uptime_cairn.Base.Bytes.{Bytes}
use uptime_cairn.Model.{Heartbeat}
use uptime_cairn.Store.Heartbeats.{row_of, same_key, has_key, insert_row, write_batch}

-- No two rows have the same key.
abbrev UniqueKeys : List Heartbeat → Type 0
UniqueKeys [] = Unit {0}
UniqueKeys (row ∷ rows) = (has_key row rows ≡ false) × UniqueKeys rows

-- Every heartbeat of a batch has a row.
abbrev pub AllStored : List Heartbeat → List Heartbeat → Type 0
AllStored [] rows = Unit {0}
AllStored (b ∷ beats) rows = (has_key (row_of b) rows ≡ true) × AllStored beats rows

same_key_refl : (a : Heartbeat) → same_key a a ≡ true
unfolding same_key
same_key_refl a = ground arith

same_key_sym : (a b : Heartbeat) → same_key a b ≡ same_key b a
unfolding same_key
same_key_sym a b = ground arith

has_key-append :
    (b : Heartbeat) (xs ys : List Heartbeat) → has_key b (xs ++ ys) ≡ (has_key b xs || has_key b ys)
unfolding has_key
has_key-append b [] ys = refl
has_key-append b (x ∷ xs) ys = ground (arith, has_key-append b xs ys)

UniqueKeys-append :
    (rows : List Heartbeat) (b : Heartbeat)
    → UniqueKeys rows
    → has_key b rows ≡ false
    → UniqueKeys (rows ++ b ∷ [])
unfolding has_key
UniqueKeys-append [] b u h = ground arith
UniqueKeys-append (x ∷ rows) b u h =
    ground (arith, UniqueKeys-append rows b u.1, has_key-append x rows (b ∷ []), same_key_sym x b)

-- Later inserts keep a row.
has_key-insert_row :
    (b c : Heartbeat) (rows : List Heartbeat)
    → has_key b rows ≡ true
    → has_key b (insert_row rows c).0 ≡ true
unfolding insert_row
has_key-insert_row b c rows h = ground (arith, has_key-append b rows (row_of c ∷ []))

has_key-write_batch :
    (b : Heartbeat) (rows beats : List Heartbeat)
    → has_key b rows ≡ true
    → has_key b (write_batch rows beats).0 ≡ true
unfolding write_batch
has_key-write_batch b rows [] h = h
has_key-write_batch b rows (c ∷ beats) h =
    has_key-write_batch b (insert_row rows c).0 beats (has_key-insert_row b c rows h)

insert_row-stored :
    (b : Heartbeat) (rows : List Heartbeat) → has_key (row_of b) (insert_row rows b).0 ≡ true
unfolding insert_row has_key
insert_row-stored b rows =
    ground (arith, has_key-append (row_of b) rows (row_of b ∷ []), same_key_refl (row_of b))

-- After a batch is written each of its heartbeats has a row.
pub write_batch-AllStored :
    (rows beats : List Heartbeat) → AllStored beats (write_batch rows beats).0
unfolding write_batch
write_batch-AllStored rows [] = tt
write_batch-AllStored rows (b ∷ beats) = (
  has_key-write_batch (row_of b) (insert_row rows b).0 beats (insert_row-stored b rows),
  write_batch-AllStored (insert_row rows b).0 beats,
)

insert_row-UniqueKeys :
    (rows : List Heartbeat) (b : Heartbeat) → UniqueKeys rows → UniqueKeys (insert_row rows b).0
unfolding insert_row
insert_row-UniqueKeys rows b u = ground (arith, UniqueKeys-append rows (row_of b) u)

-- Where no two stored heartbeats share a key, none do after a batch is written.
write_batch-UniqueKeys :
    (rows beats : List Heartbeat) → UniqueKeys rows → UniqueKeys (write_batch rows beats).0
unfolding write_batch
write_batch-UniqueKeys rows [] u = u
write_batch-UniqueKeys rows (b ∷ beats) u =
    write_batch-UniqueKeys (insert_row rows b).0 beats (insert_row-UniqueKeys rows b u)

-- A batch whose heartbeats all have rows changes nothing and inserts nothing.
write_stored :
    (rows beats : List Heartbeat) → AllStored beats rows → write_batch rows beats ≡ (rows, 0)
unfolding write_batch insert_row
write_stored rows [] s = refl
write_stored rows (b ∷ beats) s = ground (arith, write_stored rows beats s.1)

-- Writing a batch of heartbeats that was written before is a no-op that inserts no row, even with
-- other batches written in between.
pub write_batch_idem :
    (rows beats others : List Heartbeat)
    → let later = (write_batch (write_batch rows beats).0 others).0 in
      write_batch later beats ≡ (later, 0)
write_batch_idem rows beats others =
    write_stored _ beats (kept beats (write_batch-AllStored rows beats))
  where
    kept :
        (bs : List Heartbeat)
        → AllStored bs (write_batch rows beats).0
        → AllStored bs (write_batch (write_batch rows beats).0 others).0
    kept [] s = tt
    kept (b ∷ bs) s = (has_key-write_batch (row_of b) _ others s.0, kept bs s.1)

pub AllStored-append_split :
    (xs ys rows : List Heartbeat)
    → AllStored (xs ++ ys) rows
    → AllStored xs rows × AllStored ys rows
AllStored-append_split [] ys rows s = (tt, s)
AllStored-append_split (x ∷ xs) ys rows s =
    let (left, right) = AllStored-append_split xs ys rows s.1 in ((s.0, left), right)

-- The words of a heartbeat are no part of its key.
pub has_key-words :
    (b : Heartbeat) (message code : Bytes) (rows : List Heartbeat)
    → has_key (row_of b) rows ≡ true
    → has_key (row_of (record b { message = message; code = code })) rows ≡ true
unfolding has_key row_of same_key
has_key-words b message code [] h = h
has_key-words b message code (row ∷ rows) h = ground (arith, has_key-words b message code rows)

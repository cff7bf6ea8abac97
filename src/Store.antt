-- ===== src/Store.antt =====
-- The rows that ingest reads and writes (internal/store/sqlite), with the SQL of the statements
-- written out as functions on them. A statement may also fail; the flags say where.
pub mod Heartbeats
pub mod States
pub mod Rollups
pub mod Maintenance
use uptime_cairn.Base.{ℕ, Bool}
use uptime_cairn.Model.{EntityId, Monitor, MonitorState}

-- A lookup: the row, store.ErrNotFound, or another error.
pub data Loaded (A : Type 0) : Type 0 where
  found : A → Loaded A
  missing : Loaded A
  failed : Loaded A

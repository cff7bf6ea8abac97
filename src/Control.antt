-- ===== src/Control.antt =====
-- The control plane (internal/controlplane): what becomes of the results that a probe sends.
pub mod Ingest
pub mod Batch
pub mod Observations
pub mod Samples

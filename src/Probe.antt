-- ===== src/Probe.antt =====
-- The probe agent (internal/probe) and the wire format it shares with the control plane.
pub mod Wire
pub mod Buffer
pub mod Schedule
pub mod StatusRanges
pub mod JsonPath
pub mod Session

-- ===== src/Report.antt =====
-- internal/report: the figures of a report, on the daily and window counts of internal/store/reads.go.
-- A ratio is the exact fraction, numerator and denominator, whose quotient the code takes in floats.
pub mod Uptime
pub mod Breaches
pub mod Window
pub mod Schedule
use uptime_cairn.Base.{ℕ, ◌+◌, Option}
use uptime_cairn.Model.{Instant}

pub data MaintenanceHandling : Type 0 where
  unset exclude count_as_up count_as_down : MaintenanceHandling

-- The counts of a bucket. Its response times do not enter these figures, but for their sums.
pub record HistoryBucket : Type 0 where
  pub start : Instant
  pub up : ℕ
  pub down : ℕ
  pub pending : ℕ
  pub maintenance : ℕ
  pub unknown : ℕ
  pub skipped : ℕ
  pub response_time_sum : ℕ
  pub response_time_count : ℕ

-- Numerator and denominator.
pub record Fraction : Type 0 where
  pub num : ℕ
  pub den : ℕ

-- ===== src/Probe/Wire.antt =====
-- The result messages of proto/cairn/probe/v1/result.proto. Text and bytes are lists of byte
-- values. A response time is carried as whole nanoseconds, the value that ingest derives from
-- the double on the wire; 0 stands for "not measured".
use uptime_cairn.Base.{ℕ, List, Option, Bool}
use uptime_cairn.Base.Int.{ℤ}
use uptime_cairn.Base.Bytes.{Bytes}

-- The enum is open: a number that has no name can arrive too.
pub data Outcome : Type 0 where
  unspecified up down unknown skipped : Outcome
  unrecognised : ℕ → Outcome

pub record CertificateObservation : Type 0 where
  pub subject : Bytes
  pub issuer : Bytes
  pub serial_number : Bytes
  pub valid_from_unix_micros : ℤ
  pub valid_to_unix_micros : ℤ
  pub fingerprint_sha256 : Bytes
  pub subject_alternative_names : List Bytes
  pub chain_valid : Option Bool
  pub chain_error : Bytes
  pub days_remaining_threshold : Option ℤ

pub record DomainObservation : Type 0 where
  pub domain : Bytes
  pub expires_at_unix_micros : ℤ
  pub registrar : Bytes
  pub source : Bytes
  pub days_remaining_threshold : Option ℤ

pub record Result : Type 0 where
  pub result_id : Bytes
  pub monitor_id : Bytes
  pub time_unix_micros : ℤ
  pub outcome : Outcome
  pub response_time_ns : ℕ
  pub code : Bytes
  pub message : Bytes
  pub attempt : ℕ
  pub outcome_changed : Bool
  pub certificate : Option CertificateObservation
  pub domain : Option DomainObservation

-- ===== src/Control/Batch/Tests.antt =====
-- The theorems on a batch, at a concrete one.
use uptime_cairn.Base.{
  ◌+◌, ◌≡◌, refl, false, List, [], ◌∷◌, none, some, arith, length, if◌then◌else◌, ◌==◌,
}
use uptime_cairn.Probe.Wire.{Result, Outcome}
use uptime_cairn.Model.{MonitorStatus}
use uptime_cairn.Store.{found, missing}
use uptime_cairn.Control.Samples.{site, state_at, result_of}
use uptime_cairn.Control.Ingest.{apply}
use uptime_cairn.Control.Observations.{Expiries}
use uptime_cairn.Control.Batch.{Database, Ack, ingest_results}
use uptime_cairn.Control.Batch.Accounting.{ingest_accounting}
use uptime_cairn.Control.Batch.Durability.{ingest-Durable, Durable}

abbrev no_expiries : Expiries
no_expiries = record {
  certificates = [];
  domains = [];
  read_fails = λ id. false;
  write_fails = λ id. false;
}

-- A store with the monitor 7 alone.
abbrev store : Database
store = record {
  load_monitor = λ id. if id == 7 then found site else missing;
  get_state = λ id. if id == 7 then found (state_at MonitorStatus.up 0) else missing;
  heartbeats = [];
  write_fails = false;
  save_fails = λ id. false;
  expiries = no_expiries;
}

-- Out of order, with an outcome that is refused.
abbrev results : List Result
results = result_of Outcome.down 2 ∷ result_of Outcome.up 1 ∷ result_of Outcome.unspecified 3 ∷ []

abbrev acknowledged : Ack
acknowledged = record { acknowledged_through = 3 ∷ []; accepted = 2; duplicate = 0; rejected = 1 }

acknowledges : (ingest_results (λ t. []) 9 store results).ack ≡ some acknowledged
unfolding ingest_results apply
acknowledges = refl

-- An outcome that has no name fails the batch.
unnamed_fails :
    (ingest_results (λ t. []) 9 store (result_of (Outcome.unrecognised 9) 1 ∷ [])).ack ≡ none
unfolding ingest_results apply
unnamed_fails = refl

ingest_accounting_example : (2 + 1 ≡ length results) × (acknowledged.duplicate ≡ 0)
ingest_accounting_example =
    ingest_accounting (λ t. []) 9 store results {a = acknowledged} (omega arith) acknowledges

ingest-Durable_example :
    let out = ingest_results (λ t. []) 9 store results in Durable results out out.ack
ingest-Durable_example = ingest-Durable (λ t. []) 9 store results

-- ===== src/Control/Observations/Tests.antt =====
-- The theorems on expiry alerts, at a concrete certificate.
use uptime_cairn.Base.{ℕ, ◌≡◌, ◌≢◌, refl, true, false, [], ◌∷◌, none, some, arith}
use uptime_cairn.Base.Int.{pos, ◌≤ℤ◌}
use uptime_cairn.Base.Bytes.{codes}
use uptime_cairn.Probe.Wire.{Outcome, CertificateObservation, DomainObservation}
use uptime_cairn.Model.{Heartbeat, Status, Suppression, MonitorStatus, days_until, of_micros}
use uptime_cairn.Control.Samples.{site, result_of}
use uptime_cairn.Control.Observations.{Observed, Expiries, under_maintenance}

abbrev beat_at : ℕ → Heartbeat
beat_at t = record {
  time = pos t;
  monitor_id = 7;
  org_id = 1;
  probe_id = 9;
  status = Status.up;
  response_time = none;
  code = [];
  message = [];
  attempt = 1;
  important = false;
  suppressed = false;
  suppression_reason = Suppression.unsuppressed;
}

abbrev seen_at : ℕ → Observed
seen_at t = record {
  monitor = site;
  beat = beat_at t;
  status = MonitorStatus.up;
  result = result_of Outcome.up 1;
}

-- A certificate that expires ten days after the epoch, with a threshold of fourteen days.
abbrev leaf : CertificateObservation
leaf = record {
  subject = codes "example.org";
  issuer = codes "ca";
  serial_number = 1 ∷ [];
  valid_from_unix_micros = pos 0;
  valid_to_unix_micros = pos 864_000_000_000;
  fingerprint_sha256 = 5 ∷ 6 ∷ [];
  subject_alternative_names = [];
  chain_valid = some true;
  chain_error = [];
  days_remaining_threshold = some (pos 14);
}

abbrev name : DomainObservation
name = record {
  domain = codes "example.org";
  expires_at_unix_micros = pos 864_000_000_000;
  registrar = [];
  source = [];
  days_remaining_threshold = some (pos 14);
}

abbrev empty : Expiries
empty = record {
  certificates = [];
  domains = [];
  read_fails = λ id. false;
  write_fails = λ id. false;
}

same_day :
    days_until (of_micros (pos 864_000_000_000)) (pos 2000)
    ≡ days_until (of_micros (pos 864_000_000_000)) (pos 1000)
unfolding days_until of_micros
same_day = refl

within : days_until (of_micros (pos 864_000_000_000)) (pos 172_800_000_000_000) ≤ℤ pos 14
unfolding days_until of_micros
within = omega arith

other_day :
    days_until (of_micros (pos 864_000_000_000)) (pos 172_800_000_000_000)
    ≢ days_until (of_micros (pos 864_000_000_000)) (pos 1000)
unfolding days_until of_micros
other_day e = ground arith

outside : under_maintenance (beat_at 172_800_000_000_000) ≡ false
unfolding under_maintenance
outside = refl

abbrev silent : Observed
silent = record (seen_at 1000) {
  beat = record (beat_at 1000) { suppressed = true; suppression_reason = Suppression.maintenance };
}

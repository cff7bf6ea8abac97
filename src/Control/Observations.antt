-- ===== src/Control/Observations.antt =====
-- internal/controlplane/observations.go: certificates and registrations seen by a check, stored one row
-- to a monitor, and the expiry alerts that they raise. Formatting a date is the standard library's.
mod Expiry
pub mod Alerts
mod Recording
mod Tests
use uptime_cairn.Base.{
  ℕ, ◌+◌, ◌≡◌, Bool, true, false, not, ◌&&◌, ◌||◌, List, [], ◌∷◌, ◌++◌, Option, none, some, ◌==◌,
  if◌then◌else◌,
}
use uptime_cairn.Base.Int.{ℤ, pos, negsuc, eqb_ℤ, ltb_ℤ, pos_part, neg_part}
use uptime_cairn.Base.Bytes.{Bytes, codes, eqb}
use uptime_cairn.Base.Decimal.{itoa}
use uptime_cairn.Base.Maps.{lookup, insert}
use uptime_cairn.Probe.Wire.{Result, CertificateObservation, DomainObservation}
use uptime_cairn.Model.{
  EntityId, Instant, of_micros, MonitorStatus, Suppression, Monitor, Heartbeat, EventType,
  certificate_expiring, domain_expiring, Certificate, DomainExpiry, days_until,
}
use uptime_cairn.Control.Ingest.{Alert}

pub record Observed : Type 0 where
  pub monitor : Monitor
  pub beat : Heartbeat
  pub status : MonitorStatus
  pub result : Result

pub record PendingAlert : Type 0 where
  pub monitor : Monitor
  pub beat : Heartbeat
  pub alert : Alert
  -- Set by the expiry events only.
  pub status : Option MonitorStatus

-- The two tables, and the monitors on which a read or a write of them fails.
pub record Expiries : Type 0 where
  pub certificates : List (EntityId × Certificate)
  pub domains : List (EntityId × DomainExpiry)
  pub read_fails : EntityId → Bool
  pub write_fails : EntityId → Bool

-- Days or less: `days > threshold` is its negation.
unfoldable pub certificate_worth_saying : Option Certificate → Certificate → ℤ → ℤ → Bool
certificate_worth_saying previous current days threshold =
    if ltb_ℤ threshold days then false else elim previous [
      | none ↦ true
      | some p ↦
          if not (eqb p.fingerprint_sha256 current.fingerprint_sha256)
          then true
          else not (eqb_ℤ (days_until p.valid_to p.observed_at) days)
    ]

unfoldable domain_worth_saying : Option DomainExpiry → DomainExpiry → ℤ → ℤ → Bool
domain_worth_saying previous current days threshold =
    if ltb_ℤ threshold days then false else elim previous [
      | none ↦ true
      | some p ↦
          if not (eqb_ℤ p.expires_at current.expires_at)
          then true
          else not (eqb_ℤ (days_until p.expires_at p.observed_at) days)
    ]

is_maintenance : Suppression → Bool
is_maintenance Suppression.maintenance = true
is_maintenance _ = false

unfoldable pub under_maintenance : Heartbeat → Bool
unfolding is_maintenance
under_maintenance beat = beat.suppressed && is_maintenance beat.suppression_reason

humanise_days : ℕ → Bytes
unfolding itoa
humanise_days days = if days == 1 then codes "1 day" else itoa days ++ codes " days"

unfoldable expiry_phrase : ℤ → Bytes
unfolding humanise_days
expiry_phrase (negsuc n) = codes "expired " ++ (humanise_days (n + 1) ++ codes " ago")
expiry_phrase (pos n) =
    if n == 0 then codes "expires today" else codes "expires in " ++ humanise_days n

-- strconv.Itoa of a count of days.
days_code : ℤ → Bytes
unfolding itoa
days_code (pos n) = itoa n
days_code (negsuc n) = b'-' ∷ itoa (n + 1)

unfoldable pub expiry_alert : Observed → EventType → ℤ → Bytes → PendingAlert
unfolding days_code
expiry_alert o event days message = record {
  monitor = o.monitor;
  beat = record (o.beat) { message = message; code = days_code days };
  alert = record { fire = true; event_type = some event; previous = none };
  status = some o.status;
}

nonzero_time : ℤ → Option Instant
nonzero_time t = if eqb_ℤ t (pos 0) then none else some (of_micros t)

unfoldable pub certificate_row : Observed → CertificateObservation → Certificate
unfolding nonzero_time of_micros
certificate_row o seen = record {
  monitor_id = o.monitor.id;
  org_id = o.monitor.org_id;
  subject = seen.subject;
  issuer = seen.issuer;
  serial_number = seen.serial_number;
  valid_from = nonzero_time seen.valid_from_unix_micros;
  valid_to = of_micros seen.valid_to_unix_micros;
  fingerprint_sha256 = seen.fingerprint_sha256;
  sans = seen.subject_alternative_names;
  chain_valid = seen.chain_valid;
  chain_error = seen.chain_error;
  observed_at = o.beat.time;
}

unfoldable pub domain_row : Observed → DomainObservation → DomainExpiry
unfolding of_micros
domain_row o seen = record {
  monitor_id = o.monitor.id;
  org_id = o.monitor.org_id;
  domain = seen.domain;
  expires_at = of_micros seen.expires_at_unix_micros;
  registrar = seen.registrar;
  source = seen.source;
  observed_at = o.beat.time;
}

abbrev to_list : Option PendingAlert → List PendingAlert
to_list none = []
to_list (some a) = a ∷ []

module _ (rfc3339 : Instant → Bytes) where
  certificate_message : Observed → Certificate → ℤ → Bytes
  unfolding eqb expiry_phrase
  certificate_message o current days =
      codes "certificate for "
      ++ ((if eqb o.monitor.target [] then current.subject else o.monitor.target)
          ++ (codes " " ++ (expiry_phrase days ++ (codes ", on " ++ rfc3339 current.valid_to))))

  domain_message : DomainExpiry → ℤ → Bytes
  unfolding eqb expiry_phrase
  domain_message current days =
      codes "the registration for "
      ++ (current.domain
          ++ (codes " "
              ++ (expiry_phrase days
                  ++ (codes ", on "
                      ++ (rfc3339 current.expires_at
                          ++ (if eqb current.registrar []
                              then []
                              else codes ", registered with " ++ current.registrar))))))

  -- The alert of recordCertificate, once the row is saved.
  pub certificate_alert :
      Observed → Option ℤ → Option Certificate → Certificate → Option PendingAlert
  unfolding certificate_message certificate_worth_saying under_maintenance expiry_alert days_until
  certificate_alert o none prior current = none
  certificate_alert o (some threshold) prior current =
      let days = days_until current.valid_to o.beat.time in
      if under_maintenance o.beat
      then none
      else if certificate_worth_saying prior current days threshold
      then some (expiry_alert o certificate_expiring days (certificate_message o current days))
      else none

  pub domain_alert : Observed → Option ℤ → Option DomainExpiry → DomainExpiry → Option PendingAlert
  unfolding domain_message domain_worth_saying under_maintenance expiry_alert days_until
  domain_alert o none prior current = none
  domain_alert o (some threshold) prior current =
      let days = days_until current.expires_at o.beat.time in
      if under_maintenance o.beat
      then none
      else if domain_worth_saying prior current days threshold
      then some (expiry_alert o domain_expiring days (domain_message current days))
      else none

  pub record_certificate :
      Expiries → Observed → CertificateObservation → Expiries × Option PendingAlert
  unfolding certificate_alert certificate_row lookup insert
  record_certificate db o seen =
      let current = certificate_row o seen in
      let prior = lookup o.monitor.id db.certificates in
      if eqb_ℤ seen.valid_to_unix_micros (pos 0)
      then (db, none)
      else if db.read_fails o.monitor.id
      then (db, none)
      else if db.write_fails o.monitor.id
      then (db, none)
      else (
        record db { certificates = insert o.monitor.id current db.certificates },
        certificate_alert o seen.days_remaining_threshold prior current,
      )

  pub record_domain : Expiries → Observed → DomainObservation → Expiries × Option PendingAlert
  unfolding domain_alert domain_row lookup insert eqb
  record_domain db o seen =
      let current = domain_row o seen in
      let prior = lookup o.monitor.id db.domains in
      if eqb_ℤ seen.expires_at_unix_micros (pos 0) || eqb seen.domain []
      then (db, none)
      else if db.read_fails o.monitor.id
      then (db, none)
      else if db.write_fails o.monitor.id
      then (db, none)
      else (
        record db { domains = insert o.monitor.id current db.domains },
        domain_alert o seen.days_remaining_threshold prior current,
      )

  record_seen_certificate :
      Expiries → Observed → Option CertificateObservation → Expiries × Option PendingAlert
  unfolding record_certificate
  record_seen_certificate db o none = (db, none)
  record_seen_certificate db o (some c) = record_certificate db o c

  record_seen_domain :
      Expiries → Observed → Option DomainObservation → Expiries × Option PendingAlert
  unfolding record_domain
  record_seen_domain db o none = (db, none)
  record_seen_domain db o (some d) = record_domain db o d

  pub record_one : Expiries → Observed → Expiries × List PendingAlert
  unfolding record_seen_certificate record_seen_domain
  record_one db o =
      let (db', first) = record_seen_certificate db o o.result.certificate in
      let (db'', second) = record_seen_domain db' o o.result.domain in
      (db'', to_list first ++ to_list second)

  pub record_all : Expiries → List Observed → Expiries × List PendingAlert
  unfolding record_one
  record_all db [] = (db, [])
  record_all db (o ∷ batch) =
      let (db', alerts) = record_one db o in
      let (db'', later) = record_all db' batch in (db'', alerts ++ later)

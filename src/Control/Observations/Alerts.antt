-- ===== src/Control/Observations/Alerts.antt =====
-- Whose heartbeats the expiry alerts of a batch carry (internal/controlplane/observations.go).
use uptime_cairn.Base.{
  Bool, true, false, List, [], ◌∷◌, ◌++◌, Option, none, some, arith, if◌then◌else◌,
}
use uptime_cairn.Base.Bytes.{Bytes}
use uptime_cairn.Base.Int.{ℤ}
use uptime_cairn.Base.Maps.{lookup}
use uptime_cairn.Probe.Wire.{CertificateObservation, DomainObservation}
use uptime_cairn.Model.{Instant, Heartbeat, Certificate, DomainExpiry}
use uptime_cairn.Control.Observations.{
  Observed, PendingAlert, Expiries, record_certificate, record_domain, record_all, record_one,
  record_seen_certificate, record_seen_domain, certificate_alert, domain_alert, expiry_alert,
  to_list, under_maintenance, certificate_row, domain_row,
}

-- A property of heartbeats that does not depend on their words.
module _ (P : Heartbeat → Type 0)
    (words : (b : Heartbeat) (message code : Bytes)
      → P b
      → P (record b { message = message; code = code })) where
  abbrev pub AllAlerts : List PendingAlert → Type 0
  AllAlerts [] = Unit {0}
  AllAlerts (a ∷ alerts) = P a.beat × AllAlerts alerts

  abbrev pub AllObserved : List Observed → Type 0
  AllObserved [] = Unit {0}
  AllObserved (o ∷ batch) = P o.beat × AllObserved batch

  pub AllAlerts-append :
      (xs ys : List PendingAlert) → AllAlerts xs → AllAlerts ys → AllAlerts (xs ++ ys)
  AllAlerts-append [] ys s t = t
  AllAlerts-append (x ∷ xs) ys s t = (s.0, AllAlerts-append xs ys s.1 t)

  -- The two shapes in which the code decides whether to return an alert.
  unless_holds :
      (b : Bool) (x : Option PendingAlert)
      → AllAlerts (to_list x)
      → AllAlerts (to_list (if b then none else x))
  unless_holds true x h = tt
  unless_holds false x h = h

  when_holds :
      (b : Bool) (a : PendingAlert) → P a.beat → AllAlerts (to_list (if b then some a else none))
  when_holds true a h = (h, tt)
  when_holds false a h = tt

  module _ (rfc3339 : Instant → Bytes) (o : Observed) (p : P o.beat) where
    certificate_alert-holds :
        (t : Option ℤ) (prior : Option Certificate) (c : Certificate)
        → AllAlerts (to_list (certificate_alert rfc3339 o t prior c))
    unfolding certificate_alert expiry_alert
    certificate_alert-holds none prior c = tt
    certificate_alert-holds (some t) prior c =
        unless_holds (under_maintenance o.beat) _ (when_holds _ _ (words o.beat _ _ p))

    domain_alert-holds :
        (t : Option ℤ) (prior : Option DomainExpiry) (d : DomainExpiry)
        → AllAlerts (to_list (domain_alert rfc3339 o t prior d))
    unfolding domain_alert expiry_alert
    domain_alert-holds none prior d = tt
    domain_alert-holds (some t) prior d =
        unless_holds (under_maintenance o.beat) _ (when_holds _ _ (words o.beat _ _ p))

    seen_certificate-holds :
        (db : Expiries) (c : Option CertificateObservation)
        → AllAlerts (to_list (record_seen_certificate rfc3339 db o c).1)
    unfolding record_seen_certificate record_certificate
    seen_certificate-holds db none = tt
    seen_certificate-holds db (some c) =
        let prior = lookup o.monitor.id db.certificates in
        ground
          (arith, certificate_alert-holds c.days_remaining_threshold prior (certificate_row o c))

    seen_domain-holds :
        (db : Expiries) (d : Option DomainObservation)
        → AllAlerts (to_list (record_seen_domain rfc3339 db o d).1)
    unfolding record_seen_domain record_domain
    seen_domain-holds db none = tt
    seen_domain-holds db (some d) =
        let prior = lookup o.monitor.id db.domains in
        ground (arith, domain_alert-holds d.days_remaining_threshold prior (domain_row o d))

    record_one-holds : (db : Expiries) → AllAlerts (record_one rfc3339 db o).1
    unfolding record_one
    record_one-holds db =
        AllAlerts-append _ _ (seen_certificate-holds db o.result.certificate)
          (seen_domain-holds _ o.result.domain)

  -- The alerts of a batch of observations are about the heartbeats that were observed.
  pub record_all-AllAlerts :
      (rfc3339 : Instant → Bytes) (db : Expiries) (batch : List Observed)
      → AllObserved batch
      → AllAlerts (record_all rfc3339 db batch).1
  unfolding record_all
  record_all-AllAlerts rfc3339 db [] h = tt
  record_all-AllAlerts rfc3339 db (o ∷ batch) h =
      AllAlerts-append _ _ (record_one-holds rfc3339 o h.0 db)
        (record_all-AllAlerts rfc3339 (record_one rfc3339 db o).0 batch h.1)

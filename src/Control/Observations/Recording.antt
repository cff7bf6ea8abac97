-- ===== src/Control/Observations/Recording.antt =====
-- What recording an observation does to the stored rows (internal/controlplane/observations.go).
use uptime_cairn.Base.{◌≡◌, true, false, none, some, arith, [], ◌==◌, if◌then◌else◌, ◌||◌}
use uptime_cairn.Base.Int.{pos, eqb_ℤ}
use uptime_cairn.Base.Bytes.{Bytes, eqb}
use uptime_cairn.Base.Maps.{lookup, lookup-insert}
use uptime_cairn.Probe.Wire.{CertificateObservation, DomainObservation}
use uptime_cairn.Model.{EntityId, Instant, Suppression}
use uptime_cairn.Control.Observations.{
  Observed, Expiries, certificate_row, domain_row, record_certificate, record_domain,
  under_maintenance, certificate_alert, domain_alert,
}

-- An observation with an expiry date, where the tables can be read and written, becomes the one
-- row of its monitor and leaves the rows of all others, whether or not an alert is raised.
record_certificate_row :
    (rfc3339 : Instant → Bytes) (db : Expiries) (o : Observed) (seen : CertificateObservation)
    (j : EntityId)
    → eqb_ℤ seen.valid_to_unix_micros (pos 0) ≡ false
    → db.read_fails o.monitor.id ≡ false
    → db.write_fails o.monitor.id ≡ false
    → lookup j (record_certificate rfc3339 db o seen).0.certificates
      ≡ (if o.monitor.id == j then some (certificate_row o seen) else lookup j db.certificates)
unfolding record_certificate
record_certificate_row rfc3339 db o seen j v r w =
    ground (arith, lookup-insert o.monitor.id j (certificate_row o seen) db.certificates)

record_domain_row :
    (rfc3339 : Instant → Bytes) (db : Expiries) (o : Observed) (seen : DomainObservation)
    (j : EntityId)
    → (eqb_ℤ seen.expires_at_unix_micros (pos 0) || eqb seen.domain []) ≡ false
    → db.read_fails o.monitor.id ≡ false
    → db.write_fails o.monitor.id ≡ false
    → lookup j (record_domain rfc3339 db o seen).0.domains
      ≡ (if o.monitor.id == j then some (domain_row o seen) else lookup j db.domains)
unfolding record_domain
record_domain_row rfc3339 db o seen j v r w =
    ground (arith, lookup-insert o.monitor.id j (domain_row o seen) db.domains)

-- A heartbeat under maintenance raises no expiry alert, of a certificate or of a registration.
maintenance_silences_expiry :
    (rfc3339 : Instant → Bytes) (db : Expiries) (o : Observed) (seen : CertificateObservation)
    (registration : DomainObservation)
    → o.beat.suppressed ≡ true
    → o.beat.suppression_reason ≡ Suppression.maintenance
    → ((record_certificate rfc3339 db o seen).1 ≡ none)
      × ((record_domain rfc3339 db o registration).1 ≡ none)
unfolding record_certificate certificate_alert record_domain domain_alert under_maintenance
maintenance_silences_expiry rfc3339 db o seen registration h e = (ground arith, ground arith)

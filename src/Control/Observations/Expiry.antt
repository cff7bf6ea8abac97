-- ===== src/Control/Observations/Expiry.antt =====
-- When an expiring certificate or registration is worth an alert
-- (internal/controlplane/observations.go).
use uptime_cairn.Base.{◌≡◌, ◌≢◌, refl, true, false, Option, none, some, arith}
use uptime_cairn.Base.Int.{ℤ, pos, eqb_ℤ, ◌≤ℤ◌, ◌<ℤ◌, ◌*ℤ◌, ◌+ℤ◌, ◌-ℤ◌, floor_div, eq_of_eqb_ℤ}
use uptime_cairn.Base.Bytes.{Bytes, eqb_refl}
use uptime_cairn.Base.Maps.{lookup, insert, lookup-insert}
use uptime_cairn.Probe.Wire.{CertificateObservation}
use uptime_cairn.Model.{Instant, of_micros, Certificate, days_until, certificate_expiring}
use uptime_cairn.Control.Observations.{
  Observed, PendingAlert, Expiries, certificate_worth_saying, under_maintenance, certificate_row,
  certificate_alert, record_certificate, certificate_message, expiry_alert,
}

-- The same certificate seen again for the same monitor, with as many days to its expiry as when it
-- was last seen, raises no alert.
pub certificate_alert_once :
    (rfc3339 : Instant → Bytes) (db : Expiries) (o o' : Observed) (seen : CertificateObservation)
    → o'.monitor.id ≡ o.monitor.id
    → days_until (of_micros seen.valid_to_unix_micros) o'.beat.time
      ≡ days_until (of_micros seen.valid_to_unix_micros) o.beat.time
    → (record_certificate rfc3339 (record_certificate rfc3339 db o seen).0 o' seen).1 ≡ none
unfolding record_certificate certificate_alert certificate_worth_saying certificate_row
certificate_alert_once rfc3339 db o o' seen same day = ground (
  arith,
  eqb_refl seen.fingerprint_sha256,
  lookup-insert o.monitor.id o'.monitor.id (certificate_row o seen) db.certificates,
)

saved :
    (rfc3339 : Instant → Bytes) (db : Expiries) (o : Observed) (seen : CertificateObservation)
    → eqb_ℤ seen.valid_to_unix_micros (pos 0) ≡ false
    → db.read_fails o.monitor.id ≡ false
    → db.write_fails o.monitor.id ≡ false
    → record_certificate rfc3339 db o seen ≡ (
      record db { certificates = insert o.monitor.id (certificate_row o seen) db.certificates },
      certificate_alert rfc3339 o seen.days_remaining_threshold
          (lookup o.monitor.id db.certificates)
          (certificate_row o seen),
    )
unfolding record_certificate
saved rfc3339 db o seen v r w = rw (v, record_certificate, r, w)

worth_on_another_day :
    (p c : Certificate) (days threshold : ℤ)
    → p.fingerprint_sha256 ≡ c.fingerprint_sha256
    → days ≤ℤ threshold
    → days ≢ days_until p.valid_to p.observed_at
    → certificate_worth_saying (some p) c days threshold ≡ true
unfolding certificate_worth_saying
worth_on_another_day p c days threshold f le ne =
    ground (arith, eq_of_eqb_ℤ (days_until p.valid_to p.observed_at) days)

alert_when_worth :
    (rfc3339 : Instant → Bytes) (o : Observed) (t : Option ℤ) {threshold : ℤ}
    (prior : Option Certificate) (c : Certificate)
    → t ≡ some threshold
    → under_maintenance o.beat ≡ false
    → certificate_worth_saying prior c (days_until c.valid_to o.beat.time) threshold ≡ true
    → let days = days_until c.valid_to o.beat.time in
      certificate_alert rfc3339 o t prior c
      ≡ some (expiry_alert o certificate_expiring days (certificate_message rfc3339 o c days))
unfolding certificate_alert
alert_when_worth rfc3339 o none prior c e u w = ground arith
alert_when_worth rfc3339 o (some t) {threshold} prior c e u w =
    let e' : t ≡ threshold = ground arith in rw e' (rw (u, certificate_alert, w))

-- A certificate that is seen again on another day than the last time, is within the operator's
-- threshold, can be read and stored and stands outside maintenance raises an alert again.
pub certificate_alert_daily :
    (rfc3339 : Instant → Bytes) (db : Expiries) (o o' : Observed) (seen : CertificateObservation)
    (threshold : ℤ)
    → o'.monitor.id ≡ o.monitor.id
    → seen.days_remaining_threshold ≡ some threshold
    → eqb_ℤ seen.valid_to_unix_micros (pos 0) ≡ false
    → db.read_fails o.monitor.id ≡ false
    → db.write_fails o.monitor.id ≡ false
    → under_maintenance o'.beat ≡ false
    → days_until (of_micros seen.valid_to_unix_micros) o'.beat.time ≤ℤ threshold
    → days_until (of_micros seen.valid_to_unix_micros) o'.beat.time
      ≢ days_until (of_micros seen.valid_to_unix_micros) o.beat.time
    → (a : PendingAlert) × ((record_certificate rfc3339
          (record_certificate rfc3339 db o seen).0
          o'
          seen).1
        ≡ some a)
      × (a.alert.fire ≡ true)
      × (a.status ≡ some o'.status)
unfolding certificate_row expiry_alert
certificate_alert_daily rfc3339 db o o' seen threshold same t v r w u le day =
    let row = certificate_row o seen in
    let row' = certificate_row o' seen in
    let stored : lookup o'.monitor.id (insert o.monitor.id row db.certificates) ≡ some row =
      ground (arith, lookup-insert o.monitor.id o'.monitor.id row db.certificates) in
    let worth =
      worth_on_another_day row row' (days_until row'.valid_to o'.beat.time) threshold refl le day in
    let db' = record db { certificates = insert o.monitor.id row db.certificates } in
    let days = days_until row'.valid_to o'.beat.time in
    (
      expiry_alert o' certificate_expiring days (certificate_message rfc3339 o' row' days),
      rw
          (
            saved rfc3339 db o seen v r w,
            saved rfc3339 db' o' seen v (rw same r) (rw same w),
            stored,
          )
          (alert_when_worth rfc3339 o' seen.days_remaining_threshold (some row) row' t u worth),
      refl,
      refl,
    )

-- Days are counted rounding down, also once the date has passed.
days_until_floor :
    (at now : Instant)
    → (pos 86_400_000_000_000 *ℤ days_until at now ≤ℤ at -ℤ now)
      × (at -ℤ now <ℤ pos 86_400_000_000_000 *ℤ (days_until at now +ℤ pos 1))
unfolding days_until ◌*ℤ◌ ◌+ℤ◌ floor_div
days_until_floor at now = ground arith

-- ===== src/Auth/Tests.antt =====
-- The theorem on delegation, at roles.
use uptime_cairn.Base.{◌≡◌, refl, true, false, [], ◌∷◌}
use uptime_cairn.Auth.{
  covers, grants, monitors_read, monitors_write, incidents_write, settings_read, editor_scopes,
  responder_scopes,
}
use uptime_cairn.Auth.Delegation.{covers-grants}

write_reads : grants (monitors_write ∷ []) monitors_read ≡ true
unfolding grants
write_reads = refl

no_more : grants editor_scopes settings_read ≡ false
unfolding grants
no_more = refl

covered : covers editor_scopes responder_scopes ≡ true
unfolding covers
covered = refl

responds : grants responder_scopes incidents_write ≡ true
unfolding grants
responds = refl

covers-grants_example : grants editor_scopes incidents_write ≡ true
covers-grants_example =
    covers-grants editor_scopes responder_scopes incidents_write covered responds

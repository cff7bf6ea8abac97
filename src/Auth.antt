-- ===== src/Auth.antt =====
-- internal/auth/scope.go: the scopes of keys and roles, as the strings that they are.
mod Delegation
mod Tests
use uptime_cairn.Base.{
  ℕ, Bool, true, false, ◌&&◌, ◌||◌, List, [], ◌∷◌, ◌++◌, Option, none, some, if◌then◌else◌,
}
use uptime_cairn.Base.Bytes.{Bytes, codes, eqb}
use uptime_cairn.Base.Text.{cut}

abbrev pub Scope : Type 0
Scope = Bytes

abbrev pub monitors_read : Scope
monitors_read = codes "monitors:read"

abbrev pub monitors_write : Scope
monitors_write = codes "monitors:write"

abbrev heartbeats_read : Scope
heartbeats_read = codes "heartbeats:read"

abbrev groups_read : Scope
groups_read = codes "groups:read"

abbrev groups_write : Scope
groups_write = codes "groups:write"

abbrev tags_read : Scope
tags_read = codes "tags:read"

abbrev tags_write : Scope
tags_write = codes "tags:write"

abbrev notifications_read : Scope
notifications_read = codes "notifications:read"

abbrev notifications_write : Scope
notifications_write = codes "notifications:write"

abbrev maintenance_read : Scope
maintenance_read = codes "maintenance:read"

abbrev maintenance_write : Scope
maintenance_write = codes "maintenance:write"

abbrev incidents_read : Scope
incidents_read = codes "incidents:read"

abbrev pub incidents_write : Scope
incidents_write = codes "incidents:write"

abbrev status_pages_read : Scope
status_pages_read = codes "status_pages:read"

abbrev status_pages_write : Scope
status_pages_write = codes "status_pages:write"

abbrev webhooks_read : Scope
webhooks_read = codes "webhooks:read"

abbrev webhooks_write : Scope
webhooks_write = codes "webhooks:write"

abbrev imports_write : Scope
imports_write = codes "imports:write"

abbrev pub settings_read : Scope
settings_read = codes "settings:read"

abbrev settings_write : Scope
settings_write = codes "settings:write"

abbrev users_read : Scope
users_read = codes "users:read"

abbrev users_write : Scope
users_write = codes "users:write"

abbrev api_keys_read : Scope
api_keys_read = codes "api_keys:read"

abbrev api_keys_write : Scope
api_keys_write = codes "api_keys:write"

abbrev metrics_read : Scope
metrics_read = codes "metrics:read"

abbrev teams_read : Scope
teams_read = codes "teams:read"

abbrev teams_write : Scope
teams_write = codes "teams:write"

abbrev schedules_read : Scope
schedules_read = codes "schedules:read"

abbrev schedules_write : Scope
schedules_write = codes "schedules:write"

abbrev reports_read : Scope
reports_read = codes "reports:read"

abbrev reports_write : Scope
reports_write = codes "reports:write"

abbrev brand_profiles_read : Scope
brand_profiles_read = codes "brand_profiles:read"

abbrev brand_profiles_write : Scope
brand_profiles_write = codes "brand_profiles:write"

abbrev all_scopes : List Scope
all_scopes =
    monitors_read ∷ monitors_write ∷ heartbeats_read ∷ groups_read ∷ groups_write ∷ tags_read
    ∷ tags_write ∷ notifications_read ∷ notifications_write ∷ maintenance_read ∷ maintenance_write
    ∷ incidents_read ∷ incidents_write ∷ status_pages_read ∷ status_pages_write ∷ webhooks_read
    ∷ webhooks_write ∷ imports_write ∷ settings_read ∷ settings_write ∷ users_read ∷ users_write
    ∷ api_keys_read ∷ api_keys_write ∷ metrics_read ∷ teams_read ∷ teams_write ∷ schedules_read
    ∷ schedules_write ∷ reports_read ∷ reports_write ∷ brand_profiles_read ∷ brand_profiles_write
    ∷ []

abbrev pub editor_scopes : List Scope
editor_scopes =
    monitors_read ∷ monitors_write ∷ heartbeats_read ∷ groups_read ∷ groups_write ∷ tags_read
    ∷ tags_write ∷ notifications_read ∷ notifications_write ∷ maintenance_read ∷ maintenance_write
    ∷ incidents_read ∷ incidents_write ∷ status_pages_read ∷ status_pages_write ∷ []

abbrev pub responder_scopes : List Scope
responder_scopes =
    monitors_read ∷ heartbeats_read ∷ groups_read ∷ tags_read ∷ incidents_read ∷ incidents_write
    ∷ maintenance_read ∷ maintenance_write ∷ []

abbrev viewer_scopes : List Scope
viewer_scopes =
    monitors_read ∷ heartbeats_read ∷ groups_read ∷ tags_read ∷ incidents_read ∷ status_pages_read
    ∷ maintenance_read ∷ []

is_one_of : Scope → List Scope → Bool
unfolding eqb
is_one_of s [] = false
is_one_of s (known ∷ rest) = eqb s known || is_one_of s rest

-- Scope.Valid
pub valid : Scope → Bool
unfolding is_one_of
valid s = is_one_of s all_scopes

abbrev pub colon : ℕ
colon = 58

-- `write` implies `read` on the same resource.
write_implies : Option (Bytes × Bytes) → Scope → Bool
unfolding eqb
write_implies none want = false
write_implies (some (resource, action)) want =
    eqb action (codes "write") && eqb want (resource ++ colon ∷ codes "read")

pub implies : Scope → Scope → Bool
unfolding write_implies eqb cut
implies s want = eqb s want || write_implies (cut s colon) want

pub grants : List Scope → Scope → Bool
unfolding implies
grants [] want = false
grants (held ∷ rest) want = implies held want || grants rest want

pub covers : List Scope → List Scope → Bool
unfolding grants
covers set [] = true
covers set (want ∷ rest) = grants set want && covers set rest

scopes_for : Bytes → List Scope
unfolding eqb
scopes_for role =
    if eqb role (codes "owner") || eqb role (codes "admin")
    then all_scopes
    else (if eqb role (codes "editor")
        then editor_scopes
        else (if eqb role (codes "responder")
            then responder_scopes
            else (if eqb role (codes "viewer") then viewer_scopes else [])))

-- ===== src/Model.antt =====
-- The domain types of internal/model: monitors and their state, heartbeats, and what an
-- observation records. String constants that the schema restricts to a list are data types, with
-- a constructor for the empty string where the program uses one. An instant is a number of
-- nanoseconds since the Unix epoch, a duration a number of nanoseconds, an id the number that its
-- sixteen bytes spell. Only the fields that the modelled code reads or writes are kept.
use uptime_cairn.Base.{
  ℕ, zero, suc, ◌+◌, ◌*◌, ◌/◌, ◌%◌, ◌^◌, Bool, true, false, ◌||◌, List, [], ◌∷◌, Option, ltb, ◌==◌,
  if◌then◌else◌,
}
use uptime_cairn.Base.Int.{ℤ, pos, ◌*ℤ◌, ◌-ℤ◌, floor_div}
use uptime_cairn.Base.Bytes.{Bytes}

abbrev pub EntityId : Type 0
EntityId = ℕ

abbrev pub Instant : Type 0
Instant = ℤ

-- `copy(id[:], raw)`: the first sixteen bytes, with zeros for those that are missing.
id_from : ℕ → Bytes → ℕ → ℕ
id_from zero raw acc = acc
id_from (suc n) [] acc = id_from n [] (acc * 256)
id_from (suc n) (x ∷ raw) acc = id_from n raw (acc * 256 + x)

unfoldable pub id_of_bytes : Bytes → EntityId
unfolding id_from
id_of_bytes raw = id_from 16 raw 0

-- time.UnixMicro
unfoldable pub of_micros : ℤ → Instant
unfolding ◌*ℤ◌
of_micros t = pos 1000 *ℤ t

-- monitor_state.status
pub data MonitorStatus : Type 0 where
  up down pending paused maintenance : MonitorStatus

pub MonitorStatus-discrete : Discrete MonitorStatus
MonitorStatus-discrete = hlevel

-- heartbeats.status
pub data Status : Type 0 where
  down up pending maintenance unknown skipped : Status

unfoldable counts_toward_uptime : Status → Bool
counts_toward_uptime Status.up = true
counts_toward_uptime Status.down = true
counts_toward_uptime _ = false

-- Why a heartbeat is silent: 0, 1 and 2 in the schema.
pub data Suppression : Type 0 where
  unsuppressed maintenance dependency : Suppression

-- monitor_state.suppressed_by, the empty string first.
pub data SuppressedBy : Type 0 where
  nothing maintenance dependency : SuppressedBy

pub data EventType : Type 0 where
  monitor_up monitor_down monitor_pending certificate_expiring domain_expiring : EventType

pub record Monitor : Type 0 where
  pub id : EntityId
  pub org_id : EntityId
  pub target : Bytes
  pub interval : ℕ
  pub retries : ℕ
  pub resend_after : ℕ
  pub notify_on_recovery : Bool
  pub parent_monitor_id : Option EntityId

pub record MonitorState : Type 0 where
  pub monitor_id : EntityId
  pub org_id : EntityId
  pub status : MonitorStatus
  pub last_check_at : Option Instant
  pub next_check_at : Option Instant
  pub last_status_change_at : Option Instant
  pub consecutive_failures : ℕ
  -- Whole microseconds; the source divides them by 1000.0.
  pub last_response_time_us : Option ℕ
  pub last_message : Bytes
  pub suppressed_by : SuppressedBy
  pub state_version : ℕ

pub record Heartbeat : Type 0 where
  pub time : Instant
  pub monitor_id : EntityId
  pub org_id : EntityId
  pub probe_id : EntityId
  pub status : Status
  -- Nanoseconds.
  pub response_time : Option ℕ
  pub code : Bytes
  pub message : Bytes
  pub attempt : ℕ
  pub important : Bool
  pub suppressed : Bool
  pub suppression_reason : Suppression

pub record Certificate : Type 0 where
  pub monitor_id : EntityId
  pub org_id : EntityId
  pub subject : Bytes
  pub issuer : Bytes
  pub serial_number : Bytes
  pub valid_from : Option Instant
  pub valid_to : Instant
  pub fingerprint_sha256 : Bytes
  pub sans : List Bytes
  pub chain_valid : Option Bool
  pub chain_error : Bytes
  pub observed_at : Instant

pub record DomainExpiry : Type 0 where
  pub monitor_id : EntityId
  pub org_id : EntityId
  pub domain : Bytes
  pub expires_at : Instant
  pub registrar : Bytes
  pub source : Bytes
  pub observed_at : Instant

-- flooredDays of a difference of instants, without the rounding of the source's float64 hours.
unfoldable pub days_until : Instant → Instant → ℤ
unfolding floor_div ◌-ℤ◌
days_until at now = floor_div (at -ℤ now) 86_400_000_000_000

-- ID.String: the sixteen bytes in hexadecimal, with dashes after the fourth, sixth, eighth and tenth.
hex_digit : ℕ → ℕ
hex_digit d = if ltb d 10 then 48 + d else 87 + d

id_chars : ℕ → EntityId → Bytes
unfolding hex_digit
id_chars zero id = []
id_chars (suc n) id =
    let rest = id_chars n id in
    let byte = id / 256 ^ n % 256 in
    let dashed = if n == 12 || n == 10 || n == 8 || n == 6 then b'-' ∷ rest else rest in
    hex_digit (byte / 16) ∷ hex_digit (byte % 16) ∷ dashed

unfoldable pub id_string : EntityId → Bytes
unfolding id_chars
id_string id = id_chars 16 id

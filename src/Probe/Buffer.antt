-- ===== src/Probe/Buffer.antt =====
-- internal/probe/buffer.go: results held until the control plane acknowledges them. The mutex
-- makes each method one step, so a method is a function on the state.
mod Bounds
mod Shedding
mod Delivery
mod Tests
use uptime_cairn.Base.{
  ℕ, zero, suc, ◌+◌, ◌-◌, ◌*◌, ◌%◌, ◌^◌, min, Bool, true, false, ◌||◌, List, [], ◌∷◌, ◌++◌, Option,
  none, some, ltb, leb, if◌then◌else◌, length, take, drop,
}
use uptime_cairn.Base.Bytes.{Bytes, leb_bytes}
use uptime_cairn.Probe.Wire.{Result, CertificateObservation, DomainObservation}

pub record Buffer : Type 0 where
  pub items : List Result
  pub sent : ℕ
  pub bytes : ℕ
  pub shed : ℕ
  pub max_items : ℕ
  pub max_bytes : ℕ

abbrev default_max_items : ℕ
default_max_items = 250_000

-- 64 << 20
abbrev default_max_bytes : ℕ
default_max_bytes = 67_108_864

pub new_buffer : Buffer
new_buffer = record {
  items = [];
  sent = 0;
  bytes = 0;
  shed = 0;
  max_items = default_max_items;
  max_bytes = default_max_bytes;
}

sans_size : List Bytes → ℕ
sans_size [] = 0
sans_size (san ∷ rest) = length san + 2 + sans_size rest

certificate_size : Option CertificateObservation → ℕ
certificate_size none = 0
certificate_size (some c) =
    64
    + length c.subject
    + length c.issuer
    + length c.serial_number
    + length c.fingerprint_sha256
    + length c.chain_error
    + sans_size c.subject_alternative_names

domain_size : Option DomainObservation → ℕ
domain_size none = 0
domain_size (some d) = 32 + length d.domain + length d.registrar + length d.source

pub approx_size : Result → ℕ
unfolding certificate_size domain_size sans_size
approx_size r =
    64
    + length r.result_id
    + length r.monitor_id
    + length r.code
    + length r.message
    + certificate_size r.certificate
    + domain_size r.domain

-- The index of the oldest result whose outcome did not change, and that result.
pub sheddable : List Result → Option (ℕ × Result)
sheddable [] = none
sheddable (r ∷ rest) =
    if r.outcome_changed
    then elim (sheddable rest) [ none ↦ none | some (i, x) ↦ some (suc i, x) ]
    else some (0, r)

-- shedOneLocked: `none` is `false`.
pub shed_one : Buffer → Option Buffer
unfolding sheddable approx_size
shed_one b = elim (sheddable b.items) [
  | none ↦ none
  | some (i, r) ↦ some (record b {
    items = take i b.items ++ drop (suc i) b.items;
    bytes = b.bytes - approx_size r;
    sent = if ltb i b.sent then b.sent - 1 else b.sent;
    shed = (b.shed + 1) % 2 ^ 64;
  })
]

pub over_bounds : Buffer → Bool
over_bounds b = ltb b.max_items (length b.items) || ltb b.max_bytes b.bytes

-- The items that record a change of outcome.
pub changes : List Result → List Result
changes [] = []
changes (r ∷ rest) = if r.outcome_changed then r ∷ changes rest else changes rest

-- The loop of Add. Each round removes an item, so the number of items is enough fuel.
pub shed_loop : ℕ → Buffer → Buffer
unfolding shed_one over_bounds
shed_loop zero b = b
shed_loop (suc fuel) b = elim (over_bounds b) [
  | false ↦ b
  | true ↦ elim (shed_one b) [ none ↦ b | some b' ↦ shed_loop fuel b' ]
]

pub append : Buffer → Result → Buffer
unfolding approx_size
append b r = record b { items = b.items ++ r ∷ []; bytes = b.bytes + approx_size r }

pub add : Buffer → Result → Buffer
unfolding append shed_loop
add b r = let b' = append b r in shed_loop (length b'.items) b'

-- Next(n), with n not negative as the caller's batch size is.
pub next : ℕ → Buffer → List Result × Buffer
next n b =
    if leb (length b.items) b.sent
    then ([], b)
    else let end = min (b.sent + n) (length b.items) in
      (take (end - b.sent) (drop b.sent b.items), record b { sent = end })

-- How many leading items the acknowledgement covers.
pub covered : Bytes → List Result → ℕ
covered through [] = 0
covered through (r ∷ rest) = if leb_bytes r.result_id through then suc (covered through rest) else 0

pub total_size : List Result → ℕ
total_size [] = 0
total_size (r ∷ rest) = approx_size r + total_size rest

pub ack : Bytes → Buffer → Buffer
unfolding covered total_size approx_size leb_bytes
ack through b =
    let keep = covered through b.items in
    elim through [
      | [] ↦ b
      | x ∷ xs ↦ record b {
        items = drop keep b.items;
        bytes = b.bytes - total_size (take keep b.items);
        sent = b.sent - keep;
      }
    ]

pub rewind : Buffer → Buffer
rewind b = record b { sent = 0 }

stats : Buffer → ℕ × ℕ × ℕ
stats b = (length b.items, b.bytes, b.shed)

-- ===== src/Live.antt =====
-- internal/live/live.go: the in-process bus. A pointer to a subscription is its place in the list of all
-- that were opened; each method here is one step, and Live/Steps cuts them at their locks.
pub mod Summariser
pub mod Steps
mod Scope
mod Viewport
mod Tests
use uptime_cairn.Base.{
  ℕ, zero, suc, ◌+◌, ◌%◌, ◌^◌, Bool, true, false, ◌&&◌, ◌||◌, not, List, [], ◌∷◌, ◌++◌, Option, map,
  if◌then◌else◌, ltb, ◌==◌, length,
}
use uptime_cairn.Base.Bytes.{Bytes}
use uptime_cairn.Model.{EntityId, Instant}

-- One monitor's change. The response time is what the code has in a float.
pub record Update {ℓ} (Real : Type ℓ) : Type ℓ where
  pub monitor_id : EntityId
  pub status : Bytes
  pub at : Instant
  pub response_time_ms : Option Real
  pub important : Bool
  pub message : Bytes
  pub state_version : ℕ

pub record Summary : Type 0 where
  pub counts : List (Bytes × ℕ)
  pub at : Instant

pub data Message {ℓ} (Real : Type ℓ) : Type ℓ where
  update : Update Real → Message Real
  summary : Summary → Message Real

abbrev pub buffer_depth : ℕ
buffer_depth = 64

-- `is_registered` is membership in bus.subs, `channel` what C holds, `channel_closed` whether close(C)
-- was called.
pub record Subscription {ℓ} (Real : Type ℓ) : Type ℓ where
  pub channel : List (Message Real)
  pub channel_closed : Bool
  pub scope : List EntityId
  pub closed : Bool
  pub is_registered : Bool
  pub dropped : ℕ

-- The key is in the map.
pub in_scope : List EntityId → EntityId → Bool
in_scope [] id = false
in_scope (held ∷ rest) id = held == id || in_scope rest id

module _ {ℓ} {Real : Type ℓ} where
  pub wants : Subscription Real → EntityId → Bool
  unfolding in_scope
  wants s id = in_scope s.scope id

  -- The `select` of deliver: what it does on a channel that is not closed.
  pub send_or_drop : Message Real → Subscription Real → Subscription Real
  send_or_drop m s =
      if ltb (length s.channel) buffer_depth
      then record s { channel = s.channel ++ m ∷ [] }
      else record s { dropped = (s.dropped + 1) % 2 ^ 64 }

  pub deliver : Message Real → Subscription Real → Subscription Real
  unfolding send_or_drop
  deliver m s = if s.closed then s else send_or_drop m s

  pub set_scope : List EntityId → Subscription Real → Subscription Real
  set_scope ids s = record s { scope = ids }

  pub close : Subscription Real → Subscription Real
  close s =
      if s.closed
      then s
      else record s { closed = true; is_registered = false; channel_closed = true }

  -- Taking a message off the channel, where it holds one.
  pub receive : Subscription Real → Subscription Real
  receive s = elim s.channel [ [] ↦ s | m ∷ rest ↦ record s { channel = rest } ]

  -- A subscription that Subscribe returns.
  pub opened : List EntityId → Subscription Real
  opened ids = record {
    channel = [];
    channel_closed = false;
    scope = ids;
    closed = false;
    is_registered = true;
    dropped = 0;
  }

  -- The subscription at a place, changed.
  pub at :
      ℕ
      → (Subscription Real → Subscription Real)
      → List (Subscription Real)
      → List (Subscription Real)
  at i f [] = []
  at zero f (s ∷ rest) = f s ∷ rest
  at (suc i) f (s ∷ rest) = s ∷ at i f rest

  pub subscribe : List EntityId → List (Subscription Real) → List (Subscription Real)
  unfolding opened
  subscribe ids subs = subs ++ opened ids ∷ []

  -- Publish: the targets, and then a delivery to each.
  pub targets : (Subscription Real → Bool) → List (Subscription Real) → List ℕ
  targets chosen [] = []
  targets chosen (s ∷ rest) =
      let others = map suc (targets chosen rest) in if chosen s then 0 ∷ others else others

  pub deliver_all : Message Real → List ℕ → List (Subscription Real) → List (Subscription Real)
  unfolding at deliver
  deliver_all m [] subs = subs
  deliver_all m (i ∷ rest) subs = deliver_all m rest (at i (deliver m) subs)

  pub publish : Update Real → List (Subscription Real) → List (Subscription Real)
  unfolding deliver_all targets wants
  publish u subs =
      deliver_all (update u) (targets (λ s. s.is_registered && wants s u.monitor_id) subs) subs

  pub publish_summary : Summary → List (Subscription Real) → List (Subscription Real)
  unfolding deliver_all targets
  publish_summary sum subs = deliver_all (summary sum) (targets (λ s. s.is_registered) subs) subs

  pub subscribers : List (Subscription Real) → ℕ
  subscribers [] = 0
  subscribers (s ∷ rest) = let n = subscribers rest in if s.is_registered then n + 1 else n

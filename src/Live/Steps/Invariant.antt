-- ===== src/Live/Steps/Invariant.antt =====
-- The invariant of the hub under interleaved calls (internal/live/live.go), and the changes that keep it.
use uptime_cairn.Base.{
  ℕ, zero, suc, ◌+◌, ◌≤◌, ◌<◌, ◌⊎◌, ◌≡◌, refl, ap, ◌∙◌, Bool, true, false, List, [], ◌∷◌, ◌++◌,
  some, arith, if◌then◌else◌, ◌==◌, length, get_elem?, set, length-append, Bool-cases, inl, inr,
}
use uptime_cairn.Live.{Message, Subscription, send_or_drop, receive, at, buffer_depth}
use uptime_cairn.Live.Steps.{Publisher, Phase, marking, removing, closing, returned, Closer, System}

abbrev pub bit : Bool → ℕ
bit true = 1
bit false = 0

-- A call of Close that has set `closed` and has not closed the channel.
abbrev pub weight : Phase → ℕ
weight marking = 0
weight removing = 1
weight closing = 1
weight returned = 0

abbrev pub weight_at : ℕ → Closer → ℕ
weight_at i c = if c.target == i then weight c.phase else 0

abbrev pub in_flight : ℕ → List Closer → ℕ
in_flight i [] = 0
in_flight i (c ∷ rest) = weight_at i c + in_flight i rest

in_flight-set :
    (i : ℕ) (cs : List Closer) (k : ℕ) (c c' : Closer)
    → get_elem? cs k ≡ some c
    → in_flight i (set cs k c') + weight_at i c ≡ in_flight i cs + weight_at i c'
unfolding in_flight
in_flight-set i [] k c c' h = absurd cc
in_flight-set i (x ∷ cs) zero c c' h = let same : x ≡ c = cc in rw same (omega arith)
in_flight-set i (x ∷ cs) (suc k) c c' h = omega (arith, in_flight-set i cs k c c' h)

pub in_flight-append :
    (i : ℕ) (cs : List Closer) (c : Closer)
    → in_flight i (cs ++ c ∷ []) ≡ in_flight i cs + weight_at i c
unfolding in_flight
in_flight-append i [] c = omega arith
in_flight-append i (x ∷ cs) c = omega (arith, in_flight-append i cs c)

pub in_flight-lower :
    (i : ℕ) (cs : List Closer) (k : ℕ) (c : Closer)
    → get_elem? cs k ≡ some c
    → weight_at i c ≤ in_flight i cs
unfolding in_flight
in_flight-lower i [] k c h = absurd cc
in_flight-lower i (x ∷ cs) zero c h = let same : x ≡ c = cc in rw same (omega arith)
in_flight-lower i (x ∷ cs) (suc k) c h = omega (arith, in_flight-lower i cs k c h)

module _ {ℓ} {Real : Type ℓ} where
  pub record Fits (flights : ℕ) (s : Subscription Real) : Type 0 where
    pub within : length s.channel ≤ buffer_depth
    pub once : flights + bit s.channel_closed ≡ bit s.closed

  -- Every channel is within its depth, and a subscription that is closed has one call of Close under way
  -- or a closed channel, and no other has either.
  pub record Inv (sys : System Real) : Type ℓ where
    pub each :
        (i : ℕ) (s : Subscription Real)
        → get_elem? sys.subs i ≡ some s
        → Fits (in_flight i sys.closers) s
    pub outside : (i : ℕ) → length sys.subs ≤ i → in_flight i sys.closers ≡ 0

  get_elem?-at :
      (i j : ℕ) (f : Subscription Real → Subscription Real) (subs : List (Subscription Real))
      (t : Subscription Real)
      → get_elem? (at i f subs) j ≡ some t
      → (s : Subscription Real) × (get_elem? subs j ≡ some s) × (t ≡ (if i == j then f s else s))
  unfolding at
  get_elem?-at i j f [] t h = absurd cc
  get_elem?-at zero zero f (s ∷ rest) t h = (s, refl, ground arith)
  get_elem?-at zero (suc j) f (s ∷ rest) t h = (t, h, ground arith)
  get_elem?-at (suc i) zero f (s ∷ rest) t h = (s, refl, ground arith)
  get_elem?-at (suc i) (suc j) f (s ∷ rest) t h =
      let (u, found, same) = get_elem?-at i j f rest t h in (u, found, ground arith)

  length-at :
      (i : ℕ) (f : Subscription Real → Subscription Real) (subs : List (Subscription Real))
      → length (at i f subs) ≡ length subs
  unfolding at
  length-at i f [] = refl
  length-at zero f (s ∷ rest) = refl
  length-at (suc i) f (s ∷ rest) = ap suc (length-at i f rest)

  pub get_elem?-append :
      (subs : List (Subscription Real)) (s t : Subscription Real) (j : ℕ)
      → get_elem? (subs ++ s ∷ []) j ≡ some t
      → (get_elem? subs j ≡ some t) ⊎ ((t ≡ s) × (length subs ≤ j))
  get_elem?-append [] s t zero h = inr (cc, omega arith)
  get_elem?-append [] s t (suc j) h = absurd cc
  get_elem?-append (x ∷ subs) s t zero h = inl h
  get_elem?-append (x ∷ subs) s t (suc j) h = ground (arith, get_elem?-append subs s t j h)

  get_elem?-length :
      (subs : List (Subscription Real)) (i : ℕ) (s : Subscription Real)
      → get_elem? subs i ≡ some s
      → i < length subs
  get_elem?-length [] i s h = absurd cc
  get_elem?-length (x ∷ subs) zero s h = omega arith
  get_elem?-length (x ∷ subs) (suc i) s h = omega (arith, get_elem?-length subs i s h)

  -- A change of one subscription that keeps what `Fits` reads.
  pub at-Inv :
      (sys : System Real) (i : ℕ) (f : Subscription Real → Subscription Real)
      (ps : List (Publisher Real))
      → ((s : Subscription Real)
          → length s.channel ≤ buffer_depth
          → length (f s).channel ≤ buffer_depth)
      → ((s : Subscription Real) → (f s).closed ≡ s.closed)
      → ((s : Subscription Real) → (f s).channel_closed ≡ s.channel_closed)
      → Inv sys
      → Inv (record sys { subs = at i f sys.subs; publishers = ps })
  at-Inv sys i f ps fits closed channel_closed inv = record {
    each = λ j t h.
        let (s, found, same) = get_elem?-at i j f sys.subs t h in
        let old = inv.each j s found in
        elim (Bool-cases (i == j)) [
          | inl e ↦
              let new : t ≡ f s = same ∙ rw e refl in
              rw new (record {
                within = fits s old.within;
                once = rw (closed s, channel_closed s) old.once;
              })
          | inr e ↦ let kept : t ≡ s = same ∙ rw e refl in rw kept old
        ];
    outside = λ j h. inv.outside j (omega (arith, length-at i f sys.subs));
  }

  -- A turn of a call of Close, where the flights that it adds are the locks that it changes.
  pub closer-Inv :
      (sys : System Real) (k : ℕ) (c : Closer) (s : Subscription Real)
      (f : Subscription Real → Subscription Real) (next : Phase)
      → get_elem? sys.closers k ≡ some c
      → get_elem? sys.subs c.target ≡ some s
      → (f s).channel ≡ s.channel
      → weight next + bit (f s).channel_closed + bit s.closed
        ≡ weight c.phase + bit s.channel_closed + bit (f s).closed
      → Inv sys
      → Inv (record sys {
        subs = at c.target f sys.subs;
        closers = set sys.closers k (record { target = c.target; phase = next });
      })
  closer-Inv sys k c s f next at_k found channel moved inv = record {
    each = λ j t h.
        let c' : Closer = record { target = c.target; phase = next } in
        let (s', found', same) = get_elem?-at c.target j f sys.subs t h in
        let old = inv.each j s' found' in
        let flights = in_flight-set j sys.closers k c c' at_k in
        elim (Bool-cases (c.target == j)) [
          | inl e ↦
              let here : c.target ≡ j = ground arith in
              let it : s' ≡ s = cc in
              let new : t ≡ f s = same ∙ rw (e, it) refl in
              let before : in_flight j sys.closers + bit s.channel_closed ≡ bit s.closed =
                rw (← it) old.once in
              let old_weight : weight_at j c ≡ weight c.phase = rw e refl in
              let new_weight : weight_at j c' ≡ weight next = rw e refl in
              rw new (record {
                within = rw (channel, ← it) old.within;
                once = omega (arith, flights, before, moved, old_weight, new_weight);
              })
          | inr e ↦
              let kept : t ≡ s' = same ∙ rw e refl in
              let old_weight : weight_at j c ≡ 0 = rw e refl in
              let new_weight : weight_at j c' ≡ 0 = rw e refl in
              rw kept (record {
                within = old.within;
                once = omega (arith, flights, old.once, old_weight, new_weight);
              })
        ];
    outside = λ j h.
        let c' : Closer = record { target = c.target; phase = next } in
        let flights = in_flight-set j sys.closers k c c' at_k in
        let none_before = inv.outside j (omega (arith, length-at c.target f sys.subs)) in
        let inside = get_elem?-length sys.subs c.target s found in
        let elsewhere : (c.target == j) ≡ false = ground (arith, length-at c.target f sys.subs) in
        let old_weight : weight_at j c ≡ 0 = rw elsewhere refl in
        let new_weight : weight_at j c' ≡ 0 = rw elsewhere refl in
        omega (arith, flights, none_before, old_weight, new_weight);
  }

  pub send_or_drop-within :
      (m : Message Real) (s : Subscription Real)
      → length s.channel ≤ buffer_depth
      → length (send_or_drop m s).channel ≤ buffer_depth
  unfolding send_or_drop
  send_or_drop-within m s h = ground (arith, length-append s.channel (m ∷ []))

  pub send_or_drop-closed :
      (m : Message Real) (s : Subscription Real) → (send_or_drop m s).closed ≡ s.closed
  unfolding send_or_drop
  send_or_drop-closed m s = ground arith

  pub send_or_drop-channel_closed :
      (m : Message Real) (s : Subscription Real)
      → (send_or_drop m s).channel_closed ≡ s.channel_closed
  unfolding send_or_drop
  send_or_drop-channel_closed m s = ground arith

  pub receive-within :
      (s : Subscription Real)
      → length s.channel ≤ buffer_depth
      → length (receive s).channel ≤ buffer_depth
  unfolding receive
  receive-within s h = ground arith

  pub receive-closed : (s : Subscription Real) → (receive s).closed ≡ s.closed
  unfolding receive
  receive-closed s = ground arith

  pub receive-channel_closed :
      (s : Subscription Real) → (receive s).channel_closed ≡ s.channel_closed
  unfolding receive
  receive-channel_closed s = ground arith

  -- A turn of a call of Close that changes no flight.
  pub closer_only-Inv :
      (sys : System Real) (k : ℕ) (c c' : Closer)
      → get_elem? sys.closers k ≡ some c
      → ((j : ℕ) → weight_at j c' ≡ weight_at j c)
      → Inv sys
      → Inv (record sys { closers = set sys.closers k c' })
  closer_only-Inv sys k c c' at_k same inv = record {
    each = λ j t h.
        let kept : in_flight j (set sys.closers k c') ≡ in_flight j sys.closers =
          omega (arith, in_flight-set j sys.closers k c c' at_k, same j) in
        rw kept (inv.each j t h);
    outside =
        λ j h. omega (arith, in_flight-set j sys.closers k c c' at_k, same j, inv.outside j h);
  }

-- ===== src/Live/Steps/Channels.antt =====
-- However calls interleave (internal/live/live.go), channels stay within their depth and are closed once.
use uptime_cairn.Base.{
  ℕ, ◌≤◌, ◌≡◌, refl, ap, ◌∙◌, false, List, [], ◌∷◌, ◌++◌, Option, none, some, arith, if◌then◌else◌,
  ltb, length, get_elem?, length-append, Bool-cases, inl, inr,
}
use uptime_cairn.Live.{
  Subscription, send_or_drop, set_scope, receive, subscribe, opened, buffer_depth,
}
use uptime_cairn.Live.Steps.{
  Publisher, Phase, marking, removing, closing, returned, Closer, System, Action, open_stream,
  rescope, take_message, start_publish, start_summary, start_close, advance_publisher,
  advance_closer, panic, deliver_step, deliver_to, deliver_next, publisher_turn, mark, unregister,
  close_channel, close_step, close_at, closer_turn, new_publisher, act, step, run, new_system,
}
use uptime_cairn.Live.Steps.Invariant.{
  bit, weight_at, in_flight, in_flight-append, Inv, in_flight-lower, get_elem?-append, at-Inv,
  closer-Inv, closer_only-Inv, send_or_drop-within, send_or_drop-closed,
  send_or_drop-channel_closed, receive-within, receive-closed, receive-channel_closed,
}

module _ {ℓ} {Real : Type ℓ} where
  deliver_step-Inv :
      (k : ℕ) (p : Publisher Real) (i : ℕ) (rest : List ℕ) (s : Subscription Real)
      (sys : System Real)
      → Inv sys
      → Inv (deliver_step k p i rest s sys)
  unfolding deliver_step panic
  deliver_step-Inv k p i rest s sys inv = elim (Bool-cases p.checked) [
    | inl c ↦ elim (Bool-cases s.channel_closed) [
      | inl e ↦ rw (c, e) (record { each = inv.each; outside = inv.outside })
      | inr e ↦
          rw (c, e)
            (at-Inv sys i (send_or_drop p.message) _ (send_or_drop-within p.message)
              (send_or_drop-closed p.message) (send_or_drop-channel_closed p.message) inv)
    ]
    | inr c ↦ elim (Bool-cases s.closed) [
      | inl e ↦ rw (c, e) (record { each = inv.each; outside = inv.outside })
      | inr e ↦ rw (c, e) (record { each = inv.each; outside = inv.outside })
    ]
  ]

  deliver_to-Inv :
      (k : ℕ) (p : Publisher Real) (i : ℕ) (rest : List ℕ) (s : Option (Subscription Real))
      (sys : System Real)
      → Inv sys
      → Inv (deliver_to k p i rest s sys)
  unfolding deliver_to
  deliver_to-Inv k p i rest none sys inv = inv
  deliver_to-Inv k p i rest (some s) sys inv = deliver_step-Inv k p i rest s sys inv

  deliver_next-Inv :
      (k : ℕ) (p : Publisher Real) (pending : List ℕ) (sys : System Real)
      → Inv sys
      → Inv (deliver_next k p pending sys)
  unfolding deliver_next
  deliver_next-Inv k p [] sys inv = inv
  deliver_next-Inv k p (i ∷ rest) sys inv = deliver_to-Inv k p i rest (get_elem? sys.subs i) sys inv

  publisher_turn-Inv :
      (k : ℕ) (p : Option (Publisher Real)) (sys : System Real)
      → Inv sys
      → Inv (publisher_turn k p sys)
  unfolding publisher_turn
  publisher_turn-Inv k none sys inv = inv
  publisher_turn-Inv k (some p) sys inv = deliver_next-Inv k p p.pending sys inv

  -- The channel of a subscription that a call of Close is about to close is open.
  open_until_closing :
      (k : ℕ) (c : Closer) (s : Subscription Real) (sys : System Real)
      → Inv sys
      → get_elem? sys.closers k ≡ some c
      → get_elem? sys.subs c.target ≡ some s
      → c.phase ≡ closing
      → s.channel_closed ≡ false
  open_until_closing k c s sys inv at_k found phase =
      let once = (inv.each c.target s found).once in
      let one = in_flight-lower c.target sys.closers k c at_k in
      let here : weight_at c.target c ≡ 1 = ground arith in
      elim (Bool-cases s.channel_closed) [
        | inl e ↦ absurd (
            let two : bit s.channel_closed ≡ 1 = rw e refl in
            let most : bit s.closed ≤ 1 = ground arith in omega (arith, once, one, here, two, most))
        | inr e ↦ e
      ]

  close_step-Inv :
      (k : ℕ) (c : Closer) (phase : Phase) (s : Subscription Real) (sys : System Real)
      → Inv sys
      → get_elem? sys.closers k ≡ some c
      → get_elem? sys.subs c.target ≡ some s
      → c.phase ≡ phase
      → Inv (close_step k c.target phase s sys)
  unfolding close_step panic mark unregister close_channel
  close_step-Inv k c marking s sys inv at_k found is = elim (Bool-cases s.closed) [
    | inl e ↦ rw e (
        closer_only-Inv sys k c (record { target = c.target; phase = returned }) at_k
          (λ j. ground arith) inv)
    | inr e ↦
        rw e (closer-Inv sys k c s mark removing at_k found refl (rw (is, e) (omega arith)) inv)
  ]
  close_step-Inv k c removing s sys inv at_k found is =
      closer-Inv sys k c s unregister closing at_k found refl (rw is (omega arith)) inv
  close_step-Inv k c closing s sys inv at_k found is =
      let still_open = open_until_closing k c s sys inv at_k found is in
      rw still_open (
        closer-Inv sys k c s close_channel returned at_k found refl
          (rw (is, still_open) (omega arith)) inv)
  close_step-Inv k c returned s sys inv at_k found is = inv

  close_at-Inv :
      (k : ℕ) (c : Closer) (s : Option (Subscription Real)) (sys : System Real)
      → Inv sys
      → get_elem? sys.closers k ≡ some c
      → get_elem? sys.subs c.target ≡ s
      → Inv (close_at k c s sys)
  unfolding close_at
  close_at-Inv k c none sys inv at_k found = inv
  close_at-Inv k c (some s) sys inv at_k found =
      close_step-Inv k c c.phase s sys inv at_k found refl

  closer_turn-Inv :
      (k : ℕ) (c : Option Closer) (sys : System Real)
      → Inv sys
      → get_elem? sys.closers k ≡ c
      → Inv (closer_turn k c sys)
  unfolding closer_turn
  closer_turn-Inv k none sys inv at_k = inv
  closer_turn-Inv k (some c) sys inv at_k =
      close_at-Inv k c (get_elem? sys.subs c.target) sys inv at_k refl

  act-Inv : (a : Action Real) (sys : System Real) → Inv sys → Inv (act a sys)
  unfolding act new_publisher subscribe opened set_scope
  act-Inv (open_stream ids) sys inv = record {
    each = λ j t h. elim (get_elem?-append sys.subs _ t j h) [
      | inl old ↦ inv.each j t old
      | inr (new, beyond) ↦
          rw (new, inv.outside j beyond) (record { within = omega arith; once = omega arith })
    ];
    outside = λ j h. inv.outside j (omega (arith, length-append sys.subs (opened ids ∷ [])));
  }
  act-Inv (rescope i ids) sys inv =
      at-Inv sys i (set_scope ids) sys.publishers (λ s h. h) (λ s. refl) (λ s. refl) inv
  act-Inv (take_message i) sys inv =
      at-Inv sys i receive sys.publishers receive-within receive-closed receive-channel_closed inv
  act-Inv (start_publish u) sys inv = record { each = inv.each; outside = inv.outside }
  act-Inv (start_summary sum) sys inv = record { each = inv.each; outside = inv.outside }
  act-Inv (start_close i) sys inv = elim (Bool-cases (ltb i (length sys.subs))) [
    | inl e ↦
        let c : Closer = record { target = i; phase = marking } in
        rw e (record {
          each = λ j t h.
              let kept : in_flight j (sys.closers ++ c ∷ []) ≡ in_flight j sys.closers =
                ground (arith, in_flight-append j sys.closers c) in
              rw kept (inv.each j t h);
          outside = λ j h. ground (arith, in_flight-append j sys.closers c, inv.outside j h);
        })
    | inr e ↦ rw e inv
  ]
  act-Inv (advance_publisher k) sys inv = publisher_turn-Inv k (get_elem? sys.publishers k) sys inv
  act-Inv (advance_closer k) sys inv = closer_turn-Inv k (get_elem? sys.closers k) sys inv refl

  step-Inv : (a : Action Real) (sys : System Real) → Inv sys → Inv (step a sys)
  unfolding step
  step-Inv a sys inv = elim (Bool-cases sys.panicked) [
    | inl e ↦ simp e inv
    | inr e ↦ simp e (act-Inv a sys inv)
  ]

  run-Inv : (actions : List (Action Real)) (sys : System Real) → Inv sys → Inv (run actions sys)
  unfolding run
  run-Inv [] sys inv = inv
  run-Inv (a ∷ rest) sys inv = run-Inv rest (step a sys) (step-Inv a sys inv)

  new_system-Inv : Inv {Real = Real} new_system
  unfolding new_system
  new_system-Inv = record { each = λ i s h. absurd (cc); outside = λ i h. refl }

  -- In every interleaving a channel holds no more messages than its depth.
  pub channel_bounds :
      (actions : List (Action Real)) (i : ℕ) (s : Subscription Real)
      → get_elem? (run actions new_system).subs i ≡ some s
      → length s.channel ≤ buffer_depth
  channel_bounds actions i s h = ((run-Inv actions new_system new_system-Inv).each i s h).within

  close_step_safe :
      (k : ℕ) (c : Closer) (phase : Phase) (s : Subscription Real) (sys : System Real)
      → (phase ≡ closing → s.channel_closed ≡ false)
      → (close_step k c.target phase s sys).panicked ≡ sys.panicked
  unfolding close_step
  close_step_safe k c marking s sys h = ground arith
  close_step_safe k c removing s sys h = refl
  close_step_safe k c closing s sys h = rw (h refl) refl
  close_step_safe k c returned s sys h = refl

  close_at_safe :
      (k : ℕ) (c : Closer) (s : Option (Subscription Real)) (sys : System Real)
      → Inv sys
      → get_elem? sys.closers k ≡ some c
      → get_elem? sys.subs c.target ≡ s
      → (close_at k c s sys).panicked ≡ sys.panicked
  unfolding close_at
  close_at_safe k c none sys inv at_k found = refl
  close_at_safe k c (some s) sys inv at_k found =
      close_step_safe k c c.phase s sys (λ is. open_until_closing k c s sys inv at_k found is)

  closer_turn_safe :
      (k : ℕ) (c : Option Closer) (sys : System Real)
      → Inv sys
      → get_elem? sys.closers k ≡ c
      → (closer_turn k c sys).panicked ≡ sys.panicked
  unfolding closer_turn
  closer_turn_safe k none sys inv at_k = refl
  closer_turn_safe k (some c) sys inv at_k =
      close_at_safe k c (get_elem? sys.subs c.target) sys inv at_k refl

  step_closer_safe :
      (k : ℕ) (sys : System Real) → Inv sys → (step (advance_closer k) sys).panicked ≡ sys.panicked
  unfolding step act
  step_closer_safe k sys inv = elim (Bool-cases sys.panicked) [
    | inl e ↦ ap (λ b. (if b then sys else act (advance_closer k) sys).panicked) e
    | inr e ↦
        ap (λ b. (if b then sys else act (advance_closer k) sys).panicked) e
        ∙ closer_turn_safe k (get_elem? sys.closers k) sys inv refl
  ]

  -- Whatever the interleaving of publishers, subscribers and calls of Close on the same
  -- subscription, no step of Close panics: a channel is closed at most once.
  pub closers_never_panic :
      (actions : List (Action Real)) (k : ℕ)
      → (step (advance_closer k) (run actions new_system)).panicked
        ≡ (run actions new_system).panicked
  closers_never_panic actions k =
      step_closer_safe k (run actions new_system) (run-Inv actions new_system new_system-Inv)

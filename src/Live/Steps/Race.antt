-- ===== src/Live/Steps/Race.antt =====
-- A delivery that has passed its test of `closed` while Close runs (deliver and Close, internal/live/live.go).
use uptime_cairn.Base.{
  ℕ, zero, suc, ◌<◌, ◌≡◌, refl, ap, ◌∙◌, true, false, List, [], ◌∷◌, ◌++◌, some, arith, length,
  get_elem?, set, get_elem?-set_self, if◌then◌else◌, ltb, lt→ltb,
}
use uptime_cairn.Live.{Subscription, at}
use uptime_cairn.Live.Steps.{
  Publisher, Phase, marking, removing, closing, returned, System, start_close, advance_publisher,
  advance_closer, panic, mark, unregister, close_channel, step, run, act, publisher_turn,
  closer_turn, deliver_next, deliver_to, deliver_step, close_at, close_step,
}

module _ {ℓ} {A : Type ℓ} where
  get_elem?-append_self : (xs : List A) (a : A) → get_elem? (xs ++ a ∷ []) (length xs) ≡ some a
  get_elem?-append_self [] a = refl
  get_elem?-append_self (x ∷ xs) a = get_elem?-append_self xs a

  get_elem?-length : (xs : List A) (i : ℕ) (a : A) → get_elem? xs i ≡ some a → i < length xs
  get_elem?-length [] i a h = absurd cc
  get_elem?-length (x ∷ xs) zero a h = omega arith
  get_elem?-length (x ∷ xs) (suc i) a h = omega (arith, get_elem?-length xs i a h)

  -- Writing where there is something.
  get_elem?-write :
      (xs : List A) (i : ℕ) (a b : A) → get_elem? xs i ≡ some a → get_elem? (set xs i b) i ≡ some b
  get_elem?-write xs i a b h = get_elem?-set_self xs i b (get_elem?-length xs i a h)

module _ {ℓ} {Real : Type ℓ} where
  get_elem?-at_self :
      (i : ℕ) (f : Subscription Real → Subscription Real) (subs : List (Subscription Real))
      (s : Subscription Real)
      → get_elem? subs i ≡ some s
      → get_elem? (at i f subs) i ≡ some (f s)
  unfolding at
  get_elem?-at_self i f [] s h = absurd cc
  get_elem?-at_self zero f (x ∷ rest) s h = let same : x ≡ s = cc in ap (λ t. some (f t)) same
  get_elem?-at_self (suc i) f (x ∷ rest) s h = get_elem?-at_self i f rest s h

  -- Publisher k has passed the test of subscription i, and call m of Close on i is in a phase.
  record Midway (k i m : ℕ) (p : Publisher Real) (phase : Phase) (s : Subscription Real)
      (sys : System Real) : Type ℓ where
    delivers : get_elem? sys.publishers k ≡ some p
    closes : get_elem? sys.closers m ≡ some (record { target = i; phase = phase })
    holds : get_elem? sys.subs i ≡ some s
    running : sys.panicked ≡ false

  module _ (k i m : ℕ) (p : Publisher Real) (s : Subscription Real) (sys : System Real) where
    step_closer :
        (phase : Phase)
        → Midway k i m p phase s sys
        → step (advance_closer m) sys ≡ close_step m i phase s sys
    unfolding step act closer_turn close_at
    step_closer phase w =
        ap (λ b. if b then sys else closer_turn m (get_elem? sys.closers m) sys) w.running
        ∙ ap (λ c. closer_turn m c sys) w.closes
        ∙ ap (λ t. close_at m (record { target = i; phase = phase }) t sys) w.holds

    step_marking :
        Midway k i m p marking s sys
        → s.closed ≡ false
        → Midway k i m p removing (mark s) (step (advance_closer m) sys)
    unfolding close_step
    step_marking w still_open =
        rw (step_closer marking w, still_open)
          (record {
            delivers = w.delivers;
            closes = get_elem?-write sys.closers m _ _ w.closes;
            holds = get_elem?-at_self i mark sys.subs s w.holds;
            running = w.running;
          })

    step_removing :
        Midway k i m p removing s sys
        → Midway k i m p closing (unregister s) (step (advance_closer m) sys)
    unfolding close_step
    step_removing w = rw (step_closer removing w) (record {
      delivers = w.delivers;
      closes = get_elem?-write sys.closers m _ _ w.closes;
      holds = get_elem?-at_self i unregister sys.subs s w.holds;
      running = w.running;
    })

    step_closing :
        Midway k i m p closing s sys
        → s.channel_closed ≡ false
        → Midway k i m p returned (close_channel s) (step (advance_closer m) sys)
    unfolding close_step
    step_closing w still_open =
        rw (step_closer closing w, still_open)
          (record {
            delivers = w.delivers;
            closes = get_elem?-write sys.closers m _ _ w.closes;
            holds = get_elem?-at_self i close_channel sys.subs s w.holds;
            running = w.running;
          })

  module _ (k i : ℕ) (p : Publisher Real) (rest : List ℕ) (s : Subscription Real)
      (sys : System Real) where
    step_publisher :
        get_elem? sys.publishers k ≡ some p
        → p.pending ≡ i ∷ rest
        → get_elem? sys.subs i ≡ some s
        → sys.panicked ≡ false
        → step (advance_publisher k) sys ≡ deliver_step k p i rest s sys
    unfolding step act publisher_turn deliver_next deliver_to
    step_publisher delivers next holds running =
        ap (λ b. if b then sys else publisher_turn k (get_elem? sys.publishers k) sys) running
        ∙ ap (λ q. publisher_turn k q sys) delivers
        ∙ ap (λ is. deliver_next k p is sys) next
        ∙ ap (λ t. deliver_to k p i rest t sys) holds

  -- Where a publisher is about to deliver to an open subscription, and Close runs between the
  -- delivery's test and its send, the send panics.
  pub close_during_delivery :
      (k i : ℕ) (p : Publisher Real) (rest : List ℕ) (s : Subscription Real) (sys : System Real)
      → get_elem? sys.publishers k ≡ some p
      → p.pending ≡ i ∷ rest
      → p.checked ≡ false
      → get_elem? sys.subs i ≡ some s
      → s.closed ≡ false
      → s.channel_closed ≡ false
      → sys.panicked ≡ false
      → (run
          (advance_publisher k
            ∷ start_close i
            ∷ advance_closer (length sys.closers)
            ∷ advance_closer (length sys.closers)
            ∷ advance_closer (length sys.closers)
            ∷ advance_publisher k
            ∷ [])
          sys).panicked
        ≡ true
  unfolding run deliver_step act panic mark unregister close_channel
  close_during_delivery k i p rest s sys delivers next unchecked holds is_open channel running =
      let m = length sys.closers in
      let q : Publisher Real = record p { checked = true } in
      let sys1 : System Real = record sys { publishers = set sys.publishers k q } in
      let sys2 : System Real = record sys1 {
        closers = sys.closers ++ record { target = i; phase = marking } ∷ [];
      } in
      let first : step (advance_publisher k) sys ≡ sys1 =
        step_publisher k i p rest s sys delivers next holds running
        ∙ rw (unchecked, is_open) refl in
      let inside : ltb i (length sys.subs) ≡ true =
        lt→ltb _ _ (get_elem?-length sys.subs i s holds) in
      let second : step (start_close i) sys1 ≡ sys2 =
        ap (λ b. if b then sys1 else act (start_close i) sys1) running
        ∙ ap (λ b. if b then sys2 else sys1) inside in
      let w2 : Midway k i m q marking s sys2 = record {
        delivers = get_elem?-write sys.publishers k p q delivers;
        closes = get_elem?-append_self sys.closers _;
        holds = holds;
        running = running;
      } in
      let w3 = step_marking k i m q s sys2 w2 is_open in
      let w4 = step_removing k i m q (mark s) _ w3 in
      let w5 = step_closing k i m q (unregister (mark s)) _ w4 channel in
      let closers : System Real → System Real =
        λ x. step (advance_closer m) (step (advance_closer m) (step (advance_closer m) x)) in
      ap (λ x. (step (advance_publisher k) (closers x)).panicked)
        (ap (step (start_close i)) first ∙ second)
      ∙ ap (λ x. x.panicked)
          (step_publisher k i q rest _ (closers sys2) w5.delivers next w5.holds w5.running)

-- ===== src/Probe/Schedule/Phase.antt =====
-- When a monitor is first due (firstDue, internal/probe/scheduler.go).
use native.Mathlib.Nat.{mod-lt}
use uptime_cairn.Base.{
  ℕ, ◌+◌, ◌*◌, ◌%◌, ◌<◌, ◌≡◌, ◌↔◌, refl, sym, ap, ◌∙◌, arith, Bool-cases, inl, inr,
}
use uptime_cairn.Base.Int.{
  ℤ, pos, negsuc, pos_part, neg_part, floor_div, ◌+ℤ◌, ◌-ℤ◌, ◌*ℤ◌, ◌≤ℤ◌, ◌<ℤ◌, ltb_ℤ, +ℤ_parts,
  -ℤ_parts, eq_of_parts,
}
use uptime_cairn.Base.Division.{floor_div_bounds, mul_mono}
use uptime_cairn.Model.{EntityId, Instant, id_string}
use uptime_cairn.Probe.Schedule.{year_one, truncate, due_at, first_due, fnv}

times_parts :
    (n : ℤ) (d : ℕ)
    → pos_part (n *ℤ pos d) + neg_part n * d ≡ neg_part (n *ℤ pos d) + pos_part n * d
unfolding ◌*ℤ◌
times_parts (pos n) d = ground arith
times_parts (negsuc n) d = ground arith

-- The instants that stand at an offset in their interval.
abbrev pub at_phase : ℕ → ℕ → ℤ → Instant
at_phase offset interval n = year_one +ℤ n *ℤ pos interval +ℤ pos offset

next_times : (n : ℤ) (d : ℕ) → (n +ℤ pos 1) *ℤ pos d ≡ n *ℤ pos d +ℤ pos d
next_times n d = eq_of_parts _ _ (
    omega (
      arith,
      times_parts n d,
      times_parts (n +ℤ pos 1) d,
      ap (λ (t : ℕ). t * d) (+ℤ_parts n (pos 1)),
      +ℤ_parts (n *ℤ pos d) (pos d),
    ))

next_period :
    (n : ℤ) (offset interval : ℕ)
    → at_phase offset interval n +ℤ pos interval ≡ at_phase offset interval (n +ℤ pos 1)
next_period n offset interval =
    let t = n *ℤ pos interval in
    let u = (n +ℤ pos 1) *ℤ pos interval in
    eq_of_parts _ _ (
      omega (
        arith,
        +ℤ_parts (year_one +ℤ t +ℤ pos offset) (pos interval),
        +ℤ_parts (year_one +ℤ t) (pos offset),
        +ℤ_parts year_one t,
        +ℤ_parts (year_one +ℤ u) (pos offset),
        +ℤ_parts year_one u,
        times_parts n interval,
        times_parts (n +ℤ pos 1) interval,
        ap (λ (k : ℕ). k * interval) (+ℤ_parts n (pos 1)),
      ))

truncate_bounds :
    (t : Instant) (interval : ℕ)
    → 0 < interval
    → (truncate t interval ≤ℤ t) × (t <ℤ truncate t interval +ℤ pos interval)
unfolding truncate
truncate_bounds t interval h =
    let n = floor_div (t -ℤ year_one) interval in
    let (low, high) = floor_div_bounds (t -ℤ year_one) interval h in
    let m = n *ℤ pos interval in
    let facts = +ℤ_parts year_one m in
    let since = -ℤ_parts t year_one in
    let next = +ℤ_parts m (pos interval) in
    let end = +ℤ_parts (year_one +ℤ m) (pos interval) in
    (omega (arith, low, facts, since), omega (arith, high, facts, since, next, end))

-- An instant of the phase, after another and at most an interval later.
pub record IsDue (offset interval : ℕ) (now due : Instant) : Type 0 where
  pub after : now <ℤ due
  pub soon : due ≤ℤ now +ℤ pos interval
  pub period : ℤ
  pub in_phase : due ≡ at_phase offset interval period

due_at-IsDue :
    (offset interval : ℕ) (now : Instant)
    → 0 < interval
    → offset < interval
    → IsDue offset interval now (due_at offset interval now)
unfolding due_at
due_at-IsDue offset interval now h k =
    let n = floor_div (now -ℤ year_one) interval in
    let (low, high) = truncate_bounds now interval h in
    let base = truncate now interval in
    let due = base +ℤ pos offset in
    let first = +ℤ_parts base (pos offset) in
    let span = +ℤ_parts base (pos interval) in
    let limit = +ℤ_parts now (pos interval) in
    let later = +ℤ_parts due (pos interval) in
    elim (Bool-cases (ltb_ℤ now due)) [
      | inl e ↦ rw e (record {
        after = ground arith;
        soon = omega (arith, low, first, limit);
        period = n;
        in_phase = unfold truncate in refl;
      })
      | inr e ↦
          let not_after : due ≤ℤ now = ground arith in
          rw e (record {
            after = omega (arith, high, first, span, later);
            soon = omega (arith, not_after, limit, later);
            period = n +ℤ pos 1;
            in_phase = unfold truncate in next_period n offset interval;
          })
    ]

order_times : (n m : ℤ) (d : ℕ) → n <ℤ m → n *ℤ pos d +ℤ pos d ≤ℤ m *ℤ pos d
order_times n m d h = omega (
  arith,
  times_parts n d,
  times_parts m d,
  +ℤ_parts (n *ℤ pos d) (pos d),
  mul_mono (pos_part n + neg_part m + 1) (pos_part m + neg_part n) d (omega arith),
)

not_before :
    (offset interval : ℕ) (now : Instant) (n m : ℤ)
    → now <ℤ at_phase offset interval n
    → at_phase offset interval m ≤ℤ now +ℤ pos interval
    → n <ℤ m
    → ⊥
not_before offset interval now n m a b h =
    let t = n *ℤ pos interval in
    let u = m *ℤ pos interval in
    omega (
      arith,
      order_times n m interval h,
      +ℤ_parts t (pos interval),
      +ℤ_parts (year_one +ℤ t) (pos offset),
      +ℤ_parts year_one t,
      +ℤ_parts (year_one +ℤ u) (pos offset),
      +ℤ_parts year_one u,
      +ℤ_parts now (pos interval),
    )

unique_period :
    (offset interval : ℕ) (now : Instant) (n m : ℤ)
    → now <ℤ at_phase offset interval n
    → at_phase offset interval n ≤ℤ now +ℤ pos interval
    → now <ℤ at_phase offset interval m
    → at_phase offset interval m ≤ℤ now +ℤ pos interval
    → n ≡ m
unique_period offset interval now n m a b c d = elim (Bool-cases (ltb_ℤ n m)) [
  | inl less ↦ absurd (not_before offset interval now n m a d (ground arith))
  | inr not_less ↦ elim (Bool-cases (ltb_ℤ m n)) [
    | inl more ↦ absurd (not_before offset interval now m n c b (ground arith))
    | inr not_more ↦ eq_of_parts n m (ground arith)
  ]
]

unique_due :
    (offset interval : ℕ) (now due other : Instant)
    → IsDue offset interval now due
    → IsDue offset interval now other
    → due ≡ other
unique_due offset interval now due other a b =
    a.in_phase
    ∙ ap (at_phase offset interval) (
        unique_period offset interval now a.period b.period (rw (← a.in_phase) a.after)
          (rw (← a.in_phase) a.soon) (rw (← b.in_phase) b.after) (rw (← b.in_phase) b.soon))
    ∙ sym b.in_phase

-- For a positive interval, a monitor's first task is due at the one instant of its phase, the hash
-- of its id modulo the interval, that is after now and at most an interval later.
pub first_due_iff :
    (id : EntityId) (interval : ℕ) (now due : Instant)
    → 0 < interval
    → IsDue (fnv (id_string id) % interval) interval now due ↔ (due ≡ first_due id interval now)
unfolding first_due
first_due_iff id interval now due h =
    let is_due =
      due_at-IsDue (fnv (id_string id) % interval) interval now h (mod-lt (fnv (id_string id)) h) in
    (λ d. unique_due (fnv (id_string id) % interval) interval now due _ d is_due, λ e. rw e is_due)

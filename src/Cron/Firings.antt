-- ===== src/Cron/Firings.antt =====
-- When an expression fires next (Expression.Next, internal/cron/cron.go).
use uptime_cairn.Base.{
  ℕ, zero, suc, ◌≡◌, refl, sym, ◌∙◌, Bool, true, false, ◌||◌, List, [], ◌∷◌, some, arith,
  Bool-cases, Option-cases, inl, inr,
}
use uptime_cairn.Base.Int.{ℤ, pos, ◌+ℤ◌, ◌<ℤ◌, ltb_ℤ, eqb_ℤ}
use uptime_cairn.Model.{Instant}
use uptime_cairn.Cron.{
  Expression, Calendar, matches_day, member, first_minute, first_time, or_else, search, next,
  sorted_keys, lookahead_days,
}

or_left : (a b : Bool) → a ≡ true → (a || b) ≡ true
or_left true b h = refl
or_left false b h = absurd cc

or_right : (a b : Bool) → b ≡ true → (a || b) ≡ true
or_right true b h = refl
or_right false b h = h

eqb_ℤ_refl : (v : ℤ) → eqb_ℤ v v ≡ true
eqb_ℤ_refl v = ground arith

-- An instant at which an expression fires, by its sets.
pub record Fires (e : Expression) (cal : Calendar) (hours minutes : List ℤ) (at : Instant)
    : Type 0 where
  pub year : ℤ
  pub month : ℤ
  pub day : ℤ
  pub hour : ℤ
  pub minute : ℤ
  pub is_date : at ≡ cal.date year month day hour minute
  pub in_hours : member hour hours ≡ true
  pub in_minutes : member minute minutes ≡ true
  pub on_day : matches_day e (cal.day_of (cal.date year month day (pos 0) (pos 0))) ≡ true

first_minute_lem :
    (cal : Calendar) (after : Instant) (y mo d h : ℤ) (ms : List ℤ) (at : Instant)
    → first_minute cal after y mo d h ms ≡ some at
    → (m : ℤ) × (at ≡ cal.date y mo d h m) × (member m ms ≡ true) × (after <ℤ at)
unfolding first_minute member
first_minute_lem cal after y mo d h [] at e = absurd cc
first_minute_lem cal after y mo d h (m ∷ rest) at e =
    elim (Bool-cases (ltb_ℤ after (cal.date y mo d h m))) [
      | inl f ↦
          let e' : some (cal.date y mo d h m) ≡ some at = simp f at e in
          let same : cal.date y mo d h m ≡ at = cc in
          (
            m,
            sym same,
            or_left (eqb_ℤ m m) (member m rest) (eqb_ℤ_refl m),
            rw (sym same) (ground arith),
          )
      | inr f ↦
          let (m', is, inside, later) = first_minute_lem cal after y mo d h rest at (simp f at e) in
          (m', is, or_right (eqb_ℤ m m') (member m' rest) inside, later)
    ]

first_time_lem :
    (cal : Calendar) (after : Instant) (y mo d : ℤ) (hs ms : List ℤ) (at : Instant)
    → first_time cal after y mo d hs ms ≡ some at
    → (h : ℤ) × (m : ℤ) × (at ≡ cal.date y mo d h m)
      × (member h hs ≡ true)
      × (member m ms ≡ true)
      × (after <ℤ at)
unfolding first_time or_else member
first_time_lem cal after y mo d [] ms at e = absurd cc
first_time_lem cal after y mo d (h ∷ rest) ms at e =
    elim (Option-cases (first_minute cal after y mo d h ms)) [
      | inl f ↦
          let (h', m, is, inside, minute_in, later) =
            first_time_lem cal after y mo d rest ms at (simp f at e) in
          (h', m, is, or_right (eqb_ℤ h h') (member h' rest) inside, minute_in, later)
      | inr (found, f) ↦
          let e' : some found ≡ some at = simp f at e in
          let same : found ≡ at = cc in
          let (m, is, minute_in, later) = first_minute_lem cal after y mo d h ms at (f ∙ e') in
          (h, m, is, or_left (eqb_ℤ h h) (member h rest) (eqb_ℤ_refl h), minute_in, later)
    ]

search_lem :
    (left : ℕ) (e : Expression) (cal : Calendar) (after : Instant) (y mo d : ℤ) (hs ms : List ℤ)
    (at : Instant)
    → search left e cal after y mo d hs ms ≡ some at
    → Fires e cal hs ms at × (after <ℤ at)
unfolding search or_else
search_lem zero e cal after y mo d hs ms at h = absurd cc
search_lem (suc left) e cal after y mo d hs ms at h =
    let start = cal.day_of (cal.date y mo d (pos 0) (pos 0)) in
    elim (Bool-cases (matches_day e start)) [
      | inl f ↦ elim (Option-cases (first_time cal after y mo d hs ms)) [
        | inl g ↦
            search_lem left e cal after start.year start.month (start.day +ℤ pos 1) hs ms at
              (simp (f, g) at h)
        | inr (found, g) ↦
            let h' : some found ≡ some at = simp (f, g) at h in
            let (hr, m, is, hour_in, minute_in, later) =
              first_time_lem cal after y mo d hs ms at (g ∙ h') in
            (
              record {
                year = y;
                month = mo;
                day = d;
                hour = hr;
                minute = m;
                is_date = is;
                in_hours = hour_in;
                in_minutes = minute_in;
                on_day = f;
              },
              later,
            )
      ]
      | inr f ↦
          search_lem left e cal after start.year start.month (start.day +ℤ pos 1) hs ms at
            (simp f at h)
    ]

-- What Next answers is strictly after the instant asked about, and is a time of a day that the
-- expression matches, at one of its hours and minutes.
pub next-Fires :
    (e : Expression) (cal : Calendar) (after at : Instant)
    → next e cal after ≡ some at
    → Fires e cal (sorted_keys e.hours) (sorted_keys e.minutes) at × (after <ℤ at)
unfolding next
next-Fires e cal after at h =
    let local = cal.day_of after in
    search_lem lookahead_days e cal after local.year local.month local.day (sorted_keys e.hours)
      (sorted_keys e.minutes) at h

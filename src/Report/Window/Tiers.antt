-- ===== src/Report/Window/Tiers.antt =====
-- Which tier answers a window, and what the answer says of it (ResolveTier, internal/report/window.go).
use uptime_cairn.Base.{
  ◌≡◌, refl, sym, ap, ◌⊎◌, Bool, true, false, ◌&&◌, ◌||◌, not, List, [], ◌∷◌, ◌++◌, Option, none,
  some, arith, Bool-cases, Option-cases, inl, inr,
}
use uptime_cairn.Base.Int.{ℤ, pos, ltb_ℤ, eqb_ℤ}
use uptime_cairn.Base.Bytes.{Bytes, codes, eqb}
use uptime_cairn.Model.{Instant}
use uptime_cairn.Report.Window.{
  Window, Zone, Retention, Resolution, TierRetention, tiers, days_before, covers, is_named,
  starting_at, candidates, pick, truncated, picked, resolve_among, resolve_tier,
}

-- No tier of a list reaches back to the window's start.
pub none_covers : Zone → Window → Instant → List TierRetention → Bool
unfolding covers
none_covers loc w now [] = true
none_covers loc w now (t ∷ rest) = not (covers loc w now t.days) && none_covers loc w now rest

not_and : (a b : Bool) → (not a && b) ≡ true → (a ≡ false) × (b ≡ true)
not_and true b h = absurd cc
not_and false b h = (refl, h)

-- An answer by a tier that reaches back far enough, where no candidate before it does.
pub record Answered (loc : Zone) (w : Window) (now : Instant) (ts : List TierRetention)
    (res : Resolution) : Type 0 where
  pub finer : List TierRetention
  pub chosen : TierRetention
  pub coarser : List TierRetention
  pub are_candidates : ts ≡ finer ++ chosen ∷ coarser
  pub is_tier : res.tier ≡ chosen.tier
  pub reaches : covers loc w now chosen.days ≡ true
  pub finer_not : none_covers loc w now finer ≡ true
  pub whole : res.covered_from ≡ none

-- The daily tier, where no candidate reaches back far enough, with the start of what it holds.
pub record Truncated (loc : Zone) (w : Window) (now : Instant) (r : Retention)
    (ts : List TierRetention) (res : Resolution) : Type 0 where
  pub none_reach : none_covers loc w now ts ≡ true
  pub is_daily : res.tier ≡ codes "1d"
  pub says_start : res.covered_from ≡ some (days_before loc now r.rollup_1d_days)

answer : Bytes → Bool → TierRetention → Resolution
unfolding is_named
answer requested later t = record {
  tier = t.tier;
  requested_tier = requested;
  downgraded = later && is_named requested;
  covered_from = none;
}

answer-Answered :
    (loc : Zone) (w : Window) (now : Instant) (requested : Bytes) (later : Bool) (t : TierRetention)
    (rest : List TierRetention)
    → covers loc w now t.days ≡ true
    → Answered loc w now (t ∷ rest) (answer requested later t)
unfolding answer none_covers
answer-Answered loc w now requested later t rest e = record {
  finer = [];
  chosen = t;
  coarser = rest;
  are_candidates = refl;
  is_tier = refl;
  reaches = e;
  finer_not = refl;
  whole = refl;
}

after_uncovered :
    (loc : Zone) (w : Window) (now : Instant) (t : TierRetention) (rest : List TierRetention)
    (res : Resolution)
    → covers loc w now t.days ≡ false
    → Answered loc w now rest res
    → Answered loc w now (t ∷ rest) res
unfolding none_covers
after_uncovered loc w now t rest res e a = record {
  finer = t ∷ a.finer;
  chosen = a.chosen;
  coarser = a.coarser;
  are_candidates = ap (◌∷◌ t) a.are_candidates;
  is_tier = a.is_tier;
  reaches = a.reaches;
  finer_not = rw (e, a.finer_not) refl;
  whole = a.whole;
}

pick_found :
    (loc : Zone) (w : Window) (now : Instant) (requested : Bytes) (later : Bool)
    (ts : List TierRetention) (res : Resolution)
    → pick loc w now requested later ts ≡ some res
    → Answered loc w now ts res
unfolding pick answer
pick_found loc w now requested later [] res h = absurd cc
pick_found loc w now requested later (t ∷ rest) res h =
    elim (Bool-cases (covers loc w now t.days)) [
      | inl e ↦
          let h' : some (answer requested later t) ≡ some res = simp e at h in
          let same : answer requested later t ≡ res = cc in
          rw (sym same) (answer-Answered loc w now requested later t rest e)
      | inr e ↦
          let h' : pick loc w now requested true rest ≡ some res = simp e at h in
          after_uncovered loc w now t rest res e (pick_found loc w now requested true rest res h')
    ]

pick_missing :
    (loc : Zone) (w : Window) (now : Instant) (requested : Bytes) (later : Bool)
    (ts : List TierRetention)
    → pick loc w now requested later ts ≡ none
    → none_covers loc w now ts ≡ true
unfolding pick none_covers answer
pick_missing loc w now requested later [] h = refl
pick_missing loc w now requested later (t ∷ rest) h = elim (Bool-cases (covers loc w now t.days)) [
  | inl e ↦ absurd (let h' : some (answer requested later t) ≡ none = simp e at h in cc)
  | inr e ↦
      let h' : pick loc w now requested true rest ≡ none = simp e at h in
      rw (e, pick_missing loc w now requested true rest h') refl
]

-- The last tier is among the candidates whatever the name.
last_uncovered :
    (loc : Zone) (w : Window) (now : Instant) (ts : List TierRetention) (last : TierRetention)
    → none_covers loc w now (ts ++ last ∷ []) ≡ true
    → covers loc w now last.days ≡ false
unfolding none_covers
last_uncovered loc w now [] last h =
    let (uncovered, _) = not_and (covers loc w now last.days) true h in uncovered
last_uncovered loc w now (t ∷ rest) last h =
    let (_, later) =
      not_and (covers loc w now t.days) (none_covers loc w now (rest ++ last ∷ [])) h in
    last_uncovered loc w now rest last later

starting_uncovered :
    (loc : Zone) (w : Window) (now : Instant) (requested : Bytes) (ts : List TierRetention)
    (last : TierRetention) (cs : List TierRetention)
    → starting_at requested (ts ++ last ∷ []) ≡ some cs
    → none_covers loc w now cs ≡ true
    → covers loc w now last.days ≡ false
unfolding starting_at
starting_uncovered loc w now requested [] last cs h k =
    elim (Bool-cases (eqb last.tier requested)) [
      | inl e ↦
          let h' : some (last ∷ []) ≡ some cs = simp e at h in
          let same : last ∷ [] ≡ cs = cc in
          let all : none_covers loc w now (last ∷ []) ≡ true = rw same k in
          last_uncovered loc w now [] last all
      | inr e ↦
          absurd (let h' : ◌≡◌ {A = Option (List TierRetention)} none (some cs) = simp e at h in cc)
    ]
starting_uncovered loc w now requested (t ∷ rest) last cs h k =
    elim (Bool-cases (eqb t.tier requested)) [
      | inl e ↦
          let h' : some (t ∷ rest ++ last ∷ []) ≡ some cs = simp e at h in
          let same : t ∷ rest ++ last ∷ [] ≡ cs = cc in
          let all : none_covers loc w now (t ∷ rest ++ last ∷ []) ≡ true = rw same k in
          last_uncovered loc w now (t ∷ rest) last all
      | inr e ↦
          let h' : starting_at requested (rest ++ last ∷ []) ≡ some cs = simp e at h in
          starting_uncovered loc w now requested rest last cs h' k
    ]

or_false : (a b : Bool) → (a || not b) ≡ false → (a ≡ false) × (b ≡ true)
or_false true b h = absurd cc
or_false false true h = (refl, refl)
or_false false false h = absurd cc

truncated_lem :
    (loc : Zone) (w : Window) (now : Instant) (days : ℤ)
    → ltb_ℤ days (pos 0) ≡ false
    → covers loc w now days ≡ false
    → truncated loc w now days ≡ some (days_before loc now days)
unfolding covers truncated
truncated_lem loc w now days h k =
    let (some_days, starts_after) =
      or_false (eqb_ℤ days (pos 0)) (ltb_ℤ w.from (days_before loc now days)) k in
    let kept : ltb_ℤ (pos 0) days ≡ true = ground arith in rw (kept, starts_after) refl

candidates_uncovered :
    (loc : Zone) (w : Window) (now : Instant) (requested : Bytes) (ts : List TierRetention)
    (last : TierRetention) (cs : List TierRetention)
    → candidates requested (ts ++ last ∷ []) ≡ some cs
    → none_covers loc w now cs ≡ true
    → covers loc w now last.days ≡ false
unfolding candidates
candidates_uncovered loc w now requested ts last cs h k = elim (Bool-cases (is_named requested)) [
  | inl e ↦
      let h' : starting_at requested (ts ++ last ∷ []) ≡ some cs = simp e at h in
      starting_uncovered loc w now requested ts last cs h' k
  | inr e ↦
      let h' : some (ts ++ last ∷ []) ≡ some cs = simp e at h in
      let same : ts ++ last ∷ [] ≡ cs = cc in
      let all : none_covers loc w now (ts ++ last ∷ []) ≡ true = rw same k in
      last_uncovered loc w now ts last all
]

tier_of : Resolution → Bytes
tier_of res = res.tier

covered_of : Resolution → Option Instant
covered_of res = res.covered_from

-- Where the request names a tier, or none, and the daily retention is not negative, the tier that
-- answers is the first candidate that reaches back to the window's start, and the answer claims
-- the whole window; where no candidate does it is the daily tier, with the start of what that tier
-- holds.
pub resolve_tier_finest :
    (loc : Zone) (requested : Bytes) (w : Window) (now : Instant) (r : Retention)
    (ts : List TierRetention)
    → candidates requested (tiers r) ≡ some ts
    → ltb_ℤ r.rollup_1d_days (pos 0) ≡ false
    → Answered loc w now ts (resolve_tier loc requested w now r)
      ⊎ Truncated loc w now r ts (resolve_tier loc requested w now r)
unfolding resolve_tier resolve_among picked tiers candidates
resolve_tier_finest loc requested w now r ts h k =
    elim (Option-cases (pick loc w now requested false ts)) [
      | inl missing ↦
          let nothing = pick_missing loc w now requested false ts missing in
          let none_daily =
            candidates_uncovered loc w now requested
              (record { tier = codes "1m"; days = r.rollup_1m_days }
                ∷ record { tier = codes "5m"; days = r.rollup_5m_days }
                ∷ record { tier = codes "1h"; days = r.rollup_1h_days }
                ∷ [])
              (record { tier = codes "1d"; days = r.rollup_1d_days }) ts h nothing in
          inr (record {
            none_reach = nothing;
            is_daily = rw (h, missing) refl;
            says_start = rw (h, missing) (truncated_lem loc w now r.rollup_1d_days k none_daily);
          })
      | inr (res, found) ↦ inl (rw (h, found) (pick_found loc w now requested false ts res found))
    ]

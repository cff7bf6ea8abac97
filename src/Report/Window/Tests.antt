-- ===== src/Report/Window/Tests.antt =====
-- The theorems on periods and tiers, in a calendar of months of 31 days that counts in days.
use uptime_cairn.Base.{
  ℕ, suc, ◌+◌, ◌*◌, ◌/◌, ◌%◌, ◌≡◌, refl, ap, ◌∙◌, ◌≤◌, ◌⊎◌, true, List, [], ◌∷◌, some, none, arith,
}
use uptime_cairn.Base.Int.{
  ℤ, pos, negsuc, pos_part, floor_div, ◌+ℤ◌, ◌-ℤ◌, ◌*ℤ◌, eq_of_parts, +ℤ_parts,
}
use uptime_cairn.Base.Bytes.{codes}
use uptime_cairn.Report.Window.{
  Window, Zone, Retention, TierRetention, window, resolve_window, resolve_tier,
  raw_covers_trailing_week, duration, tiers, candidates,
}
use uptime_cairn.Report.Window.Tiers.{resolve_tier_finest, Answered, Truncated}

abbrev flat_midnight : ℤ → ℕ → ℕ → ℤ
unfolding ◌+ℤ◌ ◌*ℤ◌
flat_midnight y m d = (y *ℤ pos 372) +ℤ pos (m * 31 + d)

abbrev flat : Zone
unfolding ◌+ℤ◌ ◌*ℤ◌ floor_div flat_midnight
flat = record {
  name = codes "flat";
  midnight = flat_midnight;
  date = λ t. record {
    year = floor_div t 372;
    month = pos_part t % 372 / 31;
    day = pos_part t % 31;
    weekday = pos_part t % 7;
  };
  add_date = λ t y m d. t +ℤ ((y *ℤ pos 372) +ℤ ((m *ℤ pos 31) +ℤ d));
}

abbrev march : Window
march = record { from = pos 63; to = pos 94; timezone = codes "flat" }

abbrev april : Window
april = record { from = pos 94; to = pos 125; timezone = codes "flat" }

in_march : resolve_window (codes "month") [] (some flat) (pos 100) ≡ window march
unfolding resolve_window flat
in_march = refl

in_april : resolve_window (codes "month") [] (some flat) (pos 130) ≡ window april
unfolding resolve_window flat
in_april = refl

step_back : (start : ℤ) (n : ℕ) → (start +ℤ pos (31 + n)) +ℤ negsuc 30 ≡ start +ℤ pos n
step_back start n =
    let there = +ℤ_parts start (pos (31 + n)) in
    let back = +ℤ_parts (start +ℤ pos (31 + n)) (negsuc 30) in
    let direct = +ℤ_parts start (pos n) in eq_of_parts _ _ (omega (arith, there, back, direct))

a_month_back :
    (y : ℤ) (m : ℕ)
    → 1 ≤ m
    → flat.add_date (flat.midnight y (suc m) 1) (pos 0) (negsuc 0) (pos 0) ≡ flat.midnight y m 1
unfolding flat flat_midnight
a_month_back y m h =
    let month : suc m * 31 + 1 ≡ 31 + (m * 31 + 1) = omega arith in
    ap (λ n. ((y *ℤ pos 372) +ℤ pos n) +ℤ negsuc 30) month ∙ step_back (y *ℤ pos 372) (m * 31 + 1)

abbrev policy : Retention
policy = record {
  raw_days = pos 7;
  rollup_1m_days = pos 7;
  rollup_5m_days = pos 14;
  rollup_1h_days = pos 90;
  rollup_1d_days = pos 0;
}

abbrev from_5m : List TierRetention
from_5m =
    record { tier = codes "5m"; days = pos 14 }
    ∷ record { tier = codes "1h"; days = pos 90 }
    ∷ record { tier = codes "1d"; days = pos 0 }
    ∷ []

found_5m : candidates (codes "5m") (tiers policy) ≡ some from_5m
unfolding candidates tiers
found_5m = refl

hourly : (resolve_tier flat (codes "5m") march (pos 100) policy).tier ≡ codes "1h"
unfolding resolve_tier flat ◌-ℤ◌
hourly = refl

labelled : (resolve_tier flat (codes "5m") march (pos 100) policy).downgraded ≡ true
unfolding resolve_tier flat ◌-ℤ◌
labelled = refl

week_of_raw : raw_covers_trailing_week policy ≡ true
unfolding raw_covers_trailing_week
week_of_raw = refl

a_month : duration march ≡ pos 31
unfolding duration ◌-ℤ◌
a_month = refl

resolve_tier_finest_example :
    Answered flat march (pos 100) from_5m (resolve_tier flat (codes "5m") march (pos 100) policy)
    ⊎ Truncated flat march
        (pos 100)
        policy
        from_5m
        (resolve_tier flat (codes "5m") march (pos 100) policy)
resolve_tier_finest_example =
    resolve_tier_finest flat (codes "5m") march (pos 100) policy from_5m found_5m refl

-- A daily tier of ten days, asked for by its name, and a name that no tier has.
abbrev short_policy : Retention
short_policy = record {
  raw_days = pos 7;
  rollup_1m_days = pos 7;
  rollup_5m_days = pos 7;
  rollup_1h_days = pos 10;
  rollup_1d_days = pos 10;
}

daily_truncated : resolve_tier flat (codes "1d") march (pos 100) short_policy ≡ record {
  tier = codes "1d";
  requested_tier = codes "1d";
  downgraded = true;
  covered_from = some (pos 90);
}
unfolding resolve_tier flat ◌-ℤ◌
daily_truncated = refl

unknown_tier : resolve_tier flat (codes "2m") march (pos 100) short_policy ≡ record {
  tier = codes "1d";
  requested_tier = codes "2m";
  downgraded = true;
  covered_from = none;
}
unfolding resolve_tier flat ◌-ℤ◌
unknown_tier = refl

-- ===== src/Report/Schedule/Presets.antt =====
-- What the named frequencies become (CronFor, internal/report/schedule.go).
use uptime_cairn.Base.{
  ℕ, zero, suc, ◌+◌, ◌≡◌, refl, ap, Bool, true, false, ◌&&◌, ◌<◌, List, [], ◌∷◌, arith, Bool-cases,
  inl, inr, ◌==◌,
}
use uptime_cairn.Base.Int.{ℤ, pos, eqb_ℤ, eq_of_eqb_ℤ}
use uptime_cairn.Base.Bytes.{Bytes, codes}
use uptime_cairn.Cron.{Expression, Result, ok, err, parse}
use uptime_cairn.Report.Schedule.{Outcome, done, failed, named_frequency}

pub data Frequency : Type 0 where
  daily weekly monthly quarterly : Frequency

pub name : Frequency → Bytes
name daily = codes "daily"
name weekly = codes "weekly"
name monthly = codes "monthly"
name quarterly = codes "quarterly"

-- n values in a row.
pub row : ℕ → ℕ → List ℤ
row start zero = []
row start (suc n) = pos start ∷ row (start + 1) n

-- Every day, Mondays, the first of every month, the first of every third month: at the hour and minute.
pub expected : Frequency → ℕ → ℕ → Expression
unfolding row
expected daily h m = record {
  minutes = pos m ∷ [];
  hours = pos h ∷ [];
  doms = row 1 31;
  months = row 1 12;
  dows = row 0 7;
  dom_restricted = false;
  dow_restricted = false;
}
expected weekly h m = record {
  minutes = pos m ∷ [];
  hours = pos h ∷ [];
  doms = row 1 31;
  months = row 1 12;
  dows = pos 1 ∷ [];
  dom_restricted = false;
  dow_restricted = true;
}
expected monthly h m = record {
  minutes = pos m ∷ [];
  hours = pos h ∷ [];
  doms = pos 1 ∷ [];
  months = row 1 12;
  dows = row 0 7;
  dom_restricted = true;
  dow_restricted = false;
}
expected quarterly h m = record {
  minutes = pos m ∷ [];
  hours = pos h ∷ [];
  doms = pos 1 ∷ [];
  months = pos 1 ∷ pos 4 ∷ pos 7 ∷ pos 10 ∷ [];
  dows = row 0 7;
  dom_restricted = true;
  dow_restricted = false;
}

both : (a b : Bool) → (a && b) ≡ true → (a ≡ true) × (b ≡ true)
both true b h = (refl, h)
both false b h = absurd cc

same_list : List ℤ → List ℤ → Bool
same_list [] [] = true
same_list [] (y ∷ ys) = false
same_list (x ∷ xs) [] = false
same_list (x ∷ xs) (y ∷ ys) = eqb_ℤ x y && same_list xs ys

eq_of-same_list : (xs ys : List ℤ) → same_list xs ys ≡ true → xs ≡ ys
unfolding same_list
eq_of-same_list [] [] h = refl
eq_of-same_list [] (y ∷ ys) h = absurd cc
eq_of-same_list (x ∷ xs) [] h = absurd cc
eq_of-same_list (x ∷ xs) (y ∷ ys) h =
    let (first, rest) = both (eqb_ℤ x y) (same_list xs ys) h in
    rw (eq_of_eqb_ℤ x y first, eq_of-same_list xs ys rest) refl

same_bool : Bool → Bool → Bool
same_bool true b = b
same_bool false true = false
same_bool false false = true

eq_of-same_bool : (a b : Bool) → same_bool a b ≡ true → a ≡ b
unfolding same_bool
eq_of-same_bool true true h = refl
eq_of-same_bool true false h = absurd cc
eq_of-same_bool false true h = absurd cc
eq_of-same_bool false false h = refl

same_expression : Expression → Expression → Bool
unfolding same_list same_bool
same_expression e f =
    same_list e.minutes f.minutes
    && (same_list e.hours f.hours
        && (same_list e.doms f.doms
            && (same_list e.months f.months
                && (same_list e.dows f.dows
                    && (same_bool e.dom_restricted f.dom_restricted
                        && same_bool e.dow_restricted f.dow_restricted)))))

eq_of-same_expression : (e f : Expression) → same_expression e f ≡ true → e ≡ f
unfolding same_expression
eq_of-same_expression e f h =
    let (m, h1) = both (same_list e.minutes f.minutes) _ h in
    let (ho, h2) = both (same_list e.hours f.hours) _ h1 in
    let (d, h3) = both (same_list e.doms f.doms) _ h2 in
    let (mo, h4) = both (same_list e.months f.months) _ h3 in
    let (w, h5) = both (same_list e.dows f.dows) _ h4 in
    let (dr, wr) = both (same_bool e.dom_restricted f.dom_restricted) _ h5 in
    let minutes = eq_of-same_list e.minutes f.minutes m in
    let hours = eq_of-same_list e.hours f.hours ho in
    let doms = eq_of-same_list e.doms f.doms d in
    let months = eq_of-same_list e.months f.months mo in
    let dows = eq_of-same_list e.dows f.dows w in
    let by_dom = eq_of-same_bool e.dom_restricted f.dom_restricted dr in
    let by_dow = eq_of-same_bool e.dow_restricted f.dow_restricted wr in cc

parses_to : Expression → Result Expression → Bool
unfolding same_expression
parses_to e (err x) = false
parses_to e (ok found) = same_expression found e

pub ParsesTo : Expression → Outcome Bytes → Type 0
ParsesTo e outcome = (text : Bytes) × (outcome ≡ done text) × (parse text ≡ ok e)

is_good : Expression → Outcome Bytes → Bool
unfolding parses_to parse
is_good e (failed x) = false
is_good e (done text) = parses_to e (parse text)

ok_of-parses_to :
    (e : Expression) (found : Result Expression) → parses_to e found ≡ true → found ≡ ok e
unfolding parses_to
ok_of-parses_to e (err x) h = absurd cc
ok_of-parses_to e (ok found) h = ap ok (eq_of-same_expression found e h)

is_good-ParsesTo :
    (e : Expression) (outcome : Outcome Bytes) → is_good e outcome ≡ true → ParsesTo e outcome
unfolding is_good ParsesTo
is_good-ParsesTo e (failed x) h = absurd cc
is_good-ParsesTo e (done text) h = (text, refl, ok_of-parses_to e (parse text) h)

all_below : ℕ → (ℕ → Bool) → Bool
all_below zero f = true
all_below (suc n) f = f n && all_below n f

all_below_lem : (n : ℕ) (f : ℕ → Bool) → all_below n f ≡ true → (i : ℕ) → i < n → f i ≡ true
unfolding all_below
all_below_lem zero f h i lt = absurd (omega arith)
all_below_lem (suc n) f h i lt = elim (Bool-cases (i == n)) [
  | inl e ↦ let same : i ≡ n = ground arith in rw same ((both (f n) (all_below n f) h).0)
  | inr e ↦ all_below_lem n f ((both (f n) (all_below n f) h).1) i (ground arith)
]

good_at : Frequency → ℕ → ℕ → Bool
unfolding is_good named_frequency expected name
good_at frequency h m =
    is_good (expected frequency h m) (named_frequency (name frequency) (done (pos h, pos m)))

all_good : (frequency : Frequency) → all_below 24 (λ h. all_below 60 (good_at frequency h)) ≡ true
unfolding all_below good_at
all_good daily = refl
all_good weekly = refl
all_good monthly = refl
all_good quarterly = refl

-- At every hour below 24 and minute below 60, the text that a daily, weekly, monthly or quarterly
-- schedule becomes is accepted by the cron parser, as the expression of that hour and minute on
-- every day, on Mondays, on the first of every month, or on the first of January, April, July and
-- October.
pub named_frequency-ParsesTo :
    (frequency : Frequency) (h m : ℕ)
    → h < 24
    → m < 60
    → ParsesTo (expected frequency h m) (named_frequency (name frequency) (done (pos h, pos m)))
unfolding good_at
named_frequency-ParsesTo frequency h m below_24 below_60 =
    let hour =
      all_below_lem 24 (λ h. all_below 60 (good_at frequency h)) (all_good frequency) h below_24 in
    let good = all_below_lem 60 (good_at frequency h) hour m below_60 in
    is_good-ParsesTo (expected frequency h m)
      (named_frequency (name frequency) (done (pos h, pos m))) good

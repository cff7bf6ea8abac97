-- ===== src/Report/Uptime/Ratios.antt =====
-- What an uptime ratio depends on, and how a total of buckets relates to its parts
-- (internal/report/uptime.go).
use uptime_cairn.Base.{
  ℕ, ◌+◌, ◌*◌, ◌≤◌, ◌<◌, ◌≡◌, refl, sym, List, [], ◌∷◌, Option, none, some, arith,
}
use uptime_cairn.Report.{
  MaintenanceHandling, unset, exclude, count_as_up, count_as_down, HistoryBucket, Fraction,
}
use uptime_cairn.Report.Uptime.{
  compute_uptime, up_of, down_of, named, share, sum, sum_from, add_bucket, zero_bucket,
}

-- The first fraction is at most the second, where both exist.
pub AtMost : Option Fraction → Option Fraction → Type 0
AtMost (some p) (some q) = p.num * q.den ≤ q.num * p.den
AtMost (some p) none = 1 ≤ 0
AtMost none q = 0 ≤ 0

-- A bucket with other counts of the checks that never count.
pub blind : HistoryBucket → ℕ → ℕ → ℕ → HistoryBucket
blind b pending unknown skipped = record {
  start = b.start;
  up = b.up;
  down = b.down;
  pending = pending;
  maintenance = b.maintenance;
  unknown = unknown;
  skipped = skipped;
  response_time_sum = b.response_time_sum;
  response_time_count = b.response_time_count;
}

ratio_ignores_unobserved :
    (b : HistoryBucket) (handling : MaintenanceHandling) (pending unknown skipped : ℕ)
    → ((compute_uptime (blind b pending unknown skipped) handling).ratio
        ≡ (compute_uptime b handling).ratio)
      × ((compute_uptime (blind b pending unknown skipped) handling).observed_checks
          ≡ (compute_uptime b handling).observed_checks)
unfolding compute_uptime blind up_of down_of named
ratio_ignores_unobserved b unset pending unknown skipped = (refl, refl)
ratio_ignores_unobserved b exclude pending unknown skipped = (refl, refl)
ratio_ignores_unobserved b count_as_up pending unknown skipped = (refl, refl)
ratio_ignores_unobserved b count_as_down pending unknown skipped = (refl, refl)

share_mono : (a b c d : ℕ) → 0 < d → a * d ≤ c * b → AtMost (share a b) (share c d)
unfolding AtMost share
share_mono a b c d h k = ground arith

more_den : (u d m : ℕ) → u * (u + d) ≤ u * (u + (d + m))
more_den u d m = grind arith

more_num : (u d m : ℕ) → u * (u + m + d) ≤ (u + m) * (u + d)
more_num u d m = grind arith

-- Where something was observed outside maintenance, counting maintenance as down gives at most the
-- ratio that leaves it out, and that is at most the ratio that counts it as up.
handling_order :
    (b : HistoryBucket)
    → 0 < b.up + b.down
    → AtMost (compute_uptime b count_as_down).ratio (compute_uptime b exclude).ratio
      × AtMost (compute_uptime b exclude).ratio (compute_uptime b count_as_up).ratio
unfolding compute_uptime up_of down_of named
handling_order b h = (
  share_mono b.up (b.up + (b.down + b.maintenance)) b.up (b.up + b.down) h
      (more_den b.up b.down b.maintenance),
  share_mono b.up (b.up + b.down) (b.up + b.maintenance) (b.up + b.maintenance + b.down)
      (omega arith) (more_num b.up b.down b.maintenance),
)

total : (HistoryBucket → ℕ) → List HistoryBucket → ℕ
total count [] = 0
total count (b ∷ rest) = count b + total count rest

sum_from_total :
    (t : HistoryBucket) (bs : List HistoryBucket)
    → let s = sum_from t bs in
      (s.up ≡ t.up + total (λ b. b.up) bs)
      × (s.down ≡ t.down + total (λ b. b.down) bs)
      × (s.maintenance ≡ t.maintenance + total (λ b. b.maintenance) bs)
      × (s.unknown ≡ t.unknown + total (λ b. b.unknown) bs)
      × (s.skipped ≡ t.skipped + total (λ b. b.skipped) bs)
unfolding sum_from add_bucket total
sum_from_total t [] = ground arith
sum_from_total t (b ∷ rest) = ground (arith, sum_from_total (add_bucket t b) rest)

-- Of every bucket: at least the fraction `num / den` of its observed checks is up.
unfoldable pub AllAtLeast : Fraction → MaintenanceHandling → List HistoryBucket → Type 0
unfolding up_of down_of
AllAtLeast f handling [] = 0 ≤ 0
AllAtLeast f handling (b ∷ rest) =
    (f.num * (up_of handling b + down_of handling b) ≤ up_of handling b * f.den)
    × AllAtLeast f handling rest

up_of-add :
    (handling : MaintenanceHandling) (t b : HistoryBucket)
    → up_of handling (add_bucket t b) ≡ up_of handling t + up_of handling b
unfolding up_of add_bucket
up_of-add unset t b = refl
up_of-add exclude t b = refl
up_of-add count_as_up t b = omega arith
up_of-add count_as_down t b = refl

down_of-add :
    (handling : MaintenanceHandling) (t b : HistoryBucket)
    → down_of handling (add_bucket t b) ≡ down_of handling t + down_of handling b
unfolding down_of add_bucket
down_of-add unset t b = refl
down_of-add exclude t b = refl
down_of-add count_as_up t b = refl
down_of-add count_as_down t b = omega arith

mediant : (n d u w u' w' : ℕ) → n * w ≤ u * d → n * w' ≤ u' * d → n * (w + w') ≤ (u + u') * d
mediant n d u w u' w' h k =
    let e : n * (w + w') ≡ n * w + n * w' = grind arith in
    let e' : (u + u') * d ≡ u * d + u' * d = grind arith in rw (e, e') (omega arith)

regroup : (a b c d : ℕ) → a + b + (c + d) ≡ (a + c) + (b + d)
regroup a b c d = omega arith

sum_from_floor :
    (f : Fraction) (handling : MaintenanceHandling) (t : HistoryBucket) (bs : List HistoryBucket)
    → f.num * (up_of handling t + down_of handling t) ≤ up_of handling t * f.den
    → AllAtLeast f handling bs
    → f.num * (up_of handling (sum_from t bs) + down_of handling (sum_from t bs))
      ≤ up_of handling (sum_from t bs) * f.den
unfolding sum_from AllAtLeast
sum_from_floor f handling t [] h all = h
sum_from_floor f handling t (b ∷ rest) h all =
    sum_from_floor f handling (add_bucket t b) rest
      (rw
        (
          up_of-add handling t b,
          down_of-add handling t b,
          sym (
              regroup (up_of handling t) (down_of handling t) (up_of handling b)
                (down_of handling b)),
        )
        (mediant f.num f.den (up_of handling t) (up_of handling t + down_of handling t)
          (up_of handling b) (up_of handling b + down_of handling b) h all.0))
      all.1

nothing_floor :
    (f : Fraction) (handling : MaintenanceHandling)
    → f.num * (up_of handling zero_bucket + down_of handling zero_bucket)
      ≤ up_of handling zero_bucket * f.den
unfolding up_of down_of
nothing_floor f unset = omega arith
nothing_floor f exclude = omega arith
nothing_floor f count_as_up = omega arith
nothing_floor f count_as_down = omega arith

sum_floor :
    (f : Fraction) (handling : MaintenanceHandling) (bs : List HistoryBucket)
    → AllAtLeast f handling bs
    → f.num * (up_of handling (sum bs) + down_of handling (sum bs))
      ≤ up_of handling (sum bs) * f.den
unfolding sum AllAtLeast
sum_floor f handling [] all = nothing_floor f handling
sum_floor f handling (b ∷ rest) all = sum_from_floor f handling b rest all.0 all.1

compute_ratio :
    (b : HistoryBucket) (handling : MaintenanceHandling)
    → ((compute_uptime b handling).observed_checks ≡ up_of handling b + down_of handling b)
      × ((compute_uptime b handling).ratio
          ≡ share (up_of handling b) (up_of handling b + down_of handling b))
unfolding compute_uptime named up_of down_of
compute_ratio b unset = (refl, refl)
compute_ratio b exclude = (refl, refl)
compute_ratio b count_as_up = (refl, refl)
compute_ratio b count_as_down = (refl, refl)

share_floor : (f : Fraction) (u w : ℕ) → 0 < w → f.num * w ≤ u * f.den → AtMost (some f) (share u w)
unfolding AtMost share
share_floor f u w h k = ground arith

-- Where some check counts, the estate's ratio is at least any fraction that the ratio of every
-- bucket in it reaches.
pub sum_ratio_floor :
    (f : Fraction) (handling : MaintenanceHandling) (bs : List HistoryBucket)
    → AllAtLeast f handling bs
    → 0 < (compute_uptime (sum bs) handling).observed_checks
    → AtMost (some f) (compute_uptime (sum bs) handling).ratio
sum_ratio_floor f handling bs all some_seen =
    let (observed, ratio) = compute_ratio (sum bs) handling in
    rw ratio (
      share_floor f (up_of handling (sum bs)) (up_of handling (sum bs) + down_of handling (sum bs))
        (omega (arith, observed, some_seen)) (sum_floor f handling bs all))

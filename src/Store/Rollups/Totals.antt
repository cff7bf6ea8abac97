-- ===== src/Store/Rollups/Totals.antt =====
-- Counts are additive from tier to tier (RollUpRaw and RollUpTier, internal/store/sqlite/rollup.go).
use uptime_cairn.Base.{
  ℕ, ◌+◌, ◌≡◌, refl, ◌&&◌, List, [], ◌∷◌, Option, none, some, arith, if◌then◌else◌, Bool-cases, inl,
  inr,
}
use uptime_cairn.Base.Int.{leb_ℤ, ltb_ℤ, floor_div}
use uptime_cairn.Model.{Instant, Heartbeat, Status}
use uptime_cairn.Store.Rollups.{
  Row, merge, combine, same_bucket, group_row, group_rows, source_rows, rebucket, aggregate_tier,
  aggregate_raw, with_p95, row_of_beat, beat_rows, in_range, one_if, p95, responses,
}

pub data Figure : Type 0 where
  ups downs pendings maintenances unknowns skips response_times responses_counted : Figure

abbrev or_zero : Option ℕ → ℕ
or_zero none = 0
or_zero (some n) = n

-- The figures of a row that add up.
figure : Figure → Row → ℕ
figure ups r = r.up_count
figure downs r = r.down_count
figure pendings r = r.pending_count
figure maintenances r = r.maintenance_count
figure unknowns r = r.unknown_count
figure skips r = r.skipped_count
figure response_times r = or_zero r.response_time_sum
figure responses_counted r = r.response_time_count

unfoldable pub total_of : Figure → List Row → ℕ
unfolding figure
total_of f [] = 0
total_of f (r ∷ rows) = figure f r + total_of f rows

sum-or_zero : (a b : Option ℕ) → or_zero (combine (λ x y. x + y) a b) ≡ or_zero a + or_zero b
unfolding combine
sum-or_zero none b = omega arith
sum-or_zero (some a) none = omega arith
sum-or_zero (some a) (some b) = refl

figure-merge : (f : Figure) (a b : Row) → figure f (merge a b) ≡ figure f a + figure f b
unfolding figure merge
figure-merge ups a b = refl
figure-merge downs a b = refl
figure-merge pendings a b = refl
figure-merge maintenances a b = refl
figure-merge unknowns a b = refl
figure-merge skips a b = refl
figure-merge response_times a b = sum-or_zero a.response_time_sum b.response_time_sum
figure-merge responses_counted a b = refl

total_of-group_row :
    (f : Figure) (groups : List Row) (r : Row)
    → total_of f (group_row groups r) ≡ total_of f groups + figure f r
unfolding total_of group_row
total_of-group_row f [] r = omega arith
total_of-group_row f (g ∷ groups) r = elim (Bool-cases (same_bucket g r)) [
  | inl e ↦ rw e (omega (arith, figure-merge f g r))
  | inr e ↦ rw e (omega (arith, total_of-group_row f groups r))
]

total_of-group_rows :
    (f : Figure) (groups rows : List Row)
    → total_of f (group_rows groups rows) ≡ total_of f groups + total_of f rows
unfolding total_of group_rows
total_of-group_rows f groups [] = omega arith
total_of-group_rows f groups (r ∷ rest) =
    omega (arith, total_of-group_row f groups r, total_of-group_rows f (group_row groups r) rest)

total_of_nil : (f : Figure) → total_of f [] ≡ 0
unfolding total_of
total_of_nil f = refl

-- The rows of the tier below that a call reads.
pub read_rows : Instant → Instant → List Row → List Row
read_rows from to [] = []
read_rows from to (r ∷ rows) =
    let rest = read_rows from to rows in
    if leb_ℤ (floor_div from 1_000_000) r.bucket_start
      && ltb_ℤ r.bucket_start (floor_div to 1_000_000)
    then r ∷ rest
    else rest

figure-rebucket :
    (f : Figure) (interval : ℕ) (r : Row) → figure f (rebucket interval r) ≡ figure f r
unfolding figure rebucket
figure-rebucket ups interval r = refl
figure-rebucket downs interval r = refl
figure-rebucket pendings interval r = refl
figure-rebucket maintenances interval r = refl
figure-rebucket unknowns interval r = refl
figure-rebucket skips interval r = refl
figure-rebucket response_times interval r = refl
figure-rebucket responses_counted interval r = refl

total_of-source_rows :
    (f : Figure) (interval : ℕ) (from to : Instant) (rows : List Row)
    → total_of f (source_rows interval from to rows) ≡ total_of f (read_rows from to rows)
unfolding total_of source_rows read_rows
total_of-source_rows f interval from to [] = refl
total_of-source_rows f interval from to (r ∷ rows) =
    elim (Bool-cases (
      leb_ℤ (floor_div from 1_000_000) r.bucket_start
      && ltb_ℤ r.bucket_start (floor_div to 1_000_000))) [
        | inl e ↦ simp e (
            omega
              (arith, figure-rebucket f interval r, total_of-source_rows f interval from to rows))
        | inr e ↦ simp e (total_of-source_rows f interval from to rows)
      ]

-- The rows that a tier gets add up to the rows of the tier below that were read: the counts of
-- each status, the sum of the response times and their number.
pub tier_conserves :
    (f : Figure) (interval : ℕ) (from to : Instant) (source : List Row)
    → total_of f (aggregate_tier interval from to source) ≡ total_of f (read_rows from to source)
unfolding aggregate_tier
tier_conserves f interval from to source = omega (
  arith,
  total_of-group_rows f [] (source_rows interval from to source),
  total_of_nil f,
  total_of-source_rows f interval from to source,
)

-- The checks of one status in a range of time.
pub count_status : Status → List Heartbeat → ℕ
unfolding one_if
count_status s [] = 0
count_status s (b ∷ beats) = one_if s b.status + count_status s beats

-- The figure of a status.
abbrev pub figure_of : Status → Figure
figure_of Status.up = ups
figure_of Status.down = downs
figure_of Status.pending = pendings
figure_of Status.maintenance = maintenances
figure_of Status.unknown = unknowns
figure_of Status.skipped = skips

figure-with_p95 :
    (f : Figure) (g : Row) (p : Option ℕ)
    → figure f (record g { response_time_p95 = p }) ≡ figure f g
unfolding figure
figure-with_p95 ups g p = refl
figure-with_p95 downs g p = refl
figure-with_p95 pendings g p = refl
figure-with_p95 maintenances g p = refl
figure-with_p95 unknowns g p = refl
figure-with_p95 skips g p = refl
figure-with_p95 response_times g p = refl
figure-with_p95 responses_counted g p = refl

total_of-with_p95 :
    (f : Figure) (beats : List Heartbeat) (groups : List Row)
    → total_of f (with_p95 beats groups) ≡ total_of f groups
unfolding total_of with_p95
total_of-with_p95 f beats [] = refl
total_of-with_p95 f beats (g ∷ groups) =
    omega (arith, figure-with_p95 f g (p95 (responses g beats)), total_of-with_p95 f beats groups)

figure-row_of_beat :
    (s : Status) (b : Heartbeat) → figure (figure_of s) (row_of_beat b) ≡ one_if s b.status
unfolding figure row_of_beat
figure-row_of_beat Status.up b = refl
figure-row_of_beat Status.down b = refl
figure-row_of_beat Status.pending b = refl
figure-row_of_beat Status.maintenance b = refl
figure-row_of_beat Status.unknown b = refl
figure-row_of_beat Status.skipped b = refl

total_of-beat_rows :
    (s : Status) (beats : List Heartbeat)
    → total_of (figure_of s) (beat_rows beats) ≡ count_status s beats
unfolding total_of beat_rows count_status
total_of-beat_rows s [] = refl
total_of-beat_rows s (b ∷ beats) = omega (arith, figure-row_of_beat s b, total_of-beat_rows s beats)

-- Every heartbeat of the range is counted once, under its status, by the rows of the finest tier.
pub raw_counts :
    (s : Status) (from to : Instant) (beats : List Heartbeat)
    → total_of (figure_of s) (aggregate_raw from to beats) ≡ count_status s (in_range from to beats)
unfolding aggregate_raw
raw_counts s from to beats =
    let sample = in_range from to beats in
    omega (
      arith,
      total_of-with_p95 (figure_of s) sample (group_rows [] (beat_rows sample)),
      total_of-group_rows (figure_of s) [] (beat_rows sample),
      total_of_nil (figure_of s),
      total_of-beat_rows s sample,
    )

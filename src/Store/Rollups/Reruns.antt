-- ===== src/Store/Rollups/Reruns.antt =====
-- The rows of one aggregation have distinct buckets, so that running it again changes nothing
-- (RollUpRaw, RollUpTier, internal/store/sqlite/rollup.go).
use uptime_cairn.Base.{
  ℕ, ◌≡◌, refl, ap, ◌∙◌, true, false, List, [], ◌∷◌, Option, arith, if◌then◌else◌, Bool-cases, inl,
  inr,
}
use uptime_cairn.Model.{Instant, Heartbeat}
use uptime_cairn.Store.Rollups.{
  Row, merge, same_bucket, group_row, group_rows, aggregate_raw, aggregate_tier, roll_up_raw,
  roll_up_tier, with_p95, p95, responses, beat_rows, in_range, source_rows, upsert_all,
}
use uptime_cairn.Store.Rollups.Upserts.{absent, Distinct, absent_cons, upsert_all_idem}

same_bucket-merge : (x g r : Row) → same_bucket x (merge g r) ≡ same_bucket x g
unfolding same_bucket merge
same_bucket-merge x g r = refl

absent-merge : (g r : Row) (rows : List Row) → absent (merge g r) rows ≡ absent g rows
unfolding absent same_bucket merge
absent-merge g r [] = refl
absent-merge g r (x ∷ rows) =
    ap (λ more. if same_bucket g x then false else more) (absent-merge g r rows)

absent-group_row :
    (x r : Row) (groups : List Row)
    → absent x groups ≡ true
    → same_bucket x r ≡ false
    → absent x (group_row groups r) ≡ true
unfolding group_row absent
absent-group_row x r [] a apart = rw apart refl
absent-group_row x r (g ∷ groups) a apart =
    let (other, later) = absent_cons x g groups (unfold absent in a) in
    elim (Bool-cases (same_bucket g r)) [
      | inl e ↦ rw (e, same_bucket-merge x g r, other) later
      | inr e ↦ rw (e, other) (absent-group_row x r groups later apart)
    ]

group_row-Distinct : (groups : List Row) (r : Row) → Distinct groups → Distinct (group_row groups r)
unfolding group_row Distinct absent
group_row-Distinct [] r d = (refl, omega arith)
group_row-Distinct (g ∷ groups) r d = elim (Bool-cases (same_bucket g r)) [
  | inl e ↦ rw e (absent-merge g r groups ∙ d.0, d.1)
  | inr e ↦ rw e (absent-group_row g r groups d.0 e, group_row-Distinct groups r d.1)
]

group_rows-Distinct : (groups rows : List Row) → Distinct groups → Distinct (group_rows groups rows)
unfolding group_rows
group_rows-Distinct groups [] d = d
group_rows-Distinct groups (r ∷ rest) d =
    group_rows-Distinct (group_row groups r) rest (group_row-Distinct groups r d)

absent-with_p95 :
    (g : Row) (p : Option ℕ) (beats : List Heartbeat) (groups : List Row)
    → absent (record g { response_time_p95 = p }) (with_p95 beats groups) ≡ absent g groups
unfolding absent with_p95 same_bucket
absent-with_p95 g p beats [] = refl
absent-with_p95 g p beats (x ∷ groups) =
    ap (λ more. if same_bucket g x then false else more) (absent-with_p95 g p beats groups)

with_p95-Distinct :
    (beats : List Heartbeat) (groups : List Row)
    → Distinct groups
    → Distinct (with_p95 beats groups)
unfolding with_p95 Distinct
with_p95-Distinct beats [] d = d
with_p95-Distinct beats (g ∷ groups) d = (
  absent-with_p95 g (p95 (responses g beats)) beats groups ∙ d.0,
  with_p95-Distinct beats groups d.1,
)

nil-Distinct : Distinct []
unfolding Distinct
nil-Distinct = omega arith

-- Rolling up the same range of the same source again leaves the rows of a tier as they are, for
-- the tier computed from heartbeats and for the others.
pub rerun_idem :
    (interval : ℕ) (from to : Instant) (beats : List Heartbeat) (source rows : List Row)
    → (roll_up_raw from to beats (roll_up_raw from to beats rows) ≡ roll_up_raw from to beats rows)
      × (roll_up_tier interval from to source (roll_up_tier interval from to source rows)
          ≡ roll_up_tier interval from to source rows)
unfolding roll_up_raw roll_up_tier aggregate_raw aggregate_tier
rerun_idem interval from to beats source rows =
    let sample = in_range from to beats in
    let groups = group_rows [] (beat_rows sample) in
    (
      upsert_all_idem rows (with_p95 sample groups) (
          with_p95-Distinct sample groups (group_rows-Distinct [] (beat_rows sample) nil-Distinct)),
      upsert_all_idem rows (group_rows [] (source_rows interval from to source))
          (group_rows-Distinct [] (source_rows interval from to source) nil-Distinct),
    )

pub roll_up_raw_nothing :
    (from to : Instant) (beats : List Heartbeat) (rows : List Row)
    → in_range from to beats ≡ []
    → roll_up_raw from to beats rows ≡ rows
unfolding roll_up_raw aggregate_raw upsert_all with_p95 group_rows beat_rows
roll_up_raw_nothing from to beats rows h = rw h refl

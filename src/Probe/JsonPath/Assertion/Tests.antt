-- ===== src/Probe/JsonPath/Assertion/Tests.antt =====
-- Assertions on small documents, with whole numbers as the numbers of JSON.
use uptime_cairn.Base.{ℕ, ◌≡◌, refl, [], ◌∷◌, Option, none, some, ltb}
use uptime_cairn.Base.Int.{ℤ, pos}
use uptime_cairn.Base.Bytes.{codes, eqb}
use uptime_cairn.Base.Decimal.{atoi, itoa}
use uptime_cairn.Base.Result.{ok, err}
use uptime_cairn.Probe.JsonPath.{key_segment}
use uptime_cairn.Probe.JsonPath.Assertion.{
  Json, number, object, member, no_members, gt, lte, Assertion, Floats, walk, assert,
  parse_assertion, expected_missing, differs,
}
use uptime_cairn.Probe.JsonPath.Assertion.Opposites.{Verdicts, gt_lte, assert-Verdicts}

whole : Option ℤ → Option ℕ
whole (some (pos n)) = some n
whole _ = none

-- Every body is the document {"queue": 9}.
abbrev queue_nine : Json ℕ
queue_nine = object (member (codes "queue") (number 9) no_members)

abbrev naturals : Floats ℕ
unfolding whole atoi itoa
naturals = record {
  decode = λ body. some queue_nine;
  parse_float = λ text. whole (atoi text);
  less = ltb;
  format_float = itoa;
  marshal = λ v. [];
}

abbrev queue_over_ten : Assertion
queue_over_ten = record {
  segments = key_segment (codes "queue") ∷ [];
  operator = gt;
  expected = codes "10";
  raw_path = codes "$.queue";
}

-- Numbers compare as numbers: as texts, "9" is greater than "10".
nine_over_ten : assert naturals queue_over_ten [] ≡ some (differs (codes "9"))
unfolding assert walk naturals eqb
nine_over_ten = refl

spec_read :
    parse_assertion
      (record { path = codes "$.queue"; operator = codes "gt"; expected = some (codes "10") })
    ≡ some (ok queue_over_ten)
unfolding parse_assertion eqb
spec_read = refl

spec_refused :
    parse_assertion (record { path = codes "$.queue"; operator = codes "gt"; expected = none })
    ≡ some (err (expected_missing (codes "gt")))
unfolding parse_assertion eqb
spec_refused = refl

assert-Verdicts_example :
    Verdicts gt
      (assert naturals queue_over_ten [])
      (assert naturals (record queue_over_ten { operator = lte }) [])
      (walk queue_over_ten.segments (some queue_nine))
unfolding naturals
assert-Verdicts_example = assert-Verdicts naturals queue_over_ten lte [] queue_nine refl gt_lte

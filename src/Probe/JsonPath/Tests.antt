-- ===== src/Probe/JsonPath/Tests.antt =====
-- Paths in each notation, and paths that are refused.
use uptime_cairn.Base.{◌≡◌, refl, List, [], ◌∷◌, some, inl, arith}
use uptime_cairn.Base.Bytes.{Bytes, codes}
use uptime_cairn.Base.Decimal.{atoi, itoa}
use uptime_cairn.Base.Text.{cut}
use uptime_cairn.Base.Result.{Result, ok, err}
use uptime_cairn.Probe.JsonPath.{
  PathSegment, PathError, is_one_of, key_segment, index_segment, parse_json_path, recursive_descent,
  not_plain, unclosed, bad_index,
}
use uptime_cairn.Probe.JsonPath.Termination.{parse_json_path_ends}
use uptime_cairn.Probe.JsonPath.Notation.{
  IsPlain, WritesAll, after_dot, in_quotes, in_brackets, done, segment, parse_json_path-WritesAll,
}

refused_descent : parse_json_path (codes "$..a") ≡ some (err recursive_descent)
unfolding parse_json_path
refused_descent = refl

refused_wildcard : parse_json_path (codes "$.a.*") ≡ some (err not_plain)
unfolding parse_json_path
refused_wildcard = refl

refused_index : parse_json_path (codes "$[-1]") ≡ some (err (bad_index (codes "-1")))
unfolding parse_json_path atoi cut
refused_index = refl

refused_bracket : parse_json_path (codes "$.a[0") ≡ some (err unclosed)
unfolding parse_json_path cut
refused_bracket = refl

abbrev selected : List PathSegment
selected = key_segment (codes "a") ∷ key_segment (codes "b.c") ∷ index_segment 12 ∷ []

abbrev written : Bytes
written = codes ".a['b.c'][12]"

a_IsPlain : IsPlain 97
unfolding is_one_of
a_IsPlain = record { not_dot = omega arith; not_bracket = omega arith; allowed = refl }

written-WritesAll : WritesAll selected written
unfolding itoa
written-WritesAll =
    segment {text = codes ".a"} {rest = codes "['b.c'][12]"}
      (after_dot 97 [] (a_IsPlain, tt) refl refl)
      (segment {text = codes "['b.c']"} {rest = codes "[12]"}
        (in_quotes 39 (codes "b.c") (inl refl) (omega arith, (omega arith, (omega arith, tt))) refl
          refl)
        (segment {text = codes "[12]"} {rest = []} (in_brackets 12 (omega arith) refl refl) done
          refl)
        refl)
      refl

parse_json_path_ends_example :
    (r : Result PathError (List PathSegment)) × (parse_json_path (codes "$.status") ≡ some r)
parse_json_path_ends_example = parse_json_path_ends (codes "$.status")

parse_json_path-WritesAll_example : parse_json_path (codes "$.a['b.c'][12]") ≡ some (ok selected)
parse_json_path-WritesAll_example =
    parse_json_path-WritesAll selected written written-WritesAll (λ e. absurd cc)

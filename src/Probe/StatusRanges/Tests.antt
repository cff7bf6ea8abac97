-- ===== src/Probe/StatusRanges/Tests.antt =====
-- Accepted status codes as they stand in a configuration.
use uptime_cairn.Base.{◌≡◌, ◌↔◌, refl, List, [], ◌∷◌}
use uptime_cairn.Base.Int.{pos}
use uptime_cairn.Base.Bytes.{Bytes, codes}
use uptime_cairn.Base.Decimal.{atoi, itoa}
use uptime_cairn.Base.Text.{trim_space, cut}
use uptime_cairn.Base.Result.{ok, err}
use uptime_cairn.Probe.StatusRanges.{
  StatusRange, parse_status_ranges, parts, ranges_string, backwards,
}
use uptime_cairn.Probe.StatusRanges.Reading.{FirstRefused, refused_iff}
use uptime_cairn.Probe.StatusRanges.Printing.{parse_status_ranges-parts}

abbrev spec : List Bytes
spec = codes "200 - 299" ∷ codes "301" ∷ []

abbrev ranges : List StatusRange
ranges = record { lo = pos 200; hi = pos 299 } ∷ record { lo = pos 301; hi = pos 301 } ∷ []

spec_read : parse_status_ranges spec ≡ ok ranges
unfolding parse_status_ranges atoi trim_space cut
spec_read = refl

-- A no-break space before the code and an ideographic space after it.
trimmed :
    parse_status_ranges ((194 ∷ 160 ∷ 51 ∷ 48 ∷ 49 ∷ 227 ∷ 128 ∷ 128 ∷ []) ∷ [])
    ≡ ok (record { lo = pos 301; hi = pos 301 } ∷ [])
unfolding parse_status_ranges atoi trim_space cut
trimmed = refl

printed : ranges_string ranges ≡ codes "200-299, 301"
unfolding ranges_string itoa
printed = refl

refused_iff_example :
    (parse_status_ranges (codes "299-200" ∷ []) ≡ err (backwards (codes "299-200")))
    ↔ FirstRefused (backwards (codes "299-200")) (codes "299-200" ∷ [])
refused_iff_example = refused_iff (codes "299-200" ∷ []) (backwards (codes "299-200"))

parse_status_ranges-parts_example : parse_status_ranges (parts ranges) ≡ ok ranges
parse_status_ranges-parts_example = parse_status_ranges-parts spec ranges spec_read

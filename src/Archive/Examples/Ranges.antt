-- ===== src/Archive/Examples/Ranges.antt =====
-- Runs of the cached ranges and of the names of cache files, and the theorems on them.
use griffr.Common.{
  ℕ, ◌≤◌, ◌<◌, ◌≡◌, refl, ◌↔◌, true, none, some, [], ◌∷◌, arith, nat_eq, text_eq, bytes, text_order,
  flagged_eq, flagged_order,
}
use griffr.Archive.Ranges.{range_covered, subtract_cached, missing_bytes_in_range}
use griffr.Archive.Ranges.Sorted.{is_cached}
use griffr.Archive.Ranges.Cover.{range_covered_iff}
use griffr.Archive.Ranges.Missing.{
  is_missing, subtract_cached_lem, bytes_of_spans, missing_bytes_in_range_lem,
}
use griffr.Archive.Names.{range_stem, parse_stem}
use griffr.Archive.Names.RoundTrip.{parse_stem-range_stem}
use griffr.Archive.Requests.{sort_by_start, merge_spans}
use griffr.Archive.Examples.{program, span, two_ranges, two_ranges-IsCacheOf}

finds_gaps : subtract_cached (span 5 35) two_ranges ≡ span 5 10 ∷ span 20 30 ∷ []
unfolding program
finds_gaps = refl

counts_gaps : missing_bytes_in_range (span 5 35) two_ranges ≡ 15
unfolding program
counts_gaps = refl

merges :
    merge_spans (sort_by_start (span 8 9 ∷ span 1 4 ∷ span 3 6 ∷ [])) ≡ span 1 6 ∷ span 8 9 ∷ []
unfolding program
merges = refl

names : range_stem 7 (span 0 120) ≡ bytes "v0007-0-120"
unfolding program
names = refl

reads_name : parse_stem (bytes "v12-3-x") ≡ none
unfolding program
reads_name = refl

range_covered_iff_example :
    (range_covered two_ranges (span 12 18) ≡ true)
    ↔ ((byte : ℕ) → 12 ≤ byte → byte < 18 → is_cached byte two_ranges ≡ true)
range_covered_iff_example = range_covered_iff two_ranges (span 12 18) two_ranges-IsCacheOf.sorted

subtract_cached_lem_example : is_missing 25 (subtract_cached (span 5 35) two_ranges) ≡ true
subtract_cached_lem_example =
    subtract_cached_lem (span 5 35) two_ranges 25 two_ranges-IsCacheOf.sorted

missing_bytes_in_range_lem_example :
    missing_bytes_in_range (span 5 35) two_ranges
    ≡ bytes_of_spans (subtract_cached (span 5 35) two_ranges)
missing_bytes_in_range_lem_example =
    missing_bytes_in_range_lem (span 5 35) two_ranges two_ranges-IsCacheOf.proper (omega arith)

parse_stem-range_stem_example : parse_stem (range_stem 7 (span 0 120)) ≡ some (7, span 0 120)
parse_stem-range_stem_example =
    parse_stem-range_stem 7 (span 0 120) (omega arith) (omega arith) (omega arith)

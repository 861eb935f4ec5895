-- ===== src/Archive/Examples.antt =====
-- The code of the archive gathered for runs, and a cache of two ranges.
mod Ranges
mod Layout
use griffr.Common.{
  ℕ, ◌*◌, refl, List, [], ◌∷◌, arith, nat_eq, text_eq, bytes, text_order, flagged_eq, flagged_order,
}
use griffr.Archive.Ranges.{
  Span, CachedVolumeRange, partition_point, insert_at, retain, insert_cached_range, covered_from,
  range_covered, subtract_from, subtract_cached, missing_from, missing_bytes_in_range,
}
use griffr.Archive.Names.{
  digits, decimal, padded, range_stem, cache_path, scan, parse, split, parse_stem,
}
use griffr.Archive.Layout.{
  lay_out, from_expected, sizes_of, from_files, tail_probe_range, volume_index_bounds,
}
use griffr.Archive.Availability.{
  volume_indices_for_range, refresh_each, refresh_local_full_volumes, range_is_available,
}
use griffr.Archive.Layout.Contiguous.{IsCacheOf}
use griffr.Archive.Requests.{
  missing_bytes, push_parts, split_ranges, insert_by_start, sort_by_start, merge_into, merge_spans,
  check_local, missing_of, volume_requests, all_requests, missing_range_requests,
}
use griffr.Archive.Registration.{
  register_range, register_full_volume, prune_each, prune_range_cache,
}
use griffr.Archive.Remote.{adopt, adopt_all, from_remote}

-- All the code of the archive, for the runs below.
pub program : Unit {0}
unfolding partition_point insert_at retain insert_cached_range covered_from range_covered
    subtract_from subtract_cached missing_from missing_bytes_in_range digits decimal padded
    range_stem cache_path scan parse split parse_stem lay_out from_expected sizes_of from_files
    tail_probe_range volume_index_bounds volume_indices_for_range refresh_each
    refresh_local_full_volumes range_is_available missing_bytes push_parts split_ranges
    insert_by_start sort_by_start merge_into merge_spans check_local missing_of volume_requests
    all_requests missing_range_requests register_range register_full_volume prune_each
    prune_range_cache adopt adopt_all from_remote
program = tt

abbrev pub span : ℕ → ℕ → Span
span start end = record { start = start; end = end }

abbrev pub cache : ℕ → ℕ → CachedVolumeRange
cache start end = record { range = span start end; path = bytes "f" }

-- Bytes 10 to 19 and 30 to 39 are cached.
abbrev pub two_ranges : List CachedVolumeRange
two_ranges = cache 10 20 ∷ cache 30 40 ∷ []

pub two_ranges-IsCacheOf : IsCacheOf two_ranges
two_ranges-IsCacheOf = record {
  sorted = (refl, (refl, tt));
  proper = (omega arith, (omega arith, tt));
}

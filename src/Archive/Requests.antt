-- ===== src/Archive/Requests.antt =====
-- download/extractor/layout/volume.rs: `missing_bytes` and `missing_range_requests`, what is
-- fetched of a remote archive.
pub mod Fetched
use griffr.Common.{
  ℕ, suc, ◌+◌, ◌*◌, max, Option, none, some, List, [], ◌∷◌, ◌++◌, map, leb, if◌then◌else◌, nat_eq,
  get_elem?, set, Text, text_eq, saturating_add, text_order, flagged_eq, flagged_order,
}
use griffr.Archive.Ranges.{
  Span, CachedVolumeRange, range_covered, subtract_cached, missing_bytes_in_range,
}
use griffr.Archive.Names.{cache_path}
use griffr.Archive.Layout.{
  VolumeLayout, MultiVolumeLayout, ArchiveError, no_cache_directory, exceeds_stream,
  missing_local_range, Result, ok, failed, Disk,
}
use griffr.Archive.Availability.{
  volume_indices_for_range, exceeds, local_part, refresh_local_full_volumes,
}

-- `ArchiveRangeRequest` of range.rs.
pub record ArchiveRangeRequest : Type 0 where
  pub volume_index : ℕ
  pub local_range : Span
  pub global_range : Span
  pub url : Text
  pub cache_path : Text

-- One volume of `missing_bytes`.
abbrev pub volume_missing : MultiVolumeLayout → Span → ℕ → ℕ
volume_missing l range index = elim (get_elem? l.layouts index) [
  | none ↦ 0
  | some layout ↦ elim (get_elem? l.ranges index) [
    | none ↦ 0
    | some cached ↦ missing_bytes_in_range (local_part layout range) cached
  ]
]

-- `fold(0, u64::saturating_add)`
abbrev pub saturating_total : ℕ → List ℕ → ℕ
saturating_total sum [] = sum
saturating_total sum (n ∷ ns) = saturating_total (saturating_add sum n) ns

unfoldable pub missing_bytes : MultiVolumeLayout → Span → Result ℕ
unfolding missing_bytes_in_range volume_indices_for_range
missing_bytes l range =
    if exceeds l range
    then failed (exceeds_stream range l.total_size)
    else ok (saturating_total 0 (map (volume_missing l range) (volume_indices_for_range l range)))

-- `per_volume[index].push(…)` for the volumes of one range.
unfoldable pub push_parts : List VolumeLayout → Span → List (List Span) → List ℕ → List (List Span)
push_parts layouts range per_volume [] = per_volume
push_parts layouts range per_volume (index ∷ rest) =
    push_parts layouts range
      (elim (get_elem? layouts index) [
        | none ↦ per_volume
        | some layout ↦ elim (get_elem? per_volume index) [
          | none ↦ per_volume
          | some parts ↦ set per_volume index (parts ++ local_part layout range ∷ [])
        ]
      ])
      rest

unfoldable pub split_ranges :
    MultiVolumeLayout → List (List Span) → List Span → Result (List (List Span))
unfolding push_parts volume_indices_for_range
split_ranges l per_volume [] = ok per_volume
split_ranges l per_volume (range ∷ rest) =
    let pushed = push_parts l.layouts range per_volume (volume_indices_for_range l range) in
    let onward = split_ranges l pushed rest in
    if exceeds l range then failed (exceeds_stream range l.total_size) else onward

-- `sort_by_key(|range| range.start)`, which is stable.
unfoldable pub insert_by_start : Span → List Span → List Span
insert_by_start s [] = s ∷ []
insert_by_start s (t ∷ ts) =
    let rest = insert_by_start s ts in if leb s.start t.start then s ∷ t ∷ ts else t ∷ rest

unfoldable pub sort_by_start : List Span → List Span
unfolding insert_by_start
sort_by_start [] = []
sort_by_start (s ∷ ss) = insert_by_start s (sort_by_start ss)

-- The merge loop, with the last range merged so far.
unfoldable pub merge_into : Span → List Span → List Span
merge_into last [] = last ∷ []
merge_into last (range ∷ rest) =
    let grown = merge_into (record { start = last.start; end = max last.end range.end }) rest in
    let next = merge_into range rest in if leb range.start last.end then grown else last ∷ next

unfoldable pub merge_spans : List Span → List Span
unfolding merge_into
merge_spans [] = []
merge_spans (range ∷ rest) = merge_into range rest

-- The local ranges of a volume without an address have to be there.
unfoldable pub check_local : VolumeLayout → List CachedVolumeRange → List Span → Option ArchiveError
unfolding range_covered
check_local layout cached [] = none
check_local layout cached (range ∷ rest) =
    let onward = check_local layout cached rest in
    if range_covered cached range then onward else some (missing_local_range layout.path range)

abbrev pub request_for : Text → Text → ℕ → VolumeLayout → Span → ArchiveRangeRequest
request_for cache_dir url index layout missing = record {
  volume_index = index;
  local_range = missing;
  global_range = record { start = layout.start + missing.start; end = layout.start + missing.end };
  url = url;
  cache_path = cache_path cache_dir index missing;
}

unfoldable pub missing_of : List CachedVolumeRange → List Span → List Span
unfolding subtract_cached
missing_of cached [] = []
missing_of cached (range ∷ rest) = subtract_cached range cached ++ missing_of cached rest

-- What is missing of a remote volume; the directory is asked for with the first request.
abbrev pub requests_for :
    Option Text → Text → ℕ → VolumeLayout → List Span → Result (List ArchiveRangeRequest)
requests_for cache_dir url index layout [] = ok []
requests_for none url index layout (m ∷ ms) = failed no_cache_directory
requests_for (some dir) url index layout (m ∷ ms) =
    ok (map (request_for dir url index layout) (m ∷ ms))

-- One round of the loop over the volumes.
unfoldable pub volume_requests :
    Option Text
    → ℕ
    → VolumeLayout
    → List CachedVolumeRange
    → List Span
    → Result (List ArchiveRangeRequest)
unfolding sort_by_start merge_spans check_local missing_of
volume_requests cache_dir index layout cached requested =
    let merged = merge_spans (sort_by_start requested) in
    elim layout.url [
      | none ↦ elim (check_local layout cached merged) [ none ↦ ok [] | some error ↦ failed error ]
      | some url ↦ requests_for cache_dir url index layout (missing_of cached merged)
    ]

-- The loop over the volumes, from an index on.
unfoldable pub all_requests :
    Option Text
    → ℕ
    → List VolumeLayout
    → List (List CachedVolumeRange)
    → List (List Span)
    → Result (List ArchiveRangeRequest)
unfolding volume_requests
all_requests cache_dir index (layout ∷ layouts) (cached ∷ ranges) (requested ∷ per_volume) =
    let here = volume_requests cache_dir index layout cached requested in
    let rest = all_requests cache_dir (suc index) layouts ranges per_volume in
    elim here [
      | failed error ↦ failed error
      | ok first ↦ elim rest [ failed error ↦ failed error | ok later ↦ ok (first ++ later) ]
    ]
all_requests cache_dir index _ _ _ = ok []

-- The volumes of which something is requested.
abbrev pub touched : ℕ → List (List Span) → List ℕ
touched index [] = []
touched index ([] ∷ per_volume) = touched (suc index) per_volume
touched index ((_ ∷ _) ∷ per_volume) = index ∷ touched (suc index) per_volume

unfoldable pub missing_range_requests :
    Disk → MultiVolumeLayout → List Span → MultiVolumeLayout × Result (List ArchiveRangeRequest)
unfolding split_ranges refresh_local_full_volumes all_requests
missing_range_requests disk l ranges = elim (split_ranges l (map (λ _. []) l.layouts) ranges) [
  | failed error ↦ (l, failed error)
  | ok per_volume ↦
      let fresh = refresh_local_full_volumes disk l (touched 0 per_volume) in
      (fresh, all_requests fresh.cache_dir 0 fresh.layouts fresh.ranges per_volume)
]

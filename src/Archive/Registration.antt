-- ===== src/Archive/Registration.antt =====
-- download/extractor/layout/volume.rs: `register_range`, `register_full_volume` and
-- `prune_range_cache`.
pub mod Registered
use griffr.Common.{
  ℕ, ◌+◌, Bool, true, false, ◌&&◌, Option, none, some, List, ◌∷◌, ltb, nat_beq, if◌then◌else◌,
  nat_eq, ◌==◌, get_elem?, set, any, Text, text_eq, wrapping_sub, nat_order, text_order, flagged_eq,
  flagged_order,
}
use griffr.Archive.Ranges.{Span, CachedVolumeRange, retain, insert_cached_range}
use griffr.Archive.Names.{cache_path}
use griffr.Archive.Layout.{
  VolumeLayout, MultiVolumeLayout, ArchiveError, unknown_volume, io_at, wrong_length, Result, ok,
  failed, removed, not_found, still_open, Disk, volume_size, whole, is_remote,
}
use griffr.Archive.Requests.{ArchiveRangeRequest}

-- `ranges.get_mut(index)` and the insertion of a range that is on the disk.
abbrev pub add_range : MultiVolumeLayout → ℕ → CachedVolumeRange → Result MultiVolumeLayout
add_range l index cached = elim (get_elem? l.ranges index) [
  | none ↦ failed unknown_volume
  | some volume ↦ ok (record l { ranges = set l.ranges index (insert_cached_range volume cached) })
]

-- The length that a file should have, as the methods below check it.
abbrev pub check_length : Disk → Text → ℕ → Option ArchiveError
check_length disk path expected = elim (disk.metadata_len path) [
  | none ↦ some (io_at path)
  | some actual ↦ if nat_beq actual expected then none else some (wrong_length path actual expected)
]

unfoldable pub register_range :
    Disk → MultiVolumeLayout → ArchiveRangeRequest → Result MultiVolumeLayout
unfolding insert_cached_range
register_range disk l request =
    let expected = wrapping_sub request.local_range.end request.local_range.start in
    elim (check_length disk request.cache_path expected) [
      | some error ↦ failed error
      | none ↦
          add_range l request.volume_index
            (record { range = request.local_range; path = request.cache_path })
    ]

unfoldable pub register_full_volume : Disk → MultiVolumeLayout → ℕ → Result MultiVolumeLayout
unfolding insert_cached_range
register_full_volume disk l volume_index = elim (get_elem? l.layouts volume_index) [
  | none ↦ failed unknown_volume
  | some layout ↦ elim (check_length disk layout.path (volume_size layout)) [
    | some error ↦ failed error
    | none ↦ add_range l volume_index (whole (volume_size layout) layout.path)
  ]
]

-- Whether a cached range of a volume is kept by `prune_range_cache`.
abbrev pub is_kept : Disk → VolumeLayout → List Span → CachedVolumeRange → Bool
is_kept disk layout still_needed cached =
    if cached.path == layout.path
    then true
    else if any
        (λ range.
          ltb range.start (layout.start + cached.range.end)
          && ltb (layout.start + cached.range.start) range.end)
        still_needed
    then true
    else elim (disk.remove_file cached.path) [
      | removed ↦ false
      | not_found ↦ false
      | still_open ↦ true
    ]

unfoldable pub prune_each :
    Disk
    → List Span
    → List VolumeLayout
    → List (List CachedVolumeRange)
    → List (List CachedVolumeRange)
unfolding retain
prune_each disk still_needed (layout ∷ layouts) (cached ∷ ranges) =
    retain (is_kept disk layout still_needed) cached ∷ prune_each disk still_needed layouts ranges
prune_each disk still_needed _ ranges = ranges

unfoldable pub prune_range_cache : Disk → MultiVolumeLayout → List Span → MultiVolumeLayout
unfolding prune_each
prune_range_cache disk l still_needed =
    if is_remote l then record l { ranges = prune_each disk still_needed l.layouts l.ranges } else l

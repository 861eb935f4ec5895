-- ===== src/Archive/Remote.antt =====
-- download/extractor/layout/volume.rs: `from_remote`, which takes up the ranges that an earlier run
-- has left in the cache directory.
pub mod Adopted
use griffr.Common.{
  ℕ, ◌-◌, ◌*◌, Bool, ◌&&◌, not, Option, none, some, List, [], ◌∷◌, map, ltb, leb, if◌then◌else◌,
  nat_eq, ◌==◌, get_elem?, set, Text, text_eq, bytes, text_order, flagged_eq, flagged_order,
}
use griffr.Archive.Ranges.{Span, CachedVolumeRange, insert_cached_range}
use griffr.Archive.Names.{parse_stem}
use griffr.Archive.Layout.{
  VolumeLayout, MultiVolumeLayout, no_volumes, io_at, Result, ok, failed, DirEntry, Disk,
  volume_size, has_length, Volume, lay_out, with_volumes,
}

abbrev pub remote_volume : Text × Text × ℕ → Volume
remote_volume v = record { path = v.0; url = some v.1; size = v.2 }

-- The range of a file of the directory, if its name says one.
abbrev pub entry_range : DirEntry → Option (ℕ × Span)
entry_range entry = elim entry.extension [
  | none ↦ none
  | some extension ↦
      if extension == bytes "range"
      then (elim entry.file_stem [ none ↦ none | some stem ↦ parse_stem stem ])
      else none
]

-- The range lies in the volume and the file has its length.
abbrev pub is_adoptable : Disk → DirEntry → VolumeLayout → Span → Bool
is_adoptable disk entry layout range =
    not (leb range.end range.start)
    && not (ltb (volume_size layout) range.end)
    && has_length disk entry.path (range.end - range.start)

abbrev pub adopt_range :
    Disk
    → List VolumeLayout
    → DirEntry
    → List (List CachedVolumeRange)
    → ℕ × Span
    → List (List CachedVolumeRange)
adopt_range disk layouts entry ranges (index, range) = elim (get_elem? layouts index) [
  | none ↦ ranges
  | some layout ↦ elim (get_elem? ranges index) [
    | none ↦ ranges
    | some cached ↦
        if is_adoptable disk entry layout range
        then set ranges index
            (insert_cached_range cached (record { range = range; path = entry.path }))
        else ranges
  ]
]

-- One round of the loop over the directory.
unfoldable pub adopt :
    Disk
    → List VolumeLayout
    → List (List CachedVolumeRange)
    → DirEntry
    → List (List CachedVolumeRange)
unfolding insert_cached_range parse_stem
adopt disk layouts ranges entry = elim (entry_range entry) [
  | none ↦ ranges
  | some found ↦ adopt_range disk layouts entry ranges found
]

unfoldable pub adopt_all :
    Disk
    → List VolumeLayout
    → List (List CachedVolumeRange)
    → List DirEntry
    → List (List CachedVolumeRange)
unfolding adopt
adopt_all disk layouts ranges [] = ranges
adopt_all disk layouts ranges (entry ∷ entries) =
    adopt_all disk layouts (adopt disk layouts ranges entry) entries

-- The entries that can be listed; a directory that cannot be read has none.
abbrev pub entries_of : Option (List DirEntry) → List DirEntry
entries_of none = []
entries_of (some entries) = entries

unfoldable pub from_remote : Disk → List (Text × Text × ℕ) → Text → Result MultiVolumeLayout
unfolding lay_out adopt_all
from_remote disk [] cache_dir = failed no_volumes
from_remote disk (v ∷ volumes) cache_dir =
    if not (disk.create_dir_all cache_dir)
    then failed (io_at cache_dir)
    else elim (lay_out disk 0 (map remote_volume (v ∷ volumes))) [
      | failed error ↦ failed error
      | ok laid ↦ ok (
          with_volumes (some cache_dir) (record laid {
            ranges = adopt_all disk laid.layouts laid.ranges (entries_of (disk.read_dir cache_dir));
          }))
    ]

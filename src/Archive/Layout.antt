-- ===== src/Archive/Layout.antt =====
-- download/extractor/layout/volume.rs: the volumes of an archive, laid end to end, and the cached
-- ranges of each. What the disk answers is a record of functions.
pub mod Contiguous
pub mod Bounds
use griffr.Common.{
  ℕ, ◌+◌, ◌-◌, ◌*◌, Bool, false, Option, none, some, List, [], ◌∷◌, map, ltb, leb, nat_beq,
  if◌then◌else◌, is_some, nat_eq, Text, text_eq, word_max, saturating_sub, text_order, flagged_eq,
  flagged_order,
}
use griffr.Archive.Ranges.{Span, CachedVolumeRange, partition_point}

pub record VolumeLayout : Type 0 where
  pub path : Text
  pub url : Option Text
  pub start : ℕ
  pub end : ℕ

-- The lists are shared by `Arc`s; a method that changes the ranges returns the new layout.
pub record MultiVolumeLayout : Type 0 where
  pub layouts : List VolumeLayout
  pub ranges : List (List CachedVolumeRange)
  pub cache_dir : Option Text
  pub total_size : ℕ

-- The messages that the methods fail with.
pub data ArchiveError : Type 0 where
  no_volumes size_overflow unknown_volume no_cache_directory : ArchiveError
  exceeds_stream : Span → ℕ → ArchiveError
  missing_local_range : Text → Span → ArchiveError
  io_at : Text → ArchiveError
  wrong_length : Text → ℕ → ℕ → ArchiveError

pub data Result (A : Type 0) : Type 0 where
  ok : A → Result A
  failed : ArchiveError → Result A

-- The three outcomes of `remove_file` that `prune_range_cache` tells apart.
pub data Removal : Type 0 where
  removed not_found still_open : Removal

-- An entry of a directory, as the methods of `Path` take it apart.
pub record DirEntry : Type 0 where
  pub path : Text
  pub extension : Option Text
  pub file_stem : Option Text

pub record Disk : Type 0 where
  pub metadata_len : Text → Option ℕ
  pub create_dir_all : Text → Bool
  pub read_dir : Text → Option (List DirEntry)
  pub remove_file : Text → Removal

-- `EOCD_MAX_SEARCH` of archive_index.rs
abbrev pub eocd_max_search : ℕ
eocd_max_search = 65557

abbrev pub volume_size : VolumeLayout → ℕ
volume_size layout = layout.end - layout.start

-- Whether the file is there with the length that is expected.
abbrev pub has_length : Disk → Text → ℕ → Bool
has_length disk path size = elim (disk.metadata_len path) [
  | none ↦ false
  | some len ↦ nat_beq len size
]

abbrev pub whole : ℕ → Text → CachedVolumeRange
whole size path = record { range = record { start = 0; end = size }; path = path }

pub record Volume : Type 0 where
  pub path : Text
  pub url : Option Text
  pub size : ℕ

-- What the loop of `from_expected` has pushed, and where the next volume starts.
pub record LaidOut : Type 0 where
  pub layouts : List VolumeLayout
  pub ranges : List (List CachedVolumeRange)
  pub next : ℕ

abbrev pub put_volume : Disk → Volume → ℕ → LaidOut → LaidOut
put_volume disk v start rest = record {
  layouts =
      record { path = v.path; url = v.url; start = start; end = start + v.size } ∷ rest.layouts;
  ranges = (if has_length disk v.path v.size then whole v.size v.path ∷ [] else []) ∷ rest.ranges;
  next = rest.next;
}

-- The loop that `from_expected` and `from_remote` share, from a start on.
unfoldable pub lay_out : Disk → ℕ → List Volume → Result LaidOut
lay_out disk start [] = ok (record { layouts = []; ranges = []; next = start })
lay_out disk start (v ∷ volumes) =
    let rest = lay_out disk (start + v.size) volumes in
    if ltb word_max (start + v.size)
    then failed size_overflow
    else elim rest [ failed error ↦ failed error | ok laid ↦ ok (put_volume disk v start laid) ]

abbrev pub with_volumes : Option Text → LaidOut → MultiVolumeLayout
with_volumes cache_dir laid = record {
  layouts = laid.layouts;
  ranges = laid.ranges;
  cache_dir = cache_dir;
  total_size = laid.next;
}

abbrev pub local_volume : Text × ℕ → Volume
local_volume v = record { path = v.0; url = none; size = v.1 }

unfoldable pub from_expected : Disk → List (Text × ℕ) → Result MultiVolumeLayout
unfolding lay_out
from_expected disk [] = failed no_volumes
from_expected disk (v ∷ volumes) = elim (lay_out disk 0 (map local_volume (v ∷ volumes))) [
  | failed error ↦ failed error
  | ok laid ↦ ok (with_volumes none laid)
]

-- The sizes that `from_files` asks the disk for.
unfoldable pub sizes_of : Disk → List Text → Result (List (Text × ℕ))
sizes_of disk [] = ok []
sizes_of disk (path ∷ paths) =
    let rest = sizes_of disk paths in
    elim (disk.metadata_len path) [
      | none ↦ failed (io_at path)
      | some len ↦ elim rest [ failed error ↦ failed error | ok sizes ↦ ok ((path, len) ∷ sizes) ]
    ]

unfoldable pub from_files : Disk → List Text → Result MultiVolumeLayout
unfolding sizes_of from_expected
from_files disk paths = elim (sizes_of disk paths) [
  | failed error ↦ failed error
  | ok sizes ↦ from_expected disk sizes
]

abbrev pub is_remote : MultiVolumeLayout → Bool
is_remote l = is_some l.cache_dir

unfoldable pub tail_probe_range : MultiVolumeLayout → Span
tail_probe_range l = record {
  start = saturating_sub l.total_size eocd_max_search;
  end = l.total_size;
}

-- `volume_index_bounds`: the first index, and the one after the last.
unfoldable pub volume_index_bounds : MultiVolumeLayout → Span → ℕ × ℕ
unfolding partition_point
volume_index_bounds l range = if leb range.end range.start then (0, 0) else (
  partition_point (λ layout. leb layout.end range.start) l.layouts,
  partition_point (λ layout. ltb layout.start range.end) l.layouts,
)

-- ===== src/Archive/Examples/Layout.antt =====
-- Runs of a layout of two volumes, and the theorems applied to it.
use griffr.Common.{
  ℕ, ◌≤◌, ◌<◌, ◌≡◌, refl, ◌↔◌, true, ◌&&◌, not, none, some, List, [], ◌∷◌, map, arith,
  if◌then◌else◌, nat_eq, ◌==◌, get_elem?, Text, text_eq, bytes, nat_order, text_order, flagged_eq,
  flagged_order,
}
use griffr.Archive.Ranges.{CachedVolumeRange}
use griffr.Archive.Ranges.Sorted.{is_cached}
use griffr.Archive.Ranges.Missing.{is_missing}
use griffr.Archive.Layout.{
  VolumeLayout, MultiVolumeLayout, exceeds_stream, io_at, ok, failed, removed, Disk, whole,
  from_expected, volume_index_bounds,
}
use griffr.Archive.Availability.{range_is_available}
use griffr.Archive.Layout.Contiguous.{
  IsWellFormed, as_volume, HoldsWhole, from_expected-IsWellFormed,
}
use griffr.Archive.Layout.Bounds.{volume_index_bounds_iff, IsHeld}
use griffr.Archive.Availability.Held.{range_is_available-IsHeld}
use griffr.Archive.Requests.{
  ArchiveRangeRequest, missing_bytes, volume_requests, missing_range_requests,
}
use griffr.Archive.Registration.{register_range, register_full_volume, prune_range_cache}
use griffr.Archive.Requests.Fetched.{is_fetched, volume_requests-remote}
use griffr.Archive.Registration.Registered.{
  HasRange, register_range-HasRange, prune_range_cache-keeps,
}
use griffr.Archive.Remote.{entries_of, from_remote}
use griffr.Archive.Remote.Adopted.{HoldsFiles, from_remote-IsWellFormed}
use griffr.Archive.Examples.{program, span, two_ranges, two_ranges-IsCacheOf}

-- The cache directory holds one range of the second volume, and the first volume is whole.
abbrev disk : Disk
disk = record {
  metadata_len =
      λ path. if path == bytes "a" then some 100 else if path == bytes "c" then some 20 else none;
  create_dir_all = λ _. true;
  read_dir = λ _. some (
      record {
        path = bytes "c";
        extension = some (bytes "range");
        file_stem = some (bytes "v0001-30-50");
      }
      ∷ []);
  remove_file = λ _. removed;
}

abbrev volumes : List (Text × Text × ℕ)
volumes = (bytes "b", bytes "u", 60) ∷ []

abbrev first_volume : VolumeLayout
first_volume = record { path = bytes "a"; url = some (bytes "t"); start = 0; end = 100 }

abbrev second_volume : VolumeLayout
second_volume = record { path = bytes "b"; url = some (bytes "u"); start = 100; end = 160 }

abbrev opened : MultiVolumeLayout
opened = record {
  layouts = first_volume ∷ second_volume ∷ [];
  ranges =
      (whole 100 (bytes "a") ∷ []) ∷ (record { range = span 30 50; path = bytes "c" } ∷ []) ∷ [];
  cache_dir = some (bytes "d");
  total_size = 160;
}

opens : from_remote disk ((bytes "a", bytes "t", 100) ∷ volumes) (bytes "d") ≡ ok opened
unfolding program
opens = refl

opened-IsWellFormed : IsWellFormed opened
opened-IsWellFormed = record {
  contiguous = (refl, omega arith, (refl, omega arith, refl));
  same_count = refl;
  caches = (
    record { sorted = (refl, tt); proper = (omega arith, tt) },
    (record { sorted = (refl, tt); proper = (omega arith, tt) }, tt),
  );
  fits = omega arith;
}

fetches :
    (missing_range_requests disk opened (span 90 140 ∷ [])).1
    ≡ ok (
        record {
          volume_index = 1;
          local_range = span 0 30;
          global_range = span 100 130;
          url = bytes "u";
          cache_path = bytes "d/v0001-0-30.range";
        }
        ∷ [])
unfolding program
fetches = refl

misses : missing_bytes opened (span 90 160) ≡ ok 40
unfolding program
misses = refl

refuses : missing_bytes opened (span 90 161) ≡ failed (exceeds_stream (span 90 161) 160)
unfolding program
refuses = refl

available : (range_is_available disk opened (span 80 100)).1 ≡ true
unfolding program
available = refl

from_expected-IsWellFormed_example :
    (l : MultiVolumeLayout) × (from_expected disk ((bytes "a", 100) ∷ (bytes "b", 60) ∷ []) ≡ ok l)
    × IsWellFormed l
    × (l.total_size ≡ 160)
    × (map as_volume l.layouts
        ≡ record { path = bytes "a"; url = none; size = 100 }
          ∷ record { path = bytes "b"; url = none; size = 60 }
          ∷ [])
    × HoldsWhole disk l.layouts l.ranges
from_expected-IsWellFormed_example =
    from_expected-IsWellFormed disk (bytes "a", 100) ((bytes "b", 60) ∷ []) (omega arith)

from_remote-IsWellFormed_example :
    (l : MultiVolumeLayout) × (from_remote disk ((bytes "a", bytes "t", 100) ∷ volumes) (bytes "d")
      ≡ ok l)
    × IsWellFormed l
    × (l.total_size ≡ 160)
    × (map as_volume l.layouts
        ≡ record { path = bytes "a"; url = some (bytes "t"); size = 100 }
          ∷ record { path = bytes "b"; url = some (bytes "u"); size = 60 }
          ∷ [])
    × HoldsFiles disk (entries_of (disk.read_dir (bytes "d"))) l
from_remote-IsWellFormed_example =
    from_remote-IsWellFormed disk (bytes "a", bytes "t", 100) volumes (bytes "d") refl (omega arith)

volume_index_bounds_iff_example :
    (((volume_index_bounds opened (span 90 140)).0 ≤ 1)
      × (1 < (volume_index_bounds opened (span 90 140)).1))
    ↔ ((90 < 160) × (100 < 140))
volume_index_bounds_iff_example =
    volume_index_bounds_iff opened (span 90 140) 1 second_volume opened-IsWellFormed.contiguous
      (omega arith) refl

range_is_available-IsHeld_example : IsHeld (range_is_available disk opened (span 80 100)).0 90
range_is_available-IsHeld_example =
    range_is_available-IsHeld disk opened (span 80 100) 90 opened-IsWellFormed available
      (omega arith) (omega arith)

volume_requests-remote_example :
    (requests : List ArchiveRangeRequest) × (volume_requests
        (some (bytes "d"))
        1
        second_volume
        two_ranges
        (span 5 35 ∷ [])
      ≡ ok requests)
    × ((byte : ℕ)
        → is_fetched byte requests
          ≡ (is_missing byte (span 5 35 ∷ []) && not (is_cached byte two_ranges)))
volume_requests-remote_example =
    volume_requests-remote (bytes "d") (bytes "u") 1 second_volume two_ranges (span 5 35 ∷ []) refl
      two_ranges-IsCacheOf.sorted

abbrev local_layout : VolumeLayout
local_layout = record { path = bytes "a"; url = none; start = 0; end = 100 }

local_round : volume_requests none 0 local_layout two_ranges (span 12 18 ∷ span 31 33 ∷ []) ≡ ok []
unfolding program
local_round = refl

-- The twenty bytes of the file `c` were fetched for bytes 0 to 19 of the second volume.
abbrev fetched : ArchiveRangeRequest
fetched = record {
  volume_index = 1;
  local_range = span 0 20;
  global_range = span 100 120;
  url = bytes "u";
  cache_path = bytes "c";
}

abbrev grown : MultiVolumeLayout
grown = record opened {
  ranges =
      (whole 100 (bytes "a") ∷ [])
      ∷ (record { range = span 0 20; path = bytes "c" }
          ∷ record { range = span 30 50; path = bytes "c" }
          ∷ [])
      ∷ [];
}

registers : register_range disk opened fetched ≡ ok grown
unfolding program
registers = refl

register_range-HasRange_example :
    (disk.metadata_len (bytes "c") ≡ some 20) × HasRange grown 1 (span 0 20)
register_range-HasRange_example =
    register_range-HasRange disk opened grown fetched opened-IsWellFormed (omega arith)
      (omega arith) registers

registers_whole : register_full_volume disk opened 0 ≡ ok opened
unfolding program
registers_whole = refl

refuses_short : register_full_volume disk opened 1 ≡ failed (io_at (bytes "b"))
unfolding program
refuses_short = refl

prune_range_cache-keeps_example :
    (kept : List CachedVolumeRange) × (get_elem?
        (prune_range_cache disk opened (span 130 140 ∷ [])).ranges
        1
      ≡ some kept)
    × (is_cached 35 kept ≡ true)
prune_range_cache-keeps_example =
    prune_range_cache-keeps disk opened (span 130 140 ∷ []) 1 35 second_volume
      (record { range = span 30 50; path = bytes "c" } ∷ []) refl refl refl

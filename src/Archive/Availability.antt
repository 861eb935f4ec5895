-- ===== src/Archive/Availability.antt =====
-- download/extractor/layout/volume.rs: which volumes a range meets, what the disk holds of them,
-- and `range_is_available`.
pub mod Held
use griffr.Common.{
  ℕ, zero, suc, ◌-◌, ◌*◌, min, max, Bool, false, ◌||◌, not, none, some, List, [], ◌∷◌, ltb,
  if◌then◌else◌, nat_eq, ◌==◌, get_elem?, set, all, text_eq, text_order, flagged_eq, flagged_order,
}
use griffr.Archive.Ranges.{
  Span, CachedVolumeRange, span_eq, retain, insert_cached_range, range_covered,
}
use griffr.Archive.Layout.{
  VolumeLayout, MultiVolumeLayout, Disk, volume_size, has_length, whole, is_remote,
  volume_index_bounds,
}

-- `start..end` as the list of its numbers.
abbrev pub count_up : (start n : ℕ) → List ℕ
count_up start zero = []
count_up start (suc n) = start ∷ count_up (suc start) n

unfoldable pub volume_indices_for_range : MultiVolumeLayout → Span → List ℕ
unfolding volume_index_bounds
volume_indices_for_range l range =
    let (first, last) = volume_index_bounds l range in count_up first (last - first)

abbrev pub exceeds : MultiVolumeLayout → Span → Bool
exceeds l range = ltb range.end range.start || ltb l.total_size range.end

-- The part of a range that lies in a volume, counted from the start of the volume.
abbrev pub local_part : VolumeLayout → Span → Span
local_part layout range = record {
  start = max range.start layout.start - layout.start;
  end = min range.end layout.end - layout.start;
}

abbrev pub refreshed : Disk → VolumeLayout → List CachedVolumeRange → List CachedVolumeRange
refreshed disk layout cached =
    if has_length disk layout.path (volume_size layout)
    then insert_cached_range cached (whole (volume_size layout) layout.path)
    else retain
        (λ c.
          not (c.path == layout.path)
          || not (span_eq c.range (whole (volume_size layout) layout.path).range))
        cached

abbrev pub refresh_volume :
    Disk → List VolumeLayout → List (List CachedVolumeRange) → ℕ → List (List CachedVolumeRange)
refresh_volume disk layouts ranges index = elim (get_elem? layouts index) [
  | none ↦ ranges
  | some layout ↦ elim (get_elem? ranges index) [
    | none ↦ ranges
    | some cached ↦ set ranges index (refreshed disk layout cached)
  ]
]

unfoldable pub refresh_each :
    Disk
    → List VolumeLayout
    → List (List CachedVolumeRange)
    → List ℕ
    → List (List CachedVolumeRange)
refresh_each disk layouts ranges [] = ranges
refresh_each disk layouts ranges (index ∷ rest) =
    refresh_each disk layouts (refresh_volume disk layouts ranges index) rest

unfoldable pub refresh_local_full_volumes : Disk → MultiVolumeLayout → List ℕ → MultiVolumeLayout
unfolding refresh_each insert_cached_range retain
refresh_local_full_volumes disk l indices =
    if is_remote l then l else record l { ranges = refresh_each disk l.layouts l.ranges indices }

-- One volume of `range_is_available`; an index out of range would panic.
abbrev pub volume_has : MultiVolumeLayout → Span → ℕ → Bool
volume_has l range index = elim (get_elem? l.layouts index) [
  | none ↦ false
  | some layout ↦ elim (get_elem? l.ranges index) [
    | none ↦ false
    | some cached ↦ range_covered cached (local_part layout range)
  ]
]

unfoldable pub range_is_available : Disk → MultiVolumeLayout → Span → MultiVolumeLayout × Bool
unfolding volume_indices_for_range refresh_local_full_volumes range_covered
range_is_available disk l range =
    let indices = volume_indices_for_range l range in
    let fresh = refresh_local_full_volumes disk l indices in
    if exceeds l range then (l, false) else (fresh, all (volume_has fresh range) indices)

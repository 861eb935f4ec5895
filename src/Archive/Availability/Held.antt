-- ===== src/Archive/Availability/Held.antt =====
-- download/extractor/layout/volume.rs: `refresh_local_full_volumes` and `range_is_available` on
-- well-formed layouts.
use griffr.Common.{
  ℕ, zero, suc, ◌+◌, ◌-◌, ◌≤◌, ◌<◌, ◌≡◌, refl, ◌∙◌, inl, inr, Bool, true, false, some, List, [],
  ◌∷◌, arith, nat_beq, Bool-cases, Option-cases, nat_eq, length, get_elem?, any, all, length-set,
  All, All-set, All-get, text_eq, text_order, flagged_eq, flagged_order,
}
use griffr.Archive.Ranges.{
  Span, CachedVolumeRange, partition_point, insert_at, retain, span_leb, cached_eq,
  insert_cached_range,
}
use griffr.Archive.Ranges.Sorted.{is_cached, insert_cached_range-IsSorted}
use griffr.Archive.Ranges.Cover.{range_covered_iff}
use griffr.Archive.Ranges.Missing.{AreProper}
use griffr.Archive.Layout.{
  VolumeLayout, MultiVolumeLayout, Disk, volume_size, has_length, whole, is_remote,
  volume_index_bounds,
}
use griffr.Archive.Availability.{
  count_up, volume_indices_for_range, exceeds, local_part, refreshed, refresh_volume, refresh_each,
  refresh_local_full_volumes, volume_has, range_is_available,
}
use griffr.Archive.Layout.Contiguous.{IsCacheOf, IsWellFormed}
use griffr.Archive.Layout.Bounds.{volume_index_bounds_iff, VolumeOf, volume_of, IsHeld}

placed-AreProper :
    (a : CachedVolumeRange) (n : ℕ) (cs : List CachedVolumeRange)
    → a.range.start ≤ a.range.end
    → AreProper cs
    → AreProper (insert_at cs n a)
unfolding insert_at
placed-AreProper a zero cs h k = (h, k)
placed-AreProper a (suc n) [] h k = (h, tt)
placed-AreProper a (suc n) (c ∷ cs) h k = (k.0, placed-AreProper a n cs h k.1)

-- A volume's cache stays in order and proper when a proper range is added.
pub insert_cached_range-IsCacheOf :
    (cached : List CachedVolumeRange) (a : CachedVolumeRange)
    → a.range.start ≤ a.range.end
    → IsCacheOf cached
    → IsCacheOf (insert_cached_range cached a)
unfolding insert_cached_range
insert_cached_range-IsCacheOf cached a h c = record {
  sorted = insert_cached_range-IsSorted cached a c.sorted;
  proper = elim (Bool-cases (any (λ existing. cached_eq existing a) cached)) [
    | inl e ↦ rw e c.proper
    | inr e ↦ rw e (
        placed-AreProper a (partition_point (λ existing. span_leb existing.range a.range) cached)
          cached h c.proper)
  ];
}

all-retain :
    (p q : CachedVolumeRange → Bool) (cs : List CachedVolumeRange)
    → all q cs ≡ true
    → all q (retain p cs) ≡ true
unfolding retain
all-retain p q [] h = refl
all-retain p q (c ∷ cs) h = ground (arith, h, all-retain p q cs)

-- So it does when some of its ranges are dropped.
pub retain-IsCacheOf :
    (p : CachedVolumeRange → Bool) (cs : List CachedVolumeRange)
    → IsCacheOf cs
    → IsCacheOf (retain p cs)
unfolding retain
retain-IsCacheOf p [] h = h
retain-IsCacheOf p (c ∷ cs) h =
    let rest = retain-IsCacheOf p cs (record { sorted = h.sorted.1; proper = h.proper.1 }) in
    elim (Bool-cases (p c)) [
      | inl e ↦ rw e (record {
        sorted = (all-retain p (λ d. span_leb c.range d.range) cs h.sorted.0, rest.sorted);
        proper = (h.proper.0, rest.proper);
      })
      | inr e ↦ rw e rest
    ]

refreshed-IsCacheOf :
    (disk : Disk) (layout : VolumeLayout) (cached : List CachedVolumeRange)
    → IsCacheOf cached
    → IsCacheOf (refreshed disk layout cached)
refreshed-IsCacheOf disk layout cached h =
    elim (Bool-cases (has_length disk layout.path (volume_size layout))) [
      | inl e ↦ rw e (
          insert_cached_range-IsCacheOf cached (whole (volume_size layout) layout.path)
            (omega arith) h)
      | inr e ↦ rw e (retain-IsCacheOf _ cached h)
    ]

-- What `refresh_local_full_volumes` keeps of the ranges.
pub record AreCaches (n : ℕ) (ranges : List (List CachedVolumeRange)) : Type 0 where
  pub count : length ranges ≡ n
  pub caches : All IsCacheOf ranges

refresh_volume-AreCaches :
    (disk : Disk) (layouts : List VolumeLayout) (ranges : List (List CachedVolumeRange))
    (index n : ℕ)
    → AreCaches n ranges
    → AreCaches n (refresh_volume disk layouts ranges index)
refresh_volume-AreCaches disk layouts ranges index n h =
    elim (Option-cases (get_elem? layouts index)) [
      | inl e ↦ rw (e, refresh_volume) h
      | inr (layout, e) ↦ elim (Option-cases (get_elem? ranges index)) [
        | inl f ↦ rw (e, f, refresh_volume) h
        | inr (cached, f) ↦
            rw (e, f, refresh_volume)
              (record {
                count = length-set ranges index (refreshed disk layout cached) ∙ h.count;
                caches = All-set IsCacheOf ranges index (refreshed disk layout cached) h.caches (
                    refreshed-IsCacheOf disk layout cached
                      (All-get IsCacheOf ranges index cached h.caches f));
              })
      ]
    ]

refresh_each-AreCaches :
    (disk : Disk) (layouts : List VolumeLayout) (indices : List ℕ)
    (ranges : List (List CachedVolumeRange)) (n : ℕ)
    → AreCaches n ranges
    → AreCaches n (refresh_each disk layouts ranges indices)
unfolding refresh_each
refresh_each-AreCaches disk layouts [] ranges n h = h
refresh_each-AreCaches disk layouts (index ∷ rest) ranges n h =
    refresh_each-AreCaches disk layouts rest (refresh_volume disk layouts ranges index) n
      (refresh_volume-AreCaches disk layouts ranges index n h)

-- Looking at the disk anew keeps a layout well formed, local or remote.
pub refresh_local_full_volumes-IsWellFormed :
    (disk : Disk) (l : MultiVolumeLayout) (indices : List ℕ)
    → IsWellFormed l
    → IsWellFormed (refresh_local_full_volumes disk l indices)
unfolding refresh_local_full_volumes
refresh_local_full_volumes-IsWellFormed disk l indices w =
    let h =
      refresh_each-AreCaches disk l.layouts indices l.ranges (length l.layouts)
        (record { count = w.same_count; caches = w.caches }) in
    elim (Bool-cases (is_remote l)) [
      | inl e ↦ rw e w
      | inr e ↦ rw e (record {
        contiguous = w.contiguous;
        same_count = h.count;
        caches = h.caches;
        fits = w.fits;
      })
    ]

refresh-layouts :
    (disk : Disk) (l : MultiVolumeLayout) (indices : List ℕ)
    → ((refresh_local_full_volumes disk l indices).layouts ≡ l.layouts)
      × ((refresh_local_full_volumes disk l indices).total_size ≡ l.total_size)
unfolding refresh_local_full_volumes
refresh-layouts disk l indices = ground arith

-- What holds of a run of indices holds of each of them.
all-count_up :
    (p : ℕ → Bool) (start n index : ℕ)
    → all p (count_up start n) ≡ true
    → start ≤ index
    → index < start + n
    → p index ≡ true
all-count_up p start zero index h lo hi = absurd (omega arith)
all-count_up p start (suc n) index h lo hi = elim (Bool-cases (nat_beq index start)) [
  | inl e ↦ let same : start ≡ index = ground (arith, e) in rw (← same) (ground (arith, h))
  | inr e ↦ all-count_up p (suc start) n index (ground (arith, h)) (ground (arith, e)) (omega arith)
]

-- One volume that has its part of the range holds each byte of it.
volume_has-held :
    (l : MultiVolumeLayout) (range : Span) (byte : ℕ) (v : VolumeOf l.layouts byte)
    → IsWellFormed l
    → range.start ≤ byte
    → byte < range.end
    → volume_has l range v.index ≡ true
    → (cached : List CachedVolumeRange) × (get_elem? l.ranges v.index ≡ some cached)
      × (is_cached (byte - v.layout.start) cached ≡ true)
volume_has-held l range byte v w lo hi h = elim (Option-cases (get_elem? l.ranges v.index)) [
  | inl e ↦ absurd (cc (rw (v.at, e, volume_has) at h))
  | inr (cached, e) ↦
      let covered =
        range_covered_iff cached (local_part v.layout range)
          (All-get IsCacheOf l.ranges v.index cached w.caches e).sorted in
      (
        cached,
        e,
        covered.0 (rw (v.at, e, volume_has) at h) (byte - v.layout.start) (omega (arith, v.from))
            (omega (arith, v.from, v.to)),
      )
]

-- In a well-formed layout every byte of a range that range_is_available grants lies in a volume,
-- and in a cached range of that volume.
pub range_is_available-IsHeld :
    (disk : Disk) (l : MultiVolumeLayout) (range : Span) (byte : ℕ)
    → IsWellFormed l
    → (range_is_available disk l range).1 ≡ true
    → range.start ≤ byte
    → byte < range.end
    → IsHeld (range_is_available disk l range).0 byte
unfolding range_is_available volume_indices_for_range
range_is_available-IsHeld disk l range byte w h lo hi =
    let indices = volume_indices_for_range l range in
    let fresh = refresh_local_full_volumes disk l indices in
    let fine = refresh_local_full_volumes-IsWellFormed disk l indices w in
    let same = refresh-layouts disk l indices in
    let inside : exceeds l range ≡ false = ground (arith, h) in
    let v =
      volume_of 0 fresh.total_size byte fresh.layouts fine.contiguous (omega arith)
        (ground (arith, inside, hi, same.1)) in
    let at : get_elem? l.layouts v.index ≡ some v.layout = rw same.0 at v.at in
    let bounds =
      (volume_index_bounds_iff l range v.index v.layout w.contiguous (omega arith) at).1
        (omega (arith, v.to), omega (arith, v.from)) in
    let every : all (volume_has fresh range) indices ≡ true = rw inside at h in
    let here =
      all-count_up (volume_has fresh range) (volume_index_bounds l range).0
        ((volume_index_bounds l range).1 - (volume_index_bounds l range).0) v.index every bounds.0
        (omega (arith, bounds.0, bounds.1)) in
    let (cached, e, held) = volume_has-held fresh range byte v fine lo hi here in
    rw inside (record { volume = v; cached = cached; at = e; held = held })

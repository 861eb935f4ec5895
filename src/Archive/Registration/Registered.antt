-- ===== src/Archive/Registration/Registered.antt =====
-- download/extractor/layout/volume.rs: the layout after a registration and after
-- `prune_range_cache`.
use griffr.Common.{
  ℕ, zero, suc, ◌+◌, ◌-◌, ◌≤◌, ◌≡◌, refl, ap, ◌∙◌, subst, inl, inr, Bool, true, false, ◌&&◌, none,
  some, List, [], ◌∷◌, arith, ltb, Bool-cases, Option-cases, nat_eq, get_elem?, set, any,
  length-set, get_elem?-set, All-set, All-get, Text, text_eq, word_max, wrapping_sub, nat_order,
  text_order, flagged_eq, flagged_order,
}
use griffr.Archive.Ranges.{Span, CachedVolumeRange, retain, insert_cached_range, range_covered}
use griffr.Archive.Ranges.Sorted.{within, is_cached, is_cached-insert_cached_range}
use griffr.Archive.Ranges.Cover.{range_covered_iff}
use griffr.Archive.Ranges.Missing.{is_missing}
use griffr.Archive.Layout.{VolumeLayout, MultiVolumeLayout, Result, ok, Disk, is_remote}
use griffr.Archive.Layout.Contiguous.{IsCacheOf, IsWellFormed}
use griffr.Archive.Availability.Held.{insert_cached_range-IsCacheOf}
use griffr.Archive.Requests.{ArchiveRangeRequest}
use griffr.Archive.Registration.{
  add_range, check_length, register_range, is_kept, prune_each, prune_range_cache,
}

-- The layout after a range was added: well formed, and the range is covered in its volume.
pub record HasRange (l : MultiVolumeLayout) (index : ℕ) (range : Span) : Type 0 where
  pub well_formed : IsWellFormed l
  pub cached : List CachedVolumeRange
  pub at : get_elem? l.ranges index ≡ some cached
  pub covered : range_covered cached range ≡ true

add_range-HasRange :
    (l l' : MultiVolumeLayout) (index : ℕ) (a : CachedVolumeRange)
    → IsWellFormed l
    → a.range.start ≤ a.range.end
    → add_range l index a ≡ ok l'
    → HasRange l' index a.range
add_range-HasRange l l' index a w le h = elim (Option-cases (get_elem? l.ranges index)) [
  | inl e ↦ absurd (ground (arith, rw (e, add_range) at h))
  | inr (volume, e) ↦
      let grown = insert_cached_range volume a in
      let was = All-get IsCacheOf l.ranges index volume w.caches e in
      let now = insert_cached_range-IsCacheOf volume a le was in
      let same : record l { ranges = set l.ranges index grown } ≡ l' =
        ok_injective _ l' (rw (e, add_range) at h) in
      subst (λ m. HasRange m index a.range) same
        (record {
          well_formed = record {
            contiguous = w.contiguous;
            same_count = length-set l.ranges index grown ∙ w.same_count;
            caches = All-set IsCacheOf l.ranges index grown w.caches now;
            fits = w.fits;
          };
          cached = grown;
          at = get_elem?-set l.ranges index grown volume e;
          covered =
              (range_covered_iff grown a.range now.sorted).1
                (λ byte lo hi. ground (arith, lo, hi, is_cached-insert_cached_range byte volume a));
        })
]
  where
    ok_injective :
        (x y : MultiVolumeLayout) → ◌≡◌ {A = Result MultiVolumeLayout} (ok x) (ok y) → x ≡ y
    ok_injective x y k = ground (arith, k)

checked :
    (disk : Disk) (path : Text) (size : ℕ)
    → check_length disk path size ≡ none
    → disk.metadata_len path ≡ some size
checked disk path size e = ground (arith, e)

-- A range that starts no later than it ends, within a word, and that register_range accepts into a
-- well-formed layout has its length on the disk; the layout stays well formed, and the range is
-- then covered in its volume.
pub register_range-HasRange :
    (disk : Disk) (l l' : MultiVolumeLayout) (request : ArchiveRangeRequest)
    → IsWellFormed l
    → request.local_range.start ≤ request.local_range.end
    → request.local_range.end ≤ word_max
    → register_range disk l request ≡ ok l'
    → (disk.metadata_len request.cache_path
        ≡ some (request.local_range.end - request.local_range.start))
      × HasRange l' request.volume_index request.local_range
unfolding register_range
register_range-HasRange disk l l' request w le fits h =
    let size = wrapping_sub request.local_range.end request.local_range.start in
    elim (Option-cases (check_length disk request.cache_path size)) [
      | inr (error, e) ↦ absurd (ground (arith, rw (e, register_range) at h))
      | inl e ↦ (
        checked disk request.cache_path size e ∙ ap some (omega (arith, le, fits)),
        add_range-HasRange l l' request.volume_index
            (record { range = request.local_range; path = request.cache_path }) w le
            (rw (e, register_range) at h),
      )
    ]

-- The test of `prune_range_cache`: the range of the stream meets the cached range.
abbrev meets : VolumeLayout → CachedVolumeRange → Span → Bool
meets layout c range =
    ltb range.start (layout.start + c.range.end) && ltb (layout.start + c.range.start) range.end

dropped-meets :
    (disk : Disk) (layout : VolumeLayout) (still_needed : List Span) (c : CachedVolumeRange)
    → is_kept disk layout still_needed c ≡ false
    → any (meets layout c) still_needed ≡ false
dropped-meets disk layout still_needed c e = ground (arith, e)

needed-meets :
    (layout : VolumeLayout) (byte : ℕ) (c : CachedVolumeRange) (spans : List Span)
    → is_missing (layout.start + byte) spans ≡ true
    → within byte c.range ≡ true
    → any (meets layout c) spans ≡ true
needed-meets layout byte c [] n i = cc
needed-meets layout byte c (s ∷ ss) n i = ground (arith, n, i, needed-meets layout byte c ss)

retain-keeps :
    (disk : Disk) (layout : VolumeLayout) (still_needed : List Span) (byte : ℕ)
    (cached : List CachedVolumeRange)
    → is_missing (layout.start + byte) still_needed ≡ true
    → is_cached byte (retain (is_kept disk layout still_needed) cached) ≡ is_cached byte cached
unfolding retain
retain-keeps disk layout still_needed byte [] need = refl
retain-keeps disk layout still_needed byte (c ∷ cs) need =
    let later = retain-keeps disk layout still_needed byte cs need in
    elim (Bool-cases (is_kept disk layout still_needed c)) [
      | inl e ↦ rw (e, later) refl
      | inr e ↦ elim (Bool-cases (within byte c.range)) [
        | inl inside ↦ absurd (
            cc (
              dropped-meets disk layout still_needed c e,
              needed-meets layout byte c still_needed need inside,
            ))
        | inr outside ↦ rw (e, outside) later
      ]
    ]

prune_each-at :
    (disk : Disk) (still_needed : List Span) (layouts : List VolumeLayout)
    (ranges : List (List CachedVolumeRange)) (index : ℕ) (layout : VolumeLayout)
    (cached : List CachedVolumeRange)
    → get_elem? layouts index ≡ some layout
    → get_elem? ranges index ≡ some cached
    → get_elem? (prune_each disk still_needed layouts ranges) index
      ≡ some (retain (is_kept disk layout still_needed) cached)
unfolding prune_each
prune_each-at disk still_needed [] ranges index layout cached h k = cc
prune_each-at disk still_needed (l ∷ ls) [] index layout cached h k = cc
prune_each-at disk still_needed (l ∷ ls) (r ∷ rs) zero layout cached h k =
    let same_layout : l ≡ layout = ground (arith, h) in
    let same_cached : r ≡ cached = ground (arith, k) in rw (same_layout, same_cached) refl
prune_each-at disk still_needed (l ∷ ls) (r ∷ rs) (suc index) layout cached h k =
    prune_each-at disk still_needed ls rs index layout cached h k

-- Prune_range_cache drops no cached byte that lies in a range still needed, whatever the disk
-- answers to the removal of files.
pub prune_range_cache-keeps :
    (disk : Disk) (l : MultiVolumeLayout) (still_needed : List Span) (index byte : ℕ)
    (layout : VolumeLayout) (cached : List CachedVolumeRange)
    → get_elem? l.layouts index ≡ some layout
    → get_elem? l.ranges index ≡ some cached
    → is_missing (layout.start + byte) still_needed ≡ true
    → (kept : List CachedVolumeRange) × (get_elem?
          (prune_range_cache disk l still_needed).ranges
          index
        ≡ some kept)
      × (is_cached byte kept ≡ is_cached byte cached)
unfolding prune_range_cache
prune_range_cache-keeps disk l still_needed index byte layout cached at here need =
    elim (Bool-cases (is_remote l)) [
      | inr e ↦ (cached, rw e here, refl)
      | inl e ↦ (
        retain (is_kept disk layout still_needed) cached,
        rw e (prune_each-at disk still_needed l.layouts l.ranges index layout cached at here),
        retain-keeps disk layout still_needed byte cached need,
      )
    ]

-- ===== src/Archive/Requests/Fetched.antt =====
-- download/extractor/layout/volume.rs: one round of `missing_range_requests` against the bytes of
-- its volume.
use griffr.Common.{
  ℕ, ◌≤◌, max, ◌≡◌, refl, ◌∙◌, inl, inr, Bool, true, ◌&&◌, ◌||◌, not, Option, none, some, List, [],
  ◌∷◌, map, arith, leb, Bool-cases, Option-cases, nat_eq, any, all, any-append, Text, text_eq,
  text_order, flagged_eq, flagged_order,
}
use griffr.Archive.Ranges.{Span, CachedVolumeRange, range_covered, subtract_cached}
use griffr.Archive.Ranges.Sorted.{IsSorted, within, is_cached}
use griffr.Archive.Ranges.Cover.{range_covered_iff}
use griffr.Archive.Ranges.Missing.{is_missing, subtract_cached_lem}
use griffr.Archive.Layout.{VolumeLayout, ok}
use griffr.Archive.Requests.{
  ArchiveRangeRequest, insert_by_start, sort_by_start, merge_into, merge_spans, check_local,
  request_for, missing_of, requests_for, volume_requests,
}

abbrev pub StartsAscend : List Span → Type 0
StartsAscend [] = Unit
StartsAscend (s ∷ ss) = (all (λ t. leb s.start t.start) ss ≡ true) × StartsAscend ss

all-insert_by_start :
    (p : Span → Bool) (s : Span) (ts : List Span) → all p (insert_by_start s ts) ≡ (p s && all p ts)
unfolding insert_by_start
all-insert_by_start p s [] = refl
all-insert_by_start p s (t ∷ ts) = ground (arith, all-insert_by_start p s ts)

any-insert_by_start :
    (p : Span → Bool) (s : Span) (ts : List Span) → any p (insert_by_start s ts) ≡ (p s || any p ts)
unfolding insert_by_start
any-insert_by_start p s [] = refl
any-insert_by_start p s (t ∷ ts) = ground (arith, any-insert_by_start p s ts)

starts_later :
    (m n : ℕ) (ts : List Span)
    → m ≤ n
    → all (λ u. leb n u.start) ts ≡ true
    → all (λ u. leb m u.start) ts ≡ true
starts_later m n [] h k = refl
starts_later m n (u ∷ ts) h k = ground (arith, starts_later m n ts h)

insert_by_start-StartsAscend :
    (s : Span) (ts : List Span) → StartsAscend ts → StartsAscend (insert_by_start s ts)
unfolding insert_by_start
insert_by_start-StartsAscend s [] h = (refl, tt)
insert_by_start-StartsAscend s (t ∷ ts) h = elim (Bool-cases (leb s.start t.start)) [
  | inl e ↦
      let le : s.start ≤ t.start = ground (arith, e) in
      let later = starts_later s.start t.start ts le h.0 in rw e (ground (arith, later, e), h)
  | inr e ↦ rw e (
    ground (arith, all-insert_by_start (λ u. leb t.start u.start) s ts, e, h.0),
    insert_by_start-StartsAscend s ts h.1,
  )
]

sort_by_start-StartsAscend : (ss : List Span) → StartsAscend (sort_by_start ss)
unfolding sort_by_start
sort_by_start-StartsAscend [] = tt
sort_by_start-StartsAscend (s ∷ ss) =
    insert_by_start-StartsAscend s (sort_by_start ss) (sort_by_start-StartsAscend ss)

is_missing-sort_by_start :
    (byte : ℕ) (ss : List Span) → is_missing byte (sort_by_start ss) ≡ is_missing byte ss
unfolding sort_by_start
is_missing-sort_by_start byte [] = refl
is_missing-sort_by_start byte (s ∷ ss) = ground (
  arith,
  any-insert_by_start (within byte) s (sort_by_start ss),
  is_missing-sort_by_start byte ss,
)

is_missing-merge_into :
    (byte : ℕ) (last : Span) (ss : List Span)
    → all (λ t. leb last.start t.start) ss ≡ true
    → StartsAscend ss
    → is_missing byte (merge_into last ss) ≡ (within byte last || is_missing byte ss)
unfolding merge_into
is_missing-merge_into byte last [] h k = refl
is_missing-merge_into byte last (s ∷ ss) h k = elim (Bool-cases (leb s.start last.end)) [
  | inl e ↦
      rw
        (
          e,
          is_missing-merge_into byte (record { start = last.start; end = max last.end s.end }) ss
              (ground (arith, h)) k.1,
        )
        (ground (arith, e, h))
  | inr e ↦ rw (e, is_missing-merge_into byte s ss k.0 k.1) refl
]

is_missing-merge_spans :
    (byte : ℕ) (ss : List Span)
    → StartsAscend ss
    → is_missing byte (merge_spans ss) ≡ is_missing byte ss
unfolding merge_spans
is_missing-merge_spans byte [] h = refl
is_missing-merge_spans byte (s ∷ ss) h = is_missing-merge_into byte s ss h.0 h.1

-- Sorting and merging keep the bytes that are requested.
pub merged_bytes :
    (byte : ℕ) (requested : List Span)
    → is_missing byte (merge_spans (sort_by_start requested)) ≡ is_missing byte requested
merged_bytes byte requested =
    is_missing-merge_spans byte (sort_by_start requested) (sort_by_start-StartsAscend requested)
    ∙ is_missing-sort_by_start byte requested

is_missing-missing_of :
    (byte : ℕ) (cached : List CachedVolumeRange) (spans : List Span)
    → IsSorted cached
    → is_missing byte (missing_of cached spans)
      ≡ (is_missing byte spans && not (is_cached byte cached))
unfolding missing_of
is_missing-missing_of byte cached [] h = refl
is_missing-missing_of byte cached (s ∷ ss) h = ground (
  arith,
  any-append (within byte) (subtract_cached s cached) (missing_of cached ss),
  subtract_cached_lem s cached byte h,
  is_missing-missing_of byte cached ss h,
)

-- The bytes of a volume that the requests fetch.
abbrev pub is_fetched : ℕ → List ArchiveRangeRequest → Bool
is_fetched byte requests = any (λ r. within byte r.local_range) requests

is_fetched-requests :
    (dir url : Text) (index byte : ℕ) (layout : VolumeLayout) (ms : List Span)
    → is_fetched byte (map (request_for dir url index layout) ms) ≡ is_missing byte ms
is_fetched-requests dir url index byte layout [] = refl
is_fetched-requests dir url index byte layout (m ∷ ms) =
    ground (arith, is_fetched-requests dir url index byte layout ms)

requests_for-ok :
    (dir url : Text) (index : ℕ) (layout : VolumeLayout) (ms : List Span)
    → requests_for (some dir) url index layout ms ≡ ok (map (request_for dir url index layout) ms)
requests_for-ok dir url index layout [] = refl
requests_for-ok dir url index layout (m ∷ ms) = refl

-- For a remote volume whose cached ranges are in order, the round of missing_range_requests
-- succeeds, and a byte of the volume is fetched just when it is requested and no cached range
-- holds it, however the requests overlap.
pub volume_requests-remote :
    (dir url : Text) (index : ℕ) (layout : VolumeLayout) (cached : List CachedVolumeRange)
    (requested : List Span)
    → layout.url ≡ some url
    → IsSorted cached
    → (requests : List ArchiveRangeRequest) × (volume_requests
          (some dir)
          index
          layout
          cached
          requested
        ≡ ok requests)
      × ((byte : ℕ)
          → is_fetched byte requests ≡ (is_missing byte requested && not (is_cached byte cached)))
unfolding volume_requests
volume_requests-remote dir url index layout cached requested remote sorted =
    let merged = merge_spans (sort_by_start requested) in
    let missing = missing_of cached merged in
    (
      map (request_for dir url index layout) missing,
      rw (remote, volume_requests) (requests_for-ok dir url index layout missing),
      λ byte.
          rw
            (
              is_fetched-requests dir url index byte layout missing,
              is_missing-missing_of byte cached merged sorted,
              merged_bytes byte requested,
            )
            refl,
    )

check_local-covered :
    (layout : VolumeLayout) (cached : List CachedVolumeRange) (spans : List Span) (byte : ℕ)
    → IsSorted cached
    → check_local layout cached spans ≡ none
    → is_missing byte spans ≡ true
    → is_cached byte cached ≡ true
unfolding check_local
check_local-covered layout cached [] byte sorted h k = cc
check_local-covered layout cached (s ∷ ss) byte sorted h k =
    elim (Bool-cases (range_covered cached s)) [
      | inr e ↦ absurd (cc (rw e at h))
      | inl e ↦ elim (Bool-cases (within byte s)) [
        | inl inside ↦
            (range_covered_iff cached s sorted).0 e byte (ground (arith, inside))
              (ground (arith, inside))
        | inr outside ↦
            check_local-covered layout cached ss byte sorted (rw e at h) (rw outside at k)
      ]
    ]

-- If the round of missing_range_requests succeeds for a volume without an address, whose cached
-- ranges are in order, it fetches nothing and every byte that is requested is cached.
pub volume_requests-local :
    (cache_dir : Option Text) (index : ℕ) (layout : VolumeLayout) (cached : List CachedVolumeRange)
    (requested : List Span) (requests : List ArchiveRangeRequest)
    → layout.url ≡ none
    → IsSorted cached
    → volume_requests cache_dir index layout cached requested ≡ ok requests
    → (requests ≡ [])
      × ((byte : ℕ) → is_missing byte requested ≡ true → is_cached byte cached ≡ true)
unfolding volume_requests
volume_requests-local cache_dir index layout cached requested requests here sorted h =
    let merged = merge_spans (sort_by_start requested) in
    elim (Option-cases (check_local layout cached merged)) [
      | inr (error, e) ↦ absurd (ground (arith, rw (here, e, volume_requests) at h))
      | inl e ↦ (
        ground (arith, rw (here, e, volume_requests) at h),
        λ byte k.
            check_local-covered layout cached merged byte sorted e
              (merged_bytes byte requested ∙ k),
      )
    ]

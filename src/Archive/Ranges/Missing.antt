-- ===== src/Archive/Ranges/Missing.antt =====
-- download/extractor/layout/volume.rs: `subtract_cached` and `missing_bytes_in_range` against the
-- bytes of a request.
use griffr.Common.{
  ℕ, ◌+◌, ◌-◌, ◌≤◌, ◌<◌, min, max, ◌≡◌, inl, inr, Bool, ◌&&◌, ◌||◌, not, List, [], ◌∷◌, ◌++◌, arith,
  ltb, leb, if◌then◌else◌, Bool-cases, nat_eq, any, total, total-append, any-append, text_eq,
  word_max, saturating_add, text_order, flagged_eq, flagged_order,
}
use griffr.Archive.Ranges.{
  Span, CachedVolumeRange, gap, subtract_from, subtract_cached, missing_from,
  missing_bytes_in_range,
}
use griffr.Archive.Ranges.Sorted.{IsSorted, within, is_cached, before_all}

abbrev pub is_missing : ℕ → List Span → Bool
is_missing byte spans = any (within byte) spans

subtract_from_lem :
    (cursor stop byte : ℕ) (cs : List CachedVolumeRange)
    → IsSorted cs
    → is_missing byte (subtract_from cursor stop cs)
      ≡ (leb cursor byte && ltb byte stop && not (is_cached byte cs))
unfolding subtract_from
subtract_from_lem cursor stop byte [] sorted = ground arith
subtract_from_lem cursor stop byte (c ∷ cs) sorted =
    elim (Bool-cases (leb c.range.end cursor || leb stop c.range.start)) [
      | inl skip ↦ rw (skip, subtract_from_lem cursor stop byte cs sorted.1) (ground (arith, skip))
      | inr go ↦ elim (Bool-cases (leb stop (max cursor c.range.end))) [
        | inl done ↦
            rw (go, done, any-append (within byte) (gap cursor stop c.range.start) [])
              (ground (arith, go, done, before_all byte c cs sorted))
        | inr more ↦
            rw
              (
                go,
                more,
                any-append (within byte) (gap cursor stop c.range.start)
                    (subtract_from (max cursor c.range.end) stop cs),
                subtract_from_lem (max cursor c.range.end) stop byte cs sorted.1,
              )
              (ground (arith, go, more, before_all byte c cs sorted))
      ]
    ]

-- A byte lies in a range of subtract_cached just when it is requested and no cached range holds
-- it, the cached ranges in order.
pub subtract_cached_lem :
    (requested : Span) (cached : List CachedVolumeRange) (byte : ℕ)
    → IsSorted cached
    → is_missing byte (subtract_cached requested cached)
      ≡ (within byte requested && not (is_cached byte cached))
unfolding subtract_cached
subtract_cached_lem requested cached byte sorted =
    ground (arith, subtract_from_lem requested.start requested.end byte cached sorted)

-- Ranges that follow one another between two bounds, none of them empty.
abbrev pub AreApart : (lo hi : ℕ) → List Span → Type 0
AreApart lo hi [] = Unit
AreApart lo hi (s ∷ rest) =
    (lo ≤ s.start) × (s.start < s.end) × (s.end ≤ hi) × AreApart s.end hi rest

AreApart-from :
    (lo lo' hi : ℕ) (spans : List Span) → lo ≤ lo' → AreApart lo' hi spans → AreApart lo hi spans
AreApart-from lo lo' hi [] le h = tt
AreApart-from lo lo' hi (s ∷ rest) le h = (omega (arith, h.0), h.1, h.2, h.3)

-- No cached range ends before it starts.
abbrev pub AreProper : List CachedVolumeRange → Type 0
AreProper [] = Unit
AreProper (c ∷ cs) = (c.range.start ≤ c.range.end) × AreProper cs

AreApart-gap :
    (cursor stop start hi : ℕ) (rest : List Span)
    → cursor ≤ hi
    → start ≤ hi
    → start < stop
    → AreApart hi stop rest
    → AreApart cursor stop (gap cursor stop start ++ rest)
AreApart-gap cursor stop start hi rest le at lt h = elim (Bool-cases (ltb cursor start)) [
  | inl e ↦ rw e (
    omega arith,
    ground (arith, e),
    omega arith,
    AreApart-from (min start stop) hi stop rest (omega arith) h,
  )
  | inr e ↦ rw e (AreApart-from cursor hi stop rest le h)
]

subtract_from-AreApart :
    (cursor stop : ℕ) (cs : List CachedVolumeRange)
    → AreProper cs
    → AreApart cursor stop (subtract_from cursor stop cs)
unfolding subtract_from
subtract_from-AreApart cursor stop [] proper = elim (Bool-cases (ltb cursor stop)) [
  | inl e ↦ rw e (omega arith, ground (arith, e), omega arith, tt)
  | inr e ↦ rw e tt
]
subtract_from-AreApart cursor stop (c ∷ cs) proper =
    let next = max cursor c.range.end in
    elim (Bool-cases (leb c.range.end cursor || leb stop c.range.start)) [
      | inl skip ↦ rw skip (subtract_from-AreApart cursor stop cs proper.1)
      | inr go ↦ elim (Bool-cases (leb stop next)) [
        | inl done ↦
            rw (go, done)
              (AreApart-gap cursor stop c.range.start next [] (omega arith)
                (omega (arith, proper.0)) (ground (arith, go)) tt)
        | inr more ↦
            rw (go, more)
              (AreApart-gap cursor stop c.range.start next (subtract_from next stop cs)
                (omega arith) (omega (arith, proper.0)) (ground (arith, go))
                (subtract_from-AreApart next stop cs proper.1))
      ]
    ]

-- The ranges of subtract_cached lie in the request, are not empty, ascend and do not overlap, if
-- no cached range ends before it starts.
pub subtract_cached-AreApart :
    (requested : Span) (cached : List CachedVolumeRange)
    → AreProper cached
    → AreApart requested.start requested.end (subtract_cached requested cached)
unfolding subtract_cached
subtract_cached-AreApart requested cached proper =
    subtract_from-AreApart requested.start requested.end cached proper

abbrev pub bytes_of_spans : List Span → ℕ
bytes_of_spans spans = total (λ s. s.end - s.start) spans

missing_from_lem :
    (cursor stop missing : ℕ) (cs : List CachedVolumeRange)
    → AreProper cs
    → missing + (stop - cursor) ≤ word_max
    → missing_from cursor stop missing cs ≡ missing + bytes_of_spans (subtract_from cursor stop cs)
unfolding missing_from subtract_from
missing_from_lem cursor stop missing [] proper h = ground arith
missing_from_lem cursor stop missing (c ∷ cs) proper h =
    let start = c.range.start in
    let next = max cursor c.range.end in
    let size = λ (s : Span). s.end - s.start in
    elim (Bool-cases (leb c.range.end cursor || leb stop start)) [
      | inl skip ↦ rw skip (missing_from_lem cursor stop missing cs proper.1 h)
      | inr go ↦ elim (Bool-cases (leb stop next)) [
        | inl done ↦
            rw (go, done, total-append size (gap cursor stop start) [])
              (ground (arith, h, go, done))
        | inr more ↦
            let grown =
              if ltb cursor start
              then saturating_add missing (min start stop - cursor)
              else missing in
            rw
              (
                go,
                more,
                total-append size (gap cursor stop start) (subtract_from next stop cs),
                missing_from_lem next stop grown cs proper.1
                    (ground (arith, h, go, more, proper.0)),
              )
              (ground (arith, h, go, more, proper.0))
      ]
    ]

-- Missing_bytes_in_range is the number of bytes that subtract_cached asks for, for a request that
-- ends within a word and cached ranges that do not end before they start.
pub missing_bytes_in_range_lem :
    (requested : Span) (cached : List CachedVolumeRange)
    → AreProper cached
    → requested.end ≤ word_max
    → missing_bytes_in_range requested cached ≡ bytes_of_spans (subtract_cached requested cached)
unfolding missing_bytes_in_range subtract_cached
missing_bytes_in_range_lem requested cached proper h =
    omega (arith, missing_from_lem requested.start requested.end 0 cached proper (omega arith))

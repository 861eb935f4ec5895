-- ===== src/Archive/Ranges/Cover.antt =====
-- download/extractor/layout/volume.rs: `range_covered` against the bytes of a range.
use griffr.Common.{
  ℕ, ◌≤◌, ◌<◌, max, ◌≡◌, refl, ◌↔◌, inl, inr, true, false, List, [], ◌∷◌, arith, ltb, leb,
  Bool-cases, nat_eq, text_eq, text_order, flagged_eq, flagged_order,
}
use griffr.Archive.Ranges.{Span, CachedVolumeRange, covered_from, range_covered}
use griffr.Archive.Ranges.Sorted.{IsSorted, is_cached, before_all}

-- A byte from the cursor on that no range holds.
abbrev Uncovered : (cursor stop : ℕ) → List CachedVolumeRange → Type 0
Uncovered cursor stop cs =
    (byte : ℕ) × (cursor ≤ byte) × (byte < stop) × (is_cached byte cs ≡ false)

covered_from_sound :
    (cursor stop byte : ℕ) (cs : List CachedVolumeRange)
    → covered_from cursor stop cs ≡ true
    → cursor ≤ byte
    → byte < stop
    → is_cached byte cs ≡ true
unfolding covered_from
covered_from_sound cursor stop byte [] h lo hi = cc
covered_from_sound cursor stop byte (c ∷ cs) h lo hi = ground (
  arith,
  covered_from_sound cursor stop byte cs,
  covered_from_sound (max cursor c.range.end) stop byte cs,
)

covered_from_complete :
    (cursor stop : ℕ) (cs : List CachedVolumeRange)
    → IsSorted cs
    → cursor < stop
    → covered_from cursor stop cs ≡ false
    → Uncovered cursor stop cs
unfolding covered_from
covered_from_complete cursor stop [] sorted lt h = (cursor, omega arith, lt, refl)
covered_from_complete cursor stop (c ∷ cs) sorted lt h =
    elim (Bool-cases (leb c.range.end cursor)) [
      | inl past ↦
          let (byte, lo, hi, free) =
            covered_from_complete cursor stop cs sorted.1 lt (rw past at h) in
          (byte, lo, hi, ground (arith, past, lo, free))
      | inr e ↦ elim (Bool-cases (ltb cursor c.range.start)) [
        | inl hole ↦ (cursor, omega arith, lt, before_all cursor c cs sorted (ground (arith, hole)))
        | inr f ↦ elim (Bool-cases (leb stop (max cursor c.range.end))) [
          | inl done ↦ absurd (cc (rw (e, f, done) at h))
          | inr g ↦
              let (byte, lo, hi, free) =
                covered_from_complete (max cursor c.range.end) stop cs sorted.1 (ground (arith, g))
                  (rw (e, f, g) at h) in
              (byte, omega (arith, lo), hi, ground (arith, lo, free))
        ]
      ]
    ]

-- A range is covered just when every byte of it lies in a cached range, the cached ranges in
-- order.
pub range_covered_iff :
    (ranges : List CachedVolumeRange) (requested : Span)
    → IsSorted ranges
    → (range_covered ranges requested ≡ true)
      ↔ ((byte : ℕ) → requested.start ≤ byte → byte < requested.end → is_cached byte ranges ≡ true)
unfolding range_covered
range_covered_iff ranges requested sorted = (
  λ h byte lo hi.
      ground (arith, h, lo, hi, covered_from_sound requested.start requested.end byte ranges),
  λ h. elim (Bool-cases (range_covered ranges requested)) [
    | inl e ↦ e
    | inr e ↦
        let (byte, lo, hi, free) =
          covered_from_complete requested.start requested.end ranges sorted (ground (arith, e))
            (ground (arith, e)) in
        absurd (cc (h byte lo hi, free))
  ],
)

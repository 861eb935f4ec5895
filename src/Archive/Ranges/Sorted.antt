-- ===== src/Archive/Ranges/Sorted.antt =====
-- download/extractor/layout/volume.rs: the order of the cached ranges under `insert_cached_range`.
use griffr.Common.{
  ℕ, ◌<◌, ◌≡◌, refl, inl, inr, Bool, true, false, ◌&&◌, ◌||◌, List, [], ◌∷◌, arith, ltb, leb,
  Bool-cases, nat_eq, any, all, text_eq, text_order, flagged_eq, flagged_order,
}
use griffr.Archive.Ranges.{
  Span, CachedVolumeRange, partition_point, insert_at, span_leb, cached_eq, insert_cached_range,
}

-- The cached ranges ascend by start and then by end.
abbrev pub IsSorted : List CachedVolumeRange → Type 0
IsSorted [] = Unit
IsSorted (c ∷ cs) = (all (λ d. span_leb c.range d.range) cs ≡ true) × IsSorted cs

-- The byte lies in the range.
abbrev pub within : ℕ → Span → Bool
within byte span = leb span.start byte && ltb byte span.end

abbrev pub is_cached : ℕ → List CachedVolumeRange → Bool
is_cached byte cached = any (λ c. within byte c.range) cached

abbrev placed : CachedVolumeRange → List CachedVolumeRange → List CachedVolumeRange
placed a cs = insert_at cs (partition_point (λ c. span_leb c.range a.range) cs) a

all-placed :
    (p : CachedVolumeRange → Bool) (a : CachedVolumeRange) (cs : List CachedVolumeRange)
    → all p (placed a cs) ≡ (p a && all p cs)
unfolding partition_point insert_at
all-placed p a [] = refl
all-placed p a (c ∷ cs) = ground (arith, all-placed p a cs)

any-placed :
    (p : CachedVolumeRange → Bool) (a : CachedVolumeRange) (cs : List CachedVolumeRange)
    → any p (placed a cs) ≡ (p a || any p cs)
unfolding partition_point insert_at
any-placed p a [] = refl
any-placed p a (c ∷ cs) = ground (arith, any-placed p a cs)

-- What comes after a later range comes after an earlier one.
all-later :
    (a c : CachedVolumeRange) (cs : List CachedVolumeRange)
    → span_leb a.range c.range ≡ true
    → all (λ d. span_leb c.range d.range) cs ≡ true
    → all (λ d. span_leb a.range d.range) cs ≡ true
all-later a c [] h k = refl
all-later a c (d ∷ cs) h k = ground (arith, all-later a c cs h)

placed-IsSorted :
    (a : CachedVolumeRange) (cs : List CachedVolumeRange) → IsSorted cs → IsSorted (placed a cs)
unfolding partition_point insert_at
placed-IsSorted a [] h = (refl, tt)
placed-IsSorted a (c ∷ cs) h = elim (Bool-cases (span_leb c.range a.range)) [
  | inl e ↦ rw e (
    ground (arith, all-placed (λ d. span_leb c.range d.range) a cs, e, h.0),
    placed-IsSorted a cs h.1,
  )
  | inr e ↦
      let before : span_leb a.range c.range ≡ true = ground (arith, e) in
      rw e (ground (arith, before, all-later a c cs before h.0), h)
]

-- Insert_cached_range keeps the cached ranges in the order of their starts and ends.
pub insert_cached_range-IsSorted :
    (ranges : List CachedVolumeRange) (cached : CachedVolumeRange)
    → IsSorted ranges
    → IsSorted (insert_cached_range ranges cached)
unfolding insert_cached_range
insert_cached_range-IsSorted ranges cached h =
    elim (Bool-cases (any (λ existing. cached_eq existing cached) ranges)) [
      | inl e ↦ rw e h
      | inr e ↦ rw e (placed-IsSorted cached ranges h)
    ]

-- A range that is cached already covers what it covers.
cached_already :
    (byte : ℕ) (cached : CachedVolumeRange) (ranges : List CachedVolumeRange)
    → any (λ existing. cached_eq existing cached) ranges ≡ true
    → is_cached byte ranges ≡ (within byte cached.range || is_cached byte ranges)
cached_already byte cached [] h = cc
cached_already byte cached (c ∷ cs) h = elim (Bool-cases (cached_eq c cached)) [
  | inl e ↦ ground (arith, e)
  | inr e ↦ ground (arith, e, cached_already byte cached cs)
]

-- After insert_cached_range the bytes that are cached are those of the range and those that were
-- cached.
pub is_cached-insert_cached_range :
    (byte : ℕ) (ranges : List CachedVolumeRange) (cached : CachedVolumeRange)
    → is_cached byte (insert_cached_range ranges cached)
      ≡ (within byte cached.range || is_cached byte ranges)
unfolding insert_cached_range
is_cached-insert_cached_range byte ranges cached =
    elim (Bool-cases (any (λ existing. cached_eq existing cached) ranges)) [
      | inl e ↦ rw e (cached_already byte cached ranges e)
      | inr e ↦ rw e (any-placed (λ c. within byte c.range) cached ranges)
    ]

-- No byte before the start of a range lies in it or in a later one.
pub before_all :
    (byte : ℕ) (c : CachedVolumeRange) (cs : List CachedVolumeRange)
    → IsSorted (c ∷ cs)
    → byte < c.range.start
    → is_cached byte (c ∷ cs) ≡ false
before_all byte c [] h lt = ground arith
before_all byte c (d ∷ cs) h lt = ground (arith, h, before_all byte d cs h.1)

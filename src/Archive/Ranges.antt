-- ===== src/Archive/Ranges.antt =====
-- download/extractor/layout/volume.rs: the cached byte ranges of a volume, and what of a request
-- they lack.
pub mod Sorted
pub mod Cover
pub mod Missing
use griffr.Common.{
  ℕ, zero, suc, ◌-◌, min, max, Bool, true, false, ◌&&◌, ◌||◌, List, [], ◌∷◌, ◌++◌, ltb, leb,
  nat_beq, if◌then◌else◌, ◌==◌, nat_eq, any, Text, text_eq, saturating_add, saturating_sub,
  text_order, flagged_eq, flagged_order,
}

-- `Range<u64>`
pub record Span : Type 0 where
  pub start : ℕ
  pub end : ℕ

pub record CachedVolumeRange : Type 0 where
  pub range : Span
  pub path : Text

abbrev pub span_eq : Span → Span → Bool
span_eq a b = nat_beq a.start b.start && nat_beq a.end b.end

-- `slice::partition_point` of a partitioned slice: how many elements at the front pass.
unfoldable pub partition_point {ℓ} : {A : Type ℓ} → (A → Bool) → List A → ℕ
partition_point p [] = 0
partition_point p (x ∷ xs) = let rest = partition_point p xs in if p x then suc rest else 0

-- `Vec::insert`
unfoldable pub insert_at {ℓ} : {A : Type ℓ} → List A → ℕ → A → List A
insert_at xs zero a = a ∷ xs
insert_at [] (suc n) a = a ∷ []
insert_at (x ∷ xs) (suc n) a = x ∷ insert_at xs n a

-- `Vec::retain`
unfoldable pub retain {ℓ} : {A : Type ℓ} → (A → Bool) → List A → List A
retain p [] = []
retain p (x ∷ xs) = let rest = retain p xs in if p x then x ∷ rest else rest

-- `(a.start, a.end) <= (b.start, b.end)`
abbrev pub span_leb : Span → Span → Bool
span_leb a b = ltb a.start b.start || nat_beq a.start b.start && leb a.end b.end

abbrev pub cached_eq : CachedVolumeRange → CachedVolumeRange → Bool
cached_eq a b = span_eq a.range b.range && a.path == b.path

unfoldable pub insert_cached_range :
    List CachedVolumeRange → CachedVolumeRange → List CachedVolumeRange
unfolding partition_point insert_at
insert_cached_range ranges cached =
    if any (λ existing. cached_eq existing cached) ranges
    then ranges
    else insert_at ranges
        (partition_point (λ existing. span_leb existing.range cached.range) ranges) cached

-- The loop of `range_covered`, from a cursor on.
unfoldable pub covered_from : (cursor stop : ℕ) → List CachedVolumeRange → Bool
covered_from cursor stop [] = false
covered_from cursor stop (cached ∷ rest) =
    let next = max cursor cached.range.end in
    let skipped = covered_from cursor stop rest in
    let onward = covered_from next stop rest in
    if leb cached.range.end cursor
    then skipped
    else if ltb cursor cached.range.start
    then false
    else if leb stop next
    then true
    else onward

unfoldable pub range_covered : List CachedVolumeRange → Span → Bool
unfolding covered_from
range_covered ranges requested =
    if leb requested.end requested.start
    then true
    else covered_from requested.start requested.end ranges

-- What lies between the cursor and the next cached range, if anything.
abbrev pub gap : (cursor stop start : ℕ) → List Span
gap cursor stop start =
    if ltb cursor start then record { start = cursor; end = min start stop } ∷ [] else []

-- The loop of `subtract_cached`; once the cursor is at the end nothing more is missing.
unfoldable pub subtract_from : (cursor stop : ℕ) → List CachedVolumeRange → List Span
subtract_from cursor stop [] =
    if ltb cursor stop then record { start = cursor; end = stop } ∷ [] else []
subtract_from cursor stop (cached ∷ rest) =
    let next = max cursor cached.range.end in
    let skipped = subtract_from cursor stop rest in
    let onward = subtract_from next stop rest in
    if leb cached.range.end cursor || leb stop cached.range.start
    then skipped
    else gap cursor stop cached.range.start ++ (if leb stop next then [] else onward)

unfoldable pub subtract_cached : Span → List CachedVolumeRange → List Span
unfolding subtract_from
subtract_cached requested cached = subtract_from requested.start requested.end cached

-- The loop of `missing_bytes_in_range`, with the bytes counted so far.
unfoldable pub missing_from : (cursor stop missing : ℕ) → List CachedVolumeRange → ℕ
missing_from cursor stop missing [] = saturating_add missing (saturating_sub stop cursor)
missing_from cursor stop missing (cached ∷ rest) =
    let start = cached.range.start in
    let next = max cursor cached.range.end in
    let more =
      if ltb cursor start then saturating_add missing (min start stop - cursor) else missing in
    let skipped = missing_from cursor stop missing rest in
    let onward = missing_from next stop more rest in
    if leb cached.range.end cursor || leb stop start
    then skipped
    else if leb stop next
    then more
    else onward

unfoldable pub missing_bytes_in_range : Span → List CachedVolumeRange → ℕ
unfolding missing_from
missing_bytes_in_range requested cached = missing_from requested.start requested.end 0 cached

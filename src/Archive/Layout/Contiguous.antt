-- ===== src/Archive/Layout/Contiguous.antt =====
-- download/extractor/layout/volume.rs: well-formed layouts, and `from_expected`.
use griffr.Common.{
  ℕ, zero, suc, ◌+◌, ◌-◌, ◌≤◌, ◌<◌, ◌≡◌, refl, inl, inr, Bool, true, false, ◌&&◌, none, some, List,
  [], ◌∷◌, map, arith, ltb, if◌then◌else◌, Bool-cases, nat_eq, ◌==◌, length, get_elem?, total, All,
  Text, text_eq, word_max, nat_order, text_order, flagged_eq, flagged_order,
}
use griffr.Archive.Ranges.{CachedVolumeRange}
use griffr.Archive.Ranges.Sorted.{IsSorted, is_cached}
use griffr.Archive.Ranges.Missing.{AreProper}
use griffr.Archive.Layout.{
  VolumeLayout, MultiVolumeLayout, size_overflow, ok, failed, Disk, volume_size, has_length, whole,
  Volume, LaidOut, put_volume, lay_out, with_volumes, local_volume, from_expected,
}

-- Every volume starts where the one before it ends.
abbrev pub IsContiguous : (start : ℕ) → List VolumeLayout → (stop : ℕ) → Type 0
IsContiguous start [] stop = start ≡ stop
IsContiguous start (l ∷ ls) stop =
    (l.start ≡ start) × (l.start ≤ l.end) × IsContiguous l.end ls stop

-- The cached ranges of one volume.
pub record IsCacheOf (cached : List CachedVolumeRange) : Type 0 where
  pub sorted : IsSorted cached
  pub proper : AreProper cached

pub record IsWellFormed (l : MultiVolumeLayout) : Type 0 where
  pub contiguous : IsContiguous 0 l.layouts l.total_size
  pub same_count : length l.ranges ≡ length l.layouts
  pub caches : All IsCacheOf l.ranges
  pub fits : l.total_size ≤ word_max

abbrev pub total_of : List Volume → ℕ
total_of volumes = total (λ v. v.size) volumes

-- The file has the length.
abbrev pub file_has : Disk → Text → ℕ → Bool
file_has disk path size = elim (disk.metadata_len path) [ none ↦ false | some n ↦ n == size ]

-- The volume that a layout was made for.
abbrev pub as_volume : VolumeLayout → Volume
as_volume layout = record { path = layout.path; url = layout.url; size = volume_size layout }

-- A byte of a volume is cached just when the volume has it and its whole file is on the disk.
abbrev pub HoldsWhole : Disk → List VolumeLayout → List (List CachedVolumeRange) → Type 0
HoldsWhole disk layouts ranges =
    (index byte : ℕ) (layout : VolumeLayout) (cached : List CachedVolumeRange)
    → get_elem? layouts index ≡ some layout
    → get_elem? ranges index ≡ some cached
    → is_cached byte cached
      ≡ (file_has disk layout.path (volume_size layout) && ltb byte (volume_size layout))

-- What the loop returns: the volumes end to end, or the overflow of their sum.
pub record IsLaidOut (disk : Disk) (start : ℕ) (volumes : List Volume) (laid : LaidOut)
    : Type 0 where
  pub contiguous : IsContiguous start laid.layouts laid.next
  pub same_count : length laid.ranges ≡ length laid.layouts
  pub caches : All IsCacheOf laid.ranges
  pub sum : laid.next ≡ start + total_of volumes
  pub same_volumes : map as_volume laid.layouts ≡ volumes
  pub whole_files : HoldsWhole disk laid.layouts laid.ranges

whole-IsCacheOf :
    (present : Bool) (size : ℕ) (path : Text)
    → IsCacheOf (if present then whole size path ∷ [] else [])
whole-IsCacheOf true size path = record { sorted = (refl, tt); proper = (omega arith, tt) }
whole-IsCacheOf false size path = record { sorted = tt; proper = tt }

-- Every volume has a list of cached ranges.
pub range_beside :
    (layouts : List VolumeLayout) (ranges : List (List CachedVolumeRange)) (index : ℕ)
    (layout : VolumeLayout)
    → length ranges ≡ length layouts
    → get_elem? layouts index ≡ some layout
    → (cached : List CachedVolumeRange) × (get_elem? ranges index ≡ some cached)
range_beside [] ranges index layout h at = cc
range_beside (l ∷ ls) [] index layout h at = absurd (omega (arith, h))
range_beside (l ∷ ls) (r ∷ rs) zero layout h at = (r, refl)
range_beside (l ∷ ls) (r ∷ rs) (suc index) layout h at =
    range_beside ls rs index layout (omega (arith, h)) at

put_volume-HoldsWhole :
    (disk : Disk) (start : ℕ) (v : Volume) (laid : LaidOut)
    → HoldsWhole disk laid.layouts laid.ranges
    → HoldsWhole disk (put_volume disk v start laid).layouts (put_volume disk v start laid).ranges
put_volume-HoldsWhole disk start v laid h zero byte layout cached at here =
    let put : VolumeLayout = record {
      path = v.path;
      url = v.url;
      start = start;
      end = start + v.size;
    } in
    let same : put ≡ layout = ground (arith, at) in
    let size : start + v.size - start ≡ v.size = omega arith in
    elim (Bool-cases (has_length disk v.path v.size)) [
      | inl e ↦
          let is : whole v.size v.path ∷ [] ≡ cached = ground (arith, here, e) in
          rw (← same, ← is, size) (ground (arith, e))
      | inr e ↦
          let is : [] ≡ cached = ground (arith, here, e) in
          rw (← same, ← is, size) (ground (arith, e))
    ]
put_volume-HoldsWhole disk start v laid h (suc index) byte layout cached at here =
    h index byte layout cached at here

put_volume-IsLaidOut :
    (disk : Disk) (start : ℕ) (v : Volume) (volumes : List Volume) (laid : LaidOut)
    → IsLaidOut disk (start + v.size) volumes laid
    → IsLaidOut disk start (v ∷ volumes) (put_volume disk v start laid)
put_volume-IsLaidOut disk start v volumes laid h = record {
  contiguous = (refl, omega arith, h.contiguous);
  same_count = omega (arith, h.same_count);
  caches = (whole-IsCacheOf (has_length disk v.path v.size) v.size v.path, h.caches);
  sum = omega (arith, h.sum);
  same_volumes =
      let size : start + v.size - start ≡ v.size = omega arith in rw (size, h.same_volumes) refl;
  whole_files = put_volume-HoldsWhole disk start v laid h.whole_files;
}

pub lay_out-ok :
    (disk : Disk) (start : ℕ) (volumes : List Volume)
    → start + total_of volumes ≤ word_max
    → (laid : LaidOut) × (lay_out disk start volumes ≡ ok laid) × IsLaidOut disk start volumes laid
unfolding lay_out
lay_out-ok disk start [] h = (
  record { layouts = []; ranges = []; next = start },
  refl,
  record {
    contiguous = refl;
    same_count = refl;
    caches = tt;
    sum = omega arith;
    same_volumes = refl;
    whole_files = λ index byte layout cached at here. cc;
  },
)
lay_out-ok disk start (v ∷ volumes) h =
    let (laid, e, p) = lay_out-ok disk (start + v.size) volumes (omega arith) in
    let small : ltb word_max (start + v.size) ≡ false = ground (arith, h) in
    (
      put_volume disk v start laid,
      rw (small, e) refl,
      put_volume-IsLaidOut disk start v volumes laid p,
    )

pub lay_out-overflow :
    (disk : Disk) (start : ℕ) (volumes : List Volume)
    → start ≤ word_max
    → word_max < start + total_of volumes
    → lay_out disk start volumes ≡ failed size_overflow
unfolding lay_out
lay_out-overflow disk start [] le h = absurd (omega arith)
lay_out-overflow disk start (v ∷ volumes) le h = elim (Bool-cases (ltb word_max (start + v.size))) [
  | inl e ↦ rw e refl
  | inr e ↦
      rw (e, lay_out-overflow disk (start + v.size) volumes (ground (arith, e)) (omega (arith, h)))
        refl
]

total-local :
    (volumes : List (Text × ℕ)) → total_of (map local_volume volumes) ≡ total (λ v. v.1) volumes
total-local [] = refl
total-local (v ∷ volumes) = omega (arith, total-local volumes)

-- If the sizes of the volumes add up to a word, from_expected succeeds with a well-formed layout
-- of exactly the given paths and sizes, in their order and without URLs, end to end from 0 to that
-- sum; a byte of a volume is cached just when the volume has it and its file has the length
-- expected.
pub from_expected-IsWellFormed :
    (disk : Disk) (v : Text × ℕ) (volumes : List (Text × ℕ))
    → total (λ w. w.1) (v ∷ volumes) ≤ word_max
    → (l : MultiVolumeLayout) × (from_expected disk (v ∷ volumes) ≡ ok l)
      × IsWellFormed l
      × (l.total_size ≡ total (λ w. w.1) (v ∷ volumes))
      × (map as_volume l.layouts
          ≡ map (λ w. record { path = w.0; url = none; size = w.1 }) (v ∷ volumes))
      × HoldsWhole disk l.layouts l.ranges
unfolding from_expected
from_expected-IsWellFormed disk v volumes h =
    let sum = total-local (v ∷ volumes) in
    let (laid, e, p) = lay_out-ok disk 0 (map local_volume (v ∷ volumes)) (omega (arith, sum, h)) in
    (
      with_volumes none laid,
      rw (e, from_expected),
      record {
        contiguous = p.contiguous;
        same_count = p.same_count;
        caches = p.caches;
        fits = omega (arith, p.sum, sum, h);
      },
      omega (arith, p.sum, sum),
      p.same_volumes,
      p.whole_files,
    )

-- If the sizes of the volumes add up to more than a word, from_expected fails with the overflow.
pub from_expected-overflow :
    (disk : Disk) (v : Text × ℕ) (volumes : List (Text × ℕ))
    → word_max < total (λ w. w.1) (v ∷ volumes)
    → from_expected disk (v ∷ volumes) ≡ failed size_overflow
unfolding from_expected
from_expected-overflow disk v volumes h = rw (
  lay_out-overflow disk 0 (map local_volume (v ∷ volumes)) (omega arith)
      (omega (arith, total-local (v ∷ volumes), h)),
  from_expected,
)

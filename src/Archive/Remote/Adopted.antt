-- ===== src/Archive/Remote/Adopted.antt =====
-- download/extractor/layout/volume.rs: the layout that `from_remote` returns.
use griffr.Common.{
  ℕ, ◌-◌, ◌≤◌, ◌≡◌, refl, sym, ◌∙◌, subst, inl, inr, Bool, true, false, ◌&&◌, ◌||◌, none, some,
  List, [], ◌∷◌, map, arith, ltb, leb, nat_beq, nat_beq_iff, Bool-cases, Option-cases, nat_eq,
  length, get_elem?, any, length-set, get_elem?-set, get_elem?-set_apart, total, All-set, All-get,
  Text, text_eq, bytes, word_max, nat_order, text_order, flagged_eq, flagged_order,
}
use griffr.Archive.Ranges.{Span, CachedVolumeRange, insert_cached_range}
use griffr.Archive.Ranges.Sorted.{within, is_cached, is_cached-insert_cached_range}
use griffr.Archive.Layout.{
  VolumeLayout, MultiVolumeLayout, ok, DirEntry, Disk, volume_size, with_volumes,
}
use griffr.Archive.Layout.Contiguous.{
  IsCacheOf, IsWellFormed, total_of, file_has, as_volume, range_beside, lay_out-ok,
}
use griffr.Archive.Availability.Held.{insert_cached_range-IsCacheOf, AreCaches}
use griffr.Archive.Remote.{
  remote_volume, entry_range, is_adoptable, adopt_range, adopt, adopt_all, entries_of, from_remote,
}

adopt_range-AreCaches :
    (disk : Disk) (layouts : List VolumeLayout) (entry : DirEntry)
    (ranges : List (List CachedVolumeRange)) (index n : ℕ) (range : Span)
    → AreCaches n ranges
    → AreCaches n (adopt_range disk layouts entry ranges (index, range))
adopt_range-AreCaches disk layouts entry ranges index n range h =
    elim (Option-cases (get_elem? layouts index)) [
      | inl e ↦ rw (e, adopt_range) h
      | inr (layout, e) ↦ elim (Option-cases (get_elem? ranges index)) [
        | inl f ↦ rw (e, f, adopt_range) h
        | inr (cached, f) ↦ elim (Bool-cases (is_adoptable disk entry layout range)) [
          | inr g ↦ rw (e, f, g, adopt_range) h
          | inl g ↦
              let found : CachedVolumeRange = record { range = range; path = entry.path } in
              let grown = insert_cached_range cached found in
              rw (e, f, g, adopt_range)
                (record {
                  count = length-set ranges index grown ∙ h.count;
                  caches = All-set IsCacheOf ranges index grown h.caches (
                      insert_cached_range-IsCacheOf cached found (ground (arith, g))
                        (All-get IsCacheOf ranges index cached h.caches f));
                })
        ]
      ]
    ]

adopt-AreCaches :
    (disk : Disk) (layouts : List VolumeLayout) (ranges : List (List CachedVolumeRange))
    (entry : DirEntry) (n : ℕ)
    → AreCaches n ranges
    → AreCaches n (adopt disk layouts ranges entry)
unfolding adopt
adopt-AreCaches disk layouts ranges entry n h = elim (Option-cases (entry_range entry)) [
  | inl e ↦ rw (e, adopt) h
  | inr ((index, range), e) ↦
      rw (e, adopt) (adopt_range-AreCaches disk layouts entry ranges index n range h)
]

adopt_all-AreCaches :
    (disk : Disk) (layouts : List VolumeLayout) (entries : List DirEntry)
    (ranges : List (List CachedVolumeRange)) (n : ℕ)
    → AreCaches n ranges
    → AreCaches n (adopt_all disk layouts ranges entries)
unfolding adopt_all
adopt_all-AreCaches disk layouts [] ranges n h = h
adopt_all-AreCaches disk layouts (entry ∷ entries) ranges n h =
    adopt_all-AreCaches disk layouts entries (adopt disk layouts ranges entry) n
      (adopt-AreCaches disk layouts ranges entry n h)

-- A file of the cache directory that says a range of the volume in its name, the range being within
-- the volume and the file having its length, holds the byte.
abbrev pub holds_byte : Disk → ℕ → VolumeLayout → ℕ → DirEntry → Bool
holds_byte disk index layout byte entry = elim (entry_range entry) [
  | none ↦ false
  | some (i, range) ↦
      nat_beq i index
      && (leb range.end (volume_size layout)
          && (file_has disk entry.path (range.end - range.start) && within byte range))
]

-- The cached ranges of a volume after some entries of the directory.
abbrev Holds :
    Disk
    → ℕ
    → VolumeLayout
    → List DirEntry
    → List CachedVolumeRange
    → List (List CachedVolumeRange)
    → Type 0
Holds disk index layout entries cached ranges =
    (grown : List CachedVolumeRange) × (get_elem? ranges index ≡ some grown)
    × ((byte : ℕ)
        → is_cached byte grown
          ≡ (is_cached byte cached || any (holds_byte disk index layout byte) entries))

adopt_range-apart :
    (disk : Disk) (layouts : List VolumeLayout) (entry : DirEntry)
    (ranges : List (List CachedVolumeRange)) (i index : ℕ) (range : Span)
    → nat_beq i index ≡ false
    → get_elem? (adopt_range disk layouts entry ranges (i, range)) index ≡ get_elem? ranges index
adopt_range-apart disk layouts entry ranges i index range other =
    elim (Option-cases (get_elem? layouts i)) [
      | inl e ↦ rw (e, adopt_range) refl
      | inr (layout, e) ↦ elim (Option-cases (get_elem? ranges i)) [
        | inl f ↦ rw (e, f, adopt_range) refl
        | inr (cached, f) ↦ elim (Bool-cases (is_adoptable disk entry layout range)) [
          | inr g ↦ rw (e, f, g, adopt_range) refl
          | inl g ↦ rw (e, f, g, adopt_range) (get_elem?-set_apart ranges i index _ other)
        ]
      ]
    ]

adopt_range-here :
    (disk : Disk) (layouts : List VolumeLayout) (entry : DirEntry)
    (ranges : List (List CachedVolumeRange)) (index : ℕ) (range : Span) (layout : VolumeLayout)
    (cached : List CachedVolumeRange)
    → entry_range entry ≡ some (index, range)
    → get_elem? layouts index ≡ some layout
    → get_elem? ranges index ≡ some cached
    → Holds disk index layout
        (entry ∷ [])
        cached
        (adopt_range disk layouts entry ranges (index, range))
adopt_range-here disk layouts entry ranges index range layout cached named at here =
    let found : CachedVolumeRange = record { range = range; path = entry.path } in
    elim (Bool-cases (is_adoptable disk entry layout range)) [
      | inl g ↦ (
        insert_cached_range cached found,
        rw (at, here, g, adopt_range)
            (get_elem?-set ranges index (insert_cached_range cached found) cached here),
        λ byte. ground (
          arith,
          named,
          nat_beq_iff index index,
          g,
          is_cached-insert_cached_range byte cached found,
        ),
      )
      | inr g ↦ (cached, rw (at, here, g, adopt_range) here, λ byte. ground (arith, named, g))
    ]

adopt-byte :
    (disk : Disk) (layouts : List VolumeLayout) (ranges : List (List CachedVolumeRange))
    (entry : DirEntry) (index : ℕ) (layout : VolumeLayout) (cached : List CachedVolumeRange)
    → get_elem? layouts index ≡ some layout
    → get_elem? ranges index ≡ some cached
    → Holds disk index layout (entry ∷ []) cached (adopt disk layouts ranges entry)
unfolding adopt
adopt-byte disk layouts ranges entry index layout cached at here =
    elim (Option-cases (entry_range entry)) [
      | inl e ↦ (cached, rw (e, adopt) here, λ byte. ground (arith, e))
      | inr ((i, range), e) ↦
          rw (e, adopt)
            (elim (Bool-cases (nat_beq i index)) [
              | inr other ↦ (
                cached,
                adopt_range-apart disk layouts entry ranges i index range other ∙ here,
                λ byte. ground (arith, e, other),
              )
              | inl same ↦
                  let is : i ≡ index = (nat_beq_iff i index).0 same in
                  subst
                    (λ k.
                      Holds disk index layout (entry ∷ []) cached
                        (adopt_range disk layouts entry ranges (k, range)))
                    (sym is)
                    (adopt_range-here disk layouts entry ranges index range layout cached
                      (subst (λ k. entry_range entry ≡ some (k, range)) is e) at here)
            ])
    ]

adopt_all-byte :
    (disk : Disk) (layouts : List VolumeLayout) (entries : List DirEntry)
    (ranges : List (List CachedVolumeRange)) (index : ℕ) (layout : VolumeLayout)
    (cached : List CachedVolumeRange)
    → get_elem? layouts index ≡ some layout
    → get_elem? ranges index ≡ some cached
    → Holds disk index layout entries cached (adopt_all disk layouts ranges entries)
unfolding adopt_all
adopt_all-byte disk layouts [] ranges index layout cached at here =
    (cached, here, λ byte. ground arith)
adopt_all-byte disk layouts (entry ∷ entries) ranges index layout cached at here =
    let (grown, there, first) = adopt-byte disk layouts ranges entry index layout cached at here in
    let (last, end_at, rest) =
      adopt_all-byte disk layouts entries (adopt disk layouts ranges entry) index layout grown at
        there in
    (last, end_at, λ byte. ground (arith, first byte, rest byte))

total-remote :
    (volumes : List (Text × Text × ℕ))
    → total_of (map remote_volume volumes) ≡ total (λ v. v.2) volumes
total-remote [] = refl
total-remote (v ∷ volumes) = omega (arith, total-remote volumes)

-- The bytes of each volume that are cached: those of its whole file and those of the cache files.
abbrev pub HoldsFiles : Disk → List DirEntry → MultiVolumeLayout → Type 0
HoldsFiles disk entries l =
    (index : ℕ) (layout : VolumeLayout)
    → get_elem? l.layouts index ≡ some layout
    → (cached : List CachedVolumeRange) × (get_elem? l.ranges index ≡ some cached)
      × ((byte : ℕ)
          → is_cached byte cached ≡ (
              file_has disk layout.path (volume_size layout) && ltb byte (volume_size layout)
              || any (holds_byte disk index layout byte) entries))

-- If the cache directory can be made and the sizes add up to a word, from_remote succeeds with a
-- well-formed layout of that size and of exactly the given volumes, in their order; a byte of a
-- volume is cached just when its whole file is on the disk and has the byte, or the cache
-- directory has a file whose name says a range of that volume with the byte, the range ends within
-- the volume, and the file has its length.
pub from_remote-IsWellFormed :
    (disk : Disk) (v : Text × Text × ℕ) (volumes : List (Text × Text × ℕ)) (cache_dir : Text)
    → disk.create_dir_all cache_dir ≡ true
    → total (λ w. w.2) (v ∷ volumes) ≤ word_max
    → (l : MultiVolumeLayout) × (from_remote disk (v ∷ volumes) cache_dir ≡ ok l)
      × IsWellFormed l
      × (l.total_size ≡ total (λ w. w.2) (v ∷ volumes))
      × (map as_volume l.layouts
          ≡ map (λ w. record { path = w.0; url = some w.1; size = w.2 }) (v ∷ volumes))
      × HoldsFiles disk (entries_of (disk.read_dir cache_dir)) l
unfolding from_remote
from_remote-IsWellFormed disk v volumes cache_dir made h =
    let sum = total-remote (v ∷ volumes) in
    let (laid, e, p) =
      lay_out-ok disk 0 (map remote_volume (v ∷ volumes)) (omega (arith, sum, h)) in
    let entries = entries_of (disk.read_dir cache_dir) in
    let adopted =
      adopt_all-AreCaches disk laid.layouts entries laid.ranges (length laid.layouts)
        (record { count = p.same_count; caches = p.caches }) in
    (
      with_volumes (some cache_dir)
          (record laid { ranges = adopt_all disk laid.layouts laid.ranges entries }),
      rw (made, e, from_remote) refl,
      record {
        contiguous = p.contiguous;
        same_count = adopted.count;
        caches = adopted.caches;
        fits = omega (arith, p.sum, sum, h);
      },
      omega (arith, p.sum, sum),
      p.same_volumes,
      λ index layout at.
          let (cached, here) = range_beside laid.layouts laid.ranges index layout p.same_count at in
          let (grown, there, bytes) =
            adopt_all-byte disk laid.layouts entries laid.ranges index layout cached at here in
          (
            grown,
            there,
            λ byte. ground (arith, bytes byte, p.whole_files index byte layout cached at here),
          ),
    )

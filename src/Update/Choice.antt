-- ===== src/Update/Choice.antt =====
-- update_plan.rs: the heuristic of the patch group against the package that is selected, and the
-- manifest delta against the files of the manifest.
use griffr.Common.{
  ℕ, ◌+◌, ◌≤◌, ◌<◌, min, ◌≡◌, refl, ap, inl, inr, Bool, true, false, ◌&&◌, Option, none, some, List,
  [], ◌∷◌, map, arith, nat_beq, if◌then◌else◌, Bool-cases, Option-cases, nat_eq, ◌==◌, length,
  total, Text, text_eq, bytes, word_max, saturating_add, Map, get, insert, get-insert, nat_order,
  text_order, flagged_eq, flagged_order,
}
use griffr.Update.{
  GameFileEntry, PackFile, GetLatestGameResponse, patch_kind, full_kind, ManifestDeltaEstimate,
  ArchiveDownloadSummary, lower, normalize_logical_path, by_path, is_unchanged, add_target,
  estimate_manifest_delta, sum_sizes, no_parts, has_package, is_compatible, beats_full,
  beats_sources, patch_group_beats_manifest_sources, select_archive_package, summarize,
  selected_archive_download,
}

-- What the patch group transfers, against the other ways to deliver the update.
pub record PatchWins (info : GetLatestGameResponse) (current : Option Text)
    (delta : ManifestDeltaEstimate) : Type 0 where
  pub selected : select_archive_package info current ≡ inr patch_kind
  pub download : ArchiveDownloadSummary
  pub announced : selected_archive_download info patch_kind ≡ some download
  pub some_bytes : 0 < download.total_size
  pub less_than_files : download.total_size < delta.direct_bytes
  pub less_than_full :
      (full : ArchiveDownloadSummary)
      → selected_archive_download info full_kind ≡ some full
      → 0 < full.total_size
      → download.total_size < full.total_size

sum_of_no_parts : (parts : List PackFile) → 0 < sum_sizes parts → no_parts parts ≡ false
unfolding sum_sizes
sum_of_no_parts [] h = absurd (omega arith)
sum_of_no_parts (p ∷ ps) h = refl

full_size :
    (n : ℕ) (pkg : Option (List PackFile)) (full : ArchiveDownloadSummary)
    → beats_full n pkg ≡ true
    → summarize (bytes "full") pkg ≡ some full
    → 0 < full.total_size
    → n < full.total_size
full_size n none full h e pos = cc
full_size n (some packs) full h e pos =
    let same : sum_sizes packs ≡ full.total_size =
      ap (λ (f : ArchiveDownloadSummary). f.total_size)
        (some_injective
          (record { label = bytes "full"; part_count = length packs; total_size = sum_sizes packs })
          full e) in
    ground (arith, h, same, pos)
  where
    some_injective :
        (x y : ArchiveDownloadSummary)
        → ◌≡◌ {A = Option ArchiveDownloadSummary} (some x) (some y)
        → x ≡ y
    some_injective x y k = ground (arith, k)

-- When patch_group_beats_manifest_sources prefers the patch group, select_archive_package selects
-- the patch, the download announced for it is not empty, and it is smaller than the changed files
-- and than a full package that is not empty.
pub patch_group-PatchWins :
    (info : GetLatestGameResponse) (current : Option Text) (delta : ManifestDeltaEstimate)
    (reuse : Bool)
    → patch_group_beats_manifest_sources info current delta reuse ≡ true
    → PatchWins info current delta
unfolding patch_group_beats_manifest_sources select_archive_package selected_archive_download
patch_group-PatchWins info current delta reuse h = elim (Option-cases info.patch) [
  | inl e ↦ absurd (ground (arith, rw (e, patch_group_beats_manifest_sources) at h))
  | inr (parts, e) ↦
      let n = sum_sizes parts in
      let k = rw (e, patch_group_beats_manifest_sources) at h in
      let compatible : is_compatible info current ≡ true = ground (arith, k) in
      let wins : beats_sources delta info.pkg parts ≡ true = ground (arith, k) in
      let pos : 0 < n = ground (arith, wins) in
      let small : n < delta.direct_bytes = ground (arith, wins) in
      let beats : beats_full n info.pkg ≡ true = ground (arith, wins) in
      let filled : no_parts parts ≡ false = sum_of_no_parts parts pos in
      let has : has_package info.patch ≡ true = rw (e, has_package, filled) refl in
      record {
        selected = rw (has, compatible, select_archive_package) refl;
        download = record { label = bytes "patch"; part_count = length parts; total_size = n };
        announced = rw (e, selected_archive_download) refl;
        some_bytes = pos;
        less_than_files = small;
        less_than_full = λ full a p. full_size n info.pkg full beats a p;
      }
]

add_target_lem :
    (known : Map Text (Text × ℕ)) (est : ManifestDeltaEstimate) (target : List GameFileEntry)
    → est.changed_files ≤ word_max
    → est.direct_bytes ≤ word_max
    → ((add_target known est target).changed_files
        ≡ min
            (est.changed_files + total (λ f. if is_unchanged known f then 0 else 1) target)
            word_max)
      × ((add_target known est target).direct_bytes
          ≡ min
              (est.direct_bytes + total (λ f. if is_unchanged known f then 0 else f.size) target)
              word_max)
unfolding add_target
add_target_lem known est [] a b = (omega arith, omega arith)
add_target_lem known est (f ∷ target) a b = elim (Bool-cases (is_unchanged known f)) [
  | inl e ↦
      let later = add_target_lem known est target a b in
      (ground (arith, e, later.0), ground (arith, e, later.1))
  | inr e ↦
      let grown : ManifestDeltaEstimate = record {
        changed_files = saturating_add est.changed_files 1;
        direct_bytes = saturating_add est.direct_bytes f.size;
      } in
      let later = add_target_lem known grown target (omega arith) (omega arith) in
      (ground (arith, e, later.0), ground (arith, e, later.1))
]

-- The last entry of a manifest that stands at the path, among those and the one found before.
abbrev last_at : Text → Option GameFileEntry → List GameFileEntry → Option GameFileEntry
last_at path before [] = before
last_at path before (e ∷ es) =
    last_at path (if normalize_logical_path e.path == path then some e else before) es

-- The current manifest holds the file at its normalized path, with that size and that MD5 sum.
abbrev pub is_kept_file : List GameFileEntry → GameFileEntry → Bool
is_kept_file current f = elim (last_at (normalize_logical_path f.path) none current) [
  | none ↦ false
  | some e ↦ nat_beq e.size f.size && map lower e.md5 == map lower f.md5
]

abbrev held : Option GameFileEntry → Option (Text × ℕ)
held none = none
held (some e) = some (e.md5, e.size)

get-by_path :
    (known : Map Text (Text × ℕ)) (before : Option GameFileEntry) (path : Text)
    (entries : List GameFileEntry)
    → get known path ≡ held before
    → get (by_path known entries) path ≡ held (last_at path before entries)
unfolding by_path
get-by_path known before path [] h = h
get-by_path known before path (e ∷ es) h =
    let at = normalize_logical_path e.path in
    get-by_path (insert known at (e.md5, e.size)) _ path es
      (ground (arith, h, get-insert known at path (e.md5, e.size)))

is_unchanged_lem :
    (current : List GameFileEntry) (f : GameFileEntry)
    → is_unchanged (by_path [] current) f ≡ is_kept_file current f
unfolding is_unchanged get
is_unchanged_lem current f =
    let path = normalize_logical_path f.path in
    let g : get (by_path [] current) path ≡ held (last_at path none current) =
      get-by_path [] none path current refl in
    elim (Option-cases (last_at path none current)) [
      | inl e ↦ ground (arith, e, g)
      | inr (entry, e) ↦ ground (arith, e, g)
    ]

count_kept :
    (current : List GameFileEntry) (weight : GameFileEntry → ℕ) (target : List GameFileEntry)
    → total (λ f. if is_unchanged (by_path [] current) f then 0 else weight f) target
      ≡ total (λ f. if is_kept_file current f then 0 else weight f) target
count_kept current weight [] = refl
count_kept current weight (f ∷ target) =
    rw (is_unchanged_lem current f, count_kept current weight target) refl

-- Estimate_manifest_delta counts the files of the target for which the last entry of the current
-- manifest at their normalized path is missing, or has another size or another MD5 sum, upper and
-- lower case aside, and the bytes of those files, each up to the largest word.
pub estimate_manifest_delta_lem :
    (current target : List GameFileEntry)
    → ((estimate_manifest_delta current target).changed_files
        ≡ min (total (λ f. if is_kept_file current f then 0 else 1) target) word_max)
      × ((estimate_manifest_delta current target).direct_bytes
          ≡ min (total (λ f. if is_kept_file current f then 0 else f.size) target) word_max)
unfolding estimate_manifest_delta
estimate_manifest_delta_lem current target =
    let none_yet : ManifestDeltaEstimate = record { changed_files = 0; direct_bytes = 0 } in
    let counted = add_target_lem (by_path [] current) none_yet target (omega arith) (omega arith) in
    (
      omega (arith, counted.0, count_kept current (λ f. 1) target),
      omega (arith, counted.1, count_kept current (λ f. f.size) target),
    )

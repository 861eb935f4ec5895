-- ===== src/Update.antt =====
-- crates/griffr-runtime/src/update_plan.rs: the choice between a patch, a full package and the
-- files of the manifest. Of the API's answers the fields that it reads.
pub mod Choice
mod Examples
use griffr.Common.{
  ℕ, ◌+◌, ◌*◌, ◌%◌, ◌⊎◌, inl, inr, Bool, true, false, ◌&&◌, ◌||◌, not, Option, none, some, List, [],
  ◌∷◌, map, ltb, leb, nat_beq, if◌then◌else◌, nat_eq, ◌==◌, length, total, Text, text_eq, bytes,
  word, saturating_add, Map, get, insert, text_order, flagged_eq, flagged_order,
}
use griffr.Archive.Names.{parse}

pub record GameFileEntry : Type 0 where
  pub path : Text
  pub md5 : Text
  pub size : ℕ

-- Of `PackFile` the size, a decimal text.
pub record PackFile : Type 0 where
  pub package_size : Text

-- Of `GetLatestGameResponse`: the packs of the full package and the parts of the patch.
pub record GetLatestGameResponse : Type 0 where
  pub request_version : Text
  pub pkg : Option (List PackFile)
  pub patch : Option (List PackFile)

pub data ArchivePackageKind : Type 0 where
  patch_kind full_kind : ArchivePackageKind

pub record ManifestDeltaEstimate : Type 0 where
  pub changed_files : ℕ
  pub direct_bytes : ℕ

pub record ArchiveDownloadSummary : Type 0 where
  pub label : Text
  pub part_count : ℕ
  pub total_size : ℕ

-- The two messages of `select_archive_package`.
pub data UpdateError : Type 0 where
  patch_for_another_version no_package : UpdateError

-- `u8::to_ascii_lowercase`
abbrev pub lower : ℕ → ℕ
lower c = if leb b'A' c && leb c b'Z' then c + 32 else c

abbrev pub slashed : ℕ → ℕ
slashed c = if nat_beq c b'\\' then b'/' else c

-- `trim_start_matches("./")` and `trim_start_matches('/')`, which cut as often as they can.
unfoldable pub trim_dots : Text → Text
trim_dots [] = []
trim_dots (c ∷ []) = c ∷ []
trim_dots (c ∷ d ∷ s) =
    let rest = trim_dots s in if nat_beq c b'.' && nat_beq d b'/' then rest else c ∷ d ∷ s

unfoldable pub trim_slashes : Text → Text
trim_slashes [] = []
trim_slashes (c ∷ s) = let rest = trim_slashes s in if nat_beq c b'/' then rest else c ∷ s

-- `normalize_logical_path` of paths.rs
unfoldable pub normalize_logical_path : Text → Text
unfolding trim_dots trim_slashes
normalize_logical_path path = map lower (trim_slashes (trim_dots (map slashed path)))

-- `eq_ignore_ascii_case`
abbrev pub eq_ignore_ascii_case : Text → Text → Bool
eq_ignore_ascii_case a b = map lower a == map lower b

unfoldable pub by_path : Map Text (Text × ℕ) → List GameFileEntry → Map Text (Text × ℕ)
unfolding normalize_logical_path
by_path known [] = known
by_path known (entry ∷ rest) =
    by_path (insert known (normalize_logical_path entry.path) (entry.md5, entry.size)) rest

unfoldable pub is_unchanged : Map Text (Text × ℕ) → GameFileEntry → Bool
unfolding normalize_logical_path get
is_unchanged known entry = elim (get known (normalize_logical_path entry.path)) [
  | none ↦ false
  | some held ↦ nat_beq held.1 entry.size && eq_ignore_ascii_case held.0 entry.md5
]

unfoldable pub add_target :
    Map Text (Text × ℕ) → ManifestDeltaEstimate → List GameFileEntry → ManifestDeltaEstimate
unfolding is_unchanged
add_target known estimate [] = estimate
add_target known estimate (entry ∷ rest) =
    add_target known
      (if is_unchanged known entry then estimate else record {
        changed_files = saturating_add estimate.changed_files 1;
        direct_bytes = saturating_add estimate.direct_bytes entry.size;
      })
      rest

unfoldable pub estimate_manifest_delta :
    List GameFileEntry → List GameFileEntry → ManifestDeltaEstimate
unfolding by_path add_target
estimate_manifest_delta current target =
    add_target (by_path [] current) (record { changed_files = 0; direct_bytes = 0 }) target

-- `PackFile::size`
unfoldable pub pack_size : PackFile → ℕ
unfolding parse
pack_size part = elim (parse part.package_size) [ none ↦ 0 | some n ↦ n ]

-- `iter().map(size).sum::<u64>()`, with the wrap-around of a release build.
unfoldable pub sum_sizes : List PackFile → ℕ
unfolding pack_size
sum_sizes parts = total pack_size parts % word

abbrev pub no_parts : List PackFile → Bool
no_parts [] = true
no_parts (_ ∷ _) = false

-- `has_full_package` and `has_patch_package`
abbrev pub has_package : Option (List PackFile) → Bool
has_package none = false
has_package (some parts) = not (no_parts parts)

abbrev pub is_blank : Text → Bool
is_blank [] = true
is_blank (_ ∷ _) = false

abbrev pub is_compatible : GetLatestGameResponse → Option Text → Bool
is_compatible info none = false
is_compatible info (some current) = not (is_blank current) && current == info.request_version

-- `full_bytes.is_none_or(…)`, an empty package counting as none.
abbrev pub beats_full : ℕ → Option (List PackFile) → Bool
beats_full patch_bytes none = true
beats_full patch_bytes (some packs) =
    if ltb 0 (sum_sizes packs) then ltb patch_bytes (sum_sizes packs) else true

abbrev pub beats_sources : ManifestDeltaEstimate → Option (List PackFile) → List PackFile → Bool
beats_sources delta pkg parts =
    if nat_beq (sum_sizes parts) 0 || leb delta.direct_bytes (sum_sizes parts)
    then false
    else beats_full (sum_sizes parts) pkg

unfoldable pub patch_group_beats_manifest_sources :
    GetLatestGameResponse → Option Text → ManifestDeltaEstimate → Bool → Bool
unfolding sum_sizes
patch_group_beats_manifest_sources info current delta has_reuse_sources =
    if has_reuse_sources || nat_beq delta.changed_files 0
    then false
    else if not (is_compatible info current)
    then false
    else elim info.patch [ none ↦ false | some parts ↦ beats_sources delta info.pkg parts ]

unfoldable pub select_archive_package :
    GetLatestGameResponse → Option Text → UpdateError ⊎ ArchivePackageKind
select_archive_package info current =
    if has_package info.patch && is_compatible info current
    then inr patch_kind
    else if has_package info.pkg
    then inr full_kind
    else if has_package info.patch
    then inl patch_for_another_version
    else inl no_package

abbrev pub summarize : Text → Option (List PackFile) → Option ArchiveDownloadSummary
summarize label none = none
summarize label (some parts) =
    some (record { label = label; part_count = length parts; total_size = sum_sizes parts })

unfoldable pub selected_archive_download :
    GetLatestGameResponse → ArchivePackageKind → Option ArchiveDownloadSummary
unfolding sum_sizes
selected_archive_download info patch_kind = summarize (bytes "patch") info.patch
selected_archive_download info full_kind = summarize (bytes "full") info.pkg

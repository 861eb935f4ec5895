-- ===== src/Update/Examples.antt =====
-- Runs of the update plan, and the theorems applied to them.
use griffr.Common.{
  min, ◌≡◌, refl, true, false, some, List, [], ◌∷◌, if◌then◌else◌, nat_eq, total, text_eq, bytes,
  word_max, get, insert, text_order, flagged_eq, flagged_order,
}
use griffr.Archive.Names.{scan, parse}
use griffr.Update.{
  GameFileEntry, GetLatestGameResponse, ManifestDeltaEstimate, trim_dots, trim_slashes,
  normalize_logical_path, by_path, is_unchanged, add_target, estimate_manifest_delta, pack_size,
  sum_sizes, patch_group_beats_manifest_sources, select_archive_package, selected_archive_download,
}
use griffr.Update.Choice.{
  PatchWins, patch_group-PatchWins, is_kept_file, estimate_manifest_delta_lem,
}

program : Unit {0}
unfolding get insert scan parse trim_dots trim_slashes normalize_logical_path by_path is_unchanged
    add_target estimate_manifest_delta pack_size sum_sizes patch_group_beats_manifest_sources
    select_archive_package selected_archive_download
program = tt

normalizes : normalize_logical_path (bytes "././/VFS/bar") ≡ bytes "vfs/bar"
unfolding program
normalizes = refl

abbrev latest : GetLatestGameResponse
latest = record {
  request_version = bytes "1.0";
  pkg = some (record { package_size = bytes "500" } ∷ []);
  patch = some (record { package_size = bytes "30" } ∷ record { package_size = bytes "12" } ∷ []);
}

abbrev delta : ManifestDeltaEstimate
delta = record { changed_files = 2; direct_bytes = 100 }

patch_wins : patch_group_beats_manifest_sources latest (some (bytes "1.0")) delta false ≡ true
unfolding program
patch_wins = refl

patch_group-PatchWins_example : PatchWins latest (some (bytes "1.0")) delta
patch_group-PatchWins_example =
    patch_group-PatchWins latest (some (bytes "1.0")) delta false patch_wins

abbrev old_files : List GameFileEntry
old_files = record { path = bytes "A/x"; md5 = bytes "ab"; size = 3 } ∷ []

abbrev new_files : List GameFileEntry
new_files =
    record { path = bytes "a\\x"; md5 = bytes "AB"; size = 3 }
    ∷ record { path = bytes "a/y"; md5 = bytes "cd"; size = 9 }
    ∷ []

estimates :
    estimate_manifest_delta old_files new_files ≡ record { changed_files = 1; direct_bytes = 9 }
unfolding program
estimates = refl

estimate_manifest_delta_lem_example :
    ((estimate_manifest_delta old_files new_files).changed_files
      ≡ min (total (λ f. if is_kept_file old_files f then 0 else 1) new_files) word_max)
    × ((estimate_manifest_delta old_files new_files).direct_bytes
        ≡ min (total (λ f. if is_kept_file old_files f then 0 else f.size) new_files) word_max)
estimate_manifest_delta_lem_example = estimate_manifest_delta_lem old_files new_files

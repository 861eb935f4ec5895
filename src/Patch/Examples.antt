-- ===== src/Patch/Examples.antt =====
-- Runs on the plans of the crate's own tests, and the theorems applied to them.
use griffr.Common.{
  ℕ, ◌≤◌, ◌<◌, max, ◌≡◌, refl, ◌↔◌, true, false, none, List, [], ◌∷◌, arith, nat_eq, length,
  contains, Text, text_eq, bytes, get, insert, contains_key, nat_order, text_order, flagged_eq,
  flagged_order, insert_ordered,
}
use griffr.Patch.Plan.{
  FilePath, join, path_less, path_eq, PlannedPatchSource, local, hdiff, PlannedPatchEntry,
  PatchPlan, multiple_writers, overwrite_cycle, planned, refused,
}
use griffr.Patch.Dependencies.{
  logical_destination, aliases, add_writer, collect_writers, insert_into, base_of, writer_of,
  add_consumers, add_outgoing, collect_outgoing, zero_indices, release_all, dependents_of,
  finish_ready, blocked_names, first_frontier, validate_acyclic, entry_dependency_indices,
  release_wave, waves_from, entry_wave_indices,
}
use griffr.Patch.Space.{empty_ledger, balance, peak, adjust, add_bytes, remove_bytes}
use griffr.Patch.Peaks.{Change, adds, removes, change_all, balances, greatest, change_all-peak}
use griffr.Patch.Consumers.{Overwrites, entry_dependency_indices_iff}
use griffr.Patch.Waves.{InOrder}
use griffr.Patch.Scheduled.{in_waves}
use griffr.Patch.EntryWaves.{entry_wave_indices-InOrder}
use griffr.Patch.Acyclic.{IsSpread}
use griffr.Patch.Cycles.{HasSingleWriters, IsOverwriteOrder, entry_dependency_indices-accepts}

program : Unit {0}
unfolding get insert contains_key insert_ordered join logical_destination path_less aliases
    add_writer collect_writers insert_into base_of writer_of add_consumers add_outgoing
    collect_outgoing zero_indices release_all dependents_of finish_ready blocked_names
    first_frontier validate_acyclic entry_dependency_indices release_wave waves_from
    entry_wave_indices balance peak adjust add_bytes remove_bytes change_all balances greatest
program = tt

abbrev relative : List Text → FilePath
relative parts = record { absolute = false; components = parts }

abbrev install : FilePath
install = record { absolute = true; components = bytes "install" ∷ [] }

abbrev installed : Text → FilePath
installed name = record { absolute = true; components = bytes "install" ∷ bytes "vfs" ∷ name ∷ [] }

abbrev written_from : PlannedPatchSource → Text → PlannedPatchEntry
written_from origin name = record {
  name = relative (name ∷ []);
  destination = installed name;
  expected_md5 = bytes "md5";
  expected_size = 1;
  source = origin;
}

abbrev local_entry : Text → PlannedPatchEntry
local_entry name = written_from (local (relative (name ∷ []))) name

-- An entry that patches the file with the first name.
abbrev diff_entry : Text → Text → PlannedPatchEntry
diff_entry base name =
    written_from (hdiff (installed base) (relative (name ∷ [])) (bytes "base") 1) name

abbrev plan_of : List PlannedPatchEntry → PatchPlan
plan_of listed = record {
  schema_version = 2;
  install_root = install;
  stage_root = record { absolute = true; components = bytes "stage" ∷ [] };
  vfs_base_path = relative (bytes "vfs" ∷ []);
  vfs_destination = record { absolute = true; components = bytes "install" ∷ bytes "vfs" ∷ [] };
  work_dir = none;
  entries = listed;
  delete_paths = [];
  deferred_paths = [];
}

abbrev three_entries : PatchPlan
three_entries = plan_of (
    local_entry (bytes "base")
    ∷ diff_entry (bytes "base") (bytes "consumer")
    ∷ local_entry (bytes "free")
    ∷ [])

accepts_three : entry_dependency_indices three_entries ≡ planned ((1 ∷ []) ∷ [] ∷ [] ∷ [])
unfolding program
accepts_three = refl

waves_of_three : entry_wave_indices three_entries ≡ planned ((1 ∷ 2 ∷ []) ∷ (0 ∷ []) ∷ [])
unfolding program
waves_of_three = refl

refuses_second_writer :
    entry_dependency_indices (plan_of (local_entry (bytes "a") ∷ local_entry (bytes "a") ∷ []))
    ≡ refused (multiple_writers (installed (bytes "a")))
unfolding program
refuses_second_writer = refl

refuses_cycle :
    entry_dependency_indices
      (plan_of (diff_entry (bytes "b") (bytes "a") ∷ diff_entry (bytes "a") (bytes "b") ∷ []))
    ≡ refused (overwrite_cycle (relative (bytes "a" ∷ []) ∷ relative (bytes "b" ∷ []) ∷ []))
unfolding program
refuses_cycle = refl

entry_dependency_indices_iff_example :
    (contains (dependents_of ((1 ∷ []) ∷ [] ∷ [] ∷ []) 0) 1 ≡ true) ↔ Overwrites three_entries 0 1
entry_dependency_indices_iff_example = entry_dependency_indices_iff three_entries accepts_three 0 1

entry_wave_indices-InOrder_example :
    (dependencies : List (List ℕ)) × (entry_dependency_indices three_entries ≡ planned dependencies)
    × InOrder dependencies [] ((1 ∷ 2 ∷ []) ∷ (0 ∷ []) ∷ [])
    × ((d : ℕ) → d < 3 → in_waves ((1 ∷ 2 ∷ []) ∷ (0 ∷ []) ∷ []) d ≡ true)
entry_wave_indices-InOrder_example = entry_wave_indices-InOrder three_entries waves_of_three

entry_dependency_indices-accepts_example :
    ((dependencies : List (List ℕ)) × (entry_dependency_indices three_entries
        ≡ planned dependencies))
    ↔ (HasSingleWriters three_entries
        × (order : List ℕ) × IsSpread 3 order
        × (3 ≤ length order)
        × IsOverwriteOrder three_entries order)
entry_dependency_indices-accepts_example =
    entry_dependency_indices-accepts three_entries (omega arith)

abbrev staged_copy : List Change
staged_copy =
    adds (bytes "c") 30 ∷ adds (bytes "d") 30 ∷ removes (bytes "c") 40 ∷ adds (bytes "c") 25 ∷ []

keeps_peak : peak (change_all staged_copy empty_ledger) (bytes "c") ≡ 30
unfolding program
keeps_peak = refl

change_all-peak_example :
    peak (change_all staged_copy empty_ledger) (bytes "c")
    ≡ max
        (peak empty_ledger (bytes "c"))
        (greatest (balances (bytes "c") (balance empty_ledger (bytes "c")) staged_copy))
unfolding program
change_all-peak_example = change_all-peak staged_copy empty_ledger (bytes "c") (omega arith) refl

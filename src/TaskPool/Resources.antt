-- ===== src/TaskPool/Resources.antt =====
-- task_pool/scheduler/queue/resources.rs: the resources in use, `acquire` and `release`.
pub mod Ledger
pub mod Limits
pub mod Capacity
pub mod Exclusion
pub mod Running
use griffr.Common.{
  ℕ, ◌*◌, Bool, Option, List, [], ◌∷◌, map, if◌then◌else◌, is_some, nat_eq, ◌==◌, contains, Text,
  text_eq, bytes, saturating_add, saturating_sub, Map, insert, count_of, decrement_by,
  increment_all, decrement_all, text_order, flagged_eq, flagged_order,
}
use griffr.TaskPool.Request.{cpu, blocking, run_class_eq, StorageReservation, ResourceRequest}

-- A hash set is the list of its members.
pub record AdmissionSnapshot : Type 0 where
  pub reserved_write_volumes : List Text
  pub storage_available_bytes : Map Text (Option ℕ)
  pub queued_reuse_commits : ℕ

pub record ResourceState : Type 0 where
  pub network_in_use : ℕ
  pub cpu_in_use : ℕ
  pub blocking_in_use : ℕ
  pub extract_in_use : ℕ
  pub volume_reads : Map Text ℕ
  pub volume_writes : Map Text ℕ
  pub volume_metadata : Map Text ℕ
  pub archive_savers : Map Text ℕ
  pub archive_commits : Map Text ℕ
  pub storage_reserved_bytes : Map Text ℕ
  pub mutation_paths : List Text
  pub reuse_commits_in_use : ℕ

-- `ResourceState::default`
abbrev pub idle : ResourceState
idle = record {
  network_in_use = 0;
  cpu_in_use = 0;
  blocking_in_use = 0;
  extract_in_use = 0;
  volume_reads = [];
  volume_writes = [];
  volume_metadata = [];
  archive_savers = [];
  archive_commits = [];
  storage_reserved_bytes = [];
  mutation_paths = [];
  reuse_commits_in_use = 0;
}

-- `usize::from(bool)`
abbrev pub one_if : Bool → ℕ
one_if b = if b then 1 else 0

-- `HashSet::insert` and `HashSet::remove`
unfoldable pub insert_path : List Text → Text → List Text
insert_path paths path = if contains paths path then paths else path ∷ paths

unfoldable pub insert_paths : List Text → List Text → List Text
unfolding insert_path
insert_paths paths [] = paths
insert_paths paths (p ∷ ps) = insert_paths (insert_path paths p) ps

unfoldable pub remove_path : List Text → Text → List Text
remove_path [] path = []
remove_path (p ∷ ps) path = let rest = remove_path ps path in if p == path then rest else p ∷ rest

unfoldable pub remove_paths : List Text → List Text → List Text
unfolding remove_path
remove_paths paths [] = paths
remove_paths paths (p ∷ ps) = remove_paths (remove_path paths p) ps

-- The loops over the storage reservations of `acquire` and `release`.
unfoldable pub reserve_bytes : Map Text ℕ → List StorageReservation → Map Text ℕ
unfolding count_of
reserve_bytes reserved [] = reserved
reserve_bytes reserved (r ∷ rest) =
    reserve_bytes (insert reserved r.volume (saturating_add (count_of reserved r.volume) r.bytes))
      rest

unfoldable pub release_bytes : Map Text ℕ → List StorageReservation → Map Text ℕ
unfolding decrement_by
release_bytes reserved [] = reserved
release_bytes reserved (r ∷ rest) = release_bytes (decrement_by reserved r.volume r.bytes) rest

abbrev pub commit_volumes : ResourceRequest → List Text
commit_volumes request = map (λ commit. commit.0) request.archive_commit_volumes

abbrev pub increment_if : Bool → ℕ → ℕ
increment_if b n = if b then saturating_add n 1 else n

abbrev pub decrement_if : Bool → ℕ → ℕ
decrement_if b n = if b then saturating_sub n 1 else n

unfoldable pub acquire : ResourceState → ResourceRequest → ResourceState
unfolding increment_all insert_paths reserve_bytes
acquire s request = record {
  network_in_use = increment_if (is_some request.network) s.network_in_use;
  cpu_in_use = increment_if (run_class_eq request.run cpu) s.cpu_in_use;
  blocking_in_use = increment_if (run_class_eq request.run blocking) s.blocking_in_use;
  extract_in_use = increment_if request.extract s.extract_in_use;
  volume_reads = increment_all s.volume_reads request.read_volumes;
  volume_writes = increment_all s.volume_writes request.write_volumes;
  volume_metadata = increment_all s.volume_metadata request.metadata_volumes;
  archive_savers = increment_all s.archive_savers request.archive_save_volumes;
  archive_commits = increment_all s.archive_commits (commit_volumes request);
  storage_reserved_bytes = reserve_bytes s.storage_reserved_bytes request.storage_reservations;
  mutation_paths = insert_paths s.mutation_paths request.mutation_paths;
  reuse_commits_in_use = increment_if request.reuse_commit s.reuse_commits_in_use;
}

unfoldable pub release : ResourceState → ResourceRequest → ResourceState
unfolding decrement_all remove_paths release_bytes
release s request = record {
  network_in_use = decrement_if (is_some request.network) s.network_in_use;
  cpu_in_use = decrement_if (run_class_eq request.run cpu) s.cpu_in_use;
  blocking_in_use = decrement_if (run_class_eq request.run blocking) s.blocking_in_use;
  extract_in_use = decrement_if request.extract s.extract_in_use;
  volume_reads = decrement_all s.volume_reads request.read_volumes;
  volume_writes = decrement_all s.volume_writes request.write_volumes;
  volume_metadata = decrement_all s.volume_metadata request.metadata_volumes;
  archive_savers = decrement_all s.archive_savers request.archive_save_volumes;
  archive_commits = decrement_all s.archive_commits (commit_volumes request);
  storage_reserved_bytes = release_bytes s.storage_reserved_bytes request.storage_reservations;
  mutation_paths = remove_paths s.mutation_paths request.mutation_paths;
  reuse_commits_in_use = decrement_if request.reuse_commit s.reuse_commits_in_use;
}

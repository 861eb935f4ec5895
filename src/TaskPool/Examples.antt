-- ===== src/TaskPool/Examples.antt =====
-- Concrete requests on a machine of eight processors, and runs of their admission.
mod Resources
mod Queue
mod Graph
use griffr.Common.{
  ◌*◌, ◌≡◌, refl, true, false, [], ◌∷◌, arith, nat_eq, text_eq, bytes, get, insert, contains_key,
  count_of, increment, decrement_by, increment_all, decrement_all, text_order, flagged_eq,
  flagged_order, insert_ordered, ordered_set,
}
use griffr.TaskPool.Config.{
  exclusive, VolumeIoPolicy, new_policy, TaskPoolConfig, shards_for, fitted_pool, default_config,
  with_volume_policy, volume_policy,
}
use griffr.TaskPool.Request.{
  cpu, blocking, ResourceRequest, default_request, sum_reservation, sum_reservations, without,
  normalize_volumes,
}
use griffr.TaskPool.Request.Normal.{IsNormal}
use griffr.TaskPool.Resources.{
  AdmissionSnapshot, idle, insert_path, insert_paths, remove_path, remove_paths, reserve_bytes,
  release_bytes, acquire, release,
}
use griffr.TaskPool.Admission.{
  storage_reservation_fits, mutation_path_contains, mutation_paths_conflict, has_mutation_conflict,
  streaming_pressure, volume_admits, can_acquire_volume, can_reserve_storage, has_run_slot,
  can_acquire_volumes, can_acquire,
}
use griffr.TaskPool.Resources.Ledger.{Fits}
use griffr.TaskPool.Resources.Capacity.{IsBounded}
use griffr.TaskPool.Queue.{
  probe_missing, unreserve, add, add_all, from_queue, drop_queued, remove_task,
}
use griffr.TaskPool.Queue.Select.{
  rank_less, keep_best, priority_rank, runnable, best_of, position, select_index, runnable_index,
  md5_verify_batch_index,
}
use griffr.TaskPool.Queue.Pop.{
  note_paths, probe_reserved, is_passed_over, scan_task, scan_all, build_cache, ensured_cache,
  take_index, chosen_index, remove_runnable_from,
}
use griffr.TaskPool.Queue.Scheduler.{
  pop_runnable, try_lanes, pop_queued, pick_md5_verify, pop_md5_verify_for_batch, push,
  restore_front, start_task, pop_next, pop_md5_verify_batch_member, release_task, queued_len,
}

-- All the code of the pool, for the runs below.
pub program : Unit {0}
unfolding shards_for fitted_pool default_config volume_policy with_volume_policy new_policy get
    insert contains_key count_of increment decrement_by increment_all decrement_all
    storage_reservation_fits mutation_path_contains mutation_paths_conflict has_mutation_conflict
    streaming_pressure volume_admits can_acquire_volume can_reserve_storage has_run_slot
    can_acquire_volumes can_acquire insert_path insert_paths remove_path remove_paths reserve_bytes
    release_bytes acquire release insert_ordered ordered_set sum_reservation sum_reservations
    without normalize_volumes probe_missing unreserve add add_all from_queue drop_queued remove_task
    rank_less keep_best priority_rank runnable best_of position select_index runnable_index
    md5_verify_batch_index note_paths probe_reserved is_passed_over scan_task scan_all build_cache
    ensured_cache take_index chosen_index remove_runnable_from pop_runnable try_lanes pop_queued
    pick_md5_verify pop_md5_verify_for_batch push restore_front start_task pop_next
    pop_md5_verify_batch_member release_task queued_len
program = tt

-- A machine of eight processors, and a volume that streams one way at a time.
abbrev pub machine : TaskPoolConfig
machine = default_config 8

abbrev pub disc : VolumeIoPolicy
disc = record {
  read_limit = 2;
  write_limit = 1;
  metadata_limit = 4;
  streaming_pressure_limit = 2;
  streaming_mode = exclusive;
}

abbrev pub writer : ResourceRequest
writer = record default_request {
  write_volumes = bytes "C:" ∷ [];
  mutation_paths = bytes "/game/data" ∷ [];
}

abbrev pub reader : ResourceRequest
reader = record default_request { run = cpu; read_volumes = bytes "C:" ∷ [] }

abbrev pub nested : ResourceRequest
nested = record default_request { mutation_paths = bytes "/game/data/a.bin" ∷ [] }

abbrev pub no_snapshot : AdmissionSnapshot
no_snapshot = record {
  reserved_write_volumes = [];
  storage_available_bytes = [];
  queued_reuse_commits = 0;
}

-- A path below a held one is refused, another is admitted.
pub nested_refused : can_acquire (acquire idle writer) nested machine no_snapshot ≡ false
unfolding program
nested_refused = refl

pub reader_admitted : can_acquire (acquire idle writer) reader machine no_snapshot ≡ true
unfolding program
reader_admitted = refl

-- An exclusive volume does not let a reader in beside a writer.
pub reader_refused :
    can_acquire
      (acquire idle writer)
      reader
      (with_volume_policy machine (bytes "C:") disc)
      no_snapshot
    ≡ false
unfolding program
reader_refused = refl

pub released : (release (acquire idle writer) writer).mutation_paths ≡ []
unfolding program
released = refl

pub machine-IsBounded : IsBounded machine
unfolding program
machine-IsBounded = record {
  network = omega arith;
  cpu = omega arith;
  blocking = omega arith;
  extract = omega arith;
  policies = λ v. record {
    read_limit = omega arith;
    write_limit = omega arith;
    metadata_limit = omega arith;
    streaming_pressure_limit = omega arith;
  };
}

pub writer-IsNormal : IsNormal writer
writer-IsNormal = record {
  reads = tt;
  writes = (refl, tt);
  metadata = tt;
  savers = tt;
  commits = tt;
  mutations = (refl, tt);
}

pub writer-Fits : Fits (writer ∷ [])
writer-Fits = record {
  tasks = omega arith;
  reads = λ v. ground arith;
  writes = λ v. ground arith;
  metadata = λ v. ground arith;
  savers = λ v. ground arith;
  commits = λ v. ground arith;
  bytes = λ v. ground arith;
}

pub writer_admitted : can_acquire idle writer machine no_snapshot ≡ true
unfolding program
writer_admitted = refl

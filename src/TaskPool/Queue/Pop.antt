-- ===== src/TaskPool/Queue/Pop.antt =====
-- task_pool/scheduler/queue/priority_queue.rs: the methods of `QueueState`. A pop carries the
-- cache beside the state, as `ensure_admission_cache` has left it, where the source keeps it in an
-- option and expects it to be there.
use griffr.Common.{
  ℕ, min, Bool, false, ◌&&◌, ◌||◌, Option, none, some, List, [], ◌∷◌, ◌++◌, ltb, leb, nat_beq,
  if◌then◌else◌, nat_eq, get_elem?, remove_index, contains, Text, text_eq, saturating_add, Map,
  insert, contains_key, count_of, increment_all, text_order, flagged_eq, flagged_order,
}
use griffr.TaskPool.Config.{TaskPoolConfig}
use griffr.TaskPool.Request.{
  RunClass, cpu, blocking, NetworkClass, run_class_eq, StorageReservation,
}
use griffr.TaskPool.Resources.{AdmissionSnapshot, ResourceState, insert_paths}
use griffr.TaskPool.Admission.{has_mutation_conflict}
use griffr.TaskPool.Queue.{
  TaskPriority, continuation, bulk, World, QueuedTask, QueueAdmission, AdmissionCache, QueueState,
  reservation_instant, from_queue, remove_task,
}
use griffr.TaskPool.Queue.Select.{no_volumes, runnable_index}

abbrev pub is_expired : AdmissionCache → ℕ → Bool
is_expired cache now = elim cache.next_writer_reservation_at [
  | none ↦ false
  | some deadline ↦ leb deadline now
]

-- A cache that is missing or expired is built anew.
abbrev pub current_cache : ℕ → AdmissionCache → Option AdmissionCache → AdmissionCache
current_cache now built none = built
current_cache now built (some cache) = if is_expired cache now then built else cache

-- What the scan of the queues has gathered.
pub record Scan : Type 0 where
  pub snapshot : AdmissionSnapshot
  pub probe_paths : Map Text Text
  pub counts : Map Text ℕ
  pub nodes : List ℕ
  pub next_at : Option ℕ

abbrev empty_scan : Scan
empty_scan = record {
  snapshot = record {
    reserved_write_volumes = [];
    storage_available_bytes = [];
    queued_reuse_commits = 0;
  };
  probe_paths = [];
  counts = [];
  nodes = [];
  next_at = none;
}

-- `entry(volume).or_insert_with(probe_path)`
unfoldable pub note_paths : Map Text Text → List StorageReservation → Map Text Text
unfolding contains_key
note_paths paths [] = paths
note_paths paths (r ∷ rest) =
    note_paths (if contains_key paths r.volume then paths else insert paths r.volume r.probe_path)
      rest

abbrev sooner : Option ℕ → ℕ → Option ℕ
sooner none at = some at
sooner (some current) at = some (min current at)

-- The second loop: the free space of the volumes on which bytes are reserved.
unfoldable pub probe_reserved :
    World → ResourceState → Map Text Text → Map Text (Option ℕ) → Map Text (Option ℕ)
unfolding count_of
probe_reserved world resources [] available = available
probe_reserved world resources ((volume, path) ∷ rest) available =
    probe_reserved world resources rest (
      if nat_beq (count_of resources.storage_reserved_bytes volume) 0
      then available
      else insert available volume (world.available_space path))

abbrev pub or_else : {A : Type 0} → Option A → Option A → Option A
or_else none other = other
or_else (some a) other = some a

-- `preferred_network.filter(|network| queue_admission.has_network(*network))`
abbrev pub wanted_network : QueueAdmission → Option NetworkClass → Option NetworkClass
wanted_network admission none = none
wanted_network admission (some network) =
    if ltb 0 (admission.network_counts network) then some network else none

abbrev pub counts_of : TaskPriority → AdmissionCache → QueueAdmission
counts_of continuation cache = cache.continuation
counts_of bulk cache = cache.bulk

-- What a pop hands on: the state, the cache, and the task if one was taken.
pub record Popped (Task : Type 0) : Type 0 where
  pub state : QueueState Task
  pub cache : AdmissionCache
  pub taken : Option (QueuedTask Task)

module _ {Task : Type 0} where
  -- Why the scan passes a task over: it could not run now, or it writes no volume.
  unfoldable pub is_passed_over : ResourceState → TaskPoolConfig → QueuedTask Task → Bool
  is_passed_over resources config queued =
      run_class_eq queued.resources.run cpu && leb config.cpu_slots resources.cpu_in_use
      || run_class_eq queued.resources.run blocking
        && leb config.blocking_slots resources.blocking_in_use
      || queued.resources.extract && leb config.extract_slots resources.extract_in_use
      || has_mutation_conflict resources queued.resources.mutation_paths
      || no_volumes queued.resources.write_volumes

  -- One round of the scan.
  unfoldable pub scan_task : World → ResourceState → TaskPoolConfig → Scan → QueuedTask Task → Scan
  unfolding is_passed_over note_paths increment_all insert_paths
  scan_task world resources config scan queued =
      let commits =
        if queued.resources.reuse_commit
        then saturating_add scan.snapshot.queued_reuse_commits 1
        else scan.snapshot.queued_reuse_commits in
      let noted = record scan {
        probe_paths = note_paths scan.probe_paths queued.resources.storage_reservations;
        snapshot = record scan.snapshot { queued_reuse_commits = commits };
      } in
      let reservation_at =
        reservation_instant queued.enqueued_at config.volume_write_reservation_delay in
      if is_passed_over resources config queued
      then noted
      else if leb reservation_at world.now
      then record noted {
        nodes =
            if contains scan.nodes queued.node_id then scan.nodes else queued.node_id ∷ scan.nodes;
        counts = increment_all scan.counts queued.resources.write_volumes;
        snapshot = record noted.snapshot {
          reserved_write_volumes =
              insert_paths scan.snapshot.reserved_write_volumes queued.resources.write_volumes;
        };
      }
      else record noted { next_at = sooner scan.next_at reservation_at }

  unfoldable pub scan_all :
      World → ResourceState → TaskPoolConfig → Scan → List (QueuedTask Task) → Scan
  unfolding scan_task
  scan_all world resources config scan [] = scan
  scan_all world resources config scan (queued ∷ rest) =
      scan_all world resources config (scan_task world resources config scan queued) rest

  unfoldable pub build_cache : World → TaskPoolConfig → QueueState Task → AdmissionCache
  unfolding scan_all probe_reserved from_queue
  build_cache world config s =
      let scan = scan_all world s.resources config empty_scan (s.continuation ++ s.bulk) in
      record {
        snapshot = record scan.snapshot {
          storage_available_bytes =
              probe_reserved world s.resources scan.probe_paths
                scan.snapshot.storage_available_bytes;
        };
        continuation = from_queue s.continuation;
        bulk = from_queue s.bulk;
        reserved_writer_counts = scan.counts;
        reserved_writer_nodes = scan.nodes;
        next_writer_reservation_at = scan.next_at;
      }

  -- The cache that `ensure_admission_cache` leaves.
  unfoldable pub ensured_cache : World → TaskPoolConfig → QueueState Task → AdmissionCache
  ensured_cache world config s =
      current_cache world.now (build_cache world config s) s.admission_cache

  abbrev pub queue_of : TaskPriority → QueueState Task → List (QueuedTask Task)
  queue_of continuation s = s.continuation
  queue_of bulk s = s.bulk

  abbrev pub with_queue : TaskPriority → QueueState Task → List (QueuedTask Task) → QueueState Task
  with_queue continuation s queue = record s { continuation = queue }
  with_queue bulk s queue = record s { bulk = queue }

  -- The removal of a selected index, from the queue and from the cache.
  unfoldable pub take_index :
      World → TaskPriority → QueueState Task → AdmissionCache → Option ℕ → Popped Task
  take_index world priority s cache none = record { state = s; cache = cache; taken = none }
  take_index world priority s cache (some index) = elim (get_elem? (queue_of priority s) index) [
    | none ↦ record { state = s; cache = cache; taken = none }
    | some queued ↦ record {
      state = with_queue priority s (remove_index (queue_of priority s) index);
      cache = remove_task world cache priority queued;
      taken = some queued;
    }
  ]

  module _ (world : World) (config : TaskPoolConfig) where
    abbrev pub lane_index :
        TaskPriority → RunClass → QueueState Task → AdmissionCache → Option NetworkClass → Option ℕ
    lane_index priority class s cache network =
        runnable_index (queue_of priority s) class network s.resources config cache.snapshot
          (counts_of priority cache).volume_depth world.now

    -- The index that `remove_runnable` takes: the preferred network first, then any.
    unfoldable pub chosen_index :
        TaskPriority → RunClass → Option NetworkClass → QueueState Task → AdmissionCache → Option ℕ
    chosen_index priority class preferred s cache =
        or_else
          (lane_index priority class s cache (wanted_network (counts_of priority cache) preferred))
          (lane_index priority class s cache none)

    unfoldable pub remove_runnable_from :
        TaskPriority
        → RunClass
        → Option NetworkClass
        → QueueState Task
        → AdmissionCache
        → Popped Task
    unfolding chosen_index take_index
    remove_runnable_from priority class preferred s cache =
        if ltb 0 ((counts_of priority cache).run_counts class)
        then take_index world priority s cache (chosen_index priority class preferred s cache)
        else record { state = s; cache = cache; taken = none }

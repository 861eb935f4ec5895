-- ===== src/TaskPool/Queue.antt =====
-- task_pool/scheduler/queue/priority_queue.rs: the queued tasks and what is cached about them.
-- A task is its node, its resources and its instants; the payload stays a parameter with the two
-- tests that the queue makes of it. An instant counts nanoseconds.
pub mod Select
pub mod Pop
pub mod Scheduler
pub mod Counts
pub mod Conserve
pub mod Safe
pub mod Started
pub mod Fair
pub mod Takes
pub mod Burst
pub mod Cached
pub mod Progress
pub mod Cursor
use griffr.Common.{
  ℕ, ◌+◌, ◌*◌, Bool, Option, none, some, List, [], ◌∷◌, ◌++◌, ltb, if◌then◌else◌, nat_eq, ◌==◌,
  contains, Text, text_eq, saturating_add, saturating_sub, Map, insert, contains_key, decrement_by,
  increment_all, decrement_all, text_order, flagged_eq, flagged_order,
}
use griffr.TaskPool.Request.{
  RunClass, NetworkClass, run_class_eq, network_class_eq, StorageReservation, ResourceRequest,
}
use griffr.TaskPool.Resources.{AdmissionSnapshot, ResourceState, idle, remove_path}

pub data TaskPriority : Type 0 where
  continuation bulk : TaskPriority

-- What the queue asks of a task: `is_md5_verify_task` of verify.rs and `run_class` of routing.rs.
pub record TaskKind (Task : Type 0) : Type 0 where
  pub is_md5_verify_task : Task → Bool
  pub run_class : Task → RunClass

-- The clock and the free space of the disks, as one call of the queue reads them.
pub record World : Type 0 where
  pub now : ℕ
  pub available_space : Text → Option ℕ

pub record QueuedTask (Task : Type 0) : Type 0 where
  pub node_id : ℕ
  pub task : Task
  pub resources : ResourceRequest
  pub enqueued_at : ℕ

-- The arrays that `run_index` and `network_index` index, as functions of the class.
pub record QueueAdmission : Type 0 where
  pub volume_depth : Map Text ℕ
  pub run_counts : RunClass → ℕ
  pub network_counts : NetworkClass → ℕ

abbrev pub empty_admission : QueueAdmission
empty_admission = record { volume_depth = []; run_counts = λ _. 0; network_counts = λ _. 0 }

-- The volumes of a request, as `read.chain(write).chain(metadata)`.
abbrev pub all_volumes : ResourceRequest → List Text
all_volumes r = r.read_volumes ++ r.write_volumes ++ r.metadata_volumes

abbrev pub update_run : (RunClass → ℕ) → RunClass → ℕ → RunClass → ℕ
update_run counts class n other = if run_class_eq class other then n else counts other

abbrev pub update_network : (NetworkClass → ℕ) → NetworkClass → ℕ → NetworkClass → ℕ
update_network counts class n other = if network_class_eq class other then n else counts other

pub record AdmissionCache : Type 0 where
  pub snapshot : AdmissionSnapshot
  pub continuation : QueueAdmission
  pub bulk : QueueAdmission
  pub reserved_writer_counts : Map Text ℕ
  pub reserved_writer_nodes : List ℕ
  pub next_writer_reservation_at : Option ℕ

pub record QueueState (Task : Type 0) : Type 0 where
  pub continuation : List (QueuedTask Task)
  pub bulk : List (QueuedTask Task)
  pub continuation_streak : RunClass → ℕ
  pub run_cursor : ℕ
  pub network_cursor : ℕ
  pub resources : ResourceState
  pub admission_cache : Option AdmissionCache

-- `QueueState::default`
abbrev pub empty_queue : (Task : Type 0) → QueueState Task
empty_queue Task = record {
  continuation = [];
  bulk = [];
  continuation_streak = λ _. 0;
  run_cursor = 0;
  network_cursor = 0;
  resources = idle;
  admission_cache = none;
}

abbrev bump_network : Option NetworkClass → (NetworkClass → ℕ) → NetworkClass → ℕ
bump_network none counts = counts
bump_network (some network) counts =
    update_network counts network (saturating_add (counts network) 1)

abbrev drop_network : Option NetworkClass → (NetworkClass → ℕ) → NetworkClass → ℕ
drop_network none counts = counts
drop_network (some network) counts =
    update_network counts network (saturating_sub (counts network) 1)

-- A number of seconds that an `Instant` cannot hold, in nanoseconds.
abbrev pub instant_limit : ℕ
instant_limit = 9223372036854775808000000000

-- `enqueued_at.checked_add(delay).unwrap_or(enqueued_at)`
abbrev pub reservation_instant : ℕ → ℕ → ℕ
reservation_instant enqueued_at delay =
    if ltb (enqueued_at + delay) instant_limit then enqueued_at + delay else enqueued_at

-- The free space of the volumes that the task reserves, where the snapshot lacks it.
unfoldable pub probe_missing :
    World → Map Text (Option ℕ) → List StorageReservation → Map Text (Option ℕ)
unfolding contains_key
probe_missing world available [] = available
probe_missing world available (r ∷ rest) =
    probe_missing world
      (if contains_key available r.volume
        then available
        else insert available r.volume (world.available_space r.probe_path))
      rest

-- The reserved volumes of a writer that leaves the queue.
unfoldable pub unreserve : Map Text ℕ → List Text → List Text → Map Text ℕ × List Text
unfolding decrement_by contains_key remove_path
unreserve counts volumes [] = (counts, volumes)
unreserve counts volumes (v ∷ rest) =
    let counts' = decrement_by counts v 1 in
    unreserve counts' (if contains_key counts' v then volumes else remove_path volumes v) rest

abbrev pub remove_node : List ℕ → ℕ → List ℕ
remove_node [] id = []
remove_node (n ∷ ns) id = let rest = remove_node ns id in if n == id then rest else n ∷ rest

module _ {Task : Type 0} where
  unfoldable pub add : QueueAdmission → QueuedTask Task → QueueAdmission
  unfolding increment_all
  add admission queued =
      let run = queued.resources.run in
      record {
        volume_depth = increment_all admission.volume_depth (all_volumes queued.resources);
        run_counts =
            update_run admission.run_counts run (saturating_add (admission.run_counts run) 1);
        network_counts = bump_network queued.resources.network admission.network_counts;
      }

  unfoldable pub add_all : QueueAdmission → List (QueuedTask Task) → QueueAdmission
  unfolding add
  add_all admission [] = admission
  add_all admission (queued ∷ rest) = add_all (add admission queued) rest

  unfoldable pub from_queue : List (QueuedTask Task) → QueueAdmission
  unfolding add_all
  from_queue queue = add_all empty_admission queue

  -- `QueueAdmission::remove`
  unfoldable pub drop_queued : QueueAdmission → QueuedTask Task → QueueAdmission
  unfolding decrement_all
  drop_queued admission queued =
      let run = queued.resources.run in
      record {
        volume_depth = decrement_all admission.volume_depth (all_volumes queued.resources);
        run_counts =
            update_run admission.run_counts run (saturating_sub (admission.run_counts run) 1);
        network_counts = drop_network queued.resources.network admission.network_counts;
      }

  -- The counts of the queue that the task leaves, of the two.
  abbrev pub left_by :
      TaskPriority → TaskPriority → QueuedTask Task → QueueAdmission → QueueAdmission
  left_by continuation continuation queued admission = drop_queued admission queued
  left_by bulk bulk queued admission = drop_queued admission queued
  left_by _ _ queued admission = admission

  -- `AdmissionCache::remove_task`
  unfoldable pub remove_task :
      World → AdmissionCache → TaskPriority → QueuedTask Task → AdmissionCache
  unfolding drop_queued probe_missing unreserve
  remove_task world cache priority queued =
      let request = queued.resources in
      let writer = contains cache.reserved_writer_nodes queued.node_id in
      let (counts, volumes) =
        unreserve cache.reserved_writer_counts cache.snapshot.reserved_write_volumes
          request.write_volumes in
      record {
        snapshot = record {
          reserved_write_volumes =
              if writer then volumes else cache.snapshot.reserved_write_volumes;
          storage_available_bytes =
              probe_missing world cache.snapshot.storage_available_bytes
                request.storage_reservations;
          queued_reuse_commits =
              if request.reuse_commit
              then saturating_sub cache.snapshot.queued_reuse_commits 1
              else cache.snapshot.queued_reuse_commits;
        };
        continuation = left_by continuation priority queued cache.continuation;
        bulk = left_by bulk priority queued cache.bulk;
        reserved_writer_counts = if writer then counts else cache.reserved_writer_counts;
        reserved_writer_nodes = remove_node cache.reserved_writer_nodes queued.node_id;
        next_writer_reservation_at = cache.next_writer_reservation_at;
      }

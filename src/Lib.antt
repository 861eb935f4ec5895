-- ===== src/Lib.antt =====
-- griffr installs and updates games. Its runtime, crates/griffr-runtime, works through one bounded
-- task pool and downloads archives in several volumes by byte ranges.
--
-- The parts, their files and the source they model, below crates/griffr-runtime/src:
-- Common and its children: Boolean tests, lists, byte strings, 64-bit words, maps, counters and
--   orders that the parts share.
-- TaskPool/Config: task_pool/types/config.rs, the slots and the volume policies.
-- TaskPool/Request: task_pool/scheduler/routing.rs, what a task asks for (ResourceRequest), and
--   normalize_volumes.
-- TaskPool/Resources and TaskPool/Admission: task_pool/scheduler/queue/resources.rs. ResourceState
--   counts what is in use, and acquire and release change the counters; can_acquire, in Admission,
--   tests a request. Resources/Running has the running tasks as a step relation over acquire and
--   release.
-- TaskPool/Queue: task_pool/scheduler/queue/priority_queue.rs. Queue has the tasks and the
--   admission cache, Queue/Select the choice of a task (runnable_index), Queue/Pop the cache and the
--   removal of a task (ensure_admission_cache, remove_runnable_from), Queue/Scheduler the lanes and
--   the methods of SchedulerQueue (push, pop_next, restore_front, release as release_task).
-- TaskPool/Graph: task_pool/graph, the dependency graph of a command. Graph/Builder has add_task and
--   build_checked, Graph/Settle what follows when a node finishes (finish_succeeded, finish_failed,
--   finish_cancelled, cancel_node, notify_waiters), Graph/Expansion the nodes that a run adds and
--   TaskRun, Graph/Resolve and Graph/Install install_expansion, start and finish. Graph/Run has
--   the calls of the scheduler as a step relation.
-- Archive/Ranges: the cached byte ranges of a volume in download/extractor/layout/volume.rs
--   (insert_cached_range, range_covered, subtract_cached, missing_bytes_in_range).
-- Archive/Names: the names of the files of a range cache in the same file.
-- Archive/Layout: the volumes laid end to end (from_expected, volume_index_bounds).
-- Archive/Availability: refresh_local_full_volumes and range_is_available.
-- Archive/Requests: missing_bytes and missing_range_requests.
-- Archive/Registration: register_range, register_full_volume and prune_range_cache.
-- Archive/Remote: from_remote.
-- Progress/Outcomes: progress.rs, PathOutcomeTracker; Progress/RunningBytes: RunningByteProgress, whose
--   record is record_bytes.
-- Update: update_plan.rs, the manifest delta and the choice between patch and full package, with
--   normalize_logical_path of paths.rs and the API types of crates/griffr-hypergryph-api/src/types.
-- Patch: patch_apply/dependency.rs and the types of patch_apply/plan.rs. Plan has the types,
--   Dependencies the three functions, Space the VolumeSpaceLedger of patch_apply/space_use.rs.
--
-- How they interact: the queue asks can_acquire of the resources for every task it considers, with
-- the policies of the configuration, and acquires what a started task asks for; the driver gives it
-- back by release. The graph hands the queue the tasks that became ready, and takes the outcome of
-- each run by finish. The layout of an archive says which bytes a task has to fetch, and takes up
-- the ranges that were fetched.
--
-- Numbers and bounds: u64 and usize are natural numbers with saturation and wrap-around written out
-- at 64 bits. An Instant counts nanoseconds, and one call reads the clock and the free space of a
-- disk once. A string or path is the list of its bytes; in a patch plan a path is the list of its components.
-- A map is an association list, a hash set
-- the list of its members. Loops are structural recursion; a decimal number has at most twenty
-- digits, which is enough for a word. The calls among the methods that settle a node run on fuel,
-- one round for each node of the graph: every call that goes on has settled one more node. The
-- search of finish_dependents_of has a round for each edge. The loops of
-- validate_acyclic and entry_wave_indices have a round for each entry: each round takes an entry, and
-- none comes twice. A state that the source changes is passed on.
--
-- Parameters: the task of a node, the payload of a task with the tests the queue makes of it (TaskKind), the clock and
-- the free space (World), the number of processors, and the file system (Disk).
--
-- Not modelled: the runners of tasks, the file and network operations of single tasks,
-- the ZIP reader, the rest of the patch planner, the API clients, the command line and the GUI.
pub mod Archive
pub mod Common
pub mod Patch
pub mod Progress
pub mod TaskPool
pub mod Update

-- ===== src/TaskPool/Queue/Scheduler.antt =====
-- task_pool/scheduler/queue/priority_queue.rs: the order in which lanes and networks are tried, and
-- the methods of `SchedulerQueue`.
use griffr.Common.{
  ℕ, zero, suc, ◌+◌, ◌%◌, Bool, ◌&&◌, not, Option, none, some, List, [], ◌∷◌, ◌++◌, ltb, leb,
  if◌then◌else◌, nat_eq, length, text_eq, saturating_add, text_order, flagged_eq, flagged_order,
}
use griffr.TaskPool.Config.{TaskPoolConfig}
use griffr.TaskPool.Request.{
  RunClass, async_io, cpu, blocking, NetworkClass, general, vfs, archive, archive_background,
  run_class_eq, ResourceRequest,
}
use griffr.TaskPool.Resources.{acquire, release}
use griffr.TaskPool.Queue.{
  TaskPriority, continuation, bulk, TaskKind, World, QueuedTask, update_run, AdmissionCache,
  QueueState,
}
use griffr.TaskPool.Queue.Select.{md5_verify_batch_index}
use griffr.TaskPool.Queue.Pop.{
  Popped, ensured_cache, queue_of, with_queue, take_index, remove_runnable_from,
}

abbrev pub continuation_burst : ℕ
continuation_burst = 4

-- `RUN_SCHEDULE[index]`, four entries.
abbrev pub run_schedule : ℕ → RunClass
run_schedule zero = async_io
run_schedule (suc zero) = cpu
run_schedule (suc (suc zero)) = blocking
run_schedule (suc (suc (suc n))) = async_io

-- `NETWORK_SCHEDULE[index]`, eight entries.
abbrev pub network_schedule : ℕ → NetworkClass
network_schedule index =
    if ltb index 4
    then general
    else if ltb index 6
    then archive
    else if ltb index 7
    then vfs
    else archive_background

abbrev pub is_async : RunClass → Bool
is_async class = run_class_eq class async_io

module _ {Task : Type 0} where
  -- `self.continuation_streak[class_index] = n`, when a task was taken.
  abbrev pub set_streak : RunClass → ℕ → Popped Task → Popped Task
  set_streak class n popped = record popped {
    state = record popped.state {
      continuation_streak = update_run popped.state.continuation_streak class n;
    };
  }

  -- The outcome if a task was taken, else what is tried next.
  abbrev pub or_try :
      Popped Task → (Popped Task → Popped Task) → (Popped Task → Popped Task) → Popped Task
  or_try popped done next = elim popped.taken [ some _ ↦ done popped | none ↦ next popped ]

  module _ (world : World) (config : TaskPoolConfig) where
    -- The network that an async pop prefers, and the cursor after it.
    abbrev pub preferred_network : RunClass → QueueState Task → Option NetworkClass
    preferred_network class s =
        if is_async class then some (network_schedule (s.network_cursor % 8)) else none

    abbrev pub turn_network : RunClass → QueueState Task → QueueState Task
    turn_network class s =
        if is_async class then record s { network_cursor = (s.network_cursor + 1) % 8 } else s

    unfoldable pub pop_runnable : RunClass → QueueState Task → AdmissionCache → Popped Task
    pop_runnable class s cache =
        let preferred = preferred_network class s in
        let turned = turn_network class s in
        let streak = s.continuation_streak class in
        let try_bulk = λ (s' : QueueState Task) (cache' : AdmissionCache).
          remove_runnable_from world config bulk class preferred s' cache' in
        if leb continuation_burst streak
        then or_try (try_bulk turned cache) (set_streak class 0) (λ p.
          or_try (remove_runnable_from world config continuation class preferred p.state p.cache)
            (set_streak class 1) (λ q. q))
        else or_try (remove_runnable_from world config continuation class preferred turned cache)
            (set_streak class (saturating_add streak 1))
            (λ p. or_try (try_bulk p.state p.cache) (set_streak class 0) (λ q. q))

    -- The loop `for offset in 0..RUN_SCHEDULE.len()`, over the offsets that are left.
    unfoldable pub try_lanes : Bool → List ℕ → QueueState Task → AdmissionCache → Popped Task
    try_lanes dispatch [] s cache = record { state = s; cache = cache; taken = none }
    try_lanes dispatch (offset ∷ rest) s cache =
        let index = (s.run_cursor + offset) % 4 in
        let class = run_schedule index in
        let skipped = try_lanes dispatch rest s cache in
        let popped = pop_runnable class s cache in
        let onward = try_lanes dispatch rest popped.state popped.cache in
        if not dispatch && not (is_async class) then skipped else elim popped.taken [
          | some _ ↦ record popped { state = record popped.state { run_cursor = (index + 1) % 4 } }
          | none ↦ onward
        ]

    -- `QueueState::pop_next`; the cache is put back.
    unfoldable pub pop_queued : Bool → QueueState Task → QueueState Task × Option (QueuedTask Task)
    pop_queued dispatch s =
        let popped = try_lanes dispatch (0 ∷ 1 ∷ 2 ∷ 3 ∷ []) s (ensured_cache world config s) in
        (record popped.state { admission_cache = some popped.cache }, popped.taken)

    -- The continuation queue first, then the bulk queue.
    unfoldable pub pick_md5_verify : TaskKind Task → QueueState Task → AdmissionCache → Popped Task
    pick_md5_verify kind s cache =
        or_try
          (take_index world continuation s cache
            (md5_verify_batch_index kind s.continuation s.resources config cache.snapshot))
          (λ p. p)
          (λ p.
            take_index world bulk p.state p.cache
              (md5_verify_batch_index kind p.state.bulk p.state.resources config p.cache.snapshot))

    -- `QueueState::pop_md5_verify_for_batch`
    unfoldable pub pop_md5_verify_for_batch :
        TaskKind Task → QueueState Task → QueueState Task × Option (QueuedTask Task)
    unfolding pick_md5_verify
    pop_md5_verify_for_batch kind s =
        let popped = pick_md5_verify kind s (ensured_cache world config s) in
        (record popped.state { admission_cache = some popped.cache }, popped.taken)

pub record ScheduledTask (Task : Type 0) : Type 0 where
  pub node_id : ℕ
  pub task : Task
  pub resources : ResourceRequest
  pub enqueued_at : ℕ
  pub started_at : ℕ

module _ {Task : Type 0} where
  unfoldable pub push :
      QueueState Task → ℕ → ℕ → Task → ResourceRequest → TaskPriority → QueueState Task
  push s now node_id task resources priority =
      let queued : QueuedTask Task = record {
        node_id = node_id;
        task = task;
        resources = resources;
        enqueued_at = now;
      } in
      record (with_queue priority s (queue_of priority s ++ queued ∷ [])) { admission_cache = none }

  unfoldable pub restore_front :
      TaskKind Task → QueueState Task → ScheduledTask Task → QueueState Task
  unfolding release
  restore_front kind s scheduled = record s {
    resources = release s.resources scheduled.resources;
    continuation =
        record {
          node_id = scheduled.node_id;
          task = scheduled.task;
          resources = record scheduled.resources { run = kind.run_class scheduled.task };
          enqueued_at = scheduled.enqueued_at;
        }
        ∷ s.continuation;
    admission_cache = none;
  }

  abbrev pub scheduled_at : ℕ → QueuedTask Task → ResourceRequest → ScheduledTask Task
  scheduled_at now queued resources = record {
    node_id = queued.node_id;
    task = queued.task;
    resources = resources;
    enqueued_at = queued.enqueued_at;
    started_at = now;
  }

  -- A task that was taken acquires its resources and is scheduled.
  unfoldable pub start_task :
      ℕ
      → (QueuedTask Task → ResourceRequest)
      → QueueState Task × Option (QueuedTask Task)
      → QueueState Task × Option (ScheduledTask Task)
  unfolding acquire
  start_task now request (s, none) = (s, none)
  start_task now request (s, some queued) = (
    record s { resources = acquire s.resources (request queued) },
    some (scheduled_at now queued (request queued)),
  )

  unfoldable pub pop_next :
      World
      → TaskPoolConfig
      → Bool
      → QueueState Task
      → QueueState Task × Option (ScheduledTask Task)
  unfolding pop_queued start_task
  pop_next world config dispatch s =
      start_task world.now (λ queued. queued.resources) (pop_queued world config dispatch s)

  unfoldable pub pop_md5_verify_batch_member :
      World
      → TaskPoolConfig
      → TaskKind Task
      → QueueState Task
      → QueueState Task × Option (ScheduledTask Task)
  unfolding pop_md5_verify_for_batch start_task
  pop_md5_verify_batch_member world config kind s =
      start_task world.now (λ queued. record queued.resources { run = async_io })
        (pop_md5_verify_for_batch world config kind s)

  unfoldable pub release_task : QueueState Task → ResourceRequest → QueueState Task
  unfolding release
  release_task s resources = record s {
    resources = release s.resources resources;
    admission_cache = none;
  }

  unfoldable pub queued_len : QueueState Task → ℕ
  queued_len s = saturating_add (length s.continuation) (length s.bulk)

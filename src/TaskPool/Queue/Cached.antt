-- ===== src/TaskPool/Queue/Cached.antt =====
-- task_pool/scheduler/queue/priority_queue.rs: the admission cache under the methods of
-- `SchedulerQueue`.
use griffr.Common.{
  ℕ, ◌+◌, ◌%◌, ◌≡◌, refl, ap, subst, inl, inr, Bool, ◌&&◌, not, Option, none, some, List, [], ◌∷◌,
  arith, ltb, leb, Bool-cases, Option-cases, nat_eq, get_elem?, remove_index, total-remove_index,
  text_eq, text_order, flagged_eq, flagged_order,
}
use griffr.TaskPool.Config.{TaskPoolConfig}
use griffr.TaskPool.Request.{RunClass, NetworkClass, run_class_eq, ResourceRequest}
use griffr.TaskPool.Resources.{one_if}
use griffr.TaskPool.Queue.{
  TaskPriority, continuation, bulk, TaskKind, World, QueuedTask, QueueAdmission, AdmissionCache,
  QueueState, drop_queued, remove_task,
}
use griffr.TaskPool.Queue.Select.{md5_verify_batch_index}
use griffr.TaskPool.Queue.Pop.{
  counts_of, Popped, ensured_cache, queue_of, with_queue, take_index, remove_runnable_from,
}
use griffr.TaskPool.Queue.Scheduler.{
  continuation_burst, run_schedule, is_async, set_streak, or_try, turn_network, pop_runnable,
  try_lanes, pop_queued, pick_md5_verify, pop_md5_verify_for_batch, ScheduledTask, push,
  restore_front, start_task, pop_next, pop_md5_verify_batch_member, release_task,
}
use griffr.TaskPool.Queue.Counts.{
  run_class_eq_iff, lane_tasks, CountsFit, IsCountable, IsCached, ensured_cache-CountsFit,
}
use griffr.TaskPool.Queue.Safe.{own_resources, turn_network-Same}
use griffr.TaskPool.Queue.Started.{as_follower}
use griffr.TaskPool.Queue.Progress.{CountsFit-Same}

-- A call of the scheduler.
pub data Call (Task : Type 0) : Type 0 where
  pushes : ℕ → ℕ → Task → ResourceRequest → TaskPriority → Call Task
  pops : World → TaskPoolConfig → Bool → Call Task
  follows : World → TaskPoolConfig → TaskKind Task → Call Task
  restores : TaskKind Task → ScheduledTask Task → Call Task
  releases : ResourceRequest → Call Task

module _ {Task : Type 0} where
  -- The cache that a pop hands on counts the queues that it hands on.
  abbrev IsCounted : Popped Task → Type 0
  IsCounted p = CountsFit p.cache p.state

  -- A task that leaves its queue leaves the count of its lane.
  run_counts-drop_queued :
      (a : QueueAdmission) (queue : List (QueuedTask Task)) (index : ℕ) (q : QueuedTask Task)
      (class : RunClass)
      → get_elem? queue index ≡ some q
      → ((other : RunClass) → a.run_counts other ≡ lane_tasks other queue)
      → (drop_queued a q).run_counts class ≡ lane_tasks class (remove_index queue index)
  unfolding drop_queued
  run_counts-drop_queued a queue index q class at counts =
      let parts =
        total-remove_index (λ t. one_if (run_class_eq t.resources.run class)) queue index at in
      elim (Bool-cases (run_class_eq q.resources.run class)) [
        | inl e ↦
            let same = (run_class_eq_iff q.resources.run class).0 e in
            ground (arith, e, parts, counts class, ap a.run_counts same)
        | inr e ↦ ground (arith, e, parts, counts class)
      ]

  taken-IsCounted :
      (world : World) (priority : TaskPriority) (s : QueueState Task) (cache : AdmissionCache)
      (index : ℕ) (q : QueuedTask Task)
      → get_elem? (queue_of priority s) index ≡ some q
      → CountsFit cache s
      → CountsFit
          (remove_task world cache priority q)
          (with_queue priority s (remove_index (queue_of priority s) index))
  unfolding remove_task
  taken-IsCounted world continuation s cache index q at f = record {
    continuation_counts = λ class.
        run_counts-drop_queued cache.continuation s.continuation index q class at
          f.continuation_counts;
    bulk_counts = f.bulk_counts;
  }
  taken-IsCounted world bulk s cache index q at f = record {
    continuation_counts = f.continuation_counts;
    bulk_counts = λ class. run_counts-drop_queued cache.bulk s.bulk index q class at f.bulk_counts;
  }

  take_index-IsCounted :
      (world : World) (priority : TaskPriority) (s : QueueState Task) (cache : AdmissionCache)
      (index : Option ℕ)
      → CountsFit cache s
      → IsCounted (take_index world priority s cache index)
  unfolding take_index
  take_index-IsCounted world priority s cache none f = f
  take_index-IsCounted world priority s cache (some index) f =
      elim (Option-cases (get_elem? (queue_of priority s) index)) [
        | inl e ↦ rw (e, take_index) f
        | inr (q, e) ↦ rw (e, take_index) (taken-IsCounted world priority s cache index q e f)
      ]

  set_streak-IsCounted :
      (class : RunClass) (n : ℕ) (p : Popped Task) → IsCounted p → IsCounted (set_streak class n p)
  set_streak-IsCounted class n p f = record {
    continuation_counts = f.continuation_counts;
    bulk_counts = f.bulk_counts;
  }

  or_try-IsCounted :
      (p : Popped Task) (done next : Popped Task → Popped Task)
      → IsCounted (done p)
      → IsCounted (next p)
      → IsCounted (or_try p done next)
  or_try-IsCounted p done next d n = elim (Option-cases p.taken) [
    | inl e ↦ rw (e, or_try) n
    | inr (x, e) ↦ rw (e, or_try) d
  ]

  module _ (world : World) (config : TaskPoolConfig) where
    remove_runnable_from-IsCounted :
        (priority : TaskPriority) (class : RunClass) (preferred : Option NetworkClass)
        (s : QueueState Task) (cache : AdmissionCache)
        → CountsFit cache s
        → IsCounted (remove_runnable_from world config priority class preferred s cache)
    unfolding remove_runnable_from
    remove_runnable_from-IsCounted priority class preferred s cache f =
        elim (Bool-cases (ltb 0 ((counts_of priority cache).run_counts class))) [
          | inl e ↦ rw e (take_index-IsCounted world priority s cache _ f)
          | inr e ↦ rw e f
        ]

    two_tries-IsCounted :
        (first second : TaskPriority) (m n : ℕ) (class : RunClass) (preferred : Option NetworkClass)
        (s : QueueState Task) (cache : AdmissionCache)
        → CountsFit cache s
        → IsCounted (
            or_try
              (remove_runnable_from world config first class preferred s cache)
              (set_streak class m)
              (λ p.
                or_try
                  (remove_runnable_from world config second class preferred p.state p.cache)
                  (set_streak class n)
                  (λ q. q)))
    two_tries-IsCounted first second m n class preferred s cache f =
        let p = remove_runnable_from world config first class preferred s cache in
        let h = remove_runnable_from-IsCounted first class preferred s cache f in
        let q = remove_runnable_from world config second class preferred p.state p.cache in
        let k = remove_runnable_from-IsCounted second class preferred p.state p.cache h in
        or_try-IsCounted p (set_streak class m)
          (λ r.
            or_try (remove_runnable_from world config second class preferred r.state r.cache)
              (set_streak class n) (λ t. t))
          (set_streak-IsCounted class m p h)
          (or_try-IsCounted q (set_streak class n) (λ t. t) (set_streak-IsCounted class n q k) k)

    pop_runnable-IsCounted :
        (class : RunClass) (s : QueueState Task) (cache : AdmissionCache)
        → CountsFit cache s
        → IsCounted (pop_runnable world config class s cache)
    unfolding pop_runnable
    pop_runnable-IsCounted class s cache f =
        let turned = turn_network world config class s in
        let g =
          CountsFit-Same world config s turned cache cache (turn_network-Same world config class s)
            refl f in
        elim (Bool-cases (leb continuation_burst (s.continuation_streak class))) [
          | inl e ↦ rw e (two_tries-IsCounted bulk continuation 0 1 class _ turned cache g)
          | inr e ↦ rw e (two_tries-IsCounted continuation bulk _ 0 class _ turned cache g)
        ]

    try_lanes-IsCounted :
        (dispatch : Bool) (offsets : List ℕ) (s : QueueState Task) (cache : AdmissionCache)
        → CountsFit cache s
        → IsCounted (try_lanes world config dispatch offsets s cache)
    unfolding try_lanes
    try_lanes-IsCounted dispatch [] s cache f = f
    try_lanes-IsCounted dispatch (offset ∷ rest) s cache f =
        let class = run_schedule ((s.run_cursor + offset) % 4) in
        let p = pop_runnable world config class s cache in
        let h = pop_runnable-IsCounted class s cache f in
        elim (Bool-cases (not dispatch && not (is_async class))) [
          | inl skip ↦ rw skip (try_lanes-IsCounted dispatch rest s cache f)
          | inr go ↦ rw go (elim (Option-cases p.taken) [
            | inl e ↦ rw (e, try_lanes) (try_lanes-IsCounted dispatch rest p.state p.cache h)
            | inr (x, e) ↦
                rw (e, try_lanes)
                  (record {
                    continuation_counts = h.continuation_counts;
                    bulk_counts = h.bulk_counts;
                  })
          ])
        ]

  pick_md5_verify-IsCounted :
      (world : World) (config : TaskPoolConfig) (kind : TaskKind Task) (s : QueueState Task)
      (cache : AdmissionCache)
      → CountsFit cache s
      → IsCounted (pick_md5_verify world config kind s cache)
  unfolding pick_md5_verify
  pick_md5_verify-IsCounted world config kind s cache f =
      let p =
        take_index world continuation s cache
          (md5_verify_batch_index kind s.continuation s.resources config cache.snapshot) in
      let h = take_index-IsCounted world continuation s cache _ f in
      or_try-IsCounted p (λ q. q)
        (λ (q : Popped Task).
          take_index world bulk q.state q.cache
            (md5_verify_batch_index kind q.state.bulk q.state.resources config q.cache.snapshot))
        h (take_index-IsCounted world bulk p.state p.cache _ h)

  -- The queue after a call.
  abbrev pub called : QueueState Task → Call Task → QueueState Task
  called s (pushes now node_id task resources priority) = push s now node_id task resources priority
  called s (pops world config dispatch) = (pop_next world config dispatch s).0
  called s (follows world config kind) = (pop_md5_verify_batch_member world config kind s).0
  called s (restores kind scheduled) = restore_front kind s scheduled
  called s (releases resources) = release_task s resources

  start_task-IsCached :
      (now : ℕ) (request : QueuedTask Task → ResourceRequest) (s : QueueState Task)
      (taken : Option (QueuedTask Task))
      → IsCached s
      → IsCached (start_task now request (s, taken)).0
  unfolding start_task
  start_task-IsCached now request s none h = h
  start_task-IsCached now request s (some q) h = λ cache e. record {
    continuation_counts = (h cache e).continuation_counts;
    bulk_counts = (h cache e).bulk_counts;
  }

  held-IsCached :
      (p : Popped Task) → IsCounted p → IsCached (record p.state { admission_cache = some p.cache })
  held-IsCached p f = λ cache e.
      let same : p.cache ≡ cache = ground (arith, e) in
      subst (λ c. CountsFit c (record p.state { admission_cache = some p.cache })) same
        (record { continuation_counts = f.continuation_counts; bulk_counts = f.bulk_counts })

  -- If the queues hold at most as many tasks as a word counts, then after push, pop_next,
  -- pop_md5_verify_batch_member, restore_front or release a cache that the queue carries still
  -- counts the tasks of each of its queues by lane, if it did before.
  pub called-IsCached :
      (s : QueueState Task) (call : Call Task)
      → IsCountable s
      → IsCached s
      → IsCached (called s call)
  unfolding push restore_front release_task pop_next pop_queued pop_md5_verify_batch_member
      pop_md5_verify_for_batch
  called-IsCached s (pushes now node_id task resources continuation) c h = λ cache e. cc
  called-IsCached s (pushes now node_id task resources bulk) c h = λ cache e. cc
  called-IsCached s (restores kind scheduled) c h = λ cache e. cc
  called-IsCached s (releases resources) c h = λ cache e. cc
  called-IsCached s (pops world config dispatch) c h =
      let offsets = 0 ∷ 1 ∷ 2 ∷ 3 ∷ [] in
      let cache = ensured_cache world config s in
      let p = try_lanes world config dispatch offsets s cache in
      start_task-IsCached world.now own_resources
        (record p.state { admission_cache = some p.cache }) p.taken
        (held-IsCached p (
          try_lanes-IsCounted world config dispatch offsets s cache
            (ensured_cache-CountsFit world config s c h)))
  called-IsCached s (follows world config kind) c h =
      let cache = ensured_cache world config s in
      let p = pick_md5_verify world config kind s cache in
      start_task-IsCached world.now as_follower (record p.state { admission_cache = some p.cache })
        p.taken
        (held-IsCached p (
          pick_md5_verify-IsCounted world config kind s cache
            (ensured_cache-CountsFit world config s c h)))

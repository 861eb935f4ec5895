-- ===== src/TaskPool/Queue/Safe.antt =====
-- task_pool/scheduler/queue/priority_queue.rs: every way to pop, as a pop of Queue/Conserve.
use griffr.Common.{
  ℕ, ◌+◌, ◌%◌, ◌≡◌, refl, ◌⊎◌, inl, inr, Bool, ◌&&◌, not, Option, none, some, List, [], ◌∷◌, arith,
  ltb, leb, Bool-cases, Option-cases, nat_eq, get_elem?, Text, text_eq, Map, text_order, flagged_eq,
  flagged_order,
}
use griffr.TaskPool.Config.{TaskPoolConfig}
use griffr.TaskPool.Request.{RunClass, NetworkClass, ResourceRequest}
use griffr.TaskPool.Resources.{AdmissionSnapshot, ResourceState}
use griffr.TaskPool.Queue.{
  TaskPriority, continuation, bulk, World, QueuedTask, AdmissionCache, QueueState,
}
use griffr.TaskPool.Queue.Select.{priority_rank, runnable, runnable_index}
use griffr.TaskPool.Queue.Select.Laws.{select_index-passes}
use griffr.TaskPool.Queue.Pop.{
  or_else, wanted_network, counts_of, Popped, queue_of, lane_index, chosen_index,
  remove_runnable_from,
}
use griffr.TaskPool.Queue.Scheduler.{
  continuation_burst, run_schedule, is_async, set_streak, or_try, preferred_network, turn_network,
  pop_runnable, try_lanes,
}
use griffr.TaskPool.Queue.Conserve.{
  CanRun, IsPop, Same, IsPop-from, IsPop-into, IsPop-next, or_try-IsPop, empty-IsPop,
  take_index-IsPop,
}

or_else-eq-some :
    {A : Type 0} (a b : Option A) (k : A) → or_else a b ≡ some k → (a ≡ some k) ⊎ (b ≡ some k)
or_else-eq-some none b k h = inr h
or_else-eq-some (some a) b k h = inl h

abbrev pub own_resources : {Task : Type 0} → QueuedTask Task → ResourceRequest
own_resources queued = queued.resources

module _ {Task : Type 0} (world : World) (config : TaskPoolConfig) where
  pub runnable_index-CanRun :
      (queue : List (QueuedTask Task)) (class : RunClass) (network : Option NetworkClass)
      (resources : ResourceState) (snapshot : AdmissionSnapshot) (depth : Map Text ℕ) (now k : ℕ)
      → runnable_index queue class network resources config snapshot depth now ≡ some k
      → (x : QueuedTask Task) × (get_elem? queue k ≡ some x)
        × CanRun config resources snapshot own_resources x
  unfolding runnable_index runnable
  runnable_index-CanRun queue class network resources snapshot depth now k h =
      let (x, at, passes) =
        select_index-passes (runnable class network resources config snapshot)
          (priority_rank now snapshot depth) queue k h in
      (x, at, ground (arith, passes))

  pub chosen_index-CanRun :
      (priority : TaskPriority) (class : RunClass) (preferred : Option NetworkClass)
      (s : QueueState Task) (cache : AdmissionCache) (k : ℕ)
      → chosen_index world config priority class preferred s cache ≡ some k
      → (x : QueuedTask Task) × (get_elem? (queue_of priority s) k ≡ some x)
        × CanRun config s.resources cache.snapshot own_resources x
  unfolding chosen_index
  chosen_index-CanRun priority class preferred s cache k h =
      elim (or_else-eq-some
        (lane_index world config priority class s cache
          (wanted_network (counts_of priority cache) preferred))
        (lane_index world config priority class s cache none) k h) [
          | inl e ↦ lane (wanted_network (counts_of priority cache) preferred) e
          | inr e ↦ lane none e
        ]
    where
      lane :
          (network : Option NetworkClass)
          → lane_index world config priority class s cache network ≡ some k
          → (x : QueuedTask Task) × (get_elem? (queue_of priority s) k ≡ some x)
            × CanRun config s.resources cache.snapshot own_resources x
      lane network e =
          runnable_index-CanRun (queue_of priority s) class network s.resources cache.snapshot
            (counts_of priority cache).volume_depth world.now k e

  pub remove_runnable_from-IsPop :
      (priority : TaskPriority) (class : RunClass) (preferred : Option NetworkClass)
      (s : QueueState Task) (cache : AdmissionCache)
      → IsPop config own_resources s cache
          (remove_runnable_from world config priority class preferred s cache)
  unfolding remove_runnable_from
  remove_runnable_from-IsPop priority class preferred s cache =
      elim (Bool-cases (ltb 0 ((counts_of priority cache).run_counts class))) [
        | inl some_left ↦ rw some_left (
            take_index-IsPop config own_resources world priority s cache
              (chosen_index world config priority class preferred s cache)
              (chosen_index-CanRun priority class preferred s cache))
        | inr none_left ↦ rw none_left (empty-IsPop config own_resources s cache)
      ]

  pub Same-refl : (s : QueueState Task) → Same s s
  Same-refl s = record { continuation = refl; bulk = refl; resources = refl }

  pub turn_network-Same :
      (class : RunClass) (s : QueueState Task) → Same s (turn_network world config class s)
  turn_network-Same class s = elim (Bool-cases (is_async class)) [
    | inl e ↦ rw e (record { continuation = refl; bulk = refl; resources = refl })
    | inr e ↦ rw e (Same-refl s)
  ]

  pub pop_runnable-IsPop :
      (class : RunClass) (s : QueueState Task) (cache : AdmissionCache)
      → IsPop config own_resources s cache (pop_runnable world config class s cache)
  unfolding pop_runnable
  pop_runnable-IsPop class s cache =
      elim (Bool-cases (leb continuation_burst (s.continuation_streak class))) [
        | inl e ↦ rw e (from_turned (two_tries bulk continuation _ _))
        | inr e ↦ rw e (from_turned (two_tries continuation bulk _ _))
      ]
    where
      from_turned :
          {p : Popped Task}
          → IsPop config own_resources (turn_network world config class s) cache p
          → IsPop config own_resources s cache p
      from_turned {p} h =
          IsPop-from config own_resources (turn_network world config class s) s cache p
            (turn_network-Same class s) h

      with_streak :
          (n : ℕ) (s' : QueueState Task) (c : AdmissionCache) (p : Popped Task)
          → IsPop config own_resources s' c p
          → IsPop config own_resources s' c (set_streak class n p)
      with_streak n s' c p h =
          IsPop-into config own_resources s' c p (set_streak class n p).state
            (record { continuation = refl; bulk = refl; resources = refl }) h

      attempt :
          (priority : TaskPriority) (s' : QueueState Task) (c : AdmissionCache)
          → IsPop config own_resources s' c (
              remove_runnable_from world config priority class
                (preferred_network world config class s)
                s'
                c)
      attempt priority s' c =
          remove_runnable_from-IsPop priority class (preferred_network world config class s) s' c

      tried : TaskPriority → QueueState Task → AdmissionCache → Popped Task
      tried priority s' c =
          remove_runnable_from world config priority class (preferred_network world config class s)
            s' c

      then : TaskPriority → ℕ → Popped Task → Popped Task
      then second n p = or_try (tried second p.state p.cache) (set_streak class n) (λ q. q)

      then-IsPop :
          (second : TaskPriority) (n : ℕ) (p : Popped Task)
          → IsPop config own_resources p.state p.cache (then second n p)
      then-IsPop second n p =
          let q = tried second p.state p.cache in
          let h = attempt second p.state p.cache in
          or_try-IsPop config own_resources p.state p.cache q (set_streak class n) (λ r. r) h
            (with_streak n p.state p.cache q h) (λ _. h)

      two_tries :
          (first second : TaskPriority) (m n : ℕ)
          → IsPop config own_resources (turn_network world config class s) cache (
              or_try
                (tried first (turn_network world config class s) cache)
                (set_streak class m)
                (then second n))
      two_tries first second m n =
          let s' = turn_network world config class s in
          let p = tried first s' cache in
          let h = attempt first s' cache in
          or_try-IsPop config own_resources s' cache p (set_streak class m) (then second n) h
            (with_streak m s' cache p h)
            (λ e.
              IsPop-next config own_resources s' cache p (then second n p) h e
                (then-IsPop second n p))

  -- A lane that is tried, and the cursor after it.
  pub try_lanes-IsPop :
      (dispatch : Bool) (offsets : List ℕ) (s : QueueState Task) (cache : AdmissionCache)
      → IsPop config own_resources s cache (try_lanes world config dispatch offsets s cache)
  unfolding try_lanes
  try_lanes-IsPop dispatch [] s cache = empty-IsPop config own_resources s cache
  try_lanes-IsPop dispatch (offset ∷ rest) s cache =
      let index = (s.run_cursor + offset) % 4 in
      let class = run_schedule index in
      let p = pop_runnable world config class s cache in
      let h = pop_runnable-IsPop class s cache in
      elim (Bool-cases (not dispatch && not (is_async class))) [
        | inl skip ↦ rw skip (try_lanes-IsPop dispatch rest s cache)
        | inr go ↦ rw go (elim (Option-cases p.taken) [
          | inl e ↦
              rw (e, try_lanes)
                (IsPop-next config own_resources s cache p
                  (try_lanes world config dispatch rest p.state p.cache) h e
                  (try_lanes-IsPop dispatch rest p.state p.cache))
          | inr (x, e) ↦
              rw (e, try_lanes)
                (IsPop-into config own_resources s cache p
                  (record p.state { run_cursor = (index + 1) % 4 })
                  (record { continuation = refl; bulk = refl; resources = refl }) h)
        ])
      ]

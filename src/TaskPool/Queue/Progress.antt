-- ===== src/TaskPool/Queue/Progress.antt =====
-- task_pool/scheduler/queue/priority_queue.rs: a pop that returns nothing.
use griffr.Common.{
  ℕ, ◌≡◌, refl, subst, inl, inr, false, Option, none, some, List, [], ◌∷◌, arith, ltb, leb,
  Bool-cases, Option-cases, nat_eq, get_elem?, any, text_eq, saturating_add, text_order, flagged_eq,
  flagged_order,
}
use griffr.TaskPool.Config.{TaskPoolConfig}
use griffr.TaskPool.Request.{RunClass, NetworkClass, run_class_eq}
use griffr.TaskPool.Resources.{AdmissionSnapshot, ResourceState}
use griffr.TaskPool.Queue.{
  TaskPriority, continuation, bulk, World, QueuedTask, AdmissionCache, QueueState,
}
use griffr.TaskPool.Queue.Select.{priority_rank, runnable, runnable_index}
use griffr.TaskPool.Queue.Select.Laws.{select_index-none}
use griffr.TaskPool.Queue.Pop.{
  or_else, counts_of, Popped, queue_of, take_index, chosen_index, remove_runnable_from,
}
use griffr.TaskPool.Queue.Scheduler.{
  continuation_burst, set_streak, or_try, preferred_network, turn_network, pop_runnable,
}
use griffr.TaskPool.Queue.Conserve.{Leaves, CanRun, IsPop, Same}
use griffr.TaskPool.Queue.Safe.{
  own_resources, chosen_index-CanRun, remove_runnable_from-IsPop, turn_network-Same,
}
use griffr.TaskPool.Queue.Counts.{lane_tasks, CountsFit}

or_else-eq-none : (a b : Option ℕ) → or_else a b ≡ none → b ≡ none
or_else-eq-none none b h = h
or_else-eq-none (some a) b h = cc

module _ {Task : Type 0} (world : World) (config : TaskPoolConfig) where
  -- No task of the queue can run in the lane.
  abbrev pub NoneRuns :
      RunClass → ResourceState → AdmissionSnapshot → List (QueuedTask Task) → Type 0
  NoneRuns class resources snapshot queue =
      any (runnable class none resources config snapshot) queue ≡ false

  other_lane :
      (class : RunClass) (resources : ResourceState) (snapshot : AdmissionSnapshot)
      (queue : List (QueuedTask Task))
      → lane_tasks class queue ≡ 0
      → NoneRuns class resources snapshot queue
  unfolding runnable
  other_lane class resources snapshot [] h = refl
  other_lane class resources snapshot (q ∷ queue) h =
      elim (Bool-cases (run_class_eq q.resources.run class)) [
        | inl e ↦ absurd (ground (arith, e))
        | inr e ↦ rw e (other_lane class resources snapshot queue (ground (arith, e)))
      ]

  -- A removal that takes nothing had no index to take.
  take_index-none :
      (priority : TaskPriority) (s : QueueState Task) (cache : AdmissionCache) (index : Option ℕ)
      → ((k : ℕ)
          → index ≡ some k
          → (x : QueuedTask Task) × (get_elem? (queue_of priority s) k ≡ some x)
            × CanRun config s.resources cache.snapshot own_resources x)
      → (take_index world priority s cache index).taken ≡ none
      → index ≡ none
  unfolding take_index
  take_index-none priority s cache none found h = refl
  take_index-none priority s cache (some k) found h =
      let (x, at, _) = found k refl in absurd (cc (rw (at, take_index) at h))

  pub remove_runnable_from-none :
      (priority : TaskPriority) (class : RunClass) (preferred : Option NetworkClass)
      (s : QueueState Task) (cache : AdmissionCache)
      → (counts_of priority cache).run_counts class ≡ lane_tasks class (queue_of priority s)
      → (remove_runnable_from world config priority class preferred s cache).taken ≡ none
      → NoneRuns class s.resources cache.snapshot (queue_of priority s)
  unfolding remove_runnable_from chosen_index runnable_index
  remove_runnable_from-none priority class preferred s cache counted h =
      elim (Bool-cases (ltb 0 ((counts_of priority cache).run_counts class))) [
        | inr empty ↦
            other_lane class s.resources cache.snapshot (queue_of priority s)
              (ground (arith, empty, counted))
        | inl left ↦
            select_index-none (runnable class none s.resources config cache.snapshot)
              (priority_rank world.now cache.snapshot (counts_of priority cache).volume_depth)
              (queue_of priority s)
              (or_else-eq-none _ _ (
                take_index-none priority s cache
                  (chosen_index world config priority class preferred s cache)
                  (chosen_index-CanRun world config priority class preferred s cache)
                  (rw left at h)))
      ]

  -- No task of either queue can run in the lane.
  pub record LaneIdle (class : RunClass) (s : QueueState Task) (cache : AdmissionCache)
      : Type 0 where
    pub none_of_continuation : NoneRuns class s.resources cache.snapshot s.continuation
    pub none_of_bulk : NoneRuns class s.resources cache.snapshot s.bulk

  -- A pop that takes nothing keeps the queues, the resources and the cache.
  pub record Untouched (s : QueueState Task) (cache : AdmissionCache) (p : Popped Task)
      : Type 0 where
    pub same : Same s p.state
    pub same_cache : p.cache ≡ cache

  pub IsPop-Untouched :
      (s : QueueState Task) (cache : AdmissionCache) (p : Popped Task)
      → IsPop config own_resources s cache p
      → p.taken ≡ none
      → Untouched s cache p
  IsPop-Untouched s cache p h e =
      let kept = subst (λ o. Leaves o s p.state) e h.leaves in
      record {
        same = record { continuation = kept.0; bulk = kept.1; resources = h.resources };
        same_cache = h.idle e;
      }

  pub CountsFit-Same :
      (s s' : QueueState Task) (cache cache' : AdmissionCache)
      → Same s s'
      → cache' ≡ cache
      → CountsFit cache s
      → CountsFit cache' s'
  CountsFit-Same s s' cache cache' e c f = record {
    continuation_counts = λ class. rw (c, e.continuation) (f.continuation_counts class);
    bulk_counts = λ class. rw (c, e.bulk) (f.bulk_counts class);
  }

  pub LaneIdle-Same :
      (class : RunClass) (s s' : QueueState Task) (cache cache' : AdmissionCache)
      → Same s s'
      → cache' ≡ cache
      → LaneIdle class s' cache'
      → LaneIdle class s cache
  LaneIdle-Same class s s' cache cache' e c i = record {
    none_of_continuation = rw (← e.resources, ← c, ← e.continuation) i.none_of_continuation;
    none_of_bulk = rw (← e.resources, ← c, ← e.bulk) i.none_of_bulk;
  }

  or_try-none :
      (p : Popped Task) (done next : Popped Task → Popped Task)
      → (done p).taken ≡ p.taken
      → (or_try p done next).taken ≡ none
      → (p.taken ≡ none) × ((next p).taken ≡ none)
  or_try-none p done next kept h = elim (Option-cases p.taken) [
    | inl e ↦ (e, rw (e, or_try) at h)
    | inr (x, e) ↦ absurd (cc (rw (e, or_try) at h, kept, e))
  ]

  pub counted :
      (priority : TaskPriority) (class : RunClass) (s : QueueState Task) (cache : AdmissionCache)
      → CountsFit cache s
      → (counts_of priority cache).run_counts class ≡ lane_tasks class (queue_of priority s)
  counted continuation class s cache f = f.continuation_counts class
  counted bulk class s cache f = f.bulk_counts class

  abbrev pub tried :
      TaskPriority → RunClass → Option NetworkClass → QueueState Task → AdmissionCache → Popped Task
  tried priority class preferred s cache =
      remove_runnable_from world config priority class preferred s cache

  -- Two removals that both take nothing.
  both_none :
      (first second : TaskPriority) (class : RunClass) (preferred : Option NetworkClass) (m n : ℕ)
      (s : QueueState Task) (cache : AdmissionCache)
      → CountsFit cache s
      → (or_try (tried first class preferred s cache) (set_streak class m) (λ p.
          or_try
            (tried second class preferred p.state p.cache)
            (set_streak class n)
            (λ q. q))).taken
        ≡ none
      → NoneRuns class s.resources cache.snapshot (queue_of first s)
        × NoneRuns class s.resources cache.snapshot (queue_of second s)
  both_none first second class preferred m n s cache f h =
      let p = tried first class preferred s cache in
      let (e, k) =
        or_try-none p (set_streak class m)
          (λ p. or_try (tried second class preferred p.state p.cache) (set_streak class n) (λ q. q))
          refl h in
      let (e', _) =
        or_try-none (tried second class preferred p.state p.cache) (set_streak class n) (λ q. q)
          refl k in
      let u =
        IsPop-Untouched s cache p
          (remove_runnable_from-IsPop world config first class preferred s cache) e in
      (
        remove_runnable_from-none first class preferred s cache (counted first class s cache f) e,
        back second s p.state cache p.cache u.same u.same_cache (
            remove_runnable_from-none second class preferred p.state p.cache
              (counted second class p.state p.cache
                (CountsFit-Same s p.state cache p.cache u.same u.same_cache f))
              e'),
      )
    where
      back :
          (priority : TaskPriority) (s s' : QueueState Task) (cache cache' : AdmissionCache)
          → Same s s'
          → cache' ≡ cache
          → NoneRuns class s'.resources cache'.snapshot (queue_of priority s')
          → NoneRuns class s.resources cache.snapshot (queue_of priority s)
      back continuation s s' cache cache' e c i = rw (← e.resources, ← c, ← e.continuation) i
      back bulk s s' cache cache' e c i = rw (← e.resources, ← c, ← e.bulk) i

  pub pop_runnable-none :
      (class : RunClass) (s : QueueState Task) (cache : AdmissionCache)
      → CountsFit cache s
      → (pop_runnable world config class s cache).taken ≡ none
      → LaneIdle class s cache
  unfolding pop_runnable
  pop_runnable-none class s cache f h =
      elim (Bool-cases (leb continuation_burst (s.continuation_streak class))) [
        | inl forced ↦
            let (b, c) =
              both_none bulk continuation class preferred 0 1 turned cache fit (rw forced at h) in
            back (record { none_of_continuation = c; none_of_bulk = b })
        | inr free ↦
            let (c, b) =
              both_none continuation bulk class preferred
                (saturating_add (s.continuation_streak class) 1) 0 turned cache fit
                (rw free at h) in
            back (record { none_of_continuation = c; none_of_bulk = b })
      ]
    where
      turned : QueueState Task
      turned = turn_network world config class s

      preferred : Option NetworkClass
      preferred = preferred_network world config class s

      fit : CountsFit cache turned
      fit = CountsFit-Same s turned cache cache (turn_network-Same world config class s) refl f

      back : LaneIdle class turned cache → LaneIdle class s cache
      back i =
          LaneIdle-Same class s turned cache cache (turn_network-Same world config class s) refl i
      -- A pop in one lane leaves the cursor of the lanes alone.

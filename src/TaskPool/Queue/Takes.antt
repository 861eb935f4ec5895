-- ===== src/TaskPool/Queue/Takes.antt =====
-- task_pool/scheduler/queue/priority_queue.rs: what a pop of a lane takes.
use griffr.Common.{
  ℕ, zero, suc, ◌+◌, ◌≡◌, refl, ◌∙◌, ◌⊎◌, inl, inr, true, Option, none, some, List, [], ◌∷◌, arith,
  ltb, if◌then◌else◌, Bool-cases, Option-cases, nat_eq, length, get_elem?, any, remove_index,
  text_eq, nat_order, text_order, flagged_eq, flagged_order,
}
use griffr.TaskPool.Config.{TaskPoolConfig}
use griffr.TaskPool.Request.{RunClass, NetworkClass, run_class_eq}
use griffr.TaskPool.Queue.{
  TaskPriority, continuation, bulk, World, QueuedTask, AdmissionCache, QueueState,
}
use griffr.TaskPool.Queue.Select.{priority_rank, runnable, runnable_index}
use griffr.TaskPool.Queue.Select.Laws.{select_index-passes}
use griffr.TaskPool.Queue.Pop.{
  or_else, counts_of, Popped, queue_of, with_queue, take_index, lane_index, chosen_index,
  remove_runnable_from,
}
use griffr.TaskPool.Queue.Scheduler.{set_streak, or_try, preferred_network, turn_network}
use griffr.TaskPool.Queue.Conserve.{Same}
use griffr.TaskPool.Queue.Safe.{turn_network-Same}
use griffr.TaskPool.Queue.Counts.{CountsFit}
use griffr.TaskPool.Queue.Progress.{
  NoneRuns, remove_runnable_from-none, CountsFit-Same, counted, tried,
}

or_else-some : (a b : Option ℕ) (k : ℕ) → or_else a b ≡ some k → (a ≡ some k) ⊎ (b ≡ some k)
or_else-some none b k h = inr h
or_else-some (some a) b k h = inl h

pub remove_index-shorter {ℓ} :
    {A : Type ℓ} (xs : List A) (i : ℕ) (x : A)
    → get_elem? xs i ≡ some x
    → length (remove_index xs i) + 1 ≡ length xs
remove_index-shorter [] i x h = cc
remove_index-shorter (y ∷ ys) zero x h = omega arith
remove_index-shorter (y ∷ ys) (suc i) x h = omega (arith, remove_index-shorter ys i x h)

pub streak_is : (class : RunClass) (m n : ℕ) → (if run_class_eq class class then n else m) ≡ n
streak_is class m n = ground arith

module _ {Task : Type 0} (world : World) (config : TaskPoolConfig) where
  abbrev other_queue : TaskPriority → QueueState Task → List (QueuedTask Task)
  other_queue continuation s = s.bulk
  other_queue bulk s = s.continuation

  -- The pop takes a task of the lane that can run from the queue, and leaves the other queue alone.
  pub record Takes (priority : TaskPriority) (class : RunClass) (s : QueueState Task)
      (cache : AdmissionCache) (p : Popped Task) : Type 0 where
    pub taken_task : QueuedTask Task
    pub index : ℕ
    pub taken : p.taken ≡ some taken_task
    pub at : get_elem? (queue_of priority s) index ≡ some taken_task
    pub runs : runnable class none s.resources config cache.snapshot taken_task ≡ true
    pub left : queue_of priority p.state ≡ remove_index (queue_of priority s) index
    pub others : other_queue priority p.state ≡ other_queue priority s

  runnable_any :
      (class : RunClass) (network : Option NetworkClass) (s : QueueState Task)
      (cache : AdmissionCache) (x : QueuedTask Task)
      → runnable class network s.resources config cache.snapshot x ≡ true
      → runnable class none s.resources config cache.snapshot x ≡ true
  unfolding runnable
  runnable_any class network s cache x h = ground (arith, h)

  lane_index-runs :
      (priority : TaskPriority) (class : RunClass) (s : QueueState Task) (cache : AdmissionCache)
      (network : Option NetworkClass) (k : ℕ)
      → lane_index world config priority class s cache network ≡ some k
      → (x : QueuedTask Task) × (get_elem? (queue_of priority s) k ≡ some x)
        × (runnable class none s.resources config cache.snapshot x ≡ true)
  unfolding runnable_index
  lane_index-runs priority class s cache network k h =
      let (x, at, px) =
        select_index-passes (runnable class network s.resources config cache.snapshot)
          (priority_rank world.now cache.snapshot (counts_of priority cache).volume_depth)
          (queue_of priority s) k h in
      (x, at, runnable_any class network s cache x px)

  chosen_index-runs :
      (priority : TaskPriority) (class : RunClass) (preferred : Option NetworkClass)
      (s : QueueState Task) (cache : AdmissionCache) (k : ℕ)
      → chosen_index world config priority class preferred s cache ≡ some k
      → (x : QueuedTask Task) × (get_elem? (queue_of priority s) k ≡ some x)
        × (runnable class none s.resources config cache.snapshot x ≡ true)
  unfolding chosen_index
  chosen_index-runs priority class preferred s cache k h = elim (or_else-some _ _ k h) [
    | inl wanted ↦ lane_index-runs priority class s cache _ k wanted
    | inr any_network ↦ lane_index-runs priority class s cache none k any_network
  ]

  queue_of-with_queue :
      (priority : TaskPriority) (s : QueueState Task) (queue : List (QueuedTask Task))
      → (queue_of priority (with_queue priority s queue) ≡ queue)
        × (other_queue priority (with_queue priority s queue) ≡ other_queue priority s)
        × ((with_queue priority s queue).continuation_streak ≡ s.continuation_streak)
  queue_of-with_queue continuation s queue = (refl, refl, refl)
  queue_of-with_queue bulk s queue = (refl, refl, refl)

  take_index-Takes :
      (priority : TaskPriority) (class : RunClass) (s : QueueState Task) (cache : AdmissionCache)
      (index : Option ℕ)
      → ((k : ℕ)
          → index ≡ some k
          → (x : QueuedTask Task) × (get_elem? (queue_of priority s) k ≡ some x)
            × (runnable class none s.resources config cache.snapshot x ≡ true))
      → (y : QueuedTask Task) → (take_index world priority s cache index).taken ≡ some y
      → Takes priority class s cache (take_index world priority s cache index)
  unfolding take_index
  take_index-Takes priority class s cache none h y e = cc
  take_index-Takes priority class s cache (some k) h y e =
      let (x, at, runs) = h k refl in
      let (own, other, _) = queue_of-with_queue priority s (remove_index (queue_of priority s) k) in
      rw (at, take_index)
        (record {
          taken_task = x;
          index = k;
          taken = refl;
          at = at;
          runs = runs;
          left = own;
          others = other;
        })

  pub tried-Takes :
      (priority : TaskPriority) (class : RunClass) (preferred : Option NetworkClass)
      (s : QueueState Task) (cache : AdmissionCache) (y : QueuedTask Task)
      → (tried world config priority class preferred s cache).taken ≡ some y
      → Takes priority class s cache (tried world config priority class preferred s cache)
  unfolding remove_runnable_from
  tried-Takes priority class preferred s cache y e =
      elim (Bool-cases (ltb 0 ((counts_of priority cache).run_counts class))) [
        | inr empty ↦ absurd (cc (rw (empty, remove_runnable_from) at e))
        | inl waits ↦
            rw (waits, remove_runnable_from)
              (take_index-Takes priority class s cache
                (chosen_index world config priority class preferred s cache)
                (chosen_index-runs priority class preferred s cache) y
                (rw (waits, remove_runnable_from) at e))
      ]

  Takes-from :
      (priority : TaskPriority) (class : RunClass) (s s' : QueueState Task) (cache : AdmissionCache)
      (p : Popped Task)
      → Same s s'
      → Takes priority class s' cache p
      → Takes priority class s cache p
  Takes-from continuation class s s' cache p e t = record {
    taken_task = t.taken_task;
    index = t.index;
    taken = t.taken;
    at = rw (← e.continuation) t.at;
    runs = rw (← e.resources) t.runs;
    left = rw (← e.continuation) t.left;
    others = t.others ∙ e.bulk;
  }
  Takes-from bulk class s s' cache p e t = record {
    taken_task = t.taken_task;
    index = t.index;
    taken = t.taken;
    at = rw (← e.bulk) t.at;
    runs = rw (← e.resources) t.runs;
    left = rw (← e.bulk) t.left;
    others = t.others ∙ e.continuation;
  }

  set_streak-Takes :
      (priority : TaskPriority) (class : RunClass) (s : QueueState Task) (cache : AdmissionCache)
      (n : ℕ) (p : Popped Task)
      → Takes priority class s cache p
      → Takes priority class s cache (set_streak class n p)
  set_streak-Takes continuation class s cache n p t = record {
    taken_task = t.taken_task;
    index = t.index;
    taken = t.taken;
    at = t.at;
    runs = t.runs;
    left = t.left;
    others = t.others;
  }
  set_streak-Takes bulk class s cache n p t = record {
    taken_task = t.taken_task;
    index = t.index;
    taken = t.taken;
    at = t.at;
    runs = t.runs;
    left = t.left;
    others = t.others;
  }

  -- The first of the two queues that are tried has a task for the lane.
  pub first_tried :
      (priority : TaskPriority) (class : RunClass) (s : QueueState Task) (cache : AdmissionCache)
      (m : ℕ) (next : Popped Task → Popped Task)
      → CountsFit cache s
      → any (runnable class none s.resources config cache.snapshot) (queue_of priority s) ≡ true
      → let p =
          tried world config priority class
            (preferred_network world config class s)
            (turn_network world config class s)
            cache in
        Takes priority class s cache (or_try p (set_streak class m) next)
        × ((or_try p (set_streak class m) next).state.continuation_streak class ≡ m)
  first_tried priority class s cache m next f waits =
      let turned = turn_network world config class s in
      let same = turn_network-Same world config class s in
      let p =
        tried world config priority class (preferred_network world config class s) turned cache in
      elim (Option-cases p.taken) [
        | inl e ↦
            let nothing =
              remove_runnable_from-none world config priority class _ turned cache
                (counted world config priority class turned cache
                  (CountsFit-Same world config s turned cache cache same refl f))
                e in
            absurd (cc (waits, still priority turned same nothing))
        | inr (y, e) ↦
            rw (e, or_try)
              (
                set_streak-Takes priority class s cache m p (
                    Takes-from priority class s turned cache p same
                      (tried-Takes priority class _ turned cache y e)),
                streak_is class (p.state.continuation_streak class) m,
              )
      ]
    where
      still :
          (pr : TaskPriority) (s' : QueueState Task)
          → Same s s'
          → NoneRuns world config class s'.resources cache.snapshot (queue_of pr s')
          → NoneRuns world config class s.resources cache.snapshot (queue_of pr s)
      still continuation s' e i = rw (← e.resources, ← e.continuation) i
      still bulk s' e i = rw (← e.resources, ← e.bulk) i

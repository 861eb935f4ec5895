-- ===== src/TaskPool/Queue/Fair.antt =====
-- task_pool/scheduler/queue/priority_queue.rs: the lanes in turn.
use griffr.Common.{
  ℕ, zero, suc, ◌+◌, ◌-◌, ◌%◌, ◌<◌, ◌≡◌, refl, subst, inl, inr, Bool, true, false, ◌&&◌, ◌||◌, not,
  Option, none, some, List, [], ◌∷◌, arith, Bool-cases, Option-cases, nat_eq, All, All-map, text_eq,
  nat_order, text_order, flagged_eq, flagged_order,
}
use griffr.TaskPool.Config.{TaskPoolConfig}
use griffr.TaskPool.Request.{RunClass, async_io, cpu, blocking, ResourceRequest}
use griffr.TaskPool.Queue.{World, QueuedTask, AdmissionCache, QueueState}
use griffr.TaskPool.Queue.Pop.{ensured_cache}
use griffr.TaskPool.Queue.Scheduler.{
  run_schedule, is_async, pop_runnable, try_lanes, pop_queued, start_task, pop_next,
}
use griffr.TaskPool.Queue.Safe.{own_resources, pop_runnable-IsPop}
use griffr.TaskPool.Queue.Counts.{CountsFit, IsCountable, IsCached, ensured_cache-CountsFit}
use griffr.TaskPool.Queue.Progress.{
  LaneIdle, IsPop-Untouched, CountsFit-Same, LaneIdle-Same, pop_runnable-none,
}
use griffr.TaskPool.Queue.Cursor.{pop_runnable-cursor}

-- The cursor reaches every lane within four offsets.
offset_of : (cursor target : ℕ) → ℕ
offset_of cursor target = (4 + target - cursor % 4) % 4

offset_of-reaches :
    (cursor target : ℕ) → target < 4 → (cursor + offset_of cursor target) % 4 ≡ target
unfolding offset_of
offset_of-reaches cursor target h = omega arith

offset_of-lt : (cursor target : ℕ) → offset_of cursor target < 4
unfolding offset_of
offset_of-lt cursor target = omega arith

-- A place of the lane in `RUN_SCHEDULE`.
index_of : RunClass → ℕ
index_of async_io = 0
index_of cpu = 1
index_of blocking = 2

index_of-lt : (class : RunClass) → index_of class < 4
unfolding index_of
index_of-lt class = ground arith

index_of_lem : (class : RunClass) → run_schedule (index_of class) ≡ class
unfolding index_of
index_of_lem async_io = refl
index_of_lem cpu = refl
index_of_lem blocking = refl

at_offset : (P : ℕ → Type 0) (o : ℕ) → All P (0 ∷ 1 ∷ 2 ∷ 3 ∷ []) → o < 4 → P o
at_offset P zero h lt = h.0
at_offset P (suc zero) h lt = h.1.0
at_offset P (suc (suc zero)) h lt = h.1.1.0
at_offset P (suc (suc (suc zero))) h lt = h.1.1.1.0
at_offset P (suc (suc (suc (suc o)))) h lt = absurd (omega arith)

module _ {Task : Type 0} (world : World) (config : TaskPoolConfig) (dispatch : Bool) where
  -- The lane may be tried, and is idle.
  abbrev IdleAt : QueueState Task → AdmissionCache → ℕ → Type 0
  IdleAt s cache index =
      (not dispatch && not (is_async (run_schedule index))) ≡ false
      → LaneIdle world config (run_schedule index) s cache

  try_lanes-none :
      (offsets : List ℕ) (s : QueueState Task) (cache : AdmissionCache)
      → CountsFit cache s
      → (try_lanes world config dispatch offsets s cache).taken ≡ none
      → All (λ o. IdleAt s cache ((s.run_cursor + o) % 4)) offsets
  unfolding try_lanes
  try_lanes-none [] s cache f h = tt
  try_lanes-none (offset ∷ rest) s cache f h =
      let index = (s.run_cursor + offset) % 4 in
      let p = pop_runnable world config (run_schedule index) s cache in
      elim (Bool-cases (not dispatch && not (is_async (run_schedule index)))) [
        | inl skip ↦
            (λ allowed. absurd (cc (skip, allowed)), try_lanes-none rest s cache f (rw skip at h))
        | inr go ↦ elim (Option-cases p.taken) [
          | inr (x, e) ↦ absurd (cc (rw (go, e, try_lanes) at h))
          | inl e ↦
              let u =
                IsPop-Untouched world config s cache p
                  (pop_runnable-IsPop world config (run_schedule index) s cache) e in
              let later =
                try_lanes-none rest p.state p.cache
                  (CountsFit-Same world config s p.state cache p.cache u.same u.same_cache f)
                  (rw (go, e, try_lanes) at h) in
              let same_cursor = pop_runnable-cursor world config (run_schedule index) s cache in
              (
                λ _. pop_runnable-none world config (run_schedule index) s cache f e,
                All-map (λ o. IdleAt p.state p.cache ((p.state.run_cursor + o) % 4))
                    (λ o. IdleAt s cache ((s.run_cursor + o) % 4)) rest
                    (λ o idle.
                      subst (λ c. IdleAt s cache ((c + o) % 4)) same_cursor
                        (λ allowed.
                          LaneIdle-Same world config _ s p.state cache p.cache u.same u.same_cache
                            (idle allowed)))
                    later,
              )
        ]
      ]

  start_task-none :
      (request : QueuedTask Task → ResourceRequest) (s : QueueState Task)
      (taken : Option (QueuedTask Task))
      → (start_task world.now request (s, taken)).1 ≡ none
      → taken ≡ none
  unfolding start_task
  start_task-none request s none h = refl
  start_task-none request s (some queued) h = cc

  -- If pop_next returns nothing, the queues hold at most as many tasks as a word counts and the
  -- cache they carry is theirs, then no task of either queue can run in any lane that is open to
  -- the pop: no runnable task is overlooked.
  pub pop_next-idle :
      (s : QueueState Task)
      → IsCountable s
      → IsCached s
      → (pop_next world config dispatch s).1 ≡ none
      → (class : RunClass) → (dispatch || is_async class) ≡ true
      → LaneIdle world config class s (ensured_cache world config s)
  unfolding pop_next pop_queued
  pop_next-idle s c h e class open_lane =
      let cache = ensured_cache world config s in
      let taken =
        start_task-none own_resources _
          (try_lanes world config dispatch (0 ∷ 1 ∷ 2 ∷ 3 ∷ []) s cache).taken e in
      let lanes =
        try_lanes-none (0 ∷ 1 ∷ 2 ∷ 3 ∷ []) s cache (ensured_cache-CountsFit world config s c h)
          taken in
      let target = index_of class in
      let o = offset_of s.run_cursor target in
      let idle =
        at_offset (λ o. IdleAt s cache ((s.run_cursor + o) % 4)) o lanes
          (offset_of-lt s.run_cursor target) in
      let reached = offset_of-reaches s.run_cursor target (index_of-lt class) in
      let at_class = subst (IdleAt s cache) reached idle in
      subst (λ k. (not dispatch && not (is_async k)) ≡ false → LaneIdle world config k s cache)
        (index_of_lem class) at_class (ground (arith, open_lane))

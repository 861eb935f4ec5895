-- ===== src/TaskPool/Queue/Counts.antt =====
-- task_pool/scheduler/queue/priority_queue.rs: the cached counts against the queues.
use griffr.Common.{
  ℕ, ◌+◌, ◌≤◌, ◌≡◌, refl, ◌≢◌, inl, inr, true, false, Option, none, some, List, [], ◌∷◌, arith,
  Bool-cases, nat_eq, length, total, text_eq, word_max, text_order, flagged_eq, flagged_order,
}
use griffr.TaskPool.Config.{TaskPoolConfig}
use griffr.TaskPool.Request.{RunClass, run_class_eq}
use griffr.TaskPool.Resources.{one_if}
use griffr.TaskPool.Queue.{
  World, QueuedTask, QueueAdmission, empty_admission, AdmissionCache, QueueState, add, add_all,
  from_queue,
}
use griffr.TaskPool.Queue.Pop.{is_expired, current_cache, build_cache, ensured_cache}

pub run_class_eq_iff :
    (a b : RunClass) → (run_class_eq a b ≡ true → a ≡ b) × (run_class_eq a b ≡ false → a ≢ b)
run_class_eq_iff a b = (λ h. ground arith, λ h. λ e. ground arith)

module _ {Task : Type 0} where
  -- The tasks of a queue that run in a lane.
  abbrev pub lane_tasks : RunClass → List (QueuedTask Task) → ℕ
  lane_tasks class queue = total (λ q. one_if (run_class_eq q.resources.run class)) queue

  pub lane_tasks-le-length :
      (class : RunClass) (queue : List (QueuedTask Task)) → lane_tasks class queue ≤ length queue
  lane_tasks-le-length class [] = omega arith
  lane_tasks-le-length class (q ∷ queue) = ground (arith, lane_tasks-le-length class queue)

  pub record CountsFit (cache : AdmissionCache) (s : QueueState Task) : Type 0 where
    pub continuation_counts :
        (class : RunClass) → cache.continuation.run_counts class ≡ lane_tasks class s.continuation
    pub bulk_counts : (class : RunClass) → cache.bulk.run_counts class ≡ lane_tasks class s.bulk

  -- The queues hold fewer tasks than a machine word counts.
  pub record IsCountable (s : QueueState Task) : Type 0 where
    pub continuation_fits : length s.continuation ≤ word_max
    pub bulk_fits : length s.bulk ≤ word_max

  -- A cache that the state holds counts its queues.
  abbrev pub IsCached : QueueState Task → Type 0
  IsCached s = (cache : AdmissionCache) → s.admission_cache ≡ some cache → CountsFit cache s

  run_counts-add :
      (a : QueueAdmission) (q : QueuedTask Task) (class : RunClass)
      → a.run_counts class + one_if (run_class_eq q.resources.run class) ≤ word_max
      → (add a q).run_counts class
        ≡ a.run_counts class + one_if (run_class_eq q.resources.run class)
  unfolding add
  run_counts-add a q class h = elim (Bool-cases (run_class_eq q.resources.run class)) [
    | inl e ↦
        let same = (run_class_eq_iff q.resources.run class).0 e in
        rw (e, same) (ground (arith, h, e))
    | inr e ↦ ground (arith, e)
  ]

  run_counts-add_all :
      (a : QueueAdmission) (queue : List (QueuedTask Task)) (class : RunClass)
      → a.run_counts class + lane_tasks class queue ≤ word_max
      → (add_all a queue).run_counts class ≡ a.run_counts class + lane_tasks class queue
  unfolding add_all
  run_counts-add_all a [] class h = omega arith
  run_counts-add_all a (q ∷ queue) class h = omega (
    arith,
    run_counts-add a q class (omega arith),
    run_counts-add_all (add a q) queue class
        (omega (arith, run_counts-add a q class (omega arith))),
  )

  pub run_counts-from_queue :
      (queue : List (QueuedTask Task)) (class : RunClass)
      → length queue ≤ word_max
      → (from_queue queue).run_counts class ≡ lane_tasks class queue
  unfolding from_queue
  run_counts-from_queue queue class h = omega (
    arith,
    run_counts-add_all empty_admission queue class
        (omega (arith, lane_tasks-le-length class queue)),
  )

  build_cache-CountsFit :
      (world : World) (config : TaskPoolConfig) (s : QueueState Task)
      → IsCountable s
      → CountsFit (build_cache world config s) s
  unfolding build_cache
  build_cache-CountsFit world config s c = record {
    continuation_counts = λ class. run_counts-from_queue s.continuation class c.continuation_fits;
    bulk_counts = λ class. run_counts-from_queue s.bulk class c.bulk_fits;
  }

  current_cache-CountsFit :
      (now : ℕ) (built : AdmissionCache) (s : QueueState Task) (held : Option AdmissionCache)
      → CountsFit built s
      → ((cache : AdmissionCache) → held ≡ some cache → CountsFit cache s)
      → CountsFit (current_cache now built held) s
  current_cache-CountsFit now built s none b h = b
  current_cache-CountsFit now built s (some cache) b h = elim (Bool-cases (is_expired cache now)) [
    | inl old ↦ rw old b
    | inr fresh ↦ rw fresh (h cache refl)
  ]

  -- If the queues hold at most as many tasks as a word counts and the cache that the state holds
  -- counts them, then the cache that ensure_admission_cache leaves counts the tasks of each queue
  -- by lane, whether it was kept or built anew.
  pub ensured_cache-CountsFit :
      (world : World) (config : TaskPoolConfig) (s : QueueState Task)
      → IsCountable s
      → IsCached s
      → CountsFit (ensured_cache world config s) s
  unfolding ensured_cache
  ensured_cache-CountsFit world config s c h =
      current_cache-CountsFit world.now (build_cache world config s) s s.admission_cache
        (build_cache-CountsFit world config s c) h

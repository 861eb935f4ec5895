-- ===== src/TaskPool/Queue/Cursor.antt =====
-- task_pool/scheduler/queue/priority_queue.rs: the cursor of the lanes under `pop_runnable`.
use griffr.Common.{
  ℕ, ◌≡◌, ◌∙◌, inl, inr, Option, arith, leb, Bool-cases, Option-cases, nat_eq, text_eq, text_order,
  flagged_eq, flagged_order,
}
use griffr.TaskPool.Config.{TaskPoolConfig}
use griffr.TaskPool.Request.{RunClass, NetworkClass}
use griffr.TaskPool.Queue.{TaskPriority, continuation, bulk, World, AdmissionCache, QueueState}
use griffr.TaskPool.Queue.Pop.{Popped, take_index, remove_runnable_from}
use griffr.TaskPool.Queue.Scheduler.{
  continuation_burst, set_streak, or_try, turn_network, pop_runnable,
}
use griffr.TaskPool.Queue.Progress.{tried}

module _ {Task : Type 0} (world : World) (config : TaskPoolConfig) where
  remove_runnable_from-cursor :
      (priority : TaskPriority) (class : RunClass) (preferred : Option NetworkClass)
      (s : QueueState Task) (cache : AdmissionCache)
      → (remove_runnable_from world config priority class preferred s cache).state.run_cursor
        ≡ s.run_cursor
  unfolding remove_runnable_from take_index
  remove_runnable_from-cursor continuation class preferred s cache = ground arith
  remove_runnable_from-cursor bulk class preferred s cache = ground arith

  or_try-cursor :
      (n : ℕ) (p : Popped Task) (done next : Popped Task → Popped Task)
      → (done p).state.run_cursor ≡ n
      → (next p).state.run_cursor ≡ n
      → (or_try p done next).state.run_cursor ≡ n
  or_try-cursor n p done next d k = elim (Option-cases p.taken) [
    | inl e ↦ rw (e, or_try) k
    | inr (x, e) ↦ rw (e, or_try) d
  ]

  two_tries-cursor :
      (first second : TaskPriority) (class : RunClass) (preferred : Option NetworkClass) (m n : ℕ)
      (s : QueueState Task) (cache : AdmissionCache)
      → (or_try (tried world config first class preferred s cache) (set_streak class m) (λ p.
          or_try
            (tried world config second class preferred p.state p.cache)
            (set_streak class n)
            (λ q. q))).state.run_cursor
        ≡ s.run_cursor
  two_tries-cursor first second class preferred m n s cache =
      let p = tried world config first class preferred s cache in
      let one = remove_runnable_from-cursor first class preferred s cache in
      let two = remove_runnable_from-cursor second class preferred p.state p.cache ∙ one in
      or_try-cursor s.run_cursor p (set_streak class m)
        (λ p.
          or_try (tried world config second class preferred p.state p.cache) (set_streak class n)
            (λ q. q))
        one
        (or_try-cursor s.run_cursor (tried world config second class preferred p.state p.cache)
          (set_streak class n) (λ q. q) two two)

  turn_network-cursor :
      (class : RunClass) (s : QueueState Task)
      → (turn_network world config class s).run_cursor ≡ s.run_cursor
  turn_network-cursor class s = ground arith

  pub pop_runnable-cursor :
      (class : RunClass) (s : QueueState Task) (cache : AdmissionCache)
      → (pop_runnable world config class s cache).state.run_cursor ≡ s.run_cursor
  unfolding pop_runnable
  pop_runnable-cursor class s cache =
      elim (Bool-cases (leb continuation_burst (s.continuation_streak class))) [
        | inl forced ↦
            rw forced
              (two_tries-cursor bulk continuation class _ 0 1 _ cache ∙ turn_network-cursor class s)
        | inr free ↦
            rw free
              (two_tries-cursor continuation bulk class _ _ 0 _ cache ∙ turn_network-cursor class s)
      ]

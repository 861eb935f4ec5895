-- ===== src/TaskPool/Queue/Burst.antt =====
-- task_pool/scheduler/queue/priority_queue.rs: bursts of continuations in a lane.
use griffr.Common.{
  ℕ, suc, ◌≡◌, nat_beq, if◌then◌else◌, nat_eq, text_eq, nat_order, text_order, flagged_eq,
  flagged_order,
}
use griffr.TaskPool.Config.{TaskPoolConfig}
use griffr.TaskPool.Request.{RunClass}
use griffr.TaskPool.Queue.{TaskPriority, continuation, bulk, World, AdmissionCache, QueueState}
use griffr.TaskPool.Queue.Pop.{Popped}
use griffr.TaskPool.Queue.Scheduler.{set_streak, or_try, preferred_network, pop_runnable}
use griffr.TaskPool.Queue.Progress.{tried}
use griffr.TaskPool.Queue.Takes.{Takes}

-- Four continuations, and then a bulk task.
abbrev pub due : ℕ → TaskPriority
due n = if nat_beq n 4 then bulk else continuation

module _ {Task : Type 0} (world : World) (config : TaskPoolConfig) where
  -- The lane has taken so many continuations since its streak was zero, whatever happened in between
  -- that leaves the streak of the lane alone.
  pub data InRow (class : RunClass) : ℕ → QueueState Task → AdmissionCache → Type 0 where
    afresh :
        {s : QueueState Task} {cache : AdmissionCache}
        → s.continuation_streak class ≡ 0
        → InRow class 0 s cache
    another :
        {n : ℕ} {s : QueueState Task} {cache : AdmissionCache}
        → InRow class n s cache
        → Takes world config continuation class s cache (pop_runnable world config class s cache)
        → InRow class
            (suc n)
            (pop_runnable world config class s cache).state
            (pop_runnable world config class s cache).cache
    meanwhile :
        {n : ℕ} {s s' : QueueState Task} {cache cache' : AdmissionCache}
        → InRow class n s cache
        → s'.continuation_streak class ≡ s.continuation_streak class
        → InRow class n s' cache'

  abbrev then_try : TaskPriority → RunClass → QueueState Task → ℕ → Popped Task → Popped Task
  then_try priority class s n p =
      or_try
        (tried world config priority class (preferred_network world config class s) p.state p.cache)
        (set_streak class n) (λ q. q)

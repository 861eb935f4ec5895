-- ===== src/TaskPool/Examples/Queue.antt =====
-- Runs of the queue at two tasks, and the theorems applied to them.
use griffr.Common.{
  ℕ, zero, suc, ◌≡◌, refl, Bool, true, none, some, List, [], ◌∷◌, arith, nat_eq, text_eq, nat_order,
  text_order, flagged_eq, flagged_order,
}
use griffr.TaskPool.Request.{cpu, blocking}
use griffr.TaskPool.Resources.{idle, acquire}
use griffr.TaskPool.Resources.Running.{Reach, here}
use griffr.TaskPool.Queue.{TaskKind, World, QueuedTask, AdmissionCache, QueueState, empty_queue}
use griffr.TaskPool.Queue.Select.{priority_rank, runnable, select_index}
use griffr.TaskPool.Queue.Pop.{Popped, ensured_cache}
use griffr.TaskPool.Queue.Scheduler.{
  pop_runnable, ScheduledTask, scheduled_at, pop_next, pop_md5_verify_batch_member,
}
use griffr.TaskPool.Queue.Safe.{own_resources}
use griffr.TaskPool.Queue.Started.{
  as_follower, Started, pop_next-Started, pop_next-Reach, pop_md5_verify_batch_member-Started,
}
use griffr.TaskPool.Queue.Counts.{IsCountable, IsCached}
use griffr.TaskPool.Queue.Progress.{LaneIdle}
use griffr.TaskPool.Queue.Cached.{pops, called, called-IsCached}
use griffr.TaskPool.Queue.Takes.{Takes}
use griffr.TaskPool.Queue.Fair.{pop_next-idle}
use griffr.TaskPool.Examples.{
  program, machine, writer, nested, no_snapshot, writer-IsNormal, writer-Fits,
}

abbrev world : World
world = record { now = 100; available_space = λ _. some 4096 }

abbrev queued_writer : QueuedTask ℕ
queued_writer = record { node_id = 7; task = 70; resources = writer; enqueued_at = 40 }

abbrev queued_nested : QueuedTask ℕ
queued_nested = record { node_id = 8; task = 80; resources = nested; enqueued_at = 50 }

abbrev two_bulk : QueueState ℕ
two_bulk = record (empty_queue ℕ) { bulk = queued_nested ∷ queued_writer ∷ [] }

-- The writer is taken first: a task of its volume waits.
abbrev started_writer : ScheduledTask ℕ
started_writer = scheduled_at 100 queued_writer writer

takes_one : (pop_next world machine true two_bulk).1 ≡ some started_writer
unfolding program
takes_one = refl

-- The writer waits for the path that the first task holds.
abbrev one_running : QueueState ℕ
one_running = record (empty_queue ℕ) { bulk = queued_writer ∷ []; resources = acquire idle nested }

takes_none : (pop_next world machine true one_running).1 ≡ none
unfolding program
takes_none = refl

-- A continuation and a bulk task of the same lane.
abbrev burst : QueueState ℕ
burst = record (empty_queue ℕ) { continuation = queued_nested ∷ []; bulk = queued_writer ∷ [] }

abbrev burst_cache : AdmissionCache
burst_cache = ensured_cache world machine burst

-- Two MD5 checks of one batch: every task counts as one.
abbrev all_md5 : TaskKind ℕ
all_md5 = record { is_md5_verify_task = λ _. true; run_class = λ _. cpu }

abbrev follower : ScheduledTask ℕ
follower = scheduled_at 100 queued_nested (as_follower queued_nested)

takes_follower : (pop_md5_verify_batch_member world machine all_md5 two_bulk).1 ≡ some follower
unfolding program
takes_follower = refl

pop_next-Started_example :
    Started world machine own_resources two_bulk
      (pop_next world machine true two_bulk).0
      started_writer
pop_next-Started_example = pop_next-Started world machine true two_bulk started_writer takes_one

pop_next-Reach_example :
    Reach machine
      (record { active = writer ∷ []; state = (pop_next world machine true two_bulk).0.resources })
pop_next-Reach_example =
    pop_next-Reach world machine true two_bulk started_writer [] here writer-IsNormal writer-Fits
      takes_one

one_running-IsCountable : IsCountable one_running
one_running-IsCountable = record { continuation_fits = omega arith; bulk_fits = omega arith }

one_running-IsCached : IsCached one_running
one_running-IsCached cache h = cc

pop_next-idle_example :
    LaneIdle world machine cpu one_running (ensured_cache world machine one_running)
pop_next-idle_example =
    pop_next-idle world machine true one_running one_running-IsCountable one_running-IsCached
      takes_none cpu refl

-- Five continuations and a bulk task: the fifth pop takes the bulk task.
abbrev long_burst : QueueState ℕ
long_burst = record burst {
  continuation = queued_nested ∷ queued_nested ∷ queued_nested ∷ queued_nested ∷ queued_nested ∷ [];
}

abbrev pop_times : ℕ → QueueState ℕ → AdmissionCache → Popped ℕ
pop_times zero s cache = record { state = s; cache = cache; taken = none }
pop_times (suc n) s cache =
    let p = pop_runnable world machine blocking s cache in pop_times n p.state p.cache

keeps_bulk :
    (pop_times 4 long_burst (ensured_cache world machine long_burst)).state.bulk
    ≡ queued_writer ∷ []
unfolding program
keeps_bulk = refl

takes_bulk : (pop_times 5 long_burst (ensured_cache world machine long_burst)).state.bulk ≡ []
unfolding program
takes_bulk = refl

pop_md5_verify_batch_member-Started_example :
    (all_md5.is_md5_verify_task 80 ≡ true)
    × Started world machine as_follower two_bulk
        (pop_md5_verify_batch_member world machine all_md5 two_bulk).0
        follower
pop_md5_verify_batch_member-Started_example =
    pop_md5_verify_batch_member-Started world machine all_md5 two_bulk follower takes_follower

abbrev fits_idle : QueuedTask ℕ → Bool
fits_idle = runnable blocking none idle machine no_snapshot

abbrev waiting_two : List (QueuedTask ℕ)
waiting_two = queued_nested ∷ queued_writer ∷ []

abbrev fits_busy : QueuedTask ℕ → Bool
fits_busy = runnable blocking none (acquire idle nested) machine no_snapshot

selects_none : select_index fits_busy (priority_rank 100 no_snapshot []) waiting_two ≡ none
unfolding program
selects_none = refl

two_bulk-IsCountable : IsCountable two_bulk
two_bulk-IsCountable = record { continuation_fits = omega arith; bulk_fits = omega arith }

called-IsCached_example : IsCached (called two_bulk (pops world machine true))
called-IsCached_example =
    called-IsCached two_bulk (pops world machine true) two_bulk-IsCountable (λ cache h. cc)

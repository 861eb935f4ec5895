-- ===== src/TaskPool/Queue/Started.antt =====
-- task_pool/scheduler/queue/priority_queue.rs: what `SchedulerQueue` starts, and the running system
-- of resources that it drives.
use griffr.Common.{
  ℕ, ◌≡◌, refl, sym, ap, subst, inl, inr, Bool, true, Option, none, some, List, [], ◌∷◌, Perm,
  arith, Option-cases, nat_eq, get_elem?, text_eq, nat_order, text_order, flagged_eq, flagged_order,
}
use griffr.TaskPool.Config.{TaskPoolConfig}
use griffr.TaskPool.Request.{async_io, ResourceRequest}
use griffr.TaskPool.Request.Normal.{IsNormal}
use griffr.TaskPool.Resources.{AdmissionSnapshot, ResourceState, acquire}
use griffr.TaskPool.Admission.{can_acquire}
use griffr.TaskPool.Resources.Ledger.{Fits}
use griffr.TaskPool.Resources.Running.{admit, Reach, next}
use griffr.TaskPool.Queue.{
  TaskPriority, continuation, bulk, TaskKind, World, QueuedTask, AdmissionCache, QueueState,
}
use griffr.TaskPool.Queue.Pop.{Popped, ensured_cache, queue_of, take_index}
use griffr.TaskPool.Queue.Scheduler.{
  or_try, try_lanes, pop_queued, pick_md5_verify, pop_md5_verify_for_batch, ScheduledTask,
  scheduled_at, start_task, pop_next, pop_md5_verify_batch_member,
}
use griffr.TaskPool.Queue.Conserve.{
  waiting, Leaves, CanRun, IsPop, IsPop-next, or_try-IsPop, take_index-IsPop,
}
use griffr.TaskPool.Queue.Select.Laws.{position-Found}
use griffr.TaskPool.Queue.Select.{md5_verify_batch_index}
use griffr.TaskPool.Queue.Safe.{own_resources, try_lanes-IsPop}

abbrev pub as_follower : {Task : Type 0} → QueuedTask Task → ResourceRequest
as_follower queued = record queued.resources { run = async_io }

module _ {Task : Type 0} (world : World) (config : TaskPoolConfig) where
  -- A started task stood in the queue, was admitted, and has acquired what it asks for.
  pub record Started (request : QueuedTask Task → ResourceRequest) (s s' : QueueState Task)
      (t : ScheduledTask Task) : Type 0 where
    pub queued : QueuedTask Task
    pub same_task : t ≡ scheduled_at world.now queued (request queued)
    pub left : Perm (waiting s) (queued ∷ waiting s')
    pub admitted :
        can_acquire s.resources t.resources config (ensured_cache world config s).snapshot ≡ true
    pub acquired : s'.resources ≡ acquire s.resources t.resources

  start_task-Started :
      (request : QueuedTask Task → ResourceRequest) (s : QueueState Task) (p : Popped Task)
      (t : ScheduledTask Task)
      → IsPop config request s (ensured_cache world config s) p
      → (start_task world.now request
          (record p.state { admission_cache = some p.cache }, p.taken)).1
        ≡ some t
      → Started request s
          (start_task world.now request
            (record p.state { admission_cache = some p.cache }, p.taken)).0
          t
  unfolding start_task
  start_task-Started request s p t h e = by_taken p.taken refl e
    where
      some_injective :
          (u v : ScheduledTask Task)
          → ◌≡◌ {A = Option (ScheduledTask Task)} (some u) (some v)
          → v ≡ u
      some_injective u v k = ground arith

      by_taken :
          (o : Option (QueuedTask Task))
          → p.taken ≡ o
          → (start_task world.now request (record p.state { admission_cache = some p.cache }, o)).1
            ≡ some t
          → Started request s
              (start_task world.now request
                (record p.state { admission_cache = some p.cache }, o)).0
              t
      by_taken none k e' = cc
      by_taken (some queued) k e' =
          let same = some_injective (scheduled_at world.now queued (request queued)) t e' in
          let asked : t.resources ≡ request queued =
            ap (λ (u : ScheduledTask Task). u.resources) same in
          record {
            queued = queued;
            same_task = same;
            left = subst (λ o. Leaves o s p.state) k h.leaves;
            admitted = rw asked (h.runs queued k);
            acquired = rw (asked, h.resources);
          }

  -- A task that pop_next returns stood in one of the two queues and has left it while all others
  -- stay, it passed can_acquire under the cached snapshot, and its resources are acquired.
  pub pop_next-Started :
      (dispatch : Bool) (s : QueueState Task) (t : ScheduledTask Task)
      → (pop_next world config dispatch s).1 ≡ some t
      → Started own_resources s (pop_next world config dispatch s).0 t
  unfolding pop_next pop_queued
  pop_next-Started dispatch s t e =
      start_task-Started own_resources s
        (try_lanes world config dispatch (0 ∷ 1 ∷ 2 ∷ 3 ∷ []) s (ensured_cache world config s)) t
        (try_lanes-IsPop world config dispatch (0 ∷ 1 ∷ 2 ∷ 3 ∷ []) s
          (ensured_cache world config s))
        e

  -- If the resources are those of a reachable system of running tasks, and the returned task is
  -- normal and the counters fit a word with it, then what pop_next leaves is reachable again, with
  -- that task running too.
  pub pop_next-Reach :
      (dispatch : Bool) (s : QueueState Task) (t : ScheduledTask Task)
      (active : List ResourceRequest)
      → Reach config (record { active = active; state = s.resources })
      → IsNormal t.resources
      → Fits (t.resources ∷ active)
      → (pop_next world config dispatch s).1 ≡ some t
      → Reach config (record {
        active = t.resources ∷ active;
        state = (pop_next world config dispatch s).0.resources;
      })
  pop_next-Reach dispatch s t active r normal fits e =
      let started = pop_next-Started dispatch s t e in
      subst (λ x. Reach config (record { active = t.resources ∷ active; state = x }))
        (sym started.acquired)
        (next r
          (admit t.resources (ensured_cache world config s).snapshot normal fits started.admitted))

  md5_verify_batch_index-CanRun :
      (kind : TaskKind Task) (queue : List (QueuedTask Task)) (resources : ResourceState)
      (snapshot : AdmissionSnapshot) (k : ℕ)
      → md5_verify_batch_index kind queue resources config snapshot ≡ some k
      → (x : QueuedTask Task) × (get_elem? queue k ≡ some x)
        × CanRun config resources snapshot as_follower x
  unfolding md5_verify_batch_index
  md5_verify_batch_index-CanRun kind queue resources snapshot k h =
      let (o, x, place, at, passes) = position-Found _ 0 0 queue k h in
      let same : k ≡ o = omega (arith, place) in (x, rw same at, ground (arith, passes))

  pick_md5_verify-IsPop :
      (kind : TaskKind Task) (s : QueueState Task) (cache : AdmissionCache)
      → IsPop config as_follower s cache (pick_md5_verify world config kind s cache)
  unfolding pick_md5_verify
  pick_md5_verify-IsPop kind s cache =
      let p =
        take_index world continuation s cache
          (md5_verify_batch_index kind s.continuation s.resources config cache.snapshot) in
      let h =
        take_index-IsPop config as_follower world continuation s cache
          (md5_verify_batch_index kind s.continuation s.resources config cache.snapshot)
          (md5_verify_batch_index-CanRun kind s.continuation s.resources cache.snapshot) in
      let second = λ (q : Popped Task).
        take_index world bulk q.state q.cache
          (md5_verify_batch_index kind q.state.bulk q.state.resources config q.cache.snapshot) in
      or_try-IsPop config as_follower s cache p (λ q. q) second h h
        (λ e. IsPop-next config as_follower s cache p (second p) h e (
          take_index-IsPop config as_follower world bulk p.state p.cache
            (md5_verify_batch_index kind p.state.bulk p.state.resources config p.cache.snapshot)
            (md5_verify_batch_index-CanRun kind p.state.bulk p.state.resources p.cache.snapshot)))

  md5_verify_batch_index-IsMd5 :
      (kind : TaskKind Task) (queue : List (QueuedTask Task)) (resources : ResourceState)
      (snapshot : AdmissionSnapshot) (k : ℕ) (x : QueuedTask Task)
      → md5_verify_batch_index kind queue resources config snapshot ≡ some k
      → get_elem? queue k ≡ some x
      → kind.is_md5_verify_task x.task ≡ true
  unfolding md5_verify_batch_index
  md5_verify_batch_index-IsMd5 kind queue resources snapshot k x h at =
      let (o, y, place, there, passes) = position-Found _ 0 0 queue k h in
      let same : k ≡ o = omega (arith, place) in
      let at' : get_elem? queue k ≡ some y = rw same there in
      let found : y ≡ x = ground (arith, at, at') in
      let is : kind.is_md5_verify_task y.task ≡ true = ground (arith, passes) in
      subst (λ (q : QueuedTask Task). kind.is_md5_verify_task q.task ≡ true) found is

  -- What is taken at an index stands at the index.
  take_index-at :
      (priority : TaskPriority) (s : QueueState Task) (cache : AdmissionCache) (index : Option ℕ)
      (x : QueuedTask Task)
      → (take_index world priority s cache index).taken ≡ some x
      → (k : ℕ) × (index ≡ some k) × (get_elem? (queue_of priority s) k ≡ some x)
  unfolding take_index
  take_index-at priority s cache none x h = cc
  take_index-at priority s cache (some k) x h =
      elim (Option-cases (get_elem? (queue_of priority s) k)) [
        | inl e ↦ absurd (cc (rw (e, take_index) at h))
        | inr (y, e) ↦ (k, refl, ground (arith, e, rw (e, take_index) at h))
      ]

  pick_md5_verify-IsMd5 :
      (kind : TaskKind Task) (s : QueueState Task) (cache : AdmissionCache) (x : QueuedTask Task)
      → (pick_md5_verify world config kind s cache).taken ≡ some x
      → kind.is_md5_verify_task x.task ≡ true
  unfolding pick_md5_verify
  pick_md5_verify-IsMd5 kind s cache x h =
      let first = md5_verify_batch_index kind s.continuation s.resources config cache.snapshot in
      let p = take_index world continuation s cache first in
      elim (Option-cases p.taken) [
        | inr (y, e) ↦
            let (k, found, at) = take_index-at continuation s cache first x (rw (e, or_try) at h) in
            md5_verify_batch_index-IsMd5 kind s.continuation s.resources cache.snapshot k x found at
        | inl e ↦
            let second =
              md5_verify_batch_index kind p.state.bulk p.state.resources config p.cache.snapshot in
            let (k, found, at) =
              take_index-at bulk p.state p.cache second x (rw (e, or_try) at h) in
            md5_verify_batch_index-IsMd5 kind p.state.bulk p.state.resources p.cache.snapshot k x
              found at
      ]

  start_task-task :
      (request : QueuedTask Task → ResourceRequest) (s : QueueState Task)
      (taken : Option (QueuedTask Task)) (t : ScheduledTask Task)
      → (start_task world.now request (s, taken)).1 ≡ some t
      → (queued : QueuedTask Task) × (taken ≡ some queued) × (t.task ≡ queued.task)
  unfolding start_task
  start_task-task request s none t h = cc
  start_task-task request s (some queued) t h = (queued, refl, ground (arith, h))

  -- A task that pop_md5_verify_batch_member returns is an MD5 verification; it stood in one of the
  -- queues and has left it while all others stay, it passed can_acquire as an asynchronous task,
  -- and those resources are acquired.
  pub pop_md5_verify_batch_member-Started :
      (kind : TaskKind Task) (s : QueueState Task) (t : ScheduledTask Task)
      → (pop_md5_verify_batch_member world config kind s).1 ≡ some t
      → (kind.is_md5_verify_task t.task ≡ true)
        × Started as_follower s (pop_md5_verify_batch_member world config kind s).0 t
  unfolding pop_md5_verify_batch_member pop_md5_verify_for_batch
  pop_md5_verify_batch_member-Started kind s t e =
      let cache = ensured_cache world config s in
      let (queued, taken, same) = start_task-task as_follower _ _ t e in
      let is = pick_md5_verify-IsMd5 kind s cache queued taken in
      (
        subst (λ (x : Task). kind.is_md5_verify_task x ≡ true) (sym same) is,
        start_task-Started as_follower s (pick_md5_verify world config kind s cache) t
            (pick_md5_verify-IsPop kind s cache) e,
      )

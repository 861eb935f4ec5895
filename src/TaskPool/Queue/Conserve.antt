-- ===== src/TaskPool/Queue/Conserve.antt =====
-- task_pool/scheduler/queue/priority_queue.rs: the tasks of both queues, and what a pop makes of
-- them.
use mathlib.Core.List.Perm
use mathlib.Core.List.{perm_middle}
use mathlib.Core.Path.{ap₂}
use griffr.Common.{
  ℕ, zero, suc, ◌≡◌, refl, sym, ◌∙◌, subst, inl, inr, true, Option, none, some, List, [], ◌∷◌, ◌++◌,
  Perm, arith, Option-cases, nat_eq, get_elem?, remove_index, text_eq, text_order, flagged_eq,
  flagged_order,
}
use griffr.TaskPool.Config.{TaskPoolConfig}
use griffr.TaskPool.Request.{ResourceRequest}
use griffr.TaskPool.Resources.{AdmissionSnapshot, ResourceState}
use griffr.TaskPool.Admission.{can_acquire}
use griffr.TaskPool.Queue.{
  TaskPriority, continuation, bulk, World, QueuedTask, AdmissionCache, QueueState,
}
use griffr.TaskPool.Queue.Pop.{Popped, queue_of, with_queue, take_index}
use griffr.TaskPool.Queue.Scheduler.{or_try}

perm-remove_index {ℓ} :
    {A : Type ℓ} (xs : List A) (i : ℕ) (x : A)
    → get_elem? xs i ≡ some x
    → Perm xs (x ∷ remove_index xs i)
perm-remove_index [] i x h = cc
perm-remove_index (y ∷ ys) zero x h =
    let same : y ≡ x = ground (arith, h) in rw same (Perm.refl (x ∷ ys))
perm-remove_index (y ∷ ys) (suc i) x h =
    Perm.trans (Perm.cons y (perm-remove_index ys i x h)) (Perm.swap x y (remove_index ys i))

module _ {Task : Type 0} where
  -- The tasks of both queues.
  abbrev pub waiting : QueueState Task → List (QueuedTask Task)
  waiting s = s.continuation ++ s.bulk

  -- From the first state to the second the queues lose the task that was taken, and no other.
  abbrev pub Leaves : Option (QueuedTask Task) → QueueState Task → QueueState Task → Type 0
  Leaves none s s' = (s'.continuation ≡ s.continuation) × (s'.bulk ≡ s.bulk)
  Leaves (some queued) s s' = Perm (waiting s) (queued ∷ waiting s')

  perm-take :
      (priority : TaskPriority) (s : QueueState Task) (i : ℕ) (x : QueuedTask Task)
      → get_elem? (queue_of priority s) i ≡ some x
      → Perm
          (waiting s)
          (x ∷ waiting (with_queue priority s (remove_index (queue_of priority s) i)))
  perm-take continuation s i x h =
      Perm.append (perm-remove_index s.continuation i x h) (Perm.refl s.bulk)
  perm-take bulk s i x h =
      Perm.trans (Perm.append_left s.continuation (perm-remove_index s.bulk i x h))
        (perm_middle s.continuation (remove_index s.bulk i))

  -- A task that a selection may take.
  abbrev pub CanRun :
      TaskPoolConfig
      → ResourceState
      → AdmissionSnapshot
      → (QueuedTask Task → ResourceRequest)
      → QueuedTask Task
      → Type 0
  CanRun config resources snapshot request queued =
      can_acquire resources (request queued) config snapshot ≡ true

  module _ (config : TaskPoolConfig) (request : QueuedTask Task → ResourceRequest)
      (s : QueueState Task) (cache : AdmissionCache) where
    pub record IsPop (p : Popped Task) : Type 0 where
      pub resources : p.state.resources ≡ s.resources
      pub leaves : Leaves p.taken s p.state
      pub idle : p.taken ≡ none → p.cache ≡ cache
      pub runs :
          (queued : QueuedTask Task)
          → p.taken ≡ some queued
          → CanRun config s.resources cache.snapshot request queued

  -- Two states with the same queues and resources.
  pub record Same (s s' : QueueState Task) : Type 0 where
    pub continuation : s'.continuation ≡ s.continuation
    pub bulk : s'.bulk ≡ s.bulk
    pub resources : s'.resources ≡ s.resources

  Leaves-from :
      (o : Option (QueuedTask Task)) (s₀ s s' : QueueState Task)
      → Same s s₀
      → Leaves o s₀ s'
      → Leaves o s s'
  Leaves-from none s₀ s s' e l = (l.0 ∙ e.continuation, l.1 ∙ e.bulk)
  Leaves-from (some x) s₀ s s' e l =
      subst (λ w. Perm w (x ∷ waiting s')) (ap₂ ◌++◌ e.continuation e.bulk) l

  Leaves-into :
      (o : Option (QueuedTask Task)) (s s₁ s' : QueueState Task)
      → Same s₁ s'
      → Leaves o s s₁
      → Leaves o s s'
  Leaves-into none s s₁ s' e l = (e.continuation ∙ l.0, e.bulk ∙ l.1)
  Leaves-into (some x) s s₁ s' e l =
      subst (λ w. Perm (waiting s) (x ∷ w)) (sym (ap₂ ◌++◌ e.continuation e.bulk)) l

  module _ (config : TaskPoolConfig) (request : QueuedTask Task → ResourceRequest) where
    pub IsPop-from :
        (s₀ s : QueueState Task) (cache : AdmissionCache) (p : Popped Task)
        → Same s s₀
        → IsPop config request s₀ cache p
        → IsPop config request s cache p
    IsPop-from s₀ s cache p e h = record {
      resources = h.resources ∙ e.resources;
      leaves = Leaves-from p.taken s₀ s p.state e h.leaves;
      idle = h.idle;
      runs = λ x t. subst (λ r. CanRun config r cache.snapshot request x) e.resources (h.runs x t);
    }

    pub IsPop-into :
        (s : QueueState Task) (cache : AdmissionCache) (p : Popped Task) (s' : QueueState Task)
        → Same p.state s'
        → IsPop config request s cache p
        → IsPop config request s cache (record p { state = s' })
    IsPop-into s cache p s' e h = record {
      resources = e.resources ∙ h.resources;
      leaves = Leaves-into p.taken s p.state s' e h.leaves;
      idle = h.idle;
      runs = h.runs;
    }

    -- A pop that takes nothing leaves the next one where it began.
    pub IsPop-next :
        (s : QueueState Task) (cache : AdmissionCache) (p q : Popped Task)
        → IsPop config request s cache p
        → p.taken ≡ none
        → IsPop config request p.state p.cache q
        → IsPop config request s cache q
    IsPop-next s cache p q h e k =
        let kept = subst (λ o. Leaves o s p.state) e h.leaves in
        let same =
          IsPop-from p.state s p.cache q
            (record { continuation = kept.0; bulk = kept.1; resources = h.resources }) k in
        subst (λ c. IsPop config request s c q) (h.idle e) same

    pub or_try-IsPop :
        (s : QueueState Task) (cache : AdmissionCache) (p : Popped Task)
        (done next : Popped Task → Popped Task)
        → IsPop config request s cache p
        → IsPop config request s cache (done p)
        → (p.taken ≡ none → IsPop config request s cache (next p))
        → IsPop config request s cache (or_try p done next)
    or_try-IsPop s cache p done next h d n = elim (Option-cases p.taken) [
      | inl e ↦ rw (e, or_try) (n e)
      | inr (x, e) ↦ rw (e, or_try) d
    ]

    pub empty-IsPop :
        (s : QueueState Task) (cache : AdmissionCache)
        → IsPop config request s cache (record { state = s; cache = cache; taken = none })
    empty-IsPop s cache = record {
      resources = refl;
      leaves = (refl, refl);
      idle = λ _. refl;
      runs = λ x t. cc;
    }

    with_queue-resources :
        (priority : TaskPriority) (s : QueueState Task) (queue : List (QueuedTask Task))
        → (with_queue priority s queue).resources ≡ s.resources
    with_queue-resources continuation s queue = refl
    with_queue-resources bulk s queue = refl

    pub take_index-IsPop :
        (world : World) (priority : TaskPriority) (s : QueueState Task) (cache : AdmissionCache)
        (index : Option ℕ)
        → ((k : ℕ)
            → index ≡ some k
            → (x : QueuedTask Task) × (get_elem? (queue_of priority s) k ≡ some x)
              × CanRun config s.resources cache.snapshot request x)
        → IsPop config request s cache (take_index world priority s cache index)
    unfolding take_index
    take_index-IsPop world priority s cache none h = empty-IsPop s cache
    take_index-IsPop world priority s cache (some k) h =
        let (x, at, runs) = h k refl in
        rw (at, take_index)
          (record {
            resources = with_queue-resources priority s _;
            leaves = perm-take priority s k x at;
            idle = λ e. cc;
            runs = λ y t. rw (← same_task x y t) runs;
          })
      where
        same_task :
            (x y : QueuedTask Task) → ◌≡◌ {A = Option (QueuedTask Task)} (some x) (some y) → x ≡ y
        same_task x y t = ground arith

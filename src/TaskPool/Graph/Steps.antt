-- ===== src/TaskPool/Graph/Steps.antt =====
-- task_pool/graph/exec/node_exec.rs: the writes to one node that the methods make, and the methods
-- that call no other.
use griffr.Common.{
  ℕ, ◌<◌, ◌≡◌, refl, ◌⊎◌, true, false, none, List, [], ◌∷◌, ◌++◌, arith, nat_eq, length,
  contains-append, text_eq, saturating_sub, nat_order, text_order, flagged_eq, flagged_order,
}
use griffr.TaskPool.Graph.{
  Result, ok, ◌>>=◌, NodeState, is_terminal, is_state, TaskNode, TaskGraph, Work, node_at,
}
use griffr.TaskPool.Graph.Resolve.{has_failed}
use griffr.TaskPool.Graph.Lookup.{node_of, get_elem?-node_of, node_of-le-total}
use griffr.TaskPool.Graph.Sound.{has_started, is_open, is_due, in_range, IsSound, Extends, MayEdit}

-- A call neither fails nor panics, and its result is as stated.
abbrev pub Returns {ℓ κ} : {A : Type ℓ} → Result A → (A → Type κ) → Type (ℓ ⊔ κ)
Returns {A} r P = (a : A) × (r ≡ ok a) × P a

pub >>=_returns {ℓ κ μ ν} :
    {A : Type ℓ} {B : Type κ} (P : A → Type μ) (Q : B → Type ν) (m : Result A) (f : A → Result B)
    → Returns m P
    → ((a : A) → P a → Returns (f a) Q)
    → Returns (m >>= f) Q
>>=_returns P Q m f (a, e, p) k = rw e (k a p)

module _ {ℓ} {T : Type ℓ} where
  pub node_at-node_of :
      (nodes : List (TaskNode T)) (id : ℕ)
      → id < length nodes
      → node_at nodes id ≡ ok (node_of nodes id)
  node_at-node_of nodes id h = rw (get_elem?-node_of nodes id h, node_at)

  -- The call keeps the graph sound, its result going on from the graph of `w`.
  abbrev pub Keeps : List ℕ → List ℕ → Work T → Result (Work T) → Type ℓ
  Keeps todo doomed w m = Returns m (λ r. IsSound todo doomed r.graph × Extends w.graph r.graph)

  module _ {doomed : List ℕ} (g : TaskGraph T) (id : ℕ) (exists : id < length g.nodes) where
    pub succeeded-MayEdit :
        IsSound [] doomed g
        → is_terminal (node_of g.nodes id).state ≡ false
        → has_started (node_of g.nodes id).state ≡ true
        → MayEdit [] doomed
            (node_of g.nodes id).dependents
            doomed
            g
            id
            (record (node_of g.nodes id) { state = NodeState.succeeded; task = none })
            (saturating_sub g.unresolved 1)
    succeeded-MayEdit s o b = record {
      exists = exists;
      count = ground (arith, node_of-le-total is_open g.nodes id, s.counted);
      same_dependents = refl;
      final = λ t. cc;
      waiters_kept = s.waiters_in_range id;
      has_task = λ p. cc;
      paid = λ p. s.unblocked id b;
      not_due = λ p. ground arith;
      balance = λ i h. ground arith;
      doom = λ i. (λ c. c, λ p q c. cc);
    }

    pub unsuccessful-MayEdit :
        (state : NodeState)
        → has_failed state ≡ true
        → IsSound [] doomed g
        → is_terminal (node_of g.nodes id).state ≡ false
        → MayEdit [] doomed []
            ((node_of g.nodes id).dependents ++ doomed)
            g
            id
            (record (node_of g.nodes id) { state = state; task = none })
            (saturating_sub g.unresolved 1)
    unsuccessful-MayEdit state f s o = record {
      exists = exists;
      count = ground (arith, node_of-le-total is_open g.nodes id, s.counted);
      same_dependents = refl;
      final = λ t. cc;
      waiters_kept = s.waiters_in_range id;
      has_task = λ p. ground arith;
      paid = λ p. ground arith;
      not_due = λ p. ground arith;
      balance = λ i h. ground arith;
      doom = λ i. (
        λ c. ground (arith, contains-append (node_of g.nodes id).dependents doomed i),
        λ p q c. ground (arith, contains-append (node_of g.nodes id).dependents doomed i),
      );
    }

    -- A dependency fewer, the node made ready if none is left.
    pub released-MayEdit :
        (todo : List ℕ) (n : TaskNode T)
        → IsSound (id ∷ todo) doomed g
        → n.dependents ≡ (node_of g.nodes id).dependents
        → n.waiters ≡ (node_of g.nodes id).waiters
        → n.remaining_dependencies ≡ saturating_sub (node_of g.nodes id).remaining_dependencies 1
        → ((n.state ≡ (node_of g.nodes id).state)
            × (n.task ≡ (node_of g.nodes id).task)
            × (is_due n ≡ false))
          ⊎ ((n.state ≡ NodeState.ready)
              × ((node_of g.nodes id).state ≡ NodeState.pending)
              × (n.remaining_dependencies ≡ 0))
        → MayEdit (id ∷ todo) doomed todo doomed g id n g.unresolved
    released-MayEdit todo n s d wt r c = record {
      exists = exists;
      count = ground arith;
      same_dependents = d;
      final = λ t. ground arith;
      waiters_kept = ground (arith, s.waiters_in_range id);
      has_task = λ p. ground (arith, s.tasked id);
      paid = λ p. ground (arith, s.unblocked id);
      not_due = λ p. ground arith;
      balance = λ i h. ground (arith, s.owed id);
      doom = λ i. (λ m. m, λ p q m. ground arith);
    }

    -- A write that keeps the state and the dependencies, but may change the waiters.
    pub waiting-MayEdit :
        (todo : List ℕ) (n : TaskNode T)
        → IsSound todo doomed g
        → n.state ≡ (node_of g.nodes id).state
        → n.dependents ≡ (node_of g.nodes id).dependents
        → n.remaining_dependencies ≡ (node_of g.nodes id).remaining_dependencies
        → in_range g.nodes n.waiters ≡ true
        → (is_state n.state NodeState.pending ≡ true → n.task ≡ (node_of g.nodes id).task)
        → MayEdit todo doomed todo doomed g id n g.unresolved
    waiting-MayEdit todo n s st d r wt t = record {
      exists = exists;
      count = ground arith;
      same_dependents = d;
      final = λ p. st;
      waiters_kept = wt;
      has_task = λ p. ground (arith, s.tasked id);
      paid = λ p. ground (arith, s.unblocked id);
      not_due = λ p. ground arith;
      balance = λ i h. ground arith;
      doom = λ i. (λ c. c, λ p q c. cc);
    }

    -- A node with no dependency left may become ready.
    pub ready-MayEdit :
        (todo : List ℕ) (n : TaskNode T)
        → IsSound todo doomed g
        → is_terminal (node_of g.nodes id).state ≡ false
        → (node_of g.nodes id).remaining_dependencies ≡ 0
        → n.state ≡ NodeState.ready
        → n.dependents ≡ (node_of g.nodes id).dependents
        → n.remaining_dependencies ≡ (node_of g.nodes id).remaining_dependencies
        → n.waiters ≡ (node_of g.nodes id).waiters
        → MayEdit todo doomed todo doomed g id n g.unresolved
    ready-MayEdit todo n s o z st d r wt = record {
      exists = exists;
      count = ground arith;
      same_dependents = d;
      final = λ p. cc;
      waiters_kept = ground (arith, s.waiters_in_range id);
      has_task = λ p. ground arith;
      paid = λ p. omega arith;
      not_due = λ p. ground arith;
      balance = λ i h. ground arith;
      doom = λ i. (λ c. c, λ p q c. ground arith);
    }

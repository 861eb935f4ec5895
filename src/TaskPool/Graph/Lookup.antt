-- ===== src/TaskPool/Graph/Lookup.antt =====
-- The nodes of a task graph by their index, with a node for the indices out of range, and what a
-- write to one node changes.
use griffr.Common.{
  ℕ, zero, suc, ◌+◌, ◌≤◌, ◌<◌, ◌≡◌, refl, false, none, some, List, [], ◌∷◌, arith, nat_beq,
  if◌then◌else◌, nat_eq, length, get_elem?, set, total, text_eq, nat_order, text_order, flagged_eq,
  flagged_order,
}
use griffr.TaskPool.Graph.{NodeState, TaskNode}

module _ {ℓ} {T : Type ℓ} where
  -- No node: nothing depends on it, and it never runs.
  abbrev pub absent : TaskNode T
  absent = record {
    task = none;
    state = NodeState.cancelled;
    remaining_dependencies = 0;
    dependents = [];
    waiters = [];
    waiting_remaining = 0;
    continuation = false;
  }

  unfoldable pub node_of : List (TaskNode T) → ℕ → TaskNode T
  node_of [] id = absent
  node_of (n ∷ ns) zero = n
  node_of (n ∷ ns) (suc id) = node_of ns id

  pub get_elem?-node_of :
      (nodes : List (TaskNode T)) (id : ℕ)
      → id < length nodes
      → get_elem? nodes id ≡ some (node_of nodes id)
  unfolding node_of
  get_elem?-node_of [] id h = absurd (omega arith)
  get_elem?-node_of (n ∷ ns) zero h = refl
  get_elem?-node_of (n ∷ ns) (suc id) h = get_elem?-node_of ns id (omega arith)

  pub dependents_beyond :
      (nodes : List (TaskNode T)) (id : ℕ) → length nodes ≤ id → (node_of nodes id).dependents ≡ []
  unfolding node_of
  dependents_beyond [] id h = refl
  dependents_beyond (n ∷ ns) zero h = absurd (omega arith)
  dependents_beyond (n ∷ ns) (suc id) h = dependents_beyond ns id (omega arith)

  -- An index that a read finds is in range.
  pub node_of-get_elem? :
      (nodes : List (TaskNode T)) (id : ℕ) {n : TaskNode T}
      → get_elem? nodes id ≡ some n
      → (id < length nodes) × (node_of nodes id ≡ n)
  unfolding node_of
  node_of-get_elem? [] id h = cc
  node_of-get_elem? (n ∷ ns) zero h = ground (arith, h)
  node_of-get_elem? (n ∷ ns) (suc id) h = ground (arith, node_of-get_elem? ns id h)

  pub node_of-set :
      (nodes : List (TaskNode T)) (id : ℕ) (v : TaskNode T) (i : ℕ)
      → id < length nodes
      → node_of (set nodes id v) i ≡ (if nat_beq id i then v else node_of nodes i)
  unfolding node_of
  node_of-set [] id v i h = absurd (omega arith)
  node_of-set (n ∷ ns) zero v zero h = refl
  node_of-set (n ∷ ns) zero v (suc i) h = ground arith
  node_of-set (n ∷ ns) (suc id) v zero h = ground arith
  node_of-set (n ∷ ns) (suc id) v (suc i) h = ground (arith, node_of-set ns id v i)

  pub total-set :
      (f : TaskNode T → ℕ) (nodes : List (TaskNode T)) (id : ℕ) (v : TaskNode T)
      → id < length nodes
      → total f (set nodes id v) + f (node_of nodes id) ≡ total f nodes + f v
  unfolding node_of
  total-set f [] id v h = absurd (omega arith)
  total-set f (n ∷ ns) zero v h = omega arith
  total-set f (n ∷ ns) (suc id) v h = omega (arith, total-set f ns id v)

  -- One node's part of a sum.
  pub node_of-le-total :
      (f : TaskNode T → ℕ) (nodes : List (TaskNode T)) (id : ℕ)
      → id < length nodes
      → f (node_of nodes id) ≤ total f nodes
  unfolding node_of
  node_of-le-total f [] id h = absurd (omega arith)
  node_of-le-total f (n ∷ ns) zero h = omega arith
  node_of-le-total f (n ∷ ns) (suc id) h = omega (arith, node_of-le-total f ns id)

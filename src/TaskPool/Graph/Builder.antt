-- ===== src/TaskPool/Graph/Builder.antt =====
-- task_pool/graph/builder.rs: the builder of a command's task graph.
pub mod Links
pub mod Build
pub mod Fresh
use griffr.Common.{
  ℕ, suc, false, Option, none, some, List, [], ◌∷◌, ◌++◌, map, leb, if◌then◌else◌, nat_eq, length,
  set, text_eq, nat_order, text_order, flagged_eq, flagged_order, ordered_set,
}
use griffr.TaskPool.Graph.{
  unknown_node, Result, ok, failed, panicked, ◌>>=◌, new_node_id, NodeState, TaskNode, TaskGraph,
  node_at,
}

pub record BuilderNode {ℓ} (T : Type ℓ) : Type ℓ where
  pub task : T
  pub dependencies : List ℕ

-- The first of the dependencies that no node of the builder has.
unfoldable pub first_unknown : ℕ → List ℕ → Option ℕ
first_unknown count [] = none
first_unknown count (d ∷ ds) = if leb count d then some d else first_unknown count ds

module _ {ℓ} {T : Type ℓ} where
  unfoldable pub add_task : List (BuilderNode T) → T → List ℕ → Result (List (BuilderNode T) × ℕ)
  unfolding first_unknown new_node_id ordered_set
  add_task nodes task dependencies =
      let id = length nodes in
      let known = ordered_set dependencies in
      new_node_id id >>= λ _. elim (first_unknown id known) [
        | some d ↦ failed (unknown_node id d)
        | none ↦ ok (nodes ++ (record { task = task; dependencies = known }) ∷ [], id)
      ]

  unfoldable pub add_root : List (BuilderNode T) → T → Result (List (BuilderNode T) × ℕ)
  unfolding add_task
  add_root nodes task = elim (add_task nodes task []) [ failed _ ↦ panicked | r ↦ r ]

  unfoldable pub pending_node : BuilderNode T → TaskNode T
  pending_node n = record {
    task = none;
    state = NodeState.pending;
    remaining_dependencies = length n.dependencies;
    dependents = [];
    waiters = [];
    waiting_remaining = 0;
    continuation = false;
  }

  -- `graph_nodes[dependency.index()].dependents.push(id)`
  unfoldable pub push_dependent : ℕ → List (TaskNode T) → ℕ → Result (List (TaskNode T))
  push_dependent id nodes d =
      node_at nodes d >>= λ n. ok (set nodes d (record n { dependents = n.dependents ++ id ∷ [] }))

  unfoldable pub push_dependents : ℕ → List ℕ → List (TaskNode T) → Result (List (TaskNode T))
  unfolding push_dependent
  push_dependents id [] nodes = ok nodes
  push_dependents id (d ∷ ds) nodes = push_dependent id nodes d >>= push_dependents id ds

  -- The loop over the enumerated nodes of the builder.
  unfoldable pub link_nodes :
      ℕ → List (BuilderNode T) → List (TaskNode T) → Result (List (TaskNode T))
  unfolding push_dependents new_node_id
  link_nodes index [] nodes = ok nodes
  link_nodes index (b ∷ bs) nodes = new_node_id index >>= λ id.
      push_dependents id b.dependencies nodes >>= λ linked. link_nodes (suc index) bs linked

  -- `graph_nodes.iter_mut().zip(self.nodes)`
  unfoldable pub give_tasks : List (TaskNode T) → List (BuilderNode T) → List (TaskNode T)
  give_tasks [] bs = []
  give_tasks (n ∷ ns) [] = n ∷ ns
  give_tasks (n ∷ ns) (b ∷ bs) = record n { task = some b.task } ∷ give_tasks ns bs

  unfoldable pub build_checked : List (BuilderNode T) → Result (TaskGraph T)
  unfolding link_nodes give_tasks pending_node
  build_checked builder = link_nodes 0 builder (map pending_node builder) >>= λ linked. ok (record {
    nodes = give_tasks linked builder;
    unresolved = length linked;
    dynamic_expansions = 0;
    bindings = [];
  })

  -- `TaskGraph::from_tasks`
  unfoldable pub add_roots : List T → List (BuilderNode T) → Result (List (BuilderNode T))
  unfolding add_root
  add_roots [] nodes = ok nodes
  add_roots (t ∷ ts) nodes = add_root nodes t >>= λ r. add_roots ts r.0

  unfoldable pub from_tasks : List T → Result (TaskGraph T)
  unfolding add_roots build_checked
  from_tasks tasks = add_roots tasks [] >>= build_checked

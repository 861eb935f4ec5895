-- ===== src/TaskPool/Graph.antt =====
-- task_pool/graph/builder.rs and graph/exec/node_exec.rs: the nodes of a command's task graph, what
-- is read of them, and the node updates that the operations are made of. A read out of range is a
-- panic, and so is a missing task where the source expects one.
pub mod Builder
pub mod Settle
pub mod Expansion
pub mod Resolve
pub mod Install
pub mod Lookup
pub mod Sound
pub mod Steps
pub mod Operations
pub mod Run
pub mod Guarantees
pub mod Dependents
use griffr.Common.{
  ℕ, Bool, true, false, Option, none, some, List, [], ◌∷◌, ltb, if◌then◌else◌, nat_eq, length,
  get_elem?, set, text_eq, saturating_add, Map, nat_order, text_order, flagged_eq, flagged_order,
}

-- `NodeId` is the index of the node, below 2 ^ 32.
abbrev pub node_limit : ℕ
node_limit = 4294967296

-- The messages that the graph fails with.
pub data GraphError : Type 0 where
  too_many_nodes no_terminal_nodes : GraphError
  unknown_node : ℕ → ℕ → GraphError
  started_unknown started_from_invalid_state finished_outside_running : ℕ → GraphError
  bound_twice : ℕ → GraphError
  forward_dependency : ℕ → ℕ → GraphError
  token_cycle unbound_token forward_token : ℕ → ℕ → GraphError

pub data Result {ℓ} (A : Type ℓ) : Type ℓ where
  ok : A → Result A
  failed : GraphError → Result A
  panicked : Result A

-- The `?` operator: the first failure or panic is the result.
infixl 5 ◌>>=◌
abbrev pub ◌>>=◌ {μ ν} : {S : Type μ} {R : Type ν} → Result S → (S → Result R) → Result R
panicked >>= next = panicked
failed message >>= next = failed message
ok value >>= next = next value

unfoldable pub new_node_id : ℕ → Result ℕ
new_node_id index = if ltb index node_limit then ok index else failed too_many_nodes

pub data NodeState : Type 0 where
  pending ready running waiting succeeded failed cancelled : NodeState

abbrev pub is_terminal : NodeState → Bool
is_terminal NodeState.pending = false
is_terminal NodeState.ready = false
is_terminal NodeState.running = false
is_terminal NodeState.waiting = false
is_terminal NodeState.succeeded = true
is_terminal NodeState.failed = true
is_terminal NodeState.cancelled = true

abbrev pub is_state : NodeState → NodeState → Bool
is_state NodeState.pending NodeState.pending = true
is_state NodeState.ready NodeState.ready = true
is_state NodeState.running NodeState.running = true
is_state NodeState.waiting NodeState.waiting = true
is_state NodeState.succeeded NodeState.succeeded = true
is_state NodeState.failed NodeState.failed = true
is_state NodeState.cancelled NodeState.cancelled = true
is_state _ _ = false

pub record TaskNode {ℓ} (T : Type ℓ) : Type ℓ where
  pub task : Option T
  pub state : NodeState
  pub remaining_dependencies : ℕ
  pub dependents : List ℕ
  pub waiters : List ℕ
  pub waiting_remaining : ℕ
  pub continuation : Bool

pub record TaskGraph {ℓ} (T : Type ℓ) : Type ℓ where
  pub nodes : List (TaskNode T)
  pub unresolved : ℕ
  pub dynamic_expansions : ℕ
  pub bindings : Map ℕ ℕ

pub record ReadyTask {ℓ} (T : Type ℓ) : Type ℓ where
  pub id : ℕ
  pub task : T
  pub continuation : Bool

-- The graph, and the vector `ready` that an operation fills.
pub record Work {ℓ} (T : Type ℓ) : Type ℓ where
  pub graph : TaskGraph T
  pub started : List (ReadyTask T)

pub record TaskGraphSummary : Type 0 where
  pub total_nodes : ℕ
  pub pending_nodes : ℕ
  pub ready_nodes : ℕ
  pub running_nodes : ℕ
  pub waiting_nodes : ℕ
  pub succeeded_nodes : ℕ
  pub failed_nodes : ℕ
  pub cancelled_nodes : ℕ
  pub dynamic_expansions : ℕ

-- The body of the loop in `TaskGraph::summary`.
unfoldable pub count_state : NodeState → TaskGraphSummary → TaskGraphSummary
count_state NodeState.pending s = record s { pending_nodes = saturating_add s.pending_nodes 1 }
count_state NodeState.ready s = record s { ready_nodes = saturating_add s.ready_nodes 1 }
count_state NodeState.running s = record s { running_nodes = saturating_add s.running_nodes 1 }
count_state NodeState.waiting s = record s { waiting_nodes = saturating_add s.waiting_nodes 1 }
count_state NodeState.succeeded s = record s {
  succeeded_nodes = saturating_add s.succeeded_nodes 1;
}
count_state NodeState.failed s = record s { failed_nodes = saturating_add s.failed_nodes 1 }
count_state NodeState.cancelled s = record s {
  cancelled_nodes = saturating_add s.cancelled_nodes 1;
}

module _ {ℓ} {T : Type ℓ} where
  unfoldable pub count_nodes : List (TaskNode T) → TaskGraphSummary → TaskGraphSummary
  unfolding count_state
  count_nodes [] s = s
  count_nodes (n ∷ ns) s = count_nodes ns (count_state n.state s)

  unfoldable pub graph_summary : TaskGraph T → TaskGraphSummary
  unfolding count_nodes
  graph_summary g = count_nodes g.nodes (record {
    total_nodes = length g.nodes;
    pending_nodes = 0;
    ready_nodes = 0;
    running_nodes = 0;
    waiting_nodes = 0;
    succeeded_nodes = 0;
    failed_nodes = 0;
    cancelled_nodes = 0;
    dynamic_expansions = g.dynamic_expansions;
  })

  unfoldable pub node_count : TaskGraph T → ℕ
  node_count g = length g.nodes

  unfoldable pub node_state : TaskGraph T → ℕ → Option NodeState
  node_state g id = elim (get_elem? g.nodes id) [ none ↦ none | some n ↦ some n.state ]

  unfoldable pub has_unresolved : TaskGraph T → Bool
  has_unresolved g = ltb 0 g.unresolved

  unfoldable pub is_ready : TaskGraph T → ℕ → Bool
  is_ready g id = elim (get_elem? g.nodes id) [
    | none ↦ false
    | some n ↦ is_state n.state NodeState.ready
  ]

  -- `self.nodes[id.index()]`, read and written.
  abbrev pub node_at : List (TaskNode T) → ℕ → Result (TaskNode T)
  node_at nodes id = elim (get_elem? nodes id) [ none ↦ panicked | some n ↦ ok n ]

  abbrev pub put : ℕ → TaskNode T → Work T → Work T
  put id n w = record w { graph = record w.graph { nodes = set w.graph.nodes id n } }

  -- The method of the scheduler that hands a ready node to a worker.
  unfoldable pub mark_running : TaskGraph T → ℕ → Result (TaskGraph T)
  mark_running g id = elim (get_elem? g.nodes id) [
    | none ↦ failed (started_unknown id)
    | some n ↦
        if is_state n.state NodeState.ready
        then ok (record g { nodes = set g.nodes id (record n { state = NodeState.running }) })
        else failed (started_from_invalid_state id)
  ]

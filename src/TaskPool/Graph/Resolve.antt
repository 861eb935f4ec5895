-- ===== src/TaskPool/Graph/Resolve.antt =====
-- task_pool/graph/exec/node_exec.rs: the part of `install_expansion` that reads the graph, and finds
-- for each node of an expansion what it depends on. The bodies of the loops are functions.
pub mod Inversion
use griffr.Common.{
  ℕ, zero, suc, ◌+◌, ◌-◌, Bool, true, false, ◌||◌, not, none, some, List, [], ◌∷◌, ◌++◌, reverse,
  leb, nat_beq, if◌then◌else◌, nat_eq, length, get_elem?, set, total, contains, text_eq,
  saturating_add, Map, get, insert, contains_key, nat_order, text_order, flagged_eq, flagged_order,
  insert_ordered,
}
use griffr.TaskPool.Graph.{
  bound_twice, forward_dependency, token_cycle, unbound_token, forward_token, Result, ok, failed,
  panicked, ◌>>=◌, new_node_id, NodeState, is_state, TaskNode, TaskGraph, node_at,
}
use griffr.TaskPool.Graph.Expansion.{ExpansionNode}

-- `(0..nodes.len()).map(|offset| NodeId::new(base.saturating_add(offset)))`
unfoldable pub check_ids : ℕ → ℕ → Result (Unit {0})
unfolding new_node_id
check_ids base zero = ok tt
check_ids base (suc count) = new_node_id base >>= λ _. check_ids (saturating_add base 1) count

abbrev pub has_failed : NodeState → Bool
has_failed state = is_state state NodeState.failed || is_state state NodeState.cancelled

-- What the loop over the nodes collects: the dependencies of each, whether it is blocked, and how
-- many nodes of the expansion depend on it.
pub record Resolved : Type 0 where
  pub dependencies : List (List ℕ)
  pub blocked : List Bool
  pub out_degree : List ℕ

unfoldable pub local_dependencies : ℕ → ℕ → List ℕ → List ℕ → Result (List ℕ)
unfolding insert_ordered
local_dependencies base index [] found = ok found
local_dependencies base index (d ∷ ds) found =
    if leb index d
    then failed (forward_dependency index d)
    else local_dependencies base index ds (insert_ordered (base + d) found)

-- The node that a token stands for.
unfoldable pub token_dependency : Map ℕ ℕ → List ℕ → Map ℕ ℕ → ℕ → ℕ → ℕ → Result ℕ
unfolding get
token_dependency global after_parent bound base index token = elim (get global token) [
  | some existing ↦
      if contains after_parent existing then failed (token_cycle index token) else ok existing
  | none ↦ elim (get bound token) [
    | some local ↦ if leb index local then failed (forward_token index token) else ok (base + local)
    | none ↦ failed (unbound_token index token)
  ]
]

unfoldable pub token_dependencies_of :
    Map ℕ ℕ → List ℕ → Map ℕ ℕ → ℕ → ℕ → List ℕ → List ℕ → Result (List ℕ)
unfolding token_dependency insert_ordered
token_dependencies_of global after_parent bound base index [] found = ok found
token_dependencies_of global after_parent bound base index (t ∷ ts) found =
    token_dependency global after_parent bound base index t >>= λ d.
    token_dependencies_of global after_parent bound base index ts (insert_ordered d found)

-- `out_degree[i] = out_degree[i].saturating_add(1)`
unfoldable pub raise_degree : List ℕ → ℕ → Result (List ℕ)
raise_degree degrees i = elim (get_elem? degrees i) [
  | none ↦ panicked
  | some d ↦ ok (set degrees i (saturating_add d 1))
]

-- The nodes of the expansion that no other depends on.
unfoldable pub terminals_from : ℕ → List ℕ → List ℕ
terminals_from id [] = []
terminals_from id (d ∷ ds) =
    let rest = terminals_from (suc id) ds in if nat_beq d 0 then id ∷ rest else rest

module _ {ℓ} {T : Type ℓ} where
  -- The edges of the graph, an upper bound of the rounds below.
  unfoldable pub edge_count : List (TaskNode T) → ℕ
  edge_count nodes = total (λ n. length n.dependents + length n.waiters) nodes

  -- The loop of `finish_dependents_of`, the top of the stack first. A set is its list of members.
  unfoldable pub reach_from : ℕ → List (TaskNode T) → List ℕ → List ℕ → Result (List ℕ)
  reach_from zero nodes reachable [] = ok reachable
  reach_from zero nodes reachable (id ∷ stack) = panicked
  reach_from (suc rounds) nodes reachable [] = ok reachable
  reach_from (suc rounds) nodes reachable (id ∷ stack) = elim (contains reachable id) [
    | true ↦ reach_from rounds nodes reachable stack
    | false ↦ node_at nodes id >>= λ n.
        reach_from rounds nodes (id ∷ reachable) (reverse (n.dependents ++ n.waiters) ++ stack)
  ]

  unfoldable pub finish_dependents_of : List (TaskNode T) → ℕ → Result (List ℕ)
  unfolding reach_from edge_count
  finish_dependents_of nodes root = reach_from (suc (edge_count nodes)) nodes [] (root ∷ [])

  -- The loop that collects `local_bindings`.
  unfoldable pub bind_locals : Map ℕ ℕ → ℕ → List (ExpansionNode T) → Map ℕ ℕ → Result (Map ℕ ℕ)
  unfolding contains_key insert
  bind_locals global index [] bound = ok bound
  bind_locals global index (n ∷ ns) bound = elim n.binding [
    | none ↦ bind_locals global (suc index) ns bound
    | some token ↦
        if contains_key global token || contains_key bound token
        then failed (bound_twice token)
        else bind_locals global (suc index) ns (insert bound token index)
  ]

  -- The body of the loop over the dependencies of the node `index`.
  unfoldable pub classify_dependency : List (TaskNode T) → ℕ → ℕ → ℕ → Resolved → Result Resolved
  unfolding raise_degree
  classify_dependency nodes base index d r =
      if leb base d
      then (raise_degree r.out_degree (d - base) >>= λ degrees.
          ok (record r { out_degree = degrees }))
      else (node_at nodes d >>= λ n.
          ok (if has_failed n.state then record r { blocked = set r.blocked index true } else r))

  unfoldable pub classify : List (TaskNode T) → ℕ → ℕ → List ℕ → Resolved → Result Resolved
  unfolding classify_dependency
  classify nodes base index [] r = ok r
  classify nodes base index (d ∷ ds) r =
      classify_dependency nodes base index d r >>= classify nodes base index ds

  unfoldable pub resolve_dependencies :
      TaskGraph T → List ℕ → Map ℕ ℕ → ℕ → List (ExpansionNode T) → Resolved → Result Resolved
  unfolding local_dependencies token_dependencies_of classify
  resolve_dependencies g after_parent bound index [] r = ok r
  resolve_dependencies g after_parent bound index (n ∷ ns) r =
      local_dependencies (length g.nodes) index n.dependencies [] >>= λ locals.
      token_dependencies_of g.bindings after_parent bound (length g.nodes) index
        n.token_dependencies locals
      >>= λ dependencies. classify g.nodes (length g.nodes) index dependencies r >>= λ next.
          resolve_dependencies g after_parent bound (suc index) ns
            (record next { dependencies = next.dependencies ++ dependencies ∷ [] })

  -- Whether the dependency is still to be waited for.
  unfoldable pub is_owed : List (TaskNode T) → ℕ → ℕ → Bool
  is_owed nodes base d = leb base d || elim (get_elem? nodes d) [
    | none ↦ true
    | some n ↦ not (is_state n.state NodeState.succeeded)
  ]

  unfoldable pub count_owed : List (TaskNode T) → ℕ → List ℕ → ℕ
  unfolding is_owed
  count_owed nodes base [] = 0
  count_owed nodes base (d ∷ ds) =
      (if is_owed nodes base d then 1 else 0) + count_owed nodes base ds

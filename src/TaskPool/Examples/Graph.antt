-- ===== src/TaskPool/Examples/Graph.antt =====
-- Runs of small task graphs, and the theorems applied to them.
use griffr.Common.{
  ℕ, ◌≡◌, refl, ◌↔◌, true, false, ◌||◌, not, Option, none, some, List, [], ◌∷◌, arith, nat_eq,
  length, get_elem?, any, total, contains, text_eq, bytes, get, insert, contains_key, nat_order,
  text_order, flagged_eq, flagged_order, insert_ordered, ordered_set,
}
use griffr.TaskPool.Graph.{
  unknown_node, token_cycle, ok, failed, new_node_id, NodeState, is_terminal, is_state, TaskNode,
  TaskGraph, Work, count_state, count_nodes, graph_summary, node_count, node_state, has_unresolved,
  is_ready, mark_running,
}
use griffr.TaskPool.Graph.Builder.{
  BuilderNode, first_unknown, add_task, add_root, pending_node, push_dependent, push_dependents,
  link_nodes, give_tasks, build_checked,
}
use griffr.TaskPool.Graph.Settle.{
  for_each, push_ready, activate, activate_if_ready, continue_node, resolve, release_dependent,
  count_down, notify_waiter, notify_waiters, resolve_without_success, settle_node, settle,
}
use griffr.TaskPool.Graph.Expansion.{
  ExpansionNode, run_succeeded, run_failed, run_expand, run_expand_then, add_expansion_task,
  parallel_onto, expand, expand_then,
}
use griffr.TaskPool.Graph.Resolve.{
  check_ids, has_failed, local_dependencies, token_dependency, token_dependencies_of, raise_degree,
  terminals_from, edge_count, reach_from, finish_dependents_of, bind_locals, classify_dependency,
  classify, resolve_dependencies, is_owed, count_owed,
}
use griffr.TaskPool.Graph.Install.{
  new_node, new_nodes, bind_nodes, link_owed, link_all, push_waiter, cancel_blocked, activate_all,
  start, append_nodes, wait_for, settle_fuel, without_expansion, plan_expansion, settle_new,
  commit_expansion, install_expansion, finish_run, finish,
}
use griffr.TaskPool.Graph.Sound.{owes, is_open}
use griffr.TaskPool.Graph.Steps.{Returns}
use griffr.TaskPool.Graph.Operations.{Stays}
use griffr.TaskPool.Graph.Builder.Fresh.{IsFresh}
use griffr.TaskPool.Graph.Run.{
  Built, empty, added, Reachable, begun, marked, finished, Built-starts,
}
use griffr.TaskPool.Graph.Guarantees.{
  remaining_dependencies_count, dependencies_first, failure_spreads, unresolved_exact,
  some_node_active, finish_returns,
}
use griffr.TaskPool.Graph.Dependents.{FinishesAfter, finish_dependents_of-Exactly}

program : Unit {0}
unfolding new_node_id count_state count_nodes graph_summary node_count node_state has_unresolved
    is_ready mark_running first_unknown add_task add_root pending_node push_dependent
    push_dependents link_nodes give_tasks build_checked for_each push_ready activate
    activate_if_ready continue_node resolve release_dependent count_down notify_waiter
    notify_waiters resolve_without_success settle_node settle add_expansion_task parallel_onto
    expand expand_then check_ids local_dependencies token_dependency token_dependencies_of
    raise_degree terminals_from edge_count reach_from finish_dependents_of bind_locals
    classify_dependency classify resolve_dependencies is_owed count_owed new_node new_nodes
    bind_nodes link_owed link_all push_waiter cancel_blocked activate_all start append_nodes
    wait_for settle_fuel without_expansion plan_expansion settle_new commit_expansion
    install_expansion finish_run finish insert_ordered ordered_set get insert contains_key
program = tt

-- The second node depends on the first.
abbrev one : List (BuilderNode ℕ)
one = record { task = 10; dependencies = [] } ∷ []

abbrev chain : List (BuilderNode ℕ)
chain = record { task = 10; dependencies = [] } ∷ record { task = 20; dependencies = 0 ∷ [] } ∷ []

one-Built : Built one
unfolding program
one-Built = added 10 [] {r = (one, 0)} empty refl

chain-Built : Built chain
unfolding program
chain-Built = added 20 (0 ∷ 0 ∷ []) {r = (chain, 1)} one-Built refl

forward_refused : add_task one 20 (1 ∷ []) ≡ failed (unknown_node 1 1)
unfolding program
forward_refused = refl

abbrev node : Option ℕ → NodeState → ℕ → List ℕ → TaskNode ℕ
node task state remaining dependents = record {
  task = task;
  state = state;
  remaining_dependencies = remaining;
  dependents = dependents;
  waiters = [];
  waiting_remaining = 0;
  continuation = false;
}

abbrev graph : ℕ → List (TaskNode ℕ) → TaskGraph ℕ
graph unresolved nodes = record {
  nodes = nodes;
  unresolved = unresolved;
  dynamic_expansions = 0;
  bindings = [];
}

abbrev built : TaskGraph ℕ
built =
    graph 2
      (node (some 10) NodeState.pending 0 (1 ∷ []) ∷ node (some 20) NodeState.pending 1 [] ∷ [])

abbrev begun_work : Work ℕ
begun_work = record {
  graph =
      graph 2 (node none NodeState.ready 0 (1 ∷ []) ∷ node (some 20) NodeState.pending 1 [] ∷ []);
  started = record { id = 0; task = 10; continuation = false } ∷ [];
}

abbrev running_graph : TaskGraph ℕ
running_graph =
    graph 2 (node none NodeState.running 0 (1 ∷ []) ∷ node (some 20) NodeState.pending 1 [] ∷ [])

running-Reachable : Reachable running_graph
unfolding program
running-Reachable = marked 0 (begun {g = built} {w = begun_work} chain-Built refl refl) refl

-- After the first node's success the second is ready.
abbrev released : Work ℕ
released = record {
  graph = graph 1 (node none NodeState.succeeded 0 (1 ∷ []) ∷ node none NodeState.ready 0 [] ∷ []);
  started = record { id = 1; task = 20; continuation = false } ∷ [];
}

released-Reachable : Reachable (released.graph)
unfolding program
released-Reachable = finished 0 run_succeeded {w = released} running-Reachable refl

-- After its failure the second is cancelled.
abbrev cut : Work ℕ
cut = record {
  graph = graph 0 (node none NodeState.failed 0 (1 ∷ []) ∷ node none NodeState.cancelled 1 [] ∷ []);
  started = [];
}

cut-Reachable : Reachable (cut.graph)
unfolding program
cut-Reachable = finished 0 (run_failed (bytes "io") true) {w = cut} running-Reachable refl

-- A run of the first node that adds one node and goes on with a task.
abbrev added_node : ExpansionNode ℕ
added_node = record { task = 30; dependencies = []; token_dependencies = []; binding = some 5 }

abbrev expanded : TaskGraph ℕ
expanded = record {
  nodes =
      record (node (some 40) NodeState.waiting 0 (1 ∷ [])) { waiting_remaining = 1 }
      ∷ node (some 20) NodeState.pending 1 []
      ∷ record (node none NodeState.ready 0 []) { waiters = 0 ∷ []; continuation = true }
      ∷ [];
  unresolved = 3;
  dynamic_expansions = 1;
  bindings = (5, 2) ∷ [];
}

expands :
    finish running_graph 0 (run_expand_then (added_node ∷ []) 40)
    ≡ ok (record {
      graph = expanded;
      started = record { id = 2; task = 30; continuation = true } ∷ [];
    })
unfolding program
expands = refl

-- A node that depends on what follows its parent would close a cycle.
cycle_refused :
    finish
      (record running_graph { bindings = (7, 1) ∷ [] })
      0
      (run_expand (record added_node { token_dependencies = 7 ∷ []; binding = none } ∷ []))
    ≡ failed (token_cycle 0 7)
unfolding program
cycle_refused = refl

remaining_dependencies_count_example : 1 ≡ total (owes 1) running_graph.nodes
remaining_dependencies_count_example =
    remaining_dependencies_count running-Reachable 1 {m = node (some 20) NodeState.pending 1 []}
      refl

dependencies_first_example : NodeState.succeeded ≡ NodeState.succeeded
dependencies_first_example =
    dependencies_first released-Reachable 0 1 {n = node none NodeState.succeeded 0 (1 ∷ [])}
      {m = node none NodeState.ready 0 []} refl refl refl refl

failure_spreads_example : has_failed NodeState.cancelled ≡ true
failure_spreads_example =
    failure_spreads cut-Reachable 0 1 {n = node none NodeState.failed 0 (1 ∷ [])}
      {m = node none NodeState.cancelled 1 []} refl refl refl refl

unresolved_exact_example :
    (1 ≡ total is_open released.graph.nodes)
    × (has_unresolved released.graph ≡ any (λ n. not (is_terminal n.state)) released.graph.nodes)
unresolved_exact_example = unresolved_exact released-Reachable

some_node_active_example :
    (k : ℕ) × (n : TaskNode ℕ) × (get_elem? running_graph.nodes k ≡ some n)
    × ((is_state n.state NodeState.ready || is_state n.state NodeState.running) ≡ true)
unfolding program
some_node_active_example = some_node_active running-Reachable refl refl

finish_returns_example :
    Returns
      (finish running_graph 0 (run_failed (bytes "io") true))
      (λ w. Reachable w.graph × (length w.graph.nodes ≡ 2))
finish_returns_example =
    finish_returns running-Reachable 0 (run_failed (bytes "io") true)
      {n = node none NodeState.running 0 (1 ∷ [])} refl refl refl

finish_dependents_of-Exactly_example :
    Returns
      (finish_dependents_of running_graph.nodes 0)
      (λ found. (i : ℕ) → (contains found i ≡ true) ↔ FinishesAfter running_graph.nodes 0 i)
finish_dependents_of-Exactly_example =
    finish_dependents_of-Exactly 0 running-Reachable (omega arith)

Built-starts_example :
    (g : TaskGraph ℕ) × (build_checked chain ≡ ok g)
    × (length g.nodes ≡ 2)
    × IsFresh g
    × Stays g (start g)
Built-starts_example = Built-starts chain-Built

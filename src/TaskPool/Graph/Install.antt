-- ===== src/TaskPool/Graph/Install.antt =====
-- task_pool/graph/exec/node_exec.rs: `install_expansion`, which appends the nodes of an expansion,
-- `start`, and `finish`, which takes the outcome of a task's run. `global_ids[offset]` is
-- `base + offset`, since `NodeId::new` has refused what exceeds its limit.
pub mod Appended
pub mod Grown
pub mod Grow
pub mod Installed
pub mod Finish
use griffr.Common.{
  ℕ, zero, suc, Bool, true, false, Option, none, some, List, [], ◌∷◌, ◌++◌, map, if◌then◌else◌,
  nat_eq, length, get_elem?, text_eq, saturating_add, Map, insert, nat_order, text_order,
  flagged_eq, flagged_order,
}
use griffr.TaskPool.Graph.{
  no_terminal_nodes, finished_outside_running, Result, ok, failed, ◌>>=◌, NodeState, is_state,
  TaskNode, TaskGraph, Work, node_at, put,
}
use griffr.TaskPool.Graph.Builder.{push_dependent}
use griffr.TaskPool.Graph.Settle.{
  finish_succeeded, finish_failed, finish_cancelled, cancel_node, for_each, activate_if_ready,
  continue_node, settle,
}
use griffr.TaskPool.Graph.Expansion.{
  ExpansionNode, TaskRun, run_succeeded, run_cancelled, run_failed, run_continue, run_expand,
  run_expand_then,
}
use griffr.TaskPool.Graph.Resolve.{
  check_ids, Resolved, terminals_from, finish_dependents_of, bind_locals, resolve_dependencies,
  is_owed, count_owed,
}

module _ {ℓ} {T : Type ℓ} where
  -- The first loop over the nodes and the loop that gives them their tasks, in one.
  unfoldable pub new_node : List (TaskNode T) → ℕ → List ℕ → ExpansionNode T → TaskNode T
  unfolding count_owed
  new_node nodes base dependencies n = record {
    task = some n.task;
    state = NodeState.pending;
    remaining_dependencies = count_owed nodes base dependencies;
    dependents = [];
    waiters = [];
    waiting_remaining = 0;
    continuation = true;
  }

  unfoldable pub new_nodes :
      List (TaskNode T) → ℕ → List (List ℕ) → List (ExpansionNode T) → List (TaskNode T)
  unfolding new_node
  new_nodes nodes base [] ns = []
  new_nodes nodes base (ds ∷ dss) [] = []
  new_nodes nodes base (ds ∷ dss) (n ∷ ns) = new_node nodes base ds n ∷ new_nodes nodes base dss ns

  -- `self.bindings.insert(binding, global_ids[local_index])` for each node with a binding.
  unfoldable pub bind_nodes : ℕ → List (ExpansionNode T) → Map ℕ ℕ → Map ℕ ℕ
  unfolding insert
  bind_nodes id [] bindings = bindings
  bind_nodes id (n ∷ ns) bindings =
      bind_nodes (suc id) ns
        (elim n.binding [ none ↦ bindings | some token ↦ insert bindings token id ])

  -- The new edges into the node `id`.
  unfoldable pub link_owed : ℕ → ℕ → List ℕ → List (TaskNode T) → Result (List (TaskNode T))
  unfolding is_owed push_dependent
  link_owed base id [] nodes = ok nodes
  link_owed base id (d ∷ ds) nodes =
      (if is_owed nodes base d then push_dependent id nodes d else ok nodes)
      >>= link_owed base id ds

  unfoldable pub link_all : ℕ → ℕ → List (List ℕ) → List (TaskNode T) → Result (List (TaskNode T))
  unfolding link_owed
  link_all base id [] nodes = ok nodes
  link_all base id (ds ∷ dss) nodes = link_owed base id ds nodes >>= link_all base (suc id) dss

  unfoldable pub push_waiter : ℕ → ℕ → Work T → Result (Work T)
  push_waiter parent id w = node_at w.graph.nodes id >>= λ n.
      ok (put id (record n { waiters = n.waiters ++ parent ∷ [] }) w)

  unfoldable pub cancel_blocked : ℕ → ℕ → List Bool → Work T → Result (Work T)
  unfolding settle
  cancel_blocked fuel id [] w = ok w
  cancel_blocked fuel id (b ∷ bs) w =
      (if b then settle fuel cancel_node id w else ok w) >>= cancel_blocked fuel (suc id) bs

  unfoldable pub activate_all : ℕ → ℕ → Work T → Result (Work T)
  unfolding activate_if_ready
  activate_all id zero w = ok w
  activate_all id (suc count) w = activate_if_ready id w >>= activate_all (suc id) count

  -- `TaskGraph::start`
  unfoldable pub start : TaskGraph T → Result (Work T)
  unfolding activate_all
  start g = activate_all 0 (length g.nodes) (record { graph = g; started = [] })

  -- The graph with the nodes of the expansion, the parent not yet waiting.
  unfoldable pub append_nodes :
      TaskGraph T → List (ExpansionNode T) → List (List ℕ) → Result (TaskGraph T)
  unfolding new_nodes link_all bind_nodes
  append_nodes g nodes dependencies =
      let base = length g.nodes in
      link_all base base dependencies (g.nodes ++ new_nodes g.nodes base dependencies nodes)
      >>= λ linked. ok (record g {
        nodes = linked;
        unresolved = saturating_add g.unresolved (length nodes);
        dynamic_expansions = saturating_add g.dynamic_expansions 1;
        bindings = bind_nodes base nodes g.bindings;
      })

  -- The parent waits for the terminal nodes of the expansion.
  unfoldable pub wait_for : ℕ → Option T → List ℕ → Work T → Result (Work T)
  unfolding for_each push_waiter
  wait_for parent next [] w = failed no_terminal_nodes
  wait_for parent next (t ∷ ts) w = node_at w.graph.nodes parent >>= λ n.
      for_each (push_waiter parent) (t ∷ ts) (
        put parent
          (record n { state = NodeState.waiting; waiting_remaining = length (t ∷ ts); task = next })
          w)

  -- A call from outside gets fuel for every node.
  unfoldable pub settle_fuel : Work T → ℕ
  settle_fuel w = suc (length w.graph.nodes)

  unfoldable pub without_expansion : ℕ → Option T → Work T → Result (Work T)
  unfolding continue_node settle settle_fuel
  without_expansion parent (some task) w = continue_node parent task w
  without_expansion parent none w = settle (settle_fuel w) finish_succeeded parent w

  -- `install_expansion` up to the loop that pushes the new nodes: the graph is only read.
  unfoldable pub plan_expansion : TaskGraph T → ℕ → List (ExpansionNode T) → Result Resolved
  unfolding check_ids bind_locals finish_dependents_of resolve_dependencies
  plan_expansion g parent nodes = check_ids (length g.nodes) (length nodes) >>= λ _.
      bind_locals g.bindings 0 nodes [] >>= λ bound.
      finish_dependents_of g.nodes parent >>= λ after_parent.
      resolve_dependencies g after_parent bound 0 nodes (record {
        dependencies = [];
        blocked = map (λ _. false) nodes;
        out_degree = map (λ _. 0) nodes;
      })

  -- The two loops at the end of `install_expansion`.
  unfoldable pub settle_new : ℕ → ℕ → List Bool → Work T → Result (Work T)
  unfolding cancel_blocked activate_all settle_fuel
  settle_new base count blocked w =
      cancel_blocked (settle_fuel w) base blocked w >>= activate_all base count

  -- The rest of `install_expansion`.
  unfoldable pub commit_expansion :
      ℕ → List (ExpansionNode T) → Option T → Work T → Resolved → Result (Work T)
  unfolding append_nodes terminals_from wait_for settle_new
  commit_expansion parent nodes next w r =
      let base = length w.graph.nodes in
      append_nodes w.graph nodes r.dependencies >>= λ grown.
      wait_for parent next (terminals_from base r.out_degree) (record w { graph = grown })
      >>= settle_new base (length nodes) r.blocked

  unfoldable pub install_expansion :
      ℕ → List (ExpansionNode T) → Option T → Work T → Result (Work T)
  unfolding plan_expansion commit_expansion without_expansion
  install_expansion parent [] next w = without_expansion parent next w
  install_expansion parent (n ∷ ns) next w =
      plan_expansion w.graph parent (n ∷ ns) >>= commit_expansion parent (n ∷ ns) next w

  unfoldable pub finish_run : ℕ → TaskRun T → Work T → Result (Work T)
  unfolding settle settle_fuel continue_node install_expansion
  finish_run id run_succeeded w = settle (settle_fuel w) finish_succeeded id w
  finish_run id (run_failed reason report) w = settle (settle_fuel w) finish_failed id w
  finish_run id run_cancelled w = settle (settle_fuel w) finish_cancelled id w
  finish_run id (run_continue task) w = continue_node id task w
  finish_run id (run_expand expansion) w = install_expansion id expansion none w
  finish_run id (run_expand_then expansion next) w = install_expansion id expansion (some next) w

  -- `TaskGraph::finish`
  unfoldable pub finish : TaskGraph T → ℕ → TaskRun T → Result (Work T)
  unfolding finish_run
  finish g id run = elim (get_elem? g.nodes id) [
    | none ↦ failed (finished_outside_running id)
    | some n ↦
        if is_state n.state NodeState.running
        then finish_run id run (record { graph = g; started = [] })
        else failed (finished_outside_running id)
  ]

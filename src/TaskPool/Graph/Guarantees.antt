-- ===== src/TaskPool/Graph/Guarantees.antt =====
-- task_pool/graph: what the scheduler may rely on, of every graph that it can reach.
use griffr.Common.{
  ℕ, zero, suc, ◌≤◌, ◌<◌, ◌≡◌, refl, inl, inr, Bool, true, false, ◌||◌, not, some, List, [], ◌∷◌,
  arith, ltb, Bool-cases, nat_eq, length, get_elem?, any, all, total, contains, occurrences,
  text_eq, nat_order, text_order, flagged_eq, flagged_order,
}
use griffr.TaskPool.Graph.{NodeState, is_terminal, is_state, TaskNode, TaskGraph, has_unresolved}
use griffr.TaskPool.Graph.Expansion.{TaskRun}
use griffr.TaskPool.Graph.Resolve.{has_failed}
use griffr.TaskPool.Graph.Install.{finish}
use griffr.TaskPool.Graph.Lookup.{node_of, get_elem?-node_of, node_of-get_elem?, node_of-le-total}
use griffr.TaskPool.Graph.Sound.{has_started, owes, is_open}
use griffr.TaskPool.Graph.Steps.{Returns}
use griffr.TaskPool.Graph.Operations.{IsStable, adds_none, finish-Stays}
use griffr.TaskPool.Graph.Settle.Cancel.{occurrences-member, blocked_by_failed}
use griffr.TaskPool.Graph.Run.{Reachable, finished, Reachable-IsStable}

member_occurrences : (a : ℕ) (xs : List ℕ) → 1 ≤ occurrences a xs → contains xs a ≡ true
member_occurrences a [] h = absurd (omega arith)
member_occurrences a (x ∷ xs) h = ground (arith, member_occurrences a xs)

module _ {ℓ} {T : Type ℓ} where
  total_open-any :
      (ns : List (TaskNode T)) → ltb 0 (total is_open ns) ≡ any (λ n. not (is_terminal n.state)) ns
  total_open-any [] = refl
  total_open-any (n ∷ ns) = ground (arith, total_open-any ns)

  -- A sum that is not zero has a part that is not.
  total_positive :
      (f : TaskNode T → ℕ) (ns : List (TaskNode T))
      → 1 ≤ total f ns
      → (j : ℕ) × (j < length ns) × (1 ≤ f (node_of ns j))
  unfolding node_of
  total_positive f [] h = absurd (omega arith)
  total_positive f (n ∷ ns) h = elim (Bool-cases (ltb 0 (f n))) [
    | inl first ↦ (0, omega arith, ground arith)
    | inr later ↦ let (j, lt, p) = total_positive f ns (ground arith) in (suc j, omega arith, p)
  ]

  all-node_of :
      (p : TaskNode T → Bool) (ns : List (TaskNode T)) (i : ℕ)
      → all p ns ≡ true
      → i < length ns
      → p (node_of ns i) ≡ true
  unfolding node_of
  all-node_of p [] i h lt = absurd (omega arith)
  all-node_of p (n ∷ ns) zero h lt = ground arith
  all-node_of p (n ∷ ns) (suc i) h lt = all-node_of p ns i (ground arith) (omega arith)

  -- A node that is open but not running has an open dependency, or is ready itself.
  find_active :
      (g : TaskGraph T)
      → IsStable g
      → all (λ n. not (is_state n.state NodeState.waiting)) g.nodes ≡ true
      → (bound i : ℕ) → i < bound
      → i < length g.nodes
      → is_terminal (node_of g.nodes i).state ≡ false
      → (k : ℕ) × (k < length g.nodes)
        × ((is_state (node_of g.nodes k).state NodeState.ready
              || is_state (node_of g.nodes k).state NodeState.running)
            ≡ true)
  find_active g v quiet zero i h lt o = absurd (omega arith)
  find_active g v quiet (suc bound) i h lt o =
      elim (Bool-cases (is_state (node_of g.nodes i).state NodeState.pending)) [
        | inr active ↦ (
          i,
          lt,
          ground (
            arith,
            all-node_of (λ n. not (is_state n.state NodeState.waiting)) g.nodes i quiet lt,
          ),
        )
        | inl idle ↦
            let (j, jn, owing) =
              total_positive (owes i) g.nodes (ground (arith, v.none_due i, v.sound.owed i)) in
            let edge : contains (node_of g.nodes j).dependents i ≡ true =
              ground (arith, member_occurrences i (node_of g.nodes j).dependents) in
            find_active g v quiet bound j (omega (arith, v.forward j i edge)) jn
              (ground (arith, v.sound.cut_off j i))
      ]

  module _ {g : TaskGraph T} (reachable : Reachable g) where
    -- In every reachable graph remaining_dependencies of a node is the number of edges that lead
    -- to it from nodes that have not succeeded.
    pub remaining_dependencies_count :
        (i : ℕ) {m : TaskNode T}
        → get_elem? g.nodes i ≡ some m
        → m.remaining_dependencies ≡ total (owes i) g.nodes
    remaining_dependencies_count i {m} e =
        let (lt, same) = node_of-get_elem? g.nodes i e in
        ground (arith, (Reachable-IsStable reachable).sound.owed i)

    -- In every graph that add_task, build_checked, start, mark_running and finish can lead to,
    -- expansions included, a node that is ready, running, waiting or succeeded has only
    -- dependencies that have succeeded.
    pub dependencies_first :
        (j i : ℕ) {n m : TaskNode T}
        → get_elem? g.nodes j ≡ some n
        → get_elem? g.nodes i ≡ some m
        → contains n.dependents i ≡ true
        → has_started m.state ≡ true
        → n.state ≡ NodeState.succeeded
    dependencies_first j i {n} {m} en em c st =
        let (jt, jsame) = node_of-get_elem? g.nodes j en in
        let (it, isame) = node_of-get_elem? g.nodes i em in
        let s = (Reachable-IsStable reachable).sound in
        ground (
          arith,
          s.owed i,
          s.unblocked i,
          node_of-le-total (owes i) g.nodes j,
          occurrences-member i n.dependents,
        )

    -- In every reachable graph each dependent of a failed or cancelled node is failed or cancelled
    -- itself.
    pub failure_spreads :
        (j i : ℕ) {n m : TaskNode T}
        → get_elem? g.nodes j ≡ some n
        → get_elem? g.nodes i ≡ some m
        → contains n.dependents i ≡ true
        → has_failed n.state ≡ true
        → has_failed m.state ≡ true
    failure_spreads j i {n} {m} en em c f =
        let (jt, jsame) = node_of-get_elem? g.nodes j en in
        let (it, isame) = node_of-get_elem? g.nodes i em in
        let s = (Reachable-IsStable reachable).sound in
        ground (arith, s.cut_off j i, blocked_by_failed [] g j i s jt it)

    -- In every reachable graph the counter of unresolved nodes is the number of nodes in no
    -- terminal state, and has_unresolved tells whether there is one.
    pub unresolved_exact :
        (g.unresolved ≡ total is_open g.nodes)
        × (has_unresolved g ≡ any (λ n. not (is_terminal n.state)) g.nodes)
    unfolding has_unresolved
    unresolved_exact =
        let s = (Reachable-IsStable reachable).sound in
        (s.counted, rw (s.counted) (total_open-any g.nodes))

    -- In every reachable graph that has unresolved nodes, and in which no node waits for an
    -- expansion, some node is ready or running: the graph does not stall.
    pub some_node_active :
        has_unresolved g ≡ true
        → all (λ n. not (is_state n.state NodeState.waiting)) g.nodes ≡ true
        → (k : ℕ) × (n : TaskNode T) × (get_elem? g.nodes k ≡ some n)
          × ((is_state n.state NodeState.ready || is_state n.state NodeState.running) ≡ true)
    unfolding has_unresolved
    some_node_active unsettled quiet =
        let v = Reachable-IsStable reachable in
        let (i, lt, o) = total_positive is_open g.nodes (ground (arith, v.sound.counted)) in
        let (k, kt, active) = find_active g v quiet (suc i) i (omega arith) lt (ground arith) in
        (k, node_of g.nodes k, get_elem?-node_of g.nodes k kt, active)

    -- In every reachable graph, finish of a running node with an outcome that adds no nodes
    -- returns without an error or a panic, the fuel of settle being enough, and leaves a reachable
    -- graph of as many nodes.
    pub finish_returns :
        (id : ℕ) (run : TaskRun T) {n : TaskNode T}
        → get_elem? g.nodes id ≡ some n
        → n.state ≡ NodeState.running
        → adds_none run ≡ true
        → Returns
            (finish g id run)
            (λ w. Reachable w.graph × (length w.graph.nodes ≡ length g.nodes))
    finish_returns id run e busy plain =
        let (lt, same) = node_of-get_elem? g.nodes id e in
        let (w, made, (stable, on)) =
          finish-Stays g id (Reachable-IsStable reachable) lt (ground (arith, same)) run plain in
        (w, made, (finished id run reachable made, on.same_length))

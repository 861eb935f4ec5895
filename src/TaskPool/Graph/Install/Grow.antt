-- ===== src/TaskPool/Graph/Install/Grow.antt =====
-- task_pool/graph/exec/node_exec.rs: `append_nodes`, the part of `install_expansion` that adds nodes
-- and edges, before the parent waits.
use griffr.Common.{
  ℕ, ◌+◌, ◌-◌, ◌≤◌, ◌<◌, ◌≡◌, ◌∙◌, inl, inr, true, false, ◌||◌, List, [], ◌++◌, map, arith, ltb,
  if◌then◌else◌, Bool-cases, nat_eq, length, total, length-append, total-append, contains, text_eq,
  saturating_add, nat_order, text_order, flagged_eq, flagged_order,
}
use griffr.TaskPool.Graph.{node_limit, is_terminal, TaskNode, TaskGraph}
use griffr.TaskPool.Graph.Expansion.{ExpansionNode}
use griffr.TaskPool.Graph.Resolve.{has_failed}
use griffr.TaskPool.Graph.Install.{new_nodes, bind_nodes, link_all}
use griffr.TaskPool.Graph.Lookup.{node_of, dependents_beyond}
use griffr.TaskPool.Graph.Sound.{owes, is_open, is_due, in_range, IsSound, IsForward}
use griffr.TaskPool.Graph.Steps.{Returns}
use griffr.TaskPool.Graph.Builder.Build.{below_weaken, below_member}
use griffr.TaskPool.Graph.Resolve.Inversion.{AllBackward, any_failed}
use griffr.TaskPool.Graph.Install.Appended.{NewOpen, LinksOwed, link_all-LinksOwed}
use griffr.TaskPool.Graph.Install.Grown.{
  doomed_from, linked_forward, node_of-append, total_open-SameFields, IsNew, new_nodes-IsNew,
  length-new_nodes, new_nodes_open, new_nodes_owe, owed_count_before, new_nodes_remaining,
  owed_count_agree, owes_beyond, linked_doomed, doomed_linked,
}
use griffr.TaskPool.Graph.Operations.{total_open-le-length}

module _ {ℓ} {T : Type ℓ} where
  module _ (g : TaskGraph T) (s : IsSound [] [] g) (xs : List (ExpansionNode T))
      (dss : List (List ℕ)) (each : length dss ≡ length xs)
      (back : AllBackward (length g.nodes) dss)
      (small : length g.nodes + length xs ≤ node_limit) where
    abbrev pub new : List (TaskNode T)
    new = new_nodes g.nodes (length g.nodes) dss xs

    fact_length : length (g.nodes ++ new) ≡ length g.nodes + length xs
    fact_length =
        omega
          (arith, length-append g.nodes new, length-new_nodes g.nodes (length g.nodes) dss xs each)

    at :
        (i : ℕ)
        → node_of (g.nodes ++ new) i
          ≡ (if ltb i (length g.nodes) then node_of g.nodes i else node_of new (i - length g.nodes))
    at i = node_of-append g.nodes new i

    as_new : (i : ℕ) → IsNew new (i - length g.nodes)
    as_new i = new_nodes-IsNew g.nodes (length g.nodes) dss xs (i - length g.nodes)

    new_open : NewOpen (length g.nodes) (g.nodes ++ new)
    new_open i h = ground (arith, at i, (as_new i).unstarted)

    pub append_links :
        Returns
          (link_all (length g.nodes) (length g.nodes) dss (g.nodes ++ new))
          (LinksOwed (length g.nodes) (length g.nodes) dss (g.nodes ++ new))
    append_links =
        link_all-LinksOwed (length g.nodes) (length g.nodes) dss (g.nodes ++ new) back
          (omega (arith, fact_length, each)) new_open

    module _ (ms : List (TaskNode T))
        (a : LinksOwed (length g.nodes) (length g.nodes) dss (g.nodes ++ new) ms) where
      abbrev pub grown : TaskGraph T
      grown = record g {
        nodes = ms;
        unresolved = saturating_add g.unresolved (length xs);
        dynamic_expansions = saturating_add g.dynamic_expansions 1;
        bindings = bind_nodes (length g.nodes) xs g.bindings;
      }

      pub grown_length : length ms ≡ length g.nodes + length xs
      grown_length = omega (arith, fact_length, a.same.same_length)

      grown_open : total is_open ms ≡ total is_open g.nodes + length xs
      grown_open =
          total_open-SameFields (g.nodes ++ new) ms a.same.same_length a.same.same_state
          ∙ total-append is_open g.nodes new
          ∙ omega (arith, new_nodes_open g.nodes (length g.nodes) dss xs each)

      grown_in_range : (i : ℕ) → in_range ms (node_of ms i).dependents ≡ true
      grown_in_range i = a.still_in_range i (
          ground (
            arith,
            at i,
            fact_length,
            (as_new i).unlinked,
            s.dependents_in_range i,
            below_weaken (length g.nodes) (length (g.nodes ++ new)) (node_of g.nodes i).dependents,
          ))

      grown_waiters : (i : ℕ) → in_range ms (node_of ms i).waiters ≡ true
      grown_waiters i = ground (
        arith,
        a.same.same_waiters i,
        at i,
        grown_length,
        (as_new i).unwaited,
        s.waiters_in_range i,
        below_weaken (length g.nodes) (length ms) (node_of g.nodes i).waiters,
      )

      grown_owed :
          (i : ℕ) → i < length ms → (node_of ms i).remaining_dependencies ≡ total (owes i) ms + 0
      grown_owed i h = ground (
        arith,
        a.same.same_remaining i,
        a.more_owed i,
        at i,
        total-append (owes i) g.nodes new,
        new_nodes_owe g.nodes (length g.nodes) dss xs i,
        owed_count_agree (length g.nodes) g.nodes (g.nodes ++ new) (length g.nodes) dss i
            (λ d lt. ground (arith, at d)),
        s.owed i,
        owed_count_before g.nodes (length g.nodes) (length g.nodes) dss i,
        owes_beyond g.nodes (length g.nodes) i s.dependents_in_range,
        new_nodes_remaining g.nodes (length g.nodes) (length g.nodes) dss xs (i - length g.nodes) i
            each,
      )

      grown_cut_off :
          (j i : ℕ)
          → has_failed (node_of ms j).state ≡ true
          → contains (node_of ms j).dependents i ≡ true
          → (is_terminal (node_of ms i).state
              || contains (doomed_from (length g.nodes) (map (any_failed g.nodes) dss)) i)
            ≡ true
      grown_cut_off j i f c = elim (Bool-cases (ltb j (length g.nodes))) [
        | inl old ↦ ground (
          arith,
          a.same.same_state j,
          a.same.same_state i,
          at i,
          at j,
          a.new_edges j i,
          s.cut_off j i,
          below_member (length g.nodes) (node_of g.nodes j).dependents i (s.dependents_in_range j),
          linked_doomed g.nodes (length g.nodes) dss j i,
        )
        | inr fresh ↦ absurd (
            ground (
              arith,
              a.same.same_state j,
              at j,
              (as_new j).unstarted,
              grown_length,
              length-new_nodes g.nodes (length g.nodes) dss xs each,
              dependents_beyond ms j,
            ))
      ]

      pub grown-IsSound :
          IsSound [] (doomed_from (length g.nodes) (map (any_failed g.nodes) dss)) grown
      grown-IsSound = record {
        counted = ground (arith, s.counted, grown_open, grown_length, total_open-le-length g.nodes);
        dependents_in_range = grown_in_range;
        waiters_in_range = grown_waiters;
        tasked = λ i p.
            ground
              (arith, a.same.same_state i, a.same.same_task i, at i, s.tasked i, (as_new i).given);
        owed = grown_owed;
        unblocked = λ i p. ground (
          arith,
          a.same.same_state i,
          a.same.same_remaining i,
          at i,
          s.unblocked i,
          (as_new i).unstarted,
        );
        cut_off = grown_cut_off;
      }

      pub grown_state :
          (i : ℕ) → i < length g.nodes → (node_of ms i).state ≡ (node_of g.nodes i).state
      grown_state i h = ground (arith, a.same.same_state i, at i)

      pub grown-IsForward : IsForward g → IsForward grown
      grown-IsForward f j i c = elim (Bool-cases (ltb j (length g.nodes))) [
        | inl old ↦
            ground
              (arith, at j, a.new_edges j i c, f j i, linked_forward (length g.nodes) dss j i back)
        | inr fresh ↦ ground (
          arith,
          at j,
          (as_new j).unlinked,
          a.new_edges j i c,
          linked_forward (length g.nodes) dss j i back,
        )
      ]

      pub grown_not_due :
          (i : ℕ)
          → i < length g.nodes
          → is_due (node_of g.nodes i) ≡ false
          → is_due (node_of ms i) ≡ false
      grown_not_due i h d = ground (arith, a.same.same_state i, a.same.same_remaining i, at i)

      -- A blocked node depends on a node that has failed.
      pub grown_blocked :
          (i : ℕ)
          → contains (doomed_from (length g.nodes) (map (any_failed g.nodes) dss)) i ≡ true
          → (j : ℕ) × (j < length ms)
            × (has_failed (node_of ms j).state ≡ true)
            × (contains (node_of ms j).dependents i ≡ true)
      grown_blocked i c =
          let (j, l, lt, f) = doomed_linked g.nodes (length g.nodes) dss i c in
          (
            j,
            omega (arith, grown_length),
            ground (arith, grown_state j),
            a.made_edges j i l (ground (arith, at j)),
          )

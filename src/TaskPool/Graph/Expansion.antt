-- ===== src/TaskPool/Graph/Expansion.antt =====
-- task_pool/graph/exec/expansion.rs: the nodes that a run of a task adds to the graph, and the
-- outcomes of a run.
use griffr.Common.{
  ℕ, Bool, Option, none, some, List, [], ◌∷◌, ◌++◌, nat_eq, length, Text, text_eq, nat_order,
  text_order, flagged_eq, flagged_order, ordered_set,
}
use griffr.TaskPool.Graph.{unknown_node, Result, ok, failed, panicked}
use griffr.TaskPool.Graph.Builder.{first_unknown}

-- A `TaskDependencyToken` is its number.
pub record ExpansionNode {ℓ} (T : Type ℓ) : Type ℓ where
  pub task : T
  pub dependencies : List ℕ
  pub token_dependencies : List ℕ
  pub binding : Option ℕ

pub data TaskRun {ℓ} (T : Type ℓ) : Type ℓ where
  run_succeeded run_cancelled : TaskRun T
  run_failed : Text → Bool → TaskRun T
  run_continue : T → TaskRun T
  run_expand : List (ExpansionNode T) → TaskRun T
  run_expand_then : List (ExpansionNode T) → T → TaskRun T

module _ {ℓ} {T : Type ℓ} where
  -- `add_task_internal`; the other methods that add a node call it with fewer arguments.
  unfoldable pub add_expansion_task :
      List (ExpansionNode T) → T → List ℕ → List ℕ → Option ℕ → Result (List (ExpansionNode T) × ℕ)
  unfolding first_unknown ordered_set
  add_expansion_task nodes task dependencies tokens binding =
      let id = length nodes in
      let known = ordered_set dependencies in
      elim (first_unknown id known) [
        | some d ↦ failed (unknown_node id d)
        | none ↦
            let node : ExpansionNode T = record {
              task = task;
              dependencies = known;
              token_dependencies = ordered_set tokens;
              binding = binding;
            } in
            ok (nodes ++ node ∷ [], id)
      ]

  -- `GraphExpansion::parallel`, each task a root.
  unfoldable pub parallel_onto : List T → List (ExpansionNode T) → Result (List (ExpansionNode T))
  unfolding add_expansion_task
  parallel_onto [] nodes = ok nodes
  parallel_onto (t ∷ ts) nodes = elim (add_expansion_task nodes t [] [] none) [
    | ok r ↦ parallel_onto ts r.0
    | _ ↦ panicked
  ]

  unfoldable pub expand : List (ExpansionNode T) → TaskRun T
  expand [] = run_succeeded
  expand (n ∷ ns) = run_expand (n ∷ ns)

  unfoldable pub expand_then : List (ExpansionNode T) → T → TaskRun T
  expand_then [] next = run_continue next
  expand_then (n ∷ ns) next = run_expand_then (n ∷ ns) next

  unfoldable pub failure_details : TaskRun T → Option (Text × Bool)
  failure_details (run_failed reason report) = some (reason, report)
  failure_details run_succeeded = none
  failure_details run_cancelled = none
  failure_details (run_continue t) = none
  failure_details (run_expand e) = none
  failure_details (run_expand_then e next) = none

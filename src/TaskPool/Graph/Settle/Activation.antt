-- ===== src/TaskPool/Graph/Settle/Activation.antt =====
-- task_pool/graph/exec/node_exec.rs: `activate_if_ready`, `continue_node` and the release of the
-- dependents of a node.
use griffr.Common.{
  ℕ, ◌≤◌, ◌<◌, ◌≡◌, refl, inl, inr, true, false, ◌&&◌, none, List, [], ◌∷◌, arith, nat_beq,
  Bool-cases, Option-cases, nat_eq, length, get_elem?-set, set-set, text_eq, saturating_sub,
  nat_order, text_order, flagged_eq, flagged_order,
}
use griffr.TaskPool.Graph.{
  Result, ok, NodeState, is_terminal, is_state, TaskNode, ReadyTask, Work, node_at, put,
}
use griffr.TaskPool.Graph.Settle.{
  for_each, push_ready, activate, activate_if_ready, continue_node, release_dependent,
}
use griffr.TaskPool.Graph.Lookup.{node_of, get_elem?-node_of}
use griffr.TaskPool.Graph.Sound.{
  has_started, is_due, in_range, IsSound, Extends-refl, Extends-trans, edited, MayEdit,
  Extends-edited, edited-IsSound,
}
use griffr.TaskPool.Graph.Steps.{node_at-node_of, Keeps, released-MayEdit, ready-MayEdit}

module _ {ℓ} {T : Type ℓ} (todo doomed : List ℕ) where
  -- A write that may be made, as the result of a call.
  pub edited-Keeps :
      {todo' doomed' : List ℕ} (w : Work T) (id : ℕ) (n : TaskNode T) (unresolved : ℕ)
      (list : List (ReadyTask T))
      → IsSound todo doomed w.graph
      → MayEdit todo doomed todo' doomed' w.graph id n unresolved
      → unresolved ≤ w.graph.unresolved
      → Keeps todo' doomed' w
          (ok (record { graph = edited w.graph id n unresolved; started = list }))
  edited-Keeps w id n unresolved list s m fewer = (
    record { graph = edited w.graph id n unresolved; started = list },
    refl,
    (edited-IsSound w.graph id n unresolved m s, Extends-edited w.graph id n unresolved m fewer),
  )

  -- A call that goes on from the edited graph.
  pub after_edit-Keeps :
      {todo' doomed' : List ℕ} (w : Work T) (id : ℕ) (n : TaskNode T) (unresolved : ℕ)
      (list : List (ReadyTask T)) (m : Result (Work T))
      → MayEdit todo doomed todo' doomed' w.graph id n unresolved
      → unresolved ≤ w.graph.unresolved
      → Keeps todo' doomed' (record { graph = edited w.graph id n unresolved; started = list }) m
      → Keeps todo' doomed' w m
  after_edit-Keeps w id n unresolved list m may fewer (r, e, (sound, on)) = (
    r,
    e,
    (
      sound,
      Extends-trans w.graph (edited w.graph id n unresolved) r.graph
          (Extends-edited w.graph id n unresolved may fewer) on,
    ),
  )

  activate-Keeps :
      (id : ℕ) (w : Work T)
      → IsSound todo doomed w.graph
      → id < length w.graph.nodes
      → Keeps todo doomed w (activate id (node_of w.graph.nodes id) w)
  unfolding activate push_ready
  activate-Keeps id w s h =
      let n = node_of w.graph.nodes id in
      elim (Bool-cases (is_state n.state NodeState.pending && nat_beq n.remaining_dependencies 0)) [
        | inr idle ↦ rw idle (w, refl, (s, Extends-refl w.graph))
        | inl due ↦ elim (Option-cases n.task) [
          | inl missing ↦ absurd (ground (arith, s.tasked id))
          | inr (task, e) ↦
              rw (due, e)
                (edited-Keeps w id (record n { state = NodeState.ready; task = none })
                  w.graph.unresolved _ s
                  (ready-MayEdit w.graph id h todo
                    (record n { state = NodeState.ready; task = none }) s (ground arith)
                    (ground arith) refl refl refl refl)
                  (omega arith))
        ]
      ]

  pub activate_if_ready-Keeps :
      (id : ℕ) (w : Work T)
      → IsSound todo doomed w.graph
      → id < length w.graph.nodes
      → Keeps todo doomed w (activate_if_ready id w)
  unfolding activate_if_ready
  activate_if_ready-Keeps id w s h =
      rw (node_at-node_of w.graph.nodes id h) (activate-Keeps id w s h)

  pub continue_node-Keeps :
      (id : ℕ) (task : T) (w : Work T)
      → IsSound todo doomed w.graph
      → id < length w.graph.nodes
      → is_terminal (node_of w.graph.nodes id).state ≡ false
      → has_started (node_of w.graph.nodes id).state ≡ true
      → Keeps todo doomed w (continue_node id task w)
  unfolding continue_node push_ready
  continue_node-Keeps id task w s h o b =
      let n = node_of w.graph.nodes id in
      let next : TaskNode T = record n {
        state = NodeState.ready;
        waiting_remaining = 0;
        task = none;
        continuation = true;
      } in
      rw (node_at-node_of w.graph.nodes id h) (
        edited-Keeps w id next w.graph.unresolved _ s
          (ready-MayEdit w.graph id h todo next s o (s.unblocked id b) refl refl refl refl)
          (omega arith))

module _ {ℓ} {T : Type ℓ} (doomed : List ℕ) where
  module _ (todo : List ℕ) (id : ℕ) (w : Work T) (s : IsSound (id ∷ todo) doomed w.graph)
      (h : id < length w.graph.nodes) where
    abbrev less : TaskNode T
    less = record (node_of w.graph.nodes id) {
      remaining_dependencies = saturating_sub (node_of w.graph.nodes id).remaining_dependencies 1;
    }

    release_idle : is_due less ≡ false → Keeps todo doomed w (activate id less (put id less w))
    unfolding activate
    release_idle idle = rw idle (
        edited-Keeps (id ∷ todo) doomed w id less w.graph.unresolved w.started s
          (released-MayEdit w.graph id h todo less s refl refl refl (inl (refl, refl, idle)))
          (omega arith))

    release_due : is_due less ≡ true → Keeps todo doomed w (activate id less (put id less w))
    unfolding activate push_ready
    release_due due =
        let n : TaskNode T = record less { state = NodeState.ready; task = none } in
        elim (Option-cases less.task) [
          | inl missing ↦ absurd (ground (arith, s.tasked id))
          | inr (task, e) ↦
              rw (due, e, set-set w.graph.nodes id less n)
                (edited-Keeps (id ∷ todo) doomed w id n w.graph.unresolved _ s
                  (released-MayEdit w.graph id h todo n s refl refl refl
                    (inr (refl, ground arith, ground arith)))
                  (omega arith))
        ]

    release_dependent-Keeps : Keeps todo doomed w (release_dependent id w)
    unfolding release_dependent activate_if_ready
    release_dependent-Keeps =
        rw
          (
            node_at-node_of w.graph.nodes id h,
            node_at,
            get_elem?-set w.graph.nodes id less (node_of w.graph.nodes id)
                (get_elem?-node_of w.graph.nodes id h),
          )
          (elim (Bool-cases (is_due less)) [
            | inl due ↦ release_due due
            | inr idle ↦ release_idle idle
          ])

  -- The loop over the dependents in `finish_succeeded`.
  pub release_all-Keeps :
      (ids : List ℕ) (w : Work T)
      → IsSound ids doomed w.graph
      → in_range w.graph.nodes ids ≡ true
      → Keeps [] doomed w (for_each release_dependent ids w)
  unfolding for_each
  release_all-Keeps [] w s h = (w, refl, (s, Extends-refl w.graph))
  release_all-Keeps (id ∷ ids) w s h =
      let (v, e, (sound, on)) = release_dependent-Keeps ids id w s (ground arith) in
      let (r, e', (sound', on')) =
        release_all-Keeps ids v sound (rw (on.same_length) (ground arith)) in
      rw e (r, e', (sound', Extends-trans w.graph v.graph r.graph on on'))

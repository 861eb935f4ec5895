-- ===== src/TaskPool/Graph/Settle/Settled.antt =====
-- task_pool/graph/exec/node_exec.rs: `finish_succeeded`, `finish_failed`, `finish_cancelled` and
-- `cancel_node`, with fuel above the number of open nodes.
use griffr.Common.{
  ℕ, zero, suc, ◌≤◌, ◌<◌, ◌≡◌, refl, inl, inr, true, false, ◌||◌, none, List, [], arith, Bool-cases,
  nat_eq, length, set, length-set, total, text_eq, saturating_sub, nat_order, text_order,
  flagged_eq, flagged_order,
}
use griffr.TaskPool.Graph.{Result, ok, ◌>>=◌, NodeState, is_terminal, is_state, TaskNode, Work}
use griffr.TaskPool.Graph.Settle.{
  Settlement, finish_succeeded, finish_failed, finish_cancelled, cancel_node, for_each, resolve,
  release_dependent, notify_waiters, resolve_without_success, settle_node, settle,
}
use griffr.TaskPool.Graph.Resolve.{has_failed}
use griffr.TaskPool.Graph.Lookup.{node_of, node_of-set, total-set}
use griffr.TaskPool.Graph.Sound.{
  has_started, is_open, IsSound, Extends-refl, Extends-trans, MayEdit, Extends-edited,
  edited-IsSound,
}
use griffr.TaskPool.Graph.Steps.{node_at-node_of, Keeps, succeeded-MayEdit, unsuccessful-MayEdit}
use griffr.TaskPool.Graph.Settle.Activation.{release_all-Keeps}
use griffr.TaskPool.Graph.Settle.Notify.{
  allowed, resolves, state_of, Settles, SettlesBelow, >>=-Keeps, notify_waiters-Keeps,
}
use griffr.TaskPool.Graph.Settle.Cancel.{all_members, cancel_all-Keeps}

module _ {ℓ} {T : Type ℓ} where
  module _ (self : Settlement → ℕ → Work T → Result (Work T)) (bound : ℕ)
      (calls : SettlesBelow self bound) (doomed : List ℕ) where
    module _ (id : ℕ) (w : Work T) (s : IsSound [] doomed w.graph) (h : id < length w.graph.nodes)
        (b : total is_open w.graph.nodes ≤ bound) (o : is_terminal (state_of w id) ≡ false) where
      -- The node gets its last state, and a call goes on from there.
      after_resolve-Settles :
          {todo' doomed' : List ℕ} (call : Settlement) (state : NodeState) (m : Result (Work T))
          → is_terminal state ≡ true
          → MayEdit [] doomed todo' doomed' w.graph id
              (record (node_of w.graph.nodes id) { state = state; task = none })
              (saturating_sub w.graph.unresolved 1)
          → Keeps [] doomed (resolve id (node_of w.graph.nodes id) state w) m
          → Settles doomed call id w m
      unfolding resolve
      after_resolve-Settles call state m t may (r, e, (sound, on)) =
          let n : TaskNode T = record (node_of w.graph.nodes id) { state = state; task = none } in
          let edit =
            Extends-edited w.graph id n (saturating_sub w.graph.unresolved 1) may (omega arith) in
          (
            r,
            e,
            (
              (
                sound,
                Extends-trans w.graph (resolve id (node_of w.graph.nodes id) state w).graph r.graph
                    edit on,
              ),
              λ p. ground (arith, on.still_settled id, node_of-set w.graph.nodes id n id h),
            ),
          )

      -- One node fewer is open.
      open-resolve :
          (state : NodeState)
          → is_terminal state ≡ true
          → total is_open (resolve id (node_of w.graph.nodes id) state w).graph.nodes < bound
      unfolding resolve
      open-resolve state t = ground (
        arith,
        total-set is_open w.graph.nodes id
            (record (node_of w.graph.nodes id) { state = state; task = none }) h,
      )

      unsuccessful-Settles :
          (call : Settlement) (state : NodeState)
          → has_failed state ≡ true
          → Settles doomed call id w
              (resolve_without_success self id (node_of w.graph.nodes id) state w)
      unfolding resolve_without_success resolve
      unsuccessful-Settles call state f =
          let n = node_of w.graph.nodes id in
          let n' : TaskNode T = record n { state = state; task = none } in
          let may = unsuccessful-MayEdit w.graph id h state f s o in
          let w' = resolve id n state w in
          let size = length-set w.graph.nodes id n' in
          let t : is_terminal state ≡ true = ground arith in
          let here : node_of (set w.graph.nodes id n') id ≡ n' =
            ground (arith, node_of-set w.graph.nodes id n' id h) in
          after_resolve-Settles call state _ t may (
            >>=-Keeps doomed w' (for_each (self cancel_node) n.dependents w')
              (notify_waiters self id false)
              (cancel_all-Keeps self bound calls doomed id n.dependents w'
                (edited-IsSound w.graph id n' (saturating_sub w.graph.unresolved 1) may s)
                (omega (arith, size)) (rw size (s.dependents_in_range id)) (open-resolve state t)
                (ground (arith, here)) (rw here (all_members n.dependents n.dependents (λ i c. c))))
              (λ v sound on.
                notify_waiters-Keeps self bound calls doomed false id v sound
                  (omega (arith, on.same_length, size))
                  (omega (arith, on.fewer_open, open-resolve state t))))

      succeeded-Settles :
          has_started (state_of w id) ≡ true
          → Settles doomed finish_succeeded id w (
              for_each release_dependent
                (node_of w.graph.nodes id).dependents
                (resolve id (node_of w.graph.nodes id) NodeState.succeeded w)
              >>= notify_waiters self id true)
      unfolding resolve
      succeeded-Settles st =
          let n = node_of w.graph.nodes id in
          let n' : TaskNode T = record n { state = NodeState.succeeded; task = none } in
          let may = succeeded-MayEdit w.graph id h s o st in
          let w' = resolve id n NodeState.succeeded w in
          let size = length-set w.graph.nodes id n' in
          after_resolve-Settles finish_succeeded NodeState.succeeded _ refl may (
            >>=-Keeps doomed w' (for_each release_dependent n.dependents w')
              (notify_waiters self id true)
              (release_all-Keeps doomed n.dependents w'
                (edited-IsSound w.graph id n' (saturating_sub w.graph.unresolved 1) may s)
                (rw size (s.dependents_in_range id)))
              (λ v sound on.
                notify_waiters-Keeps self bound calls doomed true id v sound
                  (omega (arith, on.same_length, size))
                  (omega (arith, on.fewer_open, open-resolve NodeState.succeeded refl))))

    settled_already :
        (call : Settlement) (id : ℕ) (w : Work T)
        → IsSound [] doomed w.graph
        → (resolves call (state_of w id) ≡ true → is_terminal (state_of w id) ≡ true)
        → Settles doomed call id w (ok w)
    settled_already call id w s t = (w, refl, ((s, Extends-refl w.graph), t))

    settle_node-Settles :
        (call : Settlement) (id : ℕ) (w : Work T)
        → IsSound [] doomed w.graph
        → id < length w.graph.nodes
        → total is_open w.graph.nodes ≤ bound
        → allowed call (state_of w id) ≡ true
        → Settles doomed call id w (settle_node self call id (node_of w.graph.nodes id) w)
    unfolding settle_node
    settle_node-Settles finish_succeeded id w s h b a =
        elim (Bool-cases (is_terminal (state_of w id))) [
          | inl t ↦ rw t (settled_already finish_succeeded id w s (λ p. t))
          | inr o ↦ rw o (succeeded-Settles id w s h b o (ground arith))
        ]
    settle_node-Settles finish_failed id w s h b a =
        elim (Bool-cases (is_terminal (state_of w id))) [
          | inl t ↦ rw t (settled_already finish_failed id w s (λ p. t))
          | inr o ↦ rw o (unsuccessful-Settles id w s h b o finish_failed NodeState.failed refl)
        ]
    settle_node-Settles finish_cancelled id w s h b a =
        elim (Bool-cases (is_terminal (state_of w id))) [
          | inl t ↦ rw t (settled_already finish_cancelled id w s (λ p. t))
          | inr o ↦
              rw o (unsuccessful-Settles id w s h b o finish_cancelled NodeState.cancelled refl)
        ]
    settle_node-Settles cancel_node id w s h b a = elim (Bool-cases (is_terminal (state_of w id))) [
      | inl t ↦ rw t (settled_already cancel_node id w s (λ p. t))
      | inr o ↦
          elim (Bool-cases (
            is_state (state_of w id) NodeState.running
            || is_state (state_of w id) NodeState.waiting)) [
              | inl busy ↦ rw (o, busy) (w, refl, ((s, Extends-refl w.graph), λ p. cc))
              | inr idle ↦
                  let (r, e, (kept, done)) =
                    unsuccessful-Settles id w s h b o finish_cancelled NodeState.cancelled refl in
                  rw (o, idle) (r, e, (kept, λ p. done refl))
            ]
    ]

  -- With fuel above the number of open nodes a call returns, and keeps the graph sound.
  pub settle-SettlesBelow : (fuel : ℕ) → SettlesBelow (settle {T = T} fuel) fuel
  unfolding settle
  settle-SettlesBelow zero doomed call id w s h b a = absurd (omega arith)
  settle-SettlesBelow (suc fuel) doomed call id w s h b a =
      rw (node_at-node_of w.graph.nodes id h) (
        settle_node-Settles (settle fuel) fuel (settle-SettlesBelow fuel) doomed call id w s h
          (omega arith) a)

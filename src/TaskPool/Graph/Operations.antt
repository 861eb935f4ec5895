-- ===== src/TaskPool/Graph/Operations.antt =====
-- task_pool/graph/exec/node_exec.rs: `start`, `mark_running`, and `finish` for the outcomes that add
-- no nodes.
use griffr.Common.{
  ℕ, zero, suc, ◌+◌, ◌≤◌, ◌<◌, ◌≡◌, refl, subst, inl, inr, Bool, true, false, none, some, List, [],
  ◌∷◌, arith, ltb, nat_beq, Bool-cases, Option-cases, nat_eq, length, get_elem?, total, text_eq,
  get, nat_order, text_order, flagged_eq, flagged_order,
}
use griffr.TaskPool.Graph.{
  Result, ok, NodeState, TaskNode, TaskGraph, ReadyTask, Work, put, mark_running,
}
use griffr.TaskPool.Graph.Settle.{
  Settlement, finish_succeeded, finish_failed, finish_cancelled, cancel_node, push_ready, activate,
  activate_if_ready, continue_node, settle,
}
use griffr.TaskPool.Graph.Expansion.{
  TaskRun, run_succeeded, run_cancelled, run_failed, run_continue, run_expand, run_expand_then,
}
use griffr.TaskPool.Graph.Install.{
  activate_all, start, settle_fuel, without_expansion, install_expansion, finish_run, finish,
}
use griffr.TaskPool.Graph.Lookup.{node_of, get_elem?-node_of, node_of-get_elem?, node_of-set}
use griffr.TaskPool.Graph.Sound.{
  is_open, is_due, IsSound, IsForward, Extends, IsForward-Extends, Extends-refl, Extends-trans,
  edited, MayEdit, Extends-edited, edited-IsSound,
}
use griffr.TaskPool.Graph.Steps.{Returns, node_at-node_of, Keeps, ready-MayEdit}
use griffr.TaskPool.Graph.Settle.Activation.{continue_node-Keeps}
use griffr.TaskPool.Graph.Settle.Notify.{allowed, Settles}
use griffr.TaskPool.Graph.Settle.Settled.{settle-SettlesBelow}

module _ {ℓ} {T : Type ℓ} where
  -- The graph between two operations of the scheduler, after `start`.
  pub record IsStable (g : TaskGraph T) : Type ℓ where
    pub sound : IsSound [] [] g
    pub none_due : (i : ℕ) → is_due (node_of g.nodes i) ≡ false
    pub forward : IsForward g
    pub bound_in_range : (token id : ℕ) → get g.bindings token ≡ some id → id < length g.nodes

  -- What an operation that succeeds leaves.
  abbrev pub Stays : TaskGraph T → Result (Work T) → Type ℓ
  Stays g m = Returns m (λ r. IsStable r.graph × Extends g r.graph)

  still-IsStable : (g h : TaskGraph T) → IsStable g → IsSound [] [] h → Extends g h → IsStable h
  still-IsStable g h v s on = record {
    sound = s;
    none_due = λ i. on.never_due i (v.none_due i);
    forward = IsForward-Extends g h v.forward on;
    bound_in_range =
        λ token id e. rw (on.same_length) (v.bound_in_range token id (rw (← on.same_bindings) e));
  }

  pub Keeps-Stays :
      (g : TaskGraph T) (w : Work T) (m : Result (Work T))
      → w.graph ≡ g
      → IsStable g
      → Keeps [] [] w m
      → Stays g m
  Keeps-Stays g w m same v (r, e, (sound, on)) =
      let on' : Extends g r.graph = subst (λ k. Extends k r.graph) same on in
      (r, e, (still-IsStable g r.graph v sound on', on'))

  -- Activation leaves a node that is not due.
  activated :
      (id : ℕ) (w : Work T)
      → IsSound [] [] w.graph
      → id < length w.graph.nodes
      → Returns (activate_if_ready id w) (λ r.
        (IsSound [] [] r.graph × Extends w.graph r.graph)
        × (is_due (node_of r.graph.nodes id) ≡ false))
  unfolding activate_if_ready activate push_ready
  activated id w s h =
      let n = node_of w.graph.nodes id in
      let n' : TaskNode T = record n { state = NodeState.ready; task = none } in
      elim (Bool-cases (is_due n)) [
        | inr idle ↦
            rw (node_at-node_of w.graph.nodes id h, idle)
              (w, refl, ((s, Extends-refl w.graph), idle))
        | inl due ↦ elim (Option-cases n.task) [
          | inl missing ↦ absurd (ground (arith, s.tasked id))
          | inr (task, e) ↦
              let may =
                ready-MayEdit w.graph id h [] n' s (ground arith) (ground arith) refl refl refl
                  refl in
              rw (node_at-node_of w.graph.nodes id h, due, e)
                (
                  push_ready id task n.continuation (put id n' w),
                  refl,
                  (
                    (
                      edited-IsSound w.graph id n' w.graph.unresolved may s,
                      Extends-edited w.graph id n' w.graph.unresolved may (omega arith),
                    ),
                    ground (arith, node_of-set w.graph.nodes id n' id h),
                  ),
                )
        ]
      ]

  pub activate_all-Keeps :
      (id count : ℕ) (w : Work T)
      → IsSound [] [] w.graph
      → id + count ≡ length w.graph.nodes
      → ((i : ℕ) → i < id → is_due (node_of w.graph.nodes i) ≡ false)
      → Returns (activate_all id count w) (λ r.
        (IsSound [] [] r.graph × Extends w.graph r.graph)
        × ((i : ℕ) → i < length w.graph.nodes → is_due (node_of r.graph.nodes i) ≡ false))
  unfolding activate_all
  activate_all-Keeps id zero w s h d =
      (w, refl, ((s, Extends-refl w.graph), λ i lt. d i (omega arith)))
  activate_all-Keeps id (suc count) w s h d =
      let (v, e, ((sound, on), idle)) = activated id w s (omega arith) in
      let before : (i : ℕ) → i < suc id → is_due (node_of v.graph.nodes i) ≡ false = λ i lt.
        elim (Bool-cases (nat_beq i id)) [
          | inl last ↦ ground (arith, idle)
          | inr other ↦ on.never_due i (d i (ground arith))
        ] in
      let (r, e', ((sound', on'), quiet)) =
        activate_all-Keeps (suc id) count v sound (omega (arith, on.same_length)) before in
      rw e (
        r,
        e',
        (
          (sound', Extends-trans w.graph v.graph r.graph on on'),
          λ i lt. quiet i (omega (arith, on.same_length)),
        ),
      )

  beyond_not_due : (ns : List (TaskNode T)) (i : ℕ) → length ns ≤ i → is_due (node_of ns i) ≡ false
  unfolding node_of
  beyond_not_due [] i h = refl
  beyond_not_due (n ∷ ns) zero h = absurd (omega arith)
  beyond_not_due (n ∷ ns) (suc i) h = beyond_not_due ns i (omega arith)

  pub none_due_of :
      (ns : List (TaskNode T))
      → ((i : ℕ) → i < length ns → is_due (node_of ns i) ≡ false)
      → (i : ℕ) → is_due (node_of ns i) ≡ false
  none_due_of ns h i = elim (Bool-cases (ltb i (length ns))) [
    | inl lt ↦ h i (ground arith)
    | inr ge ↦ beyond_not_due ns i (ground arith)
  ]

  -- `start` returns, and every node without a dependency is ready then.
  pub start-IsStable :
      (g : TaskGraph T)
      → IsSound [] [] g
      → IsForward g
      → ((token id : ℕ) → get g.bindings token ≡ some id → id < length g.nodes)
      → Stays g (start g)
  unfolding start
  start-IsStable g s f b =
      let (r, e, ((sound, on), idle)) =
        activate_all-Keeps 0 (length g.nodes) (record { graph = g; started = [] }) s (omega arith)
          (λ i lt. absurd (omega arith)) in
      (
        r,
        e,
        (
          record {
            sound = sound;
            none_due = none_due_of r.graph.nodes (λ i lt. idle i (omega (arith, on.same_length)));
            forward = IsForward-Extends g r.graph f on;
            bound_in_range =
                λ token id found. rw (on.same_length) (b token id (rw (← on.same_bindings) found));
          },
          on,
        ),
      )

  pub mark_running-IsStable :
      (g : TaskGraph T) (id : ℕ) {h : TaskGraph T}
      → IsStable g
      → mark_running g id ≡ ok h
      → IsStable h × Extends g h × ((node_of h.nodes id).state ≡ NodeState.running)
  unfolding mark_running
  mark_running-IsStable g id {h} v e = elim (Option-cases (get_elem? g.nodes id)) [
    | inl missing ↦ absurd (ground (arith, e))
    | inr (n, found) ↦
        let (lt, same) = node_of-get_elem? g.nodes id found in
        let n' : TaskNode T = record n { state = NodeState.running } in
        let is : edited g id n' g.unresolved ≡ h = ground (arith, e) in
        let may : MayEdit [] [] [] [] g id n' g.unresolved = record {
          exists = lt;
          count = ground (arith, e);
          same_dependents = ground arith;
          final = λ t. ground (arith, e);
          waiters_kept = ground (arith, v.sound.waiters_in_range id);
          has_task = λ p. cc;
          paid = λ p. ground (arith, e, v.sound.unblocked id);
          not_due = λ p. refl;
          balance = λ i k. ground (arith, e);
          doom = λ i. (λ c. c, λ p q c. cc);
        } in
        let on = Extends-edited g id n' g.unresolved may (omega arith) in
        subst (λ k. IsStable k × Extends g k × ((node_of k.nodes id).state ≡ NodeState.running)) is
          (
            still-IsStable g (edited g id n' g.unresolved) v
                (edited-IsSound g id n' g.unresolved may v.sound) on,
            on,
            ground (arith, node_of-set g.nodes id n' id lt),
          )
  ]

  pub total_open-le-length : (ns : List (TaskNode T)) → total is_open ns ≤ length ns
  total_open-le-length [] = omega arith
  total_open-le-length (n ∷ ns) = ground (arith, total_open-le-length ns)

  -- A call of the scheduler, which gives fuel for every node.
  pub settle-Stays :
      (call : Settlement) (id : ℕ) (g : TaskGraph T) (list : List (ReadyTask T))
      → IsSound [] [] g
      → id < length g.nodes
      → allowed call (node_of g.nodes id).state ≡ true
      → Settles [] call id
          (record { graph = g; started = list })
          (settle
            (settle_fuel (record { graph = g; started = list }))
            call
            id
            (record { graph = g; started = list }))
  unfolding settle_fuel
  settle-Stays call id g list s h a =
      settle-SettlesBelow (suc (length g.nodes)) [] call id (record { graph = g; started = list }) s
        h (omega (arith, total_open-le-length g.nodes)) a

  -- The outcomes that add no nodes to the graph.
  abbrev pub adds_none : TaskRun T → Bool
  adds_none run_succeeded = true
  adds_none run_cancelled = true
  adds_none (run_failed reason report) = true
  adds_none (run_continue task) = true
  adds_none (run_expand []) = true
  adds_none (run_expand (n ∷ ns)) = false
  adds_none (run_expand_then [] task) = true
  adds_none (run_expand_then (n ∷ ns) task) = false

  module _ (g : TaskGraph T) (id : ℕ) (v : IsStable g) (h : id < length g.nodes)
      (busy : (node_of g.nodes id).state ≡ NodeState.running) where
    finish_by :
        (call : Settlement)
        → Stays g (
            settle
              (settle_fuel (record { graph = g; started = [] }))
              call
              id
              (record { graph = g; started = [] }))
    finish_by call =
        let (r, e, (kept, done)) = settle-Stays call id g [] v.sound h (by_call call) in
        Keeps-Stays g (record { graph = g; started = [] }) _ refl v (r, e, kept)
      where
        by_call : (call : Settlement) → allowed call (node_of g.nodes id).state ≡ true
        by_call finish_succeeded = ground (arith, busy)
        by_call finish_failed = refl
        by_call finish_cancelled = refl
        by_call cancel_node = refl

    continue_by : (task : T) → Stays g (continue_node id task (record { graph = g; started = [] }))
    continue_by task =
        Keeps-Stays g (record { graph = g; started = [] }) _ refl v
          (continue_node-Keeps [] [] id task (record { graph = g; started = [] }) v.sound h
            (ground (arith, busy)) (ground (arith, busy)))

    pub finish_run-Stays :
        (run : TaskRun T)
        → adds_none run ≡ true
        → Stays g (finish_run id run (record { graph = g; started = [] }))
    unfolding finish_run install_expansion without_expansion
    finish_run-Stays run_succeeded a = finish_by finish_succeeded
    finish_run-Stays run_cancelled a = finish_by finish_cancelled
    finish_run-Stays (run_failed reason report) a = finish_by finish_failed
    finish_run-Stays (run_continue task) a = continue_by task
    finish_run-Stays (run_expand []) a = finish_by finish_succeeded
    finish_run-Stays (run_expand (n ∷ ns)) a = cc
    finish_run-Stays (run_expand_then [] task) a = continue_by task
    finish_run-Stays (run_expand_then (n ∷ ns) task) a = cc

    -- The outcome of a running node is taken without a failure, and the graph stays sound.
    pub finish-Stays : (run : TaskRun T) → adds_none run ≡ true → Stays g (finish g id run)
    unfolding finish
    finish-Stays run a = rw (get_elem?-node_of g.nodes id h, finish, busy) (finish_run-Stays run a)

-- ===== src/TaskPool/Graph/Install/Installed.antt =====
-- task_pool/graph/exec/node_exec.rs: `install_expansion` and `finish`.
use griffr.Common.{
  ℕ, zero, suc, ◌+◌, ◌≤◌, ◌<◌, ◌≡◌, refl, sym, subst, inl, inr, Bool, true, false, Option, none,
  some, List, [], ◌∷◌, ◌++◌, arith, ltb, Bool-cases, nat_eq, length, all, length-set, total,
  all-append, contains, text_eq, saturating_add, Map, get, insert, get-insert, nat_order,
  text_order, flagged_eq, flagged_order,
}
use griffr.TaskPool.Graph.{node_limit, ok, new_node_id, NodeState, TaskNode, TaskGraph, Work, put}
use griffr.TaskPool.Graph.Settle.{cancel_node, for_each}
use griffr.TaskPool.Graph.Expansion.{ExpansionNode}
use griffr.TaskPool.Graph.Resolve.{check_ids, has_failed, terminals_from}
use griffr.TaskPool.Graph.Install.{bind_nodes, push_waiter, cancel_blocked, wait_for}
use griffr.TaskPool.Graph.Lookup.{node_of}
use griffr.TaskPool.Graph.Sound.{
  is_open, in_range, IsSound, Extends, Extends-refl, Extends-trans, MayEdit, edited-IsSound,
}
use griffr.TaskPool.Graph.Steps.{node_at-node_of, Keeps, waiting-MayEdit}
use griffr.TaskPool.Graph.Settle.Activation.{edited-Keeps, after_edit-Keeps}
use griffr.TaskPool.Graph.Settle.Notify.{>>=-Keeps}
use griffr.TaskPool.Graph.Settle.Cancel.{settled_undoomed, blocked_by_failed}
use griffr.TaskPool.Graph.Settle.Settled.{settle-SettlesBelow}
use griffr.TaskPool.Graph.Install.Grown.{doomed_from}

pub check_ids_lem :
    (base count : ℕ) → check_ids base (suc count) ≡ ok tt → base + suc count ≤ node_limit
unfolding check_ids new_node_id
check_ids_lem base zero h = ground (arith, h)
check_ids_lem base (suc count) h = elim (Bool-cases (ltb base node_limit)) [
  | inr full ↦ absurd (ground (arith, h))
  | inl room ↦ let next = check_ids_lem (saturating_add base 1) count (rw room at h) in ground arith
]

module _ {ℓ} {T : Type ℓ} where
  push_waiter-Keeps :
      (doomed : List ℕ) (parent id : ℕ) (w : Work T)
      → IsSound [] doomed w.graph
      → id < length w.graph.nodes
      → parent < length w.graph.nodes
      → Keeps [] doomed w (push_waiter parent id w)
  unfolding push_waiter
  push_waiter-Keeps doomed parent id w s h k =
      let n = node_of w.graph.nodes id in
      let n' : TaskNode T = record n { waiters = n.waiters ++ parent ∷ [] } in
      rw (node_at-node_of w.graph.nodes id h) (
        edited-Keeps [] doomed w id n' w.graph.unresolved w.started s
          (waiting-MayEdit w.graph id h [] n' s refl refl refl
            (ground (
              arith,
              s.waiters_in_range id,
              all-append (λ d. ltb d (length w.graph.nodes)) n.waiters (parent ∷ []),
            ))
            (λ p. refl))
          (omega arith))

  push_waiters-Keeps :
      (doomed : List ℕ) (parent : ℕ) (ids : List ℕ) (w : Work T)
      → IsSound [] doomed w.graph
      → in_range w.graph.nodes ids ≡ true
      → parent < length w.graph.nodes
      → Keeps [] doomed w (for_each (push_waiter parent) ids w)
  unfolding for_each
  push_waiters-Keeps doomed parent [] w s h k = (w, refl, (s, Extends-refl w.graph))
  push_waiters-Keeps doomed parent (id ∷ ids) w s h k =
      >>=-Keeps doomed w (push_waiter parent id w) (for_each (push_waiter parent) ids)
        (push_waiter-Keeps doomed parent id w s (ground arith) k)
        (λ v sound on.
          push_waiters-Keeps doomed parent ids v sound (rw (on.same_length) (ground arith))
            (omega (arith, on.same_length)))

  pub wait_for-Keeps :
      (doomed : List ℕ) (parent : ℕ) (next : Option T) (id : ℕ) (ids : List ℕ) (w : Work T)
      → IsSound [] doomed w.graph
      → in_range w.graph.nodes (id ∷ ids) ≡ true
      → parent < length w.graph.nodes
      → (node_of w.graph.nodes parent).state ≡ NodeState.running
      → Keeps [] doomed w (wait_for parent next (id ∷ ids) w)
  unfolding wait_for
  wait_for-Keeps doomed parent next id ids w s h k busy =
      let n = node_of w.graph.nodes parent in
      let n' : TaskNode T = record n {
        state = NodeState.waiting;
        waiting_remaining = length (id ∷ ids);
        task = next;
      } in
      let may : MayEdit [] doomed [] doomed w.graph parent n' w.graph.unresolved = record {
        exists = k;
        count = ground (arith, busy);
        same_dependents = refl;
        final = λ t. ground (arith, busy);
        waiters_kept = s.waiters_in_range parent;
        has_task = λ p. cc;
        paid = λ p. ground (arith, busy, s.unblocked parent);
        not_due = λ p. refl;
        balance = λ i lt. ground (arith, busy);
        doom = λ i. (λ c. c, λ p q c. cc);
      } in
      let size = length-set w.graph.nodes parent n' in
      rw (node_at-node_of w.graph.nodes parent k) (
        after_edit-Keeps [] doomed w parent n' w.graph.unresolved w.started
          (for_each (push_waiter parent) (id ∷ ids) (put parent n' w)) may (omega arith)
          (push_waiters-Keeps doomed parent (id ∷ ids) (put parent n' w)
            (edited-IsSound w.graph parent n' w.graph.unresolved may s)
            (subst (λ l. all (λ d. ltb d l) (id ∷ ids) ≡ true) (sym size) h) (omega (arith, size))))

  -- A failed dependency of each blocked node.
  abbrev pub IsBlocked : TaskGraph T → List ℕ → Type 0
  IsBlocked g doomed =
      (i : ℕ)
      → contains doomed i ≡ true
      → (j : ℕ) × (j < length g.nodes)
        × (has_failed (node_of g.nodes j).state ≡ true)
        × (contains (node_of g.nodes j).dependents i ≡ true)

  pub IsBlocked-Extends :
      (g h : TaskGraph T) (doomed : List ℕ) → IsBlocked g doomed → Extends g h → IsBlocked h doomed
  IsBlocked-Extends g h doomed b on i c =
      let (j, lt, f, m) = b i c in
      (
        j,
        omega (arith, on.same_length),
        ground (arith, on.still_settled j),
        rw (on.same_dependents j) m,
      )

  pub cancel_blocked-Keeps :
      (fuel id : ℕ) (bs : List Bool) (w : Work T)
      → IsSound [] (doomed_from id bs) w.graph
      → IsBlocked w.graph (doomed_from id bs)
      → id + length bs ≤ length w.graph.nodes
      → total is_open w.graph.nodes < fuel
      → Keeps [] [] w (cancel_blocked fuel id bs w)
  unfolding cancel_blocked
  cancel_blocked-Keeps fuel id [] w s b h f = (w, refl, (s, Extends-refl w.graph))
  cancel_blocked-Keeps fuel id (false ∷ bs) w s b h f =
      cancel_blocked-Keeps fuel (suc id) bs w s b (omega arith) f
  cancel_blocked-Keeps fuel id (true ∷ bs) w s b h f =
      let (j, lt, failed_j, m) = b id (ground arith) in
      let idle =
        blocked_by_failed (id ∷ doomed_from (suc id) bs) w.graph j id s lt (omega arith) failed_j
          m in
      let (v, e, ((sound, on), done)) =
        settle-SettlesBelow fuel (id ∷ doomed_from (suc id) bs) cancel_node id w s (omega arith) f
          refl in
      let (r, e', (sound', on')) =
        cancel_blocked-Keeps fuel (suc id) bs v
          (settled_undoomed id (doomed_from (suc id) bs) v.graph sound (done (ground arith)))
          (IsBlocked-Extends w.graph v.graph (doomed_from (suc id) bs) (λ i c. b i (ground arith))
            on)
          (omega (arith, on.same_length)) (omega (arith, on.fewer_open)) in
      rw e (r, e', (sound', Extends-trans w.graph v.graph r.graph on on'))

  pub terminals-in_range :
      (ms : List (TaskNode T)) (id : ℕ) (degrees : List ℕ)
      → id + length degrees ≤ length ms
      → in_range ms (terminals_from id degrees) ≡ true
  unfolding terminals_from
  terminals-in_range ms id [] h = refl
  terminals-in_range ms id (d ∷ ds) h = ground (arith, terminals-in_range ms (suc id) ds)

  pub bind_nodes_in_range :
      (id : ℕ) (xs : List (ExpansionNode T)) (bindings : Map ℕ ℕ) (size : ℕ)
      → id + length xs ≤ size
      → ((token i : ℕ) → get bindings token ≡ some i → i < size)
      → (token i : ℕ) → get (bind_nodes id xs bindings) token ≡ some i
      → i < size
  unfolding bind_nodes
  bind_nodes_in_range id [] bindings size h b = b
  bind_nodes_in_range id (x ∷ xs) bindings size h b =
      bind_nodes_in_range (suc id) xs _ size (omega arith) (bound x.binding)
    where
      bound :
          (binding : Option ℕ) (token i : ℕ)
          → get (elim binding [ none ↦ bindings | some t ↦ insert bindings t id ]) token ≡ some i
          → i < size
      bound none token i e = b token i e
      bound (some t) token i e = ground (arith, get-insert bindings t token id, b token i)

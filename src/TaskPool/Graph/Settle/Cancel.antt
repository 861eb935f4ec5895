-- ===== src/TaskPool/Graph/Settle/Cancel.antt =====
-- task_pool/graph/exec/node_exec.rs: the loops that cancel the dependents of a node that failed.
use griffr.Common.{
  ℕ, ◌≤◌, ◌<◌, ◌≡◌, refl, true, false, List, [], ◌∷◌, ◌++◌, arith, nat_eq, length, all, total,
  contains, occurrences, text_eq, nat_order, text_order, flagged_eq, flagged_order,
}
use griffr.TaskPool.Graph.{Result, is_terminal, TaskGraph, Work}
use griffr.TaskPool.Graph.Settle.{Settlement, cancel_node, for_each}
use griffr.TaskPool.Graph.Resolve.{has_failed}
use griffr.TaskPool.Graph.Lookup.{node_of, node_of-le-total}
use griffr.TaskPool.Graph.Sound.{
  has_started, owes, is_open, in_range, IsSound, Extends-refl, Extends-trans,
}
use griffr.TaskPool.Graph.Steps.{Keeps}
use griffr.TaskPool.Graph.Settle.Notify.{state_of, SettlesBelow}

pub occurrences-member : (a : ℕ) (xs : List ℕ) → contains xs a ≡ true → 1 ≤ occurrences a xs
occurrences-member a [] h = cc
occurrences-member a (x ∷ xs) h = ground (arith, occurrences-member a xs)

pub all_members :
    (zs xs : List ℕ)
    → ((i : ℕ) → contains xs i ≡ true → contains zs i ≡ true)
    → all (contains zs) xs ≡ true
all_members zs [] h = refl
all_members zs (x ∷ xs) h = ground (arith, h x, all_members zs xs (λ i m. ground (arith, h i)))

module _ {ℓ} {T : Type ℓ} where
  -- A node that is settled need not be cancelled.
  pub settled_undoomed :
      (id : ℕ) (doomed : List ℕ) (g : TaskGraph T)
      → IsSound [] (id ∷ doomed) g
      → is_terminal (node_of g.nodes id).state ≡ true
      → IsSound [] doomed g
  settled_undoomed id doomed g s t = record {
    counted = s.counted;
    dependents_in_range = s.dependents_in_range;
    waiters_in_range = s.waiters_in_range;
    tasked = s.tasked;
    owed = s.owed;
    unblocked = s.unblocked;
    cut_off = λ j i f c. ground (arith, s.cut_off j i f c);
  }

  -- A dependent of a failed node has not started.
  pub blocked_by_failed :
      (doomed : List ℕ) (g : TaskGraph T) (j i : ℕ)
      → IsSound [] doomed g
      → j < length g.nodes
      → i < length g.nodes
      → has_failed (node_of g.nodes j).state ≡ true
      → contains (node_of g.nodes j).dependents i ≡ true
      → has_started (node_of g.nodes i).state ≡ false
  blocked_by_failed doomed g j i s hj hi f c = ground (
    arith,
    s.unblocked i,
    s.owed i,
    node_of-le-total (owes i) g.nodes j,
    occurrences-member i (node_of g.nodes j).dependents,
  )

  module _ (self : Settlement → ℕ → Work T → Result (Work T)) (bound : ℕ)
      (calls : SettlesBelow self bound) (doomed : List ℕ) where
    -- The loop that cancels the dependents of the failed node `j`.
    pub cancel_all-Keeps :
        (j : ℕ) (ids : List ℕ) (w : Work T)
        → IsSound [] (ids ++ doomed) w.graph
        → j < length w.graph.nodes
        → in_range w.graph.nodes ids ≡ true
        → total is_open w.graph.nodes < bound
        → has_failed (state_of w j) ≡ true
        → all (contains (node_of w.graph.nodes j).dependents) ids ≡ true
        → Keeps [] doomed w (for_each (self cancel_node) ids w)
    unfolding for_each
    cancel_all-Keeps j [] w s hj h b f d = (w, refl, (s, Extends-refl w.graph))
    cancel_all-Keeps j (id ∷ ids) w s hj h b f d =
        let idle =
          blocked_by_failed (id ∷ ids ++ doomed) w.graph j id s hj (ground arith) f
            (ground arith) in
        let (v, e, ((sound, on), done)) =
          calls (id ∷ ids ++ doomed) cancel_node id w s (ground arith) b refl in
        let (r, e', (sound', on')) =
          cancel_all-Keeps j ids v
            (settled_undoomed id (ids ++ doomed) v.graph sound (done (ground arith)))
            (omega (arith, on.same_length)) (rw (on.same_length) (ground arith))
            (omega (arith, on.fewer_open)) (ground (arith, on.still_settled j))
            (rw (on.same_dependents j) (ground arith)) in
        rw e (r, e', (sound', Extends-trans w.graph v.graph r.graph on on'))

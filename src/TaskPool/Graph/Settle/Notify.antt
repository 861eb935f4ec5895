-- ===== src/TaskPool/Graph/Settle/Notify.antt =====
-- task_pool/graph/exec/node_exec.rs: `notify_waiters`, and the cancellation of the dependents of a
-- node, for any function that settles nodes while fewer than `bound` are open.
use griffr.Common.{
  ℕ, ◌<◌, ◌≡◌, refl, inl, inr, Bool, true, false, ◌||◌, not, Option, none, List, [], ◌∷◌, arith,
  nat_beq, if◌then◌else◌, Bool-cases, Option-cases, nat_eq, length, total, text_eq, saturating_sub,
  nat_order, text_order, flagged_eq, flagged_order,
}
use griffr.TaskPool.Graph.{Result, ◌>>=◌, NodeState, is_terminal, is_state, Work, put}
use griffr.TaskPool.Graph.Settle.{
  Settlement, finish_succeeded, finish_failed, finish_cancelled, cancel_node, for_each, count_down,
  notify_waiter, notify_waiters,
}
use griffr.TaskPool.Graph.Lookup.{node_of, node_of-set}
use griffr.TaskPool.Graph.Sound.{
  has_started, is_open, in_range, IsSound, Extends, Extends-refl, Extends-trans, Extends-edited,
  edited-IsSound,
}
use griffr.TaskPool.Graph.Steps.{Returns, node_at-node_of, Keeps, waiting-MayEdit}
use griffr.TaskPool.Graph.Settle.Activation.{after_edit-Keeps, continue_node-Keeps}

-- The states in which a call is made: only a node that has started succeeds.
abbrev pub allowed : Settlement → NodeState → Bool
allowed finish_succeeded state = is_terminal state || has_started state
allowed finish_failed state = true
allowed finish_cancelled state = true
allowed cancel_node state = true

-- A running or waiting node is not cancelled.
abbrev pub resolves : Settlement → NodeState → Bool
resolves finish_succeeded state = true
resolves finish_failed state = true
resolves finish_cancelled state = true
resolves cancel_node state =
    not (is_state state NodeState.running || is_state state NodeState.waiting)

module _ {ℓ} {T : Type ℓ} where
  abbrev pub state_of : Work T → ℕ → NodeState
  state_of w id = (node_of w.graph.nodes id).state

  -- The node is settled, and the graph sound as before.
  abbrev pub Settles : List ℕ → Settlement → ℕ → Work T → Result (Work T) → Type ℓ
  Settles doomed call id w m = Returns m (λ r.
      (IsSound [] doomed r.graph × Extends w.graph r.graph)
      × (resolves call (state_of w id) ≡ true → is_terminal (state_of r id) ≡ true))

  abbrev pub SettlesBelow : (Settlement → ℕ → Work T → Result (Work T)) → ℕ → Type ℓ
  SettlesBelow self bound =
      (doomed : List ℕ) (call : Settlement) (id : ℕ) (w : Work T)
      → IsSound [] doomed w.graph
      → id < length w.graph.nodes
      → total is_open w.graph.nodes < bound
      → allowed call (state_of w id) ≡ true
      → Settles doomed call id w (self call id w)

  Settles-Keeps :
      (doomed : List ℕ) (call : Settlement) (id : ℕ) (w : Work T) (m : Result (Work T))
      → Settles doomed call id w m
      → Keeps [] doomed w m
  Settles-Keeps doomed call id w m (r, e, (kept, done)) = (r, e, kept)

  -- Two calls one after the other.
  pub >>=-Keeps :
      (doomed : List ℕ) (w : Work T) (m : Result (Work T)) (f : Work T → Result (Work T))
      → Keeps [] doomed w m
      → ((v : Work T)
          → IsSound [] doomed v.graph
          → Extends w.graph v.graph
          → Keeps [] doomed v (f v))
      → Keeps [] doomed w (m >>= f)
  >>=-Keeps doomed w m f (v, e, (sound, on)) k =
      let (r, e', (sound', on')) = k v sound on in
      rw e (r, e', (sound', Extends-trans w.graph v.graph r.graph on on'))

  module _ (self : Settlement → ℕ → Work T → Result (Work T)) (bound : ℕ)
      (calls : SettlesBelow self bound) (doomed : List ℕ) where
    count_down-Keeps :
        (waiter left : ℕ) (w : Work T)
        → IsSound [] doomed w.graph
        → waiter < length w.graph.nodes
        → total is_open w.graph.nodes < bound
        → is_state (state_of w waiter) NodeState.waiting ≡ true
        → Keeps [] doomed w (count_down self waiter (node_of w.graph.nodes waiter) left w)
    unfolding count_down
    count_down-Keeps waiter left w s h b st =
        let n = node_of w.graph.nodes waiter in
        let may = λ (task : Option T).
          waiting-MayEdit w.graph waiter h [] (record n { waiting_remaining = left; task = task }) s
            refl refl refl (s.waiters_in_range waiter) (λ p. ground arith) in
        let next =
          λ (task : Option T). put waiter (record n { waiting_remaining = left; task = task }) w in
        let kept = λ (task : Option T).
          edited-IsSound w.graph waiter (record n { waiting_remaining = left; task = task })
            w.graph.unresolved (may task) s in
        let on = λ (task : Option T).
          Extends-edited w.graph waiter (record n { waiting_remaining = left; task = task })
            w.graph.unresolved (may task) (omega arith) in
        let there = λ (task : Option T).
          node_of-set w.graph.nodes waiter (record n { waiting_remaining = left; task = task })
            waiter h in
        let after = λ (task : Option T) (m : Result (Work T)).
          after_edit-Keeps [] doomed w waiter (record n { waiting_remaining = left; task = task })
            w.graph.unresolved w.started m (may task) (omega arith) in
        elim (Bool-cases (nat_beq left 0)) [
          | inr more ↦ rw more (after n.task _ (next n.task, refl, (kept n.task, Extends-refl _)))
          | inl last ↦ elim (Option-cases n.task) [
            | inl missing ↦
                rw (last, missing)
                  (after n.task _ (
                    Settles-Keeps doomed finish_succeeded waiter (next n.task) _ (
                      calls doomed finish_succeeded waiter (next n.task) (kept n.task)
                        (omega (arith, (on n.task).same_length))
                        (omega (arith, (on n.task).fewer_open)) (ground (arith, there n.task)))))
            | inr (task, e) ↦
                rw (last, e)
                  (after none _ (
                    continue_node-Keeps [] doomed waiter task (next none) (kept none)
                      (omega (arith, (on none).same_length)) (ground (arith, there none))
                      (ground (arith, there none))))
          ]
        ]

    notify_waiter-Keeps :
        (done : Bool) (waiter : ℕ) (w : Work T)
        → IsSound [] doomed w.graph
        → waiter < length w.graph.nodes
        → total is_open w.graph.nodes < bound
        → Keeps [] doomed w (notify_waiter self done waiter w)
    unfolding notify_waiter
    notify_waiter-Keeps done waiter w s h b =
        rw (node_at-node_of w.graph.nodes waiter h)
          (elim (Bool-cases (is_state (state_of w waiter) NodeState.waiting)) [
            | inr other ↦ rw other (w, refl, (s, Extends-refl w.graph))
            | inl waits ↦ rw waits (by_outcome done waits)
          ])
      where
        by_outcome :
            (done : Bool)
            → is_state (state_of w waiter) NodeState.waiting ≡ true
            → Keeps [] doomed w (
                if done
                then count_down self waiter
                    (node_of w.graph.nodes waiter)
                    (saturating_sub (node_of w.graph.nodes waiter).waiting_remaining 1)
                    w
                else self finish_failed waiter w)
        by_outcome true st =
            count_down-Keeps waiter
              (saturating_sub (node_of w.graph.nodes waiter).waiting_remaining 1) w s h b st
        by_outcome false st =
            Settles-Keeps doomed finish_failed waiter w _
              (calls doomed finish_failed waiter w s h b refl)

    notify_all-Keeps :
        (done : Bool) (ids : List ℕ) (w : Work T)
        → IsSound [] doomed w.graph
        → in_range w.graph.nodes ids ≡ true
        → total is_open w.graph.nodes < bound
        → Keeps [] doomed w (for_each (notify_waiter self done) ids w)
    unfolding for_each
    notify_all-Keeps done [] w s h b = (w, refl, (s, Extends-refl w.graph))
    notify_all-Keeps done (id ∷ ids) w s h b =
        >>=-Keeps doomed w (notify_waiter self done id w) (for_each (notify_waiter self done) ids)
          (notify_waiter-Keeps done id w s (ground arith) b)
          (λ v sound on.
            notify_all-Keeps done ids v sound (rw (on.same_length) (ground arith))
              (omega (arith, on.fewer_open)))

    pub notify_waiters-Keeps :
        (done : Bool) (id : ℕ) (w : Work T)
        → IsSound [] doomed w.graph
        → id < length w.graph.nodes
        → total is_open w.graph.nodes < bound
        → Keeps [] doomed w (notify_waiters self id done w)
    unfolding notify_waiters
    notify_waiters-Keeps done id w s h b =
        let n = node_of w.graph.nodes id in
        let m =
          waiting-MayEdit w.graph id h [] (record n { waiters = [] }) s refl refl refl refl
            (λ p. refl) in
        let on =
          Extends-edited w.graph id (record n { waiters = [] }) w.graph.unresolved m
            (omega arith) in
        rw (node_at-node_of w.graph.nodes id h) (
          after_edit-Keeps [] doomed w id (record n { waiters = [] }) w.graph.unresolved w.started _
            m (omega arith)
            (notify_all-Keeps done n.waiters (put id (record n { waiters = [] }) w)
              (edited-IsSound w.graph id (record n { waiters = [] }) w.graph.unresolved m s)
              (rw (on.same_length) (s.waiters_in_range id)) (omega (arith, on.fewer_open))))

-- ===== src/TaskPool/Graph/Settle.antt =====
-- task_pool/graph/exec/node_exec.rs: what follows when a node is resolved. The four methods call one
-- another through the dependents and the waiters of a node, so each takes the function `settle` that
-- makes such a call, and `settle` recurs on fuel.
pub mod Activation
pub mod Notify
pub mod Cancel
pub mod Settled
use griffr.Common.{
  ℕ, zero, suc, Bool, true, false, ◌&&◌, ◌||◌, none, some, List, [], ◌∷◌, ◌++◌, nat_beq,
  if◌then◌else◌, nat_eq, text_eq, saturating_sub, nat_order, text_order, flagged_eq, flagged_order,
}
use griffr.TaskPool.Graph.{
  Result, ok, panicked, ◌>>=◌, NodeState, is_terminal, is_state, TaskNode, Work, node_at, put,
}

pub data Settlement : Type 0 where
  finish_succeeded finish_failed finish_cancelled cancel_node : Settlement

module _ {ℓ} {T : Type ℓ} where
  -- A loop whose body may panic.
  unfoldable pub for_each : (ℕ → Work T → Result (Work T)) → List ℕ → Work T → Result (Work T)
  for_each body [] w = ok w
  for_each body (id ∷ ids) w = body id w >>= for_each body ids

  unfoldable pub push_ready : ℕ → T → Bool → Work T → Work T
  push_ready id task continuation w = record w {
    started = w.started ++ (record { id = id; task = task; continuation = continuation }) ∷ [];
  }

  unfoldable pub activate : ℕ → TaskNode T → Work T → Result (Work T)
  unfolding push_ready
  activate id n w =
      if is_state n.state NodeState.pending && nat_beq n.remaining_dependencies 0
      then elim n.task [
        | none ↦ panicked
        | some task ↦ ok (
            push_ready id task n.continuation
              (put id (record n { state = NodeState.ready; task = none }) w))
      ]
      else ok w

  unfoldable pub activate_if_ready : ℕ → Work T → Result (Work T)
  unfolding activate
  activate_if_ready id w = node_at w.graph.nodes id >>= λ n. activate id n w

  unfoldable pub continue_node : ℕ → T → Work T → Result (Work T)
  unfolding push_ready
  continue_node id task w = node_at w.graph.nodes id >>= λ n. ok (
      push_ready id task true (
        put id
          (record n {
            state = NodeState.ready;
            waiting_remaining = 0;
            task = none;
            continuation = true;
          })
          w))

  -- The node gets its last state and drops its task, and one node fewer is unresolved.
  unfoldable pub resolve : ℕ → TaskNode T → NodeState → Work T → Work T
  resolve id n state w =
      let resolved = put id (record n { state = state; task = none }) w in
      record resolved {
        graph = record (resolved.graph) { unresolved = saturating_sub w.graph.unresolved 1 };
      }

  -- The body of the loop over the dependents in `finish_succeeded`.
  unfoldable pub release_dependent : ℕ → Work T → Result (Work T)
  unfolding activate_if_ready
  release_dependent dependent w = node_at w.graph.nodes dependent >>= λ n.
      activate_if_ready dependent (
        put dependent
          (record n { remaining_dependencies = saturating_sub n.remaining_dependencies 1 }) w)

  module _ (settle : Settlement → ℕ → Work T → Result (Work T)) where
    -- The end of the loop's body in `notify_waiters`, for a waiter whose count has come to `left`.
    unfoldable pub count_down : ℕ → TaskNode T → ℕ → Work T → Result (Work T)
    unfolding continue_node
    count_down waiter n left w =
        if nat_beq left 0
        then elim n.task [
          | some task ↦
              continue_node waiter task
                (put waiter (record n { waiting_remaining = left; task = none }) w)
          | none ↦
              settle finish_succeeded waiter (put waiter (record n { waiting_remaining = left }) w)
        ]
        else ok (put waiter (record n { waiting_remaining = left }) w)

    -- The body of the loop in `notify_waiters`.
    unfoldable pub notify_waiter : Bool → ℕ → Work T → Result (Work T)
    unfolding count_down
    notify_waiter done waiter w = node_at w.graph.nodes waiter >>= λ n.
        if is_state n.state NodeState.waiting
        then if done
          then count_down waiter n (saturating_sub n.waiting_remaining 1) w
          else settle finish_failed waiter w
        else ok w

    unfoldable pub notify_waiters : ℕ → Bool → Work T → Result (Work T)
    unfolding for_each notify_waiter
    notify_waiters id done w = node_at w.graph.nodes id >>= λ n.
        for_each (notify_waiter done) n.waiters (put id (record n { waiters = [] }) w)

    -- `finish_failed`, `finish_cancelled` and the end of `cancel_node`.
    unfoldable pub resolve_without_success : ℕ → TaskNode T → NodeState → Work T → Result (Work T)
    unfolding for_each notify_waiters resolve
    resolve_without_success id n state w =
        for_each (settle cancel_node) n.dependents (resolve id n state w)
        >>= notify_waiters id false

    unfoldable pub settle_node : Settlement → ℕ → TaskNode T → Work T → Result (Work T)
    unfolding for_each release_dependent notify_waiters resolve resolve_without_success
    settle_node finish_succeeded id n w =
        if is_terminal n.state
        then ok w
        else for_each release_dependent n.dependents (resolve id n NodeState.succeeded w)
          >>= notify_waiters id true
    settle_node finish_failed id n w =
        if is_terminal n.state then ok w else resolve_without_success id n NodeState.failed w
    settle_node finish_cancelled id n w =
        if is_terminal n.state then ok w else resolve_without_success id n NodeState.cancelled w
    settle_node cancel_node id n w =
        if is_terminal n.state
        then ok w
        else if is_state n.state NodeState.running || is_state n.state NodeState.waiting
        then ok w
        else resolve_without_success id n NodeState.cancelled w

  -- Fuel that runs out is a stack overflow.
  unfoldable pub settle : ℕ → Settlement → ℕ → Work T → Result (Work T)
  unfolding settle_node
  settle zero call id w = panicked
  settle (suc fuel) call id w =
      node_at w.graph.nodes id >>= λ n. settle_node (settle fuel) call id n w

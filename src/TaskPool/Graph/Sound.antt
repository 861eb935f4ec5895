-- ===== src/TaskPool/Graph/Sound.antt =====
-- What holds of a task graph between the steps of an operation, and a write that keeps it.
use griffr.Common.{
  ℕ, ◌+◌, ◌≤◌, ◌<◌, ◌≡◌, refl, ◌∙◌, Bool, true, false, ◌&&◌, ◌||◌, List, arith, ltb, nat_beq,
  if◌then◌else◌, is_some, nat_eq, length, set, all, length-set, total, contains, occurrences,
  text_eq, nat_order, text_order, flagged_eq, flagged_order,
}
use griffr.TaskPool.Graph.{NodeState, is_terminal, is_state, TaskNode, TaskGraph}
use griffr.TaskPool.Graph.Resolve.{has_failed}
use griffr.TaskPool.Graph.Lookup.{node_of, node_of-set, total-set}

-- A state that a node has only after its dependencies.
abbrev pub has_started : NodeState → Bool
has_started NodeState.pending = false
has_started NodeState.ready = true
has_started NodeState.running = true
has_started NodeState.waiting = true
has_started NodeState.succeeded = true
has_started NodeState.failed = false
has_started NodeState.cancelled = false

module _ {ℓ} {T : Type ℓ} where
  -- How often the node `i` still waits for `n`.
  abbrev pub owes : ℕ → TaskNode T → ℕ
  owes i n = if is_state n.state NodeState.succeeded then 0 else occurrences i n.dependents

  abbrev pub is_open : TaskNode T → ℕ
  is_open n = if is_terminal n.state then 0 else 1

  -- A node that should be activated.
  abbrev pub is_due : TaskNode T → Bool
  is_due n = is_state n.state NodeState.pending && nat_beq n.remaining_dependencies 0

  abbrev pub in_range : List (TaskNode T) → List ℕ → Bool
  in_range nodes ids = all (λ d. ltb d (length nodes)) ids

  -- The dependents in `todo` are still to be released, and those in `doomed` to be cancelled.
  pub record IsSound (todo doomed : List ℕ) (g : TaskGraph T) : Type ℓ where
    pub counted : g.unresolved ≡ total is_open g.nodes
    pub dependents_in_range : (i : ℕ) → in_range g.nodes (node_of g.nodes i).dependents ≡ true
    pub waiters_in_range : (i : ℕ) → in_range g.nodes (node_of g.nodes i).waiters ≡ true
    pub tasked :
        (i : ℕ)
        → is_state (node_of g.nodes i).state NodeState.pending ≡ true
        → is_some (node_of g.nodes i).task ≡ true
    pub owed :
        (i : ℕ)
        → i < length g.nodes
        → (node_of g.nodes i).remaining_dependencies ≡ total (owes i) g.nodes + occurrences i todo
    pub unblocked :
        (i : ℕ)
        → has_started (node_of g.nodes i).state ≡ true
        → (node_of g.nodes i).remaining_dependencies ≡ 0
    pub cut_off :
        (j i : ℕ)
        → has_failed (node_of g.nodes j).state ≡ true
        → contains (node_of g.nodes j).dependents i ≡ true
        → (is_terminal (node_of g.nodes i).state || contains doomed i) ≡ true

  -- The edges of a graph point to later nodes.
  abbrev pub IsForward : TaskGraph T → Type 0
  IsForward g = (j i : ℕ) → contains (node_of g.nodes j).dependents i ≡ true → j < i

  -- What a step of an operation leaves of the graph.
  pub record Extends (g h : TaskGraph T) : Type ℓ where
    pub same_length : length h.nodes ≡ length g.nodes
    pub same_dependents : (i : ℕ) → (node_of h.nodes i).dependents ≡ (node_of g.nodes i).dependents
    pub still_settled :
        (i : ℕ)
        → is_terminal (node_of g.nodes i).state ≡ true
        → (node_of h.nodes i).state ≡ (node_of g.nodes i).state
    pub same_bindings : h.bindings ≡ g.bindings
    pub fewer_open : total is_open h.nodes ≤ total is_open g.nodes
    pub never_due :
        (i : ℕ) → is_due (node_of g.nodes i) ≡ false → is_due (node_of h.nodes i) ≡ false

  pub IsForward-Extends : (g h : TaskGraph T) → IsForward g → Extends g h → IsForward h
  IsForward-Extends g h f on j i c = f j i (rw (← on.same_dependents j) c)

  pub Extends-refl : (g : TaskGraph T) → Extends g g
  Extends-refl g = record {
    same_length = refl;
    same_dependents = λ i. refl;
    still_settled = λ i h. refl;
    same_bindings = refl;
    fewer_open = omega arith;
    never_due = λ i h. h;
  }

  pub Extends-trans : (g h k : TaskGraph T) → Extends g h → Extends h k → Extends g k
  Extends-trans g h k a b = record {
    same_length = b.same_length ∙ a.same_length;
    same_dependents = λ i. b.same_dependents i ∙ a.same_dependents i;
    still_settled = λ i t. ground (arith, a.still_settled i, b.still_settled i);
    same_bindings = b.same_bindings ∙ a.same_bindings;
    fewer_open = omega arith;
    never_due = λ i d. b.never_due i (a.never_due i d);
  }

  -- The graph with one node rewritten.
  abbrev pub edited : TaskGraph T → ℕ → TaskNode T → ℕ → TaskGraph T
  edited g id n unresolved = record g { nodes = set g.nodes id n; unresolved = unresolved }

  -- A node may be rewritten as `n`, the lists of work going from `todo`, `doomed` to `todo'`,
  -- `doomed'`.
  pub record MayEdit (todo doomed todo' doomed' : List ℕ) (g : TaskGraph T) (id : ℕ)
      (n : TaskNode T) (unresolved : ℕ) : Type ℓ where
    pub exists : id < length g.nodes
    pub count : unresolved + is_open (node_of g.nodes id) ≡ g.unresolved + is_open n
    pub same_dependents : n.dependents ≡ (node_of g.nodes id).dependents
    pub final : is_terminal (node_of g.nodes id).state ≡ true → n.state ≡ (node_of g.nodes id).state
    pub waiters_kept : in_range g.nodes n.waiters ≡ true
    pub has_task : is_state n.state NodeState.pending ≡ true → is_some n.task ≡ true
    pub paid : has_started n.state ≡ true → n.remaining_dependencies ≡ 0
    pub not_due : is_due (node_of g.nodes id) ≡ false → is_due n ≡ false
    pub balance :
        (i : ℕ)
        → i < length g.nodes
        → (if nat_beq id i
              then n.remaining_dependencies
              else (node_of g.nodes i).remaining_dependencies)
            + owes i (node_of g.nodes id)
            + occurrences i todo
          ≡ (node_of g.nodes i).remaining_dependencies + owes i n + occurrences i todo'
    pub doom :
        (i : ℕ)
        → (contains doomed i ≡ true → contains doomed' i ≡ true)
          × (has_failed (node_of g.nodes id).state ≡ false
              → has_failed n.state ≡ true
              → contains n.dependents i ≡ true
              → contains doomed' i ≡ true)

  module _ {todo doomed todo' doomed' : List ℕ} (g : TaskGraph T) (id : ℕ) (n : TaskNode T)
      (unresolved : ℕ) (m : MayEdit todo doomed todo' doomed' g id n unresolved) where
    pub Extends-edited : unresolved ≤ g.unresolved → Extends g (edited g id n unresolved)
    Extends-edited fewer = record {
      same_length = length-set g.nodes id n;
      same_dependents = λ i. ground (arith, node_of-set g.nodes id n i);
      still_settled = λ i t. ground (arith, node_of-set g.nodes id n i);
      same_bindings = refl;
      fewer_open = omega (arith, total-set is_open g.nodes id n);
      never_due = λ i d. ground (arith, node_of-set g.nodes id n i);
    }

    pub edited-IsSound : IsSound todo doomed g → IsSound todo' doomed' (edited g id n unresolved)
    edited-IsSound s = record {
      counted = omega (arith, total-set is_open g.nodes id n);
      dependents_in_range = λ i.
          ground
            (arith, node_of-set g.nodes id n i, length-set g.nodes id n, s.dependents_in_range i);
      waiters_in_range = λ i.
          ground (arith, node_of-set g.nodes id n i, length-set g.nodes id n, s.waiters_in_range i);
      tasked = λ i p. ground (arith, node_of-set g.nodes id n i, s.tasked i);
      owed = λ i lt. ground (
        arith,
        node_of-set g.nodes id n i,
        length-set g.nodes id n,
        s.owed i,
        m.balance i,
        total-set (owes i) g.nodes id n,
      );
      unblocked = λ i p. ground (arith, node_of-set g.nodes id n i, s.unblocked i);
      cut_off = λ j i p c.
          ground (
            arith,
            node_of-set g.nodes id n i,
            node_of-set g.nodes id n j,
            s.cut_off j i,
            m.doom i,
          );
    }

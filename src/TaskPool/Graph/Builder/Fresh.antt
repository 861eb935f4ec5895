-- ===== src/TaskPool/Graph/Builder/Fresh.antt =====
-- task_pool/graph/builder.rs: the graph that `build_checked` returns.
use griffr.Common.{
  ℕ, zero, suc, ◌+◌, ◌<◌, ◌≡◌, refl, ◌∙◌, true, false, List, [], ◌∷◌, map, arith, ltb,
  if◌then◌else◌, is_some, nat_eq, length, total, text_eq, nat_order, text_order, flagged_eq,
  flagged_order,
}
use griffr.TaskPool.Graph.{NodeState, is_terminal, is_state, TaskNode, TaskGraph}
use griffr.TaskPool.Graph.Builder.{BuilderNode, pending_node, give_tasks, build_checked}
use griffr.TaskPool.Graph.Lookup.{node_of, dependents_beyond}
use griffr.TaskPool.Graph.Sound.{owes, is_open, in_range, IsSound, IsForward}
use griffr.TaskPool.Graph.Steps.{Returns}
use griffr.TaskPool.Graph.Builder.Build.{IsBuilder, dependency_count, LinksAll, link_nodes-LinksAll}

module _ {ℓ} {T : Type ℓ} where
  -- No node has been activated.
  pub record IsFresh (g : TaskGraph T) : Type ℓ where
    pub idle :
        (i : ℕ) → i < length g.nodes → is_state (node_of g.nodes i).state NodeState.pending ≡ true
    pub forward : IsForward g

  length-map_pending : (bs : List (BuilderNode T)) → length (map pending_node bs) ≡ length bs
  length-map_pending [] = refl
  length-map_pending (b ∷ bs) = omega (arith, length-map_pending bs)

  -- What `map pending_node` makes of the builder.
  record IsBlank (ns : List (TaskNode T)) (i : ℕ) : Type ℓ where
    unlinked : (node_of ns i).dependents ≡ []
    unwaited : (node_of ns i).waiters ≡ []
    unstarted :
        (node_of ns i).state
        ≡ (if ltb i (length ns) then NodeState.pending else NodeState.cancelled)

  map_pending-IsBlank : (bs : List (BuilderNode T)) (i : ℕ) → IsBlank (map pending_node bs) i
  unfolding node_of pending_node
  map_pending-IsBlank [] i = record { unlinked = refl; unwaited = refl; unstarted = ground arith }
  map_pending-IsBlank (b ∷ bs) zero = record {
    unlinked = refl;
    unwaited = refl;
    unstarted = ground arith;
  }
  map_pending-IsBlank (b ∷ bs) (suc i) =
      let rest = map_pending-IsBlank bs i in
      record {
        unlinked = rest.unlinked;
        unwaited = rest.unwaited;
        unstarted = ground (arith, rest.unstarted);
      }

  owes_blank : (bs : List (BuilderNode T)) (i : ℕ) → total (owes i) (map pending_node bs) ≡ 0
  unfolding pending_node
  owes_blank [] i = refl
  owes_blank (b ∷ bs) i = omega (arith, owes_blank bs i)

  dependency_count_before :
      (index : ℕ) (bs : List (BuilderNode T)) (i : ℕ) → i < index → dependency_count index bs i ≡ 0
  unfolding dependency_count
  dependency_count_before index [] i h = refl
  dependency_count_before index (b ∷ bs) i h =
      ground (arith, dependency_count_before (suc index) bs i)

  remaining_blank :
      (index : ℕ) (bs : List (BuilderNode T)) (k i : ℕ)
      → index + k ≡ i
      → (node_of (map pending_node bs) k).remaining_dependencies ≡ dependency_count index bs i
  unfolding node_of pending_node dependency_count
  remaining_blank index [] k i h = refl
  remaining_blank index (b ∷ bs) zero i h = ground (arith, dependency_count_before (suc index) bs i)
  remaining_blank index (b ∷ bs) (suc k) i h = ground (arith, remaining_blank (suc index) bs k i)

  -- The nodes with their tasks.
  record Tasked (ns : List (TaskNode T)) (bs : List (BuilderNode T)) (i : ℕ) : Type ℓ where
    given : i < length bs → is_some (node_of (give_tasks ns bs) i).task ≡ true
    same_state : (node_of (give_tasks ns bs) i).state ≡ (node_of ns i).state
    same_remaining :
        (node_of (give_tasks ns bs) i).remaining_dependencies
        ≡ (node_of ns i).remaining_dependencies
    same_dependents : (node_of (give_tasks ns bs) i).dependents ≡ (node_of ns i).dependents
    same_waiters : (node_of (give_tasks ns bs) i).waiters ≡ (node_of ns i).waiters

  give_tasks-Tasked :
      (ns : List (TaskNode T)) (bs : List (BuilderNode T)) (i : ℕ)
      → length ns ≡ length bs
      → Tasked ns bs i
  unfolding give_tasks node_of
  give_tasks-Tasked [] [] i h = record {
    given = λ lt. absurd (omega arith);
    same_state = refl;
    same_remaining = refl;
    same_dependents = refl;
    same_waiters = refl;
  }
  give_tasks-Tasked [] (b ∷ bs) i h = absurd (omega arith)
  give_tasks-Tasked (n ∷ ns) [] i h = absurd (omega arith)
  give_tasks-Tasked (n ∷ ns) (b ∷ bs) zero h = record {
    given = λ lt. refl;
    same_state = refl;
    same_remaining = refl;
    same_dependents = refl;
    same_waiters = refl;
  }
  give_tasks-Tasked (n ∷ ns) (b ∷ bs) (suc i) h =
      let rest = give_tasks-Tasked ns bs i (omega arith) in
      record {
        given = λ lt. rest.given (omega arith);
        same_state = rest.same_state;
        same_remaining = rest.same_remaining;
        same_dependents = rest.same_dependents;
        same_waiters = rest.same_waiters;
      }

  length-give_tasks :
      (ns : List (TaskNode T)) (bs : List (BuilderNode T)) → length (give_tasks ns bs) ≡ length ns
  unfolding give_tasks
  length-give_tasks [] bs = refl
  length-give_tasks (n ∷ ns) [] = refl
  length-give_tasks (n ∷ ns) (b ∷ bs) = omega (arith, length-give_tasks ns bs)

  owes-give_tasks :
      (ns : List (TaskNode T)) (bs : List (BuilderNode T)) (i : ℕ)
      → total (owes i) (give_tasks ns bs) ≡ total (owes i) ns
  unfolding give_tasks
  owes-give_tasks [] bs i = refl
  owes-give_tasks (n ∷ ns) [] i = refl
  owes-give_tasks (n ∷ ns) (b ∷ bs) i = omega (arith, owes-give_tasks ns bs i)

  -- A list of open nodes.
  total_open :
      (ns : List (TaskNode T))
      → ((i : ℕ) → i < length ns → is_terminal (node_of ns i).state ≡ false)
      → total is_open ns ≡ length ns
  unfolding node_of
  total_open [] h = refl
  total_open (n ∷ ns) h =
      ground (arith, h 0 (omega arith), total_open ns (λ i lt. h (suc i) (omega arith)))

  module _ (builder : List (BuilderNode T)) (ms : List (TaskNode T)) (v : IsBuilder builder)
      (a : LinksAll 0 builder (map pending_node builder) ms) where
    same_size : length ms ≡ length builder
    same_size = omega (arith, a.same.same_length, length-map_pending builder)

    fresh_state :
        (i : ℕ)
        → (node_of (give_tasks ms builder) i).state
          ≡ (if ltb i (length builder) then NodeState.pending else NodeState.cancelled)
    fresh_state i =
        (give_tasks-Tasked ms builder i same_size).same_state
        ∙ a.same.same_state i
        ∙ rw (← length-map_pending builder) ((map_pending-IsBlank builder i).unstarted)

    fresh_remaining :
        (i : ℕ)
        → (node_of (give_tasks ms builder) i).remaining_dependencies ≡ dependency_count 0 builder i
    fresh_remaining i =
        (give_tasks-Tasked ms builder i same_size).same_remaining
        ∙ a.same.same_remaining i
        ∙ remaining_blank 0 builder i i (omega arith)

    fresh_in_range :
        (i : ℕ)
        → in_range (give_tasks ms builder) (node_of (give_tasks ms builder) i).dependents ≡ true
    fresh_in_range i =
        rw
          (length-give_tasks ms builder, (give_tasks-Tasked ms builder i same_size).same_dependents)
          (a.still_in_range i (rw ((map_pending-IsBlank builder i).unlinked) refl))

    fresh_waiters : (i : ℕ) → (node_of (give_tasks ms builder) i).waiters ≡ []
    fresh_waiters i =
        (give_tasks-Tasked ms builder i same_size).same_waiters
        ∙ a.same.same_waiters i
        ∙ (map_pending-IsBlank builder i).unwaited

    all_open : total is_open (give_tasks ms builder) ≡ length (give_tasks ms builder)
    all_open =
        total_open (give_tasks ms builder)
          (λ i h. ground (arith, fresh_state i, length-give_tasks ms builder, same_size))

    abbrev fresh : TaskGraph T
    fresh = record {
      nodes = give_tasks ms builder;
      unresolved = length ms;
      dynamic_expansions = 0;
      bindings = [];
    }

    fresh-IsSound : IsSound [] [] fresh
    fresh-IsSound = record {
      counted = omega (arith, all_open, length-give_tasks ms builder);
      dependents_in_range = fresh_in_range;
      waiters_in_range = λ i. rw (fresh_waiters i) refl;
      tasked =
          λ i p. ground (arith, fresh_state i, (give_tasks-Tasked ms builder i same_size).given);
      owed = λ i h. omega (
        arith,
        fresh_remaining i,
        owes-give_tasks ms builder i,
        a.more_owed i,
        owes_blank builder i,
      );
      unblocked = λ i p. ground (arith, fresh_state i);
      cut_off = λ j i p c. absurd (
          ground (
            arith,
            fresh_state j,
            length-give_tasks ms builder,
            same_size,
            dependents_beyond (give_tasks ms builder) j,
          ));
    }

    fresh-IsFresh : IsFresh fresh
    fresh-IsFresh = record {
      idle = λ i h. ground (arith, fresh_state i, length-give_tasks ms builder, same_size);
      forward = λ j i. rw ((give_tasks-Tasked ms builder j same_size).same_dependents) (
          a.forward (λ k l c. absurd (ground (arith, (map_pending-IsBlank builder k).unlinked))) j
            i);
    }

  -- A builder's graph is sound, and no node of it has been activated.
  pub build_checked-IsFresh :
      (builder : List (BuilderNode T))
      → IsBuilder builder
      → Returns
          (build_checked builder)
          (λ g. IsSound [] [] g × IsFresh g × (length g.nodes ≡ length builder))
  unfolding build_checked
  build_checked-IsFresh builder v =
      let (ms, e, a) =
        link_nodes-LinksAll 0 builder (map pending_node builder) v.backward
          (omega (arith, length-map_pending builder))
          (omega (arith, length-map_pending builder, v.within))
          (λ i. ground (arith, (map_pending-IsBlank builder i).unstarted)) in
      rw e (
        fresh builder ms v a,
        refl,
        (
          fresh-IsSound builder ms v a,
          fresh-IsFresh builder ms v a,
          omega (arith, length-give_tasks ms builder, same_size builder ms v a),
        ),
      )

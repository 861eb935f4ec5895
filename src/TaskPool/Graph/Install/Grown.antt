-- ===== src/TaskPool/Graph/Install/Grown.antt =====
-- task_pool/graph/exec/node_exec.rs: the graph with the nodes of an expansion appended.
use griffr.Common.{
  ℕ, zero, suc, ◌+◌, ◌-◌, ◌≤◌, ◌<◌, ◌≡◌, refl, inl, inr, Bool, true, ◌&&◌, List, [], ◌∷◌, ◌++◌, map,
  arith, ltb, nat_beq, if◌then◌else◌, Bool-cases, is_some, nat_eq, length, total, contains,
  occurrences, any-member, text_eq, nat_order, text_order, flagged_eq, flagged_order,
}
use griffr.TaskPool.Graph.{NodeState, is_state, TaskNode}
use griffr.TaskPool.Graph.Expansion.{ExpansionNode}
use griffr.TaskPool.Graph.Resolve.{has_failed}
use griffr.TaskPool.Graph.Install.{new_node, new_nodes}
use griffr.TaskPool.Graph.Lookup.{node_of}
use griffr.TaskPool.Graph.Sound.{owes, is_open}
use griffr.TaskPool.Graph.Builder.Build.{all_below, below_member}
use griffr.TaskPool.Graph.Resolve.Inversion.{AllBackward, any_failed}
use griffr.TaskPool.Graph.Install.Appended.{linked, owed_of, count_owed-owed_of, owed_count}

-- The blocked nodes, counted from `id`.
abbrev pub doomed_from : ℕ → List Bool → List ℕ
doomed_from id [] = []
doomed_from id (b ∷ bs) = let rest = doomed_from (suc id) bs in if b then id ∷ rest else rest

occurrences_beyond :
    (bound i : ℕ) (ds : List ℕ) → all_below bound ds ≡ true → bound ≤ i → occurrences i ds ≡ 0
occurrences_beyond bound i [] h le = refl
occurrences_beyond bound i (d ∷ ds) h le = ground (arith, occurrences_beyond bound i ds)

pub linked_forward :
    (id : ℕ) (dss : List (List ℕ)) (j i : ℕ) → AllBackward id dss → linked id dss j i ≡ true → j < i
unfolding linked
linked_forward id [] j i b h = cc
linked_forward id (ds ∷ dss) j i b h =
    ground (arith, below_member id ds j b.0, linked_forward (suc id) dss j i b.1)

module _ {ℓ} {T : Type ℓ} where
  pub node_of-append :
      (ns ms : List (TaskNode T)) (i : ℕ)
      → node_of (ns ++ ms) i
        ≡ (if ltb i (length ns) then node_of ns i else node_of ms (i - length ns))
  unfolding node_of
  node_of-append [] ms i = ground arith
  node_of-append (n ∷ ns) ms zero = ground arith
  node_of-append (n ∷ ns) ms (suc i) = ground (arith, node_of-append ns ms i)

  pub total_open-SameFields :
      (ns ms : List (TaskNode T))
      → length ms ≡ length ns
      → ((i : ℕ) → (node_of ms i).state ≡ (node_of ns i).state)
      → total is_open ms ≡ total is_open ns
  unfolding node_of
  total_open-SameFields [] [] h s = refl
  total_open-SameFields [] (m ∷ ms) h s = absurd (omega arith)
  total_open-SameFields (n ∷ ns) [] h s = absurd (omega arith)
  total_open-SameFields (n ∷ ns) (m ∷ ms) h s =
      ground (arith, s 0, total_open-SameFields ns ms (omega arith) (λ i. s (suc i)))

  -- What `new_nodes` makes.
  pub record IsNew (ns : List (TaskNode T)) (i : ℕ) : Type ℓ where
    pub unlinked : (node_of ns i).dependents ≡ []
    pub unwaited : (node_of ns i).waiters ≡ []
    pub unstarted :
        (node_of ns i).state
        ≡ (if ltb i (length ns) then NodeState.pending else NodeState.cancelled)
    pub given :
        is_state (node_of ns i).state NodeState.pending ≡ true → is_some (node_of ns i).task ≡ true

  module _ (nodes : List (TaskNode T)) (base : ℕ) where
    pub new_nodes-IsNew :
        (dss : List (List ℕ)) (xs : List (ExpansionNode T)) (i : ℕ)
        → IsNew (new_nodes nodes base dss xs) i
    unfolding new_nodes new_node node_of
    new_nodes-IsNew [] xs i = record {
      unlinked = refl;
      unwaited = refl;
      unstarted = ground arith;
      given = λ p. cc;
    }
    new_nodes-IsNew (ds ∷ dss) [] i = record {
      unlinked = refl;
      unwaited = refl;
      unstarted = ground arith;
      given = λ p. cc;
    }
    new_nodes-IsNew (ds ∷ dss) (x ∷ xs) zero = record {
      unlinked = refl;
      unwaited = refl;
      unstarted = ground arith;
      given = λ p. refl;
    }
    new_nodes-IsNew (ds ∷ dss) (x ∷ xs) (suc i) =
        let rest = new_nodes-IsNew dss xs i in
        record {
          unlinked = rest.unlinked;
          unwaited = rest.unwaited;
          unstarted = ground (arith, rest.unstarted);
          given = rest.given;
        }

    pub length-new_nodes :
        (dss : List (List ℕ)) (xs : List (ExpansionNode T))
        → length dss ≡ length xs
        → length (new_nodes nodes base dss xs) ≡ length xs
    unfolding new_nodes
    length-new_nodes [] [] h = refl
    length-new_nodes [] (x ∷ xs) h = omega arith
    length-new_nodes (ds ∷ dss) [] h = omega arith
    length-new_nodes (ds ∷ dss) (x ∷ xs) h = omega (arith, length-new_nodes dss xs)

    pub new_nodes_open :
        (dss : List (List ℕ)) (xs : List (ExpansionNode T))
        → length dss ≡ length xs
        → total is_open (new_nodes nodes base dss xs) ≡ length xs
    unfolding new_nodes new_node
    new_nodes_open [] [] h = refl
    new_nodes_open [] (x ∷ xs) h = omega arith
    new_nodes_open (ds ∷ dss) [] h = omega arith
    new_nodes_open (ds ∷ dss) (x ∷ xs) h = omega (arith, new_nodes_open dss xs)

    pub new_nodes_owe :
        (dss : List (List ℕ)) (xs : List (ExpansionNode T)) (i : ℕ)
        → total (owes i) (new_nodes nodes base dss xs) ≡ 0
    unfolding new_nodes new_node
    new_nodes_owe [] xs i = refl
    new_nodes_owe (ds ∷ dss) [] i = refl
    new_nodes_owe (ds ∷ dss) (x ∷ xs) i = omega (arith, new_nodes_owe dss xs i)

    pub owed_count_before :
        (id : ℕ) (dss : List (List ℕ)) (i : ℕ) → i < id → owed_count base nodes id dss i ≡ 0
    unfolding owed_count
    owed_count_before id [] i h = refl
    owed_count_before id (ds ∷ dss) i h = ground (arith, owed_count_before (suc id) dss i)

    pub new_nodes_remaining :
        (id : ℕ) (dss : List (List ℕ)) (xs : List (ExpansionNode T)) (k i : ℕ)
        → length dss ≡ length xs
        → id + k ≡ i
        → (node_of (new_nodes nodes base dss xs) k).remaining_dependencies
          ≡ owed_count base nodes id dss i
    unfolding new_nodes new_node node_of owed_count
    new_nodes_remaining id [] [] k i h e = refl
    new_nodes_remaining id [] (x ∷ xs) k i h e = omega arith
    new_nodes_remaining id (ds ∷ dss) [] k i h e = omega arith
    new_nodes_remaining id (ds ∷ dss) (x ∷ xs) zero i h e =
        ground (arith, count_owed-owed_of base nodes ds, owed_count_before (suc id) dss i)
    new_nodes_remaining id (ds ∷ dss) (x ∷ xs) (suc k) i h e =
        ground (arith, new_nodes_remaining (suc id) dss xs k i)

  -- Only the states of the nodes before `base` decide what is owed.
  owed_of_agree :
      (base : ℕ) (ns ms : List (TaskNode T)) (ds : List ℕ)
      → ((d : ℕ) → d < base → (node_of ms d).state ≡ (node_of ns d).state)
      → owed_of base ms ds ≡ owed_of base ns ds
  unfolding owed_of
  owed_of_agree base ns ms [] s = refl
  owed_of_agree base ns ms (d ∷ ds) s = ground (arith, s d, owed_of_agree base ns ms ds s)

  pub owed_count_agree :
      (base : ℕ) (ns ms : List (TaskNode T)) (id : ℕ) (dss : List (List ℕ)) (i : ℕ)
      → ((d : ℕ) → d < base → (node_of ms d).state ≡ (node_of ns d).state)
      → owed_count base ms id dss i ≡ owed_count base ns id dss i
  unfolding owed_count
  owed_count_agree base ns ms id [] i s = refl
  owed_count_agree base ns ms id (ds ∷ dss) i s =
      rw (owed_of_agree base ns ms ds s, owed_count_agree base ns ms (suc id) dss i s)

  -- Nothing is owed to a node out of range.
  pub owes_beyond :
      (ns : List (TaskNode T)) (bound i : ℕ)
      → ((j : ℕ) → all_below bound (node_of ns j).dependents ≡ true)
      → bound ≤ i
      → total (owes i) ns ≡ 0
  unfolding node_of
  owes_beyond [] bound i h le = refl
  owes_beyond (n ∷ ns) bound i h le = ground (
    arith,
    h 0,
    occurrences_beyond bound i n.dependents,
    owes_beyond ns bound i (λ j. h (suc j)) le,
  )

  -- A blocked node has a dependency that has failed.
  pub linked_doomed :
      (ns : List (TaskNode T)) (id : ℕ) (dss : List (List ℕ)) (j i : ℕ)
      → linked id dss j i ≡ true
      → j < length ns
      → has_failed (node_of ns j).state ≡ true
      → contains (doomed_from id (map (any_failed ns) dss)) i ≡ true
  unfolding linked
  linked_doomed ns id [] j i l h f = cc
  linked_doomed ns id (ds ∷ dss) j i l h f = elim (Bool-cases (any_failed ns ds)) [
    | inl some_failed ↦ rw some_failed (ground (arith, linked_doomed ns (suc id) dss j i))
    | inr none_failed ↦ rw none_failed (
        ground (
          arith,
          linked_doomed ns (suc id) dss j i,
          any-member (λ d. ltb d (length ns) && has_failed (node_of ns d).state) ds j,
        ))
  ]

  any_failed_member :
      (ns : List (TaskNode T)) (ds : List ℕ)
      → any_failed ns ds ≡ true
      → (j : ℕ) × (contains ds j ≡ true)
        × (j < length ns)
        × (has_failed (node_of ns j).state ≡ true)
  any_failed_member ns [] h = cc
  any_failed_member ns (d ∷ ds) h =
      elim (Bool-cases (ltb d (length ns) && has_failed (node_of ns d).state)) [
        | inl first ↦ (d, ground arith, ground arith, ground arith)
        | inr later ↦
            let (j, c, lt, f) = any_failed_member ns ds (ground arith) in (j, ground arith, lt, f)
      ]

  pub doomed_linked :
      (ns : List (TaskNode T)) (id : ℕ) (dss : List (List ℕ)) (i : ℕ)
      → contains (doomed_from id (map (any_failed ns) dss)) i ≡ true
      → (j : ℕ) × (linked id dss j i ≡ true)
        × (j < length ns)
        × (has_failed (node_of ns j).state ≡ true)
  unfolding linked
  doomed_linked ns id [] i h = cc
  doomed_linked ns id (ds ∷ dss) i h = elim (Bool-cases (any_failed ns ds && nat_beq i id)) [
    | inl here ↦
        let (j, c, lt, f) = any_failed_member ns ds (ground arith) in (j, ground arith, lt, f)
    | inr there ↦
        let (j, l, lt, f) = doomed_linked ns (suc id) dss i (ground arith) in
        (j, ground arith, lt, f)
  ]

-- ===== src/TaskPool/Graph/Install/Appended.antt =====
-- task_pool/graph/exec/node_exec.rs: the edges from the dependencies of the new nodes.
use griffr.Common.{
  ℕ, zero, suc, ◌+◌, ◌≤◌, ◌≡◌, refl, ap, inl, inr, Bool, true, false, ◌&&◌, ◌||◌, not, none, some,
  List, [], ◌∷◌, arith, leb, nat_beq, if◌then◌else◌, nat_beq_iff, Bool-cases, nat_eq, length,
  get_elem?, total, contains, text_eq, nat_order, text_order, flagged_eq, flagged_order,
}
use griffr.TaskPool.Graph.{NodeState, is_state, TaskNode}
use griffr.TaskPool.Graph.Resolve.{is_owed, count_owed}
use griffr.TaskPool.Graph.Install.{link_owed, link_all}
use griffr.TaskPool.Graph.Lookup.{node_of}
use griffr.TaskPool.Graph.Sound.{owes, in_range}
use griffr.TaskPool.Graph.Steps.{Returns}
use griffr.TaskPool.Graph.Builder.Links.{
  SameFields, Links, SameFields-trans, Links-refl, push_dependent-Links, Links-trans,
}
use griffr.TaskPool.Graph.Builder.Build.{all_below, below_weaken}
use griffr.TaskPool.Graph.Resolve.Inversion.{AllBackward}

-- The node `i`, counted from `id`, has `j` among its dependencies.
unfoldable pub linked : ℕ → List (List ℕ) → ℕ → ℕ → Bool
linked id [] j i = false
linked id (ds ∷ dss) j i = (contains ds j && nat_beq i id) || linked (suc id) dss j i

owed_test {ℓ} :
    {T : Type ℓ} (ns : List (TaskNode T)) (d : ℕ)
    → elim (get_elem? ns d) [ none ↦ true | some n ↦ not (is_state n.state NodeState.succeeded) ]
      ≡ not (is_state (node_of ns d).state NodeState.succeeded)
unfolding node_of
owed_test [] d = refl
owed_test (n ∷ ns) zero = refl
owed_test (n ∷ ns) (suc d) = owed_test ns d

module _ {ℓ} {T : Type ℓ} (base : ℕ) where
  abbrev pub waits_for : List (TaskNode T) → ℕ → Bool
  waits_for ns d = leb base d || not (is_state (node_of ns d).state NodeState.succeeded)

  is_owed_lem : (ns : List (TaskNode T)) (d : ℕ) → is_owed ns base d ≡ waits_for ns d
  unfolding is_owed
  is_owed_lem ns d = ap (λ (b : Bool). leb base d || b) (owed_test ns d)

  -- The dependencies that are still to be waited for.
  unfoldable pub owed_of : List (TaskNode T) → List ℕ → List ℕ
  owed_of ns [] = []
  owed_of ns (d ∷ ds) = let rest = owed_of ns ds in if waits_for ns d then d ∷ rest else rest

  pub count_owed-owed_of :
      (ns : List (TaskNode T)) (ds : List ℕ) → count_owed ns base ds ≡ length (owed_of ns ds)
  unfolding count_owed owed_of
  count_owed-owed_of ns [] = refl
  count_owed-owed_of ns (d ∷ ds) = ground (arith, is_owed_lem ns d, count_owed-owed_of ns ds)

  owed_of-SameFields :
      (ns ms : List (TaskNode T)) (ds : List ℕ) → SameFields ns ms → owed_of ms ds ≡ owed_of ns ds
  unfolding owed_of
  owed_of-SameFields ns ms [] s = refl
  owed_of-SameFields ns ms (d ∷ ds) s =
      ground (arith, s.same_state d, owed_of-SameFields ns ms ds s)

  contains-owed_of :
      (ns : List (TaskNode T)) (ds : List ℕ) (j : ℕ)
      → contains (owed_of ns ds) j ≡ true
      → contains ds j ≡ true
  unfolding owed_of
  contains-owed_of ns [] j h = h
  contains-owed_of ns (d ∷ ds) j h = ground (arith, contains-owed_of ns ds j)

  owed_of_complete :
      (ns : List (TaskNode T)) (ds : List ℕ) (j : ℕ)
      → contains ds j ≡ true
      → waits_for ns j ≡ true
      → contains (owed_of ns ds) j ≡ true
  unfolding owed_of
  owed_of_complete ns [] j h k = h
  owed_of_complete ns (d ∷ ds) j h k = ground (arith, nat_beq_iff j d, owed_of_complete ns ds j)

  -- The nodes from `base` on have not succeeded.
  abbrev pub NewOpen : List (TaskNode T) → Type 0
  NewOpen ns = (i : ℕ) → base ≤ i → is_state (node_of ns i).state NodeState.succeeded ≡ false

  link_owed-Links :
      (id : ℕ) (ds : List ℕ) (ns : List (TaskNode T))
      → all_below (length ns) ds ≡ true
      → NewOpen ns
      → Returns (link_owed base id ds ns) (Links id (owed_of ns ds) ns)
  unfolding link_owed owed_of
  link_owed-Links id [] ns b o = (ns, refl, Links-refl id ns)
  link_owed-Links id (d ∷ ds) ns b o = elim (Bool-cases (waits_for ns d)) [
    | inr paid ↦ rw (is_owed_lem ns d, paid) (link_owed-Links id ds ns (ground arith) o)
    | inl owed ↦
        let (ms, e, a) = push_dependent-Links id d ns (ground arith) (ground (arith, o d)) in
        let (ks, e', c) =
          link_owed-Links id ds ms (rw (a.same.same_length) (ground arith))
            (λ i h. rw (a.same.same_state i) (o i h)) in
        rw (is_owed_lem ns d, owed, e)
          (
            ks,
            e',
            Links-trans id (d ∷ []) (owed_of ns ds) ns ms ks a
                (rw (← owed_of-SameFields ns ms ds a.same) c),
          )
  ]

  -- How many dependencies the node `i` waits for, the new nodes counted from `id`.
  unfoldable pub owed_count : List (TaskNode T) → ℕ → List (List ℕ) → ℕ → ℕ
  owed_count ns id [] i = 0
  owed_count ns id (ds ∷ dss) i =
      (if nat_beq id i then length (owed_of ns ds) else 0) + owed_count ns (suc id) dss i

  owed_count-SameFields :
      (ns ms : List (TaskNode T)) (id : ℕ) (dss : List (List ℕ)) (i : ℕ)
      → SameFields ns ms
      → owed_count ms id dss i ≡ owed_count ns id dss i
  unfolding owed_count
  owed_count-SameFields ns ms id [] i s = refl
  owed_count-SameFields ns ms id (ds ∷ dss) i s =
      rw (owed_of-SameFields ns ms ds s, owed_count-SameFields ns ms (suc id) dss i s)

  pub record LinksOwed (id : ℕ) (dss : List (List ℕ)) (ns ms : List (TaskNode T)) : Type ℓ where
    pub same : SameFields ns ms
    pub more_owed : (i : ℕ) → total (owes i) ms ≡ total (owes i) ns + owed_count ns id dss i
    pub new_edges :
        (j i : ℕ)
        → contains (node_of ms j).dependents i ≡ true
        → (contains (node_of ns j).dependents i || linked id dss j i) ≡ true
    pub made_edges :
        (j i : ℕ)
        → linked id dss j i ≡ true
        → waits_for ns j ≡ true
        → contains (node_of ms j).dependents i ≡ true
    pub same_edges :
        (j i : ℕ)
        → contains (node_of ns j).dependents i ≡ true
        → contains (node_of ms j).dependents i ≡ true
    pub still_in_range :
        (j : ℕ)
        → in_range ns (node_of ns j).dependents ≡ true
        → in_range ms (node_of ms j).dependents ≡ true

  pub link_all-LinksOwed :
      (id : ℕ) (dss : List (List ℕ)) (ns : List (TaskNode T))
      → AllBackward id dss
      → id + length dss ≤ length ns
      → NewOpen ns
      → Returns (link_all base id dss ns) (LinksOwed id dss ns)
  unfolding link_all owed_count linked
  link_all-LinksOwed id [] ns b h o = (
    ns,
    refl,
    record {
      same = (Links-refl 0 ns).same;
      more_owed = λ i. omega arith;
      new_edges = λ j i c. ground arith;
      made_edges = λ j i c. absurd (ground arith);
      same_edges = λ j i c. c;
      still_in_range = λ j r. r;
    },
  )
  link_all-LinksOwed id (ds ∷ dss) ns b h o =
      let (ms, e, a) =
        link_owed-Links id ds ns (below_weaken id (length ns) ds (omega arith) b.0) o in
      let (ks, e', c) =
        link_all-LinksOwed (suc id) dss ms b.1 (omega (arith, a.same.same_length))
          (λ i k. rw (a.same.same_state i) (o i k)) in
      rw e (
        ks,
        e',
        record {
          same = SameFields-trans ns ms ks a.same c.same;
          more_owed = λ i. omega (
            arith,
            a.more_owed i,
            c.more_owed i,
            owed_count-SameFields ns ms (suc id) dss i a.same,
          );
          new_edges =
              λ j i m. ground (arith, a.edges j i, c.new_edges j i m, contains-owed_of ns ds j);
          made_edges = λ j i m k. ground (
            arith,
            a.edges j i,
            a.same.same_state j,
            c.made_edges j i,
            c.same_edges j i,
            owed_of_complete ns ds j,
          );
          same_edges = λ j i m. c.same_edges j i (ground (arith, a.edges j i));
          still_in_range = λ j r. c.still_in_range j (a.still_in_range j (omega arith) r);
        },
      )

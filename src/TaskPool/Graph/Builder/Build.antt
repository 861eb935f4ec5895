-- ===== src/TaskPool/Graph/Builder/Build.antt =====
-- task_pool/graph/builder.rs: `add_task` and `build_checked`.
use griffr.Common.{
  ℕ, suc, ◌+◌, ◌≤◌, ◌<◌, ◌≡◌, refl, subst, inl, inr, Bool, true, false, none, List, [], ◌∷◌, ◌++◌,
  arith, ltb, nat_beq, if◌then◌else◌, Bool-cases, Option-cases, nat_eq, length, all, total,
  length-append, contains, text_eq, nat_order, text_order, flagged_eq, flagged_order, ordered_set,
}
use griffr.TaskPool.Graph.{node_limit, ok, new_node_id, NodeState, is_state, TaskNode}
use griffr.TaskPool.Graph.Builder.{BuilderNode, first_unknown, add_task, link_nodes}
use griffr.TaskPool.Graph.Lookup.{node_of}
use griffr.TaskPool.Graph.Sound.{owes, in_range}
use griffr.TaskPool.Graph.Steps.{Returns}
use griffr.TaskPool.Graph.Builder.Links.{
  SameFields, SameFields-trans, Links-refl, may_link, push_dependents-Links,
}

abbrev pub all_below : ℕ → List ℕ → Bool
all_below index ds = all (λ d. ltb d index) ds

pub below_weaken : (a b : ℕ) (ds : List ℕ) → a ≤ b → all_below a ds ≡ true → all_below b ds ≡ true
below_weaken a b [] h k = refl
below_weaken a b (d ∷ ds) h k = ground (arith, below_weaken a b ds)

all_below_of_first_unknown :
    (count : ℕ) (ds : List ℕ) → first_unknown count ds ≡ none → all_below count ds ≡ true
unfolding first_unknown
all_below_of_first_unknown count [] h = refl
all_below_of_first_unknown count (d ∷ ds) h = ground (arith, all_below_of_first_unknown count ds)

pub below_member :
    (index : ℕ) (ds : List ℕ) (d : ℕ) → all_below index ds ≡ true → contains ds d ≡ true → d < index
below_member index [] d h c = cc
below_member index (e ∷ ds) d h c = ground (arith, below_member index ds d)

module _ {ℓ} {T : Type ℓ} where
  -- From the index on, each node depends on nodes before it.
  abbrev pub Backward : ℕ → List (BuilderNode T) → Type 0
  Backward index [] = Unit
  Backward index (b ∷ bs) = (all_below index b.dependencies ≡ true) × Backward (suc index) bs

  pub record IsBuilder (nodes : List (BuilderNode T)) : Type ℓ where
    pub backward : Backward 0 nodes
    pub within : length nodes ≤ node_limit

  Backward-append :
      (index : ℕ) (bs : List (BuilderNode T)) (b : BuilderNode T)
      → Backward index bs
      → all_below (index + length bs) b.dependencies ≡ true
      → Backward index (bs ++ b ∷ [])
  Backward-append index [] b h k =
      (subst (λ n. all_below n b.dependencies ≡ true) (omega arith) k, tt)
  Backward-append index (c ∷ cs) b h k = (
    h.0,
    Backward-append (suc index) cs b h.1
        (subst (λ n. all_below n b.dependencies ≡ true) (omega arith) k),
  )

  -- A builder that `add_task` returns has the new node at its end, and its edges point backward.
  pub add_task-IsBuilder :
      (nodes : List (BuilderNode T)) (task : T) (dependencies : List ℕ)
      {r : List (BuilderNode T) × ℕ}
      → IsBuilder nodes
      → add_task nodes task dependencies ≡ ok r
      → IsBuilder r.0
        × (r.1 ≡ length nodes)
        × (r.0 ≡ nodes ++ (record { task = task; dependencies = ordered_set dependencies }) ∷ [])
  unfolding add_task new_node_id
  add_task-IsBuilder nodes task dependencies {r} v h =
      elim (Bool-cases (ltb (length nodes) node_limit)) [
        | inr full ↦ absurd (ground (arith, h))
        | inl room ↦ elim (Option-cases (first_unknown (length nodes) (ordered_set dependencies))) [
          | inr (d, e) ↦ absurd (ground (arith, h))
          | inl known ↦
              let node : BuilderNode T = record {
                task = task;
                dependencies = ordered_set dependencies;
              } in
              let same : ◌≡◌ {A = List (BuilderNode T) × ℕ} (nodes ++ node ∷ [], length nodes) r =
                ground (arith, h) in
              subst
                (λ (q : List (BuilderNode T) × ℕ).
                  IsBuilder q.0 × (q.1 ≡ length nodes) × (q.0 ≡ nodes ++ node ∷ []))
                same
                (
                  record {
                    backward = Backward-append 0 nodes node v.backward (
                        subst (λ n. all_below n (ordered_set dependencies) ≡ true) (omega arith)
                          (all_below_of_first_unknown (length nodes) (ordered_set dependencies)
                            known));
                    within = ground (arith, length-append nodes (node ∷ []));
                  },
                  refl,
                  refl,
                )
        ]
      ]

  -- How many dependencies the node `i` of the builder has, its nodes counted from `index`.
  unfoldable pub dependency_count : ℕ → List (BuilderNode T) → ℕ → ℕ
  dependency_count index [] i = 0
  dependency_count index (b ∷ bs) i =
      (if nat_beq index i then length b.dependencies else 0) + dependency_count (suc index) bs i

  pub record LinksAll (index : ℕ) (bs : List (BuilderNode T)) (ns ms : List (TaskNode T))
      : Type ℓ where
    pub same : SameFields ns ms
    pub more_owed : (i : ℕ) → total (owes i) ms ≡ total (owes i) ns + dependency_count index bs i
    pub forward :
        ((j i : ℕ) → contains (node_of ns j).dependents i ≡ true → j < i)
        → (j i : ℕ) → contains (node_of ms j).dependents i ≡ true
        → j < i
    pub still_in_range :
        (j : ℕ)
        → in_range ns (node_of ns j).dependents ≡ true
        → in_range ms (node_of ms j).dependents ≡ true

  may_link_below :
      (index : ℕ) (ns : List (TaskNode T)) (ds : List ℕ)
      → index ≤ length ns
      → ((i : ℕ) → is_state (node_of ns i).state NodeState.succeeded ≡ false)
      → all_below index ds ≡ true
      → may_link ns ds ≡ true
  may_link_below index ns [] h o b = refl
  may_link_below index ns (d ∷ ds) h o b = ground (arith, o d, may_link_below index ns ds h o)

  pub link_nodes-LinksAll :
      (index : ℕ) (bs : List (BuilderNode T)) (ns : List (TaskNode T))
      → Backward index bs
      → index + length bs ≡ length ns
      → length ns ≤ node_limit
      → ((i : ℕ) → is_state (node_of ns i).state NodeState.succeeded ≡ false)
      → Returns (link_nodes index bs ns) (LinksAll index bs ns)
  unfolding link_nodes new_node_id dependency_count
  link_nodes-LinksAll index [] ns b h lim o = (
    ns,
    refl,
    record {
      same = (Links-refl 0 ns).same;
      more_owed = λ i. omega arith;
      forward = λ f. f;
      still_in_range = λ j r. r;
    },
  )
  link_nodes-LinksAll index (b ∷ bs) ns back h lim o =
      let room : ltb index node_limit ≡ true = ground arith in
      let (ms, e, a) =
        push_dependents-Links index b.dependencies ns
          (may_link_below index ns b.dependencies (omega arith) o back.0) in
      let (ks, e', c) =
        link_nodes-LinksAll (suc index) bs ms back.1 (omega (arith, a.same.same_length))
          (omega (arith, a.same.same_length)) (λ i. rw (a.same.same_state i) (o i)) in
      rw (room, e)
        (
          ks,
          e',
          record {
            same = SameFields-trans ns ms ks a.same c.same;
            more_owed = λ i. ground (arith, a.more_owed i, c.more_owed i);
            forward = λ f. c.forward (λ j i m.
                ground (arith, a.edges j i, f j i, below_member index b.dependencies j back.0));
            still_in_range = λ j r. c.still_in_range j (a.still_in_range j (omega arith) r);
          },
        )

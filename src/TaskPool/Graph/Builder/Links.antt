-- ===== src/TaskPool/Graph/Builder/Links.antt =====
-- task_pool/graph/builder.rs and graph/exec/node_exec.rs: the edges that are pushed for a node.
use griffr.Common.{
  ℕ, ◌+◌, ◌<◌, ◌≡◌, refl, ◌∙◌, Bool, true, false, ◌&&◌, ◌||◌, not, List, [], ◌∷◌, ◌++◌, arith, ltb,
  nat_beq, if◌then◌else◌, nat_eq, length, set, all, length-set, total, length-append, all-append,
  contains, contains-append, occurrences-append, text_eq, nat_order, text_order, flagged_eq,
  flagged_order,
}
use griffr.TaskPool.Graph.{NodeState, is_state, TaskNode}
use griffr.TaskPool.Graph.Builder.{push_dependent, push_dependents}
use griffr.TaskPool.Graph.Lookup.{node_of, node_of-set, total-set}
use griffr.TaskPool.Graph.Sound.{owes, in_range}
use griffr.TaskPool.Graph.Steps.{Returns, node_at-node_of}

module _ {ℓ} {T : Type ℓ} where
  -- The lists differ in the dependents of their nodes only.
  pub record SameFields (ns ms : List (TaskNode T)) : Type ℓ where
    pub same_length : length ms ≡ length ns
    pub same_state : (i : ℕ) → (node_of ms i).state ≡ (node_of ns i).state
    pub same_remaining :
        (i : ℕ) → (node_of ms i).remaining_dependencies ≡ (node_of ns i).remaining_dependencies
    pub same_waiters : (i : ℕ) → (node_of ms i).waiters ≡ (node_of ns i).waiters
    pub same_task : (i : ℕ) → (node_of ms i).task ≡ (node_of ns i).task

  -- The edges from `ds` to `id` are new.
  pub record Links (id : ℕ) (ds : List ℕ) (ns ms : List (TaskNode T)) : Type ℓ where
    pub same : SameFields ns ms
    pub more_owed :
        (i : ℕ) → total (owes i) ms ≡ total (owes i) ns + (if nat_beq id i then length ds else 0)
    pub edges :
        (j i : ℕ)
        → contains (node_of ms j).dependents i
          ≡ (contains (node_of ns j).dependents i || (contains ds j && nat_beq i id))
    pub still_in_range :
        (j : ℕ)
        → id < length ns
        → in_range ns (node_of ns j).dependents ≡ true
        → in_range ms (node_of ms j).dependents ≡ true

  pub SameFields-trans :
      (ns ms ks : List (TaskNode T)) → SameFields ns ms → SameFields ms ks → SameFields ns ks
  SameFields-trans ns ms ks a b = record {
    same_length = b.same_length ∙ a.same_length;
    same_state = λ i. b.same_state i ∙ a.same_state i;
    same_remaining = λ i. b.same_remaining i ∙ a.same_remaining i;
    same_waiters = λ i. b.same_waiters i ∙ a.same_waiters i;
    same_task = λ i. b.same_task i ∙ a.same_task i;
  }

  pub Links-refl : (id : ℕ) (ns : List (TaskNode T)) → Links id [] ns ns
  Links-refl id ns = record {
    same = record {
      same_length = refl;
      same_state = λ i. refl;
      same_remaining = λ i. refl;
      same_waiters = λ i. refl;
      same_task = λ i. refl;
    };
    more_owed = λ i. ground arith;
    edges = λ j i. ground arith;
    still_in_range = λ j h r. r;
  }

  -- An edge may be pushed while the source has not succeeded.
  abbrev pub may_link : List (TaskNode T) → List ℕ → Bool
  may_link ns ds =
      all (λ d. ltb d (length ns) && not (is_state (node_of ns d).state NodeState.succeeded)) ds

  pub push_dependent-Links :
      (id d : ℕ) (ns : List (TaskNode T))
      → d < length ns
      → is_state (node_of ns d).state NodeState.succeeded ≡ false
      → Returns (push_dependent id ns d) (Links id (d ∷ []) ns)
  unfolding push_dependent
  push_dependent-Links id d ns h o =
      let n = node_of ns d in
      let n' : TaskNode T = record n { dependents = n.dependents ++ id ∷ [] } in
      let at = λ (i : ℕ). node_of-set ns d n' i h in
      rw (node_at-node_of ns d h) (
        set ns d n',
        refl,
        record {
          same = record {
            same_length = length-set ns d n';
            same_state = λ i. ground (arith, at i);
            same_remaining = λ i. ground (arith, at i);
            same_waiters = λ i. ground (arith, at i);
            same_task = λ i. ground (arith, at i);
          };
          more_owed = λ i.
              ground
                (arith, total-set (owes i) ns d n' h, occurrences-append i n.dependents (id ∷ []));
          edges = λ j i. ground (arith, at j, contains-append n.dependents (id ∷ []) i);
          still_in_range = λ j k r.
              rw (length-set ns d n')
                (ground (arith, at j, all-append (λ e. ltb e (length ns)) n.dependents (id ∷ [])));
        },
      )

  pub Links-trans :
      (id : ℕ) (ds es : List ℕ) (ns ms ks : List (TaskNode T))
      → Links id ds ns ms
      → Links id es ms ks
      → Links id (ds ++ es) ns ks
  Links-trans id ds es ns ms ks a b = record {
    same = SameFields-trans ns ms ks a.same b.same;
    more_owed = λ i. ground (arith, a.more_owed i, b.more_owed i, length-append ds es);
    edges = λ j i. ground (arith, a.edges j i, b.edges j i, contains-append ds es j);
    still_in_range =
        λ j h r. b.still_in_range j (omega (arith, a.same.same_length)) (a.still_in_range j h r);
  }

  may_link-SameFields :
      (ns ms : List (TaskNode T)) (ds : List ℕ)
      → SameFields ns ms
      → may_link ns ds ≡ true
      → may_link ms ds ≡ true
  may_link-SameFields ns ms [] s h = refl
  may_link-SameFields ns ms (d ∷ ds) s h =
      ground (arith, s.same_length, s.same_state d, may_link-SameFields ns ms ds s)

  pub push_dependents-Links :
      (id : ℕ) (ds : List ℕ) (ns : List (TaskNode T))
      → may_link ns ds ≡ true
      → Returns (push_dependents id ds ns) (Links id ds ns)
  unfolding push_dependents
  push_dependents-Links id [] ns h = (ns, refl, Links-refl id ns)
  push_dependents-Links id (d ∷ ds) ns h =
      let (ms, e, a) = push_dependent-Links id d ns (ground arith) (ground arith) in
      let (ks, e', b) =
        push_dependents-Links id ds ms (may_link-SameFields ns ms ds a.same (ground arith)) in
      rw e (ks, e', Links-trans id (d ∷ []) ds ns ms ks a b)

-- ===== src/TaskPool/Graph/Dependents.antt =====
-- task_pool/graph/exec/node_exec.rs: `finish_dependents_of`, the search that keeps an expansion from
-- depending on its own parent.
use mathlib.Core.List.{reverse-append}
use griffr.Common.{
  ℕ, zero, suc, ◌+◌, ◌≤◌, ◌<◌, ◌≡◌, refl, ap, ◌∙◌, subst, ◌↔◌, inl, inr, Bool, true, false, ◌||◌,
  List, [], ◌∷◌, ◌++◌, reverse, arith, ltb, nat_beq, if◌then◌else◌, nat_beq_iff, Bool-cases, nat_eq,
  length, all, length-append, all-append, contains, contains-append, text_eq, nat_order, text_order,
  flagged_eq, flagged_order,
}
use griffr.TaskPool.Graph.{TaskNode, TaskGraph}
use griffr.TaskPool.Graph.Resolve.{edge_count, reach_from, finish_dependents_of}
use griffr.TaskPool.Graph.Lookup.{node_of}
use griffr.TaskPool.Graph.Sound.{in_range}
use griffr.TaskPool.Graph.Steps.{Returns, node_at-node_of}
use griffr.TaskPool.Graph.Run.{Reachable, Reachable-IsStable}

contains-reverse : (xs : List ℕ) (i : ℕ) → contains (reverse xs) i ≡ contains xs i
contains-reverse [] i = refl
contains-reverse (x ∷ xs) i =
    ap (λ (l : List ℕ). contains l i) (reverse-append (x ∷ []) xs)
    ∙ contains-append (reverse xs) (x ∷ []) i
    ∙ ground (arith, contains-reverse xs i)

length-reverse : (xs : List ℕ) → length (reverse xs) ≡ length xs
length-reverse [] = refl
length-reverse (x ∷ xs) =
    ap (λ (l : List ℕ). length l) (reverse-append (x ∷ []) xs)
    ∙ length-append (reverse xs) (x ∷ [])
    ∙ omega (arith, length-reverse xs)

all-reverse : (p : ℕ → Bool) (xs : List ℕ) → all p (reverse xs) ≡ all p xs
all-reverse p [] = refl
all-reverse p (x ∷ xs) =
    ap (λ (l : List ℕ). all p l) (reverse-append (x ∷ []) xs)
    ∙ all-append p (reverse xs) (x ∷ [])
    ∙ ground (arith, all-reverse p xs)

module _ {ℓ} {T : Type ℓ} (nodes : List (TaskNode T)) where
  -- A node that follows when the node `j` finishes.
  abbrev pub follows : ℕ → ℕ → Bool
  follows j i = contains (node_of nodes j).dependents i || contains (node_of nodes j).waiters i

  -- A node that cannot finish before the root has finished.
  pub data FinishesAfter (root : ℕ) : ℕ → Type 0 where
    itself : FinishesAfter root root
    through : {j i : ℕ} → FinishesAfter root j → follows j i ≡ true → FinishesAfter root i

module _ {ℓ} {T : Type ℓ} where
  degree : TaskNode T → ℕ
  degree n = length n.dependents + length n.waiters

  -- The edges of the nodes that are not visited.
  weight : List ℕ → ℕ → List (TaskNode T) → ℕ
  weight reachable k [] = 0
  weight reachable k (n ∷ ns) =
      (if contains reachable k then 0 else degree n) + weight reachable (suc k) ns

  weight_before :
      (reachable : List ℕ) (id k : ℕ) (ns : List (TaskNode T))
      → id < k
      → weight (id ∷ reachable) k ns ≡ weight reachable k ns
  unfolding weight
  weight_before reachable id k [] h = refl
  weight_before reachable id k (n ∷ ns) h = ground (arith, weight_before reachable id (suc k) ns)

  weight_visit :
      (reachable : List ℕ) (k m id : ℕ) (ns : List (TaskNode T))
      → k + m ≡ id
      → m < length ns
      → contains reachable id ≡ false
      → weight (id ∷ reachable) k ns + degree (node_of ns m) ≡ weight reachable k ns
  unfolding weight node_of
  weight_visit reachable k m id [] e h c = absurd (omega arith)
  weight_visit reachable k zero id (n ∷ ns) e h c =
      let same : k ≡ id = omega arith in
      ground (arith, weight_before reachable id (suc k) ns, ap (contains reachable) same)
  weight_visit reachable k (suc m) id (n ∷ ns) e h c =
      ground (arith, weight_visit reachable (suc k) m id ns)

  weight_none : (k : ℕ) (ns : List (TaskNode T)) → weight [] k ns ≡ edge_count ns
  unfolding weight edge_count degree
  weight_none k [] = refl
  weight_none k (n ∷ ns) = omega (arith, weight_none (suc k) ns)

  module _ (nodes : List (TaskNode T)) (root : ℕ) where
    record Visits (reachable stack : List ℕ) : Type 0 where
      within : in_range nodes stack ≡ true
      visited : (i : ℕ) → contains reachable i ≡ true → FinishesAfter nodes root i
      found : (i : ℕ) → contains stack i ≡ true → FinishesAfter nodes root i
      closed :
          (j i : ℕ)
          → contains reachable j ≡ true
          → follows nodes j i ≡ true
          → (contains reachable i || contains stack i) ≡ true
      rooted : (contains reachable root || contains stack root) ≡ true

    abbrev Exactly : List ℕ → Type 0
    Exactly reachable = (i : ℕ) → (contains reachable i ≡ true) ↔ FinishesAfter nodes root i

    complete :
        (reachable : List ℕ)
        → Visits reachable []
        → {i : ℕ} → FinishesAfter nodes root i
        → contains reachable i ≡ true
    complete reachable v itself = ground (arith, v.rooted)
    complete reachable v (through {j} {i} p e) =
        ground (arith, v.closed j i (complete reachable v p) e)

    skip_visited :
        (reachable : List ℕ) (id : ℕ) (stack : List ℕ)
        → Visits reachable (id ∷ stack)
        → contains reachable id ≡ true
        → Visits reachable stack
    skip_visited reachable id stack v c = record {
      within = ground (arith, v.within);
      visited = v.visited;
      found = λ i h. v.found i (ground arith);
      closed = λ j i h e. ground (arith, v.closed j i h e, nat_beq_iff i id);
      rooted = ground (arith, v.rooted, nat_beq_iff root id);
    }

    visit_node :
        (reachable : List ℕ) (id : ℕ) (stack : List ℕ)
        → in_range nodes (node_of nodes id).dependents ≡ true
        → in_range nodes (node_of nodes id).waiters ≡ true
        → Visits reachable (id ∷ stack)
        → Visits
            (id ∷ reachable)
            (reverse ((node_of nodes id).dependents ++ (node_of nodes id).waiters) ++ stack)
    visit_node reachable id stack rd rw' v =
        let ds = (node_of nodes id).dependents in
        let ws = (node_of nodes id).waiters in
        let member = λ (i : ℕ).
          contains-append (reverse (ds ++ ws)) stack i
          ∙ ap (λ (b : Bool). b || contains stack i)
              (contains-reverse (ds ++ ws) i ∙ contains-append ds ws i) in
        record {
          within =
              all-append (λ d. ltb d (length nodes)) (reverse (ds ++ ws)) stack
              ∙ ground (
                arith,
                v.within,
                all-reverse (λ d. ltb d (length nodes)) (ds ++ ws),
                all-append (λ d. ltb d (length nodes)) ds ws,
              );
          visited = λ i h. elim (Bool-cases (nat_beq i id)) [
            | inl here ↦ v.found i (ground arith)
            | inr there ↦ v.visited i (ground arith)
          ];
          found = λ i h. elim (Bool-cases (contains stack i)) [
            | inl waits ↦ v.found i (ground arith)
            | inr next ↦ through (v.found id (ground arith)) (ground (arith, member i))
          ];
          closed = λ j i h e. ground (arith, member i, v.closed j i, nat_beq_iff j id);
          rooted = ground (arith, member root, v.rooted);
        }

    -- With a round for each edge, the loop ends with the nodes that finish after the root.
    reach_from-Exactly :
        ((i : ℕ) → in_range nodes (node_of nodes i).dependents ≡ true)
        → ((i : ℕ) → in_range nodes (node_of nodes i).waiters ≡ true)
        → (rounds : ℕ) (reachable stack : List ℕ) → length stack + weight reachable 0 nodes ≤ rounds
        → Visits reachable stack
        → Returns (reach_from rounds nodes reachable stack) Exactly
    unfolding reach_from degree
    reach_from-Exactly rd rw' zero reachable [] h v =
        (reachable, refl, λ i. (v.visited i, complete reachable v))
    reach_from-Exactly rd rw' zero reachable (id ∷ stack) h v = absurd (omega arith)
    reach_from-Exactly rd rw' (suc rounds) reachable [] h v =
        (reachable, refl, λ i. (v.visited i, complete reachable v))
    reach_from-Exactly rd rw' (suc rounds) reachable (id ∷ stack) h v =
        elim (Bool-cases (contains reachable id)) [
          | inl old ↦
              rw (old, reach_from)
                (reach_from-Exactly rd rw' rounds reachable stack (omega arith)
                  (skip_visited reachable id stack v old))
          | inr fresh ↦
              let lt : id < length nodes = ground (arith, v.within) in
              let ds = (node_of nodes id).dependents in
              let ws = (node_of nodes id).waiters in
              rw (fresh, reach_from, node_at-node_of nodes id lt)
                (reach_from-Exactly rd rw' rounds (id ∷ reachable) (reverse (ds ++ ws) ++ stack)
                  (omega (
                    arith,
                    length-append (reverse (ds ++ ws)) stack,
                    length-reverse (ds ++ ws),
                    length-append ds ws,
                    weight_visit reachable 0 id id nodes (omega arith) lt fresh,
                  ))
                  (visit_node reachable id stack (rd id) (rw' id) v))
        ]

  -- In every reachable graph finish_dependents_of ends for every node, with exactly the nodes that
  -- follow from it through dependents and waiters.
  pub finish_dependents_of-Exactly :
      {g : TaskGraph T} (root : ℕ)
      → Reachable g
      → root < length g.nodes
      → Returns
          (finish_dependents_of g.nodes root)
          (λ found. (i : ℕ) → (contains found i ≡ true) ↔ FinishesAfter g.nodes root i)
  unfolding finish_dependents_of
  finish_dependents_of-Exactly {g} root reachable lt =
      let s = (Reachable-IsStable reachable).sound in
      reach_from-Exactly g.nodes root s.dependents_in_range s.waiters_in_range
        (suc (edge_count g.nodes)) [] (root ∷ []) (omega (arith, weight_none 0 g.nodes))
        (record {
          within = ground arith;
          visited = λ i h. absurd (ground (arith, h));
          found = λ i h. subst (FinishesAfter g.nodes root) (ground (arith, h)) itself;
          closed = λ j i h e. absurd (ground (arith, h));
          rooted = ground arith;
        })

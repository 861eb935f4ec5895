-- ===== src/TaskPool/Graph/Resolve/Inversion.antt =====
-- task_pool/graph/exec/node_exec.rs: what the loop of `install_expansion` over the new nodes finds.
use mathlib.Core.List.{append-nil, append_assoc}
use griffr.Common.{
  ℕ, zero, suc, ◌+◌, ◌-◌, ◌<◌, ◌≡◌, refl, sym, ap, ◌∙◌, subst, inl, inr, Bool, true, false, ◌&&◌,
  some, List, [], ◌∷◌, ◌++◌, map, arith, ltb, leb, if◌then◌else◌, Bool-cases, Option-cases, nat_eq,
  length, get_elem?, set, any, length-set, set-set, length-append, text_eq, saturating_add, Map,
  get, nat_order, text_order, flagged_eq, flagged_order, insert_ordered, all-insert_ordered,
}
use griffr.TaskPool.Graph.{Result, ok, failed, panicked, ◌>>=◌, TaskNode, TaskGraph}
use griffr.TaskPool.Graph.Expansion.{ExpansionNode}
use griffr.TaskPool.Graph.Resolve.{
  has_failed, Resolved, local_dependencies, token_dependency, token_dependencies_of, raise_degree,
  classify_dependency, classify, resolve_dependencies,
}
use griffr.TaskPool.Graph.Lookup.{node_of, get_elem?-node_of}
use griffr.TaskPool.Graph.Builder.Build.{all_below}

-- Each new node depends on nodes before it.
abbrev pub AllBackward : ℕ → List (List ℕ) → Type 0
AllBackward index [] = Unit
AllBackward index (ds ∷ dss) = (all_below index ds ≡ true) × AllBackward (suc index) dss

-- Both steps of a call that succeeds succeed.
pub >>=-eq-ok {μ ν} :
    {S : Type μ} {R : Type ν} (first : Result S) (next : S → Result R) {r : R}
    → (first >>= next) ≡ ok r
    → (s : S) × (first ≡ ok s) × (next s ≡ ok r)
>>=-eq-ok panicked next h = absurd (ground (arith, h))
>>=-eq-ok (failed message) next h = absurd (ground (arith, h))
>>=-eq-ok (ok s) next h = (s, refl, h)

token_dependency-below :
    (global : Map ℕ ℕ) (after_parent : List ℕ) (bound : Map ℕ ℕ) (base index token : ℕ) {d : ℕ}
    → ((t id : ℕ) → get global t ≡ some id → id < base)
    → token_dependency global after_parent bound base index token ≡ ok d
    → d < base + index
unfolding token_dependency
token_dependency-below global after_parent bound base index token {d} inside h =
    elim (Option-cases (get global token)) [
      | inr (existing, e) ↦ ground (arith, h, inside token existing e)
      | inl fresh ↦ elim (Option-cases (get bound token)) [
        | inl missing ↦ absurd (ground (arith, h))
        | inr (local, e) ↦ ground (arith, h)
      ]
    ]

local_dependencies-below :
    (base index : ℕ) (ds found : List ℕ) {found' : List ℕ}
    → all_below (base + index) found ≡ true
    → local_dependencies base index ds found ≡ ok found'
    → all_below (base + index) found' ≡ true
unfolding local_dependencies
local_dependencies-below base index [] found a h = ground (arith, h)
local_dependencies-below base index (d ∷ ds) found a h = elim (Bool-cases (leb index d)) [
  | inl forward ↦ absurd (ground (arith, h))
  | inr back ↦
      local_dependencies-below base index ds (insert_ordered (base + d) found)
        (ground (arith, all-insert_ordered (λ (e : ℕ). ltb e (base + index)) (base + d) found))
        (ground (arith, h))
]

token_dependencies-below :
    (global : Map ℕ ℕ) (after_parent : List ℕ) (bound : Map ℕ ℕ) (base index : ℕ)
    (ts found : List ℕ) {found' : List ℕ}
    → ((t id : ℕ) → get global t ≡ some id → id < base)
    → all_below (base + index) found ≡ true
    → token_dependencies_of global after_parent bound base index ts found ≡ ok found'
    → all_below (base + index) found' ≡ true
unfolding token_dependencies_of
token_dependencies-below global after_parent bound base index [] found inside a h =
    ground (arith, h)
token_dependencies-below global after_parent bound base index (t ∷ ts) found inside a h =
    let (d, e, e') =
      >>=-eq-ok (token_dependency global after_parent bound base index t)
        (λ (d : ℕ).
          token_dependencies_of global after_parent bound base index ts (insert_ordered d found))
        h in
    token_dependencies-below global after_parent bound base index ts (insert_ordered d found) inside
      (ground (
        arith,
        token_dependency-below global after_parent bound base index t inside e,
        all-insert_ordered (λ (f : ℕ). ltb f (base + index)) d found,
      ))
      e'

module _ {ℓ} {T : Type ℓ} where
  -- A dependency that has failed already.
  abbrev pub any_failed : List (TaskNode T) → List ℕ → Bool
  any_failed nodes ds = any (λ d. ltb d (length nodes) && has_failed (node_of nodes d).state) ds

  record Classified (nodes : List (TaskNode T)) (index : ℕ) (ds : List ℕ) (r r' : Resolved)
      : Type 0 where
    same_dependencies : r'.dependencies ≡ r.dependencies
    marked : r'.blocked ≡ (if any_failed nodes ds then set r.blocked index true else r.blocked)
    same_degrees : length r'.out_degree ≡ length r.out_degree

  classify_dependency-Classified :
      (nodes : List (TaskNode T)) (index d : ℕ) (r : Resolved) {r' : Resolved}
      → classify_dependency nodes (length nodes) index d r ≡ ok r'
      → Classified nodes index (d ∷ []) r r'
  unfolding classify_dependency raise_degree
  classify_dependency-Classified nodes index d r {r'} h = elim (Bool-cases (leb (length nodes) d)) [
    | inl new ↦ elim (Option-cases (get_elem? r.out_degree (d - length nodes))) [
      | inl missing ↦ absurd (ground (arith, h))
      | inr (degree, found) ↦ record {
        same_dependencies = ground (arith, h);
        marked = ground (arith, h);
        same_degrees =
            ground (arith, h, length-set r.out_degree (d - length nodes) (saturating_add degree 1));
      }
    ]
    | inr old ↦
        let found = get_elem?-node_of nodes d (ground arith) in
        record {
          same_dependencies = ground (arith, h, found);
          marked = ground (arith, h, found);
          same_degrees = ground (arith, h, found);
        }
  ]

  classify-Classified :
      (nodes : List (TaskNode T)) (index : ℕ) (ds : List ℕ) (r : Resolved) {r' : Resolved}
      → classify nodes (length nodes) index ds r ≡ ok r'
      → Classified nodes index ds r r'
  unfolding classify
  classify-Classified nodes index [] r h = record {
    same_dependencies = ground (arith, h);
    marked = ground (arith, h);
    same_degrees = ground (arith, h);
  }
  classify-Classified nodes index (d ∷ ds) r {r'} h =
      let (m, e, e') =
        >>=-eq-ok (classify_dependency nodes (length nodes) index d r)
          (classify nodes (length nodes) index ds) h in
      let a = classify_dependency-Classified nodes index d r e in
      let b = classify-Classified nodes index ds m e' in
      record {
        same_dependencies = b.same_dependencies ∙ a.same_dependencies;
        marked = ground (arith, a.marked, b.marked, set-set r.blocked index true true);
        same_degrees = b.same_degrees ∙ a.same_degrees;
      }

-- The same, for a goal that the parts prove.
pub >>=_inversion {ℓ κ μ} :
    {A : Type ℓ} {B : Type κ} {P : Type μ} (m : Result A) (f : A → Result B) (b : B)
    → (m >>= f) ≡ ok b
    → ((a : A) → m ≡ ok a → f a ≡ ok b → P)
    → P
>>=_inversion (ok a) f b h k = k a refl h
>>=_inversion (failed e) f b h k = absurd (ground (arith, h))
>>=_inversion panicked f b h k = absurd (ground (arith, h))

set_middle :
    (xs : List Bool) (i : ℕ) (y v : Bool) (ys : List Bool)
    → length xs ≡ i
    → set (xs ++ y ∷ ys) i v ≡ xs ++ v ∷ ys
set_middle [] zero y v ys h = refl
set_middle [] (suc i) y v ys h = absurd (omega arith)
set_middle (x ∷ xs) zero y v ys h = absurd (omega arith)
set_middle (x ∷ xs) (suc i) y v ys h = ap (λ l. x ∷ l) (set_middle xs i y v ys (omega arith))

-- The mark of the next node is set or left.
marked_middle :
    (prefix : List Bool) (mark : Bool) (rest : List Bool) (index : ℕ)
    → length prefix ≡ index
    → (if mark then set (prefix ++ false ∷ rest) index true else prefix ++ false ∷ rest)
      ≡ prefix ++ mark ∷ rest
marked_middle prefix true rest index h = set_middle prefix index false true rest h
marked_middle prefix false rest index h = refl

module _ {ℓ} {T : Type ℓ} (g : TaskGraph T) (after_parent : List ℕ) (bound : Map ℕ ℕ) where
  -- The dependencies `dss` of the nodes `ns`, and which of these are blocked.
  pub record Found (index : ℕ) (prefix : List Bool) (ns : List (ExpansionNode T)) (r r' : Resolved)
      (dss : List (List ℕ)) : Type ℓ where
    pub more_dependencies : r'.dependencies ≡ r.dependencies ++ dss
    pub all_marked : r'.blocked ≡ prefix ++ map (any_failed g.nodes) dss
    pub one_each : length dss ≡ length ns
    pub all_backward : AllBackward (length g.nodes + index) dss
    pub same_degrees : length r'.out_degree ≡ length r.out_degree

  module _ (index : ℕ) (prefix : List Bool) (n : ExpansionNode T) (ns : List (ExpansionNode T))
      (ds : List ℕ) (r next : Resolved) (c : Classified g.nodes index ds r next)
      (size : length prefix ≡ index) (marks : r.blocked ≡ prefix ++ map (λ _. false) (n ∷ ns)) where
    next_marks :
        next.blocked
        ≡ (prefix ++ any_failed g.nodes ds ∷ []) ++ map (λ (_ : ExpansionNode T). false) ns
    next_marks =
        c.marked
        ∙ rw marks (
            marked_middle prefix (any_failed g.nodes ds) (map (λ _. false) ns) index size
            ∙ sym (append_assoc prefix (any_failed g.nodes ds ∷ []) (map (λ _. false) ns)))

    step-Found :
        {r' : Resolved} (dss : List (List ℕ))
        → all_below (length g.nodes + index) ds ≡ true
        → Found
            (suc index)
            (prefix ++ any_failed g.nodes ds ∷ [])
            ns
            (record next { dependencies = next.dependencies ++ ds ∷ [] })
            r'
            dss
        → Found index prefix (n ∷ ns) r r' (ds ∷ dss)
    step-Found dss below f = record {
      more_dependencies =
          f.more_dependencies
          ∙ append_assoc next.dependencies (ds ∷ []) dss
          ∙ ap (λ (l : List (List ℕ)). l ++ ds ∷ dss) (c.same_dependencies);
      all_marked =
          f.all_marked
          ∙ append_assoc prefix (any_failed g.nodes ds ∷ []) (map (any_failed g.nodes) dss);
      one_each = omega (arith, f.one_each);
      all_backward = (below, subst (λ k. AllBackward k dss) (omega arith) (f.all_backward));
      same_degrees = f.same_degrees ∙ c.same_degrees;
    }

  pub resolve_dependencies-Found :
      (index : ℕ) (prefix : List Bool) (ns : List (ExpansionNode T)) (r : Resolved) {r' : Resolved}
      → ((t id : ℕ) → get g.bindings t ≡ some id → id < length g.nodes)
      → length prefix ≡ index
      → r.blocked ≡ prefix ++ map (λ _. false) ns
      → resolve_dependencies g after_parent bound index ns r ≡ ok r'
      → (dss : List (List ℕ)) × Found index prefix ns r r' dss
  unfolding resolve_dependencies
  resolve_dependencies-Found index prefix [] r {r'} inside size marks h =
      let same : r ≡ r' = ground (arith, h) in
      (
        [],
        subst (λ q. Found index prefix [] r q []) same
            (record {
              more_dependencies = sym (append-nil r.dependencies);
              all_marked = marks;
              one_each = refl;
              all_backward = tt;
              same_degrees = refl;
            }),
      )
  resolve_dependencies-Found index prefix (n ∷ ns) r {r'} inside size marks h =
      let base = length g.nodes in
      let (locals, e, h1) = >>=-eq-ok (local_dependencies base index n.dependencies []) _ h in
      let (ds, e1, h2) =
        >>=-eq-ok
          (token_dependencies_of g.bindings after_parent bound base index n.token_dependencies
            locals)
          _ h1 in
      let (next, e2, h3) = >>=-eq-ok (classify g.nodes base index ds r) _ h2 in
      let c = classify-Classified g.nodes index ds r e2 in
      let below =
        token_dependencies-below g.bindings after_parent bound base index n.token_dependencies
          locals inside (local_dependencies-below base index n.dependencies [] refl e) e1 in
      let (dss, f) =
        resolve_dependencies-Found (suc index) (prefix ++ any_failed g.nodes ds ∷ []) ns
          (record next { dependencies = next.dependencies ++ ds ∷ [] }) inside
          (omega (arith, length-append prefix (any_failed g.nodes ds ∷ [])))
          (next_marks index prefix n ns ds r next c size marks) h3 in
      (ds ∷ dss, step-Found index prefix n ns ds r next c size marks dss below f)

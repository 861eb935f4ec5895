-- ===== src/Patch/Start.antt =====
-- patch_apply/dependency.rs: the degrees and the ready entries with which the loops begin.
use griffr.Common.{
  ℕ, zero, suc, ◌+◌, ◌≤◌, ◌<◌, ◌≡◌, refl, ap, inl, inr, Bool, true, false, Option, none, some, List,
  [], ◌∷◌, map, arith, ltb, nat_beq_iff, Bool-cases, nat_eq, ◌==◌, length, get_elem?, all, contains,
  length-map, text_eq, nat_order, text_order, flagged_eq, flagged_order, IsAscending,
}
use griffr.Patch.Plan.{path_eq}
use griffr.Patch.Dependencies.{zero_indices, dependents_of, first_frontier}
use griffr.Patch.Frontiers.{open_of, absent_below, IsFrontier}

all_open : (ps : List ℕ) → length ps ≡ open_of [] ps
unfolding open_of
all_open [] = refl
all_open (p ∷ ps) = ground (arith, all_open ps)

get_elem?-beyond : (xs : List ℕ) (i : ℕ) → length xs ≤ i → get_elem? xs i ≡ none
get_elem?-beyond [] i h = refl
get_elem?-beyond (x ∷ xs) zero h = absurd (omega arith)
get_elem?-beyond (x ∷ xs) (suc i) h = get_elem?-beyond xs i (omega arith)

get_elem?-degrees :
    (dependencies : List (List ℕ)) (d : ℕ)
    → d < length dependencies
    → get_elem? (map length dependencies) d ≡ some (open_of [] (dependents_of dependencies d))
unfolding dependents_of
get_elem?-degrees [] d h = absurd (omega arith)
get_elem?-degrees (ps ∷ rest) zero h = ap some (all_open ps)
get_elem?-degrees (ps ∷ rest) (suc d) h = get_elem?-degrees rest d (omega arith)

zero_indices-above :
    (index least : ℕ) (ds : List ℕ) → least < index → all (ltb least) (zero_indices index ds) ≡ true
unfolding zero_indices
zero_indices-above index least [] h = refl
zero_indices-above index least (d ∷ ds) h =
    ground (arith, zero_indices-above (suc index) least ds (omega arith))

zero_indices-IsAscending : (index : ℕ) (ds : List ℕ) → IsAscending (zero_indices index ds)
unfolding zero_indices
zero_indices-IsAscending index [] = tt
zero_indices-IsAscending index (d ∷ ds) = ground (
  arith,
  zero_indices-above (suc index) index ds (omega arith),
  zero_indices-IsAscending (suc index) ds,
)

abbrev is_free : Option ℕ → Bool
is_free none = false
is_free (some degree) = degree == 0

zero_indices_lem :
    (index : ℕ) (ds : List ℕ) (k d : ℕ)
    → index + k ≡ d
    → contains (zero_indices index ds) d ≡ is_free (get_elem? ds k)
unfolding zero_indices
zero_indices_lem index [] k d at = refl
zero_indices_lem index (degree ∷ ds) zero d at =
    let here : index ≡ d = omega arith in
    rw here (
      ground (
        arith,
        nat_beq_iff d d,
        absent_below d (zero_indices (suc d) ds),
        zero_indices-above (suc d) d ds,
      ))
zero_indices_lem index (degree ∷ ds) (suc k) d at =
    ground (arith, zero_indices_lem (suc index) ds k d (omega arith))

pub first_frontier-IsFrontier :
    (dependencies outgoing : List (List ℕ))
    → IsFrontier dependencies outgoing (length dependencies) [] [] [] (first_frontier dependencies)
unfolding first_frontier
first_frontier-IsFrontier dependencies outgoing =
    let free : (d : ℕ)
        → contains (zero_indices 0 (map length dependencies)) d
          ≡ is_free (get_elem? (map length dependencies) d) =
      λ d. zero_indices_lem 0 (map length dependencies) d d (omega arith) in
    record {
      size = length-map length dependencies;
      degrees = λ d h. ground (arith, get_elem?-degrees dependencies d h);
      ascending = zero_indices-IsAscending 0 (map length dependencies);
      ready_open = λ d c. elim (Bool-cases (ltb d (length dependencies))) [
        | inl inside ↦
            (ground arith, refl, refl, ground (arith, free d, get_elem?-degrees dependencies d))
        | inr beyond ↦
            let missing : get_elem? (map length dependencies) d ≡ none =
              get_elem?-beyond (map length dependencies) d
                (ground (arith, length-map length dependencies)) in
            absurd (ground (arith, free d))
      ];
      coming_open = λ d c. absurd (ground (arith, c));
      closed = λ d c. absurd (ground (arith, c));
      left_open = λ d c. absurd (ground (arith, c));
      complete = λ d h a b z. ground (arith, free d, get_elem?-degrees dependencies d h);
    }

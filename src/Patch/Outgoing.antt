-- ===== src/Patch/Outgoing.antt =====
-- patch_apply/dependency.rs: the sets of prerequisites and of dependents, each the reverse of the
-- other.
use griffr.Common.{
  ℕ, zero, suc, ◌+◌, ◌<◌, ◌≡◌, refl, ◌∙◌, false, ◌&&◌, ◌||◌, Option, none, some, List, [], ◌∷◌, map,
  arith, nat_eq, ◌==◌, length, contains, occurrences, text_eq, Map, nat_order, text_order,
  flagged_eq, flagged_order, IsAscending, insert_ordered-IsAscending, occurrences-IsAscending,
}
use griffr.Patch.Plan.{FilePath, path_eq, PlannedPatchEntry}
use griffr.Patch.Dependencies.{
  insert_into, writer_of, add_consumers, add_outgoing, collect_outgoing, dependents_of,
}
use griffr.Patch.Consumers.{insert_into-dependents_of, length-insert_into}

-- Every set is in ascending order.
abbrev pub Ascending : List (List ℕ) → Type 0
Ascending sets = (i : ℕ) → IsAscending (dependents_of sets i)

insert_into-Ascending :
    (sets : List (List ℕ)) (i v : ℕ) → Ascending sets → Ascending (insert_into sets i v)
unfolding insert_into dependents_of
insert_into-Ascending [] i v h w = h w
insert_into-Ascending (s ∷ sets) zero v h zero = insert_ordered-IsAscending v s (h 0)
insert_into-Ascending (s ∷ sets) zero v h (suc w) = h (suc w)
insert_into-Ascending (s ∷ sets) (suc i) v h zero = h 0
insert_into-Ascending (s ∷ sets) (suc i) v h (suc w) =
    insert_into-Ascending sets i v (λ k. h (suc k)) w

pub blank-Ascending {ℓ} : {A : Type ℓ} (xs : List A) → Ascending (map (λ _. []) xs)
unfolding dependents_of
blank-Ascending [] i = tt
blank-Ascending (x ∷ xs) zero = tt
blank-Ascending (x ∷ xs) (suc i) = blank-Ascending xs i

pub add_consumers-Ascending :
    (writers : Map FilePath ℕ) (index : ℕ) (es : List PlannedPatchEntry) (sets : List (List ℕ))
    → Ascending sets
    → Ascending (add_consumers writers index es sets)
unfolding add_consumers
add_consumers-Ascending writers index [] sets h = h
add_consumers-Ascending writers index (e ∷ es) sets h =
    add_consumers-Ascending writers (suc index) es _ (by_writer (writer_of writers index e))
  where
    by_writer :
        (found : Option ℕ)
        → Ascending (elim found [ none ↦ sets | some writer ↦ insert_into sets writer index ])
    by_writer none = h
    by_writer (some writer) = insert_into-Ascending sets writer index h

add_outgoing-Ascending :
    (dependent : ℕ) (ps : List ℕ) (sets : List (List ℕ))
    → Ascending sets
    → Ascending (add_outgoing dependent ps sets)
unfolding add_outgoing
add_outgoing-Ascending dependent [] sets h = h
add_outgoing-Ascending dependent (p ∷ ps) sets h =
    add_outgoing-Ascending dependent ps (insert_into sets p dependent)
      (insert_into-Ascending sets p dependent h)

collect_outgoing-Ascending :
    (dependent : ℕ) (pss sets : List (List ℕ))
    → Ascending sets
    → Ascending (collect_outgoing dependent pss sets)
unfolding collect_outgoing
collect_outgoing-Ascending dependent [] sets h = h
collect_outgoing-Ascending dependent (ps ∷ pss) sets h =
    collect_outgoing-Ascending (suc dependent) pss (add_outgoing dependent ps sets)
      (add_outgoing-Ascending dependent ps sets h)

length-add_outgoing :
    (dependent : ℕ) (ps : List ℕ) (sets : List (List ℕ))
    → length (add_outgoing dependent ps sets) ≡ length sets
unfolding add_outgoing
length-add_outgoing dependent [] sets = refl
length-add_outgoing dependent (p ∷ ps) sets =
    length-add_outgoing dependent ps (insert_into sets p dependent)
    ∙ length-insert_into sets p dependent

add_outgoing-dependents_of :
    (dependent : ℕ) (ps : List ℕ) (sets : List (List ℕ)) (p d : ℕ)
    → p < length sets
    → contains (dependents_of (add_outgoing dependent ps sets) p) d
      ≡ (contains (dependents_of sets p) d || (contains ps p && d == dependent))
unfolding add_outgoing
add_outgoing-dependents_of dependent [] sets p d h = ground arith
add_outgoing-dependents_of dependent (q ∷ ps) sets p d h = ground (
  arith,
  add_outgoing-dependents_of dependent ps (insert_into sets q dependent) p d,
  length-insert_into sets q dependent,
  insert_into-dependents_of sets q dependent p d,
)

collect_outgoing_later :
    (dependent : ℕ) (pss sets : List (List ℕ)) (p d : ℕ)
    → p < length sets
    → d < dependent
    → contains (dependents_of (collect_outgoing dependent pss sets) p) d
      ≡ contains (dependents_of sets p) d
unfolding collect_outgoing
collect_outgoing_later dependent [] sets p d h e = refl
collect_outgoing_later dependent (ps ∷ pss) sets p d h e = ground (
  arith,
  collect_outgoing_later (suc dependent) pss (add_outgoing dependent ps sets) p d,
  length-add_outgoing dependent ps sets,
  add_outgoing-dependents_of dependent ps sets p d,
)

collect_outgoing-dependents_of :
    (dependent : ℕ) (pss sets : List (List ℕ)) (p d k : ℕ)
    → p < length sets
    → dependent + k ≡ d
    → contains (dependents_of (collect_outgoing dependent pss sets) p) d
      ≡ (contains (dependents_of sets p) d || contains (dependents_of pss k) p)
unfolding collect_outgoing dependents_of
collect_outgoing-dependents_of dependent [] sets p d k h e = ground arith
collect_outgoing-dependents_of dependent (ps ∷ pss) sets p d zero h e = ground (
  arith,
  collect_outgoing_later (suc dependent) pss (add_outgoing dependent ps sets) p d,
  length-add_outgoing dependent ps sets,
  add_outgoing-dependents_of dependent ps sets p d,
)
collect_outgoing-dependents_of dependent (ps ∷ pss) sets p d (suc k) h e = ground (
  arith,
  collect_outgoing-dependents_of (suc dependent) pss (add_outgoing dependent ps sets) p d k,
  length-add_outgoing dependent ps sets,
  add_outgoing-dependents_of dependent ps sets p d,
)

-- Each edge of the one collection is an edge of the other, once.
pub outgoing_transposed :
    (dependencies sets : List (List ℕ)) (p d : ℕ)
    → Ascending dependencies
    → Ascending sets
    → p < length sets
    → contains (dependents_of sets p) d ≡ false
    → occurrences d (dependents_of (collect_outgoing 0 dependencies sets) p)
      ≡ occurrences p (dependents_of dependencies d)
outgoing_transposed dependencies sets p d a b h none_yet =
    occurrences-IsAscending d _ (collect_outgoing-Ascending 0 dependencies sets b p)
    ∙ ground (
      arith,
      collect_outgoing-dependents_of 0 dependencies sets p d d h,
      occurrences-IsAscending p (dependents_of dependencies d) (a d),
    )

-- ===== src/Patch/Cycles.antt =====
-- patch_apply/dependency.rs: which plans `entry_dependency_indices` accepts.
use griffr.Common.{
  ℕ, ◌≤◌, ◌≡◌, refl, sym, subst, ◌↔◌, ◌⊎◌, inl, inr, true, some, List, [], ◌∷◌, map, arith, nat_beq,
  nat_beq_iff, Bool-cases, nat_eq, length, get_elem?, all, contains, text_eq, word, word_max, Map,
  get, nat_order, text_order, flagged_eq, flagged_order,
}
use griffr.Patch.Plan.{FilePath, path_eq, PlannedPatchEntry, PatchPlan, planned}
use griffr.Patch.Dependencies.{
  logical_destination, collect_writers, add_consumers, dependents_of, finish_ready, first_frontier,
  validate_acyclic, entry_dependency_indices,
}
use griffr.Patch.Writers.{collect_writers_iff, collect_writers_new}
use griffr.Patch.Consumers.{aliases_iff, Overwrites, entry_dependency_indices_parts, collected_iff}
use griffr.Patch.Acyclic.{
  IsSpread, members_below_le, length-IsSpread, IsFinishOrder, finish_ready-order,
}
use griffr.Patch.Complete.{finish_ready-all}
use griffr.Patch.EntryWaves.{
  outgoing_of, IsTransposed, add_consumers-IsTransposed, at_start, validate_acyclic-order,
}

-- All entries of the plan in a sequence, each after those that it waits for.
abbrev HasFinishOrder : PatchPlan → List (List ℕ) → Type 0
HasFinishOrder plan dependencies =
    (order : List ℕ) × IsSpread (length plan.entries) order
    × IsFinishOrder dependencies order
    × (length plan.entries ≤ length order)

validate_acyclic_complete :
    (plan : PatchPlan) (dependencies : List (List ℕ))
    → length plan.entries ≤ word_max
    → IsTransposed plan dependencies
    → HasFinishOrder plan dependencies
    → validate_acyclic plan dependencies ≡ planned tt
unfolding validate_acyclic
validate_acyclic_complete plan dependencies word (sized, transposed) (order, s, o, full) =
    let count : ℕ = length plan.entries in
    let outgoing = outgoing_of plan dependencies in
    let start = at_start plan dependencies sized in
    let finished = (finish_ready count outgoing 0 (first_frontier dependencies)).0 in
    let (order', s', _, le) =
      finish_ready-order dependencies outgoing count sized transposed count 0 [] _ start tt tt
        (omega arith) in
    let least : count ≤ finished =
      finish_ready-all dependencies outgoing count sized transposed order s o full word count 0 [] _
        start tt (omega arith) (omega arith) in
    let most : finished ≤ count =
      omega (arith, length-IsSpread count order' s', members_below_le count order') in
    ground (arith, nat_beq_iff finished count)

-- The entry is written under the path.
abbrev Writes : PatchPlan → PlannedPatchEntry → FilePath → Type 0
Writes plan e p = (p ≡ e.destination) ⊎ (p ≡ logical_destination plan e)

-- Entries that are written under the same path are the same entry.
abbrev pub HasSingleWriters : PatchPlan → Type 0
HasSingleWriters plan =
    (i j : ℕ) (a b : PlannedPatchEntry) (p : FilePath)
    → get_elem? plan.entries i ≡ some a
    → get_elem? plan.entries j ≡ some b
    → Writes plan a p
    → Writes plan b p
    → i ≡ j

-- Every entry of the sequence comes after those that patch a file that it overwrites; the last one
-- of the sequence is the first of the list.
abbrev pub IsOverwriteOrder : PatchPlan → List ℕ → Type 0
IsOverwriteOrder plan [] = Unit
IsOverwriteOrder plan (i ∷ earlier) =
    ((c : ℕ) → Overwrites plan i c → contains earlier c ≡ true) × IsOverwriteOrder plan earlier

collected-HasSingleWriters :
    (plan : PatchPlan) {writers : Map FilePath ℕ}
    → collect_writers plan 0 plan.entries [] ≡ planned writers
    → HasSingleWriters plan
collected-HasSingleWriters plan {writers} made i j a b p at at' w w' =
    let first = (collect_writers_iff plan made p i).1 (a, at, (aliases_iff plan a p).1 w) in
    let second = (collect_writers_iff plan made p j).1 (b, at', (aliases_iff plan b p).1 w') in
    ground (arith, first, second)

HasSingleWriters-collected :
    (plan : PatchPlan)
    → HasSingleWriters plan
    → (writers : Map FilePath ℕ) × (collect_writers plan 0 plan.entries [] ≡ planned writers)
unfolding get
HasSingleWriters-collected plan h = collect_writers_new plan 0 plan.entries [] (record {
  fresh = λ i e p at c. refl;
  single = λ i j a b p at at' c d.
      h i j a b p at at' ((aliases_iff plan a p).0 c) ((aliases_iff plan b p).0 d);
})

members_within :
    (earlier ps : List ℕ)
    → (all (contains earlier) ps ≡ true)
      ↔ ((c : ℕ) → contains ps c ≡ true → contains earlier c ≡ true)
members_within earlier [] = (λ h c m. cc, λ h. refl)
members_within earlier (p ∷ ps) = (
  λ h c m. elim (Bool-cases (nat_beq c p)) [
    | inl here ↦
        subst (λ k. contains earlier k ≡ true) (sym ((nat_beq_iff c p).0 here)) (ground (arith, h))
    | inr there ↦ (members_within earlier ps).0 (ground (arith, h)) c (ground (arith, m))
  ],
  λ h.
      ground
        (arith, h p, nat_beq_iff p p, (members_within earlier ps).1 (λ c m. h c (ground arith))),
)

module _ (plan : PatchPlan) {writers : Map FilePath ℕ}
    (made : collect_writers plan 0 plan.entries [] ≡ planned writers) where
  IsFinishOrder-iff :
      (order : List ℕ)
      → IsFinishOrder (add_consumers writers 0 plan.entries (map (λ _. []) plan.entries)) order
        ↔ IsOverwriteOrder plan order
  IsFinishOrder-iff [] = (λ v. v, λ v. v)
  IsFinishOrder-iff (i ∷ earlier) =
      let prerequisites =
        dependents_of (add_consumers writers 0 plan.entries (map (λ _. []) plan.entries)) i in
      (
        λ v. (
          λ c o. (members_within earlier prerequisites).0 v.0 c ((collected_iff plan made i c).1 o),
          (IsFinishOrder-iff earlier).0 v.1,
        ),
        λ v. (
          (members_within earlier prerequisites).1
              (λ c m. v.0 c ((collected_iff plan made i c).0 m)),
          (IsFinishOrder-iff earlier).1 v.1,
        ),
      )

-- For a plan with at most as many entries as a word counts, entry_dependency_indices succeeds just
-- when no two entries are written under the same path and there is a sequence that holds every
-- entry once, and each after all other entries that patch a file that it overwrites.
pub entry_dependency_indices-accepts :
    (plan : PatchPlan)
    → length plan.entries ≤ word_max
    → ((dependencies : List (List ℕ)) × (entry_dependency_indices plan ≡ planned dependencies)) ↔ (
        HasSingleWriters plan
        × (order : List ℕ) × IsSpread (length plan.entries) order
        × (length plan.entries ≤ length order)
        × IsOverwriteOrder plan order)
unfolding entry_dependency_indices
entry_dependency_indices-accepts plan word = (
  λ r.
      let (dependencies, made) = r in
      let (writers, collected, same, fine) = entry_dependency_indices_parts plan made in
      let t : IsTransposed plan dependencies = rw same (add_consumers-IsTransposed plan writers) in
      let (order, s, o, full) = validate_acyclic-order plan dependencies t fine in
      (
        collected-HasSingleWriters plan collected,
        order,
        s,
        full,
        (IsFinishOrder-iff plan collected order).0 (subst (λ d. IsFinishOrder d order) same o),
      ),
  λ r.
      let (single, order, s, full, o) = r in
      let (writers, collected) = HasSingleWriters-collected plan single in
      let dependencies = add_consumers writers 0 plan.entries (map (λ _. []) plan.entries) in
      let fine =
        validate_acyclic_complete plan dependencies word (add_consumers-IsTransposed plan writers)
          (order, s, (IsFinishOrder-iff plan collected order).1 o, full) in
      (dependencies, rw (entry_dependency_indices, collected, fine) refl),
)

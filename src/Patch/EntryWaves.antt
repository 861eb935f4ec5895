-- ===== src/Patch/EntryWaves.antt =====
-- patch_apply/dependency.rs: `entry_wave_indices` on a plan.
use griffr.Common.{
  ℕ, ◌≤◌, ◌<◌, ◌≡◌, ◌∙◌, subst, inl, inr, true, List, [], map, arith, nat_beq_iff, Bool-cases,
  nat_eq, ◌==◌, length, occurrences, length-map, text_eq, Map, nat_order, text_order, flagged_eq,
  flagged_order,
}
use griffr.Patch.Plan.{FilePath, path_eq, PatchPlan, planned, Planned-cases}
use griffr.Patch.Dependencies.{
  add_consumers, collect_outgoing, dependents_of, finish_ready, first_frontier, validate_acyclic,
  entry_dependency_indices, waves_from, entry_wave_indices,
}
use griffr.Patch.Consumers.{
  dependents_of_blank, length-add_consumers, entry_dependency_indices_parts,
}
use griffr.Patch.Outgoing.{blank-Ascending, add_consumers-Ascending, outgoing_transposed}
use griffr.Patch.Frontiers.{IsFrontier}
use griffr.Patch.Start.{first_frontier-IsFrontier}
use griffr.Patch.Acyclic.{IsSpread, IsSpread-full, IsFinishOrder, finish_ready-order}
use griffr.Patch.Waves.{InOrder, waves_from-InOrder}
use griffr.Patch.Scheduled.{in_waves, waves_from-all}

abbrev pub outgoing_of : PatchPlan → List (List ℕ) → List (List ℕ)
outgoing_of plan dependencies = collect_outgoing 0 dependencies (map (λ _. []) plan.entries)

-- What the two loops need of the sets.
abbrev pub IsTransposed : PatchPlan → List (List ℕ) → Type 0
IsTransposed plan dependencies =
    (length dependencies ≡ length plan.entries)
    × ((p d : ℕ)
        → p < length plan.entries
        → occurrences d (dependents_of (outgoing_of plan dependencies) p)
          ≡ occurrences p (dependents_of dependencies d))

pub add_consumers-IsTransposed :
    (plan : PatchPlan) (writers : Map FilePath ℕ)
    → IsTransposed plan (add_consumers writers 0 plan.entries (map (λ _. []) plan.entries))
add_consumers-IsTransposed plan writers =
    let blank : List (List ℕ) = map (λ _. []) plan.entries in
    let size : length blank ≡ length plan.entries = length-map (λ _. []) plan.entries in
    (
      length-add_consumers writers 0 plan.entries blank ∙ size,
      λ p d h.
          outgoing_transposed _ blank p d
            (add_consumers-Ascending writers 0 plan.entries blank (blank-Ascending plan.entries))
            (blank-Ascending plan.entries) (omega (arith, size))
            (dependents_of_blank plan.entries p d),
    )

pub at_start :
    (plan : PatchPlan) (dependencies : List (List ℕ))
    → length dependencies ≡ length plan.entries
    → IsFrontier dependencies
        (outgoing_of plan dependencies)
        (length plan.entries)
        []
        []
        []
        (first_frontier dependencies)
at_start plan dependencies sized =
    subst
      (λ n.
        IsFrontier dependencies (outgoing_of plan dependencies) n [] [] []
          (first_frontier dependencies))
      sized (first_frontier-IsFrontier dependencies (outgoing_of plan dependencies))

pub validate_acyclic-order :
    (plan : PatchPlan) (dependencies : List (List ℕ))
    → IsTransposed plan dependencies
    → validate_acyclic plan dependencies ≡ planned tt
    → (order : List ℕ) × IsSpread (length plan.entries) order
      × IsFinishOrder dependencies order
      × (length plan.entries ≤ length order)
unfolding validate_acyclic
validate_acyclic-order plan dependencies (sized, transposed) h =
    let count : ℕ = length plan.entries in
    let outgoing = outgoing_of plan dependencies in
    let (order, s, o, le) =
      finish_ready-order dependencies outgoing count sized transposed count 0 [] _
        (at_start plan dependencies sized) tt tt (omega arith) in
    elim (Bool-cases ((finish_ready count outgoing 0 (first_frontier dependencies)).0 == count)) [
      | inl whole ↦ (
        order,
        s,
        o,
        ground (
          arith,
          le,
          nat_beq_iff (finish_ready count outgoing 0 (first_frontier dependencies)).0 count,
        ),
      )
      | inr cycle ↦ absurd (ground (arith, h))
    ]

-- The waves of a plan hold every entry of it; each wave is in ascending order, its entries stand
-- in no earlier wave, and all the entries that they depend on by entry_dependency_indices do.
pub entry_wave_indices-InOrder :
    (plan : PatchPlan) {waves : List (List ℕ)}
    → entry_wave_indices plan ≡ planned waves
    → (dependencies : List (List ℕ)) × (entry_dependency_indices plan ≡ planned dependencies)
      × InOrder dependencies [] waves
      × ((d : ℕ) → d < length plan.entries → in_waves waves d ≡ true)
unfolding entry_wave_indices
entry_wave_indices-InOrder plan {waves} h = elim (Planned-cases (entry_dependency_indices plan)) [
  | inr (error, bad) ↦ absurd (ground (arith, h))
  | inl (dependencies, made) ↦
      let (writers, _, same, fine) = entry_dependency_indices_parts plan made in
      let t : IsTransposed plan dependencies = rw same (add_consumers-IsTransposed plan writers) in
      let (order, s, o, le) = validate_acyclic-order plan dependencies t fine in
      let is : waves_from (length plan.entries) (outgoing_of plan dependencies)
            (first_frontier dependencies)
          ≡ waves =
        ground (arith, h) in
      let start = at_start plan dependencies t.0 in
      (
        dependencies,
        made,
        subst (InOrder dependencies []) is (
            waves_from-InOrder dependencies (outgoing_of plan dependencies) (length plan.entries)
              t.0 t.1 (length plan.entries) [] _ start),
        λ d lt.
            subst (λ ws. in_waves ws d ≡ true) is
              (waves_from-all dependencies (outgoing_of plan dependencies) (length plan.entries) t.0
                t.1 order s o (length plan.entries) [] _ start tt (omega arith) d lt
                (IsSpread-full (length plan.entries) d order s le lt)),
      )
]

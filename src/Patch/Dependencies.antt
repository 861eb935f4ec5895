-- ===== src/Patch/Dependencies.antt =====
-- patch_apply/dependency.rs: which entries of a plan must precede which, and the waves in which they
-- can be applied. A `BTreeSet` of indices is its ascending list; an index out of range would
-- panic, and none occurs.
use griffr.Common.{
  ℕ, zero, suc, Option, none, some, List, [], ◌∷◌, map, ltb, if◌then◌else◌, nat_eq, ◌==◌, length,
  get_elem?, set, text_eq, saturating_add, saturating_sub, Map, get, insert, contains_key,
  nat_order, text_order, flagged_eq, flagged_order, insert_ordered,
}
use griffr.Patch.Plan.{
  FilePath, join, path_less, path_eq, hdiff, PlannedPatchEntry, PatchPlan, multiple_writers,
  overwrite_cycle, Planned, planned, refused,
}

unfoldable pub logical_destination : PatchPlan → PlannedPatchEntry → FilePath
unfolding join
logical_destination plan entry = join (join plan.install_root plan.vfs_base_path) entry.name

-- The paths under which an entry is written, as a `BTreeSet` holds them.
unfoldable pub aliases : PatchPlan → PlannedPatchEntry → List FilePath
unfolding logical_destination path_less
aliases plan entry =
    let logical = logical_destination plan entry in
    if entry.destination == logical
    then logical ∷ []
    else if path_less entry.destination logical
    then entry.destination ∷ logical ∷ []
    else logical ∷ entry.destination ∷ []

-- The inner loop: a path that has a writer already is an error.
unfoldable pub add_writer : ℕ → List FilePath → Map FilePath ℕ → Planned (Map FilePath ℕ)
unfolding contains_key insert
add_writer index [] writers = planned writers
add_writer index (p ∷ ps) writers =
    if contains_key writers p
    then refused (multiple_writers p)
    else add_writer index ps (insert writers p index)

unfoldable pub collect_writers :
    PatchPlan → ℕ → List PlannedPatchEntry → Map FilePath ℕ → Planned (Map FilePath ℕ)
unfolding add_writer aliases
collect_writers plan index [] writers = planned writers
collect_writers plan index (e ∷ es) writers = elim (add_writer index (aliases plan e) writers) [
  | refused error ↦ refused error
  | planned next ↦ collect_writers plan (suc index) es next
]

-- `sets[index].insert(value)`
unfoldable pub insert_into : List (List ℕ) → ℕ → ℕ → List (List ℕ)
unfolding insert_ordered
insert_into [] index value = []
insert_into (s ∷ sets) zero value = insert_ordered value s ∷ sets
insert_into (s ∷ sets) (suc index) value = s ∷ insert_into sets index value

-- The path that an entry still reads.
unfoldable pub base_of : PlannedPatchEntry → Option FilePath
base_of entry = elim entry.source [ hdiff base payload md5 size ↦ some base | _ ↦ none ]

-- The entry that overwrites what the entry at the index reads.
unfoldable pub writer_of : Map FilePath ℕ → ℕ → PlannedPatchEntry → Option ℕ
unfolding base_of get
writer_of writers index entry = elim (base_of entry) [
  | none ↦ none
  | some base ↦ elim (get writers base) [
    | none ↦ none
    | some writer ↦ if writer == index then none else some writer
  ]
]

unfoldable pub add_consumers :
    Map FilePath ℕ → ℕ → List PlannedPatchEntry → List (List ℕ) → List (List ℕ)
unfolding writer_of insert_into
add_consumers writers index [] dependencies = dependencies
add_consumers writers index (e ∷ es) dependencies =
    add_consumers writers (suc index) es (elim (writer_of writers index e) [
      | none ↦ dependencies
      | some writer ↦ insert_into dependencies writer index
    ])

-- The first loop of `validate_acyclic` and of `entry_wave_indices`, over the prerequisites.
unfoldable pub add_outgoing : ℕ → List ℕ → List (List ℕ) → List (List ℕ)
unfolding insert_into
add_outgoing dependent [] outgoing = outgoing
add_outgoing dependent (p ∷ ps) outgoing =
    add_outgoing dependent ps (insert_into outgoing p dependent)

unfoldable pub collect_outgoing : ℕ → List (List ℕ) → List (List ℕ) → List (List ℕ)
unfolding add_outgoing
collect_outgoing dependent [] outgoing = outgoing
collect_outgoing dependent (ps ∷ pss) outgoing =
    collect_outgoing (suc dependent) pss (add_outgoing dependent ps outgoing)

-- The indices of the entries that wait for none.
unfoldable pub zero_indices : ℕ → List ℕ → List ℕ
zero_indices index [] = []
zero_indices index (d ∷ ds) =
    let rest = zero_indices (suc index) ds in if d == 0 then index ∷ rest else rest

pub record Frontier : Type 0 where
  pub indegree : List ℕ
  pub ready : List ℕ

-- The loop over the dependents of an entry that is done.
unfoldable pub release_all : List ℕ → Frontier → Frontier
unfolding insert_ordered
release_all [] f = f
release_all (d ∷ ds) f = elim (get_elem? f.indegree d) [
  | none ↦ release_all ds f
  | some degree ↦
      let left = saturating_sub degree 1 in
      release_all ds (record {
        indegree = set f.indegree d left;
        ready = if left == 0 then insert_ordered d f.ready else f.ready;
      })
]

unfoldable pub dependents_of : List (List ℕ) → ℕ → List ℕ
dependents_of outgoing index = elim (get_elem? outgoing index) [ none ↦ [] | some ds ↦ ds ]

-- The loop of `validate_acyclic`, with the number of the entries that are done.
unfoldable pub finish_ready : ℕ → List (List ℕ) → ℕ → Frontier → ℕ × Frontier
unfolding release_all dependents_of
finish_ready zero outgoing finished f = (finished, f)
finish_ready (suc rounds) outgoing finished f = elim f.ready [
  | [] ↦ (finished, f)
  | index ∷ rest ↦
      finish_ready rounds outgoing (saturating_add finished 1)
        (release_all (dependents_of outgoing index) (record f { ready = rest }))
]

-- The names of the entries that still wait.
unfoldable pub blocked_names : List PlannedPatchEntry → List ℕ → List FilePath
blocked_names [] degrees = []
blocked_names (e ∷ es) [] = []
blocked_names (e ∷ es) (d ∷ ds) =
    let rest = blocked_names es ds in if ltb 0 d then e.name ∷ rest else rest

unfoldable pub first_frontier : List (List ℕ) → Frontier
unfolding zero_indices
first_frontier dependencies =
    let degrees = map length dependencies in
    record { indegree = degrees; ready = zero_indices 0 degrees }

unfoldable pub validate_acyclic : PatchPlan → List (List ℕ) → Planned (Unit {0})
unfolding collect_outgoing first_frontier finish_ready blocked_names
validate_acyclic plan dependencies =
    let outgoing = collect_outgoing 0 dependencies (map (λ _. []) plan.entries) in
    let (finished, f) =
      finish_ready (length plan.entries) outgoing 0 (first_frontier dependencies) in
    if finished == length plan.entries
    then planned tt
    else refused (overwrite_cycle (blocked_names plan.entries f.indegree))

unfoldable pub entry_dependency_indices : PatchPlan → Planned (List (List ℕ))
unfolding collect_writers add_consumers validate_acyclic
entry_dependency_indices plan = elim (collect_writers plan 0 plan.entries []) [
  | refused error ↦ refused error
  | planned writers ↦
      let dependencies = add_consumers writers 0 plan.entries (map (λ _. []) plan.entries) in
      elim (validate_acyclic plan dependencies) [
        | refused error ↦ refused error
        | planned _ ↦ planned dependencies
      ]
]

-- The inner loop of `entry_wave_indices`, over a wave.
unfoldable pub release_wave : List (List ℕ) → List ℕ → Frontier → Frontier
unfolding release_all dependents_of
release_wave outgoing [] f = f
release_wave outgoing (index ∷ wave) f =
    release_wave outgoing wave (release_all (dependents_of outgoing index) f)

unfoldable pub waves_from : ℕ → List (List ℕ) → Frontier → List (List ℕ)
unfolding release_wave
waves_from zero outgoing f = []
waves_from (suc rounds) outgoing f = elim f.ready [
  | [] ↦ []
  | index ∷ rest ↦
      (index ∷ rest)
      ∷ waves_from rounds outgoing (release_wave outgoing (index ∷ rest) (record f { ready = [] }))
]

unfoldable pub entry_wave_indices : PatchPlan → Planned (List (List ℕ))
unfolding entry_dependency_indices collect_outgoing first_frontier waves_from
entry_wave_indices plan = elim (entry_dependency_indices plan) [
  | refused error ↦ refused error
  | planned dependencies ↦ planned (
      waves_from (length plan.entries)
        (collect_outgoing 0 dependencies (map (λ _. []) plan.entries))
        (first_frontier dependencies))
]

-- ===== src/Patch/Consumers.antt =====
-- patch_apply/dependency.rs: `entry_dependency_indices`, which entry must precede which.
use griffr.Common.{
  ℕ, zero, suc, ◌+◌, ◌≤◌, ◌<◌, ◌≡◌, refl, ◌∙◌, subst, ◌≢◌, ◌↔◌, ◌⊎◌, inl, inr, Bool, true, false,
  ◌&&◌, ◌||◌, Option, none, some, List, [], ◌∷◌, map, arith, ltb, Bool-cases, Option-cases, nat_eq,
  ◌==◌, ==_iff, ==_refl, length, get_elem?, contains, length-map, text_eq, Map, get, nat_order,
  text_order, flagged_eq, flagged_order, contains-insert_ordered,
}
use griffr.Patch.Plan.{FilePath, path_eq, PlannedPatchEntry, PatchPlan, planned, Planned-cases}
use griffr.Patch.Dependencies.{
  logical_destination, aliases, collect_writers, insert_into, base_of, writer_of, add_consumers,
  dependents_of, validate_acyclic, entry_dependency_indices,
}
use griffr.Patch.Writers.{collect_writers_iff}

pub insert_into-dependents_of :
    (sets : List (List ℕ)) (i v w c : ℕ)
    → contains (dependents_of (insert_into sets i v) w) c
      ≡ (contains (dependents_of sets w) c || ((ltb i (length sets) && w == i) && c == v))
unfolding insert_into dependents_of
insert_into-dependents_of [] i v w c = ground arith
insert_into-dependents_of (s ∷ sets) zero v zero c = ground (arith, contains-insert_ordered v c s)
insert_into-dependents_of (s ∷ sets) zero v (suc w) c = ground arith
insert_into-dependents_of (s ∷ sets) (suc i) v zero c = ground arith
insert_into-dependents_of (s ∷ sets) (suc i) v (suc w) c =
    ground (arith, insert_into-dependents_of sets i v w c)

pub length-insert_into :
    (sets : List (List ℕ)) (i v : ℕ) → length (insert_into sets i v) ≡ length sets
unfolding insert_into
length-insert_into [] i v = refl
length-insert_into (s ∷ sets) zero v = refl
length-insert_into (s ∷ sets) (suc i) v = omega (arith, length-insert_into sets i v)

-- The entry `c`, counted from `index`, reads what the entry `w` overwrites.
unfoldable pub consumes : Map FilePath ℕ → ℕ → List PlannedPatchEntry → ℕ → ℕ → Bool
consumes writers index [] w c = false
consumes writers index (e ∷ es) w c =
    elim (writer_of writers index e) [ none ↦ false | some writer ↦ w == writer && c == index ]
    || consumes writers (suc index) es w c

add_consumers-dependents_of :
    (writers : Map FilePath ℕ) (index : ℕ) (es : List PlannedPatchEntry) (sets : List (List ℕ))
    (w c : ℕ)
    → w < length sets
    → contains (dependents_of (add_consumers writers index es sets) w) c
      ≡ (contains (dependents_of sets w) c || consumes writers index es w c)
unfolding add_consumers consumes
add_consumers-dependents_of writers index [] sets w c h = ground arith
add_consumers-dependents_of writers index (e ∷ es) sets w c h =
    elim (Option-cases (writer_of writers index e)) [
      | inl without ↦ rw without (add_consumers-dependents_of writers (suc index) es sets w c h)
      | inr (writer, e') ↦ rw e' (
          ground (
            arith,
            add_consumers-dependents_of writers (suc index) es (insert_into sets writer index) w c,
            length-insert_into sets writer index,
            insert_into-dependents_of sets writer index w c,
          ))
    ]

pub aliases_iff :
    (plan : PatchPlan) (e : PlannedPatchEntry) (p : FilePath)
    → (contains (aliases plan e) p ≡ true)
      ↔ ((p ≡ e.destination) ⊎ (p ≡ logical_destination plan e))
unfolding aliases
aliases_iff plan e p =
    let logical = logical_destination plan e in
    (
      λ c. elim (Bool-cases (p == e.destination)) [
        | inl here ↦ inl ((==_iff p e.destination).0 here)
        | inr other ↦ inr (
            ground
              (arith, ==_iff p logical, ==_iff p e.destination, ==_iff e.destination logical, c))
      ],
      λ q. elim q [
        | inl here ↦ rw here (ground (arith, ==_iff e.destination logical, ==_refl e.destination))
        | inr there ↦ rw there (ground (arith, ==_iff e.destination logical, ==_refl logical))
      ],
    )

-- The entry `c` patches a file that the entry `w` overwrites.
abbrev pub Overwrites : PatchPlan → ℕ → ℕ → Type 0
Overwrites plan w c =
    (reader : PlannedPatchEntry) × (base : FilePath) × (writer : PlannedPatchEntry) × (get_elem?
        plan.entries c
      ≡ some reader)
    × (base_of reader ≡ some base)
    × (get_elem? plan.entries w ≡ some writer)
    × ((base ≡ writer.destination) ⊎ (base ≡ logical_destination plan writer))
    × (w ≢ c)

module _ (writers : Map FilePath ℕ) where
  -- What `writer_of` finds.
  writer_of_sound :
      (index : ℕ) (e : PlannedPatchEntry) (w : ℕ)
      → writer_of writers index e ≡ some w
      → (base : FilePath) × (base_of e ≡ some base) × (get writers base ≡ some w) × (w ≢ index)
  unfolding writer_of
  writer_of_sound index e w h = elim (Option-cases (base_of e)) [
    | inl missing ↦ absurd (ground (arith, h))
    | inr (base, b) ↦ elim (Option-cases (get writers base)) [
      | inl unwritten ↦ absurd (ground (arith, h))
      | inr (v, g) ↦ (base, b, ground (arith, h), λ same. ground (arith, h))
    ]
  ]

  writer_of_complete :
      (index : ℕ) (e : PlannedPatchEntry) (base : FilePath) (w : ℕ)
      → base_of e ≡ some base
      → get writers base ≡ some w
      → w ≢ index
      → writer_of writers index e ≡ some w
  unfolding writer_of
  writer_of_complete index e base w b g other = rw (writer_of, b, g) (ground arith)

  consumes_sound :
      (index : ℕ) (es : List PlannedPatchEntry) (w c : ℕ)
      → consumes writers index es w c ≡ true
      → (i : ℕ) × (index + i ≡ c)
        × (e : PlannedPatchEntry) × (get_elem? es i ≡ some e)
        × (writer_of writers c e ≡ some w)
  unfolding consumes
  consumes_sound index [] w c h = cc
  consumes_sound index (e ∷ es) w c h = elim (Bool-cases (consumes writers (suc index) es w c)) [
    | inl later ↦
        let (i, at, e', found, f) = consumes_sound (suc index) es w c later in
        (suc i, omega arith, e', found, f)
    | inr first ↦ elim (Option-cases (writer_of writers index e)) [
      | inl without ↦ absurd (ground (arith, h))
      | inr (writer, found) ↦
          let at : c ≡ index = ground (arith, h) in
          (0, omega arith, e, refl, rw at (ground (arith, h)))
    ]
  ]

  consumes_complete :
      (index : ℕ) (es : List PlannedPatchEntry) (w c i : ℕ) (e : PlannedPatchEntry)
      → index + i ≡ c
      → get_elem? es i ≡ some e
      → writer_of writers c e ≡ some w
      → consumes writers index es w c ≡ true
  unfolding consumes
  consumes_complete index [] w c i e at found f = cc
  consumes_complete index (e' ∷ es) w c zero e at found f =
      let here : index ≡ c = omega arith in
      let same : e' ≡ e = ground (arith, found) in rw (here, same, f) (ground arith)
  consumes_complete index (e' ∷ es) w c (suc i) e at found f =
      ground (arith, consumes_complete (suc index) es w c i e)

pub dependents_of_blank :
    (es : List PlannedPatchEntry) (w c : ℕ)
    → contains (dependents_of (map (λ _. []) es) w) c ≡ false
unfolding dependents_of
dependents_of_blank [] w c = refl
dependents_of_blank (e ∷ es) zero c = refl
dependents_of_blank (e ∷ es) (suc w) c = dependents_of_blank es w c

pub dependents_of_beyond :
    (sets : List (List ℕ)) (w : ℕ) → length sets ≤ w → dependents_of sets w ≡ []
unfolding dependents_of
dependents_of_beyond [] w h = refl
dependents_of_beyond (s ∷ sets) zero h = absurd (omega arith)
dependents_of_beyond (s ∷ sets) (suc w) h = dependents_of_beyond sets w (omega arith)

lt_of_found :
    (es : List PlannedPatchEntry) (i : ℕ) {e : PlannedPatchEntry}
    → get_elem? es i ≡ some e
    → i < length es
lt_of_found [] i h = cc
lt_of_found (e ∷ es) zero h = omega arith
lt_of_found (e ∷ es) (suc i) h = omega (arith, lt_of_found es i h)

pub length-add_consumers :
    (writers : Map FilePath ℕ) (index : ℕ) (es : List PlannedPatchEntry) (sets : List (List ℕ))
    → length (add_consumers writers index es sets) ≡ length sets
unfolding add_consumers
length-add_consumers writers index [] sets = refl
length-add_consumers writers index (e ∷ es) sets =
    length-add_consumers writers (suc index) es _ ∙ by_writer (writer_of writers index e)
  where
    by_writer :
        (found : Option ℕ)
        → length (elim found [ none ↦ sets | some writer ↦ insert_into sets writer index ])
          ≡ length sets
    by_writer none = refl
    by_writer (some writer) = length-insert_into sets writer index

-- The parts of a call that succeeds.
pub entry_dependency_indices_parts :
    (plan : PatchPlan) {dependencies : List (List ℕ)}
    → entry_dependency_indices plan ≡ planned dependencies
    → (writers : Map FilePath ℕ) × (collect_writers plan 0 plan.entries [] ≡ planned writers)
      × (dependencies ≡ add_consumers writers 0 plan.entries (map (λ _. []) plan.entries))
      × (validate_acyclic plan dependencies ≡ planned tt)
unfolding entry_dependency_indices
entry_dependency_indices_parts plan {dependencies} h =
    elim (Planned-cases (collect_writers plan 0 plan.entries [])) [
      | inr (error, bad) ↦ absurd (ground (arith, h))
      | inl (writers, made) ↦
          let found = add_consumers writers 0 plan.entries (map (λ _. []) plan.entries) in
          elim (Planned-cases (validate_acyclic plan found)) [
            | inr (error, bad) ↦ absurd (ground (arith, h))
            | inl (done, fine) ↦
                let same : dependencies ≡ found = ground (arith, h) in
                (writers, made, same, rw same fine)
          ]
    ]

-- The sets that the second loop collects.
collected :
    (plan : PatchPlan) (writers : Map FilePath ℕ) (w c : ℕ)
    → contains
        (dependents_of (add_consumers writers 0 plan.entries (map (λ _. []) plan.entries)) w)
        c
      ≡ (ltb w (length plan.entries) && consumes writers 0 plan.entries w c)
collected plan writers w c =
    let blank : List (List ℕ) = map (λ _. []) plan.entries in
    let size : length blank ≡ length plan.entries = length-map (λ _. []) plan.entries in
    elim (Bool-cases (ltb w (length plan.entries))) [
      | inl inside ↦ rw inside (
          ground (
            arith,
            add_consumers-dependents_of writers 0 plan.entries blank w c (ground (arith, size)),
            dependents_of_blank plan.entries w c,
          ))
      | inr beyond ↦
          rw
            (
              beyond,
              dependents_of_beyond (add_consumers writers 0 plan.entries blank) w
                  (ground (arith, size, length-add_consumers writers 0 plan.entries blank)),
            )
            refl
    ]

-- The sets that the second loop collects, against the paths.
pub collected_iff :
    (plan : PatchPlan) {writers : Map FilePath ℕ}
    → collect_writers plan 0 plan.entries [] ≡ planned writers
    → (w c : ℕ)
    → (contains
          (dependents_of (add_consumers writers 0 plan.entries (map (λ _. []) plan.entries)) w)
          c
        ≡ true)
      ↔ Overwrites plan w c
collected_iff plan {writers} made w c =
    let members = collected plan writers w c in
    (
      λ m.
          let (i, at, reader, found, f) =
            consumes_sound writers 0 plan.entries w c (ground (arith, members)) in
          let (base, b, g, other) = writer_of_sound writers c reader w f in
          let (writer, there, wrote) = (collect_writers_iff plan made base w).0 g in
          let here : i ≡ c = omega arith in
          (
            reader,
            base,
            writer,
            subst (λ k. get_elem? plan.entries k ≡ some reader) here found,
            b,
            there,
            (aliases_iff plan writer base).0 wrote,
            other,
          ),
      λ q.
          let (reader, base, writer, found, b, there, wrote, other) = q in
          let g =
            (collect_writers_iff plan made base w).1
              (writer, there, (aliases_iff plan writer base).1 wrote) in
          let f = writer_of_complete writers c reader base w b g other in
          ground (
            arith,
            members,
            lt_of_found plan.entries w there,
            consumes_complete writers 0 plan.entries w c c reader (omega arith) found f,
          ),
    )

-- Where entry_dependency_indices accepts a plan, an entry w depends on an entry c just when c
-- patches a base that w writes under one of its two paths, and is another entry.
pub entry_dependency_indices_iff :
    (plan : PatchPlan) {dependencies : List (List ℕ)}
    → entry_dependency_indices plan ≡ planned dependencies
    → (w c : ℕ) → (contains (dependents_of dependencies w) c ≡ true) ↔ Overwrites plan w c
entry_dependency_indices_iff plan {dependencies} h w c =
    let (writers, made, same, fine) = entry_dependency_indices_parts plan h in
    rw same (collected_iff plan made w c)

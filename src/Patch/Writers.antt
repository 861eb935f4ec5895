-- ===== src/Patch/Writers.antt =====
-- patch_apply/dependency.rs: the map from the paths to the entries that write them.
use griffr.Common.{
  ℕ, zero, suc, ◌+◌, ◌≡◌, refl, sym, ap, ◌∙◌, subst, ◌↔◌, inl, inr, true, false, Option, none, some,
  List, [], ◌∷◌, arith, if◌then◌else◌, Bool-cases, Option-cases, is_some, nat_eq, ◌==◌, ==_iff,
  ==_refl, get_elem?, contains, text_eq, Map, get, insert, contains_key, get-insert, nat_order,
  text_order, flagged_eq, flagged_order,
}
use griffr.Patch.Plan.{FilePath, path_eq, PlannedPatchEntry, PatchPlan, planned, Planned-cases}
use griffr.Patch.Dependencies.{logical_destination, aliases, add_writer, collect_writers}

module _ (index : ℕ) where
  record Added (ps : List FilePath) (writers next : Map FilePath ℕ) : Type 0 where
    looked_up : (p : FilePath) → get next p ≡ (if contains ps p then some index else get writers p)
    were_new : (p : FilePath) → contains ps p ≡ true → get writers p ≡ none

  add_writer-Added :
      (ps : List FilePath) (writers : Map FilePath ℕ) {next : Map FilePath ℕ}
      → add_writer index ps writers ≡ planned next
      → Added ps writers next
  unfolding add_writer contains_key
  add_writer-Added [] writers {next} h =
      let same : writers ≡ next = ground (arith, h) in
      record {
        looked_up = λ p. ap (λ (m : Map FilePath ℕ). get m p) (sym same);
        were_new = λ p c. cc;
      }
  add_writer-Added (q ∷ ps) writers {next} h = elim (Option-cases (get writers q)) [
    | inr (w, e) ↦ absurd (ground (arith, h))
    | inl fresh ↦
        let rest = add_writer-Added ps (insert writers q index) {next = next} (ground (arith, h)) in
        record {
          looked_up = λ p.
              ground
                (arith, rest.looked_up p, get-insert writers q p index, ==_iff p q, ==_iff q p);
          were_new = λ p c. elim (Bool-cases (p == q)) [
            | inl here ↦
                subst (λ (k : FilePath). get writers k ≡ none) (sym ((==_iff p q).0 here)) fresh
            | inr there ↦
                ground
                  (arith, rest.were_new p, get-insert writers q p index, ==_iff p q, ==_iff q p)
          ];
        }
  ]

abbrev AreSingle : List FilePath → Type 0
AreSingle [] = Unit
AreSingle (p ∷ ps) = (contains ps p ≡ false) × AreSingle ps

aliases-Single : (plan : PatchPlan) (e : PlannedPatchEntry) → AreSingle (aliases plan e)
unfolding aliases
aliases-Single plan e =
    let logical = logical_destination plan e in
    ground (arith, ==_iff e.destination logical, ==_iff logical e.destination)

add_writer-cons :
    (index : ℕ) (q : FilePath) (ps : List FilePath) (writers : Map FilePath ℕ)
    → get writers q ≡ none
    → add_writer index (q ∷ ps) writers ≡ add_writer index ps (insert writers q index)
unfolding add_writer contains_key
add_writer-cons index q ps writers free = ground (arith, free)

add_writer_new :
    (index : ℕ) (ps : List FilePath) (writers : Map FilePath ℕ)
    → AreSingle ps
    → ((p : FilePath) → contains ps p ≡ true → get writers p ≡ none)
    → (next : Map FilePath ℕ) × (add_writer index ps writers ≡ planned next)
unfolding add_writer contains_key
add_writer_new index [] writers s h = (writers, refl)
add_writer_new index (q ∷ ps) writers s h =
    let free = h q (ground (arith, ==_refl q)) in
    let (next, made) = add_writer_new index ps (insert writers q index) s.1 (λ p c.
      ground (arith, h p, get-insert writers q p index, ==_iff q p, s.0, ap (contains ps))) in
    (next, add_writer-cons index q ps writers free ∙ made)

module _ (plan : PatchPlan) where
  -- The first entry, counted from `index`, that writes the path.
  unfoldable pub first_writer : ℕ → List PlannedPatchEntry → FilePath → Option ℕ
  first_writer index [] p = none
  first_writer index (e ∷ es) p =
      let rest = first_writer (suc index) es p in
      if contains (aliases plan e) p then some index else rest

  module _ (index : ℕ) (e : PlannedPatchEntry) (es : List PlannedPatchEntry)
      (writers : Map FilePath ℕ) {result : Map FilePath ℕ}
      (h : collect_writers plan index (e ∷ es) writers ≡ planned result) where
    -- The map after the first entry.
    collect_first :
        (next : Map FilePath ℕ) × Added index (aliases plan e) writers next
        × (collect_writers plan (suc index) es next ≡ planned result)
    unfolding collect_writers
    collect_first = elim (Planned-cases (add_writer index (aliases plan e) writers)) [
      | inr (error, bad) ↦ absurd (ground (arith, h))
      | inl (next, made) ↦
          (next, add_writer-Added index (aliases plan e) writers made, ground (arith, h))
    ]

  get-collect_writers :
      (index : ℕ) (es : List PlannedPatchEntry) (writers : Map FilePath ℕ) {result : Map FilePath ℕ}
      → collect_writers plan index es writers ≡ planned result
      → (p : FilePath)
      → get result p ≡ (if is_some (get writers p) then get writers p else first_writer index es p)
  unfolding collect_writers first_writer
  get-collect_writers index [] writers {result} h p =
      let same : writers ≡ result = ground (arith, h) in
      subst
        (λ (m : Map FilePath ℕ).
          get m p ≡ (if is_some (get writers p) then get writers p else none))
        same (ground arith)
  get-collect_writers index (e ∷ es) writers {result} h p =
      let (next, a, rest) = collect_first index e es writers h in
      ground (arith, get-collect_writers (suc index) es next rest p, a.looked_up p, a.were_new p)

  -- Every entry is the writer of its paths.
  collect_writers_complete :
      (index : ℕ) (es : List PlannedPatchEntry) (writers : Map FilePath ℕ) {result : Map FilePath ℕ}
      → collect_writers plan index es writers ≡ planned result
      → (p : FilePath) (i : ℕ) (e : PlannedPatchEntry) → get_elem? es i ≡ some e
      → contains (aliases plan e) p ≡ true
      → get result p ≡ some (index + i)
  collect_writers_complete index [] writers h p i e found c = cc
  collect_writers_complete index (e' ∷ es) writers h p zero e found c =
      let (next, a, rest) = collect_first index e' es writers h in
      ground (arith, found, get-collect_writers (suc index) es next rest p, a.looked_up p)
  collect_writers_complete index (e' ∷ es) writers h p (suc i) e found c =
      let (next, a, rest) = collect_first index e' es writers h in
      collect_writers_complete (suc index) es next rest p i e found c ∙ ap some (omega arith)

  first_writer_sound :
      (index : ℕ) (es : List PlannedPatchEntry) (p : FilePath) (w : ℕ)
      → first_writer index es p ≡ some w
      → (i : ℕ) × (index + i ≡ w)
        × (e : PlannedPatchEntry) × (get_elem? es i ≡ some e)
        × (contains (aliases plan e) p ≡ true)
  unfolding first_writer
  first_writer_sound index [] p w h = cc
  first_writer_sound index (e ∷ es) p w h = elim (Bool-cases (contains (aliases plan e) p)) [
    | inl here ↦ (0, ground (arith, h), e, refl, here)
    | inr there ↦
        let (i, at, e', found, c) = first_writer_sound (suc index) es p w (ground (arith, h)) in
        (suc i, omega arith, e', found, c)
  ]

  -- The map holds the entries that write a path, and no others.
  pub collect_writers_iff :
      {writers : Map FilePath ℕ}
      → collect_writers plan 0 plan.entries [] ≡ planned writers
      → (p : FilePath) (w : ℕ)
      → (get writers p ≡ some w) ↔ (
          (e : PlannedPatchEntry) × (get_elem? plan.entries w ≡ some e)
          × (contains (aliases plan e) p ≡ true))
  unfolding get
  collect_writers_iff h p w = (
    λ g.
        let (i, at, e, found, c) =
          first_writer_sound 0 plan.entries p w
            (sym (get-collect_writers 0 plan.entries [] h p) ∙ g) in
        let same : i ≡ w = omega arith in
        (e, subst (λ k. get_elem? plan.entries k ≡ some e) same found, c),
    λ q. collect_writers_complete 0 plan.entries [] h p w q.0 q.1 q.2 ∙ ap some (omega arith),
  )

  -- No entry of the list writes a path of the map, and no two of them the same path.
  pub record AreNew (es : List PlannedPatchEntry) (writers : Map FilePath ℕ) : Type 0 where
    pub fresh :
        (i : ℕ) (e : PlannedPatchEntry) (p : FilePath)
        → get_elem? es i ≡ some e
        → contains (aliases plan e) p ≡ true
        → get writers p ≡ none
    pub single :
        (i j : ℕ) (a b : PlannedPatchEntry) (p : FilePath)
        → get_elem? es i ≡ some a
        → get_elem? es j ≡ some b
        → contains (aliases plan a) p ≡ true
        → contains (aliases plan b) p ≡ true
        → i ≡ j

  collect_writers-cons :
      (index : ℕ) (e : PlannedPatchEntry) (es : List PlannedPatchEntry)
      (writers next : Map FilePath ℕ)
      → add_writer index (aliases plan e) writers ≡ planned next
      → collect_writers plan index (e ∷ es) writers ≡ collect_writers plan (suc index) es next
  unfolding collect_writers
  collect_writers-cons index e es writers next made = rw (collect_writers, made) refl

  pub collect_writers_new :
      (index : ℕ) (es : List PlannedPatchEntry) (writers : Map FilePath ℕ)
      → AreNew es writers
      → (result : Map FilePath ℕ) × (collect_writers plan index es writers ≡ planned result)
  unfolding collect_writers
  collect_writers_new index [] writers v = (writers, refl)
  collect_writers_new index (e ∷ es) writers v =
      let (next, made) =
        add_writer_new index (aliases plan e) writers (aliases-Single plan e)
          (λ p c. v.fresh 0 e p refl c) in
      let a = add_writer-Added index (aliases plan e) writers made in
      let (result, rest) = collect_writers_new (suc index) es next (record {
        fresh = λ i e' p found c. elim (Bool-cases (contains (aliases plan e) p)) [
          | inl twice ↦ absurd (omega (arith, v.single 0 (suc i) e e' p refl found twice c))
          | inr once ↦ ground (arith, a.looked_up p, once, v.fresh (suc i) e' p found c)
        ];
        single = λ i j a' b p f g c d. omega (arith, v.single (suc i) (suc j) a' b p f g c d);
      }) in
      (result, collect_writers-cons index e es writers next made ∙ rest)

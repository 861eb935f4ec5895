-- ===== src/Patch/Frontiers.antt =====
-- patch_apply/dependency.rs: the degrees and the ready entries between two steps of the loops.
use griffr.Common.{
  ℕ, zero, suc, ◌+◌, ◌≤◌, ◌<◌, ◌≡◌, refl, ap, ◌∙◌, inl, inr, true, false, some, List, [], ◌∷◌,
  arith, ltb, nat_beq, if◌then◌else◌, nat_beq_iff, Bool-cases, Option-cases, nat_eq, ◌==◌, length,
  get_elem?, set, all, length-set, contains, occurrences, text_eq, saturating_sub, nat_order,
  text_order, flagged_eq, flagged_order, insert_ordered, IsAscending, contains-insert_ordered,
  insert_ordered-IsAscending,
}
use griffr.Patch.Dependencies.{Frontier, release_all, dependents_of}

-- The prerequisites that are not done.
unfoldable pub open_of : List ℕ → List ℕ → ℕ
open_of done [] = 0
open_of done (p ∷ ps) = (if contains done p then 0 else 1) + open_of done ps

pub open_of-done :
    (done : List ℕ) (i : ℕ) (ps : List ℕ)
    → contains done i ≡ false
    → open_of (i ∷ done) ps + occurrences i ps ≡ open_of done ps
unfolding open_of
open_of-done done i [] h = refl
open_of-done done i (p ∷ ps) h =
    ground (arith, open_of-done done i ps, nat_beq_iff p i, ap (contains done))

pub open_of-none : (done ps : List ℕ) → open_of done ps ≡ 0 → all (contains done) ps ≡ true
unfolding open_of
open_of-none done [] h = refl
open_of-none done (p ∷ ps) h = ground (arith, open_of-none done ps)

pub member-occurrences : (a : ℕ) (xs : List ℕ) → contains xs a ≡ true → 1 ≤ occurrences a xs
member-occurrences a [] h = cc
member-occurrences a (x ∷ xs) h = ground (arith, member-occurrences a xs)

pub absent-occurrences : (a : ℕ) (xs : List ℕ) → contains xs a ≡ false → occurrences a xs ≡ 0
absent-occurrences a [] h = refl
absent-occurrences a (x ∷ xs) h = ground (arith, absent-occurrences a xs)

pub absent_below : (a : ℕ) (xs : List ℕ) → all (ltb a) xs ≡ true → contains xs a ≡ false
absent_below a [] h = refl
absent_below a (x ∷ xs) h = ground (arith, absent_below a xs)

pub get_elem?-set_other :
    (xs : List ℕ) (i j v : ℕ)
    → i < length xs
    → get_elem? (set xs i v) j ≡ (if nat_beq i j then some v else get_elem? xs j)
get_elem?-set_other [] i j v h = absurd (omega arith)
get_elem?-set_other (x ∷ xs) zero zero v h = ground arith
get_elem?-set_other (x ∷ xs) zero (suc j) v h = ground arith
get_elem?-set_other (x ∷ xs) (suc i) zero v h = ground arith
get_elem?-set_other (x ∷ xs) (suc i) (suc j) v h = ground (arith, get_elem?-set_other xs i j v)

lt_of_degree : (xs : List ℕ) (i : ℕ) {x : ℕ} → get_elem? xs i ≡ some x → i < length xs
lt_of_degree [] i h = cc
lt_of_degree (x ∷ xs) zero h = omega arith
lt_of_degree (x ∷ xs) (suc i) h = omega (arith, lt_of_degree xs i h)

pub members_differ :
    (xs : List ℕ) (d i : ℕ) → contains xs d ≡ true → contains xs i ≡ false → nat_beq d i ≡ false
members_differ [] d i c h = cc
members_differ (x ∷ xs) d i c h =
    ground (arith, nat_beq_iff d i, nat_beq_iff x i, nat_beq_iff x d, members_differ xs d i)

open_within :
    (dependencies : List (List ℕ)) (d : ℕ) (done : List ℕ)
    → 1 ≤ open_of done (dependents_of dependencies d)
    → d < length dependencies
unfolding open_of dependents_of
open_within [] d done h = absurd (omega arith)
open_within (ps ∷ rest) zero done h = omega arith
open_within (ps ∷ rest) (suc d) done h = omega (arith, open_within rest d done h)

module _ (dependencies outgoing : List (List ℕ)) (count : ℕ) where
  -- The entries in `done` are done, those in `coming` come next, and those in `left` still lose one
  -- from their degree.
  pub record IsFrontier (done coming left : List ℕ) (f : Frontier) : Type 0 where
    pub size : length f.indegree ≡ count
    pub degrees :
        (d : ℕ)
        → d < count
        → get_elem? f.indegree d
          ≡ some (open_of done (dependents_of dependencies d) + occurrences d left)
    pub ascending : IsAscending f.ready
    pub ready_open :
        (d : ℕ)
        → contains f.ready d ≡ true
        → (d < count)
          × (contains done d ≡ false)
          × (contains coming d ≡ false)
          × (open_of done (dependents_of dependencies d) ≡ 0)
    pub coming_open :
        (d : ℕ)
        → contains coming d ≡ true
        → (d < count)
          × (contains done d ≡ false)
          × (open_of done (dependents_of dependencies d) ≡ 0)
    pub closed : (d : ℕ) → contains done d ≡ true → open_of done (dependents_of dependencies d) ≡ 0
    pub left_open :
        (d : ℕ)
        → contains left d ≡ true
        → (d < count) × (contains done d ≡ false) × (contains coming d ≡ false)
    pub complete :
        (d : ℕ)
        → d < count
        → contains done d ≡ false
        → contains coming d ≡ false
        → open_of done (dependents_of dependencies d) + occurrences d left ≡ 0
        → contains f.ready d ≡ true

  release_one :
      (done coming : List ℕ) (d degree : ℕ) (left : List ℕ) (f : Frontier)
      → IsFrontier done coming (d ∷ left) f
      → get_elem? f.indegree d ≡ some degree
      → IsFrontier done coming left (record {
        indegree = set f.indegree d (saturating_sub degree 1);
        ready = if saturating_sub degree 1 == 0 then insert_ordered d f.ready else f.ready;
      })
  release_one done coming d degree left f v e =
      let lt : d < count = omega (arith, lt_of_degree f.indegree d e, v.size) in
      let is : open_of done (dependents_of dependencies d) + occurrences d (d ∷ left) ≡ degree =
        ground (arith, v.degrees d lt) in
      record {
        size = length-set f.indegree d (saturating_sub degree 1) ∙ v.size;
        degrees = λ k h. ground (
          arith,
          v.degrees k h,
          get_elem?-set_other f.indegree d k (saturating_sub degree 1) (omega (arith, v.size)),
        );
        ascending = ground (arith, v.ascending, insert_ordered-IsAscending d f.ready (v.ascending));
        ready_open = λ k c. elim (Bool-cases (saturating_sub degree 1 == 0)) [
          | inr more ↦ v.ready_open k (ground arith)
          | inl last ↦ elim (Bool-cases (nat_beq k d)) [
            | inl here ↦
                let same : k ≡ d = (nat_beq_iff k d).0 here in
                let (_, a, b) = v.left_open d (ground (arith, nat_beq_iff d d)) in
                rw same (lt, a, b, ground (arith, nat_beq_iff d d))
            | inr other ↦ v.ready_open k (ground (arith, contains-insert_ordered d k f.ready))
          ]
        ];
        coming_open = v.coming_open;
        closed = v.closed;
        left_open = λ k c. v.left_open k (ground arith);
        complete =
            λ k h a b z. ground (arith, v.complete k h a b, contains-insert_ordered d k f.ready);
      }

  pub release_all-IsFrontier :
      (done coming left : List ℕ) (f : Frontier)
      → IsFrontier done coming left f
      → IsFrontier done coming [] (release_all left f)
  unfolding release_all
  release_all-IsFrontier done coming [] f v = v
  release_all-IsFrontier done coming (d ∷ left) f v = elim (Option-cases (get_elem? f.indegree d)) [
    | inl beyond ↦
        let (lt, _, _) = v.left_open d (ground (arith, nat_beq_iff d d)) in
        absurd (ground (arith, v.degrees d lt))
    | inr (degree, e) ↦
        rw (release_all, e)
          (release_all-IsFrontier done coming left _ (release_one done coming d degree left f v e))
  ]

  -- The next entry is done.
  pub begin_release :
      (done coming : List ℕ) (i : ℕ) (f : Frontier)
      → length dependencies ≡ count
      → ((p d : ℕ)
          → p < count
          → occurrences d (dependents_of outgoing p) ≡ occurrences p (dependents_of dependencies d))
      → contains coming i ≡ false
      → IsFrontier done (i ∷ coming) [] f
      → IsFrontier (i ∷ done) coming (dependents_of outgoing i) f
  begin_release done coming i f sized transposed apart v =
      let (lt, fresh, zero_open) = v.coming_open i (ground (arith, nat_beq_iff i i)) in
      let counted : (d : ℕ)
          → open_of (i ∷ done) (dependents_of dependencies d)
              + occurrences d (dependents_of outgoing i)
            ≡ open_of done (dependents_of dependencies d) =
        λ d.
          omega
            (arith, transposed i d lt, open_of-done done i (dependents_of dependencies d) fresh) in
      record {
        size = v.size;
        degrees = λ d h. ground (arith, v.degrees d h, counted d);
        ascending = v.ascending;
        ready_open = λ d c. ground (arith, v.ready_open d c, counted d);
        coming_open =
            λ d c. ground (arith, v.coming_open d, counted d, members_differ coming d i c apart);
        closed = λ d c. ground (arith, v.closed d, counted d, nat_beq_iff d i);
        left_open = λ d c.
            let some_open : 1 ≤ open_of done (dependents_of dependencies d) =
              omega (arith, member-occurrences d (dependents_of outgoing i) c, counted d) in
            (
              ground (arith, open_within dependencies d done some_open),
              ground (arith, v.closed d, nat_beq_iff d i),
              ground (arith, v.coming_open d),
            );
        complete =
            λ d h a b z. v.complete d h (ground arith) (ground arith) (ground (arith, counted d));
      }

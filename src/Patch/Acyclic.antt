-- ===== src/Patch/Acyclic.antt =====
-- patch_apply/dependency.rs: `validate_acyclic`, which accepts a plan where the entries have an order.
use griffr.Common.{
  ℕ, zero, suc, ◌+◌, ◌≤◌, ◌<◌, ◌≡◌, refl, ap, subst, inl, inr, true, false, List, [], ◌∷◌, arith,
  ltb, nat_beq, if◌then◌else◌, nat_beq_iff, Bool-cases, List-cases, nat_eq, length, all, contains,
  occurrences, text_eq, saturating_add, nat_order, text_order, flagged_eq, flagged_order,
  IsAscending,
}
use griffr.Patch.Plan.{path_eq}
use griffr.Patch.Dependencies.{Frontier, dependents_of, finish_ready}
use griffr.Patch.Frontiers.{
  open_of-none, absent_below, members_differ, IsFrontier, release_all-IsFrontier, begin_release,
}

-- Numbers below the bound, each once.
abbrev pub IsSpread : ℕ → List ℕ → Type 0
IsSpread count [] = Unit
IsSpread count (x ∷ xs) = (x < count) × (contains xs x ≡ false) × IsSpread count xs

-- How many numbers below the bound are members.
unfoldable pub members_below : ℕ → List ℕ → ℕ
members_below zero xs = 0
members_below (suc n) xs = (if contains xs n then 1 else 0) + members_below n xs

pub members_below-cons :
    (n x : ℕ) (xs : List ℕ)
    → contains xs x ≡ false
    → members_below n (x ∷ xs) ≡ members_below n xs + (if ltb x n then 1 else 0)
unfolding members_below
members_below-cons zero x xs h = ground arith
members_below-cons (suc n) x xs h =
    ground (arith, members_below-cons n x xs h, nat_beq_iff n x, ap (contains xs))

pub members_below_le : (n : ℕ) (xs : List ℕ) → members_below n xs ≤ n
unfolding members_below
members_below_le zero xs = omega arith
members_below_le (suc n) xs = ground (arith, members_below_le n xs)

members_below-full : (n d : ℕ) (xs : List ℕ) → n ≤ members_below n xs → d < n → contains xs d ≡ true
unfolding members_below
members_below-full zero d xs h lt = absurd (omega arith)
members_below-full (suc n) d xs h lt = elim (Bool-cases (nat_beq d n)) [
  | inl last ↦
      let same : d ≡ n = (nat_beq_iff d n).0 last in rw same (ground (arith, members_below_le n xs))
  | inr other ↦
      members_below-full n d xs (ground (arith, members_below_le n xs))
        (ground (arith, nat_beq_iff d n))
]

pub length-IsSpread :
    (count : ℕ) (xs : List ℕ) → IsSpread count xs → length xs ≤ members_below count xs
length-IsSpread count [] v = omega arith
length-IsSpread count (x ∷ xs) v =
    ground (arith, members_below-cons count x xs v.1, length-IsSpread count xs v.2)

-- As many numbers as the bound are all the numbers below it.
pub IsSpread-full :
    (count d : ℕ) (xs : List ℕ)
    → IsSpread count xs
    → count ≤ length xs
    → d < count
    → contains xs d ≡ true
IsSpread-full count d xs v h lt =
    members_below-full count d xs (omega (arith, length-IsSpread count xs v)) lt

-- Every entry comes before those that it waits for: the last one that is done is the first.
abbrev pub IsFinishOrder : List (List ℕ) → List ℕ → Type 0
IsFinishOrder dependencies [] = Unit
IsFinishOrder dependencies (i ∷ earlier) =
    (all (contains earlier) (dependents_of dependencies i) ≡ true)
    × IsFinishOrder dependencies earlier

module _ (dependencies outgoing : List (List ℕ)) (count : ℕ) (sized : length dependencies ≡ count)
    (transposed : (p d : ℕ)
      → p < count
      → occurrences d (dependents_of outgoing p)
        ≡ occurrences p (dependents_of dependencies d)) where
  -- The first ready entry comes next.
  pub take_first :
      (done : List ℕ) (i : ℕ) (rest : List ℕ) (f : Frontier)
      → f.ready ≡ i ∷ rest
      → IsFrontier dependencies outgoing count done [] [] f
      → IsFrontier dependencies outgoing count done (i ∷ []) [] (record f { ready = rest })
  take_first done i rest f is v =
      let up : IsAscending (i ∷ rest) = subst IsAscending is v.ascending in
      record {
        size = v.size;
        degrees = v.degrees;
        ascending = up.1;
        ready_open = λ d c. ground (
          arith,
          v.ready_open d (rw is (ground arith)),
          absent_below i rest up.0,
          members_differ rest d i c,
        );
        coming_open = λ d c.
            let (lt, new, _, free) = v.ready_open d (rw is (ground (arith, c))) in (lt, new, free);
        closed = v.closed;
        left_open = λ d c. absurd (ground (arith, c));
        complete = λ d h a b z.
            let there : contains (i ∷ rest) d ≡ true =
              subst (λ xs. contains xs d ≡ true) is (v.complete d h a refl z) in
            ground arith;
      }

  -- The order in which the loop finishes the entries.
  pub finish_ready-order :
      (rounds finished : ℕ) (done : List ℕ) (f : Frontier)
      → IsFrontier dependencies outgoing count done [] [] f
      → IsSpread count done
      → IsFinishOrder dependencies done
      → finished ≤ length done
      → (order : List ℕ) × IsSpread count order
        × IsFinishOrder dependencies order
        × ((finish_ready rounds outgoing finished f).0 ≤ length order)
  unfolding finish_ready
  finish_ready-order zero finished done f v s o h = (done, s, o, h)
  finish_ready-order (suc rounds) finished done f v s o h = elim (List-cases f.ready) [
    | inl idle ↦ (done, s, o, rw (finish_ready, idle) h)
    | inr (i, rest, is) ↦
        let w = take_first done i rest f is v in
        let (lt, new, free) = w.coming_open i (ground (arith, nat_beq_iff i i)) in
        let next =
          release_all-IsFrontier dependencies outgoing count (i ∷ done) []
            (dependents_of outgoing i) (record f { ready = rest })
            (begin_release dependencies outgoing count done [] i _ sized transposed refl w) in
        let (order, s', o', h') =
          finish_ready-order rounds (saturating_add finished 1) (i ∷ done) _ next (lt, new, s)
            (open_of-none done (dependents_of dependencies i) free, o) (ground arith) in
        (order, s', o', rw (finish_ready, is) h')
  ]

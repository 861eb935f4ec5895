-- ===== src/Patch/Complete.antt =====
-- patch_apply/dependency.rs: `validate_acyclic` accepts every plan whose entries have an order.
use griffr.Common.{
  ℕ, zero, suc, ◌+◌, ◌≤◌, ◌<◌, ◌≡◌, refl, ap, inl, inr, true, List, [], ◌∷◌, arith, nat_beq_iff,
  Bool-cases, List-cases, nat_eq, length, contains, occurrences, text_eq, word, word_max,
  saturating_add, nat_order, text_order, flagged_eq, flagged_order,
}
use griffr.Patch.Plan.{path_eq}
use griffr.Patch.Dependencies.{Frontier, dependents_of, finish_ready}
use griffr.Patch.Frontiers.{IsFrontier, release_all-IsFrontier, begin_release}
use griffr.Patch.Acyclic.{
  IsSpread, members_below, members_below-cons, members_below_le, length-IsSpread, IsSpread-full,
  IsFinishOrder, take_first,
}
use griffr.Patch.Scheduled.{ordered_done}

members_below-known :
    (n x : ℕ) (xs : List ℕ) → contains xs x ≡ true → members_below n (x ∷ xs) ≡ members_below n xs
unfolding members_below
members_below-known zero x xs h = refl
members_below-known (suc n) x xs h =
    ground (arith, members_below-known n x xs h, nat_beq_iff n x, ap (contains xs))

members_below-nil : (n : ℕ) → members_below n [] ≤ 0
unfolding members_below
members_below-nil zero = omega arith
members_below-nil (suc n) = ground (arith, members_below-nil n)

all_below :
    (n : ℕ) (xs : List ℕ) → ((d : ℕ) → d < n → contains xs d ≡ true) → members_below n xs ≡ n
unfolding members_below
all_below zero xs h = refl
all_below (suc n) xs h =
    ground (arith, h n (omega arith), all_below n xs (λ d lt. h d (omega arith)))

members_below-length : (n : ℕ) (xs : List ℕ) → members_below n xs ≤ length xs
members_below-length n [] = members_below-nil n
members_below-length n (x ∷ xs) = elim (Bool-cases (contains xs x)) [
  | inr new ↦ ground (arith, members_below-cons n x xs new, members_below-length n xs)
  | inl known ↦ ground (arith, members_below-known n x xs known, members_below-length n xs)
]

module _ (dependencies outgoing : List (List ℕ)) (count : ℕ) (sized : length dependencies ≡ count)
    (transposed : (p d : ℕ)
      → p < count
      → occurrences d (dependents_of outgoing p)
        ≡ occurrences p (dependents_of dependencies d)) where
  pub finish_ready-all :
      (order : List ℕ)
      → IsSpread count order
      → IsFinishOrder dependencies order
      → count ≤ length order
      → count ≤ word_max
      → (rounds finished : ℕ) (done : List ℕ) (f : Frontier)
      → IsFrontier dependencies outgoing count done [] [] f
      → IsSpread count done
      → length done ≤ finished
      → count ≤ rounds + length done
      → count ≤ (finish_ready rounds outgoing finished f).0
  unfolding finish_ready
  finish_ready-all order so o full word zero finished done f v s h enough = omega arith
  finish_ready-all order so o full word (suc rounds) finished done f v s h enough =
      elim (List-cases f.ready) [
        | inl idle ↦
            let every : members_below count done ≡ count = all_below count done (λ d lt.
              ordered_done dependencies outgoing count done order f v idle so o d
                (IsSpread-full count d order so full lt)) in
            rw (finish_ready, idle) (omega (arith, members_below-length count done))
        | inr (i, rest, is) ↦
            let w = take_first dependencies outgoing count sized transposed done i rest f is v in
            let (lt, new, free) = w.coming_open i (ground (arith, nat_beq_iff i i)) in
            let spread : IsSpread count (i ∷ done) = (lt, new, s) in
            let within : length (i ∷ done) ≤ count =
              omega (
                arith,
                length-IsSpread count (i ∷ done) spread,
                members_below_le count (i ∷ done),
              ) in
            let next =
              release_all-IsFrontier dependencies outgoing count (i ∷ done) []
                (dependents_of outgoing i) (record f { ready = rest })
                (begin_release dependencies outgoing count done [] i _ sized transposed refl w) in
            rw (finish_ready, is)
              (finish_ready-all order so o full word rounds (saturating_add finished 1) (i ∷ done) _
                next spread (ground arith) (omega arith))
      ]

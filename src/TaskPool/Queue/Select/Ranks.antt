-- ===== src/TaskPool/Queue/Select/Ranks.antt =====
-- task_pool/scheduler/queue/priority_queue.rs: the order of the ranks, and the rank that is kept.
use griffr.Common.{
  ℕ, suc, ◌+◌, ◌≡◌, refl, ◌⊎◌, inl, inr, Bool, true, false, ◌&&◌, Option, none, some, arith, ltb,
  Bool-cases, nat_eq, text_eq, text_order, flagged_eq, flagged_order,
}
use griffr.TaskPool.Queue.Select.{Rank, then_less, rank_less, keep_best}

then_less_trans :
    (a b c : ℕ) (p q r : Bool)
    → (p ≡ true → q ≡ true → r ≡ true)
    → then_less a b p ≡ true
    → then_less b c q ≡ true
    → then_less a c r ≡ true
then_less_trans a b c p q r h x y = ground arith

then_less-trans_down :
    (a b c : ℕ) (p q r : Bool)
    → (p ≡ true → q ≡ true → r ≡ true)
    → then_less b a p ≡ true
    → then_less c b q ≡ true
    → then_less c a r ≡ true
then_less-trans_down a b c p q r h x y = ground arith

ltb_trans : (a b c : ℕ) → ltb a b ≡ true → ltb b c ≡ true → ltb a c ≡ true
ltb_trans a b c h k = ground arith

rank_less_trans :
    (x y z : Rank) → rank_less x y ≡ true → rank_less y z ≡ true → rank_less x z ≡ true
unfolding rank_less
rank_less_trans x y z = then_less-trans_down x.age_bucket y.age_bucket z.age_bucket _ _ _ (
    then_less_trans x.reserved_writer_rank y.reserved_writer_rank z.reserved_writer_rank _ _ _ (
      then_less_trans x.metadata_rank y.metadata_rank z.metadata_rank _ _ _ (
        then_less-trans_down x.backlog y.backlog z.backlog _ _ _ (
          then_less_trans x.estimated_bytes y.estimated_bytes z.estimated_bytes _ _ _
            (ltb_trans x.index y.index z.index)))))

rank_less_irrefl : (x : Rank) → rank_less x x ≡ false
unfolding rank_less
rank_less_irrefl x = ground arith

pub rank_less-same : (x y : Rank) → x ≡ y → rank_less x y ≡ false
rank_less-same x y e = rw e (rank_less_irrefl y)

pub shift : (i j : ℕ) → i + suc j ≡ suc i + j
shift i j = omega arith

pub keep_best-eq :
    (b : Bool) (i k : ℕ) (s r : Rank) (best : Option (ℕ × Rank))
    → keep_best b i s best ≡ some (k, r)
    → (best ≡ some (k, r)) ⊎ ((b ≡ true) × (k ≡ i) × (r ≡ s))
unfolding keep_best
keep_best-eq b i k s r none h = ground arith
keep_best-eq b i k s r (some (j, t)) h = ground arith

-- The rank kept is no greater than the one before, nor than the one offered.
pub keep_best-old :
    (b : Bool) (i : ℕ) (s : Rank) (best : Option (ℕ × Rank)) (old : ℕ × Rank) (r : Rank)
    → best ≡ some old
    → ((d : ℕ × Rank) → keep_best b i s best ≡ some d → rank_less d.1 r ≡ false)
    → rank_less old.1 r ≡ false
unfolding keep_best
keep_best-old b i s none old r e kept = cc
keep_best-old b i s (some d) old r e kept =
    let same : old ≡ d = ground (arith, e) in
    rw same (elim (Bool-cases (b && rank_less s d.1)) [
      | inl smaller ↦
          ground (arith, smaller, kept (i, s) (rw smaller refl), rank_less_trans s d.1 r)
      | inr keeps ↦ kept d (rw keeps refl)
    ])

pub keep_best-new :
    (i : ℕ) (s : Rank) (best : Option (ℕ × Rank)) (r : Rank)
    → ((d : ℕ × Rank) → keep_best true i s best ≡ some d → rank_less d.1 r ≡ false)
    → rank_less s r ≡ false
unfolding keep_best rank_less
keep_best-new i s none r kept = kept (i, s) refl
keep_best-new i s (some d) r kept = elim (Bool-cases (rank_less s d.1)) [
  | inl smaller ↦ kept (i, s) (rw smaller refl)
  | inr keeps ↦ ground (arith, keeps, kept d (rw keeps refl), rank_less_trans s r d.1)
]

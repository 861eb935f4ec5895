-- ===== src/TaskPool/Queue/Select/Laws.antt =====
-- task_pool/scheduler/queue/priority_queue.rs: the index that `runnable_index` selects, against
-- the tasks and their ranks.
use Prim.Native.Nat.add
use native.Mathlib.Nat.{add-zero}
use griffr.Common.{
  ℕ, zero, suc, ◌+◌, ◌<◌, ◌≡◌, refl, sym, ◌∙◌, subst, ◌⊎◌, inl, inr, Bool, true, false, Option,
  none, some, List, [], ◌∷◌, arith, Bool-cases, Option-cases, nat_eq, get_elem?, any, take, text_eq,
  text_order, flagged_eq, flagged_order,
}
use griffr.TaskPool.Queue.{QueuedTask}
use griffr.TaskPool.Queue.Select.{
  Rank, rank_less, priority_lookahead, keep_best, best_of, position, select_index,
}
use griffr.TaskPool.Queue.Select.Ranks.{
  rank_less-same, shift, keep_best-eq, keep_best-old, keep_best-new,
}

module _ {Task : Type 0} (p : QueuedTask Task → Bool) where
  pub position-Found :
      (n i : ℕ) (queue : List (QueuedTask Task)) (k : ℕ)
      → position p n i queue ≡ some k
      → (o : ℕ) × (x : QueuedTask Task) × (k ≡ i + o) × (get_elem? queue o ≡ some x) × (p x ≡ true)
  unfolding position
  position-Found n i [] k h = cc
  position-Found zero i (x ∷ xs) k h = elim (Bool-cases (p x)) [
    | inl px ↦ (0, x, ground (arith, h, px), refl, px)
    | inr other ↦
        let (o, y, place, at, py) = position-Found zero (suc i) xs k (rw other at h) in
        (suc o, y, omega (arith, place), at, py)
  ]
  position-Found (suc n) i (x ∷ xs) k h =
      let (o, y, place, at, py) = position-Found n (suc i) xs k h in
      (suc o, y, omega (arith, place), at, py)

  position-none :
      (n i : ℕ) (queue : List (QueuedTask Task))
      → position p n i queue ≡ none
      → any p (take n queue) ≡ false
      → any p queue ≡ false
  unfolding position
  position-none n i [] h k = refl
  position-none zero i (x ∷ xs) h k = ground (arith, position-none zero (suc i) xs)
  position-none (suc n) i (x ∷ xs) h k = ground (arith, position-none n (suc i) xs)

module _ {Task : Type 0} (p : QueuedTask Task → Bool) (rank : ℕ → QueuedTask Task → Rank) where
  -- Index `k` of the numbering from `i` on holds a task that passes `p` and has rank `r`.
  record Found (queue : List (QueuedTask Task)) (i k : ℕ) (r : Rank) : Type 0 where
    offset : ℕ
    found : QueuedTask Task
    place : k ≡ i + offset
    at : get_elem? queue offset ≡ some found
    passes : p found ≡ true
    ranked : r ≡ rank k found

  Found-cons :
      (x : QueuedTask Task) (queue : List (QueuedTask Task)) (i k : ℕ) (r : Rank)
      → Found queue (suc i) k r
      → Found (x ∷ queue) i k r
  Found-cons x queue i k r f = record {
    offset = suc f.offset;
    found = f.found;
    place = omega (arith, f.place);
    at = f.at;
    passes = f.passes;
    ranked = f.ranked;
  }

  best_of-Found :
      (n i : ℕ) (queue : List (QueuedTask Task)) (best : Option (ℕ × Rank)) (k : ℕ) (r : Rank)
      → best_of p rank n i queue best ≡ some (k, r)
      → (best ≡ some (k, r)) ⊎ Found queue i k r
  unfolding best_of
  best_of-Found zero i queue best k r h = inl h
  best_of-Found (suc n) i [] best k r h = inl h
  best_of-Found (suc n) i (x ∷ xs) best k r h =
      elim (best_of-Found n (suc i) xs (keep_best (p x) i (rank i x) best) k r h) [
        | inr f ↦ inr (Found-cons x xs i k r f)
        | inl e ↦ elim (keep_best-eq (p x) i k (rank i x) r best e) [
          | inl old ↦ inl old
          | inr (px, here, ranked) ↦ inr (record {
            offset = 0;
            found = x;
            place = omega arith;
            at = refl;
            passes = px;
            ranked = rw here ranked;
          })
        ]
      ]

  -- Where nothing is best, nothing passes among those looked at.
  pub best_of-none :
      (n i : ℕ) (queue : List (QueuedTask Task)) (best : Option (ℕ × Rank))
      → best_of p rank n i queue best ≡ none
      → (best ≡ none) × (any p (take n queue) ≡ false)
  unfolding best_of keep_best
  best_of-none zero i queue best h = (h, refl)
  best_of-none (suc n) i [] best h = (h, refl)
  best_of-none (suc n) i (x ∷ xs) none h =
      ground (arith, best_of-none n (suc i) xs (keep_best (p x) i (rank i x) none) h)
  best_of-none (suc n) i (x ∷ xs) (some b) h =
      ground (arith, best_of-none n (suc i) xs (keep_best (p x) i (rank i x) (some b)) h)

  -- No task that was looked at and passes has a smaller rank than the best.
  best_of-least :
      (n i : ℕ) (queue : List (QueuedTask Task)) (best : Option (ℕ × Rank)) (k : ℕ) (r : Rank)
      → best_of p rank n i queue best ≡ some (k, r)
      → ((b : ℕ × Rank) → best ≡ some b → rank_less b.1 r ≡ false)
        × ((j : ℕ) (y : QueuedTask Task)
            → j < n
            → get_elem? queue j ≡ some y
            → p y ≡ true
            → rank_less (rank (i + j) y) r ≡ false)
  unfolding best_of
  best_of-least zero i queue best k r h =
      (λ b e. same (k, r) b (sym h ∙ e), λ j y lt at py. elim lt [ ])
    where
      same :
          (b d : ℕ × Rank)
          → ◌≡◌ {A = Option (ℕ × Rank)} (some b) (some d)
          → rank_less d.1 b.1 ≡ false
      same b d e = rank_less-same d.1 b.1 (ground (arith, e))
  best_of-least (suc n) i [] best k r h =
      (λ b e. rank_less-same b.1 r (ground (arith, h, e)), λ j y lt at py. cc)
  best_of-least (suc n) i (x ∷ xs) best k r h =
      let (kept, rest) = best_of-least n (suc i) xs (keep_best (p x) i (rank i x) best) k r h in
      (
        λ b e. keep_best-old (p x) i (rank i x) best b r e kept,
        λ j y lt at py. later kept rest j y lt at py,
      )
    where
      later :
          ((b : ℕ × Rank) → keep_best (p x) i (rank i x) best ≡ some b → rank_less b.1 r ≡ false)
          → ((j : ℕ) (y : QueuedTask Task)
              → j < n
              → get_elem? xs j ≡ some y
              → p y ≡ true
              → rank_less (rank (suc i + j) y) r ≡ false)
          → (j : ℕ) (y : QueuedTask Task) → j < suc n
          → get_elem? (x ∷ xs) j ≡ some y
          → p y ≡ true
          → rank_less (rank (i + j) y) r ≡ false
      later kept rest zero y lt at py =
          let same : x ≡ y = ground (arith, at) in
          let px : p x ≡ true = rw same py in
          let kept' =
            subst
              (λ b.
                (d : ℕ × Rank) → keep_best b i (rank i x) best ≡ some d → rank_less d.1 r ≡ false)
              px kept in
          rw (add-zero i, ← same) (keep_best-new i (rank i x) best r kept')
      later kept rest (suc j) y lt at py = rw (shift i j) (rest j y (omega arith) at py)

  pub any-take :
      (n j : ℕ) (queue : List (QueuedTask Task)) (y : QueuedTask Task)
      → j < n
      → get_elem? queue j ≡ some y
      → p y ≡ true
      → any p (take n queue) ≡ true
  any-take zero j queue y lt at py = elim lt [ ]
  any-take (suc n) j [] y lt at py = cc
  any-take (suc n) zero (x ∷ xs) y lt at py = let same : x ≡ y = ground (arith, at) in rw (same, py)
  any-take (suc n) (suc j) (x ∷ xs) y lt at py =
      ground (arith, any-take n j xs y (omega arith) at py)

  -- The selection by the outcome of the lookahead.
  pub select_index-best :
      (queue : List (QueuedTask Task)) (b : ℕ × Rank)
      → best_of p rank priority_lookahead 0 queue none ≡ some b
      → select_index p rank queue ≡ some b.0
  unfolding select_index
  select_index-best queue b e = rw (e, select_index)

  pub select_index-find :
      (queue : List (QueuedTask Task))
      → best_of p rank priority_lookahead 0 queue none ≡ none
      → select_index p rank queue ≡ position p priority_lookahead 0 queue
  unfolding select_index
  select_index-find queue e = rw (e, select_index)

  -- The index that is selected is that of a task of the queue, and the task passes the test.
  pub select_index-passes :
      (queue : List (QueuedTask Task)) (k : ℕ)
      → select_index p rank queue ≡ some k
      → (x : QueuedTask Task) × (get_elem? queue k ≡ some x) × (p x ≡ true)
  select_index-passes queue k h =
      elim (Option-cases (best_of p rank priority_lookahead 0 queue none)) [
        | inr ((j, r), e) ↦ elim (best_of-Found priority_lookahead 0 queue none j r e) [
          | inl absent ↦ cc
          | inr f ↦
              let same : k ≡ f.offset = ground (arith, f.place, select_index-best queue (j, r) e) in
              (f.found, rw same f.at, f.passes)
        ]
        | inl e ↦
            let (o, x, place, at, px) =
              position-Found p priority_lookahead 0 queue k (sym (select_index-find queue e) ∙ h) in
            let same : k ≡ o = omega (arith, place) in (x, rw same at, px)
      ]

  -- When no index is selected, no task of the whole queue passes the test.
  pub select_index-none :
      (queue : List (QueuedTask Task)) → select_index p rank queue ≡ none → any p queue ≡ false
  select_index-none queue h = elim (Option-cases (best_of p rank priority_lookahead 0 queue none)) [
    | inr (b, e) ↦ absurd (ground (arith, select_index-best queue b e))
    | inl e ↦
        position-none p priority_lookahead 0 queue (sym (select_index-find queue e) ∙ h)
          (best_of-none priority_lookahead 0 queue none e).1
  ]

  -- Among the first 64 tasks of a queue none that passes the test has a smaller rank than the task
  -- that is selected.
  pub select_index-least :
      (queue : List (QueuedTask Task)) (k j : ℕ) (x y : QueuedTask Task)
      → select_index p rank queue ≡ some k
      → get_elem? queue k ≡ some x
      → j < priority_lookahead
      → get_elem? queue j ≡ some y
      → p y ≡ true
      → rank_less (rank j y) (rank k x) ≡ false
  select_index-least queue k j x y h at lt at' py =
      elim (Option-cases (best_of p rank priority_lookahead 0 queue none)) [
        | inl e ↦ absurd (
            cc (
              (best_of-none priority_lookahead 0 queue none e).1,
              any-take priority_lookahead j queue y lt at' py,
            ))
        | inr ((i, r), e) ↦ elim (best_of-Found priority_lookahead 0 queue none i r e) [
          | inl absent ↦ cc
          | inr f ↦
              let same : k ≡ i = ground (arith, select_index-best queue (i, r) e) in
              let place : i ≡ f.offset = omega (arith, f.place) in
              let found : f.found ≡ x = cc (f.at, same, place, at) in
              let ranked : rank k x ≡ r = cc (f.ranked, same, found) in
              let least = (best_of-least priority_lookahead 0 queue none i r e).1 j y lt at' py in
              rw ranked (rw add.zero at least)
        ]
      ]

-- ===== src/Patch/Waves.antt =====
-- patch_apply/dependency.rs: `entry_wave_indices`, each entry after all that it waits for.
use griffr.Common.{
  ℕ, zero, suc, ◌<◌, ◌≡◌, refl, subst, inl, inr, true, ◌&&◌, not, List, [], ◌∷◌, arith, nat_beq_iff,
  List-cases, nat_eq, length, all, contains, occurrences, text_eq, nat_order, text_order,
  flagged_eq, flagged_order, IsAscending,
}
use griffr.Patch.Plan.{path_eq}
use griffr.Patch.Dependencies.{Frontier, dependents_of, release_wave, waves_from}
use griffr.Patch.Frontiers.{
  absent_below, IsFrontier, open_of-none, release_all-IsFrontier, begin_release,
}

-- The entries that are done after a wave.
unfoldable pub after_wave : List ℕ → List ℕ → List ℕ
after_wave [] done = done
after_wave (i ∷ wave) done = after_wave wave (i ∷ done)

-- Each wave is in ascending order, and its entries are new, and wait only for those of earlier waves.
abbrev pub InOrder : List (List ℕ) → List ℕ → List (List ℕ) → Type 0
InOrder dependencies done [] = Unit
InOrder dependencies done (wave ∷ waves) =
    IsAscending wave
    × (all (λ d. not (contains done d) && all (contains done) (dependents_of dependencies d)) wave
        ≡ true)
    × InOrder dependencies (after_wave wave done) waves

module _ (dependencies outgoing : List (List ℕ)) (count : ℕ) (sized : length dependencies ≡ count)
    (transposed : (p d : ℕ)
      → p < count
      → occurrences d (dependents_of outgoing p)
        ≡ occurrences p (dependents_of dependencies d)) where
  pub release_wave-IsFrontier :
      (done wave : List ℕ) (f : Frontier)
      → IsAscending wave
      → IsFrontier dependencies outgoing count done wave [] f
      → IsFrontier dependencies outgoing count
          (after_wave wave done)
          []
          []
          (release_wave outgoing wave f)
  unfolding release_wave after_wave
  release_wave-IsFrontier done [] f a v = v
  release_wave-IsFrontier done (i ∷ wave) f a v = release_wave-IsFrontier (i ∷ done) wave _ a.1 (
      release_all-IsFrontier dependencies outgoing count (i ∷ done) wave (dependents_of outgoing i)
        f
        (begin_release dependencies outgoing count done wave i f sized transposed
          (absent_below i wave a.0) v))

  -- All ready entries come next.
  pub take_ready :
      (done : List ℕ) (f : Frontier)
      → IsFrontier dependencies outgoing count done [] [] f
      → IsFrontier dependencies outgoing count done f.ready [] (record f { ready = [] })
  take_ready done f v = record {
    size = v.size;
    degrees = v.degrees;
    ascending = tt;
    ready_open = λ d c. absurd (ground (arith, c));
    coming_open = λ d c. let (lt, new, _, free) = v.ready_open d c in (lt, new, free);
    closed = v.closed;
    left_open = λ d c. absurd (ground (arith, c));
    complete = λ d h a b z. absurd (ground (arith, v.complete d h a refl z));
  }

  wave_open :
      (done coming wave left : List ℕ) (f : Frontier)
      → IsFrontier dependencies outgoing count done coming left f
      → ((d : ℕ) → contains wave d ≡ true → contains coming d ≡ true)
      → all (λ d. not (contains done d) && all (contains done) (dependents_of dependencies d)) wave
        ≡ true
  wave_open done coming [] left f v h = refl
  wave_open done coming (d ∷ wave) left f v h =
      let (_, new, free) = v.coming_open d (h d (ground (arith, nat_beq_iff d d))) in
      ground (
        arith,
        open_of-none done (dependents_of dependencies d) free,
        wave_open done coming wave left f v (λ k c. h k (ground arith)),
      )

  pub waves_from-InOrder :
      (rounds : ℕ) (done : List ℕ) (f : Frontier)
      → IsFrontier dependencies outgoing count done [] [] f
      → InOrder dependencies done (waves_from rounds outgoing f)
  unfolding waves_from
  waves_from-InOrder zero done f v = tt
  waves_from-InOrder (suc rounds) done f v = elim (List-cases f.ready) [
    | inl idle ↦ rw (waves_from, idle) tt
    | inr (i, rest, some_ready) ↦
        let w =
          subst
            (λ wave. IsFrontier dependencies outgoing count done wave [] (record f { ready = [] }))
            some_ready (take_ready done f v) in
        let up : IsAscending (i ∷ rest) = subst IsAscending some_ready v.ascending in
        rw (waves_from, some_ready)
          (
            up,
            wave_open done (i ∷ rest) (i ∷ rest) [] _ w (λ k c. c),
            waves_from-InOrder rounds _ _ (release_wave-IsFrontier done (i ∷ rest) _ up w),
          )
  ]

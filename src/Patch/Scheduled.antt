-- ===== src/Patch/Scheduled.antt =====
-- patch_apply/dependency.rs: the waves of an accepted plan are in order, and hold every entry.
use griffr.Common.{
  ℕ, zero, suc, ◌+◌, ◌≤◌, ◌<◌, ◌≡◌, refl, sym, subst, inl, inr, Bool, true, false, ◌||◌, List, [],
  ◌∷◌, arith, nat_beq, nat_beq_iff, Bool-cases, List-cases, nat_eq, length, any, all, contains,
  occurrences, text_eq, nat_order, text_order, flagged_eq, flagged_order, IsAscending,
}
use griffr.Patch.Plan.{path_eq}
use griffr.Patch.Dependencies.{Frontier, dependents_of, waves_from}
use griffr.Patch.Frontiers.{open_of, absent_below, members_differ, IsFrontier}
use griffr.Patch.Acyclic.{IsSpread, IsSpread-full, IsFinishOrder}
use griffr.Patch.Waves.{after_wave, release_wave-IsFrontier, take_ready}

abbrev pub in_waves : List (List ℕ) → ℕ → Bool
in_waves waves d = any (λ wave. contains wave d) waves

after_wave-contains :
    (wave done : List ℕ) (d : ℕ)
    → contains (after_wave wave done) d ≡ (contains wave d || contains done d)
unfolding after_wave
after_wave-contains [] done d = refl
after_wave-contains (i ∷ wave) done d = ground (arith, after_wave-contains wave (i ∷ done) d)

length-after_wave : (wave done : List ℕ) → length (after_wave wave done) ≡ length wave + length done
unfolding after_wave
length-after_wave [] done = omega arith
length-after_wave (i ∷ wave) done = omega (arith, length-after_wave wave (i ∷ done))

after_wave-IsSpread :
    (count : ℕ) (wave done : List ℕ)
    → IsAscending wave
    → ((d : ℕ) → contains wave d ≡ true → (d < count) × (contains done d ≡ false))
    → IsSpread count done
    → IsSpread count (after_wave wave done)
unfolding after_wave
after_wave-IsSpread count [] done a new s = s
after_wave-IsSpread count (i ∷ wave) done a new s =
    let (lt, fresh) = new i (ground (arith, nat_beq_iff i i)) in
    after_wave-IsSpread count wave (i ∷ done) a.1
      (λ d c. ground (arith, new d, members_differ wave d i c, absent_below i wave a.0))
      (lt, fresh, s)

none_open :
    (done earlier ps : List ℕ)
    → ((d : ℕ) → contains earlier d ≡ true → contains done d ≡ true)
    → all (contains earlier) ps ≡ true
    → open_of done ps ≡ 0
unfolding open_of
none_open done earlier [] within h = refl
none_open done earlier (p ∷ ps) within h =
    ground (arith, within p, none_open done earlier ps within)

-- Where no entry is ready, all entries of an order are done.
pub ordered_done :
    (dependencies outgoing : List (List ℕ)) (count : ℕ) (done order : List ℕ) (f : Frontier)
    → IsFrontier dependencies outgoing count done [] [] f
    → f.ready ≡ []
    → IsSpread count order
    → IsFinishOrder dependencies order
    → (d : ℕ) → contains order d ≡ true
    → contains done d ≡ true
ordered_done dependencies outgoing count done [] f v idle s o d c = cc
ordered_done dependencies outgoing count done (i ∷ earlier) f v idle s o d c =
    let before = ordered_done dependencies outgoing count done earlier f v idle s.2 o.1 in
    elim (Bool-cases (nat_beq d i)) [
      | inr other ↦ before d (ground arith)
      | inl here ↦ elim (Bool-cases (contains done i)) [
        | inl finished ↦
            subst (λ k. contains done k ≡ true) (sym ((nat_beq_iff d i).0 here)) finished
        | inr waits ↦
            let free : open_of done (dependents_of dependencies i) ≡ 0 =
              none_open done earlier (dependents_of dependencies i) before o.0 in
            let shown : contains f.ready i ≡ true =
              v.complete i s.0 waits refl (omega (arith, free)) in
            absurd (ground (arith, subst (λ xs. contains xs i ≡ true) idle shown))
      ]
    ]

module _ (dependencies outgoing : List (List ℕ)) (count : ℕ) (sized : length dependencies ≡ count)
    (transposed : (p d : ℕ)
      → p < count
      → occurrences d (dependents_of outgoing p)
        ≡ occurrences p (dependents_of dependencies d)) where
  pub waves_from-all :
      (order : List ℕ)
      → IsSpread count order
      → IsFinishOrder dependencies order
      → (rounds : ℕ) (done : List ℕ) (f : Frontier)
      → IsFrontier dependencies outgoing count done [] [] f
      → IsSpread count done
      → count ≤ rounds + length done
      → (d : ℕ) → d < count
      → contains order d ≡ true
      → (contains done d || in_waves (waves_from rounds outgoing f) d) ≡ true
  unfolding waves_from
  waves_from-all order so o zero done f v s h d lt c =
      ground (arith, IsSpread-full count d done s (omega arith) lt)
  waves_from-all order so o (suc rounds) done f v s h d lt c = elim (List-cases f.ready) [
    | inl idle ↦
        ground (arith, ordered_done dependencies outgoing count done order f v idle so o d c)
    | inr (i, rest, some_ready) ↦
        let w =
          subst
            (λ wave. IsFrontier dependencies outgoing count done wave [] (record f { ready = [] }))
            some_ready (take_ready dependencies outgoing count sized transposed done f v) in
        let up : IsAscending (i ∷ rest) = subst IsAscending some_ready v.ascending in
        let next =
          release_wave-IsFrontier dependencies outgoing count sized transposed done (i ∷ rest) _ up
            w in
        let spread =
          after_wave-IsSpread count (i ∷ rest) done up
            (λ k m. let (below, new, _) = w.coming_open k m in (below, new)) s in
        let later =
          waves_from-all order so o rounds (after_wave (i ∷ rest) done) _ next spread
            (omega (arith, length-after_wave (i ∷ rest) done)) d lt c in
        rw (waves_from, some_ready) (ground (arith, after_wave-contains (i ∷ rest) done d))
  ]

-- ===== src/Common/Counters.antt =====
-- Maps from keys to counts, raised and lowered key by key.
use Prim.Native.Nat.{ℕ, ◌+◌, ◌-◌, ◌<◌}
use mathlib.Core.Path.{◌≡◌}
use mathlib.Core.Option.{none, some}
use mathlib.Core.List.{List, [], ◌∷◌}
use native.Mathlib.Omega.{arith}
use griffr.Common.Tests.{if◌then◌else◌, nat_beq, Eq, ◌==◌, ==_iff}
use griffr.Common.Words.{word, wrapping_add, saturating_sub}
use griffr.Common.Lists.{occurrences}
use griffr.Common.Maps.{Map, get, insert, remove, get-insert, get-remove}

module _ {ℓ} {K : Type ℓ} ⦃e : Eq K⦄ where
  -- `map.get(key).copied().unwrap_or(0)`
  unfoldable pub count_of : Map K ℕ → K → ℕ
  count_of m k = elim (get m k) [ none ↦ 0 | some n ↦ n ]

  -- `*map.entry(key).or_default() += 1`
  unfoldable pub increment : Map K ℕ → K → Map K ℕ
  increment m k = insert m k (wrapping_add (count_of m k) 1)

  -- `decrement_bytes`: the count falls by `amount`, and an entry at zero is removed.
  unfoldable pub decrement_by : Map K ℕ → K → ℕ → Map K ℕ
  decrement_by m k amount = elim (get m k) [
    | none ↦ m
    | some n ↦
        if nat_beq (saturating_sub n amount) 0
        then remove m k
        else insert m k (saturating_sub n amount)
  ]

  pub count_of-insert :
      (m : Map K ℕ) (k j : K) (n : ℕ)
      → count_of (insert m k n) j ≡ (if k == j then n else count_of m j)
  unfolding count_of
  count_of-insert m k j n = ground (arith, get-insert m k j n)

  pub count_of-increment :
      (m : Map K ℕ) (k j : K)
      → count_of (increment m k) j
        ≡ (if k == j then wrapping_add (count_of m k) 1 else count_of m j)
  unfolding increment
  count_of-increment m k j = count_of-insert m k j _

  pub count_of-decrement_by :
      (m : Map K ℕ) (k j : K) (amount : ℕ)
      → count_of (decrement_by m k amount) j
        ≡ (if k == j then count_of m k - amount else count_of m j)
  unfolding count_of decrement_by
  count_of-decrement_by m k j amount =
      ground (arith, ==_iff k j, get-insert m k j (count_of m k - amount), get-remove m k j)

  -- `for key in keys { *map.entry(key).or_default() += 1 }`
  unfoldable pub increment_all : Map K ℕ → List K → Map K ℕ
  increment_all m [] = m
  increment_all m (k ∷ ks) = increment_all (increment m k) ks

  -- `for key in keys { decrement(map, key) }`
  unfoldable pub decrement_all : Map K ℕ → List K → Map K ℕ
  decrement_all m [] = m
  decrement_all m (k ∷ ks) = decrement_all (decrement_by m k 1) ks

  pub count_of-increment_all :
      (m : Map K ℕ) (ks : List K) (j : K)
      → count_of m j + occurrences j ks < word
      → count_of (increment_all m ks) j ≡ count_of m j + occurrences j ks
  unfolding increment_all
  count_of-increment_all m [] j h = omega arith
  count_of-increment_all m (k ∷ ks) j h =
      ground
        (arith, ==_iff k j, count_of-increment m k j, count_of-increment_all (increment m k) ks j)

  pub count_of-decrement_all :
      (m : Map K ℕ) (ks : List K) (j : K)
      → count_of (decrement_all m ks) j ≡ count_of m j - occurrences j ks
  unfolding decrement_all
  count_of-decrement_all m [] j = omega arith
  count_of-decrement_all m (k ∷ ks) j = ground (
    arith,
    ==_iff k j,
    count_of-decrement_by m k j 1,
    count_of-decrement_all (decrement_by m k 1) ks j,
  )

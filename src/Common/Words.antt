-- ===== src/Common/Words.antt =====
-- `u64` and `usize` of a 64-bit target: saturating and wrapping arithmetic.
use Prim.Native.Nat.{ℕ, ◌+◌, ◌*◌, ◌-◌, ◌%◌, min, max}

abbrev pub word : ℕ
word = 18446744073709551616

abbrev pub word_max : ℕ
word_max = 18446744073709551615

abbrev pub saturating_add : ℕ → ℕ → ℕ
saturating_add a b = min (a + b) word_max

abbrev pub saturating_mul : ℕ → ℕ → ℕ
saturating_mul a b = min (a * b) word_max

-- `saturating_sub` is the truncated subtraction of ℕ.
abbrev pub saturating_sub : ℕ → ℕ → ℕ
saturating_sub a b = a - b

-- `a - b` with the wrap-around of a release build, both being words.
abbrev pub wrapping_sub : ℕ → ℕ → ℕ
wrapping_sub a b = (a + word - b) % word

-- `a + b` with the wrap-around of a release build.
abbrev pub wrapping_add : ℕ → ℕ → ℕ
wrapping_add a b = (a + b) % word

-- `Ord::clamp`, the bounds in order.
abbrev pub clamp : ℕ → ℕ → ℕ → ℕ
clamp x lo hi = min (max x lo) hi

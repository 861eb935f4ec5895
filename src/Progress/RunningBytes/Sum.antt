-- ===== src/Progress/RunningBytes/Sum.antt =====
-- progress.rs: `RunningByteProgress` against the sum over its keys.
use griffr.Common.{
  ℕ, ◌+◌, ◌≤◌, max, ◌≡◌, refl, ◌∙◌, [], ◌∷◌, arith, if◌then◌else◌, nat_eq, ◌==◌, ==_refl, total,
  Text, text_eq, word_max, Map, get, insert, count_of, count_of-insert, text_order, flagged_eq,
  flagged_order,
}
use griffr.Progress.RunningBytes.{RunningByteProgress, record_bytes, record_max}

abbrev pub sum_of : Map Text ℕ → ℕ
sum_of m = total (λ entry. entry.1) m

abbrev pub IsSummed : RunningByteProgress → Type 0
IsSummed p = p.total_bytes ≡ sum_of p.bytes_by_key

sum_of-insert :
    (m : Map Text ℕ) (key : Text) (n : ℕ) → sum_of (insert m key n) + count_of m key ≡ sum_of m + n
unfolding insert count_of get
sum_of-insert [] key n = omega arith
sum_of-insert ((k, old) ∷ m) key n = ground (arith, sum_of-insert m key n)

-- If the total is the sum over the keys and the new bytes fit a word beside it, then after record
-- the total is the sum again, the key has the new bytes and every other key what it had.
pub record_bytes-IsSummed :
    (p : RunningByteProgress) (key other : Text) (n : ℕ)
    → IsSummed p
    → p.total_bytes + n ≤ word_max
    → IsSummed (record_bytes p key n)
      × (count_of (record_bytes p key n).bytes_by_key other
          ≡ (if key == other then n else count_of p.bytes_by_key other))
unfolding record_bytes
record_bytes-IsSummed p key other n h fits = (
  omega (arith, sum_of-insert p.bytes_by_key key n, h),
  count_of-insert p.bytes_by_key key other n,
)

-- If the total is the sum over the keys and no sum leaves the word, record_max never lowers the
-- total and leaves the key with the larger of the two counts.
pub record_max-grows :
    (p : RunningByteProgress) (key : Text) (n : ℕ)
    → IsSummed p
    → p.total_bytes + max (count_of p.bytes_by_key key) n ≤ word_max
    → (p.total_bytes ≤ (record_max p key n).total_bytes)
      × (count_of (record_max p key n).bytes_by_key key ≡ max (count_of p.bytes_by_key key) n)
unfolding record_max
record_max-grows p key n h fits =
    let most = max (count_of p.bytes_by_key key) n in
    let (summed, kept) = record_bytes-IsSummed p key key most h fits in
    (omega (arith, summed, h, sum_of-insert p.bytes_by_key key most), kept ∙ rw (==_refl key) refl)

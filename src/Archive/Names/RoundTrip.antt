-- ===== src/Archive/Names/RoundTrip.antt =====
-- download/extractor/layout/volume.rs: the names of cache files, written and read.
use griffr.Common.{
  ℕ, zero, suc, ◌+◌, ◌-◌, ◌*◌, ◌/◌, ◌%◌, ◌≤◌, ◌<◌, ◌≡◌, refl, ◌∙◌, inl, inr, Bool, true, false,
  ◌&&◌, ◌||◌, some, [], ◌∷◌, ◌++◌, arith, ltb, leb, nat_beq, Bool-cases, nat_eq, length, all, Text,
  text_eq, word_max, text_order, flagged_eq, flagged_order,
}
use griffr.Archive.Ranges.{Span}
use griffr.Archive.Names.{
  digits, decimal, zeros, padded, range_stem, scan, parse, split, parse_stem,
}

abbrev power : ℕ → ℕ
power zero = 1
power (suc fuel) = 10 * power fuel

scan-digits :
    (fuel n : ℕ) (out : Text)
    → n < power fuel
    → n ≤ word_max
    → scan (digits fuel n out) 0 ≡ scan out n
unfolding scan digits
scan-digits zero n out h fit = let same : n ≡ 0 = omega arith in rw same refl
scan-digits (suc fuel) n out h fit = elim (Bool-cases (ltb n 10)) [
  | inl e ↦ rw e (digit n 0 n (ground (arith, e)) (omega arith) fit)
  | inr e ↦
      rw (e, scan-digits fuel (n / 10) ((b'0' + n % 10) ∷ out) (omega arith) (omega arith))
        (digit (n % 10) (n / 10) n (omega arith) (omega arith) fit)
]
  where
    digit :
        (d m k : ℕ)
        → d < 10
        → m * 10 + d ≡ k
        → k ≤ word_max
        → scan ((b'0' + d) ∷ out) m ≡ scan out k
    digit d m k small e fits =
        let value : m * 10 + (b'0' + d - b'0') ≡ k = omega arith in
        let passes : (ltb (b'0' + d) b'0'
              || ltb b'9' (b'0' + d)
              || ltb word_max (m * 10 + (b'0' + d - b'0')))
            ≡ false =
          ground (arith, value) in
        rw (passes, value) refl

-- The digits before the rest: no separator and no sign among them.
abbrev is_digit : ℕ → Bool
is_digit c = leb b'0' c && leb c b'9'

digits-all :
    (fuel n : ℕ) (out : Text) → all is_digit out ≡ true → all is_digit (digits fuel n out) ≡ true
unfolding digits
digits-all zero n out h = h
digits-all (suc fuel) n out h = ground (arith, h, digits-all fuel (n / 10) ((b'0' + n % 10) ∷ out))

zeros-all : (n : ℕ) (s : Text) → all is_digit s ≡ true → all is_digit (zeros n s) ≡ true
zeros-all zero s h = h
zeros-all (suc n) s h = zeros-all n s h

scan-zeros : (n : ℕ) (s : Text) → scan (zeros n s) 0 ≡ scan s 0
unfolding scan
scan-zeros zero s = refl
scan-zeros (suc n) s = scan-zeros n s

split-digits :
    (s t : Text)
    → all is_digit s ≡ true
    → split b'-' (s ++ b'-' ∷ t) ≡ (s, (split b'-' t).0 ∷ (split b'-' t).1)
unfolding split
split-digits [] t h = refl
split-digits (c ∷ s) t h =
    let other : nat_beq c b'-' ≡ false = ground (arith, h) in
    rw (split-digits s t (ground (arith, h)), other) refl

split-last : (s : Text) → all is_digit s ≡ true → split b'-' s ≡ (s, [])
unfolding split
split-last [] h = refl
split-last (c ∷ s) h =
    let other : nat_beq c b'-' ≡ false = ground (arith, h) in
    rw (split-last s (ground (arith, h)), other) refl

-- A text of digits that is not empty is read without a sign.
parse-digits :
    (s : Text) (n : ℕ) → all is_digit s ≡ true → 0 < length s → scan s 0 ≡ some n → parse s ≡ some n
unfolding parse
parse-digits [] n h k e = absurd (omega arith)
parse-digits (c ∷ s) n h k e =
    let unsigned : nat_beq c b'+' ≡ false = ground (arith, h) in rw unsigned e

length-digits : (fuel n : ℕ) (out : Text) → 0 < fuel → length out < length (digits fuel n out)
unfolding digits
length-digits zero n out h = absurd (omega arith)
length-digits (suc zero) n out h = ground arith
length-digits (suc (suc fuel)) n out h =
    let rest = length-digits (suc fuel) (n / 10) ((b'0' + n % 10) ∷ out) (omega arith) in
    elim (Bool-cases (ltb n 10)) [ inl e ↦ rw e (omega arith) | inr e ↦ rw e (omega (arith, rest)) ]

decimal-all : (n : ℕ) → all is_digit (decimal n) ≡ true
unfolding decimal
decimal-all n = digits-all 20 n [] refl

scan-decimal : (n : ℕ) → n ≤ word_max → scan (decimal n) 0 ≡ some n
unfolding decimal scan
scan-decimal n fit = scan-digits 20 n [] (below n fit) fit
  where
    below : (k : ℕ) → k ≤ word_max → k < power 20
    below k h = omega arith

-- A machine word is read back from its digits.
pub parse-decimal : (n : ℕ) → n ≤ word_max → parse (decimal n) ≡ some n
unfolding decimal
parse-decimal n fit =
    parse-digits (decimal n) n (decimal-all n) (length-digits 20 n [] (omega arith))
      (scan-decimal n fit)

length-zeros : (n : ℕ) (s : Text) → length (zeros n s) ≡ n + length s
length-zeros zero s = omega arith
length-zeros (suc n) s = omega (arith, length-zeros n s)

padded-all : (n : ℕ) → all is_digit (padded n) ≡ true
unfolding padded
padded-all n = zeros-all (4 - length (decimal n)) (decimal n) (decimal-all n)

parse-padded : (n : ℕ) → n ≤ word_max → parse (padded n) ≡ some n
unfolding padded decimal
parse-padded n fit =
    parse-digits (padded n) n (padded-all n)
      (omega (
        arith,
        length-zeros (4 - length (decimal n)) (decimal n),
        length-digits 20 n [] (omega arith),
      ))
      (scan-zeros (4 - length (decimal n)) (decimal n) ∙ scan-decimal n fit)

-- The volume and the range that are written into the name of a cache file are read back from it,
-- for numbers within a word.
pub parse_stem-range_stem :
    (index : ℕ) (range : Span)
    → index ≤ word_max
    → range.start ≤ word_max
    → range.end ≤ word_max
    → parse_stem (range_stem index range) ≡ some (index, range)
unfolding parse_stem range_stem split
parse_stem-range_stem index range fi fs fe =
    rw
      (
        split-digits (padded index) (decimal range.start ++ b'-' ∷ decimal range.end)
            (padded-all index),
        split-digits (decimal range.start) (decimal range.end) (decimal-all range.start),
        split-last (decimal range.end) (decimal-all range.end),
        parse-padded index fi,
        parse-decimal range.start fs,
        parse-decimal range.end fe,
      )
      refl

-- ===== src/Patch/Peaks.antt =====
-- patch_apply/space_use.rs: the peaks of the ledger against the history of a volume.
use griffr.Common.{
  ℕ, ◌%◌, ◌≤◌, max, ◌≡◌, refl, sym, inl, inr, true, List, [], ◌∷◌, arith, leb, if◌then◌else◌,
  Bool-cases, nat_eq, ◌==◌, ==_iff, all, Text, text_eq, bytes, word, word_max, get-insert,
  nat_order, text_order, flagged_eq, flagged_order,
}
use griffr.Patch.Space.{
  ℤ, pos, negsuc, subtract, ◌+ℤ◌, is_zero, positive_part, VolumeSpaceLedger, balance, peak, adjust,
  add_bytes, remove_bytes,
}

pub data Change : Type 0 where
  adds : Text → ℕ → Change
  removes : Text → ℕ → Change

unfoldable pub change_all : List Change → VolumeSpaceLedger → VolumeSpaceLedger
unfolding add_bytes remove_bytes
change_all [] ledger = ledger
change_all (adds volume bytes ∷ changes) ledger = change_all changes (add_bytes ledger volume bytes)
change_all (removes volume bytes ∷ changes) ledger =
    change_all changes (remove_bytes ledger volume bytes)

abbrev pub volume_of : Change → Text
volume_of (adds volume bytes) = volume
volume_of (removes volume bytes) = volume

abbrev pub delta_of : Change → ℤ
delta_of (adds volume bytes) = pos bytes
delta_of (removes volume bytes) = subtract 0 bytes

-- The balances of one volume after each change.
unfoldable pub balances : Text → ℤ → List Change → List ℤ
balances volume b [] = []
balances volume b (c ∷ changes) =
    let next = if volume == volume_of c then b +ℤ delta_of c else b in
    next ∷ balances volume next changes

unfoldable pub greatest : List ℤ → ℕ
greatest [] = 0
greatest (b ∷ bs) = max (positive_part b) (greatest bs)

add_nothing : (b d : ℤ) → is_zero d ≡ true → b +ℤ d ≡ b
add_nothing (pos a) (pos n) h = ground arith
add_nothing (negsuc a) (pos n) h = ground arith
add_nothing b (negsuc n) h = cc

adjust-balance :
    (ledger : VolumeSpaceLedger) (v volume : Text) (delta : ℤ)
    → balance (adjust ledger v delta) volume
      ≡ (if volume == v then balance ledger volume +ℤ delta else balance ledger volume)
unfolding adjust balance
adjust-balance ledger v volume delta = ground (
  arith,
  ==_iff volume v,
  ==_iff v volume,
  add_nothing (balance ledger volume) delta,
  get-insert ledger.current v volume (balance ledger v +ℤ delta),
)

within_word : (n : ℕ) → n ≤ word_max → n % word ≡ n
within_word n h = omega arith

adjust-peak :
    (ledger : VolumeSpaceLedger) (v volume : Text) (delta : ℤ)
    → positive_part (balance ledger volume) ≤ peak ledger volume
    → (volume ≡ v → positive_part (balance ledger volume +ℤ delta) ≤ word_max)
    → peak (adjust ledger v delta) volume ≡ (
        if volume == v
        then max (peak ledger volume) (positive_part (balance ledger volume +ℤ delta))
        else peak ledger volume)
unfolding adjust peak
adjust-peak ledger v volume delta kept fits = elim (Bool-cases (is_zero delta)) [
  | inl nothing ↦
      let still = add_nothing (balance ledger volume) delta nothing in
      let same_peak : max (peak ledger volume) (positive_part (balance ledger volume +ℤ delta))
          ≡ peak ledger volume =
        rw still (omega (arith, kept)) in
      ground (arith, same_peak)
  | inr some_delta ↦ elim (Bool-cases (volume == v)) [
    | inl here ↦
        let same : volume ≡ v = (==_iff volume v).0 here in
        let small =
          within_word (positive_part (balance ledger v +ℤ delta)) (rw (sym same) (fits same)) in
        ground (
          arith,
          ==_iff v volume,
          same,
          small,
          get-insert ledger.peaks v volume
              (max (peak ledger v) (positive_part (balance ledger v +ℤ delta) % word)),
        )
    | inr other ↦ ground (
      arith,
      ==_iff v volume,
      ==_iff volume v,
      get-insert ledger.peaks v volume
          (max (peak ledger v) (positive_part (balance ledger v +ℤ delta) % word)),
    )
  ]
]

change_all-cons :
    (c : Change) (changes : List Change) (ledger : VolumeSpaceLedger)
    → change_all (c ∷ changes) ledger
      ≡ change_all changes (adjust ledger (volume_of c) (delta_of c))
unfolding change_all add_bytes remove_bytes
change_all-cons (adds volume bytes) changes ledger = refl
change_all-cons (removes volume bytes) changes ledger = refl

-- Of a volume whose balances fit a word, in a ledger whose peak is at least the balance, peak is
-- the greatest of the old peak and of the balances after each of any sequence of calls of
-- add_bytes and remove_bytes on any volumes.
pub change_all-peak :
    (changes : List Change) (ledger : VolumeSpaceLedger) (volume : Text)
    → positive_part (balance ledger volume) ≤ peak ledger volume
    → all (λ b. leb (positive_part b) word_max) (balances volume (balance ledger volume) changes)
      ≡ true
    → peak (change_all changes ledger) volume
      ≡ max (peak ledger volume) (greatest (balances volume (balance ledger volume) changes))
unfolding change_all balances greatest
change_all-peak [] ledger volume kept fits = omega (arith, kept)
change_all-peak (c ∷ changes) ledger volume kept fits =
    let next = adjust ledger (volume_of c) (delta_of c) in
    let b : balance next volume ≡ (
        if volume == volume_of c
        then balance ledger volume +ℤ delta_of c
        else balance ledger volume) =
      adjust-balance ledger (volume_of c) volume (delta_of c) in
    let p =
      adjust-peak ledger (volume_of c) volume (delta_of c) kept
        (λ same. ground (arith, ==_iff volume (volume_of c), same, fits)) in
    let rest =
      change_all-peak changes next volume (ground (arith, b, p, kept))
        (rw b (ground (arith, fits))) in
    rw (change_all-cons c changes ledger) (ground (arith, b, p, kept, rest))

-- ===== src/Patch/Space.antt =====
-- patch_apply/space_use.rs: the ledger of the bytes that a plan takes on each volume. An `i128` is an
-- integer without bounds: no sum of sizes of files leaves it.
use griffr.Common.{
  ℕ, ◌+◌, ◌-◌, ◌%◌, max, Bool, false, none, some, [], leb, if◌then◌else◌, nat_eq, ◌==◌, Text,
  text_eq, bytes, word, Map, get, insert, nat_order, text_order, flagged_eq, flagged_order,
}

pub data ℤ : Type 0 where
  pos : ℕ → ℤ
  negsuc : ℕ → ℤ

abbrev pub subtract : ℕ → ℕ → ℤ
subtract a b = if leb b a then pos (a - b) else negsuc (b - (a + 1))

infixl 6 ◌+ℤ◌
abbrev pub ◌+ℤ◌ : ℤ → ℤ → ℤ
pos a +ℤ pos b = pos (a + b)
pos a +ℤ negsuc b = subtract a (b + 1)
negsuc a +ℤ pos b = subtract b (a + 1)
negsuc a +ℤ negsuc b = negsuc (a + b + 1)

abbrev pub is_zero : ℤ → Bool
is_zero (pos n) = n == 0
is_zero (negsuc n) = false

-- `max(0)`
abbrev pub positive_part : ℤ → ℕ
positive_part (pos n) = n
positive_part (negsuc n) = 0

pub record VolumeSpaceLedger : Type 0 where
  pub current : Map Text ℤ
  pub peaks : Map Text ℕ

abbrev pub empty_ledger : VolumeSpaceLedger
empty_ledger = record { current = []; peaks = [] }

unfoldable pub balance : VolumeSpaceLedger → Text → ℤ
unfolding get
balance ledger volume = elim (get ledger.current volume) [ none ↦ pos 0 | some b ↦ b ]

unfoldable pub peak : VolumeSpaceLedger → Text → ℕ
unfolding get
peak ledger volume = elim (get ledger.peaks volume) [ none ↦ 0 | some p ↦ p ]

unfoldable pub adjust : VolumeSpaceLedger → Text → ℤ → VolumeSpaceLedger
unfolding balance peak insert
adjust ledger volume delta =
    if is_zero delta
    then ledger
    else let next = balance ledger volume +ℤ delta in
      record {
        current = insert ledger.current volume next;
        peaks = insert ledger.peaks volume (max (peak ledger volume) (positive_part next % word));
      }

unfoldable pub add_bytes : VolumeSpaceLedger → Text → ℕ → VolumeSpaceLedger
unfolding adjust
add_bytes ledger volume bytes = adjust ledger volume (pos bytes)

unfoldable pub remove_bytes : VolumeSpaceLedger → Text → ℕ → VolumeSpaceLedger
unfolding adjust
remove_bytes ledger volume bytes = adjust ledger volume (subtract 0 bytes)

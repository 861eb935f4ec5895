-- ===== src/Common/Bytes.antt =====
-- A Rust string is the list of its UTF-8 bytes.
use Prim.Native.Nat.{ℕ}
use Prim.Native.Char.{code}
use Prim.Native.String.{String}
use mathlib.Core.Path.{◌≡◌, refl}
use mathlib.Core.Logic.{◌↔◌}
use mathlib.Core.Bool.{Bool, true, false, ◌&&◌}
use mathlib.Core.Option.{Option, none, some}
use mathlib.Core.List.{List, [], ◌∷◌, ◌++◌}
use native.Mathlib.Omega.{arith}
use griffr.Common.Tests.{nat_beq, Eq, if◌then◌else◌}

abbrev pub Text : Type 0
Text = List ℕ

abbrev pub text_beq : Text → Text → Bool
text_beq [] [] = true
text_beq (a ∷ s) (b ∷ t) = nat_beq a b && text_beq s t
text_beq _ _ = false

pub text_beq_iff : (s t : Text) → (text_beq s t ≡ true) ↔ (s ≡ t)
text_beq_iff [] [] = (λ _. refl, λ _. refl)
text_beq_iff (a ∷ s) (b ∷ t) = ground (arith, text_beq_iff s t)
text_beq_iff [] (b ∷ t) = (λ h. cc, λ h. cc)
text_beq_iff (a ∷ s) [] = (λ h. cc, λ h. cc)

instance abbrev pub text_eq : Eq Text
text_eq = record { equal = text_beq; equal_iff = text_beq_iff }

-- The bytes of an ASCII literal.
abbrev pub bytes : String → Text
bytes String.[] = []
bytes (String.◌∷◌ c s) = code c ∷ bytes s

-- `str::strip_prefix`, the prefix first.
abbrev pub strip_prefix : Text → Text → Option Text
strip_prefix [] s = some s
strip_prefix (a ∷ p) [] = none
strip_prefix (a ∷ p) (b ∷ s) = if nat_beq a b then strip_prefix p s else none

pub strip_prefix_iff : (p s r : Text) → (strip_prefix p s ≡ some r) ↔ (s ≡ p ++ r)
strip_prefix_iff [] s r = ground arith
strip_prefix_iff (a ∷ p) [] r = (λ h. cc, λ h. cc)
strip_prefix_iff (a ∷ p) (b ∷ s) r = ground (arith, strip_prefix_iff p s r)

-- `str::starts_with` and `str::ends_with` of one byte.
abbrev pub starts_with_byte : ℕ → Text → Bool
starts_with_byte c [] = false
starts_with_byte c (a ∷ s) = nat_beq a c

abbrev pub ends_with_byte : ℕ → Text → Bool
ends_with_byte c [] = false
ends_with_byte c (a ∷ []) = nat_beq a c
ends_with_byte c (a ∷ b ∷ s) = ends_with_byte c (b ∷ s)

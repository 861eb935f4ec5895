-- ===== src/Common/Order.antt =====
-- Strict orders with a test, and the ordered sets that `BTreeSet` collects.
use Prim.Native.Nat.{ℕ}
use mathlib.Core.Path.{◌≡◌, refl, ap, sym}
use mathlib.Core.Bool.{Bool, true, false, ◌&&◌, ◌||◌}
use mathlib.Core.List.{List, [], ◌∷◌}
use native.Mathlib.Omega.{arith}
use griffr.Common.Tests.{if◌then◌else◌, Eq, ◌==◌, ==_iff, ltb, nat_beq, nat_eq}
use griffr.Common.Lists.{contains, occurrences, all}
use griffr.Common.Bytes.{Text, text_beq, text_beq_iff, text_eq}

pub record Order {ℓ} (A : Type ℓ) : Type ℓ where
  pub less : A → A → Bool
  pub less_irrefl : (a : A) → less a a ≡ false
  pub less_trans : (a b c : A) → less a b ≡ true → less b c ≡ true → less a c ≡ true
  pub less_connex : (a b : A) → less a b ≡ false → less b a ≡ false → a ≡ b

pub ltb_irrefl : (a : ℕ) → ltb a a ≡ false
ltb_irrefl a = ground arith

pub ltb_trans : (a b c : ℕ) → ltb a b ≡ true → ltb b c ≡ true → ltb a c ≡ true
ltb_trans a b c h k = ground arith

pub ltb_connex : (a b : ℕ) → ltb a b ≡ false → ltb b a ≡ false → a ≡ b
ltb_connex a b h k = ground arith

instance abbrev pub nat_order : Order ℕ
nat_order = record {
  less = ltb;
  less_irrefl = ltb_irrefl;
  less_trans = ltb_trans;
  less_connex = ltb_connex;
}

abbrev pub text_less : Text → Text → Bool
text_less [] [] = false
text_less [] (b ∷ t) = true
text_less (a ∷ s) [] = false
text_less (a ∷ s) (b ∷ t) = if ltb a b then true else nat_beq a b && text_less s t

pub text_less_irrefl : (s : Text) → text_less s s ≡ false
text_less_irrefl [] = refl
text_less_irrefl (a ∷ s) = ground (arith, text_less_irrefl s)

pub text_less_trans :
    (r s t : Text) → text_less r s ≡ true → text_less s t ≡ true → text_less r t ≡ true
text_less_trans [] [] t h k = cc
text_less_trans [] (b ∷ s) [] h k = cc
text_less_trans [] (b ∷ s) (c ∷ t) h k = refl
text_less_trans (a ∷ r) [] t h k = cc
text_less_trans (a ∷ r) (b ∷ s) [] h k = cc
text_less_trans (a ∷ r) (b ∷ s) (c ∷ t) h k = ground (arith, text_less_trans r s t)

pub text_less_connex : (s t : Text) → text_less s t ≡ false → text_less t s ≡ false → s ≡ t
text_less_connex [] [] h k = refl
text_less_connex [] (b ∷ t) h k = cc
text_less_connex (a ∷ s) [] h k = cc
text_less_connex (a ∷ s) (b ∷ t) h k = ground (arith, text_less_connex s t)

instance abbrev pub text_order : Order Text
text_order = record {
  less = text_less;
  less_irrefl = text_less_irrefl;
  less_trans = text_less_trans;
  less_connex = text_less_connex;
}

-- A pair of a text and a flag, `false` before `true`.
abbrev pub flagged_beq : Text × Bool → Text × Bool → Bool
flagged_beq (s, true) (t, true) = text_beq s t
flagged_beq (s, false) (t, false) = text_beq s t
flagged_beq (s, _) (t, _) = false

pub flagged_beq_lem :
    (s t : Text) (f g : Bool)
    → (flagged_beq (s, f) (t, g) ≡ true → ◌≡◌ {A = Text × Bool} (s, f) (t, g))
      × (◌≡◌ {A = Text × Bool} (s, f) (t, g) → flagged_beq (s, f) (t, g) ≡ true)
flagged_beq_lem s t true true = ground (arith, text_beq_iff s t)
flagged_beq_lem s t false false = ground (arith, text_beq_iff s t)
flagged_beq_lem s t true false = (λ h. cc, λ h. cc)
flagged_beq_lem s t false true = (λ h. cc, λ h. cc)

instance abbrev pub flagged_eq : Eq (Text × Bool)
flagged_eq = record { equal = flagged_beq; equal_iff = λ a b. flagged_beq_lem a.0 b.0 a.1 b.1 }

abbrev bool_less : Bool → Bool → Bool
bool_less false true = true
bool_less _ _ = false

abbrev pub flagged_less : Text × Bool → Text × Bool → Bool
flagged_less a b = text_less a.0 b.0 || (text_beq a.0 b.0 && bool_less a.1 b.1)

bool_less_irrefl : (f : Bool) → bool_less f f ≡ false
bool_less_irrefl true = refl
bool_less_irrefl false = refl

text_less_of_eq : (r s t : Text) → text_beq r s ≡ true → text_less s t ≡ text_less r t
text_less_of_eq r s t h = ap (λ u. text_less u t) (sym ((text_beq_iff r s).0 h))

text_less_of_eq_right : (r s t : Text) → text_beq s t ≡ true → text_less r s ≡ text_less r t
text_less_of_eq_right r s t h = ap (text_less r) ((text_beq_iff s t).0 h)

pub flagged_less_irrefl : (a : Text × Bool) → flagged_less a a ≡ false
flagged_less_irrefl a = ground (arith, text_less_irrefl a.0, bool_less_irrefl a.1)

pub flagged_less_trans :
    (a b c : Text × Bool)
    → flagged_less a b ≡ true
    → flagged_less b c ≡ true
    → flagged_less a c ≡ true
flagged_less_trans a b c h k = ground (
  arith,
  text_less_trans a.0 b.0 c.0,
  text_less_of_eq a.0 b.0 c.0,
  text_less_of_eq_right a.0 b.0 c.0,
  text_beq_iff a.0 b.0,
  text_beq_iff b.0 c.0,
  text_beq_iff a.0 c.0,
)

pub flagged_less_connex :
    (a b : Text × Bool) → flagged_less a b ≡ false → flagged_less b a ≡ false → a ≡ b
flagged_less_connex (s, true) (t, true) h k =
    ground (arith, text_less_connex s t, text_beq_iff s t, text_beq_iff t s)
flagged_less_connex (s, false) (t, false) h k =
    ground (arith, text_less_connex s t, text_beq_iff s t, text_beq_iff t s)
flagged_less_connex (s, true) (t, false) h k =
    ground (arith, text_less_connex s t, text_beq_iff s t, text_beq_iff t s)
flagged_less_connex (s, false) (t, true) h k =
    ground (arith, text_less_connex s t, text_beq_iff s t, text_beq_iff t s)

instance abbrev pub flagged_order : Order (Text × Bool)
flagged_order = record {
  less = flagged_less;
  less_irrefl = flagged_less_irrefl;
  less_trans = flagged_less_trans;
  less_connex = flagged_less_connex;
}

module _ {ℓ} {A : Type ℓ} ⦃e : Eq A⦄ ⦃o : Order A⦄ where
  -- `BTreeSet::insert` on the ascending list of the elements.
  unfoldable pub insert_ordered : A → List A → List A
  insert_ordered a [] = a ∷ []
  insert_ordered a (x ∷ xs) =
      if a == x then x ∷ xs else if o.less a x then a ∷ x ∷ xs else x ∷ insert_ordered a xs

  -- `collect::<BTreeSet<_>>()`, read in ascending order.
  unfoldable pub ordered_set : List A → List A
  unfolding insert_ordered
  ordered_set [] = []
  ordered_set (x ∷ xs) = insert_ordered x (ordered_set xs)

  -- Every element is before all that follow it.
  abbrev pub IsAscending : List A → Type ℓ
  IsAscending [] = Unit
  IsAscending (x ∷ xs) = (all (o.less x) xs ≡ true) × IsAscending xs

  pub contains-insert_ordered :
      (a b : A) (xs : List A) → contains (insert_ordered a xs) b ≡ (b == a || contains xs b)
  unfolding insert_ordered
  contains-insert_ordered a b [] = refl
  contains-insert_ordered a b (x ∷ xs) =
      ground (arith, ==_iff a x, ==_iff b a, ==_iff b x, contains-insert_ordered a b xs)

  -- An ordered set has the members of the list that it was collected from.
  pub contains-ordered_set : (xs : List A) (b : A) → contains (ordered_set xs) b ≡ contains xs b
  unfolding ordered_set
  contains-ordered_set [] b = refl
  contains-ordered_set (x ∷ xs) b =
      rw (contains-insert_ordered x b (ordered_set xs), contains-ordered_set xs b)

  pub all-insert_ordered :
      (p : A → Bool) (a : A) (xs : List A) → all p (insert_ordered a xs) ≡ (p a && all p xs)
  unfolding insert_ordered
  all-insert_ordered p a [] = refl
  all-insert_ordered p a (x ∷ xs) = ground (arith, ==_iff a x, all-insert_ordered p a xs)

  all_less_trans :
      (a x : A) (xs : List A)
      → o.less a x ≡ true
      → all (o.less x) xs ≡ true
      → all (o.less a) xs ≡ true
  all_less_trans a x [] h k = refl
  all_less_trans a x (y ∷ ys) h k = ground (arith, o.less_trans a x y, all_less_trans a x ys)

  pub insert_ordered-IsAscending :
      (a : A) (xs : List A) → IsAscending xs → IsAscending (insert_ordered a xs)
  unfolding insert_ordered
  insert_ordered-IsAscending a [] h = (refl, tt)
  insert_ordered-IsAscending a (x ∷ xs) h = ground (
    arith,
    ==_iff a x,
    o.less_connex a x,
    all_less_trans a x xs,
    all-insert_ordered (o.less x) a xs,
    insert_ordered-IsAscending a xs,
  )

  pub ordered_set-IsAscending : (xs : List A) → IsAscending (ordered_set xs)
  unfolding ordered_set
  ordered_set-IsAscending [] = tt
  ordered_set-IsAscending (x ∷ xs) =
      insert_ordered-IsAscending x (ordered_set xs) (ordered_set-IsAscending xs)

  absent_after :
      (a x : A) (xs : List A) → all (o.less x) xs ≡ true → (a == x) ≡ true → occurrences a xs ≡ 0
  absent_after a x [] h k = refl
  absent_after a x (y ∷ ys) h k =
      ground (arith, ==_iff a x, ==_iff y a, o.less_irrefl y, absent_after a x ys)

  -- No element stands twice in an ascending list.
  pub occurrences-IsAscending :
      (a : A) (xs : List A) → IsAscending xs → occurrences a xs ≡ (if contains xs a then 1 else 0)
  occurrences-IsAscending a [] h = refl
  occurrences-IsAscending a (x ∷ xs) h =
      ground (arith, ==_iff a x, ==_iff x a, absent_after a x xs, occurrences-IsAscending a xs)

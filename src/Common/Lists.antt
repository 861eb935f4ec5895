-- ===== src/Common/Lists.antt =====
-- Lists measured and searched over the native numbers.
use Prim.Native.Nat.{ℕ, zero, suc, ◌+◌}
use mathlib.Core.Path.{◌≡◌, refl, ap, subst}
use mathlib.Core.Bool.{Bool, true, false, ◌&&◌, ◌||◌}
use mathlib.Core.Option.{Option, none, some}
use mathlib.Core.List.{List, [], ◌∷◌, ◌++◌, map}
use native.Mathlib.Omega.{arith}
use griffr.Common.Tests.{nat_beq, if◌then◌else◌, Eq, ◌==◌, ==_iff}

module _ {ℓ} {A : Type ℓ} where
  abbrev pub length : List A → ℕ
  length [] = 0
  length (x ∷ xs) = suc (length xs)

  abbrev pub get_elem? : List A → ℕ → Option A
  get_elem? [] i = none
  get_elem? (x ∷ xs) zero = some x
  get_elem? (x ∷ xs) (suc i) = get_elem? xs i

  abbrev pub set : List A → ℕ → A → List A
  set [] i v = []
  set (x ∷ xs) zero v = v ∷ xs
  set (x ∷ xs) (suc i) v = x ∷ set xs i v

  abbrev pub any : (A → Bool) → List A → Bool
  any p [] = false
  any p (x ∷ xs) = p x || any p xs

  abbrev pub all : (A → Bool) → List A → Bool
  all p [] = true
  all p (x ∷ xs) = p x && all p xs

  abbrev pub take : ℕ → List A → List A
  take zero xs = []
  take (suc n) [] = []
  take (suc n) (x ∷ xs) = x ∷ take n xs

  pub length-set : (xs : List A) (i : ℕ) (v : A) → length (set xs i v) ≡ length xs
  length-set [] i v = refl
  length-set (x ∷ xs) zero v = refl
  length-set (x ∷ xs) (suc i) v = omega (arith, length-set xs i v)

  pub get_elem?-set :
      (xs : List A) (i : ℕ) (v x : A) → get_elem? xs i ≡ some x → get_elem? (set xs i v) i ≡ some v
  get_elem?-set [] i v x h = cc
  get_elem?-set (y ∷ xs) zero v x h = refl
  get_elem?-set (y ∷ xs) (suc i) v x h = get_elem?-set xs i v x h

  pub get_elem?-set_apart :
      (xs : List A) (i j : ℕ) (v : A)
      → nat_beq i j ≡ false
      → get_elem? (set xs i v) j ≡ get_elem? xs j
  get_elem?-set_apart [] i j v h = refl
  get_elem?-set_apart (x ∷ xs) zero zero v h = ground (arith, h)
  get_elem?-set_apart (x ∷ xs) zero (suc j) v h = refl
  get_elem?-set_apart (x ∷ xs) (suc i) zero v h = refl
  get_elem?-set_apart (x ∷ xs) (suc i) (suc j) v h =
      get_elem?-set_apart xs i j v (ground (arith, h))

  pub set-set : (xs : List A) (i : ℕ) (v w : A) → set (set xs i v) i w ≡ set xs i w
  set-set [] i v w = refl
  set-set (x ∷ xs) zero v w = refl
  set-set (x ∷ xs) (suc i) v w = ap (λ ys. x ∷ ys) (set-set xs i v w)

  -- `VecDeque::remove`: the elements but the one at the index.
  abbrev pub remove_index : List A → ℕ → List A
  remove_index [] i = []
  remove_index (x ∷ xs) zero = xs
  remove_index (x ∷ xs) (suc i) = x ∷ remove_index xs i

  -- A sum over the elements.
  abbrev pub total : (A → ℕ) → List A → ℕ
  total f [] = 0
  total f (x ∷ xs) = f x + total f xs

  pub length-append : (xs ys : List A) → length (xs ++ ys) ≡ length xs + length ys
  length-append [] ys = omega arith
  length-append (x ∷ xs) ys = omega (arith, length-append xs ys)

  pub total-append : (f : A → ℕ) (xs ys : List A) → total f (xs ++ ys) ≡ total f xs + total f ys
  total-append f [] ys = omega arith
  total-append f (x ∷ xs) ys = omega (arith, total-append f xs ys)

  -- What the removal of an element takes from a sum.
  pub total-remove_index :
      (f : A → ℕ) (xs : List A) (i : ℕ) {x : A}
      → get_elem? xs i ≡ some x
      → total f xs ≡ f x + total f (remove_index xs i)
  total-remove_index f [] i h = cc
  total-remove_index f (x ∷ xs) zero h = ground arith
  total-remove_index f (x ∷ xs) (suc i) h = omega (arith, total-remove_index f xs i h)

  pub all-append : (p : A → Bool) (xs ys : List A) → all p (xs ++ ys) ≡ (all p xs && all p ys)
  all-append p [] ys = refl
  all-append p (x ∷ xs) ys = ground (arith, all-append p xs ys)

  pub any-append : (p : A → Bool) (xs ys : List A) → any p (xs ++ ys) ≡ (any p xs || any p ys)
  any-append p [] ys = refl
  any-append p (x ∷ xs) ys = ground (arith, any-append p xs ys)

module _ {ℓ} {A : Type ℓ} ⦃e : Eq A⦄ where
  abbrev pub contains : List A → A → Bool
  contains [] wanted = false
  contains (x ∷ xs) wanted = wanted == x || contains xs wanted

  -- How often a value stands in a list.
  abbrev pub occurrences : A → List A → ℕ
  occurrences a [] = 0
  occurrences a (x ∷ xs) = (if x == a then 1 else 0) + occurrences a xs

  pub contains-append :
      (xs ys : List A) (a : A) → contains (xs ++ ys) a ≡ (contains xs a || contains ys a)
  contains-append [] ys a = refl
  contains-append (x ∷ xs) ys a = ground (arith, contains-append xs ys a)

  pub occurrences-append :
      (a : A) (xs ys : List A) → occurrences a (xs ++ ys) ≡ occurrences a xs + occurrences a ys
  occurrences-append a [] ys = omega arith
  occurrences-append a (x ∷ xs) ys = ground (arith, occurrences-append a xs ys)

pub length-map {ℓ κ} :
    {A : Type ℓ} {B : Type κ} (f : A → B) (xs : List A) → length (map f xs) ≡ length xs
length-map f [] = refl
length-map f (x ∷ xs) = omega (arith, length-map f xs)

-- A predicate holds of every element.
abbrev pub All {ℓ κ} : {A : Type ℓ} → (A → Type κ) → List A → Type κ
All P [] = Unit
All P (x ∷ xs) = P x × All P xs

-- An element may be left out.
pub All-remove {ℓ κ} :
    {A : Type ℓ} (P : A → Type κ) (xs : List A) (y : A) (ys : List A)
    → All P (xs ++ y ∷ ys)
    → All P (xs ++ ys)
All-remove P [] y ys h = h.1
All-remove P (x ∷ xs) y ys h = (h.0, All-remove P xs y ys h.1)

-- What holds of all holds of an element in the middle.
All_middle {ℓ κ} :
    {A : Type ℓ} (P : A → Type κ) (xs : List A) (y : A) (ys : List A) → All P (xs ++ y ∷ ys) → P y
All_middle P [] y ys h = h.0
All_middle P (x ∷ xs) y ys h = All_middle P xs y ys h.1

pub All-map {ℓ κ μ} :
    {A : Type ℓ} (P : A → Type κ) (Q : A → Type μ) (xs : List A)
    → ((x : A) → P x → Q x)
    → All P xs
    → All Q xs
All-map P Q [] f h = tt
All-map P Q (x ∷ xs) f h = (f x h.0, All-map P Q xs f h.1)

-- A relation holds between any two elements, the earlier one first.
abbrev pub AllPairs {ℓ κ} : {A : Type ℓ} → (A → A → Type κ) → List A → Type κ
AllPairs R [] = Unit
AllPairs R (x ∷ xs) = All (R x) xs × AllPairs R xs

pub AllPairs-remove {ℓ κ} :
    {A : Type ℓ} (R : A → A → Type κ) (xs : List A) (y : A) (ys : List A)
    → AllPairs R (xs ++ y ∷ ys)
    → AllPairs R (xs ++ ys)
AllPairs-remove R [] y ys h = h.1
AllPairs-remove R (x ∷ xs) y ys h = (All-remove (R x) xs y ys h.0, AllPairs-remove R xs y ys h.1)

-- Under a symmetric relation, an element is related to all the others.
pub AllPairs-others {ℓ κ} :
    {A : Type ℓ} (R : A → A → Type κ) (xs : List A) (y : A) (ys : List A)
    → ((a b : A) → R a b → R b a)
    → AllPairs R (xs ++ y ∷ ys)
    → All (R y) (xs ++ ys)
AllPairs-others R [] y ys sym h = h.0
AllPairs-others R (x ∷ xs) y ys sym h =
    (sym x y (All_middle (R x) xs y ys h.0), AllPairs-others R xs y ys sym h.1)

pub any-member {ℓ} :
    {A : Type ℓ} ⦃e : Eq A⦄ (p : A → Bool) (xs : List A) (x : A)
    → any p xs ≡ false
    → contains xs x ≡ true
    → p x ≡ false
any-member p [] x h k = cc
any-member p (y ∷ ys) x h k = ground (arith, ==_iff x y, any-member p ys x)

pub All-set {ℓ κ} :
    {A : Type ℓ} (P : A → Type κ) (xs : List A) (i : ℕ) (v : A)
    → All P xs
    → P v
    → All P (set xs i v)
All-set P [] i v h p = tt
All-set P (x ∷ xs) zero v h p = (p, h.1)
All-set P (x ∷ xs) (suc i) v h p = (h.0, All-set P xs i v h.1 p)

pub All-get {ℓ κ} :
    {A : Type ℓ} (P : A → Type κ) (xs : List A) (i : ℕ) (x : A)
    → All P xs
    → get_elem? xs i ≡ some x
    → P x
All-get P [] i x h e = cc
All-get P (y ∷ xs) zero x h e = let same : y ≡ x = ground (arith, e) in subst P same h.0
All-get P (y ∷ xs) (suc i) x h e = All-get P xs i x h.1 e

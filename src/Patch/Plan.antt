-- ===== src/Patch/Plan.antt =====
-- patch_apply/plan.rs: the plan of a patch. A path is given by its components, as `Path` compares
-- it, on a system without path prefixes.
use griffr.Common.{
  ℕ, ◌≡◌, refl, ◌↔◌, ◌⊎◌, inl, inr, Bool, true, false, ◌&&◌, ◌||◌, not, Option, List, [], ◌∷◌, ◌++◌,
  arith, ltb, nat_beq, if◌then◌else◌, Eq, nat_eq, ◌==◌, ==_iff, ==_refl, Text, text_eq, bytes,
  nat_order, text_less, text_order, flagged_eq, flagged_order,
}

pub record FilePath : Type 0 where
  pub absolute : Bool
  pub components : List Text

abbrev is_nil : List Text → Bool
is_nil [] = true
is_nil (_ ∷ _) = false

-- A `.` is a component only at the front of a relative path.
abbrev without_dot : List Text → List Text
without_dot [] = []
without_dot (c ∷ cs) = if c == bytes "." then cs else c ∷ cs

-- `Path::join`: an absolute second path replaces the first.
unfoldable pub join : FilePath → FilePath → FilePath
join base path =
    if path.absolute
    then path
    else if not base.absolute && is_nil base.components
    then path
    else record {
      absolute = base.absolute;
      components = base.components ++ without_dot path.components;
    }

abbrev texts_equal : List Text → List Text → Bool
texts_equal [] [] = true
texts_equal [] (t ∷ ts) = false
texts_equal (s ∷ ss) [] = false
texts_equal (s ∷ ss) (t ∷ ts) = s == t && texts_equal ss ts

texts_equal_sound : (ss ts : List Text) → texts_equal ss ts ≡ true → ss ≡ ts
texts_equal_sound [] [] h = refl
texts_equal_sound [] (t ∷ ts) h = cc
texts_equal_sound (s ∷ ss) [] h = cc
texts_equal_sound (s ∷ ss) (t ∷ ts) h = ground (arith, ==_iff s t, texts_equal_sound ss ts)

texts_equal_refl : (ts : List Text) → texts_equal ts ts ≡ true
texts_equal_refl [] = refl
texts_equal_refl (t ∷ ts) = ground (arith, ==_refl t, texts_equal_refl ts)

abbrev flags_equal : Bool → Bool → Bool
flags_equal true flag = flag
flags_equal false flag = not flag

abbrev pub paths_equal : FilePath → FilePath → Bool
paths_equal p q = flags_equal p.absolute q.absolute && texts_equal p.components q.components

-- The order of `Component`: `.`, `..`, and then the names.
abbrev component_rank : Text → ℕ
component_rank t = if t == bytes "." then 0 else if t == bytes ".." then 1 else 2

abbrev component_less : Text → Text → Bool
component_less s t =
    ltb (component_rank s) (component_rank t)
    || (nat_beq (component_rank s) (component_rank t) && text_less s t)

abbrev texts_less : List Text → List Text → Bool
texts_less [] [] = false
texts_less [] (t ∷ ts) = true
texts_less (s ∷ ss) [] = false
texts_less (s ∷ ss) (t ∷ ts) = component_less s t || (s == t && texts_less ss ts)

-- The order of `Path`: the root stands before every other component.
unfoldable pub path_less : FilePath → FilePath → Bool
path_less p q =
    if flags_equal p.absolute q.absolute
    then texts_less p.components q.components
    else if p.absolute
    then not (is_nil q.components)
    else is_nil p.components

pub paths_equal_iff : (p q : FilePath) → (paths_equal p q ≡ true) ↔ (p ≡ q)
paths_equal_iff p q = (
  λ h. ground (arith, texts_equal_sound p.components q.components),
  λ h. rw h (ground (arith, texts_equal_refl q.components)),
)

instance abbrev pub path_eq : Eq FilePath
path_eq = record { equal = paths_equal; equal_iff = paths_equal_iff }

pub data PlannedPatchSource : Type 0 where
  already_present : PlannedPatchSource
  local : FilePath → PlannedPatchSource
  hdiff : FilePath → FilePath → Text → ℕ → PlannedPatchSource

-- The name is the path that it spells.
pub record PlannedPatchEntry : Type 0 where
  pub name : FilePath
  pub destination : FilePath
  pub expected_md5 : Text
  pub expected_size : ℕ
  pub source : PlannedPatchSource

pub record PatchPlan : Type 0 where
  pub schema_version : ℕ
  pub install_root : FilePath
  pub stage_root : FilePath
  pub vfs_base_path : FilePath
  pub vfs_destination : FilePath
  pub work_dir : Option FilePath
  pub entries : List PlannedPatchEntry
  pub delete_paths : List FilePath
  pub deferred_paths : List FilePath

pub data PatchError : Type 0 where
  multiple_writers : FilePath → PatchError
  overwrite_cycle : List FilePath → PatchError

pub data Planned {ℓ} (A : Type ℓ) : Type ℓ where
  planned : A → Planned A
  refused : PatchError → Planned A

pub Planned-cases {ℓ} :
    {A : Type ℓ} (r : Planned A)
    → ((a : A) × (r ≡ planned a)) ⊎ ((e : PatchError) × (r ≡ refused e))
Planned-cases (planned a) = inl (a, refl)
Planned-cases (refused e) = inr (e, refl)

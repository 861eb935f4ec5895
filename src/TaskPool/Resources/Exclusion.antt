-- ===== src/TaskPool/Resources/Exclusion.antt =====
-- task_pool/scheduler/queue/resources.rs: tasks that run at once, their paths and their exclusive
-- volumes.
use griffr.Common.{
  ◌≡◌, refl, ap, ◌∙◌, inl, inr, true, false, ◌&&◌, ◌||◌, not, List, [], ◌∷◌, ◌++◌, arith,
  Bool-cases, nat_eq, ◌==◌, ==_iff, ==_refl, any, any-append, contains, All, Text, text_eq,
  text_order, flagged_eq, flagged_order,
}
use griffr.TaskPool.Config.{exclusive, TaskPoolConfig, volume_policy}
use griffr.TaskPool.Request.{ResourceRequest}
use griffr.TaskPool.Resources.{
  ResourceState, insert_path, insert_paths, remove_path, remove_paths, acquire, release,
}
use griffr.TaskPool.Admission.{mutation_path_contains, mutation_paths_conflict}

-- Two tasks share no streaming direction and no metadata mutation of a volume.
pub record VolumeApart (a b : ResourceRequest) (v : Text) : Type 0 where
  pub read_write : (contains a.read_volumes v && contains b.write_volumes v) ≡ false
  pub write_read : (contains a.write_volumes v && contains b.read_volumes v) ≡ false
  pub read_metadata : (contains a.read_volumes v && contains b.metadata_volumes v) ≡ false
  pub metadata_read : (contains a.metadata_volumes v && contains b.read_volumes v) ≡ false
  pub write_metadata : (contains a.write_volumes v && contains b.metadata_volumes v) ≡ false
  pub metadata_write : (contains a.metadata_volumes v && contains b.write_volumes v) ≡ false

-- Two tasks mutate paths that do not conflict, and are apart on every exclusive volume.
pub record Apart (c : TaskPoolConfig) (a b : ResourceRequest) : Type 0 where
  pub mutations :
      (p q : Text)
      → contains a.mutation_paths p ≡ true
      → contains b.mutation_paths q ≡ true
      → mutation_paths_conflict p q ≡ false
  pub volumes : (v : Text) → (volume_policy c v).streaming_mode ≡ exclusive → VolumeApart a b v

conflict_comm : (p q : Text) → mutation_paths_conflict p q ≡ mutation_paths_conflict q p
unfolding mutation_paths_conflict
conflict_comm p q = ground (
  arith,
  ==_iff p q,
  ==_iff q p,
  Bool-cases (mutation_path_contains p q),
  Bool-cases (mutation_path_contains q p),
)

pub conflict_self : (p : Text) → mutation_paths_conflict p p ≡ true
unfolding mutation_paths_conflict
conflict_self p = ground (arith, ==_refl p)

VolumeApart-sym : (a b : ResourceRequest) (v : Text) → VolumeApart a b v → VolumeApart b a v
VolumeApart-sym a b v h = record {
  read_write = ground (arith, h.write_read);
  write_read = ground (arith, h.read_write);
  read_metadata = ground (arith, h.metadata_read);
  metadata_read = ground (arith, h.read_metadata);
  write_metadata = ground (arith, h.metadata_write);
  metadata_write = ground (arith, h.write_metadata);
}

pub Apart-sym : (c : TaskPoolConfig) (a b : ResourceRequest) → Apart c a b → Apart c b a
Apart-sym c a b h = record {
  mutations = λ p q hp hq. conflict_comm p q ∙ h.mutations q p hq hp;
  volumes = λ v mode. VolumeApart-sym a b v (h.volumes v mode);
}

-- The state holds the paths of the running tasks, and no other.
abbrev pub Tracks : List ResourceRequest → ResourceState → Type 0
Tracks active s =
    (p : Text) → contains s.mutation_paths p ≡ any (λ r. contains r.mutation_paths p) active

contains-insert_path :
    (paths : List Text) (p q : Text)
    → contains (insert_path paths p) q ≡ (q == p || contains paths q)
unfolding insert_path
contains-insert_path paths p q = ground (arith, ==_iff q p)

contains-insert_paths :
    (ps paths : List Text) (q : Text)
    → contains (insert_paths paths ps) q ≡ (contains ps q || contains paths q)
unfolding insert_paths
contains-insert_paths [] paths q = refl
contains-insert_paths (p ∷ ps) paths q =
    ground (arith, contains-insert_paths ps (insert_path paths p) q, contains-insert_path paths p q)

contains-remove_path :
    (paths : List Text) (p q : Text)
    → contains (remove_path paths p) q ≡ (contains paths q && not (q == p))
unfolding remove_path
contains-remove_path [] p q = refl
contains-remove_path (x ∷ xs) p q =
    ground (arith, ==_iff x p, ==_iff q p, ==_iff q x, contains-remove_path xs p q)

contains-remove_paths :
    (ps paths : List Text) (q : Text)
    → contains (remove_paths paths ps) q ≡ (contains paths q && not (contains ps q))
unfolding remove_paths
contains-remove_paths [] paths q = ground arith
contains-remove_paths (p ∷ ps) paths q =
    ground (arith, contains-remove_paths ps (remove_path paths p) q, contains-remove_path paths p q)

pub acquire-Tracks :
    (s : ResourceState) (active : List ResourceRequest) (r : ResourceRequest)
    → Tracks active s
    → Tracks (r ∷ active) (acquire s r)
unfolding acquire
acquire-Tracks s active r t p =
    contains-insert_paths r.mutation_paths s.mutation_paths p
    ∙ ap (λ b. contains r.mutation_paths p || b) (t p)

-- A path of a task is no path of the tasks apart from it.
own_path :
    (c : TaskPoolConfig) (r : ResourceRequest) (active : List ResourceRequest) (p : Text)
    → All (Apart c r) active
    → contains r.mutation_paths p ≡ true
    → any (λ q. contains q.mutation_paths p) active ≡ false
own_path c r [] p h own = refl
own_path c r (q ∷ active) p h own = elim (Bool-cases (contains q.mutation_paths p)) [
  | inl shared ↦ absurd (cc (h.0.mutations p p own shared, conflict_self p))
  | inr free ↦ rw free (own_path c r active p h.1 own)
]

pub release-Tracks :
    (c : TaskPoolConfig) (s : ResourceState) (before after : List ResourceRequest)
    (r : ResourceRequest)
    → All (Apart c r) (before ++ after)
    → Tracks (before ++ r ∷ after) s
    → Tracks (before ++ after) (release s r)
unfolding release
release-Tracks c s before after r apart t p = ground (
  arith,
  contains-remove_paths r.mutation_paths s.mutation_paths p,
  t p,
  any-append (λ q. contains q.mutation_paths p) before (r ∷ after),
  any-append (λ q. contains q.mutation_paths p) before after,
  own_path c r (before ++ after) p apart,
)

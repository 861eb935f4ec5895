-- ===== src/TaskPool/Resources/Limits.antt =====
-- task_pool/scheduler/queue/resources.rs: the limits of a volume, and what `can_acquire` has
-- tested.
use griffr.Common.{
  ℕ, ◌+◌, ◌≤◌, ◌<◌, max, ◌≡◌, inl, inr, Bool, true, false, ◌&&◌, ◌||◌, some, List, [], ◌∷◌, arith,
  ltb, leb, if◌then◌else◌, Option-cases, is_some, nat_eq, ==_iff, any, all, contains, Text, text_eq,
  word_max, saturating_add, count_of, text_order, flagged_eq, flagged_order,
}
use griffr.TaskPool.Config.{VolumeStreamingMode, exclusive, mixed, VolumeIoPolicy, TaskPoolConfig}
use griffr.TaskPool.Request.{ResourceRequest}
use griffr.TaskPool.Resources.{AdmissionSnapshot, ResourceState, one_if}
use griffr.TaskPool.Admission.{
  has_mutation_conflict, streaming_pressure, volume_admits, can_acquire_volume, can_reserve_storage,
  has_run_slot, can_acquire_volumes, can_acquire,
}

-- What an admitted request has passed.
pub record Admitted (s : ResourceState) (r : ResourceRequest) (c : TaskPoolConfig)
    (a : AdmissionSnapshot) : Type 0 where
  pub run : has_run_slot s r c a r.run ≡ true
  pub network : (is_some r.network && leb c.network_slots s.network_in_use) ≡ false
  pub extract : (r.extract && leb c.extract_slots s.extract_in_use) ≡ false
  pub savers : any (λ v. ltb 0 (count_of s.archive_savers v)) r.archive_save_volumes ≡ false
  pub commits :
      any
        (λ commit. leb (if commit.1 then 3 else 1) (count_of s.archive_commits commit.0))
        r.archive_commit_volumes
      ≡ false
  pub mutations : has_mutation_conflict s r.mutation_paths ≡ false
  pub storage : can_reserve_storage s r c a ≡ true
  pub volumes : can_acquire_volumes s r c a ≡ true

pub can_acquire-Admitted :
    (s : ResourceState) (r : ResourceRequest) (c : TaskPoolConfig) (a : AdmissionSnapshot)
    → can_acquire s r c a ≡ true
    → Admitted s r c a
unfolding can_acquire
can_acquire-Admitted s r c a h = ground arith

all-contains :
    (p : Text → Bool) (xs : List Text) (v : Text)
    → all p xs ≡ true
    → contains xs v ≡ true
    → p v ≡ true
all-contains p [] v h k = cc
all-contains p (x ∷ xs) v h k = ground (arith, ==_iff v x, all-contains p xs v)

-- Every volume that the request names has been tested.
pub volumes_tested :
    (s : ResourceState) (r : ResourceRequest) (c : TaskPoolConfig) (a : AdmissionSnapshot)
    (v : Text)
    → can_acquire_volumes s r c a ≡ true
    → (contains r.read_volumes v || contains r.write_volumes v || contains r.metadata_volumes v)
      ≡ true
    → can_acquire_volume s r c a v ≡ true
unfolding can_acquire_volumes
volumes_tested s r c a v h k = ground (
  arith,
  all-contains (can_acquire_volume s r c a) r.read_volumes v,
  all-contains (λ w. contains r.read_volumes w || can_acquire_volume s r c a w) r.write_volumes v,
  all-contains
      (λ w. contains r.read_volumes w || contains r.write_volumes w || can_acquire_volume s r c a w)
      r.metadata_volumes v,
)

abbrev pub pressure : VolumeStreamingMode → ℕ → ℕ → ℕ
pressure exclusive reads writes = max reads writes
pressure mixed reads writes = reads + writes

-- The counts of one volume keep to its policy.
pub record VolumeWithin (policy : VolumeIoPolicy) (reads writes metadata : ℕ) : Type 0 where
  pub reads_fit : reads ≤ policy.read_limit
  pub writes_fit : writes ≤ policy.write_limit
  pub metadata_fit : metadata ≤ policy.metadata_limit
  pub pressure_fit : pressure policy.streaming_mode reads writes ≤ policy.streaming_pressure_limit

-- Limits below the largest word, so that a count which meets one can still be raised.
pub record IsBelowMax (policy : VolumeIoPolicy) : Type 0 where
  pub read_limit : policy.read_limit < word_max
  pub write_limit : policy.write_limit < word_max
  pub metadata_limit : policy.metadata_limit < word_max
  pub streaming_pressure_limit : policy.streaming_pressure_limit < word_max

-- The three counts that a volume tests first.
volume_admits-counts :
    (policy : VolumeIoPolicy) (held rd wr md : Bool) (reads writes metadata : ℕ)
    → IsBelowMax policy
    → volume_admits policy held rd wr md reads writes metadata ≡ true
    → (reads + one_if rd ≤ policy.read_limit)
      × (writes + one_if wr ≤ policy.write_limit)
      × (metadata + one_if md ≤ policy.metadata_limit)
unfolding volume_admits
volume_admits-counts policy held rd wr md reads writes metadata b h =
    elim (Option-cases
      (streaming_pressure policy.streaming_mode held rd wr md reads writes metadata)) [
        | inl e ↦ ground (arith, e)
        | inr (q, e) ↦ ground (arith, e)
      ]

-- The pressure that a volume tests last.
pub volume_admits-pressure :
    (policy : VolumeIoPolicy) (held rd wr md : Bool) (reads writes metadata : ℕ)
    → volume_admits policy held rd wr md reads writes metadata ≡ true
    → (q : ℕ × ℕ) × (streaming_pressure policy.streaming_mode held rd wr md reads writes metadata
        ≡ some q)
      × (saturating_add q.0 q.1 ≤ policy.streaming_pressure_limit)
unfolding volume_admits
volume_admits-pressure policy held rd wr md reads writes metadata h =
    elim (Option-cases
      (streaming_pressure policy.streaming_mode held rd wr md reads writes metadata)) [
        | inl e ↦ absurd (ground (arith, e))
        | inr (q, e) ↦ (q, e, ground (arith, e))
      ]

streaming_pressure-bounds :
    (mode : VolumeStreamingMode) (held rd wr md : Bool) (reads writes metadata limit : ℕ)
    (q : ℕ × ℕ)
    → streaming_pressure mode held rd wr md reads writes metadata ≡ some q
    → saturating_add q.0 q.1 ≤ limit
    → limit < word_max
    → pressure mode (reads + one_if rd) (writes + one_if wr) ≤ limit
unfolding streaming_pressure
streaming_pressure-bounds exclusive held rd wr md reads writes metadata limit q h k b = ground arith
streaming_pressure-bounds mixed held rd wr md reads writes metadata limit q h k b = ground arith

-- A volume whose limits are below the largest word and that admits a request keeps to its policy
-- when the request is added.
pub volume_admits-VolumeWithin :
    (policy : VolumeIoPolicy) (held rd wr md : Bool) (reads writes metadata : ℕ)
    → IsBelowMax policy
    → volume_admits policy held rd wr md reads writes metadata ≡ true
    → VolumeWithin policy (reads + one_if rd) (writes + one_if wr) (metadata + one_if md)
volume_admits-VolumeWithin policy held rd wr md reads writes metadata b h =
    let (fit_r, fit_w, fit_m) =
      volume_admits-counts policy held rd wr md reads writes metadata b h in
    let (q, e, fit) = volume_admits-pressure policy held rd wr md reads writes metadata h in
    record {
      reads_fit = fit_r;
      writes_fit = fit_w;
      metadata_fit = fit_m;
      pressure_fit =
          streaming_pressure-bounds policy.streaming_mode held rd wr md reads writes metadata
            policy.streaming_pressure_limit q e fit b.streaming_pressure_limit;
    }

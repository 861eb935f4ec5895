-- ===== src/TaskPool/Resources/Capacity.antt =====
-- task_pool/scheduler/queue/resources.rs: the limits of the configuration under `acquire` and
-- `release`.
use native.Mathlib.Nat.{add-zero}
use griffr.Common.{
  ℕ, ◌+◌, ◌≤◌, ◌<◌, ◌≡◌, inl, inr, Bool, true, false, ◌||◌, List, [], ◌∷◌, map, arith, ltb, leb,
  if◌then◌else◌, Bool-cases, nat_eq, any, contains, occurrences, any-member, Text, text_eq,
  word_max, Map, count_of, increment_all, count_of-increment_all, count_of-decrement_all,
  text_order, flagged_eq, flagged_order, IsAscending, occurrences-IsAscending,
}
use griffr.TaskPool.Config.{
  VolumeStreamingMode, exclusive, mixed, VolumeIoPolicy, TaskPoolConfig, volume_policy,
}
use griffr.TaskPool.Request.{ResourceRequest}
use griffr.TaskPool.Request.Normal.{IsNormal}
use griffr.TaskPool.Resources.{
  AdmissionSnapshot, ResourceState, one_if, commit_volumes, acquire, release,
}
use griffr.TaskPool.Admission.{can_acquire_volume, has_run_slot, can_acquire}
use griffr.TaskPool.Resources.Limits.{
  Admitted, can_acquire-Admitted, volumes_tested, pressure, VolumeWithin, IsBelowMax,
  volume_admits-VolumeWithin,
}

pub record IsBounded (c : TaskPoolConfig) : Type 0 where
  pub network : c.network_slots ≤ word_max
  pub cpu : c.cpu_slots ≤ word_max
  pub blocking : c.blocking_slots ≤ word_max
  pub extract : c.extract_slots ≤ word_max
  pub policies : (v : Text) → IsBelowMax (volume_policy c v)

-- Every counter of the state is within its limit.
pub record Within (c : TaskPoolConfig) (s : ResourceState) : Type 0 where
  pub network : s.network_in_use ≤ c.network_slots
  pub cpu : s.cpu_in_use ≤ c.cpu_slots
  pub blocking : s.blocking_in_use ≤ c.blocking_slots
  pub extract : s.extract_in_use ≤ c.extract_slots
  pub savers : (v : Text) → count_of s.archive_savers v ≤ 1
  pub commits : (v : Text) → count_of s.archive_commits v ≤ 3
  pub volumes :
      (v : Text)
      → VolumeWithin
          (volume_policy c v)
          (count_of s.volume_reads v)
          (count_of s.volume_writes v)
          (count_of s.volume_metadata v)

count_listed :
    (m : Map Text ℕ) (xs : List Text) (v : Text)
    → IsAscending xs
    → count_of m v < word_max
    → count_of (increment_all m xs) v ≡ count_of m v + one_if (contains xs v)
count_listed m xs v asc h =
    let once = occurrences-IsAscending v xs asc in
    let small : occurrences v xs ≤ 1 = ground (arith, once) in
    omega (arith, once, count_of-increment_all m xs v (omega arith))

occurrences-commit_volumes :
    (xs : List (Text × Bool)) (v : Text)
    → occurrences v (map (λ commit. commit.0) xs)
      ≡ occurrences (v, false) xs + occurrences (v, true) xs
occurrences-commit_volumes [] v = omega arith
occurrences-commit_volumes ((w, true) ∷ xs) v = ground (arith, occurrences-commit_volumes xs v)
occurrences-commit_volumes ((w, false) ∷ xs) v = ground (arith, occurrences-commit_volumes xs v)

savers-acquire :
    (m : Map Text ℕ) (xs : List Text) (v : Text)
    → IsAscending xs
    → any (λ w. ltb 0 (count_of m w)) xs ≡ false
    → count_of m v ≤ 1
    → count_of (increment_all m xs) v ≤ 1
savers-acquire m xs v asc free h =
    ground (
      arith,
      count_listed m xs v asc (omega arith),
      any-member (λ w. ltb 0 (count_of m w)) xs v free,
    )

commits-acquire :
    (m : Map Text ℕ) (xs : List (Text × Bool)) (v : Text)
    → IsAscending xs
    → any (λ commit. leb (if commit.1 then 3 else 1) (count_of m commit.0)) xs ≡ false
    → count_of m v ≤ 3
    → count_of (increment_all m (map (λ commit. commit.0) xs)) v ≤ 3
commits-acquire m xs v asc free h =
    let at = occurrences-commit_volumes xs v in
    let plain = occurrences-IsAscending (v, false) xs asc in
    let crossing = occurrences-IsAscending (v, true) xs asc in
    let few : occurrences v (map (λ commit. commit.0) xs) ≤ 2 =
      ground (arith, at, plain, crossing) in
    let counted = count_of-increment_all m (map (λ commit. commit.0) xs) v (omega arith) in
    ground (
      arith,
      at,
      plain,
      crossing,
      counted,
      any-member (λ commit. leb (if commit.1 then 3 else 1) (count_of m commit.0)) xs (v, false)
          free,
      any-member (λ commit. leb (if commit.1 then 3 else 1) (count_of m commit.0)) xs (v, true)
          free,
    )

module _ (c : TaskPoolConfig) (s : ResourceState) (r : ResourceRequest) (a : AdmissionSnapshot)
    (bounded : IsBounded c) (within : Within c s) (normal : IsNormal r)
    (admitted : Admitted s r c a) where
  volume-acquire :
      (v : Text)
      → VolumeWithin
          (volume_policy c v)
          (count_of s.volume_reads v + one_if (contains r.read_volumes v))
          (count_of s.volume_writes v + one_if (contains r.write_volumes v))
          (count_of s.volume_metadata v + one_if (contains r.metadata_volumes v))
  unfolding can_acquire_volume
  volume-acquire v =
      elim (Bool-cases (
        contains r.read_volumes v || contains r.write_volumes v || contains r.metadata_volumes v)) [
          | inl named ↦
              volume_admits-VolumeWithin (volume_policy c v) (contains a.reserved_write_volumes v) _
                _ _ _ _ _ (bounded.policies v) (volumes_tested s r c a v admitted.volumes named)
          | inr other ↦ untouched v other (within.volumes v)
        ]
    where
      untouched :
          (v : Text)
          → (contains r.read_volumes v
              || contains r.write_volumes v
              || contains r.metadata_volumes v)
            ≡ false
          → VolumeWithin
              (volume_policy c v)
              (count_of s.volume_reads v)
              (count_of s.volume_writes v)
              (count_of s.volume_metadata v)
          → VolumeWithin
              (volume_policy c v)
              (count_of s.volume_reads v + one_if (contains r.read_volumes v))
              (count_of s.volume_writes v + one_if (contains r.write_volumes v))
              (count_of s.volume_metadata v + one_if (contains r.metadata_volumes v))
      untouched v other w =
          let no_read : contains r.read_volumes v ≡ false = ground (arith, other) in
          let no_write : contains r.write_volumes v ≡ false = ground (arith, other) in
          let no_metadata : contains r.metadata_volumes v ≡ false = ground (arith, other) in
          rw
            (
              no_read,
              no_write,
              no_metadata,
              add-zero (count_of s.volume_reads v),
              add-zero (count_of s.volume_writes v),
              add-zero (count_of s.volume_metadata v),
            )
            w

  volumes-acquire :
      (v : Text)
      → VolumeWithin
          (volume_policy c v)
          (count_of (acquire s r).volume_reads v)
          (count_of (acquire s r).volume_writes v)
          (count_of (acquire s r).volume_metadata v)
  unfolding acquire
  volumes-acquire v =
      let w = within.volumes v in
      let b = bounded.policies v in
      rw
        (
          count_listed s.volume_reads r.read_volumes v normal.reads
              (omega (arith, w.reads_fit, b.read_limit)),
          count_listed s.volume_writes r.write_volumes v normal.writes
              (omega (arith, w.writes_fit, b.write_limit)),
          count_listed s.volume_metadata r.metadata_volumes v normal.metadata
              (omega (arith, w.metadata_fit, b.metadata_limit)),
        )
        (volume-acquire v)

  slots-acquire :
      ((acquire s r).network_in_use ≤ c.network_slots)
      × ((acquire s r).cpu_in_use ≤ c.cpu_slots)
      × ((acquire s r).blocking_in_use ≤ c.blocking_slots)
      × ((acquire s r).extract_in_use ≤ c.extract_slots)
  unfolding acquire has_run_slot
  slots-acquire = ground (
    arith, within.network, within.cpu, within.blocking, within.extract, admitted.run,
    admitted.network, admitted.extract,
  )

  Within-acquire : Within c (acquire s r)
  unfolding acquire
  Within-acquire = record {
    network = slots-acquire.0;
    cpu = slots-acquire.1;
    blocking = slots-acquire.2;
    extract = slots-acquire.3;
    savers = λ v.
        savers-acquire s.archive_savers r.archive_save_volumes v normal.savers admitted.savers
          (within.savers v);
    commits = λ v.
        commits-acquire s.archive_commits r.archive_commit_volumes v normal.commits admitted.commits
          (within.commits v);
    volumes = volumes-acquire;
  }

-- Acquiring a normal request that can_acquire grants keeps every counter within its limit: the
-- network, CPU, blocking and extraction slots, the lanes of archive savers and commits, and the
-- policy of every volume.
pub acquire-Within :
    (c : TaskPoolConfig) (s : ResourceState) (r : ResourceRequest) (a : AdmissionSnapshot)
    → IsBounded c
    → Within c s
    → IsNormal r
    → can_acquire s r c a ≡ true
    → Within c (acquire s r)
acquire-Within c s r a bounded within normal can =
    Within-acquire c s r a bounded within normal (can_acquire-Admitted s r c a can)

VolumeWithin-le :
    (policy : VolumeIoPolicy) (reads writes metadata reads' writes' metadata' : ℕ)
    → reads' ≤ reads
    → writes' ≤ writes
    → metadata' ≤ metadata
    → VolumeWithin policy reads writes metadata
    → VolumeWithin policy reads' writes' metadata'
VolumeWithin-le policy reads writes metadata reads' writes' metadata' hr hw hm w = record {
  reads_fit = omega (arith, w.reads_fit);
  writes_fit = omega (arith, w.writes_fit);
  metadata_fit = omega (arith, w.metadata_fit);
  pressure_fit = less policy.streaming_mode w.pressure_fit;
}
  where
    less :
        (mode : VolumeStreamingMode)
        → pressure mode reads writes ≤ policy.streaming_pressure_limit
        → pressure mode reads' writes' ≤ policy.streaming_pressure_limit
    less exclusive h = omega arith
    less mixed h = omega arith

-- A release frees resources, and so it keeps every limit.
pub release-Within :
    (c : TaskPoolConfig) (s : ResourceState) (r : ResourceRequest)
    → Within c s
    → Within c (release s r)
unfolding release
release-Within c s r w = record {
  network = ground (arith, w.network);
  cpu = ground (arith, w.cpu);
  blocking = ground (arith, w.blocking);
  extract = ground (arith, w.extract);
  savers = λ v.
      omega (arith, w.savers v, count_of-decrement_all s.archive_savers r.archive_save_volumes v);
  commits = λ v.
      omega (arith, w.commits v, count_of-decrement_all s.archive_commits (commit_volumes r) v);
  volumes = λ v.
      VolumeWithin-le (volume_policy c v) _ _ _ _ _ _
        (omega (arith, count_of-decrement_all s.volume_reads r.read_volumes v))
        (omega (arith, count_of-decrement_all s.volume_writes r.write_volumes v))
        (omega (arith, count_of-decrement_all s.volume_metadata r.metadata_volumes v))
        (w.volumes v);
}

-- ===== src/TaskPool/Admission.antt =====
-- task_pool/scheduler/queue/resources.rs: admission, `can_acquire` and the tests that it makes.
use griffr.Common.{
  ℕ, max, Bool, true, false, ◌&&◌, ◌||◌, not, Option, none, some, List, [], ◌∷◌, ltb, leb, nat_beq,
  if◌then◌else◌, is_some, nat_eq, ◌==◌, any, all, contains, Text, text_eq, strip_prefix,
  starts_with_byte, ends_with_byte, saturating_add, get, count_of, text_order, flagged_eq,
  flagged_order,
}
use griffr.TaskPool.Config.{
  VolumeStreamingMode, exclusive, mixed, VolumeIoPolicy, TaskPoolConfig, volume_policy,
}
use griffr.TaskPool.Request.{RunClass, async_io, cpu, blocking, ResourceRequest}
use griffr.TaskPool.Resources.{AdmissionSnapshot, ResourceState, one_if}

unfoldable pub storage_reservation_fits : (active requested available : ℕ) → Bool
storage_reservation_fits active requested available =
    nat_beq active 0 || leb (saturating_add active requested) available

abbrev pub is_empty : Text → Bool
is_empty [] = true
is_empty (_ ∷ _) = false

unfoldable pub mutation_path_contains : (parent child : Text) → Bool
mutation_path_contains parent child = elim (strip_prefix parent child) [
  | none ↦ false
  | some suffix ↦
      starts_with_byte b'/' suffix || (ends_with_byte b'/' parent && not (is_empty suffix))
]

unfoldable pub mutation_paths_conflict : (left right : Text) → Bool
unfolding mutation_path_contains
mutation_paths_conflict left right =
    left == right || mutation_path_contains left right || mutation_path_contains right left

unfoldable pub has_mutation_conflict : ResourceState → List Text → Bool
has_mutation_conflict s requested =
    any (λ path. any (mutation_paths_conflict path) s.mutation_paths) requested

-- The pressure on a volume and the pressure that a request adds; `none` refuses the request.
unfoldable pub streaming_pressure :
    VolumeStreamingMode
    → (reserved_for_writer wants_read wants_write wants_metadata : Bool)
    → (reads writes metadata : ℕ) → Option (ℕ × ℕ)
streaming_pressure exclusive reserved_for_writer wants_read wants_write wants_metadata reads writes
      metadata =
    if wants_read && ltb 0 writes
      || wants_write && ltb 0 reads
      || wants_metadata && (ltb 0 reads || ltb 0 writes)
      || (wants_read || wants_write) && ltb 0 metadata
    then none
    else if reserved_for_writer && not wants_write && wants_metadata
    then none
    else some (max reads writes, one_if (wants_read || wants_write))
streaming_pressure mixed reserved_for_writer wants_read wants_write wants_metadata reads writes
      metadata =
    some (saturating_add reads writes, saturating_add (one_if wants_read) (one_if wants_write))

-- The tests of `can_acquire_volume` on the policy, the wishes and the counts of one volume.
unfoldable pub volume_admits :
    VolumeIoPolicy
    → (reserved_for_writer wants_read wants_write wants_metadata : Bool)
    → (reads writes metadata : ℕ) → Bool
volume_admits policy reserved_for_writer wants_read wants_write wants_metadata reads writes
      metadata =
    if ltb policy.read_limit (saturating_add reads (one_if wants_read))
      || ltb policy.write_limit (saturating_add writes (one_if wants_write))
      || ltb policy.metadata_limit (saturating_add metadata (one_if wants_metadata))
    then false
    else elim (streaming_pressure policy.streaming_mode reserved_for_writer wants_read wants_write
        wants_metadata reads writes metadata) [
          | none ↦ false
          | some (current, requested) ↦
              leb
                (saturating_add (saturating_add current requested) (
                  one_if (
                    reserved_for_writer
                    && ltb 0 requested
                    && not wants_write
                    && ltb writes policy.write_limit)))
                policy.streaming_pressure_limit
        ]

module _ (s : ResourceState) (request : ResourceRequest) (config : TaskPoolConfig)
    (admission : AdmissionSnapshot) where
  unfoldable pub can_acquire_volume : Text → Bool
  can_acquire_volume volume =
      volume_admits (volume_policy config volume) (contains admission.reserved_write_volumes volume)
        (contains request.read_volumes volume) (contains request.write_volumes volume)
        (contains request.metadata_volumes volume) (count_of s.volume_reads volume)
        (count_of s.volume_writes volume) (count_of s.volume_metadata volume)

  unfoldable pub can_reserve_storage : Bool
  can_reserve_storage =
      all
        (λ reservation.
          let active = count_of s.storage_reserved_bytes reservation.volume in
          if nat_beq active 0
          then true
          else elim (get admission.storage_available_bytes reservation.volume) [
            | none ↦ true
            | some none ↦ true
            | some (some available) ↦ storage_reservation_fits active reservation.bytes available
          ])
        request.storage_reservations

  -- The `match request.run` of `can_acquire`: whether the lane has a free slot.
  unfoldable pub has_run_slot : RunClass → Bool
  has_run_slot async_io = true
  has_run_slot cpu = ltb s.cpu_in_use config.cpu_slots
  has_run_slot blocking = ltb s.blocking_in_use config.blocking_slots

  -- The three loops over the volumes; a volume that an earlier loop has tested is passed over.
  unfoldable pub can_acquire_volumes : Bool
  can_acquire_volumes =
      all can_acquire_volume request.read_volumes
      && all (λ volume. contains request.read_volumes volume || can_acquire_volume volume)
          request.write_volumes
      && all
          (λ volume.
            contains request.read_volumes volume
            || contains request.write_volumes volume
            || can_acquire_volume volume)
          request.metadata_volumes

  unfoldable pub can_acquire : Bool
  can_acquire =
      if not (has_run_slot request.run)
      then false
      else if is_some request.network && leb config.network_slots s.network_in_use
      then false
      else if request.extract && leb config.extract_slots s.extract_in_use
      then false
      else if request.reuse_probe
          && leb (max config.reuse_queue_limit 1)
              (saturating_add s.reuse_commits_in_use admission.queued_reuse_commits)
      then false
      else if any (λ volume. ltb 0 (count_of s.archive_savers volume)) request.archive_save_volumes
      then false
      else if any (λ commit. leb (if commit.1 then 3 else 1) (count_of s.archive_commits commit.0))
          request.archive_commit_volumes
      then false
      else if has_mutation_conflict s request.mutation_paths
      then false
      else can_reserve_storage && can_acquire_volumes

-- ===== src/TaskPool/Config.antt =====
-- task_pool/types/config.rs: the slots, the volume policies and the sizes derived from them.
-- The number of processors, `std::thread::available_parallelism`, is an argument.
pub mod Bounds
use griffr.Common.{
  ℕ, ◌*◌, ◌/◌, ◌%◌, max, ◌&&◌, Option, none, some, [], ltb, if◌then◌else◌, nat_eq, Text, text_eq,
  bytes, word, saturating_add, saturating_mul, saturating_sub, clamp, Map, get, insert,
}

pub data VolumeStreamingMode : Type 0 where
  exclusive mixed : VolumeStreamingMode

pub record VolumeIoPolicy : Type 0 where
  pub read_limit : ℕ
  pub write_limit : ℕ
  pub metadata_limit : ℕ
  pub streaming_pressure_limit : ℕ
  pub streaming_mode : VolumeStreamingMode

-- `VolumeIoPolicy::new`; a failed assertion is `none`.
unfoldable pub new_policy : ℕ → ℕ → ℕ → ℕ → VolumeStreamingMode → Option VolumeIoPolicy
new_policy reads writes metadata pressure mode =
    if ltb 0 reads && ltb 0 writes && ltb 0 metadata && ltb 0 pressure
    then some (record {
      read_limit = reads;
      write_limit = writes;
      metadata_limit = metadata;
      streaming_pressure_limit = pressure;
      streaming_mode = mode;
    })
    else none

-- `VolumeIoPolicy::default`, whose arguments pass the assertions.
abbrev pub default_policy : VolumeIoPolicy
default_policy = record {
  read_limit = 16;
  write_limit = 16;
  metadata_limit = 128;
  streaming_pressure_limit = 32;
  streaming_mode = mixed;
}

pub record TaskPoolConfig : Type 0 where
  pub dispatcher_threads : ℕ
  pub network_slots : ℕ
  pub cpu_slots : ℕ
  pub blocking_slots : ℕ
  pub blocking_pool_limit : ℕ
  pub extract_slots : ℕ
  pub default_volume_policy : VolumeIoPolicy
  pub volume_policies : Map Text VolumeIoPolicy
  pub reuse_queue_limit : ℕ
  pub volume_write_reservation_delay : ℕ  -- nanoseconds
  pub extract_shards : ℕ
  pub max_retries : ℕ
  pub user_agent : Text
  pub extraction_progress_buffer_bytes : ℕ
  pub download_progress_buffer_bytes : ℕ

abbrev pub blocking_pool_internal_reserve : ℕ
blocking_pool_internal_reserve = 4

unfoldable pub shards_for : ℕ → ℕ
shards_for extract_slots = clamp (saturating_mul extract_slots 2) 1 4

-- The clamp that `default` and `fit_blocking_pool` share.
unfoldable pub fitted_pool : ℕ → ℕ → ℕ
fitted_pool cpu blocking =
    clamp (saturating_add (saturating_add cpu blocking) blocking_pool_internal_reserve) 8 32

-- `TaskPoolConfig::default` on a machine with `cpus` processors.
unfoldable pub default_config : (cpus : ℕ) → TaskPoolConfig
unfolding shards_for fitted_pool
default_config cpus =
    let cpu_slots = clamp (saturating_sub cpus 1) 1 12 in
    let blocking_slots = clamp (cpus / 2) 2 8 in
    let extract_slots = clamp (cpus / 4) 1 2 in
    record {
      dispatcher_threads = clamp cpus 2 8;
      network_slots = clamp (cpus * 2 % word) 4 12;
      cpu_slots = cpu_slots;
      blocking_slots = blocking_slots;
      blocking_pool_limit = fitted_pool cpu_slots blocking_slots;
      extract_slots = extract_slots;
      default_volume_policy = default_policy;
      volume_policies = [];
      reuse_queue_limit = 64;
      volume_write_reservation_delay = 15000000;
      extract_shards = shards_for extract_slots;
      max_retries = 3;
      user_agent = bytes "Mozilla/5.0";
      extraction_progress_buffer_bytes = 262144;
      download_progress_buffer_bytes = 262144;
    }

-- The constructors below override fields of `Self::default()`.
unfoldable pub with_progress_buffers : (cpus : ℕ) → ℕ → ℕ → TaskPoolConfig
with_progress_buffers cpus extraction download = record (default_config cpus) {
  extraction_progress_buffer_bytes = extraction;
  download_progress_buffer_bytes = download;
}

unfoldable pub with_download_progress_buffer : (cpus : ℕ) → ℕ → TaskPoolConfig
with_download_progress_buffer cpus download = record (default_config cpus) {
  download_progress_buffer_bytes = download;
}

unfoldable pub with_extract_slots : (cpus : ℕ) → ℕ → TaskPoolConfig
unfolding shards_for default_config
with_extract_slots cpus extract_slots =
    let slots = clamp extract_slots 1 2 in
    record (default_config cpus) { extract_slots = slots; extract_shards = shards_for slots }

unfoldable pub fit_blocking_pool : TaskPoolConfig → TaskPoolConfig
unfolding fitted_pool
fit_blocking_pool c = record c { blocking_pool_limit = fitted_pool c.cpu_slots c.blocking_slots }

unfoldable pub fit_blocking_pool_for_runners : TaskPoolConfig → ℕ → TaskPoolConfig
fit_blocking_pool_for_runners c runners =
    let admitted_per_runner = saturating_add c.cpu_slots c.blocking_slots in
    record c {
      blocking_pool_limit =
          max
            (saturating_add (saturating_mul admitted_per_runner (max runners 1))
              blocking_pool_internal_reserve)
            8;
    }

unfoldable pub ready_frontier_limit : TaskPoolConfig → ℕ
ready_frontier_limit c =
    clamp (saturating_mul (max (max c.cpu_slots c.blocking_slots) c.network_slots) 32) 256 1024

-- `with_volume_policy`; the key of the path's volume is resolved by the file system.
unfoldable pub with_volume_policy : TaskPoolConfig → Text → VolumeIoPolicy → TaskPoolConfig
with_volume_policy c volume policy = record c {
  volume_policies = insert c.volume_policies volume policy;
}

unfoldable pub volume_policy : TaskPoolConfig → Text → VolumeIoPolicy
volume_policy c volume = elim (get c.volume_policies volume) [
  | none ↦ c.default_volume_policy
  | some policy ↦ policy
]

unfoldable pub for_file_reuse : (cpus : ℕ) → TaskPoolConfig
unfolding default_config
for_file_reuse cpus = record (default_config cpus) { network_slots = clamp cpus 4 12 }

unfoldable pub for_file_ensure : (cpus : ℕ) → TaskPoolConfig
unfolding default_config
for_file_ensure cpus = record (default_config cpus) { network_slots = clamp (cpus * 2 % word) 4 12 }

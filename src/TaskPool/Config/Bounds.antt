-- ===== src/TaskPool/Config/Bounds.antt =====
-- task_pool/types/config.rs: the ranges of the derived sizes.
use griffr.Common.{
  ℕ, ◌+◌, ◌*◌, ◌≤◌, max, ◌≡◌, arith, if◌then◌else◌, ◌==◌, nat_eq, Text, text_eq, word_max,
  get-insert,
}
use griffr.TaskPool.Config.{
  TaskPoolConfig, VolumeIoPolicy, default_config, fit_blocking_pool_for_runners,
  ready_frontier_limit, with_extract_slots, for_file_reuse, for_file_ensure, with_volume_policy,
  volume_policy,
}

-- What a scheduler relies on: every lane has a slot, and the blocking pool holds all admitted
-- jobs and the reserve.
pub record IsSized (c : TaskPoolConfig) : Type 0 where
  pub network : (4 ≤ c.network_slots) × (c.network_slots ≤ 12)
  pub cpu : (1 ≤ c.cpu_slots) × (c.cpu_slots ≤ 12)
  pub blocking : (2 ≤ c.blocking_slots) × (c.blocking_slots ≤ 8)
  pub extract : (1 ≤ c.extract_slots) × (c.extract_slots ≤ 2)
  pub shards : c.extract_shards ≡ 2 * c.extract_slots
  pub headroom : c.cpu_slots + c.blocking_slots + 4 ≤ c.blocking_pool_limit

-- Every preset configuration gives each lane its slots within the stated bounds, two shards to an
-- extraction slot, and a blocking pool that holds all admitted jobs and the reserve, whatever the
-- number of processors.
pub presets-IsSized :
    (cpus slots : ℕ)
    → IsSized (default_config cpus)
      × IsSized (with_extract_slots cpus slots)
      × IsSized (for_file_reuse cpus)
      × IsSized (for_file_ensure cpus)
unfolding default_config with_extract_slots for_file_reuse for_file_ensure
presets-IsSized cpus slots = omega arith

-- Where no sum leaves the word, fit_blocking_pool_for_runners gives the pool room for the CPU and
-- blocking jobs of every runner and for the reserve.
pub fit_for_runners-headroom :
    (c : TaskPoolConfig) (runners : ℕ)
    → (c.cpu_slots + c.blocking_slots) * max runners 1 + 4 ≤ word_max
    → c.cpu_slots + c.blocking_slots ≤ word_max
    → (c.cpu_slots + c.blocking_slots) * max runners 1 + 4
      ≤ (fit_blocking_pool_for_runners c runners).blocking_pool_limit
unfolding fit_blocking_pool_for_runners
fit_for_runners-headroom c runners h k = grind arith

pub ready_frontier_limit_bounds :
    (c : TaskPoolConfig) → (256 ≤ ready_frontier_limit c) × (ready_frontier_limit c ≤ 1024)
unfolding ready_frontier_limit
ready_frontier_limit_bounds c = omega arith

-- After with_volume_policy the policy of that volume is the given one, and that of any other
-- volume is what it was.
pub volume_policy-with_volume_policy :
    (c : TaskPoolConfig) (volume other : Text) (policy : VolumeIoPolicy)
    → volume_policy (with_volume_policy c volume policy) other
      ≡ (if volume == other then policy else volume_policy c other)
unfolding volume_policy with_volume_policy
volume_policy-with_volume_policy c volume other policy =
    ground (arith, get-insert c.volume_policies volume other policy)

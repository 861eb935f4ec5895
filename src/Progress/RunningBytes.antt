-- ===== src/Progress/RunningBytes.antt =====
-- progress.rs: `RunningByteProgress`, the bytes of every key and their sum.
pub mod Sum
use griffr.Common.{
  ℕ, max, [], nat_eq, Text, text_eq, saturating_add, saturating_sub, Map, insert, count_of,
  text_order, flagged_eq, flagged_order,
}

pub record RunningByteProgress : Type 0 where
  pub bytes_by_key : Map Text ℕ
  pub total_bytes : ℕ

-- `RunningByteProgress::new`
abbrev pub new_progress : RunningByteProgress
new_progress = record { bytes_by_key = []; total_bytes = 0 }

-- `insert(…).unwrap_or(0)` gives the bytes that the key had.
unfoldable pub record_bytes : RunningByteProgress → Text → ℕ → RunningByteProgress
unfolding count_of
record_bytes p key n = record {
  bytes_by_key = insert p.bytes_by_key key n;
  total_bytes = saturating_sub (saturating_add p.total_bytes n) (count_of p.bytes_by_key key);
}

unfoldable pub record_max : RunningByteProgress → Text → ℕ → RunningByteProgress
unfolding record_bytes
record_max p key n = record_bytes p key (max (count_of p.bytes_by_key key) n)

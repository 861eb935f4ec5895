-- ===== src/TaskPool/Queue/Select.antt =====
-- task_pool/scheduler/queue/priority_queue.rs: which queued task is taken, `runnable_index`.
pub mod Ranks
pub mod Laws
pub mod Priority
use griffr.Common.{
  ℕ, zero, suc, ◌*◌, ◌/◌, ◌%◌, Bool, true, false, ◌&&◌, Option, none, some, List, [], ◌∷◌, ltb,
  nat_beq, if◌then◌else◌, nat_eq, any, total, contains, Text, text_eq, word, saturating_sub, Map,
  count_of, text_order, flagged_eq, flagged_order,
}
use griffr.TaskPool.Config.{TaskPoolConfig}
use griffr.TaskPool.Request.{RunClass, async_io, NetworkClass, run_class_eq, network_class_eq}
use griffr.TaskPool.Resources.{AdmissionSnapshot, ResourceState}
use griffr.TaskPool.Admission.{can_acquire}
use griffr.TaskPool.Queue.{TaskKind, QueuedTask, all_volumes}

-- The key of `min_by_key`; `Reverse` turns the order of its field.
pub record Rank : Type 0 where
  pub age_bucket : ℕ
  pub reserved_writer_rank : ℕ
  pub metadata_rank : ℕ
  pub backlog : ℕ
  pub estimated_bytes : ℕ
  pub index : ℕ

abbrev pub then_less : ℕ → ℕ → Bool → Bool
then_less a b rest = if ltb a b then true else nat_beq a b && rest

-- The derived order of the tuple.
unfoldable pub rank_less : Rank → Rank → Bool
rank_less x y = then_less y.age_bucket x.age_bucket (
    then_less x.reserved_writer_rank y.reserved_writer_rank (
      then_less x.metadata_rank y.metadata_rank (
        then_less y.backlog x.backlog
          (then_less x.estimated_bytes y.estimated_bytes (ltb x.index y.index)))))

abbrev pub no_volumes : List Text → Bool
no_volumes [] = true
no_volumes (_ ∷ _) = false

-- `PRIORITY_LOOKAHEAD`
abbrev pub priority_lookahead : ℕ
priority_lookahead = 64

-- One step of `min_by_key`: the first of the smallest keys stays.
unfoldable pub keep_best : Bool → (i : ℕ) → Rank → Option (ℕ × Rank) → Option (ℕ × Rank)
keep_best passes i r none = if passes then some (i, r) else none
keep_best passes i r (some (j, s)) = if passes && rank_less r s then some (i, r) else some (j, s)

module _ {Task : Type 0} where
  -- The closure `priority`: five seconds to an age bucket.
  unfoldable pub priority_rank :
      (now : ℕ) → AdmissionSnapshot → (volume_depth : Map Text ℕ) → ℕ → QueuedTask Task → Rank
  unfolding count_of
  priority_rank now admission volume_depth index queued = record {
    age_bucket = saturating_sub now queued.enqueued_at / 1000000000 / 5;
    reserved_writer_rank =
        if any (contains admission.reserved_write_volumes) queued.resources.write_volumes
        then 0
        else 1;
    metadata_rank = if no_volumes queued.resources.metadata_volumes then 1 else 0;
    backlog = total (count_of volume_depth) (all_volumes queued.resources) % word;
    estimated_bytes = queued.resources.estimated_bytes;
    index = index;
  }

  -- The closure `runnable`.
  unfoldable pub runnable :
      RunClass
      → Option NetworkClass
      → ResourceState
      → TaskPoolConfig
      → AdmissionSnapshot
      → QueuedTask Task
      → Bool
  runnable class network resources config admission queued =
      run_class_eq queued.resources.run class
      && elim network [
        | none ↦ true
        | some selected ↦ elim queued.resources.network [
          | none ↦ false
          | some own ↦ network_class_eq own selected
        ]
      ]
      && can_acquire resources queued.resources config admission

  -- `enumerate().take(n).filter(p).min_by_key(rank)`, from index `i` on, with the best so far.
  unfoldable pub best_of :
      (p : QueuedTask Task → Bool)
      → (rank : ℕ → QueuedTask Task → Rank) → (n i : ℕ) → List (QueuedTask Task)
      → Option (ℕ × Rank)
      → Option (ℕ × Rank)
  best_of p rank zero i queue best = best
  best_of p rank (suc n) i [] best = best
  best_of p rank (suc n) i (x ∷ xs) best =
      best_of p rank n (suc i) xs (keep_best (p x) i (rank i x) best)

  -- `enumerate().skip(n).find(p)`, and `position(p)` for `n` 0, from index `i` on.
  unfoldable pub position :
      (p : QueuedTask Task → Bool) → (n i : ℕ) → List (QueuedTask Task) → Option ℕ
  position p n i [] = none
  position p zero i (x ∷ xs) = let rest = position p zero (suc i) xs in if p x then some i else rest
  position p (suc n) i (x ∷ xs) = position p n (suc i) xs

  unfoldable pub select_index :
      (p : QueuedTask Task → Bool)
      → (rank : ℕ → QueuedTask Task → Rank) → List (QueuedTask Task)
      → Option ℕ
  select_index p rank queue = elim (best_of p rank priority_lookahead 0 queue none) [
    | some (i, _) ↦ some i
    | none ↦ position p priority_lookahead 0 queue
  ]

  unfoldable pub runnable_index :
      List (QueuedTask Task)
      → RunClass
      → Option NetworkClass
      → ResourceState
      → TaskPoolConfig
      → AdmissionSnapshot
      → (volume_depth : Map Text ℕ) → (now : ℕ) → Option ℕ
  runnable_index queue class network resources config admission volume_depth now =
      select_index (runnable class network resources config admission)
        (priority_rank now admission volume_depth) queue

  -- `md5_verify_batch_index`: a follower of a batch asks for no CPU slot of its own.
  unfoldable pub md5_verify_batch_index :
      TaskKind Task
      → List (QueuedTask Task)
      → ResourceState
      → TaskPoolConfig
      → AdmissionSnapshot
      → Option ℕ
  unfolding position
  md5_verify_batch_index kind queue resources config admission =
      position
        (λ queued.
          if kind.is_md5_verify_task queued.task
          then can_acquire resources (record queued.resources { run = async_io }) config admission
          else false)
        0 0 queue

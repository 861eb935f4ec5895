-- ===== src/TaskPool/Queue/Select/Priority.antt =====
-- task_pool/scheduler/queue/priority_queue.rs: the task that `runnable_index` selects.
use griffr.Common.{
  ℕ, ◌-◌, ◌/◌, ◌%◌, ◌≤◌, ◌<◌, ◌≡◌, ◌⊎◌, Bool, true, false, some, List, ltb, nat_eq, length,
  get_elem?, any, total, contains, Text, text_eq, word, Map, count_of, nat_order, text_order,
  flagged_eq, flagged_order,
}
use griffr.TaskPool.Resources.{AdmissionSnapshot}
use griffr.TaskPool.Queue.{QueuedTask, all_volumes}

module _ {Task : Type 0} where
  -- How many times five seconds the task has waited.
  abbrev waited : ℕ → QueuedTask Task → ℕ
  waited now q = (now - q.enqueued_at) / 5000000000

  -- The task writes a volume that is reserved for writers.
  abbrev has_reserved : AdmissionSnapshot → QueuedTask Task → Bool
  has_reserved admission q =
      any (λ volume. contains admission.reserved_write_volumes volume) q.resources.write_volumes

  abbrev has_metadata : QueuedTask Task → Bool
  has_metadata q = ltb 0 (length q.resources.metadata_volumes)

  -- The waiting tasks of its volumes.
  abbrev backlog_of : Map Text ℕ → QueuedTask Task → ℕ
  backlog_of depth q = total (count_of depth) (all_volumes q.resources) % word

  -- The task `x` at index `k` comes before or with the task `y` at index `j`: it has waited longer,
  -- or else it alone writes a reserved volume, or else it alone writes metadata, or else its volumes
  -- have more tasks, or else it is smaller, or else it stands earlier.
  abbrev pub IsFirst :
      ℕ → AdmissionSnapshot → Map Text ℕ → ℕ → QueuedTask Task → ℕ → QueuedTask Task → Type 0
  IsFirst now admission depth k x j y =
      (waited now y < waited now x)
      ⊎ ((waited now y ≡ waited now x)
          × (((has_reserved admission x ≡ true) × (has_reserved admission y ≡ false))
              ⊎ ((has_reserved admission x ≡ has_reserved admission y)
                  × (((has_metadata x ≡ true) × (has_metadata y ≡ false))
                      ⊎ ((has_metadata x ≡ has_metadata y)
                          × ((backlog_of depth y < backlog_of depth x)
                              ⊎ ((backlog_of depth y ≡ backlog_of depth x)
                                  × ((x.resources.estimated_bytes < y.resources.estimated_bytes)
                                      ⊎ ((x.resources.estimated_bytes ≡ y.resources.estimated_bytes)
                                          × (k ≤ j))))))))))

  -- The task that is selected from a queue, at the index `k`.
  pub record IsSelected (can_run : QueuedTask Task → Bool) (now : ℕ) (admission : AdmissionSnapshot)
      (depth : Map Text ℕ) (queue : List (QueuedTask Task)) (k : ℕ) : Type 0 where
    pub selected : QueuedTask Task
    pub at : get_elem? queue k ≡ some selected
    pub runs : can_run selected ≡ true
    pub first_of_front :
        (j : ℕ) (y : QueuedTask Task)
        → j < 64
        → get_elem? queue j ≡ some y
        → can_run y ≡ true
        → (k < 64) × IsFirst now admission depth k selected j y
    pub first_of_rest :
        (j : ℕ) (y : QueuedTask Task)
        → 64 ≤ k
        → j < k
        → get_elem? queue j ≡ some y
        → can_run y ≡ false

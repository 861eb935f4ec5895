-- ===== src/TaskPool/Request/Normal.antt =====
-- task_pool/scheduler/routing.rs: the normal form of `normalize_volumes`.
use griffr.Common.{
  ℕ, ◌+◌, ◌≤◌, ◌≡◌, refl, ◌&&◌, not, List, [], ◌∷◌, arith, if◌then◌else◌, ◌==◌, nat_eq, ==_iff,
  contains, Text, text_eq, word_max, text_order, flagged_eq, flagged_order, ordered_set,
  IsAscending, contains-ordered_set, ordered_set-IsAscending,
}
use griffr.TaskPool.Request.{
  StorageReservation, ResourceRequest, sum_reservation, sum_reservations, without,
  normalize_volumes,
}

-- The bytes that a list of reservations asks of a volume.
abbrev pub reserved : Text → List StorageReservation → ℕ
reserved volume [] = 0
reserved volume (r ∷ rest) = (if r.volume == volume then r.bytes else 0) + reserved volume rest

pub record IsNormal (r : ResourceRequest) : Type 0 where
  pub reads : IsAscending r.read_volumes
  pub writes : IsAscending r.write_volumes
  pub metadata : IsAscending r.metadata_volumes
  pub savers : IsAscending r.archive_save_volumes
  pub commits : IsAscending r.archive_commit_volumes
  pub mutations : IsAscending r.mutation_paths

contains-without :
    (writes xs : List Text) (v : Text)
    → contains (without writes xs) v ≡ (contains xs v && not (contains writes v))
unfolding without
contains-without writes [] v = refl
contains-without writes (x ∷ xs) v = ground (arith, ==_iff v x, contains-without writes xs v)

reserved-sum_reservation :
    (r : StorageReservation) (storage : List StorageReservation) (v : Text)
    → (if r.volume == v then r.bytes else 0) + reserved v storage ≤ word_max
    → reserved v (sum_reservation r storage)
      ≡ (if r.volume == v then r.bytes else 0) + reserved v storage
unfolding sum_reservation
reserved-sum_reservation r [] v h = ground arith
reserved-sum_reservation r (s ∷ rest) v h = ground (
  arith,
  ==_iff r.volume s.volume,
  ==_iff r.volume v,
  ==_iff s.volume v,
  reserved-sum_reservation r rest v,
)

reserved-sum_reservations :
    (storage rest : List StorageReservation) (v : Text)
    → reserved v storage + reserved v rest ≤ word_max
    → reserved v (sum_reservations storage rest) ≡ reserved v storage + reserved v rest
unfolding sum_reservations
reserved-sum_reservations storage [] v h = omega arith
reserved-sum_reservations storage (r ∷ rest) v h = ground (
  arith,
  reserved-sum_reservation r storage v,
  reserved-sum_reservations (sum_reservation r storage) rest v,
)

-- After normalize_volumes every list of volumes and of paths is strictly ascending, so that
-- nothing stands twice in it.
pub normalize_volumes-IsNormal : (r : ResourceRequest) → IsNormal (normalize_volumes r)
unfolding normalize_volumes
normalize_volumes-IsNormal r = record {
  reads = ordered_set-IsAscending r.read_volumes;
  writes = ordered_set-IsAscending r.write_volumes;
  metadata = ordered_set-IsAscending (without (ordered_set r.write_volumes) r.metadata_volumes);
  savers = ordered_set-IsAscending r.archive_save_volumes;
  commits = ordered_set-IsAscending r.archive_commit_volumes;
  mutations = ordered_set-IsAscending r.mutation_paths;
}

-- Normalize_volumes keeps the volumes read and written, the paths mutated and, where their sum
-- fits a word, the bytes reserved of each volume; of the metadata volumes it drops just those that
-- are written too.
pub normalize_volumes_keeps :
    (r : ResourceRequest) (v : Text)
    → reserved v r.storage_reservations ≤ word_max
    → (contains (normalize_volumes r).read_volumes v ≡ contains r.read_volumes v)
      × (contains (normalize_volumes r).write_volumes v ≡ contains r.write_volumes v)
      × (contains (normalize_volumes r).metadata_volumes v
          ≡ (contains r.metadata_volumes v && not (contains r.write_volumes v)))
      × (contains (normalize_volumes r).mutation_paths v ≡ contains r.mutation_paths v)
      × (reserved v (normalize_volumes r).storage_reservations ≡ reserved v r.storage_reservations)
unfolding normalize_volumes
normalize_volumes_keeps r v h = (
  contains-ordered_set r.read_volumes v,
  contains-ordered_set r.write_volumes v,
  rw (
    contains-ordered_set (without (ordered_set r.write_volumes) r.metadata_volumes) v,
    contains-without (ordered_set r.write_volumes) r.metadata_volumes v,
    contains-ordered_set r.write_volumes v,
  ),
  contains-ordered_set r.mutation_paths v,
  omega (arith, reserved-sum_reservations [] r.storage_reservations v (omega arith)),
)

-- ===== src/TaskPool/Request.antt =====
-- task_pool/scheduler/routing.rs: `ResourceRequest`, what a task asks of the scheduler, and
-- `normalize_volumes`.
pub mod Normal
use griffr.Common.{
  ℕ, Bool, true, false, Option, none, List, [], ◌∷◌, if◌then◌else◌, ◌==◌, nat_eq, contains, Text,
  text_eq, bytes, saturating_add, text_less, text_order, flagged_eq, flagged_order, ordered_set,
}

pub data RunClass : Type 0 where
  async_io cpu blocking : RunClass

pub data NetworkClass : Type 0 where
  general vfs archive archive_background : NetworkClass

-- `==` of the two derived `PartialEq`.
abbrev pub run_class_eq : RunClass → RunClass → Bool
run_class_eq async_io async_io = true
run_class_eq cpu cpu = true
run_class_eq blocking blocking = true
run_class_eq _ _ = false

abbrev pub network_class_eq : NetworkClass → NetworkClass → Bool
network_class_eq general general = true
network_class_eq vfs vfs = true
network_class_eq archive archive = true
network_class_eq archive_background archive_background = true
network_class_eq _ _ = false

-- A path is the text that it prints as.
pub record StorageReservation : Type 0 where
  pub volume : Text
  pub probe_path : Text
  pub bytes : ℕ

pub record ResourceRequest : Type 0 where
  pub run : RunClass
  pub network : Option NetworkClass
  pub read_volumes : List Text
  pub write_volumes : List Text
  pub metadata_volumes : List Text
  pub archive_save_volumes : List Text
  pub archive_commit_volumes : List (Text × Bool)
  pub extract : Bool
  pub mutation_paths : List Text
  pub storage_reservations : List StorageReservation
  pub estimated_bytes : ℕ
  pub reuse_probe : Bool
  pub reuse_commit : Bool

-- `ResourceRequest::default`
abbrev pub default_request : ResourceRequest
default_request = record {
  run = blocking;
  network = none;
  read_volumes = [];
  write_volumes = [];
  metadata_volumes = [];
  archive_save_volumes = [];
  archive_commit_volumes = [];
  extract = false;
  mutation_paths = [];
  storage_reservations = [];
  estimated_bytes = 0;
  reuse_probe = false;
  reuse_commit = false;
}

-- One step of the `BTreeMap` that sums the reservations of a volume: the first probe path stays.
unfoldable pub sum_reservation :
    StorageReservation → List StorageReservation → List StorageReservation
sum_reservation r [] = record r { bytes = saturating_add 0 r.bytes } ∷ []
sum_reservation r (s ∷ rest) =
    if r.volume == s.volume
    then record s { bytes = saturating_add s.bytes r.bytes } ∷ rest
    else if text_less r.volume s.volume
    then record r { bytes = saturating_add 0 r.bytes } ∷ s ∷ rest
    else s ∷ sum_reservation r rest

unfoldable pub sum_reservations :
    List StorageReservation → List StorageReservation → List StorageReservation
unfolding sum_reservation
sum_reservations storage [] = storage
sum_reservations storage (r ∷ rest) = sum_reservations (sum_reservation r storage) rest

-- The members of `xs` that `writes` does not hold.
unfoldable pub without : List Text → List Text → List Text
without writes [] = []
without writes (x ∷ xs) =
    let rest = without writes xs in if contains writes x then rest else x ∷ rest

unfoldable pub normalize_volumes : ResourceRequest → ResourceRequest
unfolding sum_reservations without ordered_set
normalize_volumes request =
    let writes = ordered_set request.write_volumes in
    record request {
      write_volumes = writes;
      metadata_volumes = ordered_set (without writes request.metadata_volumes);
      read_volumes = ordered_set request.read_volumes;
      archive_save_volumes = ordered_set request.archive_save_volumes;
      archive_commit_volumes = ordered_set request.archive_commit_volumes;
      mutation_paths = ordered_set request.mutation_paths;
      storage_reservations = sum_reservations [] request.storage_reservations;
    }

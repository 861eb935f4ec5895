-- ===== src/TaskPool/Resources/Ledger.antt =====
-- task_pool/scheduler/queue/resources.rs: the counters against the demands of the running tasks.
use griffr.Common.{
  ℕ, ◌+◌, ◌-◌, ◌≤◌, ◌≡◌, refl, Bool, List, [], ◌∷◌, ◌++◌, arith, is_some, nat_eq, ==_iff, length,
  total, total-append, occurrences, Text, text_eq, word_max, saturating_add, Map, get, insert,
  count_of, decrement_by, count_of-insert, count_of-decrement_by, increment_all, decrement_all,
  count_of-increment_all, count_of-decrement_all, text_order, flagged_eq, flagged_order,
}
use griffr.TaskPool.Request.{cpu, blocking, run_class_eq, StorageReservation, ResourceRequest}
use griffr.TaskPool.Request.Normal.{reserved}
use griffr.TaskPool.Resources.{
  ResourceState, idle, one_if, reserve_bytes, release_bytes, commit_volumes, increment_if,
  decrement_if, acquire, release,
}

-- What the running tasks ask of each counter together.
module _ (active : List ResourceRequest) where
  abbrev pub networks : ℕ
  networks = total (λ r. one_if (is_some r.network)) active

  abbrev pub cpus : ℕ
  cpus = total (λ r. one_if (run_class_eq r.run cpu)) active

  abbrev pub blockings : ℕ
  blockings = total (λ r. one_if (run_class_eq r.run blocking)) active

  abbrev pub extracts : ℕ
  extracts = total (λ r. one_if r.extract) active

  abbrev pub reuse_commits : ℕ
  reuse_commits = total (λ r. one_if r.reuse_commit) active

  abbrev pub reads_of : Text → ℕ
  reads_of v = total (λ r. occurrences v r.read_volumes) active

  abbrev pub writes_of : Text → ℕ
  writes_of v = total (λ r. occurrences v r.write_volumes) active

  abbrev pub metadata_of : Text → ℕ
  metadata_of v = total (λ r. occurrences v r.metadata_volumes) active

  abbrev pub savers_of : Text → ℕ
  savers_of v = total (λ r. occurrences v r.archive_save_volumes) active

  abbrev pub commits_of : Text → ℕ
  commits_of v = total (λ r. occurrences v (commit_volumes r)) active

  abbrev pub bytes_of : Text → ℕ
  bytes_of v = total (λ r. reserved v r.storage_reservations) active

-- No counter of the running tasks leaves the machine word.
pub record Fits (active : List ResourceRequest) : Type 0 where
  pub tasks : length active ≤ word_max
  pub reads : (v : Text) → reads_of active v ≤ word_max
  pub writes : (v : Text) → writes_of active v ≤ word_max
  pub metadata : (v : Text) → metadata_of active v ≤ word_max
  pub savers : (v : Text) → savers_of active v ≤ word_max
  pub commits : (v : Text) → commits_of active v ≤ word_max
  pub bytes : (v : Text) → bytes_of active v ≤ word_max

-- The state counts the running tasks, and nothing else.
pub record Accounts (active : List ResourceRequest) (s : ResourceState) : Type 0 where
  pub networks : s.network_in_use ≡ networks active
  pub cpus : s.cpu_in_use ≡ cpus active
  pub blockings : s.blocking_in_use ≡ blockings active
  pub extracts : s.extract_in_use ≡ extracts active
  pub reuse_commits : s.reuse_commits_in_use ≡ reuse_commits active
  pub reads : (v : Text) → count_of s.volume_reads v ≡ reads_of active v
  pub writes : (v : Text) → count_of s.volume_writes v ≡ writes_of active v
  pub metadata : (v : Text) → count_of s.volume_metadata v ≡ metadata_of active v
  pub savers : (v : Text) → count_of s.archive_savers v ≡ savers_of active v
  pub commits : (v : Text) → count_of s.archive_commits v ≡ commits_of active v
  pub bytes : (v : Text) → count_of s.storage_reserved_bytes v ≡ bytes_of active v

pub idle-Accounts : Accounts [] idle
unfolding count_of get
idle-Accounts = record {
  networks = refl;
  cpus = refl;
  blockings = refl;
  extracts = refl;
  reuse_commits = refl;
  reads = λ v. refl;
  writes = λ v. refl;
  metadata = λ v. refl;
  savers = λ v. refl;
  commits = λ v. refl;
  bytes = λ v. refl;
}

count_of-reserve_bytes :
    (m : Map Text ℕ) (rs : List StorageReservation) (v : Text)
    → count_of m v + reserved v rs ≤ word_max
    → count_of (reserve_bytes m rs) v ≡ count_of m v + reserved v rs
unfolding reserve_bytes
count_of-reserve_bytes m [] v h = omega arith
count_of-reserve_bytes m (r ∷ rs) v h =
    let n = saturating_add (count_of m r.volume) r.bytes in
    ground (
      arith,
      ==_iff r.volume v,
      count_of-insert m r.volume v n,
      count_of-reserve_bytes (insert m r.volume n) rs v,
    )

count_of-release_bytes :
    (m : Map Text ℕ) (rs : List StorageReservation) (v : Text)
    → count_of (release_bytes m rs) v ≡ count_of m v - reserved v rs
unfolding release_bytes
count_of-release_bytes m [] v = omega arith
count_of-release_bytes m (r ∷ rs) v = ground (
  arith,
  ==_iff r.volume v,
  count_of-decrement_by m r.volume v r.bytes,
  count_of-release_bytes (decrement_by m r.volume r.bytes) rs v,
)

total_le-length :
    (p : ResourceRequest → Bool) (active : List ResourceRequest)
    → total (λ r. one_if (p r)) active ≤ length active
total_le-length p [] = omega arith
total_le-length p (r ∷ active) = ground (arith, total_le-length p active)

-- A scalar counter of `acquire`.
count_one :
    (p : ResourceRequest → Bool) (r : ResourceRequest) (active : List ResourceRequest) (n : ℕ)
    → n ≡ total (λ q. one_if (p q)) active
    → length (r ∷ active) ≤ word_max
    → increment_if (p r) n ≡ total (λ q. one_if (p q)) (r ∷ active)
count_one p r active n h fits = ground (arith, total_le-length p active)

-- A counter per volume of `acquire`.
count_volumes :
    (f : ResourceRequest → List Text) (r : ResourceRequest) (active : List ResourceRequest)
    (m : Map Text ℕ)
    → ((v : Text) → count_of m v ≡ total (λ q. occurrences v (f q)) active)
    → ((v : Text) → total (λ q. occurrences v (f q)) (r ∷ active) ≤ word_max)
    → (v : Text)
    → count_of (increment_all m (f r)) v ≡ total (λ q. occurrences v (f q)) (r ∷ active)
count_volumes f r active m h fits v =
    omega (arith, h v, fits v, count_of-increment_all m (f r) v (omega (arith, h v, fits v)))

-- If the counters are the demands of the running tasks and no sum leaves the word, they are so
-- after acquire with the new task added.
pub acquire-Accounts :
    (s : ResourceState) (active : List ResourceRequest) (r : ResourceRequest)
    → Accounts active s
    → Fits (r ∷ active)
    → Accounts (r ∷ active) (acquire s r)
unfolding acquire
acquire-Accounts s active r a f = record {
  networks = count_one (λ q. is_some q.network) r active _ a.networks f.tasks;
  cpus = count_one (λ q. run_class_eq q.run cpu) r active _ a.cpus f.tasks;
  blockings = count_one (λ q. run_class_eq q.run blocking) r active _ a.blockings f.tasks;
  extracts = count_one (λ q. q.extract) r active _ a.extracts f.tasks;
  reuse_commits = count_one (λ q. q.reuse_commit) r active _ a.reuse_commits f.tasks;
  reads = count_volumes (λ q. q.read_volumes) r active _ a.reads f.reads;
  writes = count_volumes (λ q. q.write_volumes) r active _ a.writes f.writes;
  metadata = count_volumes (λ q. q.metadata_volumes) r active _ a.metadata f.metadata;
  savers = count_volumes (λ q. q.archive_save_volumes) r active _ a.savers f.savers;
  commits = count_volumes (λ q. commit_volumes q) r active _ a.commits f.commits;
  bytes = λ v. omega (
    arith,
    a.bytes v,
    f.bytes v,
    count_of-reserve_bytes s.storage_reserved_bytes r.storage_reservations v
        (omega (arith, a.bytes v, f.bytes v)),
  );
}

uncount_one :
    (p : ResourceRequest → Bool) (before after : List ResourceRequest) (r : ResourceRequest) (n : ℕ)
    → n ≡ total (λ q. one_if (p q)) (before ++ r ∷ after)
    → decrement_if (p r) n ≡ total (λ q. one_if (p q)) (before ++ after)
uncount_one p before after r n h = ground (
  arith,
  total-append (λ q. one_if (p q)) before (r ∷ after),
  total-append (λ q. one_if (p q)) before after,
)

uncount_volumes :
    (f : ResourceRequest → List Text) (before after : List ResourceRequest) (r : ResourceRequest)
    (m : Map Text ℕ)
    → ((v : Text) → count_of m v ≡ total (λ q. occurrences v (f q)) (before ++ r ∷ after))
    → (v : Text)
    → count_of (decrement_all m (f r)) v ≡ total (λ q. occurrences v (f q)) (before ++ after)
uncount_volumes f before after r m h v = omega (
  arith,
  h v,
  count_of-decrement_all m (f r) v,
  total-append (λ q. occurrences v (f q)) before (r ∷ after),
  total-append (λ q. occurrences v (f q)) before after,
)

-- If the counters are the demands of the running tasks, they are so after the release of any one
-- of them with that task left out.
pub release-Accounts :
    (s : ResourceState) (before after : List ResourceRequest) (r : ResourceRequest)
    → Accounts (before ++ r ∷ after) s
    → Accounts (before ++ after) (release s r)
unfolding release
release-Accounts s before after r a = record {
  networks = uncount_one (λ q. is_some q.network) before after r _ a.networks;
  cpus = uncount_one (λ q. run_class_eq q.run cpu) before after r _ a.cpus;
  blockings = uncount_one (λ q. run_class_eq q.run blocking) before after r _ a.blockings;
  extracts = uncount_one (λ q. q.extract) before after r _ a.extracts;
  reuse_commits = uncount_one (λ q. q.reuse_commit) before after r _ a.reuse_commits;
  reads = uncount_volumes (λ q. q.read_volumes) before after r _ a.reads;
  writes = uncount_volumes (λ q. q.write_volumes) before after r _ a.writes;
  metadata = uncount_volumes (λ q. q.metadata_volumes) before after r _ a.metadata;
  savers = uncount_volumes (λ q. q.archive_save_volumes) before after r _ a.savers;
  commits = uncount_volumes (λ q. commit_volumes q) before after r _ a.commits;
  bytes = λ v. omega (
    arith,
    a.bytes v,
    count_of-release_bytes s.storage_reserved_bytes r.storage_reservations v,
    total-append (λ q. reserved v q.storage_reservations) before (r ∷ after),
    total-append (λ q. reserved v q.storage_reservations) before after,
  );
}

-- ===== src/TaskPool/Resources/Running.antt =====
-- task_pool/scheduler/queue/resources.rs: all that the scheduler can reach by admitting and ending
-- tasks in any order.
use griffr.Common.{
  ℕ, ◌≤◌, ◌<◌, ◌≡◌, refl, ◌∙◌, subst, inl, inr, Bool, true, false, ◌&&◌, ◌||◌, some, List, [], ◌∷◌,
  ◌++◌, arith, Bool-cases, nat_eq, ==_iff, any, contains, occurrences, All, All-map, AllPairs,
  AllPairs-remove, AllPairs-others, any-member, Text, text_eq, get, count_of, text_order,
  flagged_eq, flagged_order,
}
use griffr.TaskPool.Config.{
  VolumeStreamingMode, exclusive, mixed, VolumeIoPolicy, TaskPoolConfig, volume_policy,
}
use griffr.TaskPool.Request.{ResourceRequest}
use griffr.TaskPool.Request.Normal.{IsNormal}
use griffr.TaskPool.Resources.{AdmissionSnapshot, ResourceState, idle, acquire, release}
use griffr.TaskPool.Admission.{
  mutation_paths_conflict, has_mutation_conflict, streaming_pressure, can_acquire_volume,
  can_acquire,
}
use griffr.TaskPool.Resources.Ledger.{
  reads_of, writes_of, metadata_of, Fits, Accounts, idle-Accounts, acquire-Accounts,
  release-Accounts,
}
use griffr.TaskPool.Resources.Limits.{
  Admitted, can_acquire-Admitted, volumes_tested, pressure, VolumeWithin, volume_admits-pressure,
}
use griffr.TaskPool.Resources.Capacity.{IsBounded, Within, acquire-Within, release-Within}
use griffr.TaskPool.Resources.Exclusion.{
  VolumeApart, Apart, Apart-sym, Tracks, acquire-Tracks, release-Tracks,
}

-- The state knows a running task: its volumes are counted, and its paths are held.
record Known (s : ResourceState) (q : ResourceRequest) : Type 0 where
  reads : (v : Text) → occurrences v q.read_volumes ≤ count_of s.volume_reads v
  writes : (v : Text) → occurrences v q.write_volumes ≤ count_of s.volume_writes v
  metadata : (v : Text) → occurrences v q.metadata_volumes ≤ count_of s.volume_metadata v
  paths : (p : Text) → contains q.mutation_paths p ≡ true → contains s.mutation_paths p ≡ true

All-Known :
    (s : ResourceState) (active : List ResourceRequest)
    → ((v : Text) → reads_of active v ≤ count_of s.volume_reads v)
    → ((v : Text) → writes_of active v ≤ count_of s.volume_writes v)
    → ((v : Text) → metadata_of active v ≤ count_of s.volume_metadata v)
    → ((p : Text)
        → any (λ r. contains r.mutation_paths p) active ≡ true
        → contains s.mutation_paths p ≡ true)
    → All (Known s) active
All-Known s [] hr hw hm hp = tt
All-Known s (q ∷ active) hr hw hm hp = (
  record {
    reads = λ v. omega (arith, hr v);
    writes = λ v. omega (arith, hw v);
    metadata = λ v. omega (arith, hm v);
    paths = λ p own. hp p (ground (arith, own));
  },
  All-Known s active (λ v. omega (arith, hr v)) (λ v. omega (arith, hw v))
      (λ v. omega (arith, hm v)) (λ p held. hp p (ground (arith, held))),
)

occurrences_pos : (v : Text) (xs : List Text) → contains xs v ≡ true → 0 < occurrences v xs
occurrences_pos v [] h = cc
occurrences_pos v (x ∷ xs) h = ground (arith, ==_iff v x, ==_iff x v, occurrences_pos v xs)

-- What an exclusive volume that admits a request leaves idle.
exclusive_idle :
    (mode : VolumeStreamingMode) (held rd wr md : Bool) (reads writes metadata : ℕ) (q : ℕ × ℕ)
    → mode ≡ exclusive
    → streaming_pressure mode held rd wr md reads writes metadata ≡ some q
    → (rd ≡ true → (writes ≡ 0) × (metadata ≡ 0))
      × (wr ≡ true → (reads ≡ 0) × (metadata ≡ 0))
      × (md ≡ true → (reads ≡ 0) × (writes ≡ 0))
unfolding streaming_pressure
exclusive_idle exclusive held rd wr md reads writes metadata q m h =
    (λ k. ground arith, λ k. ground arith, λ k. ground arith)
exclusive_idle mixed held rd wr md reads writes metadata q m h = cc

not_both : (b c : Bool) → (b ≡ true → c ≡ true → ⊥) → (b && c) ≡ false
not_both true true h = absurd (h refl refl)
not_both true false h = refl
not_both false c h = refl

module _ (c : TaskPoolConfig) (s : ResourceState) (r : ResourceRequest) (a : AdmissionSnapshot)
    (admitted : Admitted s r c a) (q : ResourceRequest) (known : Known s q) where
  idle_volume :
      (v : Text)
      → (volume_policy c v).streaming_mode ≡ exclusive
      → (contains r.read_volumes v || contains r.write_volumes v || contains r.metadata_volumes v)
        ≡ true
      → VolumeApart r q v
  unfolding can_acquire_volume
  idle_volume v mode named =
      let tested = volumes_tested s r c a v admitted.volumes named in
      let (p, e, _) =
        volume_admits-pressure (volume_policy c v) (contains a.reserved_write_volumes v)
          (contains r.read_volumes v) (contains r.write_volumes v) (contains r.metadata_volumes v)
          (count_of s.volume_reads v) (count_of s.volume_writes v) (count_of s.volume_metadata v)
          tested in
      let (rd, wr, md) =
        exclusive_idle (volume_policy c v).streaming_mode (contains a.reserved_write_volumes v)
          (contains r.read_volumes v) (contains r.write_volumes v) (contains r.metadata_volumes v)
          (count_of s.volume_reads v) (count_of s.volume_writes v) (count_of s.volume_metadata v) p
          mode e in
      let reads = occurrences_pos v q.read_volumes in
      let writes = occurrences_pos v q.write_volumes in
      let metadata = occurrences_pos v q.metadata_volumes in
      record {
        read_write =
            not_both (contains r.read_volumes v) (contains q.write_volumes v)
              (λ x y. omega (arith, (rd x).0, writes y, known.writes v));
        write_read =
            not_both (contains r.write_volumes v) (contains q.read_volumes v)
              (λ x y. omega (arith, (wr x).0, reads y, known.reads v));
        read_metadata =
            not_both (contains r.read_volumes v) (contains q.metadata_volumes v)
              (λ x y. omega (arith, (rd x).1, metadata y, known.metadata v));
        metadata_read =
            not_both (contains r.metadata_volumes v) (contains q.read_volumes v)
              (λ x y. omega (arith, (md x).0, reads y, known.reads v));
        write_metadata =
            not_both (contains r.write_volumes v) (contains q.metadata_volumes v)
              (λ x y. omega (arith, (wr x).1, metadata y, known.metadata v));
        metadata_write =
            not_both (contains r.metadata_volumes v) (contains q.write_volumes v)
              (λ x y. omega (arith, (md x).1, writes y, known.writes v));
      }

  volume_apart : (v : Text) → (volume_policy c v).streaming_mode ≡ exclusive → VolumeApart r q v
  volume_apart v mode =
      elim (Bool-cases (
        contains r.read_volumes v || contains r.write_volumes v || contains r.metadata_volumes v)) [
          | inl named ↦ idle_volume v mode named
          | inr other ↦ record {
            read_write = ground (arith, other);
            write_read = ground (arith, other);
            read_metadata = ground (arith, other);
            metadata_read = ground (arith, other);
            write_metadata = ground (arith, other);
            metadata_write = ground (arith, other);
          }
        ]

  admitted-Apart : Apart c r q
  unfolding has_mutation_conflict
  admitted-Apart = record {
    mutations = λ p p' own other.
        any-member (mutation_paths_conflict p) s.mutation_paths p'
          (any-member (λ path. any (mutation_paths_conflict path) s.mutation_paths) r.mutation_paths
            p admitted.mutations own)
          (known.paths p' other);
    volumes = volume_apart;
  }

-- The running tasks, the last admitted first, and the resources in use.
pub record System : Type 0 where
  pub active : List ResourceRequest
  pub state : ResourceState

-- A task is admitted under any snapshot, or one of the running tasks ends.
pub data Step (c : TaskPoolConfig) (x : System) : System → Type 0 where
  admit :
      (r : ResourceRequest) (a : AdmissionSnapshot)
      → IsNormal r
      → Fits (r ∷ x.active)
      → can_acquire x.state r c a ≡ true
      → Step c x (record { active = r ∷ x.active; state = acquire x.state r })
  finish :
      (before : List ResourceRequest) (r : ResourceRequest) (after : List ResourceRequest)
      → x.active ≡ before ++ r ∷ after
      → Step c x (record { active = before ++ after; state = release x.state r })

pub data Reach (c : TaskPoolConfig) : System → Type 0 where
  here : Reach c (record { active = []; state = idle })
  next : {x y : System} → Reach c x → Step c x y → Reach c y

-- What holds of every reachable system.
pub record IsSound (c : TaskPoolConfig) (x : System) : Type 0 where
  pub within : Within c x.state
  pub accounts : Accounts x.active x.state
  pub tracks : Tracks x.active x.state
  pub apart : AllPairs (Apart c) x.active

idle-Within : (c : TaskPoolConfig) → Within c idle
unfolding count_of get
idle-Within c = record {
  network = omega arith;
  cpu = omega arith;
  blocking = omega arith;
  extract = omega arith;
  savers = λ v. omega arith;
  commits = λ v. omega arith;
  volumes = λ v. idle_volume_within (volume_policy c v);
}
  where
    idle_pressure : (mode : VolumeStreamingMode) (n : ℕ) → pressure mode 0 0 ≤ n
    idle_pressure exclusive n = omega arith
    idle_pressure mixed n = omega arith

    idle_volume_within : (policy : VolumeIoPolicy) → VolumeWithin policy 0 0 0
    idle_volume_within policy = record {
      reads_fit = omega arith;
      writes_fit = omega arith;
      metadata_fit = omega arith;
      pressure_fit = idle_pressure policy.streaming_mode policy.streaming_pressure_limit;
    }

Step-IsSound :
    (c : TaskPoolConfig) {x y : System} → IsBounded c → Step c x y → IsSound c x → IsSound c y
Step-IsSound c {x} b (admit r a normal fits can) i =
    let admitted = can_acquire-Admitted x.state r c a can in
    let known =
      All-Known x.state x.active (λ v. omega (arith, i.accounts.reads v))
        (λ v. omega (arith, i.accounts.writes v)) (λ v. omega (arith, i.accounts.metadata v))
        (λ p held. i.tracks p ∙ held) in
    record {
      within = acquire-Within c x.state r a b i.within normal can;
      accounts = acquire-Accounts x.state x.active r i.accounts fits;
      tracks = acquire-Tracks x.state x.active r i.tracks;
      apart = (
        All-map (Known x.state) (Apart c r) x.active
            (λ q k. admitted-Apart c x.state r a admitted q k) known,
        i.apart,
      );
    }
Step-IsSound c {x} b (finish before r after e) i =
    let pairs = subst (AllPairs (Apart c)) e i.apart in
    record {
      within = release-Within c x.state r i.within;
      accounts =
          release-Accounts x.state before after r (subst (λ l. Accounts l x.state) e i.accounts);
      tracks =
          release-Tracks c x.state before after r
            (AllPairs-others (Apart c) before r after (Apart-sym c) pairs)
            (subst (λ l. Tracks l x.state) e i.tracks);
      apart = AllPairs-remove (Apart c) before r after pairs;
    }

-- Whatever normal tasks are admitted while their demands fit a word, and whichever of them end, in
-- whatever order, under limits below the largest word: every counter is the demand of the running
-- tasks, every slot and volume limit holds, the mutation paths held are those of the running
-- tasks, and any two running tasks mutate paths that do not conflict and are apart on every
-- exclusive volume.
pub Reach-IsSound : (c : TaskPoolConfig) (x : System) → IsBounded c → Reach c x → IsSound c x
unfolding count_of get
Reach-IsSound c _ b here = record {
  within = idle-Within c;
  accounts = idle-Accounts;
  tracks = λ p. refl;
  apart = tt;
}
Reach-IsSound c _ b (next r st) = Step-IsSound c b st (Reach-IsSound c _ b r)

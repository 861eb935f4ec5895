-- ===== src/TaskPool/Examples/Resources.antt =====
-- The theorems on configuration, requests and resources at concrete requests.
use griffr.Common.{
  ◌≡◌, refl, true, false, [], ◌∷◌, arith, nat_eq, contains, text_eq, bytes, text_order, flagged_eq,
  flagged_order,
}
use griffr.TaskPool.Request.{normalize_volumes}
use griffr.TaskPool.Request.Normal.{
  reserved, IsNormal, normalize_volumes-IsNormal, normalize_volumes_keeps,
}
use griffr.TaskPool.Resources.{idle, acquire, release}
use griffr.TaskPool.Admission.{volume_admits}
use griffr.TaskPool.Resources.Ledger.{Fits, Accounts, release-Accounts}
use griffr.TaskPool.Resources.Limits.{IsBelowMax}
use griffr.TaskPool.Resources.Capacity.{Within, acquire-Within}
use griffr.TaskPool.Resources.Running.{System, admit, Reach, here, next, IsSound, Reach-IsSound}
use griffr.TaskPool.Examples.{
  program, machine, disc, writer, reader, no_snapshot, reader_admitted, machine-IsBounded,
  writer-IsNormal, writer-Fits, writer_admitted,
}

reader-IsNormal : IsNormal reader
reader-IsNormal = record {
  reads = (refl, tt);
  writes = tt;
  metadata = tt;
  savers = tt;
  commits = tt;
  mutations = tt;
}

reader-writer-Fits : Fits (reader ∷ writer ∷ [])
reader-writer-Fits = record {
  tasks = omega arith;
  reads = λ v. ground arith;
  writes = λ v. ground arith;
  metadata = λ v. ground arith;
  savers = λ v. ground arith;
  commits = λ v. ground arith;
  bytes = λ v. ground arith;
}

-- The writer runs, and a reader is admitted beside it.
abbrev both_running : System
both_running = record {
  active = reader ∷ writer ∷ [];
  state = acquire (acquire idle writer) reader;
}

both-Reach : Reach machine both_running
both-Reach =
    next (next here (admit writer no_snapshot writer-IsNormal writer-Fits writer_admitted))
      (admit reader no_snapshot reader-IsNormal reader-writer-Fits reader_admitted)

Reach-IsSound_example : IsSound machine both_running
Reach-IsSound_example = Reach-IsSound machine both_running machine-IsBounded both-Reach

acquire-Within_example : Within machine (acquire (acquire idle writer) reader)
acquire-Within_example =
    acquire-Within machine (acquire idle writer) reader no_snapshot machine-IsBounded writer-Within
      reader-IsNormal reader_admitted
  where
    writer-Within : Within machine (acquire idle writer)
    writer-Within =
        (Reach-IsSound machine (record { active = writer ∷ []; state = acquire idle writer })
          machine-IsBounded
          (next here (admit writer no_snapshot writer-IsNormal writer-Fits writer_admitted))).within

release-Accounts_example :
    Accounts (reader ∷ []) (release (acquire (acquire idle writer) reader) writer)
release-Accounts_example =
    release-Accounts (acquire (acquire idle writer) reader) (reader ∷ []) [] writer
      (Reach-IsSound machine both_running machine-IsBounded both-Reach).accounts

normalize_volumes-IsNormal_example :
    IsNormal (normalize_volumes (record writer { metadata_volumes = bytes "C:" ∷ bytes "A:" ∷ [] }))
normalize_volumes-IsNormal_example =
    normalize_volumes-IsNormal (record writer { metadata_volumes = bytes "C:" ∷ bytes "A:" ∷ [] })

normalize_volumes_keeps_example :
    (contains (normalize_volumes writer).read_volumes (bytes "C:") ≡ false)
    × (contains (normalize_volumes writer).write_volumes (bytes "C:") ≡ true)
    × (contains (normalize_volumes writer).metadata_volumes (bytes "C:") ≡ false)
    × (contains (normalize_volumes writer).mutation_paths (bytes "C:") ≡ false)
    × (reserved (bytes "C:") (normalize_volumes writer).storage_reservations ≡ 0)
normalize_volumes_keeps_example = normalize_volumes_keeps writer (bytes "C:") (omega arith)

disc-IsBelowMax : IsBelowMax disc
disc-IsBelowMax = record {
  read_limit = omega arith;
  write_limit = omega arith;
  metadata_limit = omega arith;
  streaming_pressure_limit = omega arith;
}

disc_admits : volume_admits disc false true false false 1 0 0 ≡ true
unfolding program
disc_admits = refl

-- ===== src/Progress/Outcomes.antt =====
-- progress.rs: `PathOutcomeTracker`, what became of every path of a command.
pub mod Replay
pub mod Summary
use griffr.Common.{
  ℕ, Bool, true, Option, none, some, [], ◌∷◌, if◌then◌else◌, nat_eq, Text, text_eq, bytes,
  saturating_add, wrapping_add, Map, get, insert, text_order, flagged_eq, flagged_order,
}

pub data PathReuseMethod : Type 0 where
  hardlink copy : PathReuseMethod

pub data PathAttemptKind : Type 0 where
  by_reuse : PathReuseMethod → PathAttemptKind
  by_download : PathAttemptKind

pub data PathOutcome : Type 0 where
  pending verified_skipped : PathOutcome
  verified_reused : PathReuseMethod → PathOutcome
  verified_downloaded : (bytes : ℕ) → PathOutcome
  failed_path : (last_attempt : Option PathAttemptKind) → PathOutcome

-- `ArtifactSource` of artifact.rs
pub data ArtifactSource : Type 0 where
  existing archive archive_repair download reuse_hardlink reuse_copy local_patch hdiff_patch :
      ArtifactSource

-- Of `ArtifactProof`, what the tracker reads.
pub record ArtifactProof : Type 0 where
  pub logical_path : Text
  pub source : ArtifactSource

pub record PathOutcomeSummary : Type 0 where
  pub downloaded_files : ℕ
  pub downloaded_bytes : ℕ
  pub reused_files : ℕ
  pub skipped_files : ℕ
  pub failed_files : ℕ

pub record PathOutcomeTracker : Type 0 where
  pub outcomes : Map Text PathOutcome

-- `PathOutcomeTracker::new`
abbrev pub new_tracker : PathOutcomeTracker
new_tracker = record { outcomes = [] }

unfoldable pub record_downloaded : PathOutcomeTracker → Text → ℕ → PathOutcomeTracker
record_downloaded t path bytes = record t {
  outcomes = insert t.outcomes path (verified_downloaded bytes);
}

unfoldable pub record_reused : PathOutcomeTracker → Text → PathReuseMethod → PathOutcomeTracker
record_reused t path method = record t {
  outcomes = insert t.outcomes path (verified_reused method);
}

-- The `last_attempt` of `record_failed`, from what the map holds.
abbrev pub last_attempt : Option PathOutcome → Option PathAttemptKind
last_attempt (some (verified_downloaded _)) = some by_download
last_attempt (some (verified_reused method)) = some (by_reuse method)
last_attempt (some (failed_path last)) = last
last_attempt _ = none

unfoldable pub record_failed : PathOutcomeTracker → Text → PathOutcomeTracker
unfolding get
record_failed t path = record t {
  outcomes = insert t.outcomes path (failed_path (last_attempt (get t.outcomes path)));
}

-- The `next` of `record_verified`.
abbrev pub next_verified : Option PathOutcome → PathOutcome
next_verified (some (verified_downloaded bytes)) = verified_downloaded bytes
next_verified (some (verified_reused method)) = verified_reused method
next_verified _ = verified_skipped

unfoldable pub record_verified : PathOutcomeTracker → Text → Bool → PathOutcomeTracker
unfolding get record_failed
record_verified t path ok =
    if ok
    then record t { outcomes = insert t.outcomes path (next_verified (get t.outcomes path)) }
    else record_failed t path

-- The match of `record_committed`.
abbrev pub reused_by : PathOutcomeTracker → Text → ArtifactSource → PathOutcomeTracker
reused_by t path reuse_hardlink = record_reused t path hardlink
reused_by t path reuse_copy = record_reused t path copy
reused_by t path _ = t

unfoldable pub record_committed : PathOutcomeTracker → ArtifactProof → PathOutcomeTracker
unfolding record_reused record_verified
record_committed t proof =
    record_verified (reused_by t proof.logical_path proof.source) proof.logical_path true

unfoldable pub outcome : PathOutcomeTracker → Text → PathOutcome
unfolding get
outcome t path = elim (get t.outcomes path) [ none ↦ pending | some found ↦ found ]

abbrev pub empty_summary : PathOutcomeSummary
empty_summary = record {
  downloaded_files = 0;
  downloaded_bytes = 0;
  reused_files = 0;
  skipped_files = 0;
  failed_files = 0;
}

-- One round of the loop of `summary`.
unfoldable pub count_outcome : PathOutcomeSummary → PathOutcome → PathOutcomeSummary
count_outcome s (verified_downloaded bytes) = record s {
  downloaded_files = wrapping_add s.downloaded_files 1;
  downloaded_bytes = saturating_add s.downloaded_bytes bytes;
}
count_outcome s (verified_reused _) = record s { reused_files = wrapping_add s.reused_files 1 }
count_outcome s verified_skipped = record s { skipped_files = wrapping_add s.skipped_files 1 }
count_outcome s (failed_path _) = record s { failed_files = wrapping_add s.failed_files 1 }
count_outcome s pending = s

unfoldable pub count_all : PathOutcomeSummary → Map Text PathOutcome → PathOutcomeSummary
unfolding count_outcome
count_all s [] = s
count_all s ((_, found) ∷ rest) = count_all (count_outcome s found) rest

unfoldable pub summary : PathOutcomeTracker → PathOutcomeSummary
unfolding count_all
summary t = count_all empty_summary t.outcomes

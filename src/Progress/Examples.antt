-- ===== src/Progress/Examples.antt =====
-- Runs of the outcome tracker and of the running bytes, and the theorems applied to them.
use griffr.Common.{
  ◌<◌, ◌≡◌, refl, true, false, some, List, [], ◌∷◌, arith, nat_eq, length, Text, text_eq, bytes,
  word, get, insert, count_of, text_order, flagged_eq, flagged_order,
}
use griffr.Progress.Outcomes.{
  by_download, failed_path, reuse_copy, PathOutcomeTracker, new_tracker, record_downloaded,
  record_reused, record_failed, record_verified, record_committed, outcome, empty_summary,
  count_outcome, count_all, summary,
}
use griffr.Progress.Outcomes.Replay.{
  PathEvent, was_downloaded, was_committed, was_verified, has_failed, call_all, outcome-call_all,
}
use griffr.Progress.Outcomes.Summary.{Counts, summary-Counts}
use griffr.Progress.RunningBytes.{RunningByteProgress, record_bytes, record_max}

abbrev events : List (Text × PathEvent)
events =
    (bytes "a", was_downloaded 7)
    ∷ (bytes "b", was_committed reuse_copy)
    ∷ (bytes "a", has_failed)
    ∷ (bytes "c", was_verified true)
    ∷ (bytes "a", was_verified false)
    ∷ []

abbrev tracker : PathOutcomeTracker
tracker = call_all new_tracker events

program : Unit {0}
unfolding get insert count_of record_downloaded record_reused record_failed record_verified
    record_committed outcome count_outcome count_all summary record_bytes record_max
program = tt

-- A second failure keeps what was tried before the first.
remembers : outcome tracker (bytes "a") ≡ failed_path (some by_download)
unfolding program
remembers = refl

summarizes : summary tracker ≡ record {
  downloaded_files = 0;
  downloaded_bytes = 0;
  reused_files = 1;
  skipped_files = 1;
  failed_files = 1;
}
unfolding program
summarizes = refl

outcome-call_all_example : outcome tracker (bytes "a") ≡ failed_path (some by_download)
outcome-call_all_example = outcome-call_all new_tracker events (bytes "a")

few : length tracker.outcomes < word
unfolding program
few = omega arith

summary-Counts_example : Counts empty_summary tracker.outcomes (summary tracker)
summary-Counts_example = summary-Counts tracker few

abbrev moved : RunningByteProgress
moved = record { bytes_by_key = (bytes "a", 5) ∷ (bytes "b", 3) ∷ []; total_bytes = 8 }

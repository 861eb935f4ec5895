-- ===== src/Progress/Outcomes/Summary.antt =====
-- progress.rs: `summary` against the outcomes of the tracker.
use griffr.Common.{
  ℕ, ◌+◌, ◌≤◌, ◌<◌, min, ◌≡◌, [], ◌∷◌, arith, nat_eq, length, total, Text, text_eq, word, word_max,
  Map, text_order, flagged_eq, flagged_order,
}
use griffr.Progress.Outcomes.{
  PathOutcome, verified_skipped, verified_reused, verified_downloaded, failed_path,
  PathOutcomeSummary, PathOutcomeTracker, empty_summary, count_outcome, count_all, summary,
}

-- The paths that have an outcome of a kind.
abbrev is_downloaded : PathOutcome → ℕ
is_downloaded (verified_downloaded _) = 1
is_downloaded _ = 0

abbrev is_reused : PathOutcome → ℕ
is_reused (verified_reused _) = 1
is_reused _ = 0

abbrev is_skipped : PathOutcome → ℕ
is_skipped verified_skipped = 1
is_skipped _ = 0

abbrev is_failed : PathOutcome → ℕ
is_failed (failed_path _) = 1
is_failed _ = 0

abbrev bytes_of_outcome : PathOutcome → ℕ
bytes_of_outcome (verified_downloaded n) = n
bytes_of_outcome _ = 0

-- The sum of a number over the outcomes of a map.
abbrev pub over : (PathOutcome → ℕ) → Map Text PathOutcome → ℕ
over f m = total (λ entry. f entry.1) m

pub record Counts (s : PathOutcomeSummary) (m : Map Text PathOutcome) (r : PathOutcomeSummary)
    : Type 0 where
  pub downloaded : r.downloaded_files ≡ s.downloaded_files + over is_downloaded m
  pub reused : r.reused_files ≡ s.reused_files + over is_reused m
  pub skipped : r.skipped_files ≡ s.skipped_files + over is_skipped m
  pub failed : r.failed_files ≡ s.failed_files + over is_failed m
  pub moved : r.downloaded_bytes ≡ min (s.downloaded_bytes + over bytes_of_outcome m) word_max

-- No count leaves the word in which it is kept.
pub record FitsCounts (s : PathOutcomeSummary) (m : Map Text PathOutcome) : Type 0 where
  pub downloaded : s.downloaded_files + length m < word
  pub reused : s.reused_files + length m < word
  pub skipped : s.skipped_files + length m < word
  pub failed : s.failed_files + length m < word
  pub moved : s.downloaded_bytes ≤ word_max

count_all-Counts :
    (s : PathOutcomeSummary) (m : Map Text PathOutcome)
    → FitsCounts s m
    → Counts s m (count_all s m)
unfolding count_all count_outcome
count_all-Counts s [] f = record {
  downloaded = omega arith;
  reused = omega arith;
  skipped = omega arith;
  failed = omega arith;
  moved = omega (arith, f.moved);
}
count_all-Counts s ((path, o) ∷ m) f =
    let rest = count_all-Counts (count_outcome s o) m (record {
      downloaded = ground (arith, f.downloaded);
      reused = ground (arith, f.reused);
      skipped = ground (arith, f.skipped);
      failed = ground (arith, f.failed);
      moved = ground (arith, f.moved);
    }) in
    record {
      downloaded = ground (arith, rest.downloaded, f.downloaded);
      reused = ground (arith, rest.reused, f.reused);
      skipped = ground (arith, rest.skipped, f.skipped);
      failed = ground (arith, rest.failed, f.failed);
      moved = ground (arith, rest.moved);
    }

-- With fewer paths than a word counts, the summary counts the downloaded, the reused, the skipped
-- and the failed paths of the tracker, and the downloaded bytes up to the largest word.
pub summary-Counts :
    (t : PathOutcomeTracker)
    → length t.outcomes < word
    → Counts empty_summary t.outcomes (summary t)
unfolding summary
summary-Counts t h = count_all-Counts empty_summary t.outcomes (record {
  downloaded = omega arith;
  reused = omega arith;
  skipped = omega arith;
  failed = omega arith;
  moved = omega arith;
})

-- ===== src/Progress/Outcomes/Replay.antt =====
-- progress.rs: `PathOutcomeTracker` against a state machine of a single path.
use griffr.Common.{
  ℕ, ◌≡◌, refl, inl, inr, Bool, true, false, Option, none, some, List, [], ◌∷◌, arith,
  if◌then◌else◌, Bool-cases, nat_eq, ◌==◌, ==_iff, ==_refl, Text, text_eq, bytes, Map, get, insert,
  get-insert, text_order, flagged_eq, flagged_order,
}
use griffr.Progress.Outcomes.{
  PathReuseMethod, hardlink, copy, by_reuse, by_download, PathOutcome, pending, verified_skipped,
  verified_reused, verified_downloaded, failed_path, ArtifactSource, existing, archive,
  archive_repair, download, reuse_hardlink, reuse_copy, local_patch, hdiff_patch,
  PathOutcomeTracker, record_downloaded, record_reused, last_attempt, record_failed, next_verified,
  record_verified, record_committed, outcome,
}

-- What is recorded of a path.
pub data PathEvent : Type 0 where
  was_downloaded : ℕ → PathEvent
  was_reused : PathReuseMethod → PathEvent
  was_committed : ArtifactSource → PathEvent
  was_verified : Bool → PathEvent
  has_failed : PathEvent

-- The call of the tracker that records the event.
abbrev pub call : PathOutcomeTracker → Text → PathEvent → PathOutcomeTracker
call t path (was_downloaded bytes) = record_downloaded t path bytes
call t path (was_reused method) = record_reused t path method
call t path (was_committed source) =
    record_committed t (record { logical_path = path; source = source })
call t path (was_verified ok) = record_verified t path ok
call t path has_failed = record_failed t path

-- The specification: the outcome of a single path after a failure, after a success of its check,
-- and after an event.
abbrev pub after_failure : PathOutcome → PathOutcome
after_failure (verified_downloaded _) = failed_path (some by_download)
after_failure (verified_reused method) = failed_path (some (by_reuse method))
after_failure (failed_path last) = failed_path last
after_failure _ = failed_path none

abbrev pub after_success : PathOutcome → PathOutcome
after_success (verified_downloaded bytes) = verified_downloaded bytes
after_success (verified_reused method) = verified_reused method
after_success _ = verified_skipped

abbrev pub after : PathOutcome → PathEvent → PathOutcome
after o (was_downloaded bytes) = verified_downloaded bytes
after o (was_reused method) = verified_reused method
after o (was_committed reuse_hardlink) = verified_reused hardlink
after o (was_committed reuse_copy) = verified_reused copy
after o (was_committed _) = after_success o
after o (was_verified true) = after_success o
after o (was_verified false) = after_failure o
after o has_failed = after_failure o

outcome-insert :
    (m : Map Text PathOutcome) (path other : Text) (o : PathOutcome)
    → outcome (record { outcomes = insert m path o }) other
      ≡ (if path == other then o else outcome (record { outcomes = m }) other)
unfolding outcome
outcome-insert m path other o = ground (arith, get-insert m path other o)

failed-after :
    (m : Map Text PathOutcome) (path : Text)
    → failed_path (last_attempt (get m path))
      ≡ after_failure (outcome (record { outcomes = m }) path)
unfolding outcome
failed-after m path = by_found (get m path)
  where
    by_found :
        (found : Option PathOutcome)
        → failed_path (last_attempt found)
          ≡ after_failure (elim found [ none ↦ pending | some o ↦ o ])
    by_found none = refl
    by_found (some pending) = refl
    by_found (some verified_skipped) = refl
    by_found (some (verified_reused method)) = refl
    by_found (some (verified_downloaded bytes)) = refl
    by_found (some (failed_path last)) = refl

verified-after :
    (m : Map Text PathOutcome) (path : Text)
    → next_verified (get m path) ≡ after_success (outcome (record { outcomes = m }) path)
unfolding outcome
verified-after m path = by_found (get m path)
  where
    by_found :
        (found : Option PathOutcome)
        → next_verified found ≡ after_success (elim found [ none ↦ pending | some o ↦ o ])
    by_found none = refl
    by_found (some pending) = refl
    by_found (some verified_skipped) = refl
    by_found (some (verified_reused method)) = refl
    by_found (some (verified_downloaded bytes)) = refl
    by_found (some (failed_path last)) = refl

verified_once :
    (m : Map Text PathOutcome) (path other : Text)
    → outcome (record_verified (record { outcomes = m }) path true) other ≡ (
        if path == other
        then after_success (outcome (record { outcomes = m }) path)
        else outcome (record { outcomes = m }) other)
unfolding record_verified
verified_once m path other =
    rw (outcome-insert m path other (next_verified (get m path)), verified-after m path) refl

failed_once :
    (m : Map Text PathOutcome) (path other : Text)
    → outcome (record_failed (record { outcomes = m }) path) other ≡ (
        if path == other
        then after_failure (outcome (record { outcomes = m }) path)
        else outcome (record { outcomes = m }) other)
unfolding record_failed
failed_once m path other =
    rw (outcome-insert m path other (failed_path (last_attempt (get m path))), failed-after m path)
      refl

reused_verified :
    (m : Map Text PathOutcome) (path other : Text) (method : PathReuseMethod)
    → outcome
        (record_verified (record_reused (record { outcomes = m }) path method) path true)
        other
      ≡ (if path == other then verified_reused method else outcome (record { outcomes = m }) other)
unfolding record_reused
reused_verified m path other method =
    rw
      (
        verified_once (insert m path (verified_reused method)) path other,
        outcome-insert m path path (verified_reused method),
        outcome-insert m path other (verified_reused method),
        ==_refl path,
      )
      (ground arith)

-- An event moves its own path.
pub outcome-call :
    (t : PathOutcomeTracker) (path other : Text) (event : PathEvent)
    → outcome (call t path event) other
      ≡ (if path == other then after (outcome t path) event else outcome t other)
unfolding record_downloaded record_reused record_committed record_verified
outcome-call t path other (was_downloaded bytes) =
    outcome-insert t.outcomes path other (verified_downloaded bytes)
outcome-call t path other (was_reused method) =
    outcome-insert t.outcomes path other (verified_reused method)
outcome-call t path other (was_committed existing) = verified_once t.outcomes path other
outcome-call t path other (was_committed archive) = verified_once t.outcomes path other
outcome-call t path other (was_committed archive_repair) = verified_once t.outcomes path other
outcome-call t path other (was_committed download) = verified_once t.outcomes path other
outcome-call t path other (was_committed reuse_hardlink) =
    reused_verified t.outcomes path other hardlink
outcome-call t path other (was_committed reuse_copy) = reused_verified t.outcomes path other copy
outcome-call t path other (was_committed local_patch) = verified_once t.outcomes path other
outcome-call t path other (was_committed hdiff_patch) = verified_once t.outcomes path other
outcome-call t path other (was_verified true) = verified_once t.outcomes path other
outcome-call t path other (was_verified false) = failed_once t.outcomes path other
outcome-call t path other has_failed = failed_once t.outcomes path other

abbrev pub call_all : PathOutcomeTracker → List (Text × PathEvent) → PathOutcomeTracker
call_all t [] = t
call_all t ((path, event) ∷ rest) = call_all (call t path event) rest

-- The events of one path, in order.
abbrev pub history : Text → List (Text × PathEvent) → List PathEvent
history path [] = []
history path ((other, event) ∷ rest) =
    let later = history path rest in if other == path then event ∷ later else later

abbrev pub after_all : PathOutcome → List PathEvent → PathOutcome
after_all o [] = o
after_all o (event ∷ rest) = after_all (after o event) rest

-- After any sequence of recorded events the outcome of a path is that of the state machine of a
-- single path, run over the events of that path alone: a failure keeps what was tried before it,
-- and no event of another path matters.
pub outcome-call_all :
    (t : PathOutcomeTracker) (events : List (Text × PathEvent)) (path : Text)
    → outcome (call_all t events) path ≡ after_all (outcome t path) (history path events)
outcome-call_all t [] path = refl
outcome-call_all t ((other, event) ∷ rest) path = elim (Bool-cases (other == path)) [
  | inl e ↦
      let same = (==_iff other path).0 e in
      rw
        (
          e,
          outcome-call_all (call t other event) rest path,
          outcome-call t other path event,
          e,
          same,
        )
        refl
  | inr e ↦
      rw (e, outcome-call_all (call t other event) rest path, outcome-call t other path event, e)
        refl
]

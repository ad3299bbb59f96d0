-- ===== src/Domain/Workflow/Attempts.antt =====
-- The event DAYTONA_ATTEMPT_RECORDED of `transitionValidationSession`
-- (packages/domain/src/state-machine.ts).
use safecommit_ai.Prelude.{
  Bool, true, false, not, ◌&&◌, ◌||◌, Option, none, some, List, [], ◌∷◌, ◌++◌, Text, ◌==◌, ltb, leb,
  nat_eq, text_eq, option_eq, if◌then◌else◌, some_of, length, includes,
}
use safecommit_ai.Text.{codes, trim, has_control}
use safecommit_ai.Runtime.{Runtime}
use safecommit_ai.Domain.Session.{
  ValidationSession, ValidationState, WorkflowFailure, DaytonaAttemptInput, DaytonaAttemptRecord,
  AttemptPurpose, initial_candidate, profile_replacement, repair, Disposition, failed_destroyed,
  reserved, rejected_reuse, state_eq, provisioning_sandboxes, repairing_review_findings,
  revalidating, failed,
}
use safecommit_ai.Domain.Workflow.Gates.{is_live}

-- The state in which the attempt was made: a failed session keeps the one that it failed from.
abbrev pub failed_from_of : Option WorkflowFailure → Option ValidationState
failed_from_of none = none
failed_from_of (some f) = some f.failed_from

unfoldable pub attempt_state : ValidationSession → Option ValidationState
attempt_state s = if s.state == failed then failed_from_of s.failure else some s.state

abbrev pub stage_allows_purpose : AttemptPurpose → Option ValidationState → Bool
stage_allows_purpose p none = false
stage_allows_purpose initial_candidate (some s) = s == provisioning_sandboxes
stage_allows_purpose profile_replacement (some s) = s == provisioning_sandboxes
stage_allows_purpose repair (some s) = s == repairing_review_findings || s == revalidating

unfoldable pub is_identifier : Text → Bool
is_identifier value =
    value == trim value && ltb 0 (length value) && leb (length value) 256 && not (has_control value)

-- Only an attempt whose sandbox was destroyed after a failure can be retried.
abbrev pub is_disposition_valid : Disposition → Bool → Bool
is_disposition_valid failed_destroyed retryable = true
is_disposition_valid _ retryable = not retryable

abbrev pub or_failure : Option WorkflowFailure → WorkflowFailure → WorkflowFailure
or_failure none f = f
or_failure (some g) f = g

module _ (rt : Runtime) where
  unfoldable pub is_attempt_refused : ValidationSession → DaytonaAttemptInput → Bool
  unfolding attempt_state is_identifier
  is_attempt_refused s a =
      not (is_live s.mode)
      || not (stage_allows_purpose a.purpose (attempt_state s))
      || not (includes s.candidate_ids a.candidate_id)
      || not (is_identifier a.sandbox_id)
      || not (is_identifier a.run_id)
      || rt.is_bad_date a.captured_at
      || not (is_disposition_valid a.disposition a.retryable)

unfoldable pub recorded_attempt :
    List DaytonaAttemptRecord → DaytonaAttemptInput → DaytonaAttemptRecord
recorded_attempt history a =
    let same_sandbox = some_of (λ i. i.sandbox_id == a.sandbox_id) history in
    let same_run = some_of (λ i. i.run_id == a.run_id) history in
    record {
      attempt = a;
      reservation_status = if same_sandbox || same_run then rejected_reuse else reserved;
      duplicate_sandbox = same_sandbox;
      duplicate_run = same_run;
    }

-- The session with the attempt in its history; a reused identifier fails it.
unfoldable pub with_attempt : ValidationSession → DaytonaAttemptInput → Text → ValidationSession
unfolding recorded_attempt
with_attempt s a at =
    let entry = recorded_attempt s.sandbox_attempt_history a in
    if entry.duplicate_sandbox || entry.duplicate_run
    then record s {
      state = failed;
      updated_at = at;
      sandbox_attempt_history = s.sandbox_attempt_history ++ entry ∷ [];
      failure = some (
          or_failure s.failure (record {
            reason =
                codes
                  "Daytona reused a sandbox ID or run ID that was already observed in this live session.";
            recoverable = false;
            retry_action = none;
            failed_from = s.state;
          }));
    }
    else record s {
      updated_at = at;
      sandbox_attempt_history = s.sandbox_attempt_history ++ entry ∷ [];
    }

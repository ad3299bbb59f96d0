-- ===== src/Domain/Workflow/Steps.antt =====
-- The accepted transitions of the workflow (packages/domain/src/state-machine.ts) as a relation, and the
-- sessions that a created session can reach.
use safecommit_ai.Prelude.{
  ◌≡◌, ◌⊎◌, Bool, true, false, Option, none, some, List, [], Text, ◌&&◌, text_eq, option_eq,
  includes, if◌then◌else◌,
}
use safecommit_ai.Text.{is_full_git_object_id, is_sha256_digest}
use safecommit_ai.Runtime.{Runtime}
use safecommit_ai.Domain.Types.{
  HumanApproval, PullRequestRecord, ReviewFinding, IndependentReviewReceipt,
  FullRevalidationReceipt,
}
use safecommit_ai.Domain.Session.{
  ValidationSession, ValidationState, DaytonaAttemptInput, idle, ingesting_repository,
  analyzing_incident, generating_candidates, provisioning_sandboxes, building, running_tests,
  scoring, selecting, awaiting_human_approval, creating_pull_request, awaiting_coderabbit,
  review_blocked, review_passed, repairing_review_findings, revalidating, ready_to_merge, completed,
  failed, cancelled_by_human,
}
use safecommit_ai.Domain.ReviewGate.{evaluate_code_rabbit_gate}
use safecommit_ai.Domain.Workflow.Events.{
  SelectedCandidate, WorkflowEvent, start, repository_ingested, incident_analyzed,
  candidates_generated, daytona_attempt_recorded, sandboxes_provisioned, builds_finished,
  tests_finished, scoring_finished, candidate_selected, approval_recorded, pr_creation_requested,
  pr_created_or_updated, review_findings_received, repair_started, repair_generated,
  revalidation_passed, mark_ready_to_merge, complete, fail, cancel, is_terminal,
}
use safecommit_ai.Domain.Workflow.Gates.{
  is_live, is_passed, can_create_or_update_pull_request, can_enter_ready_to_merge,
}
use safecommit_ai.Domain.Workflow.Refusals.{
  is_review_refused, is_revalidation_refused, is_selection_refused,
}
use safecommit_ai.Domain.Workflow.Outcome.{CreateValidationSessionInput, create_validation_session}
use safecommit_ai.Domain.Workflow.Attempts.{is_attempt_refused, with_attempt}
use safecommit_ai.Domain.Workflow.Selection.{
  are_candidates_refused, is_sandbox_map_refused, with_selection,
}
use safecommit_ai.Domain.Workflow.Repair.{is_pull_request_refused, with_repair, with_revalidation}

-- The session in another state.
abbrev pub moved : ValidationSession → ValidationState → Text → ValidationSession
moved s state at = record s { state = state; updated_at = at }

module _ (rt : Runtime) (s : ValidationSession) (at : Text) where
  pub data Step : WorkflowEvent → ValidationSession → Type 0 where
    starts : s.state ≡ idle → Step start (moved s ingesting_repository at)
    ingests :
        s.state ≡ ingesting_repository → Step repository_ingested (moved s analyzing_incident at)
    analyzes :
        s.state ≡ analyzing_incident → Step incident_analyzed (moved s generating_candidates at)
    generates :
        {ids : List Text}
        → s.state ≡ generating_candidates
        → are_candidates_refused s.run_kind ids ≡ false
        → Step
            (candidates_generated ids)
            (record s { state = provisioning_sandboxes; updated_at = at; candidate_ids = ids })
    provisions :
        {entries : List (Text × Text)}
        → s.state ≡ provisioning_sandboxes
        → is_sandbox_map_refused s entries ≡ false
        → Step
            (sandboxes_provisioned entries)
            (record s { state = building; updated_at = at; sandbox_ids_by_candidate = entries })
    builds : s.state ≡ building → Step builds_finished (moved s running_tests at)
    tests : s.state ≡ running_tests → Step tests_finished (moved s scoring at)
    scores : s.state ≡ scoring → Step scoring_finished (moved s selecting at)
    selects :
        {e : SelectedCandidate}
        → s.state ≡ selecting
        → includes s.candidate_ids e.candidate_id ≡ true
        → is_full_git_object_id e.commit_sha ≡ true
        → is_sha256_digest e.patch_digest ≡ true
        → is_sha256_digest e.evidence_digest ≡ true
        → is_live s.mode ≡ false
        → Step (candidate_selected e) (with_selection s e none at)
    selects_live :
        {e : SelectedCandidate} {r : FullRevalidationReceipt}
        → s.state ≡ selecting
        → includes s.candidate_ids e.candidate_id ≡ true
        → is_full_git_object_id e.commit_sha ≡ true
        → is_sha256_digest e.patch_digest ≡ true
        → is_sha256_digest e.evidence_digest ≡ true
        → is_live s.mode ≡ true
        → e.receipt ≡ some r
        → is_selection_refused rt s e r ≡ false
        → Step (candidate_selected e) (with_selection s e (some r) at)
    approves :
        {a : HumanApproval}
        → s.state ≡ awaiting_human_approval
        → a.session_id ≡ s.session_id
        → some a.candidate_id ≡ s.selected_candidate_id
        → Step (approval_recorded a) (record s { updated_at = at; approval = some a })
    requests :
        s.state ≡ awaiting_human_approval
        → (can_create_or_update_pull_request rt s).0 ≡ true
        → Step pr_creation_requested (moved s creating_pull_request at)
    publishes :
        {pr : PullRequestRecord}
        → s.state ≡ creating_pull_request
        → is_pull_request_refused rt s pr ≡ false
        → Step (pr_created_or_updated pr) (record s {
          state = awaiting_coderabbit;
          updated_at = at;
          pull_request = some pr;
          review_findings = [];
          review_receipt = none;
        })
    reviews :
        {findings : List ReviewFinding} {r : IndependentReviewReceipt}
        → s.state ≡ awaiting_coderabbit
        → is_review_refused rt s.pull_request s r findings ≡ false
        → Step (review_findings_received findings r) (record s {
          state =
              if is_passed r.status && (evaluate_code_rabbit_gate findings).passed
              then review_passed
              else review_blocked;
          updated_at = at;
          review_findings = findings;
          review_receipt = some r;
        })
    starts_repair :
        s.state ≡ review_blocked → Step repair_started (moved s repairing_review_findings at)
    repairs :
        {candidate patch : Text}
        → s.state ≡ repairing_review_findings
        → includes s.candidate_ids candidate ≡ true
        → is_sha256_digest patch ≡ true
        → Step (repair_generated candidate patch) (with_repair rt s candidate patch at)
    revalidates :
        {r : FullRevalidationReceipt}
        → s.state ≡ revalidating
        → is_revalidation_refused rt s r ≡ false
        → Step (revalidation_passed r) (with_revalidation rt s r at)
    marks_ready :
        s.state ≡ review_passed
        → (can_enter_ready_to_merge rt s).0 ≡ true
        → Step mark_ready_to_merge (moved s ready_to_merge at)
    completes : s.state ≡ ready_to_merge → Step complete (moved s completed at)
    fails :
        {reason : Text} {recoverable : Bool} {retry : Option Text}
        → is_terminal s.state ≡ false
        → Step (fail reason recoverable retry) (record s {
          state = failed;
          updated_at = at;
          failure = some (record {
            reason = reason;
            recoverable = recoverable;
            retry_action = retry;
            failed_from = s.state;
          });
        })
    cancels : is_terminal s.state ≡ false → Step cancel (moved s cancelled_by_human at)
    records :
        {a : DaytonaAttemptInput}
        → (is_terminal s.state ≡ false) ⊎ (s.state ≡ failed)
        → is_attempt_refused rt s a ≡ false
        → Step (daytona_attempt_recorded a) (with_attempt s a at)

-- The sessions that the events lead to from a created session.
pub data Reach (rt : Runtime) : ValidationSession → Type 0 where
  created : (input : CreateValidationSessionInput) → Reach rt (create_validation_session input)
  after :
      {s t : ValidationSession} {e : WorkflowEvent} {at : Text}
      → Reach rt s
      → Step rt s at e t
      → Reach rt t

-- ===== src/Examples/LiveRun.antt =====
-- A live session that is selected, approved, published, blocked by a review, repaired, validated again,
-- approved again and merged.
use safecommit_ai.Domain.Approval.{
  binding_js, compute_approval_binding_digest, is_approval_valid, target_js,
}
use safecommit_ai.Domain.Evidence.{digest_of}
use safecommit_ai.Domain.Revalidation.{
  attested_js, compute_full_revalidation_attestation_digest,
  is_full_revalidation_receipt_structurally_valid, references_match,
}
use safecommit_ai.Domain.ReviewGate.{evaluate_code_rabbit_gate}
use safecommit_ai.Domain.Session.{ValidationSession, initial_candidate, repair, review_blocked}
use safecommit_ai.Domain.Types.{blocked, high, low, passed}
use safecommit_ai.Domain.Workflow.Attempts.{is_attempt_refused, is_identifier, with_attempt}
use safecommit_ai.Domain.Workflow.Events.{
  WorkflowEvent, approval_recorded, builds_finished, candidate_selected, candidates_generated,
  daytona_attempt_recorded, fail, incident_analyzed, is_terminal, mark_ready_to_merge,
  pr_created_or_updated, pr_creation_requested, repair_generated, repair_started,
  repository_ingested, revalidation_passed, review_findings_received, sandboxes_provisioned,
  scoring_finished, start, tests_finished,
}
use safecommit_ai.Domain.Workflow.Gates.{
  can_create_or_update_pull_request, can_enter_ready_to_merge, current_binding,
  has_clean_live_daytona_history, has_valid_approval, is_head_moved, is_receipt_unbound, same_sha,
}
use safecommit_ai.Domain.Workflow.Outcome.{Outcome, create_validation_session}
use safecommit_ai.Domain.Workflow.Receipts.{
  is_evidence_url_for_pull_request_repository, is_other_target, is_review_url_for_pull_request,
  receipt_has_unique_reserved_attempt,
}
use safecommit_ai.Domain.Workflow.Refusals.{
  is_revalidation_refused, is_review_refused, is_selection_refused, used_sandboxes,
}
use safecommit_ai.Domain.Workflow.Repair.{is_pull_request_refused, with_repair, with_revalidation}
use safecommit_ai.Domain.Workflow.Runs.{run_events, run_events-Reach}
use safecommit_ai.Domain.Workflow.Selection.{is_sandbox_map_refused, with_selection}
use safecommit_ai.Domain.Workflow.Steps.{Reach, created}
use safecommit_ai.Examples.Platform.{toy}
use safecommit_ai.Examples.Receipts.{
  approval_of, attempt, binding, digest, finding, live_input, pull_request_at, review,
  second_receipt, selection, sha_first, sha_second,
}
use safecommit_ai.Prelude.{
  List, Text, [], bool_beq, err, map, none, ok, refl, text_beq, true, ◌++◌, ◌∷◌, ◌≡◌,
}
use safecommit_ai.Text.{
  codes, contains, ends_with, has_control, is_blank, is_branch_name, is_full_git_object_id,
  is_owner_name, is_repository_name, is_sha256_digest, split, starts_with, strip_trailing,
  to_lower_case, trim,
}
use safecommit_ai.Text.Encoding.{encode_uri_component, number_text}

timed : WorkflowEvent → WorkflowEvent × Text
timed e = (e, codes "t")

unfoldable pub to_building : List WorkflowEvent
to_building =
    start
    ∷ repository_ingested
    ∷ incident_analyzed
    ∷ candidates_generated (codes "c1" ∷ [])
    ∷ daytona_attempt_recorded (attempt (codes "s1") (codes "r1") initial_candidate)
    ∷ sandboxes_provisioned ((codes "c1", codes "s1") ∷ [])
    ∷ []

unfoldable pub to_blocked : List WorkflowEvent
to_blocked =
    builds_finished
    ∷ tests_finished
    ∷ scoring_finished
    ∷ candidate_selected selection
    ∷ approval_recorded (approval_of (binding (digest b'a') (digest b'b') sha_first))
    ∷ pr_creation_requested
    ∷ pr_created_or_updated (pull_request_at sha_first)
    ∷ review_findings_received (finding high sha_first ∷ []) (review blocked sha_first)
    ∷ []

unfoldable pub to_revalidating : List WorkflowEvent
to_revalidating =
    repair_started
    ∷ repair_generated (codes "c1") (digest b'c')
    ∷ daytona_attempt_recorded (attempt (codes "s2") (codes "r2") repair)
    ∷ []

unfoldable pub to_ready : List WorkflowEvent
to_ready =
    approval_recorded (approval_of (binding (digest b'c') (digest b'd') sha_second))
    ∷ pr_creation_requested
    ∷ pr_created_or_updated (pull_request_at sha_second)
    ∷ review_findings_received (finding low sha_second ∷ []) (review passed sha_second)
    ∷ mark_ready_to_merge
    ∷ []

unfoldable pub session_of : Outcome → ValidationSession
unfolding create_validation_session
session_of (ok s) = s
session_of (err e) = create_validation_session live_input

-- The session after the events, where they are accepted.
unfoldable pub after_events : List WorkflowEvent → ValidationSession
unfolding create_validation_session run_events session_of timed to_building to_blocked
    to_revalidating to_ready current_binding has_clean_live_daytona_history has_valid_approval
    can_create_or_update_pull_request can_enter_ready_to_merge is_head_moved is_receipt_unbound
    is_attempt_refused with_attempt is_sandbox_map_refused with_selection is_selection_refused
    is_revalidation_refused is_review_refused is_pull_request_refused evaluate_code_rabbit_gate
    receipt_has_unique_reserved_attempt is_full_revalidation_receipt_structurally_valid
    is_review_url_for_pull_request is_evidence_url_for_pull_request_repository with_repair
    with_revalidation is_approval_valid text_beq bool_beq toy trim has_control is_terminal
    compute_full_revalidation_attestation_digest compute_approval_binding_digest is_blank
    is_full_git_object_id is_sha256_digest to_lower_case is_owner_name ends_with contains
    starts_with is_repository_name is_branch_name digest_of attested_js target_js
    encode_uri_component binding_js used_sandboxes number_text strip_trailing split references_match
    is_other_target same_sha is_identifier
after_events es = session_of (run_events toy (create_validation_session live_input) (map timed es))

unfoldable pub provisioning_session : ValidationSession
unfolding after_events
provisioning_session =
    after_events (
      start ∷ repository_ingested ∷ incident_analyzed ∷ candidates_generated (codes "c1" ∷ []) ∷ [])

unfoldable pub failed_session : ValidationSession
unfolding after_events
failed_session = after_events (
    start
    ∷ repository_ingested
    ∷ incident_analyzed
    ∷ candidates_generated (codes "c1" ∷ [])
    ∷ fail (codes "timeout") true none
    ∷ [])

unfoldable pub blocked_session : ValidationSession
unfolding after_events
blocked_session = after_events (to_building ++ to_blocked)

unfoldable pub revalidating_session : ValidationSession
unfolding after_events
revalidating_session = after_events (to_building ++ (to_blocked ++ to_revalidating))

unfoldable pub revalidated_session : ValidationSession
unfolding after_events
revalidated_session =
    after_events
      (to_building ++ (to_blocked ++ (to_revalidating ++ revalidation_passed second_receipt ∷ [])))

unfoldable pub ready_session : ValidationSession
unfolding after_events
ready_session = after_events (
    to_building
    ++ (to_blocked ++ (to_revalidating ++ revalidation_passed second_receipt ∷ to_ready)))

blocked_test : blocked_session.state ≡ review_blocked
unfolding blocked_session
blocked_test = refl

pub revalidating-Reach : Reach toy revalidating_session
unfolding revalidating_session
revalidating-Reach =
    run_events-Reach toy (create_validation_session live_input) revalidating_session
      (map timed (to_building ++ (to_blocked ++ to_revalidating))) (created live_input) refl

pub ready-Reach : Reach toy ready_session
unfolding ready_session
ready-Reach =
    run_events-Reach toy (create_validation_session live_input) ready_session
      (map timed (
        to_building
        ++ (to_blocked ++ (to_revalidating ++ revalidation_passed second_receipt ∷ to_ready))))
      (created live_input) refl

-- ===== src/Domain/Workflow/Transition.antt =====
-- `transitionValidationSession` (packages/domain/src/state-machine.ts).
use safecommit_ai.Prelude.{
  not, ◌&&◌, ◌||◌, none, some, [], Text, ok, err, ◌==◌, ◌!=◌, nat_eq, text_eq, option_eq,
  if◌then◌else◌, includes, throw_if,
}
use safecommit_ai.Text.{is_sha256_digest}
use safecommit_ai.Runtime.{Runtime}
use safecommit_ai.Domain.Session.{
  ValidationSession, ValidationState, state_eq, state_beq, ingesting_repository, analyzing_incident,
  generating_candidates, provisioning_sandboxes, building, running_tests, scoring, selecting,
  awaiting_human_approval, creating_pull_request, awaiting_coderabbit, review_blocked,
  review_passed, repairing_review_findings, ready_to_merge, completed, failed, cancelled_by_human,
}
use safecommit_ai.Domain.ReviewGate.{evaluate_code_rabbit_gate}
use safecommit_ai.Domain.Workflow.Events.{
  WorkflowEvent, start, repository_ingested, incident_analyzed, candidates_generated,
  daytona_attempt_recorded, sandboxes_provisioned, builds_finished, tests_finished,
  scoring_finished, candidate_selected, approval_recorded, pr_creation_requested,
  pr_created_or_updated, review_findings_received, repair_started, repair_generated,
  revalidation_passed, mark_ready_to_merge, complete, fail, cancel, event_type, event_type_eq,
  event_type_beq, expected_event, is_terminal, candidates_generated_type,
  daytona_attempt_recorded_type, sandboxes_provisioned_type, approval_recorded_type,
  pr_creation_requested_type, pr_created_or_updated_type, review_findings_received_type,
  repair_generated_type, revalidation_passed_type, mark_ready_to_merge_type, cannot_apply,
  attempt_not_reserved, approval_of_another_session, sandbox_map_invalid, too_few_candidates,
  pull_request_not_bound, review_not_bound, repair_not_evaluated, repair_digest_not_sha256,
  revalidation_incomplete, publish_refused, ready_refused,
}
use safecommit_ai.Domain.Workflow.Gates.{
  is_passed, can_create_or_update_pull_request, can_enter_ready_to_merge,
}
use safecommit_ai.Domain.Workflow.Refusals.{is_review_refused, is_revalidation_refused}
use safecommit_ai.Domain.Workflow.Outcome.{Outcome, refusal}
use safecommit_ai.Domain.Workflow.Attempts.{is_attempt_refused, with_attempt}
use safecommit_ai.Domain.Workflow.Selection.{
  are_candidates_refused, minimum_candidates, is_sandbox_map_refused, with_selection,
  select_candidate_event,
}
use safecommit_ai.Domain.Workflow.Repair.{is_pull_request_refused, with_repair, with_revalidation}

module _ (rt : Runtime) where
  -- The state is AWAITING_HUMAN_APPROVAL.
  unfoldable pub on_awaiting_approval : ValidationSession → WorkflowEvent → Text → Outcome
  on_awaiting_approval s (approval_recorded a) at =
      throw_if (a.session_id != s.session_id || some a.candidate_id != s.selected_candidate_id)
        (refusal s approval_recorded_type approval_of_another_session)
        (ok (record s { updated_at = at; approval = some a }))
  on_awaiting_approval s pr_creation_requested at =
      let gate = can_create_or_update_pull_request rt s in
      throw_if (not gate.0) (refusal s pr_creation_requested_type (publish_refused gate.1))
        (ok (record s { state = creating_pull_request; updated_at = at }))
  on_awaiting_approval s e at = err (refusal s (event_type e) cannot_apply)

  -- The state is AWAITING_CODERABBIT.
  unfoldable pub on_awaiting_review : ValidationSession → WorkflowEvent → Text → Outcome
  on_awaiting_review s (review_findings_received findings r) at =
      throw_if (is_review_refused rt s.pull_request s r findings)
        (refusal s review_findings_received_type review_not_bound)
        (ok (record s {
          state =
              if is_passed r.status && (evaluate_code_rabbit_gate findings).passed
              then review_passed
              else review_blocked;
          updated_at = at;
          review_findings = findings;
          review_receipt = some r;
        }))
  on_awaiting_review s e at = err (refusal s (event_type e) cannot_apply)

  -- The switch on the event, once it is the expected one.
  unfoldable pub on_expected : ValidationSession → WorkflowEvent → Text → Outcome
  unfolding with_selection select_candidate_event with_repair with_revalidation
  on_expected s start at = ok (record s { state = ingesting_repository; updated_at = at })
  on_expected s repository_ingested at =
      ok (record s { state = analyzing_incident; updated_at = at })
  on_expected s incident_analyzed at =
      ok (record s { state = generating_candidates; updated_at = at })
  on_expected s (candidates_generated ids) at =
      throw_if (are_candidates_refused s.run_kind ids)
        (refusal s candidates_generated_type
          (too_few_candidates s.run_kind (minimum_candidates s.run_kind)))
        (ok (record s { state = provisioning_sandboxes; updated_at = at; candidate_ids = ids }))
  on_expected s (sandboxes_provisioned entries) at =
      throw_if (is_sandbox_map_refused s entries)
        (refusal s sandboxes_provisioned_type sandbox_map_invalid)
        (ok (record s { state = building; updated_at = at; sandbox_ids_by_candidate = entries }))
  on_expected s builds_finished at = ok (record s { state = running_tests; updated_at = at })
  on_expected s tests_finished at = ok (record s { state = scoring; updated_at = at })
  on_expected s scoring_finished at = ok (record s { state = selecting; updated_at = at })
  on_expected s (candidate_selected e) at = select_candidate_event rt s e at
  on_expected s (pr_created_or_updated pr) at =
      throw_if (is_pull_request_refused rt s pr)
        (refusal s pr_created_or_updated_type pull_request_not_bound)
        (ok (record s {
          state = awaiting_coderabbit;
          updated_at = at;
          pull_request = some pr;
          review_findings = [];
          review_receipt = none;
        }))
  on_expected s repair_started at =
      ok (record s { state = repairing_review_findings; updated_at = at })
  on_expected s (repair_generated candidate patch) at =
      throw_if (not (includes s.candidate_ids candidate))
        (refusal s repair_generated_type repair_not_evaluated)
        (throw_if (not (is_sha256_digest patch))
          (refusal s repair_generated_type repair_digest_not_sha256)
          (ok (with_repair rt s candidate patch at)))
  on_expected s (revalidation_passed r) at =
      throw_if (is_revalidation_refused rt s r)
        (refusal s revalidation_passed_type revalidation_incomplete)
        (ok (with_revalidation rt s r at))
  on_expected s mark_ready_to_merge at =
      let gate = can_enter_ready_to_merge rt s in
      throw_if (not gate.0) (refusal s mark_ready_to_merge_type (ready_refused gate.1))
        (ok (record s { state = ready_to_merge; updated_at = at }))
  on_expected s complete at = ok (record s { state = completed; updated_at = at })
  on_expected s e at = err (refusal s (event_type e) cannot_apply)

  -- The two states with a handler of their own, and the table for all others.
  unfoldable pub on_state : ValidationState → ValidationSession → WorkflowEvent → Text → Outcome
  unfolding on_awaiting_approval on_awaiting_review on_expected event_type expected_event
      event_type_beq
  on_state awaiting_human_approval s e at = on_awaiting_approval s e at
  on_state awaiting_coderabbit s e at = on_awaiting_review s e at
  on_state state s e at =
      throw_if (expected_event state != some (event_type e)) (refusal s (event_type e) cannot_apply)
        (on_expected s e at)

  -- What comes before the states: failure, cancellation and the record of an attempt.
  unfoldable pub on_event : ValidationSession → WorkflowEvent → Text → Outcome
  unfolding with_attempt on_state
  on_event s (fail reason recoverable retry) at = ok (record s {
    state = failed;
    updated_at = at;
    failure = some (record {
      reason = reason;
      recoverable = recoverable;
      retry_action = retry;
      failed_from = s.state;
    });
  })
  on_event s cancel at = ok (record s { state = cancelled_by_human; updated_at = at })
  on_event s (daytona_attempt_recorded a) at =
      throw_if (is_attempt_refused rt s a)
        (refusal s daytona_attempt_recorded_type attempt_not_reserved) (ok (with_attempt s a at))
  on_event s e at = on_state s.state s e at

  -- The event's `at` is the last argument.
  unfoldable pub transition_validation_session : ValidationSession → WorkflowEvent → Text → Outcome
  unfolding on_event is_terminal state_beq
  transition_validation_session s e at =
      throw_if
        (is_terminal s.state
          && not (s.state == failed && event_type e == daytona_attempt_recorded_type))
        (refusal s (event_type e) cannot_apply) (on_event s e at)

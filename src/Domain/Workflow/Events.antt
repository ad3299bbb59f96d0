-- ===== src/Domain/Workflow/Events.antt =====
-- The events of a session, the errors of a refused transition and the table of expected events
-- (packages/domain/src/state-machine.ts).
use safecommit_ai.Prelude.{
  ℕ, Bool, true, false, Option, none, some, List, Text, Eq, nat_beq, ◌≡◌, ◌↔◌, arith,
}
use safecommit_ai.Domain.Types.{
  HumanApproval, PullRequestRecord, ReviewFinding, IndependentReviewReceipt,
  FullRevalidationReceipt, RunKind,
}
use safecommit_ai.Domain.Session.{
  ValidationState, DaytonaAttemptInput, idle, ingesting_repository, analyzing_incident,
  generating_candidates, provisioning_sandboxes, building, running_tests, scoring, selecting,
  creating_pull_request, review_blocked, review_passed, repairing_review_findings, revalidating,
  ready_to_merge, completed, failed, cancelled_by_human,
}
use safecommit_ai.Domain.ReviewGate.{GateReason}

pub record SelectedCandidate : Type 0 where
  pub candidate_id : Text
  pub patch_digest : Text
  pub evidence_digest : Text
  pub commit_sha : Text
  pub receipt : Option FullRevalidationReceipt

pub data WorkflowEvent : Type 0 where
  start repository_ingested incident_analyzed : WorkflowEvent
  candidates_generated : List Text → WorkflowEvent
  daytona_attempt_recorded : DaytonaAttemptInput → WorkflowEvent
  sandboxes_provisioned : List (Text × Text) → WorkflowEvent
  builds_finished tests_finished scoring_finished : WorkflowEvent
  candidate_selected : SelectedCandidate → WorkflowEvent
  approval_recorded : HumanApproval → WorkflowEvent
  pr_creation_requested : WorkflowEvent
  pr_created_or_updated : PullRequestRecord → WorkflowEvent
  review_findings_received : List ReviewFinding → IndependentReviewReceipt → WorkflowEvent
  repair_started : WorkflowEvent
  repair_generated : Text → Text → WorkflowEvent
  revalidation_passed : FullRevalidationReceipt → WorkflowEvent
  mark_ready_to_merge complete : WorkflowEvent
  fail : Text → Bool → Option Text → WorkflowEvent
  cancel : WorkflowEvent

pub data EventType : Type 0 where
  start_type repository_ingested_type incident_analyzed_type : EventType
  candidates_generated_type daytona_attempt_recorded_type sandboxes_provisioned_type : EventType
  builds_finished_type tests_finished_type scoring_finished_type : EventType
  candidate_selected_type approval_recorded_type pr_creation_requested_type : EventType
  pr_created_or_updated_type review_findings_received_type repair_started_type : EventType
  repair_generated_type revalidation_passed_type mark_ready_to_merge_type : EventType
  complete_type fail_type cancel_type : EventType

unfoldable pub event_type : WorkflowEvent → EventType
event_type start = start_type
event_type repository_ingested = repository_ingested_type
event_type incident_analyzed = incident_analyzed_type
event_type (candidates_generated _) = candidates_generated_type
event_type (daytona_attempt_recorded _) = daytona_attempt_recorded_type
event_type (sandboxes_provisioned _) = sandboxes_provisioned_type
event_type builds_finished = builds_finished_type
event_type tests_finished = tests_finished_type
event_type scoring_finished = scoring_finished_type
event_type (candidate_selected _) = candidate_selected_type
event_type (approval_recorded _) = approval_recorded_type
event_type pr_creation_requested = pr_creation_requested_type
event_type (pr_created_or_updated _) = pr_created_or_updated_type
event_type (review_findings_received _ _) = review_findings_received_type
event_type repair_started = repair_started_type
event_type (repair_generated _ _) = repair_generated_type
event_type (revalidation_passed _) = revalidation_passed_type
event_type mark_ready_to_merge = mark_ready_to_merge_type
event_type complete = complete_type
event_type (fail _ _ _) = fail_type
event_type cancel = cancel_type

event_number : EventType → ℕ
event_number start_type = 0
event_number repository_ingested_type = 1
event_number incident_analyzed_type = 2
event_number candidates_generated_type = 3
event_number daytona_attempt_recorded_type = 4
event_number sandboxes_provisioned_type = 5
event_number builds_finished_type = 6
event_number tests_finished_type = 7
event_number scoring_finished_type = 8
event_number candidate_selected_type = 9
event_number approval_recorded_type = 10
event_number pr_creation_requested_type = 11
event_number pr_created_or_updated_type = 12
event_number review_findings_received_type = 13
event_number repair_started_type = 14
event_number repair_generated_type = 15
event_number revalidation_passed_type = 16
event_number mark_ready_to_merge_type = 17
event_number complete_type = 18
event_number fail_type = 19
event_number cancel_type = 20

unfoldable pub event_type_beq : EventType → EventType → Bool
unfolding event_number
event_type_beq a b = nat_beq (event_number a) (event_number b)

pub event_type_beq_iff : (a b : EventType) → (event_type_beq a b ≡ true) ↔ (a ≡ b)
unfolding event_type_beq
event_type_beq_iff a b = ground arith

instance abbrev pub event_type_eq : Eq EventType
event_type_eq = record { is_same = event_type_beq; decides = event_type_beq_iff }

-- EXPECTED_EVENT
unfoldable pub expected_event : ValidationState → Option EventType
expected_event idle = some start_type
expected_event ingesting_repository = some repository_ingested_type
expected_event analyzing_incident = some incident_analyzed_type
expected_event generating_candidates = some candidates_generated_type
expected_event provisioning_sandboxes = some sandboxes_provisioned_type
expected_event building = some builds_finished_type
expected_event running_tests = some tests_finished_type
expected_event scoring = some scoring_finished_type
expected_event selecting = some candidate_selected_type
expected_event creating_pull_request = some pr_created_or_updated_type
expected_event review_blocked = some repair_started_type
expected_event repairing_review_findings = some repair_generated_type
expected_event revalidating = some revalidation_passed_type
expected_event review_passed = some mark_ready_to_merge_type
expected_event ready_to_merge = some complete_type
expected_event _ = none

-- TERMINAL_STATES
unfoldable pub is_terminal : ValidationState → Bool
is_terminal completed = true
is_terminal failed = true
is_terminal cancelled_by_human = true
is_terminal _ = false

-- The reasons that the two gates give.
pub data PublishReason : Type 0 where
  not_awaiting_approval target_required attempts_not_clean approval_required : PublishReason
  approval_is_current : PublishReason

pub data ReadyReason : Type 0 where
  review_not_passed receipt_required approval_stale head_moved attempts_unclean : ReadyReason
  review_gate : GateReason → ReadyReason
  gates_passed : ReadyReason

-- The message of an InvalidWorkflowTransitionError; `cannot_apply` is the default one.
pub data TransitionMessage : Type 0 where
  cannot_apply attempt_not_reserved approval_of_another_session sandbox_map_invalid :
      TransitionMessage
  too_few_candidates : RunKind → ℕ → TransitionMessage
  candidate_not_evaluated commit_not_full digests_not_sha256 : TransitionMessage
  live_receipt_missing live_receipt_mismatch pull_request_not_bound : TransitionMessage
  review_not_bound repair_not_evaluated repair_digest_not_sha256 : TransitionMessage
  revalidation_incomplete : TransitionMessage
  publish_refused : PublishReason → TransitionMessage
  ready_refused : ReadyReason → TransitionMessage

pub record InvalidWorkflowTransition : Type 0 where
  pub state : ValidationState
  pub refused_event : EventType
  pub message : TransitionMessage

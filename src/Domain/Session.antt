-- ===== src/Domain/Session.antt =====
-- The state of a validation session (`ValidationSession` and `ValidationState` of
-- packages/domain/src/types.ts), with the record of the Daytona attempts.
use safecommit_ai.Prelude.{ℕ, Bool, true, Option, List, Text, Eq, nat_beq, ◌≡◌, ◌↔◌, arith}
use safecommit_ai.Domain.Types.{
  OperatingMode, RunKind, RepositoryRevision, PullRequestTarget, ValidationPolicySnapshot,
  HumanApproval, PullRequestRecord, ReviewFinding, IndependentReviewReceipt,
  FullRevalidationReceipt,
}

pub data ValidationState : Type 0 where
  idle ingesting_repository analyzing_incident generating_candidates : ValidationState
  provisioning_sandboxes building running_tests scoring selecting : ValidationState
  awaiting_human_approval creating_pull_request awaiting_coderabbit : ValidationState
  review_blocked review_passed repairing_review_findings revalidating : ValidationState
  ready_to_merge completed failed cancelled_by_human : ValidationState

state_number : ValidationState → ℕ
state_number idle = 0
state_number ingesting_repository = 1
state_number analyzing_incident = 2
state_number generating_candidates = 3
state_number provisioning_sandboxes = 4
state_number building = 5
state_number running_tests = 6
state_number scoring = 7
state_number selecting = 8
state_number awaiting_human_approval = 9
state_number creating_pull_request = 10
state_number awaiting_coderabbit = 11
state_number review_blocked = 12
state_number review_passed = 13
state_number repairing_review_findings = 14
state_number revalidating = 15
state_number ready_to_merge = 16
state_number completed = 17
state_number failed = 18
state_number cancelled_by_human = 19

unfoldable pub state_beq : ValidationState → ValidationState → Bool
unfolding state_number
state_beq a b = nat_beq (state_number a) (state_number b)

pub state_beq_iff : (a b : ValidationState) → (state_beq a b ≡ true) ↔ (a ≡ b)
unfolding state_beq
state_beq_iff a b = ground arith

instance abbrev pub state_eq : Eq ValidationState
state_eq = record { is_same = state_beq; decides = state_beq_iff }

pub record WorkflowFailure : Type 0 where
  pub reason : Text
  pub recoverable : Bool
  pub retry_action : Option Text
  pub failed_from : ValidationState

pub data AttemptPurpose : Type 0 where
  initial_candidate profile_replacement repair : AttemptPurpose

pub data Disposition : Type 0 where
  finished failed_destroyed failed_retained cleanup_failed : Disposition

pub record DaytonaAttemptInput : Type 0 where
  pub candidate_id : Text
  pub sandbox_id : Text
  pub run_id : Text
  pub purpose : AttemptPurpose
  pub captured_at : Text
  pub disposition : Disposition
  pub retryable : Bool

pub data ReservationStatus : Type 0 where
  reserved rejected_reuse : ReservationStatus

pub record DaytonaAttemptRecord : Type 0 where
  pub attempt : DaytonaAttemptInput
  pub open attempt use *
  pub reservation_status : ReservationStatus
  pub duplicate_sandbox : Bool
  pub duplicate_run : Bool

pub record ValidationSession : Type 0 where
  pub id : Text
  pub session_id : Text
  pub created_at : Text
  pub updated_at : Text
  pub source : Text
  pub source_version : Text
  pub mode : OperatingMode
  pub run_kind : RunKind
  pub state : ValidationState
  pub incident_id : Text
  pub policy_id : Text
  pub policy_version : Text
  pub policy_snapshot : Option ValidationPolicySnapshot
  pub repository : RepositoryRevision
  pub pull_request_target : Option PullRequestTarget
  pub candidate_ids : List Text
  -- The entries of the object, in their order; a key stands once.
  pub sandbox_ids_by_candidate : List (Text × Text)
  pub sandbox_attempt_history : List DaytonaAttemptRecord
  pub selected_candidate_id : Option Text
  pub current_patch_digest : Option Text
  pub current_evidence_digest : Option Text
  pub current_commit_sha : Option Text
  pub current_validated_tree_sha : Option Text
  pub approval : Option HumanApproval
  pub pull_request : Option PullRequestRecord
  pub review_findings : List ReviewFinding
  pub review_receipt : Option IndependentReviewReceipt
  pub last_revalidation : Option FullRevalidationReceipt
  pub revalidation_sandbox_ids : List Text
  pub validation_round : ℕ
  pub failure : Option WorkflowFailure

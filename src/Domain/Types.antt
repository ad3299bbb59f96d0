-- ===== src/Domain/Types.antt =====
-- The records of packages/domain/src/types.ts that the workflow, the approvals and the receipts use.
-- A field with one literal type is a `Text` where the code compares it at run time.
use safecommit_ai.Prelude.{ℕ, Bool, Option, List, Text}

pub data OperatingMode : Type 0 where
  live cached mock : OperatingMode

pub data Severity : Type 0 where
  info low medium high critical : Severity

pub data RunKind : Type 0 where
  single tournament : RunKind

pub record RepositoryRevision : Type 0 where
  pub repo_url : Text
  pub commit_sha : Text

pub record PullRequestTarget : Type 0 where
  pub provider : Text
  pub owner : Text
  pub repository : Text
  pub base_branch : Text

pub record ValidationPolicySnapshot : Type 0 where
  pub allowed_patch_paths : List Text
  pub max_changed_files : ℕ
  pub max_changed_lines : ℕ

pub data ApprovalDecision : Type 0 where
  approved rejected changes_requested : ApprovalDecision

pub record HumanApproval : Type 0 where
  pub id : Text
  pub session_id : Text
  pub created_at : Text
  pub updated_at : Text
  pub source : Text
  pub source_version : Text
  pub candidate_id : Text
  pub approver_id : Text
  pub approver_display_name : Option Text
  pub decision : ApprovalDecision
  pub acted_at : Text
  pub evidence_digest : Text
  pub patch_digest : Text
  pub policy_version : Text
  pub commit_sha : Text
  pub pull_request_target : Option PullRequestTarget
  pub binding_digest : Text
  pub reason : Option Text
  pub invalidated_at : Option Text
  pub invalidation_reason : Option Text

pub data PullRequestStatus : Type 0 where
  open_pr closed_pr merged_pr : PullRequestStatus

-- A pull request's number is a natural number. A JavaScript number that is none is refused by the test
-- Number.isSafeInteger(number) && number > 0, as 0 is.
pub record PullRequestRecord : Type 0 where
  pub id : Text
  pub session_id : Text
  pub created_at : Text
  pub updated_at : Text
  pub source : Text
  pub source_version : Text
  pub candidate_id : Text
  pub provider : Text
  pub owner : Text
  pub repository : Text
  pub number : ℕ
  pub url : Text
  pub head_sha : Text
  pub head_tree_sha : Text
  pub base_branch : Text
  pub base_sha : Text
  pub status : PullRequestStatus

pub data ReviewProvider : Type 0 where
  coderabbit manual_verified : ReviewProvider

pub record ReviewFinding : Type 0 where
  pub id : Text
  pub session_id : Text
  pub created_at : Text
  pub updated_at : Text
  pub source : Text
  pub source_version : Text
  pub provider : ReviewProvider
  pub review_url : Text
  pub external_id : Text
  pub severity : Severity
  pub title : Text
  pub body : Text
  pub file_path : Option Text
  pub line : Option ℕ
  pub resolved : Bool

pub data ReviewSourceKind : Type 0 where
  live_api manual_attestation : ReviewSourceKind

pub data ReviewStatus : Type 0 where
  passed blocked : ReviewStatus

pub record IndependentReviewReceipt : Type 0 where
  pub provider : ReviewProvider
  pub source_kind : ReviewSourceKind
  pub status : ReviewStatus
  pub pull_number : ℕ
  pub head_sha : Text
  pub expected_base_ref : Text
  pub expected_base_sha : Text
  pub observed_base_ref : Text
  pub observed_base_sha : Text
  pub review_url : Text
  pub evidence_ids : List Text
  pub captured_at : Text
  pub attested_by : Option Text

pub data ValidationPurpose : Type 0 where
  initial_selection review_repair : ValidationPurpose

pub record FullRevalidationReceipt : Type 0 where
  pub source_kind : Text
  pub mode : Text
  pub validation_purpose : ValidationPurpose
  pub session_id : Text
  pub policy_version : Text
  pub candidate_id : Text
  pub patch_digest : Text
  pub commit_sha : Text
  pub validated_tree_sha : Text
  pub pull_request_target : PullRequestTarget
  pub evidence_digest : Text
  pub attestation_digest : Text
  pub execution_provider : Text
  pub evaluation_provider : Text
  pub sandbox_id : Text
  pub daytona_run_id : Text
  pub daytona_evidence_ref : Text
  pub braintrust_project_id : Text
  pub braintrust_experiment_id : Text
  pub braintrust_experiment_name : Text
  pub braintrust_experiment_ref : Text
  pub build_passed : Bool
  pub unit_tests_passed : Bool
  pub safety_tests_passed : Bool
  pub integrity_checks_passed : Bool
  pub braintrust_scored : Bool
  pub candidate_eligible : Bool

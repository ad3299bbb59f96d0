-- ===== src/Examples/Receipts.antt =====
-- The inputs of the examples: a session's settings, its attempts, receipts, approvals, pull requests and
-- reviews.
use safecommit_ai.Domain.Approval.{ApprovalBinding, compute_approval_binding_digest, or_else}
use safecommit_ai.Domain.Revalidation.{compute_full_revalidation_attestation_digest}
use safecommit_ai.Domain.Session.{AttemptPurpose, DaytonaAttemptInput, finished}
use safecommit_ai.Domain.Types.{
  FullRevalidationReceipt, HumanApproval, IndependentReviewReceipt, PullRequestRecord,
  PullRequestTarget, ReviewFinding, ReviewStatus, Severity, ValidationPurpose, approved, coderabbit,
  initial_selection, live, live_api, open_pr, review_repair, single,
}
use safecommit_ai.Domain.Workflow.Events.{SelectedCandidate}
use safecommit_ai.Domain.Workflow.Outcome.{CreateValidationSessionInput}
use safecommit_ai.Examples.Platform.{toy}
use safecommit_ai.Prelude.{Text, [], false, none, some, suc, true, zero, ℕ, ◌++◌, ◌∷◌}
use safecommit_ai.Text.{codes}

abbrev pub sha_base : Text
sha_base = codes "1111111111111111111111111111111111111111"

abbrev pub sha_first : Text
sha_first = codes "2222222222222222222222222222222222222222"

abbrev pub sha_second : Text
sha_second = codes "3333333333333333333333333333333333333333"

-- 64 equal hexadecimal digits.
abbrev pub digest : ℕ → Text
digest c = digits 64 c
  where
    digits : ℕ → ℕ → Text
    digits zero c = []
    digits (suc k) c = c ∷ digits k c

abbrev pub target : PullRequestTarget
target = record {
  provider = codes "github";
  owner = codes "acme";
  repository = codes "shop";
  base_branch = codes "main";
}

abbrev pub live_input : CreateValidationSessionInput
live_input = record {
  id = codes "sess";
  incident_id = codes "inc";
  policy_id = codes "pol";
  policy_version = codes "v1";
  policy_snapshot = none;
  repository = record { repo_url = codes "https://github.com/acme/shop"; commit_sha = sha_base };
  pull_request_target = some target;
  mode = live;
  run_kind = some single;
  source_version = sha_base;
  at = codes "t0";
}

abbrev pub attempt : Text → Text → AttemptPurpose → DaytonaAttemptInput
attempt sandbox run purpose = record {
  candidate_id = codes "c1";
  sandbox_id = sandbox;
  run_id = run;
  purpose = purpose;
  captured_at = codes "t1";
  disposition = finished;
  retryable = false;
}

abbrev pub unsealed : ValidationPurpose → Text → Text → Text → Text → Text → FullRevalidationReceipt
unsealed purpose patch evidence commit sandbox run = record {
  source_kind = codes "live-provider-evidence";
  mode = codes "live";
  validation_purpose = purpose;
  session_id = codes "sess";
  policy_version = codes "v1";
  candidate_id = codes "c1";
  patch_digest = patch;
  commit_sha = commit;
  validated_tree_sha = commit;
  pull_request_target = target;
  evidence_digest = evidence;
  attestation_digest = [];
  execution_provider = codes "daytona";
  evaluation_provider = codes "braintrust";
  sandbox_id = sandbox;
  daytona_run_id = run;
  daytona_evidence_ref = codes "daytona://sandbox/" ++ (sandbox ++ (codes "/runs/" ++ run));
  braintrust_project_id = codes "p1";
  braintrust_experiment_id = codes "e1";
  braintrust_experiment_name = codes "x1";
  braintrust_experiment_ref = codes "https://www.braintrust.dev/app/x1";
  build_passed = true;
  unit_tests_passed = true;
  safety_tests_passed = true;
  integrity_checks_passed = true;
  braintrust_scored = true;
  candidate_eligible = true;
}

-- The receipt with the digest of the rest of it.
abbrev pub sealed : FullRevalidationReceipt → FullRevalidationReceipt
unfolding compute_full_revalidation_attestation_digest
sealed r = record r {
  attestation_digest = or_else (compute_full_revalidation_attestation_digest toy r) [];
}

abbrev pub first_receipt : FullRevalidationReceipt
first_receipt =
    sealed
      (unsealed initial_selection (digest b'a') (digest b'b') sha_first (codes "s1") (codes "r1"))

abbrev pub second_receipt : FullRevalidationReceipt
second_receipt =
    sealed (unsealed review_repair (digest b'c') (digest b'd') sha_second (codes "s2") (codes "r2"))

abbrev pub selection : SelectedCandidate
selection = record {
  candidate_id = codes "c1";
  patch_digest = digest b'a';
  evidence_digest = digest b'b';
  commit_sha = sha_first;
  receipt = some first_receipt;
}

abbrev pub binding : Text → Text → Text → ApprovalBinding
binding patch evidence commit = record {
  candidate_id = codes "c1";
  patch_digest = patch;
  evidence_digest = evidence;
  policy_version = codes "v1";
  commit_sha = commit;
  pull_request_target = some target;
}

abbrev pub approval_of : ApprovalBinding → HumanApproval
unfolding compute_approval_binding_digest
approval_of b = record {
  id = codes "a";
  session_id = codes "sess";
  created_at = codes "t2";
  updated_at = codes "t2";
  source = codes "human";
  source_version = codes "1";
  candidate_id = b.candidate_id;
  approver_id = codes "ann";
  approver_display_name = none;
  decision = approved;
  acted_at = codes "t2";
  evidence_digest = b.evidence_digest;
  patch_digest = b.patch_digest;
  policy_version = b.policy_version;
  commit_sha = b.commit_sha;
  pull_request_target = b.pull_request_target;
  binding_digest = or_else (compute_approval_binding_digest toy b) [];
  reason = none;
  invalidated_at = none;
  invalidation_reason = none;
}

abbrev pub pull_request_at : Text → PullRequestRecord
pull_request_at head = record {
  id = codes "pr";
  session_id = codes "sess";
  created_at = codes "t3";
  updated_at = codes "t3";
  source = codes "github";
  source_version = head;
  candidate_id = codes "c1";
  provider = codes "github";
  owner = codes "acme";
  repository = codes "shop";
  number = 7;
  url = codes "https://github.com/acme/shop/pull/7";
  head_sha = head;
  head_tree_sha = head;
  base_branch = codes "main";
  base_sha = sha_base;
  status = open_pr;
}

abbrev pub review : ReviewStatus → Text → IndependentReviewReceipt
review status head = record {
  provider = coderabbit;
  source_kind = live_api;
  status = status;
  pull_number = 7;
  head_sha = head;
  expected_base_ref = codes "main";
  expected_base_sha = sha_base;
  observed_base_ref = codes "main";
  observed_base_sha = sha_base;
  review_url = codes "https://github.com/acme/shop/pull/7";
  evidence_ids = codes "ev" ∷ [];
  captured_at = codes "t4";
  attested_by = none;
}

abbrev pub finding : Severity → Text → ReviewFinding
finding severity head = record {
  id = codes "f";
  session_id = codes "sess";
  created_at = codes "t4";
  updated_at = codes "t4";
  source = codes "coderabbit";
  source_version = head;
  provider = coderabbit;
  review_url = codes "https://github.com/acme/shop/pull/7";
  external_id = codes "1";
  severity = severity;
  title = codes "t";
  body = codes "b";
  file_path = none;
  line = none;
  resolved = false;
}

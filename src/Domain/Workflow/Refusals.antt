-- ===== src/Domain/Workflow/Refusals.antt =====
-- The conditions under which a receipt is refused: `requireIndependentReviewReceipt`,
-- `requireFullRevalidationReceipt` and `requireInitialValidationReceipt`
-- (packages/domain/src/state-machine.ts).
use safecommit_ai.Prelude.{
  Bool, true, false, not, ◌&&◌, ◌||◌, Option, none, some, List, [], ◌∷◌, ◌++◌, map, Text, ◌==◌,
  ◌!=◌, nat_eq, text_eq, bool_eq, option_eq, if◌then◌else◌, every, some_of, length, includes,
  distinct,
}
use safecommit_ai.Text.{codes, is_blank, is_full_git_object_id, is_sha256_digest}
use safecommit_ai.Runtime.{Runtime}
use safecommit_ai.Domain.Types.{
  FullRevalidationReceipt, PullRequestRecord, IndependentReviewReceipt, ReviewFinding,
  ReviewProvider, coderabbit, manual_verified, ReviewSourceKind, live_api, manual_attestation,
}
use safecommit_ai.Domain.Session.{ValidationSession}
use safecommit_ai.Domain.ReviewGate.{evaluate_code_rabbit_gate}
use safecommit_ai.Domain.Revalidation.{
  every_gate_passed, references_valid, is_full_revalidation_receipt_structurally_valid,
  compute_full_revalidation_attestation_digest,
}
use safecommit_ai.Domain.Workflow.Events.{SelectedCandidate}
use safecommit_ai.Domain.Workflow.Gates.{is_live, is_passed, same_sha}
use safecommit_ai.Domain.Workflow.Receipts.{
  is_review_repair, receipt_has_unique_reserved_attempt, is_other_target,
  is_review_url_for_pull_request, is_evidence_url_for_pull_request_repository,
}

abbrev pub is_manual : ReviewProvider → Bool
is_manual manual_verified = true
is_manual _ = false

-- attestedBy?.trim() !== "": an attester that is absent passes.
abbrev pub is_not_blank_attester : Option Text → Bool
is_not_blank_attester none = true
is_not_blank_attester (some t) = not (is_blank t)

abbrev pub is_source_for : ReviewProvider → ReviewSourceKind → Option Text → Bool
is_source_for coderabbit live_api attester = true
is_source_for manual_verified manual_attestation attester = is_not_blank_attester attester
is_source_for _ _ attester = false

unfoldable pub is_source_consistent : IndependentReviewReceipt → Bool
is_source_consistent r = is_source_for r.provider r.source_kind r.attested_by

abbrev pub is_same_provider : ReviewProvider → ReviewProvider → Bool
is_same_provider a b = if is_manual a then is_manual b else not (is_manual b)

abbrev pub url_of : Option PullRequestRecord → Text
url_of none = []
url_of (some pr) = pr.url

abbrev pub candidate_of : List (Text × Text) → Text → Option Text
candidate_of [] k = none
candidate_of ((j, v) ∷ es) k = let rest = candidate_of es k in if j == k then some v else rest

-- session.pullRequest === undefined, or the receipt is for another head than the pull request's.
abbrev pub is_new_head : Option PullRequestRecord → Text → Bool
is_new_head none sha = true
is_new_head (some pr) sha = not (same_sha sha pr.head_sha)

-- The sandboxes that the session has used.
unfoldable pub used_sandboxes : ValidationSession → List Text
used_sandboxes s = map (λ e. e.1) s.sandbox_ids_by_candidate ++ s.revalidation_sandbox_ids

-- mappedSandbox === undefined || receipt.sandboxId !== mappedSandbox
abbrev pub is_not_mapped : Option Text → Text → Bool
is_not_mapped none id = true
is_not_mapped (some m) id = id != m

module _ (rt : Runtime) where
  unfoldable pub is_finding_bound :
      ValidationSession → IndependentReviewReceipt → ReviewFinding → Bool
  is_finding_bound s r f =
      f.session_id == s.session_id
      && is_same_provider f.provider r.provider
      && same_sha f.source_version r.head_sha
      && (if is_manual r.provider
          then is_review_url_for_pull_request rt f.review_url (url_of s.pull_request)
          else is_evidence_url_for_pull_request_repository rt f.review_url (url_of s.pull_request))

  unfoldable pub is_review_refused_for :
      PullRequestRecord → ValidationSession → IndependentReviewReceipt → List ReviewFinding → Bool
  unfolding is_source_consistent is_finding_bound
  is_review_refused_for pr s r findings =
      r.pull_number != pr.number
      || not (same_sha r.head_sha pr.head_sha)
      || not (is_full_git_object_id r.head_sha)
      || r.expected_base_ref != pr.base_branch
      || r.observed_base_ref != pr.base_branch
      || not (same_sha r.expected_base_sha pr.base_sha)
      || not (same_sha r.observed_base_sha pr.base_sha)
      || not (is_full_git_object_id r.expected_base_sha)
      || not (is_full_git_object_id r.observed_base_sha)
      || not (is_review_url_for_pull_request rt r.review_url pr.url)
      || rt.is_bad_date r.captured_at
      || length r.evidence_ids == 0
      || length (distinct r.evidence_ids) != length r.evidence_ids
      || some_of is_blank r.evidence_ids
      || not (is_source_consistent r)
      || not (every (is_finding_bound s r) findings)
      || is_passed r.status != (evaluate_code_rabbit_gate findings).passed

  unfoldable pub is_review_refused :
      Option PullRequestRecord
      → ValidationSession
      → IndependentReviewReceipt
      → List ReviewFinding
      → Bool
  unfolding is_review_refused_for
  is_review_refused none s r findings = true
  is_review_refused (some pr) s r findings = is_review_refused_for pr s r findings

  -- The first tests of `requireFullRevalidationReceipt`: the receipt is not for this session's repair,
  -- or brings no new evidence.
  unfoldable pub is_receipt_of_another_repair : ValidationSession → FullRevalidationReceipt → Bool
  unfolding is_other_target
  is_receipt_of_another_repair s r =
      not (is_live s.mode)
      || not (is_review_repair r.validation_purpose)
      || some r.candidate_id != s.selected_candidate_id
      || r.mode != codes "live"
      || r.session_id != s.session_id
      || r.policy_version != s.policy_version
      || is_other_target r.pull_request_target s.pull_request_target
      || some r.patch_digest != s.current_patch_digest
      || some r.evidence_digest == s.current_evidence_digest

  -- The tests after those, on the receipt, its attempt and its sandbox. Some of them stand in
  -- `is_full_revalidation_receipt_structurally_valid` too, as in the source.
  unfoldable pub is_receipt_incomplete : ValidationSession → FullRevalidationReceipt → Bool
  is_receipt_incomplete s r =
      not (is_full_revalidation_receipt_structurally_valid rt r)
      || r.source_kind != codes "live-provider-evidence"
      || not (is_full_git_object_id r.commit_sha)
      || not (is_full_git_object_id r.validated_tree_sha)
      || not (is_sha256_digest r.evidence_digest)
      || not (is_sha256_digest r.attestation_digest)
      || compute_full_revalidation_attestation_digest rt r != some r.attestation_digest
      || r.execution_provider != codes "daytona"
      || r.evaluation_provider != codes "braintrust"
      || not (receipt_has_unique_reserved_attempt s r)
      || not (references_valid rt r)
      || includes (used_sandboxes s) r.sandbox_id
      || not (is_new_head s.pull_request r.commit_sha)
      || not (every_gate_passed r)

  unfoldable pub is_revalidation_refused : ValidationSession → FullRevalidationReceipt → Bool
  unfolding is_receipt_of_another_repair is_receipt_incomplete
  is_revalidation_refused s r = is_receipt_of_another_repair s r || is_receipt_incomplete s r

  unfoldable pub is_selection_refused :
      ValidationSession → SelectedCandidate → FullRevalidationReceipt → Bool
  unfolding is_other_target
  is_selection_refused s e r =
      is_review_repair r.validation_purpose
      || r.mode != codes "live"
      || r.session_id != s.session_id
      || r.policy_version != s.policy_version
      || r.candidate_id != e.candidate_id
      || r.patch_digest != e.patch_digest
      || r.evidence_digest != e.evidence_digest
      || not (same_sha r.commit_sha e.commit_sha)
      || same_sha r.commit_sha s.repository.commit_sha
      || is_other_target r.pull_request_target s.pull_request_target
      || is_not_mapped (candidate_of s.sandbox_ids_by_candidate e.candidate_id) r.sandbox_id
      || not (receipt_has_unique_reserved_attempt s r)
      || includes s.revalidation_sandbox_ids r.sandbox_id
      || not (is_full_revalidation_receipt_structurally_valid rt r)
      || compute_full_revalidation_attestation_digest rt r != some r.attestation_digest
      || not (every_gate_passed r)

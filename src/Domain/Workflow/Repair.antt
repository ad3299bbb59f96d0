-- ===== src/Domain/Workflow/Repair.antt =====
-- The events PR_CREATED_OR_UPDATED, REPAIR_GENERATED and REVALIDATION_PASSED of
-- `transitionValidationSession` (packages/domain/src/state-machine.ts).
use safecommit_ai.Prelude.{
  ◌+◌, Bool, true, not, ◌||◌, Option, none, some, [], ◌∷◌, ◌++◌, Text, ◌==◌, ◌!=◌, nat_eq, text_eq,
  option_eq, if◌then◌else◌,
}
use safecommit_ai.Text.{codes}
use safecommit_ai.Runtime.{Runtime}
use safecommit_ai.Domain.Types.{
  PullRequestTarget, HumanApproval, PullRequestRecord, FullRevalidationReceipt,
}
use safecommit_ai.Domain.Session.{ValidationSession, awaiting_human_approval, revalidating}
use safecommit_ai.Domain.Approval.{
  ApprovalBinding, is_approval_valid, invalidate_approval_when_evidence_changes, or_else,
}
use safecommit_ai.Domain.Workflow.Gates.{is_open, same_sha, is_other_tree, current_binding}
use safecommit_ai.Domain.Workflow.Receipts.{is_canonical_github_pull_request}

module _ (rt : Runtime) where
  abbrev pub is_unapproved_head :
      Option ApprovalBinding → ValidationSession → PullRequestRecord → Bool
  is_unapproved_head none s pr = true
  is_unapproved_head (some b) s pr =
      not (is_approval_valid rt s.approval b) || not (same_sha pr.head_sha b.commit_sha)

  abbrev pub is_off_target : Option PullRequestTarget → PullRequestRecord → Bool
  is_off_target none pr = true
  is_off_target (some t) pr =
      pr.owner != t.owner || pr.repository != t.repository || pr.base_branch != t.base_branch

  unfoldable pub is_pull_request_refused : ValidationSession → PullRequestRecord → Bool
  unfolding is_canonical_github_pull_request
  is_pull_request_refused s pr =
      pr.session_id != s.session_id
      || some pr.candidate_id != s.selected_candidate_id
      || pr.provider != codes "github"
      || not (is_open pr.status)
      || not (is_canonical_github_pull_request rt pr)
      || is_off_target s.pull_request_target pr
      || not (same_sha pr.base_sha s.repository.commit_sha)
      || is_unapproved_head (current_binding s) s pr
      || is_other_tree s.current_validated_tree_sha pr.head_tree_sha

-- REPAIR_GENERATED and REVALIDATION_PASSED

abbrev pub invalidated_if_given :
    Runtime → Option HumanApproval → Option ApprovalBinding → Text → Option HumanApproval
invalidated_if_given rt approval none at = approval
invalidated_if_given rt approval (some b) at =
    invalidate_approval_when_evidence_changes rt approval b at

unfoldable pub repair_binding :
    ValidationSession → Text → Text → Option HumanApproval → Option ApprovalBinding
repair_binding s candidate patch none = none
repair_binding s candidate patch (some a) = some (record {
  candidate_id = candidate;
  patch_digest = patch;
  evidence_digest = or_else s.current_evidence_digest (codes "pending-revalidation");
  policy_version = s.policy_version;
  commit_sha = or_else s.current_commit_sha s.repository.commit_sha;
  pull_request_target = s.pull_request_target;
})

unfoldable pub with_repair : Runtime → ValidationSession → Text → Text → Text → ValidationSession
unfolding repair_binding
with_repair rt s candidate patch at = record s {
  state = revalidating;
  updated_at = at;
  selected_candidate_id = some candidate;
  current_patch_digest = some patch;
  current_commit_sha = none;
  current_validated_tree_sha = none;
  approval = invalidated_if_given rt s.approval (repair_binding s candidate patch s.approval) at;
}

-- existingApproval && session.selectedCandidateId: an empty identifier counts as none.
unfoldable pub revalidation_binding :
    ValidationSession
    → FullRevalidationReceipt
    → Option HumanApproval
    → Option Text
    → Option ApprovalBinding
revalidation_binding s r (some a) (some candidate) =
    if candidate == []
    then none
    else some (record {
      candidate_id = candidate;
      patch_digest = r.patch_digest;
      evidence_digest = r.evidence_digest;
      policy_version = s.policy_version;
      commit_sha = r.commit_sha;
      pull_request_target = s.pull_request_target;
    })
revalidation_binding s r _ _ = none

unfoldable pub with_revalidation :
    Runtime → ValidationSession → FullRevalidationReceipt → Text → ValidationSession
unfolding revalidation_binding
with_revalidation rt s r at = record s {
  state = awaiting_human_approval;
  updated_at = at;
  current_evidence_digest = some r.evidence_digest;
  current_patch_digest = some r.patch_digest;
  current_commit_sha = some r.commit_sha;
  current_validated_tree_sha = some r.validated_tree_sha;
  approval =
      invalidated_if_given rt s.approval
        (revalidation_binding s r s.approval s.selected_candidate_id) at;
  validation_round = s.validation_round + 1;
  last_revalidation = some r;
  revalidation_sandbox_ids = s.revalidation_sandbox_ids ++ r.sandbox_id ∷ [];
}

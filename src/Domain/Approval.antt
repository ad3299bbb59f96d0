-- ===== src/Domain/Approval.antt =====
-- packages/domain/src/approval.ts: human approvals bound to a patch, its evidence, the policy, the
-- commit and the pull request target.
pub mod Validity
pub mod Lifecycle
pub mod Binding
use safecommit_ai.Prelude.{
  Bool, true, false, not, ◌&&◌, ◌||◌, Option, none, some, Text, ◌==◌, text_eq, option_eq,
  if◌then◌else◌,
}
use safecommit_ai.Text.{codes}
use safecommit_ai.Runtime.{Runtime}
use safecommit_ai.Domain.Types.{HumanApproval, PullRequestTarget, ApprovalDecision, approved}
use safecommit_ai.Domain.Evidence.{digest_of}
use safecommit_ai.Domain.Evidence.Normal.{Js, Fields}

pub record ApprovalBinding : Type 0 where
  pub candidate_id : Text
  pub patch_digest : Text
  pub evidence_digest : Text
  pub policy_version : Text
  pub commit_sha : Text
  pub pull_request_target : Option PullRequestTarget

pub record CreateApprovalInput : Type 0 where
  pub binding : ApprovalBinding
  pub open binding use *
  pub id : Text
  pub session_id : Text
  pub approver_id : Text
  pub approver_display_name : Option Text
  pub decision : ApprovalDecision
  pub source : Option Text
  pub source_version : Text
  pub acted_at : Text
  pub reason : Option Text

-- The target as the object that is digested.
unfoldable pub target_js : PullRequestTarget → Js
target_js t = Js.obj (
    Fields.field (codes "provider") (Js.str t.provider) (
      Fields.field (codes "owner") (Js.str t.owner) (
        Fields.field (codes "repository") (Js.str t.repository)
          (Fields.field (codes "baseBranch") (Js.str t.base_branch) Fields.end))))

unfoldable pub optional_target_js : Js → Option PullRequestTarget → Js
unfolding target_js
optional_target_js absent none = absent
optional_target_js absent (some t) = target_js t

unfoldable pub binding_js : ApprovalBinding → Js
unfolding optional_target_js
binding_js b = Js.obj (
    Fields.field (codes "candidateId") (Js.str b.candidate_id) (
      Fields.field (codes "patchDigest") (Js.str b.patch_digest) (
        Fields.field (codes "evidenceDigest") (Js.str b.evidence_digest) (
          Fields.field (codes "policyVersion") (Js.str b.policy_version) (
            Fields.field (codes "commitSha") (Js.str b.commit_sha) (
              Fields.field (codes "pullRequestTarget")
                (optional_target_js Js.undefined b.pull_request_target) Fields.end))))))

abbrev pub or_else : Option Text → Text → Text
or_else none d = d
or_else (some t) d = t

abbrev pub is_absent : Option Text → Bool
is_absent none = true
is_absent (some t) = false

abbrev pub is_approved : ApprovalDecision → Bool
is_approved approved = true
is_approved _ = false

module _ (rt : Runtime) where
  -- A binding holds texts and an optional target, so the digest never throws.
  unfoldable pub compute_approval_binding_digest : ApprovalBinding → Option Text
  compute_approval_binding_digest b = digest_of rt (binding_js b)

  unfoldable pub create_human_approval : CreateApprovalInput → Option HumanApproval
  unfolding compute_approval_binding_digest
  create_human_approval input = elim (compute_approval_binding_digest input.binding) [
    | none ↦ none
    | some digest ↦ some (record {
      id = input.id;
      session_id = input.session_id;
      created_at = input.acted_at;
      updated_at = input.acted_at;
      source = or_else input.source (codes "human");
      source_version = input.source_version;
      candidate_id = input.candidate_id;
      approver_id = input.approver_id;
      approver_display_name = input.approver_display_name;
      decision = input.decision;
      acted_at = input.acted_at;
      evidence_digest = input.evidence_digest;
      patch_digest = input.patch_digest;
      policy_version = input.policy_version;
      commit_sha = input.commit_sha;
      pull_request_target = input.pull_request_target;
      binding_digest = digest;
      reason = input.reason;
      invalidated_at = none;
      invalidation_reason = none;
    })
  ]

  -- The last comparison is of two digests of the target, null where there is none.
  unfoldable pub same_target_digest : Option PullRequestTarget → Option PullRequestTarget → Bool
  same_target_digest a b =
      digest_of rt (optional_target_js Js.null a) == digest_of rt (optional_target_js Js.null b)

  -- approval !== undefined
  unfoldable pub is_given_approval_valid : HumanApproval → ApprovalBinding → Bool
  unfolding compute_approval_binding_digest same_target_digest
  is_given_approval_valid approval current =
      if not (is_approved approval.decision) || not (is_absent approval.invalidated_at)
      then false
      else some approval.binding_digest == compute_approval_binding_digest current
        && approval.candidate_id == current.candidate_id
        && approval.patch_digest == current.patch_digest
        && approval.evidence_digest == current.evidence_digest
        && approval.policy_version == current.policy_version
        && approval.commit_sha == current.commit_sha
        && same_target_digest approval.pull_request_target current.pull_request_target

  unfoldable pub is_approval_valid : Option HumanApproval → ApprovalBinding → Bool
  unfolding is_given_approval_valid
  is_approval_valid none current = false
  is_approval_valid (some approval) current = is_given_approval_valid approval current

  unfoldable pub invalidate_approval_when_evidence_changes :
      Option HumanApproval → ApprovalBinding → Text → Option HumanApproval
  unfolding is_approval_valid
  invalidate_approval_when_evidence_changes none current at = none
  invalidate_approval_when_evidence_changes (some approval) current at =
      if is_approval_valid (some approval) current
      then some approval
      else if not (is_absent approval.invalidated_at)
      then some approval
      else some (record approval {
        updated_at = at;
        invalidated_at = some at;
        invalidation_reason =
            some (codes "The candidate patch or its validation evidence changed after approval.");
      })

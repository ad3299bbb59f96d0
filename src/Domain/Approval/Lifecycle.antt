-- ===== src/Domain/Approval/Lifecycle.antt =====
-- From the creation of an approval to its invalidation (`createHumanApproval` and
-- `invalidateApprovalWhenEvidenceChanges` of packages/domain/src/approval.ts).
use safecommit_ai.Domain.Approval.{
  ApprovalBinding, CreateApprovalInput, binding_js, compute_approval_binding_digest,
  create_human_approval, invalidate_approval_when_evidence_changes, is_approval_valid, is_approved,
  is_given_approval_valid, optional_target_js, or_else,
}
use safecommit_ai.Domain.Evidence.{digest_of}
use safecommit_ai.Domain.Evidence.Normal.{Js}
use safecommit_ai.Domain.Types.{HumanApproval, PullRequestTarget}
use safecommit_ai.Prelude.{
  ==-refl, Option, Text, arith, bool_eq, false, nat_eq, none, option_eq, refl, some, text_beq,
  text_eq, ◌&&◌, ◌≡◌,
}
use safecommit_ai.Runtime.{Runtime}
use safecommit_ai.Text.{codes}

module _ (rt : Runtime) where
  -- A binding always has a digest.
  digest_of_fields :
      (candidate patch evidence policy commit : Text) (target : Option PullRequestTarget)
      → (d : Text) × (compute_approval_binding_digest rt (record {
        candidate_id = candidate;
        patch_digest = patch;
        evidence_digest = evidence;
        policy_version = policy;
        commit_sha = commit;
        pull_request_target = target;
      })
          ≡ some d)
  unfolding compute_approval_binding_digest digest_of binding_js text_beq
  digest_of_fields candidate patch evidence policy commit none = (_, refl)
  digest_of_fields candidate patch evidence policy commit (some t) = (_, refl)

  pub binding-digest :
      (b : ApprovalBinding) → (d : Text) × (compute_approval_binding_digest rt b ≡ some d)
  binding-digest b =
      digest_of_fields b.candidate_id b.patch_digest b.evidence_digest b.policy_version b.commit_sha
        b.pull_request_target

  -- The approval that the input makes, with its digest.
  abbrev made : CreateApprovalInput → Text → HumanApproval
  made input digest = record {
    id = input.id;
    session_id = input.session_id;
    created_at = input.acted_at;
    updated_at = input.acted_at;
    source = or_else input.source (codes "human");
    source_version = input.source_version;
    candidate_id = input.candidate_id;
    approver_id = input.approver_id;
    approver_display_name = input.approver_display_name;
    decision = input.decision;
    acted_at = input.acted_at;
    evidence_digest = input.evidence_digest;
    patch_digest = input.patch_digest;
    policy_version = input.policy_version;
    commit_sha = input.commit_sha;
    pull_request_target = input.pull_request_target;
    binding_digest = digest;
    reason = input.reason;
    invalidated_at = none;
    invalidation_reason = none;
  }

  create-made :
      (input : CreateApprovalInput) (d : Text)
      → compute_approval_binding_digest rt input.binding ≡ some d
      → create_human_approval rt input ≡ some (made input d)
  unfolding create_human_approval
  create-made input d h = ground arith

  made-valid :
      (input : CreateApprovalInput) (d : Text)
      → compute_approval_binding_digest rt input.binding ≡ some d
      → is_given_approval_valid rt (made input d) input.binding ≡ is_approved input.decision
  unfolding is_given_approval_valid
  made-valid input d h = ground (
    arith,
    ==-refl (some d),
    h,
    ==-refl input.candidate_id,
    ==-refl input.patch_digest,
    ==-refl input.evidence_digest,
    ==-refl input.policy_version,
    ==-refl input.commit_sha,
    ==-refl (digest_of rt (optional_target_js Js.null input.pull_request_target)),
  )

  -- The creation of an approval always gives one; it is of the input's session, it has not been
  -- invalidated, and it is valid for the input's binding exactly where the decision is to approve.
  pub create_human_approval-is_approval_valid :
      (input : CreateApprovalInput)
      → (a : HumanApproval) × (create_human_approval rt input ≡ some a)
        × (a.session_id ≡ input.session_id)
        × (a.invalidated_at ≡ none)
        × (is_approval_valid rt (some a) input.binding ≡ is_approved input.decision)
  unfolding is_approval_valid
  create_human_approval-is_approval_valid input =
      let (d, h) = binding-digest input.binding in
      (made input d, create-made input d h, refl, refl, made-valid input d h)

  -- What the comparison with the current binding makes of an approval: one that is valid for the
  -- current binding stays valid for the bindings for which it was, and of one that is not, none is
  -- left that is valid for any binding.
  pub invalidate_approval_when_evidence_changes-is_approval_valid :
      (o : Option HumanApproval) (current b : ApprovalBinding) (at : Text)
      → is_approval_valid rt (invalidate_approval_when_evidence_changes rt o current at) b
        ≡ (is_approval_valid rt o current && is_approval_valid rt o b)
  unfolding invalidate_approval_when_evidence_changes is_approval_valid is_given_approval_valid
  invalidate_approval_when_evidence_changes-is_approval_valid none current b at = refl
  invalidate_approval_when_evidence_changes-is_approval_valid (some a) current b at = ground arith

  -- An approval that is not valid for the current binding is invalidated once and for all: after
  -- that comparison a later one, with any binding and at any time, leaves its record as it is.
  pub invalidate_twice :
      (o : Option HumanApproval) (current later : ApprovalBinding) (at then_at : Text)
      → is_approval_valid rt o current ≡ false
      → invalidate_approval_when_evidence_changes rt
          (invalidate_approval_when_evidence_changes rt o current at)
          later
          then_at
        ≡ invalidate_approval_when_evidence_changes rt o current at
  unfolding invalidate_approval_when_evidence_changes is_approval_valid is_given_approval_valid
  invalidate_twice none current later at then_at h = refl
  invalidate_twice (some a) current later at then_at h = ground arith

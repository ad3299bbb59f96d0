-- ===== src/Domain/Approval/Validity.antt =====
-- What it means that an approval is valid for a binding (`isApprovalValid` of
-- packages/domain/src/approval.ts).
use safecommit_ai.Domain.Approval.{
  ApprovalBinding, is_absent, is_approval_valid, is_approved, is_given_approval_valid,
}
use safecommit_ai.Domain.Types.{
  ApprovalDecision, HumanApproval, approved, changes_requested, rejected,
}
use safecommit_ai.Prelude.{
  ==-eq, Option, Text, arith, bool_eq, nat_eq, none, option_eq, refl, some, text_eq, true, ◌==◌,
  ◌≡◌,
}
use safecommit_ai.Runtime.{Runtime}

-- The approval is an approval, it stands, and it names every part of the binding.
pub record IsBoundTo (a : HumanApproval) (b : ApprovalBinding) : Type 0 where
  pub decision : a.decision ≡ approved
  pub stands : a.invalidated_at ≡ none
  pub candidate : a.candidate_id ≡ b.candidate_id
  pub patch : a.patch_digest ≡ b.patch_digest
  pub evidence : a.evidence_digest ≡ b.evidence_digest
  pub policy : a.policy_version ≡ b.policy_version
  pub commit : a.commit_sha ≡ b.commit_sha

approved_decision : (d : ApprovalDecision) → is_approved d ≡ true → d ≡ approved
approved_decision approved h = refl
approved_decision rejected h = cc
approved_decision changes_requested h = cc

absent_text : (o : Option Text) → is_absent o ≡ true → o ≡ none
absent_text none h = refl
absent_text (some t) h = cc

module _ (rt : Runtime) (a : HumanApproval) (b : ApprovalBinding) where
  open_approval :
      is_given_approval_valid rt a b ≡ true
      → (is_approved a.decision ≡ true) × (is_absent a.invalidated_at ≡ true)
  unfolding is_given_approval_valid
  open_approval h = ground arith

  bound_parts :
      is_given_approval_valid rt a b ≡ true
      → ((a.candidate_id == b.candidate_id) ≡ true)
        × ((a.patch_digest == b.patch_digest) ≡ true)
        × ((a.evidence_digest == b.evidence_digest) ≡ true)
        × ((a.policy_version == b.policy_version) ≡ true)
        × ((a.commit_sha == b.commit_sha) ≡ true)
  unfolding is_given_approval_valid
  bound_parts h = ground arith

  pub valid-IsBoundTo : is_given_approval_valid rt a b ≡ true → IsBoundTo a b
  valid-IsBoundTo h =
      let p = bound_parts h in
      record {
        decision = approved_decision a.decision (open_approval h).0;
        stands = absent_text a.invalidated_at (open_approval h).1;
        candidate = ==-eq a.candidate_id b.candidate_id p.0;
        patch = ==-eq a.patch_digest b.patch_digest p.1;
        evidence = ==-eq a.evidence_digest b.evidence_digest p.2;
        policy = ==-eq a.policy_version b.policy_version p.3;
        commit = ==-eq a.commit_sha b.commit_sha p.4;
      }

-- An approval that is valid for a binding is there, is a decision to approve that has not been
-- invalidated, and names the candidate, the patch, the evidence, the policy and the commit of the binding.
pub approval-IsBoundTo :
    (rt : Runtime) (o : Option HumanApproval) (b : ApprovalBinding)
    → is_approval_valid rt o b ≡ true
    → (a : HumanApproval) × (o ≡ some a) × IsBoundTo a b
unfolding is_approval_valid
approval-IsBoundTo rt none b h = cc
approval-IsBoundTo rt (some a) b h = (a, refl, valid-IsBoundTo rt a b h)

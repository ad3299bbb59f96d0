-- ===== src/Domain/DatabaseApproval.antt =====
-- packages/domain/src/database-approval.ts: approvals bound to a database plan and its evidence.
pub mod Lifecycle
pub mod Binding
use safecommit_ai.Domain.Approval.{is_absent, is_approved}
use safecommit_ai.Domain.Evidence.{digest_of}
use safecommit_ai.Domain.Evidence.Normal.{Fields, Js}
use safecommit_ai.Domain.Types.{ApprovalDecision}
use safecommit_ai.Prelude.{
  Bool, Option, Text, bool_eq, false, if◌then◌else◌, nat_eq, none, not, option_eq, some, text_eq,
  ◌&&◌, ◌==◌, ◌||◌,
}
use safecommit_ai.Runtime.{Runtime}
use safecommit_ai.Text.{codes}

pub record DatabaseApprovalBinding : Type 0 where
  pub candidate_id : Text
  pub plan_digest : Text
  pub intent_contract_digest : Text
  pub evidence_digest : Text
  pub snapshot_digest : Text
  pub schema_fingerprint : Text
  pub policy_version : Text
  pub source_commit_sha : Text
  pub approver_id : Text
  pub timestamp : Text

pub record DatabaseApproval : Type 0 where
  pub approval_id : Text
  pub decision : ApprovalDecision
  pub binding : DatabaseApprovalBinding
  pub binding_digest : Text
  pub invalidated_at : Option Text
  pub invalidation_reason : Option Text

unfoldable pub database_binding_js : DatabaseApprovalBinding → Js
database_binding_js b = Js.obj (
    Fields.field (codes "candidateId") (Js.str b.candidate_id) (
      Fields.field (codes "planDigest") (Js.str b.plan_digest) (
        Fields.field (codes "intentContractDigest") (Js.str b.intent_contract_digest) (
          Fields.field (codes "evidenceDigest") (Js.str b.evidence_digest) (
            Fields.field (codes "snapshotDigest") (Js.str b.snapshot_digest) (
              Fields.field (codes "schemaFingerprint") (Js.str b.schema_fingerprint) (
                Fields.field (codes "policyVersion") (Js.str b.policy_version) (
                  Fields.field (codes "sourceCommitSha") (Js.str b.source_commit_sha) (
                    Fields.field (codes "approverId") (Js.str b.approver_id)
                      (Fields.field (codes "timestamp") (Js.str b.timestamp) Fields.end))))))))))

module _ (rt : Runtime) where
  -- A binding holds texts only, so the digest never throws.
  unfoldable pub compute_database_approval_binding_digest : DatabaseApprovalBinding → Option Text
  compute_database_approval_binding_digest b = digest_of rt (database_binding_js b)

  unfoldable pub create_database_approval :
      Text → ApprovalDecision → DatabaseApprovalBinding → Option DatabaseApproval
  unfolding compute_database_approval_binding_digest
  create_database_approval id decision binding =
      elim (compute_database_approval_binding_digest binding) [
        | none ↦ none
        | some digest ↦ some (record {
          approval_id = id;
          decision = decision;
          binding = binding;
          binding_digest = digest;
          invalidated_at = none;
          invalidation_reason = none;
        })
      ]

  unfoldable pub is_database_approval_valid :
      Option DatabaseApproval → DatabaseApprovalBinding → Bool
  unfolding compute_database_approval_binding_digest
  is_database_approval_valid none current = false
  is_database_approval_valid (some a) current =
      is_approved a.decision
      && is_absent a.invalidated_at
      && some a.binding_digest == compute_database_approval_binding_digest current

  unfoldable pub invalidate_database_approval :
      Option DatabaseApproval → DatabaseApprovalBinding → Text → Option DatabaseApproval
  unfolding is_database_approval_valid
  invalidate_database_approval none current at = none
  invalidate_database_approval (some a) current at =
      if not (is_absent a.invalidated_at) || is_database_approval_valid (some a) current
      then some a
      else some (record a {
        invalidated_at = some at;
        invalidation_reason = some (
            codes
              "The approved database plan, snapshot, policy, schema, source revision, or execution evidence changed.");
      })

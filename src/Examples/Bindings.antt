-- ===== src/Examples/Bindings.antt =====
-- What digests bind, on concrete values.
use safecommit_ai.Domain.Approval.{
  ApprovalBinding, binding_js, compute_approval_binding_digest, is_given_approval_valid, or_else,
}
use safecommit_ai.Domain.Approval.Binding.{TargetHasUnits, is_given_approval_valid-target}
use safecommit_ai.Domain.DatabaseApproval.{
  DatabaseApproval, DatabaseApprovalBinding, compute_database_approval_binding_digest,
  create_database_approval, database_binding_js, is_database_approval_valid,
}
use safecommit_ai.Domain.DatabaseApproval.Binding.{HasUnits, is_database_approval_valid-binding}
use safecommit_ai.Domain.Evidence.{digest_of}
use safecommit_ai.Domain.Evidence.Binding.{Collision}
use safecommit_ai.Domain.Evidence.Quoted.{every-IsUnits}
use safecommit_ai.Domain.Types.{HumanApproval, PullRequestTarget, approved}
use safecommit_ai.Examples.Platform.{toy}
use safecommit_ai.Prelude.{Text, [], none, refl, some, text_beq, ◌≡◌, ◌⊎◌}
use safecommit_ai.Text.{codes}

database_binding : DatabaseApprovalBinding
database_binding = record {
  candidate_id = codes "c1";
  plan_digest = codes "p";
  intent_contract_digest = codes "i";
  evidence_digest = codes "e";
  snapshot_digest = codes "s";
  schema_fingerprint = codes "f";
  policy_version = codes "v1";
  source_commit_sha = codes "abc";
  approver_id = codes "ann";
  timestamp = codes "t1";
}

database_binding-HasUnits : HasUnits database_binding
unfolding HasUnits database_binding
database_binding-HasUnits = (
  every-IsUnits database_binding.candidate_id refl,
  (
    every-IsUnits database_binding.plan_digest refl,
    (
      every-IsUnits database_binding.intent_contract_digest refl,
      (
        every-IsUnits database_binding.evidence_digest refl,
        (
          every-IsUnits database_binding.snapshot_digest refl,
          (
            every-IsUnits database_binding.schema_fingerprint refl,
            (
              every-IsUnits database_binding.policy_version refl,
              (
                every-IsUnits database_binding.source_commit_sha refl,
                (
                  every-IsUnits database_binding.approver_id refl,
                  (every-IsUnits database_binding.timestamp refl, tt),
                ),
              ),
            ),
          ),
        ),
      ),
    ),
  ),
)

database_digest : Text
unfolding database_binding
database_digest = or_else (compute_database_approval_binding_digest toy database_binding) []

database_approval : DatabaseApproval
unfolding database_digest
database_approval = record {
  approval_id = codes "a";
  decision = approved;
  binding = database_binding;
  binding_digest = database_digest;
  invalidated_at = none;
  invalidation_reason = none;
}

is_database_approval_valid-binding_example : (database_binding ≡ database_binding) ⊎ Collision toy
unfolding database_approval create_database_approval is_database_approval_valid text_beq
    compute_database_approval_binding_digest digest_of database_binding_js toy
is_database_approval_valid-binding_example =
    is_database_approval_valid-binding toy (codes "a") approved database_binding database_binding
      database_approval database_binding-HasUnits database_binding-HasUnits refl refl

target : PullRequestTarget
target = record {
  provider = codes "github";
  owner = codes "acme";
  repository = codes "shop";
  base_branch = codes "main";
}

target_binding : ApprovalBinding
target_binding = record {
  candidate_id = codes "c1";
  patch_digest = codes "p";
  evidence_digest = codes "e";
  policy_version = codes "v1";
  commit_sha = codes "abc";
  pull_request_target = some target;
}

target_approval : HumanApproval
unfolding target_binding
target_approval = record {
  id = codes "a";
  session_id = codes "s";
  created_at = codes "t1";
  updated_at = codes "t1";
  source = codes "human";
  source_version = codes "1";
  candidate_id = codes "c1";
  approver_id = codes "ann";
  approver_display_name = none;
  decision = approved;
  acted_at = codes "t1";
  evidence_digest = codes "e";
  patch_digest = codes "p";
  policy_version = codes "v1";
  commit_sha = codes "abc";
  pull_request_target = some target;
  binding_digest = or_else (compute_approval_binding_digest toy target_binding) [];
  reason = none;
  invalidated_at = none;
  invalidation_reason = none;
}

target-HasUnits : TargetHasUnits (some target)
unfolding TargetHasUnits target
target-HasUnits = (
  every-IsUnits target.provider refl,
  (
    every-IsUnits target.owner refl,
    (every-IsUnits target.repository refl, (every-IsUnits target.base_branch refl, tt)),
  ),
)

is_given_approval_valid-target_example :
    (target_approval.pull_request_target ≡ target_binding.pull_request_target) ⊎ Collision toy
unfolding target_approval target_binding is_given_approval_valid text_beq toy digest_of binding_js
    compute_approval_binding_digest target
is_given_approval_valid-target_example =
    is_given_approval_valid-target toy target_approval target_binding target-HasUnits
      target-HasUnits refl

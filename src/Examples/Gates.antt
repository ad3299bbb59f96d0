-- ===== src/Examples/Gates.antt =====
-- The theorems on approvals, review findings and database gates, on concrete inputs.
use safecommit_ai.Domain.Approval.{
  ApprovalBinding, CreateApprovalInput, binding_js, compute_approval_binding_digest,
  create_human_approval, invalidate_approval_when_evidence_changes, is_approval_valid, is_approved,
  is_given_approval_valid,
}
use safecommit_ai.Domain.Approval.Lifecycle.{
  create_human_approval-is_approval_valid,
  invalidate_approval_when_evidence_changes-is_approval_valid, invalidate_twice,
}
use safecommit_ai.Domain.DatabaseApproval.{
  DatabaseApproval, DatabaseApprovalBinding, create_database_approval, invalidate_database_approval,
  is_database_approval_valid,
}
use safecommit_ai.Domain.DatabaseApproval.Lifecycle.{
  create_database_approval-is_database_approval_valid,
  invalidate_database_approval-is_database_approval_valid,
}
use safecommit_ai.Domain.Evidence.{digest_of}
use safecommit_ai.Domain.ReviewGate.{evaluate_code_rabbit_gate}
use safecommit_ai.Domain.ReviewGate.Blocking.{IsDecisionOn, evaluate_code_rabbit_gate-IsDecisionOn}
use safecommit_ai.Domain.Types.{HumanApproval, approved, high, low}
use safecommit_ai.Examples.Platform.{toy}
use safecommit_ai.Examples.Receipts.{approval_of, binding, digest, finding, sha_first, sha_second}
use safecommit_ai.Prelude.{
  Text, [], false, keep, map, none, not, ok, refl, some, text_beq, true, ◌&&◌, ◌↔◌, ◌∷◌, ◌≡◌,
}
use safecommit_ai.SafetyPolicy.DatabaseInvariants.{
  DatabaseGateEvaluation, DatabaseInvariantContext, database_hard_gate_names,
  evaluate_database_hard_gates,
}
use safecommit_ai.SafetyPolicy.DatabaseInvariants.Contract.{MeetsContract, holds}
use safecommit_ai.SafetyPolicy.DatabaseInvariants.Evaluation.{
  evaluate_database_hard_gates-MeetsContract,
}
use safecommit_ai.Text.{codes}

first_binding : ApprovalBinding
first_binding = binding (digest b'a') (digest b'b') sha_first

approval_input : CreateApprovalInput
unfolding first_binding
approval_input = record {
  binding = first_binding;
  id = codes "a";
  session_id = codes "sess";
  approver_id = codes "ann";
  approver_display_name = none;
  decision = approved;
  source = none;
  source_version = codes "1";
  acted_at = codes "t2";
  reason = none;
}

create_human_approval-is_approval_valid_example :
    (a : HumanApproval) × (create_human_approval toy approval_input ≡ some a)
    × (a.session_id ≡ approval_input.session_id)
    × (a.invalidated_at ≡ none)
    × (is_approval_valid toy (some a) approval_input.binding ≡ is_approved approval_input.decision)
create_human_approval-is_approval_valid_example =
    create_human_approval-is_approval_valid toy approval_input

invalidate_approval_when_evidence_changes-is_approval_valid_example :
    is_approval_valid toy
      (invalidate_approval_when_evidence_changes toy
        (some (approval_of first_binding))
        (binding (digest b'c') (digest b'd') sha_second)
        (codes "t5"))
      first_binding
    ≡ (is_approval_valid toy
          (some (approval_of first_binding))
          (binding (digest b'c') (digest b'd') sha_second)
        && is_approval_valid toy (some (approval_of first_binding)) first_binding)
invalidate_approval_when_evidence_changes-is_approval_valid_example =
    invalidate_approval_when_evidence_changes-is_approval_valid toy
      (some (approval_of first_binding)) (binding (digest b'c') (digest b'd') sha_second)
      first_binding (codes "t5")

stale :
    is_approval_valid toy
      (some (approval_of first_binding))
      (binding (digest b'c') (digest b'd') sha_second)
    ≡ false
unfolding first_binding is_approval_valid is_given_approval_valid text_beq toy digest_of binding_js
    compute_approval_binding_digest
stale = refl

invalidate_twice_example :
    invalidate_approval_when_evidence_changes toy
      (invalidate_approval_when_evidence_changes toy
        (some (approval_of first_binding))
        (binding (digest b'c') (digest b'd') sha_second)
        (codes "t5"))
      first_binding
      (codes "t6")
    ≡ invalidate_approval_when_evidence_changes toy
        (some (approval_of first_binding))
        (binding (digest b'c') (digest b'd') sha_second)
        (codes "t5")
invalidate_twice_example =
    invalidate_twice toy (some (approval_of first_binding))
      (binding (digest b'c') (digest b'd') sha_second) first_binding (codes "t5") (codes "t6") stale

evaluate_code_rabbit_gate-IsDecisionOn_example :
    IsDecisionOn
      (finding high sha_first ∷ finding low sha_first ∷ [])
      (evaluate_code_rabbit_gate (finding high sha_first ∷ finding low sha_first ∷ []))
evaluate_code_rabbit_gate-IsDecisionOn_example =
    evaluate_code_rabbit_gate-IsDecisionOn (finding high sha_first ∷ finding low sha_first ∷ [])

good_run : DatabaseInvariantContext
good_run = record {
  execution_succeeded = true;
  plan_integrity_passed = true;
  allowed_warehouses = codes "WH-EAST" ∷ [];
  touched_warehouses = codes "wh-east" ∷ [];
  allowed_tenants = codes "acme" ∷ [];
  touched_tenants = codes "acme" ∷ [];
  inventory_units_before = 40;
  inventory_units_after = 40;
  negative_inventory_rows = 0;
  over_allocated_rows = 0;
  lost_lot_or_serial_rows = 0;
  referential_integrity_violations = 0;
  protected_order_rows_changed = 0;
  affected_rows = 3;
  max_affected_rows = 5;
  after_state_digest = codes "x";
  second_run_state_digest = codes "x";
  before_state_digest = codes "y";
  rollback_state_digest = codes "y";
}

evaluate_database_hard_gates-MeetsContract_example :
    (v : DatabaseGateEvaluation) × (evaluate_database_hard_gates toy good_run ≡ ok v)
    × (map (λ r. r.name) v.results ≡ database_hard_gate_names)
    × (v.failed_gate_names ≡ keep (λ n. not (holds good_run n)) database_hard_gate_names)
    × ((v.eligible ≡ true) ↔ MeetsContract good_run)
evaluate_database_hard_gates-MeetsContract_example =
    evaluate_database_hard_gates-MeetsContract toy good_run

database_binding : Text → DatabaseApprovalBinding
database_binding snapshot = record {
  candidate_id = codes "c1";
  plan_digest = digest b'a';
  intent_contract_digest = digest b'b';
  evidence_digest = digest b'c';
  snapshot_digest = snapshot;
  schema_fingerprint = codes "s";
  policy_version = codes "v1";
  source_commit_sha = sha_first;
  approver_id = codes "ann";
  timestamp = codes "t";
}

create_database_approval-is_database_approval_valid_example :
    (a : DatabaseApproval) × (create_database_approval toy
        (codes "d")
        approved
        (database_binding (digest b'd'))
      ≡ some a)
    × (a.invalidated_at ≡ none)
    × (is_database_approval_valid toy (some a) (database_binding (digest b'd'))
        ≡ is_approved approved)
create_database_approval-is_database_approval_valid_example =
    create_database_approval-is_database_approval_valid toy (codes "d") approved
      (database_binding (digest b'd'))

invalidate_database_approval-is_database_approval_valid_example :
    is_database_approval_valid toy
      (invalidate_database_approval toy
        (create_database_approval toy (codes "d") approved (database_binding (digest b'd')))
        (database_binding (digest b'e'))
        (codes "t"))
      (database_binding (digest b'd'))
    ≡ (is_database_approval_valid toy
          (create_database_approval toy (codes "d") approved (database_binding (digest b'd')))
          (database_binding (digest b'e'))
        && is_database_approval_valid toy
            (create_database_approval toy (codes "d") approved (database_binding (digest b'd')))
            (database_binding (digest b'd')))
invalidate_database_approval-is_database_approval_valid_example =
    invalidate_database_approval-is_database_approval_valid toy
      (create_database_approval toy (codes "d") approved (database_binding (digest b'd')))
      (database_binding (digest b'e')) (database_binding (digest b'd')) (codes "t")

-- ===== src/SafetyPolicy/DatabaseInvariants.antt =====
-- packages/safety-policy/src/database-invariants.ts: the hard gates of a database plan. The counts are
-- natural numbers below 10^21, which a template literal prints in decimal digits.
pub mod Contract
pub mod Evaluation
use safecommit_ai.Domain.Evidence.{compute_evidence_digest}
use safecommit_ai.Domain.Evidence.Normal.{EvidenceError, Fields, Js}
use safecommit_ai.Domain.Session.{state_eq}
use safecommit_ai.Domain.Types.{passed}
use safecommit_ai.Prelude.{
  Bool, List, Result, Text, [], bool_eq, every, if◌then◌else◌, includes, keep, leb, length, map,
  nat_eq, not, ok, option_eq, text_eq, ℕ, ◌++◌, ◌==◌, ◌>>=◌, ◌∷◌,
}
use safecommit_ai.Runtime.{Runtime}
use safecommit_ai.Text.{codes, to_lower_case}
use safecommit_ai.Text.Encoding.{number_text}

pub data DatabaseHardGateName : Type 0 where
  plan_execution_success plan_integrity warehouse_scope tenant_isolation : DatabaseHardGateName
  inventory_conservation no_negative_inventory allocation_bound : DatabaseHardGateName
  lot_serial_preservation referential_integrity protected_order_state : DatabaseHardGateName
  blast_radius_within_contract idempotency rollback_verified : DatabaseHardGateName

-- DATABASE_HARD_GATE_NAMES
abbrev pub database_hard_gate_names : List DatabaseHardGateName
database_hard_gate_names =
    plan_execution_success ∷ plan_integrity ∷ warehouse_scope ∷ tenant_isolation
    ∷ inventory_conservation ∷ no_negative_inventory ∷ allocation_bound ∷ lot_serial_preservation
    ∷ referential_integrity ∷ protected_order_state ∷ blast_radius_within_contract ∷ idempotency
    ∷ rollback_verified ∷ []

unfoldable pub gate_name_text : DatabaseHardGateName → Text
gate_name_text plan_execution_success = codes "PlanExecutionSuccess"
gate_name_text plan_integrity = codes "PlanIntegrity"
gate_name_text warehouse_scope = codes "WarehouseScope"
gate_name_text tenant_isolation = codes "TenantIsolation"
gate_name_text inventory_conservation = codes "InventoryConservation"
gate_name_text no_negative_inventory = codes "NoNegativeInventory"
gate_name_text allocation_bound = codes "AllocationBound"
gate_name_text lot_serial_preservation = codes "LotSerialPreservation"
gate_name_text referential_integrity = codes "ReferentialIntegrity"
gate_name_text protected_order_state = codes "ProtectedOrderState"
gate_name_text blast_radius_within_contract = codes "BlastRadiusWithinContract"
gate_name_text idempotency = codes "Idempotency"
gate_name_text rollback_verified = codes "RollbackVerified"

pub record DatabaseInvariantContext : Type 0 where
  pub execution_succeeded : Bool
  pub plan_integrity_passed : Bool
  pub allowed_warehouses : List Text
  pub touched_warehouses : List Text
  pub allowed_tenants : List Text
  pub touched_tenants : List Text
  pub inventory_units_before : ℕ
  pub inventory_units_after : ℕ
  pub negative_inventory_rows : ℕ
  pub over_allocated_rows : ℕ
  pub lost_lot_or_serial_rows : ℕ
  pub referential_integrity_violations : ℕ
  pub protected_order_rows_changed : ℕ
  pub affected_rows : ℕ
  pub max_affected_rows : ℕ
  pub after_state_digest : Text
  pub second_run_state_digest : Text
  pub before_state_digest : Text
  pub rollback_state_digest : Text

pub record DatabaseHardGateResult : Type 0 where
  pub name : DatabaseHardGateName
  pub passed : Bool
  pub explanation : Text
  pub evidence_digest : Text

pub record DatabaseGateEvaluation : Type 0 where
  pub eligible : Bool
  pub results : List DatabaseHardGateResult
  pub failed_gate_names : List DatabaseHardGateName

pub record Fact : Type 0 where
  pub name : DatabaseHardGateName
  pub passed : Bool
  pub explanation : Text

unfoldable pub subset_of : List Text → List Text → Bool
unfolding to_lower_case
subset_of actual allowed =
    every (λ value. includes (map to_lower_case allowed) (to_lower_case value)) actual

-- xs.join(", ")
unfoldable pub join : List Text → Text
join [] = []
join (x ∷ []) = x
join (x ∷ y ∷ ys) = x ++ (codes ", " ++ join (y ∷ ys))

-- xs.join(", ") || "none"
unfoldable pub join_or_none : List Text → Text
unfolding join
join_or_none xs = if join xs == [] then codes "none" else join xs

unfoldable pub facts : DatabaseInvariantContext → List Fact
unfolding subset_of join_or_none
facts c =
    record {
      name = plan_execution_success;
      passed = c.execution_succeeded;
      explanation =
          if c.execution_succeeded
          then codes "Every server-owned statement completed inside the bounded transaction."
          else codes "At least one server-owned statement failed or timed out.";
    }
    ∷ record {
      name = plan_integrity;
      passed = c.plan_integrity_passed;
      explanation =
          if c.plan_integrity_passed
          then codes "The MySQL AST and server policy accepted the complete plan."
          else codes "The plan violated the MySQL AST or server policy.";
    }
    ∷ record {
      name = warehouse_scope;
      passed = subset_of c.touched_warehouses c.allowed_warehouses;
      explanation =
          codes "Touched warehouses: " ++ (join_or_none c.touched_warehouses ++ codes ".");
    }
    ∷ record {
      name = tenant_isolation;
      passed = subset_of c.touched_tenants c.allowed_tenants;
      explanation = codes "Touched tenants: " ++ (join_or_none c.touched_tenants ++ codes ".");
    }
    ∷ record {
      name = inventory_conservation;
      passed = c.inventory_units_before == c.inventory_units_after;
      explanation =
          codes "Inventory units "
          ++ (number_text c.inventory_units_before
              ++ (codes " -> " ++ (number_text c.inventory_units_after ++ codes ".")));
    }
    ∷ record {
      name = no_negative_inventory;
      passed = c.negative_inventory_rows == 0;
      explanation = number_text c.negative_inventory_rows ++ codes " inventory rows are negative.";
    }
    ∷ record {
      name = allocation_bound;
      passed = c.over_allocated_rows == 0;
      explanation =
          number_text c.over_allocated_rows ++ codes " allocations exceed available inventory.";
    }
    ∷ record {
      name = lot_serial_preservation;
      passed = c.lost_lot_or_serial_rows == 0;
      explanation =
          number_text c.lost_lot_or_serial_rows ++ codes " lot or serial relationships were lost.";
    }
    ∷ record {
      name = referential_integrity;
      passed = c.referential_integrity_violations == 0;
      explanation =
          number_text c.referential_integrity_violations
          ++ codes " referential-integrity violations remain.";
    }
    ∷ record {
      name = protected_order_state;
      passed = c.protected_order_rows_changed == 0;
      explanation =
          number_text c.protected_order_rows_changed ++ codes " protected order rows changed.";
    }
    ∷ record {
      name = blast_radius_within_contract;
      passed = leb c.affected_rows c.max_affected_rows;
      explanation =
          number_text c.affected_rows
          ++ (codes "/"
              ++ (number_text c.max_affected_rows ++ codes " allowed rows were affected."));
    }
    ∷ record {
      name = idempotency;
      passed = c.after_state_digest == c.second_run_state_digest;
      explanation = codes "The first-run and second-run state digests must match.";
    }
    ∷ record {
      name = rollback_verified;
      passed = c.before_state_digest == c.rollback_state_digest;
      explanation = codes "The rollback digest must equal the before-state digest.";
    }
    ∷ []

unfoldable pub fact_js : Fact → Js
unfolding gate_name_text
fact_js f = Js.obj (
    Fields.field (codes "name") (Js.str (gate_name_text f.name)) (
      Fields.field (codes "passed") (Js.bool f.passed)
        (Fields.field (codes "explanation") (Js.str f.explanation) Fields.end)))

module _ (rt : Runtime) where
  unfoldable pub gate_results : List Fact → Result EvidenceError (List DatabaseHardGateResult)
  unfolding fact_js
  gate_results [] = ok []
  gate_results (f ∷ fs) = do
    digest ← compute_evidence_digest rt (fact_js f)
    rest ← gate_results fs
    ok (
        record {
          name = f.name;
          passed = f.passed;
          explanation = f.explanation;
          evidence_digest = digest;
        }
        ∷ rest)

  unfoldable pub evaluate_database_hard_gates :
      DatabaseInvariantContext → Result EvidenceError DatabaseGateEvaluation
  unfolding facts gate_results
  evaluate_database_hard_gates c = do
    results ← gate_results (facts c)
    let failed = map (λ r. r.name) (keep (λ r. not r.passed) results)
    ok (record { eligible = length failed == 0; results = results; failed_gate_names = failed })

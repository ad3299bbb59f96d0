-- ===== src/SafetyPolicy/DatabaseInvariants/Contract.antt =====
-- What the hard gates promise of an eligible plan (`evaluateDatabaseHardGates` of
-- packages/safety-policy/src/database-invariants.ts).
use safecommit_ai.Prelude.{
  ==-eq, ==-refl, All, Bool, Bool-cases, List, Text, [], ap, arith, bool_eq, eq-==, every, includes,
  inl, inr, leb, map, nat_eq, option_eq, refl, subst, sym, text_eq, true, ◌==◌, ◌↔◌, ◌∷◌, ◌≡◌, ◌≤◌,
}
use safecommit_ai.SafetyPolicy.DatabaseInvariants.{
  DatabaseHardGateName, DatabaseInvariantContext, allocation_bound, blast_radius_within_contract,
  database_hard_gate_names, idempotency, inventory_conservation, lot_serial_preservation,
  no_negative_inventory, plan_execution_success, plan_integrity, protected_order_state,
  referential_integrity, rollback_verified, subset_of, tenant_isolation, warehouse_scope,
}
use safecommit_ai.Text.{to_lower_case}

-- Each text is an allowed one, up to the case of its letters.
abbrev pub IsWithin : List Text → List Text → Type 0
IsWithin actual allowed =
    All (λ x. (a : Text) × (includes allowed a ≡ true) × (to_lower_case a ≡ to_lower_case x)) actual

pub record MeetsContract (c : DatabaseInvariantContext) : Type 0 where
  pub executed : c.execution_succeeded ≡ true
  pub accepted : c.plan_integrity_passed ≡ true
  pub warehouses : IsWithin c.touched_warehouses c.allowed_warehouses
  pub tenants : IsWithin c.touched_tenants c.allowed_tenants
  pub conserved : c.inventory_units_before ≡ c.inventory_units_after
  pub none_negative : c.negative_inventory_rows ≡ 0
  pub none_over_allocated : c.over_allocated_rows ≡ 0
  pub no_lot_lost : c.lost_lot_or_serial_rows ≡ 0
  pub no_reference_broken : c.referential_integrity_violations ≡ 0
  pub no_protected_change : c.protected_order_rows_changed ≡ 0
  pub within_radius : c.affected_rows ≤ c.max_affected_rows
  pub idempotent : c.after_state_digest ≡ c.second_run_state_digest
  pub rolled_back : c.before_state_digest ≡ c.rollback_state_digest

includes-map :
    (f : Text → Text) (xs : List Text) (y : Text)
    → includes (map f xs) y ≡ true
    → (x : Text) × (includes xs x ≡ true) × (f x ≡ y)
includes-map f [] y h = cc
includes-map f (x ∷ xs) y h = elim (Bool-cases (y == f x)) [
  | inl e ↦ (x, ground (arith, ==-refl x), sym (==-eq y (f x) e))
  | inr n ↦ let (z, at, e) = includes-map f xs y (ground arith) in (z, ground arith, e)
]

map-includes :
    (f : Text → Text) (xs : List Text) (x : Text)
    → includes xs x ≡ true
    → includes (map f xs) (f x) ≡ true
map-includes f [] x h = cc
map-includes f (y ∷ ys) x h = elim (Bool-cases (x == y)) [
  | inl e ↦ ground (arith, ==-refl (f x), ap f (==-eq x y e))
  | inr n ↦ ground (arith, map-includes f ys x (ground arith))
]

subset_of-IsWithin :
    (actual allowed : List Text) → (subset_of actual allowed ≡ true) ↔ IsWithin actual allowed
unfolding subset_of
subset_of-IsWithin [] allowed = (λ _. tt, λ _. refl)
subset_of-IsWithin (x ∷ xs) allowed =
    let rest = subset_of-IsWithin xs allowed in
    (
      λ h. (
        includes-map to_lower_case allowed (to_lower_case x) (ground arith),
        rest.0 (ground arith),
      ),
      λ p. ground (
        arith,
        rest.1 p.1,
        subst (λ y. includes (map to_lower_case allowed) y ≡ true) p.0.2
            (map-includes to_lower_case allowed p.0.0 p.0.1),
      ),
    )

-- The gates, each by its name, as the contract states them.
unfoldable pub holds : DatabaseInvariantContext → DatabaseHardGateName → Bool
unfolding subset_of
holds c plan_execution_success = c.execution_succeeded
holds c plan_integrity = c.plan_integrity_passed
holds c warehouse_scope = subset_of c.touched_warehouses c.allowed_warehouses
holds c tenant_isolation = subset_of c.touched_tenants c.allowed_tenants
holds c inventory_conservation = c.inventory_units_before == c.inventory_units_after
holds c no_negative_inventory = c.negative_inventory_rows == 0
holds c allocation_bound = c.over_allocated_rows == 0
holds c lot_serial_preservation = c.lost_lot_or_serial_rows == 0
holds c referential_integrity = c.referential_integrity_violations == 0
holds c protected_order_state = c.protected_order_rows_changed == 0
holds c blast_radius_within_contract = leb c.affected_rows c.max_affected_rows
holds c idempotency = c.after_state_digest == c.second_run_state_digest
holds c rollback_verified = c.before_state_digest == c.rollback_state_digest

pub every-MeetsContract :
    (c : DatabaseInvariantContext)
    → (every (holds c) database_hard_gate_names ≡ true) ↔ MeetsContract c
unfolding holds
every-MeetsContract c =
    let touched = subset_of-IsWithin c.touched_warehouses c.allowed_warehouses in
    let served = subset_of-IsWithin c.touched_tenants c.allowed_tenants in
    (
      λ h. record {
        executed = ground arith;
        accepted = ground arith;
        warehouses = touched.0 (ground arith);
        tenants = served.0 (ground arith);
        conserved = ground arith;
        none_negative = ground arith;
        none_over_allocated = ground arith;
        no_lot_lost = ground arith;
        no_reference_broken = ground arith;
        no_protected_change = ground arith;
        within_radius = ground arith;
        idempotent = ==-eq c.after_state_digest c.second_run_state_digest (ground arith);
        rolled_back = ==-eq c.before_state_digest c.rollback_state_digest (ground arith);
      },
      λ m. holds_all m (touched.1 m.warehouses) (served.1 m.tenants),
    )
  where
    holds_all :
        MeetsContract c
        → subset_of c.touched_warehouses c.allowed_warehouses ≡ true
        → subset_of c.touched_tenants c.allowed_tenants ≡ true
        → every (holds c) database_hard_gate_names ≡ true
    holds_all m w t = ground (
      arith,
      m.executed,
      m.accepted,
      w,
      t,
      m.conserved,
      m.none_negative,
      m.none_over_allocated,
      m.no_lot_lost,
      m.no_reference_broken,
      m.no_protected_change,
      m.within_radius,
      eq-== m.idempotent,
      eq-== m.rolled_back,
    )

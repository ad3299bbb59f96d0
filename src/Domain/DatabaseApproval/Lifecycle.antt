-- ===== src/Domain/DatabaseApproval/Lifecycle.antt =====
-- A database approval from its creation to its invalidation
-- (packages/domain/src/database-approval.ts).
use safecommit_ai.Domain.Approval.{is_approved}
use safecommit_ai.Domain.DatabaseApproval.{
  DatabaseApproval, DatabaseApprovalBinding, compute_database_approval_binding_digest,
  create_database_approval, database_binding_js, invalidate_database_approval,
  is_database_approval_valid,
}
use safecommit_ai.Domain.Evidence.{digest_of}
use safecommit_ai.Domain.Types.{ApprovalDecision}
use safecommit_ai.Prelude.{
  Option, Text, ap, arith, bool_eq, eq-==, nat_eq, none, option_eq, refl, some, sym, text_beq,
  text_eq, ◌&&◌, ◌∙◌, ◌≡◌,
}
use safecommit_ai.Runtime.{Runtime}

module _ (rt : Runtime) where
  database-digest :
      (b : DatabaseApprovalBinding)
      → (d : Text) × (compute_database_approval_binding_digest rt b ≡ some d)
  unfolding compute_database_approval_binding_digest digest_of database_binding_js text_beq
  database-digest b = (_, refl)

  created_approval :
      (id : Text) (decision : ApprovalDecision) (b : DatabaseApprovalBinding) (d : Text)
      → compute_database_approval_binding_digest rt b ≡ some d
      → (a : DatabaseApproval) × (create_database_approval rt id decision b ≡ some a)
        × (a.decision ≡ decision)
        × (a.invalidated_at ≡ none)
        × (some a.binding_digest ≡ compute_database_approval_binding_digest rt b)
  unfolding create_database_approval
  created_approval id decision b d h = (
    record {
      approval_id = id;
      decision = decision;
      binding = b;
      binding_digest = d;
      invalidated_at = none;
      invalidation_reason = none;
    },
    ground arith,
    refl,
    refl,
    sym h,
  )

  created-valid :
      (a : DatabaseApproval) (b : DatabaseApprovalBinding)
      → a.invalidated_at ≡ none
      → some a.binding_digest ≡ compute_database_approval_binding_digest rt b
      → is_database_approval_valid rt (some a) b ≡ is_approved a.decision
  unfolding is_database_approval_valid
  created-valid a b h k = ground (arith, h, eq-== k)

  -- A database approval can always be created; it has not been invalidated, and it is valid for
  -- its binding exactly where the decision is to approve.
  pub create_database_approval-is_database_approval_valid :
      (id : Text) (decision : ApprovalDecision) (b : DatabaseApprovalBinding)
      → (a : DatabaseApproval) × (create_database_approval rt id decision b ≡ some a)
        × (a.invalidated_at ≡ none)
        × (is_database_approval_valid rt (some a) b ≡ is_approved decision)
  create_database_approval-is_database_approval_valid id decision b =
      let (d, h) = database-digest b in
      let (a, made, decided, fresh, sealed) = created_approval id decision b d h in
      (a, made, fresh, created-valid a b fresh sealed ∙ ap is_approved decided)

  -- The comparison with the current binding leaves a database approval that is valid for it valid
  -- for the bindings for which it was, and of one that is not, it leaves none that is valid for
  -- any binding.
  pub invalidate_database_approval-is_database_approval_valid :
      (o : Option DatabaseApproval) (current later : DatabaseApprovalBinding) (at : Text)
      → is_database_approval_valid rt (invalidate_database_approval rt o current at) later
        ≡ (is_database_approval_valid rt o current && is_database_approval_valid rt o later)
  unfolding invalidate_database_approval
  invalidate_database_approval-is_database_approval_valid none current later at = refl
  invalidate_database_approval-is_database_approval_valid (some a) current later at = ground arith

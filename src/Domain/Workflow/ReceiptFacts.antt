-- ===== src/Domain/Workflow/ReceiptFacts.antt =====
-- What a receipt that is not refused establishes (`requireInitialValidationReceipt` and
-- `requireFullRevalidationReceipt` of packages/domain/src/state-machine.ts).
use safecommit_ai.Domain.Revalidation.{every_gate_passed}
use safecommit_ai.Domain.Session.{ValidationSession}
use safecommit_ai.Domain.Types.{FullRevalidationReceipt}
use safecommit_ai.Domain.Workflow.Events.{SelectedCandidate}
use safecommit_ai.Domain.Workflow.Refusals.{
  is_receipt_incomplete, is_receipt_of_another_repair, is_revalidation_refused,
  is_selection_refused, used_sandboxes,
}
use safecommit_ai.Prelude.{
  !=-eq, arith, bool_eq, false, includes, nat_eq, option_eq, some, text_eq, true, ||-false, ◌!=◌,
  ◌==◌, ◌≡◌,
}
use safecommit_ai.Runtime.{Runtime}

module _ (rt : Runtime) where
  pub selection-parts :
      (s : ValidationSession) (e : SelectedCandidate) (r : FullRevalidationReceipt)
      → is_selection_refused rt s e r ≡ false
      → ((r.session_id != s.session_id) ≡ false)
        × ((r.policy_version != s.policy_version) ≡ false)
        × ((r.candidate_id != e.candidate_id) ≡ false)
        × ((r.patch_digest != e.patch_digest) ≡ false)
        × ((r.evidence_digest != e.evidence_digest) ≡ false)
        × (every_gate_passed r ≡ true)
  unfolding is_selection_refused
  selection-parts s e r h = ground arith

  repair-parts :
      (s : ValidationSession) (r : FullRevalidationReceipt)
      → is_receipt_of_another_repair rt s r ≡ false
      → ((some r.candidate_id != s.selected_candidate_id) ≡ false)
        × ((r.session_id != s.session_id) ≡ false)
        × ((r.policy_version != s.policy_version) ≡ false)
        × ((some r.patch_digest != s.current_patch_digest) ≡ false)
        × ((some r.evidence_digest == s.current_evidence_digest) ≡ false)
  unfolding is_receipt_of_another_repair
  repair-parts s r h = ground arith

  complete-parts :
      (s : ValidationSession) (r : FullRevalidationReceipt)
      → is_receipt_incomplete rt s r ≡ false
      → (includes (used_sandboxes s) r.sandbox_id ≡ false) × (every_gate_passed r ≡ true)
  unfolding is_receipt_incomplete
  complete-parts s r h = ground arith

  -- What an accepted receipt of a repair establishes.
  pub revalidation-facts :
      (s : ValidationSession) (r : FullRevalidationReceipt)
      → is_revalidation_refused rt s r ≡ false
      → (some r.candidate_id ≡ s.selected_candidate_id)
        × (r.session_id ≡ s.session_id)
        × (r.policy_version ≡ s.policy_version)
        × ((some r.evidence_digest == s.current_evidence_digest) ≡ false)
        × (includes (used_sandboxes s) r.sandbox_id ≡ false)
        × (every_gate_passed r ≡ true)
  unfolding is_revalidation_refused
  revalidation-facts s r h =
      let (first, second) =
        ||-false (is_receipt_of_another_repair rt s r) (is_receipt_incomplete rt s r) h in
      let p = repair-parts s r first in
      let q = complete-parts s r second in
      (
        !=-eq (some r.candidate_id) s.selected_candidate_id p.0,
        !=-eq r.session_id s.session_id p.1,
        !=-eq r.policy_version s.policy_version p.2,
        p.4,
        q.0,
        q.1,
      )

-- ===== src/Domain/Workflow/Soundness/Guarded.antt =====
-- The states whose handler makes several tests: an event that is accepted there is a step of the
-- relation (packages/domain/src/state-machine.ts).
use safecommit_ai.Domain.Session.{
  ValidationSession, awaiting_coderabbit, awaiting_human_approval, repairing_review_findings,
  review_passed, selecting,
}
use safecommit_ai.Domain.Types.{FullRevalidationReceipt, HumanApproval}
use safecommit_ai.Domain.Workflow.Events.{
  SelectedCandidate, WorkflowEvent, approval_recorded, candidate_selected, mark_ready_to_merge,
  pr_creation_requested, repair_generated, review_findings_received,
}
use safecommit_ai.Domain.Workflow.Gates.{
  can_create_or_update_pull_request, can_enter_ready_to_merge, is_live,
}
use safecommit_ai.Domain.Workflow.Refusals.{is_review_refused, is_selection_refused}
use safecommit_ai.Domain.Workflow.Selection.{select_candidate_event, with_live_selection}
use safecommit_ai.Domain.Workflow.Steps.{
  Step, approves, marks_ready, repairs, requests, reviews, selects, selects_live,
}
use safecommit_ai.Domain.Workflow.Transition.{on_state}
use safecommit_ai.Prelude.{
  !=-eq, Bool, Bool-cases, Option, Text, arith, bool_eq, false, includes, inl, inr, nat_eq, none,
  not, not-false, ok, option_eq, refl, returns_ok, returns_unless, some, text_eq, throw_if-eq-ok,
  true, ||-false, ◌!=◌, ◌||◌, ◌≡◌,
}
use safecommit_ai.Runtime.{Runtime}
use safecommit_ai.Text.{is_full_git_object_id, is_sha256_digest}

module _ (rt : Runtime) (s : ValidationSession) (at : Text) where
  pub review_passed-Step :
      (e : WorkflowEvent) {t : ValidationSession}
      → s.state ≡ review_passed
      → on_state rt review_passed s e at ≡ ok t
      → Step rt s at e t
  unfolding on_state
  review_passed-Step mark_ready_to_merge q h =
      returns_unless (Step rt s at mark_ready_to_merge) (not (can_enter_ready_to_merge rt s).0) _
        (λ g. marks_ready q (not-false _ g)) h
  review_passed-Step _ q h = cc

  pub awaiting_coderabbit-Step :
      (e : WorkflowEvent) {t : ValidationSession}
      → s.state ≡ awaiting_coderabbit
      → on_state rt awaiting_coderabbit s e at ≡ ok t
      → Step rt s at e t
  unfolding on_state
  awaiting_coderabbit-Step (review_findings_received fs r) q h =
      returns_unless (Step rt s at (review_findings_received fs r))
        (is_review_refused rt s.pull_request s r fs) _ (reviews q) h
  awaiting_coderabbit-Step _ q h = cc

  approves-unless :
      (a : HumanApproval)
      → s.state ≡ awaiting_human_approval
      → (a.session_id != s.session_id || some a.candidate_id != s.selected_candidate_id) ≡ false
      → Step rt s at (approval_recorded a) (record s { updated_at = at; approval = some a })
  approves-unless a q g =
      let parts = ||-false _ _ g in
      approves q (!=-eq a.session_id s.session_id parts.0)
        (!=-eq (some a.candidate_id) s.selected_candidate_id parts.1)

  pub awaiting_human_approval-Step :
      (e : WorkflowEvent) {t : ValidationSession}
      → s.state ≡ awaiting_human_approval
      → on_state rt awaiting_human_approval s e at ≡ ok t
      → Step rt s at e t
  unfolding on_state
  awaiting_human_approval-Step (approval_recorded a) q h =
      returns_unless (Step rt s at (approval_recorded a)) _ _ (approves-unless a q) h
  awaiting_human_approval-Step pr_creation_requested q h =
      returns_unless (Step rt s at pr_creation_requested)
        (not (can_create_or_update_pull_request rt s).0) _ (λ g. requests q (not-false _ g)) h
  awaiting_human_approval-Step _ q h = cc

  pub repairing_review_findings-Step :
      (e : WorkflowEvent) {t : ValidationSession}
      → s.state ≡ repairing_review_findings
      → on_state rt repairing_review_findings s e at ≡ ok t
      → Step rt s at e t
  unfolding on_state
  repairing_review_findings-Step (repair_generated c p) q h =
      let (known, rest) = throw_if-eq-ok _ _ _ h in
      returns_unless (Step rt s at (repair_generated c p)) (not (is_sha256_digest p)) _
        (λ g. repairs q (not-false _ known) (not-false _ g)) rest
  repairing_review_findings-Step _ q h = cc

  -- The live branch of the selection, at the receipt that the event holds.
  live_selection-Step :
      (e : SelectedCandidate) (o : Option FullRevalidationReceipt) {t : ValidationSession}
      → s.state ≡ selecting
      → includes s.candidate_ids e.candidate_id ≡ true
      → is_full_git_object_id e.commit_sha ≡ true
      → (is_sha256_digest e.patch_digest ≡ true) × (is_sha256_digest e.evidence_digest ≡ true)
      → is_live s.mode ≡ true
      → e.receipt ≡ o
      → with_live_selection rt s e o at ≡ ok t
      → Step rt s at (candidate_selected e) t
  unfolding with_live_selection
  live_selection-Step e none q c g d l o h = cc
  live_selection-Step e (some r) q c g d l o h =
      returns_unless (Step rt s at (candidate_selected e)) (is_selection_refused rt s e r) _
        (selects_live q c g d.0 d.1 l o) h

  digests-true : (a b : Bool) → (not a || not b) ≡ false → (a ≡ true) × (b ≡ true)
  digests-true a b h = ground arith

  selection-Step :
      (e : SelectedCandidate) {t : ValidationSession}
      → s.state ≡ selecting
      → select_candidate_event rt s e at ≡ ok t
      → Step rt s at (candidate_selected e) t
  unfolding select_candidate_event
  selection-Step e q h =
      let (known, h1) = throw_if-eq-ok _ _ _ h in
      let (full, h2) = throw_if-eq-ok _ _ _ h1 in
      let (digests, h3) = throw_if-eq-ok _ _ _ h2 in
      let c = not-false _ known in
      let g = not-false _ full in
      let d = digests-true _ _ digests in
      elim (Bool-cases (is_live s.mode)) [
        | inl l ↦ live_selection-Step e e.receipt q c g d l refl (rw l at h3)
        | inr l ↦
            returns_ok (Step rt s at (candidate_selected e)) (selects q c g d.0 d.1 l) (rw l at h3)
      ]

  pub selecting-Step :
      (e : WorkflowEvent) {t : ValidationSession}
      → s.state ≡ selecting
      → on_state rt selecting s e at ≡ ok t
      → Step rt s at e t
  unfolding on_state
  selecting-Step (candidate_selected e) q h = selection-Step e q h
  selecting-Step _ q h = cc

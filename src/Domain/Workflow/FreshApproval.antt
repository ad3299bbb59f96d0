-- ===== src/Domain/Workflow/FreshApproval.antt =====
-- After a review repair has been validated, nothing is published before a person approves again
-- (REPAIR_GENERATED and REVALIDATION_PASSED in packages/domain/src/state-machine.ts).
use safecommit_ai.Domain.Approval.{
  ApprovalBinding, invalidate_approval_when_evidence_changes, is_absent, is_approval_valid,
  is_given_approval_valid,
}
use safecommit_ai.Domain.Approval.Validity.{approval-IsBoundTo}
use safecommit_ai.Domain.Session.{
  DaytonaAttemptInput, ValidationSession, awaiting_human_approval, failed, revalidating,
  review_blocked, review_passed,
}
use safecommit_ai.Domain.Types.{FullRevalidationReceipt, HumanApproval}
use safecommit_ai.Domain.Workflow.Approved.{
  is_published, publish_gate-facts, published-has_valid_approval,
}
use safecommit_ai.Domain.Workflow.Attempts.{with_attempt}
use safecommit_ai.Domain.Workflow.Events.{WorkflowEvent, revalidation_passed}
use safecommit_ai.Domain.Workflow.Gates.{
  can_create_or_update_pull_request, current_binding, has_valid_approval, is_valid_for,
}
use safecommit_ai.Domain.Workflow.History.{with_attempt-cases}
use safecommit_ai.Domain.Workflow.Merge.{current_binding-fields}
use safecommit_ai.Domain.Workflow.Outcome.{create_validation_session}
use safecommit_ai.Domain.Workflow.ReceiptFacts.{revalidation-facts}
use safecommit_ai.Domain.Workflow.Refusals.{is_revalidation_refused}
use safecommit_ai.Domain.Workflow.Repair.{
  invalidated_if_given, revalidation_binding, with_repair, with_revalidation,
}
use safecommit_ai.Domain.Workflow.Selection.{with_selection}
use safecommit_ai.Domain.Workflow.Soundness.{transition-Step}
use safecommit_ai.Domain.Workflow.Steps.{
  Reach, Step, after, analyzes, approves, builds, cancels, completes, created, fails, generates,
  ingests, marks_ready, provisions, publishes, records, repairs, requests, revalidates, reviews,
  scores, selects, selects_live, starts, starts_repair, tests,
}
use safecommit_ai.Domain.Workflow.Transition.{transition_validation_session}
use safecommit_ai.Prelude.{
  ==-refl, Bool, Bool-cases, Option, Text, ap, bool_eq, false, if◌then◌else◌, inl, inr, nat_eq,
  none, not_true, ok, option_eq, refl, some, some_eq, subst, sym, text_eq, true, true≢false, ◌==◌,
  ◌∙◌, ◌≡◌,
}
use safecommit_ai.Runtime.{Runtime}
use safecommit_ai.Text.{codes}

-- An invalidated approval keeps the evidence that it names.
invalidate-evidence :
    (rt : Runtime) (a : HumanApproval) (b : ApprovalBinding) (at : Text)
    → (x : HumanApproval) × (invalidate_approval_when_evidence_changes rt (some a) b at ≡ some x)
      × (x.evidence_digest ≡ a.evidence_digest)
unfolding invalidate_approval_when_evidence_changes is_approval_valid
invalidate-evidence rt a b at = elim (Bool-cases (is_given_approval_valid rt a b)) [
  | inl v ↦ (a, rw v refl, refl)
  | inr n ↦ elim (Bool-cases (is_absent a.invalidated_at)) [
    | inl fresh ↦ (
      record a {
        updated_at = at;
        invalidated_at = some at;
        invalidation_reason =
            some (codes "The candidate patch or its validation evidence changed after approval.");
      },
      rw (n, fresh) refl,
      refl,
    )
    | inr old ↦ (a, rw (n, old) refl, refl)
  ]
]

-- The session's approval, valid or not, names its current evidence.
abbrev NamesEvidence : Option HumanApproval → Option Text → Type 0
NamesEvidence approval evidence =
    (a : HumanApproval) × (approval ≡ some a) × (evidence ≡ some a.evidence_digest)

invalidated-NamesEvidence :
    (rt : Runtime) (approval : Option HumanApproval) (b : Option ApprovalBinding) (at : Text)
    (evidence : Option Text)
    → NamesEvidence approval evidence
    → NamesEvidence (invalidated_if_given rt approval b at) evidence
invalidated-NamesEvidence rt approval none at evidence h = h
invalidated-NamesEvidence rt approval (some b) at evidence (a, given, same) =
    let (x, becomes, kept) = invalidate-evidence rt a b at in
    (
      x,
      ap (λ o. invalidate_approval_when_evidence_changes rt o b at) given ∙ becomes,
      same ∙ ap some (sym kept),
    )

module _ (rt : Runtime) where
  valid_for-NamesEvidence :
      (s : ValidationSession) (o : Option ApprovalBinding)
      → current_binding s ≡ o
      → is_valid_for rt s.approval o ≡ true
      → NamesEvidence s.approval s.current_evidence_digest
  valid_for-NamesEvidence s none e h = cc
  valid_for-NamesEvidence s (some b) e h =
      let (a, given, to) = approval-IsBoundTo rt s.approval b h in
      (a, given, (current_binding-fields s b e).2 ∙ ap some (sym to.evidence))

  valid-NamesEvidence :
      (s : ValidationSession)
      → has_valid_approval rt s ≡ true
      → NamesEvidence s.approval s.current_evidence_digest
  unfolding has_valid_approval
  valid-NamesEvidence s h = valid_for-NamesEvidence s (current_binding s) refl h

  abbrev HasNamed : ValidationSession → Type 0
  HasNamed s = s.state ≡ revalidating → NamesEvidence s.approval s.current_evidence_digest

  attempt-HasNamed :
      (s : ValidationSession) (a : DaytonaAttemptInput) (at : Text)
      → HasNamed s
      → HasNamed (with_attempt s a at)
  attempt-HasNamed s a at ih = elim (with_attempt-cases s a at) [
    | inl f ↦ λ p. absurd (not_revalidating (sym f ∙ p))
    | inr e ↦ subst HasNamed (sym e) ih
  ]
    where
      not_revalidating : failed ≡ revalidating → ⊥
      not_revalidating h = cc

  awaiting_not_revalidating : awaiting_human_approval ≡ revalidating → ⊥
  awaiting_not_revalidating h = cc

  review-not-revalidating :
      (b : Bool) → (if b then review_passed else review_blocked) ≡ revalidating → ⊥
  review-not-revalidating true h = cc
  review-not-revalidating false h = cc

  Step-HasNamed :
      {s : ValidationSession} {at : Text} {e : WorkflowEvent} {t : ValidationSession}
      → Step rt s at e t
      → Reach rt s
      → HasNamed s
      → HasNamed t
  unfolding with_selection with_repair with_revalidation
  Step-HasNamed (starts q) reach ih = λ p. cc
  Step-HasNamed (ingests q) reach ih = λ p. cc
  Step-HasNamed (analyzes q) reach ih = λ p. cc
  Step-HasNamed (generates q g) reach ih = λ p. cc
  Step-HasNamed (provisions q g) reach ih = λ p. cc
  Step-HasNamed (builds q) reach ih = λ p. cc
  Step-HasNamed (tests q) reach ih = λ p. cc
  Step-HasNamed (scores q) reach ih = λ p. cc
  Step-HasNamed (selects q c g p d l) reach ih = λ p. cc
  Step-HasNamed (selects_live q c g p d l o x) reach ih = λ p. cc
  Step-HasNamed (approves q i c) reach ih = λ p. absurd (awaiting_not_revalidating (sym q ∙ p))
  Step-HasNamed (requests q g) reach ih = λ p. cc
  Step-HasNamed (publishes q g) reach ih = λ p. cc
  Step-HasNamed (reviews q g) reach ih = λ p. absurd (review-not-revalidating _ p)
  Step-HasNamed (starts_repair q) reach ih = λ p. cc
  Step-HasNamed {s = s} {at = at} (repairs q c d) reach ih = λ _.
      invalidated-NamesEvidence rt s.approval _ at s.current_evidence_digest
        (valid-NamesEvidence s (published-has_valid_approval rt s reach (ap is_published q)))
  Step-HasNamed (revalidates q g) reach ih = λ p. cc
  Step-HasNamed (marks_ready q g) reach ih = λ p. cc
  Step-HasNamed (completes q) reach ih = λ p. cc
  Step-HasNamed (fails alive) reach ih = λ p. cc
  Step-HasNamed (cancels alive) reach ih = λ p. cc
  Step-HasNamed {s = s} {at = at} (records {a} q g) reach ih = attempt-HasNamed s a at ih

  Reach-HasNamed : {s : ValidationSession} → Reach rt s → HasNamed s
  unfolding create_validation_session
  Reach-HasNamed (created input) = λ p. cc
  Reach-HasNamed (after r st) = Step-HasNamed st r (Reach-HasNamed r)

  -- The new evidence is not that of the approval.
  revalidated-is_unapproved :
      (s : ValidationSession) (r : FullRevalidationReceipt) (at : Text)
      → NamesEvidence s.approval s.current_evidence_digest
      → is_revalidation_refused rt s r ≡ false
      → has_valid_approval rt (with_revalidation rt s r at) ≡ true
      → ⊥
  unfolding with_revalidation
  revalidated-is_unapproved s r at named g v =
      let (a, given, same) =
        invalidated-NamesEvidence rt s.approval
          (revalidation_binding s r s.approval s.selected_candidate_id) at s.current_evidence_digest
          named in
      let (x, held, now) = valid-NamesEvidence (with_revalidation rt s r at) v in
      let one : x ≡ a = some_eq (sym held ∙ given) in
      let clash : some r.evidence_digest ≡ s.current_evidence_digest =
        now ∙ ap (λ y. some y.evidence_digest) one ∙ sym same in
      true≢false (
        sym (ap (λ o. some r.evidence_digest == o) (sym clash) ∙ ==-refl (some r.evidence_digest))
        ∙ (revalidation-facts rt s r g).3)

  revalidation-Step :
      (s : ValidationSession) (r : FullRevalidationReceipt) (at : Text) {t : ValidationSession}
      → Step rt s at (revalidation_passed r) t
      → (s.state ≡ revalidating)
        × (is_revalidation_refused rt s r ≡ false)
        × (t ≡ with_revalidation rt s r at)
  revalidation-Step s r at (revalidates q g) = (q, g, refl)

  -- A repair that has been validated cannot be published as it stands, whatever happened before: the
  -- approval that the session held named the evidence before the repair.
  pub revalidation_passed-publish_gate :
      (s t : ValidationSession) (r : FullRevalidationReceipt) (at : Text)
      → Reach rt s
      → transition_validation_session rt s (revalidation_passed r) at ≡ ok t
      → (t.state ≡ awaiting_human_approval)
        × (has_valid_approval rt t ≡ false)
        × ((can_create_or_update_pull_request rt t).0 ≡ false)
  unfolding with_revalidation
  revalidation_passed-publish_gate s t r at reach h =
      let (q, g, e) =
        revalidation-Step s r at (transition-Step rt s at (revalidation_passed r) h) in
      let no_approval = revalidated-is_unapproved s r at (Reach-HasNamed reach q) g in
      let invalid : has_valid_approval rt t ≡ false =
        not_true _ (λ v. no_approval (subst (λ u. has_valid_approval rt u ≡ true) e v)) in
      (
        ap (λ u. u.state) e,
        invalid,
        not_true _ (λ p. true≢false (sym (publish_gate-facts rt t p).2 ∙ invalid)),
      )

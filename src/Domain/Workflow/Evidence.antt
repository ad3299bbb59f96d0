-- ===== src/Domain/Workflow/Evidence.antt =====
-- In live mode the current patch and evidence come from a receipt whose gates have all passed
-- (CANDIDATE_SELECTED and REVALIDATION_PASSED in packages/domain/src/state-machine.ts).
use safecommit_ai.Domain.Revalidation.{every_gate_passed}
use safecommit_ai.Domain.Session.{
  DaytonaAttemptInput, ValidationSession, ValidationState, awaiting_coderabbit,
  awaiting_human_approval, completed, creating_pull_request, ready_to_merge,
  repairing_review_findings, review_blocked, review_passed,
}
use safecommit_ai.Domain.Types.{FullRevalidationReceipt}
use safecommit_ai.Domain.Workflow.Attempts.{with_attempt}
use safecommit_ai.Domain.Workflow.Events.{SelectedCandidate, WorkflowEvent}
use safecommit_ai.Domain.Workflow.Gates.{is_live}
use safecommit_ai.Domain.Workflow.History.{with_attempt-cases}
use safecommit_ai.Domain.Workflow.Outcome.{create_validation_session}
use safecommit_ai.Domain.Workflow.ReceiptFacts.{revalidation-facts, selection-parts}
use safecommit_ai.Domain.Workflow.Refusals.{is_revalidation_refused, is_selection_refused}
use safecommit_ai.Domain.Workflow.Repair.{with_repair, with_revalidation}
use safecommit_ai.Domain.Workflow.Selection.{with_selection}
use safecommit_ai.Domain.Workflow.Steps.{
  Reach, Step, after, analyzes, approves, builds, cancels, completes, created, fails, generates,
  ingests, marks_ready, provisions, publishes, records, repairs, requests, revalidates, reviews,
  scores, selects, selects_live, starts, starts_repair, tests,
}
use safecommit_ai.Prelude.{
  text_eq, !=-eq, Bool, Text, ap, false, inl, inr, refl, some, subst, sym, true, true≢false, ◌∙◌,
  ◌≡◌,
}
use safecommit_ai.Runtime.{Runtime}

-- The states in which the current evidence is that of the last validation.
abbrev pub is_validated : ValidationState → Bool
is_validated awaiting_human_approval = true
is_validated creating_pull_request = true
is_validated awaiting_coderabbit = true
is_validated review_blocked = true
is_validated review_passed = true
is_validated repairing_review_findings = true
is_validated ready_to_merge = true
is_validated completed = true
is_validated _ = false

-- The session's last receipt vouches for its candidate, patch, evidence and tree.
pub record IsVouched (s : ValidationSession) (r : FullRevalidationReceipt) : Type 0 where
  pub last : s.last_revalidation ≡ some r
  pub candidate : s.selected_candidate_id ≡ some r.candidate_id
  pub patch : s.current_patch_digest ≡ some r.patch_digest
  pub evidence : s.current_evidence_digest ≡ some r.evidence_digest
  pub tree : s.current_validated_tree_sha ≡ some r.validated_tree_sha
  pub session : r.session_id ≡ s.session_id
  pub policy : r.policy_version ≡ s.policy_version
  pub gates : every_gate_passed r ≡ true

module _ (rt : Runtime) where
  abbrev HasEvidence : ValidationSession → Type 0
  HasEvidence s =
      is_live s.mode ≡ true
      → is_validated s.state ≡ true
      → (r : FullRevalidationReceipt) × IsVouched s r

  selected-IsVouched :
      (s : ValidationSession) (e : SelectedCandidate) (r : FullRevalidationReceipt) (at : Text)
      → is_selection_refused rt s e r ≡ false
      → IsVouched (with_selection s e (some r) at) r
  unfolding with_selection
  selected-IsVouched s e r at g =
      let p = selection-parts rt s e r g in
      record {
        last = refl;
        candidate = ap some (sym (!=-eq r.candidate_id e.candidate_id p.2));
        patch = ap some (sym (!=-eq r.patch_digest e.patch_digest p.3));
        evidence = ap some (sym (!=-eq r.evidence_digest e.evidence_digest p.4));
        tree = refl;
        session = !=-eq r.session_id s.session_id p.0;
        policy = !=-eq r.policy_version s.policy_version p.1;
        gates = p.5;
      }

  revalidated-IsVouched :
      (s : ValidationSession) (r : FullRevalidationReceipt) (at : Text)
      → is_revalidation_refused rt s r ≡ false
      → IsVouched (with_revalidation rt s r at) r
  unfolding with_revalidation
  revalidated-IsVouched s r at g =
      let p = revalidation-facts rt s r g in
      record {
        last = refl;
        candidate = sym p.0;
        patch = refl;
        evidence = refl;
        tree = refl;
        session = p.1;
        policy = p.2;
        gates = p.5;
      }

  attempt-HasEvidence :
      (s : ValidationSession) (a : DaytonaAttemptInput) (at : Text)
      → HasEvidence s
      → HasEvidence (with_attempt s a at)
  attempt-HasEvidence s a at ih = elim (with_attempt-cases s a at) [
    | inl f ↦ λ l p. absurd (true≢false (sym p ∙ ap is_validated f))
    | inr e ↦ subst HasEvidence (sym e) (λ l p.
        let (r, v) = ih l p in
        (
          r,
          record {
            last = v.last;
            candidate = v.candidate;
            patch = v.patch;
            evidence = v.evidence;
            tree = v.tree;
            session = v.session;
            policy = v.policy;
            gates = v.gates;
          },
        ))
  ]

  -- The fields that matter stay, and the state before was one of those.
  keeps :
      (s t : ValidationSession)
      → HasEvidence s
      → is_validated s.state ≡ true
      → (t.mode ≡ s.mode)
        × (t.last_revalidation ≡ s.last_revalidation)
        × (t.selected_candidate_id ≡ s.selected_candidate_id)
        × (t.current_patch_digest ≡ s.current_patch_digest)
        × (t.current_evidence_digest ≡ s.current_evidence_digest)
        × (t.current_validated_tree_sha ≡ s.current_validated_tree_sha)
        × (t.session_id ≡ s.session_id)
        × (t.policy_version ≡ s.policy_version)
      → HasEvidence t
  keeps s t ih p same l q =
      let (r, v) = ih (ap is_live (sym same.0) ∙ l) p in
      (
        r,
        record {
          last = same.1 ∙ v.last;
          candidate = same.2 ∙ v.candidate;
          patch = same.3 ∙ v.patch;
          evidence = same.4 ∙ v.evidence;
          tree = same.5 ∙ v.tree;
          session = v.session ∙ sym same.6;
          policy = v.policy ∙ sym same.7;
          gates = v.gates;
        },
      )

  Step-HasEvidence :
      {s : ValidationSession} {at : Text} {e : WorkflowEvent} {t : ValidationSession}
      → Step rt s at e t
      → HasEvidence s
      → HasEvidence t
  unfolding with_selection with_repair with_revalidation
  Step-HasEvidence (starts q) ih = λ l p. cc
  Step-HasEvidence (ingests q) ih = λ l p. cc
  Step-HasEvidence (analyzes q) ih = λ l p. cc
  Step-HasEvidence (generates q g) ih = λ l p. cc
  Step-HasEvidence (provisions q g) ih = λ l p. cc
  Step-HasEvidence (builds q) ih = λ l p. cc
  Step-HasEvidence (tests q) ih = λ l p. cc
  Step-HasEvidence (scores q) ih = λ l p. cc
  Step-HasEvidence (selects q c g p d l) ih = λ x p. absurd (true≢false (sym x ∙ l))
  Step-HasEvidence {s = s} {at = at} (selects_live {e} {r} q c g p d l o x) ih =
      λ _ _. (r, selected-IsVouched s e r at x)
  Step-HasEvidence {s = s} {t = t} (approves q i c) ih =
      keeps s t ih (ap is_validated q) (refl, refl, refl, refl, refl, refl, refl, refl)
  Step-HasEvidence {s = s} {t = t} (requests q g) ih =
      keeps s t ih (ap is_validated q) (refl, refl, refl, refl, refl, refl, refl, refl)
  Step-HasEvidence {s = s} {t = t} (publishes q g) ih =
      keeps s t ih (ap is_validated q) (refl, refl, refl, refl, refl, refl, refl, refl)
  Step-HasEvidence {s = s} {t = t} (reviews q g) ih =
      keeps s t ih (ap is_validated q) (refl, refl, refl, refl, refl, refl, refl, refl)
  Step-HasEvidence {s = s} {t = t} (starts_repair q) ih =
      keeps s t ih (ap is_validated q) (refl, refl, refl, refl, refl, refl, refl, refl)
  Step-HasEvidence (repairs q c d) ih = λ l p. cc
  Step-HasEvidence {s = s} {at = at} (revalidates {r} q g) ih =
      λ _ _. (r, revalidated-IsVouched s r at g)
  Step-HasEvidence {s = s} {t = t} (marks_ready q g) ih =
      keeps s t ih (ap is_validated q) (refl, refl, refl, refl, refl, refl, refl, refl)
  Step-HasEvidence {s = s} {t = t} (completes q) ih =
      keeps s t ih (ap is_validated q) (refl, refl, refl, refl, refl, refl, refl, refl)
  Step-HasEvidence (fails alive) ih = λ l p. cc
  Step-HasEvidence (cancels alive) ih = λ l p. cc
  Step-HasEvidence {s = s} {at = at} (records {a} q g) ih = attempt-HasEvidence s a at ih

  Reach-HasEvidence : {s : ValidationSession} → Reach rt s → HasEvidence s
  unfolding create_validation_session
  Reach-HasEvidence (created input) = λ l p. cc
  Reach-HasEvidence (after r st) = Step-HasEvidence st (Reach-HasEvidence r)

  -- Whatever events came before, a live session that awaits approval, publishes, is reviewed or merged
  -- holds a receipt for its current candidate, patch, evidence, tree, session and policy that reports
  -- every gate as passed.
  pub validated-IsVouched :
      (s : ValidationSession)
      → Reach rt s
      → is_live s.mode ≡ true
      → is_validated s.state ≡ true
      → (r : FullRevalidationReceipt) × IsVouched s r
  validated-IsVouched s r = Reach-HasEvidence r

-- ===== src/Domain/Workflow/Mergeable.antt =====
-- What holds of a session that is ready to merge, or merged: `canEnterReadyToMerge` of
-- packages/domain/src/state-machine.ts.
use safecommit_ai.Domain.Approval.{ApprovalBinding, is_approval_valid}
use safecommit_ai.Domain.ReviewGate.{evaluate_code_rabbit_gate}
use safecommit_ai.Domain.Session.{
  DaytonaAttemptInput, ValidationSession, ValidationState, completed, ready_to_merge,
  review_blocked, review_passed, state_beq,
}
use safecommit_ai.Domain.Workflow.Attempts.{attempt_state, is_attempt_refused, with_attempt}
use safecommit_ai.Domain.Workflow.Events.{WorkflowEvent}
use safecommit_ai.Domain.Workflow.Gates.{
  can_enter_ready_to_merge, current_binding, has_clean_live_daytona_history, has_valid_approval,
  is_head_moved, is_receipt_unbound,
}
use safecommit_ai.Domain.Workflow.History.{with_attempt-cases}
use safecommit_ai.Domain.Workflow.Outcome.{create_validation_session}
use safecommit_ai.Domain.Workflow.Repair.{with_repair, with_revalidation}
use safecommit_ai.Domain.Workflow.Selection.{with_selection}
use safecommit_ai.Domain.Workflow.Steps.{
  Reach, Step, after, analyzes, approves, builds, cancels, completes, created, fails, generates,
  ingests, marks_ready, moved, provisions, publishes, records, repairs, requests, revalidates,
  reviews, scores, selects, selects_live, starts, starts_repair, tests,
}
use safecommit_ai.Prelude.{
  Bool, Option-cases, Text, ap, arith, false, if◌then◌else◌, inl, inr, none, refl, some, sym, true,
  true≢false, ◌∙◌, ◌≡◌,
}
use safecommit_ai.Runtime.{Runtime}

abbrev pub is_merged : ValidationState → Bool
is_merged ready_to_merge = true
is_merged completed = true
is_merged _ = false

review_not_merged : (b : Bool) → is_merged (if b then review_passed else review_blocked) ≡ true → ⊥
review_not_merged true h = cc
review_not_merged false h = cc

-- The gate without its test of the state, as a condition on the fields that later events leave alone.
pub record PassesGate (rt : Runtime) (s : ValidationSession) : Type 0 where
  pub review : (evaluate_code_rabbit_gate s.review_findings).passed ≡ true
  pub receipt : is_receipt_unbound s.pull_request s.review_receipt ≡ false
  pub approval : has_valid_approval rt s ≡ true
  pub head :
      (b : ApprovalBinding) × (current_binding s ≡ some b)
      × (is_approval_valid rt s.approval b ≡ true)
      × (is_head_moved s.pull_request b s.current_validated_tree_sha ≡ false)
  pub history : has_clean_live_daytona_history s ≡ true

module _ (rt : Runtime) (s : ValidationSession) where
  no_binding : current_binding s ≡ none → (can_enter_ready_to_merge rt s).0 ≡ true → ⊥
  unfolding can_enter_ready_to_merge
  no_binding e h = ground arith

  gate-PassesGate : (can_enter_ready_to_merge rt s).0 ≡ true → PassesGate rt s
  unfolding can_enter_ready_to_merge has_valid_approval
  gate-PassesGate h = elim (Option-cases (current_binding s)) [
    | inl e ↦ absurd (no_binding e h)
    | inr (b, e) ↦ record {
      review = ground arith;
      receipt = ground arith;
      approval = ground arith;
      head = (b, e, ground arith, ground arith);
      history = ground arith;
    }
  ]

  -- No attempt can be recorded in these states.
  merged_attempt :
      (a : DaytonaAttemptInput)
      → is_attempt_refused rt s a ≡ false
      → (b : Bool) → is_merged s.state ≡ b
      → b ≡ false
  unfolding is_attempt_refused attempt_state state_beq
  merged_attempt a g false e = refl
  merged_attempt a g true e = ground arith

module _ (rt : Runtime) where
  abbrev IsMergeReady : ValidationSession → Type 0
  IsMergeReady s = is_merged s.state ≡ true → PassesGate rt s

  attempt-IsMergeReady :
      (s : ValidationSession) (a : DaytonaAttemptInput) (at : Text)
      → is_attempt_refused rt s a ≡ false
      → IsMergeReady (with_attempt s a at)
  attempt-IsMergeReady s a at g p = elim (with_attempt-cases s a at) [
    | inl f ↦ absurd (true≢false (sym p ∙ ap is_merged f))
    | inr e ↦ absurd (
        true≢false (
          sym p ∙ ap (λ t. is_merged t.state) e ∙ merged_attempt rt s a g (is_merged s.state) refl))
  ]

  moved-PassesGate :
      (s : ValidationSession) (state : ValidationState) (at : Text)
      → PassesGate rt s
      → PassesGate rt (moved s state at)
  unfolding has_valid_approval current_binding has_clean_live_daytona_history
  moved-PassesGate s state at h = record {
    review = h.review;
    receipt = h.receipt;
    approval = h.approval;
    head = h.head;
    history = h.history;
  }

  Step-IsMergeReady :
      {s : ValidationSession} {at : Text} {e : WorkflowEvent} {t : ValidationSession}
      → Step rt s at e t
      → IsMergeReady s
      → IsMergeReady t
  unfolding with_selection with_repair with_revalidation
  Step-IsMergeReady (starts q) ih = λ p. cc
  Step-IsMergeReady (ingests q) ih = λ p. cc
  Step-IsMergeReady (analyzes q) ih = λ p. cc
  Step-IsMergeReady (generates q g) ih = λ p. cc
  Step-IsMergeReady (provisions q g) ih = λ p. cc
  Step-IsMergeReady (builds q) ih = λ p. cc
  Step-IsMergeReady (tests q) ih = λ p. cc
  Step-IsMergeReady (scores q) ih = λ p. cc
  Step-IsMergeReady (selects q c g p d l) ih = λ p. cc
  Step-IsMergeReady (selects_live q c g p d l o x) ih = λ p. cc
  Step-IsMergeReady (approves q i c) ih = λ p. absurd (true≢false (sym p ∙ ap is_merged q))
  Step-IsMergeReady (requests q g) ih = λ p. cc
  Step-IsMergeReady (publishes q g) ih = λ p. cc
  Step-IsMergeReady (reviews q g) ih = λ p. absurd (review_not_merged _ p)
  Step-IsMergeReady (starts_repair q) ih = λ p. cc
  Step-IsMergeReady (repairs q c d) ih = λ p. cc
  Step-IsMergeReady (revalidates q g) ih = λ p. cc
  Step-IsMergeReady {s = s} {at = at} (marks_ready q g) ih =
      λ _. moved-PassesGate s ready_to_merge at (gate-PassesGate rt s g)
  Step-IsMergeReady {s = s} {at = at} (completes q) ih =
      λ _. moved-PassesGate s completed at (ih (ap is_merged q))
  Step-IsMergeReady (fails alive) ih = λ p. cc
  Step-IsMergeReady (cancels alive) ih = λ p. cc
  Step-IsMergeReady {s = s} {at = at} (records {a} q g) ih = attempt-IsMergeReady s a at g

  pub Reach-IsMergeReady :
      (s : ValidationSession) → Reach rt s → is_merged s.state ≡ true → PassesGate rt s
  unfolding create_validation_session
  Reach-IsMergeReady s (created input) = λ p. cc
  Reach-IsMergeReady t (after {s} r st) = Step-IsMergeReady st (Reach-IsMergeReady s r)

-- ===== src/Domain/Workflow/Approved.antt =====
-- No session publishes or merges without a valid approval of what it has validated last
-- (packages/domain/src/state-machine.ts).
use safecommit_ai.Domain.Session.{
  DaytonaAttemptInput, ValidationSession, ValidationState, awaiting_coderabbit, completed,
  creating_pull_request, ready_to_merge, repairing_review_findings, review_blocked, review_passed,
}
use safecommit_ai.Domain.Workflow.Attempts.{with_attempt}
use safecommit_ai.Domain.Workflow.Events.{WorkflowEvent}
use safecommit_ai.Domain.Workflow.Gates.{
  can_create_or_update_pull_request, current_binding, has_clean_live_daytona_history, has_target,
  has_valid_approval,
}
use safecommit_ai.Domain.Workflow.History.{with_attempt-cases}
use safecommit_ai.Domain.Workflow.Outcome.{create_validation_session}
use safecommit_ai.Domain.Workflow.Repair.{with_repair, with_revalidation}
use safecommit_ai.Domain.Workflow.Selection.{with_selection}
use safecommit_ai.Domain.Workflow.Steps.{
  Reach, Step, after, analyzes, approves, builds, cancels, completes, created, fails, generates,
  ingests, marks_ready, provisions, publishes, records, repairs, requests, revalidates, reviews,
  scores, selects, selects_live, starts, starts_repair, tests,
}
use safecommit_ai.Prelude.{
  Bool, Text, ap, arith, false, inl, inr, subst, sym, true, true≢false, ◌∙◌, ◌≡◌,
}
use safecommit_ai.Runtime.{Runtime}

-- The states from the request of a pull request on, repair included, up to a new validation.
abbrev pub is_published : ValidationState → Bool
is_published creating_pull_request = true
is_published awaiting_coderabbit = true
is_published review_blocked = true
is_published review_passed = true
is_published repairing_review_findings = true
is_published ready_to_merge = true
is_published completed = true
is_published _ = false

module _ (rt : Runtime) where
  pub publish_gate-facts :
      (s : ValidationSession)
      → (can_create_or_update_pull_request rt s).0 ≡ true
      → (has_target s.pull_request_target ≡ true)
        × (has_clean_live_daytona_history s ≡ true)
        × (has_valid_approval rt s ≡ true)
  unfolding can_create_or_update_pull_request
  publish_gate-facts s h = ground arith

  abbrev IsApproved : ValidationSession → Type 0
  IsApproved s = is_published s.state ≡ true → has_valid_approval rt s ≡ true

  attempt-IsApproved :
      (s : ValidationSession) (a : DaytonaAttemptInput) (at : Text)
      → IsApproved s
      → IsApproved (with_attempt s a at)
  unfolding has_valid_approval current_binding
  attempt-IsApproved s a at ih = elim (with_attempt-cases s a at) [
    | inl f ↦ λ p. absurd (true≢false (sym p ∙ ap is_published f))
    | inr e ↦ subst IsApproved (sym e) ih
  ]

  Step-IsApproved :
      {s : ValidationSession} {at : Text} {e : WorkflowEvent} {t : ValidationSession}
      → Step rt s at e t
      → IsApproved s
      → IsApproved t
  unfolding has_valid_approval current_binding with_selection with_repair with_revalidation
  Step-IsApproved (starts q) ih = λ p. cc
  Step-IsApproved (ingests q) ih = λ p. cc
  Step-IsApproved (analyzes q) ih = λ p. cc
  Step-IsApproved (generates q g) ih = λ p. cc
  Step-IsApproved (provisions q g) ih = λ p. cc
  Step-IsApproved (builds q) ih = λ p. cc
  Step-IsApproved (tests q) ih = λ p. cc
  Step-IsApproved (scores q) ih = λ p. cc
  Step-IsApproved (selects q c g p d l) ih = λ p. cc
  Step-IsApproved (selects_live q c g p d l o x) ih = λ p. cc
  Step-IsApproved (approves q i c) ih = λ p. absurd (true≢false (sym p ∙ ap is_published q))
  Step-IsApproved (requests q g) ih = λ _. (publish_gate-facts _ g).2
  Step-IsApproved (publishes q g) ih = λ _. ih (ap is_published q)
  Step-IsApproved (reviews q g) ih = λ _. ih (ap is_published q)
  Step-IsApproved (starts_repair q) ih = λ _. ih (ap is_published q)
  Step-IsApproved (repairs q c d) ih = λ p. cc
  Step-IsApproved (revalidates q g) ih = λ p. cc
  Step-IsApproved (marks_ready q g) ih = λ _. ih (ap is_published q)
  Step-IsApproved (completes q) ih = λ _. ih (ap is_published q)
  Step-IsApproved (fails alive) ih = λ p. cc
  Step-IsApproved (cancels alive) ih = λ p. cc
  Step-IsApproved {s = s} {at = at} (records {a} q g) ih = attempt-IsApproved s a at ih

  Reach-IsApproved : {s : ValidationSession} → Reach rt s → IsApproved s
  unfolding create_validation_session
  Reach-IsApproved (created input) = λ p. cc
  Reach-IsApproved (after r st) = Step-IsApproved st (Reach-IsApproved r)

  -- Whatever events came before, a session that is publishing, under review, in repair or merged holds
  -- an approval that is valid for its candidate, patch, evidence, policy, commit and target.
  pub published-has_valid_approval :
      (s : ValidationSession)
      → Reach rt s
      → is_published s.state ≡ true
      → has_valid_approval rt s ≡ true
  published-has_valid_approval s r = Reach-IsApproved r

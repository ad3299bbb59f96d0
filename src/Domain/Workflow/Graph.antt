-- ===== src/Domain/Workflow/Graph.antt =====
-- The graph of the workflow's states (EXPECTED_EVENT, `transitionValidationSession` in
-- packages/domain/src/state-machine.ts).
use safecommit_ai.Domain.Session.{
  DaytonaAttemptInput, ValidationSession, ValidationState, analyzing_incident, awaiting_coderabbit,
  awaiting_human_approval, building, cancelled_by_human, completed, creating_pull_request, failed,
  generating_candidates, idle, ingesting_repository, provisioning_sandboxes, ready_to_merge,
  repairing_review_findings, revalidating, review_blocked, review_passed, running_tests, scoring,
  selecting,
}
use safecommit_ai.Domain.Workflow.Attempts.{with_attempt}
use safecommit_ai.Domain.Workflow.Completeness.{Step-transition}
use safecommit_ai.Domain.Workflow.Events.{WorkflowEvent, is_terminal}
use safecommit_ai.Domain.Workflow.History.{with_attempt-cases}
use safecommit_ai.Domain.Workflow.Repair.{with_repair, with_revalidation}
use safecommit_ai.Domain.Workflow.Selection.{with_selection}
use safecommit_ai.Domain.Workflow.Soundness.{transition-Step}
use safecommit_ai.Domain.Workflow.Steps.{
  Step, analyzes, approves, builds, cancels, completes, fails, generates, ingests, marks_ready,
  provisions, publishes, records, repairs, requests, revalidates, reviews, scores, selects,
  selects_live, starts, starts_repair, tests,
}
use safecommit_ai.Domain.Workflow.Transition.{transition_validation_session}
use safecommit_ai.Prelude.{
  Bool, Text, false, if◌then◌else◌, inl, inr, ok, subst, sym, true, ◌↔◌, ◌≡◌, ◌⊎◌,
}
use safecommit_ai.Runtime.{Runtime}

-- An edge for each way that an accepted event can take the state, with the record of an attempt, which
-- leaves the state or fails the session, and a new approval, which leaves it.
infix 40 ◌⟶◌
pub data ◌⟶◌ : ValidationState → ValidationState → Type 0 where
  begin : idle ⟶ ingesting_repository
  ingest : ingesting_repository ⟶ analyzing_incident
  analyze : analyzing_incident ⟶ generating_candidates
  generate : generating_candidates ⟶ provisioning_sandboxes
  provision : provisioning_sandboxes ⟶ building
  build : building ⟶ running_tests
  test : running_tests ⟶ scoring
  score : scoring ⟶ selecting
  select : selecting ⟶ awaiting_human_approval
  request : awaiting_human_approval ⟶ creating_pull_request
  publish : creating_pull_request ⟶ awaiting_coderabbit
  pass : awaiting_coderabbit ⟶ review_passed
  block : awaiting_coderabbit ⟶ review_blocked
  start_repair : review_blocked ⟶ repairing_review_findings
  finish_repair : repairing_review_findings ⟶ revalidating
  revalidate : revalidating ⟶ awaiting_human_approval
  mark_ready : review_passed ⟶ ready_to_merge
  finish : ready_to_merge ⟶ completed
  stay : {x : ValidationState} → x ⟶ x
  give_up : {x : ValidationState} → is_terminal x ≡ false → x ⟶ failed
  stop_run : {x : ValidationState} → is_terminal x ≡ false → x ⟶ cancelled_by_human

from : {x y z : ValidationState} → x ≡ y → y ⟶ z → x ⟶ z
from {z = z} q e = subst (λ w. w ⟶ z) (sym q) e

review_edge : (b : Bool) → awaiting_coderabbit ⟶ (if b then review_passed else review_blocked)
review_edge true = pass
review_edge false = block

attempt_edge :
    (s : ValidationSession) (a : DaytonaAttemptInput) (at : Text)
    → (is_terminal s.state ≡ false) ⊎ (s.state ≡ failed)
    → s.state ⟶ (with_attempt s a at).state
attempt_edge s a at from_state = elim (with_attempt-cases s a at) [
  | inl f ↦
      subst (λ y. s.state ⟶ y) (sym f)
        (elim from_state [ inl alive ↦ give_up alive | inr g ↦ subst (λ y. s.state ⟶ y) g stay ])
  | inr e ↦ subst (λ t. s.state ⟶ t.state) (sym e) stay
]

Step-⟶ :
    {rt : Runtime} {s : ValidationSession} {at : Text} {e : WorkflowEvent} {t : ValidationSession}
    → Step rt s at e t
    → s.state ⟶ t.state
unfolding with_selection with_repair with_revalidation
Step-⟶ (starts q) = from q begin
Step-⟶ (ingests q) = from q ingest
Step-⟶ (analyzes q) = from q analyze
Step-⟶ (generates q g) = from q generate
Step-⟶ (provisions q g) = from q provision
Step-⟶ (builds q) = from q build
Step-⟶ (tests q) = from q test
Step-⟶ (scores q) = from q score
Step-⟶ (selects q c g p d l) = from q select
Step-⟶ (selects_live q c g p d l o x) = from q select
Step-⟶ (approves q i c) = stay
Step-⟶ (requests q g) = from q request
Step-⟶ (publishes q g) = from q publish
Step-⟶ (reviews q g) = from q (review_edge _)
Step-⟶ (starts_repair q) = from q start_repair
Step-⟶ (repairs q c d) = from q finish_repair
Step-⟶ (revalidates q g) = from q revalidate
Step-⟶ (marks_ready q g) = from q mark_ready
Step-⟶ (completes q) = from q finish
Step-⟶ (fails alive) = give_up alive
Step-⟶ (cancels alive) = stop_run alive
Step-⟶ {s = s} {at = at} (records {a} q g) = attempt_edge s a at q

-- An accepted event takes the state along an edge of the graph.
pub transition-⟶ :
    (rt : Runtime) (s t : ValidationSession) (e : WorkflowEvent) (at : Text)
    → transition_validation_session rt s e at ≡ ok t
    → s.state ⟶ t.state
transition-⟶ rt s t e at h = Step-⟶ (transition-Step rt s at e h)

-- The code accepts an event exactly where the relation of the steps has one, with the same session.
pub transition-Step_iff :
    (rt : Runtime) (s t : ValidationSession) (e : WorkflowEvent) (at : Text)
    → (transition_validation_session rt s e at ≡ ok t) ↔ Step rt s at e t
transition-Step_iff rt s t e at = (transition-Step rt s at e, Step-transition rt s at)

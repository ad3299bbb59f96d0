-- ===== src/Domain/Workflow/Soundness/ByState.antt =====
-- For each state of the workflow: an event that `transitionValidationSession` accepts there is a step of
-- the relation (packages/domain/src/state-machine.ts).
use safecommit_ai.Domain.Session.{
  ValidationSession, ValidationState, analyzing_incident, building, cancelled_by_human, completed,
  creating_pull_request, failed, generating_candidates, idle, ingesting_repository,
  provisioning_sandboxes, ready_to_merge, revalidating, review_blocked, running_tests, scoring,
}
use safecommit_ai.Domain.Workflow.Events.{
  WorkflowEvent, builds_finished, candidates_generated, complete, incident_analyzed, is_terminal,
  pr_created_or_updated, repair_started, repository_ingested, revalidation_passed,
  sandboxes_provisioned, scoring_finished, start, tests_finished,
}
use safecommit_ai.Domain.Workflow.Refusals.{is_revalidation_refused}
use safecommit_ai.Domain.Workflow.Repair.{is_pull_request_refused}
use safecommit_ai.Domain.Workflow.Selection.{are_candidates_refused, is_sandbox_map_refused}
use safecommit_ai.Domain.Workflow.Steps.{
  Step, analyzes, builds, completes, generates, ingests, provisions, publishes, revalidates, scores,
  starts, starts_repair, tests,
}
use safecommit_ai.Domain.Workflow.Transition.{on_state}
use safecommit_ai.Prelude.{Text, ok, returns_ok, returns_unless, true, ◌≡◌}
use safecommit_ai.Runtime.{Runtime}

module _ (rt : Runtime) (s : ValidationSession) (at : Text) where
  pub idle-Step :
      (e : WorkflowEvent) {t : ValidationSession}
      → s.state ≡ idle
      → on_state rt idle s e at ≡ ok t
      → Step rt s at e t
  unfolding on_state
  idle-Step start q h = returns_ok (Step rt s at start) (starts q) h
  idle-Step _ q h = cc

  pub ingesting_repository-Step :
      (e : WorkflowEvent) {t : ValidationSession}
      → s.state ≡ ingesting_repository
      → on_state rt ingesting_repository s e at ≡ ok t
      → Step rt s at e t
  unfolding on_state
  ingesting_repository-Step repository_ingested q h =
      returns_ok (Step rt s at repository_ingested) (ingests q) h
  ingesting_repository-Step _ q h = cc

  pub analyzing_incident-Step :
      (e : WorkflowEvent) {t : ValidationSession}
      → s.state ≡ analyzing_incident
      → on_state rt analyzing_incident s e at ≡ ok t
      → Step rt s at e t
  unfolding on_state
  analyzing_incident-Step incident_analyzed q h =
      returns_ok (Step rt s at incident_analyzed) (analyzes q) h
  analyzing_incident-Step _ q h = cc

  pub building-Step :
      (e : WorkflowEvent) {t : ValidationSession}
      → s.state ≡ building
      → on_state rt building s e at ≡ ok t
      → Step rt s at e t
  unfolding on_state
  building-Step builds_finished q h = returns_ok (Step rt s at builds_finished) (builds q) h
  building-Step _ q h = cc

  pub running_tests-Step :
      (e : WorkflowEvent) {t : ValidationSession}
      → s.state ≡ running_tests
      → on_state rt running_tests s e at ≡ ok t
      → Step rt s at e t
  unfolding on_state
  running_tests-Step tests_finished q h = returns_ok (Step rt s at tests_finished) (tests q) h
  running_tests-Step _ q h = cc

  pub scoring-Step :
      (e : WorkflowEvent) {t : ValidationSession}
      → s.state ≡ scoring
      → on_state rt scoring s e at ≡ ok t
      → Step rt s at e t
  unfolding on_state
  scoring-Step scoring_finished q h = returns_ok (Step rt s at scoring_finished) (scores q) h
  scoring-Step _ q h = cc

  pub review_blocked-Step :
      (e : WorkflowEvent) {t : ValidationSession}
      → s.state ≡ review_blocked
      → on_state rt review_blocked s e at ≡ ok t
      → Step rt s at e t
  unfolding on_state
  review_blocked-Step repair_started q h =
      returns_ok (Step rt s at repair_started) (starts_repair q) h
  review_blocked-Step _ q h = cc

  pub ready_to_merge-Step :
      (e : WorkflowEvent) {t : ValidationSession}
      → s.state ≡ ready_to_merge
      → on_state rt ready_to_merge s e at ≡ ok t
      → Step rt s at e t
  unfolding on_state
  ready_to_merge-Step complete q h = returns_ok (Step rt s at complete) (completes q) h
  ready_to_merge-Step _ q h = cc

  pub generating_candidates-Step :
      (e : WorkflowEvent) {t : ValidationSession}
      → s.state ≡ generating_candidates
      → on_state rt generating_candidates s e at ≡ ok t
      → Step rt s at e t
  unfolding on_state
  generating_candidates-Step (candidates_generated ids) q h =
      returns_unless (Step rt s at (candidates_generated ids))
        (are_candidates_refused s.run_kind ids) _ (generates q) h
  generating_candidates-Step _ q h = cc

  pub provisioning_sandboxes-Step :
      (e : WorkflowEvent) {t : ValidationSession}
      → s.state ≡ provisioning_sandboxes
      → on_state rt provisioning_sandboxes s e at ≡ ok t
      → Step rt s at e t
  unfolding on_state
  provisioning_sandboxes-Step (sandboxes_provisioned m) q h =
      returns_unless (Step rt s at (sandboxes_provisioned m)) (is_sandbox_map_refused s m) _
        (provisions q) h
  provisioning_sandboxes-Step _ q h = cc

  pub creating_pull_request-Step :
      (e : WorkflowEvent) {t : ValidationSession}
      → s.state ≡ creating_pull_request
      → on_state rt creating_pull_request s e at ≡ ok t
      → Step rt s at e t
  unfolding on_state
  creating_pull_request-Step (pr_created_or_updated pr) q h =
      returns_unless (Step rt s at (pr_created_or_updated pr)) (is_pull_request_refused rt s pr) _
        (publishes q) h
  creating_pull_request-Step _ q h = cc

  pub revalidating-Step :
      (e : WorkflowEvent) {t : ValidationSession}
      → s.state ≡ revalidating
      → on_state rt revalidating s e at ≡ ok t
      → Step rt s at e t
  unfolding on_state
  revalidating-Step (revalidation_passed r) q h =
      returns_unless (Step rt s at (revalidation_passed r)) (is_revalidation_refused rt s r) _
        (revalidates q) h
  revalidating-Step _ q h = cc

  pub terminal-Step :
      (state : ValidationState) (e : WorkflowEvent) {t : ValidationSession}
      → is_terminal state ≡ true
      → on_state rt state s e at ≡ ok t
      → Step rt s at e t
  unfolding on_state is_terminal
  terminal-Step completed e q h = cc
  terminal-Step failed e q h = cc
  terminal-Step cancelled_by_human e q h = cc
  terminal-Step _ e q h = cc

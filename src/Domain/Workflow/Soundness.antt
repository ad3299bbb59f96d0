-- ===== src/Domain/Workflow/Soundness.antt =====
-- Every transition that the code accepts is a step of the relation
-- (packages/domain/src/state-machine.ts).
mod ByState
mod Guarded
use safecommit_ai.Domain.Session.{
  ValidationSession, ValidationState, analyzing_incident, awaiting_coderabbit,
  awaiting_human_approval, building, cancelled_by_human, completed, creating_pull_request, failed,
  generating_candidates, idle, ingesting_repository, provisioning_sandboxes, ready_to_merge,
  repairing_review_findings, revalidating, review_blocked, review_passed, running_tests, scoring,
  selecting, state_beq_iff, state_eq,
}
use safecommit_ai.Domain.Workflow.Attempts.{is_attempt_refused}
use safecommit_ai.Domain.Workflow.Events.{
  WorkflowEvent, cancel, daytona_attempt_recorded, daytona_attempt_recorded_type, event_type,
  event_type_beq_iff, event_type_eq, fail, is_terminal,
}
use safecommit_ai.Domain.Workflow.Soundness.ByState.{
  analyzing_incident-Step, building-Step, creating_pull_request-Step, generating_candidates-Step,
  idle-Step, ingesting_repository-Step, provisioning_sandboxes-Step, ready_to_merge-Step,
  revalidating-Step, review_blocked-Step, running_tests-Step, scoring-Step, terminal-Step,
}
use safecommit_ai.Domain.Workflow.Soundness.Guarded.{
  awaiting_coderabbit-Step, awaiting_human_approval-Step, repairing_review_findings-Step,
  review_passed-Step, selecting-Step,
}
use safecommit_ai.Domain.Workflow.Steps.{Step, cancels, fails, records}
use safecommit_ai.Domain.Workflow.Transition.{on_event, on_state, transition_validation_session}
use safecommit_ai.Prelude.{
  Text, arith, bool_eq, false, inl, inr, nat_eq, not, ok, option_eq, refl, returns_ok,
  returns_unless, text_eq, throw_if-eq-ok, ◌&&◌, ◌==◌, ◌≡◌, ◌⊎◌,
}
use safecommit_ai.Runtime.{Runtime}

module _ (rt : Runtime) (s : ValidationSession) (at : Text) where
  on_state-Step :
      (state : ValidationState) (e : WorkflowEvent) {t : ValidationSession}
      → s.state ≡ state
      → on_state rt state s e at ≡ ok t
      → Step rt s at e t
  unfolding is_terminal
  on_state-Step idle e = idle-Step rt s at e
  on_state-Step ingesting_repository e = ingesting_repository-Step rt s at e
  on_state-Step analyzing_incident e = analyzing_incident-Step rt s at e
  on_state-Step generating_candidates e = generating_candidates-Step rt s at e
  on_state-Step provisioning_sandboxes e = provisioning_sandboxes-Step rt s at e
  on_state-Step building e = building-Step rt s at e
  on_state-Step running_tests e = running_tests-Step rt s at e
  on_state-Step scoring e = scoring-Step rt s at e
  on_state-Step selecting e = selecting-Step rt s at e
  on_state-Step awaiting_human_approval e = awaiting_human_approval-Step rt s at e
  on_state-Step creating_pull_request e = creating_pull_request-Step rt s at e
  on_state-Step awaiting_coderabbit e = awaiting_coderabbit-Step rt s at e
  on_state-Step review_blocked e = review_blocked-Step rt s at e
  on_state-Step review_passed e = review_passed-Step rt s at e
  on_state-Step repairing_review_findings e = repairing_review_findings-Step rt s at e
  on_state-Step revalidating e = revalidating-Step rt s at e
  on_state-Step ready_to_merge e = ready_to_merge-Step rt s at e
  on_state-Step completed e = λ q h. terminal-Step rt s at completed e refl h
  on_state-Step failed e = λ q h. terminal-Step rt s at failed e refl h
  on_state-Step cancelled_by_human e = λ q h. terminal-Step rt s at cancelled_by_human e refl h

  -- An event that is handled before the states.
  on_event-Step :
      (e : WorkflowEvent) {t : ValidationSession}
      → is_terminal s.state ≡ false
      → on_event rt s e at ≡ ok t
      → Step rt s at e t
  unfolding on_event
  on_event-Step (fail reason recoverable retry) alive h =
      returns_ok (Step rt s at (fail reason recoverable retry)) (fails alive) h
  on_event-Step cancel alive h = returns_ok (Step rt s at cancel) (cancels alive) h
  on_event-Step (daytona_attempt_recorded a) alive h =
      returns_unless (Step rt s at (daytona_attempt_recorded a)) (is_attempt_refused rt s a) _
        (records (inl alive)) h
  on_event-Step e alive h = on_state-Step s.state e refl h

  -- A failed session accepts the record of an attempt, and a terminal one nothing else.
  terminal_attempt-Step :
      (e : WorkflowEvent) {t : ValidationSession}
      → s.state ≡ failed
      → event_type e ≡ daytona_attempt_recorded_type
      → on_event rt s e at ≡ ok t
      → Step rt s at e t
  unfolding on_event event_type
  terminal_attempt-Step (daytona_attempt_recorded a) f k h =
      returns_unless (Step rt s at (daytona_attempt_recorded a)) (is_attempt_refused rt s a) _
        (records (inr f)) h
  terminal_attempt-Step _ f k h = cc

  -- The event is let through to the handlers.
  passed_entry :
      (e : WorkflowEvent)
      → (is_terminal s.state
          && not (s.state == failed && event_type e == daytona_attempt_recorded_type))
        ≡ false
      → (is_terminal s.state ≡ false)
        ⊎ ((s.state ≡ failed) × (event_type e ≡ daytona_attempt_recorded_type))
  passed_entry e h = ground (
    arith,
    state_beq_iff s.state failed,
    event_type_beq_iff (event_type e) daytona_attempt_recorded_type,
  )

  pub transition-Step :
      (e : WorkflowEvent) {t : ValidationSession}
      → transition_validation_session rt s e at ≡ ok t
      → Step rt s at e t
  unfolding transition_validation_session
  transition-Step e h =
      let (entered, rest) = throw_if-eq-ok _ _ _ h in
      elim (passed_entry e entered) [
        | inl alive ↦ on_event-Step e alive rest
        | inr p ↦ terminal_attempt-Step e p.0 p.1 rest
      ]

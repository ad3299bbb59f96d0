-- ===== src/Domain/Workflow/Runs.antt =====
-- Sequences of events under `transitionValidationSession` (packages/domain/src/state-machine.ts).
use safecommit_ai.Domain.Session.{ValidationSession}
use safecommit_ai.Domain.Workflow.Events.{WorkflowEvent}
use safecommit_ai.Domain.Workflow.Outcome.{Outcome}
use safecommit_ai.Domain.Workflow.Soundness.{transition-Step}
use safecommit_ai.Domain.Workflow.Steps.{Reach, after}
use safecommit_ai.Domain.Workflow.Transition.{transition_validation_session}
use safecommit_ai.Prelude.{>>=-eq-ok, List, Text, [], ok, ok_injective, subst, ◌>>=◌, ◌∷◌, ◌≡◌}
use safecommit_ai.Runtime.{Runtime}

module _ (rt : Runtime) where
  -- The session after the events, each with its time, or the error of the first that is refused.
  unfoldable pub run_events : ValidationSession → List (WorkflowEvent × Text) → Outcome
  unfolding transition_validation_session
  run_events s [] = ok s
  run_events s (e ∷ es) = transition_validation_session rt s e.0 e.1 >>= λ t. run_events t es

  pub run_events-Reach :
      (s t : ValidationSession) (es : List (WorkflowEvent × Text))
      → Reach rt s
      → run_events s es ≡ ok t
      → Reach rt t
  unfolding run_events
  run_events-Reach s t [] r h = subst (Reach rt) (ok_injective h) r
  run_events-Reach s t (e ∷ es) r h =
      let (u, then_on, first) =
        >>=-eq-ok (transition_validation_session rt s e.0 e.1) (λ v. run_events v es) h in
      run_events-Reach u t es (after r (transition-Step rt s e.1 e.0 first)) then_on

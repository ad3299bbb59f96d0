-- ===== src/Examples/Steps.antt =====
-- The theorems on single transitions, on concrete sessions and events.
use safecommit_ai.Domain.Session.{
  DaytonaAttemptRecord, ValidationSession, failed, initial_candidate,
}
use safecommit_ai.Domain.Workflow.Attempts.{with_attempt}
use safecommit_ai.Domain.Workflow.Events.{
  WorkflowEvent, daytona_attempt_recorded, daytona_attempt_recorded_type, event_type,
}
use safecommit_ai.Domain.Workflow.Graph.{transition-Step_iff, transition-⟶, ◌⟶◌}
use safecommit_ai.Domain.Workflow.History.{transition-history-Extends}
use safecommit_ai.Domain.Workflow.Steps.{Step}
use safecommit_ai.Domain.Workflow.Terminal.{terminal-transition}
use safecommit_ai.Domain.Workflow.Transition.{transition_validation_session}
use safecommit_ai.Examples.LiveRun.{failed_session, provisioning_session}
use safecommit_ai.Examples.Platform.{toy}
use safecommit_ai.Examples.Receipts.{attempt}
use safecommit_ai.Prelude.{List, [], length, ok, refl, ◌++◌, ◌↔◌, ◌≡◌, ◌≢◌, ◌≤◌}
use safecommit_ai.Text.{codes}

first_attempt : WorkflowEvent
first_attempt = daytona_attempt_recorded (attempt (codes "s1") (codes "r1") initial_candidate)

-- The session that records the attempt.
recorded : ValidationSession → ValidationSession
unfolding with_attempt
recorded s = with_attempt s (attempt (codes "s1") (codes "r1") initial_candidate) (codes "t")

transition-history-Extends_example :
    (zs : List DaytonaAttemptRecord) × ((recorded provisioning_session).sandbox_attempt_history
      ≡ provisioning_session.sandbox_attempt_history ++ zs)
    × (length zs ≤ 1)
    × (event_type first_attempt ≢ daytona_attempt_recorded_type → zs ≡ [])
unfolding provisioning_session recorded first_attempt
transition-history-Extends_example =
    transition-history-Extends toy provisioning_session (recorded provisioning_session)
      first_attempt (codes "t") refl

transition-⟶_example : provisioning_session.state ⟶ (recorded provisioning_session).state
unfolding provisioning_session recorded first_attempt
transition-⟶_example =
    transition-⟶ toy provisioning_session (recorded provisioning_session) first_attempt (codes "t")
      refl

transition-Step_iff_example :
    (transition_validation_session toy provisioning_session first_attempt (codes "t")
      ≡ ok (recorded provisioning_session))
    ↔ Step toy provisioning_session (codes "t") first_attempt (recorded provisioning_session)
transition-Step_iff_example =
    transition-Step_iff toy provisioning_session (recorded provisioning_session) first_attempt
      (codes "t")

terminal-transition_example :
    (failed_session.state ≡ failed)
    × ((recorded failed_session).state ≡ failed)
    × (event_type first_attempt ≡ daytona_attempt_recorded_type)
    × ((recorded failed_session).approval ≡ failed_session.approval)
    × ((recorded failed_session).pull_request ≡ failed_session.pull_request)
unfolding failed_session recorded first_attempt
terminal-transition_example =
    terminal-transition toy failed_session (recorded failed_session) first_attempt (codes "t") refl
      refl

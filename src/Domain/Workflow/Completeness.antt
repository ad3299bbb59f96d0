-- ===== src/Domain/Workflow/Completeness.antt =====
-- Every step of the relation is accepted by the code
-- (packages/domain/src/state-machine.ts).
use safecommit_ai.Domain.Session.{
  DaytonaAttemptInput, ValidationSession, ValidationState, analyzing_incident, awaiting_coderabbit,
  awaiting_human_approval, building, creating_pull_request, failed, generating_candidates, idle,
  ingesting_repository, provisioning_sandboxes, ready_to_merge, repairing_review_findings,
  revalidating, review_blocked, review_passed, running_tests, scoring, selecting, state_eq,
}
use safecommit_ai.Domain.Types.{FullRevalidationReceipt, HumanApproval}
use safecommit_ai.Domain.Workflow.Events.{
  SelectedCandidate, WorkflowEvent, approval_recorded, builds_finished, cancel, candidate_selected,
  candidates_generated, complete, daytona_attempt_recorded, event_type, event_type_beq, fail,
  incident_analyzed, is_terminal, mark_ready_to_merge, pr_created_or_updated, pr_creation_requested,
  repair_generated, repair_started, repository_ingested, revalidation_passed,
  review_findings_received, sandboxes_provisioned, scoring_finished, start, tests_finished,
}
use safecommit_ai.Domain.Workflow.Refusals.{is_selection_refused}
use safecommit_ai.Domain.Workflow.Selection.{with_live_selection, with_selection}
use safecommit_ai.Domain.Workflow.Steps.{
  Step, analyzes, approves, builds, cancels, completes, fails, generates, ingests, marks_ready,
  provisions, publishes, records, repairs, requests, revalidates, reviews, scores, selects,
  selects_live, starts, starts_repair, tests,
}
use safecommit_ai.Domain.Workflow.Transition.{on_event, on_state, transition_validation_session}
use safecommit_ai.Prelude.{
  Text, ap, arith, bool_eq, false, inl, inr, nat_eq, not, ok, option_beq_iff, option_eq, refl, some,
  text_beq_iff, text_eq, true, ◌!=◌, ◌&&◌, ◌==◌, ◌||◌, ◌∙◌, ◌≡◌,
}
use safecommit_ai.Runtime.{Runtime}

module _ (rt : Runtime) (s : ValidationSession) (at : Text) where
  entered :
      (e : WorkflowEvent)
      → is_terminal s.state ≡ false
      → transition_validation_session rt s e at ≡ on_event rt s e at
  unfolding transition_validation_session
  entered e alive = rw alive refl

  live_selected :
      (e : SelectedCandidate) (r : FullRevalidationReceipt)
      → e.receipt ≡ some r
      → is_selection_refused rt s e r ≡ false
      → with_live_selection rt s e e.receipt at ≡ ok (with_selection s e (some r) at)
  unfolding with_live_selection
  live_selected e r o g = ap (λ x. with_live_selection rt s e x at) o ∙ rw g refl

  approval_fits :
      (a : HumanApproval)
      → a.session_id ≡ s.session_id
      → some a.candidate_id ≡ s.selected_candidate_id
      → (a.session_id != s.session_id || some a.candidate_id != s.selected_candidate_id) ≡ false
  approval_fits a i c = ground (
    arith,
    text_beq_iff a.session_id s.session_id,
    option_beq_iff (some a.candidate_id) s.selected_candidate_id,
  )

  after_failure :
      (a : DaytonaAttemptInput)
      → s.state ≡ failed
      → transition_validation_session rt s (daytona_attempt_recorded a) at
        ≡ on_event rt s (daytona_attempt_recorded a) at
  unfolding transition_validation_session event_type event_type_beq
  after_failure a f =
      let open_entry : (is_terminal s.state && not (s.state == failed && true)) ≡ false =
        ap (λ x. is_terminal x && not (x == failed && true)) f in
      rw open_entry refl

  -- An event that goes to the handler of a state that is not terminal.
  by_state :
      (e : WorkflowEvent) (state : ValidationState) {t : ValidationSession}
      → s.state ≡ state
      → is_terminal state ≡ false
      → on_event rt s e at ≡ on_state rt s.state s e at
      → on_state rt state s e at ≡ ok t
      → transition_validation_session rt s e at ≡ ok t
  unfolding transition_validation_session
  by_state e state q alive routed h =
      rw (ap is_terminal q ∙ alive) (routed ∙ ap (λ x. on_state rt x s e at) q ∙ h)

  pub Step-transition :
      {e : WorkflowEvent} {t : ValidationSession}
      → Step rt s at e t
      → transition_validation_session rt s e at ≡ ok t
  unfolding on_event is_terminal
  Step-transition (starts q) = by_state start idle q refl refl refl
  Step-transition (ingests q) = by_state repository_ingested ingesting_repository q refl refl refl
  Step-transition (analyzes q) = by_state incident_analyzed analyzing_incident q refl refl refl
  Step-transition (generates {ids} q g) =
      by_state (candidates_generated ids) generating_candidates q refl refl (rw g)
  Step-transition (provisions {entries} q g) =
      by_state (sandboxes_provisioned entries) provisioning_sandboxes q refl refl (rw g)
  Step-transition (builds q) = by_state builds_finished building q refl refl refl
  Step-transition (tests q) = by_state tests_finished running_tests q refl refl refl
  Step-transition (scores q) = by_state scoring_finished scoring q refl refl refl
  Step-transition (selects {e} q c g p d l) =
      by_state (candidate_selected e) selecting q refl refl (rw (c, g, p, d, l))
  Step-transition (selects_live {e} q c g p d l o h) =
      by_state (candidate_selected e) selecting q refl refl
        (rw (c, g, p, d, l) (live_selected e _ o h))
  Step-transition (approves {a} q i c) =
      by_state (approval_recorded a) awaiting_human_approval q refl refl (rw (approval_fits a i c))
  Step-transition (requests q g) =
      by_state pr_creation_requested awaiting_human_approval q refl refl (rw g)
  Step-transition (publishes {pr} q g) =
      by_state (pr_created_or_updated pr) creating_pull_request q refl refl (rw g)
  Step-transition (reviews {findings} {r} q g) =
      by_state (review_findings_received findings r) awaiting_coderabbit q refl refl (rw g)
  Step-transition (starts_repair q) = by_state repair_started review_blocked q refl refl refl
  Step-transition (repairs {candidate} {patch} q c d) =
      by_state (repair_generated candidate patch) repairing_review_findings q refl refl (rw (c, d))
  Step-transition (revalidates {r} q g) =
      by_state (revalidation_passed r) revalidating q refl refl (rw g)
  Step-transition (marks_ready q g) = by_state mark_ready_to_merge review_passed q refl refl (rw g)
  Step-transition (completes q) = by_state complete ready_to_merge q refl refl refl
  Step-transition (fails {reason} {recoverable} {retry} alive) =
      entered (fail reason recoverable retry) alive
  Step-transition (cancels alive) = entered cancel alive
  Step-transition (records {a} (inl alive) g) =
      entered (daytona_attempt_recorded a) alive ∙ rw g refl
  Step-transition (records {a} (inr f) g) = after_failure a f ∙ rw g refl

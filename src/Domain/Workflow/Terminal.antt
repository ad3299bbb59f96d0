-- ===== src/Domain/Workflow/Terminal.antt =====
-- The ends of the workflow: TERMINAL_STATES, FAIL and CANCEL
-- (packages/domain/src/state-machine.ts).
use safecommit_ai.Domain.Session.{ValidationSession, failed}
use safecommit_ai.Domain.Workflow.Attempts.{with_attempt}
use safecommit_ai.Domain.Workflow.Events.{
  WorkflowEvent, daytona_attempt_recorded_type, event_type, is_terminal,
}
use safecommit_ai.Domain.Workflow.Soundness.{transition-Step}
use safecommit_ai.Domain.Workflow.Steps.{
  Step, analyzes, approves, builds, cancels, completes, fails, generates, ingests, marks_ready,
  provisions, publishes, records, repairs, requests, revalidates, reviews, scores, selects,
  selects_live, starts, starts_repair, tests,
}
use safecommit_ai.Domain.Workflow.Transition.{transition_validation_session}
use safecommit_ai.Prelude.{Text, ap, arith, inl, inr, ok, refl, sym, true, true≢false, ◌∙◌, ◌≡◌}
use safecommit_ai.Runtime.{Runtime}

-- A step out of a terminal state.
terminal-Step :
    {rt : Runtime} {s : ValidationSession} {at : Text} {e : WorkflowEvent} {t : ValidationSession}
    → Step rt s at e t
    → is_terminal s.state ≡ true
    → (s.state ≡ failed)
      × (t.state ≡ failed)
      × (event_type e ≡ daytona_attempt_recorded_type)
      × (t.approval ≡ s.approval)
      × (t.pull_request ≡ s.pull_request)
unfolding is_terminal event_type with_attempt
terminal-Step (starts q) over = absurd (true≢false (sym over ∙ ap is_terminal q))
terminal-Step (ingests q) over = absurd (true≢false (sym over ∙ ap is_terminal q))
terminal-Step (analyzes q) over = absurd (true≢false (sym over ∙ ap is_terminal q))
terminal-Step (generates q g) over = absurd (true≢false (sym over ∙ ap is_terminal q))
terminal-Step (provisions q g) over = absurd (true≢false (sym over ∙ ap is_terminal q))
terminal-Step (builds q) over = absurd (true≢false (sym over ∙ ap is_terminal q))
terminal-Step (tests q) over = absurd (true≢false (sym over ∙ ap is_terminal q))
terminal-Step (scores q) over = absurd (true≢false (sym over ∙ ap is_terminal q))
terminal-Step (selects q c g p d l) over = absurd (true≢false (sym over ∙ ap is_terminal q))
terminal-Step (selects_live q c g p d l o x) over =
    absurd (true≢false (sym over ∙ ap is_terminal q))
terminal-Step (approves q i c) over = absurd (true≢false (sym over ∙ ap is_terminal q))
terminal-Step (requests q g) over = absurd (true≢false (sym over ∙ ap is_terminal q))
terminal-Step (publishes q g) over = absurd (true≢false (sym over ∙ ap is_terminal q))
terminal-Step (reviews q g) over = absurd (true≢false (sym over ∙ ap is_terminal q))
terminal-Step (starts_repair q) over = absurd (true≢false (sym over ∙ ap is_terminal q))
terminal-Step (repairs q c d) over = absurd (true≢false (sym over ∙ ap is_terminal q))
terminal-Step (revalidates q g) over = absurd (true≢false (sym over ∙ ap is_terminal q))
terminal-Step (marks_ready q g) over = absurd (true≢false (sym over ∙ ap is_terminal q))
terminal-Step (completes q) over = absurd (true≢false (sym over ∙ ap is_terminal q))
terminal-Step (fails alive) over = absurd (true≢false (sym over ∙ alive))
terminal-Step (cancels alive) over = absurd (true≢false (sym over ∙ alive))
terminal-Step (records (inl alive) g) over = absurd (true≢false (sym over ∙ alive))
terminal-Step {s = s} (records {a} (inr f) g) p =
    (f, ground arith, refl, ground arith, ground arith)

-- A terminal session accepts no event but the record of an attempt, and that only if it has failed; it
-- stays failed, and its approval and its pull request stay as they are.
pub terminal-transition :
    (rt : Runtime) (s t : ValidationSession) (e : WorkflowEvent) (at : Text)
    → is_terminal s.state ≡ true
    → transition_validation_session rt s e at ≡ ok t
    → (s.state ≡ failed)
      × (t.state ≡ failed)
      × (event_type e ≡ daytona_attempt_recorded_type)
      × (t.approval ≡ s.approval)
      × (t.pull_request ≡ s.pull_request)
terminal-transition rt s t e at p h = terminal-Step (transition-Step rt s at e h) p

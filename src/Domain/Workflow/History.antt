-- ===== src/Domain/Workflow/History.antt =====
-- The record of the Daytona attempts through the workflow: `sandboxAttemptHistory` of
-- packages/domain/src/state-machine.ts.
use mathlib.Core.List.{append-nil}
use safecommit_ai.Domain.Session.{
  DaytonaAttemptInput, DaytonaAttemptRecord, ValidationSession, failed,
}
use safecommit_ai.Domain.Workflow.Attempts.{recorded_attempt, with_attempt}
use safecommit_ai.Domain.Workflow.Events.{WorkflowEvent, daytona_attempt_recorded_type, event_type}
use safecommit_ai.Domain.Workflow.Repair.{with_repair, with_revalidation}
use safecommit_ai.Domain.Workflow.Selection.{with_selection}
use safecommit_ai.Domain.Workflow.Soundness.{transition-Step}
use safecommit_ai.Domain.Workflow.Steps.{
  Step, analyzes, approves, builds, cancels, completes, fails, generates, ingests, marks_ready,
  provisions, publishes, records, repairs, requests, revalidates, reviews, scores, selects,
  selects_live, starts, starts_repair, tests,
}
use safecommit_ai.Domain.Workflow.Transition.{transition_validation_session}
use safecommit_ai.Prelude.{
  Bool-cases, List, Text, [], arith, inl, inr, length, map, ok, refl, sym, ◌++◌, ◌||◌, ◌∷◌, ◌≡◌,
  ◌≢◌, ◌≤◌, ◌⊎◌,
}
use safecommit_ai.Runtime.{Runtime}

abbrev pub sandbox_ids : List DaytonaAttemptRecord → List Text
sandbox_ids history = map (λ a. a.sandbox_id) history

abbrev pub run_ids : List DaytonaAttemptRecord → List Text
run_ids history = map (λ a. a.run_id) history

-- What a step does to the history.
abbrev Grows : ValidationSession → ValidationSession → WorkflowEvent → Type 0
Grows s t e =
    (zs : List DaytonaAttemptRecord) × (t.sandbox_attempt_history ≡ s.sandbox_attempt_history ++ zs)
    × (length zs ≤ 1)
    × (event_type e ≢ daytona_attempt_recorded_type → zs ≡ [])

kept :
    (history : List DaytonaAttemptRecord) (e : WorkflowEvent)
    → (zs : List DaytonaAttemptRecord) × (history ≡ history ++ zs)
      × (length zs ≤ 1)
      × (event_type e ≢ daytona_attempt_recorded_type → zs ≡ [])
kept history e = ([], sym (append-nil history), omega arith, λ _. refl)

pub with_attempt-history :
    (s : ValidationSession) (a : DaytonaAttemptInput) (at : Text)
    → (with_attempt s a at).sandbox_attempt_history
      ≡ s.sandbox_attempt_history ++ recorded_attempt s.sandbox_attempt_history a ∷ []
unfolding with_attempt
with_attempt-history s a at = ground arith

-- The record of an attempt fails the session or leaves all else alone.
pub with_attempt-cases :
    (s : ValidationSession) (a : DaytonaAttemptInput) (at : Text)
    → ((with_attempt s a at).state ≡ failed)
      ⊎ (with_attempt s a at ≡ record s {
        updated_at = at;
        sandbox_attempt_history =
            s.sandbox_attempt_history ++ recorded_attempt s.sandbox_attempt_history a ∷ [];
      })
unfolding with_attempt
with_attempt-cases s a at =
    let entry = recorded_attempt s.sandbox_attempt_history a in
    elim (Bool-cases (entry.duplicate_sandbox || entry.duplicate_run)) [
      | inl reused ↦ inl (rw reused refl)
      | inr new ↦ inr (rw new refl)
    ]

Step-Grows :
    {rt : Runtime} {s : ValidationSession} {at : Text} {e : WorkflowEvent} {t : ValidationSession}
    → Step rt s at e t
    → Grows s t e
unfolding with_selection with_repair with_revalidation event_type
Step-Grows {s = s} {at = at} (records {a} q g) = (
  recorded_attempt s.sandbox_attempt_history a ∷ [],
  with_attempt-history s a at,
  omega arith,
  λ ne. absurd (ne refl),
)
Step-Grows {s = s} {e = e} (starts q) = kept s.sandbox_attempt_history e
Step-Grows {s = s} {e = e} (ingests q) = kept s.sandbox_attempt_history e
Step-Grows {s = s} {e = e} (analyzes q) = kept s.sandbox_attempt_history e
Step-Grows {s = s} {e = e} (generates q g) = kept s.sandbox_attempt_history e
Step-Grows {s = s} {e = e} (provisions q g) = kept s.sandbox_attempt_history e
Step-Grows {s = s} {e = e} (builds q) = kept s.sandbox_attempt_history e
Step-Grows {s = s} {e = e} (tests q) = kept s.sandbox_attempt_history e
Step-Grows {s = s} {e = e} (scores q) = kept s.sandbox_attempt_history e
Step-Grows {s = s} {e = e} (selects q c g p d l) = kept s.sandbox_attempt_history e
Step-Grows {s = s} {e = e} (selects_live q c g p d l o h) = kept s.sandbox_attempt_history e
Step-Grows {s = s} {e = e} (approves q i c) = kept s.sandbox_attempt_history e
Step-Grows {s = s} {e = e} (requests q g) = kept s.sandbox_attempt_history e
Step-Grows {s = s} {e = e} (publishes q g) = kept s.sandbox_attempt_history e
Step-Grows {s = s} {e = e} (reviews q g) = kept s.sandbox_attempt_history e
Step-Grows {s = s} {e = e} (starts_repair q) = kept s.sandbox_attempt_history e
Step-Grows {s = s} {e = e} (repairs q c d) = kept s.sandbox_attempt_history e
Step-Grows {s = s} {e = e} (revalidates q g) = kept s.sandbox_attempt_history e
Step-Grows {s = s} {e = e} (marks_ready q g) = kept s.sandbox_attempt_history e
Step-Grows {s = s} {e = e} (completes q) = kept s.sandbox_attempt_history e
Step-Grows {s = s} {e = e} (fails alive) = kept s.sandbox_attempt_history e
Step-Grows {s = s} {e = e} (cancels alive) = kept s.sandbox_attempt_history e

module _ (rt : Runtime) where
  -- A transition never takes an attempt out of the history, nor changes one: it leaves the history as
  -- it is or puts one attempt at its end.
  pub transition-history-Extends :
      (s t : ValidationSession) (e : WorkflowEvent) (at : Text)
      → transition_validation_session rt s e at ≡ ok t
      → (zs : List DaytonaAttemptRecord) × (t.sandbox_attempt_history
          ≡ s.sandbox_attempt_history ++ zs)
        × (length zs ≤ 1)
        × (event_type e ≢ daytona_attempt_recorded_type → zs ≡ [])
  transition-history-Extends s t e at h = Step-Grows (transition-Step rt s at e h)

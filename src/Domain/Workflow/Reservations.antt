-- ===== src/Domain/Workflow/Reservations.antt =====
-- Every Daytona attempt of a live session reserves a sandbox and a run of its own
-- (DAYTONA_ATTEMPT_RECORDED in packages/domain/src/state-machine.ts).
use mathlib.Core.List.{map-append}
use safecommit_ai.Domain.Session.{
  DaytonaAttemptInput, DaytonaAttemptRecord, ValidationSession, failed,
}
use safecommit_ai.Domain.Workflow.Attempts.{recorded_attempt, with_attempt}
use safecommit_ai.Domain.Workflow.Events.{WorkflowEvent, is_terminal}
use safecommit_ai.Domain.Workflow.History.{run_ids, sandbox_ids, with_attempt-history}
use safecommit_ai.Domain.Workflow.Outcome.{create_validation_session}
use safecommit_ai.Domain.Workflow.Receipts.{is_fresh_reservation}
use safecommit_ai.Domain.Workflow.Repair.{with_repair, with_revalidation}
use safecommit_ai.Domain.Workflow.Selection.{with_selection}
use safecommit_ai.Domain.Workflow.Steps.{
  Reach, Step, after, analyzes, approves, builds, cancels, completes, created, fails, generates,
  ingests, marks_ready, provisions, publishes, records, repairs, requests, revalidates, reviews,
  scores, selects, selects_live, starts, starts_repair, tests,
}
use safecommit_ai.Prelude.{
  Bool-cases, List, Text, Unique, Unique-append_one, [], ap, arith, bool_eq, every, every-append,
  false, inl, inr, nat_eq, option_eq, refl, some_of, some_of-map, subst, sym, text_eq, true,
  true≢false, ||-false, ◌++◌, ◌==◌, ◌||◌, ◌∙◌, ◌∷◌, ◌≡◌, ◌≢◌, ◌⊎◌,
}
use safecommit_ai.Runtime.{Runtime}

-- Each attempt holds a reservation, and no two name the same sandbox or the same run.
pub record IsReserved (history : List DaytonaAttemptRecord) : Type 0 where
  pub fresh : every is_fresh_reservation history ≡ true
  pub sandboxes : Unique (sandbox_ids history)
  pub runs : Unique (run_ids history)

module _ (history : List DaytonaAttemptRecord) (a : DaytonaAttemptInput) where
  append-IsReserved :
      IsReserved history
      → some_of (λ i. i.sandbox_id == a.sandbox_id) history ≡ false
      → some_of (λ i. i.run_id == a.run_id) history ≡ false
      → IsReserved (history ++ recorded_attempt history a ∷ [])
  unfolding is_fresh_reservation recorded_attempt
  append-IsReserved h new_sandbox new_run = record {
    fresh = ground (
      arith,
      h.fresh,
      every-append is_fresh_reservation history (recorded_attempt history a ∷ []),
    );
    sandboxes = subst Unique (sym (map-append (λ i. i.sandbox_id) history _)) (
        Unique-append_one _ _ h.sandboxes
          (sym (some_of-map (λ i. i.sandbox_id) a.sandbox_id history) ∙ new_sandbox));
    runs = subst Unique (sym (map-append (λ i. i.run_id) history _)) (
        Unique-append_one _ _ h.runs
          (sym (some_of-map (λ i. i.run_id) a.run_id history) ∙ new_run));
  }

abbrev HasReserved : ValidationSession → Type 0
HasReserved s = (s.state ≡ failed) ⊎ IsReserved s.sandbox_attempt_history

module _ (s : ValidationSession) (a : DaytonaAttemptInput) (at : Text) where
  attempt_keeps_failed : s.state ≡ failed → (with_attempt s a at).state ≡ failed
  unfolding with_attempt
  attempt_keeps_failed f = ground arith

  with_attempt-IsReserved : IsReserved s.sandbox_attempt_history → HasReserved (with_attempt s a at)
  unfolding with_attempt recorded_attempt
  with_attempt-IsReserved h =
      let same_sandbox = some_of (λ i. i.sandbox_id == a.sandbox_id) s.sandbox_attempt_history in
      let same_run = some_of (λ i. i.run_id == a.run_id) s.sandbox_attempt_history in
      elim (Bool-cases (same_sandbox || same_run)) [
        | inl reused ↦ inl (rw reused refl)
        | inr new ↦ inr (
            subst IsReserved (sym (with_attempt-history s a at)) (
              append-IsReserved s.sandbox_attempt_history a h (||-false _ _ new).0
                (||-false _ _ new).1))
      ]

  with_attempt-HasReserved : HasReserved s → HasReserved (with_attempt s a at)
  with_attempt-HasReserved (inl f) = inl (attempt_keeps_failed f)
  with_attempt-HasReserved (inr h) = with_attempt-IsReserved h

-- The session has not failed.
alive-IsReserved :
    (s : ValidationSession)
    → HasReserved s
    → is_terminal s.state ≡ false
    → IsReserved s.sandbox_attempt_history
unfolding is_terminal
alive-IsReserved s (inl f) alive = absurd (true≢false (sym (ap is_terminal f) ∙ alive))
alive-IsReserved s (inr h) alive = h

Step-HasReserved :
    {rt : Runtime} {s : ValidationSession} {at : Text} {e : WorkflowEvent} {t : ValidationSession}
    → Step rt s at e t
    → HasReserved s
    → HasReserved t
unfolding with_selection with_repair with_revalidation is_terminal
Step-HasReserved {s = s} {at = at} (records {a} q g) h = with_attempt-HasReserved s a at h
Step-HasReserved {s = s} (fails alive) h = inl refl
Step-HasReserved {s = s} (cancels alive) h = inr (alive-IsReserved s h alive)
Step-HasReserved {s = s} (starts q) h = inr (alive-IsReserved s h (ap is_terminal q))
Step-HasReserved {s = s} (ingests q) h = inr (alive-IsReserved s h (ap is_terminal q))
Step-HasReserved {s = s} (analyzes q) h = inr (alive-IsReserved s h (ap is_terminal q))
Step-HasReserved {s = s} (generates q g) h = inr (alive-IsReserved s h (ap is_terminal q))
Step-HasReserved {s = s} (provisions q g) h = inr (alive-IsReserved s h (ap is_terminal q))
Step-HasReserved {s = s} (builds q) h = inr (alive-IsReserved s h (ap is_terminal q))
Step-HasReserved {s = s} (tests q) h = inr (alive-IsReserved s h (ap is_terminal q))
Step-HasReserved {s = s} (scores q) h = inr (alive-IsReserved s h (ap is_terminal q))
Step-HasReserved {s = s} (selects q c g p d l) h = inr (alive-IsReserved s h (ap is_terminal q))
Step-HasReserved {s = s} (selects_live q c g p d l o x) h =
    inr (alive-IsReserved s h (ap is_terminal q))
Step-HasReserved {s = s} (approves q i c) h = inr (alive-IsReserved s h (ap is_terminal q))
Step-HasReserved {s = s} (requests q g) h = inr (alive-IsReserved s h (ap is_terminal q))
Step-HasReserved {s = s} (publishes q g) h = inr (alive-IsReserved s h (ap is_terminal q))
Step-HasReserved {s = s} (reviews q g) h = inr (alive-IsReserved s h (ap is_terminal q))
Step-HasReserved {s = s} (starts_repair q) h = inr (alive-IsReserved s h (ap is_terminal q))
Step-HasReserved {s = s} (repairs q c d) h = inr (alive-IsReserved s h (ap is_terminal q))
Step-HasReserved {s = s} (revalidates q g) h = inr (alive-IsReserved s h (ap is_terminal q))
Step-HasReserved {s = s} (marks_ready q g) h = inr (alive-IsReserved s h (ap is_terminal q))
Step-HasReserved {s = s} (completes q) h = inr (alive-IsReserved s h (ap is_terminal q))

Reach-HasReserved : {rt : Runtime} {s : ValidationSession} → Reach rt s → HasReserved s
unfolding create_validation_session
Reach-HasReserved (created input) = inr (record { fresh = refl; sandboxes = tt; runs = tt })
Reach-HasReserved (after r st) = Step-HasReserved st (Reach-HasReserved r)

-- In every session that the events lead to, and that has not failed, each recorded attempt holds a
-- reservation, and no two attempts name the same sandbox or the same run.
pub Reach-IsReserved :
    (rt : Runtime) (s : ValidationSession)
    → Reach rt s
    → s.state ≢ failed
    → IsReserved s.sandbox_attempt_history
Reach-IsReserved rt s r n = elim (Reach-HasReserved r) [ inl f ↦ absurd (n f) | inr h ↦ h ]

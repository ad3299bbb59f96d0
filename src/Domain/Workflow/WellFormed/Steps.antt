-- ===== src/Domain/Workflow/WellFormed/Steps.antt =====
-- Every step keeps a session well formed
-- (packages/domain/src/state-machine.ts).
use mathlib.Core.List.{append-nil, append_assoc}
use safecommit_ai.Domain.Session.{
  DaytonaAttemptInput, ValidationSession, analyzing_incident, awaiting_coderabbit,
  awaiting_human_approval, building, cancelled_by_human, completed, creating_pull_request, failed,
  generating_candidates, idle, ingesting_repository, provisioning_sandboxes, ready_to_merge,
  repairing_review_findings, revalidating, review_blocked, review_passed, running_tests, scoring,
  selecting,
}
use safecommit_ai.Domain.Types.{FullRevalidationReceipt, RunKind}
use safecommit_ai.Domain.Workflow.Attempts.{recorded_attempt, with_attempt}
use safecommit_ai.Domain.Workflow.Events.{SelectedCandidate, WorkflowEvent}
use safecommit_ai.Domain.Workflow.ReceiptFacts.{revalidation-facts}
use safecommit_ai.Domain.Workflow.Refusals.{is_revalidation_refused, used_sandboxes}
use safecommit_ai.Domain.Workflow.Repair.{with_repair, with_revalidation}
use safecommit_ai.Domain.Workflow.Selection.{
  are_candidates_refused, is_sandbox_map_refused, minimum_candidates, with_selection,
}
use safecommit_ai.Domain.Workflow.Steps.{
  Step, analyzes, approves, builds, cancels, completes, fails, generates, ingests, marks_ready,
  provisions, publishes, records, repairs, requests, revalidates, reviews, scores, selects,
  selects_live, starts, starts_repair, tests,
}
use safecommit_ai.Domain.Workflow.WellFormed.{
  EnoughCandidates, IsWellFormed, WellFormed, has_candidates, has_selection, is_early, shift, stop,
}
use safecommit_ai.Prelude.{
  Bool, Bool-cases, List, Text, Unique, Unique-append_one, [], ap, arith, bool_eq, distinct, false,
  if◌then◌else◌, includes, includes-some_of, inl, inr, length, length-append,
  length-distinct-Unique, length-distinct-le, ltb, map, nat_eq, option_eq, refl, some, subst, sym,
  text_eq, true, ||-false, ◌!=◌, ◌++◌, ◌+◌, ◌||◌, ◌∙◌, ◌∷◌, ◌≡◌,
}
use safecommit_ai.Runtime.{Runtime}

enough_candidates :
    (kind : RunKind) (ids : List Text)
    → are_candidates_refused kind ids ≡ false
    → EnoughCandidates kind ids
enough_candidates kind ids h =
    let (same, enough) =
      ||-false (length (distinct ids) != length ids)
        (ltb (length (distinct ids)) (minimum_candidates kind)) h in
    (length-distinct-Unique ids (ground arith), ground (arith, length-distinct-le ids))

distinct_sandboxes :
    (s : ValidationSession) (entries : List (Text × Text))
    → is_sandbox_map_refused s entries ≡ false
    → Unique (map (λ e. e.1) entries)
unfolding is_sandbox_map_refused
distinct_sandboxes s entries h = length-distinct-Unique (map (λ e. e.1) entries) (ground arith)

module _ (rt : Runtime) where
  generated-IsWellFormed :
      (s : ValidationSession) (ids : List Text)
      → s.state ≡ generating_candidates
      → are_candidates_refused s.run_kind ids ≡ false
      → IsWellFormed s
      → WellFormed provisioning_sandboxes s.run_kind ids s.selected_candidate_id
          s.sandbox_ids_by_candidate s.revalidation_sandbox_ids s.validation_round
  generated-IsWellFormed s ids q g w = record {
    unselected = λ _. w.unselected (ap is_early q);
    first_round = λ _. w.first_round (ap is_early q);
    candidates = λ _. enough_candidates s.run_kind ids g;
    selected = λ p. cc;
    rounds = λ p. cc;
    sandboxes = w.sandboxes;
  }

  provisioned-IsWellFormed :
      (s : ValidationSession) (entries : List (Text × Text))
      → s.state ≡ provisioning_sandboxes
      → is_sandbox_map_refused s entries ≡ false
      → IsWellFormed s
      → WellFormed building s.run_kind s.candidate_ids s.selected_candidate_id entries
          s.revalidation_sandbox_ids s.validation_round
  provisioned-IsWellFormed s entries q g w =
      let none_yet = w.unselected (ap is_early q) in
      record {
        unselected = λ _. none_yet;
        first_round = λ _. w.first_round (ap is_early q);
        candidates = λ _. w.candidates (ap has_candidates q);
        selected = λ p. cc;
        rounds = λ p. cc;
        sandboxes =
            subst Unique
              (sym (append-nil (map (λ e. e.1) entries))
                ∙ ap (λ r. map (λ e. e.1) entries ++ r) (sym none_yet))
              (distinct_sandboxes s entries g);
      }

  selected-IsWellFormed :
      (s : ValidationSession) (e : SelectedCandidate)
      → s.state ≡ selecting
      → includes s.candidate_ids e.candidate_id ≡ true
      → IsWellFormed s
      → WellFormed awaiting_human_approval s.run_kind s.candidate_ids
          (some e.candidate_id)
          s.sandbox_ids_by_candidate
          s.revalidation_sandbox_ids
          (s.validation_round + 1)
  selected-IsWellFormed s e q c w =
      let none_yet = w.unselected (ap is_early q) in
      let first = w.first_round (ap is_early q) in
      record {
        unselected = λ p. cc;
        first_round = λ p. cc;
        candidates = λ _. w.candidates (ap has_candidates q);
        selected = λ _. (e.candidate_id, refl, c);
        rounds = λ _. rw none_yet (rw first refl);
        sandboxes = w.sandboxes;
      }

  repaired-IsWellFormed :
      (s : ValidationSession) (c : Text)
      → s.state ≡ repairing_review_findings
      → includes s.candidate_ids c ≡ true
      → IsWellFormed s
      → WellFormed revalidating s.run_kind s.candidate_ids
          (some c)
          s.sandbox_ids_by_candidate
          s.revalidation_sandbox_ids
          s.validation_round
  repaired-IsWellFormed s c q i w = record {
    unselected = λ p. cc;
    first_round = λ p. cc;
    candidates = λ _. w.candidates (ap has_candidates q);
    selected = λ _. (c, refl, i);
    rounds = λ _. w.rounds (ap has_selection q);
    sandboxes = w.sandboxes;
  }

  fresh_sandbox :
      (s : ValidationSession) (r : FullRevalidationReceipt)
      → is_revalidation_refused rt s r ≡ false
      → Unique (map (λ e. e.1) s.sandbox_ids_by_candidate ++ s.revalidation_sandbox_ids)
      → Unique (
          map (λ e. e.1) s.sandbox_ids_by_candidate
          ++ (s.revalidation_sandbox_ids ++ r.sandbox_id ∷ []))
  unfolding used_sandboxes
  fresh_sandbox s r g u =
      subst Unique (append_assoc (map (λ e. e.1) s.sandbox_ids_by_candidate) _ _) (
        Unique-append_one (used_sandboxes s) r.sandbox_id u (
          sym (includes-some_of (used_sandboxes s) r.sandbox_id) ∙ (revalidation-facts rt s r g).4))

  revalidated-IsWellFormed :
      (s : ValidationSession) (r : FullRevalidationReceipt)
      → s.state ≡ revalidating
      → is_revalidation_refused rt s r ≡ false
      → IsWellFormed s
      → WellFormed awaiting_human_approval s.run_kind s.candidate_ids s.selected_candidate_id
          s.sandbox_ids_by_candidate
          (s.revalidation_sandbox_ids ++ r.sandbox_id ∷ [])
          (s.validation_round + 1)
  revalidated-IsWellFormed s r q g w = record {
    unselected = λ p. cc;
    first_round = λ p. cc;
    candidates = λ _. w.candidates (ap has_candidates q);
    selected = λ _. w.selected (ap has_selection q);
    rounds = λ _. omega (
      arith,
      w.rounds (ap has_selection q),
      length-append s.revalidation_sandbox_ids (r.sandbox_id ∷ []),
    );
    sandboxes = fresh_sandbox s r g w.sandboxes;
  }

  attempt-IsWellFormed :
      (s : ValidationSession) (a : DaytonaAttemptInput) (at : Text)
      → IsWellFormed s
      → IsWellFormed (with_attempt s a at)
  unfolding with_attempt
  attempt-IsWellFormed s a at w =
      let entry = recorded_attempt s.sandbox_attempt_history a in
      elim (Bool-cases (entry.duplicate_sandbox || entry.duplicate_run)) [
        | inl reused ↦ rw reused (stop failed refl refl w)
        | inr new ↦ rw new w
      ]

  reviewed-IsWellFormed :
      (b : Bool) (s : ValidationSession)
      → s.state ≡ awaiting_coderabbit
      → IsWellFormed s
      → WellFormed
          (if b then review_passed else review_blocked)
          s.run_kind
          s.candidate_ids
          s.selected_candidate_id
          s.sandbox_ids_by_candidate
          s.revalidation_sandbox_ids
          s.validation_round
  reviewed-IsWellFormed true s q w = shift awaiting_coderabbit review_passed q refl refl refl w
  reviewed-IsWellFormed false s q w = shift awaiting_coderabbit review_blocked q refl refl refl w

  pub Step-IsWellFormed :
      {s : ValidationSession} {at : Text} {e : WorkflowEvent} {t : ValidationSession}
      → Step rt s at e t
      → IsWellFormed s
      → IsWellFormed t
  unfolding with_selection with_repair with_revalidation
  Step-IsWellFormed (starts q) w = shift idle ingesting_repository q refl refl refl w
  Step-IsWellFormed (ingests q) w = shift ingesting_repository analyzing_incident q refl refl refl w
  Step-IsWellFormed (analyzes q) w =
      shift analyzing_incident generating_candidates q refl refl refl w
  Step-IsWellFormed {s = s} (generates {ids} q g) w = generated-IsWellFormed s ids q g w
  Step-IsWellFormed {s = s} (provisions {entries} q g) w = provisioned-IsWellFormed s entries q g w
  Step-IsWellFormed (builds q) w = shift building running_tests q refl refl refl w
  Step-IsWellFormed (tests q) w = shift running_tests scoring q refl refl refl w
  Step-IsWellFormed (scores q) w = shift scoring selecting q refl refl refl w
  Step-IsWellFormed {s = s} (selects {e} q c g p d l) w = selected-IsWellFormed s e q c w
  Step-IsWellFormed {s = s} (selects_live {e} q c g p d l o x) w = selected-IsWellFormed s e q c w
  Step-IsWellFormed {s = s} (approves q i c) w = w
  Step-IsWellFormed (requests q g) w =
      shift awaiting_human_approval creating_pull_request q refl refl refl w
  Step-IsWellFormed (publishes q g) w =
      shift creating_pull_request awaiting_coderabbit q refl refl refl w
  Step-IsWellFormed {s = s} (reviews q g) w = reviewed-IsWellFormed _ s q w
  Step-IsWellFormed (starts_repair q) w =
      shift review_blocked repairing_review_findings q refl refl refl w
  Step-IsWellFormed {s = s} (repairs {candidate} q c d) w = repaired-IsWellFormed s candidate q c w
  Step-IsWellFormed {s = s} (revalidates {r} q g) w = revalidated-IsWellFormed s r q g w
  Step-IsWellFormed (marks_ready q g) w = shift review_passed ready_to_merge q refl refl refl w
  Step-IsWellFormed (completes q) w = shift ready_to_merge completed q refl refl refl w
  Step-IsWellFormed (fails alive) w = stop failed refl refl w
  Step-IsWellFormed (cancels alive) w = stop cancelled_by_human refl refl w
  Step-IsWellFormed {s = s} {at = at} (records {a} q g) w = attempt-IsWellFormed s a at w

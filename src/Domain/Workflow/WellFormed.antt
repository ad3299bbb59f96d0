-- ===== src/Domain/Workflow/WellFormed.antt =====
-- What every session that the events lead to keeps about its candidates, its sandboxes and its rounds
-- of validation (packages/domain/src/state-machine.ts).
pub mod Steps
use safecommit_ai.Domain.Session.{
  ValidationSession, ValidationState, analyzing_incident, building, cancelled_by_human, failed,
  generating_candidates, idle, ingesting_repository, provisioning_sandboxes, running_tests, scoring,
  selecting,
}
use safecommit_ai.Domain.Types.{RunKind}
use safecommit_ai.Domain.Workflow.Selection.{minimum_candidates}
use safecommit_ai.Prelude.{
  &&-true, Bool, List, Option, Text, Unique, [], ap, arith, false, includes, length, map, nat_eq,
  not, some, suc, sym, text_eq, true, true≢false, ℕ, ◌&&◌, ◌++◌, ◌||◌, ◌∙◌, ◌≡◌, ◌≤◌,
}

-- The states before a candidate is selected.
abbrev pub is_early : ValidationState → Bool
is_early idle = true
is_early ingesting_repository = true
is_early analyzing_incident = true
is_early generating_candidates = true
is_early provisioning_sandboxes = true
is_early building = true
is_early running_tests = true
is_early scoring = true
is_early selecting = true
is_early _ = false

-- The states after the candidates were generated, up to the end of the workflow.
abbrev pub has_candidates : ValidationState → Bool
has_candidates idle = false
has_candidates ingesting_repository = false
has_candidates analyzing_incident = false
has_candidates generating_candidates = false
has_candidates failed = false
has_candidates cancelled_by_human = false
has_candidates _ = true

-- The states after a candidate was selected, up to the end of the workflow.
abbrev pub has_selection : ValidationState → Bool
has_selection state = has_candidates state && not (is_early state)

-- The run has as many candidates as its kind asks for, no two alike.
abbrev pub EnoughCandidates : RunKind → List Text → Type 0
EnoughCandidates kind ids = Unique ids × (minimum_candidates kind ≤ length ids)

abbrev pub IsCandidate : List Text → Option Text → Type 0
IsCandidate ids selected = (c : Text) × (selected ≡ some c) × (includes ids c ≡ true)

-- Over the fields that it reads, so that a step which leaves them alone keeps it as it stands.
pub record WellFormed (state : ValidationState) (kind : RunKind) (ids : List Text)
    (selected_id : Option Text) (entries : List (Text × Text)) (rounds_ids : List Text) (round : ℕ)
    : Type 0 where
  pub unselected : is_early state ≡ true → rounds_ids ≡ []
  pub first_round : is_early state ≡ true → round ≡ 0
  pub candidates : has_candidates state ≡ true → EnoughCandidates kind ids
  pub selected : has_selection state ≡ true → IsCandidate ids selected_id
  pub rounds : has_selection state ≡ true → round ≡ suc (length rounds_ids)
  pub sandboxes : Unique (map (λ e. e.1) entries ++ rounds_ids)

abbrev pub IsWellFormed : ValidationSession → Type 0
IsWellFormed s =
    WellFormed s.state s.run_kind s.candidate_ids s.selected_candidate_id s.sandbox_ids_by_candidate
      s.revalidation_sandbox_ids s.validation_round

implied : (a b : Bool) → (not a || b) ≡ true → a ≡ true → b ≡ true
implied a b h p = ground arith

module _ {kind : RunKind} {ids : List Text} {selected_id : Option Text}
    {entries : List (Text × Text)} {rounds_ids : List Text} {round : ℕ} where
  -- From one state to another in which no more is asked.
  pub shift :
      {state : ValidationState} (x y : ValidationState)
      → state ≡ x
      → (not (is_early y) || is_early x) ≡ true
      → (not (has_candidates y) || has_candidates x) ≡ true
      → (not (has_selection y) || has_selection x) ≡ true
      → WellFormed state kind ids selected_id entries rounds_ids round
      → WellFormed y kind ids selected_id entries rounds_ids round
  shift x y q e c l w = record {
    unselected = λ p. w.unselected (ap is_early q ∙ implied _ _ e p);
    first_round = λ p. w.first_round (ap is_early q ∙ implied _ _ e p);
    candidates = λ p. w.candidates (ap has_candidates q ∙ implied _ _ c p);
    selected = λ p. w.selected (ap has_selection q ∙ implied _ _ l p);
    rounds = λ p. w.rounds (ap has_selection q ∙ implied _ _ l p);
    sandboxes = w.sandboxes;
  }

  -- A failed or cancelled session promises no more than its sandboxes.
  pub stop :
      {state : ValidationState} (y : ValidationState)
      → is_early y ≡ false
      → has_candidates y ≡ false
      → WellFormed state kind ids selected_id entries rounds_ids round
      → WellFormed y kind ids selected_id entries rounds_ids round
  stop y e c w = record {
    unselected = λ p. absurd (true≢false (sym p ∙ e));
    first_round = λ p. absurd (true≢false (sym p ∙ e));
    candidates = λ p. absurd (true≢false (sym p ∙ c));
    selected = λ p. absurd (true≢false (sym (&&-true _ _ p).0 ∙ c));
    rounds = λ p. absurd (true≢false (sym (&&-true _ _ p).0 ∙ c));
    sandboxes = w.sandboxes;
  }

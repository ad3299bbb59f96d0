-- ===== src/Orchestrator/EventStore/Tournament.antt =====
-- What a verified chain establishes of the tournament (`verifyEventChain` of
-- apps/orchestrator/src/event-store.ts).
use mathlib.Core.List.{map-append}
use safecommit_ai.Orchestrator.EventStore.{
  ChainState, StoredEvent, TournamentEvent, candidate_validation_completed,
  candidate_validation_started, command_completed, flag_of, get, is_set, is_three, member_of,
  not_first_start, not_three_candidates, require_payload_string, tournament_completed,
  tournament_failed, tournament_started,
}
use safecommit_ai.Orchestrator.EventStore.Cases.{
  complete_candidate, on_switch, start_candidate, start_declared,
}
use safecommit_ai.Prelude.{
  >>=-eq-ok, Bool, List, Option, Text, Unique, Unique-append_one, [], ap, arith, bool_eq, false,
  includes-some_of, inl, inr, length, length-append, map, nat_eq, none, not, ok, option_eq, refl,
  returns_unless, some, some_eq, some_of, subst, sym, text_eq, throw_if-eq-ok, true, ℕ, ◌!=◌, ◌++◌,
  ◌==◌, ◌||◌, ◌∙◌, ◌∷◌, ◌≡◌, ◌≤◌, ◌⊎◌,
}
use safecommit_ai.Text.{codes}

-- Every candidate and every sandbox has started once, no more candidates than three, and each candidate that
-- has completed has completed once.
pub record IsTournament (st : ChainState) : Type 0 where
  pub declared : (st.declared_candidate_count ≡ none) ⊎ (st.declared_candidate_count ≡ some 3)
  pub candidates : Unique (map (λ c. c.0) st.started_candidates)
  pub sandboxes : map (λ c. c.1) st.started_candidates ≡ st.started_sandboxes
  pub own_sandbox : Unique st.started_sandboxes
  pub completions : Unique (map (λ c. c.0) st.completed_candidates)
  pub at_most : length st.started_candidates ≤ 3

get-absent {ℓ} :
    {V : Type ℓ} (es : List (Text × V)) (k : Text)
    → is_set (get es k) ≡ false
    → some_of (λ y. y == k) (map (λ e. e.0) es) ≡ false
get-absent [] k h = refl
get-absent (e ∷ es) k h = ground (arith, get-absent es k)

declared_three : (o : Option ℕ) (n : ℕ) → o ≡ some n → (o ≡ none) ⊎ (o ≡ some 3) → n ≡ 3
declared_three o n h d = elim d [ inl a ↦ cc | inr b ↦ some_eq (sym h ∙ b) ]

start-IsTournament :
    (st t : ChainState) (candidate sandbox : Text) (n : ℕ)
    → st.declared_candidate_count ≡ some n
    → IsTournament st
    → start_candidate st n candidate sandbox ≡ ok t
    → IsTournament t
unfolding start_candidate
start-IsTournament st t candidate sandbox n d inv h =
    returns_unless IsTournament _ _
      (λ g. record {
        declared = inv.declared;
        candidates =
            subst Unique
              (sym (map-append (λ c. c.0) st.started_candidates ((candidate, sandbox) ∷ [])))
              (Unique-append_one (map (λ c. c.0) st.started_candidates) candidate inv.candidates
                (get-absent st.started_candidates candidate (ground arith)));
        sandboxes =
            map-append (λ c. c.1) st.started_candidates ((candidate, sandbox) ∷ [])
            ∙ ap (λ xs. xs ++ sandbox ∷ []) inv.sandboxes;
        own_sandbox =
            Unique-append_one st.started_sandboxes sandbox inv.own_sandbox
              (ground (arith, includes-some_of st.started_sandboxes sandbox));
        completions = inv.completions;
        at_most = ground (
          arith,
          length-append st.started_candidates ((candidate, sandbox) ∷ []),
          declared_three st.declared_candidate_count n d inv.declared,
        );
      })
      h

declared-IsTournament :
    (o : Option ℕ) (st t : ChainState) (e : StoredEvent)
    → st.declared_candidate_count ≡ o
    → IsTournament st
    → start_declared o st e ≡ ok t
    → IsTournament t
unfolding start_declared
declared-IsTournament none st t e d inv h = cc
declared-IsTournament (some n) st t e d inv h =
    let (candidate, then_on, at_candidate) =
      >>=-eq-ok (require_payload_string e.payload (codes "candidateId")) _ h in
    let (sandbox, last, at_sandbox) =
      >>=-eq-ok (require_payload_string e.payload (codes "sandboxId")) _ then_on in
    start-IsTournament st t candidate sandbox n d inv last

complete-IsTournament :
    (o : Option Bool) (st t : ChainState) (candidate sandbox : Text)
    → IsTournament st
    → complete_candidate st candidate sandbox o ≡ ok t
    → IsTournament t
unfolding complete_candidate
complete-IsTournament none st t candidate sandbox inv h = cc
complete-IsTournament (some eligible) st t candidate sandbox inv h =
    returns_unless IsTournament _ _
      (λ g. record {
        declared = inv.declared;
        candidates = inv.candidates;
        sandboxes = inv.sandboxes;
        own_sandbox = inv.own_sandbox;
        completions =
            subst Unique
              (sym (map-append (λ c. c.0) st.completed_candidates ((candidate, eligible) ∷ [])))
              (Unique-append_one (map (λ c. c.0) st.completed_candidates) candidate inv.completions
                (get-absent st.completed_candidates candidate (ground arith)));
        at_most = inv.at_most;
      })
      h

-- The record of the end of a tournament leaves the candidates alone.
end-IsTournament :
    (st : ChainState) → IsTournament st → IsTournament (record st { terminal = true })
end-IsTournament st inv = record {
  declared = inv.declared;
  candidates = inv.candidates;
  sandboxes = inv.sandboxes;
  own_sandbox = inv.own_sandbox;
  completions = inv.completions;
  at_most = inv.at_most;
}

pub switch-IsTournament :
    (k : Option TournamentEvent) (st t : ChainState) (e : StoredEvent)
    → IsTournament st
    → on_switch k st e ≡ ok t
    → IsTournament t
unfolding on_switch
switch-IsTournament none st t e inv h = cc
switch-IsTournament (some tournament_started) st t e inv h =
    let (first, rest) =
      throw_if-eq-ok (st.index != 0 || is_set st.declared_candidate_count) not_first_start _ h in
    returns_unless IsTournament (not (is_three (member_of e.payload (codes "candidateCount"))))
      not_three_candidates
      (λ g. record {
        declared = inr refl;
        candidates = inv.candidates;
        sandboxes = inv.sandboxes;
        own_sandbox = inv.own_sandbox;
        completions = inv.completions;
        at_most = inv.at_most;
      })
      rest
switch-IsTournament (some candidate_validation_started) st t e inv h =
    declared-IsTournament st.declared_candidate_count st t e refl inv h
switch-IsTournament (some command_completed) st t e inv h =
    let (candidate, second, at_candidate) =
      >>=-eq-ok (require_payload_string e.payload (codes "candidateId")) _ h in
    let (sandbox, third, at_sandbox) =
      >>=-eq-ok (require_payload_string e.payload (codes "sandboxId")) _ second in
    let (command, last, at_command) =
      >>=-eq-ok (require_payload_string e.payload (codes "commandId")) _ third in
    returns_unless IsTournament _ _ (λ g. inv) last
switch-IsTournament (some candidate_validation_completed) st t e inv h =
    let (candidate, second, at_candidate) =
      >>=-eq-ok (require_payload_string e.payload (codes "candidateId")) _ h in
    let (sandbox, last, at_sandbox) =
      >>=-eq-ok (require_payload_string e.payload (codes "sandboxId")) _ second in
    complete-IsTournament (flag_of (member_of e.payload (codes "eligible"))) st t candidate sandbox
      inv last
switch-IsTournament (some tournament_completed) st t e inv h =
    let (winner, last, at_winner) =
      >>=-eq-ok (require_payload_string e.payload (codes "winnerCandidateId")) _ h in
    returns_unless IsTournament _ _ (λ g. end-IsTournament st inv) last
switch-IsTournament (some tournament_failed) st t e inv h =
    returns_unless IsTournament _ _ (λ g. end-IsTournament st inv) h

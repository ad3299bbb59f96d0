-- ===== src/Orchestrator/EventStore/Winner.antt =====
-- The winner of a verified tournament (`verifyEventChain` of apps/orchestrator/src/event-store.ts).
use safecommit_ai.Domain.Workflow.Events.{event_type_eq}
use safecommit_ai.Orchestrator.EventStore.{
  ChainState, StoredEvent, TournamentEvent, candidate_validation_completed,
  candidate_validation_started, command_completed, get, is_set, require_payload_string,
  start_of_chain, tournament_completed, tournament_event, tournament_failed, tournament_started,
}
use safecommit_ai.Orchestrator.EventStore.Cases.{complete_tournament, on_switch}
use safecommit_ai.Orchestrator.EventStore.Chain.{
  linked, next, verify_event, verify_event_chain, verify_from,
}
use safecommit_ai.Orchestrator.EventStore.Tournament.{IsTournament, switch-IsTournament}
use safecommit_ai.Orchestrator.EventStore.Verified.{verify_event-parts}
use safecommit_ai.Prelude.{
  !=-eq, >>=-eq-ok, List, Option, Text, [], ap, arith, bool_eq, inl, inr, length, nat_eq, none, ok,
  ok_injective, option_eq, refl, returns_unless, some, some_eq, subst, sym, text_eq, true,
  true≢false, ℕ, ◌++◌, ◌>>=◌, ◌∙◌, ◌∷◌, ◌≡◌, ◌⊎◌,
}
use safecommit_ai.Runtime.{Runtime}
use safecommit_ai.Text.{codes}

-- What the end of a tournament establishes of its winner.
abbrev pub HasWinner : ChainState → Text → Type 0
HasWinner st winner =
    (length st.started_candidates ≡ 3)
    × (length st.completed_candidates ≡ 3)
    × (get st.completed_candidates winner ≡ some true)
    × (st.terminal ≡ true)

declared_count : (o : Option ℕ) → (o ≡ none) ⊎ (o ≡ some 3) → is_set o ≡ true → o ≡ some 3
declared_count o d h = elim d [ inl a ↦ absurd (true≢false (sym h ∙ ap is_set a)) | inr b ↦ b ]

completed-HasWinner :
    (st u : ChainState) (winner : Text)
    → IsTournament st
    → complete_tournament st winner ≡ ok u
    → HasWinner u winner
unfolding complete_tournament
completed-HasWinner st u winner inv h =
    returns_unless (λ v. HasWinner v winner) _ _
      (λ g.
        let three = declared_count st.declared_candidate_count inv.declared (ground arith) in
        (
          some_eq (
              !=-eq (some (length st.started_candidates)) st.declared_candidate_count (ground arith)
              ∙ three),
          some_eq (
              !=-eq (some (length st.completed_candidates)) st.declared_candidate_count
                (ground arith)
              ∙ three),
          !=-eq (get st.completed_candidates winner) (some true) (ground arith),
          refl,
        ))
      h

switch-HasWinner :
    (k : Option TournamentEvent) (st u : ChainState) (e : StoredEvent)
    → k ≡ some tournament_completed
    → IsTournament st
    → on_switch k st e ≡ ok u
    → (winner : Text) × (require_payload_string e.payload (codes "winnerCandidateId") ≡ ok winner)
      × HasWinner u winner
unfolding on_switch
switch-HasWinner none st u e p inv h = cc
switch-HasWinner (some tournament_started) st u e p inv h = cc
switch-HasWinner (some candidate_validation_started) st u e p inv h = cc
switch-HasWinner (some command_completed) st u e p inv h = cc
switch-HasWinner (some candidate_validation_completed) st u e p inv h = cc
switch-HasWinner (some tournament_completed) st u e p inv h =
    let (winner, last, at_winner) =
      >>=-eq-ok (require_payload_string e.payload (codes "winnerCandidateId")) _ h in
    (winner, at_winner, completed-HasWinner st u winner inv last)
switch-HasWinner (some tournament_failed) st u e p inv h = cc

module _ (rt : Runtime) where
  linked-IsTournament :
      (st : ChainState) (e : StoredEvent) → IsTournament st → IsTournament (linked st e)
  unfolding linked
  linked-IsTournament st e inv = record {
    declared = inv.declared;
    candidates = inv.candidates;
    sandboxes = inv.sandboxes;
    own_sandbox = inv.own_sandbox;
    completions = inv.completions;
    at_most = inv.at_most;
  }

  next-IsTournament : (st : ChainState) → IsTournament st → IsTournament (next st)
  next-IsTournament st inv = record {
    declared = inv.declared;
    candidates = inv.candidates;
    sandboxes = inv.sandboxes;
    own_sandbox = inv.own_sandbox;
    completions = inv.completions;
    at_most = inv.at_most;
  }

  verify_from-IsTournament :
      (st t : ChainState) (es : List StoredEvent)
      → IsTournament st
      → verify_from rt st es ≡ ok t
      → IsTournament t
  unfolding verify_from
  verify_from-IsTournament st t [] inv h = subst IsTournament (ok_injective h) inv
  verify_from-IsTournament st t (e ∷ es) inv h =
      let (u, rest, first) = >>=-eq-ok (verify_event rt st e) (λ v. verify_from rt v es) h in
      let (linking, v, switched, as_next) = verify_event-parts rt st u e first in
      let now =
        switch-IsTournament (tournament_event e.event_type) (linked st e) v e
          (linked-IsTournament st e inv) switched in
      verify_from-IsTournament u t es (subst IsTournament (sym as_next) (next-IsTournament v now))
        rest

  -- The events before the last one lead to a state, from which the last one leads on.
  last_event :
      (st t : ChainState) (es : List StoredEvent) (e : StoredEvent)
      → verify_from rt st (es ++ e ∷ []) ≡ ok t
      → (u : ChainState) × (verify_from rt st es ≡ ok u) × (verify_event rt u e ≡ ok t)
  unfolding verify_from
  last_event st t [] e h =
      let (u, rest, first) = >>=-eq-ok (verify_event rt st e) (λ v. ok v) h in
      (st, refl, first ∙ rest)
  last_event st t (f ∷ es) e h =
      let (u, rest, first) =
        >>=-eq-ok (verify_event rt st f) (λ v. verify_from rt v (es ++ e ∷ [])) h in
      let (w, before, at_last) = last_event u t es e rest in
      (w, ap (λ r. r >>= λ v. verify_from rt v es) first ∙ before, at_last)

  start_of_chain-IsTournament : IsTournament start_of_chain
  start_of_chain-IsTournament = record {
    declared = inl refl;
    candidates = tt;
    sandboxes = refl;
    own_sandbox = tt;
    completions = tt;
    at_most = omega arith;
  }

  -- At the end of an accepted chain that ends with TOURNAMENT_COMPLETED, the loop's maps have three started
  -- and three completed candidates, and the winner of the event is set as eligible in them.
  pub verify_event_chain-HasWinner :
      (es : List StoredEvent) (e : StoredEvent) (t : ChainState)
      → verify_event_chain rt (es ++ e ∷ []) ≡ ok t
      → tournament_event e.event_type ≡ some tournament_completed
      → (winner : Text) × (require_payload_string e.payload (codes "winnerCandidateId") ≡ ok winner)
        × HasWinner t winner
        × IsTournament t
  unfolding verify_event_chain
  verify_event_chain-HasWinner es e t h p =
      let (u, before, at_last) = last_event start_of_chain t es e h in
      let inv = verify_from-IsTournament start_of_chain u es start_of_chain-IsTournament before in
      let (linking, v, switched, as_next) = verify_event-parts rt u t e at_last in
      let here = linked-IsTournament u e inv in
      let (winner, named, won) =
        switch-HasWinner (tournament_event e.event_type) (linked u e) v e p here switched in
      let now =
        switch-IsTournament (tournament_event e.event_type) (linked u e) v e here switched in
      (
        winner,
        named,
        subst (λ x. HasWinner x winner) (sym as_next) won,
        subst IsTournament (sym as_next) (next-IsTournament v now),
      )

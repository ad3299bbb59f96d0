-- ===== src/Orchestrator/EventStore/Recorded.antt =====
-- The maps of the loop of `verifyEventChain` (apps/orchestrator/src/event-store.ts) hold what the events say.
use mathlib.Core.List.{append-nil, append_assoc}
use safecommit_ai.Domain.Workflow.Events.{event_type_eq}
use safecommit_ai.Orchestrator.EventStore.{
  ChainState, StoredEvent, TournamentEvent, candidate_validation_completed,
  candidate_validation_started, command_completed, flag_of, is_set, is_three, member_of,
  not_first_start, not_three_candidates, require_payload_string, start_of_chain,
  tournament_completed, tournament_event, tournament_failed, tournament_started,
}
use safecommit_ai.Orchestrator.EventStore.Cases.{
  complete_candidate, on_switch, start_candidate, start_declared,
}
use safecommit_ai.Orchestrator.EventStore.Chain.{
  linked, verify_event, verify_event_chain, verify_from,
}
use safecommit_ai.Orchestrator.EventStore.Replay.{text_of}
use safecommit_ai.Orchestrator.EventStore.Replay.Faithful.{require_text-str}
use safecommit_ai.Orchestrator.EventStore.Verified.{verify_event-parts}
use safecommit_ai.Prelude.{
  >>=-eq-ok, Bool, List, Option, Text, [], ap, bool_eq, nat_eq, none, not, ok, option_eq, refl,
  returns_ok, returns_unless, some, sym, text_eq, throw_if-eq-ok, ℕ, ◌!=◌, ◌++◌, ◌||◌, ◌∙◌, ◌∷◌,
  ◌≡◌,
}
use safecommit_ai.Runtime.{Runtime}
use safecommit_ai.Text.{codes}

-- The text that a payload names.
abbrev pub named : StoredEvent → Text → Option Text
named e name = text_of (member_of e.payload name)

abbrev pair_of {ℓ} : {A : Type ℓ} → Option Text → Option A → List (Text × A)
pair_of (some t) (some a) = (t, a) ∷ []
pair_of _ _ = []

abbrev start_of_kind : Option TournamentEvent → StoredEvent → List (Text × Text)
start_of_kind (some candidate_validation_started) e =
    pair_of (named e (codes "candidateId")) (named e (codes "sandboxId"))
start_of_kind _ e = []

abbrev completion_of_kind : Option TournamentEvent → StoredEvent → List (Text × Bool)
completion_of_kind (some candidate_validation_completed) e =
    pair_of (named e (codes "candidateId")) (flag_of (member_of e.payload (codes "eligible")))
completion_of_kind _ e = []

-- The candidates and the sandboxes that the events CANDIDATE_VALIDATION_STARTED name, in their order.
unfoldable pub starts_in : List StoredEvent → List (Text × Text)
starts_in [] = []
starts_in (e ∷ es) = start_of_kind (tournament_event e.event_type) e ++ starts_in es

-- The candidates that the events CANDIDATE_VALIDATION_COMPLETED name, with their `eligible`.
unfoldable pub completions_in : List StoredEvent → List (Text × Bool)
completions_in [] = []
completions_in (e ∷ es) = completion_of_kind (tournament_event e.event_type) e ++ completions_in es

pub named_text :
    (e : StoredEvent) (name t : Text)
    → require_payload_string e.payload name ≡ ok t
    → named e name ≡ some t
unfolding require_payload_string
named_text e name t h = ap text_of (require_text-str (member_of e.payload name) t h)

-- What the switch adds to the maps is what the event says.
abbrev Records : ChainState → Option TournamentEvent → StoredEvent → ChainState → Type 0
Records st k e u =
    (u.started_candidates ≡ st.started_candidates ++ start_of_kind k e)
    × (u.completed_candidates ≡ st.completed_candidates ++ completion_of_kind k e)

nothing_added : {A : Type 0} (xs : List A) → xs ≡ xs ++ []
nothing_added xs = sym (append-nil xs)

start-Records :
    (o : Option ℕ) (st u : ChainState) (e : StoredEvent)
    → start_declared o st e ≡ ok u
    → Records st (some candidate_validation_started) e u
unfolding start_declared start_candidate
start-Records none st u e h = cc
start-Records (some n) st u e h =
    let (candidate, second, at_candidate) =
      >>=-eq-ok (require_payload_string e.payload (codes "candidateId")) _ h in
    let (sandbox, last, at_sandbox) =
      >>=-eq-ok (require_payload_string e.payload (codes "sandboxId")) _ second in
    returns_unless (Records st (some candidate_validation_started) e) _ _
      (λ g.
        rw
          (
            named_text e (codes "candidateId") candidate at_candidate,
            named_text e (codes "sandboxId") sandbox at_sandbox,
          )
          (refl, nothing_added st.completed_candidates))
      last

complete-Records :
    (o : Option Bool) (st u : ChainState) (e : StoredEvent) (candidate sandbox : Text)
    → flag_of (member_of e.payload (codes "eligible")) ≡ o
    → named e (codes "candidateId") ≡ some candidate
    → complete_candidate st candidate sandbox o ≡ ok u
    → Records st (some candidate_validation_completed) e u
unfolding complete_candidate
complete-Records none st u e candidate sandbox flag name h = cc
complete-Records (some b) st u e candidate sandbox flag name h =
    returns_unless (Records st (some candidate_validation_completed) e) _ _
      (λ g. rw (flag, name) (nothing_added st.started_candidates, refl)) h

switch-Records :
    (k : Option TournamentEvent) (st u : ChainState) (e : StoredEvent)
    → on_switch k st e ≡ ok u
    → Records st k e u
unfolding on_switch
switch-Records none st u e h = cc
switch-Records (some tournament_started) st u e h =
    let (first, rest) =
      throw_if-eq-ok (st.index != 0 || is_set st.declared_candidate_count) not_first_start _ h in
    returns_unless (Records st (some tournament_started) e)
      (not (is_three (member_of e.payload (codes "candidateCount")))) not_three_candidates
      (λ g. (nothing_added st.started_candidates, nothing_added st.completed_candidates)) rest
switch-Records (some candidate_validation_started) st u e h =
    start-Records st.declared_candidate_count st u e h
switch-Records (some command_completed) st u e h =
    let (candidate, second, at_candidate) =
      >>=-eq-ok (require_payload_string e.payload (codes "candidateId")) _ h in
    let (sandbox, third, at_sandbox) =
      >>=-eq-ok (require_payload_string e.payload (codes "sandboxId")) _ second in
    let (command, last, at_command) =
      >>=-eq-ok (require_payload_string e.payload (codes "commandId")) _ third in
    returns_unless (Records st (some command_completed) e) _ _
      (λ g. (nothing_added st.started_candidates, nothing_added st.completed_candidates)) last
switch-Records (some candidate_validation_completed) st u e h =
    let (candidate, second, at_candidate) =
      >>=-eq-ok (require_payload_string e.payload (codes "candidateId")) _ h in
    let (sandbox, last, at_sandbox) =
      >>=-eq-ok (require_payload_string e.payload (codes "sandboxId")) _ second in
    complete-Records (flag_of (member_of e.payload (codes "eligible"))) st u e candidate sandbox
      refl (named_text e (codes "candidateId") candidate at_candidate) last
switch-Records (some tournament_completed) st u e h =
    let (winner, last, at_winner) =
      >>=-eq-ok (require_payload_string e.payload (codes "winnerCandidateId")) _ h in
    returns_unless (Records st (some tournament_completed) e) _ _
      (λ g. (nothing_added st.started_candidates, nothing_added st.completed_candidates)) last
switch-Records (some tournament_failed) st u e h =
    returns_unless (Records st (some tournament_failed) e) _ _
      (λ g. (nothing_added st.started_candidates, nothing_added st.completed_candidates)) h

module _ (rt : Runtime) where
  -- The maps at the end are those at the start with what the events add.
  verify_from-Records :
      (st t : ChainState) (es : List StoredEvent)
      → verify_from rt st es ≡ ok t
      → (t.started_candidates ≡ st.started_candidates ++ starts_in es)
        × (t.completed_candidates ≡ st.completed_candidates ++ completions_in es)
  unfolding verify_from starts_in completions_in linked
  verify_from-Records st t [] h =
      returns_ok
        (λ u.
          (u.started_candidates ≡ st.started_candidates ++ [])
          × (u.completed_candidates ≡ st.completed_candidates ++ []))
        (nothing_added st.started_candidates, nothing_added st.completed_candidates) h
  verify_from-Records st t (e ∷ es) h =
      let (u, rest, first) = >>=-eq-ok (verify_event rt st e) (λ v. verify_from rt v es) h in
      let (linking, v, switched, as_next) = verify_event-parts rt st u e first in
      let k = tournament_event e.event_type in
      let (add_starts, add_ends) = switch-Records k (linked st e) v e switched in
      let (later_starts, later_completions) = verify_from-Records u t es rest in
      (
        later_starts
            ∙ (ap (λ xs. xs ++ starts_in es) (ap (λ x. x.started_candidates) as_next ∙ add_starts)
                ∙ append_assoc st.started_candidates (start_of_kind k e) (starts_in es)),
        later_completions
            ∙ (ap (λ xs. xs ++ completions_in es)
                  (ap (λ x. x.completed_candidates) as_next ∙ add_ends)
                ∙ append_assoc st.completed_candidates (completion_of_kind k e)
                    (completions_in es)),
      )

  pub verify_event_chain-Records :
      (es : List StoredEvent) (t : ChainState)
      → verify_event_chain rt es ≡ ok t
      → (t.started_candidates ≡ starts_in es) × (t.completed_candidates ≡ completions_in es)
  unfolding verify_event_chain
  verify_event_chain-Records es t h = verify_from-Records start_of_chain t es h

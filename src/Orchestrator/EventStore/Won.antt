-- ===== src/Orchestrator/EventStore/Won.antt =====
-- The tournament that the events of an accepted log tell (`verifyEventChain` of
-- apps/orchestrator/src/event-store.ts).
use safecommit_ai.Orchestrator.EventStore.{
  ChainState, StoredEvent, get, tournament_completed, tournament_event,
}
use safecommit_ai.Orchestrator.EventStore.Chain.{verify_event_chain}
use safecommit_ai.Orchestrator.EventStore.Recorded.{
  completions_in, named, named_text, starts_in, verify_event_chain-Records,
}
use safecommit_ai.Orchestrator.EventStore.Winner.{verify_event_chain-HasWinner}
use safecommit_ai.Prelude.{
  List, Text, Unique, [], ap, length, map, nat_eq, ok, some, subst, sym, text_eq, true, ◌++◌, ◌∙◌,
  ◌∷◌, ◌≡◌,
}
use safecommit_ai.Runtime.{Runtime}
use safecommit_ai.Text.{codes}

-- What the events say of a tournament that this candidate has won.
pub record IsWonBy (es : List StoredEvent) (winner : Text) : Type 0 where
  pub starts : length (starts_in es) ≡ 3
  pub candidates : Unique (map (λ c. c.0) (starts_in es))
  pub sandboxes : Unique (map (λ c. c.1) (starts_in es))
  pub completions : length (completions_in es) ≡ 3
  pub completed_once : Unique (map (λ c. c.0) (completions_in es))
  pub eligible : get (completions_in es) winner ≡ some true

-- An accepted log that ends with TOURNAMENT_COMPLETED names a winner in that event. By the payloads of the
-- log's own events, exactly three candidates have started, no two with the same id or in the same sandbox,
-- exactly three validations have completed, no two of the same candidate, and the winner's validation has
-- completed with the flag `eligible` true.
pub verify_event_chain-IsWonBy :
    (rt : Runtime) (es : List StoredEvent) (e : StoredEvent) (t : ChainState)
    → verify_event_chain rt (es ++ e ∷ []) ≡ ok t
    → tournament_event e.event_type ≡ some tournament_completed
    → (winner : Text) × (named e (codes "winnerCandidateId") ≡ some winner)
      × IsWonBy (es ++ e ∷ []) winner
verify_event_chain-IsWonBy rt es e t h p =
    let (winner, at_winner, won, inv) = verify_event_chain-HasWinner rt es e t h p in
    let (by_starts, by_ends) = verify_event_chain-Records rt (es ++ e ∷ []) t h in
    let (three, all_three, at_best, _) = won in
    (
      winner,
      named_text e (codes "winnerCandidateId") winner at_winner,
      record {
        starts = ap length (sym by_starts) ∙ three;
        candidates = subst (λ cs. Unique (map (λ c. c.0) cs)) by_starts inv.candidates;
        sandboxes =
            subst (λ cs. Unique (map (λ c. c.1) cs)) by_starts
              (subst Unique (sym inv.sandboxes) inv.own_sandbox);
        completions = ap length (sym by_ends) ∙ all_three;
        completed_once = subst (λ cs. Unique (map (λ c. c.0) cs)) by_ends inv.completions;
        eligible = ap (λ cs. get cs winner) (sym by_ends) ∙ at_best;
      },
    )

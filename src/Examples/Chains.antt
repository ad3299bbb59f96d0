-- ===== src/Examples/Chains.antt =====
-- The theorems on event chains, on the log of a tournament of three candidates.
use safecommit_ai.Domain.Approval.{or_else}
use safecommit_ai.Domain.Evidence.{digest_of}
use safecommit_ai.Domain.Evidence.Normal.{Fields, Js}
use safecommit_ai.Examples.Platform.{toy}
use safecommit_ai.Orchestrator.EventStore.{
  ChainState, StoredEvent, get, require_payload_string, start_of_chain, tournament_event,
  unsigned_js,
}
use safecommit_ai.Orchestrator.EventStore.Chain.{verify_event_chain}
use safecommit_ai.Orchestrator.EventStore.Recorded.{named}
use safecommit_ai.Orchestrator.EventStore.Replay.{
  TournamentReplayCandidate, TournamentReplayState, empty_tournament_replay,
  reduce_tournament_event, replay_completed, replay_events,
}
use safecommit_ai.Orchestrator.EventStore.Replay.Replayed.{replay_events-winner}
use safecommit_ai.Orchestrator.EventStore.Verified.{Chained, verify_event_chain-Chained}
use safecommit_ai.Orchestrator.EventStore.Won.{IsWonBy, verify_event_chain-IsWonBy}
use safecommit_ai.Prelude.{
  Bool, List, Option, Text, [], bool_beq, err, false, none, ok, refl, some, suc, text_beq, true, ℕ,
  ◌++◌, ◌∷◌, ◌≡◌,
}
use safecommit_ai.Text.{codes, is_blank}
use safecommit_ai.Text.Encoding.{number_text}

text_field : Text → Text → Fields → Fields
text_field k v fs = Fields.field k (Js.str v) fs

unsealed_event : Text → Fields → Option Text → ℕ → StoredEvent
unsealed_event kind payload previous n = record {
  schema_version = 1;
  sequence = n;
  session_id = codes "local";
  event_type = kind;
  occurred_at = codes "t";
  payload = payload;
  provenance = record {
    mode = codes "mock";
    kind = codes "local-test";
    provider = codes "local-process";
    notice = codes "n";
  };
  previous_event_hash = previous;
  event_hash = [];
}

sealed_event : Text → Fields → Option Text → ℕ → StoredEvent
unfolding unsealed_event
sealed_event kind payload previous n =
    let e = unsealed_event kind payload previous n in
    record e { event_hash = or_else (digest_of toy (unsigned_js e)) [] }

-- The events, each sealed after the one before it.
seal_all : Option Text → ℕ → List (Text × Fields) → List StoredEvent
unfolding sealed_event
seal_all previous n [] = []
seal_all previous n (p ∷ ps) =
    let e = sealed_event p.0 p.1 previous n in e ∷ seal_all (some e.event_hash) (suc n) ps

started : Text → Text → Text × Fields
unfolding text_field
started candidate sandbox = (
  codes "CANDIDATE_VALIDATION_STARTED",
  text_field (codes "candidateId") candidate (text_field (codes "sandboxId") sandbox Fields.end),
)

done : Text → Text → Bool → Text × Fields
unfolding text_field
done candidate sandbox eligible = (
  codes "CANDIDATE_VALIDATION_COMPLETED",
  text_field (codes "candidateId") candidate (
      text_field (codes "sandboxId") sandbox
        (Fields.field (codes "eligible") (Js.bool eligible) Fields.end)),
)

opening : List (Text × Fields)
unfolding started done
opening =
    (
      codes "TOURNAMENT_STARTED",
      Fields.field (codes "candidateCount") (Js.num (codes "3")) Fields.end,
    )
    ∷ started (codes "a") (codes "1")
    ∷ started (codes "b") (codes "2")
    ∷ started (codes "c") (codes "3")
    ∷ done (codes "a") (codes "1") false
    ∷ done (codes "b") (codes "2") true
    ∷ done (codes "c") (codes "3") true
    ∷ []

events : List StoredEvent
unfolding opening seal_all
events = seal_all none 1 opening

last_hash : List StoredEvent → Option Text
last_hash [] = none
last_hash (e ∷ []) = some e.event_hash
last_hash (e ∷ f ∷ fs) = last_hash (f ∷ fs)

closing : StoredEvent
unfolding events last_hash sealed_event text_field
closing =
    sealed_event (codes "TOURNAMENT_COMPLETED")
      (text_field (codes "winnerCandidateId") (codes "b") Fields.end) (last_hash events) 8

end_state : ChainState
unfolding closing verify_event_chain
end_state = elim (verify_event_chain toy (events ++ closing ∷ [])) [
  | ok st ↦ st
  | err _ ↦ start_of_chain
]

accepted_chain : verify_event_chain toy (events ++ closing ∷ []) ≡ ok end_state
unfolding end_state toy digest_of unsigned_js text_beq number_text is_blank tournament_event
    require_payload_string bool_beq
accepted_chain = refl

verify_event_chain-Chained_example : Chained toy none none 0 (events ++ closing ∷ [])
verify_event_chain-Chained_example =
    verify_event_chain-Chained toy (events ++ closing ∷ []) end_state accepted_chain

verify_event_chain-IsWonBy_example :
    (winner : Text) × (named closing (codes "winnerCandidateId") ≡ some winner)
    × IsWonBy (events ++ closing ∷ []) winner
unfolding closing tournament_event text_beq
verify_event_chain-IsWonBy_example =
    verify_event_chain-IsWonBy toy events closing end_state accepted_chain refl

replay_events-winner_example :
    (r : TournamentReplayState) × (replay_events toy
        (events ++ closing ∷ [])
        empty_tournament_replay
        (reduce_tournament_event (λ v. []))
      ≡ ok r)
    × (r.replay_status ≡ replay_completed)
    × (w : Text) × (r.winner_candidate_id ≡ some w)
    × (k : TournamentReplayCandidate) × (get r.replayed_candidates w ≡ some k)
    × (k.is_eligible ≡ Js.bool true)
unfolding closing tournament_event text_beq
replay_events-winner_example =
    replay_events-winner (λ v. []) toy events closing end_state accepted_chain refl

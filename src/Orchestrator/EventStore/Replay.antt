-- ===== src/Orchestrator/EventStore/Replay.antt =====
-- `replayEvents` and `reduceTournamentEvent` of apps/orchestrator/src/event-store.ts. The reducer reads
-- the payload without a check, so the fields of a replayed candidate are any JavaScript values.
pub mod Faithful
pub mod Replayed
use safecommit_ai.Domain.Evidence.Normal.{Js}
use safecommit_ai.Domain.Workflow.Events.{event_type_eq}
use safecommit_ai.Orchestrator.EventStore.{
  ChainError, LocalTestProvenance, StoredEvent, TournamentEvent, candidate_validation_completed,
  member_of, tournament_completed, tournament_event, tournament_failed, tournament_started,
}
use safecommit_ai.Orchestrator.EventStore.Chain.{verify_event_chain}
use safecommit_ai.Prelude.{
  List, Option, Result, Text, [], bool_eq, if◌then◌else◌, nat_eq, none, ok, option_eq, some,
  text_eq, ◌==◌, ◌>>=◌, ◌∷◌,
}
use safecommit_ai.Runtime.{Runtime}
use safecommit_ai.Text.{codes}

pub data ReplayStatus : Type 0 where
  replay_idle replay_running replay_completed replay_failed : ReplayStatus

pub record TournamentReplayCandidate : Type 0 where
  pub sandbox : Js
  pub build_outcome : Js
  pub unit_tests_outcome : Js
  pub safety_tests_outcome : Js
  pub is_eligible : Js
  pub weighted_score : Js

pub record TournamentReplayState : Type 0 where
  pub replayed_session : Option Text
  pub replayed_provenance : Option LocalTestProvenance
  pub replay_status : ReplayStatus
  pub replayed_candidates : List (Text × TournamentReplayCandidate)
  pub winner_candidate_id : Option Text

-- EMPTY_TOURNAMENT_REPLAY
abbrev pub empty_tournament_replay : TournamentReplayState
empty_tournament_replay = record {
  replayed_session = none;
  replayed_provenance = none;
  replay_status = replay_idle;
  replayed_candidates = [];
  winner_candidate_id = none;
}

-- { ...entries, [key]: value }
unfoldable pub set_entry {ℓ} : {V : Type ℓ} → List (Text × V) → Text → V → List (Text × V)
set_entry [] k v = (k, v) ∷ []
set_entry (e ∷ es) k v = let rest = set_entry es k v in if e.0 == k then (k, v) ∷ es else e ∷ rest

abbrev pub text_of : Js → Option Text
text_of (Js.str t) = some t
text_of _ = none

-- The candidate of a CANDIDATE_VALIDATION_COMPLETED event.
unfoldable pub replayed_candidate : StoredEvent → TournamentReplayCandidate
replayed_candidate e = record {
  sandbox = member_of e.payload (codes "sandboxId");
  build_outcome = member_of e.payload (codes "buildPassed");
  unit_tests_outcome = member_of e.payload (codes "unitTestsPassed");
  safety_tests_outcome = member_of e.payload (codes "safetyTestsPassed");
  is_eligible = member_of e.payload (codes "eligible");
  weighted_score = member_of e.payload (codes "weightedScore");
}

-- The language's conversion to a property key is a parameter where the value is no text.
module _ (to_property_key : Js → Text) where
  unfoldable pub property_key : Js → Text
  property_key (Js.str t) = t
  property_key v = to_property_key v

  unfoldable pub on_replayed :
      Option TournamentEvent → TournamentReplayState → StoredEvent → TournamentReplayState
  unfolding property_key set_entry replayed_candidate
  on_replayed (some tournament_started) r e = record r {
    replayed_session = some e.session_id;
    replayed_provenance = some e.provenance;
    replay_status = replay_running;
  }
  on_replayed (some candidate_validation_completed) r e = record r {
    replayed_candidates =
        set_entry r.replayed_candidates (property_key (member_of e.payload (codes "candidateId")))
          (replayed_candidate e);
  }
  on_replayed (some tournament_completed) r e = record r {
    replay_status = replay_completed;
    winner_candidate_id = text_of (member_of e.payload (codes "winnerCandidateId"));
  }
  on_replayed (some tournament_failed) r e = record r { replay_status = replay_failed }
  on_replayed _ r e = r

  unfoldable pub reduce_tournament_event :
      TournamentReplayState → StoredEvent → TournamentReplayState
  unfolding on_replayed
  reduce_tournament_event r e = on_replayed (tournament_event e.event_type) r e

-- xs.reduce(f, initial)
unfoldable pub reduce {ℓ} : {S : Type ℓ} → (S → StoredEvent → S) → S → List StoredEvent → S
reduce f s [] = s
reduce f s (e ∷ es) = reduce f (f s e) es

unfoldable pub replay_events :
    {S : Type 0} → Runtime → List StoredEvent → S → (S → StoredEvent → S) → Result ChainError S
unfolding reduce
replay_events rt es initial reducer =
    verify_event_chain rt es >>= λ _. ok (reduce reducer initial es)

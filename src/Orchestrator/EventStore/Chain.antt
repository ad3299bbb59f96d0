-- ===== src/Orchestrator/EventStore/Chain.antt =====
-- The loop of `verifyEventChain` (apps/orchestrator/src/event-store.ts).
use safecommit_ai.Domain.Evidence.{digest_of}
use safecommit_ai.Domain.Workflow.Events.{event_type_eq}
use safecommit_ai.Orchestrator.EventStore.{
  ChainError, ChainState, StoredEvent, after_terminal_event, hash_mismatch, invalid_sequence,
  is_local_test, is_other_session, mixed_sessions, no_local_provenance, not_linked, start_of_chain,
  tournament_event, unsigned_js,
}
use safecommit_ai.Orchestrator.EventStore.Cases.{on_switch}
use safecommit_ai.Prelude.{
  List, Option, Result, [], bool_eq, err, if◌then◌else◌, nat_eq, none, not, ok, option_eq, some,
  text_eq, ◌!=◌, ◌+◌, ◌>>=◌, ◌||◌, ◌∷◌,
}
use safecommit_ai.Runtime.{Runtime}

-- What the loop has seen of a link that holds.
unfoldable pub linked : ChainState → StoredEvent → ChainState
linked st e = record st { previous_hash = some e.event_hash; chain_session = some e.session_id }

abbrev pub next : ChainState → ChainState
next st = record st { index = st.index + 1 }

module _ (rt : Runtime) where
  -- The checks before the switch. A payload is JSON, so that its digest does not throw.
  unfoldable pub link_error : ChainState → StoredEvent → Option ChainError
  unfolding is_local_test
  link_error st e =
      if e.schema_version != 1 || e.sequence != st.index + 1
      then some invalid_sequence
      else if is_other_session st.chain_session e.session_id
      then some mixed_sessions
      else if not (is_local_test e.provenance)
      then some no_local_provenance
      else if e.previous_event_hash != st.previous_hash
      then some not_linked
      else if digest_of rt (unsigned_js e) != some e.event_hash
      then some hash_mismatch
      else if st.terminal
      then some after_terminal_event
      else none

  unfoldable pub after_link :
      Option ChainError → ChainState → StoredEvent → Result ChainError ChainState
  unfolding linked on_switch
  after_link (some problem) st e = err problem
  after_link none st e =
      on_switch (tournament_event e.event_type) (linked st e) e >>= λ t. ok (next t)

  unfoldable pub verify_event : ChainState → StoredEvent → Result ChainError ChainState
  unfolding link_error after_link
  verify_event st e = after_link (link_error st e) st e

  unfoldable pub verify_from : ChainState → List StoredEvent → Result ChainError ChainState
  unfolding verify_event
  verify_from st [] = ok st
  verify_from st (e ∷ es) = verify_event st e >>= λ t. verify_from t es

  -- The state at the end of the loop, where the source returns nothing.
  unfoldable pub verify_event_chain : List StoredEvent → Result ChainError ChainState
  unfolding verify_from
  verify_event_chain es = verify_from start_of_chain es

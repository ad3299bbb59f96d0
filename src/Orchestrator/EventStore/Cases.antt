-- ===== src/Orchestrator/EventStore/Cases.antt =====
-- The switch of `verifyEventChain` (apps/orchestrator/src/event-store.ts).
use safecommit_ai.Orchestrator.EventStore.{
  ChainError, ChainState, StoredEvent, TournamentEvent, before_start,
  candidate_validation_completed, candidate_validation_started, command_completed,
  duplicate_or_unbound, flag_of, get, incomplete_tournament, is_set, is_three, member_of,
  not_first_start, not_started, not_three_candidates, not_unique_or_too_many,
  require_payload_string, tournament_completed, tournament_failed, tournament_started,
  unsupported_type,
}
use safecommit_ai.Prelude.{
  Bool, Option, Result, Text, [], bool_eq, err, includes, leb, length, nat_eq, none, not, ok,
  option_eq, some, text_eq, throw_if, true, ℕ, ◌!=◌, ◌++◌, ◌>>=◌, ◌||◌, ◌∷◌,
}
use safecommit_ai.Text.{codes}

unfoldable pub on_tournament_started : ChainState → StoredEvent → Result ChainError ChainState
on_tournament_started st e =
    throw_if (st.index != 0 || is_set st.declared_candidate_count) not_first_start (
      throw_if (not (is_three (member_of e.payload (codes "candidateCount")))) not_three_candidates
        (ok (record st { declared_candidate_count = some 3 })))

unfoldable pub start_candidate : ChainState → ℕ → Text → Text → Result ChainError ChainState
start_candidate st declared candidate sandbox =
    throw_if
      (is_set (get st.started_candidates candidate)
        || includes st.started_sandboxes sandbox
        || leb declared (length st.started_candidates))
      not_unique_or_too_many
      (ok (record st {
        started_candidates = st.started_candidates ++ (candidate, sandbox) ∷ [];
        started_sandboxes = st.started_sandboxes ++ sandbox ∷ [];
      }))

unfoldable pub start_declared : Option ℕ → ChainState → StoredEvent → Result ChainError ChainState
unfolding start_candidate
start_declared none st e = err before_start
start_declared (some declared) st e = do
  candidate ← require_payload_string e.payload (codes "candidateId")
  sandbox ← require_payload_string e.payload (codes "sandboxId")
  start_candidate st declared candidate sandbox

unfoldable pub on_candidate_started : ChainState → StoredEvent → Result ChainError ChainState
unfolding start_declared
on_candidate_started st e = start_declared st.declared_candidate_count st e

unfoldable pub on_command_completed : ChainState → StoredEvent → Result ChainError ChainState
on_command_completed st e = do
  candidate ← require_payload_string e.payload (codes "candidateId")
  sandbox ← require_payload_string e.payload (codes "sandboxId")
  command ← require_payload_string e.payload (codes "commandId")
  throw_if (get st.started_candidates candidate != some sandbox) not_started (ok st)

unfoldable pub complete_candidate :
    ChainState → Text → Text → Option Bool → Result ChainError ChainState
complete_candidate st candidate sandbox none = err duplicate_or_unbound
complete_candidate st candidate sandbox (some eligible) =
    throw_if
      (get st.started_candidates candidate != some sandbox
        || is_set (get st.completed_candidates candidate))
      duplicate_or_unbound
      (ok (record st {
        completed_candidates = st.completed_candidates ++ (candidate, eligible) ∷ [];
      }))

unfoldable pub on_candidate_completed : ChainState → StoredEvent → Result ChainError ChainState
unfolding complete_candidate
on_candidate_completed st e = do
  candidate ← require_payload_string e.payload (codes "candidateId")
  sandbox ← require_payload_string e.payload (codes "sandboxId")
  complete_candidate st candidate sandbox (flag_of (member_of e.payload (codes "eligible")))

unfoldable pub complete_tournament : ChainState → Text → Result ChainError ChainState
complete_tournament st winner =
    throw_if
      (not (is_set st.declared_candidate_count)
        || some (length st.started_candidates) != st.declared_candidate_count
        || some (length st.completed_candidates) != st.declared_candidate_count
        || get st.completed_candidates winner != some true)
      incomplete_tournament (ok (record st { terminal = true }))

unfoldable pub on_tournament_completed : ChainState → StoredEvent → Result ChainError ChainState
unfolding complete_tournament
on_tournament_completed st e = do
  winner ← require_payload_string e.payload (codes "winnerCandidateId")
  complete_tournament st winner

unfoldable pub on_tournament_failed : ChainState → Result ChainError ChainState
on_tournament_failed st =
    throw_if (not (is_set st.declared_candidate_count)) before_start
      (ok (record st { terminal = true }))

unfoldable pub on_switch :
    Option TournamentEvent → ChainState → StoredEvent → Result ChainError ChainState
unfolding on_tournament_started on_candidate_started on_command_completed on_candidate_completed
    on_tournament_completed on_tournament_failed
on_switch none st e = err unsupported_type
on_switch (some tournament_started) st e = on_tournament_started st e
on_switch (some candidate_validation_started) st e = on_candidate_started st e
on_switch (some command_completed) st e = on_command_completed st e
on_switch (some candidate_validation_completed) st e = on_candidate_completed st e
on_switch (some tournament_completed) st e = on_tournament_completed st e
on_switch (some tournament_failed) st e = on_tournament_failed st

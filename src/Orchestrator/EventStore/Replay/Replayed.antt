-- ===== src/Orchestrator/EventStore/Replay/Replayed.antt =====
-- The replay of a completed tournament (`replayEvents` and `reduceTournamentEvent` of
-- apps/orchestrator/src/event-store.ts).
use safecommit_ai.Domain.Evidence.Normal.{Js}
use safecommit_ai.Orchestrator.EventStore.{
  ChainState, StoredEvent, TournamentEvent, get, member_of, require_payload_string, start_of_chain,
  tournament_completed, tournament_event,
}
use safecommit_ai.Orchestrator.EventStore.Chain.{
  linked, verify_event, verify_event_chain, verify_from,
}
use safecommit_ai.Orchestrator.EventStore.Replay.{
  TournamentReplayCandidate, TournamentReplayState, empty_tournament_replay, on_replayed, reduce,
  reduce_tournament_event, replay_completed, replay_events, text_of,
}
use safecommit_ai.Orchestrator.EventStore.Replay.Faithful.{Agrees, require_text-str, switch-Agrees}
use safecommit_ai.Orchestrator.EventStore.Verified.{verify_event-parts}
use safecommit_ai.Orchestrator.EventStore.Winner.{verify_event_chain-HasWinner}
use safecommit_ai.Prelude.{
  >>=-eq-ok, List, Option, Text, [], ap, ok, refl, returns_ok, some, subst, sym, true, ◌++◌, ◌>>=◌,
  ◌∙◌, ◌∷◌, ◌≡◌,
}
use safecommit_ai.Runtime.{Runtime}
use safecommit_ai.Text.{codes}

reduce-append_one :
    {S : Type 0} (f : S → StoredEvent → S) (s : S) (es : List StoredEvent) (e : StoredEvent)
    → reduce f s (es ++ e ∷ []) ≡ f (reduce f s es) e
unfolding reduce
reduce-append_one f s [] e = refl
reduce-append_one f s (d ∷ es) e = reduce-append_one f (f s d) es e

module _ (to_property_key : Js → Text) (rt : Runtime) where
  verify_from-Agrees :
      (st t : ChainState) (r : TournamentReplayState) (es : List StoredEvent)
      → Agrees st r
      → verify_from rt st es ≡ ok t
      → Agrees t (reduce (reduce_tournament_event to_property_key) r es)
  unfolding verify_from reduce reduce_tournament_event linked
  verify_from-Agrees st t r [] inv h = returns_ok (λ v. Agrees v r) inv h
  verify_from-Agrees st t r (e ∷ es) inv h =
      let (u, rest, first) = >>=-eq-ok (verify_event rt st e) (λ v. verify_from rt v es) h in
      let (linking, v, switched, as_next) = verify_event-parts rt st u e first in
      let k = tournament_event e.event_type in
      let now = switch-Agrees to_property_key k (linked st e) v r e inv switched in
      verify_from-Agrees u t (on_replayed to_property_key k r e) es
        (subst (λ x. Agrees x (on_replayed to_property_key k r e)) (sym as_next) now) rest

  replayed_end :
      (k : Option TournamentEvent) (r : TournamentReplayState) (e : StoredEvent)
      → k ≡ some tournament_completed
      → ((on_replayed to_property_key k r e).replay_status ≡ replay_completed)
        × ((on_replayed to_property_key k r e).winner_candidate_id
            ≡ text_of (member_of e.payload (codes "winnerCandidateId")))
  unfolding on_replayed
  replayed_end k r e p =
      subst
        (λ x.
          ((on_replayed to_property_key x r e).replay_status ≡ replay_completed)
          × ((on_replayed to_property_key x r e).winner_candidate_id
              ≡ text_of (member_of e.payload (codes "winnerCandidateId"))))
        (sym p) (refl, refl)

  named_winner :
      (e : StoredEvent) (w : Text)
      → require_payload_string e.payload (codes "winnerCandidateId") ≡ ok w
      → text_of (member_of e.payload (codes "winnerCandidateId")) ≡ some w
  unfolding require_payload_string
  named_winner e w h =
      ap text_of (require_text-str (member_of e.payload (codes "winnerCandidateId")) w h)

  -- The replay of an accepted chain that ends with TOURNAMENT_COMPLETED returns; the tournament is
  -- completed in it, it names a winner, and it has that candidate as an eligible one.
  pub replay_events-winner :
      (es : List StoredEvent) (e : StoredEvent) (t : ChainState)
      → verify_event_chain rt (es ++ e ∷ []) ≡ ok t
      → tournament_event e.event_type ≡ some tournament_completed
      → (r : TournamentReplayState) × (replay_events rt
            (es ++ e ∷ [])
            empty_tournament_replay
            (reduce_tournament_event to_property_key)
          ≡ ok r)
        × (r.replay_status ≡ replay_completed)
        × (w : Text) × (r.winner_candidate_id ≡ some w)
        × (k : TournamentReplayCandidate) × (get r.replayed_candidates w ≡ some k)
        × (k.is_eligible ≡ Js.bool true)
  unfolding replay_events reduce_tournament_event verify_event_chain
  replay_events-winner es e t h p =
      let f = reduce_tournament_event to_property_key in
      let r = reduce f empty_tournament_replay (es ++ e ∷ []) in
      let (w, named, won, entries) = verify_event_chain-HasWinner rt es e t h p in
      let last = reduce-append_one f empty_tournament_replay es e in
      let ended =
        replayed_end (tournament_event e.event_type) (reduce f empty_tournament_replay es) e p in
      let agrees =
        verify_from-Agrees start_of_chain t empty_tournament_replay (es ++ e ∷ []) (λ c b q. cc)
          h in
      let (k, there, eligible) = agrees w true won.2 in
      (
        r,
        ap (λ v. v >>= λ _. ok r) h,
        ap (λ x. x.replay_status) last ∙ ended.0,
        w,
        ap (λ x. x.winner_candidate_id) last ∙ ended.1 ∙ named_winner e w named,
        k,
        there,
        eligible,
      )

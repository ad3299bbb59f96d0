-- ===== src/Orchestrator/EventStore/Verified.antt =====
-- The chain that `verifyEventChain` accepts (apps/orchestrator/src/event-store.ts).
use safecommit_ai.Domain.Evidence.{digest_of}
use safecommit_ai.Domain.Workflow.Events.{event_type_eq}
use safecommit_ai.Orchestrator.EventStore.{
  ChainError, ChainState, StoredEvent, TournamentEvent, candidate_validation_completed,
  candidate_validation_started, command_completed, flag_of, is_local_test, is_other_session, is_set,
  is_three, member_of, not_first_start, not_three_candidates, require_payload_string,
  start_of_chain, tournament_completed, tournament_event, tournament_failed, tournament_started,
  unsigned_js,
}
use safecommit_ai.Orchestrator.EventStore.Cases.{
  complete_candidate, on_switch, start_candidate, start_declared,
}
use safecommit_ai.Orchestrator.EventStore.Chain.{
  after_link, link_error, linked, next, verify_event, verify_event_chain, verify_from,
}
use safecommit_ai.Prelude.{
  !=-eq, >>=-eq-ok, Bool, List, Option, Text, [], ap, arith, bool_eq, false, nat_eq, none, not, ok,
  ok_injective, option_eq, refl, returns_unless, some, subst, sym, text_eq, throw_if-eq-ok, true, ℕ,
  ◌!=◌, ◌+◌, ◌||◌, ◌∙◌, ◌∷◌, ◌≡◌,
}
use safecommit_ai.Runtime.{Runtime}
use safecommit_ai.Text.{codes}

-- The switch leaves the link to the events before alone.
abbrev Keeps : ChainState → ChainState → Type 0
Keeps s u =
    (u.index ≡ s.index) × (u.previous_hash ≡ s.previous_hash) × (u.chain_session ≡ s.chain_session)

start-Keeps :
    (o : Option ℕ) (st u : ChainState) (e : StoredEvent) → start_declared o st e ≡ ok u → Keeps st u
unfolding start_declared start_candidate
start-Keeps none st u e h = cc
start-Keeps (some n) st u e h =
    let (candidate, second, at_candidate) =
      >>=-eq-ok (require_payload_string e.payload (codes "candidateId")) _ h in
    let (sandbox, last, at_sandbox) =
      >>=-eq-ok (require_payload_string e.payload (codes "sandboxId")) _ second in
    returns_unless (Keeps st) _ _ (λ g. (refl, refl, refl)) last

complete-Keeps :
    (o : Option Bool) (st u : ChainState) (candidate sandbox : Text)
    → complete_candidate st candidate sandbox o ≡ ok u
    → Keeps st u
unfolding complete_candidate
complete-Keeps none st u candidate sandbox h = cc
complete-Keeps (some b) st u candidate sandbox h =
    returns_unless (Keeps st) _ _ (λ g. (refl, refl, refl)) h

switch-Keeps :
    (k : Option TournamentEvent) (st u : ChainState) (e : StoredEvent)
    → on_switch k st e ≡ ok u
    → Keeps st u
unfolding on_switch
switch-Keeps none st u e h = cc
switch-Keeps (some tournament_started) st u e h =
    let (first, rest) =
      throw_if-eq-ok (st.index != 0 || is_set st.declared_candidate_count) not_first_start _ h in
    returns_unless (Keeps st) (not (is_three (member_of e.payload (codes "candidateCount"))))
      not_three_candidates (λ g. (refl, refl, refl)) rest
switch-Keeps (some candidate_validation_started) st u e h =
    start-Keeps st.declared_candidate_count st u e h
switch-Keeps (some command_completed) st u e h =
    let (candidate, second, at_candidate) =
      >>=-eq-ok (require_payload_string e.payload (codes "candidateId")) _ h in
    let (sandbox, third, at_sandbox) =
      >>=-eq-ok (require_payload_string e.payload (codes "sandboxId")) _ second in
    let (command, last, at_command) =
      >>=-eq-ok (require_payload_string e.payload (codes "commandId")) _ third in
    returns_unless (Keeps st) _ _ (λ g. (refl, refl, refl)) last
switch-Keeps (some candidate_validation_completed) st u e h =
    let (candidate, second, at_candidate) =
      >>=-eq-ok (require_payload_string e.payload (codes "candidateId")) _ h in
    let (sandbox, last, at_sandbox) =
      >>=-eq-ok (require_payload_string e.payload (codes "sandboxId")) _ second in
    complete-Keeps (flag_of (member_of e.payload (codes "eligible"))) st u candidate sandbox last
switch-Keeps (some tournament_completed) st u e h =
    let (winner, last, at_winner) =
      >>=-eq-ok (require_payload_string e.payload (codes "winnerCandidateId")) _ h in
    returns_unless (Keeps st) _ _ (λ g. (refl, refl, refl)) last
switch-Keeps (some tournament_failed) st u e h =
    returns_unless (Keeps st) _ _ (λ g. (refl, refl, refl)) h

module _ (rt : Runtime) where
  -- The events follow `previous` and `n` others in the session: each has the next number, links to the
  -- hash before it, carries the digest of its own content and comes from a local test.
  abbrev pub Chained : Option Text → Option Text → ℕ → List StoredEvent → Type 0
  Chained session previous n [] = Unit
  Chained session previous n (e ∷ es) =
      (e.sequence ≡ n + 1)
      × (is_other_session session e.session_id ≡ false)
      × (e.previous_event_hash ≡ previous)
      × (digest_of rt (unsigned_js e) ≡ some e.event_hash)
      × (is_local_test e.provenance ≡ true)
      × Chained (some e.session_id) (some e.event_hash) (n + 1) es

  link-facts :
      (st : ChainState) (e : StoredEvent)
      → link_error rt st e ≡ none
      → (e.sequence ≡ st.index + 1)
        × (is_other_session st.chain_session e.session_id ≡ false)
        × ((e.previous_event_hash != st.previous_hash) ≡ false)
        × ((digest_of rt (unsigned_js e) != some e.event_hash) ≡ false)
        × (is_local_test e.provenance ≡ true)
        × (st.terminal ≡ false)
  unfolding link_error
  link-facts st e h = ground arith

  after_link-ok :
      (o : Option ChainError) (st t : ChainState) (e : StoredEvent)
      → after_link rt o st e ≡ ok t
      → (o ≡ none)
        × (u : ChainState) × (on_switch (tournament_event e.event_type) (linked st e) e ≡ ok u)
        × (t ≡ next u)
  unfolding after_link
  after_link-ok (some problem) st t e h = cc
  after_link-ok none st t e h =
      let (u, last, first) =
        >>=-eq-ok (on_switch (tournament_event e.event_type) (linked st e) e) (λ v. ok (next v))
          h in
      (refl, u, first, sym (ok_injective last))

  pub verify_event-parts :
      (st t : ChainState) (e : StoredEvent)
      → verify_event rt st e ≡ ok t
      → (link_error rt st e ≡ none)
        × (u : ChainState) × (on_switch (tournament_event e.event_type) (linked st e) e ≡ ok u)
        × (t ≡ next u)
  unfolding verify_event
  verify_event-parts st t e h = after_link-ok (link_error rt st e) st t e h

  Chained-along :
      {a b : Option Text} {c d : Option Text} {m n : ℕ} (es : List StoredEvent)
      → a ≡ b
      → c ≡ d
      → m ≡ n
      → Chained a c m es
      → Chained b d n es
  Chained-along {a} {b} {c} {d} {m} {n} es p q r h =
      subst (λ x. Chained b d x es) r
        (subst (λ x. Chained b x m es) q (subst (λ x. Chained x c m es) p h))

  verify_from-Chained :
      (st t : ChainState) (es : List StoredEvent)
      → verify_from rt st es ≡ ok t
      → Chained st.chain_session st.previous_hash st.index es
  unfolding verify_from linked
  verify_from-Chained st t [] h = tt
  verify_from-Chained st t (e ∷ es) h =
      let (u, rest, first) = >>=-eq-ok (verify_event rt st e) (λ v. verify_from rt v es) h in
      let (linking, v, switched, as_next) = verify_event-parts st u e first in
      let facts = link-facts st e linking in
      let kept = switch-Keeps (tournament_event e.event_type) (linked st e) v e switched in
      let later = verify_from-Chained u t es rest in
      (
        facts.0,
        facts.1,
        !=-eq e.previous_event_hash st.previous_hash facts.2,
        !=-eq (digest_of rt (unsigned_js e)) (some e.event_hash) facts.3,
        facts.4,
        Chained-along es (ap (λ x. x.chain_session) as_next ∙ kept.2)
            (ap (λ x. x.previous_hash) as_next ∙ kept.1)
            (ap (λ x. x.index) as_next ∙ ap (λ n. n + 1) kept.0) later,
      )

  -- An accepted chain is numbered from one without a gap, stays in one session, comes from a local test,
  -- and each event carries the digest of its own content and links to the hash of the event before it,
  -- the first one to none.
  pub verify_event_chain-Chained :
      (es : List StoredEvent) (t : ChainState)
      → verify_event_chain rt es ≡ ok t
      → Chained none none 0 es
  unfolding verify_event_chain
  verify_event_chain-Chained es t h = verify_from-Chained start_of_chain t es h

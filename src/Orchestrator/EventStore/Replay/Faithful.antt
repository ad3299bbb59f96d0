-- ===== src/Orchestrator/EventStore/Replay/Faithful.antt =====
-- The replay of an accepted chain agrees with its verification
-- (apps/orchestrator/src/event-store.ts).
use safecommit_ai.Domain.Evidence.Normal.{Js}
use safecommit_ai.Orchestrator.EventStore.{
  ChainState, StoredEvent, TournamentEvent, candidate_validation_completed,
  candidate_validation_started, command_completed, duplicate_or_unbound, flag_of, get, is_set,
  is_three, member_of, not_first_start, not_three_candidates, require_payload_string, require_text,
  tournament_completed, tournament_failed, tournament_started,
}
use safecommit_ai.Orchestrator.EventStore.Cases.{
  complete_candidate, on_candidate_completed, on_switch, start_candidate, start_declared,
}
use safecommit_ai.Orchestrator.EventStore.Replay.{
  TournamentReplayCandidate, TournamentReplayState, on_replayed, property_key, replayed_candidate,
  set_entry,
}
use safecommit_ai.Prelude.{
  ==-eq, ==-refl, >>=-eq-ok, Bool, Bool-cases, List, Option, Text, [], ap, arith, bool_eq, false,
  inl, inr, nat_eq, none, not, ok, option_eq, refl, returns_ok, returns_unless, some, some_eq,
  subst, sym, text_eq, throw_if-eq-ok, ||-false, ℕ, ◌!=◌, ◌++◌, ◌==◌, ◌||◌, ◌∙◌, ◌∷◌, ◌≡◌,
}
use safecommit_ai.Text.{codes}

module _ {ℓ} {V : Type ℓ} where
  get-set_entry-same : (es : List (Text × V)) (k : Text) (v : V) → get (set_entry es k v) k ≡ some v
  unfolding set_entry
  get-set_entry-same [] k v = ground (arith, ==-refl k)
  get-set_entry-same (e ∷ es) k v = ground (arith, ==-refl k, get-set_entry-same es k v)

  get-set_entry-other :
      (es : List (Text × V)) (k q : Text) (v : V)
      → (k == q) ≡ false
      → get (set_entry es k v) q ≡ get es q
  unfolding set_entry
  get-set_entry-other [] k q v n = ground (arith, n)
  get-set_entry-other (e ∷ es) k q v n = elim (Bool-cases (e.0 == k)) [
    | inl at ↦ ground (arith, n, at, ap (λ x. x == q) (==-eq e.0 k at))
    | inr differs ↦ ground (arith, n, differs, get-set_entry-other es k q v n)
  ]

  get-append_one-same :
      (es : List (Text × V)) (k : Text) (v : V)
      → is_set (get es k) ≡ false
      → get (es ++ (k, v) ∷ []) k ≡ some v
  get-append_one-same [] k v h = ground (arith, ==-refl k)
  get-append_one-same (e ∷ es) k v h = ground (arith, get-append_one-same es k v)

  get-append_one-other :
      (es : List (Text × V)) (k q : Text) (v : V)
      → (k == q) ≡ false
      → get (es ++ (k, v) ∷ []) q ≡ get es q
  get-append_one-other [] k q v n = ground (arith, n)
  get-append_one-other (e ∷ es) k q v n = ground (arith, get-append_one-other es k q v n)

pub require_text-str : (j : Js) (t : Text) → require_text j ≡ ok t → j ≡ Js.str t
unfolding require_text
require_text-str (Js.str u) t h = returns_unless (λ x. Js.str u ≡ Js.str x) _ _ (λ g. refl) h
require_text-str Js.null t h = cc
require_text-str Js.undefined t h = cc
require_text-str Js.non_finite t h = cc
require_text-str Js.class_object t h = cc
require_text-str Js.other t h = cc
require_text-str (Js.bool b) t h = cc
require_text-str (Js.num n) t h = cc
require_text-str (Js.arr xs) t h = cc
require_text-str (Js.obj fs) t h = cc

flag_of-bool : (j : Js) (b : Bool) → flag_of j ≡ some b → j ≡ Js.bool b
flag_of-bool (Js.bool a) b h = ap Js.bool (some_eq h)
flag_of-bool Js.null b h = cc
flag_of-bool Js.undefined b h = cc
flag_of-bool Js.non_finite b h = cc
flag_of-bool Js.class_object b h = cc
flag_of-bool Js.other b h = cc
flag_of-bool (Js.str a) b h = cc
flag_of-bool (Js.num n) b h = cc
flag_of-bool (Js.arr xs) b h = cc
flag_of-bool (Js.obj fs) b h = cc

-- The replay has every candidate that has completed, with the eligibility of its completion.
abbrev pub Agrees : ChainState → TournamentReplayState → Type 0
Agrees st r =
    (c : Text) (b : Bool)
    → get st.completed_candidates c ≡ some b
    → (k : TournamentReplayCandidate) × (get r.replayed_candidates c ≡ some k)
      × (k.is_eligible ≡ Js.bool b)

added-Agrees :
    (st u : ChainState) (r : TournamentReplayState) (candidate sandbox : Text) (b : Bool)
    (k : TournamentReplayCandidate)
    → k.is_eligible ≡ Js.bool b
    → Agrees st r
    → complete_candidate st candidate sandbox (some b) ≡ ok u
    → Agrees u (record r { replayed_candidates = set_entry r.replayed_candidates candidate k })
unfolding complete_candidate
added-Agrees st u r candidate sandbox b k eligible inv h =
    let (g, made) =
      throw_if-eq-ok
        (get st.started_candidates candidate != some sandbox
          || is_set (get st.completed_candidates candidate))
        duplicate_or_unbound _ h in
    let fresh =
      (||-false (get st.started_candidates candidate != some sandbox)
        (is_set (get st.completed_candidates candidate)) g).1 in
    returns_ok
      (λ v.
        Agrees v (record r { replayed_candidates = set_entry r.replayed_candidates candidate k }))
      (λ c d at. elim (Bool-cases (candidate == c)) [
        | inl e ↦
            let here : candidate ≡ c = ==-eq candidate c e in
            let same : b ≡ d = some_eq (
              sym (get-append_one-same st.completed_candidates candidate b fresh)
              ∙ ap (get (st.completed_candidates ++ (candidate, b) ∷ [])) here
              ∙ at) in
            (
              k,
              ap (get (set_entry r.replayed_candidates candidate k)) (sym here)
                  ∙ get-set_entry-same r.replayed_candidates candidate k,
              eligible ∙ ap Js.bool same,
            )
        | inr n ↦
            let (kept, there, was) =
              inv c d (sym (get-append_one-other st.completed_candidates candidate c b n) ∙ at) in
            (kept, get-set_entry-other r.replayed_candidates candidate c k n ∙ there, was)
      ])
      made

flagged-Agrees :
    (j : Js) (o : Option Bool) (st u : ChainState) (r : TournamentReplayState)
    (candidate sandbox : Text) (k : TournamentReplayCandidate)
    → flag_of j ≡ o
    → k.is_eligible ≡ j
    → Agrees st r
    → complete_candidate st candidate sandbox o ≡ ok u
    → Agrees u (record r { replayed_candidates = set_entry r.replayed_candidates candidate k })
unfolding complete_candidate
flagged-Agrees j none st u r candidate sandbox k f e inv h = cc
flagged-Agrees j (some b) st u r candidate sandbox k f e inv h =
    added-Agrees st u r candidate sandbox b k (e ∙ flag_of-bool j b f) inv h

start-Agrees :
    (o : Option ℕ) (st u : ChainState) (r : TournamentReplayState) (e : StoredEvent)
    → Agrees st r
    → start_declared o st e ≡ ok u
    → Agrees u r
unfolding start_declared start_candidate
start-Agrees none st u r e inv h = cc
start-Agrees (some n) st u r e inv h =
    let (candidate, second, at_candidate) =
      >>=-eq-ok (require_payload_string e.payload (codes "candidateId")) _ h in
    let (sandbox, last, at_sandbox) =
      >>=-eq-ok (require_payload_string e.payload (codes "sandboxId")) _ second in
    returns_unless (λ v. Agrees v r) _ _ (λ g. inv) last

module _ (to_property_key : Js → Text) where
  completed-Agrees :
      (st u : ChainState) (r : TournamentReplayState) (e : StoredEvent)
      → Agrees st r
      → on_candidate_completed st e ≡ ok u
      → Agrees u (on_replayed to_property_key (some candidate_validation_completed) r e)
  unfolding on_candidate_completed on_replayed require_payload_string replayed_candidate
  completed-Agrees st u r e inv h =
      let (candidate, second, at_candidate) =
        >>=-eq-ok (require_payload_string e.payload (codes "candidateId")) _ h in
      let (sandbox, last, at_sandbox) =
        >>=-eq-ok (require_payload_string e.payload (codes "sandboxId")) _ second in
      let key : member_of e.payload (codes "candidateId") ≡ Js.str candidate =
        require_text-str (member_of e.payload (codes "candidateId")) candidate at_candidate in
      subst
        (λ x. Agrees u (record r {
          replayed_candidates = set_entry r.replayed_candidates x (replayed_candidate e);
        }))
        (sym (ap (property_key to_property_key) key))
        (flagged-Agrees (member_of e.payload (codes "eligible"))
          (flag_of (member_of e.payload (codes "eligible"))) st u r candidate sandbox
          (replayed_candidate e) refl refl inv last)

  pub switch-Agrees :
      (k : Option TournamentEvent) (st u : ChainState) (r : TournamentReplayState) (e : StoredEvent)
      → Agrees st r
      → on_switch k st e ≡ ok u
      → Agrees u (on_replayed to_property_key k r e)
  unfolding on_switch on_replayed start_declared start_candidate
  switch-Agrees none st u r e inv h = cc
  switch-Agrees (some tournament_started) st u r e inv h =
      let (first, rest) =
        throw_if-eq-ok (st.index != 0 || is_set st.declared_candidate_count) not_first_start _ h in
      returns_unless (λ v. Agrees v r)
        (not (is_three (member_of e.payload (codes "candidateCount")))) not_three_candidates
        (λ g. inv) rest
  switch-Agrees (some candidate_validation_started) st u r e inv h =
      start-Agrees st.declared_candidate_count st u r e inv h
  switch-Agrees (some command_completed) st u r e inv h =
      let (candidate, second, at_candidate) =
        >>=-eq-ok (require_payload_string e.payload (codes "candidateId")) _ h in
      let (sandbox, third, at_sandbox) =
        >>=-eq-ok (require_payload_string e.payload (codes "sandboxId")) _ second in
      let (command, last, at_command) =
        >>=-eq-ok (require_payload_string e.payload (codes "commandId")) _ third in
      returns_unless (λ v. Agrees v r) _ _ (λ g. inv) last
  switch-Agrees (some candidate_validation_completed) st u r e inv h =
      completed-Agrees st u r e inv h
  switch-Agrees (some tournament_completed) st u r e inv h =
      let (winner, last, at_winner) =
        >>=-eq-ok (require_payload_string e.payload (codes "winnerCandidateId")) _ h in
      returns_unless (λ v. Agrees v r) _ _ (λ g. inv) last
  switch-Agrees (some tournament_failed) st u r e inv h =
      returns_unless (λ v. Agrees v r) _ _ (λ g. inv) h

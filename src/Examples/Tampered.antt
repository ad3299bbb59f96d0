-- ===== src/Examples/Tampered.antt =====
-- Event logs that end with one hash, on a concrete log of two events.
use safecommit_ai.Domain.Approval.{or_else}
use safecommit_ai.Domain.Evidence.{digest_of}
use safecommit_ai.Domain.Evidence.Binding.{Collision}
use safecommit_ai.Domain.Evidence.Normal.{Fields, Js, Json, normalize_json}
use safecommit_ai.Domain.Evidence.Printable.{IsPrintable}
use safecommit_ai.Domain.Evidence.Quoted.{IsUnits, every-IsUnits}
use safecommit_ai.Domain.Evidence.Reading.{is_number_unit}
use safecommit_ai.Examples.Platform.{toy}
use safecommit_ai.Orchestrator.EventStore.{
  ChainState, StoredEvent, require_payload_string, start_of_chain, tournament_event, unsigned_js,
}
use safecommit_ai.Orchestrator.EventStore.Chain.{verify_event_chain}
use safecommit_ai.Orchestrator.EventStore.Sealed.{IsPrintableEvent}
use safecommit_ai.Orchestrator.EventStore.Tampering.{
  AreSameEvents, verify_event_chain-AreSameEvents,
}
use safecommit_ai.Prelude.{
  All, All-map, Bool, List, Option, Text, [], bool_beq, err, every, ltb, none, ok, ok_injective,
  refl, some, some_eq, subst, sym, text_beq, true, ℕ, ◌∙◌, ◌∷◌, ◌≡◌, ◌⊎◌,
}
use safecommit_ai.Text.{codes, is_blank}
use safecommit_ai.Text.Encoding.{number_text}

text_field : Text → Text → Fields → Fields
text_field k v fs = Fields.field k (Js.str v) fs

unsealed : Text → Fields → Option Text → ℕ → StoredEvent
unsealed kind payload previous n = record {
  schema_version = 1;
  sequence = n;
  session_id = codes "local";
  event_type = kind;
  occurred_at = codes "t";
  payload = payload;
  provenance = record {
    mode = codes "mock";
    kind = codes "local-test";
    provider = codes "local-process";
    notice = codes "n";
  };
  previous_event_hash = previous;
  event_hash = [];
}

hash_of : StoredEvent → Text
hash_of e = or_else (digest_of toy (unsigned_js e)) []

first_event : StoredEvent
unfolding unsealed hash_of
first_event =
    let e =
      unsealed (codes "TOURNAMENT_STARTED")
        (Fields.field (codes "candidateCount") (Js.num (codes "3")) Fields.end) none 1 in
    record e { event_hash = hash_of e }

second_event : StoredEvent
unfolding unsealed hash_of text_field first_event
second_event =
    let e =
      unsealed (codes "CANDIDATE_VALIDATION_STARTED")
        (text_field (codes "candidateId") (codes "a")
          (text_field (codes "sandboxId") (codes "1") Fields.end))
        (some first_event.event_hash) 2 in
    record e { event_hash = hash_of e }

log : List StoredEvent
log = first_event ∷ second_event ∷ []

abbrev has_units : Text → Bool
has_units t = every (λ c. ltb c 65536) t

IsUnits-of_some :
    (o : Option Text) → has_units (or_else o []) ≡ true → (t : Text) → o ≡ some t → IsUnits t
IsUnits-of_some none h t e = cc
IsUnits-of_some (some s) h t e = subst IsUnits (some_eq e) (every-IsUnits s h)

printable_event :
    (e : StoredEvent) (j : Json)
    → normalize_json (Js.obj e.payload) ≡ ok j
    → IsPrintable j
    → has_units e.session_id ≡ true
    → has_units e.event_type ≡ true
    → has_units e.occurred_at ≡ true
    → has_units (or_else e.previous_event_hash []) ≡ true
    → All
        (λ t. has_units t ≡ true)
        (e.provenance.kind ∷ e.provenance.mode ∷ e.provenance.notice ∷ e.provenance.provider ∷ [])
    → IsPrintableEvent e
printable_event e j normal printed session kind occurred previous provenance = record {
  session = every-IsUnits e.session_id session;
  kind_of_event = every-IsUnits e.event_type kind;
  occurred = every-IsUnits e.occurred_at occurred;
  previous = IsUnits-of_some e.previous_event_hash previous;
  provenance =
      All-map every-IsUnits
        (e.provenance.kind ∷ e.provenance.mode ∷ e.provenance.notice ∷ e.provenance.provider ∷ [])
        provenance;
  payload = λ q h. subst IsPrintable (ok_injective (sym normal ∙ h)) printed;
}

first-IsPrintableEvent : IsPrintableEvent first_event
unfolding first_event normalize_json IsPrintable is_number_unit text_beq toy
first-IsPrintableEvent =
    printable_event first_event _ refl
      (every-IsUnits (codes "candidateCount") refl, (b'3', [], refl, refl), tt) refl refl refl refl
      (refl, (refl, (refl, (refl, tt))))

second-IsPrintableEvent : IsPrintableEvent second_event
unfolding second_event normalize_json IsPrintable text_beq toy digest_of unsigned_js number_text
second-IsPrintableEvent =
    printable_event second_event _ refl
      (
        every-IsUnits (codes "candidateId") refl,
        every-IsUnits (codes "a") refl,
        (every-IsUnits (codes "sandboxId") refl, every-IsUnits (codes "1") refl, tt),
      )
      refl refl refl refl (refl, (refl, (refl, (refl, tt))))

end_of_log : ChainState
unfolding log verify_event_chain
end_of_log = elim (verify_event_chain toy log) [ ok st ↦ st | err _ ↦ start_of_chain ]

accepted_log : verify_event_chain toy log ≡ ok end_of_log
unfolding end_of_log toy digest_of unsigned_js text_beq number_text is_blank tournament_event
    require_payload_string bool_beq second_event
accepted_log = refl

verify_event_chain-AreSameEvents_example : AreSameEvents log log ⊎ Collision toy
unfolding log
verify_event_chain-AreSameEvents_example =
    verify_event_chain-AreSameEvents toy log log end_of_log end_of_log accepted_log accepted_log
      (first-IsPrintableEvent, (second-IsPrintableEvent, tt))
      (first-IsPrintableEvent, (second-IsPrintableEvent, tt)) refl refl

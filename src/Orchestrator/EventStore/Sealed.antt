-- ===== src/Orchestrator/EventStore/Sealed.antt =====
-- What the hash of a stored event binds (`eventHashInput` of apps/orchestrator/src/event-store.ts and the digest
-- that is computed of it).
use safecommit_ai.Domain.Evidence.{canonical_json, compute_evidence_digest, digest_of}
use safecommit_ai.Domain.Evidence.Binding.{Collision, digest_of-injective, find_member, member_text}
use safecommit_ai.Domain.Evidence.Normal.{EvidenceError, Js, Json, JsonFields, normalize_json}
use safecommit_ai.Domain.Evidence.Printable.{IsNumberText, IsPrintable}
use safecommit_ai.Domain.Evidence.Quoted.{IsUnits, every-IsUnits}
use safecommit_ai.Domain.Evidence.Reading.{is_number_unit}
use safecommit_ai.Orchestrator.EventStore.{StoredEvent, unsigned_js}
use safecommit_ai.Prelude.{
  All, Bool-cases, Option, Result, String, Text, [], ap, arith, err, every, inl, inr, ltb, none, ok,
  refl, some, suc, sym, text_beq, true, zero, ℕ, ◌%◌, ◌+◌, ◌/◌, ◌<◌, ◌∙◌, ◌∷◌, ◌≡◌, ◌⊎◌,
}
use safecommit_ai.Runtime.{Runtime}
use safecommit_ai.Text.{codes}
use safecommit_ai.Text.Encoding.{digits_from, number_text}

digit_unit : (d : ℕ) → d < 10 → is_number_unit (b'0' + d) ≡ true
unfolding is_number_unit
digit_unit d h = ground arith

digits_from-number :
    (fuel n : ℕ) (acc : Text)
    → every is_number_unit acc ≡ true
    → n < fuel
    → IsNumberText (digits_from fuel n acc)
unfolding digits_from is_number_unit
digits_from-number zero n acc h enough = absurd (omega arith)
digits_from-number (suc fuel) n acc h enough = elim (Bool-cases (ltb n 10)) [
  | inl small ↦ rw small (b'0' + n, acc, refl, ground (arith, digit_unit n (ground arith), h))
  | inr large ↦ rw large (
      digits_from-number fuel (n / 10) ((b'0' + n % 10) ∷ acc)
        (ground (arith, digit_unit (n % 10) (omega arith), h)) (ground arith))
]

number_text-IsNumberText : (n : ℕ) → IsNumberText (number_text n)
unfolding number_text
number_text-IsNumberText n = digits_from-number (suc n) n [] refl (omega arith)

previous_json : Option Text → Json
previous_json none = Json.null
previous_json (some t) = Json.str t

-- The normal form of an event without its hash.
event_json : StoredEvent → Json → Json
unfolding previous_json
event_json e payload = Json.obj (
    JsonFields.field (codes "eventType") (Json.str e.event_type) (
      JsonFields.field (codes "occurredAt") (Json.str e.occurred_at) (
        JsonFields.field (codes "payload") payload (
          JsonFields.field (codes "previousEventHash") (previous_json e.previous_event_hash) (
            JsonFields.field (codes "provenance")
              (Json.obj (
                JsonFields.field (codes "kind") (Json.str e.provenance.kind) (
                  JsonFields.field (codes "mode") (Json.str e.provenance.mode) (
                    JsonFields.field (codes "notice") (Json.str e.provenance.notice) (
                      JsonFields.field (codes "provider") (Json.str e.provenance.provider)
                        JsonFields.end)))))
              (JsonFields.field (codes "schemaVersion") (Json.num (number_text e.schema_version)) (
                JsonFields.field (codes "sequence") (Json.num (number_text e.sequence)) (
                  JsonFields.field (codes "sessionId") (Json.str e.session_id)
                    JsonFields.end))))))))

normalize-with_previous :
    (e : StoredEvent) (previous : Option Text) (q : Json)
    → normalize_json (Js.obj e.payload) ≡ ok q
    → normalize_json (unsigned_js (record e { previous_event_hash = previous }))
      ≡ ok (event_json (record e { previous_event_hash = previous }) q)
unfolding event_json unsigned_js normalize_json text_beq
normalize-with_previous e none q h = rw h refl
normalize-with_previous e (some t) q h = rw h refl

normalize-event :
    (e : StoredEvent) (q : Json)
    → normalize_json (Js.obj e.payload) ≡ ok q
    → normalize_json (unsigned_js e) ≡ ok (event_json e q)
normalize-event e q h = normalize-with_previous e e.previous_event_hash q h

refused-with_previous :
    (e : StoredEvent) (previous : Option Text) (x : EvidenceError)
    → normalize_json (Js.obj e.payload) ≡ err x
    → normalize_json (unsigned_js (record e { previous_event_hash = previous })) ≡ err x
unfolding unsigned_js normalize_json text_beq
refused-with_previous e none x h = rw h refl
refused-with_previous e (some t) x h = rw h refl

-- Texts of UTF-16 code units, and a payload whose normal form can be printed.
pub record IsPrintableEvent (e : StoredEvent) : Type 0 where
  pub session : IsUnits e.session_id
  pub kind_of_event : IsUnits e.event_type
  pub occurred : IsUnits e.occurred_at
  pub previous : (t : Text) → e.previous_event_hash ≡ some t → IsUnits t
  pub provenance :
      All IsUnits
        (e.provenance.kind ∷ e.provenance.mode ∷ e.provenance.notice ∷ e.provenance.provider ∷ [])
  pub payload : (q : Json) → normalize_json (Js.obj e.payload) ≡ ok q → IsPrintable q

previous-IsPrintable :
    (o : Option Text) → ((t : Text) → o ≡ some t → IsUnits t) → IsPrintable (previous_json o)
unfolding previous_json IsPrintable
previous-IsPrintable none h = tt
previous-IsPrintable (some t) h = h t refl

key : (k : String) → every (λ c. ltb c 65536) (codes k) ≡ true → IsUnits (codes k)
key k h = every-IsUnits (codes k) h

event-IsPrintable :
    (e : StoredEvent) (q : Json)
    → IsPrintableEvent e
    → normalize_json (Js.obj e.payload) ≡ ok q
    → IsPrintable (event_json e q)
unfolding event_json IsPrintable
event-IsPrintable e q p h =
    let (kind, (mode, (notice, (provider, _)))) = p.provenance in
    (
      key "eventType" refl,
      p.kind_of_event,
      (
        key "occurredAt" refl,
        p.occurred,
        (
          key "payload" refl,
          p.payload q h,
          (
            key "previousEventHash" refl,
            previous-IsPrintable e.previous_event_hash p.previous,
            (
              key "provenance" refl,
              (
                key "kind" refl,
                kind,
                (
                  key "mode" refl,
                  mode,
                  (key "notice" refl, notice, (key "provider" refl, provider, tt)),
                ),
              ),
              (
                key "schemaVersion" refl,
                number_text-IsNumberText e.schema_version,
                (
                  key "sequence" refl,
                  number_text-IsNumberText e.sequence,
                  (key "sessionId" refl, p.session, tt),
                ),
              ),
            ),
          ),
        ),
      ),
    )

previous_of : Json → Option Text
previous_of (Json.str t) = some t
previous_of _ = none

member_at : Text → Json → Json
member_at key (Json.obj fs) = find_member key fs
member_at key _ = Json.null

previous-back : (o : Option Text) → previous_of (previous_json o) ≡ o
unfolding previous_of previous_json
previous-back none = refl
previous-back (some t) = refl

-- The two events are equal but for their payloads, and those have one normal form.
pub record IsSameEvent (e f : StoredEvent) : Type 0 where
  pub equal_version : e.schema_version ≡ f.schema_version
  pub equal_number : e.sequence ≡ f.sequence
  pub equal_session : e.session_id ≡ f.session_id
  pub equal_type : e.event_type ≡ f.event_type
  pub equal_time : e.occurred_at ≡ f.occurred_at
  pub equal_provenance :
      (e.provenance.mode ≡ f.provenance.mode)
      × (e.provenance.kind ≡ f.provenance.kind)
      × (e.provenance.provider ≡ f.provenance.provider)
      × (e.provenance.notice ≡ f.provenance.notice)
  pub equal_link : e.previous_event_hash ≡ f.previous_event_hash
  pub equal_payload : normalize_json (Js.obj e.payload) ≡ normalize_json (Js.obj f.payload)
  pub equal_hash : e.event_hash ≡ f.event_hash

-- The normal form of an event tells its fields.
same_form :
    (e f : StoredEvent) (q r : Json)
    → normalize_json (Js.obj e.payload) ≡ ok q
    → normalize_json (Js.obj f.payload) ≡ ok r
    → e.schema_version ≡ f.schema_version
    → e.sequence ≡ f.sequence
    → e.event_hash ≡ f.event_hash
    → event_json e q ≡ event_json f r
    → IsSameEvent e f
unfolding event_json member_at text_beq
same_form e f q r hq hr versions numbers hashes agree =
    let at_provenance = ap (member_at (codes "provenance")) agree in
    let at_link = ap previous_of (ap (member_at (codes "previousEventHash")) agree) in
    record {
      equal_version = versions;
      equal_number = numbers;
      equal_session = ap (member_text (codes "sessionId")) agree;
      equal_type = ap (member_text (codes "eventType")) agree;
      equal_time = ap (member_text (codes "occurredAt")) agree;
      equal_provenance = (
        ap (member_text (codes "mode")) at_provenance,
        ap (member_text (codes "kind")) at_provenance,
        ap (member_text (codes "provider")) at_provenance,
        ap (member_text (codes "notice")) at_provenance,
      );
      equal_link =
          sym (previous-back e.previous_event_hash)
          ∙ (at_link ∙ previous-back f.previous_event_hash);
      equal_payload = hq ∙ (ap ok (ap (member_at (codes "payload")) agree) ∙ sym hr);
      equal_hash = hashes;
    }

module _ (rt : Runtime) where
  payload_at :
      (e : StoredEvent) {d : Text} (r : Result EvidenceError Json)
      → digest_of rt (unsigned_js e) ≡ some d
      → normalize_json (Js.obj e.payload) ≡ r
      → (q : Json) × (normalize_json (Js.obj e.payload) ≡ ok q)
  unfolding digest_of compute_evidence_digest canonical_json
  payload_at e (ok q) digest h = (q, h)
  payload_at e (err x) digest h =
      let refused = refused-with_previous e e.previous_event_hash x h in
      let none_there = rw (refused, digest_of, compute_evidence_digest, canonical_json) at digest in
      cc

  -- Two events with one hash are the same but for a collision, and so they link to the same hash.
  pub same_hash :
      (e f : StoredEvent)
      → IsPrintableEvent e
      → IsPrintableEvent f
      → digest_of rt (unsigned_js e) ≡ some e.event_hash
      → digest_of rt (unsigned_js f) ≡ some f.event_hash
      → e.schema_version ≡ f.schema_version
      → e.sequence ≡ f.sequence
      → e.event_hash ≡ f.event_hash
      → IsSameEvent e f ⊎ Collision rt
  same_hash e f pe pf de df versions numbers hashes =
      let (q, hq) = payload_at e (normalize_json (Js.obj e.payload)) de refl in
      let (r, hr) = payload_at f (normalize_json (Js.obj f.payload)) df refl in
      elim (digest_of-injective rt (unsigned_js e) (unsigned_js f) (event_json e q) (event_json f r)
        (normalize-event e q hq) (normalize-event f r hr) (event-IsPrintable e q pe hq)
        (event-IsPrintable f r pf hr) de (df ∙ ap some (sym hashes))) [
          | inl agree ↦ inl (same_form e f q r hq hr versions numbers hashes agree)
          | inr collide ↦ inr collide
        ]

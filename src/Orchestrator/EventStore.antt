-- ===== src/Orchestrator/EventStore.antt =====
-- `verifyEventChain` of apps/orchestrator/src/event-store.ts. The local variables of its loop are the
-- fields of `ChainState`; a Map is the list of its entries in the order in which they were set.
pub mod Cases
pub mod Tournament
pub mod Chain
pub mod Verified
pub mod Winner
pub mod Sealed
pub mod Tampering
pub mod Replay
pub mod Recorded
pub mod Won
use safecommit_ai.Domain.Evidence.Normal.{Fields, Js}
use safecommit_ai.Domain.Workflow.Events.{event_type, event_type_eq}
use safecommit_ai.Prelude.{
  Bool, List, Option, Result, Text, [], bool_eq, err, false, if◌then◌else◌, nat_eq, none, ok,
  option_eq, some, text_eq, throw_if, true, ℕ, ◌!=◌, ◌&&◌, ◌==◌, ◌∷◌,
}
use safecommit_ai.Text.{codes, is_blank}
use safecommit_ai.Text.Encoding.{number_text}

pub record LocalTestProvenance : Type 0 where
  pub mode : Text
  pub kind : Text
  pub provider : Text
  pub notice : Text

pub record StoredEvent : Type 0 where
  pub schema_version : ℕ
  pub sequence : ℕ
  pub session_id : Text
  pub event_type : Text
  pub occurred_at : Text
  pub payload : Fields
  pub provenance : LocalTestProvenance
  pub previous_event_hash : Option Text
  pub event_hash : Text

-- The messages of EventChainIntegrityError.
pub data ChainError : Type 0 where
  invalid_sequence mixed_sessions no_local_provenance not_linked hash_mismatch : ChainError
  after_terminal_event not_first_start not_three_candidates before_start : ChainError
  not_unique_or_too_many not_started duplicate_or_unbound : ChainError
  incomplete_tournament unsupported_type payload_text_missing : ChainError

pub data TournamentEvent : Type 0 where
  tournament_started candidate_validation_started command_completed : TournamentEvent
  candidate_validation_completed tournament_completed tournament_failed : TournamentEvent

pub record ChainState : Type 0 where
  pub index : ℕ
  pub previous_hash : Option Text
  pub chain_session : Option Text
  pub declared_candidate_count : Option ℕ
  pub terminal : Bool
  pub started_candidates : List (Text × Text)
  pub started_sandboxes : List Text
  pub completed_candidates : List (Text × Bool)

abbrev pub start_of_chain : ChainState
start_of_chain = record {
  index = 0;
  previous_hash = none;
  chain_session = none;
  declared_candidate_count = none;
  terminal = false;
  started_candidates = [];
  started_sandboxes = [];
  completed_candidates = [];
}

-- The case of the switch on the event's type.
unfoldable pub tournament_event : Text → Option TournamentEvent
tournament_event t =
    if t == codes "TOURNAMENT_STARTED"
    then some tournament_started
    else if t == codes "CANDIDATE_VALIDATION_STARTED"
    then some candidate_validation_started
    else if t == codes "COMMAND_COMPLETED"
    then some command_completed
    else if t == codes "CANDIDATE_VALIDATION_COMPLETED"
    then some candidate_validation_completed
    else if t == codes "TOURNAMENT_COMPLETED"
    then some tournament_completed
    else if t == codes "TOURNAMENT_FAILED"
    then some tournament_failed
    else none

-- payload[name]; a key stands once.
unfoldable pub member_of : Fields → Text → Js
member_of Fields.end k = Js.undefined
member_of (Fields.field j v fs) k = let rest = member_of fs k in if j == k then v else rest

unfoldable pub require_text : Js → Result ChainError Text
require_text (Js.str t) = throw_if (is_blank t) payload_text_missing (ok t)
require_text _ = err payload_text_missing

unfoldable pub require_payload_string : Fields → Text → Result ChainError Text
unfolding member_of require_text
require_payload_string payload name = require_text (member_of payload name)

-- Number.isSafeInteger(value) && value === 3
abbrev pub is_three : Js → Bool
is_three (Js.num t) = t == codes "3"
is_three _ = false

-- The value of a flag, where the member is a boolean.
abbrev pub flag_of : Js → Option Bool
flag_of (Js.bool b) = some b
flag_of _ = none

-- map.get(key)
abbrev pub get {ℓ} : {V : Type ℓ} → List (Text × V) → Text → Option V
get [] k = none
get (e ∷ es) k = let rest = get es k in if e.0 == k then some e.1 else rest

abbrev pub is_set {ℓ} : {A : Type ℓ} → Option A → Bool
is_set none = false
is_set (some a) = true

-- The event without its `eventHash`.
unfoldable pub unsigned_js : StoredEvent → Js
unsigned_js e = Js.obj (
    Fields.field (codes "schemaVersion") (Js.num (number_text e.schema_version)) (
      Fields.field (codes "sequence") (Js.num (number_text e.sequence)) (
        Fields.field (codes "sessionId") (Js.str e.session_id) (
          Fields.field (codes "eventType") (Js.str e.event_type) (
            Fields.field (codes "occurredAt") (Js.str e.occurred_at) (
              Fields.field (codes "payload") (Js.obj e.payload) (
                Fields.field (codes "provenance")
                  (Js.obj (
                    Fields.field (codes "mode") (Js.str e.provenance.mode) (
                      Fields.field (codes "kind") (Js.str e.provenance.kind) (
                        Fields.field (codes "provider") (Js.str e.provenance.provider) (
                          Fields.field (codes "notice") (Js.str e.provenance.notice) Fields.end)))))
                  (Fields.field (codes "previousEventHash") (text_or_null e.previous_event_hash)
                    Fields.end))))))))
  where
    text_or_null : Option Text → Js
    text_or_null none = Js.null
    text_or_null (some t) = Js.str t

unfoldable pub is_local_test : LocalTestProvenance → Bool
is_local_test p =
    p.mode == codes "mock" && p.kind == codes "local-test" && p.provider == codes "local-process"

abbrev pub is_other_session : Option Text → Text → Bool
is_other_session none id = false
is_other_session (some s) id = id != s

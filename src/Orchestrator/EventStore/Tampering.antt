-- ===== src/Orchestrator/EventStore/Tampering.antt =====
-- What the last hash of an event log binds (`verifyEventChain` of apps/orchestrator/src/event-store.ts).
use safecommit_ai.Domain.Evidence.Binding.{Collision}
use safecommit_ai.Orchestrator.EventStore.{ChainState, StoredEvent, start_of_chain}
use safecommit_ai.Orchestrator.EventStore.Chain.{
  link_error, verify_event, verify_event_chain, verify_from,
}
use safecommit_ai.Orchestrator.EventStore.Sealed.{IsPrintableEvent, IsSameEvent, same_hash}
use safecommit_ai.Orchestrator.EventStore.Verified.{
  Chained, verify_event-parts, verify_event_chain-Chained,
}
use safecommit_ai.Prelude.{
  >>=-eq-ok, All, List, Option, Text, [], arith, inl, inr, length, none, ok, some, some_eq, sym, ℕ,
  ◌+◌, ◌∙◌, ◌∷◌, ◌≡◌, ◌⊎◌,
}
use safecommit_ai.Runtime.{Runtime}

-- The hash of the last event, where there is one.
abbrev pub last_hash : Option Text → List StoredEvent → Option Text
last_hash previous [] = previous
last_hash previous (e ∷ es) = last_hash (some e.event_hash) es

-- The same events, one by one.
abbrev pub AreSameEvents : List StoredEvent → List StoredEvent → Type 0
AreSameEvents [] [] = Unit
AreSameEvents (e ∷ es) (f ∷ fs) = IsSameEvent e f × AreSameEvents es fs
AreSameEvents _ _ = ⊥

-- An accepted event has the schema version 1.
abbrev HasVersion : StoredEvent → Type 0
HasVersion e = e.schema_version ≡ 1

module _ (rt : Runtime) where
  link-version : (st : ChainState) (e : StoredEvent) → link_error rt st e ≡ none → HasVersion e
  unfolding link_error
  link-version st e h = ground arith

  verify_from-versions :
      (st t : ChainState) (es : List StoredEvent) → verify_from rt st es ≡ ok t → All HasVersion es
  unfolding verify_from
  verify_from-versions st t [] h = tt
  verify_from-versions st t (e ∷ es) h =
      let (u, rest, first) = >>=-eq-ok (verify_event rt st e) (λ v. verify_from rt v es) h in
      (link-version st e (verify_event-parts rt st u e first).0, verify_from-versions u t es rest)

  Chained-same :
      (es fs : List StoredEvent) (s t p q : Option Text) (n : ℕ)
      → All IsPrintableEvent es
      → All IsPrintableEvent fs
      → All HasVersion es
      → All HasVersion fs
      → Chained rt s p n es
      → Chained rt t q n fs
      → length es ≡ length fs
      → last_hash p es ≡ last_hash q fs
      → (AreSameEvents es fs × (p ≡ q)) ⊎ Collision rt
  Chained-same [] [] s t p q n pe pf ve vf ce cf len same = inl (tt, same)
  Chained-same [] (f ∷ fs) s t p q n pe pf ve vf ce cf len same = absurd (omega (arith, len))
  Chained-same (e ∷ es) [] s t p q n pe pf ve vf ce cf len same = absurd (omega (arith, len))
  Chained-same (e ∷ es) (f ∷ fs) s t p q n pe pf ve vf ce cf len same =
      elim (Chained-same es fs (some e.session_id) (some f.session_id) (some e.event_hash)
        (some f.event_hash) (n + 1) pe.1 pf.1 ve.1 vf.1 ce.5 cf.5 (omega (arith, len)) same) [
          | inr collide ↦ inr collide
          | inl (same_rest, hashes) ↦
              elim (same_hash rt e f pe.0 pf.0 ce.3 cf.3 (ve.0 ∙ sym vf.0) (ce.0 ∙ sym cf.0)
                (some_eq hashes)) [
                  | inr collide ↦ inr collide
                  | inl here ↦ inl ((here, same_rest), sym ce.2 ∙ (here.equal_link ∙ cf.2))
                ]
        ]

  -- Take two accepted event logs of the same length whose last events have the same hash. Unless two
  -- different texts have the same SHA-256 digest, their events are equal one by one in every field but the
  -- payload, and each two payloads have the same normal form. So before its last hash a log can be changed
  -- only in what the normal form of a payload leaves out: the order of an object's members, a member that
  -- is undefined, and an own member `__proto__`. An event here has the fields of `StoredEvent` and no
  -- others; its texts are of UTF-16 code units, and the payloads' numbers are printed as JavaScript prints
  -- them.
  pub verify_event_chain-AreSameEvents :
      (es fs : List StoredEvent) (u v : ChainState)
      → verify_event_chain rt es ≡ ok u
      → verify_event_chain rt fs ≡ ok v
      → All IsPrintableEvent es
      → All IsPrintableEvent fs
      → length es ≡ length fs
      → last_hash none es ≡ last_hash none fs
      → AreSameEvents es fs ⊎ Collision rt
  unfolding verify_event_chain
  verify_event_chain-AreSameEvents es fs u v he hf pe pf len same =
      elim (Chained-same es fs none none none none 0 pe pf
        (verify_from-versions start_of_chain u es he) (verify_from-versions start_of_chain v fs hf)
        (verify_event_chain-Chained rt es u he) (verify_event_chain-Chained rt fs v hf) len same) [
          | inl both ↦ inl both.0
          | inr collide ↦ inr collide
        ]

-- ===== src/Domain/Evidence/Binding.antt =====
-- What a digest of packages/domain/src/evidence.ts binds: two values with one digest are one value,
-- unless two texts collide under SHA-256.
use safecommit_ai.Domain.Evidence.{canonical_json, compute_evidence_digest, digest_of}
use safecommit_ai.Domain.Evidence.Normal.{Js, Json, JsonFields, normalize_json}
use safecommit_ai.Domain.Evidence.Print.{json_text}
use safecommit_ai.Domain.Evidence.Printable.{IsPrintable, size}
use safecommit_ai.Domain.Evidence.Reading.{read_json}
use safecommit_ai.Domain.Evidence.RoundTrip.{read-value}
use safecommit_ai.Prelude.{
  ==-eq, Bool-cases, Option, Text, [], ap, arith, bool_eq, eq-==, if◌then◌else◌, inl, inr, nat_eq,
  ok, option_eq, some, some_eq, sym, text_eq, true≢false, ℕ, ◌++◌, ◌+◌, ◌==◌, ◌∙◌, ◌≡◌, ◌≢◌, ◌⊎◌,
}
use safecommit_ai.Runtime.{Runtime}

unfoldable pub Collision : Runtime → Type 0
Collision rt = (s : Text) × (t : Text) × (s ≢ t) × (rt.sha256 s ≡ rt.sha256 t)

-- The text of a member of an object.
abbrev text_of : Json → Text
text_of (Json.str s) = s
text_of _ = []

abbrev pub find_member : Text → JsonFields → Json
find_member key JsonFields.end = Json.null
find_member key (JsonFields.field k v fs) =
    let rest = find_member key fs in if k == key then v else rest

abbrev pub member_text : Text → Json → Text
member_text key (Json.obj fs) = text_of (find_member key fs)
member_text key _ = []

-- The text of a value has one reading: two values with the same text are one value.
json_text-injective :
    (x y : Json) → IsPrintable x → IsPrintable y → json_text x ≡ json_text y → x ≡ y
json_text-injective x y p q same =
    let fuel : ℕ = size x + size y in
    let first : read_json fuel (json_text x ++ []) ≡ some (x, []) =
      read-value fuel x [] p tt (omega arith) in
    let second : read_json fuel (json_text y ++ []) ≡ some (y, []) =
      read-value fuel y [] q tt (omega arith) in
    let both : ◌≡◌ {A = Option (Json × Text)} (some (x, [])) (some (y, [])) =
      sym first ∙ (ap (λ t. read_json fuel (t ++ [])) same ∙ second) in
    ap (λ z. z.0) (some_eq both)

module _ (rt : Runtime) where
  texts-agree : (s t : Text) → rt.sha256 s ≡ rt.sha256 t → (s ≡ t) ⊎ Collision rt
  unfolding Collision
  texts-agree s t same = elim (Bool-cases (s == t)) [
    | inl e ↦ inl (==-eq s t e)
    | inr differ ↦ inr (s, t, (λ e. true≢false (sym (eq-== e) ∙ differ)), same)
  ]

  digest-normal :
      (v : Js) (j : Json) {d : Text}
      → normalize_json v ≡ ok j
      → digest_of rt v ≡ some d
      → rt.sha256 (json_text j) ≡ d
  unfolding digest_of compute_evidence_digest canonical_json
  digest-normal v j normal digest =
      some_eq (rw (normal, digest_of, compute_evidence_digest, canonical_json) at digest)

  -- Values whose normal forms print and that have one digest have one normal form.
  pub digest_of-injective :
      (v w : Js) (j k : Json) {d : Text}
      → normalize_json v ≡ ok j
      → normalize_json w ≡ ok k
      → IsPrintable j
      → IsPrintable k
      → digest_of rt v ≡ some d
      → digest_of rt w ≡ some d
      → (j ≡ k) ⊎ Collision rt
  digest_of-injective v w j k norm_v norm_w p q dig_v dig_w =
      elim (texts-agree (json_text j) (json_text k)
        (digest-normal v j norm_v dig_v ∙ sym (digest-normal w k norm_w dig_w))) [
          | inl same ↦ inl (json_text-injective j k p q same)
          | inr collide ↦ inr collide
        ]

-- ===== src/Domain/Evidence.antt =====
-- packages/domain/src/evidence.ts: canonical JSON of a JavaScript value and its SHA-256 digest.
-- A value is a tree, so it has no circular reference, and the tests of `seen` never fire on it.
-- A finite number stands for the text that Number::toString gives for it.
pub mod Normal
pub mod Reading
pub mod Print
pub mod Quoted
pub mod Printable
pub mod RoundTrip
pub mod Binding
use safecommit_ai.Prelude.{
  ◌≡◌, refl, List, [], ◌∷◌, Option, none, some, Text, Result, ok, err, ◌>>=◌, text_beq,
}
use safecommit_ai.Text.{codes}
use safecommit_ai.Runtime.{Runtime}
use Normal.{Js, Items, Fields, EvidenceError, normalize_json}
use Print.{json_text}

unfoldable pub canonical_json : Js → Result EvidenceError Text
unfolding normalize_json json_text
canonical_json value = do j ← normalize_json value; ok (json_text j)

module _ (rt : Runtime) where
  unfoldable pub compute_evidence_digest : Js → Result EvidenceError Text
  unfolding canonical_json
  compute_evidence_digest value = do text ← canonical_json value; ok (rt.sha256 text)

  -- The value that a caller compares: none where the call throws.
  unfoldable pub digest_of : Js → Option Text
  unfolding compute_evidence_digest
  digest_of value = elim (compute_evidence_digest value) [ ok d ↦ some d | err _ ↦ none ]

abbrev pub js_array : List Text → Items
js_array [] = Items.nil
js_array (t ∷ ts) = Items.cons (Js.str t) (js_array ts)

-- computeCommandHash
unfoldable pub compute_command_hash : Runtime → List Text → Text → Result EvidenceError Text
unfolding compute_evidence_digest
compute_command_hash rt argv working_directory = compute_evidence_digest rt (
    Js.obj (
      Fields.field (codes "argv") (Js.arr (js_array argv))
        (Fields.field (codes "workingDirectory") (Js.str working_directory) Fields.end)))

canonical_test :
    canonical_json (
      Js.obj (
        Fields.field (codes "b") (Js.arr (Items.cons (Js.num (codes "1")) Items.nil)) (
          Fields.field (codes "10") Js.null (
            Fields.field
              (codes "9")
              (Js.str (codes "x\"y"))
              (Fields.field (codes "a") Js.undefined Fields.end)))))
    ≡ ok (codes "{\"9\":\"x\\\"y\",\"10\":null,\"b\":[1]}")
unfolding canonical_json text_beq
canonical_test = refl

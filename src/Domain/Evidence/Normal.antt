-- ===== src/Domain/Evidence/Normal.antt =====
-- `normalizeJson` of packages/domain/src/evidence.ts.
use safecommit_ai.Prelude.{
  ℕ, ◌+◌, ◌-◌, ◌*◌, Bool, true, false, not, ◌&&◌, ◌||◌, Option, none, some, List, [], ◌∷◌, ◌++◌,
  Text, Result, ok, err, ◌>>=◌, leb, ltb, ◌==◌, ◌!=◌, nat_eq, text_eq, if◌then◌else◌, every, keep,
  nat_beq,
}
use safecommit_ai.Text.{codes, is_digit}

-- Any JavaScript value, `unknown` in the source. `other` is a function, a symbol, a bigint;
-- `class_object` an object whose prototype is neither Object.prototype nor null.
mutual
  pub data Js : Type 0 where
    null undefined non_finite class_object other : Js
    bool : Bool → Js
    num : Text → Js
    str : Text → Js
    arr : Items → Js
    obj : Fields → Js

  pub data Items : Type 0 where
    nil : Items
    cons : Js → Items → Items

  pub data Fields : Type 0 where
    end : Fields
    field : Text → Js → Fields → Fields

-- `JsonValue`.
mutual
  pub data Json : Type 0 where
    null : Json
    bool : Bool → Json
    num : Text → Json
    str : Text → Json
    arr : JsonItems → Json
    obj : JsonFields → Json

  pub data JsonItems : Type 0 where
    nil : JsonItems
    cons : Json → JsonItems → JsonItems

  pub data JsonFields : Type 0 where
    end : JsonFields
    field : Text → Json → JsonFields → JsonFields

-- The TypeErrors that `normalizeJson` throws.
pub data EvidenceError : Type 0 where
  non_finite_number undefined_in_array not_plain_object non_json_value : EvidenceError

-- `<=` on texts: by code units, a prefix first.
unfoldable pub text_leb : Text → Text → Bool
text_leb [] _ = true
text_leb (x ∷ xs) [] = false
text_leb (x ∷ xs) (y ∷ ys) = ltb x y || (nat_beq x y && text_leb xs ys)

-- An item of an array: `undefined` throws its own error. A member of an object: it is left out.
unfoldable pub array_item : Js → Result EvidenceError Json → Result EvidenceError Json
array_item Js.undefined r = err undefined_in_array
array_item _ r = r

unfoldable pub object_member : Js → Result EvidenceError Json → Option (Result EvidenceError Json)
object_member Js.undefined r = none
object_member _ r = some r

-- Entries of an object, kept in order by `before`.
module _ {ℓ} {V : Type ℓ} (before : Text → Text → Bool) where
  unfoldable pub insert_entry : Text × V → List (Text × V) → List (Text × V)
  insert_entry e [] = e ∷ []
  insert_entry e (f ∷ fs) =
      let later = insert_entry e fs in if before e.0 f.0 then e ∷ f ∷ fs else f ∷ later

  unfoldable pub sort_entries : List (Text × V) → List (Text × V)
  unfolding insert_entry
  sort_entries [] = []
  sort_entries (e ∷ es) = insert_entry e (sort_entries es)

-- The number that an array index writes.
unfoldable pub index_value : ℕ → Text → ℕ
index_value acc [] = acc
index_value acc (c ∷ s) = index_value (acc * 10 + (c - b'0')) s

unfoldable pub is_array_index : Text → Bool
unfolding index_value
is_array_index [] = false
is_array_index (c ∷ s) =
    every is_digit (c ∷ s) && (c != b'0' || s == []) && ltb (index_value 0 (c ∷ s)) 4294967295

unfoldable pub is_proto : Text → Bool
is_proto k = k == codes "__proto__"

-- The own properties of `normalized` in the order in which JSON.stringify visits them: the array
-- indices by their number, then the other keys as they were set. A write to `normalized.__proto__`
-- makes no own property.
module _ {ℓ} {V : Type ℓ} where
  unfoldable pub own_properties : List (Text × V) → List (Text × V)
  unfolding sort_entries is_array_index is_proto
  own_properties es =
      sort_entries (λ k j. leb (index_value 0 k) (index_value 0 j))
        (keep (λ e. is_array_index e.0) es)
      ++ keep (λ e. not (is_array_index e.0) && not (is_proto e.0)) es

-- What became of the members of an object, in order: an undefined value is left out, a throw stops.
unfoldable pub collect_members :
    {A : Type 0}
    → List (Text × Option (Result EvidenceError A))
    → Result EvidenceError (List (Text × A))
collect_members [] = ok []
collect_members ((k, none) ∷ ms) = collect_members ms
collect_members ((k, some r) ∷ ms) = do v ← r; rest ← collect_members ms; ok ((k, v) ∷ rest)

unfoldable pub json_fields : List (Text × Json) → JsonFields
json_fields [] = end
json_fields ((k, v) ∷ es) = field k v (json_fields es)

-- The keys sorted, the members normalised in that order, and the object that they build.
unfoldable pub normalize_members :
    List (Text × Option (Result EvidenceError Json)) → Result EvidenceError Json
unfolding sort_entries text_leb collect_members own_properties json_fields
normalize_members ms = do
  es ← collect_members (sort_entries text_leb ms)
  ok (Json.obj (json_fields (own_properties es)))

unfoldable mutual
  unfolding normalize_members array_item object_member

  pub normalize_json : Js → Result EvidenceError Json
  normalize_json Js.null = ok Json.null
  normalize_json Js.undefined = err non_json_value
  normalize_json Js.non_finite = err non_finite_number
  normalize_json Js.class_object = err not_plain_object
  normalize_json Js.other = err non_json_value
  normalize_json (Js.bool b) = ok (Json.bool b)
  normalize_json (Js.num n) = ok (Json.num n)
  normalize_json (Js.str s) = ok (Json.str s)
  normalize_json (Js.arr xs) = normalize_items xs >>= λ ys. ok (Json.arr ys)
  normalize_json (Js.obj fs) = normalize_members (members fs)

  pub normalize_items : Items → Result EvidenceError JsonItems
  normalize_items Items.nil = ok JsonItems.nil
  normalize_items (Items.cons x xs) =
      array_item x (normalize_json x) >>= λ y. normalize_items xs >>= λ ys. ok (JsonItems.cons y ys)

  pub members : Fields → List (Text × Option (Result EvidenceError Json))
  members Fields.end = []
  members (Fields.field k v fs) = (k, object_member v (normalize_json v)) ∷ members fs

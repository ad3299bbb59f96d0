-- ===== src/Domain/Evidence/Reading.antt =====
-- A reader of the text that JSON.stringify prints, which the round trip of packages/domain/src/evidence.ts
-- is stated with. The fuel bounds the units and the values that are read.
use safecommit_ai.Domain.Evidence.Normal.{Json, JsonFields, JsonItems}
use safecommit_ai.Prelude.{
  Bool, Option, Text, [], bool_eq, false, if◌then◌else◌, ltb, nat_eq, none, option_eq, some, suc,
  text_eq, true, zero, ℕ, ◌*◌, ◌+◌, ◌-◌, ◌==◌, ◌||◌, ◌∷◌,
}
use safecommit_ai.Text.{is_digit}

unfoldable pub unhex : ℕ → ℕ
unhex x = if ltb x 58 then x - 48 else x - 87

unescape : ℕ → ℕ
unescape x =
    if x == b'b'
    then 8
    else if x == b't'
    then 9
    else if x == b'n'
    then 10
    else if x == b'f'
    then 12
    else if x == b'r'
    then 13
    else x

read_hex : Text → Option (ℕ × Text)
unfolding unhex
read_hex (a ∷ b ∷ c ∷ d ∷ r) = some (unhex a * 4096 + unhex b * 256 + unhex c * 16 + unhex d, r)
read_hex _ = none

read_escape : Text → Option (ℕ × Text)
unfolding read_hex unescape
read_escape [] = none
read_escape (x ∷ r) = if x == b'u' then read_hex r else some (unescape x, r)

-- One unit of a quoted string; none where the string closes.
unfoldable pub read_unit : Text → Option (ℕ × Text)
unfolding read_escape
read_unit [] = none
read_unit (c ∷ r) = if c == 92 then read_escape r else if c == 34 then none else some (c, r)

abbrev after_close : Text → Option (Text × Text)
after_close [] = none
after_close (c ∷ r) = some ([], r)

abbrev with_unit : ℕ → Option (Text × Text) → Option (Text × Text)
with_unit c none = none
with_unit c (some (s, r)) = some (c ∷ s, r)

-- A string behind its opening quote.
unfoldable pub read_string : ℕ → Text → Option (Text × Text)
unfolding read_unit
read_string zero t = none
read_string (suc n) t = elim (read_unit t) [
  | none ↦ after_close t
  | some u ↦ with_unit u.0 (read_string n u.1)
]

-- A unit of a number's text.
unfoldable pub is_number_unit : ℕ → Bool
is_number_unit c = is_digit c || c == b'-' || c == b'+' || c == b'.' || c == b'e'

unfoldable pub read_number : Text → Text × Text
unfolding is_number_unit
read_number [] = ([], [])
read_number (c ∷ r) =
    let rest = read_number r in if is_number_unit c then (c ∷ rest.0, rest.1) else ([], c ∷ r)

-- What a value starts with.
pub data Lead : Type 0 where
  lead_null lead_true lead_false lead_string lead_array lead_object lead_number : Lead

unfoldable pub lead : ℕ → Lead
lead c =
    if c == b'n'
    then lead_null
    else if c == b't'
    then lead_true
    else if c == b'f'
    then lead_false
    else if c == 34
    then lead_string
    else if c == b'['
    then lead_array
    else if c == b'{'
    then lead_object
    else lead_number

-- The text behind a literal of `k` more units.
unfoldable pub behind : ℕ → Text → Text
behind zero t = t
behind (suc k) [] = []
behind (suc k) (c ∷ t) = behind k t

abbrev string_value : Option (Text × Text) → Option (Json × Text)
string_value none = none
string_value (some (s, r)) = some (Json.str s, r)

abbrev array_value : Option (JsonItems × Text) → Option (Json × Text)
array_value none = none
array_value (some (xs, r)) = some (Json.arr xs, r)

abbrev object_value : Option (JsonFields × Text) → Option (Json × Text)
object_value none = none
object_value (some (fs, r)) = some (Json.obj fs, r)

abbrev pub item_value : Json → Option (JsonItems × Text) → Option (JsonItems × Text)
item_value x none = none
item_value x (some (xs, r)) = some (JsonItems.cons x xs, r)

abbrev field_value : Text → Json → Option (JsonFields × Text) → Option (JsonFields × Text)
field_value k v none = none
field_value k v (some (fs, r)) = some (JsonFields.field k v fs, r)

unfoldable mutual
  unfolding read_string read_number lead behind

  pub read_json : ℕ → Text → Option (Json × Text)
  read_json zero t = none
  read_json (suc n) [] = none
  read_json (suc n) (c ∷ t) = elim (lead c) [
    | lead_null ↦ some (Json.null, behind 3 t)
    | lead_true ↦ some (Json.bool true, behind 3 t)
    | lead_false ↦ some (Json.bool false, behind 4 t)
    | lead_string ↦ string_value (read_string n t)
    | lead_array ↦ array_value (read_items n t)
    | lead_object ↦ object_value (read_fields n t)
    | lead_number ↦ let number = read_number (c ∷ t) in some (Json.num number.0, number.1)
  ]

  -- The items behind `[`, and behind an item.
  pub read_items : ℕ → Text → Option (JsonItems × Text)
  read_items zero t = none
  read_items (suc n) [] = none
  read_items (suc n) (c ∷ t) = elim (c == b']') [
    | true ↦ some (JsonItems.nil, t)
    | false ↦ elim (read_json n (c ∷ t)) [
      | none ↦ none
      | some x ↦ item_value x.0 (read_more_items n x.1)
    ]
  ]

  pub read_more_items : ℕ → Text → Option (JsonItems × Text)
  read_more_items zero t = none
  read_more_items (suc n) [] = none
  read_more_items (suc n) (c ∷ t) = elim (c == b']') [
    | true ↦ some (JsonItems.nil, t)
    | false ↦ elim (read_json n t) [ none ↦ none | some x ↦ item_value x.0 (read_more_items n x.1) ]
  ]

  -- The members behind `{`, and behind a member.
  pub read_fields : ℕ → Text → Option (JsonFields × Text)
  read_fields zero t = none
  read_fields (suc n) [] = none
  read_fields (suc n) (c ∷ t) = elim (c == b'}') [
    | true ↦ some (JsonFields.end, t)
    | false ↦ read_member n t
  ]

  pub read_more_fields : ℕ → Text → Option (JsonFields × Text)
  read_more_fields zero t = none
  read_more_fields (suc n) [] = none
  read_more_fields (suc n) (c ∷ t) = elim (c == b'}') [
    | true ↦ some (JsonFields.end, t)
    | false ↦ read_member n (behind 1 t)
  ]

  -- A member behind the quote that opens its key.
  pub read_member : ℕ → Text → Option (JsonFields × Text)
  read_member zero t = none
  read_member (suc n) t = elim (read_string n t) [
    | none ↦ none
    | some k ↦ elim (read_json n (behind 1 k.1)) [
      | none ↦ none
      | some v ↦ field_value k.0 v.0 (read_more_fields n v.1)
    ]
  ]

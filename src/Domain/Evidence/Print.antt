-- ===== src/Domain/Evidence/Print.antt =====
-- JSON.stringify of a normalised value, as `canonicalJson` calls it.
use safecommit_ai.Prelude.{
  ℕ, ◌+◌, ◌/◌, ◌%◌, Bool, true, false, ◌&&◌, Option, none, some, [], ◌∷◌, ◌++◌, Text, leb, ltb,
  ◌==◌, nat_eq, if◌then◌else◌,
}
use safecommit_ai.Text.{codes}
use safecommit_ai.Domain.Evidence.Normal.{Json, JsonItems, JsonFields}

abbrev pub is_high : ℕ → Bool
is_high c = leb 0xd800 c && leb c 0xdbff

abbrev pub is_low : ℕ → Bool
is_low c = leb 0xdc00 c && leb c 0xdfff

unfoldable pub lower_hex : ℕ → ℕ
lower_hex d = if ltb d 10 then d + b'0' else d + 87

-- \uXXXX
unfoldable pub unicode_escape : ℕ → Text
unfolding lower_hex
unicode_escape c =
    92
    ∷ b'u'
    ∷ lower_hex (c / 4096 % 16)
    ∷ lower_hex (c / 256 % 16)
    ∷ lower_hex (c / 16 % 16)
    ∷ lower_hex (c % 16)
    ∷ []

-- A unit that is no surrogate.
unfoldable pub quote_unit : ℕ → Text
unfolding unicode_escape
quote_unit c =
    if c == 8
    then 92 ∷ b'b' ∷ []
    else if c == 9
    then 92 ∷ b't' ∷ []
    else if c == 10
    then 92 ∷ b'n' ∷ []
    else if c == 12
    then 92 ∷ b'f' ∷ []
    else if c == 13
    then 92 ∷ b'r' ∷ []
    else if c == 34
    then 92 ∷ 34 ∷ []
    else if c == 92
    then 92 ∷ 92 ∷ []
    else if ltb c 32
    then unicode_escape c
    else c ∷ []

-- A pair of surrogates stays, a lone surrogate is escaped. `pending` is a high surrogate that has
-- been read and waits for its low half.
unfoldable pub quote_from : Option ℕ → Text → Text
unfolding quote_unit
quote_from none [] = []
quote_from (some h) [] = unicode_escape h
quote_from none (c ∷ s) =
    let wait = quote_from (some c) s in
    let rest = quote_from none s in
    if is_high c then wait else if is_low c then unicode_escape c ++ rest else quote_unit c ++ rest
quote_from (some h) (c ∷ s) =
    let wait = quote_from (some c) s in
    let rest = quote_from none s in
    if is_low c
    then h ∷ c ∷ rest
    else unicode_escape h ++ (if is_high c then wait else quote_unit c ++ rest)

unfoldable pub quote : Text → Text
unfolding quote_from
quote s = 34 ∷ quote_from none s ++ (34 ∷ [])

unfoldable mutual
  unfolding quote

  pub json_text : Json → Text
  json_text Json.null = codes "null"
  json_text (Json.bool true) = codes "true"
  json_text (Json.bool false) = codes "false"
  json_text (Json.num n) = n
  json_text (Json.str s) = quote s
  json_text (Json.arr xs) = b'[' ∷ items_text xs
  json_text (Json.obj fs) = b'{' ∷ fields_text fs

  pub items_text : JsonItems → Text
  items_text JsonItems.nil = b']' ∷ []
  items_text (JsonItems.cons x xs) = json_text x ++ more_items_text xs

  pub more_items_text : JsonItems → Text
  more_items_text JsonItems.nil = b']' ∷ []
  more_items_text (JsonItems.cons x xs) = b',' ∷ json_text x ++ more_items_text xs

  pub fields_text : JsonFields → Text
  fields_text JsonFields.end = b'}' ∷ []
  fields_text (JsonFields.field k v fs) = quote k ++ (b':' ∷ json_text v ++ more_fields_text fs)

  pub more_fields_text : JsonFields → Text
  more_fields_text JsonFields.end = b'}' ∷ []
  more_fields_text (JsonFields.field k v fs) =
      b',' ∷ quote k ++ (b':' ∷ json_text v ++ more_fields_text fs)

-- ===== src/Domain/Evidence/RoundTrip.antt =====
-- The canonical JSON of packages/domain/src/evidence.ts can be read back, so that a text has one value.
use mathlib.Core.List.{append_assoc}
use safecommit_ai.Domain.Evidence.Normal.{Json, JsonFields, JsonItems}
use safecommit_ai.Domain.Evidence.Print.{
  fields_text, items_text, json_text, more_fields_text, more_items_text, quote, quote_from,
}
use safecommit_ai.Domain.Evidence.Printable.{
  ArePrintable, HasPrintable, IsNumberText, IsPrintable, fields_size, fields_size-pos, items_size,
  items_size-pos, size, size-pos,
}
use safecommit_ai.Domain.Evidence.Quoted.{IsUnits, read_string-quote}
use safecommit_ai.Domain.Evidence.Reading.{
  is_number_unit, item_value, lead, lead_number, read_fields, read_items, read_json, read_member,
  read_more_fields, read_more_items, read_number,
}
use safecommit_ai.Domain.Workflow.WellFormed.{stop}
use safecommit_ai.Prelude.{
  &&-true, Text, [], ap, arith, bool_eq, every, false, length, nat_eq, none, option_eq, refl, some,
  subst, suc, sym, text_eq, true, zero, ℕ, ◌++◌, ◌+◌, ◌==◌, ◌∙◌, ◌∷◌, ◌≡◌, ◌≤◌,
}

-- What may stand behind a number.
abbrev pub Stops : Text → Type 0
Stops [] = Unit
Stops (c ∷ r) = is_number_unit c ≡ false

read_number-stop : (r : Text) → Stops r → read_number r ≡ ([], r)
unfolding read_number
read_number-stop [] h = refl
read_number-stop (c ∷ r) h = rw h refl

read_number-text :
    (n r : Text) → every is_number_unit n ≡ true → Stops r → read_number (n ++ r) ≡ (n, r)
unfolding read_number
read_number-text [] r h stop = read_number-stop r stop
read_number-text (c ∷ n) r h stop =
    let both = &&-true (is_number_unit c) _ h in
    rw both.0 (rw (read_number-text n r both.1 stop) refl)

lead-number : (c : ℕ) → is_number_unit c ≡ true → lead c ≡ lead_number
unfolding lead is_number_unit
lead-number c h = ground arith

not_bracket : (c : ℕ) → is_number_unit c ≡ true → (c == b']') ≡ false
unfolding is_number_unit
not_bracket c h = ground arith

-- A value does not start as an empty array ends.
module _ (r : Text) where
  starts_item :
      (x : Json)
      → IsPrintable x
      → (c : ℕ) × (t : Text) × (json_text x ++ r ≡ c ∷ t) × ((c == b']') ≡ false)
  unfolding json_text IsPrintable
  starts_item Json.null p = (_, _, refl, refl)
  starts_item (Json.bool true) p = (_, _, refl, refl)
  starts_item (Json.bool false) p = (_, _, refl, refl)
  starts_item (Json.num []) (c, t, e, p) = cc
  starts_item (Json.num (c ∷ t)) (_, _, _, p) =
      (c, t ++ r, refl, not_bracket c (&&-true (is_number_unit c) _ p).0)
  starts_item (Json.str s) p = (_, _, refl, refl)
  starts_item (Json.arr xs) p = (_, _, refl, refl)
  starts_item (Json.obj fs) p = (_, _, refl, refl)

read-number :
    (t : Text) (n : ℕ) (r : Text)
    → IsNumberText t
    → Stops r
    → read_json (suc n) (t ++ r) ≡ some (Json.num t, r)
unfolding read_json read_number
read-number [] n r (c, t, e, h) ends = cc
read-number (c ∷ t) n r (_, _, _, h) ends =
    let both = &&-true (is_number_unit c) _ h in
    rw (lead-number c both.0, read_json) (rw both.0 (rw (read_number-text t r both.1 ends) refl))

more_items-Stops : (xs : JsonItems) (r : Text) → Stops (more_items_text xs ++ r)
unfolding json_text is_number_unit
more_items-Stops JsonItems.nil r = refl
more_items-Stops (JsonItems.cons x xs) r = refl

more_fields-Stops : (fs : JsonFields) (r : Text) → Stops (more_fields_text fs ++ r)
unfolding json_text is_number_unit
more_fields-Stops JsonFields.end r = refl
more_fields-Stops (JsonFields.field k v fs) r = refl

read_items-open :
    (n c : ℕ) (t : Text) (x : Json) (r : Text)
    → (c == b']') ≡ false
    → read_json n (c ∷ t) ≡ some (x, r)
    → read_items (suc n) (c ∷ t) ≡ item_value x (read_more_items n r)
unfolding read_json
read_items-open n c t x r opens h = rw (opens, read_items) (rw h refl)

-- An array that does not end at once starts with an item.
read_items-item :
    (n : ℕ) (x : Json) (r : Text)
    → IsPrintable x
    → read_json n (json_text x ++ r) ≡ some (x, r)
    → read_items (suc n) (json_text x ++ r) ≡ item_value x (read_more_items n r)
read_items-item n x r p h =
    let (c, t, begins, opens) = starts_item r x p in
    subst (λ u. read_items (suc n) u ≡ item_value x (read_more_items n r)) (sym begins)
      (read_items-open n c t x r opens (sym (ap (read_json n) begins) ∙ h))

-- The text of a member, with what follows the object.
member-append :
    (k : Text) (v : Json) (fs : JsonFields) (r : Text)
    → (quote k ++ (b':' ∷ json_text v ++ more_fields_text fs)) ++ r
      ≡ 34 ∷ (quote_from none k ++ 34 ∷ b':' ∷ (json_text v ++ (more_fields_text fs ++ r)))
unfolding quote
member-append k v fs r = ap (◌∷◌ 34) (
    append_assoc (quote_from none k ++ (34 ∷ [])) _ r
    ∙ (append_assoc (quote_from none k) _ _
        ∙ ap (λ t. quote_from none k ++ 34 ∷ b':' ∷ t) (append_assoc (json_text v) _ r)))

mutual
  unfolding read_json IsPrintable size json_text quote

  pub read-value :
      (n : ℕ) (x : Json) (r : Text)
      → IsPrintable x
      → Stops r
      → size x ≤ n
      → read_json n (json_text x ++ r) ≡ some (x, r)
  read-value zero x r p ends fuel = absurd (omega (arith, size-pos x))
  read-value (suc n) Json.null r p ends fuel = refl
  read-value (suc n) (Json.bool true) r p ends fuel = refl
  read-value (suc n) (Json.bool false) r p ends fuel = refl
  read-value (suc n) (Json.num t) r p ends fuel = read-number t n r p ends
  read-value (suc n) (Json.str s) r p ends fuel =
      rw append_assoc (rw (read_string-quote n s r p (omega arith)) refl)
  read-value (suc n) (Json.arr xs) r p ends fuel = rw (read-items n xs r p (omega arith)) refl
  read-value (suc n) (Json.obj fs) r p ends fuel = rw (read-fields n fs r p (omega arith)) refl

  read-items :
      (n : ℕ) (xs : JsonItems) (r : Text)
      → ArePrintable xs
      → items_size xs ≤ n
      → read_items n (items_text xs ++ r) ≡ some (xs, r)
  read-items zero xs r p fuel = absurd (omega (arith, items_size-pos xs))
  read-items (suc n) JsonItems.nil r p fuel = refl
  read-items (suc n) (JsonItems.cons x xs) r p fuel = rw append_assoc (
      read_items-item n x _ p.0
        (read-value n x _ p.0 (more_items-Stops xs r) (omega (arith, items_size-pos xs)))
      ∙ rw (read-more_items n xs r p.1 (omega (arith, size-pos x))) refl)

  read-more_items :
      (n : ℕ) (xs : JsonItems) (r : Text)
      → ArePrintable xs
      → items_size xs ≤ n
      → read_more_items n (more_items_text xs ++ r) ≡ some (xs, r)
  read-more_items zero xs r p fuel = absurd (omega (arith, items_size-pos xs))
  read-more_items (suc n) JsonItems.nil r p fuel = refl
  read-more_items (suc n) (JsonItems.cons x xs) r p fuel = rw append_assoc (
      rw (read-value n x _ p.0 (more_items-Stops xs r) (omega arith))
        (rw (read-more_items n xs r p.1 (omega (arith, size-pos x))) refl))

  read-fields :
      (n : ℕ) (fs : JsonFields) (r : Text)
      → HasPrintable fs
      → fields_size fs ≤ n
      → read_fields n (fields_text fs ++ r) ≡ some (fs, r)
  read-fields zero fs r p fuel = absurd (omega (arith, fields_size-pos fs))
  read-fields (suc n) JsonFields.end r p fuel = refl
  read-fields (suc n) (JsonFields.field k v fs) r p fuel =
      subst (λ t. read_fields (suc n) t ≡ some (JsonFields.field k v fs, r))
        (sym (member-append k v fs r)) (read-member n k v fs r p (omega arith))

  read-more_fields :
      (n : ℕ) (fs : JsonFields) (r : Text)
      → HasPrintable fs
      → fields_size fs ≤ n
      → read_more_fields n (more_fields_text fs ++ r) ≡ some (fs, r)
  read-more_fields zero fs r p fuel = absurd (omega (arith, fields_size-pos fs))
  read-more_fields (suc n) JsonFields.end r p fuel = refl
  read-more_fields (suc n) (JsonFields.field k v fs) r p fuel =
      subst (λ t. read_more_fields (suc n) (b',' ∷ t) ≡ some (JsonFields.field k v fs, r))
        (sym (member-append k v fs r)) (read-member n k v fs r p (omega arith))

  read-member :
      (n : ℕ) (k : Text) (v : Json) (fs : JsonFields) (r : Text)
      → IsUnits k × IsPrintable v × HasPrintable fs
      → 2 + length k + size v + fields_size fs ≤ n
      → read_member n (quote_from none k ++ 34 ∷ b':' ∷ (json_text v ++ (more_fields_text fs ++ r)))
        ≡ some (JsonFields.field k v fs, r)
  read-member zero k v fs r p fuel = absurd (omega arith)
  read-member (suc n) k v fs r p fuel =
      let after_key = b':' ∷ (json_text v ++ (more_fields_text fs ++ r)) in
      rw (read_string-quote n k after_key p.0 (omega arith), read_member)
        (rw (read-value n v _ p.1 (more_fields-Stops fs r) (omega arith))
          (rw (read-more_fields n fs r p.2 (omega arith)) refl))

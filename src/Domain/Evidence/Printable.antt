-- ===== src/Domain/Evidence/Printable.antt =====
-- The values of packages/domain/src/evidence.ts whose text can be read back, and the fuel that reads them.
use safecommit_ai.Domain.Evidence.Normal.{Json, JsonFields, JsonItems}
use safecommit_ai.Domain.Evidence.Quoted.{IsUnits}
use safecommit_ai.Domain.Evidence.Reading.{is_number_unit}
use safecommit_ai.Prelude.{Text, arith, every, length, true, ℕ, ◌+◌, ◌<◌, ◌∷◌, ◌≡◌}

-- The text of a number: no other value starts as it does, and it ends where its units end.
abbrev pub IsNumberText : Text → Type 0
IsNumberText n = (c : ℕ) × (t : Text) × (n ≡ c ∷ t) × (every is_number_unit n ≡ true)

-- Strings of UTF-16 code units, and numbers as JavaScript prints them.
unfoldable mutual
  pub IsPrintable : Json → Type 0
  IsPrintable Json.null = Unit
  IsPrintable (Json.bool b) = Unit
  IsPrintable (Json.num n) = IsNumberText n
  IsPrintable (Json.str s) = IsUnits s
  IsPrintable (Json.arr xs) = ArePrintable xs
  IsPrintable (Json.obj fs) = HasPrintable fs

  pub ArePrintable : JsonItems → Type 0
  ArePrintable JsonItems.nil = Unit
  ArePrintable (JsonItems.cons x xs) = IsPrintable x × ArePrintable xs

  pub HasPrintable : JsonFields → Type 0
  HasPrintable JsonFields.end = Unit
  HasPrintable (JsonFields.field k v fs) = IsUnits k × IsPrintable v × HasPrintable fs

-- The fuel that reads a value.
unfoldable mutual
  pub size : Json → ℕ
  size Json.null = 1
  size (Json.bool b) = 1
  size (Json.num n) = 1
  size (Json.str s) = 2 + length s
  size (Json.arr xs) = 1 + items_size xs
  size (Json.obj fs) = 1 + fields_size fs

  pub items_size : JsonItems → ℕ
  items_size JsonItems.nil = 1
  items_size (JsonItems.cons x xs) = 1 + size x + items_size xs

  pub fields_size : JsonFields → ℕ
  fields_size JsonFields.end = 1
  fields_size (JsonFields.field k v fs) = 3 + length k + size v + fields_size fs

pub size-pos : (x : Json) → 0 < size x
unfolding size
size-pos Json.null = omega arith
size-pos (Json.bool b) = omega arith
size-pos (Json.num t) = omega arith
size-pos (Json.str s) = omega arith
size-pos (Json.arr xs) = omega arith
size-pos (Json.obj fs) = omega arith

pub items_size-pos : (xs : JsonItems) → 0 < items_size xs
unfolding size
items_size-pos JsonItems.nil = omega arith
items_size-pos (JsonItems.cons x xs) = omega arith

pub fields_size-pos : (fs : JsonFields) → 0 < fields_size fs
unfolding size
fields_size-pos JsonFields.end = omega arith
fields_size-pos (JsonFields.field k v fs) = omega arith

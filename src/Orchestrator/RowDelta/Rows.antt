-- ===== src/Orchestrator/RowDelta/Rows.antt =====
-- The rows of a snapshot by table and id, and the lists of keys that the loops of `computeRowDelta` run over.
use safecommit_ai.Domain.Evidence.Normal.{text_leb}
use safecommit_ai.Orchestrator.RowDelta.{
  DatabaseRow, DatabaseTables, RowDeltaError, get_row, keyed_rows, later_or, property, row_key,
  rows_in, sorted_set,
}
use safecommit_ai.Prelude.{
  ==-eq, ==-refl, ==-sym, >>=-eq-ok, All, All-map, Bool, Bool-cases, List, Option, Result, Text, [],
  arith, bool_eq, distinct, err, false, if◌then◌else◌, includes, includes-append, inl, inr, map,
  nat_eq, none, ok, ok_injective, option_eq, refl, some, subst, sym, text_eq, true, ◌++◌, ◌==◌, ◌∷◌,
  ◌≡◌,
}
use safecommit_ai.Sorting.{All-sort_by, All-sorted}

-- What holds of every element holds of one that the list includes.
pub All-includes :
    (P : Text → Type 0) (xs : List Text) (x : Text) → All P xs → includes xs x ≡ true → P x
All-includes P [] x h k = cc
All-includes P (y ∷ ys) x h k = elim (Bool-cases (x == y)) [
  | inl here ↦ subst P (sym (==-eq x y here)) h.0
  | inr there ↦ All-includes P ys x h.1 (ground arith)
]

pub includes-neither :
    (xs ys : List Text) (x : Text)
    → includes (xs ++ ys) x ≡ false
    → (includes xs x ≡ false) × (includes ys x ≡ false)
includes-neither xs ys x h = ground (arith, includes-append xs ys x)

-- What holds of the sorted set holds of the list, and the other way round.
All-distinct : (P : Text → Type 0) (xs : List Text) → All P (distinct xs) → All P xs
All-distinct P [] h = tt
All-distinct P (x ∷ xs) h = elim (Bool-cases (includes xs x)) [
  | inl twice ↦
      let rest = All-distinct P xs (rw twice at h) in (All-includes P xs x rest twice, rest)
  | inr once ↦ let both = rw once at h in (both.0, All-distinct P xs both.1)
]

distinct-All : (P : Text → Type 0) (xs : List Text) → All P xs → All P (distinct xs)
distinct-All P [] h = tt
distinct-All P (x ∷ xs) h = elim (Bool-cases (includes xs x)) [
  | inl twice ↦ rw twice (distinct-All P xs h.1)
  | inr once ↦ rw once (h.0, distinct-All P xs h.1)
]

pub All-sorted_set : (P : Text → Type 0) (xs : List Text) → All P (sorted_set xs) → All P xs
unfolding sorted_set
All-sorted_set P xs h = All-distinct P xs (All-sorted text_leb P (distinct xs) h)

pub sorted_set-All : (P : Text → Type 0) (xs : List Text) → All P xs → All P (sorted_set xs)
unfolding sorted_set
sorted_set-All P xs h = All-sort_by text_leb P (distinct xs) (distinct-All P xs h)

-- A key that is in no list has no entry.
pub property-none {ℓ} :
    {A : Type ℓ} (key : Text) (es : List (Text × A))
    → includes (map (λ e. e.0) es) key ≡ false
    → property key es ≡ none
unfolding property
property-none key [] h = refl
property-none key ((k, v) ∷ es) h =
    let other : (k == key) ≡ false = ground (arith, ==-sym k key) in
    rw other (property-none key es (ground arith))

pub get_row-none :
    (es : List (Text × DatabaseRow)) (key : Text)
    → includes (map (λ e. e.0) es) key ≡ false
    → get_row es key ≡ none
unfolding get_row
get_row-none [] key h = refl
get_row-none ((k, row) ∷ es) key h =
    let other : (k == key) ≡ false = ground (arith, ==-sym k key) in
    rw (other, get_row-none es key (ground arith)) refl

-- The last row with this id.
abbrev pub has_key : Text → Result RowDeltaError Text → Bool
has_key id (ok k) = k == id
has_key id (err _) = false

abbrev pub last_row : Text → List DatabaseRow → Option DatabaseRow
last_row id [] = none
last_row id (row ∷ rows) =
    later_or (last_row id rows) (if has_key id (row_key row) then some row else none)

abbrev pub row_at : DatabaseTables → Text → Text → Option DatabaseRow
row_at tables table id = last_row id (rows_in tables table)

pub get_row-last_row :
    (rows : List DatabaseRow) (es : List (Text × DatabaseRow)) (id : Text)
    → keyed_rows rows ≡ ok es
    → get_row es id ≡ last_row id rows
unfolding keyed_rows get_row
get_row-last_row [] es id h = subst (λ es. get_row es id ≡ none) (ok_injective h) refl
get_row-last_row (row ∷ rows) es id h =
    let (key, h1, hk) = >>=-eq-ok (row_key row) _ h in
    let (rest, h2, hr) = >>=-eq-ok (keyed_rows rows) _ h1 in
    let kept = get_row-last_row rows rest id hr in
    subst (λ es. get_row es id ≡ last_row id (row ∷ rows)) (ok_injective h2) (rw (hk, kept) refl)

-- A key of the list has a row.
abbrev pub HasRow : Option DatabaseRow → Type 0
HasRow none = ⊥
HasRow (some _) = Unit

HasRow-later_or : (o p : Option DatabaseRow) → HasRow o → HasRow (later_or o p)
HasRow-later_or (some a) p h = tt
HasRow-later_or none p h = absurd h

HasRow-or_later : (o p : Option DatabaseRow) → HasRow p → HasRow (later_or o p)
HasRow-or_later (some a) p h = tt
HasRow-or_later none p h = h

pub keys-HasRow :
    (es : List (Text × DatabaseRow)) → All (λ k. HasRow (get_row es k)) (map (λ e. e.0) es)
unfolding get_row
keys-HasRow [] = tt
keys-HasRow ((k, row) ∷ es) = (
  HasRow-or_later (get_row es k) _ (rw (==-refl k) tt),
  All-map (λ j h. HasRow-later_or (get_row es j) _ h) (map (λ e. e.0) es) (keys-HasRow es),
)

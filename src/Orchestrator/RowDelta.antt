-- ===== src/Orchestrator/RowDelta.antt =====
-- apps/orchestrator/src/row-delta.ts: the rows that differ between two snapshots of a database.
-- A record is the list of its own properties, a Map the list of its writes. A Set is read only when it has
-- been sorted, so the order of its members does not matter.
pub mod Rows
pub mod Told
pub mod Complete
use safecommit_ai.Domain.Evidence.{compute_evidence_digest}
use safecommit_ai.Domain.Evidence.Normal.{EvidenceError, Fields, Js, text_leb}
use safecommit_ai.Prelude.{
  Bool, List, Option, Result, Text, [], bool_eq, distinct, err, false, if◌then◌else◌, map, nat_eq,
  none, ok, option_eq, some, text_eq, ◌++◌, ◌==◌, ◌>>=◌, ◌∷◌,
}
use safecommit_ai.Runtime.{Runtime}
use safecommit_ai.Sorting.{sort_by}
use safecommit_ai.Text.{codes}

pub data DatabaseScalar : Type 0 where
  string number : Text → DatabaseScalar
  boolean : Bool → DatabaseScalar
  non_finite null : DatabaseScalar

abbrev pub DatabaseRow : Type 0
DatabaseRow = List (Text × DatabaseScalar)

abbrev pub DatabaseTables : Type 0
DatabaseTables = List (Text × List DatabaseRow)

pub record DatabaseStateSnapshot : Type 0 where
  pub tables : DatabaseTables
  pub digest : Text

pub data ChangeKind : Type 0 where
  inserted updated deleted : ChangeKind

-- `primary_key` is the only property `id` of `primaryKey`.
pub record RowDelta : Type 0 where
  pub table : Text
  pub primary_key : Text
  pub change_kind : ChangeKind
  pub before : Option DatabaseRow
  pub after : Option DatabaseRow

pub data RowDeltaError : Type 0 where
  missing_row_id : RowDeltaError
  evidence : EvidenceError → RowDeltaError

-- object[key]
unfoldable pub property {ℓ} : {A : Type ℓ} → Text → List (Text × A) → Option A
property key [] = none
property key ((k, v) ∷ es) = let rest = property key es in if k == key then some v else rest

unfoldable pub key_of_scalar : Option DatabaseScalar → Result RowDeltaError Text
key_of_scalar (some (DatabaseScalar.string (c ∷ id))) = ok (c ∷ id)
key_of_scalar _ = err missing_row_id

unfoldable pub row_key : DatabaseRow → Result RowDeltaError Text
unfolding property key_of_scalar
row_key row = key_of_scalar (property (codes "id") row)

-- new Map(rows.map((row) => [rowKey(row), row]))
unfoldable pub keyed_rows : List DatabaseRow → Result RowDeltaError (List (Text × DatabaseRow))
unfolding row_key
keyed_rows [] = ok []
keyed_rows (row ∷ rows) = do key ← row_key row; rest ← keyed_rows rows; ok ((key, row) ∷ rest)

abbrev pub later_or {ℓ} : {A : Type ℓ} → Option A → Option A → Option A
later_or (some a) o = some a
later_or none o = o

-- map.get(key): the last write counts.
unfoldable pub get_row : List (Text × DatabaseRow) → Text → Option DatabaseRow
get_row [] key = none
get_row ((k, row) ∷ es) key = later_or (get_row es key) (if k == key then some row else none)

-- rows ?? []
abbrev pub or_no_rows : Option (List DatabaseRow) → List DatabaseRow
or_no_rows none = []
or_no_rows (some rows) = rows

unfoldable pub rows_in : DatabaseTables → Text → List DatabaseRow
unfolding property
rows_in tables table = or_no_rows (property table tables)

abbrev pub scalar_js : DatabaseScalar → Js
scalar_js (DatabaseScalar.string t) = Js.str t
scalar_js (DatabaseScalar.number t) = Js.num t
scalar_js (DatabaseScalar.boolean b) = Js.bool b
scalar_js DatabaseScalar.non_finite = Js.non_finite
scalar_js DatabaseScalar.null = Js.null

abbrev pub row_fields : DatabaseRow → Fields
row_fields [] = Fields.end
row_fields ((k, v) ∷ es) = Fields.field k (scalar_js v) (row_fields es)

-- An error of `computeEvidenceDigest` passes through.
abbrev pub thrown_by_digest : {A : Type 0} → Result EvidenceError A → Result RowDeltaError A
thrown_by_digest (ok a) = ok a
thrown_by_digest (err e) = err (evidence e)

-- [...new Set(xs)].sort()
unfoldable pub sorted_set : List Text → List Text
unfolding sort_by text_leb
sorted_set xs = sort_by text_leb (distinct xs)

unfoldable pub change_kind_of : Option DatabaseRow → Option DatabaseRow → ChangeKind
change_kind_of none _ = inserted
change_kind_of (some _) none = deleted
change_kind_of (some _) (some _) = updated

module _ (rt : Runtime) where
  abbrev pub row_digest : DatabaseRow → Result RowDeltaError Text
  row_digest row = thrown_by_digest (compute_evidence_digest rt (Js.obj (row_fields row)))

  -- The condition of `continue`.
  unfoldable pub is_same_row : Option DatabaseRow → Option DatabaseRow → Result RowDeltaError Bool
  is_same_row (some b) (some a) = do d ← row_digest b; e ← row_digest a; ok (d == e)
  is_same_row _ _ = ok false

  -- The loop over the ids of one table.
  unfoldable pub delta_of_ids :
      Text
      → (Text → Option DatabaseRow)
      → (Text → Option DatabaseRow)
      → List Text
      → Result RowDeltaError (List RowDelta)
  unfolding is_same_row change_kind_of
  delta_of_ids table before_row after_row [] = ok []
  delta_of_ids table before_row after_row (id ∷ ids) = do
    same ← is_same_row (before_row id) (after_row id)
    rest ← delta_of_ids table before_row after_row ids
    ok (
        if same
        then rest
        else (record {
          table = table;
          primary_key = id;
          change_kind = change_kind_of (before_row id) (after_row id);
          before = before_row id;
          after = after_row id;
        }
            ∷ rest))

  -- The body of the loop over the tables.
  unfoldable pub delta_of_table :
      DatabaseTables → DatabaseTables → Text → Result RowDeltaError (List RowDelta)
  unfolding keyed_rows rows_in get_row sorted_set delta_of_ids
  delta_of_table bs cs table = do
    before_rows ← keyed_rows (rows_in bs table)
    after_rows ← keyed_rows (rows_in cs table)
    delta_of_ids table (get_row before_rows) (get_row after_rows)
        (sorted_set (map (λ e. e.0) before_rows ++ map (λ e. e.0) after_rows))

  unfoldable pub delta_of_tables :
      DatabaseTables → DatabaseTables → List Text → Result RowDeltaError (List RowDelta)
  unfolding delta_of_table
  delta_of_tables bs cs [] = ok []
  delta_of_tables bs cs (table ∷ tables) = do
    here ← delta_of_table bs cs table
    rest ← delta_of_tables bs cs tables
    ok (here ++ rest)

  unfoldable pub compute_row_delta :
      DatabaseStateSnapshot → DatabaseStateSnapshot → Result RowDeltaError (List RowDelta)
  unfolding sorted_set delta_of_tables
  compute_row_delta b c =
      delta_of_tables b.tables c.tables
        (sorted_set (map (λ e. e.0) b.tables ++ map (λ e. e.0) c.tables))

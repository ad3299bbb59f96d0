-- ===== src/Orchestrator/RowDelta/Complete.antt =====
-- The delta of two snapshots tells every difference, and nothing else (`computeRowDelta` of
-- apps/orchestrator/src/row-delta.ts).
use safecommit_ai.Orchestrator.RowDelta.{
  DatabaseRow, DatabaseStateSnapshot, DatabaseTables, RowDelta, compute_row_delta, delta_of_table,
  delta_of_tables, get_row, keyed_rows, rows_in, sorted_set,
}
use safecommit_ai.Orchestrator.RowDelta.Rows.{
  All-includes, All-sorted_set, HasRow, get_row-last_row, get_row-none, includes-neither,
  keys-HasRow, property-none, row_at, sorted_set-All,
}
use safecommit_ai.Orchestrator.RowDelta.Told.{
  Any-append_left, Any-append_right, AreSameRows, IsTold, IsTrueDelta, delta_of_ids-AreTold,
}
use safecommit_ai.Prelude.{
  >>=-eq-ok, All, All-append, All-map, Bool-cases, List, Option, Text, [], ap, false, includes, inl,
  inr, map, nat_eq, none, ok, refl, returns_ok, some, subst, sym, text_eq, ◌++◌, ◌∙◌, ◌∷◌, ◌≡◌, ◌⊎◌,
}
use safecommit_ai.Runtime.{Runtime}

module _ (rt : Runtime) (bs cs : DatabaseTables) where
  -- The deltas are true, and each row of this table is told.
  abbrev IsToldTable : List RowDelta → Text → Type 0
  IsToldTable ds table = (id : Text) → IsTold rt (row_at bs) (row_at cs) ds table id

  abbrev AreTrue : List RowDelta → Type 0
  AreTrue ds = All (IsTrueDelta rt (row_at bs) (row_at cs)) ds

  AreSameRows-none : (b a : Option DatabaseRow) → b ≡ none → a ≡ none → AreSameRows rt b a
  AreSameRows-none none none h k = tt
  AreSameRows-none none (some a) h k = cc
  AreSameRows-none (some b) a h k = cc

  module _ (table : Text) (before_rows after_rows : List (Text × DatabaseRow))
      (hb : keyed_rows (rows_in bs table) ≡ ok before_rows)
      (hc : keyed_rows (rows_in cs table) ≡ ok after_rows) where
    row_before : (id : Text) → get_row before_rows id ≡ row_at bs table id
    row_before id = get_row-last_row (rows_in bs table) before_rows id hb

    row_after : (id : Text) → get_row after_rows id ≡ row_at cs table id
    row_after id = get_row-last_row (rows_in cs table) after_rows id hc

    IsTrueDelta-in_table :
        (d : RowDelta)
        → (d.table ≡ table) × IsTrueDelta rt (λ _. get_row before_rows) (λ _. get_row after_rows) d
        → IsTrueDelta rt (row_at bs) (row_at cs) d
    IsTrueDelta-in_table d (here, (first, second, change)) = (
      first ∙ (row_before d.primary_key ∙ ap (λ t. row_at bs t d.primary_key) (sym here)),
      second ∙ (row_after d.primary_key ∙ ap (λ t. row_at cs t d.primary_key) (sym here)),
      change,
    )

    abbrev keys : List Text
    keys = map (λ e. e.0) before_rows ++ map (λ e. e.0) after_rows

    keys-have_rows :
        All (λ id. HasRow (get_row before_rows id) ⊎ HasRow (get_row after_rows id)) keys
    keys-have_rows =
        All-append _ (map (λ e. e.0) before_rows) (map (λ e. e.0) after_rows)
          (All-map (λ _ h. inl h) (map (λ e. e.0) before_rows) (keys-HasRow before_rows))
          (All-map (λ _ h. inr h) (map (λ e. e.0) after_rows) (keys-HasRow after_rows))

    IsTold-in_table :
        (ds : List RowDelta) (id : Text)
        → All (IsTold rt (λ _. get_row before_rows) (λ _. get_row after_rows) ds table) keys
        → IsTold rt (row_at bs) (row_at cs) ds table id
    IsTold-in_table ds id told = elim (Bool-cases (includes keys id)) [
      | inl listed ↦ elim (All-includes _ keys id told listed) [
        | inl same ↦ inl (
            subst (λ o. AreSameRows rt o (row_at cs table id)) (row_before id)
              (subst (AreSameRows rt (get_row before_rows id)) (row_after id) same))
        | inr about ↦ inr about
      ]
      | inr unlisted ↦
          let (first, second) =
            includes-neither (map (λ e. e.0) before_rows) (map (λ e. e.0) after_rows) id unlisted in
          inl (
            AreSameRows-none (row_at bs table id) (row_at cs table id)
              (sym (row_before id) ∙ get_row-none before_rows id first)
              (sym (row_after id) ∙ get_row-none after_rows id second))
    ]

  delta_of_table-IsToldTable :
      (table : Text) (ds : List RowDelta)
      → delta_of_table rt bs cs table ≡ ok ds
      → AreTrue ds × IsToldTable ds table
  unfolding delta_of_table
  delta_of_table-IsToldTable table ds h =
      let (before_rows, h1, hb) = >>=-eq-ok (keyed_rows (rows_in bs table)) _ h in
      let (after_rows, h2, hc) = >>=-eq-ok (keyed_rows (rows_in cs table)) _ h1 in
      let ids = keys table before_rows after_rows hb hc in
      let (all_true, told) =
        delta_of_ids-AreTold rt table (get_row before_rows) (get_row after_rows) (sorted_set ids) ds
          h2 (sorted_set-All _ ids (keys-have_rows table before_rows after_rows hb hc)) in
      (
        All-map (IsTrueDelta-in_table table before_rows after_rows hb hc) ds all_true,
        λ id. IsTold-in_table table before_rows after_rows hb hc ds id (All-sorted_set _ ids told),
      )

  delta_of_tables-IsToldTable :
      (tables : List Text) (ds : List RowDelta)
      → delta_of_tables rt bs cs tables ≡ ok ds
      → AreTrue ds × All (IsToldTable ds) tables
  unfolding delta_of_tables
  delta_of_tables-IsToldTable [] ds h =
      returns_ok (λ ds. AreTrue ds × All (IsToldTable ds) []) (tt, tt) h
  delta_of_tables-IsToldTable (table ∷ tables) ds h =
      let (here, h1, hh) = >>=-eq-ok (delta_of_table rt bs cs table) _ h in
      let (rest, h2, hr) = >>=-eq-ok (delta_of_tables rt bs cs tables) _ h1 in
      let (true_here, told_here) = delta_of_table-IsToldTable table here hh in
      let (true_rest, told_rest) = delta_of_tables-IsToldTable tables rest hr in
      returns_ok (λ ds. AreTrue ds × All (IsToldTable ds) (table ∷ tables))
        (
          All-append _ here rest true_here true_rest,
          (
            λ id. elim (told_here id) [
              | inl s ↦ inl s
              | inr a ↦ inr (Any-append_left _ here rest a)
            ],
            All-map
                (λ t told id. elim (told id) [
                  | inl s ↦ inl s
                  | inr a ↦ inr (Any-append_right _ here rest a)
                ])
                tables told_rest,
          ),
        )
        h2

  rows_in-none :
      (ts : DatabaseTables) (table id : Text)
      → includes (map (λ e. e.0) ts) table ≡ false
      → row_at ts table id ≡ none
  unfolding rows_in
  rows_in-none ts table id h = rw (property-none table ts h) refl

-- The delta that is computed of two snapshots is sound and complete. Each of its entries has the row
-- before and the row after of its table and id, and says rightly that the row was inserted, deleted or
-- changed, where a row has changed when its digest has. And for each table and id, either there is an
-- entry about that row, or the row is absent in both snapshots or has one digest in both. The row of an id
-- is the last of its table that has the id.
pub compute_row_delta-IsTold :
    (rt : Runtime) (b c : DatabaseStateSnapshot) (ds : List RowDelta)
    → compute_row_delta rt b c ≡ ok ds
    → All (IsTrueDelta rt (row_at b.tables) (row_at c.tables)) ds
      × ((table id : Text) → IsTold rt (row_at b.tables) (row_at c.tables) ds table id)
unfolding compute_row_delta
compute_row_delta-IsTold rt b c ds h =
    let names = map (λ e. e.0) b.tables ++ map (λ e. e.0) c.tables in
    let (all_true, told) =
      delta_of_tables-IsToldTable rt b.tables c.tables (sorted_set names) ds h in
    (
      all_true,
      λ table id. elim (Bool-cases (includes names table)) [
        | inl listed ↦ All-includes _ names table (All-sorted_set _ names told) listed id
        | inr unlisted ↦
            let (first, second) =
              includes-neither (map (λ e. e.0) b.tables) (map (λ e. e.0) c.tables) table unlisted in
            inl (
              AreSameRows-none rt b.tables c.tables (row_at b.tables table id)
                (row_at c.tables table id)
                (rows_in-none rt b.tables c.tables b.tables table id first)
                (rows_in-none rt b.tables c.tables c.tables table id second))
      ],
    )

-- ===== src/Orchestrator/RowDelta/Told.antt =====
-- What a row delta tells (`computeRowDelta` of apps/orchestrator/src/row-delta.ts).
use safecommit_ai.Orchestrator.RowDelta.{
  ChangeKind, DatabaseRow, RowDelta, change_kind_of, deleted, delta_of_ids, inserted, is_same_row,
  row_digest, updated,
}
use safecommit_ai.Orchestrator.RowDelta.Rows.{HasRow}
use safecommit_ai.Prelude.{
  ==-eq, >>=-eq-ok, All, All-map, Any, Bool, List, Option, Text, [], ap, bool_eq, eq-==, false,
  if◌then◌else◌, inl, inr, nat_eq, none, ok, ok_injective, option_eq, refl, returns_ok, some, sym,
  text_eq, true, ◌++◌, ◌∙◌, ◌∷◌, ◌≡◌, ◌⊎◌,
}
use safecommit_ai.Runtime.{Runtime}

pub Any-append_left : (P : RowDelta → Type 0) (ds es : List RowDelta) → Any P ds → Any P (ds ++ es)
Any-append_left P [] es h = absurd h
Any-append_left P (d ∷ ds) es (inl p) = inl p
Any-append_left P (d ∷ ds) es (inr ps) = inr (Any-append_left P ds es ps)

pub Any-append_right : (P : RowDelta → Type 0) (ds es : List RowDelta) → Any P es → Any P (ds ++ es)
Any-append_right P [] es ps = ps
Any-append_right P (d ∷ ds) es ps = inr (Any-append_right P ds es ps)

-- The delta is about this row.
abbrev pub IsAbout : Text → Text → RowDelta → Type 0
IsAbout table id d = (d.table ≡ table) × (d.primary_key ≡ id)

module _ (rt : Runtime) where
  -- Both are absent, or both have this one digest.
  abbrev pub AreSameRows : Option DatabaseRow → Option DatabaseRow → Type 0
  AreSameRows none none = Unit
  AreSameRows (some b) (some a) = row_digest rt b ≡ row_digest rt a
  AreSameRows _ _ = ⊥

  -- What each kind of change says of the row before and after.
  abbrev pub IsChange : ChangeKind → Option DatabaseRow → Option DatabaseRow → Type 0
  IsChange inserted none (some _) = Unit
  IsChange deleted (some _) none = Unit
  IsChange updated (some b) (some a) = ¬ (row_digest rt b ≡ row_digest rt a)
  IsChange _ _ _ = ⊥

  module _ (before_row after_row : Text → Text → Option DatabaseRow) where
    -- The delta has the rows before and after, and they differ as it says.
    abbrev pub IsTrueDelta : RowDelta → Type 0
    IsTrueDelta d =
        (d.before ≡ before_row d.table d.primary_key)
        × (d.after ≡ after_row d.table d.primary_key)
        × IsChange d.change_kind d.before d.after

    -- The row is the same before and after, or there is a delta about it.
    abbrev pub IsTold : List RowDelta → Text → Text → Type 0
    IsTold ds table id =
        AreSameRows (before_row table id) (after_row table id) ⊎ Any (IsAbout table id) ds

  is_same_row-true : (b a : Option DatabaseRow) → is_same_row rt b a ≡ ok true → AreSameRows b a
  unfolding is_same_row
  is_same_row-true none a h = cc
  is_same_row-true (some b) none h = cc
  is_same_row-true (some b) (some a) h =
      let (d, h1, hd) = >>=-eq-ok (row_digest rt b) _ h in
      let (e, h2, he) = >>=-eq-ok (row_digest rt a) _ h1 in
      hd ∙ (ap ok (==-eq d e (ok_injective h2)) ∙ sym he)

  is_same_row-false :
      (b a : Option DatabaseRow)
      → is_same_row rt b a ≡ ok false
      → HasRow b ⊎ HasRow a
      → IsChange (change_kind_of b a) b a
  unfolding is_same_row change_kind_of
  is_same_row-false none none h (inl k) = k
  is_same_row-false none none h (inr k) = k
  is_same_row-false none (some a) h k = tt
  is_same_row-false (some b) none h k = tt
  is_same_row-false (some b) (some a) h k = λ same.
      let (d, h1, hd) = >>=-eq-ok (row_digest rt b) _ h in
      let (e, h2, he) = >>=-eq-ok (row_digest rt a) _ h1 in
      let equal = eq-== (ok_injective (sym hd ∙ (same ∙ he))) in
      let differ = ok_injective h2 in let clash : true ≡ false = sym equal ∙ ok_injective h2 in cc

  -- The loop over the ids of a table, with what `get_row` returns.
  module _ (table : Text) (before_row after_row : Text → Option DatabaseRow) where
    -- The deltas are true and about this table, and each of the ids is told.
    abbrev pub AreTold : List Text → List RowDelta → Type 0
    AreTold ids ds =
        All (λ d. (d.table ≡ table) × IsTrueDelta (λ _. before_row) (λ _. after_row) d) ds
        × All (IsTold (λ _. before_row) (λ _. after_row) ds table) ids

    told_one :
        (id : Text) (ids : List Text) (same : Bool) (rest : List RowDelta)
        → is_same_row rt (before_row id) (after_row id) ≡ ok same
        → HasRow (before_row id) ⊎ HasRow (after_row id)
        → AreTold ids rest
        → AreTold (id ∷ ids) (
            if same
            then rest
            else (record {
              table = table;
              primary_key = id;
              change_kind = change_kind_of (before_row id) (after_row id);
              before = before_row id;
              after = after_row id;
            }
                ∷ rest))
    told_one id ids true rest h k told =
        (told.0, (inl (is_same_row-true (before_row id) (after_row id) h), told.1))
    told_one id ids false rest h k told = (
      ((refl, (refl, refl, is_same_row-false (before_row id) (after_row id) h k)), told.0),
      (
        inr (inl (refl, refl)),
        All-map (λ j e. elim e [ inl s ↦ inl s | inr a ↦ inr (inr a) ]) ids told.1,
      ),
    )

    pub delta_of_ids-AreTold :
        (ids : List Text) (ds : List RowDelta)
        → delta_of_ids rt table before_row after_row ids ≡ ok ds
        → All (λ id. HasRow (before_row id) ⊎ HasRow (after_row id)) ids
        → AreTold ids ds
    unfolding delta_of_ids
    delta_of_ids-AreTold [] ds h k = returns_ok (AreTold []) (tt, tt) h
    delta_of_ids-AreTold (id ∷ ids) ds h k =
        let (same, h1, hs) = >>=-eq-ok (is_same_row rt (before_row id) (after_row id)) _ h in
        let (rest, h2, hr) = >>=-eq-ok (delta_of_ids rt table before_row after_row ids) _ h1 in
        returns_ok (AreTold (id ∷ ids))
          (told_one id ids same rest hs k.0 (delta_of_ids-AreTold ids rest hr k.1)) h2

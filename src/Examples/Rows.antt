-- ===== src/Examples/Rows.antt =====
-- The delta of two small snapshots: a row that is the same, one that changed, one that is gone, a new one.
use safecommit_ai.Domain.Evidence.{compute_evidence_digest}
use safecommit_ai.Examples.Platform.{toy}
use safecommit_ai.Orchestrator.RowDelta.{
  ChangeKind, DatabaseRow, DatabaseScalar, DatabaseStateSnapshot, RowDelta, compute_row_delta,
  deleted, inserted, missing_row_id, updated,
}
use safecommit_ai.Orchestrator.RowDelta.Complete.{compute_row_delta-IsTold}
use safecommit_ai.Orchestrator.RowDelta.Rows.{row_at}
use safecommit_ai.Orchestrator.RowDelta.Told.{IsTold, IsTrueDelta}
use safecommit_ai.Prelude.{
  All, List, Option, String, Text, [], err, none, ok, refl, some, text_beq, ◌∷◌, ◌≡◌,
}
use safecommit_ai.Text.{codes}

row_of : String → String → DatabaseRow
row_of id name =
    (codes "name", DatabaseScalar.string (codes name))
    ∷ (codes "id", DatabaseScalar.string (codes id))
    ∷ []

earlier : DatabaseStateSnapshot
unfolding row_of
earlier = record {
  tables = (codes "user", row_of "b" "Bo" ∷ row_of "a" "Al" ∷ row_of "c" "Cy" ∷ []) ∷ [];
  digest = [];
}

afterwards : DatabaseStateSnapshot
unfolding row_of
afterwards = record {
  tables =
      (codes "user", row_of "a" "Al" ∷ row_of "b" "Bob" ∷ [])
      ∷ (codes "group", row_of "g" "Gr" ∷ [])
      ∷ [];
  digest = [];
}

change : String → String → ChangeKind → Option DatabaseRow → Option DatabaseRow → RowDelta
change table id kind b a = record {
  table = codes table;
  primary_key = codes id;
  change_kind = kind;
  before = b;
  after = a;
}

changes : List RowDelta
unfolding row_of change
changes =
    change "group" "g" inserted none (some (row_of "g" "Gr"))
    ∷ change "user" "b" updated (some (row_of "b" "Bo")) (some (row_of "b" "Bob"))
    ∷ change "user" "c" deleted (some (row_of "c" "Cy")) none
    ∷ []

computed_changes : compute_row_delta toy earlier afterwards ≡ ok changes
unfolding compute_row_delta toy text_beq earlier afterwards changes compute_evidence_digest
computed_changes = refl

-- A row without an id stops the computation.
no_id_test :
    compute_row_delta toy
      (record { tables = (codes "user", [] ∷ []) ∷ []; digest = [] })
      (record { tables = []; digest = [] })
    ≡ err missing_row_id
unfolding compute_row_delta text_beq
no_id_test = refl

compute_row_delta-IsTold_example :
    All (IsTrueDelta toy (row_at earlier.tables) (row_at afterwards.tables)) changes
    × ((table id : Text)
        → IsTold toy (row_at earlier.tables) (row_at afterwards.tables) changes table id)
compute_row_delta-IsTold_example =
    compute_row_delta-IsTold toy earlier afterwards changes computed_changes

-- ===== src/SafetyPolicy/PatchIntegrity/Lines.antt =====
-- The header lines of a Git diff that packages/safety-policy/src/patch-integrity.ts reads.
use safecommit_ai.Orchestrator.EventStore.Chain.{next}
use safecommit_ai.Prelude.{
  Bool, Option, String, Text, [], bool_eq, every, false, if◌then◌else◌, leb, length, map, nat_eq,
  none, not, option_eq, refl, some, text_beq, text_eq, true, ℕ, ◌!=◌, ◌&&◌, ◌==◌, ◌||◌, ◌∷◌, ◌≡◌,
}
use safecommit_ai.Regex.{fold_case_unit}
use safecommit_ai.Text.{codes, is_hex, is_space}

-- The text behind a prefix.
unfoldable pub strip_prefix : Text → Text → Option Text
strip_prefix [] s = some s
strip_prefix (p ∷ ps) [] = none
strip_prefix (p ∷ ps) (c ∷ s) = let rest = strip_prefix ps s in if c == p then rest else none

-- The longest prefix of units in a set, and what follows it.
unfoldable pub span : (ℕ → Bool) → Text → Text × Text
span p [] = ([], [])
span p (c ∷ s) = let rest = span p s in if p c then (c ∷ rest.0, rest.1) else ([], c ∷ s)

abbrev not_space : ℕ → Bool
not_space c = not (is_space c)

-- The second path of the header takes all that is left.
second_path : Text → Option Text → Option (Text × Text)
second_path old none = none
second_path old (some new) =
    if old == [] || new == [] || not (every not_space new) then none else some (old, new)

abbrev declared_paths : Option Text → Option (Text × Text)
declared_paths none = none
declared_paths (some rest) =
    let old = span not_space rest in second_path old.0 (strip_prefix (codes " b/") old.1)

-- /^diff --git a\/([^\s]+) b\/([^\s]+)$/u
unfoldable pub git_header_paths : Text → Option (Text × Text)
unfolding strip_prefix span second_path
git_header_paths line = declared_paths (strip_prefix (codes "diff --git a/") line)

pub data ModeKind : Type 0 where
  old_mode new_mode new_file_mode deleted_file_mode : ModeKind

abbrev is_octal : ℕ → Bool
is_octal c = leb b'0' c && leb c b'7'

-- ([0-7]{6})$
six_digits : Option Text → Option Text
six_digits none = none
six_digits (some s) = if every is_octal s && length s == 6 then some s else none

abbrev with_kind : ModeKind → Option Text → Option (ModeKind × Text) → Option (ModeKind × Text)
with_kind kind none next = next
with_kind kind (some mode) next = some (kind, mode)

-- /^(old mode|new mode|new file mode|deleted file mode) ([0-7]{6})$/u
unfoldable pub mode_declaration : Text → Option (ModeKind × Text)
unfolding strip_prefix six_digits
mode_declaration line = with_kind old_mode (six_digits (strip_prefix (codes "old mode ") line)) (
    with_kind new_mode (six_digits (strip_prefix (codes "new mode ") line)) (
      with_kind new_file_mode (six_digits (strip_prefix (codes "new file mode ") line)) (
        with_kind deleted_file_mode (six_digits (strip_prefix (codes "deleted file mode ") line))
          none)))

-- [0-9a-f]+ and what follows it
hex_then : Option Text → Option Text
unfolding span
hex_then none = none
hex_then (some s) = let digits = span is_hex s in if digits.0 == [] then none else some digits.1

abbrev strip_next : String → Option Text → Option Text
strip_next p none = none
strip_next p (some s) = strip_prefix (codes p) s

-- /^index [0-9a-f]+\.\.[0-9a-f]+ ([0-7]{6})$/iu, and its group
unfoldable pub index_mode : Text → Option Text
unfolding strip_prefix six_digits hex_then
index_mode line = six_digits (
    strip_next " " (
      hex_then
        (strip_next ".." (hex_then (strip_prefix (codes "index ") (map fold_case_unit line))))))

-- modeDeclaration?.[2] === mode
abbrev pub declares_mode : Option (ModeKind × Text) → String → Bool
declares_mode none mode = false
declares_mode (some (kind, digits)) mode = digits == codes mode

-- modeDeclaration?.[1] === "new file mode" && modeDeclaration[2] !== "100644", or a mode that changes
abbrev pub changes_mode : Option (ModeKind × Text) → Bool
changes_mode none = false
changes_mode (some (new_file_mode, digits)) = digits != codes "100644"
changes_mode (some (old_mode, digits)) = true
changes_mode (some (new_mode, digits)) = true
changes_mode (some (deleted_file_mode, digits)) = false

unfoldable pub is_symlink_line : Text → Bool
unfolding mode_declaration index_mode
is_symlink_line line =
    declares_mode (mode_declaration line) "120000"
    || declares_mode (mode_declaration line) "160000"
    || index_mode line == some (codes "120000")
    || index_mode line == some (codes "160000")

unfoldable pub is_unsafe_mode_line : Text → Bool
unfolding mode_declaration index_mode
is_unsafe_mode_line line =
    changes_mode (mode_declaration line)
    || (index_mode line != none && index_mode line != some (codes "100644"))

mode_test : is_symlink_line (codes "new file mode 120000") ≡ true
unfolding is_symlink_line text_beq
mode_test = refl

index_test : is_unsafe_mode_line (codes "index 0a1..9F 100755") ≡ true
unfolding is_unsafe_mode_line text_beq fold_case_unit
index_test = refl

header_test :
    git_header_paths (codes "diff --git a/src/a.c b/src/a.c")
    ≡ some (codes "src/a.c", codes "src/a.c")
unfolding git_header_paths text_beq is_space
header_test = refl

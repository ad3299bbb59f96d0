-- ===== src/SafetyPolicy/PatchIntegrity/Variables.antt =====
-- The variables of the loop of `validatePatchIntegrity` (packages/safety-policy/src/patch-integrity.ts) and the
-- lines that do not name a file.
use Prim.Native.Char.{code}
use safecommit_ai.Domain.Approval.{or_else}
use safecommit_ai.Prelude.{
  Bool, List, Option, String, Text, [], bool_eq, false, if◌then◌else◌, includes, nat_eq, none, not,
  option_eq, some, text_eq, true, ℕ, ◌&&◌, ◌++◌, ◌==◌, ◌||◌, ◌∷◌,
}
use safecommit_ai.Regex.{test_regex}
use safecommit_ai.SafetyPolicy.PatchIntegrity.Lines.{
  git_header_paths, is_symlink_line, is_unsafe_mode_line,
}
use safecommit_ai.SafetyPolicy.PatchIntegrity.Paths.{
  IntegrityViolation, IntegrityViolationCode, binary_patch, code_text, file_deletion,
  malformed_diff, path_traversal, rename_or_copy, symlink_patch, unsafe_file_mode,
  validate_and_normalize_path, violation,
}
use safecommit_ai.SafetyPolicy.PatchIntegrity.Patterns.{binary_line, rename_line}
use safecommit_ai.Text.{codes, starts_with}
use safecommit_ai.Text.Encoding.{number_text}

pub data HeaderState : Type 0 where
  idle expect_old expect_new in_hunk : HeaderState

abbrev pub is_expect_old : HeaderState → Bool
is_expect_old expect_old = true
is_expect_old _ = false

abbrev pub is_expect_new : HeaderState → Bool
is_expect_new expect_new = true
is_expect_new _ = false

-- The variables that the loop over the lines writes.
pub record Scan : Type 0 where
  pub violations : List IntegrityViolation
  pub seen_violations : List Text
  pub changed_files : List Text
  pub current_path : Option Text
  pub pending_old_path : Option Text
  pub declared_old_path : Option Text
  pub declared_new_path : Option Text
  pub header_state : HeaderState
  pub added_lines : ℕ
  pub removed_lines : ℕ

unfoldable pub first_scan : Scan
first_scan = record {
  violations = [];
  seen_violations = [];
  changed_files = [];
  current_path = none;
  pending_old_path = none;
  declared_old_path = none;
  declared_new_path = none;
  header_state = HeaderState.idle;
  added_lines = 0;
  removed_lines = 0;
}

abbrev line_text : Option ℕ → Text
line_text none = []
line_text (some n) = number_text n

unfoldable pub violation_key : IntegrityViolation → Text
unfolding code_text
violation_key v = code_text v.code ++ (b':' ∷ (or_else v.file_path [] ++ (b':' ∷ line_text v.line)))

unfoldable pub add_violation : IntegrityViolation → Scan → Scan
unfolding violation_key
add_violation v s = if includes s.seen_violations (violation_key v) then s else record s {
  violations = s.violations ++ (v ∷ []);
  seen_violations = s.seen_violations ++ (violation_key v ∷ []);
}

-- if (test) addViolation(v)
unfoldable pub add_if : Bool → IntegrityViolation → Scan → Scan
unfolding add_violation
add_if true v s = add_violation v s
add_if false v s = s

-- set.add(x)
unfoldable pub add_to_set : Text → List Text → List Text
add_to_set x xs = if includes xs x then xs else xs ++ (x ∷ [])

abbrev pub is_undefined : Option Text → Bool
is_undefined o = o == none

-- What the match of the header leads to.
unfoldable pub declared_header : ℕ → Option (Text × Text) → Scan → Scan
unfolding validate_and_normalize_path
declared_header number none s =
    record (add_violation
      (violation malformed_diff "diff --git header is malformed or uses a quoted/space path." none
        (some number))
      s) { header_state = HeaderState.idle; current_path = none }
declared_header number (some paths) s =
    let old = validate_and_normalize_path paths.0 in
    let new = validate_and_normalize_path paths.1 in
    record (add_if (is_undefined old || is_undefined new)
      (violation path_traversal
        "Declared diff path is absolute, malformed, or escapes the repository." none (some number))
      s) {
        declared_old_path = old;
        declared_new_path = new;
        pending_old_path = none;
        current_path = none;
        header_state = expect_old;
      }

-- The line that starts with `diff --git `.
unfoldable pub git_header : ℕ → Text → Scan → Scan
unfolding git_header_paths declared_header
git_header number line s = declared_header number (git_header_paths line) (
    add_if (is_expect_old s.header_state || is_expect_new s.header_state)
      (violation malformed_diff "A changed file is missing its ---/+++ header pair." none
        (some number))
      s)

abbrev pub in_hunk_unless_idle : HeaderState → Scan → Scan
in_hunk_unless_idle HeaderState.idle s = s
in_hunk_unless_idle _ s = record s { header_state = in_hunk }

-- The line that starts with `@@ `.
unfoldable pub hunk_header : Scan → Scan
hunk_header s = in_hunk_unless_idle s.header_state s

-- A violation of a line of the current file.
abbrev pub line_violation : ℕ → Scan → IntegrityViolationCode → String → IntegrityViolation
line_violation number s code message = violation code message s.current_path (some number)

-- The tests of every other line.
unfoldable pub check_line : ℕ → Text → Scan → Scan
check_line number line s =
    let binary =
      add_if (test_regex binary_line line)
        (line_violation number s binary_patch "Binary patches are forbidden.") s in
    let mode =
      add_if (is_symlink_line line)
        (line_violation number s symlink_patch "Symlink and Git submodule patches are forbidden.")
        (add_if (not (is_symlink_line line) && is_unsafe_mode_line line)
          (line_violation number s unsafe_file_mode
            "File-mode changes are forbidden and new source files must use mode 100644.")
          binary) in
    let deletion =
      add_if (starts_with line (codes "deleted file mode "))
        (line_violation number s file_deletion "Deleting files is forbidden.") mode in
    add_if (test_regex rename_line line)
      (line_violation number s rename_or_copy "Renaming or copying files is forbidden.") deletion

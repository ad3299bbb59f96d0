-- ===== src/SafetyPolicy/PatchIntegrity/Files.antt =====
-- The `---` and `+++` headers that `validatePatchIntegrity` (packages/safety-policy/src/patch-integrity.ts) reads.
use safecommit_ai.Prelude.{
  Bool, List, Option, Text, bool_eq, false, if◌then◌else◌, nat_eq, none, not, option_eq, some,
  text_eq, ℕ, ◌!=◌, ◌&&◌, ◌==◌, ◌||◌,
}
use safecommit_ai.SafetyPolicy.PatchIntegrity.Paths.{
  IntegrityViolation, dev_null, extract_header_path, file_deletion, is_allowed_path, malformed_diff,
  path_outside_allowlist, path_traversal, path_violation, rename_or_copy,
  validate_and_normalize_path, violation,
}
use safecommit_ai.SafetyPolicy.PatchIntegrity.Variables.{
  HeaderState, Scan, add_if, add_to_set, add_violation, expect_new, is_undefined,
}

unfoldable pub old_file_header : ℕ → Text → Scan → Scan
unfolding extract_header_path
old_file_header number line s =
    let raw = extract_header_path line in
    record (add_if (is_undefined raw)
      (violation malformed_diff "Old-file diff header is malformed or uses a quoted/space path."
        none (some number))
      s) { pending_old_path = raw; header_state = expect_new }

abbrev pub add_some : Option IntegrityViolation → Scan → Scan
add_some none s = s
add_some (some v) s = add_violation v s

-- The path of a file that the patch changes.
unfoldable pub changed_file : List Text → Text → Scan → Scan
unfolding add_to_set is_allowed_path path_violation
changed_file prefixes new s =
    let named = record s {
      current_path = some new;
      header_state = HeaderState.idle;
      changed_files = add_to_set new s.changed_files;
    } in
    add_if (not (is_allowed_path new prefixes))
      (violation path_outside_allowlist
        "Patch modifies a path outside the explicit source allowlist." (some new) none)
      (add_some (path_violation new) named)

-- declaredOldPath !== undefined && declaredNewPath !== undefined && (...)
unfoldable pub differs_from_declaration : Text → Text → Option Text → Option Text → Bool
unfolding dev_null
differs_from_declaration old new (some declared_old) (some declared_new) =
    (old != dev_null && old != declared_old) || new != declared_new
differs_from_declaration old new _ _ = false

unfoldable pub matched_headers : List Text → ℕ → Text → Text → Scan → Scan
unfolding changed_file differs_from_declaration
matched_headers prefixes number old new s =
    if new == dev_null
    then record (add_violation
        (violation file_deletion "Deleting files is forbidden." (some old) (some number)) s) {
          current_path = if old == dev_null then none else some old;
        }
    else changed_file prefixes new (
        add_if (differs_from_declaration old new s.declared_old_path s.declared_new_path)
          (violation malformed_diff "The ---/+++ paths do not match the diff --git declaration."
            (some new) (some number))
          (add_if (old != dev_null && old != new)
            (violation rename_or_copy "Old and new patch paths must match." (some new)
              (some number))
            s))

-- The paths of both headers, normalised.
unfoldable pub normalized_headers : List Text → ℕ → Option Text → Option Text → Scan → Scan
unfolding matched_headers
normalized_headers prefixes number (some old) (some new) s =
    matched_headers prefixes number old new s
normalized_headers prefixes number _ _ s =
    record (add_violation
      (violation path_traversal "Patch path is absolute, malformed, or escapes the repository." none
        (some number))
      s) { current_path = none }

unfoldable pub raw_headers : List Text → ℕ → Option Text → Option Text → Scan → Scan
unfolding normalized_headers validate_and_normalize_path
raw_headers prefixes number (some old) (some new) s =
    normalized_headers prefixes number (validate_and_normalize_path old)
      (validate_and_normalize_path new) (record s { pending_old_path = none })
raw_headers prefixes number _ _ s =
    record (add_violation
      (violation malformed_diff "New-file diff header is malformed or has no matching old path."
        none (some number))
      s) { current_path = none }

unfoldable pub new_file_header : List Text → ℕ → Text → Scan → Scan
unfolding raw_headers extract_header_path
new_file_header prefixes number line s =
    raw_headers prefixes number s.pending_old_path (extract_header_path line) s

-- ===== src/Examples/Patches.antt =====
-- Patches that `validatePatchIntegrity` (packages/safety-policy/src/patch-integrity.ts) reads.
use safecommit_ai.Prelude.{
  All, List, String, Text, [], bool_beq, false, map, none, refl, text_beq, true, ◌++◌, ◌∷◌, ◌≡◌,
  ◌≢◌,
}
use safecommit_ai.Regex.{fold_case_unit, test_ignoring_case, test_regex}
use safecommit_ai.SafetyPolicy.PatchIntegrity.{
  PatchIntegrityOptions, added_line, check_patch, check_totals, content_line, defines_threshold,
  diff_lines, is_malicious, prefixes_of, run_checks, scan_line, scan_lines,
  validate_patch_integrity,
}
use safecommit_ai.SafetyPolicy.PatchIntegrity.Calls.{Occurs, forbidden_calls}
use safecommit_ai.SafetyPolicy.PatchIntegrity.Content.{validate_patch_integrity-content}
use safecommit_ai.SafetyPolicy.PatchIntegrity.Files.{
  changed_file, matched_headers, new_file_header, normalized_headers, old_file_header, raw_headers,
}
use safecommit_ai.SafetyPolicy.PatchIntegrity.Lines.{is_symlink_line, is_unsafe_mode_line}
use safecommit_ai.SafetyPolicy.PatchIntegrity.Paths.{path_violation, slice_from}
use safecommit_ai.SafetyPolicy.PatchIntegrity.Patterns.{
  binary_line, build_path, ci_path, malicious_content, rename_line, safety_policy_path, test_path,
  threshold_definition,
}
use safecommit_ai.SafetyPolicy.PatchIntegrity.Unannounced.{scan_lines-changed_files}
use safecommit_ai.SafetyPolicy.PatchIntegrity.Valid.{
  IsWithinPolicy, validate_patch_integrity-IsWithinPolicy,
}
use safecommit_ai.SafetyPolicy.PatchIntegrity.Variables.{
  Scan, add_if, check_line, first_scan, git_header, hunk_header,
}
use safecommit_ai.Text.{codes, ends_with, is_blank, is_space, split, starts_with}
use safecommit_ai.Text.Encoding.{number_text}

text_of_lines : List String → Text
text_of_lines [] = []
text_of_lines (l ∷ ls) = codes l ++ 10 ∷ text_of_lines ls

abbrev source_section : List String
source_section =
    "diff --git a/firmware/src/m.c b/firmware/src/m.c" ∷ "--- a/firmware/src/m.c"
    ∷ "+++ b/firmware/src/m.c" ∷ "@@ -1 +1 @@" ∷ "-x" ∷ "+y" ∷ []

-- A second file that no `diff --git` line announces.
abbrev test_section : List String
test_section =
    "--- a/firmware/src/tests/t.c" ∷ "+++ b/firmware/src/tests/t.c" ∷ "@@ -1 +1 @@" ∷ "-1" ∷ "+0"
    ∷ []

abbrev defaults : PatchIntegrityOptions
defaults = record {
  allowed_path_prefixes = none;
  max_bytes = none;
  max_changed_files = none;
  max_changed_lines = none;
}

good_patch : Text
unfolding text_of_lines
good_patch = text_of_lines source_section

good_valid : (validate_patch_integrity good_patch defaults).valid ≡ true
unfolding validate_patch_integrity run_checks ends_with check_patch check_totals diff_lines
    prefixes_of add_if good_patch scan_lines scan_line git_header hunk_header check_line
    content_line old_file_header new_file_header added_line is_malicious defines_threshold
    starts_with slice_from is_symlink_line is_unsafe_mode_line test_regex binary_line rename_line
    is_blank text_beq bool_beq is_space split number_text changed_file matched_headers
    normalized_headers raw_headers path_violation test_ignoring_case test_path ci_path build_path
    safety_policy_path malicious_content threshold_definition fold_case_unit
good_valid = refl

-- The protected path of the second file is not seen.
smuggling_patch : Text
unfolding text_of_lines
smuggling_patch = text_of_lines (source_section ++ test_section)

smuggling_valid :
    ((validate_patch_integrity smuggling_patch defaults).valid ≡ true)
    × ((validate_patch_integrity smuggling_patch defaults).changed_files
        ≡ codes "firmware/src/m.c" ∷ [])
unfolding validate_patch_integrity run_checks ends_with check_patch check_totals diff_lines
    prefixes_of add_if smuggling_patch scan_lines scan_line git_header hunk_header check_line
    content_line old_file_header new_file_header added_line is_malicious defines_threshold
    starts_with slice_from is_symlink_line is_unsafe_mode_line test_regex binary_line rename_line
    is_blank text_beq bool_beq is_space split number_text changed_file matched_headers
    normalized_headers raw_headers path_violation test_ignoring_case test_path ci_path build_path
    safety_policy_path malicious_content threshold_definition fold_case_unit
smuggling_valid = (refl, refl)

announced_test : path_violation (codes "firmware/src/tests/t.c") ≢ none
unfolding path_violation test_ignoring_case test_path bool_beq
announced_test h = cc

validate_patch_integrity-IsWithinPolicy_example :
    IsWithinPolicy good_patch defaults (validate_patch_integrity good_patch defaults)
validate_patch_integrity-IsWithinPolicy_example =
    validate_patch_integrity-IsWithinPolicy good_patch defaults good_valid

validate_patch_integrity-content_example :
    (is_malicious (codes "y") ≡ false)
    × (defines_threshold (codes "y") ≡ false)
    × All (λ call. ¬ Occurs call (codes "y")) forbidden_calls
unfolding validate_patch_integrity run_checks ends_with check_patch check_totals diff_lines
    prefixes_of add_if good_patch scan_lines scan_line git_header hunk_header check_line
    content_line old_file_header new_file_header added_line is_malicious defines_threshold
    starts_with slice_from is_symlink_line is_unsafe_mode_line test_regex binary_line rename_line
    is_blank text_beq bool_beq is_space split number_text changed_file matched_headers
    normalized_headers raw_headers path_violation test_ignoring_case test_path ci_path build_path
    safety_policy_path malicious_content threshold_definition fold_case_unit
validate_patch_integrity-content_example =
    validate_patch_integrity-content good_patch defaults
      (map codes (
        "diff --git a/firmware/src/m.c b/firmware/src/m.c" ∷ "--- a/firmware/src/m.c"
        ∷ "+++ b/firmware/src/m.c" ∷ "@@ -1 +1 @@" ∷ "-x" ∷ []))
      (codes "y") ([] ∷ []) refl refl good_valid

-- The state behind the headers of the first file.
after_headers : Scan
unfolding first_scan
after_headers = record first_scan { changed_files = codes "firmware/src/m.c" ∷ [] }

scan_lines-changed_files_example :
    (scan_lines [] 7 (map codes test_section) after_headers).changed_files
    ≡ after_headers.changed_files
unfolding after_headers first_scan starts_with
scan_lines-changed_files_example =
    scan_lines-changed_files [] 7 (map codes test_section) after_headers
      (refl, (refl, (refl, (refl, (refl, tt))))) refl

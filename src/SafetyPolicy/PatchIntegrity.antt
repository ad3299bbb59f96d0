-- ===== src/SafetyPolicy/PatchIntegrity.antt =====
-- packages/safety-policy/src/patch-integrity.ts: the scan of a unified diff. The limits of the options are
-- natural numbers.
pub mod Patterns
pub mod Paths
pub mod Lines
pub mod Variables
pub mod Files
pub mod Progress
pub mod Turns
pub mod Accepted
pub mod Valid
pub mod Relative
pub mod Calls
pub mod Content
pub mod Unannounced
use Prim.Native.Char.{code}
use safecommit_ai.Domain.Evidence.Normal.{text_leb}
use safecommit_ai.Domain.Evidence.Print.{is_high, is_low}
use safecommit_ai.Prelude.{
  Bool, List, Option, String, Text, [], bool_eq, false, if◌then◌else◌, length, ltb, nat_eq, none,
  not, option_eq, some, some_of, text_eq, true, ℕ, ◌&&◌, ◌*◌, ◌++◌, ◌+◌, ◌==◌, ◌||◌, ◌∷◌,
}
use safecommit_ai.Regex.{test_ignoring_case}
use safecommit_ai.SafetyPolicy.PatchIntegrity.Files.{new_file_header, old_file_header}
use safecommit_ai.SafetyPolicy.PatchIntegrity.Paths.{
  IntegrityViolation, IntegrityViolationCode, malformed_diff, malicious_shell, patch_empty,
  patch_too_large, patch_too_many_lines, safety_threshold_modification, slice_from, too_many_files,
}
use safecommit_ai.SafetyPolicy.PatchIntegrity.Patterns.{malicious_content, threshold_definition}
use safecommit_ai.SafetyPolicy.PatchIntegrity.Variables.{
  Scan, add_if, check_line, first_scan, git_header, hunk_header, is_expect_new, is_expect_old,
  line_violation,
}
use safecommit_ai.Sorting.{sort_by}
use safecommit_ai.Text.{codes, is_blank, split, starts_with}
use safecommit_ai.Text.Encoding.{number_text}

pub record PatchIntegrityOptions : Type 0 where
  pub allowed_path_prefixes : Option (List Text)
  pub max_bytes : Option ℕ
  pub max_changed_files : Option ℕ
  pub max_changed_lines : Option ℕ

pub record PatchIntegrityResult : Type 0 where
  pub valid : Bool
  pub changed_files : List Text
  pub added_lines : ℕ
  pub removed_lines : ℕ
  pub violations : List IntegrityViolation

unfoldable pub default_allowed_path_prefixes : List Text
default_allowed_path_prefixes =
    codes "firmware/src/"
    ∷ codes "fixtures/battery-controller/firmware/src/"
    ∷ codes "fixtures/battery-controller/src/"
    ∷ []

unfoldable pub is_malicious : Text → Bool
is_malicious content = some_of (λ pattern. test_ignoring_case pattern content) malicious_content

unfoldable pub defines_threshold : Text → Bool
defines_threshold content =
    some_of (λ pattern. test_ignoring_case pattern content) threshold_definition

unfoldable pub added_line : ℕ → Text → Scan → Scan
added_line number content s =
    add_if (defines_threshold content)
      (line_violation number s safety_threshold_modification
        "Patch defines or assigns a safety threshold/limit.")
      (add_if (is_malicious content)
        (line_violation number s malicious_shell
          "Added code attempts shell execution or network access.")
        (record s { added_lines = s.added_lines + 1 }))

-- A line behind the tests.
unfoldable pub content_line : List Text → ℕ → Text → Scan → Scan
content_line prefixes number line s =
    if starts_with line (codes "--- ") && is_expect_old s.header_state
    then old_file_header number line s
    else if starts_with line (codes "+++ ") && is_expect_new s.header_state
    then new_file_header prefixes number line s
    else if starts_with line (codes "+") && not (is_expect_new s.header_state)
    then added_line number (slice_from 1 line) s
    else if starts_with line (codes "-") && not (is_expect_old s.header_state)
    then record s { removed_lines = s.removed_lines + 1 }
    else s

-- A turn of the loop over the lines.
unfoldable pub scan_line : List Text → ℕ → Text → Scan → Scan
scan_line prefixes number line s =
    if starts_with line (codes "diff --git ")
    then git_header number line s
    else if starts_with line (codes "@@ ")
    then hunk_header s
    else content_line prefixes number line (check_line number line s)

unfoldable pub scan_lines : List Text → ℕ → List Text → Scan → Scan
scan_lines prefixes number [] s = s
scan_lines prefixes number (line ∷ lines) s =
    scan_lines prefixes (number + 1) lines (scan_line prefixes number line s)

-- s.replaceAll("\r\n", "\n")
unfoldable pub unix_lines : Text → Text
unix_lines [] = []
unix_lines (c ∷ s) =
    let rest = unix_lines s in if c == 13 && starts_with s (10 ∷ []) then rest else c ∷ rest

-- Buffer.byteLength(s, "utf8"): the low half of a surrogate pair adds one byte to the three that are
-- counted for the high half; a lone surrogate is written as U+FFFD, in three bytes.
byte_length_from : Bool → Text → ℕ
byte_length_from after_high [] = 0
byte_length_from after_high (c ∷ s) =
    (if ltb c 0x80 then 1 else if ltb c 0x800 then 2 else if after_high && is_low c then 1 else 3)
    + byte_length_from (is_high c) s

unfoldable pub byte_length : Text → ℕ
unfolding byte_length_from
byte_length s = byte_length_from false s

abbrev pub number_or : Option ℕ → ℕ → ℕ
number_or none d = d
number_or (some n) d = n

unfoldable pub prefixes_of : PatchIntegrityOptions → List Text
unfolding default_allowed_path_prefixes
prefixes_of options = elim options.allowed_path_prefixes [
  | none ↦ default_allowed_path_prefixes
  | some prefixes ↦ prefixes
]

abbrev global_violation : IntegrityViolationCode → Text → IntegrityViolation
global_violation code message = record {
  code = code;
  message = message;
  file_path = none;
  line = none;
}

unfoldable pub diff_lines : Text → List Text
unfolding unix_lines
diff_lines unified_diff = split 10 (unix_lines unified_diff)

-- The tests of the whole patch, before the loop.
unfoldable pub check_patch : Text → PatchIntegrityOptions → Scan
unfolding first_scan byte_length
check_patch unified_diff options =
    let max_bytes = number_or options.max_bytes 65536 in
    let max_changed_lines = number_or options.max_changed_lines 400 in
    add_if (ltb (max_changed_lines * 4 + 100) (length (diff_lines unified_diff)))
      (global_violation patch_too_many_lines (codes "Patch contains too many total lines."))
      (add_if (ltb max_bytes (byte_length unified_diff))
        (global_violation patch_too_large
          (codes "Patch exceeds the " ++ (number_text max_bytes ++ codes "-byte limit.")))
        (add_if (is_blank unified_diff)
          (global_violation patch_empty (codes "Patch must not be empty.")) first_scan))

-- "Patch changes n <unit>; limit is m."
limit_message : ℕ → String → ℕ → Text
limit_message n what limit =
    codes "Patch changes " ++ (number_text n ++ (codes what ++ (number_text limit ++ codes ".")))

-- The tests of the whole patch, after the loop.
unfoldable pub check_totals : Text → PatchIntegrityOptions → Scan → Scan
unfolding limit_message
check_totals unified_diff options s =
    let max_changed_files = number_or options.max_changed_files 4 in
    let max_changed_lines = number_or options.max_changed_lines 400 in
    let files = length s.changed_files in
    let changed = s.added_lines + s.removed_lines in
    add_if (ltb max_changed_lines changed)
      (global_violation patch_too_many_lines
        (limit_message changed " lines; limit is " max_changed_lines))
      (add_if (ltb max_changed_files files)
        (global_violation too_many_files
          (limit_message files " files; limit is " max_changed_files))
        (add_if (files == 0 && not (is_blank unified_diff))
          (global_violation malformed_diff (codes "Patch contains no valid changed-file header."))
          (add_if (is_expect_old s.header_state || is_expect_new s.header_state)
            (global_violation malformed_diff
              (codes "Patch ended before a complete ---/+++ header pair was parsed."))
            s)))

unfoldable pub run_checks : Text → PatchIntegrityOptions → Scan
unfolding check_patch check_totals scan_lines
run_checks unified_diff options = check_totals unified_diff options (
    scan_lines (prefixes_of options) 1 (diff_lines unified_diff) (check_patch unified_diff options))

-- violations.length === 0
abbrev pub no_violations : List IntegrityViolation → Bool
no_violations [] = true
no_violations (v ∷ vs) = false

unfoldable pub validate_patch_integrity : Text → PatchIntegrityOptions → PatchIntegrityResult
unfolding run_checks sort_by text_leb
validate_patch_integrity unified_diff options =
    let s = run_checks unified_diff options in
    record {
      valid = no_violations s.violations;
      changed_files = sort_by text_leb s.changed_files;
      added_lines = s.added_lines;
      removed_lines = s.removed_lines;
      violations = s.violations;
    }

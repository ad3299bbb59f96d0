-- ===== src/SafetyPolicy/PatchIntegrity/Paths.antt =====
-- The paths of packages/safety-policy/src/patch-integrity.ts: normalisation, the allowlist and the protected
-- files.
use Prim.Native.Char.{code}
use safecommit_ai.Prelude.{
  Bool, List, Option, String, Text, [], bool_beq, bool_eq, false, if◌then◌else◌, includes, map,
  nat_eq, none, option_eq, refl, some, some_of, suc, text_eq, zero, ℕ, ◌&&◌, ◌++◌, ◌==◌, ◌||◌, ◌∷◌,
  ◌≡◌,
}
use safecommit_ai.Regex.{test_ignoring_case}
use safecommit_ai.SafetyPolicy.PatchIntegrity.Patterns.{
  build_path, ci_path, safety_policy_path, test_path,
}
use safecommit_ai.Text.{codes, ends_with, is_letter, is_space, split, starts_with, trim}

pub data IntegrityViolationCode : Type 0 where
  patch_empty patch_too_large patch_too_many_lines malformed_diff too_many_files path_traversal :
      IntegrityViolationCode
  path_outside_allowlist test_modification ci_modification build_script_modification :
      IntegrityViolationCode
  safety_policy_modification safety_threshold_modification binary_patch symlink_patch :
      IntegrityViolationCode
  unsafe_file_mode file_deletion rename_or_copy malicious_shell : IntegrityViolationCode

unfoldable pub code_text : IntegrityViolationCode → Text
code_text patch_empty = codes "PATCH_EMPTY"
code_text patch_too_large = codes "PATCH_TOO_LARGE"
code_text patch_too_many_lines = codes "PATCH_TOO_MANY_LINES"
code_text malformed_diff = codes "MALFORMED_DIFF"
code_text too_many_files = codes "TOO_MANY_FILES"
code_text path_traversal = codes "PATH_TRAVERSAL"
code_text path_outside_allowlist = codes "PATH_OUTSIDE_ALLOWLIST"
code_text test_modification = codes "TEST_MODIFICATION"
code_text ci_modification = codes "CI_MODIFICATION"
code_text build_script_modification = codes "BUILD_SCRIPT_MODIFICATION"
code_text safety_policy_modification = codes "SAFETY_POLICY_MODIFICATION"
code_text safety_threshold_modification = codes "SAFETY_THRESHOLD_MODIFICATION"
code_text binary_patch = codes "BINARY_PATCH"
code_text symlink_patch = codes "SYMLINK_PATCH"
code_text unsafe_file_mode = codes "UNSAFE_FILE_MODE"
code_text file_deletion = codes "FILE_DELETION"
code_text rename_or_copy = codes "RENAME_OR_COPY"
code_text malicious_shell = codes "MALICIOUS_SHELL"

pub record IntegrityViolation : Type 0 where
  pub code : IntegrityViolationCode
  pub message : Text
  pub file_path : Option Text
  pub line : Option ℕ

abbrev pub violation : IntegrityViolationCode → String → Option Text → Option ℕ → IntegrityViolation
violation code message file_path line = record {
  code = code;
  message = codes message;
  file_path = file_path;
  line = line;
}

unfoldable pub slash : Text → Text
slash path = map (λ c. if c == 92 then b'/' else c) path

unfoldable pub dev_null : Text
dev_null = codes "/dev/null"

-- s.slice(n)
unfoldable pub slice_from : ℕ → Text → Text
slice_from zero s = s
slice_from (suc n) [] = []
slice_from (suc n) (c ∷ s) = slice_from n s

unfoldable pub strip_git_prefix : Text → Text
unfolding dev_null slice_from
strip_git_prefix path =
    if path == dev_null
    then path
    else if starts_with path (codes "a/") || starts_with path (codes "b/")
    then slice_from 2 path
    else path

-- /^[A-Za-z]:/u
unfoldable pub has_drive : Text → Bool
has_drive [] = false
has_drive (c ∷ s) = is_letter c && starts_with s (b':' ∷ [])

-- segments.join("/")
unfoldable pub join_segments : List Text → Text
join_segments [] = []
join_segments (s ∷ []) = s
join_segments (s ∷ t ∷ ts) = s ++ b'/' ∷ join_segments (t ∷ ts)

unfoldable pub is_bad_segment : Text → Bool
is_bad_segment segment = segment == [] || segment == codes "." || segment == codes ".."

unfoldable pub normalize_segments : List Text → Option Text
unfolding is_bad_segment join_segments
normalize_segments segments =
    if some_of is_bad_segment segments then none else some (join_segments segments)

unfoldable pub is_not_relative : Text → Bool
unfolding dev_null has_drive
is_not_relative normalized =
    normalized == []
    || normalized == dev_null
    || starts_with normalized (codes "/")
    || has_drive normalized
    || includes normalized 0

unfoldable pub normalize_path : Text → Option Text
unfolding is_not_relative normalize_segments
normalize_path normalized =
    if is_not_relative normalized
    then (if normalized == dev_null then some normalized else none)
    else normalize_segments (split b'/' normalized)

unfoldable pub validate_and_normalize_path : Text → Option Text
unfolding normalize_path slash strip_git_prefix
validate_and_normalize_path path = normalize_path (slash (strip_git_prefix (trim path)))

-- The text before the first tab.
before_tab : Text → Text
before_tab [] = []
before_tab (c ∷ s) = let rest = before_tab s in if c == 9 then [] else c ∷ rest

unfoldable pub extract_header_path : Text → Option Text
unfolding before_tab slice_from
extract_header_path line =
    let raw = trim (before_tab (slice_from 4 line)) in
    if raw == [] || some_of is_space raw || starts_with raw (34 ∷ []) then none else some raw

-- .replace(/^\.\//u, "")
without_dot_slash : Text → Text
unfolding slice_from
without_dot_slash s = if starts_with s (codes "./") then slice_from 2 s else s

-- .replace(/\/$/u, "")
without_last_slash : Text → Text
without_last_slash [] = []
without_last_slash (c ∷ []) = if c == b'/' then [] else c ∷ []
without_last_slash (c ∷ d ∷ s) = c ∷ without_last_slash (d ∷ s)

unfoldable pub matches_prefix : Text → Text → Bool
unfolding without_dot_slash without_last_slash slash
matches_prefix path raw_prefix =
    let prefix = without_dot_slash (slash raw_prefix) in
    let normalized_prefix = if ends_with prefix (codes "/") then prefix else prefix ++ codes "/" in
    path == without_last_slash prefix || starts_with path normalized_prefix

unfoldable pub is_allowed_path : Text → List Text → Bool
unfolding matches_prefix
is_allowed_path path prefixes = some_of (matches_prefix path) prefixes

unfoldable pub path_violation : Text → Option IntegrityViolation
path_violation path =
    if test_ignoring_case test_path path
    then some (
        violation test_modification "Existing tests and test directories are immutable." (some path)
          none)
    else if test_ignoring_case ci_path path
    then some (
        violation ci_modification "CI configuration is immutable for model-authored patches."
          (some path) none)
    else if test_ignoring_case build_path path
    then some (
        violation build_script_modification "Build configuration and scripts are immutable."
          (some path) none)
    else if test_ignoring_case safety_policy_path path
    then some (
        violation safety_policy_modification
          "Safety policy and threshold configuration are immutable." (some path) none)
    else none

path_test :
    path_violation (codes "fixtures/battery-controller/src/tests/main.c")
    ≡ some (
        violation test_modification "Existing tests and test directories are immutable."
          (some (codes "fixtures/battery-controller/src/tests/main.c"))
          none)
unfolding path_violation test_ignoring_case test_path bool_beq
path_test = refl

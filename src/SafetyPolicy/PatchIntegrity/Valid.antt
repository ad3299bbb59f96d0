-- ===== src/SafetyPolicy/PatchIntegrity/Valid.antt =====
-- The verdict of `validatePatchIntegrity` (packages/safety-policy/src/patch-integrity.ts): a valid patch keeps to the
-- allowlist and the limits.
use safecommit_ai.Domain.Evidence.Normal.{text_leb}
use safecommit_ai.Prelude.{
  All, All-map, Bool, Text, arith, bool_eq, false, length, ltb, nat_eq, not, option_eq, subst, sym,
  text_eq, true, ℕ, ◌&&◌, ◌+◌, ◌<◌, ◌==◌, ◌≡◌, ◌≤◌,
}
use safecommit_ai.SafetyPolicy.PatchIntegrity.{
  PatchIntegrityOptions, PatchIntegrityResult, byte_length, no_violations, number_or, prefixes_of,
  validate_patch_integrity,
}
use safecommit_ai.SafetyPolicy.PatchIntegrity.Accepted.{IsClean, scanned, valid-IsClean}
use safecommit_ai.SafetyPolicy.PatchIntegrity.Relative.{IsAcceptable-IsSafeFile, IsSafeFile}
use safecommit_ai.SafetyPolicy.PatchIntegrity.Variables.{Scan}
use safecommit_ai.Sorting.{All-sort_by, length-sort_by, sort_by}

-- What a valid patch promises of the result.
pub record IsWithinPolicy (unified_diff : Text) (options : PatchIntegrityOptions)
    (r : PatchIntegrityResult) : Type 0 where
  pub files : All (IsSafeFile (prefixes_of options)) r.changed_files
  pub some_file : 0 < length r.changed_files
  pub few_files : length r.changed_files ≤ number_or options.max_changed_files 4
  pub few_lines : r.added_lines + r.removed_lines ≤ number_or options.max_changed_lines 400
  pub small : byte_length unified_diff ≤ number_or options.max_bytes 65536

result_of : Scan → PatchIntegrityResult
result_of s = record {
  valid = no_violations s.violations;
  changed_files = sort_by text_leb s.changed_files;
  added_lines = s.added_lines;
  removed_lines = s.removed_lines;
  violations = s.violations;
}

ltb-false : (a b : ℕ) → ltb a b ≡ false → b ≤ a
ltb-false a b h = ground arith

positive : (n : ℕ) (b : Bool) → b ≡ false → (n == 0 && not b) ≡ false → 0 < n
positive n b h k = ground arith

clean-IsWithinPolicy :
    (unified_diff : Text) (options : PatchIntegrityOptions)
    → IsClean unified_diff options
    → IsWithinPolicy unified_diff options (result_of (scanned unified_diff options))
unfolding result_of
clean-IsWithinPolicy unified_diff options clean =
    let s = scanned unified_diff options in
    record {
      files =
          All-sort_by text_leb (IsSafeFile (prefixes_of options)) s.changed_files
            (All-map (IsAcceptable-IsSafeFile (prefixes_of options)) s.changed_files clean.files);
      some_file =
          rw (length-sort_by text_leb s.changed_files) (positive _ _ clean.blank clean.no_file);
      few_files = rw (length-sort_by text_leb s.changed_files) (ltb-false _ _ clean.many_files);
      few_lines = ltb-false _ _ clean.many_lines;
      small = ltb-false _ _ clean.large;
    }

-- A patch that is found valid changes at least one file and no more than the limit; every file that it is
-- found to change has a normalised path that stays in the repository, lies under an allowed prefix and
-- matches no pattern of a protected file; its added and removed lines and its bytes keep to the limits.
pub validate_patch_integrity-IsWithinPolicy :
    (unified_diff : Text) (options : PatchIntegrityOptions)
    → (validate_patch_integrity unified_diff options).valid ≡ true
    → IsWithinPolicy unified_diff options (validate_patch_integrity unified_diff options)
unfolding validate_patch_integrity result_of
validate_patch_integrity-IsWithinPolicy unified_diff options valid =
    let clean = valid-IsClean unified_diff options valid in
    subst (λ s. IsWithinPolicy unified_diff options (result_of s)) (sym clean.result)
      (clean-IsWithinPolicy unified_diff options clean)

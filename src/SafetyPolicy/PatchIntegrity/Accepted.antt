-- ===== src/SafetyPolicy/PatchIntegrity/Accepted.antt =====
-- What a patch that `validatePatchIntegrity` (packages/safety-policy/src/patch-integrity.ts) finds valid promises.
use safecommit_ai.Prelude.{
  All, Bool, List, Text, [], bool_eq, false, if◌then◌else◌, length, ltb, nat_eq, not, option_eq,
  refl, subst, sym, text_eq, true, ℕ, ◌&&◌, ◌+◌, ◌==◌, ◌||◌, ◌∙◌, ◌∷◌, ◌≡◌,
}
use safecommit_ai.SafetyPolicy.PatchIntegrity.{
  PatchIntegrityOptions, byte_length, check_patch, check_totals, content_line, diff_lines,
  no_violations, number_or, prefixes_of, run_checks, scan_line, scan_lines,
  validate_patch_integrity,
}
use safecommit_ai.SafetyPolicy.PatchIntegrity.Paths.{IntegrityViolation, slice_from}
use safecommit_ai.SafetyPolicy.PatchIntegrity.Progress.{
  Consistent, Leads, Progress, add_if-clean, add_if-Consistent, Leads-refl, Leads-set, Leads-trans,
}
use safecommit_ai.SafetyPolicy.PatchIntegrity.Turns.{
  IsAcceptable, accepts-added_line, accepts-check_line, accepts-git_header, accepts-hunk_header,
  accepts-new_file_header, accepts-old_file_header,
}
use safecommit_ai.SafetyPolicy.PatchIntegrity.Variables.{
  Scan, check_line, first_scan, is_expect_new, is_expect_old,
}
use safecommit_ai.Text.{is_blank}

module _ (prefixes : List Text) where
  abbrev P : Text → Type 0
  P = IsAcceptable prefixes

  Leads-if : (b : Bool) {s t u : Scan} → Leads P s t → Leads P s u → Leads P s (if b then t else u)
  Leads-if true first other_way = first
  Leads-if false first other_way = other_way

  accepts-content_line :
      (n : ℕ) (line : Text) (s : Scan) → Leads P s (content_line prefixes n line s)
  unfolding content_line
  accepts-content_line n line s = Leads-if _ (accepts-old_file_header prefixes n line s) (
      Leads-if _ (accepts-new_file_header prefixes n line s) (
        Leads-if _ (accepts-added_line prefixes n (slice_from 1 line) s)
          (Leads-if _ (Leads-set P refl refl refl (Leads-refl P s)) (Leads-refl P s))))

  pub accepts-scan_line : (n : ℕ) (line : Text) (s : Scan) → Leads P s (scan_line prefixes n line s)
  unfolding scan_line
  accepts-scan_line n line s = Leads-if _ (accepts-git_header prefixes n line s) (
      Leads-if _ (accepts-hunk_header prefixes s) (
        Leads-trans P (accepts-check_line prefixes n line s)
          (accepts-content_line n line (check_line n line s))))

  pub accepts-scan_lines :
      (n : ℕ) (lines : List Text) (s : Scan) → Leads P s (scan_lines prefixes n lines s)
  unfolding scan_lines
  accepts-scan_lines n [] s = Leads-refl P s
  accepts-scan_lines n (line ∷ lines) s =
      Leads-trans P (accepts-scan_line n line s)
        (accepts-scan_lines (n + 1) lines (scan_line prefixes n line s))

first_scan-Consistent : Consistent first_scan
unfolding first_scan
first_scan-Consistent _ = refl

-- The states before and behind the loop.
module _ (unified_diff : Text) (options : PatchIntegrityOptions) where
  pub first-Consistent : Consistent (check_patch unified_diff options)
  unfolding check_patch first_scan
  first-Consistent =
      add_if-Consistent _ _ _ (add_if-Consistent _ _ _ (add_if-Consistent _ _ _ λ _. refl))

  abbrev pub scanned : Scan
  scanned =
      scan_lines (prefixes_of options) 1 (diff_lines unified_diff)
        (check_patch unified_diff options)

  scan-Progress :
      Progress (IsAcceptable (prefixes_of options)) (check_patch unified_diff options) scanned
  scan-Progress =
      accepts-scan_lines (prefixes_of options) 1 (diff_lines unified_diff)
        (check_patch unified_diff options) first-Consistent

  first_files :
      check_patch unified_diff options ≡ first_scan
      → All (IsAcceptable (prefixes_of options)) (check_patch unified_diff options).changed_files
  unfolding first_scan
  first_files e = subst (λ s. All (IsAcceptable (prefixes_of options)) s.changed_files) (sym e) tt

  -- What the tests behind the loop have found where they report nothing.
  totals_clean :
      (s : Scan)
      → Consistent s
      → (check_totals unified_diff options s).violations ≡ []
      → (check_totals unified_diff options s ≡ s)
        × (s.violations ≡ [])
        × ((is_expect_old s.header_state || is_expect_new s.header_state) ≡ false)
        × ((length s.changed_files == 0 && not (is_blank unified_diff)) ≡ false)
        × (ltb (number_or options.max_changed_files 4) (length s.changed_files) ≡ false)
        × (ltb (number_or options.max_changed_lines 400) (s.added_lines + s.removed_lines) ≡ false)
  unfolding check_totals
  totals_clean s c clean =
      let c1 = add_if-Consistent _ _ s c in
      let c2 = add_if-Consistent _ _ _ c1 in
      let (many_lines, e4, clean3) = add_if-clean _ _ _ (add_if-Consistent _ _ _ c2) clean in
      let (many_files, e3, clean2) = add_if-clean _ _ _ c2 clean3 in
      let (no_file, e2, clean1) = add_if-clean _ _ _ c1 clean2 in
      let (unfinished, e1, clean0) = add_if-clean _ _ s c clean1 in
      (e4 ∙ (e3 ∙ (e2 ∙ e1)), clean0, unfinished, no_file, many_files, many_lines)

  -- What the tests before the loop have found where they report nothing.
  patch_clean :
      (check_patch unified_diff options).violations ≡ []
      → (is_blank unified_diff ≡ false)
        × (ltb (number_or options.max_bytes 65536) (byte_length unified_diff) ≡ false)
        × (check_patch unified_diff options ≡ first_scan)
  unfolding check_patch
  patch_clean clean =
      let c0 = first_scan-Consistent in
      let c1 = add_if-Consistent _ _ _ c0 in
      let (many_lines, e3, clean2) = add_if-clean _ _ _ (add_if-Consistent _ _ _ c1) clean in
      let (large, e2, clean1) = add_if-clean _ _ _ c1 clean2 in
      let (blank, e1, clean0) = add_if-clean _ _ _ c0 clean1 in (blank, large, e3 ∙ (e2 ∙ e1))

no_violations-nil : (vs : List IntegrityViolation) → no_violations vs ≡ true → vs ≡ []
no_violations-nil [] h = refl
no_violations-nil (v ∷ vs) h = cc

module _ (unified_diff : Text) (options : PatchIntegrityOptions) where
  -- The variables behind the loop of a valid patch.
  pub record IsClean : Type 0 where
    pub blank : is_blank unified_diff ≡ false
    pub large : ltb (number_or options.max_bytes 65536) (byte_length unified_diff) ≡ false
    pub loop_clean : (scanned unified_diff options).violations ≡ []
    pub no_file :
        (length (scanned unified_diff options).changed_files == 0 && not (is_blank unified_diff))
        ≡ false
    pub many_files :
        ltb
          (number_or options.max_changed_files 4)
          (length (scanned unified_diff options).changed_files)
        ≡ false
    pub many_lines :
        ltb (number_or options.max_changed_lines 400) (
          (scanned unified_diff options).added_lines + (scanned unified_diff options).removed_lines)
        ≡ false
    pub unmarked : check_patch unified_diff options ≡ first_scan
    pub result : run_checks unified_diff options ≡ scanned unified_diff options
    pub files :
        All (IsAcceptable (prefixes_of options)) (scanned unified_diff options).changed_files

  pub valid-IsClean : (validate_patch_integrity unified_diff options).valid ≡ true → IsClean
  unfolding validate_patch_integrity run_checks
  valid-IsClean valid =
      let p = scan-Progress unified_diff options in
      let clean = no_violations-nil (run_checks unified_diff options).violations valid in
      let (same, loop, _, none_there, files_bound, lines_bound) =
        totals_clean unified_diff options (scanned unified_diff options) p.consistent clean in
      let (not_blank, not_large, unmarked) = patch_clean unified_diff options (p.earlier loop) in
      record {
        blank = not_blank;
        large = not_large;
        loop_clean = loop;
        no_file = none_there;
        many_files = files_bound;
        many_lines = lines_bound;
        result = same;
        unmarked = unmarked;
        files = p.files loop (first_files unified_diff options unmarked);
      }

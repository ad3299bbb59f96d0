-- ===== src/SafetyPolicy/PatchIntegrity/Content.antt =====
-- The content that `validatePatchIntegrity` (packages/safety-policy/src/patch-integrity.ts) lets through, and the
-- headers that it takes for content.
use safecommit_ai.Prelude.{
  All, Bool, List, Text, [], ap, arith, false, length, refl, subst, sym, true, ℕ, ◌++◌, ◌+◌, ◌∙◌,
  ◌∷◌, ◌≡◌,
}
use safecommit_ai.SafetyPolicy.PatchIntegrity.{
  PatchIntegrityOptions, added_line, check_patch, content_line, defines_threshold, diff_lines,
  is_malicious, prefixes_of, scan_line, scan_lines, validate_patch_integrity,
}
use safecommit_ai.SafetyPolicy.PatchIntegrity.Accepted.{
  accepts-scan_line, accepts-scan_lines, first-Consistent, valid-IsClean,
}
use safecommit_ai.SafetyPolicy.PatchIntegrity.Calls.{Occurs, forbidden_calls, free_of_calls}
use safecommit_ai.SafetyPolicy.PatchIntegrity.Paths.{IntegrityViolation, slice_from}
use safecommit_ai.SafetyPolicy.PatchIntegrity.Progress.{Consistent, add_if-Consistent, add_if-clean}
use safecommit_ai.SafetyPolicy.PatchIntegrity.Turns.{accepts-check_line}
use safecommit_ai.SafetyPolicy.PatchIntegrity.Variables.{
  Scan, add_if, add_violation, check_line, first_scan, is_expect_new,
}
use safecommit_ai.Text.{starts_with}

add_if-header_state :
    (b : Bool) (v : IntegrityViolation) (s : Scan) → (add_if b v s).header_state ≡ s.header_state
unfolding add_if
add_if-header_state true v s = ground (arith, add_violation)
add_if-header_state false v s = refl

check_line-header_state :
    (n : ℕ) (line : Text) (s : Scan) → (check_line n line s).header_state ≡ s.header_state
unfolding check_line
check_line-header_state n line s =
    add_if-header_state _ _ _
    ∙ (add_if-header_state _ _ _
        ∙ (add_if-header_state _ _ _ ∙ (add_if-header_state _ _ _ ∙ add_if-header_state _ _ _)))

module _ (prefixes : List Text) where
  -- The loop on a list in two parts.
  scan_lines-append :
      (n : ℕ) (before after_lines : List Text) (s : Scan)
      → scan_lines prefixes n (before ++ after_lines) s
        ≡ scan_lines prefixes (n + length before) after_lines (scan_lines prefixes n before s)
  unfolding scan_lines
  scan_lines-append n [] after_lines s = ap (λ k. scan_lines prefixes k after_lines s) (omega arith)
  scan_lines-append n (line ∷ before) after_lines s =
      scan_lines-append (n + 1) before after_lines (scan_line prefixes n line s)
      ∙ ap
          (λ k.
            scan_lines prefixes k after_lines
              (scan_lines prefixes (n + 1) before (scan_line prefixes n line s)))
          (omega arith)

  added_line-clean :
      (n : ℕ) (content : Text) (s : Scan)
      → Consistent s
      → (added_line n content s).violations ≡ []
      → (is_malicious content ≡ false) × (defines_threshold content ≡ false)
  unfolding added_line
  added_line-clean n content s c clean =
      let (threshold, _, clean1) = add_if-clean _ _ _ (add_if-Consistent _ _ _ c) clean in
      let (malicious, _, _) = add_if-clean _ _ _ c clean1 in (malicious, threshold)

  content_line-added :
      (n : ℕ) (content : Text) (t : Scan)
      → is_expect_new t.header_state ≡ false
      → content_line prefixes n (b'+' ∷ content) t ≡ added_line n content t
  unfolding content_line starts_with slice_from
  content_line-added n content t h = ground arith

  -- A line that starts with a plus sign is read as added where no `+++` header is due.
  scan_line-added :
      (n : ℕ) (content : Text) (s : Scan)
      → is_expect_new s.header_state ≡ false
      → scan_line prefixes n (b'+' ∷ content) s
        ≡ added_line n content (check_line n (b'+' ∷ content) s)
  unfolding scan_line starts_with
  scan_line-added n content s h =
      content_line-added n content (check_line n (b'+' ∷ content) s)
        (ap is_expect_new (check_line-header_state n (b'+' ∷ content) s) ∙ h)

  added-clean :
      (n : ℕ) (content : Text) (lines : List Text) (s : Scan)
      → Consistent s
      → is_expect_new s.header_state ≡ false
      → (scan_lines prefixes n ((b'+' ∷ content) ∷ lines) s).violations ≡ []
      → (is_malicious content ≡ false) × (defines_threshold content ≡ false)
  unfolding scan_lines
  added-clean n content lines s c h clean =
      let checked = accepts-check_line prefixes n (b'+' ∷ content) s c in
      let line_progress = accepts-scan_line prefixes n (b'+' ∷ content) s c in
      let line_clean =
        (accepts-scan_lines prefixes (n + 1) lines (scan_line prefixes n (b'+' ∷ content) s)
            line_progress.consistent).earlier
          clean in
      added_line-clean n content (check_line n (b'+' ∷ content) s) checked.consistent
        (ap (λ t. t.violations) (sym (scan_line-added n content s h)) ∙ line_clean)

-- In a valid patch, take a line that starts with a plus sign, behind lines that leave no `+++` header due.
-- Its content matches no pattern of MALICIOUS_CONTENT and none of THRESHOLD_DEFINITION. In particular, where
-- not behind a letter, a digit or `_`, and in whatever case, none of these stands in it: system, popen, exec,
-- execl, execv, fork, WinExec, ShellExecute, socket or connect with an opening parenthesis right behind it,
-- and the address prefixes http://, https:// and ftp://.
pub validate_patch_integrity-content :
    (unified_diff : Text) (options : PatchIntegrityOptions) (before : List Text) (content : Text)
    (later : List Text)
    → diff_lines unified_diff ≡ before ++ (b'+' ∷ content) ∷ later
    → is_expect_new (scan_lines (prefixes_of options) 1 before first_scan).header_state ≡ false
    → (validate_patch_integrity unified_diff options).valid ≡ true
    → (is_malicious content ≡ false)
      × (defines_threshold content ≡ false)
      × All (λ call. ¬ Occurs call content) forbidden_calls
validate_patch_integrity-content unified_diff options before content later parts due valid =
    let prefixes = prefixes_of options in
    let clean = valid-IsClean unified_diff options valid in
    let reached = scan_lines prefixes 1 before (check_patch unified_diff options) in
    let (harmless, no_threshold) =
      added-clean prefixes (1 + length before) content later reached
        (accepts-scan_lines prefixes 1 before (check_patch unified_diff options)
          (first-Consistent unified_diff options)).consistent
        (subst (λ s. is_expect_new (scan_lines prefixes 1 before s).header_state ≡ false)
          (sym clean.unmarked) due)
        (ap (λ t. t.violations)
            (sym (
              scan_lines-append prefixes 1 before ((b'+' ∷ content) ∷ later)
                (check_patch unified_diff options)))
          ∙ (ap (λ ls. (scan_lines prefixes 1 ls (check_patch unified_diff options)).violations)
                (sym parts)
              ∙ clean.loop_clean)) in
    (harmless, no_threshold, free_of_calls content harmless)

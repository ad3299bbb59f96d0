-- ===== src/SafetyPolicy/PatchIntegrity/Unannounced.antt =====
-- The lines that `validatePatchIntegrity` (packages/safety-policy/src/patch-integrity.ts) reads as content.
use safecommit_ai.Prelude.{
  &&-false_right, All, Bool, Bool-cases, List, Text, [], ap, false, if◌then◌else◌, includes, inl,
  inr, nat_eq, not, refl, subst, sym, text_eq, true, ||-false, ℕ, ◌&&◌, ◌+◌, ◌||◌, ◌∙◌, ◌∷◌, ◌≡◌,
}
use safecommit_ai.SafetyPolicy.PatchIntegrity.{added_line, content_line, scan_line, scan_lines}
use safecommit_ai.SafetyPolicy.PatchIntegrity.Files.{new_file_header, old_file_header}
use safecommit_ai.SafetyPolicy.PatchIntegrity.Paths.{IntegrityViolation, slice_from}
use safecommit_ai.SafetyPolicy.PatchIntegrity.Variables.{
  HeaderState, Scan, add_if, add_violation, check_line, expect_new, expect_old, git_header,
  hunk_header, in_hunk, in_hunk_unless_idle, is_expect_new, is_expect_old, violation_key,
}
use safecommit_ai.Text.{codes, starts_with}

-- No `---` or `+++` header is due.
abbrev pub IsSettled : HeaderState → Type 0
IsSettled h = (is_expect_old h || is_expect_new h) ≡ false

-- The two variables that name files.
record Stays (s t : Scan) : Type 0 where
  files : t.changed_files ≡ s.changed_files
  header : t.header_state ≡ s.header_state

Stays-refl : (s : Scan) → Stays s s
Stays-refl s = record { files = refl; header = refl }

Stays-trans : {s t u : Scan} → Stays s t → Stays t u → Stays s u
Stays-trans p q = record { files = q.files ∙ p.files; header = q.header ∙ p.header }

-- The other variables.
Stays-set :
    {s t u : Scan}
    → u.changed_files ≡ t.changed_files
    → u.header_state ≡ t.header_state
    → Stays s t
    → Stays s u
Stays-set f h p = record { files = f ∙ p.files; header = h ∙ p.header }

add_violation-Stays : (v : IntegrityViolation) (s : Scan) → Stays s (add_violation v s)
unfolding add_violation
add_violation-Stays v s = elim (Bool-cases (includes s.seen_violations (violation_key v))) [
  | inl seen ↦ rw seen (Stays-refl s)
  | inr fresh ↦ rw fresh (Stays-set refl refl (Stays-refl s))
]

add_if-Stays : (b : Bool) (v : IntegrityViolation) {s t : Scan} → Stays s t → Stays s (add_if b v t)
unfolding add_if
add_if-Stays true v {t = t} p = Stays-trans p (add_violation-Stays v t)
add_if-Stays false v p = p

check_line-Stays : (n : ℕ) (line : Text) (s : Scan) → Stays s (check_line n line s)
unfolding check_line
check_line-Stays n line s =
    add_if-Stays _ _
      (add_if-Stays _ _ (add_if-Stays _ _ (add_if-Stays _ _ (add_if-Stays _ _ (Stays-refl s)))))

added_line-Stays : (n : ℕ) (content : Text) (s : Scan) → Stays s (added_line n content s)
unfolding added_line
added_line-Stays n content s =
    add_if-Stays _ _ (add_if-Stays _ _ (Stays-set refl refl (Stays-refl s)))

hunk_header-Stays :
    (h : HeaderState) (s : Scan)
    → s.header_state ≡ h
    → IsSettled h
    → Stays s (in_hunk_unless_idle h s)
hunk_header-Stays HeaderState.idle s e settled = Stays-refl s
hunk_header-Stays in_hunk s e settled = record { files = refl; header = sym e }
hunk_header-Stays expect_old s e settled = cc
hunk_header-Stays expect_new s e settled = cc

module _ (prefixes : List Text) where
  Stays-if : (b : Bool) {s t u : Scan} → Stays s t → Stays s u → Stays s (if b then t else u)
  Stays-if true p q = p
  Stays-if false p q = q

  Stays-unless :
      (b : Bool) {s u : Scan} (t : Scan) → b ≡ false → Stays s u → Stays s (if b then t else u)
  Stays-unless true t h p = cc
  Stays-unless false t h p = p

  content_line-Stays :
      (n : ℕ) (line : Text) (s : Scan)
      → IsSettled s.header_state
      → Stays s (content_line prefixes n line s)
  unfolding content_line
  content_line-Stays n line s settled =
      let (no_old, no_new) =
        ||-false (is_expect_old s.header_state) (is_expect_new s.header_state) settled in
      Stays-unless _ (old_file_header n line s)
        (ap (◌&&◌ (starts_with line (codes "--- "))) no_old ∙ &&-false_right _)
        (Stays-unless _ (new_file_header prefixes n line s)
          (ap (◌&&◌ (starts_with line (codes "+++ "))) no_new ∙ &&-false_right _)
          (Stays-if (starts_with line (codes "+") && not (is_expect_new s.header_state))
            (added_line-Stays n (slice_from 1 line) s)
            (Stays-if (starts_with line (codes "-") && not (is_expect_old s.header_state))
              (Stays-set {u = record s { removed_lines = s.removed_lines + 1 }} refl refl
                (Stays-refl s))
              (Stays-refl s))))

  scan_line-Stays :
      (n : ℕ) (line : Text) (s : Scan)
      → starts_with line (codes "diff --git ") ≡ false
      → IsSettled s.header_state
      → Stays s (scan_line prefixes n line s)
  unfolding scan_line hunk_header
  scan_line-Stays n line s plain settled =
      let checked = check_line-Stays n line s in
      Stays-unless _ (git_header n line s) plain (
        Stays-if _ (hunk_header-Stays s.header_state s refl settled) (
          Stays-trans checked (
            content_line-Stays n line (check_line n line s)
              (subst IsSettled (sym checked.header) settled))))

  -- Once the headers of a file are complete, no line names another file until a line starts with
  -- `diff --git `: a further pair of `---` and `+++` headers also leaves the changed files as they are.
  pub scan_lines-changed_files :
      (n : ℕ) (lines : List Text) (s : Scan)
      → All (λ line. starts_with line (codes "diff --git ") ≡ false) lines
      → IsSettled s.header_state
      → (scan_lines prefixes n lines s).changed_files ≡ s.changed_files
  unfolding scan_lines
  scan_lines-changed_files n [] s plain settled = refl
  scan_lines-changed_files n (line ∷ lines) s plain settled =
      let p = scan_line-Stays n line s plain.0 settled in
      scan_lines-changed_files (n + 1) lines (scan_line prefixes n line s) plain.1
        (subst IsSettled (sym p.header) settled)
      ∙ p.files

-- ===== src/SafetyPolicy/PatchIntegrity/Turns.antt =====
-- Every turn of the loop of `validatePatchIntegrity` (packages/safety-policy/src/patch-integrity.ts) keeps the
-- violations that are there, and asks of a file that it adds what is asked of all.
use safecommit_ai.Domain.Evidence.Reading.{lead}
use safecommit_ai.Prelude.{
  All, All-append, Bool, Bool-cases, List, Option, Text, [], bool_eq, false, includes, inl, inr,
  nat_eq, none, not, not-false, option_eq, refl, some, text_eq, true, ℕ, ◌==◌, ◌∷◌, ◌≡◌,
}
use safecommit_ai.SafetyPolicy.PatchIntegrity.{added_line}
use safecommit_ai.SafetyPolicy.PatchIntegrity.Files.{
  add_some, changed_file, matched_headers, new_file_header, normalized_headers, old_file_header,
  raw_headers,
}
use safecommit_ai.SafetyPolicy.PatchIntegrity.Lines.{git_header_paths}
use safecommit_ai.SafetyPolicy.PatchIntegrity.Paths.{
  IntegrityViolation, dev_null, extract_header_path, is_allowed_path, path_violation,
  validate_and_normalize_path,
}
use safecommit_ai.SafetyPolicy.PatchIntegrity.Progress.{
  Consistent, Leads, Leads-add_if, Leads-add_violation, Leads-refl, Leads-set, Leads-trans,
  reported,
}
use safecommit_ai.SafetyPolicy.PatchIntegrity.Variables.{
  HeaderState, Scan, add_if, add_to_set, add_violation, check_line, declared_header, expect_new,
  expect_old, git_header, hunk_header, in_hunk, in_hunk_unless_idle,
}

-- What a patch without violation promises of a file that it changes: its path is normal and relative, no
-- protected file has it, and the allowlist has it.
pub record IsAcceptable (prefixes : List Text) (file : Text) : Type 0 where
  pub header : Text
  pub normal : validate_and_normalize_path header ≡ some file
  pub exists : (file == dev_null) ≡ false
  pub unprotected : path_violation file ≡ none
  pub allowed : is_allowed_path file prefixes ≡ true

All-add_to_set :
    (P : Text → Type 0) (x : Text) (xs : List Text) → P x → All P xs → All P (add_to_set x xs)
unfolding add_to_set
All-add_to_set P x xs p ps = elim (Bool-cases (includes xs x)) [
  | inl there ↦ rw there ps
  | inr new ↦ rw new (All-append P xs (x ∷ []) ps (p, tt))
]

module _ (prefixes : List Text) where
  abbrev P : Text → Type 0
  P = IsAcceptable prefixes

  accepts-declared_header :
      (n : ℕ) (paths : Option (Text × Text)) {s t : Scan}
      → Leads P s t
      → Leads P s (declared_header n paths t)
  unfolding declared_header
  accepts-declared_header n none {t = t} lead =
      Leads-set P refl refl refl (Leads-trans P lead (Leads-add_violation P _ t))
  accepts-declared_header n (some paths) lead = Leads-set P refl refl refl (Leads-add_if P _ _ lead)

  pub accepts-git_header : (n : ℕ) (line : Text) (s : Scan) → Leads P s (git_header n line s)
  unfolding git_header
  accepts-git_header n line s =
      accepts-declared_header n (git_header_paths line) (Leads-add_if P _ _ (Leads-refl P s))

  accepts-in_hunk : (h : HeaderState) (s : Scan) → Leads P s (in_hunk_unless_idle h s)
  accepts-in_hunk HeaderState.idle s = Leads-refl P s
  accepts-in_hunk expect_old s = Leads-set P refl refl refl (Leads-refl P s)
  accepts-in_hunk expect_new s = Leads-set P refl refl refl (Leads-refl P s)
  accepts-in_hunk in_hunk s = Leads-set P refl refl refl (Leads-refl P s)

  pub accepts-hunk_header : (s : Scan) → Leads P s (hunk_header s)
  unfolding hunk_header
  accepts-hunk_header s = accepts-in_hunk s.header_state s

  pub accepts-check_line : (n : ℕ) (line : Text) (s : Scan) → Leads P s (check_line n line s)
  unfolding check_line
  accepts-check_line n line s = Leads-add_if P _ _ (
      Leads-add_if P _ _
        (Leads-add_if P _ _ (Leads-add_if P _ _ (Leads-add_if P _ _ (Leads-refl P s)))))

  pub accepts-old_file_header :
      (n : ℕ) (line : Text) (s : Scan) → Leads P s (old_file_header n line s)
  unfolding old_file_header
  accepts-old_file_header n line s =
      Leads-set P refl refl refl (Leads-add_if P _ _ (Leads-refl P s))

  pub accepts-added_line : (n : ℕ) (content : Text) (s : Scan) → Leads P s (added_line n content s)
  unfolding added_line
  accepts-added_line n content s =
      Leads-add_if P _ _ (Leads-add_if P _ _ (Leads-set P refl refl refl (Leads-refl P s)))

  -- What may report a violation comes from a state without one only where it reports none.
  Leads-reporting :
      (b : Bool) (v : Option IntegrityViolation) (w : IntegrityViolation) {s t : Scan}
      → (Consistent s → Consistent t)
      → (v ≡ none → b ≡ false → Leads P s t)
      → Leads P s (add_if b w (add_some v t))
  unfolding add_if
  Leads-reporting false none w keeps lead_on c = lead_on refl refl c
  Leads-reporting false (some v) w {t = t} keeps lead_on c = reported P v t (keeps c)
  Leads-reporting true none w {t = t} keeps lead_on c = reported P w t (keeps c)
  Leads-reporting true (some v) w {t = t} keeps lead_on c =
      reported P w (add_violation v t) (Leads-add_violation P v t (keeps c)).consistent

  accepts-changed_file :
      (header new : Text) (s : Scan)
      → validate_and_normalize_path header ≡ some new
      → (new == dev_null) ≡ false
      → Leads P s (changed_file prefixes new s)
  unfolding changed_file
  accepts-changed_file header new s norm real =
      Leads-reporting (not (is_allowed_path new prefixes)) (path_violation new) _ (λ c. c)
        λ unprotected allowed c. record {
          consistent = c;
          earlier = λ clean. clean;
          files = λ clean fs.
              All-add_to_set P new s.changed_files
                (record {
                  header = header;
                  normal = norm;
                  exists = real;
                  unprotected = unprotected;
                  allowed = not-false (is_allowed_path new prefixes) allowed;
                })
                fs;
        }

  accepts-matched_headers :
      (n : ℕ) (header old new : Text) (s : Scan)
      → validate_and_normalize_path header ≡ some new
      → Leads P s (matched_headers prefixes n old new s)
  unfolding matched_headers
  accepts-matched_headers n header old new s norm = elim (Bool-cases (new == dev_null)) [
    | inl deleted ↦ rw deleted (Leads-set P refl refl refl (Leads-add_violation P _ s))
    | inr real ↦ rw real (
        Leads-trans P (Leads-add_if P _ _ (Leads-add_if P _ _ (Leads-refl P s)))
          (accepts-changed_file header new _ norm real))
  ]

  accepts-normalized_headers :
      (n : ℕ) (header : Text) (old new : Option Text) (s : Scan)
      → validate_and_normalize_path header ≡ new
      → Leads P s (normalized_headers prefixes n old new s)
  unfolding normalized_headers
  accepts-normalized_headers n header (some old) (some new) s norm =
      accepts-matched_headers n header old new s norm
  accepts-normalized_headers n header none new s norm =
      Leads-set P refl refl refl (Leads-add_violation P _ s)
  accepts-normalized_headers n header (some old) none s norm =
      Leads-set P refl refl refl (Leads-add_violation P _ s)

  accepts-raw_headers :
      (n : ℕ) (old new : Option Text) (s : Scan) → Leads P s (raw_headers prefixes n old new s)
  unfolding raw_headers
  accepts-raw_headers n (some old) (some new) s =
      Leads-trans P (Leads-set P refl refl refl (Leads-refl P s)) (
        accepts-normalized_headers n new (validate_and_normalize_path old)
          (validate_and_normalize_path new) _ refl)
  accepts-raw_headers n none new s = Leads-set P refl refl refl (Leads-add_violation P _ s)
  accepts-raw_headers n (some old) none s = Leads-set P refl refl refl (Leads-add_violation P _ s)

  pub accepts-new_file_header :
      (n : ℕ) (line : Text) (s : Scan) → Leads P s (new_file_header prefixes n line s)
  unfolding new_file_header
  accepts-new_file_header n line s =
      accepts-raw_headers n s.pending_old_path (extract_header_path line) s

-- ===== src/SafetyPolicy/PatchIntegrity/Calls.antt =====
-- Calls and addresses that MALICIOUS_CONTENT (packages/safety-policy/src/patch-integrity.ts) finds wherever they
-- stand in a line.
use safecommit_ai.Domain.Evidence.Reading.{behind}
use safecommit_ai.Prelude.{
  All, All-map, Bool-cases, List, Option, String, Text, [], arith, bool_beq, false, inl, inr, map,
  none, refl, some, some_of, sym, true, true≢false, ℕ, ◌++◌, ◌∙◌, ◌∷◌, ◌≡◌,
}
use safecommit_ai.Regex.{
  Regex, any_literal, any_of, fold_case_unit, is_word, literal_text, matches, search_from, sequence,
  test_ignoring_case, word_before,
}
use safecommit_ai.SafetyPolicy.PatchIntegrity.{is_malicious}
use safecommit_ai.SafetyPolicy.PatchIntegrity.Patterns.{malicious_content}
use safecommit_ai.Text.{codes, is_space}

-- The unit before the end of a text.
abbrev pub last_unit : Option ℕ → Text → Option ℕ
last_unit front [] = front
last_unit front (c ∷ s) = last_unit (some c) s

-- The text stands in the line, in upper or lower case, and not behind a letter, a digit or `_`.
abbrev pub Occurs : String → Text → Type 0
Occurs call content =
    (front : Text) × (behind : Text) × (map fold_case_unit content
      ≡ front ++ (codes call ++ behind))
    × (word_before is_word (last_unit none front) ≡ false)

abbrev pub forbidden_calls : List String
forbidden_calls =
    "system(" ∷ "popen(" ∷ "exec(" ∷ "execl(" ∷ "execv(" ∷ "fork(" ∷ "winexec(" ∷ "shellexecute("
    ∷ "socket(" ∷ "connect(" ∷ "http://" ∷ "https://" ∷ "ftp://" ∷ []

-- A match behind a part of the text is found.
search_from-behind :
    (r : Regex) (o : Option ℕ) (front s : Text)
    → matches is_word r (last_unit o front) s (λ _ _. true) ≡ true
    → search_from is_word r o (front ++ s) ≡ true
unfolding search_from
search_from-behind r o [] [] h = h
search_from-behind r o [] (c ∷ s) h = ground arith
search_from-behind r o (c ∷ front) s h = ground (arith, search_from-behind r (some c) front s h)

some_pattern :
    (rs : List Regex) (front s : Text)
    → some_of (λ r. matches is_word r (last_unit none front) s (λ _ _. true)) rs ≡ true
    → some_of (λ r. search_from is_word r none (front ++ s)) rs ≡ true
some_pattern [] front s h = h
some_pattern (r ∷ rs) front s h =
    elim (Bool-cases (matches is_word r (last_unit none front) s (λ _ _. true))) [
      | inl here ↦ ground (arith, search_from-behind r none front s here)
      | inr there ↦ ground (arith, some_pattern rs front s (ground arith))
    ]

-- Some pattern matches at the call.
abbrev IsFound : String → Type 0
IsFound call =
    (o : Option ℕ) (behind : Text)
    → word_before is_word o ≡ false
    → some_of (λ r. matches is_word r o (codes call ++ behind) (λ _ _. true)) malicious_content
      ≡ true

found : All IsFound forbidden_calls
unfolding malicious_content matches is_word bool_beq sequence any_of any_literal literal_text
    is_space
found = (
  λ o b h. rw h refl,
  (
    λ o b h. rw h refl,
    (
      λ o b h. rw h refl,
      (
        λ o b h. rw h refl,
        (
          λ o b h. rw h refl,
          (
            λ o b h. rw h refl,
            (
              λ o b h. rw h refl,
              (
                λ o b h. rw h refl,
                (
                  λ o b h. rw h refl,
                  (
                    λ o b h. rw h refl,
                    (λ o b h. rw h refl, (λ o b h. rw h refl, (λ o b h. rw h refl, tt))),
                  ),
                ),
              ),
            ),
          ),
        ),
      ),
    ),
  ),
)

found_in-is_malicious :
    (call : String) (content : Text)
    → IsFound call
    → Occurs call content
    → is_malicious content ≡ true
unfolding is_malicious test_ignoring_case
found_in-is_malicious call content at_call (front, behind, parts, bound) = rw parts (
    some_pattern malicious_content front (codes call ++ behind)
      (at_call (last_unit none front) behind bound))

-- Content that is not malicious has none of the calls.
pub free_of_calls :
    (content : Text)
    → is_malicious content ≡ false
    → All (λ call. ¬ Occurs call content) forbidden_calls
free_of_calls content h =
    All-map {P = IsFound} {Q = λ call. ¬ Occurs call content}
      (λ call at_call there.
        true≢false (sym (found_in-is_malicious call content at_call there) ∙ h))
      forbidden_calls found

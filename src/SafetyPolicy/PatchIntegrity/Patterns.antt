-- ===== src/SafetyPolicy/PatchIntegrity/Patterns.antt =====
-- The patterns of packages/safety-policy/src/patch-integrity.ts. Those with the flag `i` are written with
-- folded letters.
use safecommit_ai.Prelude.{List, [], bool_eq, nat_eq, not, option_eq, text_eq, ◌==◌, ◌||◌, ◌∷◌}
use safecommit_ai.Regex.{
  Regex, any_literal, any_of, any_unit, at_least_one, is_word, literal, literal_text, none_of,
  one_of, optional, sequence, space, unit,
}
use safecommit_ai.Text.{is_letter, is_space}

-- (^|\/)
abbrev segment_start : Regex
segment_start = Regex.either Regex.start_of_text (unit b'/')

-- (?:\/|$)
abbrev segment_end : Regex
segment_end = Regex.either (unit b'/') Regex.end_of_text

-- [A-Za-z0-9_]*
abbrev word_units : Regex
word_units = Regex.many (Regex.unit_in is_word)

-- TEST_PATH
unfoldable pub test_path : Regex
unfolding sequence any_of any_literal literal_text
test_path =
    Regex.either
      (sequence (
        segment_start
        ∷ any_of (sequence (literal "test" ∷ optional (unit b's') ∷ []) ∷ literal "__tests__" ∷ [])
        ∷ segment_end
        ∷ []))
      (sequence (
        segment_start
        ∷ any_of (
            literal "test_"
            ∷ sequence (Regex.many any_unit ∷ one_of "._-" ∷ literal "test" ∷ unit b'.' ∷ [])
            ∷ [])
        ∷ []))

-- ya?ml
yaml : Regex
unfolding sequence
yaml = sequence (unit b'y' ∷ optional (unit b'a') ∷ unit b'm' ∷ unit b'l' ∷ [])

-- CI_PATH
unfoldable pub ci_path : Regex
unfolding sequence any_of any_literal literal_text yaml
ci_path =
    Regex.either
      (sequence
        (segment_start ∷ any_literal (".github/workflows" ∷ ".circleci" ∷ []) ∷ segment_end ∷ []))
      (sequence (
        segment_start
        ∷ any_of (
            sequence (literal ".gitlab-ci." ∷ yaml ∷ [])
            ∷ sequence (literal "azure-pipelines." ∷ yaml ∷ [])
            ∷ literal "jenkinsfile"
            ∷ [])
        ∷ Regex.end_of_text
        ∷ []))

-- BUILD_PATH
unfoldable pub build_path : Regex
unfolding sequence any_of any_literal literal_text
build_path = any_of (
    sequence (
      segment_start
      ∷ any_literal (
          "cmakelists.txt" ∷ "makefile" ∷ "meson.build" ∷ "platformio.ini" ∷ "package.json"
          ∷ "package-lock.json" ∷ "pnpm-lock.yaml" ∷ "yarn.lock" ∷ [])
      ∷ Regex.end_of_text
      ∷ [])
    ∷ sequence (
        segment_start
        ∷ any_of (sequence (literal "script" ∷ optional (unit b's') ∷ []) ∷ literal "cmake" ∷ [])
        ∷ segment_end
        ∷ [])
    ∷ sequence (unit b'.' ∷ any_literal ("mk" ∷ "cmake" ∷ []) ∷ Regex.end_of_text ∷ [])
    ∷ [])

-- SAFETY_POLICY_PATH
unfoldable pub safety_policy_path : Regex
unfolding sequence any_of any_literal literal_text
safety_policy_path =
    Regex.either
      (sequence (
        segment_start
        ∷ any_literal ("safety-policy" ∷ "safety_policy" ∷ "policies" ∷ [])
        ∷ segment_end
        ∷ []))
      (sequence (
        segment_start
        ∷ any_of (
            sequence (
              literal "safety"
              ∷ optional (one_of "-_.")
              ∷ literal "limit"
              ∷ optional (unit b's')
              ∷ [])
            ∷ sequence (literal "threshold" ∷ optional (unit b's') ∷ [])
            ∷ [])
        ∷ optional (sequence (unit b'.' ∷ Regex.many (none_of "/") ∷ []))
        ∷ Regex.end_of_text
        ∷ []))

-- MALICIOUS_CONTENT
unfoldable pub malicious_content : List Regex
unfolding sequence any_of any_literal literal_text
malicious_content =
    sequence (
      Regex.word_boundary
      ∷ any_of (
          any_literal ("system" ∷ "popen" ∷ [])
          ∷ sequence (literal "exec" ∷ optional (unit b'l') ∷ [])
          ∷ any_literal ("execv" ∷ "fork" ∷ "winexec" ∷ "shellexecute" ∷ [])
          ∷ [])
      ∷ Regex.many space
      ∷ unit b'('
      ∷ [])
    ∷ sequence (
        Regex.word_boundary
        ∷ any_of (
            any_literal ("curl" ∷ "wget" ∷ "powershell" ∷ "pwsh" ∷ "cmd.exe" ∷ [])
            ∷ sequence (literal "bash" ∷ at_least_one space ∷ literal "-c" ∷ [])
            ∷ sequence (literal "sh" ∷ at_least_one space ∷ literal "-c" ∷ [])
            ∷ literal "netcat"
            ∷ sequence
                (literal "nc" ∷ at_least_one space ∷ unit b'-' ∷ Regex.unit_in is_letter ∷ [])
            ∷ [])
        ∷ Regex.word_boundary
        ∷ [])
    ∷ sequence (
        Regex.word_boundary
        ∷ any_of (sequence (literal "http" ∷ optional (unit b's') ∷ []) ∷ literal "ftp" ∷ [])
        ∷ literal "://"
        ∷ [])
    ∷ sequence (
        Regex.word_boundary
        ∷ any_literal ("socket" ∷ "connect" ∷ [])
        ∷ Regex.many space
        ∷ unit b'('
        ∷ [])
    ∷ sequence (literal "/bin/" ∷ optional (literal "ba") ∷ literal "sh" ∷ Regex.word_boundary ∷ [])
    ∷ []

-- THRESHOLD_DEFINITION
unfoldable pub threshold_definition : List Regex
unfolding sequence any_of any_literal literal_text
threshold_definition =
    sequence (
      Regex.start_of_text
      ∷ Regex.many space
      ∷ unit b'#'
      ∷ Regex.many space
      ∷ literal "define"
      ∷ at_least_one space
      ∷ Regex.unit_in (λ c. is_letter c || c == b'_')
      ∷ word_units
      ∷ any_literal ("min" ∷ "max" ∷ "threshold" ∷ "limit" ∷ "timeout" ∷ "stale" ∷ [])
      ∷ word_units
      ∷ at_least_one space
      ∷ at_least_one (Regex.unit_in (λ c. not (is_space c)))
      ∷ [])
    ∷ sequence (
        Regex.start_of_text
        ∷ Regex.many space
        ∷ at_least_one (
            sequence
              (any_literal ("static" ∷ "constexpr" ∷ "const" ∷ []) ∷ at_least_one space ∷ []))
        ∷ Regex.many (none_of "=;")
        ∷ any_literal ("min" ∷ "max" ∷ "threshold" ∷ "limit" ∷ "timeout" ∷ "stale" ∷ [])
        ∷ Regex.many (none_of "=;")
        ∷ unit b'='
        ∷ [])
    ∷ sequence (
        Regex.start_of_text
        ∷ Regex.many space
        ∷ any_of (
            literal "config"
            ∷ literal "policy"
            ∷ sequence (literal "limit" ∷ optional (unit b's') ∷ [])
            ∷ [])
        ∷ Regex.many space
        ∷ any_literal ("." ∷ "->" ∷ [])
        ∷ Regex.many space
        ∷ Regex.unit_in (λ c. is_letter c || c == b'_')
        ∷ word_units
        ∷ any_literal ("min" ∷ "max" ∷ "threshold" ∷ "limit" ∷ "timeout" ∷ [])
        ∷ word_units
        ∷ Regex.many space
        ∷ unit b'='
        ∷ Regex.not_followed_by (unit b'=')
        ∷ [])
    ∷ []

-- /^(?:GIT binary patch|Binary files .* differ)$/u
unfoldable pub binary_line : Regex
unfolding sequence any_of any_literal literal_text
binary_line = sequence (
    Regex.start_of_text
    ∷ any_of (
        literal "GIT binary patch"
        ∷ sequence (literal "Binary files " ∷ Regex.many any_unit ∷ literal " differ" ∷ [])
        ∷ [])
    ∷ Regex.end_of_text
    ∷ [])

-- /^(?:rename|copy) (?:from|to) /u
unfoldable pub rename_line : Regex
unfolding sequence any_of any_literal literal_text
rename_line = sequence (
    Regex.start_of_text
    ∷ any_literal ("rename" ∷ "copy" ∷ [])
    ∷ unit b' '
    ∷ any_literal ("from" ∷ "to" ∷ [])
    ∷ unit b' '
    ∷ [])

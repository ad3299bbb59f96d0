-- ===== src/Examples/Commands.antt =====
-- The theorem on sandbox commands, and what the policy answers on a few of them.
use safecommit_ai.Prelude.{[], false, refl, text_beq, true, ◌∷◌, ◌≡◌}
use safecommit_ai.SafetyPolicy.CommandPolicy.{
  SandboxCommand, argument_syntax, default_executable_allowlist, has_forbidden_syntax,
  validate_sandbox_command,
}
use safecommit_ai.Text.{
  codes, contains, is_space, lower_unit, split, starts_with, to_lower_case, trim_start,
}

checkout : SandboxCommand
checkout = record {
  executable = codes "/usr/bin/Git";
  args = codes "checkout" ∷ codes "main" ∷ [];
  working_directory = codes "work/repo";
}

substitution_test :
    (validate_sandbox_command
      (record checkout { args = codes "show" ∷ codes "$(id)" ∷ [] })
      default_executable_allowlist).reason
    ≡ argument_syntax
unfolding validate_sandbox_command checkout split to_lower_case contains starts_with is_space
    text_beq
substitution_test = refl

semicolon_test : has_forbidden_syntax (codes "a; BASH") ≡ true
unfolding has_forbidden_syntax contains starts_with is_space trim_start lower_unit
semicolon_test = refl

shelf_test : has_forbidden_syntax (codes "a; shelf") ≡ false
unfolding has_forbidden_syntax contains starts_with is_space trim_start lower_unit
shelf_test = refl

url_test : has_forbidden_syntax (codes "x HTTPS://h") ≡ true
unfolding has_forbidden_syntax contains starts_with is_space trim_start lower_unit
url_test = refl

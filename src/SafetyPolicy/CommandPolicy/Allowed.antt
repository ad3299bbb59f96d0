-- ===== src/SafetyPolicy/CommandPolicy/Allowed.antt =====
-- What an allowed command cannot do (`validateSandboxCommand` of
-- packages/safety-policy/src/command-policy.ts).
use safecommit_ai.Prelude.{
  List, Text, bool_eq, false, includes, nat_eq, option_eq, text_eq, true, ◌++◌, ◌∷◌, ◌≡◌,
}
use safecommit_ai.SafetyPolicy.CommandPolicy.{
  SandboxCommand, executable_name, forward_slashes, git_subcommands, has_shell_after_semicolon,
  has_url, shell_executables,
}
use safecommit_ai.Text.{codes, split, to_lower_case}

-- The text has the other one in it.
abbrev pub Contains : Text → Text → Type 0
Contains s p = (front : Text) × (back : Text) × (s ≡ front ++ (p ++ back))

-- The argument has no substitution, no chaining, no NUL, no URL and no shell after a semicolon in it.
pub record IsPlainArgument (argument : Text) : Type 0 where
  pub no_substitution : ¬ Contains argument (codes "$(")
  pub no_backquote : ¬ Contains argument (codes "`")
  pub no_and : ¬ Contains argument (codes "&&")
  pub no_or : ¬ Contains argument (codes "||")
  pub no_nul : includes argument 0 ≡ false
  pub no_url : has_url true argument ≡ false
  pub no_shell : has_shell_after_semicolon argument ≡ false

pub record IsConfined (c : SandboxCommand) (allowlist : List Text) : Type 0 where
  pub listed : includes allowlist (executable_name c) ≡ true
  pub no_shell_tool : includes shell_executables (executable_name c) ≡ false
  pub git :
      executable_name c ≡ codes "git"
      → (sub : Text) × (rest : List Text) × (c.args ≡ sub ∷ rest)
        × (includes git_subcommands (to_lower_case sub) ≡ true)
  pub plain : (argument : Text) → includes c.args argument ≡ true → IsPlainArgument argument
  pub inside : includes (split b'/' (forward_slashes c.working_directory)) (codes "..") ≡ false

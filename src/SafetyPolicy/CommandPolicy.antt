-- ===== src/SafetyPolicy/CommandPolicy.antt =====
-- packages/safety-policy/src/command-policy.ts: which commands a sandbox may run.
pub mod Allowed
use safecommit_ai.Prelude.{
  Bool, List, Option, Text, [], bool_eq, false, if◌then◌else◌, includes, map, nat_eq, none, not,
  option_eq, some, some_of, text_eq, true, ℕ, ◌&&◌, ◌==◌, ◌||◌, ◌∷◌,
}
use safecommit_ai.Text.{
  codes, contains, is_digit, is_letter, is_space, lower_unit, split, to_lower_case, trim_start,
}

pub record SandboxCommand : Type 0 where
  pub executable : Text
  pub args : List Text
  pub working_directory : Text

-- The reason of a decision; its text may name the executable.
pub data CommandReason : Type 0 where
  executable_empty shell_or_network not_allowlisted git_subcommand cmake_script : CommandReason
  argument_syntax escapes_workspace command_allowed : CommandReason

pub record CommandPolicyResult : Type 0 where
  pub allowed : Bool
  pub reason : CommandReason

abbrev pub default_executable_allowlist : List Text
default_executable_allowlist =
    codes "git" ∷ codes "cmake" ∷ codes "ctest" ∷ codes "ninja" ∷ codes "sha256sum" ∷ []

abbrev pub shell_executables : List Text
shell_executables =
    codes "sh"
    ∷ codes "bash"
    ∷ codes "zsh"
    ∷ codes "cmd"
    ∷ codes "cmd.exe"
    ∷ codes "powershell"
    ∷ codes "powershell.exe"
    ∷ codes "pwsh"
    ∷ codes "curl"
    ∷ codes "wget"
    ∷ codes "nc"
    ∷ codes "netcat"
    ∷ []

abbrev pub git_subcommands : List Text
git_subcommands =
    codes "clone"
    ∷ codes "checkout"
    ∷ codes "apply"
    ∷ codes "diff"
    ∷ codes "status"
    ∷ codes "rev-parse"
    ∷ codes "show"
    ∷ codes "hash-object"
    ∷ []

-- s.replaceAll("\\", "/")
unfoldable pub forward_slashes : Text → Text
forward_slashes s = map (λ c. if c == 92 then b'/' else c) s

-- xs.at(-1), of a list that has an element.
unfoldable pub last_of : List Text → Text
last_of [] = []
last_of (x ∷ []) = x
last_of (x ∷ y ∷ ys) = last_of (y ∷ ys)

unfoldable pub executable_name : SandboxCommand → Text
unfolding forward_slashes last_of
executable_name c = to_lower_case (last_of (split b'/' (forward_slashes c.executable)))

-- The case folding of a regular expression with the flags `i` and `u`: the long s matches an s.
unfoldable pub fold_unit : ℕ → ℕ
fold_unit c = if c == 0x17f then b's' else lower_unit c

-- What follows a match of the word at the start of the text.
unfoldable pub after_word : Text → Text → Option Text
unfolding fold_unit
after_word [] s = some s
after_word (w ∷ ws) [] = none
after_word (w ∷ ws) (c ∷ s) = let rest = after_word ws s in if w == fold_unit c then rest else none

abbrev pub is_match : Option Text → Bool
is_match none = false
is_match (some rest) = true

-- /(?:https?|ftp):\/\//iu at the start of the text.
unfoldable pub starts_url : Text → Bool
unfolding after_word
starts_url s =
    is_match (after_word (codes "http://") s)
    || is_match (after_word (codes "https://") s)
    || is_match (after_word (codes "ftp://") s)

-- /(?:^|\s)(?:https?|ftp):\/\//iu; the flag says whether the start of the text or a space is before it.
unfoldable pub has_url : Bool → Text → Bool
unfolding starts_url
has_url here [] = false
has_url here (c ∷ s) = (here && starts_url (c ∷ s)) || has_url (is_space c) s

-- A word character, under the flags `i` and `u`.
unfoldable pub is_word_unit : ℕ → Bool
is_word_unit c = is_letter c || is_digit c || c == b'_' || c == 0x17f || c == 0x212a

-- \b after a word character.
abbrev pub at_boundary : Option Text → Bool
at_boundary none = false
at_boundary (some []) = true
at_boundary (some (c ∷ s)) = not (is_word_unit c)

-- /(?:sh|bash|cmd|powershell)\b/iu at the start of the text.
unfoldable pub starts_shell : Text → Bool
unfolding after_word is_word_unit
starts_shell s =
    at_boundary (after_word (codes "sh") s)
    || at_boundary (after_word (codes "bash") s)
    || at_boundary (after_word (codes "cmd") s)
    || at_boundary (after_word (codes "powershell") s)

-- /;\s*(?:sh|bash|cmd|powershell)\b/iu
unfoldable pub has_shell_after_semicolon : Text → Bool
unfolding starts_shell
has_shell_after_semicolon [] = false
has_shell_after_semicolon (c ∷ s) =
    (c == b';' && starts_shell (trim_start s)) || has_shell_after_semicolon s

unfoldable pub has_forbidden_syntax : Text → Bool
unfolding has_url has_shell_after_semicolon
has_forbidden_syntax argument =
    includes argument 0
    || has_url true argument
    || contains argument (codes "$(")
    || contains argument (codes "`")
    || contains argument (codes "&&")
    || contains argument (codes "||")
    || has_shell_after_semicolon argument

abbrev pub is_git_refused : List Text → Bool
is_git_refused [] = true
is_git_refused (arg ∷ args) = not (includes git_subcommands (to_lower_case arg))

unfoldable pub validate_sandbox_command : SandboxCommand → List Text → CommandPolicyResult
unfolding executable_name has_forbidden_syntax
validate_sandbox_command c allowlist =
    let executable = executable_name c in
    if executable == []
    then record { allowed = false; reason = executable_empty }
    else if includes shell_executables executable
    then record { allowed = false; reason = shell_or_network }
    else if not (includes allowlist executable)
    then record { allowed = false; reason = not_allowlisted }
    else if executable == codes "git" && is_git_refused c.args
    then record { allowed = false; reason = git_subcommand }
    else if executable == codes "cmake" && includes c.args (codes "-P")
    then record { allowed = false; reason = cmake_script }
    else if some_of has_forbidden_syntax c.args
    then record { allowed = false; reason = argument_syntax }
    else if includes (split b'/' (forward_slashes c.working_directory)) (codes "..")
    then record { allowed = false; reason = escapes_workspace }
    else record { allowed = true; reason = command_allowed }

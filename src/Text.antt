-- ===== src/Text.antt =====
-- JavaScript texts as UTF-16 code units: `trim`, `toLowerCase`, `includes`, `endsWith`,
-- `startsWith` and the character classes of the regular expressions.
-- `toLowerCase` maps the ASCII letters and the Kelvin sign, the one other unit whose lower case is an
-- ASCII letter, and leaves all others alone, so that a comparison with ASCII text answers as in the
-- source.
pub mod Encoding
use Prim.Native.Char.{code}
use mathlib.Core.List.{reverse}
use safecommit_ai.Prelude.{
  Bool, List, String, Text, [], bool_eq, every, false, if◌then◌else◌, leb, length, map, nat_eq,
  option_eq, refl, some_of, text_eq, true, ℕ, ◌&&◌, ◌+◌, ◌==◌, ◌||◌, ◌∷◌, ◌≡◌,
}

-- A literal.
abbrev pub codes : String → Text
codes String.[] = []
codes (String.◌∷◌ c s) = code c ∷ codes s

-- White space and line terminators, which `trim` takes off.
unfoldable pub is_space : ℕ → Bool
is_space c =
    (leb 9 c && leb c 13)
    || c == 32
    || c == 160
    || c == 0x1680
    || (leb 0x2000 c && leb c 0x200a)
    || c == 0x2028
    || c == 0x2029
    || c == 0x202f
    || c == 0x205f
    || c == 0x3000
    || c == 0xfeff

unfoldable pub trim_start : Text → Text
unfolding is_space
trim_start [] = []
trim_start (c ∷ s) = let rest = trim_start s in if is_space c then rest else c ∷ s

-- s.trim()
unfoldable pub trim : Text → Text
unfolding trim_start
trim s = reverse (trim_start (reverse (trim_start s)))

-- s.trim() === ""
unfoldable pub is_blank : Text → Bool
unfolding trim
is_blank s = trim s == []

unfoldable pub lower_unit : ℕ → ℕ
lower_unit c = if leb b'A' c && leb c b'Z' then c + 32 else if c == 0x212a then b'k' else c

-- s.toLowerCase()
unfoldable pub to_lower_case : Text → Text
unfolding lower_unit
to_lower_case s = map lower_unit s

-- s.startsWith(p)
unfoldable pub starts_with : Text → Text → Bool
starts_with s [] = true
starts_with [] (p ∷ ps) = false
starts_with (c ∷ s) (p ∷ ps) = c == p && starts_with s ps

-- s.endsWith(p)
unfoldable pub ends_with : Text → Text → Bool
unfolding starts_with
ends_with s p = starts_with (reverse s) (reverse p)

-- s.includes(p)
unfoldable pub contains : Text → Text → Bool
unfolding starts_with
contains [] p = starts_with [] p
contains (c ∷ s) p = starts_with (c ∷ s) p || contains s p

abbrev pub is_digit : ℕ → Bool
is_digit c = leb b'0' c && leb c b'9'

abbrev pub is_letter : ℕ → Bool
is_letter c = (leb b'a' c && leb c b'z') || (leb b'A' c && leb c b'Z')

-- [0-9a-f] under the flag `i`
abbrev pub is_hex : ℕ → Bool
is_hex c = is_digit c || (leb b'a' c && leb c b'f') || (leb b'A' c && leb c b'F')

-- /^[0-9a-f]{40}(?:[0-9a-f]{24})?$/iu
unfoldable pub is_full_git_object_id : Text → Bool
is_full_git_object_id s = every is_hex s && (length s == 40 || length s == 64)

-- /^[0-9a-f]{64}$/iu
unfoldable pub is_sha256_digest : Text → Bool
is_sha256_digest s = every is_hex s && length s == 64

-- /^[A-Za-z0-9](?:[A-Za-z0-9-]{0,38})$/u
unfoldable pub is_owner_name : Text → Bool
is_owner_name [] = false
is_owner_name (c ∷ s) =
    (is_letter c || is_digit c)
    && every (λ d. is_letter d || is_digit d || d == b'-') s
    && leb (length s) 38

-- /^[A-Za-z0-9_.-]{1,100}$/u
unfoldable pub is_repository_name : Text → Bool
is_repository_name s =
    every (λ d. is_letter d || is_digit d || d == b'_' || d == b'.' || d == b'-') s
    && leb 1 (length s)
    && leb (length s) 100

-- /^[A-Za-z0-9][A-Za-z0-9._/-]{0,199}$/u
unfoldable pub is_branch_name : Text → Bool
is_branch_name [] = false
is_branch_name (c ∷ s) =
    (is_letter c || is_digit c)
    && every (λ d. is_letter d || is_digit d || d == b'.' || d == b'_' || d == b'/' || d == b'-') s
    && leb (length s) 199

-- /[\u0000-\u001f\u007f]/u
unfoldable pub has_control : Text → Bool
has_control s = some_of (λ c. leb c 31 || c == 127) s

unfoldable pub join_first : ℕ → List Text → List Text
join_first d [] = (d ∷ []) ∷ []
join_first d (t ∷ ts) = (d ∷ t) ∷ ts

-- s.split(c)
unfoldable pub split : ℕ → Text → List Text
unfolding join_first
split c [] = [] ∷ []
split c (d ∷ s) = let rest = split c s in if c == d then [] ∷ rest else join_first d rest

unfoldable pub strip_leading : ℕ → Text → Text
strip_leading c [] = []
strip_leading c (d ∷ s) = let rest = strip_leading c s in if c == d then rest else d ∷ s

-- s.replace(/c+$/u, "")
unfoldable pub strip_trailing : ℕ → Text → Text
unfolding strip_leading
strip_trailing c s = reverse (strip_leading c (reverse s))

trim_test : trim (codes "  x y ") ≡ codes "x y"
unfolding trim
trim_test = refl

digest_test : is_full_git_object_id (codes "0123456789abcdefABCD0123456789abcdefABCD") ≡ true
unfolding is_full_git_object_id
digest_test = refl

-- ===== src/Regex.antt =====
-- JavaScript regular expressions: the operators that the program's patterns use, and `test`. A pattern is
-- matched on UTF-16 code units; a set that leaves units out takes both halves of a surrogate pair, as it
-- takes the pair under the flag `u`.
use safecommit_ai.Prelude.{
  Bool, List, Option, String, Text, [], bool_beq, bool_eq, false, if◌then◌else◌, includes, leb,
  length, map, nat_eq, none, not, option_eq, refl, some, suc, text_eq, true, zero, ℕ, ◌!=◌, ◌&&◌,
  ◌+◌, ◌==◌, ◌||◌, ◌∷◌, ◌≡◌,
}
use safecommit_ai.Text.{codes, is_digit, is_letter, is_space}

pub data Regex : Type 0 where
  empty start_of_text end_of_text word_boundary : Regex
  unit_in : (ℕ → Bool) → Regex
  then_ either : Regex → Regex → Regex
  many : Regex → Regex
  not_followed_by : Regex → Regex

-- The unit before a position, and the units after it.
abbrev Match : Type 0
Match = Option ℕ → Text → Bool

-- [A-Za-z0-9_], with the two units that fold to a letter where the flags are `iu`.
unfoldable pub is_word : ℕ → Bool
is_word c = is_letter c || is_digit c || c == b'_'

abbrev pub word_before : (ℕ → Bool) → Option ℕ → Bool
word_before w none = false
word_before w (some c) = w c

abbrev word_after : (ℕ → Bool) → Text → Bool
word_after w [] = false
word_after w (c ∷ s) = w c

abbrev at_start : Option ℕ → Bool
at_start none = true
at_start (some c) = false

abbrev take_unit : (ℕ → Bool) → Text → Match → Bool
take_unit p [] k = false
take_unit p (c ∷ s) k = p c && k (some c) s

-- A round of a repetition takes at least one unit, so that the length of the text bounds the rounds.
repeat_match : (Option ℕ → Text → Match → Bool) → ℕ → Option ℕ → Text → Match → Bool
repeat_match round zero before s k = k before s
repeat_match round (suc n) before s k =
    k before s || round before s (λ later rest. repeat_match round n later rest k)

module _ (word : ℕ → Bool) where
  -- Some way to match the pattern at a position leads to an accepting rest.
  unfoldable pub matches : Regex → Option ℕ → Text → Match → Bool
  unfolding repeat_match
  matches Regex.empty before s k = k before s
  matches Regex.start_of_text before s k = at_start before && k before s
  matches Regex.end_of_text before s k = s == [] && k before s
  matches Regex.word_boundary before s k =
      (word_before word before != word_after word s) && k before s
  matches (Regex.unit_in p) before s k = take_unit p s k
  matches (Regex.then_ r q) before s k = matches r before s (λ later rest. matches q later rest k)
  matches (Regex.either r q) before s k = matches r before s k || matches q before s k
  matches (Regex.many r) before s k = repeat_match (matches r) (length s) before s k
  matches (Regex.not_followed_by r) before s k =
      not (matches r before s (λ _ _. true)) && k before s

  -- A match that starts at a position, or behind it.
  unfoldable pub search_from : Regex → Option ℕ → Text → Bool
  unfolding matches
  search_from r before [] = matches r before [] (λ _ _. true)
  search_from r before (c ∷ s) = matches r before (c ∷ s) (λ _ _. true) || search_from r (some c) s

-- regex.test(s) under the flag `u`
unfoldable pub test_regex : Regex → Text → Bool
unfolding search_from is_word
test_regex r s = search_from is_word r none s

-- Simple case folding, as far as it reaches the ASCII letters.
unfoldable pub fold_case_unit : ℕ → ℕ
fold_case_unit c =
    if leb b'A' c && leb c b'Z'
    then c + 32
    else if c == 0x212a
    then b'k'
    else if c == 0x017f
    then b's'
    else c

-- regex.test(s) under the flags `iu`. The pattern is written with folded letters.
unfoldable pub test_ignoring_case : Regex → Text → Bool
unfolding search_from is_word fold_case_unit
test_ignoring_case r s = search_from is_word r none (map fold_case_unit s)

-- The notation of the patterns.
abbrev pub unit : ℕ → Regex
unit c = Regex.unit_in (λ d. d == c)

unfoldable pub literal_text : Text → Regex
literal_text [] = Regex.empty
literal_text (c ∷ s) = Regex.then_ (unit c) (literal_text s)

abbrev pub literal : String → Regex
unfolding literal_text
literal s = literal_text (codes s)

-- r1 r2 ...
unfoldable pub sequence : List Regex → Regex
sequence [] = Regex.empty
sequence (r ∷ rs) = Regex.then_ r (sequence rs)

-- (?:r1|r2|...)
unfoldable pub any_of : List Regex → Regex
any_of [] = Regex.unit_in (λ _. false)
any_of (r ∷ rs) = Regex.either r (any_of rs)

-- (?:s1|s2|...)
unfoldable pub any_literal : List String → Regex
unfolding literal_text any_of
any_literal ss = any_of (map (λ s. literal_text (codes s)) ss)

abbrev pub optional : Regex → Regex
optional r = Regex.either r Regex.empty

-- r+
abbrev pub at_least_one : Regex → Regex
at_least_one r = Regex.then_ r (Regex.many r)

-- [s]
abbrev pub one_of : String → Regex
one_of s = Regex.unit_in (λ c. includes (codes s) c)

-- [^s]
abbrev pub none_of : String → Regex
none_of s = Regex.unit_in (λ c. not (includes (codes s) c))

-- \s
abbrev pub space : Regex
space = Regex.unit_in is_space

-- .
abbrev pub any_unit : Regex
any_unit = Regex.unit_in (λ c. not (includes (10 ∷ 13 ∷ 0x2028 ∷ 0x2029 ∷ []) c))

boundary_test :
    test_ignoring_case
      (sequence (
        Regex.word_boundary
        ∷ any_literal ("system" ∷ "fork" ∷ [])
        ∷ Regex.many space
        ∷ unit b'('
        ∷ []))
      (codes "x = SYSTEM  (1)")
    ≡ true
unfolding test_ignoring_case sequence any_literal bool_beq is_space
boundary_test = refl

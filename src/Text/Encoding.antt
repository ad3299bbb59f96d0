-- ===== src/Text/Encoding.antt =====
-- The texts of numbers and `encodeURIComponent`.
use safecommit_ai.Prelude.{
  Bool, Option, Text, [], if◌then◌else◌, includes, leb, ltb, nat_eq, none, refl, some, suc, text_eq,
  zero, ℕ, ◌%◌, ◌&&◌, ◌*◌, ◌++◌, ◌+◌, ◌-◌, ◌/◌, ◌||◌, ◌∷◌, ◌≡◌,
}
use safecommit_ai.Text.{codes, is_digit, is_letter}

-- The decimal text of a number, as a template literal prints it. The fuel is more than the number,
-- and so more than its digits.
unfoldable pub digits_from : ℕ → ℕ → Text → Text
digits_from zero n acc = acc
digits_from (suc fuel) n acc =
    let rest = digits_from fuel (n / 10) ((b'0' + n % 10) ∷ acc) in
    if ltb n 10 then (b'0' + n) ∷ acc else rest

unfoldable pub number_text : ℕ → Text
unfolding digits_from
number_text n = digits_from (suc n) n []

number_test : number_text 9007199254740991 ≡ codes "9007199254740991"
unfolding number_text
number_test = refl

-- encodeURIComponent: the unreserved characters stay, all others become the bytes of their UTF-8.
is_unreserved : ℕ → Bool
is_unreserved c = is_letter c || is_digit c || includes (codes "-_.!~*'()") c

hex_digit : ℕ → ℕ
hex_digit d = if ltb d 10 then d + b'0' else d + 55

percent : ℕ → Text
unfolding hex_digit
percent b = b'%' ∷ hex_digit (b / 16) ∷ hex_digit (b % 16) ∷ []

abbrev is_high_surrogate : ℕ → Bool
is_high_surrogate c = leb 0xd800 c && leb c 0xdbff

abbrev is_low_surrogate : ℕ → Bool
is_low_surrogate c = leb 0xdc00 c && leb c 0xdfff

-- The bytes of a code point, each as %XX.
utf8_percent : ℕ → Text
unfolding percent
utf8_percent p =
    if ltb p 0x80
    then percent p
    else if ltb p 0x800
    then percent (0xc0 + p / 64) ++ percent (0x80 + p % 64)
    else if ltb p 0x10000
    then percent (0xe0 + p / 4096) ++ (percent (0x80 + p / 64 % 64) ++ percent (0x80 + p % 64))
    else percent (0xf0 + p / 262144)
      ++ (percent (0x80 + p / 4096 % 64)
          ++ (percent (0x80 + p / 64 % 64) ++ percent (0x80 + p % 64)))

prepend : Text → Option Text → Option Text
prepend t none = none
prepend t (some s) = some (t ++ s)

-- `none` is the URIError of a surrogate that stands alone. `pending` is a high surrogate that has
-- been read and waits for its low half.
encode_from : Option ℕ → Text → Option Text
unfolding is_unreserved utf8_percent prepend
encode_from none [] = some []
encode_from (some h) [] = none
encode_from none (c ∷ s) =
    let skip = encode_from (some c) s in
    let rest = encode_from none s in
    if is_high_surrogate c
    then skip
    else if is_low_surrogate c
    then none
    else if is_unreserved c
    then prepend (c ∷ []) rest
    else prepend (utf8_percent c) rest
encode_from (some h) (c ∷ s) =
    let rest = encode_from none s in
    if is_low_surrogate c
    then prepend (utf8_percent (0x10000 + (h - 0xd800) * 1024 + (c - 0xdc00))) rest
    else none

unfoldable pub encode_uri_component : Text → Option Text
unfolding encode_from
encode_uri_component s = encode_from none s

encode_test : encode_uri_component (codes "a/b é") ≡ some (codes "a%2Fb%20%C3%A9")
unfolding encode_uri_component
encode_test = refl

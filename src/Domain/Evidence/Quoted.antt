-- ===== src/Domain/Evidence/Quoted.antt =====
-- The quoted strings of packages/domain/src/evidence.ts can be read back: every unit is told from its
-- escape.
use mathlib.Core.List.{append_assoc}
use safecommit_ai.Domain.Evidence.Print.{
  is_high, is_low, lower_hex, quote_from, quote_unit, unicode_escape,
}
use safecommit_ai.Domain.Evidence.Reading.{read_string, read_unit, unhex}
use safecommit_ai.Prelude.{
  ==-eq, All, Bool, Bool-cases, List, Text, [], ap, arith, bool_eq, every, false, if◌then◌else◌,
  inl, inr, length, ltb, nat_eq, none, option_eq, refl, some, subst, suc, sym, text_eq, true, zero,
  ℕ, ◌%◌, ◌++◌, ◌/◌, ◌<◌, ◌==◌, ◌∷◌, ◌≡◌,
}

-- UTF-16 code units.
abbrev pub IsUnits : Text → Type 0
IsUnits s = All (λ c. c < 65536) s

-- A literal consists of units.
pub every-IsUnits : (s : Text) → every (λ c. ltb c 65536) s ≡ true → IsUnits s
every-IsUnits [] h = tt
every-IsUnits (c ∷ s) h = (ground arith, every-IsUnits s (ground arith))

unhex-lower_hex : (d : ℕ) → d < 16 → unhex (lower_hex d) ≡ d
unfolding unhex lower_hex
unhex-lower_hex d h = ground arith

read_unit-unicode_escape :
    (c : ℕ) (r : Text) → c < 65536 → read_unit (unicode_escape c ++ r) ≡ some (c, r)
unfolding read_unit unicode_escape
read_unit-unicode_escape c r h =
    ap (λ v. some (v, r))
      (omega (
        arith,
        unhex-lower_hex (c / 4096 % 16) (omega arith),
        unhex-lower_hex (c / 256 % 16) (omega arith),
        unhex-lower_hex (c / 16 % 16) (omega arith),
        unhex-lower_hex (c % 16) (omega arith),
      ))

-- The units that have an escape of their own.
abbrev named_escapes : List ℕ
named_escapes = 8 ∷ 9 ∷ 10 ∷ 12 ∷ 13 ∷ 34 ∷ 92 ∷ []

-- A property that holds of the elements of a list holds of a unit if it does so outside the list.
at_each :
    (P : ℕ → Type 0) (c : ℕ) (ks : List ℕ) → All P ks → (All (λ k. (c == k) ≡ false) ks → P c) → P c
at_each P c [] ps outside = outside tt
at_each P c (k ∷ ks) (p, ps) outside = elim (Bool-cases (c == k)) [
  | inl e ↦ subst P (sym (==-eq c k e)) p
  | inr e ↦ at_each P c ks ps λ rest. outside (e, rest)
]

quote_unit-plain :
    (c : ℕ)
    → All (λ k. (c == k) ≡ false) named_escapes
    → quote_unit c ≡ (if ltb c 32 then unicode_escape c else c ∷ [])
unfolding quote_unit
quote_unit-plain c not_named =
    let (a, (b, (d, (e, (f, (g, (h, _))))))) = not_named in simp (a, b, d, e, f, g, h)

read_unit-plain :
    (c : ℕ) (r : Text) → (c == 34) ≡ false → (c == 92) ≡ false → read_unit (c ∷ r) ≡ some (c, r)
unfolding read_unit
read_unit-plain c r h k = simp (h, k)

named : (r : Text) → All (λ k. read_unit (quote_unit k ++ r) ≡ some (k, r)) named_escapes
unfolding read_unit quote_unit
named r = (refl, (refl, (refl, (refl, (refl, (refl, (refl, tt)))))))

-- A unit that is no surrogate.
read_unit-quote_unit : (c : ℕ) (r : Text) → c < 65536 → read_unit (quote_unit c ++ r) ≡ some (c, r)
read_unit-quote_unit c r h =
    at_each (λ k. read_unit (quote_unit k ++ r) ≡ some (k, r)) c named_escapes (named r)
      λ no_name. rw (quote_unit-plain c no_name) (elim (Bool-cases (ltb c 32)) [
        | inl lo ↦ rw lo (read_unit-unicode_escape c r h)
        | inr hi ↦ rw hi (read_unit-plain c r no_name.1.1.1.1.1.0 no_name.1.1.1.1.1.1.0)
      ])

-- What is printed behind a high surrogate that stands as it is, or behind any other unit.
behind_unit : Bool → Text → Text
behind_unit true (c ∷ s) = if is_low c then c ∷ quote_from none s else quote_from none (c ∷ s)
behind_unit true [] = []
behind_unit false s = quote_from none s

high-plain : (c : ℕ) → is_high c ≡ true → ((c == 34) ≡ false) × ((c == 92) ≡ false)
high-plain c h = ground arith

low-plain : (c : ℕ) → is_low c ≡ true → ((c == 34) ≡ false) × ((c == 92) ≡ false)
low-plain c h = ground arith

low-not_high : (c : ℕ) → is_low c ≡ true → is_high c ≡ false
low-not_high c h = ground arith

-- A printed string is read unit by unit.
module _ (r : Text) where
  abbrev ReadsUnit : Text → ℕ → Text → Type 0
  ReadsUnit printed c s = read_unit (printed ++ 34 ∷ r) ≡ some (c, s ++ 34 ∷ r)

  read-low :
      (c : ℕ) (s : Text)
      → c < 65536
      → is_low c ≡ true
      → is_high c ≡ false
      → ReadsUnit (quote_from none (c ∷ s)) c (quote_from none s)
  unfolding quote_from
  read-low c s h lo not_high = rw (not_high, lo) (read_unit-unicode_escape c _ h)

  read-other :
      (c : ℕ) (s : Text)
      → c < 65536
      → is_low c ≡ false
      → is_high c ≡ false
      → ReadsUnit (quote_from none (c ∷ s)) c (quote_from none s)
  unfolding quote_from
  read-other c s h lo not_high = rw (not_high, lo) (rw append_assoc (read_unit-quote_unit c _ h))

  read-high :
      (c : ℕ) (s : Text)
      → c < 65536
      → is_high c ≡ true
      → ReadsUnit (quote_from none (c ∷ s)) c (behind_unit true s)
  unfolding quote_from behind_unit
  read-high c [] h hi = rw hi (read_unit-unicode_escape c _ h)
  read-high c (d ∷ s) h hi = elim (Bool-cases (is_low d)) [
    | inl lo ↦ rw (hi, lo) (read_unit-plain c _ (high-plain c hi).0 (high-plain c hi).1)
    | inr not_low ↦ rw (hi, not_low) (read_unit-unicode_escape c _ h)
  ]

  read-outside :
      (c : ℕ) (s : Text)
      → c < 65536
      → ReadsUnit (quote_from none (c ∷ s)) c (behind_unit (is_high c) s)
  unfolding behind_unit
  read-outside c s h = elim (Bool-cases (is_high c)) [
    | inl hi ↦ rw hi (read-high c s h hi)
    | inr not_high ↦ rw not_high (elim (Bool-cases (is_low c)) [
      | inl lo ↦ read-low c s h lo not_high
      | inr not_low ↦ read-other c s h not_low not_high
    ])
  ]

  read-behind :
      (after_high : Bool) (c : ℕ) (s : Text)
      → c < 65536
      → ReadsUnit (behind_unit after_high (c ∷ s)) c (behind_unit (is_high c) s)
  unfolding behind_unit
  read-behind false c s h = read-outside c s h
  read-behind true c s h = elim (Bool-cases (is_low c)) [
    | inl lo ↦
        rw (lo, low-not_high c lo) (read_unit-plain c _ (low-plain c lo).0 (low-plain c lo).1)
    | inr not_low ↦ rw not_low (read-outside c s h)
  ]

  behind-end : (after_high : Bool) → behind_unit after_high [] ≡ []
  unfolding behind_unit quote_from
  behind-end true = refl
  behind-end false = refl

  read_string-behind :
      (n : ℕ) (after_high : Bool) (s : Text)
      → IsUnits s
      → length s < n
      → read_string n (behind_unit after_high s ++ 34 ∷ r) ≡ some (s, r)
  unfolding read_string
  read_string-behind zero after_high s units fuel = absurd (omega arith)
  read_string-behind (suc n) after_high [] units fuel = rw (behind-end after_high) refl
  read_string-behind (suc n) after_high (c ∷ s) units fuel =
      rw (read-behind after_high c s units.0, read_string)
        (rw (read_string-behind n (is_high c) s units.1 (omega arith)) refl)

-- A quoted string is read back, whatever follows it.
pub read_string-quote :
    (n : ℕ) (s r : Text)
    → IsUnits s
    → length s < n
    → read_string n (quote_from none s ++ 34 ∷ r) ≡ some (s, r)
unfolding behind_unit
read_string-quote n s r = read_string-behind r n false s

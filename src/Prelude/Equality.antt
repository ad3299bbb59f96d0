-- ===== src/Prelude/Equality.antt =====
-- `===` as an interface: a Boolean test with its law, for every type that the program compares.
use mathlib.Core.Path.{◌≡◌, refl}
use mathlib.Core.Logic.{◌↔◌}
use mathlib.Core.Bool.{Bool, true, false, not, ◌&&◌}
use mathlib.Core.Option.{Option, none, some}
use mathlib.Core.List.{List, [], ◌∷◌}
use Prim.Native.Nat.{ℕ, ◌≤◌}
use native.Mathlib.Omega.{arith}
use safecommit_ai.Prelude.Tests.{nat_beq, if◌then◌else◌}
use safecommit_ai.Prelude.Lists.{length, some_of}

pub record Eq {ℓ} (A : Type ℓ) : Type ℓ where
  pub is_same : A → A → Bool
  pub decides : (x y : A) → (is_same x y ≡ true) ↔ (x ≡ y)

infix 50 ◌==◌ ◌!=◌
abbrev pub ◌==◌ {ℓ} : {A : Type ℓ} ⦃e : Eq A⦄ → A → A → Bool
◌==◌ ⦃e⦄ = e.is_same

abbrev pub ◌!=◌ {ℓ} : {A : Type ℓ} ⦃e : Eq A⦄ → A → A → Bool
◌!=◌ ⦃e⦄ a b = not (e.is_same a b)

pub nat_beq_iff : (a b : ℕ) → (nat_beq a b ≡ true) ↔ (a ≡ b)
nat_beq_iff a b = ground arith

instance abbrev pub nat_eq : Eq ℕ
nat_eq = record { is_same = nat_beq; decides = nat_beq_iff }

unfoldable pub bool_beq : Bool → Bool → Bool
bool_beq true b = b
bool_beq false b = not b

pub bool_beq_iff : (a b : Bool) → (bool_beq a b ≡ true) ↔ (a ≡ b)
unfolding bool_beq
bool_beq_iff a b = ground arith

instance abbrev pub bool_eq : Eq Bool
bool_eq = record { is_same = bool_beq; decides = bool_beq_iff }

-- A text is the list of its UTF-16 code units.
abbrev pub Text : Type 0
Text = List ℕ

unfoldable pub text_beq : Text → Text → Bool
text_beq [] [] = true
text_beq (x ∷ xs) (y ∷ ys) = nat_beq x y && text_beq xs ys
text_beq _ _ = false

pub text_beq_iff : (a b : Text) → (text_beq a b ≡ true) ↔ (a ≡ b)
unfolding text_beq
text_beq_iff [] [] = ground arith
text_beq_iff [] (y ∷ ys) = ground arith
text_beq_iff (x ∷ xs) [] = ground arith
text_beq_iff (x ∷ xs) (y ∷ ys) = ground (arith, text_beq_iff xs ys)

instance abbrev pub text_eq : Eq Text
text_eq = record { is_same = text_beq; decides = text_beq_iff }

abbrev pub option_beq {ℓ} : {A : Type ℓ} ⦃e : Eq A⦄ → Option A → Option A → Bool
option_beq none none = true
option_beq ⦃e⦄ (some a) (some b) = e.is_same a b
option_beq _ _ = false

module _ {ℓ} {A : Type ℓ} ⦃e : Eq A⦄ where
  pub option_beq_iff : (a b : Option A) → (option_beq a b ≡ true) ↔ (a ≡ b)
  option_beq_iff none none = ground arith
  option_beq_iff none (some b) = ground arith
  option_beq_iff (some a) none = ground arith
  option_beq_iff (some a) (some b) = ground (arith, e.decides a b)

  -- xs.includes(x)
  abbrev pub includes : List A → A → Bool
  includes xs a = some_of (λ x. a == x) xs

  -- The members of `new Set(xs)`; only their number is read.
  abbrev pub distinct : List A → List A
  distinct [] = []
  distinct (x ∷ xs) = let rest = distinct xs in if includes xs x then rest else x ∷ rest

  -- No element stands twice.
  abbrev pub Unique : List A → Type 0
  Unique [] = Unit
  Unique (x ∷ xs) = (includes xs x ≡ false) × Unique xs

  pub length-distinct-le : (xs : List A) → length (distinct xs) ≤ length xs
  length-distinct-le [] = omega arith
  length-distinct-le (x ∷ xs) = ground (arith, length-distinct-le xs)

  -- A list whose set is as large as it is has no repetition.
  pub length-distinct-Unique : (xs : List A) → length (distinct xs) ≡ length xs → Unique xs
  length-distinct-Unique [] h = tt
  length-distinct-Unique (x ∷ xs) h = (
    ground (arith, length-distinct-le xs),
    length-distinct-Unique xs (ground (arith, length-distinct-le xs)),
  )

  pub ==-refl : (a : A) → (a == a) ≡ true
  ==-refl a = (e.decides a a).1 refl

  pub ==-eq : (a b : A) → (a == b) ≡ true → a ≡ b
  ==-eq a b h = (e.decides a b).0 h

  pub eq-== : {a b : A} → a ≡ b → (a == b) ≡ true
  eq-== {a} {b} h = (e.decides a b).1 h

  pub !=-eq : (a b : A) → (a != b) ≡ false → a ≡ b
  !=-eq a b h = ground (arith, e.decides a b)

instance abbrev pub option_eq {ℓ} : {A : Type ℓ} ⦃e : Eq A⦄ → Eq (Option A)
option_eq = record { is_same = option_beq; decides = option_beq_iff }

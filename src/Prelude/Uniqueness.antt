-- ===== src/Prelude/Uniqueness.antt =====
-- Lists without repetition, as they grow at their end.
use mathlib.Core.Path.{◌≡◌, refl}
use mathlib.Core.Bool.{Bool, false, ◌&&◌, ◌||◌}
use mathlib.Core.List.{List, [], ◌∷◌, ◌++◌, map}
use native.Mathlib.Omega.{arith}
use safecommit_ai.Prelude.Lists.{every, some_of}
use safecommit_ai.Prelude.Equality.{Eq, ◌==◌, includes, Unique}

module _ {ℓ} {A : Type ℓ} ⦃e : Eq A⦄ where
  pub includes-append :
      (xs ys : List A) (y : A) → includes (xs ++ ys) y ≡ (includes xs y || includes ys y)
  includes-append [] ys y = refl
  includes-append (x ∷ xs) ys y = ground (arith, includes-append xs ys y)

  -- `some_of` tests the new element from the other side.
  pub Unique-append_one :
      (xs : List A) (x : A) → Unique xs → some_of (λ y. y == x) xs ≡ false → Unique (xs ++ x ∷ [])
  Unique-append_one [] x u h = (refl, tt)
  Unique-append_one (y ∷ xs) x u h =
      (ground (arith, includes-append xs (x ∷ []) y), Unique-append_one xs x u.1 (ground arith))

  pub some_of-map {κ} :
      {B : Type κ} (f : B → A) (x : A) (bs : List B)
      → some_of (λ b. f b == x) bs ≡ some_of (λ y. y == x) (map f bs)
  some_of-map f x [] = refl
  some_of-map f x (b ∷ bs) = ground (arith, some_of-map f x bs)

  pub ==-sym : (a b : A) → (a == b) ≡ (b == a)
  ==-sym a b = ground (arith, e.decides a b, e.decides b a)

  pub includes-some_of : (xs : List A) (x : A) → includes xs x ≡ some_of (λ y. y == x) xs
  includes-some_of [] x = refl
  includes-some_of (y ∷ xs) x = ground (arith, includes-some_of xs x, ==-sym x y)

pub every-append {ℓ} :
    {A : Type ℓ} (p : A → Bool) (xs ys : List A) → every p (xs ++ ys) ≡ (every p xs && every p ys)
every-append p [] ys = refl
every-append p (x ∷ xs) ys = ground (arith, every-append p xs ys)

-- ===== src/Prelude/Throw.antt =====
-- A call that may throw: its value, or what it throws.
use mathlib.Core.Path.{◌≡◌, refl, subst}
use mathlib.Core.Bool.{Bool, true, false}

pub data Result {ℓ} (E A : Type ℓ) : Type ℓ where
  ok : A → Result E A
  err : E → Result E A

infixl 5 ◌>>=◌ ◌>>◌
abbrev pub ◌>>=◌ {ℓ} : {E A B : Type ℓ} → Result E A → (A → Result E B) → Result E B
ok a >>= f = f a
err e >>= f = err e

abbrev pub ◌>>◌ : {E B : Type 0} → Result E (Unit {0}) → Result E B → Result E B
m >> k = m >>= λ _. k

-- if (refused) throw e
abbrev pub throw_if {ℓ} : {E A : Type ℓ} → Bool → E → Result E A → Result E A
throw_if true e k = err e
throw_if false e k = k

-- A sequence that returns has first computed a value, and the rest returns from that value.
pub >>=-eq-ok {ℓ} :
    {E A B : Type ℓ} (first : Result E A) (rest : A → Result E B) {out : B}
    → (first >>= rest) ≡ ok out
    → (mid : A) × (rest mid ≡ ok out) × (first ≡ ok mid)
>>=-eq-ok (err thrown) rest h = cc
>>=-eq-ok (ok mid) rest h = (mid, h, refl)

-- A call that returns has not thrown.
pub throw_if-eq-ok {ℓ} :
    {E A : Type ℓ} (b : Bool) (e : E) (k : Result E A) {a : A}
    → throw_if b e k ≡ ok a
    → (b ≡ false) × (k ≡ ok a)
throw_if-eq-ok false e k h = (refl, h)
throw_if-eq-ok true e k h = cc

pub ok_injective {ℓ} : {E A : Type ℓ} {a b : A} → ◌≡◌ {A = Result E A} (ok a) (ok b) → a ≡ b
ok_injective h = cc

-- What holds of the value that a call computes holds of the value that it returns.
pub returns_ok {ℓ κ} :
    {E A : Type ℓ} (P : A → Type κ) {a t : A} → P a → ◌≡◌ {A = Result E A} (ok a) (ok t) → P t
returns_ok P p h = subst P (ok_injective h) p

pub returns_unless {ℓ κ} :
    {E A : Type ℓ} (P : A → Type κ) (b : Bool) (e : E) {a t : A}
    → (b ≡ false → P a)
    → throw_if b e (ok a) ≡ ok t
    → P t
returns_unless P false e p h = returns_ok P (p refl) h
returns_unless P true e p h = cc

-- ===== src/Domain/Selector/Order.antt =====
-- Comparators that order, and the comparator of the ranking (packages/domain/src/selector.ts).
use safecommit_ai.Domain.Selector.{Sign, equal, is_positive, negative, positive, then_by}
use safecommit_ai.Prelude.{
  Bool, ap, ap₂, false, inl, inr, not, not-true, refl, sym, true, ◌∙◌, ◌≡◌, ◌⊎◌,
}

abbrev pub flip : Sign → Sign
flip negative = positive
flip equal = equal
flip positive = negative

-- What is documented of a comparator: its sign turns with its arguments, and it is transitive.
pub record Orders {ℓ} {A : Type ℓ} (compare_of : A → A → Sign) (Q : A → Type 0) : Type ℓ where
  pub flips : (x y : A) → Q x → Q y → compare_of y x ≡ flip (compare_of x y)
  pub less_then :
      (x y z : A)
      → Q x
      → Q y
      → Q z
      → compare_of x y ≡ negative
      → is_positive (compare_of y z) ≡ false
      → compare_of x z ≡ negative
  pub equal_then :
      (x y z : A) → Q x → Q y → Q z → compare_of x y ≡ equal → compare_of x z ≡ compare_of y z

abbrev pub not_after : Sign → Bool
not_after sign = not (is_positive sign)

module _ {ℓ} {A : Type ℓ} (c : A → A → Sign) (Q : A → Type 0) (o : Orders c Q) where
  total_sign : (s t : Sign) → t ≡ flip s → not_after s ≡ false → not_after t ≡ true
  total_sign negative t e h = cc
  total_sign equal t e h = cc
  total_sign positive t e h = ap not_after e

  pub orders-total : (x y : A) → Q x → Q y → not_after (c x y) ≡ false → not_after (c y x) ≡ true
  orders-total x y qx qy = total_sign (c x y) (c y x) (o.flips x y qx qy)

  transitive_at :
      (x y z : A)
      → Q x
      → Q y
      → Q z
      → (s : Sign) → c x y ≡ s
      → not_after s ≡ true
      → not_after (c y z) ≡ true
      → not_after (c x z) ≡ true
  transitive_at x y z qx qy qz negative e h k =
      ap not_after (o.less_then x y z qx qy qz e (not-true _ k))
  transitive_at x y z qx qy qz equal e h k = ap not_after (o.equal_then x y z qx qy qz e) ∙ k
  transitive_at x y z qx qy qz positive e h k = cc

  pub orders-transitive :
      (x y z : A)
      → Q x
      → Q y
      → Q z
      → not_after (c x y) ≡ true
      → not_after (c y z) ≡ true
      → not_after (c x z) ≡ true
  orders-transitive x y z qx qy qz h k = transitive_at x y z qx qy qz (c x y) refl h k

-- A comparator of a part.
pub orders-of {ℓ κ} :
    {A : Type ℓ} {B : Type κ} (f : A → B) {c : B → B → Sign} {Q : B → Type 0}
    → Orders c Q
    → Orders (λ x y. c (f x) (f y)) (λ x. Q (f x))
orders-of f o = record {
  flips = λ x y. o.flips (f x) (f y);
  less_then = λ x y z. o.less_then (f x) (f y) (f z);
  equal_then = λ x y z. o.equal_then (f x) (f y) (f z);
}

-- A comparator with its arguments exchanged.
module _ {ℓ} {A : Type ℓ} {c : A → A → Sign} {Q : A → Type 0} (o : Orders c Q) where
  less_reversed :
      (x y z : A)
      → Q x
      → Q y
      → Q z
      → c y x ≡ negative
      → (s : Sign) → c z y ≡ s
      → is_positive s ≡ false
      → c z x ≡ negative
  less_reversed x y z qx qy qz h negative e k = o.less_then z y x qz qy qx e (ap is_positive h)
  less_reversed x y z qx qy qz h equal e k = o.equal_then z y x qz qy qx e ∙ h
  less_reversed x y z qx qy qz h positive e k = cc

  pub orders-reversed : Orders (λ x y. c y x) Q
  orders-reversed = record {
    flips = λ x y qx qy. o.flips y x qy qx;
    less_then = λ x y z qx qy qz h k. less_reversed x y z qx qy qz h (c z y) refl k;
    equal_then = λ x y z qx qy qz h.
        o.flips x z qx qz
        ∙ (ap flip (sym (o.equal_then y x z qy qx qz h)) ∙ sym (o.flips y z qy qz));
  }

-- A comparator orders on every smaller set.
pub weaken {ℓ} :
    {A : Type ℓ} {c : A → A → Sign} {Q : A → Type 0} → Orders c (λ _. Unit {0}) → Orders c Q
weaken o = record {
  flips = λ x y _ _. o.flips x y tt tt;
  less_then = λ x y z _ _ _. o.less_then x y z tt tt tt;
  equal_then = λ x y z _ _ _. o.equal_then x y z tt tt tt;
}

pub first_sign : (s u : Sign) → is_positive (then_by s u) ≡ false → is_positive s ≡ false
first_sign negative u h = refl
first_sign equal u h = refl
first_sign positive u h = h

-- The second comparator decides where the first finds no difference.
module _ {ℓ} {A : Type ℓ} {c d : A → A → Sign} {Q : A → Type 0} (o : Orders c Q)
    (p : Orders d Q) where
  abbrev both : A → A → Sign
  both x y = then_by (c x y) (d x y)

  flips_both : (s t u v : Sign) → t ≡ flip s → v ≡ flip u → then_by t v ≡ flip (then_by s u)
  flips_both negative t u v e f = ap (λ w. then_by w v) e
  flips_both equal t u v e f = ap (λ w. then_by w v) e ∙ f
  flips_both positive t u v e f = ap (λ w. then_by w v) e

  split_sign :
      (s u : Sign)
      → is_positive (then_by s u) ≡ false
      → (s ≡ negative) ⊎ ((s ≡ equal) × (is_positive u ≡ false))
  split_sign negative u h = inl refl
  split_sign equal u h = inr (refl, h)
  split_sign positive u h = cc

  equal_signs : (s u : Sign) → then_by s u ≡ equal → (s ≡ equal) × (u ≡ equal)
  equal_signs negative u h = cc
  equal_signs equal u h = (refl, h)
  equal_signs positive u h = cc

  less_both :
      (x y z : A)
      → Q x
      → Q y
      → Q z
      → both x y ≡ negative
      → is_positive (both y z) ≡ false
      → both x z ≡ negative
  less_both x y z qx qy qz h k = elim (split_sign (c x y) (d x y) (ap is_positive h)) [
    | inl e ↦
        ap (λ w. then_by w (d x z)) (o.less_then x y z qx qy qz e (first_sign (c y z) (d y z) k))
    | inr (e, f) ↦ elim (split_sign (c y z) (d y z) k) [
      | inl g ↦ ap (λ w. then_by w (d x z)) (o.equal_then x y z qx qy qz e ∙ g)
      | inr (g, m) ↦
          ap (λ w. then_by w (d x z)) (o.equal_then x y z qx qy qz e ∙ g)
          ∙ p.less_then x y z qx qy qz (ap (λ w. then_by w (d x y)) (sym e) ∙ h) m
    ]
  ]

  pub orders-both : Orders both Q
  orders-both = record {
    flips = λ x y qx qy.
        flips_both (c x y) (c y x) (d x y) (d y x) (o.flips x y qx qy) (p.flips x y qx qy);
    less_then = less_both;
    equal_then = λ x y z qx qy qz h.
        (let (e, f) = equal_signs (c x y) (d x y) h in
          ap₂ then_by (o.equal_then x y z qx qy qz e) (p.equal_then x y z qx qy qz f));
  }

-- ===== src/Domain/Selector/Laws.antt =====
-- What the ranking of packages/domain/src/selector.ts takes from the platform, and its first comparison.
use safecommit_ai.Domain.Selector.{
  Platform, ScorerValues, Sign, assert_scores, entries, equal, is_positive, negative, positive,
  weighted_sum,
}
use safecommit_ai.Domain.Selector.Order.{Orders, flip}
use safecommit_ai.Prelude.{Bool, false, ok, refl, true, ◌↔◌, ◌≡◌}

-- The eligible candidates come first.
unfoldable pub compare_eligible : Bool → Bool → Sign
compare_eligible true true = equal
compare_eligible true false = negative
compare_eligible false true = positive
compare_eligible false false = equal

pub eligible-Orders : Orders compare_eligible (λ _. Unit {0})
unfolding compare_eligible
eligible-Orders = record { flips = turns; less_then = less_first; equal_then = same_first }
  where
    turns : (x y : Bool) → Unit {0} → Unit {0} → compare_eligible y x ≡ flip (compare_eligible x y)
    turns true true _ _ = refl
    turns true false _ _ = refl
    turns false true _ _ = refl
    turns false false _ _ = refl

    less_first :
        (x y z : Bool)
        → Unit {0}
        → Unit {0}
        → Unit {0}
        → compare_eligible x y ≡ negative
        → is_positive (compare_eligible y z) ≡ false
        → compare_eligible x z ≡ negative
    less_first true true z _ _ _ h k = cc
    less_first true false true _ _ _ h k = cc
    less_first true false false _ _ _ h k = refl
    less_first false true z _ _ _ h k = cc
    less_first false false z _ _ _ h k = cc

    same_first :
        (x y z : Bool)
        → Unit {0}
        → Unit {0}
        → Unit {0}
        → compare_eligible x y ≡ equal
        → compare_eligible x z ≡ compare_eligible y z
    same_first true true z _ _ _ h = refl
    same_first true false z _ _ _ h = cc
    same_first false true z _ _ _ h = cc
    same_first false false z _ _ _ h = refl

-- What the theorems take from the platform: the finite numbers are ordered by the sign of their difference,
-- which is that of an equality exactly where `===` holds; the collation orders the texts; and the rounded
-- weighted sum of scores between 0 and 1 is finite.
pub record PlatformLaws (p : Platform) : Type 0 where
  pub numbers : Orders p.subtract_sign (λ x. p.is_finite x ≡ true)
  pub sameness :
      (x y : p.Number)
      → p.is_finite x ≡ true
      → p.is_finite y ≡ true
      → p.same x y ≡ true ↔ p.subtract_sign y x ≡ equal
  pub collation : Orders p.locale_compare (λ _. Unit {0})
  pub sum_finite :
      (v : ScorerValues p.Number)
      → assert_scores p (entries v) ≡ ok tt
      → p.is_finite (p.to_fixed_6 (weighted_sum p v)) ≡ true

-- ===== src/Domain/Selector/Ranking.antt =====
-- The ranking of packages/domain/src/selector.ts is a sorted permutation of the evaluated candidates.
use safecommit_ai.Domain.Selector.{
  CandidateRanking, Platform, Sign, compare_rankings, equal, is_positive, negative, positive,
  ranks_before, then_by,
}
use safecommit_ai.Domain.Selector.Laws.{PlatformLaws, compare_eligible, eligible-Orders}
use safecommit_ai.Domain.Selector.Order.{
  Orders, first_sign, flip, not_after, orders-both, orders-of, orders-reversed, orders-total,
  orders-transitive, weaken,
}
use safecommit_ai.Prelude.{
  All, Bool, List, ap, ap₂, bool_beq, bool_eq, false, if◌then◌else◌, nat_eq, not, not-true,
  option_eq, refl, subst, sym, text_eq, true, true≢false, ◌!=◌, ◌↔◌, ◌∙◌, ◌≡◌,
}
use safecommit_ai.Sorting.{IsSortedBy, sort_by, sort_by-IsSortedBy}

module _ (p : Platform) where
  abbrev pub Ranking : Type 0
  Ranking = CandidateRanking p.Number

  abbrev pub IsScored : Ranking → Type 0
  IsScored r = p.is_finite r.weighted_score ≡ true

  -- Equal scores leave the decision to the evidence, then to the identifier.
  abbrev pub compare_scores : Ranking → Ranking → Sign
  compare_scores l r = p.subtract_sign r.weighted_score l.weighted_score

  abbrev compare_tail : Ranking → Ranking → Sign
  compare_tail l r = then_by (compare_scores l r) (
      then_by (p.locale_compare l.evidence_digest r.evidence_digest)
        (p.locale_compare l.candidate_id r.candidate_id))

  abbrev compare_parts : Ranking → Ranking → Sign
  compare_parts l r = then_by (compare_eligible l.eligible r.eligible) (compare_tail l r)

  own_flip : (s : Sign) → s ≡ flip s → is_positive s ≡ false
  own_flip negative e = refl
  own_flip equal e = refl
  own_flip positive e = cc

  eligible_part :
      (a b : Bool) (second : Sign)
      → (if a != b then (if a then negative else positive) else second)
        ≡ then_by (compare_eligible a b) second
  unfolding compare_eligible bool_beq
  eligible_part true true second = refl
  eligible_part true false second = refl
  eligible_part false true second = refl
  eligible_part false false second = refl

  score_part :
      (b : Bool) (s second : Sign)
      → (b ≡ true) ↔ (s ≡ equal)
      → (if not b then s else second) ≡ then_by s second
  score_part true s second h = ap (λ t. then_by t second) (sym (h.0 refl))
  score_part false negative second h = refl
  score_part false equal second h = absurd (true≢false (sym (h.1 refl)))
  score_part false positive second h = refl

  module _ (laws : PlatformLaws p) where
    parts-Orders : Orders compare_parts IsScored
    parts-Orders = orders-both (weaken (orders-of (λ (r : Ranking). r.eligible) eligible-Orders)) (
        orders-both (orders-of (λ (r : Ranking). r.weighted_score) (orders-reversed laws.numbers)) (
          orders-both (weaken (orders-of (λ (r : Ranking). r.evidence_digest) laws.collation))
            (weaken (orders-of (λ (r : Ranking). r.candidate_id) laws.collation))))

    same_parts :
        (l r : Ranking) → IsScored l → IsScored r → compare_rankings p l r ≡ compare_parts l r
    unfolding compare_rankings
    same_parts l r ql qr =
        eligible_part l.eligible r.eligible _
        ∙ ap (then_by (compare_eligible l.eligible r.eligible)) (
            score_part (p.same l.weighted_score r.weighted_score) (compare_scores l r) _
              (laws.sameness l.weighted_score r.weighted_score ql qr))

    before_parts :
        (l r : Ranking)
        → IsScored l
        → IsScored r
        → ranks_before p l r ≡ not_after (compare_parts l r)
    unfolding ranks_before
    before_parts l r ql qr = ap not_after (same_parts l r ql qr)

    ranks_before-total :
        (l r : Ranking)
        → IsScored l
        → IsScored r
        → ranks_before p l r ≡ false
        → ranks_before p r l ≡ true
    ranks_before-total l r ql qr h =
        before_parts r l qr ql
        ∙ orders-total compare_parts IsScored parts-Orders l r ql qr
            (sym (before_parts l r ql qr) ∙ h)

    ranks_before-transitive :
        (l m r : Ranking)
        → IsScored l
        → IsScored m
        → IsScored r
        → ranks_before p l m ≡ true
        → ranks_before p m r ≡ true
        → ranks_before p l r ≡ true
    ranks_before-transitive l m r ql qm qr h k =
        before_parts l r ql qr
        ∙ orders-transitive compare_parts IsScored parts-Orders l m r ql qm qr
            (sym (before_parts l m ql qm) ∙ h) (sym (before_parts m r qm qr) ∙ k)

    pub sorted_ranking :
        (rs : List Ranking)
        → All IsScored rs
        → IsSortedBy (ranks_before p) (sort_by (ranks_before p) rs)
    sorted_ranking =
        sort_by-IsSortedBy (ranks_before p) IsScored ranks_before-total ranks_before-transitive

    -- Of two eligible candidates, the one that comes first has no smaller score.
    pub before-score :
        (l r : Ranking)
        → IsScored l
        → IsScored r
        → l.eligible ≡ true
        → r.eligible ≡ true
        → ranks_before p l r ≡ true
        → is_positive (compare_scores l r) ≡ false
    unfolding compare_eligible
    before-score l r ql qr el er h = first_sign (compare_scores l r) _ (
        subst (λ s. is_positive (then_by s (compare_tail l r)) ≡ false) (ap₂ compare_eligible el er)
          (not-true _ (sym (before_parts l r ql qr) ∙ h)))

    pub score_refl : (r : Ranking) → IsScored r → is_positive (compare_scores r r) ≡ false
    score_refl r q =
        own_flip (compare_scores r r) (laws.numbers.flips r.weighted_score r.weighted_score q q)

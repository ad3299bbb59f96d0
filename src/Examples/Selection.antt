-- ===== src/Examples/Selection.antt =====
-- A selection among candidates (packages/domain/src/selector.ts) on fixed-point numbers, in millionths, with texts
-- collated by their length.
use mathlib.Core.List.{Perm}
use safecommit_ai.Domain.Selector.{
  CandidateDecision, CandidateEvaluationInput, Platform, ScorerValues, SelectionMetadata, Sign,
  assert_score, assert_scores, compare_rankings, compute_weighted_score, decision_of, entries,
  equal, evaluate_eligibility, hard_gate_failures_of, is_out_of_range, is_positive, negative,
  positive, rank_candidates, rank_each, rank_one, ranks_before, select_candidate, weighted_sum,
  winner_of,
}
use safecommit_ai.Domain.Selector.Best.{Selects, select_candidate-Selects}
use safecommit_ai.Domain.Selector.Evaluation.{CanRank, Candidate, ranking_of}
use safecommit_ai.Domain.Selector.Laws.{PlatformLaws}
use safecommit_ai.Domain.Selector.Order.{Orders, flip, orders-of}
use safecommit_ai.Domain.Selector.Outcome.{
  Decides, IsNonempty, select_candidate-Decides, select_candidate-returns_iff,
}
use safecommit_ai.Prelude.{
  List, Text, [], ap, arith, bool_beq, bool_eq, false, if◌then◌else◌, length, ltb, map, nat_beq,
  nat_eq, ok, option_eq, refl, some, text_beq, text_eq, true, ℕ, ◌*◌, ◌+◌, ◌/◌, ◌<◌, ◌==◌, ◌↔◌, ◌∷◌,
  ◌≡◌,
}
use safecommit_ai.Sorting.{IsSortedBy, sort_by}
use safecommit_ai.Text.{codes}

fixed_point : Text → ℕ
fixed_point t =
    if t == codes "1"
    then 1000000
    else if t == codes "0.95"
    then 950000
    else if t == codes "0.3"
    then 300000
    else if t == codes "0.25"
    then 250000
    else if t == codes "0.2"
    then 200000
    else if t == codes "0.15"
    then 150000
    else if t == codes "0.1"
    then 100000
    else 0

sign_of : ℕ → ℕ → Sign
sign_of a b = if ltb a b then negative else if ltb b a then positive else equal

fixed : Platform
unfolding fixed_point sign_of
fixed = record {
  Number = ℕ;
  is_finite = λ _. true;
  less = ltb;
  same = nat_beq;
  literal = fixed_point;
  add = λ a b. a + b;
  multiply = λ a b. a * b / 1000000;
  to_fixed_6 = λ x. x;
  subtract_sign = sign_of;
  locale_compare = λ s t. sign_of (length s) (length t);
}

sign_of-less : (a b : ℕ) → sign_of a b ≡ negative → a < b
unfolding sign_of
sign_of-less a b h = ground arith

sign_of-flips : (a b : ℕ) → sign_of b a ≡ flip (sign_of a b)
unfolding sign_of
sign_of-flips a b = ground arith

sign_of-less_then :
    (a b c : ℕ)
    → sign_of a b ≡ negative
    → is_positive (sign_of b c) ≡ false
    → sign_of a c ≡ negative
unfolding sign_of
sign_of-less_then a b c h k = ground arith

sign_of-equal : (a b : ℕ) → sign_of a b ≡ equal → a ≡ b
unfolding sign_of
sign_of-equal a b h = ground arith

sign_of-Orders : (Q : ℕ → Type 0) → Orders sign_of Q
sign_of-Orders Q = record {
  flips = λ a b _ _. sign_of-flips a b;
  less_then = λ a b c _ _ _. sign_of-less_then a b c;
  equal_then = λ a b c _ _ _ h. ap (λ x. sign_of x c) (sign_of-equal a b h);
}

same_iff : (a b : ℕ) → (nat_beq a b ≡ true) ↔ (sign_of b a ≡ equal)
unfolding sign_of
same_iff a b = ground arith

fixed-laws : PlatformLaws fixed
unfolding fixed
fixed-laws = record {
  numbers = sign_of-Orders _;
  sameness = λ a b _ _. same_iff a b;
  collation = orders-of length (sign_of-Orders (λ _. Unit {0}));
  sum_finite = λ v h. refl;
}

scores : ℕ → ℕ → ScorerValues ℕ
scores unit_tests minimality = record {
  build_success = 1000000;
  unit_test_pass_rate = unit_tests;
  safety_invariant = 1000000;
  regression_protection = 1000000;
  patch_integrity = 1000000;
  patch_minimality = minimality;
  explanation_groundedness = 800000;
  reproducibility = 1000000;
}

candidate : Text → ℕ → ℕ → CandidateEvaluationInput ℕ
unfolding scores
candidate id unit_tests minimality = record {
  candidate_id = id;
  values = scores unit_tests minimality;
  evidence_digest = codes "d";
}

metadata : SelectionMetadata
metadata = record {
  id = codes "dec";
  session_id = codes "s";
  source = codes "live";
  source_version = codes "1";
  at = codes "t";
  selection_policy_version = codes "v1";
}

-- The first fails a gate, the third has the larger score.
three : List (Candidate fixed)
unfolding candidate fixed
three =
    candidate (codes "a") 900000 1000000
    ∷ candidate (codes "b") 1000000 500000
    ∷ candidate (codes "c") 1000000 700000
    ∷ []

decision : CandidateDecision fixed.Number
unfolding three metadata fixed
decision = decision_of fixed (sort_by (ranks_before fixed) (map (ranking_of fixed) three)) metadata

winner_test : decision.winner_candidate_id ≡ some (codes "c")
unfolding decision decision_of winner_of sort_by ranks_before compare_rankings ranking_of
    hard_gate_failures_of weighted_sum bool_beq text_beq
winner_test = refl

select_candidate-Decides_example :
    Perm decision.rankings (map (ranking_of fixed) three)
    × IsSortedBy (ranks_before fixed) decision.rankings
    × Decides fixed decision.winner_candidate_id decision.rankings
unfolding decision select_candidate rank_candidates rank_each rank_one evaluate_eligibility
    compute_weighted_score assert_scores assert_score is_out_of_range entries text_beq ranking_of
    three candidate scores fixed
select_candidate-Decides_example =
    select_candidate-Decides fixed fixed-laws three metadata decision refl

select_candidate-returns_iff_example :
    ((d : CandidateDecision fixed.Number) × (select_candidate fixed three metadata ≡ ok d))
    ↔ (IsNonempty three × CanRank fixed three)
unfolding fixed
select_candidate-returns_iff_example = select_candidate-returns_iff fixed three metadata

select_candidate-Selects_example : Selects fixed decision.winner_candidate_id three
unfolding decision select_candidate rank_candidates rank_each rank_one evaluate_eligibility
    compute_weighted_score assert_scores assert_score is_out_of_range entries text_beq ranking_of
    three candidate scores fixed
select_candidate-Selects_example =
    select_candidate-Selects fixed fixed-laws three metadata decision refl

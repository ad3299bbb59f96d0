-- ===== src/Domain/Selector.antt =====
-- packages/domain/src/selector.ts: the hard gates, the weighted score, the ranking of the candidates and the
-- selection. What JavaScript's numbers and collation do is a parameter.
pub mod Order
pub mod Laws
pub mod Ranking
pub mod Evaluation
pub mod Outcome
pub mod Best
use safecommit_ai.Prelude.{
  Bool, List, Option, Result, String, Text, [], bool_eq, false, find_first, if◌then◌else◌, includes,
  nat_eq, none, not, ok, option_eq, some, text_eq, throw_if, true, ◌!=◌, ◌++◌, ◌>>=◌, ◌>>◌, ◌||◌,
  ◌∷◌,
}
use safecommit_ai.Regex.{literal}
use safecommit_ai.Sorting.{sort_by}
use safecommit_ai.Text.{codes}

-- The sign of what a comparator returns.
pub data Sign : Type 0 where
  negative equal positive : Sign

-- IEEE 754 doubles, as far as the selector uses them, and `localeCompare`.
pub record Platform : Type 1 where
  pub Number : Type 0
  pub is_finite : Number → Bool
  pub less : Number → Number → Bool
  pub same : Number → Number → Bool
  -- The number that a decimal literal of the source denotes.
  pub literal : Text → Number
  pub add : Number → Number → Number
  pub multiply : Number → Number → Number
  -- Number(x.toFixed(6))
  pub to_fixed_6 : Number → Number
  -- The sign of `x - y`.
  pub subtract_sign : Number → Number → Sign
  pub locale_compare : Text → Text → Sign

pub record ScorerValues (A : Type 0) : Type 0 where
  pub build_success : A
  pub unit_test_pass_rate : A
  pub safety_invariant : A
  pub regression_protection : A
  pub patch_integrity : A
  pub patch_minimality : A
  pub explanation_groundedness : A
  pub reproducibility : A

pub data ScorerName : Type 0 where
  build_success unit_test_pass_rate safety_invariant regression_protection : ScorerName
  patch_integrity patch_minimality explanation_groundedness reproducibility : ScorerName

pub record CandidateEvaluationInput (A : Type 0) : Type 0 where
  pub candidate_id : Text
  pub values : ScorerValues A
  pub evidence_digest : Text

pub record CandidateRanking (A : Type 0) : Type 0 where
  pub candidate_id : Text
  pub eligible : Bool
  pub weighted_score : A
  pub hard_gate_failures : List Text
  pub evidence_digest : Text

pub record SelectionMetadata : Type 0 where
  pub id : Text
  pub session_id : Text
  pub source : Text
  pub source_version : Text
  pub at : Text
  pub selection_policy_version : Text

pub record CandidateDecision (A : Type 0) : Type 0 where
  pub id : Text
  pub session_id : Text
  pub created_at : Text
  pub updated_at : Text
  pub source : Text
  pub source_version : Text
  pub winner_candidate_id : Option Text
  pub rankings : List (CandidateRanking A)
  pub rationale : Text
  pub selection_policy_version : Text

pub data SelectionError : Type 0 where
  score_out_of_range : ScorerName → SelectionError
  duplicate_candidate_id : Text → SelectionError
  no_candidates : SelectionError

-- Object.entries(values)
unfoldable pub entries : {A : Type 0} → ScorerValues A → List (ScorerName × A)
entries v =
    (ScorerName.build_success, v.build_success)
    ∷ (ScorerName.unit_test_pass_rate, v.unit_test_pass_rate)
    ∷ (ScorerName.safety_invariant, v.safety_invariant)
    ∷ (ScorerName.regression_protection, v.regression_protection)
    ∷ (ScorerName.patch_integrity, v.patch_integrity)
    ∷ (ScorerName.patch_minimality, v.patch_minimality)
    ∷ (ScorerName.explanation_groundedness, v.explanation_groundedness)
    ∷ (ScorerName.reproducibility, v.reproducibility)
    ∷ []

-- if (test) failures.push(message)
abbrev push_if : Bool → Text → List Text → List Text
push_if true message rest = message ∷ rest
push_if false message rest = rest

-- A comparison that decides where another finds no difference.
abbrev pub then_by : Sign → Sign → Sign
then_by equal second = second
then_by sign second = sign

abbrev pub is_positive : Sign → Bool
is_positive positive = true
is_positive _ = false

module _ (p : Platform) where
  abbrev pub number : String → p.Number
  number t = p.literal (codes t)

  unfoldable pub is_out_of_range : p.Number → Bool
  is_out_of_range value =
      not (p.is_finite value) || p.less value (number "0") || p.less (number "1") value

  unfoldable pub assert_score : ScorerName → p.Number → Result SelectionError (Unit {0})
  unfolding is_out_of_range
  assert_score name value = throw_if (is_out_of_range value) (score_out_of_range name) (ok tt)

  unfoldable pub assert_scores : List (ScorerName × p.Number) → Result SelectionError (Unit {0})
  unfolding assert_score
  assert_scores [] = ok tt
  assert_scores ((name, value) ∷ es) = assert_score name value >> assert_scores es

  -- values.x !== 1
  abbrev is_not_one : p.Number → Bool
  is_not_one value = not (p.same value (number "1"))

  unfoldable pub hard_gate_failures_of : ScorerValues p.Number → List Text
  hard_gate_failures_of v =
      push_if (is_not_one v.build_success) (codes "BuildSuccess must equal 1") (
        push_if (is_not_one v.safety_invariant) (codes "SafetyInvariant hard gate failed") (
          push_if (is_not_one v.patch_integrity) (codes "PatchIntegrity hard gate failed") (
            push_if (p.less v.unit_test_pass_rate (number "0.95"))
              (codes "UnitTestPassRate is below 0.95") [])))

  unfoldable pub evaluate_eligibility : ScorerValues p.Number → Result SelectionError (List Text)
  unfolding assert_scores hard_gate_failures_of entries
  evaluate_eligibility v = assert_scores (entries v) >> ok (hard_gate_failures_of v)

  unfoldable pub weighted_sum : ScorerValues p.Number → p.Number
  weighted_sum v =
      p.add
        (p.add
          (p.add
            (p.add (p.multiply (number "0.3") v.regression_protection)
              (p.multiply (number "0.25") v.unit_test_pass_rate))
            (p.multiply (number "0.2") v.patch_minimality))
          (p.multiply (number "0.15") v.explanation_groundedness))
        (p.multiply (number "0.1") v.reproducibility)

  unfoldable pub compute_weighted_score : ScorerValues p.Number → Result SelectionError p.Number
  unfolding assert_scores weighted_sum entries
  compute_weighted_score v = assert_scores (entries v) >> ok (p.to_fixed_6 (weighted_sum v))

  -- failures.length === 0
  abbrev pub no_failure : List Text → Bool
  no_failure [] = true
  no_failure (f ∷ fs) = false

  unfoldable pub rank_one :
      List Text
      → CandidateEvaluationInput p.Number
      → Result SelectionError (CandidateRanking p.Number)
  unfolding evaluate_eligibility compute_weighted_score
  rank_one seen c =
      throw_if (includes seen c.candidate_id) (duplicate_candidate_id c.candidate_id) (do
        failures ← evaluate_eligibility c.values
        weighted ← compute_weighted_score c.values
        ok (record {
          candidate_id = c.candidate_id;
          eligible = no_failure failures;
          weighted_score = weighted;
          hard_gate_failures = failures;
          evidence_digest = c.evidence_digest;
        }))

  -- candidates.map(...), with the identifiers that have been seen
  unfoldable pub rank_each :
      List Text
      → List (CandidateEvaluationInput p.Number)
      → Result SelectionError (List (CandidateRanking p.Number))
  unfolding rank_one
  rank_each seen [] = ok []
  rank_each seen (c ∷ cs) = do
    r ← rank_one seen c
    rs ← rank_each (c.candidate_id ∷ seen) cs
    ok (r ∷ rs)

  -- The comparator of the ranking.
  unfoldable pub compare_rankings : CandidateRanking p.Number → CandidateRanking p.Number → Sign
  compare_rankings left right =
      if left.eligible != right.eligible
      then (if left.eligible then negative else positive)
      else if not (p.same left.weighted_score right.weighted_score)
      then p.subtract_sign right.weighted_score left.weighted_score
      else then_by (p.locale_compare left.evidence_digest right.evidence_digest)
          (p.locale_compare left.candidate_id right.candidate_id)

  -- Where the comparator is not positive, the sort leaves the two in their order.
  unfoldable pub ranks_before : CandidateRanking p.Number → CandidateRanking p.Number → Bool
  unfolding compare_rankings
  ranks_before left right = not (is_positive (compare_rankings left right))

  unfoldable pub rank_candidates :
      List (CandidateEvaluationInput p.Number)
      → Result SelectionError (List (CandidateRanking p.Number))
  unfolding rank_each sort_by ranks_before
  rank_candidates candidates = do
    rankings ← rank_each [] candidates
    ok (sort_by ranks_before rankings)

  unfoldable pub winner_of : List (CandidateRanking p.Number) → Option (CandidateRanking p.Number)
  winner_of rankings = find_first (λ r. r.eligible) rankings

  abbrev pub id_of : Option (CandidateRanking p.Number) → Option Text
  id_of none = none
  id_of (some w) = some w.candidate_id

  abbrev rationale_of : Option (CandidateRanking p.Number) → Text
  rationale_of none = codes "No candidate passed every non-negotiable safety gate."
  rationale_of (some w) =
      w.candidate_id
      ++ codes " is the highest-scoring candidate that passed every non-negotiable gate."

  abbrev is_nil : List (CandidateEvaluationInput p.Number) → Bool
  is_nil [] = true
  is_nil (c ∷ cs) = false

  -- The decision on a ranking.
  unfoldable pub decision_of :
      List (CandidateRanking p.Number) → SelectionMetadata → CandidateDecision p.Number
  decision_of rankings metadata = record {
    id = metadata.id;
    session_id = metadata.session_id;
    created_at = metadata.at;
    updated_at = metadata.at;
    source = metadata.source;
    source_version = metadata.source_version;
    winner_candidate_id = id_of (winner_of rankings);
    rankings = rankings;
    rationale = rationale_of (winner_of rankings);
    selection_policy_version = metadata.selection_policy_version;
  }

  unfoldable pub select_candidate :
      List (CandidateEvaluationInput p.Number)
      → SelectionMetadata
      → Result SelectionError (CandidateDecision p.Number)
  unfolding rank_candidates winner_of decision_of
  select_candidate candidates metadata =
      throw_if (is_nil candidates) no_candidates
        (do rankings ← rank_candidates candidates; ok (decision_of rankings metadata))

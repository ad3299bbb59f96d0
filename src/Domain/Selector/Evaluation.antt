-- ===== src/Domain/Selector/Evaluation.antt =====
-- When the candidates of packages/domain/src/selector.ts can be ranked, and what is then ranked.
use safecommit_ai.Domain.Selector.{
  CandidateEvaluationInput, CandidateRanking, Platform, ScorerName, assert_score, assert_scores,
  compute_weighted_score, entries, evaluate_eligibility, hard_gate_failures_of, is_out_of_range,
  no_failure, rank_each, rank_one, weighted_sum,
}
use safecommit_ai.Prelude.{
  ==-sym, >>=-eq-ok, All, All-map, List, Text, Unique, [], arith, bool_eq, false, includes, map,
  nat_eq, ok, option_eq, refl, text_eq, throw_if-eq-ok, ||-false, ◌==◌, ◌∷◌, ◌≡◌,
}

module _ (p : Platform) where
  abbrev pub Candidate : Type 0
  Candidate = CandidateEvaluationInput p.Number

  -- Every score of the candidate is a finite number between 0 and 1.
  abbrev pub HasScores : Candidate → Type 0
  HasScores c = All (λ e. is_out_of_range p e.1 ≡ false) (entries c.values)

  -- What becomes of a candidate that can be ranked.
  unfoldable pub ranking_of : Candidate → CandidateRanking p.Number
  ranking_of c = record {
    candidate_id = c.candidate_id;
    eligible = no_failure p (hard_gate_failures_of p c.values);
    weighted_score = p.to_fixed_6 (weighted_sum p c.values);
    hard_gate_failures = hard_gate_failures_of p c.values;
    evidence_digest = c.evidence_digest;
  }

  pub in_range-returns :
      (es : List (ScorerName × p.Number))
      → All (λ e. is_out_of_range p e.1 ≡ false) es
      → assert_scores p es ≡ ok tt
  unfolding assert_scores
  in_range-returns [] h = refl
  in_range-returns (e ∷ es) h = rw h.0 (in_range-returns es h.1)

  returns-in_range :
      (es : List (ScorerName × p.Number))
      → assert_scores p es ≡ ok tt
      → All (λ e. is_out_of_range p e.1 ≡ false) es
  unfolding assert_scores
  returns-in_range [] h = tt
  returns-in_range (e ∷ es) h =
      let (_, rest, first) = >>=-eq-ok (assert_score p e.0 e.1) (λ _. assert_scores p es) h in
      ((throw_if-eq-ok _ _ _ first).0, returns-in_range es rest)

  -- Each candidate's identifier is new.
  IsFresh : List Text → List Text → Type 0
  IsFresh seen [] = Unit
  IsFresh seen (i ∷ is) = (includes seen i ≡ false) × IsFresh (i ∷ seen) is

  rank_one-returns :
      (seen : List Text) (c : Candidate)
      → includes seen c.candidate_id ≡ false
      → HasScores c
      → rank_one p seen c ≡ ok (ranking_of c)
  unfolding rank_one evaluate_eligibility compute_weighted_score ranking_of
  rank_one-returns seen c fresh scored = rw (fresh, in_range-returns (entries c.values) scored) refl

  returns-rank_one :
      (seen : List Text) (c : Candidate) {r : CandidateRanking p.Number}
      → rank_one p seen c ≡ ok r
      → (includes seen c.candidate_id ≡ false) × HasScores c
  unfolding rank_one evaluate_eligibility
  returns-rank_one seen c h =
      let (fresh, rest) = throw_if-eq-ok (includes seen c.candidate_id) _ _ h in
      let (_, _, first) = >>=-eq-ok (evaluate_eligibility p c.values) _ rest in
      let (_, _, asserted) = >>=-eq-ok (assert_scores p (entries c.values)) _ first in
      (fresh, returns-in_range (entries c.values) asserted)

  rank_each-returns :
      (seen : List Text) (cs : List Candidate)
      → IsFresh seen (map (λ c. c.candidate_id) cs)
      → All HasScores cs
      → rank_each p seen cs ≡ ok (map ranking_of cs)
  unfolding rank_each IsFresh
  rank_each-returns seen [] fresh scored = refl
  rank_each-returns seen (c ∷ cs) fresh scored =
      rw (rank_one-returns seen c fresh.0 scored.0)
        (rw (rank_each-returns (c.candidate_id ∷ seen) cs fresh.1 scored.1) refl)

  returns-rank_each :
      (seen : List Text) (cs : List Candidate) {rs : List (CandidateRanking p.Number)}
      → rank_each p seen cs ≡ ok rs
      → IsFresh seen (map (λ c. c.candidate_id) cs) × All HasScores cs
  unfolding rank_each IsFresh
  returns-rank_each seen [] h = (tt, tt)
  returns-rank_each seen (c ∷ cs) h =
      let (_, rest, first) = >>=-eq-ok (rank_one p seen c) _ h in
      let (_, _, others) = >>=-eq-ok (rank_each p (c.candidate_id ∷ seen) cs) _ rest in
      let (fresh, scored) = returns-rank_one seen c first in
      let (all_fresh, all_scored) = returns-rank_each (c.candidate_id ∷ seen) cs others in
      ((fresh, all_fresh), (scored, all_scored))

  still_new :
      (i j : Text) (seen : List Text) → includes (i ∷ seen) j ≡ false → includes seen j ≡ false
  still_new i j seen h = (||-false (j == i) _ h).1

  outside :
      (i : Text) (seen is : List Text)
      → All (λ j. includes (i ∷ seen) j ≡ false) is
      → includes is i ≡ false
  outside i seen [] h = refl
  outside i seen (j ∷ is) h = ground (arith, h.0, ==-sym i j, outside i seen is h.1)

  both_new :
      (i : Text) (seen is : List Text)
      → includes is i ≡ false
      → All (λ j. includes seen j ≡ false) is
      → All (λ j. includes (i ∷ seen) j ≡ false) is
  both_new i seen [] h new = tt
  both_new i seen (j ∷ is) h new =
      (ground (arith, new.0, ==-sym i j), both_new i seen is (||-false (i == j) _ h).1 new.1)

  -- The identifiers that are new to a list and to each other.
  IsFresh-Unique :
      (seen is : List Text) → IsFresh seen is → Unique is × All (λ i. includes seen i ≡ false) is
  unfolding IsFresh
  IsFresh-Unique seen [] h = (tt, tt)
  IsFresh-Unique seen (i ∷ is) h =
      let (unique, new) = IsFresh-Unique (i ∷ seen) is h.1 in
      ((outside i seen is new, unique), (h.0, All-map (λ j. still_new i j seen) is new))

  Unique-IsFresh :
      (seen is : List Text) → Unique is → All (λ i. includes seen i ≡ false) is → IsFresh seen is
  unfolding IsFresh
  Unique-IsFresh seen [] u new = tt
  Unique-IsFresh seen (i ∷ is) u new =
      (new.0, Unique-IsFresh (i ∷ seen) is u.1 (both_new i seen is u.0 new.1))

  -- The candidates of a selection.
  pub record CanRank (cs : List Candidate) : Type 0 where
    pub unique : Unique (map (λ c. c.candidate_id) cs)
    pub scored : All HasScores cs

  none_seen : (is : List Text) → All (λ i. includes [] i ≡ false) is
  none_seen [] = tt
  none_seen (i ∷ is) = (refl, none_seen is)

  pub CanRank-rank_each :
      (cs : List Candidate) → CanRank cs → rank_each p [] cs ≡ ok (map ranking_of cs)
  CanRank-rank_each cs can =
      rank_each-returns [] cs
        (Unique-IsFresh [] (map (λ c. c.candidate_id) cs) can.unique (none_seen _)) can.scored

  pub rank_each-CanRank :
      (cs : List Candidate) {rs : List (CandidateRanking p.Number)}
      → rank_each p [] cs ≡ ok rs
      → CanRank cs
  rank_each-CanRank cs h =
      let (fresh, scored) = returns-rank_each [] cs h in
      record {
        unique = (IsFresh-Unique [] (map (λ c. c.candidate_id) cs) fresh).0;
        scored = scored;
      }

-- ===== src/Domain/Selector/Best.antt =====
-- The winner of `selectCandidate` (packages/domain/src/selector.ts) among the candidates that are evaluated.
use safecommit_ai.Domain.Selector.{
  CandidateDecision, CandidateRanking, Platform, ScorerValues, SelectionMetadata,
  hard_gate_failures_of, is_positive, number, ranks_before, select_candidate, weighted_sum,
}
use safecommit_ai.Domain.Selector.Evaluation.{Candidate, ranking_of}
use safecommit_ai.Domain.Selector.Laws.{PlatformLaws}
use safecommit_ai.Domain.Selector.Outcome.{Decides, ranked_of, select_candidate-ranked_of}
use safecommit_ai.Domain.Selector.Ranking.{IsScored, before-score, compare_scores, score_refl}
use safecommit_ai.Prelude.{
  All, All-append, All-map, Any, List, Option, Text, [], arith, false, inl, inr, map, none, ok,
  refl, some, some_eq, subst, sym, true, true≢false, ◌++◌, ◌∙◌, ◌∷◌, ◌≡◌,
}
use safecommit_ai.Sorting.{All-sort_by, All-sorted, Any-sorted}

module _ (p : Platform) where
  -- The hard gates.
  pub record PassesGates (v : ScorerValues p.Number) : Type 0 where
    pub build : p.same v.build_success (number p "1") ≡ true
    pub safety : p.same v.safety_invariant (number p "1") ≡ true
    pub integrity : p.same v.patch_integrity (number p "1") ≡ true
    pub tests : p.less v.unit_test_pass_rate (number p "0.95") ≡ false

  abbrev pub score_of : Candidate p → p.Number
  score_of c = p.to_fixed_6 (weighted_sum p c.values)

  -- The candidate passes the hard gates, and no candidate that passes them has a larger score.
  abbrev pub IsBest : List (Candidate p) → Candidate p → Type 0
  IsBest cs c =
      PassesGates c.values
      × All
          (λ o.
            PassesGates o.values → is_positive (p.subtract_sign (score_of o) (score_of c)) ≡ false)
          cs

  gates-passed : (c : Candidate p) → (ranking_of p c).eligible ≡ true → PassesGates c.values
  unfolding ranking_of hard_gate_failures_of
  gates-passed c h = record {
    build = ground arith;
    safety = ground arith;
    integrity = ground arith;
    tests = ground arith;
  }

  passed-eligible : (c : Candidate p) → PassesGates c.values → (ranking_of p c).eligible ≡ true
  unfolding ranking_of hard_gate_failures_of
  passed-eligible c g = ground (arith, g.build, g.safety, g.integrity, g.tests)

  -- What a decision's winner says of the candidates.
  abbrev pub Selects : Option Text → List (Candidate p) → Type 0
  Selects none cs = All (λ c. ¬ PassesGates c.values) cs
  Selects (some i) cs = Any (λ c. (c.candidate_id ≡ i) × IsBest cs c) cs

  -- No eligible ranking has a larger score than `w`.
  abbrev IsBelow : CandidateRanking p.Number → CandidateRanking p.Number → Type 0
  IsBelow w r = r.eligible ≡ true → is_positive (compare_scores p w r) ≡ false

  -- What is known of the winner's ranking.
  abbrev Tops : Text → List (CandidateRanking p.Number) → CandidateRanking p.Number → Type 0
  Tops i rs w = (w.candidate_id ≡ i) × (w.eligible ≡ true) × All (IsBelow w) rs

  Any-middle :
      (P : CandidateRanking p.Number → Type 0) (xs : List (CandidateRanking p.Number))
      (w : CandidateRanking p.Number) (ys : List (CandidateRanking p.Number))
      → P w
      → Any P (xs ++ w ∷ ys)
  Any-middle P [] w ys h = inl h
  Any-middle P (x ∷ xs) w ys h = inr (Any-middle P xs w ys h)

  All-middle :
      (P : CandidateRanking p.Number → Type 0) (xs : List (CandidateRanking p.Number))
      (w : CandidateRanking p.Number) (ys : List (CandidateRanking p.Number))
      → All P (xs ++ w ∷ ys)
      → P w × All P ys
  All-middle P [] w ys h = h
  All-middle P (x ∷ xs) w ys h = All-middle P xs w ys h.1

  module _ (laws : PlatformLaws p) where
    behind-IsBelow :
        (w : CandidateRanking p.Number) (rs : List (CandidateRanking p.Number))
        → IsScored p w
        → w.eligible ≡ true
        → All (IsScored p) rs
        → All (λ r. ranks_before p w r ≡ true) rs
        → All (IsBelow w) rs
    behind-IsBelow w [] q e qs hs = tt
    behind-IsBelow w (r ∷ rs) q e qs hs =
        (λ el. before-score p laws w r q qs.0 e el hs.0, behind-IsBelow w rs q e qs.1 hs.1)

    winner-Tops :
        (i : Text) (rs : List (CandidateRanking p.Number))
        → All (IsScored p) rs
        → Decides p (some i) rs
        → Any (Tops i rs) rs
    winner-Tops i rs qs (w, named, won) =
        let both =
          All-middle (IsScored p) won.before w won.later (subst (All (IsScored p)) won.ranked qs) in
        let below =
          All-append (IsBelow w) won.before (w ∷ won.later)
            (All-map (λ r no el. absurd (true≢false (sym el ∙ no))) won.before won.ineligible)
            (
              λ el. score_refl p laws w both.0,
              behind-IsBelow w won.later both.0 won.is_eligible both.1 won.best,
            ) in
        subst (Any (Tops i rs)) (sym won.ranked) (
          Any-middle (Tops i rs) won.before w won.later
            (named, won.is_eligible, subst (All (IsBelow w)) (sym won.ranked) below))

  All-of_map :
      (P : CandidateRanking p.Number → Type 0) (cs : List (Candidate p))
      → All P (map (ranking_of p) cs)
      → All (λ c. P (ranking_of p c)) cs
  All-of_map P [] h = tt
  All-of_map P (c ∷ cs) h = (h.0, All-of_map P cs h.1)

  Any-of_map :
      (P : CandidateRanking p.Number → Type 0) (Q : Candidate p → Type 0)
      → ((c : Candidate p) → P (ranking_of p c) → Q c)
      → (cs : List (Candidate p)) → Any P (map (ranking_of p) cs)
      → Any Q cs
  Any-of_map P Q f (c ∷ cs) (inl h) = inl (f c h)
  Any-of_map P Q f (c ∷ cs) (inr h) = inr (Any-of_map P Q f cs h)
  Any-of_map P Q f [] h = absurd h

  below_candidates :
      (cs : List (Candidate p)) (c : Candidate p)
      → All (IsBelow (ranking_of p c)) (ranked_of p cs)
      → All
          (λ o.
            PassesGates o.values → is_positive (p.subtract_sign (score_of o) (score_of c)) ≡ false)
          cs
  unfolding ranking_of
  below_candidates cs c below =
      All-map (λ o h g. h (passed-eligible o g)) cs
        (All-of_map (IsBelow (ranking_of p c)) cs
          (All-sorted (ranks_before p) (IsBelow (ranking_of p c)) (map (ranking_of p) cs) below))

  ranked_of-Selects :
      (cs : List (Candidate p)) (o : Option Text)
      → (o ≡ none → All (λ r. r.eligible ≡ false) (ranked_of p cs))
      → ((i : Text) → o ≡ some i → Any (Tops i (ranked_of p cs)) (ranked_of p cs))
      → Selects o cs
  unfolding ranking_of
  ranked_of-Selects cs none no_one tops =
      All-map (λ c h g. true≢false (sym (passed-eligible c g) ∙ h)) cs
        (All-of_map (λ r. r.eligible ≡ false) cs
          (All-sorted (ranks_before p) (λ r. r.eligible ≡ false) (map (ranking_of p) cs)
            (no_one refl)))
  ranked_of-Selects cs (some i) no_one tops =
      Any-of_map (Tops i (ranked_of p cs)) (λ c. (c.candidate_id ≡ i) × IsBest cs c)
        (λ c top. (top.0, (gates-passed c top.1, below_candidates cs c top.2))) cs
        (Any-sorted (ranks_before p) (Tops i (ranked_of p cs)) (map (ranking_of p) cs)
          (tops i refl))

  module _ (laws : PlatformLaws p) where
    decided-Selects :
        (cs : List (Candidate p)) (o : Option Text)
        → All (IsScored p) (ranked_of p cs)
        → Decides p o (ranked_of p cs)
        → Selects o cs
    decided-Selects cs none qs h = ranked_of-Selects cs none (λ _. h) (λ i e. cc)
    decided-Selects cs (some i) qs h =
        ranked_of-Selects cs (some i) (λ e. cc)
          (λ j e.
            subst (λ k. Any (Tops k (ranked_of p cs)) (ranked_of p cs)) (some_eq e)
              (winner-Tops laws i (ranked_of p cs) qs h))

    -- A decision names no winner only where every candidate fails a hard gate. The winner that it names is
    -- one of the candidates, it passes every hard gate (build, safety invariant, patch integrity and at
    -- least 95 % of the unit tests), and no candidate that passes them all has a larger weighted score.
    pub select_candidate-Selects :
        (candidates : List (Candidate p)) (m : SelectionMetadata) (d : CandidateDecision p.Number)
        → select_candidate p candidates m ≡ ok d
        → Selects d.winner_candidate_id candidates
    select_candidate-Selects candidates m d h =
        let (same_rankings, scored, _, decided) =
          select_candidate-ranked_of p laws candidates m d h in
        decided-Selects candidates d.winner_candidate_id
          (All-sort_by (ranks_before p) (IsScored p) (map (ranking_of p) candidates) scored)
          (subst (Decides p d.winner_candidate_id) same_rankings decided)

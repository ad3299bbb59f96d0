-- ===== src/Domain/Selector/Outcome.antt =====
-- The result of `selectCandidate` (packages/domain/src/selector.ts).
use mathlib.Core.List.{Perm}
use safecommit_ai.Domain.Selector.{
  CandidateDecision, CandidateRanking, Platform, SelectionMetadata, decision_of, entries, id_of,
  rank_candidates, rank_each, ranks_before, select_candidate, winner_of,
}
use safecommit_ai.Domain.Selector.Evaluation.{
  CanRank, CanRank-rank_each, Candidate, HasScores, in_range-returns, rank_each-CanRank, ranking_of,
}
use safecommit_ai.Domain.Selector.Laws.{PlatformLaws}
use safecommit_ai.Domain.Selector.Ranking.{IsScored, sorted_ranking}
use safecommit_ai.Prelude.{
  >>=-eq-ok, All, Bool-cases, List, Option, Text, [], ap, arith, false, inl, inr, map, none, ok,
  ok_injective, refl, some, subst, sym, true, ◌++◌, ◌↔◌, ◌∙◌, ◌∷◌, ◌≡◌,
}
use safecommit_ai.Sorting.{IsSortedBy, perm-sort_by, sort_by}

abbrev pub IsNonempty {ℓ} : {A : Type ℓ} → List A → Type 0
IsNonempty [] = ⊥
IsNonempty (x ∷ xs) = Unit

module _ (p : Platform) where
  -- The candidates that stand before the first eligible one, and those behind it.
  pub record IsWinner (w : CandidateRanking p.Number) (rs : List (CandidateRanking p.Number))
      : Type 0 where
    pub before : List (CandidateRanking p.Number)
    pub later : List (CandidateRanking p.Number)
    pub ranked : rs ≡ before ++ w ∷ later
    pub is_eligible : w.eligible ≡ true
    pub ineligible : All (λ r. r.eligible ≡ false) before
    pub best : All (λ r. ranks_before p w r ≡ true) later

  -- What a decision says of its winner.
  abbrev pub Decides : Option Text → List (CandidateRanking p.Number) → Type 0
  Decides none rs = All (λ r. r.eligible ≡ false) rs
  Decides (some i) rs = (w : CandidateRanking p.Number) × (w.candidate_id ≡ i) × IsWinner w rs

  behind :
      (r : CandidateRanking p.Number) (rs : List (CandidateRanking p.Number))
      → r.eligible ≡ false
      → (o : Option Text) → Decides o rs
      → Decides o (r ∷ rs)
  behind r rs h none all = (h, all)
  behind r rs h (some i) (w, named, won) = (
    w,
    named,
    record {
      before = r ∷ won.before;
      later = won.later;
      ranked = ap (◌∷◌ r) won.ranked;
      is_eligible = won.is_eligible;
      ineligible = (h, won.ineligible);
      best = won.best;
    },
  )

  first_winner :
      (r : CandidateRanking p.Number) (rs : List (CandidateRanking p.Number))
      → r.eligible ≡ true
      → id_of p (winner_of p (r ∷ rs)) ≡ some r.candidate_id
  unfolding winner_of
  first_winner r rs h = ground arith

  later_winner :
      (r : CandidateRanking p.Number) (rs : List (CandidateRanking p.Number))
      → r.eligible ≡ false
      → id_of p (winner_of p (r ∷ rs)) ≡ id_of p (winner_of p rs)
  unfolding winner_of
  later_winner r rs h = ground arith

  winner-Decides :
      (rs : List (CandidateRanking p.Number))
      → IsSortedBy (ranks_before p) rs
      → Decides (id_of p (winner_of p rs)) rs
  unfolding winner_of IsSortedBy
  winner-Decides [] sorted = tt
  winner-Decides (r ∷ rs) sorted = elim (Bool-cases r.eligible) [
    | inl first ↦
        subst (λ o. Decides o (r ∷ rs)) (sym (first_winner r rs first))
          (
            r,
            refl,
            record {
              before = [];
              later = rs;
              ranked = refl;
              is_eligible = first;
              ineligible = tt;
              best = sorted.0;
            },
          )
    | inr not_eligible ↦
        subst (λ o. Decides o (r ∷ rs)) (sym (later_winner r rs not_eligible))
          (behind r rs not_eligible (id_of p (winner_of p rs)) (winner-Decides rs sorted.1))
  ]

  abbrev pub ranked_of : List (Candidate p) → List (CandidateRanking p.Number)
  ranked_of candidates = sort_by (ranks_before p) (map (ranking_of p) candidates)

  select_candidate-returns :
      (candidates : List (Candidate p)) (m : SelectionMetadata)
      → IsNonempty candidates
      → CanRank p candidates
      → select_candidate p candidates m ≡ ok (decision_of p (ranked_of candidates) m)
  unfolding select_candidate rank_candidates
  select_candidate-returns [] m some_candidate can = absurd some_candidate
  select_candidate-returns (c ∷ cs) m some_candidate can =
      rw (CanRank-rank_each p (c ∷ cs) can) refl

  returns-CanRank :
      (candidates : List (Candidate p)) (m : SelectionMetadata) {d : CandidateDecision p.Number}
      → select_candidate p candidates m ≡ ok d
      → IsNonempty candidates × CanRank p candidates
  unfolding select_candidate rank_candidates
  returns-CanRank [] m h = cc
  returns-CanRank (c ∷ cs) m h =
      let (_, _, first) = >>=-eq-ok (rank_candidates p (c ∷ cs)) _ h in
      let (_, _, each) = >>=-eq-ok (rank_each p [] (c ∷ cs)) _ first in
      (tt, rank_each-CanRank p (c ∷ cs) each)

  -- The selection returns a decision exactly where there is a candidate, no two candidates share an
  -- identifier and every score is a finite number between 0 and 1.
  pub select_candidate-returns_iff :
      (candidates : List (Candidate p)) (m : SelectionMetadata)
      → ((d : CandidateDecision p.Number) × (select_candidate p candidates m ≡ ok d))
        ↔ (IsNonempty candidates × CanRank p candidates)
  select_candidate-returns_iff candidates m = (
    λ (d, h). returns-CanRank candidates m h,
    λ (some_candidate, can). (_, select_candidate-returns candidates m some_candidate can),
  )

  module _ (laws : PlatformLaws p) where
    IsScored-rankings :
        (cs : List (Candidate p)) → All (HasScores p) cs → All (IsScored p) (map (ranking_of p) cs)
    unfolding ranking_of
    IsScored-rankings [] h = tt
    IsScored-rankings (c ∷ cs) h = (
      laws.sum_finite c.values (in_range-returns p (entries c.values) h.0),
      IsScored-rankings cs h.1,
    )

    -- The ranking that a decision returns, and what it says of the winner.
    pub select_candidate-ranked_of :
        (candidates : List (Candidate p)) (m : SelectionMetadata) (d : CandidateDecision p.Number)
        → select_candidate p candidates m ≡ ok d
        → (d.rankings ≡ ranked_of candidates)
          × All (IsScored p) (map (ranking_of p) candidates)
          × IsSortedBy (ranks_before p) d.rankings
          × Decides d.winner_candidate_id d.rankings
    unfolding decision_of
    select_candidate-ranked_of candidates m d h =
        let (some_candidate, can) = returns-CanRank candidates m h in
        let made =
          ok_injective (sym (select_candidate-returns candidates m some_candidate can) ∙ h) in
        let scored = IsScored-rankings candidates can.scored in
        let sorted = sorted_ranking p laws (map (ranking_of p) candidates) scored in
        subst
          (λ t.
            (t.rankings ≡ ranked_of candidates)
            × All (IsScored p) (map (ranking_of p) candidates)
            × IsSortedBy (ranks_before p) t.rankings
            × Decides t.winner_candidate_id t.rankings)
          made (refl, scored, sorted, winner-Decides (ranked_of candidates) sorted)

    -- A decision ranks every candidate once, in the order of the comparator: its ranking is a sorted
    -- permutation of the evaluated candidates. It names a winner exactly where a candidate is eligible,
    -- and the winner is eligible, stands before every other eligible candidate and is not behind any
    -- candidate that follows it.
    pub select_candidate-Decides :
        (candidates : List (Candidate p)) (m : SelectionMetadata) (d : CandidateDecision p.Number)
        → select_candidate p candidates m ≡ ok d
        → Perm d.rankings (map (ranking_of p) candidates)
          × IsSortedBy (ranks_before p) d.rankings
          × Decides d.winner_candidate_id d.rankings
    select_candidate-Decides candidates m d h =
        let (ranked, _, sorted, decided) = select_candidate-ranked_of candidates m d h in
        (
          subst (λ rs. Perm rs (map (ranking_of p) candidates)) (sym ranked)
              (perm-sort_by (ranks_before p) (map (ranking_of p) candidates)),
          sorted,
          decided,
        )

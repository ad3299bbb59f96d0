-- ===== src/SafetyPolicy/DatabaseInvariants/Evaluation.antt =====
-- `evaluateDatabaseHardGates` of packages/safety-policy/src/database-invariants.ts decides its contract.
use safecommit_ai.Domain.Evidence.{compute_evidence_digest}
use safecommit_ai.Domain.Session.{state_eq}
use safecommit_ai.Prelude.{
  Bool-cases, List, Text, [], ap, ap₂, arith, bool_eq, every, inl, inr, keep, length, map, nat_eq,
  not, ok, option_eq, refl, sym, text_beq, text_eq, true, ◌==◌, ◌>>=◌, ◌↔◌, ◌∙◌, ◌∷◌, ◌≡◌,
}
use safecommit_ai.Runtime.{Runtime}
use safecommit_ai.SafetyPolicy.DatabaseInvariants.{
  DatabaseGateEvaluation, DatabaseHardGateName, DatabaseHardGateResult, DatabaseInvariantContext,
  Fact, database_hard_gate_names, evaluate_database_hard_gates, fact_js, facts, gate_results,
}
use safecommit_ai.SafetyPolicy.DatabaseInvariants.Contract.{
  MeetsContract, every-MeetsContract, holds,
}

abbrev failed_results : List DatabaseHardGateResult → List DatabaseHardGateName
failed_results rs = map (λ r. r.name) (keep (λ r. not r.passed) rs)

abbrev failed_facts : List Fact → List DatabaseHardGateName
failed_facts fs = map (λ f. f.name) (keep (λ f. not f.passed) fs)

abbrev result_of : Fact → Text → DatabaseHardGateResult
result_of f digest = record {
  name = f.name;
  passed = f.passed;
  explanation = f.explanation;
  evidence_digest = digest;
}

failed_results-one :
    (f : Fact) (d : Text) (rs : List DatabaseHardGateResult) (fs : List Fact)
    → failed_results rs ≡ failed_facts fs
    → failed_results (result_of f d ∷ rs) ≡ failed_facts (f ∷ fs)
failed_results-one f d rs fs h = elim (Bool-cases f.passed) [
  | inl e ↦ ground (arith, h)
  | inr e ↦ ground (arith, h)
]

-- The failed names of facts that are given by their names are the names that fail.
named_facts :
    (c : DatabaseInvariantContext) (ns : List DatabaseHardGateName)
    → (length (keep (λ n. not (holds c n)) ns) == 0) ≡ every (holds c) ns
named_facts c [] = refl
named_facts c (n ∷ ns) = ground (arith, named_facts c ns)

-- The facts report on the named gates, in this order, and each passes where its gate holds.
abbrev Reports : DatabaseInvariantContext → List Fact → List DatabaseHardGateName → Type 0
Reports c [] [] = Unit
Reports c (f ∷ fs) (n ∷ ns) = (f.name ≡ n) × (f.passed ≡ holds c n) × Reports c fs ns
Reports c _ _ = ⊥

Reports-failed_facts :
    (c : DatabaseInvariantContext) (fs : List Fact) (ns : List DatabaseHardGateName)
    → Reports c fs ns
    → (map (λ f. f.name) fs ≡ ns) × (failed_facts fs ≡ keep (λ n. not (holds c n)) ns)
Reports-failed_facts c [] [] r = (refl, refl)
Reports-failed_facts c (f ∷ fs) (n ∷ ns) (named, same, r) =
    let (names, lost) = Reports-failed_facts c fs ns r in
    (
      ap₂ (λ m ms. m ∷ ms) named names,
      elim (Bool-cases f.passed) [
        | inl e ↦ ground (arith, named, same, e, lost)
        | inr e ↦ ground (arith, named, same, e, lost)
      ],
    )
Reports-failed_facts c [] (n ∷ ns) r = absurd r
Reports-failed_facts c (f ∷ fs) [] r = absurd r

facts-Reports : (c : DatabaseInvariantContext) → Reports c (facts c) database_hard_gate_names
unfolding facts holds
facts-Reports c = (
  refl,
  refl,
  (
    refl,
    refl,
    (
      refl,
      refl,
      (
        refl,
        refl,
        (
          refl,
          refl,
          (
            refl,
            refl,
            (
              refl,
              refl,
              (
                refl,
                refl,
                (refl, refl, (refl, refl, (refl, refl, (refl, refl, (refl, refl, tt))))),
              ),
            ),
          ),
        ),
      ),
    ),
  ),
)

module _ (rt : Runtime) where
  fact-digest : (f : Fact) → (d : Text) × (compute_evidence_digest rt (fact_js f) ≡ ok d)
  unfolding compute_evidence_digest fact_js text_beq
  fact-digest f = (_, refl)

  gate_results-cons :
      (f : Fact) (fs : List Fact) (d : Text) (rs : List DatabaseHardGateResult)
      → compute_evidence_digest rt (fact_js f) ≡ ok d
      → gate_results rt fs ≡ ok rs
      → gate_results rt (f ∷ fs) ≡ ok (result_of f d ∷ rs)
  unfolding gate_results
  gate_results-cons f fs d rs h e = ground arith

  -- Every fact becomes a result, in the same order.
  gate_results_lem :
      (fs : List Fact)
      → (rs : List DatabaseHardGateResult) × (gate_results rt fs ≡ ok rs)
        × (map (λ r. r.name) rs ≡ map (λ f. f.name) fs)
        × (failed_results rs ≡ failed_facts fs)
  unfolding gate_results
  gate_results_lem [] = ([], refl, refl, refl)
  gate_results_lem (f ∷ fs) =
      let (d, h) = fact-digest f in
      let (rs, e, names, lost) = gate_results_lem fs in
      (
        result_of f d ∷ rs,
        gate_results-cons f fs d rs h e,
        ap (λ ns. f.name ∷ ns) names,
        failed_results-one f d rs fs lost,
      )

  -- The evaluation never throws. It reports on all thirteen gates in their order, it names exactly the
  -- gates that do not hold, and the plan is eligible exactly where it meets the contract.
  pub evaluate_database_hard_gates-MeetsContract :
      (c : DatabaseInvariantContext)
      → (v : DatabaseGateEvaluation) × (evaluate_database_hard_gates rt c ≡ ok v)
        × (map (λ r. r.name) v.results ≡ database_hard_gate_names)
        × (v.failed_gate_names ≡ keep (λ n. not (holds c n)) database_hard_gate_names)
        × ((v.eligible ≡ true) ↔ MeetsContract c)
  unfolding evaluate_database_hard_gates
  evaluate_database_hard_gates-MeetsContract c =
      let (rs, e, names, lost) = gate_results_lem (facts c) in
      let (in_order, those) =
        Reports-failed_facts c (facts c) database_hard_gate_names (facts-Reports c) in
      let meets = every-MeetsContract c in
      let decided : (length (failed_results rs) == 0) ≡ every (holds c) database_hard_gate_names =
        ap (λ ns. length ns == 0) (lost ∙ those) ∙ named_facts c database_hard_gate_names in
      (
        record {
          eligible = length (failed_results rs) == 0;
          results = rs;
          failed_gate_names = failed_results rs;
        },
        ap
            (λ r. r >>= λ results. ok (record {
              eligible = length (failed_results results) == 0;
              results = results;
              failed_gate_names = failed_results results;
            }))
            e,
        names ∙ in_order,
        lost ∙ those,
        (λ h. meets.0 (sym decided ∙ h), λ m. decided ∙ meets.1 m),
      )

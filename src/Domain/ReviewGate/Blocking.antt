-- ===== src/Domain/ReviewGate/Blocking.antt =====
-- What the review gate decides (`evaluateCodeRabbitGate` of packages/domain/src/review-gate.ts).
use safecommit_ai.Domain.ReviewGate.{
  GateReason, ReviewGateDecision, evaluate_code_rabbit_gate, findings_block_readiness,
  is_blocking_review_finding, is_severe, no_findings_remain,
}
use safecommit_ai.Domain.Types.{ReviewFinding, Severity, critical, high, info, low, medium}
use safecommit_ai.Prelude.{
  Bool-cases, List, [], ap, arith, false, if◌then◌else◌, inl, inr, keep, length, ltb, refl, true,
  ◌↔◌, ◌∷◌, ◌≡◌, ◌⊎◌,
}

-- A finding that is not resolved, and is of high or critical severity.
pub record IsBlocking (f : ReviewFinding) : Type 0 where
  pub unresolved : f.resolved ≡ false
  pub severe : (f.severity ≡ high) ⊎ (f.severity ≡ critical)

-- The second list has the findings of the first that block, in their order, and no others.
pub data BlockingOf : List ReviewFinding → List ReviewFinding → Type 0 where
  no_finding : BlockingOf [] []
  blocks :
      (f : ReviewFinding) {fs bs : List ReviewFinding}
      → IsBlocking f
      → BlockingOf fs bs
      → BlockingOf (f ∷ fs) (f ∷ bs)
  passes :
      (f : ReviewFinding) {fs bs : List ReviewFinding}
      → ¬ IsBlocking f
      → BlockingOf fs bs
      → BlockingOf (f ∷ fs) bs

severe_cases : (v : Severity) → is_severe v ≡ true → (v ≡ high) ⊎ (v ≡ critical)
severe_cases critical h = inr refl
severe_cases high h = inl refl
severe_cases medium h = cc
severe_cases low h = cc
severe_cases info h = cc

severity_of : (v : Severity) → (v ≡ high) ⊎ (v ≡ critical) → is_severe v ≡ true
severity_of v (inl h) = ap is_severe h
severity_of v (inr h) = ap is_severe h

IsBlocking-if : (f : ReviewFinding) → is_blocking_review_finding f ≡ true → IsBlocking f
unfolding is_blocking_review_finding
IsBlocking-if f h = record {
  unresolved = ground arith;
  severe = severe_cases f.severity (ground arith);
}

not-IsBlocking : (f : ReviewFinding) → is_blocking_review_finding f ≡ false → ¬ IsBlocking f
unfolding is_blocking_review_finding
not-IsBlocking f h b =
    let severe = severity_of f.severity b.severe in
    let open_one = b.unresolved in absurd (ground arith)

kept-BlockingOf : (fs : List ReviewFinding) → BlockingOf fs (keep is_blocking_review_finding fs)
kept-BlockingOf [] = BlockingOf.no_finding
kept-BlockingOf (f ∷ fs) = elim (Bool-cases (is_blocking_review_finding f)) [
  | inl h ↦ rw h (BlockingOf.blocks f (IsBlocking-if f h) (kept-BlockingOf fs))
  | inr h ↦ rw h (BlockingOf.passes f (not-IsBlocking f h) (kept-BlockingOf fs))
]

-- The reason that belongs to a list of blocking findings.
abbrev pub reason_for : List ReviewFinding → GateReason
reason_for [] = no_findings_remain
reason_for (b ∷ bs) = findings_block_readiness (length (b ∷ bs))

-- The decision names the blocking findings, passes where there is none, and gives their number.
abbrev pub IsDecisionOn : List ReviewFinding → ReviewGateDecision → Type 0
IsDecisionOn findings d =
    BlockingOf findings d.blocking_findings
    × ((d.passed ≡ true) ↔ (d.blocking_findings ≡ []))
    × (d.reason ≡ reason_for d.blocking_findings)

decided :
    (findings bs : List ReviewFinding)
    → BlockingOf findings bs
    → IsDecisionOn findings (
        if ltb 0 (length bs)
        then record {
          passed = false;
          blocking_findings = bs;
          reason = findings_block_readiness (length bs);
        }
        else record { passed = true; blocking_findings = []; reason = no_findings_remain })
decided findings [] h = (h, ((λ _. refl), (λ _. refl)), refl)
decided findings (b ∷ bs) h =
    let some_there : ltb 0 (length (b ∷ bs)) ≡ true = ground arith in
    rw some_there (h, ((λ p. cc), (λ p. cc)), refl)

-- The gate's decision lists the findings that are not resolved and are of high or critical severity, all of
-- them, in their order, and no others. It passes exactly where there is none, and its reason has their
-- number.
pub evaluate_code_rabbit_gate-IsDecisionOn :
    (findings : List ReviewFinding) → IsDecisionOn findings (evaluate_code_rabbit_gate findings)
unfolding evaluate_code_rabbit_gate
evaluate_code_rabbit_gate-IsDecisionOn findings =
    decided findings (keep is_blocking_review_finding findings) (kept-BlockingOf findings)

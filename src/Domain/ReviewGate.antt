-- ===== src/Domain/ReviewGate.antt =====
-- packages/domain/src/review-gate.ts: which review findings block readiness.
pub mod Blocking
use safecommit_ai.Domain.Types.{ReviewFinding, Severity, critical, high, passed}
use safecommit_ai.Prelude.{
  Bool, List, [], arith, false, if◌then◌else◌, keep, length, ltb, not, refl, some_of, true, ℕ, ◌&&◌,
  ◌∷◌, ◌≡◌,
}

abbrev pub is_severe : Severity → Bool
is_severe critical = true
is_severe high = true
is_severe _ = false

unfoldable pub is_blocking_review_finding : ReviewFinding → Bool
is_blocking_review_finding finding = not finding.resolved && is_severe finding.severity

-- The reason's text holds the number of blocking findings.
pub data GateReason : Type 0 where
  findings_block_readiness : ℕ → GateReason
  no_findings_remain : GateReason

pub record ReviewGateDecision : Type 0 where
  pub passed : Bool
  pub blocking_findings : List ReviewFinding
  pub reason : GateReason

unfoldable pub evaluate_code_rabbit_gate : List ReviewFinding → ReviewGateDecision
unfolding is_blocking_review_finding
evaluate_code_rabbit_gate findings =
    let blocking = keep is_blocking_review_finding findings in
    if ltb 0 (length blocking)
    then record {
      passed = false;
      blocking_findings = blocking;
      reason = findings_block_readiness (length blocking);
    }
    else record { passed = true; blocking_findings = []; reason = no_findings_remain }

-- The gate passes exactly where no finding of the list blocks.
pub gate-some_of :
    (findings : List ReviewFinding)
    → (evaluate_code_rabbit_gate findings).passed
      ≡ not (some_of is_blocking_review_finding findings)
unfolding evaluate_code_rabbit_gate
gate-some_of [] = refl
gate-some_of (f ∷ fs) = ground (arith, gate-some_of fs)

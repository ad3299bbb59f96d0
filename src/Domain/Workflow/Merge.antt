-- ===== src/Domain/Workflow/Merge.antt =====
-- The safety of a merge, in terms of the session's pull request, review receipt and approval
-- (packages/domain/src/state-machine.ts).
use safecommit_ai.Domain.Approval.{ApprovalBinding}
use safecommit_ai.Domain.Approval.Validity.{approval-IsBoundTo}
use safecommit_ai.Domain.ReviewGate.{gate-some_of, is_blocking_review_finding}
use safecommit_ai.Domain.Session.{ValidationSession}
use safecommit_ai.Domain.Types.{
  HumanApproval, IndependentReviewReceipt, PullRequestRecord, PullRequestTarget, approved,
}
use safecommit_ai.Domain.Workflow.Gates.{
  binding_of, current_binding, is_head_moved, is_open, is_passed, is_receipt_unbound, same_sha,
}
use safecommit_ai.Domain.Workflow.Mergeable.{PassesGate, Reach-IsMergeReady, is_merged}
use safecommit_ai.Domain.Workflow.Steps.{Reach}
use safecommit_ai.Prelude.{
  Option, Text, ap, arith, false, none, not-true, refl, some, some_of, subst, sym, true, ◌∙◌, ◌≡◌,
}
use safecommit_ai.Runtime.{Runtime}

pub record IsMergeSafe (s : ValidationSession) : Type 0 where
  pub pr : PullRequestRecord
  pub receipt : IndependentReviewReceipt
  pub approval : HumanApproval
  pub has_pr : s.pull_request ≡ some pr
  pub has_receipt : s.review_receipt ≡ some receipt
  pub has_approval : s.approval ≡ some approval
  pub approved_decision : approval.decision ≡ approved
  pub approval_stands : approval.invalidated_at ≡ none
  pub approved_candidate : s.selected_candidate_id ≡ some approval.candidate_id
  pub approved_patch : s.current_patch_digest ≡ some approval.patch_digest
  pub approved_evidence : s.current_evidence_digest ≡ some approval.evidence_digest
  pub approved_policy : s.policy_version ≡ approval.policy_version
  pub pr_is_open : is_open pr.status ≡ true
  pub approved_head : same_sha pr.head_sha approval.commit_sha ≡ true
  pub receipt_passed : is_passed receipt.status ≡ true
  pub reviewed_head : same_sha receipt.head_sha pr.head_sha ≡ true
  pub reviewed_base : same_sha receipt.observed_base_sha pr.base_sha ≡ true
  pub no_blocking_finding : some_of is_blocking_review_finding s.review_findings ≡ false

-- The fields that a binding is made of.
binding_of-fields :
    (o1 o2 o3 o4 : Option Text) (policy : Text) (target : Option PullRequestTarget)
    (b : ApprovalBinding)
    → binding_of o1 o2 o3 o4 policy target ≡ some b
    → (o1 ≡ some b.candidate_id)
      × (o2 ≡ some b.patch_digest)
      × (o3 ≡ some b.evidence_digest)
      × (o4 ≡ some b.commit_sha)
      × (policy ≡ b.policy_version)
unfolding binding_of
binding_of-fields (some c) (some p) (some e) (some m) policy target b h = ground arith
binding_of-fields _ _ _ _ policy target b h = cc

pub current_binding-fields :
    (s : ValidationSession) (b : ApprovalBinding)
    → current_binding s ≡ some b
    → (s.selected_candidate_id ≡ some b.candidate_id)
      × (s.current_patch_digest ≡ some b.patch_digest)
      × (s.current_evidence_digest ≡ some b.evidence_digest)
      × (s.current_commit_sha ≡ some b.commit_sha)
      × (s.policy_version ≡ b.policy_version)
unfolding current_binding
current_binding-fields s b h = binding_of-fields _ _ _ _ _ _ b h

receipt-facts :
    (o : Option PullRequestRecord) (p : Option IndependentReviewReceipt)
    → is_receipt_unbound o p ≡ false
    → (pr : PullRequestRecord) × (r : IndependentReviewReceipt) × (o ≡ some pr)
      × (p ≡ some r)
      × (is_passed r.status ≡ true)
      × (same_sha r.head_sha pr.head_sha ≡ true)
      × (same_sha r.observed_base_sha pr.base_sha ≡ true)
unfolding is_receipt_unbound
receipt-facts (some pr) (some r) h = (pr, r, refl, refl, ground arith, ground arith, ground arith)
receipt-facts (some pr) none h = cc
receipt-facts none _ h = cc

head-facts :
    (pr : PullRequestRecord) (o : Option PullRequestRecord) (b : ApprovalBinding)
    (tree : Option Text)
    → o ≡ some pr
    → is_head_moved o b tree ≡ false
    → (is_open pr.status ≡ true) × (same_sha pr.head_sha b.commit_sha ≡ true)
unfolding is_head_moved
head-facts pr o b tree e h = head_of (subst (λ x. is_head_moved x b tree ≡ false) e h)
  where
    head_of :
        is_head_moved (some pr) b tree ≡ false
        → (is_open pr.status ≡ true) × (same_sha pr.head_sha b.commit_sha ≡ true)
    head_of k = ground arith

PassesGate-IsMergeSafe : (rt : Runtime) (s : ValidationSession) → PassesGate rt s → IsMergeSafe s
PassesGate-IsMergeSafe rt s g =
    let (b, bound, valid, head) = g.head in
    let (a, given, to) = approval-IsBoundTo rt s.approval b valid in
    let (pr, r, is_pr, is_r, ok_status, at_head, at_base) =
      receipt-facts s.pull_request s.review_receipt g.receipt in
    let fields = current_binding-fields s b bound in
    let at_open = head-facts pr s.pull_request b s.current_validated_tree_sha is_pr head in
    record {
      pr = pr;
      receipt = r;
      approval = a;
      has_pr = is_pr;
      has_receipt = is_r;
      has_approval = given;
      approved_decision = to.decision;
      approval_stands = to.stands;
      approved_candidate = fields.0 ∙ ap some (sym to.candidate);
      approved_patch = fields.1 ∙ ap some (sym to.patch);
      approved_evidence = fields.2 ∙ ap some (sym to.evidence);
      approved_policy = fields.4 ∙ sym to.policy;
      pr_is_open = at_open.0;
      approved_head = subst (λ x. same_sha pr.head_sha x ≡ true) (sym to.commit) at_open.1;
      receipt_passed = ok_status;
      reviewed_head = at_head;
      reviewed_base = at_base;
      no_blocking_finding = not-true _ (sym (gate-some_of s.review_findings) ∙ g.review);
    }

-- Whatever events came before, a session that is ready to merge or completed has an open pull request
-- whose head is the commit of a standing human approval of the current candidate, patch, evidence and
-- policy, a passing review receipt for that same head and base, and no finding that blocks.
pub Reach-IsMergeSafe :
    (rt : Runtime) (s : ValidationSession) → Reach rt s → is_merged s.state ≡ true → IsMergeSafe s
Reach-IsMergeSafe rt s r m = PassesGate-IsMergeSafe rt s (Reach-IsMergeReady rt s r m)

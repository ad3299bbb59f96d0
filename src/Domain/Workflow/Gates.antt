-- ===== src/Domain/Workflow/Gates.antt =====
-- The gates of the workflow: `currentBinding`, `hasCleanLiveDaytonaHistory`,
-- `canCreateOrUpdatePullRequest` and `canEnterReadyToMerge`
-- (packages/domain/src/state-machine.ts).
use safecommit_ai.Domain.Approval.{ApprovalBinding, is_approval_valid}
use safecommit_ai.Domain.ReviewGate.{evaluate_code_rabbit_gate}
use safecommit_ai.Domain.Session.{
  DaytonaAttemptRecord, Disposition, ReservationStatus, ValidationSession, awaiting_human_approval,
  failed_destroyed, finished, reserved, review_passed, state_eq,
}
use safecommit_ai.Domain.Types.{
  HumanApproval, IndependentReviewReceipt, OperatingMode, PullRequestRecord, PullRequestStatus,
  PullRequestTarget, ReviewStatus, live, open_pr, passed,
}
use safecommit_ai.Domain.Workflow.Events.{
  PublishReason, ReadyReason, approval_is_current, approval_required, approval_stale,
  attempts_not_clean, attempts_unclean, gates_passed, head_moved, not_awaiting_approval,
  receipt_required, review_gate, review_not_passed, target_required,
}
use safecommit_ai.Prelude.{
  Bool, Option, Text, bool_eq, every, false, if◌then◌else◌, length, ltb, nat_eq, none, not,
  option_eq, some, text_eq, true, ◌!=◌, ◌&&◌, ◌==◌, ◌||◌,
}
use safecommit_ai.Runtime.{Runtime}
use safecommit_ai.Text.{to_lower_case}

abbrev pub is_live : OperatingMode → Bool
is_live live = true
is_live _ = false

abbrev pub is_reserved : ReservationStatus → Bool
is_reserved reserved = true
is_reserved _ = false

abbrev pub is_finished : Disposition → Bool
is_finished finished = true
is_finished _ = false

abbrev pub is_destroyed : Disposition → Bool
is_destroyed failed_destroyed = true
is_destroyed _ = false

abbrev pub is_open : PullRequestStatus → Bool
is_open open_pr = true
is_open _ = false

abbrev pub is_passed : ReviewStatus → Bool
is_passed passed = true
is_passed _ = false

-- a.toLowerCase() === b.toLowerCase()
unfoldable pub same_sha : Text → Text → Bool
same_sha a b = to_lower_case a == to_lower_case b

-- A binding of four fields that are set, under the session's policy and target.
unfoldable pub binding_of :
    Option Text
    → Option Text
    → Option Text
    → Option Text
    → Text
    → Option PullRequestTarget
    → Option ApprovalBinding
binding_of (some candidate) (some patch) (some evidence) (some commit) policy target =
    some (record {
      candidate_id = candidate;
      patch_digest = patch;
      evidence_digest = evidence;
      policy_version = policy;
      commit_sha = commit;
      pull_request_target = target;
    })
binding_of _ _ _ _ policy target = none

unfoldable pub current_binding : ValidationSession → Option ApprovalBinding
unfolding binding_of
current_binding s =
    binding_of s.selected_candidate_id s.current_patch_digest s.current_evidence_digest
      s.current_commit_sha s.policy_version s.pull_request_target

-- One attempt of a clean history.
unfoldable pub is_clean_attempt : DaytonaAttemptRecord → Bool
is_clean_attempt a =
    is_reserved a.reservation_status
    && not a.duplicate_sandbox
    && not a.duplicate_run
    && (is_finished a.disposition || (is_destroyed a.disposition && a.retryable))

unfoldable pub has_clean_live_daytona_history : ValidationSession → Bool
unfolding is_clean_attempt
has_clean_live_daytona_history s =
    if not (is_live s.mode)
    then true
    else ltb 0 (length s.sandbox_attempt_history)
      && every is_clean_attempt s.sandbox_attempt_history

abbrev pub has_target : Option PullRequestTarget → Bool
has_target none = false
has_target (some t) = true

-- The receipt is not a passing one for the exact head and base of the pull request.
unfoldable pub is_receipt_unbound :
    Option PullRequestRecord → Option IndependentReviewReceipt → Bool
unfolding same_sha
is_receipt_unbound none receipt = true
is_receipt_unbound (some pr) none = true
is_receipt_unbound (some pr) (some r) =
    not (is_passed r.status)
    || r.pull_number != pr.number
    || not (same_sha r.head_sha pr.head_sha)
    || r.expected_base_ref != pr.base_branch
    || r.observed_base_ref != pr.base_branch
    || not (same_sha r.expected_base_sha pr.base_sha)
    || not (same_sha r.observed_base_sha pr.base_sha)

-- The validated tree, where there is one, is not the tree at the head.
unfoldable pub is_other_tree : Option Text → Text → Bool
unfolding same_sha
is_other_tree none head_tree = false
is_other_tree (some tree) head_tree = not (same_sha head_tree tree)

unfoldable pub is_head_moved : Option PullRequestRecord → ApprovalBinding → Option Text → Bool
unfolding same_sha is_other_tree
is_head_moved none binding tree = true
is_head_moved (some pr) binding tree =
    not (is_open pr.status)
    || not (same_sha pr.head_sha binding.commit_sha)
    || is_other_tree tree pr.head_tree_sha

module _ (rt : Runtime) where
  abbrev pub is_valid_for : Option HumanApproval → Option ApprovalBinding → Bool
  is_valid_for approval none = false
  is_valid_for approval (some b) = is_approval_valid rt approval b

  -- binding !== undefined && isApprovalValid(session.approval, binding)
  unfoldable pub has_valid_approval : ValidationSession → Bool
  has_valid_approval s = is_valid_for s.approval (current_binding s)

  -- The decision and its reason.
  unfoldable pub can_create_or_update_pull_request : ValidationSession → Bool × PublishReason
  can_create_or_update_pull_request s =
      if s.state != awaiting_human_approval
      then (false, not_awaiting_approval)
      else if not (has_target s.pull_request_target)
      then (false, target_required)
      else if not (has_clean_live_daytona_history s)
      then (false, attempts_not_clean)
      else if not (has_valid_approval s)
      then (false, approval_required)
      else (true, approval_is_current)

  unfoldable pub can_enter_ready_to_merge : ValidationSession → Bool × ReadyReason
  can_enter_ready_to_merge s =
      let review = evaluate_code_rabbit_gate s.review_findings in
      if s.state != review_passed
      then (false, review_not_passed)
      else if not review.passed
      then (false, review_gate review.reason)
      else if is_receipt_unbound s.pull_request s.review_receipt
      then (false, receipt_required)
      else elim (current_binding s) [
        | none ↦ (false, approval_stale)
        | some binding ↦
            if not (is_approval_valid rt s.approval binding)
            then (false, approval_stale)
            else if is_head_moved s.pull_request binding s.current_validated_tree_sha
            then (false, head_moved)
            else if not (has_clean_live_daytona_history s)
            then (false, attempts_unclean)
            else (true, gates_passed)
      ]

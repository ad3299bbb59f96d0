-- ===== src/Examples/Merging.antt =====
-- The theorems on reachable sessions, on the live run that is repaired and merged.
use safecommit_ai.Domain.Session.{awaiting_human_approval, failed}
use safecommit_ai.Domain.Types.{FullRevalidationReceipt}
use safecommit_ai.Domain.Workflow.Approved.{published-has_valid_approval}
use safecommit_ai.Domain.Workflow.Evidence.{IsVouched, validated-IsVouched}
use safecommit_ai.Domain.Workflow.FreshApproval.{revalidation_passed-publish_gate}
use safecommit_ai.Domain.Workflow.Gates.{can_create_or_update_pull_request, has_valid_approval}
use safecommit_ai.Domain.Workflow.Merge.{IsMergeSafe, Reach-IsMergeSafe}
use safecommit_ai.Domain.Workflow.Reservations.{IsReserved, Reach-IsReserved}
use safecommit_ai.Examples.LiveRun.{
  ready-Reach, ready_session, revalidated_session, revalidating-Reach, revalidating_session,
}
use safecommit_ai.Examples.Platform.{toy}
use safecommit_ai.Examples.Receipts.{second_receipt}
use safecommit_ai.Prelude.{false, refl, true, ◌≡◌, ◌≢◌}
use safecommit_ai.Text.{codes}

Reach-IsMergeSafe_example : IsMergeSafe ready_session
unfolding ready_session
Reach-IsMergeSafe_example = Reach-IsMergeSafe toy ready_session ready-Reach refl

revalidation_passed-publish_gate_example :
    (revalidated_session.state ≡ awaiting_human_approval)
    × (has_valid_approval toy revalidated_session ≡ false)
    × ((can_create_or_update_pull_request toy revalidated_session).0 ≡ false)
unfolding revalidated_session revalidating_session
revalidation_passed-publish_gate_example =
    revalidation_passed-publish_gate toy revalidating_session revalidated_session second_receipt
      (codes "t") revalidating-Reach refl

published-has_valid_approval_example : has_valid_approval toy ready_session ≡ true
unfolding ready_session
published-has_valid_approval_example =
    published-has_valid_approval toy ready_session ready-Reach refl

validated-IsVouched_example : (r : FullRevalidationReceipt) × IsVouched ready_session r
unfolding ready_session
validated-IsVouched_example = validated-IsVouched toy ready_session ready-Reach refl refl

ready_alive : ready_session.state ≢ failed
unfolding ready_session
ready_alive h = cc

Reach-IsReserved_example : IsReserved ready_session.sandbox_attempt_history
Reach-IsReserved_example = Reach-IsReserved toy ready_session ready-Reach ready_alive

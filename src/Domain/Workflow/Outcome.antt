-- ===== src/Domain/Workflow/Outcome.antt =====
-- The result of a transition, and `createValidationSession`
-- (packages/domain/src/state-machine.ts).
use safecommit_ai.Prelude.{Option, none, some, [], Text, Result, nat_eq, text_eq, option_eq}
use safecommit_ai.Text.{codes}
use safecommit_ai.Domain.Types.{
  OperatingMode, RunKind, tournament, RepositoryRevision, PullRequestTarget,
  ValidationPolicySnapshot,
}
use safecommit_ai.Domain.Session.{ValidationSession, idle}
use safecommit_ai.Domain.Workflow.Events.{EventType, TransitionMessage, InvalidWorkflowTransition}

pub record CreateValidationSessionInput : Type 0 where
  pub id : Text
  pub incident_id : Text
  pub policy_id : Text
  pub policy_version : Text
  pub policy_snapshot : Option ValidationPolicySnapshot
  pub repository : RepositoryRevision
  pub pull_request_target : Option PullRequestTarget
  pub mode : OperatingMode
  pub run_kind : Option RunKind
  pub source_version : Text
  pub at : Text

abbrev pub kind_or_tournament : Option RunKind → RunKind
kind_or_tournament none = tournament
kind_or_tournament (some k) = k

unfoldable pub create_validation_session : CreateValidationSessionInput → ValidationSession
create_validation_session input = record {
  id = input.id;
  session_id = input.id;
  created_at = input.at;
  updated_at = input.at;
  source = codes "orchestrator";
  source_version = input.source_version;
  mode = input.mode;
  run_kind = kind_or_tournament input.run_kind;
  state = idle;
  incident_id = input.incident_id;
  policy_id = input.policy_id;
  policy_version = input.policy_version;
  policy_snapshot = input.policy_snapshot;
  repository = input.repository;
  pull_request_target = input.pull_request_target;
  candidate_ids = [];
  sandbox_ids_by_candidate = [];
  sandbox_attempt_history = [];
  selected_candidate_id = none;
  current_patch_digest = none;
  current_evidence_digest = none;
  current_commit_sha = some input.repository.commit_sha;
  current_validated_tree_sha = none;
  approval = none;
  pull_request = none;
  review_findings = [];
  review_receipt = none;
  last_revalidation = none;
  revalidation_sandbox_ids = [];
  validation_round = 0;
  failure = none;
}

abbrev pub Outcome : Type 0
Outcome = Result InvalidWorkflowTransition ValidationSession

-- The error of a refused event.
abbrev pub refusal : ValidationSession → EventType → TransitionMessage → InvalidWorkflowTransition
refusal s t m = record { state = s.state; refused_event = t; message = m }

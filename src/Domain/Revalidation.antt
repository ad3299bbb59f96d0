-- ===== src/Domain/Revalidation.antt =====
-- packages/domain/src/revalidation.ts: the seal of a validation receipt and its structural test.
use safecommit_ai.Domain.Approval.{target_js}
use safecommit_ai.Domain.Evidence.{digest_of}
use safecommit_ai.Domain.Evidence.Normal.{Fields, Js}
use safecommit_ai.Domain.Types.{
  FullRevalidationReceipt, ValidationPurpose, initial_selection, review_repair,
}
use safecommit_ai.Prelude.{
  Bool, Option, Text, [], bool_eq, false, includes, nat_eq, none, not, option_eq, some, text_eq,
  ◌&&◌, ◌++◌, ◌==◌, ◌∷◌,
}
use safecommit_ai.Runtime.{Runtime, Url}
use safecommit_ai.Text.{
  codes, contains, ends_with, is_blank, is_branch_name, is_full_git_object_id, is_owner_name,
  is_repository_name, is_sha256_digest, to_lower_case,
}
use safecommit_ai.Text.Encoding.{encode_uri_component}

abbrev pub purpose_text : ValidationPurpose → Text
purpose_text initial_selection = codes "initial-selection"
purpose_text review_repair = codes "review-repair"

-- The object that the attestation digests: the receipt without its `attestationDigest`.
unfoldable pub attested_js : FullRevalidationReceipt → Js
attested_js r = Js.obj (
    Fields.field (codes "schemaVersion") (Js.num (codes "1")) (
      Fields.field (codes "kind") (Js.str (codes "safeflash-live-revalidation-receipt")) (
        Fields.field (codes "sourceKind") (Js.str r.source_kind) (
          Fields.field (codes "mode") (Js.str r.mode) (
            Fields.field (codes "validationPurpose") (Js.str (purpose_text r.validation_purpose)) (
              Fields.field (codes "sessionId") (Js.str r.session_id) (
                Fields.field (codes "policyVersion") (Js.str r.policy_version) (
                  Fields.field (codes "candidateId") (Js.str r.candidate_id) (
                    Fields.field (codes "patchDigest") (Js.str r.patch_digest) (
                      Fields.field (codes "commitSha") (Js.str r.commit_sha) (
                        Fields.field (codes "validatedTreeSha") (Js.str r.validated_tree_sha) (
                          Fields.field (codes "pullRequestTarget") (target_js r.pull_request_target)
                            (Fields.field (codes "evidenceDigest") (Js.str r.evidence_digest) (
                              Fields.field (codes "executionProvider") (Js.str r.execution_provider)
                                (Fields.field (codes "evaluationProvider")
                                  (Js.str r.evaluation_provider)
                                  (Fields.field (codes "sandboxId") (Js.str r.sandbox_id) (
                                    Fields.field (codes "daytonaRunId") (Js.str r.daytona_run_id) (
                                      Fields.field (codes "daytonaEvidenceRef")
                                        (Js.str r.daytona_evidence_ref)
                                        (Fields.field (codes "braintrustProjectId")
                                          (Js.str r.braintrust_project_id)
                                          (Fields.field (codes "braintrustExperimentId")
                                            (Js.str r.braintrust_experiment_id)
                                            (Fields.field (codes "braintrustExperimentName")
                                              (Js.str r.braintrust_experiment_name)
                                              (Fields.field (codes "braintrustExperimentRef")
                                                (Js.str r.braintrust_experiment_ref)
                                                (Fields.field (codes "buildPassed")
                                                  (Js.bool r.build_passed)
                                                  (Fields.field (codes "unitTestsPassed")
                                                    (Js.bool r.unit_tests_passed)
                                                    (Fields.field (codes "safetyTestsPassed")
                                                      (Js.bool r.safety_tests_passed)
                                                      (Fields.field (codes "integrityChecksPassed")
                                                        (Js.bool r.integrity_checks_passed)
                                                        (Fields.field (codes "braintrustScored")
                                                          (Js.bool r.braintrust_scored)
                                                          (Fields.field (codes "candidateEligible")
                                                            (Js.bool r.candidate_eligible)
                                                            Fields.end))))))))))))))))))))))))))))

-- The six gates that a receipt reports.
unfoldable pub every_gate_passed : FullRevalidationReceipt → Bool
every_gate_passed r =
    r.build_passed && r.unit_tests_passed && r.safety_tests_passed && r.integrity_checks_passed
    && r.braintrust_scored && r.candidate_eligible

-- The tests on owner, repository and base branch that a receipt and a pull request share.
unfoldable pub is_canonical_location : Text → Text → Text → Bool
is_canonical_location owner repository base_branch =
    is_owner_name owner
    && not (ends_with owner (codes "-"))
    && not (contains owner (codes "--"))
    && is_repository_name repository
    && not (includes (codes "." ∷ codes ".." ∷ []) repository)
    && is_branch_name base_branch
    && not (contains base_branch (codes ".."))
    && not (contains base_branch (codes "//"))
    && not (contains base_branch (codes "@{"))
    && not (ends_with base_branch (codes "/"))
    && not (ends_with base_branch (codes "."))
    && not (ends_with base_branch (codes ".lock"))

-- "/" + a + "/runs/" + b of the encoded identifiers; none is a URIError, which the caller catches.
unfoldable pub daytona_path : Text → Text → Option Text
daytona_path sandbox run = elim (encode_uri_component sandbox) [
  | none ↦ none
  | some s ↦ elim (encode_uri_component run) [
    | none ↦ none
    | some r ↦ some (codes "/" ++ (s ++ (codes "/runs/" ++ r)))
  ]
]

abbrev pub has_encoded : Text → Option Text → Bool
has_encoded path none = false
has_encoded path (some name) = contains path name

-- The identifiers and the two references of a receipt, once both are parsed.
unfoldable pub references_match : FullRevalidationReceipt → Url → Url → Bool
unfolding daytona_path
references_match r daytona braintrust =
    not (is_blank r.sandbox_id)
    && not (is_blank r.daytona_run_id)
    && not (is_blank r.braintrust_project_id)
    && not (is_blank r.braintrust_experiment_id)
    && not (is_blank r.braintrust_experiment_name)
    && daytona.protocol == codes "daytona:"
    && daytona.hostname == codes "sandbox"
    && some daytona.pathname == daytona_path r.sandbox_id r.daytona_run_id
    && daytona.username == []
    && daytona.password == []
    && braintrust.protocol == codes "https:"
    && includes (codes "braintrust.dev" ∷ codes "www.braintrust.dev" ∷ [])
        (to_lower_case braintrust.hostname)
    && braintrust.port == []
    && braintrust.username == []
    && braintrust.password == []
    && has_encoded braintrust.pathname (encode_uri_component r.braintrust_experiment_name)

module _ (rt : Runtime) where
  unfoldable pub compute_full_revalidation_attestation_digest :
      FullRevalidationReceipt → Option Text
  compute_full_revalidation_attestation_digest r = digest_of rt (attested_js r)

  unfoldable pub references_valid : FullRevalidationReceipt → Bool
  unfolding references_match
  references_valid r = elim (rt.parse_url r.daytona_evidence_ref) [
    | none ↦ false
    | some daytona ↦ elim (rt.parse_url r.braintrust_experiment_ref) [
      | none ↦ false
      | some braintrust ↦ references_match r daytona braintrust
    ]
  ]

  -- `validationPurpose` is one of its two values by its type.
  unfoldable pub is_full_revalidation_receipt_structurally_valid : FullRevalidationReceipt → Bool
  unfolding every_gate_passed is_canonical_location references_valid
      compute_full_revalidation_attestation_digest
  is_full_revalidation_receipt_structurally_valid r =
      r.source_kind == codes "live-provider-evidence"
      && r.mode == codes "live"
      && not (is_blank r.session_id)
      && not (is_blank r.policy_version)
      && r.execution_provider == codes "daytona"
      && r.evaluation_provider == codes "braintrust"
      && every_gate_passed r
      && not (is_blank r.candidate_id)
      && r.pull_request_target.provider == codes "github"
      && is_canonical_location r.pull_request_target.owner r.pull_request_target.repository
          r.pull_request_target.base_branch
      && is_sha256_digest r.patch_digest
      && is_full_git_object_id r.commit_sha
      && is_full_git_object_id r.validated_tree_sha
      && is_sha256_digest r.evidence_digest
      && is_sha256_digest r.attestation_digest
      && references_valid r
      && compute_full_revalidation_attestation_digest r == some r.attestation_digest

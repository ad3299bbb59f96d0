-- ===== src/Domain/Workflow/Receipts.antt =====
-- The checks of a receipt or a pull request that reaches the workflow, as the conditions that make the
-- code throw (packages/domain/src/state-machine.ts).
use safecommit_ai.Domain.Revalidation.{is_canonical_location}
use safecommit_ai.Domain.Session.{AttemptPurpose, DaytonaAttemptRecord, ValidationSession, repair}
use safecommit_ai.Domain.Types.{
  FullRevalidationReceipt, PullRequestRecord, PullRequestTarget, ValidationPurpose,
  initial_selection, review_repair,
}
use safecommit_ai.Domain.Workflow.Gates.{is_finished, is_reserved}
use safecommit_ai.Prelude.{
  Bool, List, Option, Text, [], bool_eq, distinct, every, false, keep, leb, length, ltb, map,
  nat_eq, none, not, option_eq, some, text_eq, true, ℕ, ◌!=◌, ◌&&◌, ◌++◌, ◌==◌, ◌||◌, ◌∷◌,
}
use safecommit_ai.Runtime.{Runtime, Url}
use safecommit_ai.Text.{
  codes, is_full_git_object_id, split, starts_with, strip_trailing, to_lower_case,
}
use safecommit_ai.Text.Encoding.{encode_uri_component, number_text}

abbrev pub is_repair : AttemptPurpose → Bool
is_repair repair = true
is_repair _ = false

abbrev pub is_review_repair : ValidationPurpose → Bool
is_review_repair review_repair = true
is_review_repair _ = false

-- The attempt's purpose fits the purpose of the receipt.
unfoldable pub purpose_matches : ValidationPurpose → AttemptPurpose → Bool
purpose_matches review_repair p = is_repair p
purpose_matches initial_selection p = not (is_repair p)

unfoldable pub is_fresh_reservation : DaytonaAttemptRecord → Bool
is_fresh_reservation a =
    is_reserved a.reservation_status && not a.duplicate_sandbox && not a.duplicate_run

unfoldable pub is_attempt_of : FullRevalidationReceipt → DaytonaAttemptRecord → Bool
unfolding purpose_matches
is_attempt_of r a =
    is_reserved a.reservation_status
    && is_finished a.disposition
    && purpose_matches r.validation_purpose a.purpose
    && a.candidate_id == r.candidate_id
    && a.sandbox_id == r.sandbox_id
    && a.run_id == r.daytona_run_id

unfoldable pub receipt_has_unique_reserved_attempt :
    ValidationSession → FullRevalidationReceipt → Bool
unfolding is_fresh_reservation is_attempt_of
receipt_has_unique_reserved_attempt s r =
    let history = s.sandbox_attempt_history in
    let sandbox_ids = map (λ a. a.sandbox_id) history in
    let run_ids = map (λ a. a.run_id) history in
    ltb 0 (length history)
    && every is_fresh_reservation history
    && length (distinct sandbox_ids) == length sandbox_ids
    && length (distinct run_ids) == length run_ids
    && length (keep (is_attempt_of r) history) == 1

-- The target that a receipt names is not the session's.
unfoldable pub is_other_target : PullRequestTarget → Option PullRequestTarget → Bool
is_other_target t none = true
is_other_target t (some u) =
    t.owner != u.owner || t.repository != u.repository || t.base_branch != u.base_branch

abbrev pub max_safe_integer : ℕ
max_safe_integer = 9007199254740991

-- "/" + a + "/" + b + "/pull/" + n of the encoded names.
abbrev pub pull_path : Option Text → Option Text → Text → Option Text
pull_path (some a) (some b) n = some (b'/' ∷ a ++ (b'/' ∷ b ++ (codes "/pull/" ++ n)))
pull_path _ _ n = none

abbrev lower_option : Option Text → Option Text
lower_option none = none
lower_option (some t) = some (to_lower_case t)

unfoldable pub is_below_repository : Url → Url → List Text → Bool
is_below_repository evidence pull (owner ∷ repository ∷ word ∷ number ∷ rest) =
    let repository_path = b'/' ∷ owner ++ (b'/' ∷ repository) in
    word == codes "pull"
    && evidence.protocol == codes "https:"
    && evidence.username == []
    && evidence.password == []
    && to_lower_case evidence.origin == to_lower_case pull.origin
    && (evidence.pathname == repository_path
        || starts_with evidence.pathname (repository_path ++ codes "/"))
is_below_repository evidence pull _ = false

module _ (rt : Runtime) where
  unfoldable pub is_canonical_github_pull_request : PullRequestRecord → Bool
  unfolding is_canonical_location
  is_canonical_github_pull_request pr = elim (rt.parse_url pr.url) [
    | none ↦ false
    | some url ↦
        is_canonical_location pr.owner pr.repository pr.base_branch
        && is_full_git_object_id pr.head_sha
        && is_full_git_object_id pr.head_tree_sha
        && is_full_git_object_id pr.base_sha
        && leb pr.number max_safe_integer
        && ltb 0 pr.number
        && url.protocol == codes "https:"
        && to_lower_case url.hostname == codes "github.com"
        && url.port == []
        && url.username == []
        && url.password == []
        && some (to_lower_case url.pathname)
          == lower_option (
              pull_path (encode_uri_component pr.owner) (encode_uri_component pr.repository)
                (number_text pr.number))
        && url.search == []
        && url.hash == []
  ]

  unfoldable pub is_review_url_for_pull_request : Text → Text → Bool
  is_review_url_for_pull_request review_url pull_request_url = elim (rt.parse_url review_url) [
    | none ↦ false
    | some review ↦ elim (rt.parse_url pull_request_url) [
      | none ↦ false
      | some pull ↦
          let pull_base = strip_trailing b'/' pull.pathname in
          review.protocol == codes "https:"
          && review.username == []
          && review.password == []
          && to_lower_case review.origin == to_lower_case pull.origin
          && (review.pathname == pull_base || starts_with review.pathname (pull_base ++ codes "/"))
    ]
  ]

  unfoldable pub is_evidence_url_for_pull_request_repository : Text → Text → Bool
  unfolding is_below_repository
  is_evidence_url_for_pull_request_repository evidence_url pull_request_url =
      elim (rt.parse_url evidence_url) [
        | none ↦ false
        | some evidence ↦ elim (rt.parse_url pull_request_url) [
          | none ↦ false
          | some pull ↦
              is_below_repository evidence pull (keep (λ p. p != []) (split b'/' pull.pathname))
        ]
      ]

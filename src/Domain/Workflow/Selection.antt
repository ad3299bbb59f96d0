-- ===== src/Domain/Workflow/Selection.antt =====
-- The events CANDIDATES_GENERATED, SANDBOXES_PROVISIONED and CANDIDATE_SELECTED of
-- `transitionValidationSession` (packages/domain/src/state-machine.ts).
use safecommit_ai.Prelude.{
  ℕ, ◌+◌, Bool, true, false, not, ◌&&◌, ◌||◌, Option, none, some, List, [], ◌∷◌, map, Text, ok, err,
  ◌==◌, ◌!=◌, ltb, nat_eq, text_eq, option_eq, if◌then◌else◌, some_of, length, includes, distinct,
  throw_if,
}
use safecommit_ai.Text.{is_blank, is_full_git_object_id, is_sha256_digest}
use safecommit_ai.Runtime.{Runtime}
use safecommit_ai.Domain.Types.{RunKind, single, tournament, FullRevalidationReceipt}
use safecommit_ai.Domain.Session.{ValidationSession, DaytonaAttemptRecord, awaiting_human_approval}
use safecommit_ai.Domain.Evidence.Normal.{text_leb, sort_entries}
use safecommit_ai.Domain.Workflow.Events.{
  SelectedCandidate, candidate_selected_type, candidate_not_evaluated, commit_not_full,
  digests_not_sha256, live_receipt_missing, live_receipt_mismatch,
}
use safecommit_ai.Domain.Workflow.Gates.{is_live}
use safecommit_ai.Domain.Workflow.Receipts.{is_repair}
use safecommit_ai.Domain.Workflow.Refusals.{is_selection_refused}
use safecommit_ai.Domain.Workflow.Outcome.{Outcome, refusal}

abbrev pub minimum_candidates : RunKind → ℕ
minimum_candidates tournament = 3
minimum_candidates single = 1

abbrev pub are_candidates_refused : RunKind → List Text → Bool
are_candidates_refused kind ids =
    length (distinct ids) != length ids || ltb (length (distinct ids)) (minimum_candidates kind)

-- xs.sort(), by code units.
unfoldable pub sort_texts : List Text → List Text
unfolding sort_entries text_leb
sort_texts xs = map (λ e. e.0) (sort_entries {V = Unit {0}} text_leb (map (λ x. (x, tt)) xs))

-- xs.some((x, i) => x !== ys[i])
unfoldable pub differs_at_some_index : List Text → List Text → Bool
differs_at_some_index [] ys = false
differs_at_some_index (x ∷ xs) [] = true
differs_at_some_index (x ∷ xs) (y ∷ ys) = x != y || differs_at_some_index xs ys

-- The entry has an attempt of its own in the history that is no review repair.
unfoldable pub has_attempt : List DaytonaAttemptRecord → Text × Text → Bool
has_attempt history e =
    some_of (λ a. a.candidate_id == e.0 && a.sandbox_id == e.1 && not (is_repair a.purpose)) history

unfoldable pub is_sandbox_map_refused : ValidationSession → List (Text × Text) → Bool
unfolding sort_texts differs_at_some_index has_attempt
is_sandbox_map_refused s entries =
    let candidate_ids = sort_texts s.candidate_ids in
    let mapped_candidates = sort_texts (map (λ e. e.0) entries) in
    let sandbox_ids = map (λ e. e.1) entries in
    length candidate_ids != length mapped_candidates
    || differs_at_some_index candidate_ids mapped_candidates
    || length (distinct sandbox_ids) != length sandbox_ids
    || some_of is_blank sandbox_ids
    || (is_live s.mode && some_of (λ e. not (has_attempt s.sandbox_attempt_history e)) entries)

-- CANDIDATE_SELECTED

abbrev pub tree_of : Option FullRevalidationReceipt → Option Text
tree_of none = none
tree_of (some r) = some r.validated_tree_sha

unfoldable pub with_selection :
    ValidationSession
    → SelectedCandidate
    → Option FullRevalidationReceipt
    → Text
    → ValidationSession
with_selection s e receipt at = record s {
  state = awaiting_human_approval;
  updated_at = at;
  selected_candidate_id = some e.candidate_id;
  current_patch_digest = some e.patch_digest;
  current_evidence_digest = some e.evidence_digest;
  current_commit_sha = some e.commit_sha;
  current_validated_tree_sha = tree_of receipt;
  last_revalidation = receipt;
  validation_round = s.validation_round + 1;
}

module _ (rt : Runtime) where
  -- requireInitialValidationReceipt
  unfoldable pub with_live_selection :
      ValidationSession → SelectedCandidate → Option FullRevalidationReceipt → Text → Outcome
  unfolding with_selection
  with_live_selection s e none at = err (refusal s candidate_selected_type live_receipt_missing)
  with_live_selection s e (some r) at =
      throw_if (is_selection_refused rt s e r)
        (refusal s candidate_selected_type live_receipt_mismatch)
        (ok (with_selection s e (some r) at))

  unfoldable pub select_candidate_event : ValidationSession → SelectedCandidate → Text → Outcome
  unfolding with_live_selection
  select_candidate_event s e at =
      throw_if (not (includes s.candidate_ids e.candidate_id))
        (refusal s candidate_selected_type candidate_not_evaluated)
        (throw_if (not (is_full_git_object_id e.commit_sha))
          (refusal s candidate_selected_type commit_not_full)
          (throw_if
            (not (is_sha256_digest e.patch_digest) || not (is_sha256_digest e.evidence_digest))
            (refusal s candidate_selected_type digests_not_sha256)
            (if is_live s.mode
              then with_live_selection s e e.receipt at
              else ok (with_selection s e none at))))

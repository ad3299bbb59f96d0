-- ===== src/Domain/Approval/Binding.antt =====
-- What a human approval is bound to (`createHumanApproval` and `isApprovalValid` of
-- packages/domain/src/approval.ts).
use safecommit_ai.Domain.Approval.{
  ApprovalBinding, is_given_approval_valid, optional_target_js, same_target_digest,
}
use safecommit_ai.Domain.Evidence.{canonical_json, compute_evidence_digest, digest_of}
use safecommit_ai.Domain.Evidence.Binding.{Collision, digest_of-injective, member_text}
use safecommit_ai.Domain.Evidence.Normal.{Js, Json, JsonFields, normalize_json}
use safecommit_ai.Domain.Evidence.Print.{json_text}
use safecommit_ai.Domain.Evidence.Printable.{IsPrintable}
use safecommit_ai.Domain.Evidence.Quoted.{IsUnits, every-IsUnits}
use safecommit_ai.Domain.Types.{HumanApproval, PullRequestTarget}
use safecommit_ai.Prelude.{
  ==-eq, All, Option, String, [], ap, arith, bool_eq, every, inl, inr, ltb, nat_eq, none, ok,
  option_eq, refl, some, sym, text_beq, text_eq, true, ◌∙◌, ◌∷◌, ◌≡◌, ◌⊎◌,
}
use safecommit_ai.Runtime.{Runtime}
use safecommit_ai.Text.{codes}

-- The pull request target is the only part that an approval is compared with by its digest alone.
unfoldable pub TargetHasUnits : Option PullRequestTarget → Type 0
TargetHasUnits none = Unit
TargetHasUnits (some t) = All IsUnits (t.provider ∷ t.owner ∷ t.repository ∷ t.base_branch ∷ [])

normal_target : Option PullRequestTarget → Json
normal_target none = Json.null
normal_target (some t) = Json.obj (
    JsonFields.field (codes "baseBranch") (Json.str t.base_branch) (
      JsonFields.field (codes "owner") (Json.str t.owner) (
        JsonFields.field (codes "provider") (Json.str t.provider)
          (JsonFields.field (codes "repository") (Json.str t.repository) JsonFields.end))))

normalize-target :
    (o : Option PullRequestTarget)
    → normalize_json (optional_target_js Js.null o) ≡ ok (normal_target o)
unfolding normal_target normalize_json optional_target_js text_beq
normalize-target none = refl
normalize-target (some t) = refl

key : (k : String) → every (λ c. ltb c 65536) (codes k) ≡ true → IsUnits (codes k)
key k h = every-IsUnits (codes k) h

target-IsPrintable :
    (o : Option PullRequestTarget) → TargetHasUnits o → IsPrintable (normal_target o)
unfolding normal_target IsPrintable TargetHasUnits
target-IsPrintable none h = tt
target-IsPrintable (some t) h =
    let (provider, (owner, (repository, (branch, _)))) = h in
    (
      key "baseBranch" refl,
      branch,
      (
        key "owner" refl,
        owner,
        (key "provider" refl, provider, (key "repository" refl, repository, tt)),
      ),
    )

target-eq : (o p : Option PullRequestTarget) → normal_target o ≡ normal_target p → o ≡ p
unfolding normal_target text_beq
target-eq none none e = refl
target-eq none (some t) e = cc
target-eq (some t) none e = cc
target-eq (some t) (some u) e =
    let same = λ (k : String). ap (member_text (codes k)) e in
    λ i. some (record {
      provider = same "provider" i;
      owner = same "owner" i;
      repository = same "repository" i;
      base_branch = same "baseBranch" i;
    })

normal-digest :
    (rt : Runtime) (o : Option PullRequestTarget)
    → digest_of rt (optional_target_js Js.null o) ≡ some (rt.sha256 (json_text (normal_target o)))
unfolding digest_of compute_evidence_digest canonical_json
normal-digest rt o =
    rw (normalize-target o, digest_of, compute_evidence_digest, canonical_json) refl

module _ (rt : Runtime) where
  same_target :
      (a : HumanApproval) (current : ApprovalBinding)
      → is_given_approval_valid rt a current ≡ true
      → digest_of rt (optional_target_js Js.null a.pull_request_target)
        ≡ digest_of rt (optional_target_js Js.null current.pull_request_target)
  unfolding is_given_approval_valid same_target_digest
  same_target a current valid =
      ==-eq (digest_of rt (optional_target_js Js.null a.pull_request_target)) _ (ground arith)

  -- A valid approval is for the very target of the pull request, with the same provider, owner,
  -- repository and base branch, or both without one, unless two different texts have the same
  -- SHA-256 digest.
  pub is_given_approval_valid-target :
      (a : HumanApproval) (current : ApprovalBinding)
      → TargetHasUnits a.pull_request_target
      → TargetHasUnits current.pull_request_target
      → is_given_approval_valid rt a current ≡ true
      → (a.pull_request_target ≡ current.pull_request_target) ⊎ Collision rt
  is_given_approval_valid-target a current ha hc valid =
      elim (digest_of-injective rt (optional_target_js Js.null a.pull_request_target)
        (optional_target_js Js.null current.pull_request_target)
        (normal_target a.pull_request_target) (normal_target current.pull_request_target)
        (normalize-target a.pull_request_target) (normalize-target current.pull_request_target)
        (target-IsPrintable a.pull_request_target ha)
        (target-IsPrintable current.pull_request_target hc) (normal-digest rt a.pull_request_target)
        (sym (same_target a current valid) ∙ normal-digest rt a.pull_request_target)) [
          | inl same ↦ inl (target-eq a.pull_request_target current.pull_request_target same)
          | inr collide ↦ inr collide
        ]

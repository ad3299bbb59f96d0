-- ===== src/Domain/DatabaseApproval/Binding.antt =====
-- What a database approval is bound to (`isDatabaseApprovalValid` of
-- packages/domain/src/database-approval.ts).
use safecommit_ai.Domain.DatabaseApproval.{
  DatabaseApproval, DatabaseApprovalBinding, compute_database_approval_binding_digest,
  create_database_approval, database_binding_js, is_database_approval_valid,
}
use safecommit_ai.Domain.Evidence.{digest_of}
use safecommit_ai.Domain.Evidence.Binding.{Collision, digest_of-injective, member_text}
use safecommit_ai.Domain.Evidence.Normal.{Json, JsonFields, normalize_json}
use safecommit_ai.Domain.Evidence.Printable.{IsPrintable}
use safecommit_ai.Domain.Evidence.Quoted.{IsUnits, every-IsUnits}
use safecommit_ai.Domain.Types.{ApprovalDecision}
use safecommit_ai.Prelude.{
  ==-eq, All, List, Option-cases, String, Text, [], ap, arith, bool_eq, every, inl, inr, ltb,
  nat_eq, ok, option_eq, refl, some, sym, text_beq, text_eq, true, ◌∷◌, ◌≡◌, ◌⊎◌,
}
use safecommit_ai.Runtime.{Runtime}
use safecommit_ai.Text.{codes}

abbrev fields : DatabaseApprovalBinding → List Text
fields b =
    b.candidate_id ∷ b.plan_digest ∷ b.intent_contract_digest ∷ b.evidence_digest
    ∷ b.snapshot_digest ∷ b.schema_fingerprint ∷ b.policy_version ∷ b.source_commit_sha
    ∷ b.approver_id ∷ b.timestamp ∷ []

-- Every text of the binding consists of UTF-16 code units.
unfoldable pub HasUnits : DatabaseApprovalBinding → Type 0
HasUnits b = All IsUnits (fields b)

-- The keys sorted.
normal_binding : DatabaseApprovalBinding → Json
normal_binding b = Json.obj (
    JsonFields.field (codes "approverId") (Json.str b.approver_id) (
      JsonFields.field (codes "candidateId") (Json.str b.candidate_id) (
        JsonFields.field (codes "evidenceDigest") (Json.str b.evidence_digest) (
          JsonFields.field (codes "intentContractDigest") (Json.str b.intent_contract_digest) (
            JsonFields.field (codes "planDigest") (Json.str b.plan_digest) (
              JsonFields.field (codes "policyVersion") (Json.str b.policy_version) (
                JsonFields.field (codes "schemaFingerprint") (Json.str b.schema_fingerprint) (
                  JsonFields.field (codes "snapshotDigest") (Json.str b.snapshot_digest) (
                    JsonFields.field (codes "sourceCommitSha") (Json.str b.source_commit_sha) (
                      JsonFields.field (codes "timestamp") (Json.str b.timestamp)
                        JsonFields.end))))))))))

normalize-binding :
    (b : DatabaseApprovalBinding) → normalize_json (database_binding_js b) ≡ ok (normal_binding b)
unfolding normal_binding normalize_json database_binding_js text_beq
normalize-binding b = refl

key : (k : String) → every (λ c. ltb c 65536) (codes k) ≡ true → IsUnits (codes k)
key k h = every-IsUnits (codes k) h

binding-IsPrintable : (b : DatabaseApprovalBinding) → HasUnits b → IsPrintable (normal_binding b)
unfolding normal_binding IsPrintable HasUnits
binding-IsPrintable b h =
    let (
      candidate,
      (plan, (intent, (evidence, (snapshot, (schema, (policy, (commit, (approver, (time, _))))))))),
    ) =
      h in
    (
      key "approverId" refl,
      approver,
      (
        key "candidateId" refl,
        candidate,
        (
          key "evidenceDigest" refl,
          evidence,
          (
            key "intentContractDigest" refl,
            intent,
            (
              key "planDigest" refl,
              plan,
              (
                key "policyVersion" refl,
                policy,
                (
                  key "schemaFingerprint" refl,
                  schema,
                  (
                    key "snapshotDigest" refl,
                    snapshot,
                    (key "sourceCommitSha" refl, commit, (key "timestamp" refl, time, tt)),
                  ),
                ),
              ),
            ),
          ),
        ),
      ),
    )

binding-eq : (b c : DatabaseApprovalBinding) → normal_binding b ≡ normal_binding c → b ≡ c
unfolding normal_binding text_beq
binding-eq b c e =
    let same = λ (k : String). ap (member_text (codes k)) e in
    λ i. record {
      candidate_id = same "candidateId" i;
      plan_digest = same "planDigest" i;
      intent_contract_digest = same "intentContractDigest" i;
      evidence_digest = same "evidenceDigest" i;
      snapshot_digest = same "snapshotDigest" i;
      schema_fingerprint = same "schemaFingerprint" i;
      policy_version = same "policyVersion" i;
      source_commit_sha = same "sourceCommitSha" i;
      approver_id = same "approverId" i;
      timestamp = same "timestamp" i;
    }

module _ (rt : Runtime) where
  created-digest :
      (id : Text) (decision : ApprovalDecision) (b : DatabaseApprovalBinding) (a : DatabaseApproval)
      → create_database_approval rt id decision b ≡ some a
      → digest_of rt (database_binding_js b) ≡ some a.binding_digest
  unfolding create_database_approval compute_database_approval_binding_digest
  created-digest id decision b a made = elim (Option-cases (digest_of rt (database_binding_js b))) [
    | inl throws ↦ ground (arith, throws)
    | inr (d, e) ↦ ground (arith, e)
  ]

  valid-digest :
      (a : DatabaseApproval) (current : DatabaseApprovalBinding)
      → is_database_approval_valid rt (some a) current ≡ true
      → some a.binding_digest ≡ digest_of rt (database_binding_js current)
  unfolding is_database_approval_valid compute_database_approval_binding_digest
  valid-digest a current valid = ==-eq (some a.binding_digest) _ (ground arith)

  -- An approval that was created for one binding and is valid for another binds all ten parts of
  -- it: the two bindings are one, unless two different texts have the same SHA-256 digest.
  pub is_database_approval_valid-binding :
      (id : Text) (decision : ApprovalDecision) (b current : DatabaseApprovalBinding)
      (a : DatabaseApproval)
      → HasUnits b
      → HasUnits current
      → create_database_approval rt id decision b ≡ some a
      → is_database_approval_valid rt (some a) current ≡ true
      → (b ≡ current) ⊎ Collision rt
  is_database_approval_valid-binding id decision b current a hb hc made valid =
      elim (digest_of-injective rt (database_binding_js b) (database_binding_js current)
        (normal_binding b) (normal_binding current) (normalize-binding b)
        (normalize-binding current) (binding-IsPrintable b hb) (binding-IsPrintable current hc)
        (created-digest id decision b a made) (sym (valid-digest a current valid))) [
          | inl same ↦ inl (binding-eq b current same)
          | inr collide ↦ inr collide
        ]

-- ===== src/SafetyPolicy/PatchIntegrity/Progress.antt =====
-- How `validatePatchIntegrity` (packages/safety-policy/src/patch-integrity.ts) collects violations: none is ever
-- taken back, and where there is none, what is asked of a changed file holds of every one.
use safecommit_ai.Domain.Evidence.Reading.{lead}
use safecommit_ai.Prelude.{
  All, Bool, Bool-cases, List, Text, [], ap, false, includes, inl, inr, nat_eq, refl, subst, sym,
  text_eq, true, true≢false, ◌++◌, ◌∙◌, ◌∷◌, ◌≡◌, ◌≢◌,
}
use safecommit_ai.SafetyPolicy.PatchIntegrity.Paths.{IntegrityViolation}
use safecommit_ai.SafetyPolicy.PatchIntegrity.Variables.{Scan, add_if, add_violation, violation_key}

-- A violation's key is seen only where a violation is reported.
abbrev pub Consistent : Scan → Type 0
Consistent s = s.violations ≡ [] → s.seen_violations ≡ []

module _ (P : Text → Type 0) where
  -- From `s` the loop has come to `t`.
  pub record Progress (s t : Scan) : Type 0 where
    pub consistent : Consistent t
    pub earlier : t.violations ≡ [] → s.violations ≡ []
    pub files : t.violations ≡ [] → All P s.changed_files → All P t.changed_files

  abbrev pub Leads : Scan → Scan → Type 0
  Leads s t = Consistent s → Progress s t

  pub Leads-trans : {s t u : Scan} → Leads s t → Leads t u → Leads s u
  Leads-trans f g c =
      let p = f c in
      let q = g p.consistent in
      record {
        consistent = q.consistent;
        earlier = λ clean. p.earlier (q.earlier clean);
        files = λ clean fs. q.files clean (p.files (q.earlier clean) fs);
      }

  -- The other variables.
  pub Leads-set :
      {s t u : Scan}
      → u.violations ≡ t.violations
      → u.seen_violations ≡ t.seen_violations
      → u.changed_files ≡ t.changed_files
      → Leads s t
      → Leads s u
  Leads-set v k f lead c =
      let p = lead c in
      record {
        consistent = λ clean. k ∙ p.consistent (sym v ∙ clean);
        earlier = λ clean. p.earlier (sym v ∙ clean);
        files = λ clean fs. subst (All P) (sym f) (p.files (sym v ∙ clean) fs);
      }

  pub Leads-refl : (s : Scan) → Leads s s
  Leads-refl s c = record { consistent = c; earlier = λ clean. clean; files = λ clean fs. fs }

append_one-not_nil : {A : Type 0} (xs : List A) (x : A) → xs ++ x ∷ [] ≢ []
append_one-not_nil [] x h = cc
append_one-not_nil (y ∷ xs) x h = cc

-- A reported violation stays.
pub add_violation-dirty :
    (v : IntegrityViolation) (s : Scan) → Consistent s → (add_violation v s).violations ≢ []
unfolding add_violation
add_violation-dirty v s c = elim (Bool-cases (includes s.seen_violations (violation_key v))) [
  | inl seen ↦
      rw seen λ clean. true≢false (sym seen ∙ ap (λ ks. includes ks (violation_key v)) (c clean))
  | inr fresh ↦ rw fresh (append_one-not_nil s.violations v)
]

module _ (P : Text → Type 0) where
  pub reported :
      (v : IntegrityViolation) {s : Scan} (t : Scan)
      → Consistent t
      → Progress P s (add_violation v t)
  reported v t c =
      let dirty = add_violation-dirty v t c in
      record {
        consistent = λ clean. absurd (dirty clean);
        earlier = λ clean. absurd (dirty clean);
        files = λ clean fs. absurd (dirty clean);
      }

  pub Leads-add_violation : (v : IntegrityViolation) (s : Scan) → Leads P s (add_violation v s)
  Leads-add_violation v s = reported v s

  pub Leads-add_if :
      (b : Bool) (v : IntegrityViolation) {s t : Scan} → Leads P s t → Leads P s (add_if b v t)
  unfolding add_if
  Leads-add_if true v {t = t} lead = Leads-trans P lead (Leads-add_violation v t)
  Leads-add_if false v lead = lead

pub add_if-Consistent :
    (b : Bool) (v : IntegrityViolation) (s : Scan) → Consistent s → Consistent (add_if b v s)
add_if-Consistent b v s c = (Leads-add_if (λ _. Unit) b v (Leads-refl (λ _. Unit) s) c).consistent

-- A test that has reported nothing has not fired, and has changed nothing.
pub add_if-clean :
    (b : Bool) (v : IntegrityViolation) (s : Scan)
    → Consistent s
    → (add_if b v s).violations ≡ []
    → (b ≡ false) × (add_if b v s ≡ s) × (s.violations ≡ [])
unfolding add_if
add_if-clean true v s c clean = absurd (add_violation-dirty v s c clean)
add_if-clean false v s c clean = (refl, refl, clean)

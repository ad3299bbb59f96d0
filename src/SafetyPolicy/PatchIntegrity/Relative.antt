-- ===== src/SafetyPolicy/PatchIntegrity/Relative.antt =====
-- The paths that `validateAndNormalizePath` (packages/safety-policy/src/patch-integrity.ts) returns stay in the
-- repository.
use safecommit_ai.Prelude.{
  ==-eq, Bool-cases, List, Text, [], ap, arith, bool_eq, false, if◌then◌else◌, inl, inr, nat_eq,
  none, option_eq, refl, some, some_eq, some_of, subst, sym, text_eq, true, true≢false, ℕ, ◌==◌,
  ◌∙◌, ◌∷◌, ◌≡◌,
}
use safecommit_ai.SafetyPolicy.PatchIntegrity.Paths.{
  dev_null, is_allowed_path, is_bad_segment, is_not_relative, join_segments, normalize_path,
  normalize_segments, path_violation, slash, strip_git_prefix, validate_and_normalize_path,
}
use safecommit_ai.SafetyPolicy.PatchIntegrity.Turns.{IsAcceptable}
use safecommit_ai.Text.{join_first, split, trim}

-- A path from the root of the repository: it is not empty and not absolute, it names no drive, and no segment
-- of it is empty, `.` or `..`.
pub record IsRelative (path : Text) : Type 0 where
  pub segments : some_of is_bad_segment (split b'/' path) ≡ false
  pub relative : is_not_relative path ≡ false

join_segments-join_first :
    (d : ℕ) (t : Text) (ts : List Text)
    → join_segments (join_first d (t ∷ ts)) ≡ d ∷ join_segments (t ∷ ts)
unfolding join_segments join_first
join_segments-join_first d t [] = refl
join_segments-join_first d t (u ∷ ts) = refl

split-cons : (c : ℕ) (s : Text) → (t : Text) × (ts : List Text) × (split c s ≡ t ∷ ts)
unfolding split join_first
split-cons c [] = ([], [], refl)
split-cons c (d ∷ s) =
    let (t, ts, parts) = split-cons c s in
    elim (Bool-cases (c == d)) [
      | inl cut ↦ ([], split c s, rw cut refl)
      | inr kept ↦ (d ∷ t, ts, rw (kept, parts) refl)
    ]

join_segments-nil :
    (ts : List Text) {t : Text} {us : List Text}
    → ts ≡ t ∷ us
    → join_segments ([] ∷ ts) ≡ b'/' ∷ join_segments ts
unfolding join_segments
join_segments-nil [] e = cc
join_segments-nil (t ∷ ts) e = refl

join_segments-unit :
    (d : ℕ) (ts : List Text) {t : Text} {us : List Text}
    → ts ≡ t ∷ us
    → join_segments (join_first d ts) ≡ d ∷ join_segments ts
join_segments-unit d [] e = cc
join_segments-unit d (t ∷ ts) e = join_segments-join_first d t ts

-- The segments of a path make it up again.
join_segments-split : (s : Text) → join_segments (split b'/' s) ≡ s
unfolding split join_segments
join_segments-split [] = refl
join_segments-split (d ∷ s) =
    let (t, ts, parts) = split-cons b'/' s in
    elim (Bool-cases (b'/' == d)) [
      | inl cut ↦ rw cut (
          join_segments-nil (split b'/' s) parts
          ∙ (ap (λ r. b'/' ∷ r) (join_segments-split s) ∙ ap (λ c. c ∷ s) (==-eq b'/' d cut)))
      | inr kept ↦
          rw kept
            (join_segments-unit d (split b'/' s) parts ∙ ap (λ r. d ∷ r) (join_segments-split s))
    ]

normalize_segments-same :
    (s : Text) {path : Text}
    → normalize_segments (split b'/' s) ≡ some path
    → (s ≡ path) × (some_of is_bad_segment (split b'/' s) ≡ false)
unfolding normalize_segments
normalize_segments-same s h = elim (Bool-cases (some_of is_bad_segment (split b'/' s))) [
  | inl bad ↦ ground (arith, bad)
  | inr good ↦ (sym (join_segments-split s) ∙ some_eq (rw (good, normalize_segments) at h), good)
]

only_dev_null :
    (s path : Text)
    → (if s == dev_null then some s else none) ≡ some path
    → (path == dev_null) ≡ true
only_dev_null s path h = elim (Bool-cases (s == dev_null)) [
  | inl absent ↦ subst (λ p. (p == dev_null) ≡ true) (some_eq (rw absent at h)) absent
  | inr named ↦ ground (arith, named)
]

-- A path that the normalisation returns is the normalised path of `/dev/null`, or stays in the
-- repository.
pub normalize_path-IsRelative :
    (s : Text) {path : Text}
    → normalize_path s ≡ some path
    → (path == dev_null) ≡ false
    → IsRelative path
unfolding normalize_path
normalize_path-IsRelative s {path} h real = elim (Bool-cases (is_not_relative s)) [
  | inl absolute ↦
      absurd (true≢false (sym (only_dev_null s path (rw (absolute, normalize_path) at h)) ∙ real))
  | inr inside ↦
      let (same, good) = normalize_segments-same s (rw (inside, normalize_path) at h) in
      record {
        segments = subst (λ p. some_of is_bad_segment (split b'/' p) ≡ false) same good;
        relative = subst (λ p. is_not_relative p ≡ false) same inside;
      }
]

-- A file of a valid patch: its path stays in the repository, matches no pattern of a protected file and lies
-- under an allowed prefix.
pub record IsSafeFile (prefixes : List Text) (file : Text) : Type 0 where
  pub inside : IsRelative file
  pub unprotected : path_violation file ≡ none
  pub allowed : is_allowed_path file prefixes ≡ true

pub IsAcceptable-IsSafeFile :
    (prefixes : List Text) (file : Text) → IsAcceptable prefixes file → IsSafeFile prefixes file
unfolding validate_and_normalize_path
IsAcceptable-IsSafeFile prefixes file accepted = record {
  inside =
      normalize_path-IsRelative (slash (strip_git_prefix (trim accepted.header))) accepted.normal
        accepted.exists;
  unprotected = accepted.unprotected;
  allowed = accepted.allowed;
}

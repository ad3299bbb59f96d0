-- ===== src/Sorting.antt =====
-- Array.prototype.sort by a test that keeps equal elements in their order: the result is a sorted
-- permutation.
use mathlib.Core.List.{Perm}
use mathlib.Core.List.Perm
use safecommit_ai.Prelude.{
  All, Any, Bool, Bool-cases, List, [], arith, false, if◌then◌else◌, inl, inr, length, refl, suc,
  true, ◌∷◌, ◌≡◌, ◌⊎◌,
}

module _ {ℓ} {A : Type ℓ} (before : A → A → Bool) where
  unfoldable pub insert_by : A → List A → List A
  insert_by x [] = x ∷ []
  insert_by x (y ∷ ys) = let rest = insert_by x ys in if before x y then x ∷ y ∷ ys else y ∷ rest

  -- xs.sort((x, y) => before(x, y) ? ... )
  unfoldable pub sort_by : List A → List A
  unfolding insert_by
  sort_by [] = []
  sort_by (x ∷ xs) = insert_by x (sort_by xs)

module _ {ℓ} {A : Type ℓ} (before : A → A → Bool) where
  pub length-insert_by : (x : A) (xs : List A) → length (insert_by before x xs) ≡ suc (length xs)
  unfolding insert_by
  length-insert_by x [] = refl
  length-insert_by x (y ∷ ys) = ground (arith, length-insert_by x ys)

  pub length-sort_by : (xs : List A) → length (sort_by before xs) ≡ length xs
  unfolding sort_by
  length-sort_by [] = refl
  length-sort_by (x ∷ xs) = omega (arith, length-insert_by x (sort_by before xs), length-sort_by xs)

  module _ {κ} (P : A → Type κ) where
    pub All-insert_by : (x : A) (xs : List A) → P x → All P xs → All P (insert_by before x xs)
    unfolding insert_by
    All-insert_by x [] p ps = (p, tt)
    All-insert_by x (y ∷ ys) p ps = elim (Bool-cases (before x y)) [
      | inl first ↦ rw first (p, ps)
      | inr later ↦ rw later (ps.0, All-insert_by x ys p ps.1)
    ]

    -- What holds of all elements holds of all of the sorted list.
    pub All-sort_by : (xs : List A) → All P xs → All P (sort_by before xs)
    unfolding sort_by
    All-sort_by [] ps = tt
    All-sort_by (x ∷ xs) ps = All-insert_by x (sort_by before xs) ps.0 (All-sort_by xs ps.1)

  -- And the other way round.
  module _ (P : A → Type 0) where
    All-placed :
        (b : Bool) (x y : A) (ys zs : List A)
        → (All P zs → P x × All P ys)
        → All P (if b then x ∷ y ∷ ys else y ∷ zs)
        → P x × All P (y ∷ ys)
    All-placed true x y ys zs rest ps = (ps.0, ps.1)
    All-placed false x y ys zs rest ps = let (p, qs) = rest ps.1 in (p, (ps.0, qs))

    All-inserted : (x : A) (xs : List A) → All P (insert_by before x xs) → P x × All P xs
    unfolding insert_by
    All-inserted x [] ps = (ps.0, tt)
    All-inserted x (y ∷ ys) ps =
        All-placed (before x y) x y ys (insert_by before x ys) (All-inserted x ys) ps

    pub All-sorted : (xs : List A) → All P (sort_by before xs) → All P xs
    unfolding sort_by
    All-sorted [] ps = tt
    All-sorted (x ∷ xs) ps =
        let (p, rest) = All-inserted x (sort_by before xs) ps in (p, All-sorted xs rest)

    Any-placed :
        (b : Bool) (x y : A) (ys zs : List A)
        → (Any P zs → P x ⊎ Any P ys)
        → Any P (if b then x ∷ y ∷ ys else y ∷ zs)
        → P x ⊎ Any P (y ∷ ys)
    Any-placed true x y ys zs rest h = h
    Any-placed false x y ys zs rest (inl q) = inr (inl q)
    Any-placed false x y ys zs rest (inr h) = elim (rest h) [ inl q ↦ inl q | inr r ↦ inr (inr r) ]

    Any-inserted : (x : A) (xs : List A) → Any P (insert_by before x xs) → P x ⊎ Any P xs
    unfolding insert_by
    Any-inserted x [] h = h
    Any-inserted x (y ∷ ys) h =
        Any-placed (before x y) x y ys (insert_by before x ys) (Any-inserted x ys) h

    pub Any-sorted : (xs : List A) → Any P (sort_by before xs) → Any P xs
    unfolding sort_by
    Any-sorted [] h = h
    Any-sorted (x ∷ xs) h = elim (Any-inserted x (sort_by before xs) h) [
      | inl q ↦ inl q
      | inr r ↦ inr (Any-sorted xs r)
    ]

module _ {ℓ} {A : Type ℓ} (before : A → A → Bool) where
  -- No element stands behind one that it comes before.
  unfoldable pub IsSortedBy : List A → Type ℓ
  IsSortedBy [] = Unit
  IsSortedBy (x ∷ xs) = All (λ y. before x y ≡ true) xs × IsSortedBy xs

  pub perm-insert_by : (x : A) (xs : List A) → Perm (insert_by before x xs) (x ∷ xs)
  unfolding insert_by
  perm-insert_by x [] = Perm.rfl
  perm-insert_by x (y ∷ ys) = elim (Bool-cases (before x y)) [
    | inl first ↦ rw first Perm.rfl
    | inr later ↦ rw later (Perm.trans (Perm.cons y (perm-insert_by x ys)) (Perm.swap x y ys))
  ]

  pub perm-sort_by : (xs : List A) → Perm (sort_by before xs) xs
  unfolding sort_by
  perm-sort_by [] = Perm.rfl
  perm-sort_by (x ∷ xs) =
      Perm.trans (perm-insert_by x (sort_by before xs)) (Perm.cons x (perm-sort_by xs))

  -- The test is total and transitive where `Q` holds.
  module _ {κ} (Q : A → Type κ)
      (total : (x y : A) → Q x → Q y → before x y ≡ false → before y x ≡ true)
      (transitive : (x y z : A)
        → Q x
        → Q y
        → Q z
        → before x y ≡ true
        → before y z ≡ true
        → before x z ≡ true) where
    All-behind :
        (x y : A) (zs : List A)
        → Q x
        → Q y
        → All Q zs
        → before x y ≡ true
        → All (λ z. before y z ≡ true) zs
        → All (λ z. before x z ≡ true) zs
    All-behind x y [] qx qy qs h hs = tt
    All-behind x y (z ∷ zs) qx qy qs h hs =
        (transitive x y z qx qy qs.0 h hs.0, All-behind x y zs qx qy qs.1 h hs.1)

    insert_by-IsSortedBy :
        (x : A) (ys : List A) → Q x → All Q ys → IsSortedBy ys → IsSortedBy (insert_by before x ys)
    unfolding insert_by IsSortedBy
    insert_by-IsSortedBy x [] qx qs s = (tt, tt)
    insert_by-IsSortedBy x (y ∷ ys) qx qs s = elim (Bool-cases (before x y)) [
      | inl first ↦ rw first ((first, All-behind x y ys qx qs.0 qs.1 first s.0), s)
      | inr later ↦ rw later (
        All-insert_by before (λ z. before y z ≡ true) x ys (total x y qx qs.0 later) s.0,
        insert_by-IsSortedBy x ys qx qs.1 s.1,
      )
    ]

    pub sort_by-IsSortedBy : (xs : List A) → All Q xs → IsSortedBy (sort_by before xs)
    unfolding sort_by IsSortedBy
    sort_by-IsSortedBy [] qs = tt
    sort_by-IsSortedBy (x ∷ xs) qs =
        insert_by-IsSortedBy x (sort_by before xs) qs.0 (All-sort_by before Q xs qs.1)
          (sort_by-IsSortedBy xs qs.1)

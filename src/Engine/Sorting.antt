-- ===== src/Engine/Sorting.antt =====
-- A stable insertion sort: Python's `sorted`, and an order for an engine.
use mathlib.Core.List.{Perm}
use mathlib.Core.List.Perm
use native.Mathlib.Nat.{le_trans}
use chore_app.Base.{
  ℕ, ◌≤◌, ◌≡◌, inl, inr, Bool, true, false, List, [], ◌∷◌, arith, leb, ltb, ◌==◌, ◌<◌, ◌⊎◌,
  if◌then◌else◌, Bool-cases, All, All-map,
}
use chore_app.Engine.{IsSortedBy, IsNewestFirst}

module _ {Row : Type 0} (before : Row → Row → Bool) where
  insert_by : Row → List Row → List Row
  insert_by x [] = x ∷ []
  insert_by x (y ∷ ys) = if before x y then x ∷ y ∷ ys else y ∷ insert_by x ys

  unfoldable pub sort_by : List Row → List Row
  unfolding insert_by
  sort_by [] = []
  sort_by (x ∷ xs) = insert_by x (sort_by xs)

  insert_by-perm : (x : Row) (ys : List Row) → Perm (insert_by x ys) (x ∷ ys)
  unfolding insert_by
  insert_by-perm x [] = Perm.refl (x ∷ [])
  insert_by-perm x (y ∷ ys) = elim (Bool-cases (before x y)) [
    | inl first ↦ rw first (Perm.refl (x ∷ y ∷ ys))
    | inr later ↦ rw later (Perm.trans (Perm.cons y (insert_by-perm x ys)) (Perm.swap x y ys))
  ]

  pub sort_by-perm : (xs : List Row) → Perm (sort_by xs) xs
  unfolding sort_by
  sort_by-perm [] = Perm.refl []
  sort_by-perm (x ∷ xs) = Perm.trans (insert_by-perm x (sort_by xs)) (Perm.cons x (sort_by-perm xs))

  module _ (R : Row → Row → Type 0) (yes_R : (x y : Row) → before x y ≡ true → R x y)
      (no_R : (x y : Row) → before x y ≡ false → R y x)
      (R_trans : (x y z : Row) → R x y → R y z → R x z) where
    All-insert_by :
        (P : Row → Type 0) (x : Row) (ys : List Row) → P x → All P ys → All P (insert_by x ys)
    unfolding insert_by
    All-insert_by P x [] p h = (p, tt)
    All-insert_by P x (y ∷ ys) p h = elim (Bool-cases (before x y)) [
      | inl first ↦ rw first (p, h)
      | inr later ↦ rw later (h.0, All-insert_by P x ys p h.1)
    ]

    insert_by-IsSortedBy :
        (x : Row) (ys : List Row) → IsSortedBy R ys → IsSortedBy R (insert_by x ys)
    unfolding insert_by
    insert_by-IsSortedBy x [] h = (tt, tt)
    insert_by-IsSortedBy x (y ∷ ys) h = elim (Bool-cases (before x y)) [
      | inl first ↦
          rw first ((yes_R x y first, All-map (λ z r. R_trans x y z (yes_R x y first) r) ys h.0), h)
      | inr later ↦
          rw later (All-insert_by (R y) x ys (no_R x y later) h.0, insert_by-IsSortedBy x ys h.1)
    ]

    sort_by-IsSortedBy : (xs : List Row) → IsSortedBy R (sort_by xs)
    unfolding sort_by
    sort_by-IsSortedBy [] = tt
    sort_by-IsSortedBy (x ∷ xs) = insert_by-IsSortedBy x (sort_by xs) (sort_by-IsSortedBy xs)

module _ (Row : Type 0) (key : Row → ℕ) where
  abbrev pub up : Row → Row → Bool
  up x y = leb (key x) (key y)

  abbrev pub down : Row → Row → Bool
  down x y = leb (key y) (key x)

  pub up_sorted : (xs : List Row) → IsSortedBy (λ x y. key x ≤ key y) (sort_by up xs)
  up_sorted =
      sort_by-IsSortedBy up (λ x y. key x ≤ key y) (λ x y e. ground arith) (λ x y e. ground arith)
        (λ x y z r s. le_trans r s)

  pub down_sorted : (xs : List Row) → IsSortedBy (λ x y. key y ≤ key x) (sort_by down xs)
  down_sorted =
      sort_by-IsSortedBy down (λ x y. key y ≤ key x) (λ x y e. ground arith) (λ x y e. ground arith)
        (λ x y z r s. le_trans s r)

module _ (Row : Type 0) (key tie : Row → ℕ) where
  abbrev pub newer : Row → Row → Bool
  newer x y = if key y == key x then leb (tie y) (tie x) else ltb (key y) (key x)

  pub newer_sorted : (xs : List Row) → IsNewestFirst key tie (sort_by newer xs)
  newer_sorted =
      sort_by-IsSortedBy newer (λ x y. (key y < key x) ⊎ ((key y ≡ key x) × (tie y ≤ tie x)))
        (λ x y e. ground arith) (λ x y e. ground arith) (λ x y z r s. ground arith)

-- ===== src/Engine.antt =====
-- What the queries of backend/app leave to PostgreSQL: the order in which rows come back. A WHERE
-- clause is a filter and is part of the model; the order of a query without ORDER BY, and that of
-- rows with equal keys, is the engine's choice.
pub mod Orders
pub mod Sorting
use mathlib.Core.List.{Perm}
use chore_app.Base.{ℕ, ◌≤◌, ◌<◌, ◌≡◌, ◌⊎◌, List, [], ◌∷◌, All}

module _ {Row : Type 0} where
  -- Every row stands in the relation to the rows that come after it.
  abbrev pub IsSortedBy : (Row → Row → Type 0) → List Row → Type 0
  IsSortedBy R [] = Unit
  IsSortedBy R (x ∷ xs) = All (R x) xs × IsSortedBy R xs

  -- The least key comes first.
  abbrev pub IsAscending : (Row → ℕ) → List Row → Type 0
  IsAscending key = IsSortedBy (λ x y. key x ≤ key y)

  -- The greatest key comes first.
  abbrev pub IsDescending : (Row → ℕ) → List Row → Type 0
  IsDescending key = IsSortedBy (λ x y. key y ≤ key x)

  -- The greatest key comes first; among equal keys, the greatest second key.
  abbrev pub IsNewestFirst : (Row → ℕ) → (Row → ℕ) → List Row → Type 0
  IsNewestFirst key tie = IsSortedBy (λ x y. (key y < key x) ⊎ ((key y ≡ key x) × (tie y ≤ tie x)))

-- A query with the same text answers the same on the same rows.
pub record Engine : Type 1 where
  pub scan : (Row : Type 0) → List Row → List Row
  pub scan-perm : (Row : Type 0) (rows : List Row) → Perm (scan Row rows) rows
  pub ascending : (Row : Type 0) → (Row → ℕ) → List Row → List Row
  pub ascending-perm :
      (Row : Type 0) (key : Row → ℕ) (rows : List Row) → Perm (ascending Row key rows) rows
  pub ascending-IsAscending :
      (Row : Type 0) (key : Row → ℕ) (rows : List Row) → IsAscending key (ascending Row key rows)
  pub descending : (Row : Type 0) → (Row → ℕ) → List Row → List Row
  pub descending-perm :
      (Row : Type 0) (key : Row → ℕ) (rows : List Row) → Perm (descending Row key rows) rows
  pub descending-IsDescending :
      (Row : Type 0) (key : Row → ℕ) (rows : List Row) → IsDescending key (descending Row key rows)
  pub newest : (Row : Type 0) → (Row → ℕ) → (Row → ℕ) → List Row → List Row
  pub newest-perm :
      (Row : Type 0) (key tie : Row → ℕ) (rows : List Row) → Perm (newest Row key tie rows) rows
  pub newest-IsNewestFirst :
      (Row : Type 0) (key tie : Row → ℕ) (rows : List Row)
      → IsNewestFirst key tie (newest Row key tie rows)

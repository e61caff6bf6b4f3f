-- ===== src/Base/Joins.antt =====
-- Joins of tables, and what makes a join answer one row for each row of its first table.
use Prim.Native.Nat.{◌≤◌}
use mathlib.Core.Path.{◌≡◌, refl, ap}
use mathlib.Core.Option.{Option, none, some}
use mathlib.Core.List.{List, [], ◌∷◌, ◌++◌, map}
use native.Mathlib.Omega.{arith}
use chore_app.Base.Lists.{length, filter, All}
use chore_app.Base.Tests.{Bool-cases}
use mathlib.Core.Bool.{Bool}
use mathlib.Core.Logic.{inl, inr}

module _ {A B : Type 0} where
  -- `FROM a JOIN b ON ...`: the rows of `b` that match, for each row of `a`.
  abbrev pub for_each : List A → (A → List B) → List B
  for_each [] f = []
  for_each (x ∷ xs) f = f x ++ for_each xs f

  pub filter-map :
      (p : B → Bool) (f : A → B) (l : List A) → filter p (map f l) ≡ map f (filter (λ x. p (f x)) l)
  filter-map p f [] = refl
  filter-map p f (x ∷ l) = elim (Bool-cases (p (f x))) [
    | inl kept ↦ rw kept (ap (λ v. f x ∷ v) (filter-map p f l))
    | inr left ↦ rw left (filter-map p f l)
  ]

  -- Where each row of the first table that passes a test gives one row.
  pub for_each-filter :
      (p : A → Bool) (f : A → List B) (g : A → B) (l : List A)
      → All (λ x. f x ≡ g x ∷ []) l
      → for_each (filter p l) f ≡ map g (filter p l)
  for_each-filter p f g [] h = refl
  for_each-filter p f g (x ∷ l) h = elim (Bool-cases (p x)) [
    | inl here ↦ rw (here, h.0) (ap (λ r. g x ∷ r) (for_each-filter p f g l h.1))
    | inr away ↦ rw away (for_each-filter p f g l h.1)
  ]

module _ {A : Type 0} where
  -- `OUTER JOIN b ON ...`: a row of NULLs where no row of `b` matches.
  abbrev pub outer : List A → List (Option A)
  outer [] = none ∷ []
  outer (x ∷ xs) = map some (x ∷ xs)

  abbrev pub head? : List A → Option A
  head? [] = none
  head? (x ∷ xs) = some x

  pub outer_one : (l : List A) → length l ≤ 1 → outer l ≡ head? l ∷ []
  outer_one [] h = refl
  outer_one (x ∷ []) h = refl
  outer_one (x ∷ y ∷ l) h = absurd (omega arith)

-- ===== src/Engine/Orders.antt =====
-- What does not depend on the order in which the engine returns rows.
use mathlib.Core.Logic.{∥∥₁_elim}
use mathlib.Core.Bool.{Bool-set}
use mathlib.Core.List.{Perm, Permᴰ, Perm-prop}
use mathlib.Core.List.Perm
use native.Mathlib.Nat.{ℕ_set}
use chore_app.Base.{
  suc, ap, sym, length, ℕ, ◌≡◌, refl, ◌∙◌, Bool, List, [], ◌∷◌, map, arith, any, count, filter, All,
  ◌==◌, ◌&&◌, ◌≤◌, true, Bool-cases, inl, inr,
}
use chore_app.Engine.{IsSortedBy}

module _ {Row : Type 0} where
  anyᴰ : (p : Row → Bool) {l m : List Row} → Permᴰ l m → any p l ≡ any p m
  anyᴰ p Permᴰ.nil = refl
  anyᴰ p (Permᴰ.cons e d) = rw (e, anyᴰ p d)
  anyᴰ p (Permᴰ.swap e f) = rw (e, f) (ground arith)
  anyᴰ p (Permᴰ.trans d e) = anyᴰ p d ∙ anyᴰ p e

  countᴰ : (p : Row → Bool) {l m : List Row} → Permᴰ l m → count p l ≡ count p m
  countᴰ p Permᴰ.nil = refl
  countᴰ p (Permᴰ.cons e d) = rw (e, countᴰ p d)
  countᴰ p (Permᴰ.swap e f) = rw (e, f) (ground arith)
  countᴰ p (Permᴰ.trans d e) = countᴰ p d ∙ countᴰ p e

  pub any-perm : (p : Row → Bool) {l m : List Row} → Perm l m → any p l ≡ any p m
  any-perm p {l} {m} h = ∥∥₁_elim h (Bool-set (any p l) (any p m)) (anyᴰ p)

  pub count-perm : (p : Row → Bool) {l m : List Row} → Perm l m → count p l ≡ count p m
  count-perm p {l} {m} h = ∥∥₁_elim h (ℕ_set (count p l) (count p m)) (countᴰ p)

module _ {Row : Type 0} where
  count_all : (l : List Row) → count (λ _. true) l ≡ length l
  count_all [] = refl
  count_all (x ∷ l) = ap suc (count_all l)

  pub length-perm : {l m : List Row} → Perm l m → length l ≡ length m
  length-perm {l} {m} h = sym (count_all l) ∙ count-perm (λ _. true) h ∙ count_all m

  pub length-filter : (p : Row → Bool) (l : List Row) → length (filter p l) ≡ count p l
  length-filter p [] = refl
  length-filter p (x ∷ l) = ground (arith, length-filter p l)

  filterᴰ : (p : Row → Bool) {l m : List Row} → Permᴰ l m → Perm (filter p l) (filter p m)
  filterᴰ p Permᴰ.nil = Perm.nil
  filterᴰ p (Permᴰ.cons {a} {b} {l₁} {l₂} e d) = rw e (elim (Bool-cases (p b)) [
    | inl here ↦ rw here (Perm.cons b (filterᴰ p d))
    | inr away ↦ rw away (filterᴰ p d)
  ])
  filterᴰ p (Permᴰ.swap {a} {b} {a'} {b'} {l} e f) = rw (e, f) (swapped b' a' l)
    where
      swapped : (x y : Row) (l : List Row) → Perm (filter p (x ∷ y ∷ l)) (filter p (y ∷ x ∷ l))
      swapped x y l = elim (Bool-cases (p x)) [
        | inl here ↦ elim (Bool-cases (p y)) [
          | inl there ↦ rw (here, there) (Perm.swap y x (filter p l))
          | inr away ↦ rw (here, away) (Perm.refl (x ∷ filter p l))
        ]
        | inr gone ↦ elim (Bool-cases (p y)) [
          | inl there ↦ rw (gone, there) (Perm.refl (y ∷ filter p l))
          | inr away ↦ rw (gone, away) (Perm.refl (filter p l))
        ]
      ]
  filterᴰ p (Permᴰ.trans d e) = Perm.trans (filterᴰ p d) (filterᴰ p e)

  -- A WHERE clause on rows in another order.
  pub filter-perm : (p : Row → Bool) {l m : List Row} → Perm l m → Perm (filter p l) (filter p m)
  filter-perm p h = ∥∥₁_elim h Perm-prop (filterᴰ p)

module _ {Row : Type 0} where
  pub any-map :
      (f : Row → ℕ) (i : ℕ) (l : List Row) → any (λ c. c == i) (map f l) ≡ any (λ x. f x == i) l
  any-map f i [] = refl
  any-map f i (x ∷ l) = ground (arith, any-map f i l)

  -- A row that passes a query is counted.
  pub count-filter :
      (q p : Row → Bool) (l : List Row) → count p (filter q l) ≡ count (λ x. q x && p x) l
  count-filter q p [] = refl
  count-filter q p (x ∷ l) = ground (arith, count-filter q p l)

  pub any-filter : (q p : Row → Bool) (l : List Row) → any p (filter q l) ≡ any (λ x. q x && p x) l
  any-filter q p [] = refl
  any-filter q p (x ∷ l) = ground (arith, any-filter q p l)

  pub count_of_any : (p : Row → Bool) (l : List Row) → any p l ≡ true → 1 ≤ count p l
  count_of_any p [] h = cc
  count_of_any p (x ∷ l) h = ground (arith, count_of_any p l)

module _ {Row Answer : Type 0} (f : Row → Answer) where
  later-map : (P : Answer → Type 0) (l : List Row) → All (λ x. P (f x)) l → All P (map f l)
  later-map P [] h = tt
  later-map P (x ∷ l) h = (h.0, later-map P l h.1)

  -- The answers stand in the order of the rows.
  pub IsSortedBy-map :
      (R : Answer → Answer → Type 0) (l : List Row)
      → IsSortedBy (λ x y. R (f x) (f y)) l
      → IsSortedBy R (map f l)
  IsSortedBy-map R [] h = tt
  IsSortedBy-map R (x ∷ l) h = (later-map (R (f x)) l h.0, IsSortedBy-map R l h.1)

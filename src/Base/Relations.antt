-- ===== src/Base/Relations.antt =====
-- Predicates on the rows of a table and relations between two tables, under appending and
-- composing.
use Prim.Native.Nat.{ℕ}
use mathlib.Core.Path.{◌≡◌, refl, sym}
use mathlib.Core.Logic.{◌≢◌, inl, inr}
use mathlib.Core.Bool.{Bool, true, false, not, ◌&&◌}
use native.Mathlib.Omega.{arith}
use chore_app.Base.Tests.{Bool-cases}
use mathlib.Core.List.{List, [], ◌∷◌, ◌++◌, map}
use chore_app.Base.Lists.{All, filter, any}
use chore_app.Base.Tables.{All₂, IsKeyed}

module _ {A : Type 0} where
  pub All-append : (P : A → Type 0) (l m : List A) → All P l → All P m → All P (l ++ m)
  All-append P [] m h k = k
  All-append P (x ∷ l) m h k = (h.0, All-append P l m h.1 k)

  pub All-snoc : (P : A → Type 0) (l : List A) (x : A) → All P l → P x → All P (l ++ x ∷ [])
  All-snoc P l x h p = All-append P l (x ∷ []) h (p, tt)

  -- What holds of the rows that a query keeps.
  pub All-filter :
      {P Q : A → Type 0} (q : A → Bool)
      → ((x : A) → P x → q x ≡ true → Q x)
      → (l : List A) → All P l
      → All Q (filter q l)
  All-filter q g [] h = tt
  All-filter q g (x ∷ l) h = elim (Bool-cases (q x)) [
    | inl kept ↦ rw kept (g x h.0 kept, All-filter q g l h.1)
    | inr left ↦ rw left (All-filter q g l h.1)
  ]

  -- What holds of the rows that an update of all of them leaves.
  pub All-changed :
      (P Q : A → Type 0) (f : A → A)
      → ((x : A) → P x → Q (f x))
      → (l : List A) → All P l
      → All Q (map f l)
  All-changed P Q f g [] h = tt
  All-changed P Q f g (x ∷ l) h = (g x h.0, All-changed P Q f g l h.1)

  -- An update of a column that a test does not read.
  pub any-changed :
      (p : A → Bool) (f : A → A) (l : List A)
      → ((x : A) → p (f x) ≡ p x)
      → any p (map f l) ≡ any p l
  any-changed p f [] h = refl
  any-changed p f (x ∷ l) h = ground (arith, h x, any-changed p f l h)

  -- Where no row that passes `p` is left out, `p` finds as before.
  pub any-kept :
      (p q : A → Bool) (l : List A)
      → any (λ x. p x && not (q x)) l ≡ false
      → any p l ≡ true
      → any p (filter q l) ≡ true
  any-kept p q [] h k = k
  any-kept p q (x ∷ l) h k = ground (arith, any-kept p q l)

  pub All₂-trans :
      (R : A → A → Type 0)
      → ((x y z : A) → R x y → R y z → R x z)
      → (l m n : List A) → All₂ R l m
      → All₂ R m n
      → All₂ R l n
  All₂-trans R t [] [] n h k = k
  All₂-trans R t [] (y ∷ m) n h k = absurd h
  All₂-trans R t (x ∷ l) [] n h k = absurd h
  All₂-trans R t (x ∷ l) (y ∷ m) [] h k = absurd k
  All₂-trans R t (x ∷ l) (y ∷ m) (z ∷ n) h k = (t x y z h.0 k.0, All₂-trans R t l m n h.1 k.1)

  -- What a property of the rows before and the relation say of the rows after.
  pub All-across :
      {P Q : A → Type 0} {R : A → A → Type 0}
      → ((x y : A) → P x → R x y → Q y)
      → (l m : List A) → All P l
      → All₂ R l m
      → All Q m
  All-across g [] [] h k = tt
  All-across g [] (y ∷ m) h k = absurd k
  All-across g (x ∷ l) [] h k = absurd k
  All-across g (x ∷ l) (y ∷ m) h k = (g x y h.0 k.0, All-across g l m h.1 k.1)

  pub All₂-map :
      {P : A → Type 0} {R S : A → A → Type 0}
      → ((x y : A) → P x → R x y → S x y)
      → (l m : List A) → All P l
      → All₂ R l m
      → All₂ S l m
  All₂-map g [] [] h k = tt
  All₂-map g [] (y ∷ m) h k = k
  All₂-map g (x ∷ l) [] h k = k
  All₂-map g (x ∷ l) (y ∷ m) h k = (g x y h.0 k.0, All₂-map g l m h.1 k.1)

  module _ (key : A → ℕ) where
    -- One more row, with a key that no other has.
    pub IsKeyed-snoc :
        (l : List A) (x : A)
        → IsKeyed key l
        → All (λ y. key y ≢ key x) l
        → IsKeyed key (l ++ x ∷ [])
    IsKeyed-snoc [] x k h = (tt, tt)
    IsKeyed-snoc (z ∷ l) x k h = (apart l k.0, IsKeyed-snoc l x k.1 h.1)
      where
        apart :
            (ys : List A)
            → All (λ i. i ≢ key z) (map key ys)
            → All (λ i. i ≢ key z) (map key (ys ++ x ∷ []))
        apart [] none_same = (λ e. h.0 (sym e), tt)
        apart (y ∷ ys) others = (others.0, apart ys others.1)

    pub map-key-same :
        {R : A → A → Type 0}
        → ((x y : A) → R x y → key y ≡ key x)
        → (l m : List A) → All₂ R l m
        → map key m ≡ map key l
    map-key-same g [] [] h = refl
    map-key-same g [] (y ∷ m) h = absurd h
    map-key-same g (x ∷ l) [] h = absurd h
    map-key-same g (x ∷ l) (y ∷ m) h = λ i. g x y h.0 i ∷ map-key-same g l m h.1 i

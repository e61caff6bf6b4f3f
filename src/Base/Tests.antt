-- ===== src/Base/Tests.antt =====
-- Boolean tests, the conditional, and case splits that keep the equation.
use Prim.Native.Nat.{ℕ, compare, Ordering}
use Prim.Native.String.{String, compare as compare_text}
use mathlib.Core.Path.{◌≡◌, refl}
use mathlib.Core.Logic.{◌≢◌, ◌⊎◌, inl, inr}
use mathlib.Core.Bool.{Bool, true, false}
use mathlib.Core.Option.{Option, none, some}
use native.Mathlib.Omega.{arith}
use text.Mathlib.TextPositions.{compare_refl}
use text.Mathlib.TextEquality.{path_by_compare}

abbrev pub ltb : ℕ → ℕ → Bool
ltb a b = elim (compare a b) [ Ordering.lt ↦ true | _ ↦ false ]

abbrev pub leb : ℕ → ℕ → Bool
leb a b = elim (compare a b) [ Ordering.gt ↦ false | _ ↦ true ]

infix 50 ◌==◌
abbrev pub ◌==◌ : ℕ → ℕ → Bool
a == b = elim (compare a b) [ Ordering.eq ↦ true | _ ↦ false ]

infix 1 if◌then◌else◌
abbrev pub if◌then◌else◌ {ℓ} : {A : Type ℓ} → Bool → A → A → A
if true then x else y = x
if false then x else y = y

-- Equality of texts.
abbrev pub same_text : String → String → Bool
same_text s t = elim (compare_text s t) [ Ordering.eq ↦ true | _ ↦ false ]

-- `column = value` in SQL: NULL equals nothing.
abbrev pub is_some_eq : Option ℕ → ℕ → Bool
is_some_eq none b = false
is_some_eq (some a) b = a == b

abbrev pub is_none {ℓ} : {A : Type ℓ} → Option A → Bool
is_none none = true
is_none (some _) = false

pub ==_refl : (a : ℕ) → (a == a) ≡ true
==_refl a = ground arith

pub ==_ne : (a b : ℕ) → a ≢ b → (a == b) ≡ false
==_ne a b h = ground arith

pub ==→eq : (a b : ℕ) → (a == b) ≡ true → a ≡ b
==→eq a b h = ground arith

pub Bool-cases : (b : Bool) → (b ≡ true) ⊎ (b ≡ false)
Bool-cases true = inl refl
Bool-cases false = inr refl

pub Option-cases {ℓ} : {A : Type ℓ} (o : Option A) → (o ≡ none) ⊎ ((a : A) × (o ≡ some a))
Option-cases none = inl refl
Option-cases (some a) = inr (a, refl)

pub Answer-cases : (o : Option Bool) → (o ≡ some true) ⊎ ((o ≡ none) ⊎ (o ≡ some false))
Answer-cases none = inr (inl refl)
Answer-cases (some true) = inl refl
Answer-cases (some false) = inr (inr refl)

pub same_text_refl : (s : String) → same_text s s ≡ true
same_text_refl s = rw (same_text, compare_refl s) refl

pub same_text→eq : (s t : String) → same_text s t ≡ true → s ≡ t
same_text→eq s t h = path_by_compare s t (go (compare_text s t) refl)
  where
    go : (o : Ordering) → compare_text s t ≡ o → compare_text s t ≡ Ordering.eq
    go Ordering.eq e = e
    go Ordering.lt e = cc (rw (same_text, e) at h)
    go Ordering.gt e = cc (rw (same_text, e) at h)

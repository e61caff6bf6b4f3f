-- ===== src/Base/Pages.antt =====
-- Pages of a list: a window that starts at an offset and has at most a given length.
use Prim.Native.Nat.{ℕ, zero, suc, ◌+◌, ◌-◌, ◌*◌, ◌≤◌}
use mathlib.Core.Path.{◌≡◌, refl, sym, ap, ◌∙◌}
use mathlib.Core.List.{List, [], ◌∷◌, ◌++◌}
use native.Mathlib.Omega.{arith}
use native.Mathlib.Numerals.{unary_clauses}
use chore_app.Base.Lists.{length, take, drop}
use chore_app.Base.Tests.{leb, if◌then◌else◌}

module _ {A : Type 0} where
  -- `LIMIT limit OFFSET offset`
  abbrev pub page : ℕ → ℕ → List A → List A
  page limit offset xs = take limit (drop offset xs)

  take-nil : (n : ℕ) → take {A = A} n [] ≡ []
  take-nil zero = refl
  take-nil (suc n) = refl

  drop-nil : (n : ℕ) → drop {A = A} n [] ≡ []
  drop-nil zero = refl
  drop-nil (suc n) = refl

  take-add : (m n : ℕ) (xs : List A) → take (m + n) xs ≡ take m xs ++ take n (drop m xs)
  take-add zero n xs = let e : 0 + n ≡ n = omega arith in ap (λ k. take k xs) e
  take-add (suc m) n [] = simp (unary_clauses, take-nil)
  take-add (suc m) n (x ∷ xs) =
      let e : suc m + n ≡ suc (m + n) = omega arith in
      ap (λ k. take k (x ∷ xs)) e ∙ ap (λ l. x ∷ l) (take-add m n xs)

  drop-drop : (m n : ℕ) (xs : List A) → drop n (drop m xs) ≡ drop (m + n) xs
  drop-drop zero n xs = let e : n ≡ 0 + n = omega arith in ap (λ k. drop k xs) e
  drop-drop (suc m) n [] = simp (unary_clauses, drop-nil)
  drop-drop (suc m) n (x ∷ xs) =
      let e : suc (m + n) ≡ suc m + n = omega arith in
      drop-drop m n xs ∙ ap (λ k. drop k (x ∷ xs)) e

  pub take_all : (n : ℕ) (xs : List A) → length xs ≤ n → take n xs ≡ xs
  take_all n [] h = take-nil n
  take_all zero (x ∷ xs) h = absurd (omega arith)
  take_all (suc n) (x ∷ xs) h = ap (λ l. x ∷ l) (take_all n xs (omega arith))

  length-take :
      (n : ℕ) (xs : List A) → length (take n xs) ≡ (if leb n (length xs) then n else length xs)
  length-take zero xs = ground arith
  length-take (suc n) [] = ground arith
  length-take (suc n) (x ∷ xs) = ground (arith, length-take n xs)

  length-drop : (n : ℕ) (xs : List A) → length (drop n xs) ≡ length xs - n
  length-drop zero xs = omega arith
  length-drop (suc n) [] = omega arith
  length-drop (suc n) (x ∷ xs) = omega (arith, length-drop n xs)

  -- A page is full, or it has what is left.
  pub length-page :
      (limit offset : ℕ) (xs : List A)
      → length (page limit offset xs)
        ≡ (if leb limit (length xs - offset) then limit else length xs - offset)
  length-page limit offset xs = length-take limit (drop offset xs) ∙ rw (length-drop offset xs) refl

  -- `count` pages one after the other, from an offset on.
  abbrev pub pages : ℕ → ℕ → ℕ → List A → List A
  pages limit zero offset xs = []
  pages limit (suc count) offset xs = page limit offset xs ++ pages limit count (offset + limit) xs

  pages-take :
      (limit count offset : ℕ) (xs : List A)
      → pages limit count offset xs ≡ take (count * limit) (drop offset xs)
  pages-take limit zero offset xs =
      let e : 0 ≡ 0 * limit = omega arith in ap (λ k. take k (drop offset xs)) e
  pages-take limit (suc count) offset xs =
      ap (λ l. page limit offset xs ++ l)
        (pages-take limit count (offset + limit) xs
          ∙ ap (take (count * limit)) (sym (drop-drop offset limit xs)))
      ∙ sym (take-add limit (count * limit) (drop offset xs))
      ∙ ap (λ n. take n (drop offset xs)) (omega arith)

  -- Enough pages are the whole list.
  pub pages_all :
      (limit count : ℕ) (xs : List A) → length xs ≤ count * limit → pages limit count 0 xs ≡ xs
  pages_all limit count xs enough = pages-take limit count 0 xs ∙ take_all (count * limit) xs enough

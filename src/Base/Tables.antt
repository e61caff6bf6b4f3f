-- ===== src/Base/Tables.antt =====
-- Laws of queries and updates on tables whose rows are told apart by a key.
use Prim.Native.Nat.{ℕ, ◌+◌, ◌≤◌}
use mathlib.Core.Path.{◌≡◌, refl, sym, ap, subst, ◌∙◌}
use mathlib.Core.Logic.{◌≢◌, inl, inr}
use mathlib.Core.Bool.{Bool, true, false, ◌&&◌}
use mathlib.Core.List.{List, [], ◌∷◌, map}
use native.Mathlib.Omega.{arith}
use chore_app.Base.Tests.{◌==◌, Bool-cases, ==→eq, ==_refl, ==_ne}
use chore_app.Base.Lists.{filter, count, any, update_where, All}

-- No number is listed twice.
abbrev pub Distinct : List ℕ → Type 0
Distinct [] = Unit
Distinct (x ∷ xs) = All (λ y. y ≢ x) xs × Distinct xs

module _ {A : Type 0} where
  -- Rows that agree one by one.
  abbrev pub All₂ : (A → A → Type 0) → List A → List A → Type 0
  All₂ R [] [] = Unit
  All₂ R [] (y ∷ ys) = ⊥
  All₂ R (x ∷ xs) [] = ⊥
  All₂ R (x ∷ xs) (y ∷ ys) = R x y × All₂ R xs ys

  -- Where exactly one row passes a test, a test that this row passes counts at least one.
  pub count-pos_of_filter :
      (w q : A → Bool) (l : List A) {c : A} → filter w l ≡ c ∷ [] → q c ≡ true → 1 ≤ count q l
  count-pos_of_filter w q [] e h = cc
  count-pos_of_filter w q (x ∷ l) e h =
      ground (arith, λ (p : filter w l ≡ _). count-pos_of_filter w q l p h)

  head-eq : {x y : A} {xs ys : List A} → x ∷ xs ≡ y ∷ ys → x ≡ y
  head-eq e = cc

  tail-eq : {x y : A} {xs ys : List A} → x ∷ xs ≡ y ∷ ys → xs ≡ ys
  tail-eq e = cc

  pub filter_found : (w : A → Bool) (l : List A) {c : A} → filter w l ≡ c ∷ [] → w c ≡ true
  filter_found w [] e = cc
  filter_found w (x ∷ l) e = elim (Bool-cases (w x)) [
    | inl t ↦ rw (head-eq (rw t at e)) at t
    | inr f ↦ filter_found w l (rw f at e)
  ]

  filter_empty :
      (w : A → Bool) (l : List A) (c : A) → filter w l ≡ [] → All (λ x. w x ≡ true → x ≡ c) l
  filter_empty w [] c e = tt
  filter_empty w (x ∷ l) c e = elim (Bool-cases (w x)) [
    | inl t ↦ cc (rw t at e)
    | inr f ↦ (λ t. cc, filter_empty w l c (rw f at e))
  ]

  -- Where exactly one row passes a test, no other row does.
  pub filter_only :
      (w : A → Bool) (l : List A) {c : A} → filter w l ≡ c ∷ [] → All (λ x. w x ≡ true → x ≡ c) l
  filter_only w [] e = tt
  filter_only w (x ∷ l) {c} e = elim (Bool-cases (w x)) [
    | inl t ↦ (λ _. head-eq (rw t at e), filter_empty w l c (tail-eq (rw t at e)))
    | inr f ↦ (λ t. cc, filter_only w l (rw f at e))
  ]

  pub All-map₂ :
      {P Q R : A → Type 0}
      → ((x : A) → P x → Q x → R x)
      → (l : List A) → All P l
      → All Q l
      → All R l
  All-map₂ g [] h k = tt
  All-map₂ g (x ∷ l) h k = (g x h.0 k.0, All-map₂ g l h.1 k.1)

  -- An update of rows that neither before nor after pass a test leaves the query alone.
  pub filter-update_where :
      (w p : A → Bool) (f : A → A) (l : List A)
      → All (λ x. p x ≡ true → (w x ≡ false) × (w (f x) ≡ false)) l
      → filter w (update_where p f l) ≡ filter w l
  filter-update_where w p f [] h = refl
  filter-update_where w p f (x ∷ l) h = ground (arith, h.0, filter-update_where w p f l h.1)

  -- A query whose test an update keeps finds the updated rows.
  pub filter-updated :
      (q p : A → Bool) (f : A → A) (l : List A)
      → ((x : A) → q (f x) ≡ q x)
      → filter q (update_where p f l) ≡ update_where p f (filter q l)
  filter-updated q p f [] h = refl
  filter-updated q p f (x ∷ l) h = ground (arith, h x, filter-updated q p f l h)

  -- Rows that an update takes out of a count.
  pub count-update_out :
      (q p : A → Bool) (f : A → A) (l : List A)
      → ((x : A) → q (f x) ≡ false)
      → count q (update_where p f l) + count (λ x. q x && p x) l ≡ count q l
  count-update_out q p f [] h = refl
  count-update_out q p f (x ∷ l) h = ground (arith, h x, count-update_out q p f l h)

  -- An update whose rows pass a test as before keeps the count.
  pub count-update_same :
      (q p : A → Bool) (f : A → A) (l : List A)
      → All (λ x. p x ≡ true → q (f x) ≡ q x) l
      → count q (update_where p f l) ≡ count q l
  count-update_same q p f [] h = refl
  count-update_same q p f (x ∷ l) h = ground (arith, h.0, count-update_same q p f l h.1)

  -- An update whose rows pass a test if they passed it before.
  pub count-le-update_where :
      (q p : A → Bool) (f : A → A) (l : List A)
      → ((x : A) → q x ≡ true → q (f x) ≡ true)
      → count q l ≤ count q (update_where p f l)
  count-le-update_where q p f [] h = omega arith
  count-le-update_where q p f (x ∷ l) h = ground (arith, h x, count-le-update_where q p f l h)

  pub All-map : {P Q : A → Type 0} → ((x : A) → P x → Q x) → (l : List A) → All P l → All Q l
  All-map g [] h = tt
  All-map g (x ∷ l) h = (g x h.0, All-map g l h.1)

  pub count-zero : (q : A → Bool) (l : List A) → All (λ x. q x ≡ false) l → count q l ≡ 0
  count-zero q [] h = refl
  count-zero q (x ∷ l) h = ground (arith, h.0, count-zero q l h.1)

  pub count_mono :
      (q r : A → Bool) (l : List A) → ((x : A) → q x ≡ true → r x ≡ true) → count q l ≤ count r l
  count_mono q r [] h = omega arith
  count_mono q r (x ∷ l) h = ground (arith, h x, count_mono q r l h)

  module _ (key : A → ℕ) where
    abbrev pub IsKeyed : List A → Type 0
    IsKeyed l = Distinct (map key l)

    -- An update that keeps the keys keeps them distinct.
    pub map-key-update_where :
        (p : A → Bool) (f : A → A) (l : List A)
        → ((x : A) → key (f x) ≡ key x)
        → map key (update_where p f l) ≡ map key l
    map-key-update_where p f [] h = refl
    map-key-update_where p f (x ∷ l) h = ground (arith, h x, map-key-update_where p f l h)

    count-absent :
        (i : ℕ) (l : List A) → All (λ y. y ≢ i) (map key l) → count (λ x. key x == i) l ≡ 0
    count-absent i [] h = refl
    count-absent i (x ∷ l) h = ground (arith, count-absent i l h.1)

    pub count-key-le : (i : ℕ) (l : List A) → IsKeyed l → count (λ x. key x == i) l ≤ 1
    count-key-le i [] h = omega arith
    count-key-le i (x ∷ l) h = elim (Bool-cases (key x == i)) [
      | inl same ↦ ground (arith, count-absent i l (rw (==→eq (key x) i same) at h.0))
      | inr other ↦ ground (arith, count-key-le i l h.1)
    ]

    found-ne :
        (p : A → Bool) (i : ℕ) (l : List A) {t : A}
        → filter p l ≡ t ∷ []
        → All (λ y. y ≢ i) (map key l)
        → key t ≢ i
    found-ne p i [] e h = cc
    found-ne p i (x ∷ l) {t} e h = elim (Bool-cases (p x)) [
      | inl passes ↦ λ q. h.0 (ap key (head-eq (rw passes at e)) ∙ q)
      | inr fails ↦ found-ne p i l (rw fails at e) h.1
    ]

    filter_absent :
        (i : ℕ) (l : List A) → All (λ y. y ≢ i) (map key l) → filter (λ x. key x == i) l ≡ []
    filter_absent i [] h = refl
    filter_absent i (x ∷ l) h = ground (arith, filter_absent i l h.1)

    -- The query by primary key for a row that another query finds.
    pub filter_by_key :
        (p : A → Bool) (l : List A) {t : A}
        → IsKeyed l
        → filter p l ≡ t ∷ []
        → filter (λ x. key x == key t) l ≡ t ∷ []
    filter_by_key p [] k e = cc
    filter_by_key p (x ∷ l) {t} k e = elim (Bool-cases (p x)) [
      | inl passes ↦
          let same = head-eq (rw passes at e) in
          subst (λ y. filter (λ z. key z == key y) (x ∷ l) ≡ y ∷ []) same
            (rw (==_refl (key x)) (ap (◌∷◌ x) (filter_absent (key x) l k.0)))
      | inr fails ↦
          let rest = rw fails at e in
          let other = λ (q : key x ≡ key t). found-ne p (key x) l rest k.0 (sym q) in
          rw (==_ne (key x) (key t) other) (filter_by_key p l k.1 rest)
    ]

    others_vacuous :
        (p : A → Bool) (i : ℕ) (l : List A)
        → All (λ y. y ≢ i) (map key l)
        → All (λ x. (key x == i) ≡ true → p x ≡ true) l
    others_vacuous p i [] h = tt
    others_vacuous p i (x ∷ l) h = (λ e. absurd (h.0 (==→eq (key x) i e)), others_vacuous p i l h.1)

    -- The row that a query finds is the only one with its key.
    pub same_key_passes :
        (p : A → Bool) (l : List A) {t : A}
        → IsKeyed l
        → filter p l ≡ t ∷ []
        → All (λ x. (key x == key t) ≡ true → p x ≡ true) l
    same_key_passes p [] k e = tt
    same_key_passes p (x ∷ l) {t} k e = elim (Bool-cases (p x)) [
      | inl passes ↦
          (λ _. passes, others_vacuous p (key t) l (rw (ap key (head-eq (rw passes at e))) at k.0))
      | inr fails ↦ (
        λ q. absurd (found-ne p (key x) l (rw fails at e) k.0 (sym (==→eq (key x) (key t) q))),
        same_key_passes p l k.1 (rw fails at e),
      )
    ]

    absent_key :
        (t : A → Bool) (i : ℕ) (l : List A)
        → All (λ y. y ≢ i) (map key l)
        → any (λ y. key y == i) (filter t l) ≡ false
    absent_key t i [] h = refl
    absent_key t i (x ∷ l) h = ground (arith, absent_key t i l h.1)

    All-of_map : (i : ℕ) (l : List A) → All (λ y. y ≢ i) (map key l) → All (λ x. key x ≢ i) l
    All-of_map i [] h = tt
    All-of_map i (x ∷ l) h = (h.0, All-of_map i l h.1)

    -- A row's key is among those of the rows that a query finds exactly if the query finds it.
    pub key_found :
        (t : A → Bool) (l : List A)
        → IsKeyed l
        → All (λ x. any (λ y. key y == key x) (filter t l) ≡ t x) l
    key_found t [] k = tt
    key_found t (z ∷ l) k = (
      ground (arith, absent_key t (key z) l k.0, ==_refl (key z)),
      All-map₂ (λ x h ne. ground (arith, h, ne)) l (key_found t l k.1) (All-of_map (key z) l k.0),
    )

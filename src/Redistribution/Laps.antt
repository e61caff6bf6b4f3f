-- ===== src/Redistribution/Laps.antt =====
-- backend/app/services/redistribution.py: arithmetic of the rotation pointer, stored without a
-- bound.
use native.Mathlib.Nat.{
  zero-add, mod-lt, mod-eq_of_lt, mod-add-mod, add-mul-mod_self_right, mod-eq-sub-mod,
}
use chore_app.Base.{
  ℕ, zero, suc, ◌+◌, ◌-◌, ◌*◌, ◌%◌, ◌≤◌, ◌<◌, ◌≡◌, ◌≢◌, ◌↔◌, refl, sym, ap, ◌∙◌, inl, inr, some,
  List, [], ◌∷◌, ◌++◌, arith, ltb, if◌then◌else◌, Bool-cases, All, Distinct, length, get_elem?,
}

-- The place of a member in the rotation once another has left.
abbrev pub shifted : ℕ → ℕ → ℕ
shifted gone place = if ltb gone place then place - 1 else place

pub get_elem?-removed :
    (pre : List ℕ) (x : ℕ) (suf : List ℕ) (e : ℕ)
    → e ≢ length pre
    → get_elem? (pre ++ x ∷ suf) e ≡ get_elem? (pre ++ suf) (shifted (length pre) e)
get_elem?-removed [] x suf zero ne = absurd (ne refl)
get_elem?-removed [] x suf (suc e) ne = let q : shifted 0 (suc e) ≡ e = ground arith in rw q
get_elem?-removed (y ∷ pre) x suf zero ne =
    let q : shifted (suc (length pre)) 0 ≡ 0 = ground arith in rw q
get_elem?-removed (y ∷ pre) x suf (suc e) ne =
    let q : shifted (suc (length pre)) (suc e) ≡ suc (shifted (length pre) e) = ground arith in
    rw q (get_elem?-removed pre x suf e (λ h. ne (ap suc h)))

get_elem?-absent : (x : ℕ) (l : List ℕ) (i : ℕ) → All (λ y. y ≢ x) l → get_elem? l i ≢ some x
get_elem?-absent x [] i h e = cc
get_elem?-absent x (y ∷ l) zero h e = h.0 (ground arith)
get_elem?-absent x (y ∷ l) (suc i) h e = get_elem?-absent x l i h.1 e

pub get_elem?-injective :
    (l : List ℕ) (i j : ℕ)
    → Distinct l
    → i < length l
    → j < length l
    → get_elem? l i ≡ get_elem? l j
    → i ≡ j
get_elem?-injective [] i j d hi hj e = absurd (omega arith)
get_elem?-injective (x ∷ l) zero zero d hi hj e = refl
get_elem?-injective (x ∷ l) zero (suc j) d hi hj e = absurd (get_elem?-absent x l j d.0 (sym e))
get_elem?-injective (x ∷ l) (suc i) zero d hi hj e = absurd (get_elem?-absent x l i d.0 e)
get_elem?-injective (x ∷ l) (suc i) (suc j) d hi hj e =
    ap suc (get_elem?-injective l i j d.1 (omega arith) (omega arith) e)

-- After `q` full laps over one member more, the place in the shorter rotation is off by `q`.
pub lap :
    (n q e gone : ℕ)
    → (if ltb gone e then q * (n + 1) + e - 1 else q * (n + 1) + e) % n ≡ (q + shifted gone e) % n
lap n q e gone = elim (Bool-cases (ltb gone e)) [
  | inl before ↦
      let r : q * (n + 1) + e - 1 ≡ q + (e - 1) + q * n = ground arith in
      rw (before, r) (add-mul-mod_self_right (q + (e - 1)) q n)
  | inr after ↦
      let r : q * (n + 1) + e ≡ q + e + q * n = omega arith in
      rw (after, r) (add-mul-mod_self_right (q + e) q n)
]

pub lap_iff : (n q j : ℕ) → j < n → ((q + j) % n ≡ j) ↔ (q % n ≡ 0)
lap_iff n q j h = (there, λ e. sym (mod-add-mod q n j) ∙ rw e (rw zero-add (mod-eq_of_lt h)))
  where
    small : q % n < n
    small = mod-lt q (omega arith)

    there : (q + j) % n ≡ j → q % n ≡ 0
    there e = elim (Bool-cases (ltb (q % n + j) n)) [
      | inl below ↦
          let lt : q % n + j < n = ground arith in
          omega (arith, mod-add-mod q n j ∙ e, mod-eq_of_lt lt)
      | inr above ↦
          let le : n ≤ q % n + j = ground arith in
          let lt : q % n + j - n < n = omega arith in
          omega (arith, mod-add-mod q n j ∙ e, mod-eq-sub-mod le, mod-eq_of_lt lt)
    ]

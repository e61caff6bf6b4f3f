-- ===== src/Assignment/Picks.antt =====
-- The sequence of members that consecutive pointer values select, for
-- backend/app/services/assignment.py.
use mathlib.Core.Path.{ap₂}
use mathlib.Core.List.{append_assoc}
use native.Mathlib.Nat.{mod-eq_of_lt, mod-lt, add-mod_right, div-add-mod'}
use chore_app.Base.{
  ℕ, zero, suc, ◌+◌, ◌*◌, ◌-◌, ◌/◌, ◌%◌, ◌≤◌, ◌<◌, ◌≡◌, refl, ap, ◌∙◌, Option, some, List, [], ◌∷◌,
  ◌++◌, map, arith, ◌==◌, is_some_eq, length, get_elem?, count, length-append, count-append,
  get_elem?-lt,
}
use chore_app.Assignment.{pick}

-- The members that `n` consecutive pointer values from `p` select.
unfoldable pub picks : List ℕ → ℕ → ℕ → List (Option ℕ)
picks ids p zero = []
picks ids p (suc n) = pick ids p ∷ picks ids (p + 1) n

-- How often a user is among them.
abbrev pub load : ℕ → List (Option ℕ) → ℕ
load u = count (λ a. is_some_eq a u)

pub pick-some : (m : ℕ) (ms : List ℕ) (p : ℕ) → (u : ℕ) × (pick (m ∷ ms) p ≡ some u)
unfolding pick
pick-some m ms p = get_elem?-lt (m ∷ ms) (p % suc (length ms)) (mod-lt p (omega arith))

pick-period : (ids : List ℕ) (p : ℕ) → pick ids (p + length ids) ≡ pick ids p
unfolding pick
pick-period ids p = ap (get_elem? ids) (add-mod_right p (length ids))

picks-snoc : (ids : List ℕ) (p n : ℕ) → picks ids p (suc n) ≡ picks ids p n ++ pick ids (p + n) ∷ []
unfolding picks
picks-snoc ids p zero = ground arith
picks-snoc ids p (suc n) =
    let e : p + 1 + n ≡ p + suc n = omega arith in
    ap (◌∷◌ (pick ids p)) (rw e at (picks-snoc ids (p + 1) n))

get_elem?-append :
    (pre : List ℕ) (u : ℕ) (suf : List ℕ) → get_elem? (pre ++ u ∷ suf) (length pre) ≡ some u
get_elem?-append [] u suf = refl
get_elem?-append (x ∷ pre) u suf = get_elem?-append pre u suf

-- Counting on from the place of a suffix gives the suffix.
picks_suffix : (pre suf : List ℕ) → picks (pre ++ suf) (length pre) (length suf) ≡ map some suf
unfolding picks pick
picks_suffix pre [] = refl
picks_suffix pre (u ∷ suf) =
    ap₂ ◌∷◌ here (rw (moved, append_assoc) at (picks_suffix (pre ++ u ∷ []) suf))
  where
    inside : length pre % length (pre ++ u ∷ suf) ≡ length pre
    inside = mod-eq_of_lt (omega (arith, length-append pre (u ∷ suf)))

    here : pick (pre ++ u ∷ suf) (length pre) ≡ some u
    here = rw inside (get_elem?-append pre u suf)

    moved : length (pre ++ u ∷ []) ≡ length pre + 1
    moved = length-append pre (u ∷ [])

load-map-some : (u : ℕ) (ids : List ℕ) → load u (map some ids) ≡ count (λ m. m == u) ids
load-map-some u [] = refl
load-map-some u (x ∷ ids) = ground (arith, load-map-some u ids)

load-shift :
    (u : ℕ) (ids : List ℕ) (p : ℕ)
    → load u (picks ids (p + 1) (length ids)) ≡ load u (picks ids p (length ids))
unfolding picks
load-shift u ids p = ground (
  arith,
  ap (load u) (picks-snoc ids p (length ids)),
  count-append (λ a. is_some_eq a u) (picks ids p (length ids)) (pick ids (p + length ids) ∷ []),
  pick-period ids p,
)

-- One full round gives a user as many turns as there are entries for the user.
load_round :
    (u : ℕ) (ids : List ℕ) (p : ℕ) → load u (picks ids p (length ids)) ≡ count (λ m. m == u) ids
load_round u ids zero = ap (load u) (picks_suffix [] ids) ∙ load-map-some u ids
load_round u ids (suc p) =
    let e : p + 1 ≡ suc p = omega arith in rw e at (load-shift u ids p) ∙ load_round u ids p

picks-append :
    (ids : List ℕ) (p m n : ℕ) → picks ids p (m + n) ≡ picks ids p m ++ picks ids (p + m) n
unfolding picks
picks-append ids p zero n =
    let e : zero + n ≡ n = omega arith in let f : p + zero ≡ p = omega arith in rw (e, f)
picks-append ids p (suc m) n =
    let e : suc m + n ≡ suc (m + n) = omega arith in
    let f : p + suc m ≡ p + 1 + m = omega arith in
    rw (e, f) (ap (◌∷◌ (pick ids p)) (picks-append ids (p + 1) m n))

pub load-picks-append :
    (u : ℕ) (ids : List ℕ) (p m n : ℕ)
    → load u (picks ids p (m + n)) ≡ load u (picks ids p m) + load u (picks ids (p + m) n)
load-picks-append u ids p m n =
    ap (load u) (picks-append ids p m n)
    ∙ count-append (λ a. is_some_eq a u) (picks ids p m) (picks ids (p + m) n)

-- `k` full rounds and `r` turns more.
load_rounds :
    (u : ℕ) (ids : List ℕ) (p k r : ℕ)
    → count (λ m. m == u) ids ≡ 1
    → r < length ids
    → (k ≤ load u (picks ids p (k * length ids + r)))
      × (load u (picks ids p (k * length ids + r)) ≤ k + 1)
load_rounds u ids p zero r once h =
    let e : 0 * length ids + r ≡ r = omega arith in
    let f : r + (length ids - r) ≡ length ids = omega arith in
    rw e (
      omega
        (arith, rw f at (load-picks-append u ids p r (length ids - r)), load_round u ids p, once))
load_rounds u ids p (suc k) r once h =
    let e : suc k * length ids + r ≡ length ids + (k * length ids + r) = omega arith in
    rw e (
      omega (
        arith,
        load-picks-append u ids p (length ids) (k * length ids + r),
        load_round u ids p,
        load_rounds u ids (p + length ids) k r once h,
      ))

-- A user with one place in the rotation gets `n / length ids` turns out of `n`, or one more.
pub load_balanced :
    (u : ℕ) (ids : List ℕ) (p n : ℕ)
    → count (λ m. m == u) ids ≡ 1
    → (n / length ids ≤ load u (picks ids p n)) × (load u (picks ids p n) ≤ n / length ids + 1)
load_balanced u [] p n once = absurd (omega arith)
load_balanced u (m ∷ ms) p n once =
    let e : n / suc (length ms) * suc (length ms) + n % suc (length ms) ≡ n = div-add-mod' n _ in
    rw e at (
      load_rounds u (m ∷ ms) p (n / suc (length ms)) (n % suc (length ms)) once
        (mod-lt n (omega arith)))

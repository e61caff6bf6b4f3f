-- ===== src/Deps/Outcomes.antt =====
-- The outcomes of the permission checks of backend/app/api/deps.py.
use chore_app.Base.{ℕ, ◌≡◌, refl, ◌⊎◌, inl, inr, true, List, [], ◌∷◌, filter, Bool-cases}
use chore_app.Models.{HouseholdMembership, is_admin, is_active_of}
use chore_app.Session.{Session, Error, ok, err, Action, forbidden, multiple_results}
use chore_app.Deps.{require_household_member, require_admin}

-- An action that only checks raises and changes nothing, or answers `a` with `P a` and changes
-- nothing.
abbrev pub Checks : {A : Type 0} → Action A → Session → (A → Type 0) → Type 0
Checks {A} m s P = ((e : Error) × (m s ≡ (err e, s))) ⊎ ((a : A) × (m s ≡ (ok a, s)) × P a)

-- The rows of the caller's active memberships in the household.
abbrev pub own_rows : ℕ → ℕ → Session → List HouseholdMembership
own_rows hid uid s = filter (is_active_of hid uid) s.working.memberships

pub require_household_member-Checks :
    (hid uid : ℕ) (s : Session)
    → Checks (require_household_member hid uid) s (λ m. own_rows hid uid s ≡ m ∷ [])
unfolding require_household_member
require_household_member-Checks hid uid s = go (own_rows hid uid s) refl
  where
    go :
        (rows : List HouseholdMembership)
        → own_rows hid uid s ≡ rows
        → Checks (require_household_member hid uid) s (λ m. own_rows hid uid s ≡ m ∷ [])
    go [] e = inl (forbidden, rw e)
    go (m ∷ []) e = inr (m, rw e, e)
    go (m ∷ k ∷ l) e = inl (multiple_results, rw e)

pub require_admin-Checks :
    (hid uid : ℕ) (s : Session)
    → Checks
        (require_admin hid uid)
        s
        (λ m. (own_rows hid uid s ≡ m ∷ []) × (is_admin m.role ≡ true))
unfolding require_admin
require_admin-Checks hid uid s = elim (require_household_member-Checks hid uid s) [
  | inl (e, refused) ↦ inl (e, rw refused)
  | inr (m, granted, found) ↦ elim (Bool-cases (is_admin m.role)) [
    | inl admin_role ↦ inr (m, rw (granted, admin_role), (found, admin_role))
    | inr other_role ↦ inl (forbidden, rw (granted, other_role))
  ]
]

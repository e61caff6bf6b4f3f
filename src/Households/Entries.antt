-- ===== src/Households/Entries.antt =====
-- backend/app/api/households.py and invites.py: the admins of a household where one is made or
-- joined.
use mathlib.Core.List.{map-append, append-nil}
use chore_app.Base.{
  ℕ, ◌≡◌, refl, ◌≢◌, ◌⊎◌, inl, inr, true, false, List, [], ◌∷◌, map, arith, String, ◌==◌,
  Bool-cases, filter, count, any, All,
}
use chore_app.Models.{HouseholdMembership, Database, is_active_of, is_active_admin_in}
use chore_app.Session.{get_db}
use chore_app.Households.{founder, create_household}
use chore_app.Households.Governed.{Governed, added-IsGoverned}
use chore_app.Invites.{joined, accept_invite}
use chore_app.Invites.Single.{accept_invite-Joins}

nobody_there :
    (k uid : ℕ) (ms : List HouseholdMembership)
    → All (λ m. m.household_id ≢ k) ms
    → count (is_active_of k uid) ms ≡ 0
nobody_there k uid [] h = refl
nobody_there k uid (m ∷ ms) h = ground (arith, h.0, nobody_there k uid ms h.1)

none_found :
    (k uid : ℕ) (ms : List HouseholdMembership)
    → filter (is_active_of k uid) ms ≡ []
    → count (is_active_of k uid) ms ≡ 0
none_found k uid [] h = refl
none_found k uid (m ∷ ms) h = elim (Bool-cases (is_active_of k uid m)) [
  | inl there ↦ cc (rw there at h)
  | inr other ↦ rw other (none_found k uid ms (rw other at h))
]

pub create-Governed :
    (name : String) (cur hid mid joined_at now k : ℕ) (db : Database)
    → All (λ m. m.id ≢ mid) db.memberships
    → All (λ m. m.household_id ≢ hid) db.memberships
    → Governed k db
    → Governed k (get_db (create_household name cur hid mid joined_at now) db).1
unfolding get_db create_household
create-Governed name cur hid mid joined_at now k db fresh empty g =
    rw (map-append (λ h. h.id) db.households _) (
      added-IsGoverned k db.memberships (map (λ h. h.id) db.households) (hid ∷ [])
        (founder hid cur mid joined_at now) fresh (nobody_there hid cur db.memberships empty)
        arrives g)
  where
    arrives :
        (any (λ i. i == k) (hid ∷ []) ≡ false)
        ⊎ (is_active_admin_in k (founder hid cur mid joined_at now) ≡ true)
    arrives = elim (Bool-cases (hid == k)) [
      | inl same ↦ inr (rw same refl)
      | inr other ↦ inl (rw other refl)
    ]

pub accept-Governed :
    (token : String) (cur mid now made k : ℕ) (db : Database)
    → All (λ m. m.id ≢ mid) db.memberships
    → Governed k db
    → Governed k (get_db (accept_invite token cur mid now made) db).1
accept-Governed token cur mid now made k db fresh g =
    elim (accept_invite-Joins token cur mid now made db) [
      | inl same ↦ rw same g
      | inr (i, after, first) ↦ rw after (
          rw (append-nil (map (λ h. h.id) db.households)) at (
            added-IsGoverned k db.memberships (map (λ h. h.id) db.households) []
              (joined i.household_id cur mid now made) fresh
              (none_found i.household_id cur db.memberships first) (inl refl) g))
    ]

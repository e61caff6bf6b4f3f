-- ===== src/Members.antt =====
-- backend/app/api/members.py: listing, removing, promoting and leaving. Each handler is composed
-- with the dependency that FastAPI runs before it.
pub mod Guards
pub mod Admins
pub mod Leaving
pub mod Listing
use chore_app.Base.{
  ℕ, String, Bool, true, false, ◌&&◌, Option, none, some, List, [], ◌∷◌, ◌++◌, map, leb, ◌==◌,
  if◌then◌else◌, filter, count, update_where,
}
use chore_app.Models.{
  User, Role, HouseholdMembership, Database, is_admin, is_active_of, is_active_in,
  is_active_admin_in,
}
use chore_app.Session.{
  Action, not_found, conflict, pure, raise_if, raise_if_none, ◌>>=◌, ◌>>◌, query,
  scalar_one_or_none, scalar_one, write,
}
use chore_app.Engine.{Engine}
use chore_app.Deps.{require_household_member, require_admin}
use chore_app.Redistribution.{redistribute_chores_for_removed_member}

-- `_count_active_admins`
abbrev pub count_active_admins : ℕ → Database → ℕ
count_active_admins household_id db = count (is_active_admin_in household_id) db.memberships

-- A column of one membership, written on the row with that primary key.
abbrev pub with_membership : ℕ → (HouseholdMembership → HouseholdMembership) → Database → Database
with_membership membership_id f db = record db {
  memberships = update_where (λ m. m.id == membership_id) f db.memberships;
}

abbrev pub deactivate : HouseholdMembership → HouseholdMembership
deactivate m = record m { is_active = false }

abbrev pub set_role : Role → HouseholdMembership → HouseholdMembership
set_role role m = record m { role = role }

abbrev pub is_demotion : Role → Bool
is_demotion role = if is_admin role then false else true

-- `if <the guard applies>: ... if admin_count <= 1: raise 409`
unfoldable pub refuse_sole_admin : Bool → ℕ → Action (Unit {0})
refuse_sole_admin false household_id = pure tt
refuse_sole_admin true household_id = do
  admin_count ← query (count_active_admins household_id)
  raise_if (leb admin_count 1) conflict

-- The target's active membership, or 404.
unfoldable pub load_member : ℕ → ℕ → Action HouseholdMembership
load_member household_id user_id = do
  rows ← query (λ db. filter (is_active_of household_id user_id) db.memberships)
  target ← scalar_one_or_none rows
  raise_if_none not_found target

pub record MemberResponse : Type 0 where
  pub user_id : ℕ
  pub display_name : String
  pub role : Role
  pub joined_at : ℕ

-- The join of `list_members`: an active membership of the household, and the name of its user.
unfoldable pub named_members :
    ℕ → List HouseholdMembership → Database → List (HouseholdMembership × String)
named_members household_id [] db = []
named_members household_id (m ∷ ms) db =
    let rest = named_members household_id ms db in
    if is_active_in household_id m
    then map (λ u. (m, u.display_name)) (filter (λ u. u.id == m.user_id) db.users) ++ rest
    else rest

abbrev pub joined_at_of : HouseholdMembership × String → ℕ
joined_at_of row = (row.0).joined_at

abbrev pub member_response : HouseholdMembership × String → MemberResponse
member_response row = record {
  user_id = (row.0).user_id;
  display_name = row.1;
  role = (row.0).role;
  joined_at = (row.0).joined_at;
}

module _ (engine : Engine) where
  -- GET /members
  unfoldable pub list_members : ℕ → ℕ → Action (List MemberResponse)
  list_members household_id current_user_id = do
    require_household_member household_id current_user_id
    rows ← query (λ db.
        engine.ascending (HouseholdMembership × String) joined_at_of
          (named_members household_id db.memberships db))
    pure (map member_response rows)

  -- DELETE /members/{user_id}
  unfoldable pub remove_member : ℕ → ℕ → ℕ → Action (Unit {0})
  remove_member household_id user_id current_user_id = do
    admin_membership ← require_admin household_id current_user_id
    target ← load_member household_id user_id
    refuse_sole_admin (user_id == admin_membership.user_id) household_id
    write (with_membership target.id deactivate)
    redistribute_chores_for_removed_member engine user_id household_id

  -- POST /leave
  unfoldable pub leave_household : ℕ → ℕ → Action (Unit {0})
  leave_household household_id current_user_id = do
    membership ← require_household_member household_id current_user_id
    refuse_sole_admin (is_admin membership.role) household_id
    write (with_membership membership.id deactivate)
    redistribute_chores_for_removed_member engine membership.user_id household_id

-- The end of `update_member_role`: the response, with the display name of the user.
unfoldable pub role_response : ℕ → HouseholdMembership → Role → Action MemberResponse
role_response user_id target role = do
  users ← query (λ db. filter (λ u. u.id == user_id) db.users)
  user ← scalar_one users
  pure (record {
    user_id = target.user_id;
    display_name = user.display_name;
    role = role;
    joined_at = target.joined_at;
  })

-- PATCH /members/{user_id}/role
unfoldable pub update_member_role : ℕ → ℕ → Role → ℕ → Action MemberResponse
update_member_role household_id user_id role current_user_id = do
  admin_membership ← require_admin household_id current_user_id
  target ← load_member household_id user_id
  refuse_sole_admin (user_id == admin_membership.user_id && is_demotion role) household_id
  write (with_membership target.id (set_role role))
  role_response user_id target role

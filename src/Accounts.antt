-- ===== src/Accounts.antt =====
-- backend/app/api/users.py and backend/app/services/account_deletion.py: the profile, the password,
-- and the deletion of an account.
pub mod Plans
pub mod Others
pub mod Admins
pub mod Outcomes
use chore_app.Base.{
  ℕ, String, Bool, true, false, ◌&&◌, not, Option, none, some, List, [], ◌∷◌, ◌++◌, map, leb, ◌==◌,
  filter, any, count, update_where, if◌then◌else◌,
}
use chore_app.Models.{
  User, Household, HouseholdMembership, Database, is_admin, delete_households, delete_user,
}
use chore_app.Session.{
  Action, forbidden, pure, raise_if, ◌>>=◌, ◌>>◌, query, scalar_one_or_none, write,
}
use chore_app.Engine.{Engine}
use chore_app.Security.{Crypto, hash_password, verify_password}
use chore_app.Auth.{UserResponse, user_response, revoke_all}
use chore_app.Assignment.{household_rows}
use chore_app.Households.{count_active_members}
use chore_app.Redistribution.{redistribute_chores_for_removed_member}
use chore_app.Members.{with_membership, deactivate, refuse_sole_admin}

-- Columns of one user, written on the row with that primary key.
abbrev pub with_user : ℕ → (User → User) → Database → Database
with_user user_id f db = record db { users = update_where (λ u. u.id == user_id) f db.users }

abbrev pub set_display_name : String → User → User
set_display_name name u = record u { display_name = name }

abbrev pub set_password_hash : String → User → User
set_password_hash hashed u = record u { password_hash = hashed }

-- PATCH /users/me
unfoldable pub update_profile : String → User → Action UserResponse
update_profile display_name current_user = do
  write (with_user current_user.id (set_display_name display_name))
  pure (user_response (set_display_name display_name current_user))

-- What pass 1 decides: the households to delete and the memberships to leave.
pub record Plan : Type 0 where
  pub households_to_delete : List ℕ
  pub memberships_to_leave : List HouseholdMembership

abbrev pub found_households : Option Household → List ℕ
found_households none = []
found_households (some h) = h.id ∷ []

-- The body of the loop of pass 1.
unfoldable pub plan_sole : HouseholdMembership → Action Plan
plan_sole m = do
  rows ← query (household_rows m.household_id)
  household ← scalar_one_or_none rows
  pure (record { households_to_delete = found_households household; memberships_to_leave = [] })

unfoldable pub plan_shared : HouseholdMembership → Action Plan
plan_shared m = do
  refuse_sole_admin (is_admin m.role) m.household_id
  pure (record { households_to_delete = []; memberships_to_leave = m ∷ [] })

unfoldable pub plan_membership : HouseholdMembership → Action Plan
plan_membership m = do
  member_count ← query (count_active_members m.household_id)
  if leb member_count 1 then plan_sole m else plan_shared m

unfoldable pub plan_all : List HouseholdMembership → Action Plan
plan_all [] = pure (record { households_to_delete = []; memberships_to_leave = [] })
plan_all (m ∷ ms) = do
  one ← plan_membership m
  rest ← plan_all ms
  pure (record {
    households_to_delete = one.households_to_delete ++ rest.households_to_delete;
    memberships_to_leave = one.memberships_to_leave ++ rest.memberships_to_leave;
  })

-- `if households_to_delete:` and the DELETE.
abbrev pub delete_planned : List ℕ → Database → Database
delete_planned [] db = db
delete_planned (i ∷ ids) db = delete_households (λ h. any (λ j. j == h) (i ∷ ids)) db

-- `for membership in memberships_to_leave: membership.is_active = False`
unfoldable pub leave_all : List HouseholdMembership → Database → Database
leave_all [] db = db
leave_all (m ∷ ms) db = leave_all ms (with_membership m.id deactivate db)

module _ (engine : Engine) where
  -- The redistribution in every household that the user leaves.
  unfoldable pub redistribute_all : ℕ → List HouseholdMembership → Action (Unit {0})
  redistribute_all user_id [] = pure tt
  redistribute_all user_id (m ∷ ms) = do
    redistribute_chores_for_removed_member engine user_id m.household_id
    redistribute_all user_id ms

  -- `delete_user_account`
  unfoldable pub delete_user_account : ℕ → ℕ → Action (Unit {0})
  delete_user_account user_id now = do
    memberships ← query (λ db.
        engine.scan HouseholdMembership
          (filter (λ m. m.user_id == user_id && m.is_active) db.memberships))
    plan ← plan_all memberships
    write (delete_planned plan.households_to_delete)
    write (leave_all plan.memberships_to_leave)
    redistribute_all user_id plan.memberships_to_leave
    write (revoke_all user_id now)
    write (delete_user user_id)

  module _ (crypto : Crypto) where
    -- DELETE /users/me
    unfoldable pub delete_account : String → User → ℕ → Action (Unit {0})
    delete_account current_password current_user now = do
      verified ← verify_password crypto current_password current_user.password_hash
      raise_if (not verified) forbidden
      delete_user_account current_user.id now

module _ (crypto : Crypto) where
  -- POST /users/me/password, with the salt that is drawn.
  unfoldable pub change_password : String → String → User → String → ℕ → Action (Unit {0})
  change_password current_password new_password current_user salt now = do
    verified ← verify_password crypto current_password current_user.password_hash
    raise_if (not verified) forbidden
    hashed ← hash_password crypto new_password salt
    write (with_user current_user.id (set_password_hash hashed))
    write (revoke_all current_user.id now)

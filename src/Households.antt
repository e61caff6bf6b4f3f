-- ===== src/Households.antt =====
-- backend/app/api/households.py: creating, listing, reading, renaming and deleting a household.
pub mod Keys
pub mod References
pub mod Seats
pub mod Governed
pub mod Entries
pub mod Departures
pub mod Requests
pub mod Listing
use chore_app.Base.{
  ◌+◌, any, Dict, insert, lookup, get_or, if◌then◌else◌, ℕ, String, Bool, true, false, ◌&&◌, not,
  Option, none, some, List, [], ◌∷◌, ◌++◌, map, ◌==◌, same_text, filter, count, update_where,
}
use chore_app.Models.{
  Household, Role, admin, HouseholdMembership, Database, is_active_in, delete_households,
}
use chore_app.Session.{
  Action, bad_request, not_found, pure, raise_if, raise_if_none, ◌>>=◌, ◌>>◌, query,
  scalar_one_or_none, write, commit,
}
use chore_app.Engine.{Engine}
use chore_app.Deps.{require_household_member, require_admin}
use chore_app.Assignment.{household_rows}

-- `HouseholdResponse`
pub record HouseholdResponse : Type 0 where
  pub id : ℕ
  pub name : String
  pub created_at : ℕ

abbrev pub household_response : Household → HouseholdResponse
household_response h = record { id = h.id; name = h.name; created_at = h.created_at }

-- `HouseholdWithRoleResponse`
pub record HouseholdWithRoleResponse : Type 0 where
  pub id : ℕ
  pub name : String
  pub created_at : ℕ
  pub role : Role
  pub member_count : ℕ

-- `HouseholdDetailResponse`
pub record HouseholdDetailResponse : Type 0 where
  pub id : ℕ
  pub name : String
  pub created_at : ℕ
  pub member_count : ℕ

-- `select(func.count(HouseholdMembership.id))` of the active members.
abbrev pub count_active_members : ℕ → Database → ℕ
count_active_members household_id db = count (is_active_in household_id) db.memberships

abbrev pub new_household : String → ℕ → ℕ → Household
new_household name household_id now = record {
  id = household_id;
  name = name;
  rotation_pointer = 0;
  created_at = now;
}

abbrev pub founder : ℕ → ℕ → ℕ → ℕ → ℕ → HouseholdMembership
founder household_id user_id membership_id joined_at now = record {
  id = membership_id;
  household_id = household_id;
  user_id = user_id;
  role = admin;
  joined_at = joined_at;
  is_active = true;
  created_at = now;
}

-- POST /households, with the fresh identifiers, what the clock shows, and the time of the
-- transaction.
unfoldable pub create_household : String → ℕ → ℕ → ℕ → ℕ → ℕ → Action HouseholdResponse
create_household name current_user_id household_id membership_id joined_at now = do
  let household = new_household name household_id now
  write (λ db. record db { households = db.households ++ household ∷ [] })
  write (λ db. record db {
    memberships =
        db.memberships ++ founder household_id current_user_id membership_id joined_at now ∷ [];
  })
  commit
  pure (household_response household)

-- The join of `list_households`: an active membership of the user, and its household.
unfoldable pub households_of : ℕ → List HouseholdMembership → Database → List (Household × Role)
households_of user_id [] db = []
households_of user_id (m ∷ ms) db =
    let rest = households_of user_id ms db in
    if m.user_id == user_id && m.is_active
    then map (λ h. (h, m.role)) (household_rows m.household_id db) ++ rest
    else rest

-- The groups of the bulk count of the active members of some households.
unfoldable pub member_counts : List ℕ → List HouseholdMembership → Dict ℕ
member_counts household_ids [] = []
member_counts household_ids (m ∷ ms) =
    let rest = member_counts household_ids ms in
    if any (λ i. i == m.household_id) household_ids && m.is_active
    then insert m.household_id (get_or 0 (lookup m.household_id rest) + 1) rest
    else rest

abbrev pub with_role : Dict ℕ → Household × Role → HouseholdWithRoleResponse
with_role counts row = record {
  id = (row.0).id;
  name = (row.0).name;
  created_at = (row.0).created_at;
  role = row.1;
  member_count = get_or 0 (lookup (row.0).id counts);
}

-- The rest of `list_households`; without rows there is no second query.
unfoldable pub counted_households :
    List (Household × Role) → Action (List HouseholdWithRoleResponse)
counted_households [] = pure []
counted_households (row ∷ rows) = do
  counts ← query (λ db. member_counts (map (λ r. (r.0).id) (row ∷ rows)) db.memberships)
  pure (map (with_role counts) (row ∷ rows))

module _ (engine : Engine) where
  -- GET /households
  unfoldable pub list_households : ℕ → Action (List HouseholdWithRoleResponse)
  list_households current_user_id = do
    rows ←
        query
          (λ db. engine.scan (Household × Role) (households_of current_user_id db.memberships db))
    counted_households rows

-- The household, or 404.
unfoldable pub load_household : ℕ → Action Household
load_household household_id = do
  rows ← query (household_rows household_id)
  household ← scalar_one_or_none rows
  raise_if_none not_found household

-- GET /households/{household_id}
unfoldable pub get_household : ℕ → ℕ → Action HouseholdDetailResponse
get_household household_id current_user_id = do
  require_household_member household_id current_user_id
  household ← load_household household_id
  member_count ← query (count_active_members household_id)
  pure (record {
    id = household.id;
    name = household.name;
    created_at = household.created_at;
    member_count = member_count;
  })

abbrev pub rename : String → Household → Household
rename name h = record h { name = name }

-- PATCH /households/{household_id}
unfoldable pub update_household : ℕ → String → ℕ → Action HouseholdResponse
update_household household_id name current_user_id = do
  require_admin household_id current_user_id
  household ← load_household household_id
  write (λ db. record db {
    households = update_where (λ h. h.id == household.id) (rename name) db.households;
  })
  pure (household_response (rename name household))

-- DELETE /households/{household_id}
unfoldable pub delete_household : ℕ → String → ℕ → Action (Unit {0})
delete_household household_id confirm current_user_id = do
  require_admin household_id current_user_id
  household ← load_household household_id
  raise_if (not (same_text confirm household.name)) bad_request
  write (delete_households (λ h. h == household_id))

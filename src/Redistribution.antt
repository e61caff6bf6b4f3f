-- ===== src/Redistribution.antt =====
-- backend/app/services/redistribution.py: the open chores and the rotation pointer of a household
-- when a member leaves.
pub mod Frame
pub mod Writes
pub mod Rows
pub mod Placed
pub mod Moves
pub mod Closed
pub mod Laps
pub mod Pointer
use chore_app.Base.{
  ℕ, ◌+◌, ◌-◌, ◌%◌, Bool, true, false, not, ◌&&◌, Option, none, some, List, [], ◌∷◌, map, ltb, ◌==◌,
  if◌then◌else◌, is_some_eq, any, filter, count, update_where, Dict,
}
use chore_app.Models.{
  Household, HouseholdMembership, ChoreInstance, Database, is_active_in, is_open,
}
use chore_app.Session.{Action, pure, ◌>>=◌, ◌>>◌, query, scalar_one_or_none, write}
use chore_app.Engine.{Engine}
use chore_app.Assignment.{household_rows, redistribute_chores_bulk}

-- The WHERE clause of step 1: an open chore of the removed member in the household.
abbrev pub is_open_of : ℕ → ℕ → ChoreInstance → Bool
is_open_of removed_user_id household_id c =
    is_some_eq c.assignee_id removed_user_id && c.household_id == household_id && is_open c.status

-- The WHERE clause of step 2: an active member other than the removed user.
abbrev pub is_remaining : ℕ → ℕ → HouseholdMembership → Bool
is_remaining removed_user_id household_id m =
    m.household_id == household_id && m.is_active && not (m.user_id == removed_user_id)

abbrev pub set_assignee : Option ℕ → ChoreInstance → ChoreInstance
set_assignee a c = record c { assignee_id = a }

-- `chore_map[chore_id].assignee_id = new_assignee`, on the row with that primary key.
abbrev pub with_assignee : ℕ → Option ℕ → List ChoreInstance → List ChoreInstance
with_assignee chore_id a = update_where (λ c. c.id == chore_id) (set_assignee a)

-- The loop over `assignments.items()`.
unfoldable pub write_assignees : List ℕ → Dict (Option ℕ) → List ChoreInstance → List ChoreInstance
write_assignees chore_ids [] rows = rows
write_assignees chore_ids (e ∷ d) rows =
    write_assignees chore_ids d
      (if any (λ cid. cid == e.0) chore_ids then with_assignee e.0 e.1 rows else rows)

-- `for chore in chores: chore.assignee_id = None`
unfoldable pub clear_assignees : List ℕ → List ChoreInstance → List ChoreInstance
clear_assignees [] rows = rows
clear_assignees (cid ∷ cids) rows = clear_assignees cids (with_assignee cid none rows)

abbrev pub with_instances : (List ChoreInstance → List ChoreInstance) → Database → Database
with_instances f db = record db { instances = f db.instances }

-- `household.rotation_pointer = max(0, household.rotation_pointer - 1)`
abbrev pub back : Household → Household
back h = record h { rotation_pointer = h.rotation_pointer - 1 }

abbrev pub step_back : ℕ → Database → Database
step_back household_id db = record db {
  households = update_where (λ h. h.id == household_id) back db.households;
}

-- `.limit(1)` and `scalar_one_or_none()`
abbrev first_membership : List HouseholdMembership → Option HouseholdMembership
first_membership [] = none
first_membership (m ∷ ms) = some m

module _ (engine : Engine) where
  -- Step 1: the identifiers of the open chores.
  unfoldable pub open_chores : ℕ → ℕ → Database → List ℕ
  open_chores removed_user_id household_id db =
      map (λ c. c.id)
        (engine.scan ChoreInstance (filter (is_open_of removed_user_id household_id) db.instances))

  earlier_members : ℕ → Option HouseholdMembership → Database → Option ℕ
  earlier_members household_id none db = none
  earlier_members household_id (some removed) db =
      some (
        count (λ m. is_active_in household_id m && ltb m.joined_at removed.joined_at)
          db.memberships)

  -- `removed_index`, when the household exists.
  unfoldable pub removed_index : ℕ → ℕ → Option Household → Database → Option ℕ
  unfolding earlier_members
  removed_index removed_user_id household_id none db = none
  removed_index removed_user_id household_id (some h) db =
      earlier_members household_id
        (first_membership (
          engine.descending HouseholdMembership (λ m. m.joined_at)
            (filter (λ m. m.household_id == household_id && m.user_id == removed_user_id)
              db.memberships)))
        db

  -- Steps 3 and 4.
  unfoldable pub move_chores : ℕ → List ℕ → ℕ → Action (Unit {0})
  move_chores household_id [] remaining_count = pure tt
  move_chores household_id (cid ∷ cids) remaining_count =
      if remaining_count == 0 then write (with_instances (clear_assignees (cid ∷ cids))) else do
        assignments ← redistribute_chores_bulk engine (cid ∷ cids) household_id
        write (with_instances (write_assignees (cid ∷ cids) assignments))

  -- Step 5.
  unfoldable pub adjust_pointer : ℕ → Option Household → Option ℕ → ℕ → Action (Unit {0})
  adjust_pointer household_id none index remaining_count = pure tt
  adjust_pointer household_id (some h) none remaining_count = pure tt
  adjust_pointer household_id (some h) (some index) remaining_count =
      if ltb index (h.rotation_pointer % (remaining_count + 1))
      then write (step_back household_id)
      else pure tt

  -- `redistribute_chores_for_removed_member`
  unfoldable pub redistribute_chores_for_removed_member : ℕ → ℕ → Action (Unit {0})
  redistribute_chores_for_removed_member removed_user_id household_id = do
    chore_ids ← query (open_chores removed_user_id household_id)
    remaining_count ← query (λ db. count (is_remaining removed_user_id household_id) db.memberships)
    rows ← query (household_rows household_id)
    household ← scalar_one_or_none rows
    index ← query (removed_index removed_user_id household_id household)
    move_chores household_id chore_ids remaining_count
    adjust_pointer household_id household index remaining_count

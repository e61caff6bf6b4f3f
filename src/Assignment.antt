-- ===== src/Assignment.antt =====
-- backend/app/services/assignment.py: the round-robin assignment of chores to active members.
pub mod Picks
pub mod Rotation
pub mod Bulk
use chore_app.Base.{
  ℕ, ◌+◌, ◌%◌, Option, none, some, List, [], ◌∷◌, map, ◌==◌, length, get_elem?, filter,
  update_where, Dict, insert,
}
use chore_app.Models.{Household, HouseholdMembership, Database, is_active_in}
use chore_app.Session.{Action, pure, ◌>>=◌, ◌>>◌, query, scalar_one_or_none, write}
use chore_app.Engine.{Engine}

-- `select(Household).where(Household.id == household_id)`
abbrev pub household_rows : ℕ → Database → List Household
household_rows household_id db = filter (λ h. h.id == household_id) db.households

abbrev pub set_pointer : ℕ → Household → Household
set_pointer p h = record h { rotation_pointer = p }

-- The assignment to `household.rotation_pointer`, on the row with that primary key.
abbrev pub with_pointer : ℕ → ℕ → Database → Database
with_pointer household_id p db = record db {
  households = update_where (λ h. h.id == household_id) (set_pointer p) db.households;
}

-- `member_ids[pointer % len(member_ids)]`; the index is in range unless the list is empty.
unfoldable pub pick : List ℕ → ℕ → Option ℕ
pick member_ids pointer = get_elem? member_ids (pointer % length member_ids)

-- The dict comprehension `{cid: None for cid in chore_instance_ids}`, after the entries of `d`.
unfoldable pub all_none : Dict (Option ℕ) → List ℕ → Dict (Option ℕ)
all_none d [] = d
all_none d (cid ∷ cids) = all_none (insert cid none d) cids

-- The `for` loop of `redistribute_chores_bulk`: the dict and the pointer at its end.
unfoldable pub cycle : List ℕ → Dict (Option ℕ) → ℕ → List ℕ → Dict (Option ℕ) × ℕ
cycle member_ids d pointer [] = (d, pointer)
cycle member_ids d pointer (cid ∷ cids) =
    cycle member_ids (insert cid (pick member_ids pointer) d) (pointer + 1) cids

module _ (engine : Engine) where
  -- The active members of a household in rotation order, by `joined_at`.
  unfoldable pub member_ids : ℕ → Database → List ℕ
  member_ids household_id db =
      map (λ m. m.user_id)
        (engine.ascending HouseholdMembership (λ m. m.joined_at)
          (filter (is_active_in household_id) db.memberships))

  -- The rest of `assign` once the household and the members are known.
  unfoldable pub assign_to : ℕ → Household → List ℕ → Action (Option ℕ)
  assign_to household_id household [] = pure none
  assign_to household_id household (m ∷ ms) = do
    write (with_pointer household_id (household.rotation_pointer + 1))
    pure (pick (m ∷ ms) household.rotation_pointer)

  assign_row : ℕ → Option Household → Action (Option ℕ)
  unfolding assign_to
  assign_row household_id none = pure none
  assign_row household_id (some household) = do
    ids ← query (member_ids household_id)
    assign_to household_id household ids

  -- `RoundRobinStrategy.assign`, which `AssignmentService.auto_assign` calls.
  unfoldable pub assign : ℕ → Action (Option ℕ)
  unfolding assign_row
  assign household_id = do
    rows ← query (household_rows household_id)
    household ← scalar_one_or_none rows
    assign_row household_id household

  redistribute_from : Dict (Option ℕ) → List ℕ → ℕ → Action (Dict (Option ℕ))
  redistribute_from d [] household_id = pure d
  redistribute_from d (cid ∷ cids) household_id = do
    new_assignee ← assign household_id
    redistribute_from (insert cid new_assignee d) cids household_id

  -- `AssignmentService.redistribute_chores`
  pub redistribute_chores : List ℕ → ℕ → Action (Dict (Option ℕ))
  unfolding redistribute_from
  redistribute_chores chore_instance_ids household_id =
      redistribute_from [] chore_instance_ids household_id

  bulk_members : List ℕ → ℕ → Household → List ℕ → Action (Dict (Option ℕ))
  bulk_members cids household_id household [] = pure (all_none [] cids)
  bulk_members cids household_id household (m ∷ ms) = do
    let (assignments, pointer) = cycle (m ∷ ms) [] household.rotation_pointer cids
    write (with_pointer household_id pointer)
    pure assignments

  bulk_row : List ℕ → ℕ → Option Household → Action (Dict (Option ℕ))
  unfolding bulk_members
  bulk_row cids household_id none = pure (all_none [] cids)
  bulk_row cids household_id (some household) = do
    ids ← query (member_ids household_id)
    bulk_members cids household_id household ids

  -- `AssignmentService.redistribute_chores_bulk`
  unfoldable pub redistribute_chores_bulk : List ℕ → ℕ → Action (Dict (Option ℕ))
  unfolding bulk_row
  redistribute_chores_bulk [] household_id = pure []
  redistribute_chores_bulk (cid ∷ cids) household_id = do
    rows ← query (household_rows household_id)
    household ← scalar_one_or_none rows
    bulk_row (cid ∷ cids) household_id household

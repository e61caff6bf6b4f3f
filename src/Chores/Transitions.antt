-- ===== src/Chores/Transitions.antt =====
-- backend/app/api/chores.py: completing, dismissing and reassigning one instance.
use chore_app.Base.{
  ℕ, Bool, true, false, not, ◌||◌, Option, none, some, List, [], ◌∷◌, ◌++◌, is_some_eq, filter,
}
use chore_app.Models.{
  HouseholdMembership, complete, dismissed, ChoreDefinition, ChoreInstance, PointLedger, is_admin,
  is_terminal, effort_points, is_active_of,
}
use chore_app.Session.{
  Action, forbidden, not_found, conflict, unprocessable, pure, raise_if, raise_if_none, ◌>>=◌, ◌>>◌,
  query, scalar_one_or_none, write,
}
use chore_app.Engine.{Engine}
use chore_app.Deps.{require_household_member, require_admin}
use chore_app.Assignment.{assign}
use chore_app.Chores.Responses.{
  ChoreInstanceResponse, instance_response_from_row, instance_rows, with_instance,
  definition_or_422, resolve_assignee_name,
}

-- The caller is the assignee, or an admin of the household.
abbrev pub may_close : ℕ → HouseholdMembership → ChoreInstance → Bool
may_close current_user_id membership c =
    is_some_eq c.assignee_id current_user_id || is_admin membership.role

-- `_load_instance_for_terminal_transition`. The row stays locked until the transaction ends.
unfoldable pub load_instance_for_terminal_transition :
    ℕ → ℕ → ℕ → HouseholdMembership → Action ChoreInstance
load_instance_for_terminal_transition household_id instance_id current_user_id membership = do
  rows ← query (instance_rows household_id instance_id)
  found ← scalar_one_or_none rows
  c ← raise_if_none not_found found
  raise_if (not (may_close current_user_id membership c)) forbidden
  raise_if (is_terminal c.status) conflict
  pure c

-- What `complete` writes on the instance: points for the assignee, if there is one.
abbrev pub points_for : Option ℕ → ChoreDefinition → Option ℕ
points_for none d = none
points_for (some assignee) d = some (effort_points d.effort_level)

abbrev pub completed : ChoreDefinition → ℕ → ChoreInstance → ChoreInstance
completed d now c = record c {
  status = complete;
  completed_at = some now;
  points_awarded = points_for c.assignee_id d;
}

-- `db.add(ledger_entry)`, for the assignee.
abbrev pub credited :
    Option ℕ → ℕ → ℕ → ℕ → ChoreDefinition → ℕ → List PointLedger → List PointLedger
credited none entry_id household_id instance_id d now ledger = ledger
credited (some assignee) entry_id household_id instance_id d now ledger =
    ledger
    ++ record {
      id = entry_id;
      household_id = household_id;
      user_id = assignee;
      chore_instance_id = some instance_id;
      points = effort_points d.effort_level;
      awarded_at = now;
    }
      ∷ []

abbrev pub dismiss_row : ℕ → ChoreInstance → ChoreInstance
dismiss_row now c = record c { status = dismissed; completed_at = some now; points_awarded = none }

-- POST /{instance_id}/complete; `entry_id` is the fresh identifier of the ledger entry.
unfoldable pub complete_chore_instance : ℕ → ℕ → ℕ → ℕ → ℕ → Action ChoreInstanceResponse
complete_chore_instance household_id instance_id current_user_id entry_id now = do
  membership ← require_household_member household_id current_user_id
  c ← load_instance_for_terminal_transition household_id instance_id current_user_id membership
  d ← definition_or_422 c
  write (with_instance instance_id (completed d now))
  write (λ db. record db {
    ledger = credited c.assignee_id entry_id household_id instance_id d now db.ledger;
  })
  assignee_name ← resolve_assignee_name c.assignee_id
  pure (instance_response_from_row (completed d now c) d assignee_name)

-- POST /{instance_id}/dismiss
unfoldable pub dismiss_chore_instance : ℕ → ℕ → ℕ → ℕ → Action ChoreInstanceResponse
dismiss_chore_instance household_id instance_id current_user_id now = do
  membership ← require_household_member household_id current_user_id
  c ← load_instance_for_terminal_transition household_id instance_id current_user_id membership
  d ← definition_or_422 c
  write (with_instance instance_id (dismiss_row now))
  assignee_name ← resolve_assignee_name c.assignee_id
  pure (instance_response_from_row (dismiss_row now c) d assignee_name)

abbrev pub reassigned : Option ℕ → Bool → ChoreInstance → ChoreInstance
reassigned a manually c = record c { assignee_id = a; assigned_manually = manually }

-- The requested assignee must be an active member of the household.
unfoldable pub require_assignable : ℕ → ℕ → Action HouseholdMembership
require_assignable household_id assignee_id = do
  rows ← query (λ db. filter (is_active_of household_id assignee_id) db.memberships)
  found ← scalar_one_or_none rows
  raise_if_none unprocessable found

module _ (engine : Engine) where
  -- The assignee of `create_chore` and `reassign_chore`, and whether it was chosen by hand.
  unfoldable pub choose_assignee : ℕ → Option ℕ → Action (Option ℕ × Bool)
  choose_assignee household_id (some assignee_id) = do
    require_assignable household_id assignee_id
    pure (some assignee_id, true)
  choose_assignee household_id none = do
    assignee_id ← assign engine household_id
    pure (assignee_id, false)

  -- PATCH /{instance_id}/assignee
  unfoldable pub reassign_chore : ℕ → ℕ → Option ℕ → ℕ → Action ChoreInstanceResponse
  reassign_chore household_id instance_id assignee_id current_user_id = do
    require_admin household_id current_user_id
    rows ← query (instance_rows household_id instance_id)
    found ← scalar_one_or_none rows
    c ← raise_if_none not_found found
    raise_if (is_terminal c.status) conflict
    chosen ← choose_assignee household_id assignee_id
    write (with_instance instance_id (reassigned chosen.0 chosen.1))
    d ← definition_or_422 c
    assignee_name ← resolve_assignee_name chosen.0
    pure (instance_response_from_row (reassigned chosen.0 chosen.1 c) d assignee_name)

-- ===== src/Models/Tests.antt =====
-- The tests on columns that several queries of backend/app share.
use chore_app.Base.{ℕ, Bool, true, false, ◌&&◌, ◌==◌}
use chore_app.Models.Rows.{
  Role, admin, member, HouseholdMembership, ChoreCategory, ChoreStatus, pending, complete, overdue,
  cancelled, dismissed, EffortLevel, easy, medium, hard, ChoreType, one_off, recurring,
}

-- `role == "admin"`
abbrev pub is_admin : Role → Bool
is_admin admin = true
is_admin member = false

abbrev pub is_recurring : ChoreType → Bool
is_recurring recurring = true
is_recurring one_off = false

-- `status == "pending"`
abbrev pub is_pending : ChoreStatus → Bool
is_pending pending = true
is_pending complete = false
is_pending overdue = false
is_pending cancelled = false
is_pending dismissed = false

-- `status.in_(["pending", "overdue"])`
abbrev pub is_open : ChoreStatus → Bool
is_open pending = true
is_open complete = false
is_open overdue = true
is_open cancelled = false
is_open dismissed = false

-- `status in _TERMINAL_STATUSES`
abbrev pub is_terminal : ChoreStatus → Bool
is_terminal pending = false
is_terminal complete = true
is_terminal overdue = false
is_terminal cancelled = true
is_terminal dismissed = true

-- `status == "complete"`
abbrev pub is_complete : ChoreStatus → Bool
is_complete pending = false
is_complete complete = true
is_complete overdue = false
is_complete cancelled = false
is_complete dismissed = false

-- EFFORT_POINTS of core/constants.py
abbrev pub effort_points : EffortLevel → ℕ
effort_points easy = 10
effort_points medium = 25
effort_points hard = 50

-- The active membership of a user in a household, the WHERE clause of most permission checks.
abbrev pub is_active_of : ℕ → ℕ → HouseholdMembership → Bool
is_active_of household_id user_id m =
    m.household_id == household_id && m.user_id == user_id && m.is_active

-- An active membership of a household.
abbrev pub is_active_in : ℕ → HouseholdMembership → Bool
is_active_in household_id m = m.household_id == household_id && m.is_active

-- An active membership of a household with the admin role.
abbrev pub is_active_admin_in : ℕ → HouseholdMembership → Bool
is_active_admin_in household_id m = m.household_id == household_id && m.is_active && is_admin m.role

-- The values of an enum are compared.
pub ChoreStatus-discrete : Discrete ChoreStatus
ChoreStatus-discrete = hlevel

pub ChoreCategory-discrete : Discrete ChoreCategory
ChoreCategory-discrete = hlevel

abbrev is_yes : {P : Type 0} → Dec P → Bool
is_yes (yes h) = true
is_yes (no h) = false

abbrev pub same_status : ChoreStatus → ChoreStatus → Bool
same_status a b = is_yes (ChoreStatus-discrete a b)

abbrev pub same_category : ChoreCategory → ChoreCategory → Bool
same_category a b = is_yes (ChoreCategory-discrete a b)

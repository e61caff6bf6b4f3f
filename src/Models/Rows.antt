-- ===== src/Models/Rows.antt =====
-- The rows and the database: backend/app/models/*.py and backend/app/db/base.py.
use chore_app.Base.{ℕ, ◌≤◌, String, Bool, Option, List}

-- models/user.py
pub record User : Type 0 where
  pub id : ℕ
  pub email : String
  pub display_name : String
  pub password_hash : String
  pub created_at : ℕ

-- models/household.py
pub record Household : Type 0 where
  pub id : ℕ
  pub name : String
  pub rotation_pointer : ℕ
  pub created_at : ℕ

-- The enum `membership_role`.
pub data Role : Type 0 where
  admin member : Role

-- models/household_membership.py
pub record HouseholdMembership : Type 0 where
  pub id : ℕ
  pub household_id : ℕ
  pub user_id : ℕ
  pub role : Role
  pub joined_at : ℕ
  pub is_active : Bool
  pub created_at : ℕ

pub data ChoreCategory : Type 0 where
  kitchen bathroom bedroom living_room laundry_room : ChoreCategory
  garden_outdoor garage other_general : ChoreCategory

pub data EffortLevel : Type 0 where
  easy medium hard : EffortLevel

pub data ChoreType : Type 0 where
  one_off recurring : ChoreType

pub data IntervalUnit : Type 0 where
  days weeks months : IntervalUnit

-- `RecurrenceRule` of schemas/chore.py, which accepts no interval below 1.
pub record RecurrenceRule : Type 0 where
  pub interval_unit : IntervalUnit
  pub interval_n : ℕ
  pub interval_n_ge : 1 ≤ interval_n

-- models/chore_definition.py
pub record ChoreDefinition : Type 0 where
  pub id : ℕ
  pub household_id : ℕ
  pub created_by_id : Option ℕ
  pub title : String
  pub description : Option String
  pub category : ChoreCategory
  pub effort_level : EffortLevel
  pub chore_type : ChoreType
  pub recurrence_rule : Option RecurrenceRule
  pub first_due_date : ℕ
  pub is_active : Bool
  pub hidden_from_suggestions : Bool
  pub created_at : ℕ

-- The enum `chore_status`.
pub data ChoreStatus : Type 0 where
  pending complete overdue cancelled dismissed : ChoreStatus

-- models/chore_instance.py
pub record ChoreInstance : Type 0 where
  pub id : ℕ
  pub definition_id : Option ℕ
  pub household_id : ℕ
  pub assignee_id : Option ℕ
  pub assigned_manually : Bool
  pub due_date : ℕ
  pub status : ChoreStatus
  pub completed_at : Option ℕ
  pub points_awarded : Option ℕ
  pub created_at : ℕ

-- models/point_ledger.py
pub record PointLedger : Type 0 where
  pub id : ℕ
  pub household_id : ℕ
  pub user_id : ℕ
  pub chore_instance_id : Option ℕ
  pub points : ℕ
  pub awarded_at : ℕ

-- models/invite_token.py
pub record InviteToken : Type 0 where
  pub id : ℕ
  pub household_id : ℕ
  pub created_by_id : Option ℕ
  pub token : String
  pub expires_at : ℕ
  pub used_at : Option ℕ
  pub created_at : ℕ

-- models/refresh_token.py
pub record RefreshToken : Type 0 where
  pub id : ℕ
  pub user_id : ℕ
  pub token_hash : String
  pub created_at : ℕ
  pub expires_at : ℕ
  pub revoked_at : Option ℕ

-- models/revoked_token.py
pub record RevokedToken : Type 0 where
  pub jti : String
  pub revoked_at : ℕ
  pub expires_at : ℕ

-- models/grocery_item.py
pub record GroceryItem : Type 0 where
  pub id : ℕ
  pub household_id : ℕ
  pub added_by_id : Option ℕ
  pub name : String
  pub quantity : Option String
  pub notes : Option String
  pub is_purchased : Bool
  pub purchased_by_id : Option ℕ
  pub purchased_at : Option ℕ
  pub created_at : ℕ

-- What a transaction sees: one list of rows for each table.
pub record Database : Type 0 where
  pub users : List User
  pub households : List Household
  pub memberships : List HouseholdMembership
  pub definitions : List ChoreDefinition
  pub instances : List ChoreInstance
  pub ledger : List PointLedger
  pub invites : List InviteToken
  pub refresh_tokens : List RefreshToken
  pub revoked_tokens : List RevokedToken
  pub groceries : List GroceryItem

-- ===== src/Chores/Responses.antt =====
-- The parts of backend/app/api/chores.py that several handlers share: queries for one row, and the
-- response of backend/app/schemas/chore.py.
use chore_app.Base.{
  ℕ, String, Bool, ◌&&◌, Option, none, some, List, ◌==◌, is_some_eq, filter, update_where,
}
use chore_app.Models.{
  User, ChoreCategory, EffortLevel, ChoreType, ChoreStatus, ChoreDefinition, ChoreInstance,
  Database,
}
use chore_app.Session.{Action, unprocessable, pure, raise_if_none, ◌>>=◌, query, scalar_one_or_none}

-- `ChoreInstanceResponse`
pub record ChoreInstanceResponse : Type 0 where
  pub id : ℕ
  pub definition_id : Option ℕ
  pub household_id : ℕ
  pub assignee_id : Option ℕ
  pub assignee_name : Option String
  pub assigned_manually : Bool
  pub created_at : ℕ
  pub due_date : ℕ
  pub status : ChoreStatus
  pub completed_at : Option ℕ
  pub points_awarded : Option ℕ
  pub title : String
  pub description : Option String
  pub category : ChoreCategory
  pub effort_level : EffortLevel
  pub chore_type : ChoreType

-- `_instance_response_from_row`
unfoldable pub instance_response_from_row :
    ChoreInstance → ChoreDefinition → Option String → ChoreInstanceResponse
instance_response_from_row i d assignee_name = record {
  id = i.id;
  definition_id = i.definition_id;
  household_id = i.household_id;
  assignee_id = i.assignee_id;
  assignee_name = assignee_name;
  assigned_manually = i.assigned_manually;
  created_at = i.created_at;
  due_date = i.due_date;
  status = i.status;
  completed_at = i.completed_at;
  points_awarded = i.points_awarded;
  title = d.title;
  description = d.description;
  category = d.category;
  effort_level = d.effort_level;
  chore_type = d.chore_type;
}

-- The instance with an identifier, in a household.
abbrev pub instance_rows : ℕ → ℕ → Database → List ChoreInstance
instance_rows household_id instance_id db =
    filter (λ c. c.id == instance_id && c.household_id == household_id) db.instances

-- The definition that an instance refers to.
abbrev pub definition_rows : ChoreInstance → Database → List ChoreDefinition
definition_rows instance_row db =
    filter (λ d. is_some_eq instance_row.definition_id d.id) db.definitions

-- Columns of one instance, written on the row with that primary key.
abbrev pub with_instance : ℕ → (ChoreInstance → ChoreInstance) → Database → Database
with_instance instance_id f db = record db {
  instances = update_where (λ c. c.id == instance_id) f db.instances;
}

-- `_definition_or_422`
unfoldable pub definition_or_422 : ChoreInstance → Action ChoreDefinition
definition_or_422 instance_row = do
  rows ← query (definition_rows instance_row)
  definition ← scalar_one_or_none rows
  raise_if_none unprocessable definition

-- The user that a nullable column refers to.
abbrev pub user_rows : Option ℕ → Database → List User
user_rows user_id db = filter (λ u. is_some_eq user_id u.id) db.users

abbrev pub display_name_of : Option User → Option String
display_name_of none = none
display_name_of (some u) = some u.display_name

-- `_resolve_assignee_name`
unfoldable pub resolve_assignee_name : Option ℕ → Action (Option String)
resolve_assignee_name none = pure none
resolve_assignee_name (some assignee_id) = do
  rows ← query (λ db. filter (λ u. u.id == assignee_id) db.users)
  user ← scalar_one_or_none rows
  pure (display_name_of user)

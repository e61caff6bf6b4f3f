-- ===== src/Chores/Definitions.antt =====
-- backend/app/api/chores.py: creating, changing, hiding and deleting a series, with the request
-- bodies of backend/app/schemas/chore.py.
use chore_app.Base.{
  ℕ, String, Bool, true, false, ◌&&◌, ◌||◌, Option, none, some, List, [], ◌∷◌, ◌++◌, ◌==◌,
  is_some_eq, is_none, if◌then◌else◌, filter, update_where,
}
use chore_app.Models.{
  ChoreCategory, EffortLevel, ChoreType, RecurrenceRule, pending, cancelled, ChoreDefinition,
  ChoreInstance, Database, is_recurring, is_pending,
}
use chore_app.Session.{
  Action, not_found, conflict, unprocessable, pure, raise_if, raise_if_none, ◌>>=◌, ◌>>◌, query,
  scalar_one_or_none, write, commit,
}
use chore_app.Engine.{Engine}
use chore_app.Deps.{require_admin}
use chore_app.Chores.Responses.{
  ChoreInstanceResponse, instance_response_from_row, resolve_assignee_name,
}
use chore_app.Chores.Transitions.{choose_assignee}

-- `ChoreCreate`
pub record ChoreCreate : Type 0 where
  pub title : String
  pub description : Option String
  pub category : ChoreCategory
  pub effort_level : EffortLevel
  pub chore_type : ChoreType
  pub first_due_date : ℕ
  pub recurrence_rule : Option RecurrenceRule
  pub assignee_id : Option ℕ

-- A field of a request body that may be left out, or be null.
pub data Field (A : Type 0) : Type 0 where
  unset null : Field A
  value : A → Field A

-- `ChoreUpdate`
pub record ChoreUpdate : Type 0 where
  pub title : Field String
  pub description : Field String
  pub category : Field ChoreCategory
  pub effort_level : Field EffortLevel
  pub recurrence_rule : Field RecurrenceRule

-- `ChoreDefinitionResponse`
pub record ChoreDefinitionResponse : Type 0 where
  pub id : ℕ
  pub household_id : ℕ
  pub title : String
  pub description : Option String
  pub category : ChoreCategory
  pub effort_level : EffortLevel
  pub chore_type : ChoreType
  pub recurrence_rule : Option RecurrenceRule
  pub first_due_date : ℕ
  pub is_active : Bool
  pub created_at : ℕ
  pub first_instance : Option ChoreInstanceResponse

-- The response of `create_chore` and `update_chore_definition`.
abbrev pub definition_response :
    ChoreDefinition → Option ChoreInstanceResponse → ChoreDefinitionResponse
definition_response d first = record {
  id = d.id;
  household_id = d.household_id;
  title = d.title;
  description = d.description;
  category = d.category;
  effort_level = d.effort_level;
  chore_type = d.chore_type;
  recurrence_rule = d.recurrence_rule;
  first_due_date = d.first_due_date;
  is_active = d.is_active;
  created_at = d.created_at;
  first_instance = first;
}

-- The new definition row of `create_chore`.
abbrev pub new_definition : ℕ → ChoreCreate → ℕ → ℕ → ℕ → ChoreDefinition
new_definition household_id body admin_id definition_id now = record {
  id = definition_id;
  household_id = household_id;
  created_by_id = some admin_id;
  title = body.title;
  description = body.description;
  category = body.category;
  effort_level = body.effort_level;
  chore_type = body.chore_type;
  recurrence_rule = body.recurrence_rule;
  first_due_date = body.first_due_date;
  is_active = true;
  hidden_from_suggestions = false;
  created_at = now;
}

-- Its first instance.
abbrev pub first_instance : ℕ → ℕ → Option ℕ → Bool → ℕ → ℕ → ℕ → ChoreInstance
first_instance household_id definition_id assignee manually due instance_id now = record {
  id = instance_id;
  definition_id = some definition_id;
  household_id = household_id;
  assignee_id = assignee;
  assigned_manually = manually;
  due_date = due;
  status = pending;
  completed_at = none;
  points_awarded = none;
  created_at = now;
}

module _ (engine : Engine) where
  -- POST /chores; the fresh identifiers and the time of the transaction are arguments.
  unfoldable pub create_chore : ℕ → ChoreCreate → ℕ → ℕ → ℕ → ℕ → Action ChoreDefinitionResponse
  create_chore household_id body current_user_id definition_id instance_id now = do
    membership ← require_admin household_id current_user_id
    raise_if (is_recurring body.chore_type && is_none body.recurrence_rule) unprocessable
    let definition = new_definition household_id body membership.user_id definition_id now
    write (λ db. record db { definitions = db.definitions ++ definition ∷ [] })
    chosen ← choose_assignee engine household_id body.assignee_id
    let first =
        first_instance household_id definition_id chosen.0 chosen.1 body.first_due_date instance_id
          now
    write (λ db. record db { instances = db.instances ++ first ∷ [] })
    assignee_name ← resolve_assignee_name chosen.0
    commit
    pure (
        definition_response definition
          (some (instance_response_from_row first definition assignee_name)))

-- A definition of a household, active ones only where `active_only` says so.
abbrev pub definitions_of : ℕ → ℕ → Bool → Database → List ChoreDefinition
definitions_of household_id definition_id active_only db =
    filter
      (λ d.
        d.id == definition_id
        && d.household_id == household_id
        && (if active_only then d.is_active else true))
      db.definitions

abbrev pub with_definition : ℕ → (ChoreDefinition → ChoreDefinition) → Database → Database
with_definition definition_id f db = record db {
  definitions = update_where (λ d. d.id == definition_id) f db.definitions;
}

-- The definition, or 404.
unfoldable pub load_definition : ℕ → ℕ → Bool → Action ChoreDefinition
load_definition household_id definition_id active_only = do
  rows ← query (definitions_of household_id definition_id active_only)
  found ← scalar_one_or_none rows
  raise_if_none not_found found

-- POST /chores/{definition_id}/hide
unfoldable pub hide_chore_template : ℕ → ℕ → ℕ → Action (Unit {0})
hide_chore_template household_id definition_id current_user_id = do
  require_admin household_id current_user_id
  d ← load_definition household_id definition_id true
  write (with_definition d.id (λ r. record r { hidden_from_suggestions = true }))

module _ {A : Type 0} where
  abbrev pub is_null : Field A → Bool
  is_null unset = false
  is_null null = true
  is_null (value a) = false

  -- `setattr` of a column that is not nullable.
  abbrev pub set_required : Field A → A → A
  set_required unset old = old
  set_required null old = old
  set_required (value a) old = a

  -- `setattr` of a nullable column.
  abbrev pub set_optional : Field A → Option A → Option A
  set_optional unset old = old
  set_optional null old = none
  set_optional (value a) old = some a

-- The loop of `update_chore_definition` over the fields that are set.
abbrev pub patched : ChoreUpdate → ChoreDefinition → ChoreDefinition
patched body d = record d {
  title = set_required body.title d.title;
  description = set_optional body.description d.description;
  category = set_required body.category d.category;
  effort_level = set_required body.effort_level d.effort_level;
  recurrence_rule = set_optional body.recurrence_rule d.recurrence_rule;
}

-- PATCH /chores/{definition_id}. A null for a column that is not nullable fails at the flush, with
-- an IntegrityError that backend/main.py answers with 409.
unfoldable pub update_chore_definition : ℕ → ℕ → ChoreUpdate → ℕ → Action ChoreDefinitionResponse
update_chore_definition household_id definition_id body current_user_id = do
  require_admin household_id current_user_id
  d ← load_definition household_id definition_id true
  raise_if (is_null body.title || is_null body.category || is_null body.effort_level) conflict
  write (with_definition d.id (patched body))
  pure (definition_response (patched body d) none)

-- An instance of the series that is still pending.
abbrev pub is_pending_of : ℕ → ChoreInstance → Bool
is_pending_of definition_id c = is_some_eq c.definition_id definition_id && is_pending c.status

abbrev pub cancel : ChoreInstance → ChoreInstance
cancel c = record c { status = cancelled }

-- DELETE /chores/{definition_id}
unfoldable pub delete_chore_definition : ℕ → ℕ → ℕ → Action (Unit {0})
delete_chore_definition household_id definition_id current_user_id = do
  require_admin household_id current_user_id
  d ← load_definition household_id definition_id false
  write (with_definition d.id (λ r. record r { is_active = false }))
  write (λ db. record db {
    instances = update_where (is_pending_of definition_id) cancel db.instances;
  })

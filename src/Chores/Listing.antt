-- ===== src/Chores/Listing.antt =====
-- The listings of backend/app/api/chores.py: the instances of a household in pages, one instance,
-- and the templates.
use chore_app.Base.{
  ℕ, String, Bool, true, ◌&&◌, not, Option, none, some, List, map, length, ◌==◌, is_some_eq, filter,
  for_each, outer, page,
}
use chore_app.Models.{
  same_status, same_category, User, ChoreCategory, EffortLevel, ChoreStatus, ChoreDefinition,
  ChoreInstance, Database,
}
use chore_app.Session.{
  Action, not_found, pure, raise_if_none, ◌>>=◌, ◌>>◌, query, scalar_one_or_none,
}
use chore_app.Engine.{Engine}
use chore_app.Deps.{require_household_member, require_admin}
use chore_app.Chores.Responses.{
  ChoreInstanceResponse, instance_response_from_row, definition_rows, instance_rows, user_rows,
  display_name_of,
}

-- The optional filters of the query string.
pub record ChoreFilters : Type 0 where
  pub status_filter : Option ChoreStatus
  pub category : Option ChoreCategory
  pub assignee_id : Option ℕ

abbrev pub has_status : Option ChoreStatus → ChoreStatus → Bool
has_status none status = true
has_status (some wanted) status = same_status status wanted

abbrev pub has_category : Option ChoreCategory → ChoreCategory → Bool
has_category none category = true
has_category (some wanted) category = same_category category wanted

abbrev pub has_assignee : Option ℕ → Option ℕ → Bool
has_assignee none assignee_id = true
has_assignee (some wanted) assignee_id = is_some_eq assignee_id wanted

-- The conditions of `base_filters` on an instance, and those on its definition.
abbrev pub fits_instance : ℕ → ChoreFilters → ChoreInstance → Bool
fits_instance household_id q c =
    c.household_id == household_id
    && has_status q.status_filter c.status
    && has_assignee q.assignee_id c.assignee_id

abbrev pub fits_definition : ChoreFilters → ChoreDefinition → Bool
fits_definition q d = d.is_active && has_category q.category d.category

-- A row of the data query.
pub record ChoreRow : Type 0 where
  pub chore : ChoreInstance
  pub definition : ChoreDefinition
  pub assignee : Option User

-- The joins of the count, and of the data query, for one instance.
unfoldable pub counted_rows : ChoreFilters → Database → ChoreInstance → List ChoreDefinition
counted_rows q db c = filter (fits_definition q) (definition_rows c db)

unfoldable pub data_rows : ChoreFilters → Database → ChoreInstance → List ChoreRow
data_rows q db c = for_each (filter (fits_definition q) (definition_rows c db)) (λ d.
    map (λ u. record { chore = c; definition = d; assignee = u })
      (outer (user_rows c.assignee_id db)))

abbrev pub row_response : ChoreRow → ChoreInstanceResponse
row_response r = instance_response_from_row r.chore r.definition (display_name_of r.assignee)

pub record PaginatedChoreResponse : Type 0 where
  pub items : List ChoreInstanceResponse
  pub total : ℕ
  pub limit : ℕ
  pub offset : ℕ

-- `ChoreTemplateResponse`
pub record ChoreTemplateResponse : Type 0 where
  pub id : ℕ
  pub title : String
  pub description : Option String
  pub category : ChoreCategory
  pub effort_level : EffortLevel

abbrev pub template_response : ChoreDefinition → ChoreTemplateResponse
template_response d = record {
  id = d.id;
  title = d.title;
  description = d.description;
  category = d.category;
  effort_level = d.effort_level;
}

abbrev pub is_template : ℕ → ChoreDefinition → Bool
is_template household_id d =
    d.household_id == household_id && d.is_active && not d.hidden_from_suggestions

module _ (engine : Engine) where
  -- The rows of the data query in their order, all of them.
  unfoldable pub ordered_rows : ℕ → ChoreFilters → Database → List ChoreRow
  ordered_rows household_id q db =
      engine.newest ChoreRow (λ r. (r.chore).created_at) (λ r. (r.chore).id)
        (for_each (filter (fits_instance household_id q) db.instances) (data_rows q db))

  -- GET /chores
  unfoldable pub list_chores : ℕ → ChoreFilters → ℕ → ℕ → ℕ → Action PaginatedChoreResponse
  list_chores household_id q limit offset current_user_id = do
    require_household_member household_id current_user_id
    total ← query (λ db.
        length (for_each (filter (fits_instance household_id q) db.instances) (counted_rows q db)))
    rows ← query (λ db. page limit offset (ordered_rows household_id q db))
    pure (record { items = map row_response rows; total = total; limit = limit; offset = offset })

  -- GET /chores/templates
  unfoldable pub list_chore_templates : ℕ → ℕ → Action (List ChoreTemplateResponse)
  list_chore_templates household_id current_user_id = do
    require_admin household_id current_user_id
    definitions ← query (λ db.
        engine.descending ChoreDefinition (λ d. d.created_at)
          (filter (is_template household_id) db.definitions))
    pure (map template_response definitions)

-- GET /chores/{instance_id}
unfoldable pub get_chore_instance : ℕ → ℕ → ℕ → Action ChoreInstanceResponse
get_chore_instance household_id instance_id current_user_id = do
  require_household_member household_id current_user_id
  rows ← query (λ db. for_each (instance_rows household_id instance_id db) (λ c.
      for_each (definition_rows c db) (λ d.
        map (λ u. record { chore = c; definition = d; assignee = u })
          (outer (user_rows c.assignee_id db)))))
  row ← scalar_one_or_none rows
  found ← raise_if_none not_found row
  pure (row_response found)

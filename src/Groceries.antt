-- ===== src/Groceries.antt =====
-- backend/app/api/groceries.py: the shopping list of a household.
pub mod Purchases
pub mod Listing
use chore_app.Base.{
  ℕ, String, Bool, true, false, ◌&&◌, not, Option, none, some, List, [], ◌∷◌, ◌++◌, ◌==◌, filter,
  update_where, map, for_each, outer,
}
use chore_app.Models.{User, GroceryItem, Database}
use chore_app.Session.{
  Action, not_found, conflict, pure, raise_if, raise_if_none, ◌>>=◌, ◌>>◌, query,
  scalar_one_or_none, write,
}
use chore_app.Engine.{Engine}
use chore_app.Deps.{require_household_member}
use chore_app.Chores.Definitions.{Field, is_null, set_required, set_optional}
use chore_app.Chores.Responses.{resolve_assignee_name, user_rows, display_name_of}

-- `GroceryItemCreate`
pub record GroceryItemCreate : Type 0 where
  pub name : String
  pub quantity : Option String
  pub notes : Option String

-- `GroceryItemUpdate`
pub record GroceryItemUpdate : Type 0 where
  pub name : Field String
  pub quantity : Field String
  pub notes : Field String

-- `GroceryItemResponse`
pub record GroceryItemResponse : Type 0 where
  pub id : ℕ
  pub household_id : ℕ
  pub added_by_id : Option ℕ
  pub added_by_name : Option String
  pub name : String
  pub quantity : Option String
  pub notes : Option String
  pub is_purchased : Bool
  pub purchased_by_id : Option ℕ
  pub purchased_by_name : Option String
  pub purchased_at : Option ℕ
  pub created_at : ℕ

-- `_item_response`
abbrev pub item_response : GroceryItem → Option String → Option String → GroceryItemResponse
item_response item added_by_name purchased_by_name = record {
  id = item.id;
  household_id = item.household_id;
  added_by_id = item.added_by_id;
  added_by_name = added_by_name;
  name = item.name;
  quantity = item.quantity;
  notes = item.notes;
  is_purchased = item.is_purchased;
  purchased_by_id = item.purchased_by_id;
  purchased_by_name = purchased_by_name;
  purchased_at = item.purchased_at;
  created_at = item.created_at;
}

abbrev pub item_rows : ℕ → ℕ → Database → List GroceryItem
item_rows item_id household_id db =
    filter (λ g. g.id == item_id && g.household_id == household_id) db.groceries

-- `_get_item_or_404`
unfoldable pub get_item_or_404 : ℕ → ℕ → Action GroceryItem
get_item_or_404 item_id household_id = do
  rows ← query (item_rows item_id household_id)
  item ← scalar_one_or_none rows
  raise_if_none not_found item

-- `_build_item_response`; the lookup of a user by primary key is the one that api/chores.py does
-- for an assignee.
unfoldable pub build_item_response : GroceryItem → Action GroceryItemResponse
build_item_response item = do
  added_by_name ← resolve_assignee_name item.added_by_id
  purchased_by_name ← resolve_assignee_name item.purchased_by_id
  pure (item_response item added_by_name purchased_by_name)

abbrev pub new_item : ℕ → GroceryItemCreate → ℕ → ℕ → ℕ → GroceryItem
new_item household_id body user_id item_id now = record {
  id = item_id;
  household_id = household_id;
  added_by_id = some user_id;
  name = body.name;
  quantity = body.quantity;
  notes = body.notes;
  is_purchased = false;
  purchased_by_id = none;
  purchased_at = none;
  created_at = now;
}

-- POST /groceries
unfoldable pub add_grocery_item : ℕ → GroceryItemCreate → User → ℕ → ℕ → Action GroceryItemResponse
add_grocery_item household_id body current_user item_id now = do
  require_household_member household_id current_user.id
  let item = new_item household_id body current_user.id item_id now
  write (λ db. record db { groceries = db.groceries ++ item ∷ [] })
  pure (item_response item (some current_user.display_name) none)

-- Columns of one item, written on the row with that primary key.
abbrev pub with_item : ℕ → (GroceryItem → GroceryItem) → Database → Database
with_item item_id f db = record db {
  groceries = update_where (λ g. g.id == item_id) f db.groceries;
}

-- The loop of `update_grocery_item` over the fields that are set.
abbrev pub edited : GroceryItemUpdate → GroceryItem → GroceryItem
edited body g = record g {
  name = set_required body.name g.name;
  quantity = set_optional body.quantity g.quantity;
  notes = set_optional body.notes g.notes;
}

-- A row of the query of `list_grocery_items`.
abbrev pub item_row : GroceryItem → Option User → Option User → GroceryItemResponse
item_row item added_by purchased_by =
    item_response item (display_name_of added_by) (display_name_of purchased_by)

-- The two outer joins with the users, for one item.
unfoldable pub joined_items :
    Database → GroceryItem → List (GroceryItem × Option User × Option User)
joined_items db item = for_each (outer (user_rows item.added_by_id db)) (λ added_by.
    map (λ purchased_by. (item, added_by, purchased_by))
      (outer (user_rows item.purchased_by_id db)))

module _ (engine : Engine) where
  -- GET /groceries
  unfoldable pub list_grocery_items : ℕ → ℕ → Action (List GroceryItemResponse)
  list_grocery_items household_id current_user_id = do
    require_household_member household_id current_user_id
    rows ← query (λ db.
        engine.descending (GroceryItem × Option User × Option User) (λ r. (r.0).created_at)
          (for_each (filter (λ g. g.household_id == household_id) db.groceries) (joined_items db)))
    pure (map (λ r. item_row r.0 r.1 r.2) rows)

-- PATCH /groceries/{item_id}. A null name fails at the flush and is answered with 409.
unfoldable pub update_grocery_item : ℕ → ℕ → GroceryItemUpdate → ℕ → Action GroceryItemResponse
update_grocery_item household_id item_id body current_user_id = do
  require_household_member household_id current_user_id
  item ← get_item_or_404 item_id household_id
  raise_if (is_null body.name) conflict
  write (with_item item.id (edited body))
  build_item_response (edited body item)

-- DELETE /groceries/{item_id}
unfoldable pub delete_grocery_item : ℕ → ℕ → ℕ → Action (Unit {0})
delete_grocery_item household_id item_id current_user_id = do
  require_household_member household_id current_user_id
  item ← get_item_or_404 item_id household_id
  write (λ db. record db { groceries = filter (λ g. not (g.id == item.id)) db.groceries })

abbrev pub purchased : ℕ → ℕ → GroceryItem → GroceryItem
purchased user_id now g = record g {
  is_purchased = true;
  purchased_by_id = some user_id;
  purchased_at = some now;
}

-- POST /groceries/{item_id}/purchase
unfoldable pub purchase_grocery_item : ℕ → ℕ → ℕ → ℕ → Action GroceryItemResponse
purchase_grocery_item household_id item_id current_user_id now = do
  require_household_member household_id current_user_id
  item ← get_item_or_404 item_id household_id
  write (with_item item.id (purchased current_user_id now))
  build_item_response (purchased current_user_id now item)

abbrev pub unpurchased : GroceryItem → GroceryItem
unpurchased g = record g { is_purchased = false; purchased_by_id = none; purchased_at = none }

-- POST /groceries/{item_id}/unpurchase
unfoldable pub unpurchase_grocery_item : ℕ → ℕ → ℕ → Action GroceryItemResponse
unpurchase_grocery_item household_id item_id current_user_id = do
  require_household_member household_id current_user_id
  item ← get_item_or_404 item_id household_id
  write (with_item item.id unpurchased)
  build_item_response (unpurchased item)

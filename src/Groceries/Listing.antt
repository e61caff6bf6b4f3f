-- ===== src/Groceries/Listing.antt =====
-- backend/app/api/groceries.py: what `list_grocery_items` answers.
use mathlib.Core.List.{Perm}
use mathlib.Core.List.Perm
use chore_app.Base.{◌≤◌, Option, List, length, All, head?}
use chore_app.Models.{User, GroceryItem, Database}
use chore_app.Session.{Session}
use chore_app.Engine.{Engine}
use chore_app.Chores.Responses.{user_rows}
use chore_app.Groceries.{GroceryItemResponse, item_row}

-- The references of each item are to at most one user.
abbrev pub IsAttributed : Database → List GroceryItem → Type 0
IsAttributed db =
    All (λ g.
      (length (user_rows g.added_by_id db) ≤ 1) × (length (user_rows g.purchased_by_id db) ≤ 1))

abbrev row_in : Database → GroceryItem → GroceryItem × Option User × Option User
row_in db g = (g, head? (user_rows g.added_by_id db), head? (user_rows g.purchased_by_id db))

-- An item, with the names of the users that it refers to.
abbrev pub answer_of : Database → GroceryItem → GroceryItemResponse
answer_of db g =
    item_row g (head? (user_rows g.added_by_id db)) (head? (user_rows g.purchased_by_id db))

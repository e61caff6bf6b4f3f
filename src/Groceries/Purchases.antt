-- ===== src/Groceries/Purchases.antt =====
-- backend/app/api/groceries.py: the purchase marks of an item along a run of requests.
use chore_app.Base.{
  ℕ, ◌≡◌, refl, inl, inr, false, not, none, List, [], ◌∷◌, ◌==◌, is_none, Bool-cases, update_where,
  All, All-filter, All-snoc,
}
use chore_app.Models.{User, GroceryItem, Database}
use chore_app.Session.{Session, not_found, multiple_results, get_db}
use chore_app.Session.Outcomes.{begin}
use chore_app.Deps.Outcomes.{Checks, require_household_member-Checks}
use chore_app.Chores.Closings.{resolve_assignee_name-Checks}
use chore_app.Chores.Definitions.{is_null}
use chore_app.Groceries.{
  GroceryItemCreate, GroceryItemUpdate, item_rows, get_item_or_404, item_response,
  build_item_response, with_item, new_item, add_grocery_item, edited, update_grocery_item,
  delete_grocery_item, purchased, purchase_grocery_item, unpurchased, unpurchase_grocery_item,
}

-- The time is there exactly if the item is purchased, and no buyer is if it is not.
abbrev pub IsMarked : GroceryItem → Type 0
IsMarked g =
    (is_none g.purchased_at ≡ not g.is_purchased)
    × (g.is_purchased ≡ false → g.purchased_by_id ≡ none)

abbrev pub HasMarks : Database → Type 0
HasMarks db = All IsMarked db.groceries

get_item-Checks :
    (item_id hid : ℕ) (s : Session) → Checks (get_item_or_404 item_id hid) s (λ g. Unit {0})
unfolding get_item_or_404
get_item-Checks item_id hid s = go (item_rows item_id hid s.working) refl
  where
    go :
        (rows : List GroceryItem)
        → item_rows item_id hid s.working ≡ rows
        → Checks (get_item_or_404 item_id hid) s (λ g. Unit {0})
    go [] e = inl (not_found, rw e refl)
    go (g ∷ []) e = inr (g, rw e refl, tt)
    go (g ∷ k ∷ l) e = inl (multiple_results, rw e refl)

build-Checks : (g : GroceryItem) (s : Session) → Checks (build_item_response g) s (λ r. Unit {0})
unfolding build_item_response
build-Checks g s = elim (resolve_assignee_name-Checks g.added_by_id s) [
  | inl (x, failed) ↦ inl (x, rw failed refl)
  | inr (a, added, _) ↦ elim (resolve_assignee_name-Checks g.purchased_by_id s) [
    | inl (x, failed) ↦ inl (x, rw (added, failed) refl)
    | inr (b, bought, _) ↦ inr (item_response g a b, rw (added, bought) refl, tt)
  ]
]

All-updated :
    (i : ℕ) (f : GroceryItem → GroceryItem) (l : List GroceryItem)
    → ((g : GroceryItem) → IsMarked g → IsMarked (f g))
    → All IsMarked l
    → All IsMarked (update_where (λ g. g.id == i) f l)
All-updated i f [] k h = tt
All-updated i f (g ∷ l) k h = elim (Bool-cases (g.id == i)) [
  | inl hit ↦ rw hit (k g h.0, All-updated i f l k h.1)
  | inr miss ↦ rw miss (h.0, All-updated i f l k h.1)
]

-- A request to backend/app/api/groceries.py, with the caller.
pub data Call : Type 0 where
  add : (hid : ℕ) (body : GroceryItemCreate) (user : User) (item now : ℕ) → Call
  update : (hid item : ℕ) (body : GroceryItemUpdate) (uid : ℕ) → Call
  delete : (hid item uid : ℕ) → Call
  purchase : (hid item uid now : ℕ) → Call
  unpurchase : (hid item uid : ℕ) → Call

-- The database after one request, and after several, each in its own transaction.
pub serve : Call → Database → Database
serve (add hid body user item now) db = (get_db (add_grocery_item hid body user item now) db).1
serve (update hid item body uid) db = (get_db (update_grocery_item hid item body uid) db).1
serve (delete hid item uid) db = (get_db (delete_grocery_item hid item uid) db).1
serve (purchase hid item uid now) db = (get_db (purchase_grocery_item hid item uid now) db).1
serve (unpurchase hid item uid) db = (get_db (unpurchase_grocery_item hid item uid) db).1

pub serve_all : List Call → Database → Database
serve_all [] db = db
serve_all (c ∷ cs) db = serve_all cs (serve c db)

serve-HasMarks : (c : Call) (db : Database) → HasMarks db → HasMarks (serve c db)
unfolding serve get_db add_grocery_item update_grocery_item delete_grocery_item
    purchase_grocery_item unpurchase_grocery_item
serve-HasMarks (add hid body user item now) db h =
    elim (require_household_member-Checks hid user.id (begin db)) [
      | inl (x, refused) ↦ rw (serve, refused) h
      | inr (m, granted, _) ↦
          rw (serve, granted)
            (All-snoc IsMarked db.groceries (new_item hid body user.id item now) h
              (refl, λ _. refl))
    ]
serve-HasMarks (update hid item body uid) db h =
    elim (require_household_member-Checks hid uid (begin db)) [
      | inl (x, refused) ↦ rw (serve, refused) h
      | inr (m, granted, _) ↦ elim (get_item-Checks item hid (begin db)) [
        | inl (x, missing) ↦ rw (serve, granted, missing) h
        | inr (g, found, _) ↦ elim (Bool-cases (is_null body.name)) [
          | inl nameless ↦ rw (serve, granted, found, nameless) h
          | inr named ↦
              elim (build-Checks (edited body g)
                (record { working = with_item g.id (edited body) db; committed = db })) [
                  | inl (x, failed) ↦ rw (serve, granted, found, named, failed) h
                  | inr (r, built, _) ↦
                      rw (serve, granted, found, named, built)
                        (All-updated g.id (edited body) db.groceries (λ k marked. marked) h)
                ]
        ]
      ]
    ]
serve-HasMarks (delete hid item uid) db h =
    elim (require_household_member-Checks hid uid (begin db)) [
      | inl (x, refused) ↦ rw (serve, refused) h
      | inr (m, granted, _) ↦ elim (get_item-Checks item hid (begin db)) [
        | inl (x, missing) ↦ rw (serve, granted, missing) h
        | inr (g, found, _) ↦
            rw (serve, granted, found)
              (All-filter (λ k. not (k.id == g.id)) (λ k marked e. marked) db.groceries h)
      ]
    ]
serve-HasMarks (purchase hid item uid now) db h =
    elim (require_household_member-Checks hid uid (begin db)) [
      | inl (x, refused) ↦ rw (serve, refused) h
      | inr (m, granted, _) ↦ elim (get_item-Checks item hid (begin db)) [
        | inl (x, missing) ↦ rw (serve, granted, missing) h
        | inr (g, found, _) ↦
            elim (build-Checks (purchased uid now g)
              (record { working = with_item g.id (purchased uid now) db; committed = db })) [
                | inl (x, failed) ↦ rw (serve, granted, found, failed) h
                | inr (r, built, _) ↦
                    rw (serve, granted, found, built)
                      (All-updated g.id (purchased uid now) db.groceries
                        (λ k marked. (refl, λ e. cc)) h)
              ]
      ]
    ]
serve-HasMarks (unpurchase hid item uid) db h =
    elim (require_household_member-Checks hid uid (begin db)) [
      | inl (x, refused) ↦ rw (serve, refused) h
      | inr (m, granted, _) ↦ elim (get_item-Checks item hid (begin db)) [
        | inl (x, missing) ↦ rw (serve, granted, missing) h
        | inr (g, found, _) ↦
            elim (build-Checks (unpurchased g)
              (record { working = with_item g.id unpurchased db; committed = db })) [
                | inl (x, failed) ↦ rw (serve, granted, found, failed) h
                | inr (r, built, _) ↦
                    rw (serve, granted, found, built)
                      (All-updated g.id unpurchased db.groceries (λ k marked. (refl, λ _. refl)) h)
              ]
      ]
    ]

-- Along every sequence of requests that add, change, delete, purchase or unpurchase an item, by any
-- users and with any outcomes, each item has a time of purchase exactly if it is marked as
-- purchased, and names no buyer if it is not, where that was so at first.
pub serve_all-HasMarks : (cs : List Call) (db : Database) → HasMarks db → HasMarks (serve_all cs db)
unfolding serve_all
serve_all-HasMarks [] db h = h
serve_all-HasMarks (c ∷ cs) db h = serve_all-HasMarks cs (serve c db) (serve-HasMarks c db h)

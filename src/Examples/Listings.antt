-- ===== src/Examples/Listings.antt =====
-- The theorems on the listings of backend/app/api at concrete inputs.
use mathlib.Core.List.{Perm}
use chore_app.Base.{
  ℕ, false, ◌-◌, ◌≡◌, refl, ◌&&◌, not, none, some, [], ◌∷◌, map, arith, length, filter, count, ◌==◌,
  leb, if◌then◌else◌,
}
use chore_app.Models.{GroceryItem, Database}
use chore_app.Session.Outcomes.{Serves, begin}
use chore_app.Engine.{IsNewestFirst}
use chore_app.Deps.Outcomes.{Checks}
use chore_app.Chores.Definitions.{hide_chore_template}
use chore_app.Chores.Listing.{ChoreFilters, is_template, list_chores, list_chore_templates}
use chore_app.Chores.Wanted.{is_wanted}
use chore_app.Chores.Paging.{pages_from, list_chores_pages, list_chores_bounds}
use chore_app.Chores.Templates.{hide-list_chore_templates}
use chore_app.Examples.Sorting.{sorting}
use chore_app.Examples.Samples.{home}

-- The chores of Cid.
abbrev of_cid : ChoreFilters
of_cid = record { status_filter = none; category = none; assignee_id = some 3 }

list_chores_pages_example :
    let answered = pages_from sorting 1 of_cid 1 2 (begin home) 2 0 in
    IsNewestFirst (λ r. r.created_at) (λ r. r.id) answered
    × Perm
        (map (λ r. r.id) answered)
        (map (λ c. c.id) (filter (is_wanted 1 of_cid home) home.instances))
list_chores_pages_example =
    list_chores_pages sorting 1 of_cid 1 2 2 (begin home) refl
      ((omega arith, omega arith), ((omega arith, omega arith), ((omega arith, omega arith), tt)))
      (omega arith)

list_chores_bounds_example : Checks (list_chores sorting 1 of_cid 1 1 2) (begin home) (λ r.
    (r.total ≡ count (is_wanted 1 of_cid home) home.instances)
    × (length r.items ≡ (if leb 1 (r.total - 1) then 1 else r.total - 1)))
list_chores_bounds_example =
    list_chores_bounds sorting 1 of_cid 1 1 2 (begin home)
      ((omega arith, omega arith), ((omega arith, omega arith), ((omega arith, omega arith), tt)))

hide-list_chore_templates_example : Serves (hide_chore_template 1 7 1) home (λ after.
    (admin_id : ℕ)
    → Checks (list_chore_templates sorting 1 admin_id) (begin after) (λ ts.
      Perm
        (map (λ t. t.id) ts)
        (map (λ d. d.id) (filter (λ d. is_template 1 d && not (d.id == 7)) home.definitions))))
hide-list_chore_templates_example = hide-list_chore_templates sorting 1 7 1 home

-- Bob has written milk on the list.
abbrev milk : GroceryItem
milk = record {
  id = 80;
  household_id = 1;
  added_by_id = some 2;
  name = "Milk";
  quantity = some "2 l";
  notes = none;
  is_purchased = false;
  purchased_by_id = none;
  purchased_at = none;
  created_at = 7000;
}

abbrev stocked : Database
stocked = record home { groceries = milk ∷ [] }

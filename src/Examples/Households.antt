-- ===== src/Examples/Households.antt =====
-- The theorems on the households of backend/app/api at concrete inputs.
use mathlib.Core.List.{Perm}
use chore_app.Base.{ℕ, ◌≤◌, ◌≡◌, ◌⊎◌, List, [], ◌∷◌, map, filter, count, ◌==◌, arith, inr}
use chore_app.Models.{Database, admin, is_active_of}
use chore_app.Session.{Error, ok, err, get_db}
use chore_app.Households.{
  HouseholdWithRoleResponse, HouseholdDetailResponse, create_household, list_households,
  get_household,
}
use chore_app.Households.Listing.{details, list_households-get_household}
use chore_app.Households.Governed.{Governed}
use chore_app.Households.Requests.{
  IsFresh, serve, Run, done, next, create, accept, update_role, delete_me, Run-Governed,
}
use chore_app.Examples.Sorting.{sorting}
use chore_app.Examples.Secrets.{plain}
use chore_app.Examples.Samples.{home, cid}

-- Ann makes a household, Bob joins the barn and becomes an admin there, and Cid, who was the only
-- one, deletes the account.
abbrev shed_founded : Database
shed_founded = serve sorting plain (create "Shed" 1 3 16 1400 1400) home

abbrev barn_joined : Database
barn_joined = serve sorting plain (accept "abcdefghij" 2 15 1500 1500) shed_founded

abbrev cid_gone : Database
cid_gone =
    serve sorting plain (delete_me "c" cid 1600)
      (serve sorting plain (update_role 2 2 admin 3) barn_joined)

IsFresh-shed : IsFresh (create "Shed" 1 3 16 1400 1400) home
unfolding IsFresh
IsFresh-shed = (
  (omega arith, (omega arith, (omega arith, (omega arith, tt)))),
  (omega arith, (omega arith, (omega arith, (omega arith, tt)))),
)

IsFresh-seat : IsFresh (accept "abcdefghij" 2 15 1500 1500) shed_founded
unfolding IsFresh serve get_db create_household
IsFresh-seat = (omega arith, (omega arith, (omega arith, (omega arith, (omega arith, tt)))))

requests : Run sorting plain home cid_gone
unfolding IsFresh
requests = next (create "Shed" 1 3 16 1400 1400) IsFresh-shed (
    next (accept "abcdefghij" 2 15 1500 1500) IsFresh-seat
      (next (update_role 2 2 admin 3) tt (next (delete_me "c" cid 1600) tt done)))

barn_led : Governed 2 home
barn_led = record {
  keyed = (
    (omega arith, (omega arith, (omega arith, tt))),
    ((omega arith, (omega arith, tt)), ((omega arith, tt), (tt, tt))),
  );
  single = λ uid. ground arith;
  led = inr (omega arith);
}

Run-Governed_example : Governed 2 cid_gone
Run-Governed_example = Run-Governed sorting plain 2 requests barn_led

-- Cid is a member of both households.
cid_once : (k : ℕ) → count (is_active_of k 3) home.memberships ≤ 1
cid_once k = ground arith

list_households-get_household_example :
    (rs : List HouseholdWithRoleResponse) × (get_db (list_households sorting 3) home
      ≡ (ok rs, home))
    × ((h : ℕ)
        → ((a : HouseholdDetailResponse) × (get_db (get_household h 3) home ≡ (ok a, home))
            × Perm (map details (filter (λ r. r.id == h) rs)) (a ∷ []))
          ⊎ ((e : Error) × (get_db (get_household h 3) home ≡ (err e, home))
              × Perm (map details (filter (λ r. r.id == h) rs)) []))
list_households-get_household_example =
    list_households-get_household sorting 3 home ((omega arith, tt), (tt, tt)) cid_once

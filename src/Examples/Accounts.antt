-- ===== src/Examples/Accounts.antt =====
-- The theorems on the accounts, the households, the leaderboard and the groceries of backend/app at
-- concrete inputs.
use mathlib.Core.List.{Perm}
use chore_app.Base.{
  none, ℕ, ◌*◌, ◌/◌, ◌+◌, ◌≤◌, ◌≡◌, refl, ◌⊎◌, false, some, [], ◌∷◌, map, arith, ◌==◌, any, count,
  filter,
}
use chore_app.Models.{Database, delete_households, delete_user}
use chore_app.Session.{ok, get_db}
use chore_app.Session.Outcomes.{Serves, begin}
use chore_app.Security.{Payload}
use chore_app.Deps.Outcomes.{Checks}
use chore_app.Auth.{TokenResponse, is_unrevoked_of, login}
use chore_app.Accounts.{
  change_password, delete_account, delete_user_account, plan_all, plan_membership, plan_sole,
  plan_shared, leave_all, redistribute_all,
}
use chore_app.Accounts.Admins.{delete_account_keeps_admin}
use chore_app.Accounts.Outcomes.{Forgets, delete_account_outcome, change_password-login}
use chore_app.Members.{count_active_admins, refuse_sole_admin}
use chore_app.Households.Keys.{IsReferential}
use chore_app.Households.References.{delete_households-IsReferential, delete_user-IsReferential}
use chore_app.Groceries.{GroceryItemCreate}
use chore_app.Groceries.Purchases.{
  HasMarks, add, purchase, unpurchase, serve_all, serve_all-HasMarks,
}
use chore_app.Leaderboard.{this_week, get_leaderboard}
use chore_app.Leaderboard.Periods.{Period, IsPeriod}
use chore_app.Leaderboard.Ranks.{IsLeaderboard, get_leaderboard_outcome}
use chore_app.Redistribution.{
  redistribute_chores_for_removed_member, move_chores, adjust_pointer, open_chores, removed_index,
}
use chore_app.Members.{list_members}
use chore_app.Members.Listing.{facts, told, list_members_outcome}
use chore_app.Models.{is_active_in}
use chore_app.Engine.{IsAscending}
use chore_app.Engine.Sorting.{sort_by}
use chore_app.Examples.Sorting.{sorting}
use chore_app.Examples.Secrets.{plain}
use chore_app.Examples.Samples.{home, ann, bob}
use chore_app.Examples.Tokens.{lifetimes, drawn}

-- Ann deletes her account.
abbrev without_ann : Database
without_ann = (get_db (delete_account sorting plain "a" ann 5000) home).1

deletes : get_db (delete_account sorting plain "a" ann 5000) home ≡ (ok tt, without_ann)
unfolding get_db delete_account delete_user_account plan_all plan_membership plan_sole plan_shared
    refuse_sole_admin redistribute_all redistribute_chores_for_removed_member move_chores
    adjust_pointer open_chores removed_index leave_all sort_by
deletes = refl

delete_account_keeps_admin_example :
    (any (λ i. i == 1) (map (λ h. h.id) without_ann.households) ≡ false)
    ⊎ (1 ≤ count_active_admins 1 without_ann)
delete_account_keeps_admin_example =
    delete_account_keeps_admin sorting plain "a" ann 5000 1 home without_ann deletes
      (
        (omega arith, (omega arith, (omega arith, tt))),
        ((omega arith, (omega arith, tt)), ((omega arith, tt), (tt, tt))),
      )
      (omega arith) (omega arith)

delete_account_outcome_example : Serves (delete_account sorting plain "a" ann 5000) home (Forgets 1)
delete_account_outcome_example = delete_account_outcome sorting plain "a" ann 5000 home

-- Bob changes his password.
abbrev bob_changed : Database
bob_changed = (get_db (change_password plain "b" "longer88" bob "salt" 6000) home).1

changes : get_db (change_password plain "b" "longer88" bob "salt" 6000) home ≡ (ok tt, bob_changed)
unfolding get_db change_password
changes = refl

change_password-login_example :
    (count (is_unrevoked_of 2) bob_changed.refresh_tokens ≡ 0)
    × (b : TokenResponse Payload) × (next : Database) × (get_db
          (login plain lifetimes
            (record { email = "bob@example.com"; password = "longer88" })
            (drawn 73 "four")
            6100
            6101)
          bob_changed
        ≡ (ok b, next))
change_password-login_example =
    change_password-login plain lifetimes "b" "longer88" "salt" bob 6000 (drawn 73 "four") 6100 6101
      home bob_changed changes refl

home-IsReferential : IsReferential home
home-IsReferential = record {
  memberships = ((refl, refl), ((refl, refl), ((refl, refl), ((refl, refl), tt))));
  definitions = ((refl, refl), ((refl, refl), tt));
  instances = ((refl, refl, refl), ((refl, refl, refl), ((refl, refl, refl), tt)));
  ledger = ((refl, refl, refl), tt);
  invites = ((refl, refl), tt);
  refresh_tokens = tt;
  groceries = tt;
}

delete_households-IsReferential_example : IsReferential (delete_households (λ i. i == 2) home)
delete_households-IsReferential_example =
    delete_households-IsReferential (λ i. i == 2) home home-IsReferential

delete_user-IsReferential_example : IsReferential (delete_user 2 home)
delete_user-IsReferential_example = delete_user-IsReferential 2 home home-IsReferential

-- The leaderboard of a week, where months have 30 days.
abbrev month_start : ℕ → ℕ
month_start today = today / 30 * 30

abbrev month_end : ℕ → ℕ
month_end today = today / 30 * 30 + 29

get_leaderboard_outcome_example :
    Checks (get_leaderboard sorting month_start month_end 1 this_week 2 20) (begin home) (λ r.
      (p : Period) × IsPeriod month_start month_end this_week 20 p
      × IsLeaderboard home 1 p r.entries)
get_leaderboard_outcome_example =
    get_leaderboard_outcome sorting month_start month_end 1 this_week 2 20 (begin home)
      (omega arith) (("Ann", refl), (("Bob", refl), (("Cid", refl), (("Cid", refl), tt))))

-- Bob writes milk on the list, Cid buys it, and Bob takes the mark off again.
abbrev milk : GroceryItemCreate
milk = record { name = "Milk"; quantity = some "2 l"; notes = none }

serve_all-HasMarks_example :
    HasMarks
      (serve_all (add 1 milk bob 80 7000 ∷ purchase 1 80 3 7100 ∷ unpurchase 1 80 2 ∷ []) home)
serve_all-HasMarks_example =
    serve_all-HasMarks (add 1 milk bob 80 7000 ∷ purchase 1 80 3 7100 ∷ unpurchase 1 80 2 ∷ []) home
      tt

list_members_outcome_example : Checks (list_members sorting 1 2) (begin home) (λ rs.
    IsAscending (λ r. r.joined_at) rs
    × Perm (map told rs) (map (facts home) (filter (is_active_in 1) home.memberships)))
list_members_outcome_example =
    list_members_outcome sorting 1 2 (begin home)
      (("Ann", refl), (("Bob", refl), (("Cid", refl), (("Cid", refl), tt))))

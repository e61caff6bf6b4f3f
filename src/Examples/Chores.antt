-- ===== src/Examples/Chores.antt =====
-- The theorems on the chores and the ledger of backend/app at concrete inputs.
use chore_app.Base.{ℕ, ◌+◌, ◌*◌, ◌≡◌, refl, true, none, some, arith}
use chore_app.Leaderboard.{Window, user_points, user_chores}
use chore_app.Leaderboard.Credits.{complete-leaderboard}
use chore_app.Models.{Database, ChoreInstance, pending, complete}
use chore_app.Session.{ok, err, conflict, get_db}
use chore_app.Chores.Requests.{
  Call, complete_one, dismiss, leave, daily, serve, IsFresh, Run, done, next,
}
use chore_app.Chores.Responses.{
  ChoreInstanceResponse, instance_response_from_row, definition_or_422, resolve_assignee_name,
}
use chore_app.Chores.Transitions.{
  complete_chore_instance, dismiss_chore_instance, load_instance_for_terminal_transition,
}
use chore_app.Deps.{require_household_member}
use chore_app.Chores.Accounting.{IsSettled}
use chore_app.Chores.Settled.{Run-IsSettled}
use chore_app.Chores.Evolution.{Grows}
use chore_app.Chores.History.{Run-Grows}
use chore_app.Chores.Once.{complete-conflict}
use chore_app.Examples.Sorting.{sorting}
use chore_app.Examples.Samples.{home, dishes, instance_of}

-- A calendar whose months have 30 days.
abbrev pub add_thirty : ℕ → ℕ → ℕ
add_thirty n d = d + 30 * n

abbrev pub drawn : ℕ → ℕ
drawn k = 100 + k

home-IsSettled : IsSettled home
home-IsSettled =
    (((omega arith, (omega arith, tt)), ((omega arith, tt), (tt, tt))), (refl, (refl, (refl, tt))))

-- The daily job runs, Cid completes the dishes and leaves, Bob dismisses the hedge.
abbrev morning : Call
morning = daily add_thirty drawn 14 7 true 20 900

abbrev finish_dishes : Call
finish_dishes = complete_one 1 31 3 61 910

abbrev skip_hedge : Call
skip_hedge = dismiss 1 32 2 930

abbrev evening : Database
evening =
    serve sorting skip_hedge
      (serve sorting (leave 1 3) (serve sorting finish_dishes (serve sorting morning home)))

morning-IsFresh : IsFresh morning home
morning-IsFresh = (
  λ j k e. omega arith,
  λ k. (omega arith, (omega arith, (omega arith, tt))),
  λ k. (ground arith, tt),
)

day : Run sorting home evening
day =
    next morning morning-IsFresh
      (next finish_dishes tt (next (leave 1 3) tt (next skip_hedge tt done)))

Run-IsSettled_example : IsSettled evening
Run-IsSettled_example = Run-IsSettled sorting day home-IsSettled

Run-Grows_example : Grows home.instances evening.instances
Run-Grows_example = Run-Grows sorting day home-IsSettled

-- Cid completes the dishes.
abbrev done_dishes : ChoreInstance
done_dishes = record (instance_of 31 7 3 20 complete) {
  completed_at = some 910;
  points_awarded = some 10;
}

abbrev answer : ChoreInstanceResponse
unfolding instance_response_from_row
answer = instance_response_from_row done_dishes dishes (some "Cid")

abbrev after_dishes : Database
after_dishes = (get_db (complete_chore_instance 1 31 3 61 910) home).1

dishes_done : get_db (complete_chore_instance 1 31 3 61 910) home ≡ (ok answer, after_dishes)
unfolding get_db complete_chore_instance require_household_member
    load_instance_for_terminal_transition definition_or_422 resolve_assignee_name answer
    instance_response_from_row
dishes_done = refl

complete-conflict_example :
    (get_db (complete_chore_instance 1 31 3 62 920) after_dishes ≡ (err conflict, after_dishes))
    × (get_db (dismiss_chore_instance 1 31 3 920) after_dishes ≡ (err conflict, after_dishes))
complete-conflict_example =
    complete-conflict 1 31 3 61 910 62 920 home after_dishes answer dishes_done

abbrev all_times : Window
all_times = record {
  window_start = none;
  window_end = none;
  week_start = none;
  week_end = none;
  month_start = none;
  month_end = none;
}

-- The dishes count for Cid.
complete-leaderboard_example :
    (user_points 1 all_times after_dishes 3 ≡ user_points 1 all_times home 3 + 10)
    × (user_chores 1 all_times after_dishes 3 ≡ user_chores 1 all_times home 3 + 1)
complete-leaderboard_example =
    complete-leaderboard 1 31 3 61 910 (instance_of 31 7 3 20 pending) dishes home after_dishes
      answer dishes_done refl refl ((omega arith, (omega arith, tt)), ((omega arith, tt), (tt, tt)))
      all_times refl 3

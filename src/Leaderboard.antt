-- ===== src/Leaderboard.antt =====
-- backend/app/api/leaderboard.py: the members of a household ranked by the points of a period. A
-- date is the number that Python's `toordinal` gives, and midnight of a date that many days.
pub mod Periods
pub mod Ranks
pub mod Credits
use chore_app.Base.{
  ℕ, ◌+◌, ◌-◌, ◌*◌, ◌%◌, String, Bool, true, false, ◌&&◌, Option, none, some, List, [], ◌∷◌, ◌++◌,
  map, ltb, leb, ◌==◌, if◌then◌else◌, is_some_eq, filter, count,
}
use chore_app.Models.{
  User, HouseholdMembership, ChoreInstance, PointLedger, Database, is_complete, is_active_in,
}
use chore_app.Session.{Action, pure, ◌>>=◌, ◌>>◌, query}
use chore_app.Engine.{Engine}
use chore_app.Engine.Sorting.{sort_by, down}
use chore_app.Deps.{require_household_member}

-- `LeaderboardScope`
pub data Scope : Type 0 where
  all_time this_week this_month : Scope

-- What `_compute_window` returns.
pub record Window : Type 0 where
  pub window_start : Option ℕ
  pub window_end : Option ℕ
  pub week_start : Option ℕ
  pub week_end : Option ℕ
  pub month_start : Option ℕ
  pub month_end : Option ℕ

-- `datetime.combine(day, time.min)`
abbrev pub midnight : ℕ → ℕ
midnight day = day * 86400000000

-- `today.weekday()`
abbrev pub weekday : ℕ → ℕ
weekday today = (today + 6) % 7

-- `LeaderboardEntry`
pub record LeaderboardEntry : Type 0 where
  pub rank : ℕ
  pub user_id : ℕ
  pub display_name : String
  pub points : ℕ
  pub chores_completed : ℕ

-- `LeaderboardResponse`
pub record LeaderboardResponse : Type 0 where
  pub scope : Scope
  pub week_start : Option ℕ
  pub week_end : Option ℕ
  pub month_start : Option ℕ
  pub month_end : Option ℕ
  pub entries : List LeaderboardEntry
  pub requesting_user_rank : Option ℕ

-- `first_day` and `last_day` give the first and the last date of a date's month.
module _ (first_day last_day : ℕ → ℕ) where
  -- `_compute_window`
  unfoldable pub compute_window : Scope → ℕ → Window
  compute_window all_time today = record {
    window_start = none;
    window_end = none;
    week_start = none;
    week_end = none;
    month_start = none;
    month_end = none;
  }
  compute_window this_week today =
      let start = today - weekday today in
      record {
        window_start = some (midnight start);
        window_end = some (midnight (start + 7));
        week_start = some start;
        week_end = some (start + 6);
        month_start = none;
        month_end = none;
      }
  compute_window this_month today = record {
    window_start = some (midnight (first_day today));
    window_end = some (midnight (last_day today + 1));
    week_start = none;
    week_end = none;
    month_start = some (first_day today);
    month_end = some (last_day today);
  }

abbrev pub from_start : Option ℕ → ℕ → Bool
from_start none t = true
from_start (some start) t = leb start t

abbrev pub before_end : Option ℕ → ℕ → Bool
before_end none t = true
before_end (some stop) t = ltb t stop

abbrev pub is_within : Window → ℕ → Bool
is_within w t = from_start w.window_start t && before_end w.window_end t

-- A comparison with a column that may be NULL; without a window there is none.
abbrev pub is_completed_within : Window → Option ℕ → Bool
is_completed_within w none = elim w.window_start [
  | some _ ↦ false
  | none ↦ elim w.window_end [ some _ ↦ false | none ↦ true ]
]
is_completed_within w (some t) = is_within w t

-- `func.sum(PointLedger.points)`
abbrev pub sum_points : List PointLedger → ℕ
sum_points [] = 0
sum_points (e ∷ l) = e.points + sum_points l

-- `user_points[user_id]`: 0 where the user has no entry in the window.
unfoldable pub user_points : ℕ → Window → Database → ℕ → ℕ
user_points household_id w db user_id = sum_points (
    filter (λ e. e.household_id == household_id && is_within w e.awarded_at && e.user_id == user_id)
      db.ledger)

-- `user_chores[user_id]`
unfoldable pub user_chores : ℕ → Window → Database → ℕ → ℕ
user_chores household_id w db user_id =
    count
      (λ c.
        c.household_id == household_id
        && is_complete c.status
        && is_completed_within w c.completed_at
        && is_some_eq c.assignee_id user_id)
      db.instances

-- The join of users with the active memberships of the household.
unfoldable pub members_of : ℕ → List HouseholdMembership → Database → List User
members_of household_id [] db = []
members_of household_id (m ∷ ms) db =
    let rest = members_of household_id ms db in
    if is_active_in household_id m then filter (λ u. u.id == m.user_id) db.users ++ rest else rest

-- `current_rank` for a member, after the points of the one before, if there is one.
abbrev pub next_rank : Option ℕ → ℕ → ℕ → ℕ
next_rank none current_rank points = current_rank
next_rank (some before) current_rank points =
    if ltb points before then current_rank + 1 else current_rank

-- The loop of the ranking.
module _ (points chores : ℕ → ℕ) where
  unfoldable pub rank_members : Option ℕ → ℕ → List User → List LeaderboardEntry
  rank_members before current_rank [] = []
  rank_members before current_rank (m ∷ ms) =
      let rank = next_rank before current_rank (points m.id) in
      record {
        rank = rank;
        user_id = m.id;
        display_name = m.display_name;
        points = points m.id;
        chores_completed = chores m.id;
      }
      ∷ rank_members (some (points m.id)) rank ms

-- The rank of the first entry of the user.
abbrev pub rank_of : ℕ → List LeaderboardEntry → Option ℕ
rank_of user_id [] = none
rank_of user_id (e ∷ l) = if e.user_id == user_id then some e.rank else rank_of user_id l

module _ (engine : Engine) (first_day last_day : ℕ → ℕ) where
  -- GET /households/{household_id}/leaderboard. The members come ordered by name, as the database
  -- collates: in some order.
  unfoldable pub get_leaderboard : ℕ → Scope → ℕ → ℕ → Action LeaderboardResponse
  get_leaderboard household_id scope current_user_id today = do
    require_household_member household_id current_user_id
    let w = compute_window first_day last_day scope today
    members ← query (λ db. engine.scan User (members_of household_id db.memberships db))
    points ← query (user_points household_id w)
    chores ← query (user_chores household_id w)
    let entries = rank_members points chores none 1 (sort_by (down User (λ m. points m.id)) members)
    pure (record {
      scope = scope;
      week_start = w.week_start;
      week_end = w.week_end;
      month_start = w.month_start;
      month_end = w.month_end;
      entries = entries;
      requesting_user_rank = rank_of current_user_id entries;
    })

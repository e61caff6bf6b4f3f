-- ===== src/Leaderboard/Credits.antt =====
-- backend/app/api/chores.py and leaderboard.py: what a completion adds to the leaderboard.
use chore_app.Base.{
  ℕ, ◌+◌, ◌≡◌, refl, sym, ap, ◌∙◌, inl, inr, Bool, true, false, ◌&&◌, Option, none, some, List, [],
  ◌∷◌, ◌++◌, arith, ◌==◌, ==_refl, is_some_eq, if◌then◌else◌, Bool-cases, filter, filter-append,
  filter_by_key, filter_found, count, update_where, update_where_none, IsKeyed, length,
}
use chore_app.Models.{
  ChoreDefinition, ChoreInstance, PointLedger, Database, effort_points, is_complete, is_terminal,
  ChoreStatus, pending, complete, overdue, cancelled, dismissed,
}
use chore_app.Session.{ok, get_db}
use chore_app.Engine.Orders.{length-filter}
use chore_app.Chores.Responses.{ChoreInstanceResponse, instance_rows, definition_rows}
use chore_app.Chores.Transitions.{completed, credited, complete_chore_instance}
use chore_app.Chores.Closings.{after_completion, complete_outcome}
use chore_app.Chores.Accounting.{found_id}
use chore_app.Leaderboard.{
  Window, is_within, is_completed_within, sum_points, user_points, user_chores,
}

sum_points-append : (l m : List PointLedger) → sum_points (l ++ m) ≡ sum_points l + sum_points m
sum_points-append [] m = omega arith
sum_points-append (e ∷ l) m = omega (arith, sum_points-append l m)

-- A change of the one row that a query by key finds, which did not pass a test.
count-update_one :
    (q : ChoreInstance → Bool) (i : ℕ) (f : ChoreInstance → ChoreInstance) (l : List ChoreInstance)
    {c : ChoreInstance}
    → filter (λ x. x.id == i) l ≡ c ∷ []
    → q c ≡ false
    → count q (update_where (λ x. x.id == i) f l) ≡ count q l + (if q (f c) then 1 else 0)
count-update_one q i f [] e h = cc
count-update_one q i f (x ∷ l) {c} e h = elim (Bool-cases (x.id == i)) [
  | inl same ↦
      let first : x ≡ c = cc (rw same at e) in
      let rest : filter (λ y. y.id == i) l ≡ [] = cc (rw same at e) in
      let others =
        update_where_none (λ y. y.id == i) f l
          (sym (length-filter (λ y. y.id == i) l) ∙ ap length rest) in
      rw (same, others, first, h) (ground arith)
  | inr other ↦
      let later = count-update_one q i f l (rw other at e) h in rw other (ground (arith, later))
]

not_complete : (s : ChoreStatus) → is_terminal s ≡ false → is_complete s ≡ false
not_complete pending h = refl
not_complete complete h = cc
not_complete overdue h = refl
not_complete cancelled h = refl
not_complete dismissed h = refl

module _ (hid iid entry now : ℕ) (c : ChoreInstance) (d : ChoreDefinition) (db : Database)
    (w : Window) (inside : is_within w now ≡ true) (v : ℕ) where
  abbrev after : Database
  after = after_completion hid iid entry now c d db

  credited_points :
      (o : Option ℕ)
      → sum_points (
          filter
            (λ e. e.household_id == hid && is_within w e.awarded_at && e.user_id == v)
            (credited o entry hid iid d now db.ledger))
        ≡ user_points hid w db v + (if is_some_eq o v then effort_points d.effort_level else 0)
  unfolding user_points
  credited_points none = omega arith
  credited_points (some u) =
      ap sum_points (filter-append _ db.ledger _)
      ∙ sum_points-append (filter _ db.ledger) _
      ∙ elim (Bool-cases (u == v)) [
        | inl same ↦ rw (==_refl hid, inside, same) (omega arith)
        | inr other ↦ rw (==_refl hid, inside, other) (omega arith)
      ]

  completed_chores :
      IsKeyed (λ x. x.id) db.instances
      → instance_rows hid iid db ≡ c ∷ []
      → is_complete c.status ≡ false
      → user_chores hid w after v
        ≡ user_chores hid w db v + (if is_some_eq c.assignee_id v then 1 else 0)
  unfolding user_chores
  completed_chores keyed found live =
      count-update_one is_counted iid (completed d now) db.instances
        (rw (found_id hid iid db found) at (
          filter_by_key (λ x. x.id) (λ r. r.id == iid && r.household_id == hid) db.instances keyed
            found))
        (ground (arith, live))
      ∙ ap (λ b. count is_counted db.instances + (if b then 1 else 0)) counted
    where
      is_counted : ChoreInstance → Bool
      is_counted x =
          x.household_id == hid
          && is_complete x.status
          && is_completed_within w x.completed_at
          && is_some_eq x.assignee_id v

      counted : is_counted (completed d now c) ≡ is_some_eq c.assignee_id v
      counted =
          let here = filter_found (λ r. r.id == iid && r.household_id == hid) db.instances found in
          ground (arith, here, inside)

-- A completion of a chore that succeeded, at a time within the window of a leaderboard of the
-- household, adds the points of the chore's effort level to the points of its assignee there, and
-- one to the assignee's completed chores; every other user keeps both. The conditions are that `c`
-- and `d` are the rows of the instance and of its definition, and that the keys of the instances
-- are distinct.
pub complete-leaderboard :
    (hid iid uid entry now : ℕ) (c : ChoreInstance) (d : ChoreDefinition) (db after : Database)
    (a : ChoreInstanceResponse)
    → get_db (complete_chore_instance hid iid uid entry now) db ≡ (ok a, after)
    → instance_rows hid iid db ≡ c ∷ []
    → definition_rows c db ≡ d ∷ []
    → IsKeyed (λ x. x.id) db.instances
    → (w : Window) → is_within w now ≡ true
    → (v : ℕ)
    → (user_points hid w after v
        ≡ user_points hid w db v
          + (if is_some_eq c.assignee_id v then effort_points d.effort_level else 0))
      × (user_chores hid w after v
          ≡ user_chores hid w db v + (if is_some_eq c.assignee_id v then 1 else 0))
unfolding user_points
complete-leaderboard hid iid uid entry now c d db after a h found defined keyed w inside v =
    elim (complete_outcome hid iid uid entry now db) [
      | inl (x, e) ↦ cc
      | inr (b, db', e, (m, c', d', closes, result)) ↦
          let row : c' ≡ c = cc in
          let definition : d' ≡ d = cc (rw row at closes.defined) in
          let same : after ≡ after_completion hid iid entry now c d db =
            rw (row, definition) at (ap (λ r. r.1) (sym h ∙ e) ∙ result) in
          let live : is_complete c.status ≡ false =
            rw row at (not_complete c'.status closes.live) in
          rw same (
            credited_points hid iid entry now c d db w inside v c.assignee_id,
            completed_chores hid iid entry now c d db w inside v keyed found live,
          )
    ]

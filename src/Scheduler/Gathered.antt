-- ===== src/Scheduler/Gathered.antt =====
-- backend/app/tasks/scheduler.py: what `_gather_reminder_summaries` tells of the instances.
use mathlib.Core.List.{Perm}
use mathlib.Core.List.Perm
use chore_app.Base.{
  ℕ, String, ◌≤◌, ◌≡◌, refl, Bool, false, ◌&&◌, List, [], ◌∷◌, map, arith, length, filter, ◌==◌,
  All, Distinct, for_each-filter, outer_one, head?,
}
use chore_app.Models.{Household, ChoreInstance, Database}
use chore_app.Engine.{Engine}
use chore_app.Engine.Orders.{filter-perm}
use chore_app.Notifications.{is_empty}
use chore_app.Chores.Responses.{definition_rows, user_rows, display_name_of}
use chore_app.Scheduler.Reminders.{
  ReminderRow, title_of, household_rows_of, rows_of, reminder_rows, text_or, entry_of, is_due_today,
  is_listed, overdue_rows, gather_reminder_summaries,
}
use chore_app.Scheduler.Pushed.{of_household, is_row_of, due_of, overdue_of}
use chore_app.Scheduler.Summaries.{summarise-IsSummary}

-- Each instance is one of a household, and its references are to at most one row.
abbrev pub IsJoined : Database → Type 0
IsJoined db =
    All
      (λ c.
        ((h : Household) × (household_rows_of c db ≡ h ∷ []))
        × (length (definition_rows c db) ≤ 1)
        × (length (user_rows c.assignee_id db) ≤ 1))
      db.instances

-- What a reminder says of an instance: the title and the name, or what stands in for them.
abbrev pub reminder_of : Database → ChoreInstance → String × String
reminder_of db c = (
  text_or (title_of (head? (definition_rows c db))) "Chore",
  text_or (display_name_of (head? (user_rows c.assignee_id db))) "Unassigned",
)

abbrev household_name_of : List Household → String
household_name_of [] = ""
household_name_of (h ∷ l) = h.name

-- The one row of an instance.
abbrev row_in : Database → ChoreInstance → ReminderRow
row_in db c = record {
  household_id = c.household_id;
  household_name = household_name_of (household_rows_of c db);
  chore_title = title_of (head? (definition_rows c db));
  assignee_name = display_name_of (head? (user_rows c.assignee_id db));
}

one_row :
    (db : Database) (c : ChoreInstance) (h : Household)
    → household_rows_of c db ≡ h ∷ []
    → length (definition_rows c db) ≤ 1
    → length (user_rows c.assignee_id db) ≤ 1
    → rows_of db c ≡ row_in db c ∷ []
unfolding rows_of
one_row db c h e few_definitions few_users =
    rw
      (
        e,
        outer_one (definition_rows c db) few_definitions,
        outer_one (user_rows c.assignee_id db) few_users,
      )
      refl

reminder_rows_lem :
    (p : ChoreInstance → Bool) (db : Database)
    → IsJoined db
    → reminder_rows p db ≡ map (row_in db) (filter p db.instances)
unfolding reminder_rows
reminder_rows_lem p db joined =
    for_each-filter p (rows_of db) (row_in db) db.instances (each db.instances joined)
  where
    each :
        (l : List ChoreInstance)
        → All
            (λ c.
              ((h : Household) × (household_rows_of c db ≡ h ∷ []))
              × (length (definition_rows c db) ≤ 1)
              × (length (user_rows c.assignee_id db) ≤ 1))
            l
        → All (λ c. rows_of db c ≡ row_in db c ∷ []) l
    each [] h = tt
    each (c ∷ l) h = (one_row db c h.0.0.0 h.0.0.1 h.0.1 h.0.2, each l h.1)

entries_in :
    (hid : ℕ) (p : ChoreInstance → Bool) (db : Database) (l : List ChoreInstance)
    → map entry_of (filter (is_row_of hid) (map (row_in db) (filter p l)))
      ≡ map (reminder_of db) (filter (λ c. p c && hid == c.household_id) l)
entries_in hid p db [] = refl
entries_in hid p db (c ∷ l) = ground (arith, entries_in hid p db l)

unlisted :
    (hid : ℕ) (db : Database) (l : List ChoreInstance)
    → [] ≡ map (reminder_of db) (filter (λ c. is_listed [] c && hid == c.household_id) l)
unlisted hid db [] = refl
unlisted hid db (c ∷ l) = unlisted hid db l

module _ (engine : Engine) (db : Database) (joined : IsJoined db) (hid : ℕ) where
  scanned :
      (p : ChoreInstance → Bool)
      → Perm
          (map entry_of (filter (is_row_of hid) (engine.scan ReminderRow (reminder_rows p db))))
          (map (reminder_of db) (filter (λ c. p c && hid == c.household_id) db.instances))
  scanned p =
      rw (← entries_in hid p db db.instances, ← reminder_rows_lem p db joined)
        (Perm.map entry_of
          (filter-perm (is_row_of hid) (engine.scan-perm ReminderRow (reminder_rows p db))))

  listed :
      (ids : List ℕ)
      → Perm (map entry_of (filter (is_row_of hid) (overdue_rows engine ids db))) (
          map
            (reminder_of db)
            (filter (λ c. is_listed ids c && hid == c.household_id) db.instances))
  listed [] = rw (← unlisted hid db db.instances) (Perm.refl [])
  listed (i ∷ ids) = scanned (is_listed (i ∷ ids))

-- Where each instance is one of a household and its references are to at most one row, the
-- summaries are those of different households and none is empty; that of a household tells, each
-- once and no other, of its pending instances that are due today, and of its instances among the
-- newly overdue ones. A household with no summary has neither.
pub gather_reminder_summaries_lem :
    (engine : Engine) (today : ℕ) (ids : List ℕ) (db : Database)
    → IsJoined db
    → let summaries = gather_reminder_summaries engine today ids db in
      Distinct (map (λ s. s.household_id) summaries)
      × All (λ s. is_empty s ≡ false) summaries
      × ((hid : ℕ)
          → Perm (due_of (of_household hid summaries)) (
              map
                (reminder_of db)
                (filter (λ c. is_due_today today c && hid == c.household_id) db.instances))
            × Perm (overdue_of (of_household hid summaries)) (
                map
                  (reminder_of db)
                  (filter (λ c. is_listed ids c && hid == c.household_id) db.instances)))
unfolding gather_reminder_summaries
gather_reminder_summaries_lem engine today ids db joined =
    let r = summarise-IsSummary due over in
    (
      r.distinct,
      r.filled,
      λ hid. (
        rw (r.due_entries hid) (scanned engine db joined hid (is_due_today today)),
        rw (r.overdue_entries hid) (listed engine db joined hid ids),
      ),
    )
  where
    due : List ReminderRow
    due = engine.scan ReminderRow (reminder_rows (is_due_today today) db)

    over : List ReminderRow
    over = overdue_rows engine ids db

-- ===== src/Scheduler/Reminders.antt =====
-- `_gather_reminder_summaries` and the whole of `run_daily_job`, the notifications included, of
-- backend/app/tasks/scheduler.py.
use chore_app.Base.{
  ℕ, String, Bool, true, false, ◌&&◌, Option, none, some, List, [], ◌∷◌, ◌++◌, map, ◌==◌, same_text,
  if◌then◌else◌, filter, any, Dict, lookup, insert, for_each, outer,
}
use chore_app.Models.{User, Household, ChoreDefinition, ChoreInstance, Database, is_pending}
use chore_app.Session.{Result, ok, err, Action, pure, ◌>>=◌, ◌>>◌, query, get_db}
use chore_app.Engine.{Engine}
use chore_app.Settings.{Settings}
use chore_app.Notifications.{HouseholdReminderSummary, truthy, Post, Client, send_daily_reminders}
use chore_app.Chores.Responses.{definition_rows, user_rows, display_name_of}
use chore_app.Scheduler.{generate_chore_instances, flag_overdue_instances, cleanup_expired_tokens}

-- A row of `base_query`.
pub record ReminderRow : Type 0 where
  pub household_id : ℕ
  pub household_name : String
  pub chore_title : Option String
  pub assignee_name : Option String

abbrev pub title_of : Option ChoreDefinition → Option String
title_of none = none
title_of (some d) = some d.title

abbrev pub household_rows_of : ChoreInstance → Database → List Household
household_rows_of c db = filter (λ h. h.id == c.household_id) db.households

abbrev pub reminder_row :
    ChoreInstance → Household → Option ChoreDefinition → Option User → ReminderRow
reminder_row c h d u = record {
  household_id = c.household_id;
  household_name = h.name;
  chore_title = title_of d;
  assignee_name = display_name_of u;
}

-- The joins of `base_query`, for one instance.
unfoldable pub rows_of : Database → ChoreInstance → List ReminderRow
rows_of db c = for_each (household_rows_of c db) (λ h.
    for_each (outer (definition_rows c db))
      (λ d. for_each (outer (user_rows c.assignee_id db)) (λ u. reminder_row c h d u ∷ [])))

-- `base_query.where(...)`
unfoldable pub reminder_rows : (ChoreInstance → Bool) → Database → List ReminderRow
reminder_rows p db = for_each (filter p db.instances) (rows_of db)

-- `text or default`
abbrev pub text_or : Option String → String → String
text_or none default = default
text_or (some s) default = if same_text s "" then default else s

abbrev pub entry_of : ReminderRow → String × String
entry_of row = (text_or row.chore_title "Chore", text_or row.assignee_name "Unassigned")

-- `_summary_for`: the summary of the household, or a new one.
abbrev pub summary_for : ReminderRow → Option HouseholdReminderSummary → HouseholdReminderSummary
summary_for row none = record {
  household_id = row.household_id;
  household_name = row.household_name;
  due_today = [];
  newly_overdue = [];
}
summary_for row (some s) = s

abbrev pub push_due : ReminderRow → Option HouseholdReminderSummary → HouseholdReminderSummary
push_due row o =
    let s = summary_for row o in record s { due_today = s.due_today ++ entry_of row ∷ [] }

abbrev pub push_overdue : ReminderRow → Option HouseholdReminderSummary → HouseholdReminderSummary
push_overdue row o =
    let s = summary_for row o in record s { newly_overdue = s.newly_overdue ++ entry_of row ∷ [] }

-- The two loops over the rows.
unfoldable pub add_rows :
    (ReminderRow → Option HouseholdReminderSummary → HouseholdReminderSummary)
    → List ReminderRow
    → Dict HouseholdReminderSummary
    → Dict HouseholdReminderSummary
add_rows push [] summaries = summaries
add_rows push (row ∷ rows) summaries =
    add_rows push rows
      (insert row.household_id (push row (lookup row.household_id summaries)) summaries)

unfoldable pub summarise : List ReminderRow → List ReminderRow → List HouseholdReminderSummary
summarise due_today_rows overdue_rows =
    map (λ e. e.1) (add_rows push_overdue overdue_rows (add_rows push_due due_today_rows []))

abbrev pub is_due_today : ℕ → ChoreInstance → Bool
is_due_today today c = is_pending c.status && c.due_date == today

abbrev pub is_listed : List ℕ → ChoreInstance → Bool
is_listed ids c = any (λ i. i == c.id) ids

module _ (engine : Engine) where
  -- `if newly_overdue_ids:` and the second query.
  abbrev pub overdue_rows : List ℕ → Database → List ReminderRow
  overdue_rows [] db = []
  overdue_rows (i ∷ ids) db = engine.scan ReminderRow (reminder_rows (is_listed (i ∷ ids)) db)

  unfoldable pub gather_reminder_summaries : ℕ → List ℕ → Database → List HouseholdReminderSummary
  gather_reminder_summaries today newly_overdue_ids db =
      summarise (engine.scan ReminderRow (reminder_rows (is_due_today today) db))
        (overdue_rows newly_overdue_ids db)

module _ (engine : Engine) (add_months : ℕ → ℕ → ℕ) (new_id : ℕ → ℕ) (days_ahead grace_days : ℕ)
    (rstrip_slash : String → String) (settings : Settings) (client : Client) where
  -- `if settings.NOTIFY_URL: reminder_summaries = ...`
  abbrev pub gather_if : Option String → ℕ → List ℕ → Action (List HouseholdReminderSummary)
  gather_if none today ids = pure []
  gather_if (some url) today ids = query (gather_reminder_summaries engine today ids)

  -- The transaction of `run_daily_job`.
  unfoldable pub daily_transaction : ℕ → ℕ → Action (List HouseholdReminderSummary)
  daily_transaction today now = do
    generate_chore_instances engine add_months new_id days_ahead grace_days today now
    newly_overdue_ids ← flag_overdue_instances today
    cleanup_expired_tokens now
    gather_if (truthy settings.notify_url) today newly_overdue_ids

  -- What follows the transaction: nothing after a rollback, else the delivery.
  abbrev pub deliver : Result (List HouseholdReminderSummary) → List Post
  deliver (err e) = []
  deliver (ok []) = []
  deliver (ok (s ∷ summaries)) =
      (send_daily_reminders rstrip_slash settings client (s ∷ summaries) []).1

  -- `run_daily_job`: the database that stays, and the posts.
  unfoldable pub run_daily_job_posting : Bool → ℕ → ℕ → Database → Database × List Post
  run_daily_job_posting false today now db = (db, [])
  run_daily_job_posting true today now db =
      let (r, after) = get_db (daily_transaction today now) db in (after, deliver r)

-- ===== src/Scheduler/Pushed.antt =====
-- backend/app/tasks/scheduler.py: the rows of one household that `_gather_reminder_summaries`
-- pushes.
use mathlib.Core.List.{append-nil, append_assoc}
use chore_app.Base.{
  lookup-insert, ℕ, String, ◌≡◌, refl, ◌∙◌, inl, inr, Bool, Option, none, some, List, [], ◌∷◌, ◌++◌,
  map, ◌==◌, ==→eq, if◌then◌else◌, Bool-cases, filter, Dict, lookup, insert,
}
use chore_app.Notifications.{HouseholdReminderSummary}
use chore_app.Scheduler.Reminders.{ReminderRow, entry_of, push_due, push_overdue, add_rows}

-- The summary of a household.
abbrev pub of_household : ℕ → List HouseholdReminderSummary → Option HouseholdReminderSummary
of_household hid [] = none
of_household hid (s ∷ l) = if hid == s.household_id then some s else of_household hid l

abbrev pub is_row_of : ℕ → ReminderRow → Bool
is_row_of hid row = hid == row.household_id

abbrev pub Push : Type 0
Push = ReminderRow → Option HouseholdReminderSummary → HouseholdReminderSummary

-- The rows of one household, pushed one after the other.
abbrev pub pushed :
    Push → List ReminderRow → Option HouseholdReminderSummary → Option HouseholdReminderSummary
pushed push [] o = o
pushed push (row ∷ rows) o = pushed push rows (some (push row o))

pub lookup-add_rows :
    (push : Push) (hid : ℕ) (rows : List ReminderRow) (m : Dict HouseholdReminderSummary)
    → lookup hid (add_rows push rows m) ≡ pushed push (filter (is_row_of hid) rows) (lookup hid m)
unfolding add_rows
lookup-add_rows push hid [] m = refl
lookup-add_rows push hid (row ∷ rows) m =
    let v = push row (lookup row.household_id m) in
    lookup-add_rows push hid rows (insert row.household_id v m)
    ∙ rw (lookup-insert hid row.household_id v m) (elim (Bool-cases (hid == row.household_id)) [
      | inl same ↦ rw (same, ← ==→eq hid row.household_id same) refl
      | inr other ↦ rw other refl
    ])

pushed_due :
    (rows : List ReminderRow) (s : HouseholdReminderSummary)
    → pushed push_due rows (some s)
      ≡ some (record s { due_today = s.due_today ++ map entry_of rows })
pushed_due [] s = rw append-nil refl
pushed_due (row ∷ rows) s =
    pushed_due rows (push_due row (some s))
    ∙ rw (append_assoc s.due_today (entry_of row ∷ []) (map entry_of rows)) refl

pushed_overdue :
    (rows : List ReminderRow) (s : HouseholdReminderSummary)
    → pushed push_overdue rows (some s)
      ≡ some (record s { newly_overdue = s.newly_overdue ++ map entry_of rows })
pushed_overdue [] s = rw append-nil refl
pushed_overdue (row ∷ rows) s =
    pushed_overdue rows (push_overdue row (some s))
    ∙ rw (append_assoc s.newly_overdue (entry_of row ∷ []) (map entry_of rows)) refl

-- The entries of an optional summary.
abbrev pub due_of : Option HouseholdReminderSummary → List (String × String)
due_of none = []
due_of (some s) = s.due_today

abbrev pub overdue_of : Option HouseholdReminderSummary → List (String × String)
overdue_of none = []
overdue_of (some s) = s.newly_overdue

pub due_of-pushed :
    (due over : List ReminderRow)
    → due_of (pushed push_overdue over (pushed push_due due none)) ≡ map entry_of due
due_of-pushed [] [] = refl
due_of-pushed [] (row ∷ over) = rw (pushed_overdue over (push_overdue row none)) refl
due_of-pushed (row ∷ due) over = rw (pushed_due due (push_due row none), pushed_overdue over) refl

pub overdue_of-pushed :
    (due over : List ReminderRow)
    → overdue_of (pushed push_overdue over (pushed push_due due none)) ≡ map entry_of over
overdue_of-pushed [] [] = refl
overdue_of-pushed [] (row ∷ over) = rw (pushed_overdue over (push_overdue row none)) refl
overdue_of-pushed (row ∷ due) over =
    rw (pushed_due due (push_due row none), pushed_overdue over) refl

-- ===== src/Scheduler/Summaries.antt =====
-- backend/app/tasks/scheduler.py: the grouping of the rows by household in
-- `_gather_reminder_summaries`.
use chore_app.Base.{
  ℕ, String, ◌≡◌, refl, sym, ap, ◌∙◌, ◌≢◌, inl, inr, false, Option, none, List, [], ◌∷◌, ◌++◌, map,
  arith, ◌==◌, ==→eq, Bool-cases, filter, All, Distinct, Dict, lookup, insert,
}
use chore_app.Notifications.{HouseholdReminderSummary, is_empty}
use chore_app.Scheduler.Reminders.{
  ReminderRow, entry_of, summary_for, push_due, push_overdue, add_rows, summarise,
}
use chore_app.Scheduler.Pushed.{
  of_household, is_row_of, Push, pushed, lookup-add_rows, due_of, overdue_of, due_of-pushed,
  overdue_of-pushed,
}

-- What holds of each entry of the dict.
abbrev IsEntry : ℕ × HouseholdReminderSummary → Type 0
IsEntry e = (e.0 ≡ (e.1).household_id) × (is_empty e.1 ≡ false)

All-insert :
    (P : ℕ × HouseholdReminderSummary → Type 0) (k : ℕ) (v : HouseholdReminderSummary)
    (m : Dict HouseholdReminderSummary)
    → P (k, v)
    → All P m
    → All P (insert k v m)
All-insert P k v [] p h = (p, tt)
All-insert P k v (e ∷ m) p h = elim (Bool-cases (k == e.0)) [
  | inl same ↦ rw same (p, h.1)
  | inr other ↦ rw other (h.0, All-insert P k v m p h.1)
]

apart-insert :
    (j k : ℕ) (v : HouseholdReminderSummary) (m : Dict HouseholdReminderSummary)
    → (k == j) ≡ false
    → All (λ i. i ≢ j) (map (λ e. e.0) m)
    → All (λ i. i ≢ j) (map (λ e. e.0) (insert k v m))
apart-insert j k v [] ne h = (ground arith, tt)
apart-insert j k v (e ∷ m) ne h = elim (Bool-cases (k == e.0)) [
  | inl same ↦ rw same (ground arith, h.1)
  | inr other ↦ rw other (h.0, apart-insert j k v m ne h.1)
]

Distinct-insert :
    (k : ℕ) (v : HouseholdReminderSummary) (m : Dict HouseholdReminderSummary)
    → Distinct (map (λ e. e.0) m)
    → Distinct (map (λ e. e.0) (insert k v m))
Distinct-insert k v [] h = (tt, tt)
Distinct-insert k v (e ∷ m) h = elim (Bool-cases (k == e.0)) [
  | inl same ↦ rw (same, ==→eq k e.0 same) h
  | inr other ↦ rw other (apart-insert e.0 k v m other h.0, Distinct-insert k v m h.1)
]

IsEntry-lookup :
    (k : ℕ) (m : Dict HouseholdReminderSummary) (row : ReminderRow)
    → row.household_id ≡ k
    → All IsEntry m
    → (summary_for row (lookup k m)).household_id ≡ k
IsEntry-lookup k [] row e h = e
IsEntry-lookup k (x ∷ m) row e h = elim (Bool-cases (k == x.0)) [
  | inl same ↦ rw same (sym (h.0.0) ∙ sym (==→eq k x.0 same))
  | inr other ↦ rw other (IsEntry-lookup k m row e h.1)
]

-- A way to push keeps the household and leaves no summary empty.
abbrev Keeps : Push → Type 0
Keeps push =
    (row : ReminderRow) (o : Option HouseholdReminderSummary)
    → ((push row o).household_id ≡ (summary_for row o).household_id)
      × (is_empty (push row o) ≡ false)

nonempty :
    (due over : List (String × String)) (x : String × String) (s : HouseholdReminderSummary)
    → (is_empty (record s { due_today = due ++ x ∷ [] }) ≡ false)
      × (is_empty (record s { newly_overdue = over ++ x ∷ [] }) ≡ false)
nonempty [] [] x s = (refl, ground arith)
nonempty [] (z ∷ over) x s = (refl, ground arith)
nonempty (y ∷ due) [] x s = (refl, ground arith)
nonempty (y ∷ due) (z ∷ over) x s = (refl, ground arith)

push_due-Keeps : Keeps push_due
push_due-Keeps row o =
    let s = summary_for row o in (refl, (nonempty s.due_today s.newly_overdue (entry_of row) s).0)

push_overdue-Keeps : Keeps push_overdue
push_overdue-Keeps row o =
    let s = summary_for row o in (refl, (nonempty s.due_today s.newly_overdue (entry_of row) s).1)

add_rows-IsEntry :
    (push : Push)
    → Keeps push
    → (rows : List ReminderRow) (m : Dict HouseholdReminderSummary)
    → All IsEntry m × Distinct (map (λ e. e.0) m)
    → All IsEntry (add_rows push rows m) × Distinct (map (λ e. e.0) (add_rows push rows m))
unfolding add_rows
add_rows-IsEntry push keeps [] m h = h
add_rows-IsEntry push keeps (row ∷ rows) m h =
    let k = row.household_id in
    let v = push row (lookup k m) in
    add_rows-IsEntry push keeps rows (insert k v m) (
      All-insert IsEntry k v m
          (
            sym ((keeps row (lookup k m)).0 ∙ IsEntry-lookup k m row refl h.0),
            (keeps row (lookup k m)).1,
          )
          h.0,
      Distinct-insert k v m h.1,
    )

-- The summaries of the dict.
of_household-values :
    (hid : ℕ) (m : Dict HouseholdReminderSummary)
    → All IsEntry m
    → of_household hid (map (λ e. e.1) m) ≡ lookup hid m
of_household-values hid [] h = refl
of_household-values hid (e ∷ m) h = rw (← h.0.0, of_household-values hid m h.1) refl

ids-values :
    (m : Dict HouseholdReminderSummary)
    → All IsEntry m
    → map (λ s. s.household_id) (map (λ e. e.1) m) ≡ map (λ e. e.0) m
ids-values [] h = refl
ids-values (e ∷ m) h = rw (← h.0.0, ids-values m h.1) refl

filled-values :
    (m : Dict HouseholdReminderSummary)
    → All IsEntry m
    → All (λ s. is_empty s ≡ false) (map (λ e. e.1) m)
filled-values [] h = tt
filled-values (e ∷ m) h = (h.0.1, filled-values m h.1)

-- A household has at most one summary, none is empty, and that of a household lists the entries of
-- its rows, in their order.
pub record IsSummary (due over : List ReminderRow) (l : List HouseholdReminderSummary)
    : Type 0 where
  pub distinct : Distinct (map (λ s. s.household_id) l)
  pub filled : All (λ s. is_empty s ≡ false) l
  pub due_entries :
      (hid : ℕ) → due_of (of_household hid l) ≡ map entry_of (filter (is_row_of hid) due)
  pub overdue_entries :
      (hid : ℕ) → overdue_of (of_household hid l) ≡ map entry_of (filter (is_row_of hid) over)

pub summarise-IsSummary : (due over : List ReminderRow) → IsSummary due over (summarise due over)
unfolding summarise
summarise-IsSummary due over = record {
  distinct = rw (ids-values dict both.0) both.1;
  filled = filled-values dict both.0;
  due_entries = λ hid.
      ap due_of (found hid)
      ∙ due_of-pushed (filter (is_row_of hid) due) (filter (is_row_of hid) over);
  overdue_entries = λ hid.
      ap overdue_of (found hid)
      ∙ overdue_of-pushed (filter (is_row_of hid) due) (filter (is_row_of hid) over);
}
  where
    dict : Dict HouseholdReminderSummary
    dict = add_rows push_overdue over (add_rows push_due due [])

    both : All IsEntry dict × Distinct (map (λ e. e.0) dict)
    both =
        add_rows-IsEntry push_overdue push_overdue-Keeps over (add_rows push_due due [])
          (add_rows-IsEntry push_due push_due-Keeps due [] (tt, tt))

    found :
        (hid : ℕ)
        → of_household hid (map (λ e. e.1) dict)
          ≡ pushed push_overdue
              (filter (is_row_of hid) over)
              (pushed push_due (filter (is_row_of hid) due) none)
    found hid =
        of_household-values hid dict both.0
        ∙ lookup-add_rows push_overdue hid over (add_rows push_due due [])
        ∙ ap (pushed push_overdue (filter (is_row_of hid) over))
            (lookup-add_rows push_due hid due [])

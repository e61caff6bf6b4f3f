-- ===== src/Scheduler.antt =====
-- backend/app/tasks/scheduler.py: the daily job.
pub mod DueDates
pub mod Pairs
pub mod Idempotent
pub mod Single
pub mod Exact
pub mod Scheduled
pub mod Complete
pub mod Issued
pub mod Assigning
pub mod Daily
pub mod Reminders
pub mod Pushed
pub mod Summaries
pub mod Gathered
pub mod Posting
use chore_app.Base.{
  ℕ, ◌+◌, ◌-◌, Bool, true, false, ◌&&◌, ◌||◌, not, Option, none, some, List, [], ◌∷◌, ◌++◌, map,
  length, ltb, ◌==◌, is_some_eq, if◌then◌else◌, filter, any, update_where, Dict, lookup, insert,
}
use chore_app.Models.{
  RecurrenceRule, ChoreDefinition, ChoreStatus, pending, overdue, ChoreInstance, RevokedToken,
  RefreshToken, Database, is_recurring, is_pending,
}
use chore_app.Session.{Session, Result, ok, err, Action, pure, ◌>>=◌, ◌>>◌, query, write, get_db}
use chore_app.Engine.{Engine}
use chore_app.Assignment.{redistribute_chores_bulk}
use chore_app.Redistribution.{with_assignee, with_instances}
use chore_app.Scheduler.DueDates.{compute_due_dates}

-- What `generate_chore_instances` keeps while it loops: the pairs that have an instance, the new
-- instances in the order of `session.add`, and the same by household.
pub record Batch : Type 0 where
  pub existing_pairs : List (ℕ × ℕ)
  pub added : List ChoreInstance
  pub new_by_household : Dict (List ChoreInstance)

abbrev pub has_pair : ℕ → ℕ → List (ℕ × ℕ) → Bool
has_pair definition_id due_date = any (λ p. p.0 == definition_id && p.1 == due_date)

-- `new_by_household.setdefault(household_id, []).append(instance)`
abbrev append_to : ChoreInstance → Option (List ChoreInstance) → List ChoreInstance
append_to c none = c ∷ []
append_to c (some cs) = cs ++ c ∷ []

abbrev pub add_to_household :
    ℕ → ChoreInstance → Dict (List ChoreInstance) → Dict (List ChoreInstance)
add_to_household household_id c groups =
    insert household_id (append_to c (lookup household_id groups)) groups

abbrev pub generated : ChoreDefinition → ℕ → ℕ → ℕ → ChoreInstance
generated d due_date instance_id now = record {
  id = instance_id;
  definition_id = some d.id;
  household_id = d.household_id;
  assignee_id = none;
  assigned_manually = false;
  due_date = due_date;
  status = pending;
  completed_at = none;
  points_awarded = none;
  created_at = now;
}

-- The pairs of the bulk query; with no definitions there are none.
unfoldable pub pairs_of : List ℕ → List ChoreInstance → List (ℕ × ℕ)
pairs_of ids [] = []
pairs_of ids (c ∷ cs) =
    let rest = pairs_of ids cs in
    elim c.definition_id [
      | none ↦ rest
      | some i ↦ if any (λ j. j == i) ids then (i, c.due_date) ∷ rest else rest
    ]

-- `new_id k` is the identifier that the k-th `uuid4` of the run draws, and `now` the time of the
-- transaction.
module _ (new_id : ℕ → ℕ) (now : ℕ) where
  -- The body of the inner loop.
  unfoldable pub add_due : ChoreDefinition → ℕ → Batch → Batch
  add_due d due_date b =
      let c = generated d due_date (new_id (length b.added)) now in
      if has_pair d.id due_date b.existing_pairs then b else record {
        existing_pairs = (d.id, due_date) ∷ b.existing_pairs;
        added = b.added ++ c ∷ [];
        new_by_household = add_to_household d.household_id c b.new_by_household;
      }

  unfoldable pub add_dues : ChoreDefinition → List ℕ → Batch → Batch
  add_dues d [] b = b
  add_dues d (due_date ∷ due_dates) b = add_dues d due_dates (add_due d due_date b)

  module _ (add_months : ℕ → ℕ → ℕ) (horizon backfill_floor : ℕ) where
    abbrev pub dates_of : ChoreDefinition → Option RecurrenceRule → List ℕ
    dates_of d none = []
    dates_of d (some rule) =
        compute_due_dates add_months d.first_due_date rule horizon (some backfill_floor)

    -- The outer loop; a definition without a rule is skipped.
    unfoldable pub add_definitions : List ChoreDefinition → Batch → Batch
    add_definitions [] b = b
    add_definitions (d ∷ ds) b = add_definitions ds (add_dues d (dates_of d d.recurrence_rule) b)

-- `assignments.get(inst.id)`
abbrev assigned : Option (Option ℕ) → Option ℕ
assigned none = none
assigned (some o) = o

-- `for inst in instances: inst.assignee_id = assignments.get(inst.id)`
unfoldable pub write_assignments :
    Dict (Option ℕ) → List ChoreInstance → List ChoreInstance → List ChoreInstance
write_assignments assignments [] rows = rows
write_assignments assignments (c ∷ cs) rows =
    write_assignments assignments cs (with_assignee c.id (assigned (lookup c.id assignments)) rows)

module _ (engine : Engine) where
  unfoldable pub assign_groups : Dict (List ChoreInstance) → Action (Unit {0})
  assign_groups [] = pure tt
  assign_groups (g ∷ groups) = do
    assignments ← redistribute_chores_bulk engine (map (λ c. c.id) g.1) g.0
    write (with_instances (write_assignments assignments g.1))
    assign_groups groups

  -- The active recurring definitions.
  unfoldable pub recurring_definitions : Database → List ChoreDefinition
  recurring_definitions db =
      engine.scan ChoreDefinition
        (filter (λ d. is_recurring d.chore_type && d.is_active) db.definitions)

  -- `generate_chore_instances`; the date subtraction stays above 0 for today's dates.
  unfoldable pub generate_chore_instances :
      (ℕ → ℕ → ℕ) → (ℕ → ℕ) → ℕ → ℕ → ℕ → ℕ → Action (Unit {0})
  generate_chore_instances add_months new_id days_ahead grace_days today now = do
    definitions ← query recurring_definitions
    existing ← query (λ db. pairs_of (map (λ d. d.id) definitions) db.instances)
    let b =
        add_definitions new_id now add_months (today + days_ahead) (today - grace_days) definitions
          (record { existing_pairs = existing; added = []; new_by_household = [] })
    write (with_instances (λ rows. rows ++ b.added))
    assign_groups b.new_by_household

-- The WHERE clause of `flag_overdue_instances`.
abbrev pub is_late : ℕ → ChoreInstance → Bool
is_late today c = is_pending c.status && ltb c.due_date today

abbrev pub flag : ChoreInstance → ChoreInstance
flag c = record c { status = overdue }

-- `flag_overdue_instances`, with the identifiers it returns.
unfoldable pub flag_overdue_instances : ℕ → Action (List ℕ)
flag_overdue_instances today = do
  flagged ← query (λ db. map (λ c. c.id) (filter (is_late today) db.instances))
  write (with_instances (update_where (is_late today) flag))
  pure flagged

-- `cleanup_expired_tokens`
unfoldable pub cleanup_expired_tokens : ℕ → Action (Unit {0})
cleanup_expired_tokens now = write (λ db. record db {
  revoked_tokens = filter (λ t. not (ltb t.expires_at now)) db.revoked_tokens;
  refresh_tokens = filter (λ t. not (ltb t.expires_at now)) db.refresh_tokens;
})

-- `run_daily_job` without the notifications: nothing where another worker holds the lock, else one
-- transaction, rolled back where a part raises.
module _ (engine : Engine) (add_months : ℕ → ℕ → ℕ) (new_id : ℕ → ℕ)
    (days_ahead grace_days : ℕ) where
  unfoldable pub daily_tasks : ℕ → ℕ → Action (List ℕ)
  daily_tasks today now = do
    generate_chore_instances engine add_months new_id days_ahead grace_days today now
    newly_overdue_ids ← flag_overdue_instances today
    cleanup_expired_tokens now
    pure newly_overdue_ids

  unfoldable pub run_daily_job : Bool → ℕ → ℕ → Database → Database
  run_daily_job false today now db = db
  run_daily_job true today now db = (get_db (daily_tasks today now) db).1

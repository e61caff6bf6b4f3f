-- ===== src/Scheduler/Daily.antt =====
-- `run_daily_job` of backend/app/tasks/scheduler.py: what it does to the chores and the ledger.
use mathlib.Core.List.{append-nil}
use chore_app.Base.{
  ℕ, ◌+◌, ◌-◌, ◌≡◌, refl, ◌≢◌, ◌⊎◌, inl, inr, Bool, true, false, List, [], ◌++◌, map, length, All,
  All₂, IsKeyed, update_where,
}
use chore_app.Models.{ChoreInstance, Database}
use chore_app.Session.{Session, get_db}
use chore_app.Session.Outcomes.{begin, Result-cases}
use chore_app.Engine.{Engine}
use chore_app.Redistribution.{with_instances}
use chore_app.Scheduler.{
  Batch, pairs_of, add_definitions, recurring_definitions, generate_chore_instances, is_late, flag,
  flag_overdue_instances, cleanup_expired_tokens, daily_tasks, run_daily_job,
}
use chore_app.Scheduler.Issued.{IsFreshSource, IsIssued, IsTracked, add_definitions-IsTracked}
use chore_app.Scheduler.Assigning.{IsAssigned, Assigns, assign_groups-Assigns}

-- A run that went through: it has added `added`, assigned some of these, which gives `middle`, and
-- flagged the late ones.
pub record Runs (new_id : ℕ → ℕ) (today : ℕ) (db after : Database) : Type 0 where
  pub added : List ChoreInstance
  pub middle : List ChoreInstance
  pub keyed : IsKeyed (λ c. c.id) (db.instances ++ added)
  pub issued : All (IsIssued new_id (length added)) added
  pub assigned : All₂ (IsAssigned new_id) (db.instances ++ added) middle
  pub flagged : after.instances ≡ update_where (is_late today) flag middle
  pub ledger : after.ledger ≡ db.ledger

module _ (engine : Engine) (add_months : ℕ → ℕ → ℕ) (new_id : ℕ → ℕ)
    (days_ahead grace_days today now : ℕ) (db : Database) (distinct : IsFreshSource new_id)
    (unused : (k : ℕ) → All (λ c. c.id ≢ new_id k) db.instances)
    (keyed : IsKeyed (λ c. c.id) db.instances) where
  abbrev start : Batch
  start = record {
    existing_pairs = pairs_of (map (λ d. d.id) (recurring_definitions engine db)) db.instances;
    added = [];
    new_by_household = [];
  }

  abbrev batch : Batch
  batch =
      add_definitions new_id now add_months (today + days_ahead) (today - grace_days)
        (recurring_definitions engine db) start

  tracked : IsTracked new_id db.instances batch
  tracked =
      add_definitions-IsTracked new_id now distinct db.instances unused add_months
        (today + days_ahead) (today - grace_days) (recurring_definitions engine db) start
        (record { keyed = rw append-nil keyed; issued = tt; drawn = tt })

  abbrev inserted : Session
  inserted = record { working = with_instances (λ rows. rows ++ batch.added) db; committed = db }

  generated :
      Assigns new_id inserted
        (generate_chore_instances engine add_months new_id days_ahead grace_days today now
          (begin db)).1
  unfolding generate_chore_instances
  generated = assign_groups-Assigns new_id engine batch.new_by_household inserted tracked.drawn

  -- A run of the job changes nothing, or it adds, assigns and flags.
  pub run_daily_job_outcome :
      (acquired : Bool)
      → let after =
          run_daily_job engine add_months new_id days_ahead grace_days acquired today now db in
        (after ≡ db) ⊎ Runs new_id today db after
  unfolding run_daily_job get_db daily_tasks flag_overdue_instances cleanup_expired_tokens
  run_daily_job_outcome false = inl refl
  run_daily_job_outcome true =
      let run = generate_chore_instances engine add_months new_id days_ahead grace_days today now in
      elim (Result-cases run (begin db)) [
        | inl (x, failed) ↦ inl (rw (failed, run_daily_job) generated.committed)
        | inr (a, done) ↦ inr (
            rw (done, run_daily_job)
              (record {
                added = batch.added;
                middle = (run (begin db)).1.working.instances;
                keyed = tracked.keyed;
                issued = tracked.issued;
                assigned = generated.rows;
                flagged = refl;
                ledger = generated.ledger;
              }))
      ]

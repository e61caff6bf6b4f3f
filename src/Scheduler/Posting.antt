-- ===== src/Scheduler/Posting.antt =====
-- `run_daily_job` of backend/app/tasks/scheduler.py: the job with its notifications beside the job
-- without them.
use chore_app.Base.{
  ltb, ◌&&◌, Bool, ℕ, String, ◌≡◌, refl, ap, ◌⊎◌, inl, inr, true, Option, none, some, List, [], ◌∷◌,
  map, filter, update_where, Option-cases,
}
use chore_app.Models.{is_pending, overdue, ChoreInstance, Database}
use chore_app.Session.{Session, Action, Error, ok, err, get_db}
use chore_app.Session.Outcomes.{begin, Result-cases}
use chore_app.Engine.{Engine}
use chore_app.Settings.{Settings}
use chore_app.Notifications.{HouseholdReminderSummary, truthy, Post, Client}
use chore_app.Notifications.Delivery.{posts_for, send_daily_reminders_lem}
use chore_app.Scheduler.{
  generate_chore_instances, flag_overdue_instances, cleanup_expired_tokens, daily_tasks,
  run_daily_job,
}
use chore_app.Scheduler.Reminders.{
  gather_reminder_summaries, daily_transaction, deliver, run_daily_job_posting,
}

-- What the delivery makes of the summaries of a job that went through.
delivered :
    (engine : Engine) (add_months : ℕ → ℕ → ℕ) (new_id : ℕ → ℕ) (days_ahead grace_days : ℕ)
    (rstrip_slash : String → String) (settings : Settings) (client : Client)
    (summaries : List HouseholdReminderSummary)
    → deliver engine add_months new_id days_ahead grace_days rstrip_slash settings client
        (ok summaries)
      ≡ posts_for rstrip_slash settings (truthy settings.notify_url) summaries
delivered engine add_months new_id days_ahead grace_days r settings client [] =
    nothing (truthy settings.notify_url)
  where
    nothing : (url : Option String) → [] ≡ posts_for r settings url []
    nothing none = refl
    nothing (some url) = refl
delivered engine add_months new_id days_ahead grace_days r settings client (s ∷ summaries) =
    ap (λ x. x.1) (send_daily_reminders_lem r settings client (s ∷ summaries) [])

-- Pending, and due before a date.
abbrev is_pending_before : ℕ → ChoreInstance → Bool
is_pending_before today c = is_pending c.status && ltb c.due_date today

-- What a job that went through tells: the summaries of the database that stays, over the instances
-- that were pending and due before today once the run had generated its own; those are flagged.
pub record Tells (engine : Engine) (generate : Action (Unit {0})) (rstrip_slash : String → String)
    (settings : Settings) (today : ℕ) (db after : Database) (posts : List Post) : Type 0 where
  pub middle : Session
  pub generated : generate (begin db) ≡ (ok tt, middle)
  pub flagged :
      after.instances
      ≡ update_where
          (is_pending_before today)
          (λ c. record c { status = overdue })
          middle.working.instances
  pub told :
      posts
      ≡ posts_for rstrip_slash settings (truthy settings.notify_url) (
          gather_reminder_summaries engine today
            (map (λ c. c.id) (filter (is_pending_before today) middle.working.instances))
            after)

module _ (engine : Engine) (add_months : ℕ → ℕ → ℕ) (new_id : ℕ → ℕ) (days_ahead grace_days : ℕ)
    (rstrip_slash : String → String) (settings : Settings) (client : Client) (today now : ℕ)
    (db : Database) where
  -- The job with its notifications leaves the database that the job without them leaves, whatever
  -- the client answers. Where its transaction raises, it posts nothing; else it posts one message
  -- for each summary of the database that stays, over the instances due today and those that this
  -- run flagged, that is, those pending and due before today once it had generated its own, if
  -- NOTIFY_URL is set and not empty.
  pub run_daily_job_posting_lem :
      let out =
        run_daily_job_posting engine add_months new_id days_ahead grace_days rstrip_slash settings
          client true today now db in
      (out.0 ≡ run_daily_job engine add_months new_id days_ahead grace_days true today now db)
      × (((e : Error) × ((get_db
                (daily_tasks engine add_months new_id days_ahead grace_days today now)
                db).0
              ≡ err e)
            × (out.1 ≡ []))
          ⊎ Tells engine
              (generate_chore_instances engine add_months new_id days_ahead grace_days today now)
              rstrip_slash
              settings
              today
              db
              out.0
              out.1)
  unfolding run_daily_job_posting run_daily_job get_db daily_tasks daily_transaction
      flag_overdue_instances cleanup_expired_tokens
  run_daily_job_posting_lem =
      let run = generate_chore_instances engine add_months new_id days_ahead grace_days today now in
      elim (Result-cases run (begin db)) [
        | inl (x, failed) ↦ rw (failed, run_daily_job, daily_tasks) (refl, inl (x, refl, refl))
        | inr (a, done) ↦ elim (Option-cases (truthy settings.notify_url)) [
          | inl off ↦
              rw (done, off, run_daily_job, daily_tasks)
                (
                  refl,
                  inr (record {
                    middle = (run (begin db)).1;
                    generated = done;
                    flagged = refl;
                    told = rw off refl;
                  }),
                )
          | inr (url, on) ↦
              rw (done, on, run_daily_job, daily_tasks)
                (
                  refl,
                  inr (record {
                    middle = (run (begin db)).1;
                    generated = done;
                    flagged = refl;
                    told =
                        delivered engine add_months new_id days_ahead grace_days rstrip_slash
                          settings client _;
                  }),
                )
        ]
      ]

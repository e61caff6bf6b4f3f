-- ===== src/Examples/Jobs.antt =====
-- The theorems on the reminders of the daily job, on the settings and on the operator's command of
-- backend/app at concrete inputs.
use mathlib.Core.List.{Perm}
use chore_app.Base.{
  ℕ, String, ◌≡◌, refl, ◌⊎◌, true, ◌&&◌, false, none, some, [], ◌∷◌, ◌++◌, map, arith, filter, ◌==◌,
  All, Distinct,
}
use chore_app.Session.{Error, err, get_db}
use chore_app.Notifications.{
  HouseholdReminderSummary, is_empty, build_message, truthy, Client, send_daily_reminders,
}
use chore_app.Notifications.Delivery.{posts_for, send_daily_reminders_lem}
use chore_app.Scheduler.{generate_chore_instances, daily_tasks, run_daily_job}
use chore_app.Scheduler.Reminders.{
  is_due_today, is_listed, gather_reminder_summaries, run_daily_job_posting,
}
use chore_app.Scheduler.Pushed.{of_household, due_of, overdue_of}
use chore_app.Scheduler.Gathered.{reminder_of, gather_reminder_summaries_lem}
use chore_app.Scheduler.Posting.{Tells, run_daily_job_posting_lem}
use chore_app.Settings.{
  Settings, loaded, load_settings, validate_jwt_secret, validate_notify_kind,
  apply_deprecated_jwt_expiry_days,
}
use chore_app.Settings.Validation.{load_settings_idem}
use chore_app.Texts.{strip, lower}
use chore_app.Cli.Recovery.{Outcome, reset_password_outcome}
use chore_app.Examples.Sorting.{sorting}
use chore_app.Examples.Secrets.{plain}
use chore_app.Examples.Samples.{home, flat}
use chore_app.Examples.Chores.{add_thirty, drawn}
use chore_app.Examples.Tokens.{lifetimes}

abbrev summary : HouseholdReminderSummary
summary = record {
  household_id = 1;
  household_name = "Flat";
  due_today = ("Dishes", "Cid") ∷ [];
  newly_overdue = ("Hedge", "Cid") ∷ ("Bins", "Unassigned") ∷ [];
}

message : build_message summary ≡ (
  "Flat: 1 due today, 2 newly overdue",
  "Due today:\n- Dishes (Cid)\n\nNewly overdue:\n- Hedge (Cid)\n- Bins (Unassigned)",
)
unfolding build_message
message = refl

-- The settings of a deployment that still counts in days.
abbrev deployed : Settings
deployed = record {
  database_url = "postgresql+asyncpg://db";
  jwt_secret = "0123456789abcdef0123456789abcdef";
  jwt_algorithm = "HS256";
  jwt_expiry_minutes = 30;
  jwt_expiry_days = some 2;
  refresh_token_ttl_days = 30;
  app_base_url = "http://localhost:8000";
  invite_token_ttl_hours = 48;
  scheduler_run_hour = 0;
  instance_generation_days_ahead = 7;
  grace_days = 3;
  debug = false;
  cors_allowed_origins = [];
  rate_limit_enabled = true;
  rate_limit_login = "5/minute";
  rate_limit_register = "10/hour";
  rate_limit_refresh = "30/minute";
  notify_url = none;
  notify_token = none;
  notify_kind = " Gotify";
  notify_timeout = 5000;
}

-- A topic of ntfy, and a server that never answers.
abbrev topic : Settings
topic = record deployed { notify_url = some "https://ntfy.sh/chores"; notify_kind = "ntfy" }

abbrev down : Client
down sent p = false

abbrev same : String → String
same s = s

send_daily_reminders_lem_example :
    send_daily_reminders same topic down (summary ∷ []) []
    ≡ (some tt, [] ++ posts_for same topic (truthy topic.notify_url) (summary ∷ []))
send_daily_reminders_lem_example = send_daily_reminders_lem same topic down (summary ∷ []) []

gather_reminder_summaries_lem_example :
    let summaries = gather_reminder_summaries sorting 20 (32 ∷ []) home in
    Distinct (map (λ s. s.household_id) summaries)
    × All (λ s. is_empty s ≡ false) summaries
    × ((hid : ℕ)
        → Perm (due_of (of_household hid summaries)) (
            map
              (reminder_of home)
              (filter (λ c. is_due_today 20 c && hid == c.household_id) home.instances))
          × Perm (overdue_of (of_household hid summaries)) (
              map
                (reminder_of home)
                (filter (λ c. is_listed (32 ∷ []) c && hid == c.household_id) home.instances)))
gather_reminder_summaries_lem_example = gather_reminder_summaries_lem sorting 20 (32 ∷ []) home (
  ((flat, refl), omega arith, omega arith),
  (((flat, refl), omega arith, omega arith), (((flat, refl), omega arith, omega arith), tt)),
)

run_daily_job_posting_lem_example :
    let out =
      run_daily_job_posting sorting add_thirty drawn 14 7 same topic down true 20 900 home in
    (out.0 ≡ run_daily_job sorting add_thirty drawn 14 7 true 20 900 home)
    × (((e : Error) × ((get_db (daily_tasks sorting add_thirty drawn 14 7 20 900) home).0 ≡ err e)
          × (out.1 ≡ []))
        ⊎ Tells sorting
            (generate_chore_instances sorting add_thirty drawn 14 7 20 900)
            same
            topic
            20
            home
            out.0
            out.1)
run_daily_job_posting_lem_example =
    run_daily_job_posting_lem sorting add_thirty drawn 14 7 same topic down 20 900 home

abbrev in_force : Settings
in_force = record deployed { notify_kind = "gotify"; jwt_expiry_minutes = 2880 }

loads : load_settings deployed ≡ loaded in_force
unfolding load_settings validate_jwt_secret validate_notify_kind apply_deprecated_jwt_expiry_days
    strip lower
loads = refl

load_settings_idem_example :
    (load_settings in_force ≡ loaded in_force)
    × ((in_force.notify_kind ≡ "ntfy") ⊎ (in_force.notify_kind ≡ "gotify"))
load_settings_idem_example = load_settings_idem deployed in_force loads

reset_password_outcome_example :
    Outcome plain lifetimes " Bob@Example.com " "longer88" "longer88" "salt" 6000 home
reset_password_outcome_example =
    reset_password_outcome plain lifetimes " Bob@Example.com " "longer88" "longer88" "salt" 6000
      home

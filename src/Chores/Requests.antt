-- ===== src/Chores/Requests.antt =====
-- What changes the chores, one after the other, each in its own transaction: the requests to
-- backend/app/api/chores.py, the removals and departures of backend/app/api/members.py, and the
-- runs of the daily job of backend/app/tasks/scheduler.py.
use chore_app.Base.{ℕ, ◌≢◌, ◌≡◌, Bool, false, Option, All, is_some_eq}
use chore_app.Models.{Database}
use chore_app.Session.{get_db}
use chore_app.Engine.{Engine}
use chore_app.Chores.Definitions.{
  ChoreCreate, ChoreUpdate, create_chore, delete_chore_definition, hide_chore_template,
  update_chore_definition,
}
use chore_app.Members.{remove_member, leave_household}
use chore_app.Scheduler.{run_daily_job}
use chore_app.Scheduler.Issued.{IsFreshSource}
use chore_app.Chores.Transitions.{complete_chore_instance, dismiss_chore_instance, reassign_chore}

-- A request, with the caller, the fresh identifiers and the time.
pub data Call : Type 0 where
  create : (hid : ℕ) (body : ChoreCreate) (uid did iid now : ℕ) → Call
  delete : (hid did uid : ℕ) → Call
  complete_one : (hid iid uid entry now : ℕ) → Call
  dismiss : (hid iid uid now : ℕ) → Call
  reassign : (hid iid : ℕ) (assignee : Option ℕ) (uid : ℕ) → Call
  hide : (hid did uid : ℕ) → Call
  update : (hid did : ℕ) (body : ChoreUpdate) (uid : ℕ) → Call
  remove : (hid uid cur : ℕ) → Call
  leave : (hid uid : ℕ) → Call
  daily :
      (add_months : ℕ → ℕ → ℕ) (new_id : ℕ → ℕ) (days_ahead grace_days : ℕ) (acquired : Bool)
      (today now : ℕ)
      → Call

-- The database after a request, whatever its outcome.
unfoldable pub serve : Engine → Call → Database → Database
serve engine (create hid body uid did iid now) db =
    (get_db (create_chore engine hid body uid did iid now) db).1
serve engine (delete hid did uid) db = (get_db (delete_chore_definition hid did uid) db).1
serve engine (complete_one hid iid uid entry now) db =
    (get_db (complete_chore_instance hid iid uid entry now) db).1
serve engine (dismiss hid iid uid now) db = (get_db (dismiss_chore_instance hid iid uid now) db).1
serve engine (reassign hid iid assignee uid) db =
    (get_db (reassign_chore engine hid iid assignee uid) db).1
serve engine (hide hid did uid) db = (get_db (hide_chore_template hid did uid) db).1
serve engine (update hid did body uid) db = (get_db (update_chore_definition hid did body uid) db).1
serve engine (remove hid uid cur) db = (get_db (remove_member engine hid uid cur) db).1
serve engine (leave hid uid) db = (get_db (leave_household engine hid uid) db).1
serve engine (daily add_months new_id days_ahead grace_days acquired today now) db =
    run_daily_job engine add_months new_id days_ahead grace_days acquired today now db

-- A new instance gets an identifier that no instance has and no ledger entry mentions; those of one
-- run of the daily job differ.
abbrev pub IsFresh : Call → Database → Type 0
IsFresh (create hid body uid did iid now) db =
    All (λ c. c.id ≢ iid) db.instances
    × All (λ e. is_some_eq e.chore_instance_id iid ≡ false) db.ledger
IsFresh (delete hid did uid) db = Unit
IsFresh (complete_one hid iid uid entry now) db = Unit
IsFresh (dismiss hid iid uid now) db = Unit
IsFresh (reassign hid iid assignee uid) db = Unit
IsFresh (hide hid did uid) db = Unit
IsFresh (update hid did body uid) db = Unit
IsFresh (remove hid uid cur) db = Unit
IsFresh (leave hid uid) db = Unit
IsFresh (daily add_months new_id days_ahead grace_days acquired today now) db =
    IsFreshSource new_id
    × ((k : ℕ) → All (λ c. c.id ≢ new_id k) db.instances)
    × ((k : ℕ) → All (λ e. is_some_eq e.chore_instance_id (new_id k) ≡ false) db.ledger)

-- The databases that requests lead to.
pub data Run (engine : Engine) : Database → Database → Type 0 where
  done : {db : Database} → Run engine db db
  next :
      {db after : Database} (call : Call)
      → IsFresh call db
      → Run engine (serve engine call db) after
      → Run engine db after

-- ===== src/Chores/History.antt =====
-- backend/app/api/chores.py: how the row of an instance may change, along every run of requests and
-- daily jobs.
use chore_app.Base.{
  ℕ, length, ap, ◌≢◌, All₂, ◌++◌, refl, ◌∙◌, inl, inr, List, [], ◌∷◌, ◌++◌, ◌==◌, All,
}
use chore_app.Models.{ChoreInstance, Database, is_pending}
use chore_app.Engine.{Engine}
use chore_app.Chores.Transitions.{dismiss_row, reassigned, completed}
use chore_app.Chores.Definitions.{is_pending_of, cancel}
use chore_app.Chores.Closings.{complete_outcome, dismiss_outcome}
use chore_app.Chores.Outcomes.{reassign_outcome}
use chore_app.Chores.Series.{delete_outcome, create_outcome, hide_outcome, update_outcome}
use chore_app.Chores.Reassigning.{IsReassigned, Changes-IsReassigned, IsAssigned-IsReassigned}
use chore_app.Members.Leaving.{Leaves, remove_outcome, leave_outcome}
use chore_app.Scheduler.{is_late, flag}
use chore_app.Scheduler.Daily.{Runs, run_daily_job_outcome}
use chore_app.Chores.Requests.{
  Call, create, delete, complete_one, dismiss, reassign, hide, update, remove, leave, daily, serve,
  IsFresh, Run, done, next,
}
use chore_app.Chores.Accounting.{IsSettled}
use chore_app.Chores.Settled.{found_live, pending_live, late_live, serve-IsSettled}
use chore_app.Chores.Evolution.{
  Grows, Grows-refl, Grows-trans, Grows-snoc, Grows-update_where, closing-Evolves,
}

abbrev IsHistory : Database → Database → Type 0
IsHistory db after = Grows db.instances after.instances

-- A change of assignees of open rows.
Grows-reassigned : (l m : List ChoreInstance) → All₂ IsReassigned l m → Grows l m
Grows-reassigned [] m h = tt
Grows-reassigned (x ∷ l) [] h = h
Grows-reassigned (x ∷ l) (y ∷ m) h = (
  record {
    same_id = ap (λ c. c.id) h.0.0;
    same_series = ap (λ c. c.definition_id) h.0.0;
    same_household = ap (λ c. c.household_id) h.0.0;
    same_due_date = ap (λ c. c.due_date) h.0.0;
    frozen = h.0.1;
    no_return = λ e. ap (λ c. is_pending c.status) h.0.0 ∙ e;
  },
  Grows-reassigned l m h.1,
)

left-IsHistory : (hid : ℕ) (db after : Database) → Leaves hid db after → IsHistory db after
left-IsHistory hid db after left =
    Grows-reassigned db.instances after.instances
      (Changes-IsReassigned left.removed hid db.instances after.instances left.rows)

run-IsHistory :
    (new_id : ℕ → ℕ) (today : ℕ) (db after : Database)
    → ((k : ℕ) → All (λ c. c.id ≢ new_id k) db.instances)
    → Runs new_id today db after
    → IsHistory db after
run-IsHistory new_id today db after unused run = rw (run.flagged) (
    Grows-trans db.instances (db.instances ++ run.added) _ (Grows-snoc db.instances run.added) (
      Grows-trans (db.instances ++ run.added) run.middle _
        (Grows-reassigned (db.instances ++ run.added) run.middle (
          IsAssigned-IsReassigned new_id (length run.added) db.instances run.added run.middle unused
            run.issued run.assigned))
        (Grows-update_where (is_late today) flag run.middle
          (λ c live. closing-Evolves flag c live (refl, refl, refl, refl) (λ _. refl))
          (late_live today run.middle))))

serve-IsHistory :
    (engine : Engine) (call : Call) (db : Database)
    → IsFresh call db
    → IsSettled db
    → IsHistory db (serve engine call db)
unfolding serve
serve-IsHistory engine (create hid body uid did iid now) db fresh h =
    elim (create_outcome engine hid body uid did iid now db) [
      | inl (x, e) ↦ rw (serve, e) (Grows-refl db.instances)
      | inr (a, after, e, made) ↦ rw (serve, e, made.instances) (Grows-snoc db.instances _)
    ]
serve-IsHistory engine (delete hid did uid) db fresh h = elim (delete_outcome hid did uid db) [
  | inl (x, e) ↦ rw (serve, e) (Grows-refl db.instances)
  | inr (a, after, e, gone) ↦
      rw (serve, e, gone.instances)
        (Grows-update_where (is_pending_of did) cancel db.instances
          (λ c live. closing-Evolves cancel c live (refl, refl, refl, refl) (λ _. refl))
          (pending_live did db.instances))
]
serve-IsHistory engine (complete_one hid iid uid entry now) db fresh h =
    elim (complete_outcome hid iid uid entry now db) [
      | inl (x, e) ↦ rw (serve, e) (Grows-refl db.instances)
      | inr (a, after, e, (m, c, d, closes, result)) ↦
          rw (serve, e, result)
            (Grows-update_where (λ r. r.id == iid) (completed d now) db.instances
              (λ r live.
                closing-Evolves (completed d now) r live (refl, refl, refl, refl) (λ _. refl))
              (found_live hid iid db closes.found closes.live h.0))
    ]
serve-IsHistory engine (dismiss hid iid uid now) db fresh h =
    elim (dismiss_outcome hid iid uid now db) [
      | inl (x, e) ↦ rw (serve, e) (Grows-refl db.instances)
      | inr (a, after, e, (m, c, d, closes, result)) ↦
          rw (serve, e, result)
            (Grows-update_where (λ r. r.id == iid) (dismiss_row now) db.instances
              (λ r live.
                closing-Evolves (dismiss_row now) r live (refl, refl, refl, refl) (λ _. refl))
              (found_live hid iid db closes.found closes.live h.0))
    ]
serve-IsHistory engine (reassign hid iid o uid) db fresh h =
    elim (reassign_outcome engine hid iid o uid db) [
      | inl (x, e) ↦ rw (serve, e) (Grows-refl db.instances)
      | inr (a, after, e, (c, moves)) ↦
          rw (serve, e, moves.instances)
            (Grows-update_where (λ r. r.id == iid) (reassigned moves.chosen moves.manually)
              db.instances
              (λ r live.
                closing-Evolves (reassigned moves.chosen moves.manually) r live
                  (refl, refl, refl, refl) (λ k. k))
              (found_live hid iid db moves.found moves.live h.0))
    ]
serve-IsHistory engine (hide hid did uid) db fresh h = elim (hide_outcome hid did uid db) [
  | inl (x, e) ↦ rw (serve, e) (Grows-refl db.instances)
  | inr (a, after, e, same) ↦ rw (serve, e, same.instances) (Grows-refl db.instances)
]
serve-IsHistory engine (update hid did body uid) db fresh h =
    elim (update_outcome hid did body uid db) [
      | inl (x, e) ↦ rw (serve, e) (Grows-refl db.instances)
      | inr (a, after, e, same) ↦ rw (serve, e, same.instances) (Grows-refl db.instances)
    ]
serve-IsHistory engine (remove hid uid cur) db fresh h =
    elim (remove_outcome engine hid db h.0 uid cur) [
      | inl (x, e) ↦ rw (serve, e) (Grows-refl db.instances)
      | inr (a, after, e, left) ↦ rw (serve, e) (left-IsHistory hid db after left)
    ]
serve-IsHistory engine (leave hid uid) db fresh h = elim (leave_outcome engine hid db h.0 uid) [
  | inl (x, e) ↦ rw (serve, e) (Grows-refl db.instances)
  | inr (a, after, e, left) ↦ rw (serve, e) (left-IsHistory hid db after left)
]
serve-IsHistory engine (daily add_months new_id days_ahead grace_days acquired today now) db fresh
      h =
    elim (run_daily_job_outcome engine add_months new_id days_ahead grace_days today now db fresh.0
      fresh.1 h.0 acquired) [
        | inl e ↦ rw (serve, e) (Grows-refl db.instances)
        | inr run ↦ run-IsHistory new_id today db _ fresh.1 run
      ]

-- Along every run, from a settled database, of the requests that create, change, hide, delete,
-- complete, dismiss or reassign a chore, of removals and departures of members, and of daily jobs,
-- the table of the instances only grows at its end, each row keeps its key, series, household and
-- due date, a completed, cancelled or dismissed row never changes again in any column, and no row
-- goes back to pending. New instances get identifiers that are new. The deletion of a household or
-- of an account is not part of such a run.
pub Run-Grows :
    (engine : Engine) {db after : Database}
    → Run engine db after
    → IsSettled db
    → Grows db.instances after.instances
Run-Grows engine {db = db} done h = Grows-refl db.instances
Run-Grows engine {db = db} {after = after} (next call fresh rest) h =
    Grows-trans db.instances (serve engine call db).instances after.instances
      (serve-IsHistory engine call db fresh h)
      (Run-Grows engine rest (serve-IsSettled engine call db fresh h))

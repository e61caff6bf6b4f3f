-- ===== src/Chores/Settled.antt =====
-- backend/app/api/chores.py: the ledger of points beside the instances, along a run of requests and
-- daily jobs.
use chore_app.Base.{
  length, is_some_eq, ◌≢◌, IsKeyed-snoc, All-snoc, ℕ, ◌≡◌, refl, sym, ap, ◌∙◌, ◌≢◌, inl, inr, Bool,
  true, false, List, [], ◌∷◌, ◌++◌, arith, ◌==◌, update_where, All, All-map, All-map₂, IsKeyed,
  map-key-update_where,
}
use chore_app.Models.{ChoreDefinition, ChoreInstance, PointLedger, Database, is_terminal}
use chore_app.Engine.{Engine}
use chore_app.Chores.Responses.{instance_rows}
use chore_app.Chores.Transitions.{dismiss_row, reassigned, completed, credited}
use chore_app.Chores.Definitions.{first_instance, is_pending_of, cancel}
use chore_app.Chores.Closings.{after_completion, complete_outcome, dismiss_outcome}
use chore_app.Chores.Outcomes.{reassign_outcome}
use chore_app.Chores.Series.{delete_outcome, create_outcome, hide_outcome, update_outcome}
use chore_app.Chores.Reassigning.{
  Changes-IsReassigned, IsAssigned-IsReassigned, IsReassigned-Settles, issued-Settles,
}
use chore_app.Members.Leaving.{Leaves, remove_outcome, leave_outcome}
use chore_app.Scheduler.{is_late, flag}
use chore_app.Scheduler.Daily.{Runs, run_daily_job_outcome}
use chore_app.Chores.Requests.{
  Call, create, delete, complete_one, dismiss, reassign, hide, update, remove, leave, daily, serve,
  IsFresh, Run, done, next,
}
use chore_app.Chores.Accounting.{
  payments, owed, Settles, IsSettled, payments-fresh, owed_open, All-updated, found_id, found_only,
  credited_other, credited_own,
}

-- An update of rows that are open before and owed nothing after.
update-IsSettled :
    (p : ChoreInstance → Bool) (f : ChoreInstance → ChoreInstance) (L : List PointLedger)
    (l : List ChoreInstance)
    → ((c : ChoreInstance) → (f c).id ≡ c.id)
    → ((c : ChoreInstance) → is_terminal c.status ≡ false → owed (f c) ≡ [])
    → All (λ c. p c ≡ true → is_terminal c.status ≡ false) l
    → IsKeyed (λ c. c.id) l × All (Settles L) l
    → IsKeyed (λ c. c.id) (update_where p f l) × All (Settles L) (update_where p f l)
update-IsSettled p f L l keeps unpaid live h = (
  rw (map-key-update_where (λ c. c.id) p f l keeps) h.0,
  All-updated {P = λ c. Settles L c × (p c ≡ true → is_terminal c.status ≡ false)} p f l
      (λ c e both.
        ap (λ i. payments i L) (keeps c)
        ∙ both.0
        ∙ owed_open c (both.1 e)
        ∙ sym (unpaid c (both.1 e)))
      (λ c e both. both.0) (All-map₂ (λ c s e. (s, e)) l h.1 live),
)

module _ (hid iid : ℕ) (db : Database) {c : ChoreInstance}
    (found : instance_rows hid iid db ≡ c ∷ []) (live : is_terminal c.status ≡ false)
    (keyed : IsKeyed (λ r. r.id) db.instances) where
  pub found_live : All (λ r. (r.id == iid) ≡ true → is_terminal r.status ≡ false) db.instances
  found_live =
      All-map (λ r only e. rw (only e) live) db.instances (found_only hid iid db found keyed)

  completion-IsSettled :
      (entry now : ℕ) (d : ChoreDefinition)
      → All (Settles db.ledger) db.instances
      → IsSettled (after_completion hid iid entry now c d db)
  completion-IsSettled entry now d h = (
    rw
        (map-key-update_where (λ r. r.id) (λ r. r.id == iid) (completed d now) db.instances
          (λ r. refl))
        keyed,
    All-updated {P = λ r. Settles db.ledger r × ((r.id == iid) ≡ true → r ≡ c)} (λ r. r.id == iid)
        (completed d now) db.instances (λ r e both. own r (both.1 e) both.0)
        (λ r e both. credited_other c.assignee_id entry hid iid now r.id d db.ledger e ∙ both.0)
        (All-map₂ (λ r s e. (s, e)) db.instances h (found_only hid iid db found keyed)),
  )
    where
      own :
          (r : ChoreInstance)
          → r ≡ c
          → Settles db.ledger r
          → Settles (credited c.assignee_id entry hid iid d now db.ledger) (completed d now r)
      own r e s =
          rw (e, found_id hid iid db found)
            (credited_own c.assignee_id entry hid iid now d db.ledger
              (rw (e, found_id hid iid db found) at s ∙ owed_open c live))

pub pending_live :
    (did : ℕ) (l : List ChoreInstance)
    → All (λ c. is_pending_of did c ≡ true → is_terminal c.status ≡ false) l
pending_live did [] = tt
pending_live did (c ∷ l) = (λ e. ground arith, pending_live did l)

left-IsSettled :
    (hid : ℕ) (db after : Database) → Leaves hid db after → IsSettled db → IsSettled after
left-IsSettled hid db after left h = rw (left.ledger) (
    IsReassigned-Settles db.ledger db.instances after.instances h
      (Changes-IsReassigned left.removed hid db.instances after.instances left.rows))

pub late_live :
    (today : ℕ) (l : List ChoreInstance)
    → All (λ c. is_late today c ≡ true → is_terminal c.status ≡ false) l
late_live today [] = tt
late_live today (c ∷ l) = (λ e. ground arith, late_live today l)

run-IsSettled :
    (new_id : ℕ → ℕ) (today : ℕ) (db after : Database)
    → ((k : ℕ) → All (λ c. c.id ≢ new_id k) db.instances)
    → ((k : ℕ) → All (λ e. is_some_eq e.chore_instance_id (new_id k) ≡ false) db.ledger)
    → Runs new_id today db after
    → IsSettled db
    → IsSettled after
run-IsSettled new_id today db after unused unpaid run h =
    rw (run.flagged, run.ledger)
      (update-IsSettled (is_late today) flag db.ledger run.middle (λ c. refl) (λ c _. refl)
        (late_live today run.middle)
        (IsReassigned-Settles db.ledger (db.instances ++ run.added) run.middle
          (
            run.keyed,
            issued-Settles new_id (length run.added) db.ledger db.instances run.added unpaid
                run.issued h.1,
          )
          (IsAssigned-IsReassigned new_id (length run.added) db.instances run.added run.middle
            unused run.issued run.assigned)))

pub serve-IsSettled :
    (engine : Engine) (call : Call) (db : Database)
    → IsFresh call db
    → IsSettled db
    → IsSettled (serve engine call db)
unfolding serve
serve-IsSettled engine (create hid body uid did iid now) db fresh h =
    elim (create_outcome engine hid body uid did iid now db) [
      | inl (x, e) ↦ rw (serve, e) h
      | inr (a, after, e, made) ↦
          let first =
            first_instance hid did made.assignee made.manually body.first_due_date iid now in
          rw (serve, e, made.instances, made.ledger)
            (
              IsKeyed-snoc (λ c. c.id) db.instances first h.0 fresh.0,
              All-snoc (Settles db.ledger) db.instances first h.1
                  (payments-fresh iid db.ledger fresh.1),
            )
    ]
serve-IsSettled engine (delete hid did uid) db fresh h = elim (delete_outcome hid did uid db) [
  | inl (x, e) ↦ rw (serve, e) h
  | inr (a, after, e, gone) ↦
      rw (serve, e, gone.instances, gone.ledger)
        (update-IsSettled (is_pending_of did) cancel db.ledger db.instances (λ c. refl)
          (λ c _. refl) (pending_live did db.instances) h)
]
serve-IsSettled engine (complete_one hid iid uid entry now) db fresh h =
    elim (complete_outcome hid iid uid entry now db) [
      | inl (x, e) ↦ rw (serve, e) h
      | inr (a, after, e, (m, c, d, closes, result)) ↦
          rw (serve, e, result)
            (completion-IsSettled hid iid db closes.found closes.live h.0 entry now d h.1)
    ]
serve-IsSettled engine (dismiss hid iid uid now) db fresh h =
    elim (dismiss_outcome hid iid uid now db) [
      | inl (x, e) ↦ rw (serve, e) h
      | inr (a, after, e, (m, c, d, closes, result)) ↦
          rw (serve, e, result)
            (update-IsSettled (λ r. r.id == iid) (dismiss_row now) db.ledger db.instances
              (λ r. refl) (λ r _. refl) (found_live hid iid db closes.found closes.live h.0) h)
    ]
serve-IsSettled engine (reassign hid iid o uid) db fresh h =
    elim (reassign_outcome engine hid iid o uid db) [
      | inl (x, e) ↦ rw (serve, e) h
      | inr (a, after, e, (c, moves)) ↦
          rw (serve, e, moves.instances, moves.ledger)
            (update-IsSettled (λ r. r.id == iid) (reassigned moves.chosen moves.manually) db.ledger
              db.instances (λ r. refl)
              (λ r live. owed_open (reassigned moves.chosen moves.manually r) live)
              (found_live hid iid db moves.found moves.live h.0) h)
    ]
serve-IsSettled engine (hide hid did uid) db fresh h = elim (hide_outcome hid did uid db) [
  | inl (x, e) ↦ rw (serve, e) h
  | inr (a, after, e, same) ↦ rw (serve, e, same.instances, same.ledger) h
]
serve-IsSettled engine (update hid did body uid) db fresh h =
    elim (update_outcome hid did body uid db) [
      | inl (x, e) ↦ rw (serve, e) h
      | inr (a, after, e, same) ↦ rw (serve, e, same.instances, same.ledger) h
    ]
serve-IsSettled engine (remove hid uid cur) db fresh h =
    elim (remove_outcome engine hid db h.0 uid cur) [
      | inl (x, e) ↦ rw (serve, e) h
      | inr (a, after, e, left) ↦ rw (serve, e) (left-IsSettled hid db after left h)
    ]
serve-IsSettled engine (leave hid uid) db fresh h = elim (leave_outcome engine hid db h.0 uid) [
  | inl (x, e) ↦ rw (serve, e) h
  | inr (a, after, e, left) ↦ rw (serve, e) (left-IsSettled hid db after left h)
]
serve-IsSettled engine (daily add_months new_id days_ahead grace_days acquired today now) db fresh
      h =
    elim (run_daily_job_outcome engine add_months new_id days_ahead grace_days today now db fresh.0
      fresh.1 h.0 acquired) [
        | inl e ↦ rw (serve, e) h
        | inr run ↦ run-IsSettled new_id today db _ fresh.1 fresh.2 run h
      ]

-- Along every run of requests and daily jobs the ledger holds, for each instance, exactly the
-- payments its row promises: one entry that credits `points_awarded` to the assignee if the
-- instance is complete and has both, and no entry otherwise; and the keys of the instances stay
-- distinct. The run starts from such a database, and new instances get identifiers that are new.
-- The run is made of the requests that create, change, hide, delete, complete, dismiss or reassign
-- a chore, of removals and departures of members, and of daily jobs, with any outcomes.
pub Run-IsSettled :
    (engine : Engine) {db after : Database} → Run engine db after → IsSettled db → IsSettled after
Run-IsSettled engine done h = h
Run-IsSettled engine {db = db} (next call fresh rest) h =
    Run-IsSettled engine rest (serve-IsSettled engine call db fresh h)

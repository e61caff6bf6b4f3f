-- ===== src/Chores/Series.antt =====
-- What creating and deleting a series, backend/app/api/chores.py, does to the instances and the
-- ledger, on each outcome.
use chore_app.Base.{
  none, true, ◌||◌, ℕ, ◌≡◌, refl, inl, inr, Bool, false, ◌&&◌, Option, some, List, [], ◌∷◌, ◌++◌,
  Bool-cases, is_none, update_where,
}
use chore_app.Models.{ChoreDefinition, Database, is_recurring}
use chore_app.Session.{conflict, Session, not_found, unprocessable, multiple_results, get_db}
use chore_app.Engine.{Engine}
use chore_app.Deps.Outcomes.{Checks, require_admin-Checks}
use chore_app.Chores.Responses.{instance_response_from_row}
use chore_app.Chores.Transitions.{choose_assignee}
use chore_app.Chores.Definitions.{
  definition_response, ChoreUpdate, hide_chore_template, update_chore_definition, is_null, patched,
  ChoreCreate, new_definition, first_instance, create_chore, definitions_of, load_definition,
  is_pending_of, cancel, delete_chore_definition, with_definition,
}
use chore_app.Session.Outcomes.{Serves, begin, Result-cases}
use chore_app.Chores.Closings.{resolve_assignee_name-Checks}
use chore_app.Chores.Outcomes.{chores_view, choose_assignee_keeps_chores}

pub load_definition-Checks :
    (hid did : ℕ) (active : Bool) (s : Session)
    → Checks
        (load_definition hid did active)
        s
        (λ d. definitions_of hid did active s.working ≡ d ∷ [])
unfolding load_definition
load_definition-Checks hid did active s = go (definitions_of hid did active s.working) refl
  where
    go :
        (rows : List ChoreDefinition)
        → definitions_of hid did active s.working ≡ rows
        → Checks
            (load_definition hid did active)
            s
            (λ d. definitions_of hid did active s.working ≡ d ∷ [])
    go [] e = inl (not_found, rw e)
    go (d ∷ []) e = inr (d, rw e, e)
    go (d ∷ k ∷ l) e = inl (multiple_results, rw e)

-- A deletion cancels the pending instances of the series, and pays nothing.
pub record Deletes (did : ℕ) (db after : Database) : Type 0 where
  pub instances : after.instances ≡ update_where (is_pending_of did) cancel db.instances
  pub ledger : after.ledger ≡ db.ledger

pub delete_outcome :
    (hid did uid : ℕ) (db : Database)
    → Serves (delete_chore_definition hid did uid) db (λ after. Deletes did db after)
unfolding get_db delete_chore_definition
delete_outcome hid did uid db = elim (require_admin-Checks hid uid (begin db)) [
  | inl (x, refused) ↦ inl (x, rw refused)
  | inr (m, granted, _) ↦ elim (load_definition-Checks hid did false (begin db)) [
    | inl (x, missing) ↦ inl (x, rw (granted, missing))
    | inr (d, loaded, _) ↦
        let after = (with_definition d.id (λ r. record r { is_active = false }) db) in
        inr (
          tt,
          record after { instances = update_where (is_pending_of did) cancel db.instances },
          rw (granted, loaded),
          record { instances = refl; ledger = refl },
        )
  ]
]

-- A creation adds one pending instance, and pays nothing.
pub record Creates (hid did iid now : ℕ) (body : ChoreCreate) (db after : Database) : Type 0 where
  pub assignee : Option ℕ
  pub manually : Bool
  pub instances :
      after.instances
      ≡ db.instances ++ first_instance hid did assignee manually body.first_due_date iid now ∷ []
  pub ledger : after.ledger ≡ db.ledger

abbrev with_new : ℕ → ChoreCreate → ℕ → ℕ → ℕ → Database → Database
with_new hid body uid did now db = record db {
  definitions = db.definitions ++ new_definition hid body uid did now ∷ [];
}

kept_rows :
    (s : Session) (w db : Database)
    → chores_view s ≡ chores_view (record { working = w; committed = db })
    → (s.working.instances ≡ w.instances) × (s.working.ledger ≡ w.ledger) × (s.committed ≡ db)
kept_rows s w db e = (cc, cc, cc)

pub create_outcome :
    (engine : Engine) (hid : ℕ) (body : ChoreCreate) (uid did iid now : ℕ) (db : Database)
    → Serves
        (create_chore engine hid body uid did iid now)
        db
        (λ after. Creates hid did iid now body db after)
unfolding get_db create_chore
create_outcome engine hid body uid did iid now db = elim (require_admin-Checks hid uid (begin db)) [
  | inl (x, refused) ↦ inl (x, rw refused)
  | inr (m, granted, _) ↦
      elim (Bool-cases (is_recurring body.chore_type && is_none body.recurrence_rule)) [
        | inl ruleless ↦ inl (unprocessable, rw (granted, ruleless))
        | inr ruled ↦
            let w = with_new hid body m.user_id did now db in
            let s : Session = record { working = w; committed = db } in
            let act = choose_assignee engine hid body.assignee_id in
            let keeps =
              kept_rows (act s).1 w db
                ((choose_assignee_keeps_chores engine hid body.assignee_id).at s) in
            elim (Result-cases act s) [
              | inl (x, failed) ↦ inl (x, rw (granted, ruled, failed, keeps.2))
              | inr (a, chosen) ↦
                  let first = first_instance hid did a.0 a.1 body.first_due_date iid now in
                  let after = record (act s).1.working {
                    instances = (act s).1.working.instances ++ first ∷ [];
                  } in
                  elim (resolve_assignee_name-Checks a.0 (record (act s).1 { working = after })) [
                    | inl (x, twice) ↦ inl (x, rw (granted, ruled, chosen, twice, keeps.2))
                    | inr (name, named, _) ↦ inr (
                      definition_response (new_definition hid body m.user_id did now) (
                          some (
                            instance_response_from_row first
                              (new_definition hid body m.user_id did now) name)),
                      after,
                      rw (granted, ruled, chosen, named),
                      record {
                        assignee = a.0;
                        manually = a.1;
                        instances = rw (keeps.0);
                        ledger = keeps.1;
                      },
                    )
                  ]
            ]
      ]
]

-- A change of a definition leaves the instances and the ledger alone.
pub record Keeps (db after : Database) : Type 0 where
  pub instances : after.instances ≡ db.instances
  pub ledger : after.ledger ≡ db.ledger

pub hide_outcome :
    (hid did uid : ℕ) (db : Database)
    → Serves (hide_chore_template hid did uid) db (λ after. Keeps db after)
unfolding get_db hide_chore_template
hide_outcome hid did uid db = elim (require_admin-Checks hid uid (begin db)) [
  | inl (x, refused) ↦ inl (x, rw refused)
  | inr (m, granted, _) ↦ elim (load_definition-Checks hid did true (begin db)) [
    | inl (x, missing) ↦ inl (x, rw (granted, missing))
    | inr (d, loaded, _) ↦ inr (
      tt,
      with_definition d.id (λ r. record r { hidden_from_suggestions = true }) db,
      rw (granted, loaded),
      record { instances = refl; ledger = refl },
    )
  ]
]

pub update_outcome :
    (hid did : ℕ) (body : ChoreUpdate) (uid : ℕ) (db : Database)
    → Serves (update_chore_definition hid did body uid) db (λ after. Keeps db after)
unfolding get_db update_chore_definition
update_outcome hid did body uid db = elim (require_admin-Checks hid uid (begin db)) [
  | inl (x, refused) ↦ inl (x, rw refused)
  | inr (m, granted, _) ↦ elim (load_definition-Checks hid did true (begin db)) [
    | inl (x, missing) ↦ inl (x, rw (granted, missing))
    | inr (d, loaded, _) ↦
        elim (Bool-cases
          (is_null body.title || is_null body.category || is_null body.effort_level)) [
            | inl nulled ↦ inl (conflict, rw (granted, loaded, nulled))
            | inr fits ↦ inr (
              definition_response (patched body d) none,
              with_definition d.id (patched body) db,
              rw (granted, loaded, fits),
              record { instances = refl; ledger = refl },
            )
          ]
  ]
]

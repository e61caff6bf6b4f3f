-- ===== src/Chores/Outcomes.antt =====
-- What the handlers of backend/app/api/chores.py that close or reassign one instance do to the rows
-- of the chores, on each of their outcomes.
use chore_app.Base.{
  arith, ℕ, ◌≡◌, refl, inl, inr, Bool, false, Option, none, some, List, [], ◌∷◌, Bool-cases,
  update_where, ◌==◌,
}
use chore_app.Models.{
  HouseholdMembership, ChoreDefinition, ChoreInstance, PointLedger, Database, is_terminal,
}
use chore_app.Session.{Session, ok, not_found, conflict, multiple_results, get_db}
use chore_app.Session.Outcomes.{Serves, begin, Result-cases}
use chore_app.Session.Preserves.{Preserves, preserves_rules}
use chore_app.Engine.{Engine}
use chore_app.Assignment.{assign}
use chore_app.Deps.Outcomes.{require_admin-Checks}
use chore_app.Deps.{require_admin}
use chore_app.Chores.Responses.{instance_rows, with_instance, instance_response_from_row}
use chore_app.Chores.Transitions.{reassigned, require_assignable, choose_assignee, reassign_chore}
use chore_app.Chores.Closings.{definition_or_422-Checks, resolve_assignee_name-Checks}

-- The rows of the chores and of the ledger, and what is committed.
abbrev pub chores_view :
    Session → List ChoreInstance × List ChoreDefinition × List PointLedger × Database
chores_view s = (s.working.instances, s.working.definitions, s.working.ledger, s.committed)

assign_keeps_chores : (engine : Engine) (hid : ℕ) → Preserves chores_view (assign engine hid)
unfolding assign
assign_keeps_chores engine hid = record { at = λ s. ground arith }

require_assignable_keeps_chores : (hid a : ℕ) → Preserves chores_view (require_assignable hid a)
unfolding require_assignable
require_assignable_keeps_chores hid a = search preserves_rules depth 12

pub choose_assignee_keeps_chores :
    (engine : Engine) (hid : ℕ) (o : Option ℕ)
    → Preserves chores_view (choose_assignee engine hid o)
unfolding choose_assignee
choose_assignee_keeps_chores engine hid none =
    search (preserves_rules, assign_keeps_chores) depth 12
choose_assignee_keeps_chores engine hid (some a) =
    search (preserves_rules, require_assignable_keeps_chores) depth 12

-- The rows after a reassignment: the definitions and the ledger as before.
pub record Reassigns (hid iid : ℕ) (db after : Database) (c : ChoreInstance) : Type 0 where
  pub found : instance_rows hid iid db ≡ c ∷ []
  pub live : is_terminal c.status ≡ false
  pub chosen : Option ℕ
  pub manually : Bool
  pub instances :
      after.instances ≡ update_where (λ r. r.id == iid) (reassigned chosen manually) db.instances
  pub definitions : after.definitions ≡ db.definitions
  pub ledger : after.ledger ≡ db.ledger

pub committed_eq :
    (s : Session) (db : Database) → chores_view s ≡ chores_view (begin db) → s.committed ≡ db
committed_eq s db e = cc

working_eq :
    (s : Session) (db : Database)
    → chores_view s ≡ chores_view (begin db)
    → (s.working.instances ≡ db.instances)
      × (s.working.definitions ≡ db.definitions)
      × (s.working.ledger ≡ db.ledger)
working_eq s db e = (cc, cc, cc)

reassigns :
    (hid iid : ℕ) (db : Database) (c : ChoreInstance) (chosen : Option ℕ × Bool) (s : Session)
    → instance_rows hid iid db ≡ c ∷ []
    → is_terminal c.status ≡ false
    → chores_view s ≡ chores_view (begin db)
    → Reassigns hid iid db (with_instance iid (reassigned chosen.0 chosen.1) s.working) c
reassigns hid iid db c chosen s found live e = record {
  found = found;
  live = live;
  chosen = chosen.0;
  manually = chosen.1;
  instances = rw ((working_eq s db e).0);
  definitions = (working_eq s db e).1;
  ledger = (working_eq s db e).2;
}

pub reassign_outcome :
    (engine : Engine) (hid iid : ℕ) (o : Option ℕ) (uid : ℕ) (db : Database)
    → Serves
        (reassign_chore engine hid iid o uid)
        db
        (λ after. (c : ChoreInstance) × Reassigns hid iid db after c)
unfolding get_db reassign_chore
reassign_outcome engine hid iid o uid db = elim (require_admin-Checks hid uid (begin db)) [
  | inl (x, refused) ↦ inl (x, rw refused)
  | inr (m, granted, _) ↦ go (instance_rows hid iid db) refl m granted
]
  where
    go :
        (rows : List ChoreInstance)
        → instance_rows hid iid db ≡ rows
        → (m : HouseholdMembership) → require_admin hid uid (begin db) ≡ (ok m, begin db)
        → Serves
            (reassign_chore engine hid iid o uid)
            db
            (λ after. (c : ChoreInstance) × Reassigns hid iid db after c)
    go [] e m granted = inl (not_found, rw (granted, e))
    go (c ∷ k ∷ l) e m granted = inl (multiple_results, rw (granted, e))
    go (c ∷ []) e m granted = elim (Bool-cases (is_terminal c.status)) [
      | inl closed ↦ inl (conflict, rw (granted, e, closed))
      | inr live ↦
          let keeps = (choose_assignee_keeps_chores engine hid o).at (begin db) in
          elim (Result-cases (choose_assignee engine hid o) (begin db)) [
            | inl (x, failed) ↦ inl (
              x,
              rw (
                granted,
                e,
                live,
                failed,
                committed_eq (choose_assignee engine hid o (begin db)).1 db keeps,
              ),
            )
            | inr (a, chosen) ↦
                let s = (choose_assignee engine hid o (begin db)).1 in
                let w = with_instance iid (reassigned a.0 a.1) s.working in
                let s' = record s { working = w } in
                elim (definition_or_422-Checks c s') [
                  | inl (x, undefined) ↦
                      inl (x, rw (granted, e, live, chosen, undefined, committed_eq s db keeps))
                  | inr (d, defines, _) ↦ elim (resolve_assignee_name-Checks a.0 s') [
                    | inl (x, twice) ↦
                        inl (
                          x,
                          rw (granted, e, live, chosen, defines, twice, committed_eq s db keeps),
                        )
                    | inr (name, named, _) ↦ inr (
                      instance_response_from_row (reassigned a.0 a.1 c) d name,
                      w,
                      rw (granted, e, live, chosen, defines, named),
                      (c, reassigns hid iid db c a s e live keeps),
                    )
                  ]
                ]
          ]
    ]

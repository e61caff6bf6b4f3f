-- ===== src/Chores/Closings.antt =====
-- The outcomes of completing and dismissing an instance in backend/app/api/chores.py, and of the
-- lookups that the handlers share.
use chore_app.Base.{
  ℕ, ◌≡◌, refl, inl, inr, true, false, Option, none, some, List, [], ◌∷◌, filter, Bool-cases,
  update_where, ◌==◌,
}
use chore_app.Models.{
  HouseholdMembership, ChoreDefinition, ChoreInstance, Database, User, is_terminal,
}
use chore_app.Session.{
  Session, not_found, forbidden, conflict, unprocessable, multiple_results, get_db,
}
use chore_app.Session.Outcomes.{Serves, begin}
use chore_app.Deps.Outcomes.{Checks, own_rows, require_household_member-Checks}
use chore_app.Chores.Responses.{
  instance_rows, definition_rows, with_instance, definition_or_422, resolve_assignee_name,
  instance_response_from_row,
}
use chore_app.Chores.Transitions.{
  may_close, load_instance_for_terminal_transition, completed, credited, complete_chore_instance,
  dismiss_row, dismiss_chore_instance,
}

pub load_instance-Checks :
    (hid iid uid : ℕ) (m : HouseholdMembership) (s : Session)
    → Checks (load_instance_for_terminal_transition hid iid uid m) s (λ c.
      (instance_rows hid iid s.working ≡ c ∷ [])
      × (may_close uid m c ≡ true)
      × (is_terminal c.status ≡ false))
unfolding load_instance_for_terminal_transition
load_instance-Checks hid iid uid m s = go (instance_rows hid iid s.working) refl
  where
    go :
        (rows : List ChoreInstance)
        → instance_rows hid iid s.working ≡ rows
        → Checks (load_instance_for_terminal_transition hid iid uid m) s (λ c.
          (instance_rows hid iid s.working ≡ c ∷ [])
          × (may_close uid m c ≡ true)
          × (is_terminal c.status ≡ false))
    go [] e = inl (not_found, rw e)
    go (c ∷ []) e = elim (Bool-cases (may_close uid m c)) [
      | inr refused ↦ inl (forbidden, rw (e, refused))
      | inl allowed ↦ elim (Bool-cases (is_terminal c.status)) [
        | inl closed ↦ inl (conflict, rw (e, allowed, closed))
        | inr live ↦ inr (c, rw (e, allowed, live), (e, allowed, live))
      ]
    ]
    go (c ∷ k ∷ l) e = inl (multiple_results, rw e)

pub definition_or_422-Checks :
    (c : ChoreInstance) (s : Session)
    → Checks (definition_or_422 c) s (λ d. definition_rows c s.working ≡ d ∷ [])
unfolding definition_or_422
definition_or_422-Checks c s = go (definition_rows c s.working) refl
  where
    go :
        (rows : List ChoreDefinition)
        → definition_rows c s.working ≡ rows
        → Checks (definition_or_422 c) s (λ d. definition_rows c s.working ≡ d ∷ [])
    go [] e = inl (unprocessable, rw e)
    go (d ∷ []) e = inr (d, rw e, e)
    go (d ∷ k ∷ l) e = inl (multiple_results, rw e)

pub resolve_assignee_name-Checks :
    (o : Option ℕ) (s : Session) → Checks (resolve_assignee_name o) s (λ _. Unit {0})
unfolding resolve_assignee_name
resolve_assignee_name-Checks none s = inr (none, refl, tt)
resolve_assignee_name-Checks (some i) s = go (filter (λ u. u.id == i) s.working.users) refl
  where
    go :
        (rows : List User)
        → filter (λ u. u.id == i) s.working.users ≡ rows
        → Checks (resolve_assignee_name (some i)) s (λ _. Unit {0})
    go [] e = inr (none, rw e, tt)
    go (u ∷ []) e = inr (some u.display_name, rw e, tt)
    go (u ∷ k ∷ l) e = inl (multiple_results, rw e)

-- The database after a completion of `c`.
abbrev pub after_completion : ℕ → ℕ → ℕ → ℕ → ChoreInstance → ChoreDefinition → Database → Database
after_completion hid iid entry now c d db = record db {
  instances = update_where (λ r. r.id == iid) (completed d now) db.instances;
  ledger = credited c.assignee_id entry hid iid d now db.ledger;
}

-- What a completion has found: the caller's membership `m`, the instance `c` and its definition
-- `d`.
pub record Closes (hid iid uid : ℕ) (db : Database) (m : HouseholdMembership) (c : ChoreInstance)
    (d : ChoreDefinition) : Type 0 where
  pub is_member : own_rows hid uid (begin db) ≡ m ∷ []
  pub found : instance_rows hid iid db ≡ c ∷ []
  pub allowed : may_close uid m c ≡ true
  pub live : is_terminal c.status ≡ false
  pub defined : definition_rows c db ≡ d ∷ []

pub complete_outcome :
    (hid iid uid entry now : ℕ) (db : Database)
    → Serves (complete_chore_instance hid iid uid entry now) db (λ after.
      (m : HouseholdMembership) × (c : ChoreInstance) × (d : ChoreDefinition) × Closes hid iid uid
        db m c d
      × (after ≡ after_completion hid iid entry now c d db))
unfolding get_db complete_chore_instance
complete_outcome hid iid uid entry now db =
    elim (require_household_member-Checks hid uid (begin db)) [
      | inl (x, refused) ↦ inl (x, rw refused)
      | inr (m, granted, own) ↦ elim (load_instance-Checks hid iid uid m (begin db)) [
        | inl (x, missing) ↦ inl (x, rw (granted, missing))
        | inr (c, loaded, (found, may, live)) ↦ elim (definition_or_422-Checks c (begin db)) [
          | inl (x, undefined) ↦ inl (x, rw (granted, loaded, undefined))
          | inr (d, defines, defined) ↦
              elim (resolve_assignee_name-Checks c.assignee_id
                (record { working = after_completion hid iid entry now c d db; committed = db })) [
                  | inl (x, twice) ↦ inl (x, rw (granted, loaded, defines, twice))
                  | inr (name, named, _) ↦ inr (
                    instance_response_from_row (completed d now c) d name,
                    after_completion hid iid entry now c d db,
                    rw (granted, loaded, defines, named),
                    (
                      m,
                      c,
                      d,
                      record {
                        is_member = own;
                        found = found;
                        allowed = may;
                        live = live;
                        defined = defined;
                      },
                      refl,
                    ),
                  )
                ]
        ]
      ]
    ]

pub dismiss_outcome :
    (hid iid uid now : ℕ) (db : Database)
    → Serves (dismiss_chore_instance hid iid uid now) db (λ after.
      (m : HouseholdMembership) × (c : ChoreInstance) × (d : ChoreDefinition) × Closes hid iid uid
        db m c d
      × (after ≡ with_instance iid (dismiss_row now) db))
unfolding get_db dismiss_chore_instance
dismiss_outcome hid iid uid now db = elim (require_household_member-Checks hid uid (begin db)) [
  | inl (x, refused) ↦ inl (x, rw refused)
  | inr (m, granted, own) ↦ elim (load_instance-Checks hid iid uid m (begin db)) [
    | inl (x, missing) ↦ inl (x, rw (granted, missing))
    | inr (c, loaded, (found, may, live)) ↦ elim (definition_or_422-Checks c (begin db)) [
      | inl (x, undefined) ↦ inl (x, rw (granted, loaded, undefined))
      | inr (d, defines, defined) ↦
          elim (resolve_assignee_name-Checks c.assignee_id
            (record { working = with_instance iid (dismiss_row now) db; committed = db })) [
              | inl (x, twice) ↦ inl (x, rw (granted, loaded, defines, twice))
              | inr (name, named, _) ↦ inr (
                instance_response_from_row (dismiss_row now c) d name,
                with_instance iid (dismiss_row now) db,
                rw (granted, loaded, defines, named),
                (
                  m,
                  c,
                  d,
                  record {
                    is_member = own;
                    found = found;
                    allowed = may;
                    live = live;
                    defined = defined;
                  },
                  refl,
                ),
              )
            ]
    ]
  ]
]

-- ===== src/Members/Leaving.antt =====
-- backend/app/api/members.py: what a removal or a departure does to the chores and the ledger, on
-- each outcome.
use chore_app.Base.{ℕ, ◌≡◌, inl, inr, ◌==◌, IsKeyed}
use chore_app.Models.{Database, is_admin}
use chore_app.Session.{Session, get_db}
use chore_app.Session.Outcomes.{Serves, begin, Result-cases}
use chore_app.Engine.{Engine}
use chore_app.Deps.Outcomes.{require_household_member-Checks, require_admin-Checks}
use chore_app.Redistribution.{is_open_of, redistribute_chores_for_removed_member}
use chore_app.Redistribution.Closed.{Changes, Touches, redistribute-Touches}
use chore_app.Members.{with_membership, deactivate, remove_member, leave_household}
use chore_app.Members.Guards.{load_member-Checks, refuse_sole_admin-Checks}

-- A member is gone: open chores of the member in the household may have another assignee, and no
-- other chore changes, nor does the ledger.
pub record Leaves (hid : ℕ) (db after : Database) : Type 0 where
  pub removed : ℕ
  pub rows : Changes (is_open_of removed hid) db.instances after.instances
  pub ledger : after.ledger ≡ db.ledger

module _ (engine : Engine) (hid : ℕ) (db : Database)
    (keyed : IsKeyed (λ c. c.id) db.instances) where
  abbrev left_by : ℕ → Session
  left_by membership_id = record {
    working = with_membership membership_id deactivate db;
    committed = db;
  }

  redistributed :
      (removed membership_id : ℕ)
      → Touches
          (is_open_of removed hid)
          (left_by membership_id)
          (redistribute_chores_for_removed_member engine removed hid (left_by membership_id)).1
  redistributed removed membership_id =
      redistribute-Touches engine removed hid (left_by membership_id) keyed

  pub remove_outcome :
      (uid cur : ℕ) → Serves (remove_member engine hid uid cur) db (λ after. Leaves hid db after)
  unfolding get_db remove_member
  remove_outcome uid cur = elim (require_admin-Checks hid cur (begin db)) [
    | inl (x, refused) ↦ inl (x, rw refused)
    | inr (c, granted, _) ↦ elim (load_member-Checks hid uid (begin db)) [
      | inl (x, missing) ↦ inl (x, rw (granted, missing))
      | inr (t, loaded, _) ↦ elim (refuse_sole_admin-Checks (uid == c.user_id) hid (begin db)) [
        | inl (x, sole) ↦ inl (x, rw (granted, loaded, sole))
        | inr (_, allowed, _) ↦
            let touches = redistributed uid t.id in
            elim (Result-cases (redistribute_chores_for_removed_member engine uid hid)
              (left_by t.id)) [
                | inl (x, failed) ↦
                    inl (x, rw (granted, loaded, allowed, failed, touches.committed))
                | inr (a, done) ↦ inr (
                  a,
                  (redistribute_chores_for_removed_member engine uid hid (left_by t.id)).1.working,
                  rw (granted, loaded, allowed, done),
                  record { removed = uid; rows = touches.rows; ledger = touches.ledger },
                )
              ]
      ]
    ]
  ]

  pub leave_outcome :
      (cur : ℕ) → Serves (leave_household engine hid cur) db (λ after. Leaves hid db after)
  unfolding get_db leave_household
  leave_outcome cur = elim (require_household_member-Checks hid cur (begin db)) [
    | inl (x, refused) ↦ inl (x, rw refused)
    | inr (m, granted, _) ↦ elim (refuse_sole_admin-Checks (is_admin m.role) hid (begin db)) [
      | inl (x, sole) ↦ inl (x, rw (granted, sole))
      | inr (_, allowed, _) ↦
          let touches = redistributed m.user_id m.id in
          elim (Result-cases (redistribute_chores_for_removed_member engine m.user_id hid)
            (left_by m.id)) [
              | inl (x, failed) ↦ inl (x, rw (granted, allowed, failed, touches.committed))
              | inr (a, done) ↦ inr (
                a,
                (redistribute_chores_for_removed_member engine m.user_id hid
                    (left_by m.id)).1.working,
                rw (granted, allowed, done),
                record { removed = m.user_id; rows = touches.rows; ledger = touches.ledger },
              )
            ]
    ]
  ]

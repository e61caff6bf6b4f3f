-- ===== src/Households/Seats.antt =====
-- The memberships and the identifiers of the households across the requests to backend/app/api.
use chore_app.Base.{ℕ, ◌≡◌, refl, ap, ◌⊎◌, inl, inr, true, ◌&&◌, map, arith, ◌==◌, update_where}
use chore_app.Models.{Role, HouseholdMembership, Database, is_active_of, is_admin}
use chore_app.Session.{Session, Result, ok, err, Action, finish, get_db}
use chore_app.Session.Preserves.{Preserves, preserves_rules}
use chore_app.Session.Outcomes.{begin}
use chore_app.Engine.{Engine}
use chore_app.Deps.Outcomes.{require_household_member-Checks, require_admin-Checks}
use chore_app.Redistribution.{redistribute_chores_for_removed_member}
use chore_app.Redistribution.Frame.{
  members_view, redistribute_keeps_members, household_keys, redistribute-household_keys,
}
use chore_app.Members.{
  with_membership, deactivate, set_role, is_demotion, remove_member, leave_household,
  update_member_role, role_response,
}
use chore_app.Members.Admins.{answer_keeps_members}
use chore_app.Members.Guards.{load_member-Checks, refuse_sole_admin-Checks}

-- A change of one membership that keeps its key, and makes nobody a member.
pub record IsStepDown (f : HouseholdMembership → HouseholdMembership) : Type 0 where
  pub same_key : (m : HouseholdMembership) → (f m).id ≡ m.id
  pub no_new :
      (k uid : ℕ) (m : HouseholdMembership)
      → is_active_of k uid (f m) ≡ true
      → is_active_of k uid m ≡ true

-- The memberships stay, or one of them is changed; the households stay, but for their pointers.
pub record Reseats (db after : Database) : Type 0 where
  pub households : map (λ h. h.id) after.households ≡ map (λ h. h.id) db.households
  pub memberships :
      (after.memberships ≡ db.memberships)
      ⊎ ((t : ℕ) × (f : HouseholdMembership → HouseholdMembership) × IsStepDown f
          × (after.memberships ≡ update_where (λ m. m.id == t) f db.memberships))

same_seats : (db : Database) → Reseats db db
same_seats db = record { households = refl; memberships = inl refl }

pub deactivate-IsStepDown : IsStepDown deactivate
deactivate-IsStepDown = record { same_key = λ m. refl; no_new = λ k uid m h. ground arith }

set_role-IsStepDown : (role : Role) → IsStepDown (set_role role)
set_role-IsStepDown role = record { same_key = λ m. refl; no_new = λ k uid m h. h }

-- The end of a request that has changed one membership.
finish-Reseats :
    {A : Type 0} (m : Action A) (t : ℕ) (f : HouseholdMembership → HouseholdMembership)
    (db : Database)
    → Preserves members_view m
    → Preserves household_keys m
    → IsStepDown f
    → let (r, s') = m (record { working = with_membership t f db; committed = db }) in
      Reseats db (finish r s').1
finish-Reseats {A} m t f db keeps keys down = go (m s).0 (m s).1 (keeps.at s) (keys.at s)
  where
    s : Session
    s = record { working = with_membership t f db; committed = db }

    go :
        (r : Result A) (s' : Session)
        → members_view s' ≡ members_view s
        → household_keys s' ≡ household_keys s
        → Reseats db (finish r s').1
    go (ok a) s' e k = record { households = k; memberships = inr (t, f, down, ap (λ v. v.0) e) }
    go (err x) s' e k = rw (ap (λ v. v.1) e) (same_seats db)

pub remove_member-Reseats :
    (engine : Engine) (hid uid cur : ℕ) (db : Database)
    → Reseats db (get_db (remove_member engine hid uid cur) db).1
unfolding get_db remove_member
remove_member-Reseats engine hid uid cur db = elim (require_admin-Checks hid cur (begin db)) [
  | inl (x, refused) ↦ rw refused (same_seats db)
  | inr (c, granted, _) ↦ elim (load_member-Checks hid uid (begin db)) [
    | inl (x, missing) ↦ rw (granted, missing) (same_seats db)
    | inr (t, loaded, found) ↦ elim (refuse_sole_admin-Checks (uid == c.user_id) hid (begin db)) [
      | inl (x, sole) ↦ rw (granted, loaded, sole) (same_seats db)
      | inr (_, allowed, guard) ↦
          rw (granted, loaded, allowed)
            (finish-Reseats (redistribute_chores_for_removed_member engine uid hid) t.id deactivate
              db (redistribute_keeps_members engine hid uid)
              (redistribute-household_keys engine hid uid) deactivate-IsStepDown)
    ]
  ]
]

pub leave_household-Reseats :
    (engine : Engine) (hid cur : ℕ) (db : Database)
    → Reseats db (get_db (leave_household engine hid cur) db).1
unfolding get_db leave_household
leave_household-Reseats engine hid cur db =
    elim (require_household_member-Checks hid cur (begin db)) [
      | inl (x, refused) ↦ rw refused (same_seats db)
      | inr (t, granted, own) ↦ elim (refuse_sole_admin-Checks (is_admin t.role) hid (begin db)) [
        | inl (x, sole) ↦ rw (granted, sole) (same_seats db)
        | inr (_, allowed, guard) ↦
            rw (granted, allowed)
              (finish-Reseats (redistribute_chores_for_removed_member engine t.user_id hid) t.id
                deactivate db (redistribute_keeps_members engine hid t.user_id)
                (redistribute-household_keys engine hid t.user_id) deactivate-IsStepDown)
      ]
    ]

answer_keeps_households :
    (uid : ℕ) (t : HouseholdMembership) (role : Role)
    → Preserves household_keys (role_response uid t role)
unfolding role_response
answer_keeps_households uid t role = search preserves_rules depth 8

pub update_member_role-Reseats :
    (hid uid : ℕ) (role : Role) (cur : ℕ) (db : Database)
    → Reseats db (get_db (update_member_role hid uid role cur) db).1
unfolding get_db update_member_role
update_member_role-Reseats hid uid role cur db = elim (require_admin-Checks hid cur (begin db)) [
  | inl (x, refused) ↦ rw refused (same_seats db)
  | inr (c, granted, _) ↦ elim (load_member-Checks hid uid (begin db)) [
    | inl (x, missing) ↦ rw (granted, missing) (same_seats db)
    | inr (t, loaded, found) ↦
        elim (refuse_sole_admin-Checks (uid == c.user_id && is_demotion role) hid (begin db)) [
          | inl (x, sole) ↦ rw (granted, loaded, sole) (same_seats db)
          | inr (_, allowed, guard) ↦
              rw (granted, loaded, allowed)
                (finish-Reseats (role_response uid t role) t.id (set_role role) db
                  (answer_keeps_members uid t role) (answer_keeps_households uid t role)
                  (set_role-IsStepDown role))
        ]
  ]
]

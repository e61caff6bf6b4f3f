-- ===== src/Members/Admins.antt =====
-- backend/app/api/members.py: the admins of a household across the handlers.
use native.Mathlib.Nat.{le_trans}
use chore_app.Base.{
  ℕ, ◌≤◌, ◌≡◌, refl, ◌⊎◌, inl, inr, true, ◌&&◌, List, [], ◌∷◌, arith, ◌==◌, Bool-cases, ==_refl,
  map-key-update_where, count-le-update_where,
}
use chore_app.Models.{
  Role, admin, member, HouseholdMembership, Database, is_admin, is_active_admin_in,
}
use chore_app.Session.{finish, get_db}
use chore_app.Session.Preserves.{Preserves, preserves_rules}
use chore_app.Engine.{Engine}
use chore_app.Redistribution.{redistribute_chores_for_removed_member}
use chore_app.Redistribution.Frame.{members_view, redistribute_keeps_members}
use chore_app.Session.Outcomes.{begin}
use chore_app.Deps.Outcomes.{own_rows, require_household_member-Checks, require_admin-Checks}
use chore_app.Members.{
  count_active_admins, with_membership, deactivate, set_role, is_demotion, remove_member,
  leave_household, update_member_role, role_response,
}
use chore_app.Members.Guards.{
  HasAdmin, IsGuarded, load_member-Checks, refuse_sole_admin-Checks, KeepsOwner, other_admin_stays,
  count_without_admin, keeps_admin, finish_keeps, deactivate-KeepsOwner, set_role-KeepsOwner,
  deactivate_demotes, set_role_demotes, own_user,
}

module _ (engine : Engine) (hid uid k : ℕ) (db : Database) {t : HouseholdMembership}
    (guarded : IsGuarded k db) (found : own_rows hid uid (begin db) ≡ t ∷ []) where
  -- What a handler has checked before it takes an admin away.
  abbrev IsSafe : (HouseholdMembership → HouseholdMembership) → Type 0
  IsSafe f = (HasAdmin hid (with_membership t.id f db)) ⊎ (2 ≤ count_active_admins hid db)

  -- The end of `remove_member` and `leave_household`.
  leaving :
      HasAdmin k (with_membership t.id deactivate db)
      → let (r, s') =
          redistribute_chores_for_removed_member engine uid hid
            (record { working = with_membership t.id deactivate db; committed = db }) in
        IsGuarded k (finish r s').1
  leaving w =
      finish_keeps k (redistribute_chores_for_removed_member engine uid hid)
        (record { working = with_membership t.id deactivate db; committed = db })
        (redistribute_keeps_members engine hid uid)
        (
          rw
              (map-key-update_where (λ m. m.id) (λ m. m.id == t.id) deactivate db.memberships
                (λ m. refl))
              guarded.0,
          w,
        )
        guarded

  deactivate-HasAdmin : IsSafe deactivate → HasAdmin k (with_membership t.id deactivate db)
  deactivate-HasAdmin safe =
      keeps_admin hid uid db.memberships deactivate deactivate-KeepsOwner guarded.0 found k
        (deactivate_demotes k) safe guarded.1

  -- A caller who is an admin and not the target stays; a caller who is has been counted.
  caller_stays :
      (f : HouseholdMembership → HouseholdMembership)
      → KeepsOwner f
      → (cur : ℕ) (c : HouseholdMembership) → own_rows hid cur (begin db) ≡ c ∷ []
      → is_admin c.role ≡ true
      → ((uid == c.user_id) ≡ true → 2 ≤ count_active_admins hid db)
      → IsSafe f
  caller_stays f owner cur c own admin_role guard = elim (Bool-cases (uid == c.user_id)) [
    | inl same ↦ inr (guard same)
    | inr other ↦ inl (
        other_admin_stays hid uid db.memberships f owner guarded.0 found cur
          (λ e. cc (rw (own_user hid cur (begin db) own, e) at other, ==_refl uid)) own admin_role)
  ]

pub remove_member-IsGuarded :
    (engine : Engine) (hid uid cur k : ℕ) (db : Database)
    → IsGuarded k db
    → IsGuarded k (get_db (remove_member engine hid uid cur) db).1
unfolding get_db remove_member
remove_member-IsGuarded engine hid uid cur k db h = elim (require_admin-Checks hid cur (begin db)) [
  | inl (x, refused) ↦ rw refused h
  | inr (c, granted, (own, admin_role)) ↦ elim (load_member-Checks hid uid (begin db)) [
    | inl (x, missing) ↦ rw (granted, missing) h
    | inr (t, loaded, found) ↦ elim (refuse_sole_admin-Checks (uid == c.user_id) hid (begin db)) [
      | inl (x, sole) ↦ rw (granted, loaded, sole) h
      | inr (_, allowed, guard) ↦
          rw (granted, loaded, allowed)
            (leaving engine hid uid k db h found (
              deactivate-HasAdmin engine hid uid k db h found (
                caller_stays engine hid uid k db h found deactivate deactivate-KeepsOwner cur c own
                  admin_role guard)))
    ]
  ]
]

pub leave_household-IsGuarded :
    (engine : Engine) (hid cur k : ℕ) (db : Database)
    → IsGuarded k db
    → IsGuarded k (get_db (leave_household engine hid cur) db).1
unfolding get_db leave_household
leave_household-IsGuarded engine hid cur k db h =
    elim (require_household_member-Checks hid cur (begin db)) [
      | inl (x, refused) ↦ rw refused h
      | inr (t, granted, own) ↦ elim (refuse_sole_admin-Checks (is_admin t.role) hid (begin db)) [
        | inl (x, sole) ↦ rw (granted, sole) h
        | inr (_, allowed, guard) ↦
            rw (granted, allowed, own_user hid cur (begin db) own)
              (leaving engine hid cur k db h own (stays t own guard))
      ]
    ]
  where
    stays :
        (t : HouseholdMembership)
        → own_rows hid cur (begin db) ≡ t ∷ []
        → (is_admin t.role ≡ true → 2 ≤ count_active_admins hid db)
        → HasAdmin k (with_membership t.id deactivate db)
    stays t own guard = elim (Bool-cases (is_admin t.role)) [
      | inl admin_role ↦ deactivate-HasAdmin engine hid cur k db h own (inr (guard admin_role))
      | inr plain ↦
          rw
            (count_without_admin hid cur db.memberships deactivate deactivate-KeepsOwner h.0 own k
              (deactivate_demotes k) plain)
            h.1
    ]

-- The end of `update_member_role`: the response needs the user's row.
pub answer_keeps_members :
    (uid : ℕ) (t : HouseholdMembership) (role : Role)
    → Preserves members_view (role_response uid t role)
unfolding role_response
answer_keeps_members uid t role = search preserves_rules depth 8

pub update_member_role-IsGuarded :
    (engine : Engine) (hid uid : ℕ) (role : Role) (cur k : ℕ) (db : Database)
    → IsGuarded k db
    → IsGuarded k (get_db (update_member_role hid uid role cur) db).1
unfolding get_db update_member_role
update_member_role-IsGuarded engine hid uid role cur k db h =
    elim (require_admin-Checks hid cur (begin db)) [
      | inl (x, refused) ↦ rw refused h
      | inr (c, granted, (own, admin_role)) ↦ elim (load_member-Checks hid uid (begin db)) [
        | inl (x, missing) ↦ rw (granted, missing) h
        | inr (t, loaded, found) ↦
            elim (refuse_sole_admin-Checks (uid == c.user_id && is_demotion role) hid (begin db)) [
              | inl (x, sole) ↦ rw (granted, loaded, sole) h
              | inr (_, allowed, guard) ↦
                  rw (granted, loaded, allowed)
                    (finish_keeps k (role_response uid t role)
                      (record { working = with_membership t.id (set_role role) db; committed = db })
                      (answer_keeps_members uid t role)
                      (
                        rw
                            (map-key-update_where (λ m. m.id) (λ m. m.id == t.id) (set_role role)
                              db.memberships (λ m. refl))
                            h.0,
                        changed role c t own admin_role found guard,
                      )
                      h)
            ]
      ]
    ]
  where
    changed :
        (r : Role) (c t : HouseholdMembership)
        → own_rows hid cur (begin db) ≡ c ∷ []
        → is_admin c.role ≡ true
        → own_rows hid uid (begin db) ≡ t ∷ []
        → ((uid == c.user_id && is_demotion r) ≡ true → 2 ≤ count_active_admins hid db)
        → HasAdmin k (with_membership t.id (set_role r) db)
    changed admin c t own admin_role found guard = le_trans h.1 (
        count-le-update_where (is_active_admin_in k) (λ m. m.id == t.id) (set_role admin)
          db.memberships (λ m p. ground arith))
    changed member c t own admin_role found guard =
        keeps_admin hid uid db.memberships (set_role member) (set_role-KeepsOwner member) h.0 found
          k (set_role_demotes k)
          (caller_stays engine hid uid k db h found (set_role member) (set_role-KeepsOwner member)
            cur c own admin_role (λ e. guard (ground arith)))
          h.1

-- A request to backend/app/api/members.py, with the caller's identity last.
pub data Call : Type 0 where
  remove : (hid uid cur : ℕ) → Call
  update_role : (hid uid : ℕ) (role : Role) (cur : ℕ) → Call
  leave : (hid cur : ℕ) → Call

-- The database after one request, and after several, each in its own transaction.
pub serve : Engine → Call → Database → Database
serve engine (remove hid uid cur) db = (get_db (remove_member engine hid uid cur) db).1
serve engine (update_role hid uid role cur) db = (get_db (update_member_role hid uid role cur) db).1
serve engine (leave hid cur) db = (get_db (leave_household engine hid cur) db).1

pub serve_all : Engine → List Call → Database → Database
serve_all engine [] db = db
serve_all engine (c ∷ cs) db = serve_all engine cs (serve engine c db)

serve-IsGuarded :
    (engine : Engine) (c : Call) (k : ℕ) (db : Database)
    → IsGuarded k db
    → IsGuarded k (serve engine c db)
unfolding serve
serve-IsGuarded engine (remove hid uid cur) k db h =
    remove_member-IsGuarded engine hid uid cur k db h
serve-IsGuarded engine (update_role hid uid role cur) k db h =
    update_member_role-IsGuarded engine hid uid role cur k db h
serve-IsGuarded engine (leave hid cur) k db h = leave_household-IsGuarded engine hid cur k db h

-- Requests that are served one after the other, removals, role changes and departures by any caller
-- and with any outcome, leave an active admin in every household that had one, and keep the primary
-- keys of the memberships distinct.
pub serve_all-IsGuarded :
    (engine : Engine) (cs : List Call) (k : ℕ) (db : Database)
    → IsGuarded k db
    → IsGuarded k (serve_all engine cs db)
unfolding serve_all
serve_all-IsGuarded engine [] k db h = h
serve_all-IsGuarded engine (c ∷ cs) k db h =
    serve_all-IsGuarded engine cs k (serve engine c db) (serve-IsGuarded engine c k db h)

-- ===== src/Households/Departures.antt =====
-- backend/app/api/households.py and users.py: the admins of a household where households or
-- accounts are deleted.
use chore_app.Base.{
  ℕ, ◌≡◌, refl, ap, ◌∙◌, inl, inr, Bool, false, not, List, [], ◌∷◌, map, arith, String, ◌==◌, ==→eq,
  Bool-cases, filter, count, any, same_text,
}
use chore_app.Models.{
  User, Household, HouseholdMembership, Database, is_active_admin_in, delete_households,
}
use chore_app.Session.{ok, get_db}
use chore_app.Session.Outcomes.{begin}
use chore_app.Engine.{Engine}
use chore_app.Security.{Crypto}
use chore_app.Deps.Outcomes.{require_admin-Checks}
use chore_app.Deps.{require_admin}
use chore_app.Assignment.{household_rows}
use chore_app.Households.Keys.{doomed_gone}
use chore_app.Households.{load_household, delete_household}
use chore_app.Households.Seats.{deactivate-IsStepDown}
use chore_app.Households.Governed.{
  IsLed, Governed, Thins, Thins-refl, Thins-trans, Thins-filter, Thins-update, thinned-IsGoverned,
}
use chore_app.Members.{with_membership, deactivate}
use chore_app.Accounts.{delete_planned, leave_all, delete_account}
use chore_app.Accounts.Admins.{Deletes, delete_account-Deletes, delete_account_keeps_admin}
use chore_app.Accounts.Outcomes.{delete_account_outcome}

-- A household that was not there, or that has an active admin, where households go.
still_absent :
    (p : Household → Bool) (k : ℕ) (hs : List Household)
    → any (λ i. i == k) (map (λ h. h.id) hs) ≡ false
    → any (λ i. i == k) (map (λ h. h.id) (filter p hs)) ≡ false
still_absent p k [] h = refl
still_absent p k (x ∷ hs) h = ground (arith, h, still_absent p k hs)

admins_kept :
    (doomed : ℕ → Bool) (k : ℕ) (ms : List HouseholdMembership)
    → doomed k ≡ false
    → count (is_active_admin_in k) (filter (λ m. not (doomed m.household_id)) ms)
      ≡ count (is_active_admin_in k) ms
admins_kept doomed k [] h = refl
admins_kept doomed k (m ∷ ms) h = elim (Bool-cases (m.household_id == k)) [
  | inl same ↦
      let e = ap doomed (==→eq m.household_id k same) ∙ h in
      ground (arith, e, admins_kept doomed k ms h)
  | inr other ↦ ground (arith, other, admins_kept doomed k ms h)
]

-- The households and the memberships where some households go.
deleted-Governed :
    (doomed : ℕ → Bool) (k : ℕ) (db : Database)
    → Governed k db
    → Governed k (delete_households doomed db)
unfolding delete_households
deleted-Governed doomed k db g =
    thinned-IsGoverned k (Thins-filter (λ m. not (doomed m.household_id)) db.memberships) led g
  where
    led :
        IsLed k
          (delete_households doomed db).memberships
          (map (λ h. h.id) (delete_households doomed db).households)
    led = elim (Bool-cases (doomed k)) [
      | inl gone ↦ inl (doomed_gone doomed k db.households gone)
      | inr stays ↦ elim g.led [
        | inl absent ↦ inl (still_absent (λ h. not (doomed h.id)) k db.households absent)
        | inr some_admin ↦ inr (rw (admins_kept doomed k db.memberships stays) some_admin)
      ]
    ]

pub delete-Governed :
    (hid : ℕ) (confirm : String) (cur k : ℕ) (db : Database)
    → Governed k db
    → Governed k (get_db (delete_household hid confirm cur) db).1
unfolding get_db delete_household load_household
delete-Governed hid confirm cur k db g = elim (require_admin-Checks hid cur (begin db)) [
  | inl (x, refused) ↦ rw refused g
  | inr (m, granted, _) ↦ go m granted (household_rows hid db) refl
]
  where
    go :
        (m : HouseholdMembership)
        → require_admin hid cur (begin db) ≡ (ok m, begin db)
        → (rows : List Household) → household_rows hid db ≡ rows
        → Governed k (get_db (delete_household hid confirm cur) db).1
    go m granted [] e = rw (granted, e) g
    go m granted (h ∷ i ∷ l) e = rw (granted, e) g
    go m granted (h ∷ []) e = elim (Bool-cases (same_text confirm h.name)) [
      | inr other ↦ rw (granted, e, other) g
      | inl right ↦ rw (granted, e, right) (deleted-Governed (λ x. x == hid) k db g)
    ]

leave_all-Thins :
    (leaving : List HouseholdMembership) (db : Database)
    → Thins db.memberships (leave_all leaving db).memberships
unfolding leave_all
leave_all-Thins [] db = Thins-refl db.memberships
leave_all-Thins (m ∷ ms) db =
    Thins-trans (Thins-update m.id deactivate db.memberships deactivate-IsStepDown)
      (leave_all-Thins ms (with_membership m.id deactivate db))

delete_planned-Thins :
    (ids : List ℕ) (db : Database) → Thins db.memberships (delete_planned ids db).memberships
unfolding delete_households
delete_planned-Thins [] db = Thins-refl db.memberships
delete_planned-Thins (i ∷ ids) db =
    Thins-filter (λ m. not (any (λ j. j == m.household_id) (i ∷ ids))) db.memberships

Deletes-Thins :
    (engine : Engine) (uid now : ℕ) (db after : Database)
    → Deletes engine uid now db after
    → Thins db.memberships after.memberships
Deletes-Thins engine uid now db after d =
    let planned = delete_planned d.plan.households_to_delete db in
    rw d.memberships (
      Thins-trans (delete_planned-Thins d.plan.households_to_delete db) (
        Thins-trans (leave_all-Thins d.plan.memberships_to_leave planned) (
          Thins-filter (λ m. not (m.user_id == uid))
            (leave_all d.plan.memberships_to_leave planned).memberships)))

absent_after :
    (k : ℕ) (ids : List ℕ) (db : Database)
    → any (λ i. i == k) (map (λ h. h.id) db.households) ≡ false
    → any (λ i. i == k) (map (λ h. h.id) (delete_planned ids db).households) ≡ false
unfolding delete_households
absent_after k [] db h = h
absent_after k (i ∷ ids) db h =
    still_absent (λ x. not (any (λ j. j == x.id) (i ∷ ids))) k db.households h

pub delete_me-Governed :
    (engine : Engine) (crypto : Crypto) (password : String) (user : User) (now k : ℕ)
    (db : Database)
    → Governed k db
    → Governed k (get_db (delete_account engine crypto password user now) db).1
delete_me-Governed engine crypto password user now k db g =
    elim (delete_account_outcome engine crypto password user now db) [
      | inl (x, failed) ↦ rw (ap (λ r. r.1) failed) g
      | inr (a, after, served, _) ↦
          let d = delete_account-Deletes engine crypto password user now db after served in
          let led : IsLed k after.memberships (map (λ h. h.id) after.households) = elim g.led [
            | inr some_admin ↦
                delete_account_keeps_admin engine crypto password user now k db after served g.keyed
                  (g.single user.id) some_admin
            | inl absent ↦ inl (
                ap (any (λ i. i == k)) d.households
                ∙ absent_after k d.plan.households_to_delete db absent)
          ] in
          rw (ap (λ r. r.1) served)
            (thinned-IsGoverned k (Deletes-Thins engine user.id now db after d) led g)
    ]

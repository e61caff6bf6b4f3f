-- ===== src/Accounts/Outcomes.antt =====
-- backend/app/api/users.py: what a deletion and a change of the password leave behind.
use chore_app.Base.{
  ℕ, ◌≡◌, refl, sym, ap, ◌∙◌, inl, inr, false, not, ◌&&◌, Option, none, some, List, [], ◌∷◌, map,
  arith, String, ◌==◌, ==_refl, is_some_eq, same_text, filter, any, count, filter-updated,
  Answer-cases, Option-cases,
}
use chore_app.Models.{
  User, HouseholdMembership, ChoreInstance, Database, delete_user, forget_assignee, clear_if,
}
use chore_app.Session.{Session, ok, forbidden, get_db, internal_error}
use chore_app.Session.Preserves.{Preserves, Preserves-pure, Preserves-bind}
use chore_app.Session.Outcomes.{Serves, begin, Result-cases}
use chore_app.Engine.{Engine}
use chore_app.Security.{Crypto}
use chore_app.Auth.{
  TokenResponse, TokenSettings, Draws, users_by_email, is_unrevoked_of, revoke_all, login,
}
use chore_app.Auth.Opening.{login_succeeds}
use chore_app.Auth.Rotation.{none_unrevoked}
use chore_app.Redistribution.{redistribute_chores_for_removed_member}
use chore_app.Redistribution.Frame.{redistribute_keeps_members}
use chore_app.Accounts.{
  delete_planned, leave_all, redistribute_all, delete_user_account, delete_account, change_password,
  with_user, set_password_hash,
}
use chore_app.Accounts.Plans.{plan_all-Checks}

-- No row is the user's or refers to the user, but for the invites, the definitions and the
-- groceries.
pub record Forgets (uid : ℕ) (db : Database) : Type 0 where
  pub users : any (λ u. u.id == uid) db.users ≡ false
  pub memberships : any (λ m. m.user_id == uid) db.memberships ≡ false
  pub ledger : any (λ e. e.user_id == uid) db.ledger ≡ false
  pub refresh_tokens : any (λ t. t.user_id == uid) db.refresh_tokens ≡ false
  pub instances : any (λ c. is_some_eq c.assignee_id uid) db.instances ≡ false

none_with_key :
    {A : Type 0} (key : A → ℕ) (i : ℕ) (l : List A)
    → any (λ x. key x == i) (filter (λ x. not (key x == i)) l) ≡ false
none_with_key key i [] = refl
none_with_key key i (x ∷ l) = ground (arith, none_with_key key i l)

cleared_other : (uid : ℕ) (o : Option ℕ) → is_some_eq (clear_if (λ i. i == uid) o) uid ≡ false
cleared_other uid none = refl
cleared_other uid (some i) = ground arith

none_assigned :
    (uid : ℕ) (l : List ChoreInstance)
    → any (λ c. is_some_eq c.assignee_id uid) (map (forget_assignee uid) l) ≡ false
none_assigned uid [] = refl
none_assigned uid (c ∷ l) = rw (cleared_other uid c.assignee_id) (none_assigned uid l)

delete_user-Forgets : (uid : ℕ) (db : Database) → Forgets uid (delete_user uid db)
unfolding delete_user
delete_user-Forgets uid db = record {
  users = none_with_key (λ u. u.id) uid db.users;
  memberships = none_with_key (λ m. m.user_id) uid db.memberships;
  ledger = none_with_key (λ e. e.user_id) uid db.ledger;
  refresh_tokens = none_with_key (λ t. t.user_id) uid _;
  instances = none_assigned uid db.instances;
}

abbrev committed_view : Session → Database
committed_view s = s.committed

redistribute_all-commits :
    (engine : Engine) (uid : ℕ) (ms : List HouseholdMembership)
    → Preserves committed_view (redistribute_all engine uid ms)
unfolding redistribute_all
redistribute_all-commits engine uid [] = Preserves-pure tt
redistribute_all-commits engine uid (m ∷ ms) =
    Preserves-bind (redistribute_chores_for_removed_member engine uid m.household_id)
      (λ _. redistribute_all engine uid ms)
      (record { at = λ s i. ((redistribute_keeps_members engine m.household_id uid).at s i).1 })
      (λ _. redistribute_all-commits engine uid ms)

-- The deletion of an account either fails and leaves the database as it was, or goes through, and
-- then the user is gone with the memberships, the ledger entries and the refresh tokens, and no
-- chore is assigned to the user.
pub delete_account_outcome :
    (engine : Engine) (crypto : Crypto) (password : String) (user : User) (now : ℕ) (db : Database)
    → Serves (delete_account engine crypto password user now) db (Forgets user.id)
unfolding get_db delete_account delete_user_account
delete_account_outcome engine crypto password user now db =
    elim (Answer-cases (crypto.checkpw password user.password_hash)) [
      | inr (inl raises) ↦ inl (internal_error, rw raises refl)
      | inr (inr wrong) ↦ inl (forbidden, rw wrong refl)
      | inl right ↦
          elim (plan_all-Checks
            (engine.scan HouseholdMembership
              (filter (λ m. m.user_id == user.id && m.is_active) db.memberships))
            (begin db)) [
              | inl (x, refused) ↦ inl (x, rw (right, refused) refl)
              | inr (p, planned, known) ↦
                  let left : Session = record {
                    working =
                        leave_all p.memberships_to_leave (delete_planned p.households_to_delete db);
                    committed = db;
                  } in
                  let same =
                    (redistribute_all-commits engine user.id p.memberships_to_leave).at left in
                  elim (Result-cases (redistribute_all engine user.id p.memberships_to_leave)
                    left) [
                      | inl (x, failed) ↦ inl (x, rw (right, planned, failed, same) refl)
                      | inr (a, moved) ↦
                          let last =
                            revoke_all user.id now
                              (redistribute_all engine user.id p.memberships_to_leave
                                left).1.working in
                          inr (
                            tt,
                            delete_user user.id last,
                            rw (right, planned, moved) refl,
                            delete_user-Forgets user.id last,
                          )
                    ]
            ]
    ]

-- The one user with an email, after a write of the password.
pub renewed_found :
    (email hashed : String) (user : User) (db : Database)
    → users_by_email email db ≡ user ∷ []
    → users_by_email email (with_user user.id (set_password_hash hashed) db)
      ≡ set_password_hash hashed user ∷ []
renewed_found email hashed user db found =
    filter-updated (λ u. same_text u.email email) (λ u. u.id == user.id) (set_password_hash hashed)
      db.users (λ u. refl)
    ∙ rw (found, ==_refl user.id) refl

-- After a change of the password that succeeded, for the one user with that email, a login with the
-- new password succeeds, and every refresh token of the user is revoked.
pub change_password-login :
    (crypto : Crypto) (settings : TokenSettings) (password new_password salt : String) (user : User)
    (changed : ℕ) (draws : Draws) (signed now : ℕ) (db after : Database)
    → get_db (change_password crypto password new_password user salt changed) db ≡ (ok tt, after)
    → users_by_email user.email db ≡ user ∷ []
    → (count (is_unrevoked_of user.id) after.refresh_tokens ≡ 0)
      × (b : TokenResponse crypto.Jwt) × (next : Database) × (get_db
            (login crypto settings
              (record { email = user.email; password = new_password })
              draws
              signed
              now)
            after
          ≡ (ok b, next))
unfolding get_db change_password
change_password-login crypto settings password new_password salt user changed draws signed now db
      after h found =
    elim (Answer-cases (crypto.checkpw password user.password_hash)) [
      | inr (inl raises) ↦ absurd (cc (rw raises at h))
      | inr (inr wrong) ↦ absurd (cc (rw wrong at h))
      | inl right ↦ elim (Option-cases (crypto.hashpw new_password salt)) [
        | inl refused ↦ absurd (cc (rw (right, refused) at h))
        | inr (hashed, made) ↦
            let e = ap (λ r. r.1) (sym (rw (right, made) at h)) in
            let renewed = set_password_hash hashed user in
            let there : users_by_email user.email after ≡ renewed ∷ [] =
              rw e (renewed_found user.email hashed user db found) in
            (
              rw e (none_unrevoked user.id changed db.refresh_tokens),
              _,
              _,
              login_succeeds crypto settings
                  (record { email = user.email; password = new_password }) draws signed now after
                  renewed there (crypto.checkpw-hashpw new_password salt hashed made),
            )
      ]
    ]

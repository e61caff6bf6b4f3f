-- ===== src/Cli/Recovery.antt =====
-- backend/app/cli.py: the account after a reset of its password.
use Prim.Native.String.{count as text_length}
use chore_app.Base.{
  ℕ, String, ◌≡◌, ◌≤◌, refl, ◌⊎◌, inl, inr, ◌&&◌, List, [], ◌∷◌, arith, leb, same_text,
  same_text→eq, Bool-cases, count, filter, Option-cases,
}
use chore_app.Models.{User, Database}
use chore_app.Session.{Error, multiple_results, ok, err, get_db, internal_error}
use chore_app.Security.{Crypto}
use chore_app.Auth.{TokenResponse, TokenSettings, Draws, users_by_email, is_unrevoked_of, login}
use chore_app.Auth.Opening.{login_succeeds}
use chore_app.Auth.Rotation.{none_unrevoked}
use chore_app.Accounts.{set_password_hash}
use chore_app.Accounts.Outcomes.{renewed_found}
use chore_app.Texts.{strip, lower}
use chore_app.Cli.{
  password_min_length, password_max_length, store_password, reset_password, run_reset_password,
}

-- What a reset that went through leaves: the one user with that email has no refresh token that is
-- not revoked, the password fits, and a login with the new password succeeds.
pub record Recovers (crypto : Crypto) (settings : TokenSettings) (email new_password : String)
    (before after : Database) : Type 0 where
  pub user : User
  pub account : filter (λ u. same_text u.email email) before.users ≡ user ∷ []
  pub within :
      (password_min_length ≤ text_length new_password)
      × (text_length new_password ≤ password_max_length)
  pub revoked : count (is_unrevoked_of user.id) after.refresh_tokens ≡ 0
  pub opens :
      (draws : Draws) (signed now : ℕ)
      → (a : TokenResponse crypto.Jwt) × (next : Database) × (get_db
            (login crypto settings
              (record { email = email; password = new_password })
              draws
              signed
              now)
            after
          ≡ (ok a, next))

module _ (crypto : Crypto) (settings : TokenSettings)
    (email new_password confirm_password salt : String) (now : ℕ) (db : Database) where
  abbrev pub Outcome : Type 0
  Outcome =
      let out = run_reset_password crypto email new_password confirm_password salt now db in
      ((out.1 ≡ db) × (((e : Error) × (out.0 ≡ err e)) ⊎ (out.0 ≡ ok 1)))
      ⊎ ((out.0 ≡ ok 0)
          × (new_password ≡ confirm_password)
          × Recovers crypto settings (lower (strip email)) new_password db out.1)

  reset_user : (user : User) → users_by_email (lower (strip email)) db ≡ user ∷ [] → Outcome
  unfolding run_reset_password reset_password store_password
  reset_user user found = elim (Bool-cases (same_text new_password confirm_password)) [
    | inr differ ↦ inl (rw (found, differ) (refl, inr refl))
    | inl same ↦
        elim (Bool-cases (
          leb password_min_length (text_length new_password)
          && leb (text_length new_password) password_max_length)) [
            | inr unfit ↦ inl (rw (found, same, unfit) (refl, inr refl))
            | inl fit ↦ elim (Option-cases (crypto.hashpw new_password salt)) [
              | inl refused ↦
                  inl (rw (found, same, fit, refused) (refl, inl (internal_error, refl)))
              | inr (hashed, made) ↦ inr (
                  rw (found, same, fit, made)
                    (
                      refl,
                      same_text→eq new_password confirm_password same,
                      record {
                        user = user;
                        account = found;
                        within = ground arith;
                        revoked = none_unrevoked user.id now db.refresh_tokens;
                        opens = λ draws signed later. (
                          _,
                          _,
                          login_succeeds crypto settings
                              (record { email = lower (strip email); password = new_password })
                              draws signed later _ (set_password_hash hashed user)
                              (renewed_found (lower (strip email)) hashed user db found)
                              (crypto.checkpw-hashpw new_password salt hashed made),
                        );
                      },
                    ))
            ]
          ]
  ]

  -- A reset of a password leaves the database as it was, and fails or exits with 1; or it exits
  -- with 0, and then the two inputs were equal and of a length within the bounds, one user has the
  -- email in its normal form, every refresh token of that user is revoked, and a login with the
  -- email in its normal form and the new password succeeds, whatever it draws.
  pub reset_password_outcome : Outcome
  unfolding run_reset_password reset_password
  reset_password_outcome = go (users_by_email (lower (strip email)) db) refl
    where
      go : (rows : List User) → users_by_email (lower (strip email)) db ≡ rows → Outcome
      go [] e = inl (rw e (refl, inr refl))
      go (user ∷ []) e = reset_user user e
      go (user ∷ other ∷ rows) e = inl (rw e (refl, inl (multiple_results, refl)))

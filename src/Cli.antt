-- ===== src/Cli.antt =====
-- backend/app/cli.py: the operator's command that resets a password.
pub mod Recovery
use Prim.Native.String.{count as text_length}
use chore_app.Base.{ℕ, String, ◌&&◌, not, Option, none, some, leb, same_text, if◌then◌else◌}
use chore_app.Models.{User, Database}
use chore_app.Session.{Result, Action, pure, ◌>>=◌, ◌>>◌, query, scalar_one_or_none, write, commit}
use chore_app.Session.Outcomes.{begin}
use chore_app.Security.{Crypto, hash_password}
use chore_app.Auth.{users_by_email, revoke_all}
use chore_app.Accounts.{with_user, set_password_hash}
use chore_app.Texts.{strip, lower}

-- PASSWORD_MIN_LENGTH and PASSWORD_MAX_LENGTH of core/constants.py
abbrev pub password_min_length : ℕ
password_min_length = 8

abbrev pub password_max_length : ℕ
password_max_length = 72

module _ (crypto : Crypto) where
  -- What follows the second prompt; the exit code is 0 on success and 1 on a failure.
  unfoldable pub store_password : User → String → String → String → ℕ → Action ℕ
  store_password user new_password confirm_password salt now =
      if not (same_text new_password confirm_password)
      then pure 1
      else if not (
          leb password_min_length (text_length new_password)
          && leb (text_length new_password) password_max_length)
      then pure 1
      else do
        hashed ← hash_password crypto new_password salt
        write (with_user user.id (set_password_hash hashed))
        write (revoke_all user.id now)
        commit
        pure 0

  abbrev pub reset_found : Option User → String → String → String → ℕ → Action ℕ
  reset_found none new_password confirm_password salt now = pure 1
  reset_found (some user) new_password confirm_password salt now =
      store_password user new_password confirm_password salt now

  -- `_reset_password`, with what the operator types at the two prompts.
  unfoldable pub reset_password : String → String → String → String → ℕ → Action ℕ
  reset_password email new_password confirm_password salt now = do
    rows ← query (users_by_email (lower (strip email)))
    user ← scalar_one_or_none rows
    reset_found user new_password confirm_password salt now

  -- The session of the command is closed without another commit: what was committed stays.
  unfoldable pub run_reset_password :
      String → String → String → String → ℕ → Database → Result ℕ × Database
  run_reset_password email new_password confirm_password salt now db =
      let (r, s) = reset_password email new_password confirm_password salt now (begin db) in
      (r, s.committed)

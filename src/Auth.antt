-- ===== src/Auth.antt =====
-- backend/app/api/auth.py: registration, login, the rotation of refresh tokens, and logout. The
-- rate limits act before a handler runs; the request bodies are what their validators return.
pub mod Rotation
pub mod Opening
pub mod Closing
use chore_app.Base.{
  if◌then◌else◌, ℕ, ◌+◌, ◌*◌, ◌/◌, String, Bool, true, false, ◌&&◌, not, Option, none, some, List,
  [], ◌∷◌, ◌++◌, leb, ◌==◌, same_text, is_none, filter, any, update_where,
}
use chore_app.Models.{User, RefreshToken, RevokedToken, Database}
use chore_app.Session.{
  Action, unauthorized, conflict, internal_error, pure, raise, raise_if, raise_if_none, ◌>>=◌, ◌>>◌,
  query, scalar_one_or_none, write, commit,
}
use chore_app.Security.{
  Payload, Crypto, hash_password, verify_password, create_access_token, decode_access_token,
}

-- `RegisterRequest`
pub record RegisterRequest : Type 0 where
  pub email : String
  pub password : String
  pub display_name : String

-- `LoginRequest`
pub record LoginRequest : Type 0 where
  pub email : String
  pub password : String

-- `UserResponse`
pub record UserResponse : Type 0 where
  pub id : ℕ
  pub email : String
  pub display_name : String
  pub created_at : ℕ

abbrev pub user_response : User → UserResponse
user_response u = record {
  id = u.id;
  email = u.email;
  display_name = u.display_name;
  created_at = u.created_at;
}

-- `TokenResponse`; its `token_type` is always "bearer".
pub record TokenResponse (Jwt : Type 0) : Type 0 where
  pub access_token : Jwt
  pub expires_in : ℕ
  pub refresh_token : String

-- The settings that the handlers read, in microseconds: JWT_EXPIRY_MINUTES and
-- REFRESH_TOKEN_TTL_DAYS.
pub record TokenSettings : Type 0 where
  pub jwt_expiry : ℕ
  pub refresh_token_ttl : ℕ

-- What a request draws: the key of the new row, the raw refresh token and the `jti` of the access
-- token.
pub record Draws : Type 0 where
  pub row_id : ℕ
  pub raw_refresh : String
  pub jti : String

abbrev pub users_by_email : String → Database → List User
users_by_email email db = filter (λ u. same_text u.email email) db.users

abbrev pub tokens_by_hash : String → Database → List RefreshToken
tokens_by_hash token_hash db = filter (λ t. same_text t.token_hash token_hash) db.refresh_tokens

-- A refresh token of the user that is not revoked.
abbrev pub is_unrevoked_of : ℕ → RefreshToken → Bool
is_unrevoked_of user_id t = t.user_id == user_id && is_none t.revoked_at

abbrev pub revoke : ℕ → RefreshToken → RefreshToken
revoke now t = record t { revoked_at = some now }

-- `UPDATE refresh_tokens SET revoked_at = now WHERE user_id = ... AND revoked_at IS NULL`, which
-- api/users.py and services/account_deletion.py run too.
abbrev pub revoke_all : ℕ → ℕ → Database → Database
revoke_all user_id now db = record db {
  refresh_tokens = update_where (is_unrevoked_of user_id) (revoke now) db.refresh_tokens;
}

abbrev pub new_refresh_token : ℕ → ℕ → String → ℕ → ℕ → RefreshToken
new_refresh_token row_id user_id token_hash now ttl = record {
  id = row_id;
  user_id = user_id;
  token_hash = token_hash;
  created_at = now;
  expires_at = now + ttl;
  revoked_at = none;
}

abbrev pub add_refresh_token : RefreshToken → Database → Database
add_refresh_token t db = record db { refresh_tokens = db.refresh_tokens ++ t ∷ [] }

-- `INSERT ... ON CONFLICT DO NOTHING`
abbrev pub insert_revoked : RevokedToken → List RevokedToken → List RevokedToken
insert_revoked t rows = if any (λ r. same_text r.jti t.jti) rows then rows else rows ++ t ∷ []

-- `if jti and exp:`
abbrev pub blacklist : Option String → Option ℕ → ℕ → Database → Database
blacklist none exp now db = db
blacklist (some jti) none now db = db
blacklist (some jti) (some exp) now db =
    if same_text jti "" then db else if exp == 0 then db else record db {
      revoked_tokens =
          insert_revoked (record { jti = jti; revoked_at = now; expires_at = exp * 1000000 })
            db.revoked_tokens;
    }

abbrev pub new_user : RegisterRequest → String → ℕ → ℕ → User
new_user body hashed user_id now = record {
  id = user_id;
  email = body.email;
  display_name = body.display_name;
  password_hash = hashed;
  created_at = now;
}

module _ (crypto : Crypto) where
  -- POST /auth/register
  unfoldable pub register : RegisterRequest → String → ℕ → ℕ → Action UserResponse
  register body salt user_id now = do
    rows ← query (users_by_email body.email)
    existing ← scalar_one_or_none rows
    raise_if (not (is_none existing)) conflict
    hashed ← hash_password crypto body.password salt
    let user = new_user body hashed user_id now
    write (λ db. record db { users = db.users ++ user ∷ [] })
    commit
    pure (user_response user)

  module _ (settings : TokenSettings) where
    -- The answer of `login` and `refresh_token`; `expires_in` is in seconds.
    abbrev pub token_response : ℕ → Draws → ℕ → (TokenResponse crypto.Jwt)
    token_response user_id draws now = record {
      access_token =
          create_access_token crypto (crypto.str user_id) settings.jwt_expiry draws.jti now;
      expires_in = settings.jwt_expiry / 1000000;
      refresh_token = draws.raw_refresh;
    }

    -- The new row of `login` and `refresh_token`.
    abbrev pub issued : ℕ → Draws → ℕ → RefreshToken
    issued user_id draws now =
        new_refresh_token draws.row_id user_id (crypto.sha256 draws.raw_refresh) now
          settings.refresh_token_ttl

    -- POST /auth/login; `signed` is the time at which the access token is made, `now` the next
    -- reading of the clock.
    unfoldable pub login : LoginRequest → Draws → ℕ → ℕ → Action (TokenResponse crypto.Jwt)
    login body draws signed now = do
      rows ← query (users_by_email body.email)
      found ← scalar_one_or_none rows
      user ← raise_if_none unauthorized found
      verified ← verify_password crypto body.password user.password_hash
      raise_if (not verified) unauthorized
      write (add_refresh_token (issued user.id draws now))
      pure (token_response user.id draws signed)

    -- The rest of `refresh_token` once the row is found and not revoked.
    unfoldable pub rotate : RefreshToken → Draws → ℕ → ℕ → Action (TokenResponse crypto.Jwt)
    rotate stored draws now signed = do
      raise_if (leb stored.expires_at now) unauthorized
      write (λ db. record db {
        refresh_tokens = update_where (λ t. t.id == stored.id) (revoke now) db.refresh_tokens;
      })
      write (add_refresh_token (issued stored.user_id draws now))
      pure (token_response stored.user_id draws signed)

    -- A replay: the whole family is revoked, and that is committed before the exception.
    unfoldable pub refuse_reuse : RefreshToken → ℕ → Action (TokenResponse crypto.Jwt)
    refuse_reuse stored now = do write (revoke_all stored.user_id now); commit; raise unauthorized

    abbrev pub refresh_row :
        RefreshToken → Option ℕ → Draws → ℕ → ℕ → Action (TokenResponse crypto.Jwt)
    refresh_row stored none draws now signed = rotate stored draws now signed
    refresh_row stored (some revoked_at) draws now signed = refuse_reuse stored now

    -- POST /auth/refresh
    unfoldable pub refresh_token : String → Draws → ℕ → ℕ → Action (TokenResponse crypto.Jwt)
    refresh_token raw draws now signed = do
      rows ← query (tokens_by_hash (crypto.sha256 raw))
      found ← scalar_one_or_none rows
      stored ← raise_if_none unauthorized found
      refresh_row stored stored.revoked_at draws now signed

  -- `uuid.UUID(payload["sub"])`, which raises where the claim is missing or is no UUID.
  unfoldable pub subject_id : Option String → Action ℕ
  subject_id none = raise internal_error
  subject_id (some sub) = raise_if_none internal_error (crypto.uuid sub)

  -- POST /auth/logout, with the times of decoding, of the first insertion and of the update.
  unfoldable pub logout : Option crypto.Jwt → ℕ → ℕ → ℕ → Action (Unit {0})
  logout credentials decoded_at inserted_at now = do
    token ← raise_if_none unauthorized credentials
    payload ← raise_if_none unauthorized (decode_access_token crypto decoded_at token)
    write (blacklist payload.jti payload.exp inserted_at)
    user_id ← subject_id payload.sub
    write (revoke_all user_id now)

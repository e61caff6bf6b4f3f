-- ===== src/Auth/Opening.antt =====
-- backend/app/api/auth.py: registration, then login, then an authenticated request or a refresh.
use chore_app.Base.{
  filter_by_key, ℕ, ◌+◌, ◌*◌, ◌/◌, ◌<◌, ◌≡◌, refl, sym, ap, ◌∙◌, inl, inr, true, false, none, some,
  List, [], ◌∷◌, arith, String, leb, ◌==◌, same_text, same_text_refl, Bool-cases, Answer-cases,
  Option, filter, filter-append, IsKeyed,
}
use chore_app.Models.{User, RefreshToken, Database}
use chore_app.Session.{ok, get_db}
use chore_app.Session.Outcomes.{begin}
use chore_app.Security.{Crypto, create_access_token}
use chore_app.Deps.{get_current_user, refuse_revoked, revoked_rows}
use chore_app.Auth.{
  RegisterRequest, LoginRequest, UserResponse, TokenResponse, TokenSettings, Draws, users_by_email,
  tokens_by_hash, issued, new_user, token_response, add_refresh_token, rotate, refresh_token,
  register, login,
}

module _ (crypto : Crypto) (settings : TokenSettings) where
  -- A login that succeeded: the user it found, and what it wrote.
  record LogsIn (body : LoginRequest) (draws : Draws) (signed now : ℕ) (db after : Database)
      (a : TokenResponse crypto.Jwt) : Type 0 where
    user : User
    found : users_by_email body.email db ≡ user ∷ []
    verified : crypto.checkpw body.password user.password_hash ≡ some true
    result : after ≡ add_refresh_token (issued crypto settings user.id draws now) db
    answer : a ≡ token_response crypto settings user.id draws signed

  pub login_succeeds :
      (body : LoginRequest) (draws : Draws) (signed now : ℕ) (db : Database) (u : User)
      → users_by_email body.email db ≡ u ∷ []
      → crypto.checkpw body.password u.password_hash ≡ some true
      → get_db (login crypto settings body draws signed now) db ≡ (
        ok (token_response crypto settings u.id draws signed),
        add_refresh_token (issued crypto settings u.id draws now) db,
      )
  unfolding get_db login
  login_succeeds body draws signed now db u found verified = rw (found, verified) refl

  login_outcome :
      (body : LoginRequest) (draws : Draws) (signed now : ℕ) (db after : Database)
      (a : TokenResponse crypto.Jwt)
      → get_db (login crypto settings body draws signed now) db ≡ (ok a, after)
      → LogsIn body draws signed now db after a
  unfolding get_db login
  login_outcome body draws signed now db after a h = go (users_by_email body.email db) refl
    where
      go :
          (rows : List User)
          → users_by_email body.email db ≡ rows
          → LogsIn body draws signed now db after a
      go [] e = absurd (cc (rw e at h))
      go (u ∷ k ∷ l) e = absurd (cc (rw e at h))
      go (u ∷ []) e = elim (Answer-cases (crypto.checkpw body.password u.password_hash)) [
        | inr (inl raises) ↦ absurd (cc (rw (e, raises) at h))
        | inr (inr wrong) ↦ absurd (cc (rw (e, wrong) at h))
        | inl right ↦
            let w = rw (e, right) at h in
            record {
              user = u;
              found = e;
              verified = right;
              result = ap (λ r. r.1) (sym w);
              answer = cc;
            }
      ]

  -- A refresh with a token that is there, unrevoked and not expired.
  refresh_succeeds :
      (raw : String) (draws : Draws) (now signed : ℕ) (db : Database) (t : RefreshToken)
      → tokens_by_hash (crypto.sha256 raw) db ≡ t ∷ []
      → t.revoked_at ≡ none
      → leb t.expires_at now ≡ false
      → (a : TokenResponse crypto.Jwt) × (after : Database) × (get_db
            (refresh_token crypto settings raw draws now signed)
            db
          ≡ (ok a, after))
  unfolding get_db refresh_token rotate
  refresh_succeeds raw draws now signed db t found never valid = (
    token_response crypto settings t.user_id draws signed,
    (get_db (refresh_token crypto settings raw draws now signed) db).1,
    rw (found, never, valid) refl,
  )

  signed_in :
      (u : User) (draws : Draws) (signed later : ℕ) (db : Database)
      → filter (λ v. v.id == u.id) db.users ≡ u ∷ []
      → revoked_rows draws.jti db ≡ []
      → later < (signed + settings.jwt_expiry) / 1000000 * 1000000
      → get_current_user crypto
          (some (token_response crypto settings u.id draws signed).access_token)
          later
          (begin db)
        ≡ (ok u, begin db)
  unfolding get_current_user create_access_token refuse_revoked
  signed_in u draws signed later db found clean early =
      let accepted =
        crypto.decode-encode later
          (record {
            sub = some (crypto.str u.id);
            exp = some ((signed + settings.jwt_expiry) / 1000000);
            jti = some draws.jti;
          })
          ((signed + settings.jwt_expiry) / 1000000) refl early in
      elim (Bool-cases (same_text draws.jti "")) [
        | inl empty ↦ rw (accepted, empty, crypto.str_filled u.id, crypto.uuid-str u.id, found) refl
        | inr filled ↦
            rw (accepted, filled, clean, crypto.str_filled u.id, crypto.uuid-str u.id, found) refl
      ]

-- After a login that succeeded, the access token authenticates, until it expires, as the one user
-- with that email, and the refresh token, until it expires, can be exchanged. The conditions: the
-- keys of the users are distinct, and what the login draws is new: no row has the hash of the
-- refresh token, and the `jti` of the access token is not revoked.
pub login_opens :
    (crypto : Crypto) (settings : TokenSettings) (body : LoginRequest) (draws : Draws)
    (signed now : ℕ) (db after : Database) (a : TokenResponse crypto.Jwt)
    → get_db (login crypto settings body draws signed now) db ≡ (ok a, after)
    → IsKeyed (λ u. u.id) db.users
    → tokens_by_hash (crypto.sha256 draws.raw_refresh) db ≡ []
    → revoked_rows draws.jti db ≡ []
    → (u : User) × (users_by_email body.email db ≡ u ∷ [])
      × ((later : ℕ)
          → later < (signed + settings.jwt_expiry) / 1000000 * 1000000
          → get_current_user crypto (some a.access_token) later (begin after) ≡ (ok u, begin after))
      × ((draws' : Draws) (later signed' : ℕ)
          → later < now + settings.refresh_token_ttl
          → (b : TokenResponse crypto.Jwt) × (next : Database) × (get_db
                (refresh_token crypto settings a.refresh_token draws' later signed')
                after
              ≡ (ok b, next)))
login_opens crypto settings body draws signed now db after a h keyed unused clean =
    let o = login_outcome crypto settings body draws signed now db after a h in
    let fresh = issued crypto settings o.user.id draws now in
    (
      o.user,
      o.found,
      λ later early.
          rw (ap (λ x. x.access_token) o.answer, o.result)
            (signed_in crypto settings o.user draws signed later (add_refresh_token fresh db)
              (filter_by_key (λ u. u.id) (λ u. same_text u.email body.email) db.users keyed o.found)
              clean early),
      λ draws' later signed' early.
          rw (ap (λ x. x.refresh_token) o.answer, o.result)
            (refresh_succeeds crypto settings draws.raw_refresh draws' later signed'
              (add_refresh_token fresh db) fresh
              (filter-append (λ t. same_text t.token_hash (crypto.sha256 draws.raw_refresh))
                  db.refresh_tokens (fresh ∷ [])
                ∙ rw (unused, same_text_refl (crypto.sha256 draws.raw_refresh)) refl)
              refl (ground arith)),
    )

-- After a registration that succeeded, a login with the same email and password succeeds.
pub register-login :
    (crypto : Crypto) (settings : TokenSettings) (body : RegisterRequest) (salt : String)
    (uid made : ℕ) (draws : Draws) (signed now : ℕ) (db after : Database) (a : UserResponse)
    → get_db (register crypto body salt uid made) db ≡ (ok a, after)
    → (b : TokenResponse crypto.Jwt) × (next : Database) × (get_db
          (login crypto settings
            (record { email = body.email; password = body.password })
            draws
            signed
            now)
          after
        ≡ (ok b, next))
unfolding get_db register
register-login crypto settings body salt uid made draws signed now db after a h =
    let made_user =
      go (users_by_email body.email db) (crypto.hashpw body.password salt) refl refl in
    (
      token_response crypto settings uid draws signed,
      add_refresh_token (issued crypto settings uid draws now) after,
      login_succeeds crypto settings (record { email = body.email; password = body.password }) draws
          signed now after (new_user body made_user.0 uid made) made_user.2
          (crypto.checkpw-hashpw body.password salt made_user.0 made_user.1),
    )
  where
    go :
        (rows : List User) (o : Option String)
        → users_by_email body.email db ≡ rows
        → crypto.hashpw body.password salt ≡ o
        → (hashed : String) × (crypto.hashpw body.password salt ≡ some hashed)
          × (users_by_email body.email after ≡ new_user body hashed uid made ∷ [])
    go (u ∷ []) o e f = absurd (cc (rw e at h))
    go (u ∷ k ∷ l) o e f = absurd (cc (rw e at h))
    go [] none e f = absurd (cc (rw (e, f) at h))
    go [] (some hashed) e f = (
      hashed,
      f,
      rw (sym (ap (λ r. r.1) (rw (e, f) at h))) (
          filter-append (λ u. same_text u.email body.email) db.users
            (new_user body hashed uid made ∷ [])
          ∙ rw (e, same_text_refl body.email) refl),
    )

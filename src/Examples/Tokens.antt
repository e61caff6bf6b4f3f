-- ===== src/Examples/Tokens.antt =====
-- The theorems on the tokens of backend/app/api/auth.py at concrete inputs.
use chore_app.Base.{ℕ, ◌*◌, ◌/◌, ◌+◌, ◌<◌, ◌≤◌, ◌≡◌, refl, some, String, [], ◌∷◌, arith, count}
use chore_app.Models.{User, Database}
use chore_app.Session.{ok, err, unauthorized, get_db}
use chore_app.Session.Outcomes.{begin}
use chore_app.Security.{Payload, create_access_token}
use chore_app.Deps.{get_current_user}
use chore_app.Auth.{
  tokens_by_hash, LoginRequest, RegisterRequest, TokenResponse, TokenSettings, Draws,
  users_by_email, is_unrevoked_of, revoke_all, user_response, new_user, token_response, register,
  login, rotate, refresh_token, subject_id, logout,
}
use chore_app.Auth.Rotation.{refresh_token_once}
use chore_app.Auth.Opening.{login_opens, register-login}
use chore_app.Auth.Closing.{is_jti, logout_closes}
use chore_app.Examples.Secrets.{plain}
use chore_app.Examples.Samples.{home}

-- Tokens live for 15 minutes, refresh tokens for a day.
abbrev pub lifetimes : TokenSettings
lifetimes = record { jwt_expiry = 900000000; refresh_token_ttl = 86400000000 }

abbrev pub drawn : ℕ → String → Draws
drawn row raw = record { row_id = row; raw_refresh = raw; jti = "j" }

abbrev as_ann : LoginRequest
as_ann = record { email = "ann@example.com"; password = "a" }

-- Ann logs in.
abbrev ann_in : Database
ann_in = (get_db (login plain lifetimes as_ann (drawn 70 "one") 1000 1001) home).1

abbrev ann_tokens : TokenResponse Payload
ann_tokens = token_response plain lifetimes 1 (drawn 70 "one") 1000

logs_in :
    get_db (login plain lifetimes as_ann (drawn 70 "one") 1000 1001) home ≡ (ok ann_tokens, ann_in)
unfolding get_db login
logs_in = refl

login_opens_example :
    (u : User) × (users_by_email "ann@example.com" home ≡ u ∷ [])
    × ((later : ℕ)
        → later < (1000 + 900000000) / 1000000 * 1000000
        → get_current_user plain (some ann_tokens.access_token) later (begin ann_in)
          ≡ (ok u, begin ann_in))
    × ((draws' : Draws) (later signed' : ℕ)
        → later < 1001 + 86400000000
        → (b : TokenResponse Payload) × (next : Database) × (get_db
              (refresh_token plain lifetimes ann_tokens.refresh_token draws' later signed')
              ann_in
            ≡ (ok b, next)))
login_opens_example =
    login_opens plain lifetimes as_ann (drawn 70 "one") 1000 1001 home ann_in ann_tokens logs_in
      ((omega arith, (omega arith, tt)), ((omega arith, tt), (tt, tt))) refl refl

-- She refreshes, and the old token comes back.
abbrev ann_again : Database
ann_again = (get_db (refresh_token plain lifetimes "one" (drawn 71 "two") 2000 2001) ann_in).1

refreshes :
    get_db (refresh_token plain lifetimes "one" (drawn 71 "two") 2000 2001) ann_in
    ≡ (ok (token_response plain lifetimes 1 (drawn 71 "two") 2001), ann_again)
unfolding get_db refresh_token rotate login
refreshes = refl

none_two : tokens_by_hash "two" ann_in ≡ []
unfolding get_db login
none_two = refl

refresh_token_once_example :
    (uid : ℕ) × ((draws' draws'' : Draws) (now' signed' now'' signed'' : ℕ)
      → let ended = revoke_all uid now' ann_again in
        (get_db (refresh_token plain lifetimes "one" draws' now' signed') ann_again
          ≡ (err unauthorized, ended))
        × (count (is_unrevoked_of uid) ended.refresh_tokens ≡ 0)
        × (get_db (refresh_token plain lifetimes "two" draws'' now'' signed'') ended
            ≡ (err unauthorized, ended)))
refresh_token_once_example =
    refresh_token_once plain lifetimes "one" (drawn 71 "two") 2000 2001 ann_in ann_again
      (token_response plain lifetimes 1 (drawn 71 "two") 2001) refreshes none_two

-- Dan registers.
abbrev as_dan : RegisterRequest
as_dan = record { email = "dan@example.com"; password = "secret77"; display_name = "Dan" }

abbrev with_dan : Database
with_dan = (get_db (register plain as_dan "salt" 4 3000) home).1

registers :
    get_db (register plain as_dan "salt" 4 3000) home
    ≡ (ok (user_response (new_user as_dan as_dan.password 4 3000)), with_dan)
unfolding get_db register
registers = refl

register-login_example :
    (b : TokenResponse Payload) × (next : Database) × (get_db
        (login plain lifetimes
          (record { email = "dan@example.com"; password = "secret77" })
          (drawn 72 "three")
          3100
          3101)
        with_dan
      ≡ (ok b, next))
register-login_example =
    register-login plain lifetimes as_dan "salt" 4 3000 (drawn 72 "three") 3100 3101 home with_dan
      (user_response (new_user as_dan as_dan.password 4 3000)) registers

-- Ann logs out.
abbrev ann_out : Database
ann_out = (get_db (logout plain (some ann_tokens.access_token) 4000 4001 4002) ann_in).1

abbrev ann_claims : Payload
ann_claims = record { sub = some "ii"; exp = some 900; jti = some "j" }

token_is : ann_tokens.access_token ≡ ann_claims
unfolding create_access_token
token_is = refl

decoded : plain.decode 4000 ann_tokens.access_token ≡ some ann_claims
unfolding create_access_token
decoded = refl

logs_out :
    get_db (logout plain (some ann_tokens.access_token) 4000 4001 4002) ann_in ≡ (ok tt, ann_out)
unfolding get_db logout subject_id create_access_token
logs_out = refl

none_revoked : count (is_jti "j") ann_in.revoked_tokens ≤ 1
unfolding get_db login
none_revoked = omega arith

logout_closes_example :
    (sub : String) × (uid : ℕ) × (some "ii" ≡ some sub)
    × (plain.uuid sub ≡ some uid)
    × (count (is_unrevoked_of uid) ann_out.refresh_tokens ≡ 0)
    × ((later : ℕ)
        → get_current_user plain (some ann_tokens.access_token) later (begin ann_out)
          ≡ (err unauthorized, begin ann_out))
logout_closes_example =
    logout_closes plain ann_tokens.access_token 4000 4001 4002 900 ann_in ann_out ann_claims "j"
      logs_out decoded refl refl refl refl none_revoked

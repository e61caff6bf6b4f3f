-- ===== src/Security.antt =====
-- backend/app/core/security.py: passwords and access tokens, over bcrypt, PyJWT and hashlib.
use chore_app.Base.{ℕ, ◌+◌, ◌*◌, ◌/◌, ◌<◌, ◌≡◌, Bool, true, Option, some, String, false, same_text}
use chore_app.Session.{Action, internal_error, raise_if_none}

-- The claims of an access token; `exp` is in seconds, as PyJWT writes it.
pub record Payload : Type 0 where
  pub sub : Option String
  pub exp : Option ℕ
  pub jti : Option String

-- What the libraries offer, with what the code relies on: `hashpw` and `checkpw` give `none` where
-- bcrypt raises a ValueError, as it does on a password of more than 72 bytes; `checkpw` accepts
-- what `hashpw` made of the same password, whatever the salt; `decode`, at a time in microseconds,
-- gives back the claims of a token that has not expired, and the same claims whenever it accepts;
-- `UUID` reads what `str` writes, which is not empty. `Jwt` is the type of the encoded tokens.
pub record Crypto : Type 1 where
  pub hashpw : String → String → Option String
  pub checkpw : String → String → Option Bool
  pub checkpw-hashpw :
      (plain salt hashed : String)
      → hashpw plain salt ≡ some hashed
      → checkpw plain hashed ≡ some true
  pub sha256 : String → String
  pub Jwt : Type 0
  pub encode : Payload → Jwt
  pub decode : ℕ → Jwt → Option Payload
  pub decode-encode :
      (now : ℕ) (p : Payload) (exp : ℕ)
      → p.exp ≡ some exp
      → now < exp * 1000000
      → decode now (encode p) ≡ some p
  pub decode_same :
      (now now' : ℕ) (token : Jwt) (p q : Payload)
      → decode now token ≡ some p
      → decode now' token ≡ some q
      → q ≡ p
  pub str : ℕ → String
  pub str_filled : (id : ℕ) → same_text (str id) "" ≡ false
  pub uuid : String → Option ℕ
  pub uuid-str : (id : ℕ) → uuid (str id) ≡ some id

module _ (crypto : Crypto) where
  -- `hash_password`, with the salt that `gensalt` draws.
  abbrev pub hash_password : String → String → Action String
  hash_password plain salt = raise_if_none internal_error (crypto.hashpw plain salt)

  -- `verify_password`
  abbrev pub verify_password : String → String → Action Bool
  verify_password plain hashed = raise_if_none internal_error (crypto.checkpw plain hashed)

  -- `create_access_token` with an explicit `expires_delta`; `jti` is what `uuid4` draws, as a text.
  unfoldable pub create_access_token : String → ℕ → String → ℕ → crypto.Jwt
  create_access_token subject expires_delta jti now =
      crypto.encode (record {
        sub = some subject;
        exp = some ((now + expires_delta) / 1000000);
        jti = some jti;
      })

  -- `decode_access_token`
  abbrev pub decode_access_token : ℕ → crypto.Jwt → Option Payload
  decode_access_token now token = crypto.decode now token

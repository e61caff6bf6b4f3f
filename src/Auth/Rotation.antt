-- ===== src/Auth/Rotation.antt =====
-- backend/app/api/auth.py: the family of a refresh token across `refresh`.
use chore_app.Base.{
  update_where_none, ℕ, ◌≡◌, refl, sym, ap, ◌∙◌, inl, inr, false, List, [], ◌∷◌, arith, String, leb,
  ◌==◌, ==_refl, same_text, same_text_refl, same_text→eq, is_none, Bool-cases, Option-cases, count,
  update_where, filter-updated, filter-append,
}
use chore_app.Models.{RefreshToken, Database}
use chore_app.Session.{ok, err, unauthorized, get_db}
use chore_app.Security.{Crypto}
use chore_app.Auth.{
  TokenResponse, TokenSettings, Draws, tokens_by_hash, is_unrevoked_of, revoke, revoke_all, issued,
  token_response, add_refresh_token, rotate, refuse_reuse, refresh_token,
}

pub none_unrevoked :
    (uid now : ℕ) (rows : List RefreshToken)
    → count (is_unrevoked_of uid) (update_where (is_unrevoked_of uid) (revoke now) rows) ≡ 0
none_unrevoked uid now [] = refl
none_unrevoked uid now (t ∷ rows) = ground (arith, none_unrevoked uid now rows)

module _ (crypto : Crypto) (settings : TokenSettings) where
  -- A request with a revoked token.
  pub refresh_token-replay :
      (raw : String) (draws : Draws) (now signed : ℕ) (db : Database) (t : RefreshToken)
      → tokens_by_hash (crypto.sha256 raw) db ≡ t ∷ []
      → is_none t.revoked_at ≡ false
      → get_db (refresh_token crypto settings raw draws now signed) db
        ≡ (err unauthorized, revoke_all t.user_id now db)
  unfolding get_db refresh_token refuse_reuse
  refresh_token-replay raw draws now signed db t found used = elim (Option-cases t.revoked_at) [
    | inl never ↦ cc (rw never at used)
    | inr (at_time, revoked) ↦ rw (found, revoked) refl
  ]

  -- The rows after a rotation.
  abbrev rotated : RefreshToken → Draws → ℕ → Database → Database
  rotated t draws now db =
      add_refresh_token (issued crypto settings t.user_id draws now) (record db {
        refresh_tokens = update_where (λ r. r.id == t.id) (revoke now) db.refresh_tokens;
      })

  record Rotates (raw : String) (draws : Draws) (now signed : ℕ) (db after : Database)
      (a : TokenResponse crypto.Jwt) : Type 0 where
    stored : RefreshToken
    found : tokens_by_hash (crypto.sha256 raw) db ≡ stored ∷ []
    valid : leb stored.expires_at now ≡ false
    result : after ≡ rotated stored draws now db
    answer : a ≡ token_response crypto settings stored.user_id draws signed

  refresh_outcome :
      (raw : String) (draws : Draws) (now signed : ℕ) (db after : Database)
      (a : TokenResponse crypto.Jwt)
      → get_db (refresh_token crypto settings raw draws now signed) db ≡ (ok a, after)
      → Rotates raw draws now signed db after a
  unfolding get_db refresh_token refuse_reuse rotate
  refresh_outcome raw draws now signed db after a h =
      go (tokens_by_hash (crypto.sha256 raw) db) refl
    where
      go :
          (rows : List RefreshToken)
          → tokens_by_hash (crypto.sha256 raw) db ≡ rows
          → Rotates raw draws now signed db after a
      go [] e = absurd (cc (rw e at h))
      go (t ∷ k ∷ l) e = absurd (cc (rw e at h))
      go (t ∷ []) e = elim (Option-cases t.revoked_at) [
        | inr (at_time, revoked) ↦ absurd (cc (rw (e, revoked) at h))
        | inl never ↦ elim (Bool-cases (leb t.expires_at now)) [
          | inl late ↦ absurd (cc (rw (e, never, late) at h))
          | inr valid ↦
              let w = rw (e, never, valid) at h in
              record {
                stored = t;
                found = e;
                valid = valid;
                result = ap (λ r. r.1) (sym w);
                answer = cc;
              }
        ]
      ]

  module _ (raw : String) (draws : Draws) (now signed : ℕ) (db after : Database)
      (a : TokenResponse crypto.Jwt) (r : Rotates raw draws now signed db after a)
      (unused : tokens_by_hash (crypto.sha256 draws.raw_refresh) db ≡ []) where
    abbrev t : RefreshToken
    t = r.stored

    abbrev fresh : RefreshToken
    fresh = issued crypto settings t.user_id draws now

    -- The hashes differ, since one is in the table and the other is not.
    other_hash : same_text (crypto.sha256 draws.raw_refresh) (crypto.sha256 raw) ≡ false
    other_hash =
        elim (Bool-cases (same_text (crypto.sha256 draws.raw_refresh) (crypto.sha256 raw))) [
          | inr other ↦ other
          | inl same ↦
              let e = same_text→eq (crypto.sha256 draws.raw_refresh) (crypto.sha256 raw) same in
              cc (sym (ap (λ h. tokens_by_hash h db) e ∙ r.found) ∙ unused)
        ]

    spent : tokens_by_hash (crypto.sha256 raw) after ≡ revoke now t ∷ []
    spent = rw (r.result) (
        filter-append (λ x. same_text x.token_hash (crypto.sha256 raw))
          (update_where (λ x. x.id == t.id) (revoke now) db.refresh_tokens) (fresh ∷ [])
        ∙ rw
            (
              filter-updated (λ x. same_text x.token_hash (crypto.sha256 raw)) (λ x. x.id == t.id)
                  (revoke now) db.refresh_tokens (λ x. refl),
              r.found,
              ==_refl t.id,
              other_hash,
            )
            refl)

    abbrev ended : ℕ → Database
    ended now' = revoke_all t.user_id now' after

    no_more : (now' : ℕ) → count (is_unrevoked_of t.user_id) (ended now').refresh_tokens ≡ 0
    no_more now' = none_unrevoked t.user_id now' after.refresh_tokens

    successor :
        (now' : ℕ)
        → tokens_by_hash (crypto.sha256 draws.raw_refresh) (ended now') ≡ revoke now' fresh ∷ []
    successor now' = rw (r.result) (
        filter-updated (λ x. same_text x.token_hash (crypto.sha256 draws.raw_refresh))
          (is_unrevoked_of t.user_id) (revoke now') (rotated t draws now db).refresh_tokens
          (λ x. refl)
        ∙ rw
            (
              filter-append (λ x. same_text x.token_hash (crypto.sha256 draws.raw_refresh))
                  (update_where (λ x. x.id == t.id) (revoke now) db.refresh_tokens) (fresh ∷ []),
              filter-updated (λ x. same_text x.token_hash (crypto.sha256 draws.raw_refresh))
                  (λ x. x.id == t.id) (revoke now) db.refresh_tokens (λ x. refl),
              unused,
              same_text_refl (crypto.sha256 draws.raw_refresh),
              ==_refl t.user_id,
            )
            refl)

    settled : (now' now'' : ℕ) → revoke_all t.user_id now'' (ended now') ≡ ended now'
    settled now' now'' = λ i. record (ended now') {
      refresh_tokens =
          update_where_none (is_unrevoked_of t.user_id) (revoke now'') (ended now').refresh_tokens
            (no_more now') i;
    }

    refused_later :
        (now' : ℕ) (draws'' : Draws) (now'' signed'' : ℕ)
        → get_db
            (refresh_token crypto settings draws.raw_refresh draws'' now'' signed'')
            (ended now')
          ≡ (err unauthorized, ended now')
    refused_later now' draws'' now'' signed'' =
        refresh_token-replay draws.raw_refresh draws'' now'' signed'' (ended now')
          (revoke now' fresh) (successor now') refl
        ∙ ap (λ d. (err unauthorized, d)) (settled now' now'')

-- After a refresh that succeeded, with a new token whose hash no row has, a second request with the
-- old token is refused with 401 at any time, and this refusal is committed with every refresh token
-- of the user revoked: a request with the token that the first refresh returned is then refused
-- too, and changes nothing.
pub refresh_token_once :
    (crypto : Crypto) (settings : TokenSettings) (raw : String) (draws : Draws) (now signed : ℕ)
    (db after : Database) (a : TokenResponse crypto.Jwt)
    → get_db (refresh_token crypto settings raw draws now signed) db ≡ (ok a, after)
    → tokens_by_hash (crypto.sha256 draws.raw_refresh) db ≡ []
    → (uid : ℕ) × ((draws' draws'' : Draws) (now' signed' now'' signed'' : ℕ)
        → let ended = revoke_all uid now' after in
          (get_db (refresh_token crypto settings raw draws' now' signed') after
            ≡ (err unauthorized, ended))
          × (count (is_unrevoked_of uid) ended.refresh_tokens ≡ 0)
          × (get_db (refresh_token crypto settings a.refresh_token draws'' now'' signed'') ended
              ≡ (err unauthorized, ended)))
refresh_token_once crypto settings raw draws now signed db after a h unused =
    let r = refresh_outcome crypto settings raw draws now signed db after a h in
    (
      r.stored.user_id,
      λ draws' draws'' now' signed' now'' signed''. (
        refresh_token-replay crypto settings raw draws' now' signed' after (revoke now r.stored)
            (spent crypto settings raw draws now signed db after a r unused) refl,
        no_more crypto settings raw draws now signed db after a r unused now',
        rw (ap (λ x. x.refresh_token) r.answer) (
            refused_later crypto settings raw draws now signed db after a r unused now' draws''
              now'' signed''),
      ),
    )

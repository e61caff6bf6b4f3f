-- ===== src/Auth/Closing.antt =====
-- backend/app/api/auth.py: the tokens of a session after `logout`.
use chore_app.Base.{
  ℕ, ◌*◌, ◌≤◌, ◌≡◌, refl, sym, ap, ◌∙◌, inl, inr, Bool, true, false, some, List, [], ◌∷◌, arith,
  String, ◌==◌, same_text, same_text_refl, Bool-cases, Option-cases, filter, filter-append, any,
  count,
}
use chore_app.Models.{RevokedToken, Database}
use chore_app.Session.{Session, ok, err, unauthorized, get_db}
use chore_app.Session.Outcomes.{begin}
use chore_app.Security.{Payload, Crypto}
use chore_app.Deps.{get_current_user, refuse_revoked, revoked_rows}
use chore_app.Auth.{is_unrevoked_of, revoke_all, insert_revoked, blacklist, subject_id, logout}
use chore_app.Auth.Rotation.{none_unrevoked}

-- A row of a `jti`, and the rows of it, at most one.
abbrev pub is_jti : String → RevokedToken → Bool
is_jti jti t = same_text t.jti jti

any_found :
    (jti : String) (rows : List RevokedToken)
    → any (is_jti jti) rows ≡ true
    → count (is_jti jti) rows ≤ 1
    → (t : RevokedToken) × (filter (is_jti jti) rows ≡ t ∷ [])
any_found jti [] h one = cc
any_found jti (x ∷ rows) h one = elim (Bool-cases (is_jti jti x)) [
  | inl hit ↦ (x, rw hit (ap (◌∷◌ x) (rest rows (ground arith))))
  | inr miss ↦ let (t, e) = any_found jti rows (rw miss at h) (rw miss at one) in (t, rw miss e)
]
  where
    rest : (l : List RevokedToken) → count (is_jti jti) l ≡ 0 → filter (is_jti jti) l ≡ []
    rest [] z = refl
    rest (y ∷ l) z = ground (arith, rest l)

none_found :
    (jti : String) (rows : List RevokedToken)
    → any (is_jti jti) rows ≡ false
    → filter (is_jti jti) rows ≡ []
none_found jti [] h = refl
none_found jti (x ∷ rows) h = ground (arith, none_found jti rows)

-- After the insertion the `jti` has exactly one row.
insert_revoked-found :
    (t : RevokedToken) (rows : List RevokedToken)
    → count (is_jti t.jti) rows ≤ 1
    → (u : RevokedToken) × (filter (is_jti t.jti) (insert_revoked t rows) ≡ u ∷ [])
insert_revoked-found t rows one = elim (Bool-cases (any (is_jti t.jti) rows)) [
  | inl there ↦ let (u, e) = any_found t.jti rows there one in (u, rw there e)
  | inr absent ↦ (
    t,
    rw absent (
        filter-append (is_jti t.jti) rows (t ∷ [])
        ∙ rw (none_found t.jti rows absent, same_text_refl t.jti) refl),
  )
]

module _ (crypto : Crypto) where
  -- A request with a token whose `jti` is in the table.
  refused_jti :
      (token : crypto.Jwt) (now made : ℕ) (s : Session) (p : Payload) (jti : String)
      (t : RevokedToken)
      → crypto.decode made token ≡ some p
      → p.jti ≡ some jti
      → same_text jti "" ≡ false
      → revoked_rows jti s.working ≡ t ∷ []
      → get_current_user crypto (some token) now s ≡ (err unauthorized, s)
  unfolding get_current_user refuse_revoked
  refused_jti token now made s p jti t decoded named filled found =
      elim (Option-cases (crypto.decode now token)) [
        | inl invalid ↦ rw invalid refl
        | inr (q, valid) ↦
            let same = crypto.decode_same made now token p q decoded valid in
            rw (valid, ap (λ x. x.jti) same, named, filled, found) refl
      ]

  -- What a logout writes.
  abbrev closed : Payload → ℕ → ℕ → ℕ → Database → Database
  closed p uid inserted now db = revoke_all uid now (blacklist p.jti p.exp inserted db)

  logout_outcome :
      (token : crypto.Jwt) (made inserted now : ℕ) (db after : Database) (p : Payload)
      → get_db (logout crypto (some token) made inserted now) db ≡ (ok tt, after)
      → crypto.decode made token ≡ some p
      → (sub : String) × (uid : ℕ) × (p.sub ≡ some sub)
        × (crypto.uuid sub ≡ some uid)
        × (after ≡ closed p uid inserted now db)
  unfolding get_db logout subject_id
  logout_outcome token made inserted now db after p h decoded = elim (Option-cases p.sub) [
    | inl missing ↦ absurd (cc (rw (decoded, missing) at h))
    | inr (sub, given) ↦ elim (Option-cases (crypto.uuid sub)) [
      | inl bad ↦ absurd (cc (rw (decoded, given, bad) at h))
      | inr (uid, parsed) ↦
          (sub, uid, given, parsed, ap (λ r. r.1) (sym (rw (decoded, given, parsed) at h)))
    ]
  ]

-- After a logout that succeeded, with a token that has a `jti` and an expiry, every request with
-- that access token is refused with 401 and changes nothing, and every refresh token of the user is
-- revoked. The condition is that the table had at most one row for the `jti`, its key.
pub logout_closes :
    (crypto : Crypto) (token : crypto.Jwt) (made inserted now exp : ℕ) (db after : Database)
    (p : Payload) (jti : String)
    → get_db (logout crypto (some token) made inserted now) db ≡ (ok tt, after)
    → crypto.decode made token ≡ some p
    → p.jti ≡ some jti
    → same_text jti "" ≡ false
    → p.exp ≡ some exp
    → (exp == 0) ≡ false
    → count (is_jti jti) db.revoked_tokens ≤ 1
    → (sub : String) × (uid : ℕ) × (p.sub ≡ some sub)
      × (crypto.uuid sub ≡ some uid)
      × (count (is_unrevoked_of uid) after.refresh_tokens ≡ 0)
      × ((later : ℕ)
          → get_current_user crypto (some token) later (begin after)
            ≡ (err unauthorized, begin after))
logout_closes crypto token made inserted now exp db after p jti h decoded named filled dated pos
      one =
    let (sub, uid, given, parsed, result) =
      logout_outcome crypto token made inserted now db after p h decoded in
    let revoked : RevokedToken = record {
      jti = jti;
      revoked_at = inserted;
      expires_at = exp * 1000000;
    } in
    let (row, found) = insert_revoked-found revoked db.revoked_tokens one in
    let written : revoked_rows jti after ≡ row ∷ [] =
      rw (result, named, dated, filled, pos) found in
    (
      sub,
      uid,
      given,
      parsed,
      rw result (none_unrevoked uid now (blacklist p.jti p.exp inserted db).refresh_tokens),
      λ later.
          refused_jti crypto token later made (begin after) p jti row decoded named filled written,
    )

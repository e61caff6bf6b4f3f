-- ===== src/Migrations/Emails.antt =====
-- backend/alembic/versions/b7c1d4e9f2a3_normalize_email_case.py: the users after the migration.
use chore_app.Base.{
  ◌≤◌, ◌<◌, ◌≡◌, refl, ap, ◌∙◌, ◌⊎◌, inl, inr, String, Bool, true, false, not, List, [], ◌∷◌, map,
  arith, ltb, same_text, same_text_refl, same_text→eq, Bool-cases, any, filter, filter-map, count,
  update_where,
}
use chore_app.Models.{User, Database}
use chore_app.Auth.{users_by_email}
use chore_app.Migrations.{
  collided, upgraded, in_group, group_keys, collisions, lower_email, lower_emails, create_index,
  upgrade,
}

kept_key :
    (q : String → Bool) (l : List String) (e : String) (r : List String)
    → filter q l ≡ e ∷ r
    → q e ≡ true
kept_key q [] e r h = cc
kept_key q (x ∷ l) e r h = elim (Bool-cases (q x)) [
  | inl good ↦ let same : x ≡ e = cc (rw good at h) in rw (← same) good
  | inr bad ↦ kept_key q l e r (rw bad at h)
]

no_key :
    (q : String → Bool) (l : List String) (e : String)
    → filter q l ≡ []
    → any (same_text e) l ≡ true
    → q e ≡ false
no_key q [] e h k = cc
no_key q (x ∷ l) e h k = elim (Bool-cases (q x)) [
  | inl good ↦ cc (rw good at h)
  | inr bad ↦ elim (Bool-cases (same_text e x)) [
    | inl same ↦ rw (same_text→eq e x same) bad
    | inr other ↦ no_key q l e (rw bad at h) (rw other at k)
  ]
]

module _ (lower : String → String) where
  keys-has :
      (e : String) (us : List User)
      → 1 ≤ count (in_group lower e) us
      → any (same_text e) (group_keys lower us) ≡ true
  unfolding group_keys
  keys-has e [] h = absurd (omega (arith, h))
  keys-has e (u ∷ us) h = elim (Bool-cases (same_text (lower u.email) e)) [
    | inl same ↦
        rw (same_text→eq (lower u.email) e same)
          (elim (Bool-cases (any (same_text e) (group_keys lower us))) [
            | inl there ↦ rw there there
            | inr absent ↦ rw (absent, same_text_refl e) refl
          ])
    | inr other ↦
        let later = keys-has e us (ground (arith, h, other)) in
        elim (Bool-cases (any (same_text (lower u.email)) (group_keys lower us))) [
          | inl there ↦ rw there later
          | inr absent ↦ rw absent (ground (arith, later))
        ]
  ]

  -- No two accounts have the same address up to case.
  collisions-none :
      (us : List User) → collisions lower us ≡ [] → (e : String) → count (in_group lower e) us ≤ 1
  unfolding collisions
  collisions-none us h e = elim (Bool-cases (ltb 1 (count (in_group lower e) us))) [
    | inr few ↦ ground (arith, few)
    | inl many ↦ cc (
      many,
      no_key (λ x. ltb 1 (count (in_group lower x) us)) (group_keys lower us) e h
          (keys-has e us (ground (arith, many))),
    )
  ]

  lowered :
      (us : List User)
      → update_where (λ u. not (same_text u.email (lower u.email))) (lower_email lower) us
        ≡ map (lower_email lower) us
  lowered [] = refl
  lowered (u ∷ us) = elim (Bool-cases (same_text u.email (lower u.email))) [
    | inl same ↦
        rw (same, lowered us)
          (ap (λ v. record u { email = v } ∷ map (lower_email lower) us)
            (same_text→eq u.email (lower u.email) same))
    | inr other ↦ rw (other, lowered us) refl
  ]

  module _ (lower_idem : (s : String) → lower (lower s) ≡ lower s) where
    group_keys-lowered :
        (us : List User) → group_keys lower (map (lower_email lower) us) ≡ group_keys lower us
    unfolding group_keys
    group_keys-lowered [] = refl
    group_keys-lowered (u ∷ us) = rw (lower_idem u.email, group_keys-lowered us) refl

    count-lowered :
        (e : String) (us : List User)
        → count (in_group lower e) (map (lower_email lower) us) ≡ count (in_group lower e) us
    count-lowered e [] = refl
    count-lowered e (u ∷ us) = rw (lower_idem u.email, count-lowered e us) refl

    collisions-lowered :
        (us : List User) → collisions lower (map (lower_email lower) us) ≡ collisions lower us
    unfolding collisions
    collisions-lowered us =
        λ i. filter (λ x. ltb 1 (count-lowered x us i)) (group_keys-lowered us i)

    -- The migration either raises with an address that two accounts or more share up to case, or no
    -- two accounts share one, and then it succeeds, without an error of the unique index, and a
    -- lookup by an address in lower case finds exactly the accounts that had the address up to
    -- case, with the address in lower case. The condition is that lower() changes nothing on its
    -- own results.
    pub upgrade_outcome :
        (db : Database)
        → ((e : String) × (es : List String) × (upgrade lower db ≡ collided (e ∷ es))
            × (1 < count (in_group lower e) db.users))
          ⊎ ((after : Database) × (upgrade lower db ≡ upgraded after)
              × ((e : String) → count (in_group lower e) db.users ≤ 1)
              × ((e : String)
                  → users_by_email (lower e) after
                    ≡ map (lower_email lower) (filter (in_group lower (lower e)) db.users)))
    unfolding upgrade create_index collisions
    upgrade_outcome db = go (collisions lower db.users) refl
      where
        go :
            (found : List String)
            → collisions lower db.users ≡ found
            → ((e : String) × (es : List String) × (upgrade lower db ≡ collided (e ∷ es))
                × (1 < count (in_group lower e) db.users))
              ⊎ ((after : Database) × (upgrade lower db ≡ upgraded after)
                  × ((e : String) → count (in_group lower e) db.users ≤ 1)
                  × ((e : String)
                      → users_by_email (lower e) after
                        ≡ map (lower_email lower) (filter (in_group lower (lower e)) db.users)))
        go (e ∷ es) h =
            let many =
              kept_key (λ x. ltb 1 (count (in_group lower x) db.users)) (group_keys lower db.users)
                e es h in
            inl (e, es, rw h refl, ground (arith, many))
        go [] h = inr (
          lower_emails lower db,
          rw (h, ap (collisions lower) (lowered db.users) ∙ collisions-lowered db.users ∙ h) refl,
          collisions-none db.users h,
          λ e.
              ap (filter (λ u. same_text u.email (lower e))) (lowered db.users)
              ∙ filter-map (λ u. same_text u.email (lower e)) (lower_email lower) db.users,
        )

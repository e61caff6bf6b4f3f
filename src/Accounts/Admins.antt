-- ===== src/Accounts/Admins.antt =====
-- backend/app/services/account_deletion.py: the admins of the households across `delete_account`.
use chore_app.Base.{
  ℕ, ◌+◌, ◌≤◌, ◌≡◌, refl, sym, ap, ◌∙◌, ◌⊎◌, inl, inr, true, false, ◌&&◌, not, List, [], ◌∷◌, map,
  arith, leb, String, ◌==◌, Bool-cases, any, count, filter, All-filter, All-map, IsKeyed, key_found,
  Answer-cases,
}
use chore_app.Models.{
  User, Household, HouseholdMembership, Database, is_active_of, is_active_admin_in,
  delete_households, delete_user,
}
use chore_app.Session.{Session, ok, get_db}
use chore_app.Session.Outcomes.{begin, Result-cases}
use chore_app.Engine.{Engine}
use chore_app.Engine.Orders.{any-perm, count-filter}
use chore_app.Security.{Crypto}
use chore_app.Assignment.{household_rows}
use chore_app.Members.{count_active_admins}
use chore_app.Accounts.{
  Plan, delete_planned, leave_all, redistribute_all, delete_user_account, delete_account,
}
use chore_app.Accounts.Plans.{is_safe, is_empty, has_key, IsPlanned, plan_all-Checks}
use chore_app.Accounts.Others.{
  is_other_admin, admins_split, own_admin_rows, is_own, safe_household, Owned, leave_all-others,
  leave_all-households, delete_planned-others, redistribute_all-keeps, no_household, planned_gone,
}

module _ (engine : Engine) (uid now : ℕ) where
  -- The rows of the query of pass 1.
  pub own_memberships : Database → List HouseholdMembership
  own_memberships db =
      engine.scan HouseholdMembership (filter (λ m. m.user_id == uid && m.is_active) db.memberships)

  -- A deletion that went through: its plan, and what pass 2 leaves of the households and the
  -- memberships.
  pub record Deletes (db after : Database) : Type 0 where
    pub plan : Plan
    pub planned : IsPlanned db (own_memberships db) plan
    pub households :
        map (λ h. h.id) after.households
        ≡ map (λ h. h.id) (delete_planned plan.households_to_delete db).households
    pub memberships :
        after.memberships
        ≡ filter
            (λ m. not (m.user_id == uid))
            (leave_all plan.memberships_to_leave
              (delete_planned plan.households_to_delete db)).memberships

  delete_outcome :
      (s s' : Session)
      → delete_user_account engine uid now s ≡ (ok tt, s')
      → Deletes s.working s'.working
  unfolding delete_user_account delete_user own_memberships
  delete_outcome s s' h = elim (plan_all-Checks (own_memberships s.working) s) [
    | inl (x, refused) ↦ absurd (cc (rw refused at h))
    | inr (p, planned, known) ↦
        let left : Session = record s {
          working =
              leave_all p.memberships_to_leave (delete_planned p.households_to_delete s.working);
        } in
        let run = redistribute_all engine uid p.memberships_to_leave in
        let kept = (redistribute_all-keeps engine uid p.memberships_to_leave).at left in
        elim (Result-cases run left) [
          | inl (x, failed) ↦ absurd (cc (rw (planned, failed) at h))
          | inr (a, moved) ↦
              let e = ap (λ r. r.1.working) (sym (rw (planned, moved) at h)) in
              record {
                plan = p;
                planned = known;
                households =
                    ap (λ d. map (λ x. x.id) d.households) e
                    ∙ ap (λ v. v.0) kept
                    ∙ ap (map (λ x. x.id)) (
                        leave_all-households p.memberships_to_leave
                          (delete_planned p.households_to_delete s.working));
                memberships =
                    ap (λ d. d.memberships) e
                    ∙ ap (λ v. filter (λ m. not (m.user_id == uid)) v.1) kept;
              }
        ]
  ]

-- The rows whose keys the query of pass 1 finds are the user's.
owned :
    (engine : Engine) (uid now : ℕ) (db : Database)
    → IsKeyed (λ m. m.id) db.memberships
    → Owned uid (has_key (own_memberships engine uid now db)) db.memberships
unfolding own_memberships
owned engine uid now db keyed =
    All-map
      (λ x found chosen.
        let e =
          sym found
          ∙ sym (
              any-perm (λ y. y.id == x.id)
                (engine.scan-perm HouseholdMembership (filter (is_own uid) db.memberships)))
          ∙ chosen in
        ground (arith, e))
      db.memberships (key_found (λ m. m.id) (is_own uid) db.memberships keyed)

-- The admins of a household that stays, after a deletion that went through.
deleted_admins :
    (engine : Engine) (uid now k : ℕ) (db after : Database) (d : Deletes engine uid now db after)
    → IsKeyed (λ m. m.id) db.memberships
    → any (λ j. j == k) d.plan.households_to_delete ≡ false
    → count_active_admins k after ≡ count (is_other_admin k uid) db.memberships
unfolding delete_households
deleted_admins engine uid now k db after d keyed stays =
    let ids = d.plan.households_to_delete in
    let own = has_key (own_memberships engine uid now db) in
    ap (count (is_active_admin_in k)) d.memberships
    ∙ count-filter (λ m. not (m.user_id == uid)) (is_active_admin_in k)
        (leave_all d.plan.memberships_to_leave (delete_planned ids db)).memberships
    ∙ leave_all-others k uid own d.plan.memberships_to_leave (delete_planned ids db)
        d.planned.chosen (still ids)
    ∙ delete_planned-others k uid ids db stays
  where
    still :
        (ids : List ℕ)
        → Owned uid
            (has_key (own_memberships engine uid now db))
            (delete_planned ids db).memberships
    still [] = owned engine uid now db keyed
    still (i ∷ ids) =
        All-filter (λ m. not (any (λ j. j == m.household_id) (i ∷ ids))) (λ x g kept. g)
          db.memberships (owned engine uid now db keyed)

delete_user_account-admins :
    (engine : Engine) (uid now k : ℕ) (db after : Database) (d : Deletes engine uid now db after)
    → IsKeyed (λ m. m.id) db.memberships
    → count (is_active_of k uid) db.memberships ≤ 1
    → 1 ≤ count_active_admins k db
    → (any (λ i. i == k) (map (λ h. h.id) after.households) ≡ false)
      ⊎ (1 ≤ count_active_admins k after)
unfolding own_memberships delete_households
delete_user_account-admins engine uid now k db after d keyed single admins =
    elim (Bool-cases (any (λ j. j == k) ids)) [
      | inl gone ↦ inl (ap (any (λ i. i == k)) d.households ∙ planned_gone k ids db gone)
      | inr stays ↦
          let same = deleted_admins engine uid now k db after d keyed stays in
          let own_rows = count (λ m. m.user_id == uid && is_active_admin_in k m) db.memberships in
          elim (Bool-cases (leb 1 own_rows)) [
            | inr plain ↦ inr (rw same (ground (arith, split, admins, plain)))
            | inl admin_row ↦
                let safe =
                  safe_household db ids k uid db.memberships
                    (sym (
                        any-perm (λ m. not (is_safe db ids m))
                          (engine.scan-perm HouseholdMembership
                            (filter (is_own uid) db.memberships)))
                      ∙ d.planned.safe)
                    (ground (arith, admin_row)) in
                elim (Bool-cases (is_empty (household_rows k db))) [
                  | inl missing ↦
                      inl (ap (any (λ i. i == k)) d.households ∙ never_there ids missing)
                  | inr there ↦
                      let two : leb 2 (count_active_admins k db) ≡ true =
                        ground (arith, safe, there, stays) in
                      inr (rw same (ground (arith, split, two, bounded)))
                ]
          ]
    ]
  where
    ids : List ℕ
    ids = d.plan.households_to_delete

    split :
        count (is_active_admin_in k) db.memberships
        ≡ count (is_other_admin k uid) db.memberships
          + count (λ m. m.user_id == uid && is_active_admin_in k m) db.memberships
    split = admins_split k uid db.memberships

    bounded : count (λ m. m.user_id == uid && is_active_admin_in k m) db.memberships ≤ 1
    bounded = omega (arith, own_admin_rows k uid db.memberships, single)

    never_there :
        (ids : List ℕ)
        → is_empty (household_rows k db) ≡ true
        → any (λ i. i == k) (map (λ h. h.id) (delete_planned ids db).households) ≡ false
    never_there [] e = no_household k db.households e
    never_there (i ∷ ids) e = still_none db.households (no_household k db.households e)
      where
        still_none :
            (hs : List Household)
            → any (λ i. i == k) (map (λ h. h.id) hs) ≡ false
            → any
                (λ i. i == k)
                (map (λ h. h.id) (filter (λ h. not (any (λ j. j == h.id) (i ∷ ids))) hs))
              ≡ false
        still_none [] n = refl
        still_none (x ∷ hs) n = ground (arith, n, still_none hs)

-- The deletion behind a request that succeeded.
pub delete_account-Deletes :
    (engine : Engine) (crypto : Crypto) (password : String) (user : User) (now : ℕ)
    (db after : Database)
    → get_db (delete_account engine crypto password user now) db ≡ (ok tt, after)
    → Deletes engine user.id now db after
unfolding get_db delete_account
delete_account-Deletes engine crypto password user now db after h =
    elim (Answer-cases (crypto.checkpw password user.password_hash)) [
      | inr (inl raises) ↦ absurd (cc (rw raises at h))
      | inr (inr wrong) ↦ absurd (cc (rw wrong at h))
      | inl right ↦ elim (Result-cases (delete_user_account engine user.id now) (begin db)) [
        | inl (x, failed) ↦ absurd (cc (rw (right, failed) at h))
        | inr (a, done) ↦
            let e = ap (λ r. r.1) (rw (right, done) at h) in
            let s' = (delete_user_account engine user.id now (begin db)).1 in
            rw (← e) (delete_outcome engine user.id now (begin db) s' done)
      ]
    ]

-- A user who deletes the account leaves no household without an admin: each household that had an
-- active admin is deleted, or has one afterwards. The conditions are that the keys of the
-- memberships are distinct and that the user has at most one active membership of the household.
pub delete_account_keeps_admin :
    (engine : Engine) (crypto : Crypto) (password : String) (user : User) (now k : ℕ)
    (db after : Database)
    → get_db (delete_account engine crypto password user now) db ≡ (ok tt, after)
    → IsKeyed (λ m. m.id) db.memberships
    → count (is_active_of k user.id) db.memberships ≤ 1
    → 1 ≤ count_active_admins k db
    → (any (λ i. i == k) (map (λ h. h.id) after.households) ≡ false)
      ⊎ (1 ≤ count_active_admins k after)
delete_account_keeps_admin engine crypto password user now k db after h keyed single admins =
    delete_user_account-admins engine user.id now k db after
      (delete_account-Deletes engine crypto password user now db after h) keyed single admins

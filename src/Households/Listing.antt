-- ===== src/Households/Listing.antt =====
-- backend/app/api/households.py: the listing of a user's households, and reading one of them.
use mathlib.Core.List.{Perm}
use mathlib.Core.List.Perm
use chore_app.Base.{
  any, ==_refl, get_or, lookup, lookup-insert, ◌+◌, ℕ, ◌≤◌, ◌≡◌, refl, ap, ◌∙◌, ◌⊎◌, inl, inr, Bool,
  true, false, ◌&&◌, List, [], ◌∷◌, map, arith, ◌==◌, ==→eq, Bool-cases, filter, filter-append,
  filter-map, filter_found, count, length, IsKeyed, count-key-le, for_each,
}
use chore_app.Models.{is_active_in, Household, Role, HouseholdMembership, Database, is_active_of}
use chore_app.Session.Outcomes.{begin}
use chore_app.Session.{Error, ok, err, get_db, forbidden, not_found}
use chore_app.Engine.{Engine}
use chore_app.Engine.Orders.{filter-perm, length-filter}
use chore_app.Deps.{require_household_member}
use chore_app.Assignment.{household_rows}
use chore_app.Households.{
  HouseholdWithRoleResponse, HouseholdDetailResponse, households_of, member_counts,
  counted_households, with_role, list_households, load_household, get_household,
}

-- What an entry of the listing says that the household's own page says too.
abbrev pub details : HouseholdWithRoleResponse → HouseholdDetailResponse
details r = record {
  id = r.id;
  name = r.name;
  created_at = r.created_at;
  member_count = r.member_count;
}

abbrev is_row : ℕ → Household × Role → Bool
is_row h row = (row.0).id == h

rows_here :
    (h : ℕ) (role : Role) (hs : List Household)
    → filter (is_row h) (map (λ x. (x, role)) (filter (λ x. x.id == h) hs))
      ≡ map (λ x. (x, role)) (filter (λ x. x.id == h) hs)
rows_here h role [] = refl
rows_here h role (x ∷ hs) = elim (Bool-cases (x.id == h)) [
  | inl same ↦ rw (same, same) (ap (λ l. (x, role) ∷ l) (rows_here h role hs))
  | inr other ↦ rw other (rows_here h role hs)
]

rows_elsewhere :
    (h k : ℕ) (role : Role) (hs : List Household)
    → (k == h) ≡ false
    → filter (is_row h) (map (λ x. (x, role)) (filter (λ x. x.id == k) hs)) ≡ []
rows_elsewhere h k role [] e = refl
rows_elsewhere h k role (x ∷ hs) e = elim (Bool-cases (x.id == k)) [
  | inl same ↦
      let other : (x.id == h) ≡ false = rw (==→eq x.id k same) e in
      rw (same, other) (rows_elsewhere h k role hs e)
  | inr away ↦ rw away (rows_elsewhere h k role hs e)
]

-- The rows of the join that are of one household.
joined_rows :
    (h uid : ℕ) (db : Database) (ms : List HouseholdMembership)
    → filter (is_row h) (households_of uid ms db)
      ≡ for_each
          (filter (is_active_of h uid) ms)
          (λ m. map (λ x. (x, m.role)) (household_rows h db))
unfolding households_of
joined_rows h uid db [] = refl
joined_rows h uid db (m ∷ ms) = elim (Bool-cases (m.user_id == uid && m.is_active)) [
  | inr other ↦
      let away : is_active_of h uid m ≡ false = ground (arith, other) in
      rw (other, away) (joined_rows h uid db ms)
  | inl own ↦ elim (Bool-cases (m.household_id == h)) [
    | inl same ↦
        let here : is_active_of h uid m ≡ true = ground (arith, own, same) in
        rw
          (
            own,
            here,
            ==→eq m.household_id h same,
            filter-append (is_row h),
            rows_here h m.role db.households,
            joined_rows h uid db ms,
          )
          refl
    | inr away ↦
        let gone : is_active_of h uid m ≡ false = ground (arith, away) in
        rw
          (
            own,
            gone,
            filter-append (is_row h),
            rows_elsewhere h m.household_id m.role db.households away,
          )
          (joined_rows h uid db ms)
  ]
]

-- The bulk count, for a household that it was asked for.
member_counts_lem :
    (h : ℕ) (ids : List ℕ) (ms : List HouseholdMembership)
    → any (λ i. i == h) ids ≡ true
    → get_or 0 (lookup h (member_counts ids ms)) ≡ count (is_active_in h) ms
unfolding member_counts
member_counts_lem h ids [] asked = refl
member_counts_lem h ids (m ∷ ms) asked =
    let rest = member_counts ids ms in
    let later = member_counts_lem h ids ms asked in
    elim (Bool-cases (m.household_id == h)) [
      | inl same ↦
          rw (==→eq m.household_id h same, asked)
            (elim (Bool-cases m.is_active) [
              | inl active ↦
                  rw
                    (
                      active,
                      lookup-insert h h (get_or 0 (lookup h rest) + 1) rest,
                      ==_refl h,
                      later,
                    )
                    (omega arith)
              | inr past ↦ rw past (ground (arith, later))
            ])
      | inr other ↦ elim (Bool-cases (any (λ i. i == m.household_id) ids && m.is_active)) [
        | inl kept ↦
            let apart : (h == m.household_id) ≡ false = ground (arith, other) in
            rw
              (
                kept,
                other,
                lookup-insert h m.household_id (get_or 0 (lookup m.household_id rest) + 1) rest,
                apart,
              )
              later
        | inr left ↦ rw (left, other) later
      ]
    ]

-- An entry with the number of the household's active members.
abbrev pub with_members : Database → Household × Role → HouseholdWithRoleResponse
with_members db row = record {
  id = (row.0).id;
  name = (row.0).name;
  created_at = (row.0).created_at;
  role = row.1;
  member_count = count (is_active_in (row.0).id) db.memberships;
}

with_counts :
    (db : Database) (ids : List ℕ) (rows : List (Household × Role))
    → ((h : ℕ) → any (λ i. i == h) (map (λ r. (r.0).id) rows) ≡ true → any (λ i. i == h) ids ≡ true)
    → map (with_role (member_counts ids db.memberships)) rows ≡ map (with_members db) rows
with_counts db ids [] h = refl
with_counts db ids (row ∷ rows) h =
    rw
      (
        member_counts_lem (row.0).id ids db.memberships
            (h (row.0).id (rw (==_refl (row.0).id) refl)),
        with_counts db ids rows (λ k e. h k (ground (arith, e))),
      )
      refl

counted_households_lem :
    (db : Database) (rows : List (Household × Role))
    → counted_households rows (begin db) ≡ (ok (map (with_members db) rows), begin db)
unfolding counted_households
counted_households_lem db [] = refl
counted_households_lem db (row ∷ rows) =
    rw (with_counts db (map (λ r. (r.0).id) (row ∷ rows)) (row ∷ rows) (λ h e. e)) refl

-- A user's listing of the households changes nothing, and agrees with the page of each household: a
-- request for it is answered, and then the listing has it exactly once, with the same name, time
-- and number of members; or the request is refused, and then the listing has it not. The conditions
-- are that the keys of the households are distinct and that the user has at most one active
-- membership of a household.
pub list_households-get_household :
    (engine : Engine) (uid : ℕ) (db : Database)
    → IsKeyed (λ h. h.id) db.households
    → ((k : ℕ) → count (is_active_of k uid) db.memberships ≤ 1)
    → (rs : List HouseholdWithRoleResponse) × (get_db (list_households engine uid) db ≡ (ok rs, db))
      × ((h : ℕ)
          → ((a : HouseholdDetailResponse) × (get_db (get_household h uid) db ≡ (ok a, db))
              × Perm (map details (filter (λ r. r.id == h) rs)) (a ∷ []))
            ⊎ ((e : Error) × (get_db (get_household h uid) db ≡ (err e, db))
                × Perm (map details (filter (λ r. r.id == h) rs)) []))
unfolding get_db list_households get_household load_household require_household_member
list_households-get_household engine uid db keyed single = (
  map (with_members db) (engine.scan (Household × Role) joined),
  rw (counted_households_lem db (engine.scan (Household × Role) joined)) refl,
  λ h. page h (filter (is_active_of h uid) db.memberships) refl (household_rows h db) refl,
)
  where
    joined : List (Household × Role)
    joined = households_of uid db.memberships db

    rs : List HouseholdWithRoleResponse
    rs = map (with_members db) (engine.scan (Household × Role) joined)

    listed :
        (h : ℕ) (rows : List (Household × Role))
        → filter (is_row h) joined ≡ rows
        → Perm (map details (filter (λ r. r.id == h) rs)) (map details (map (with_members db) rows))
    listed h rows e =
        rw
          (
            filter-map (λ r. r.id == h) (with_members db) (engine.scan (Household × Role) joined),
            ← e,
          )
          (Perm.map details (
            Perm.map (with_members db)
              (filter-perm (is_row h) (engine.scan-perm (Household × Role) joined))))

    page :
        (h : ℕ) (ms : List HouseholdMembership)
        → filter (is_active_of h uid) db.memberships ≡ ms
        → (hs : List Household) → household_rows h db ≡ hs
        → ((a : HouseholdDetailResponse) × (get_db (get_household h uid) db ≡ (ok a, db))
            × Perm (map details (filter (λ r. r.id == h) rs)) (a ∷ []))
          ⊎ ((e : Error) × (get_db (get_household h uid) db ≡ (err e, db))
              × Perm (map details (filter (λ r. r.id == h) rs)) [])
    page h [] e hs f =
        inr (forbidden, rw e refl, listed h [] (joined_rows h uid db db.memberships ∙ rw e refl))
    page h (m ∷ k ∷ l) e hs f =
        absurd
          (omega (arith, single h, length-filter (is_active_of h uid) db.memberships, ap length e))
    page h (m ∷ []) e [] f = inr (
      not_found,
      rw (e, f) refl,
      listed h [] (joined_rows h uid db db.memberships ∙ rw (e, f) refl),
    )
    page h (m ∷ []) e (x ∷ y ∷ l) f = absurd (
        omega (
          arith,
          count-key-le (λ y. y.id) h db.households keyed,
          length-filter (λ y. y.id == h) db.households,
          ap length f,
        ))
    page h (m ∷ []) e (x ∷ []) f =
        let same : x.id ≡ h = ==→eq x.id h (filter_found (λ y. y.id == h) db.households f) in
        inl (
          details (with_members db (x, m.role)),
          rw (e, f, same) refl,
          listed h ((x, m.role) ∷ []) (joined_rows h uid db db.memberships ∙ rw (e, f) refl),
        )

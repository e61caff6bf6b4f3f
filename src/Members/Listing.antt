-- ===== src/Members/Listing.antt =====
-- backend/app/api/members.py: what `list_members` answers.
use mathlib.Core.List.{Perm}
use mathlib.Core.List.Perm
use chore_app.Base.{
  ℕ, String, ◌≡◌, refl, sym, ap, inl, inr, List, [], ◌∷◌, ◌++◌, map, filter, ◌==◌, All, Bool-cases,
}
use chore_app.Models.{User, Role, HouseholdMembership, Database, is_active_in}
use chore_app.Session.{Session}
use chore_app.Engine.{Engine, IsAscending}
use chore_app.Engine.Orders.{IsSortedBy-map}
use chore_app.Deps.Outcomes.{Checks, require_household_member-Checks}
use chore_app.Members.{MemberResponse, named_members, joined_at_of, member_response, list_members}

-- The names of the users with that identifier.
abbrev pub names_of : Database → ℕ → List String
names_of db user_id = map (λ u. u.display_name) (filter (λ u. u.id == user_id) db.users)

-- Each membership is that of one user.
abbrev pub HasUsers : Database → List HouseholdMembership → Type 0
HasUsers db = All (λ m. (name : String) × (names_of db m.user_id ≡ name ∷ []))

-- What the database says of a membership, and what a response says of it.
abbrev pub facts : Database → HouseholdMembership → ℕ × Role × ℕ × List String
facts db m = (m.user_id, m.role, m.joined_at, names_of db m.user_id)

abbrev pub told : MemberResponse → ℕ × Role × ℕ × List String
told r = (r.user_id, r.role, r.joined_at, r.display_name ∷ [])

abbrev row_facts : HouseholdMembership × String → ℕ × Role × ℕ × List String
row_facts row = ((row.0).user_id, (row.0).role, (row.0).joined_at, row.1 ∷ [])

told_rows :
    (rows : List (HouseholdMembership × String))
    → map told (map member_response rows) ≡ map row_facts rows
told_rows [] = refl
told_rows (row ∷ rows) = ap (λ l. row_facts row ∷ l) (told_rows rows)

named_row :
    (m : HouseholdMembership) (name : String) (us : List User)
    (rest : List (HouseholdMembership × String))
    → map (λ u. u.display_name) us ≡ name ∷ []
    → map row_facts (map (λ u. (m, u.display_name)) us ++ rest)
      ≡ (m.user_id, m.role, m.joined_at, map (λ u. u.display_name) us) ∷ map row_facts rest
named_row m name [] rest e = cc
named_row m name (u ∷ []) rest e = refl
named_row m name (u ∷ v ∷ us) rest e = cc

named_rows :
    (hid : ℕ) (db : Database) (ms : List HouseholdMembership)
    → HasUsers db ms
    → map row_facts (named_members hid ms db) ≡ map (facts db) (filter (is_active_in hid) ms)
unfolding named_members
named_rows hid db [] h = refl
named_rows hid db (m ∷ ms) h = elim (Bool-cases (is_active_in hid m)) [
  | inl here ↦
      rw
        (
          here,
          named_row m h.0.0 (filter (λ u. u.id == m.user_id) db.users) (named_members hid ms db)
              h.0.1,
          named_rows hid db ms h.1,
        )
        refl
  | inr away ↦ rw (away, named_rows hid db ms h.1) refl
]

-- Where each membership is that of one user, a request for the members of a household changes
-- nothing, and it is refused or tells the user, the role, the time of joining and the name of each
-- active membership of the household, once each and of no other, those who joined earlier first.
pub list_members_outcome :
    (engine : Engine) (hid uid : ℕ) (s : Session)
    → HasUsers s.working s.working.memberships
    → Checks (list_members engine hid uid) s (λ rs.
      IsAscending (λ r. r.joined_at) rs
      × Perm
          (map told rs)
          (map (facts s.working) (filter (is_active_in hid) s.working.memberships)))
unfolding list_members
list_members_outcome engine hid uid s h = elim (require_household_member-Checks hid uid s) [
  | inl (x, refused) ↦ inl (x, rw refused refl)
  | inr (m, granted, _) ↦ inr (
    map member_response rows,
    rw granted refl,
    (
      IsSortedBy-map member_response _ rows (engine.ascending-IsAscending _ joined_at_of joined),
      rw (told_rows rows, sym (named_rows hid s.working s.working.memberships h))
          (Perm.map row_facts (engine.ascending-perm _ joined_at_of joined)),
    ),
  )
]
  where
    joined : List (HouseholdMembership × String)
    joined = named_members hid s.working.memberships s.working

    rows : List (HouseholdMembership × String)
    rows = engine.ascending (HouseholdMembership × String) joined_at_of joined

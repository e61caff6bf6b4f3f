-- ===== src/Accounts/Plans.antt =====
-- Pass 1 of backend/app/services/account_deletion.py: what it lets through.
use chore_app.Base.{
  All-map, filter_found, ==→eq, All-append, ℕ, ◌≡◌, refl, inl, inr, Bool, true, false, ◌||◌, not,
  List, [], ◌∷◌, ◌++◌, arith, leb, ◌==◌, ==_refl, Bool-cases, any, All,
}
use chore_app.Models.{Household, HouseholdMembership, Database, is_admin}
use chore_app.Session.{Session, conflict, multiple_results}
use chore_app.Deps.Outcomes.{Checks}
use chore_app.Assignment.{household_rows}
use chore_app.Households.{count_active_members}
use chore_app.Members.{count_active_admins, refuse_sole_admin}
use chore_app.Accounts.{Plan, plan_sole, plan_shared, plan_membership, plan_all}

abbrev pub is_empty : {A : Type 0} → List A → Bool
is_empty [] = true
is_empty (x ∷ l) = false

-- The household of the membership is gone or goes, or the membership is not its only admin's.
abbrev pub is_safe : Database → List ℕ → HouseholdMembership → Bool
is_safe db ids m =
    is_empty (household_rows m.household_id db)
    || any (λ j. j == m.household_id) ids
    || not (is_admin m.role)
    || leb 2 (count_active_admins m.household_id db)

abbrev pub has_key : List HouseholdMembership → ℕ → Bool
has_key ms i = any (λ y. y.id == i) ms

-- What is known of a plan for some memberships.
pub record IsPlanned (db : Database) (ms : List HouseholdMembership) (p : Plan) : Type 0 where
  pub safe : any (λ m. not (is_safe db p.households_to_delete m)) ms ≡ false
  pub chosen : All (λ x. has_key ms x.id ≡ true) p.memberships_to_leave

plan_membership-Checks :
    (m : HouseholdMembership) (s : Session)
    → Checks (plan_membership m) s (IsPlanned s.working (m ∷ []))
unfolding plan_membership plan_sole plan_shared refuse_sole_admin
plan_membership-Checks m s =
    elim (Bool-cases (leb (count_active_members m.household_id s.working) 1)) [
      | inl sole ↦ rows (household_rows m.household_id s.working) refl sole
      | inr shared ↦ elim (Bool-cases (is_admin m.role)) [
        | inr plain ↦ inr (
          record { households_to_delete = []; memberships_to_leave = m ∷ [] },
          rw (shared, plain) refl,
          record { safe = rw plain (ground arith); chosen = (rw (==_refl m.id) refl, tt) },
        )
        | inl admin_role ↦
            elim (Bool-cases (leb (count_active_admins m.household_id s.working) 1)) [
              | inl only ↦ inl (conflict, rw (shared, admin_role, only) refl)
              | inr others ↦ inr (
                record { households_to_delete = []; memberships_to_leave = m ∷ [] },
                rw (shared, admin_role, others) refl,
                record {
                  safe = rw admin_role (ground (arith, others));
                  chosen = (rw (==_refl m.id) refl, tt);
                },
              )
            ]
      ]
    ]
  where
    rows :
        (hs : List Household)
        → household_rows m.household_id s.working ≡ hs
        → leb (count_active_members m.household_id s.working) 1 ≡ true
        → Checks (plan_membership m) s (IsPlanned s.working (m ∷ []))
    rows [] e sole = inr (
      record { households_to_delete = []; memberships_to_leave = [] },
      rw (sole, e) refl,
      record { safe = rw e refl; chosen = tt },
    )
    rows (h ∷ []) e sole =
        let own = ==→eq h.id m.household_id (filter_found (λ x. x.id == m.household_id) _ e) in
        inr (
          record { households_to_delete = h.id ∷ []; memberships_to_leave = [] },
          rw (sole, e) refl,
          record { safe = rw (e, own, ==_refl m.household_id) refl; chosen = tt },
        )
    rows (h ∷ k ∷ l) e sole = inl (multiple_results, rw (sole, e) refl)

any-++_left :
    (i : ℕ) (l k : List ℕ) → any (λ j. j == i) l ≡ true → any (λ j. j == i) (l ++ k) ≡ true
any-++_left i [] k h = cc
any-++_left i (x ∷ l) k h = ground (arith, any-++_left i l k)

any-++_right :
    (i : ℕ) (l k : List ℕ) → any (λ j. j == i) k ≡ true → any (λ j. j == i) (l ++ k) ≡ true
any-++_right i [] k h = h
any-++_right i (x ∷ l) k h = ground (arith, any-++_right i l k h)

-- More households to delete make no membership unsafe.
safe_more :
    (db : Database) (ids more : List ℕ)
    → ((i : ℕ) → any (λ j. j == i) ids ≡ true → any (λ j. j == i) more ≡ true)
    → (ms : List HouseholdMembership) → any (λ m. not (is_safe db ids m)) ms ≡ false
    → any (λ m. not (is_safe db more m)) ms ≡ false
safe_more db ids more g [] h = refl
safe_more db ids more g (m ∷ ms) h = ground (arith, h, g m.household_id, safe_more db ids more g ms)

pub plan_all-Checks :
    (ms : List HouseholdMembership) (s : Session) → Checks (plan_all ms) s (IsPlanned s.working ms)
unfolding plan_all
plan_all-Checks [] s = inr (
  record { households_to_delete = []; memberships_to_leave = [] },
  refl,
  record { safe = refl; chosen = tt },
)
plan_all-Checks (m ∷ ms) s = elim (plan_membership-Checks m s) [
  | inl (x, refused) ↦ inl (x, rw refused refl)
  | inr (p, planned, one) ↦ elim (plan_all-Checks ms s) [
    | inl (x, refused) ↦ inl (x, rw (planned, refused) refl)
    | inr (q, rest_planned, rest) ↦ inr (
      record {
        households_to_delete = p.households_to_delete ++ q.households_to_delete;
        memberships_to_leave = p.memberships_to_leave ++ q.memberships_to_leave;
      },
      rw (planned, rest_planned) refl,
      record {
        safe = ground (
          arith,
          safe_more s.working p.households_to_delete
              (p.households_to_delete ++ q.households_to_delete)
              (λ i. any-++_left i p.households_to_delete q.households_to_delete) (m ∷ []) one.safe,
          safe_more s.working q.households_to_delete
              (p.households_to_delete ++ q.households_to_delete)
              (λ i. any-++_right i p.households_to_delete q.households_to_delete) ms rest.safe,
        );
        chosen =
            All-append (λ x. has_key (m ∷ ms) x.id ≡ true) p.memberships_to_leave
              q.memberships_to_leave
              (All-map (λ x e. ground (arith, e)) p.memberships_to_leave one.chosen)
              (All-map (λ x e. ground (arith, e)) q.memberships_to_leave rest.chosen);
      },
    )
  ]
]

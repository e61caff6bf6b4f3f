-- ===== src/Accounts/Others.antt =====
-- backend/app/services/account_deletion.py: the admins of a household other than the user, through
-- the steps of pass 2.
use chore_app.Base.{
  ℕ, ◌+◌, ◌≤◌, ◌≡◌, refl, ap, ◌∙◌, inl, inr, Bool, true, false, ◌&&◌, ◌||◌, not, List, [], ◌∷◌, map,
  arith, leb, ◌==◌, ==→eq, Bool-cases, any, count, filter, update_where, All, All-map,
  count-update_same,
}
use chore_app.Models.{
  Household, HouseholdMembership, Database, is_admin, is_active_of, is_active_admin_in,
  delete_households,
}
use chore_app.Session.{Session}
use chore_app.Session.Preserves.{Preserves, Preserves-pure, Preserves-bind}
use chore_app.Engine.{Engine}
use chore_app.Assignment.{household_rows}
use chore_app.Redistribution.{redistribute_chores_for_removed_member}
use chore_app.Redistribution.Frame.{
  household_keys, redistribute-household_keys, redistribute_keeps_members,
}
use chore_app.Households.Keys.{doomed_gone}
use chore_app.Members.{with_membership, deactivate, count_active_admins}
use chore_app.Accounts.{delete_planned, leave_all, redistribute_all}
use chore_app.Accounts.Plans.{is_safe, is_empty}

-- An active admin of a household other than the user.
abbrev pub is_other_admin : ℕ → ℕ → HouseholdMembership → Bool
is_other_admin k uid m = not (m.user_id == uid) && is_active_admin_in k m

-- The admins are the others and the user.
pub admins_split :
    (k uid : ℕ) (ms : List HouseholdMembership)
    → count (is_active_admin_in k) ms
      ≡ count (is_other_admin k uid) ms + count (λ m. m.user_id == uid && is_active_admin_in k m) ms
admins_split k uid [] = refl
admins_split k uid (m ∷ ms) = ground (arith, admins_split k uid ms)

pub own_admin_rows :
    (k uid : ℕ) (ms : List HouseholdMembership)
    → count (λ m. m.user_id == uid && is_active_admin_in k m) ms ≤ count (is_active_of k uid) ms
own_admin_rows k uid [] = omega arith
own_admin_rows k uid (m ∷ ms) = ground (arith, own_admin_rows k uid ms)

-- The memberships that the query of pass 1 keeps.
abbrev pub is_own : ℕ → HouseholdMembership → Bool
is_own uid m = m.user_id == uid && m.is_active

-- What pass 1 says of a household where the user is an admin.
pub safe_household :
    (db : Database) (ids : List ℕ) (k uid : ℕ) (ms : List HouseholdMembership)
    → any (λ m. not (is_safe db ids m)) (filter (is_own uid) ms) ≡ false
    → 1 ≤ count (λ m. m.user_id == uid && is_active_admin_in k m) ms
    → (is_empty (household_rows k db) || any (λ j. j == k) ids || leb 2 (count_active_admins k db))
      ≡ true
safe_household db ids k uid [] h one = absurd (omega arith)
safe_household db ids k uid (m ∷ ms) h one =
    elim (Bool-cases (m.user_id == uid && is_active_admin_in k m)) [
      | inr other ↦ ground (arith, h, one, other, safe_household db ids k uid ms)
      | inl own ↦
          let at_k : m.household_id ≡ k = ground arith in
          let admin_role : is_admin m.role ≡ true = ground arith in
          let mine : is_own uid m ≡ true = ground arith in
          let here : is_safe db ids m ≡ true = ground (arith, rw mine at h) in
          let w = rw (at_k, admin_role) at here in ground (arith, w)
    ]

-- The rows whose keys are among the user's memberships are the user's.
abbrev pub Owned : ℕ → (ℕ → Bool) → List HouseholdMembership → Type 0
Owned uid chosen = All (λ x. chosen x.id ≡ true → (x.user_id == uid) ≡ true)

Owned-deactivated :
    (uid i : ℕ) (chosen : ℕ → Bool) (ms : List HouseholdMembership)
    → Owned uid chosen ms
    → Owned uid chosen (update_where (λ m. m.id == i) deactivate ms)
Owned-deactivated uid i chosen [] h = tt
Owned-deactivated uid i chosen (m ∷ ms) h = elim (Bool-cases (m.id == i)) [
  | inl hit ↦ rw hit (h.0, Owned-deactivated uid i chosen ms h.1)
  | inr miss ↦ rw miss (h.0, Owned-deactivated uid i chosen ms h.1)
]

-- Leaving takes no other admin away.
pub leave_all-others :
    (k uid : ℕ) (chosen : ℕ → Bool) (leaving : List HouseholdMembership) (db : Database)
    → All (λ m. chosen m.id ≡ true) leaving
    → Owned uid chosen db.memberships
    → count (is_other_admin k uid) (leave_all leaving db).memberships
      ≡ count (is_other_admin k uid) db.memberships
unfolding leave_all
leave_all-others k uid chosen [] db h owned = refl
leave_all-others k uid chosen (m ∷ ms) db h owned =
    leave_all-others k uid chosen ms (with_membership m.id deactivate db) h.1
      (Owned-deactivated uid m.id chosen db.memberships owned)
    ∙ count-update_same (is_other_admin k uid) (λ x. x.id == m.id) deactivate db.memberships
        (All-map
          (λ x g hit. let own = g (ap chosen (==→eq x.id m.id hit) ∙ h.0) in ground (arith, own))
          db.memberships owned)

pub leave_all-households :
    (leaving : List HouseholdMembership) (db : Database)
    → (leave_all leaving db).households ≡ db.households
unfolding leave_all
leave_all-households [] db = refl
leave_all-households (m ∷ ms) db = leave_all-households ms (with_membership m.id deactivate db)

-- Deleting other households keeps the admins of this one.
others_kept :
    (k uid : ℕ) (doomed : ℕ → Bool) (ms : List HouseholdMembership)
    → doomed k ≡ false
    → count (is_other_admin k uid) (filter (λ m. not (doomed m.household_id)) ms)
      ≡ count (is_other_admin k uid) ms
others_kept k uid doomed [] h = refl
others_kept k uid doomed (m ∷ ms) h = elim (Bool-cases (m.household_id == k)) [
  | inl same ↦
      let e = ap doomed (==→eq m.household_id k same) ∙ h in
      ground (arith, e, others_kept k uid doomed ms h)
  | inr other ↦ ground (arith, other, others_kept k uid doomed ms h)
]

pub delete_planned-others :
    (k uid : ℕ) (ids : List ℕ) (db : Database)
    → any (λ j. j == k) ids ≡ false
    → count (is_other_admin k uid) (delete_planned ids db).memberships
      ≡ count (is_other_admin k uid) db.memberships
unfolding delete_households
delete_planned-others k uid [] db h = refl
delete_planned-others k uid (i ∷ ids) db h =
    others_kept k uid (λ x. any (λ j. j == x) (i ∷ ids)) db.memberships h

-- The keys of the households, and the part that the redistribution leaves alone.
abbrev kept_view : Session → List ℕ × List HouseholdMembership
kept_view s = (household_keys s, s.working.memberships)

pub redistribute_all-keeps :
    (engine : Engine) (uid : ℕ) (ms : List HouseholdMembership)
    → Preserves kept_view (redistribute_all engine uid ms)
unfolding redistribute_all
redistribute_all-keeps engine uid [] = Preserves-pure tt
redistribute_all-keeps engine uid (m ∷ ms) =
    Preserves-bind (redistribute_chores_for_removed_member engine uid m.household_id)
      (λ _. redistribute_all engine uid ms)
      (record {
        at = λ s i. (
          (redistribute-household_keys engine m.household_id uid).at s i,
          ((redistribute_keeps_members engine m.household_id uid).at s i).0,
        );
      })
      (λ _. redistribute_all-keeps engine uid ms)

pub no_household :
    (k : ℕ) (hs : List Household)
    → is_empty (filter (λ h. h.id == k) hs) ≡ true
    → any (λ i. i == k) (map (λ h. h.id) hs) ≡ false
no_household k [] h = refl
no_household k (x ∷ hs) h = ground (arith, h, no_household k hs)

pub planned_gone :
    (k : ℕ) (ids : List ℕ) (db : Database)
    → any (λ j. j == k) ids ≡ true
    → any (λ i. i == k) (map (λ h. h.id) (delete_planned ids db).households) ≡ false
unfolding delete_households
planned_gone k [] db h = cc
planned_gone k (j ∷ ids) db h = doomed_gone (λ x. any (λ y. y == x) (j ∷ ids)) k db.households h

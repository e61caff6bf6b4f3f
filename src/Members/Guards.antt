-- ===== src/Members/Guards.antt =====
-- The checks of backend/app/api/members.py, and the admins that a change of one membership leaves.
use chore_app.Base.{
  ℕ, ◌+◌, ◌≤◌, ◌≡◌, refl, ap, ◌≢◌, ◌⊎◌, inl, inr, Bool, true, false, ◌&&◌, List, [], ◌∷◌, arith,
  leb, ◌==◌, Bool-cases, ==→eq, ==_refl, ◌∙◌, All, All-map, count-update_same, filter_only,
  All-map₂, filter, count, update_where, IsKeyed, count-key-le, same_key_passes,
  filter-update_where, count-pos_of_filter, count-update_out, count_mono, filter_found,
}
use chore_app.Models.{
  Role, member, HouseholdMembership, Database, is_admin, is_active_of, is_active_admin_in,
}
use chore_app.Session.{
  Session, Result, ok, err, conflict, not_found, multiple_results, Action, finish,
}
use chore_app.Session.Preserves.{Preserves}
use chore_app.Redistribution.Frame.{members_view}
use chore_app.Deps.Outcomes.{Checks, own_rows}
use chore_app.Members.{count_active_admins, deactivate, set_role, refuse_sole_admin, load_member}

-- The primary key of the memberships.
abbrev pub HasKeys : Database → Type 0
HasKeys db = IsKeyed (λ m. m.id) db.memberships

-- Some active membership of the household has the admin role.
abbrev pub HasAdmin : ℕ → Database → Type 0
HasAdmin hid db = 1 ≤ count_active_admins hid db

-- The invariant: the keys are distinct, and the household has an active admin.
abbrev pub IsGuarded : ℕ → Database → Type 0
IsGuarded k db = HasKeys db × HasAdmin k db

pub load_member-Checks :
    (hid uid : ℕ) (s : Session) → Checks (load_member hid uid) s (λ m. own_rows hid uid s ≡ m ∷ [])
unfolding load_member
load_member-Checks hid uid s = go (own_rows hid uid s) refl
  where
    go :
        (rows : List HouseholdMembership)
        → own_rows hid uid s ≡ rows
        → Checks (load_member hid uid) s (λ m. own_rows hid uid s ≡ m ∷ [])
    go [] e = inl (not_found, rw e)
    go (m ∷ []) e = inr (m, rw e, e)
    go (m ∷ k ∷ l) e = inl (multiple_results, rw e)

pub refuse_sole_admin-Checks :
    (guarded : Bool) (hid : ℕ) (s : Session)
    → Checks
        (refuse_sole_admin guarded hid)
        s
        (λ _. guarded ≡ true → 2 ≤ count_active_admins hid s.working)
unfolding refuse_sole_admin
refuse_sole_admin-Checks false hid s = inr (tt, refl, λ e. cc)
refuse_sole_admin-Checks true hid s =
    elim (Bool-cases (leb (count_active_admins hid s.working) 1)) [
      | inl sole ↦ inl (conflict, rw sole)
      | inr more ↦ inr (tt, rw more, λ _. ground arith)
    ]

-- An update of a membership that keeps its household and its user.
pub record KeepsOwner (f : HouseholdMembership → HouseholdMembership) : Type 0 where
  same_household : (m : HouseholdMembership) → (f m).household_id ≡ m.household_id
  same_user : (m : HouseholdMembership) → (f m).user_id ≡ m.user_id

module _ (hid uid : ℕ) (ms : List HouseholdMembership) {t : HouseholdMembership}
    (f : HouseholdMembership → HouseholdMembership) (owner : KeepsOwner f)
    (keyed : IsKeyed (λ m. m.id) ms) (found : filter (is_active_of hid uid) ms ≡ t ∷ []) where
  abbrev pub after : List HouseholdMembership
  after = update_where (λ m. m.id == t.id) f ms

  owned : All (λ m. (m.id == t.id) ≡ true → is_active_of hid uid m ≡ true) ms
  owned = same_key_passes (λ m. m.id) (is_active_of hid uid) ms keyed found

  -- An update that leaves no admin takes at most one out of any household.
  count-le-after :
      (k : ℕ)
      → ((m : HouseholdMembership) → is_active_admin_in k (f m) ≡ false)
      → count (is_active_admin_in k) ms ≤ count (is_active_admin_in k) after + 1
  count-le-after k demotes = omega (
    arith,
    count-update_out (is_active_admin_in k) (λ m. m.id == t.id) f ms demotes,
    count_mono (λ m. is_active_admin_in k m && m.id == t.id) (λ m. m.id == t.id) ms
        (λ m h. ground arith),
    count-key-le (λ m. m.id) t.id ms keyed,
  )

  -- The admins of another household stay.
  count-other :
      (k : ℕ) → k ≢ hid → count (is_active_admin_in k) after ≡ count (is_active_admin_in k) ms
  count-other k other =
      count-update_same (is_active_admin_in k) (λ m. m.id == t.id) f ms
        (All-map (λ m h e. ground (arith, h e, owner.same_household m)) ms owned)

  -- Another user's membership stays, with its role.
  others_stay :
      (cur : ℕ) → cur ≢ uid → filter (is_active_of hid cur) after ≡ filter (is_active_of hid cur) ms
  others_stay cur other =
      filter-update_where (is_active_of hid cur) (λ m. m.id == t.id) f ms
        (All-map (λ m h e. ground (arith, h e, owner.same_user m)) ms owned)

  pub other_admin_stays :
      (cur : ℕ) {c : HouseholdMembership}
      → cur ≢ uid
      → filter (is_active_of hid cur) ms ≡ c ∷ []
      → is_admin c.role ≡ true
      → 1 ≤ count (is_active_admin_in hid) after
  other_admin_stays cur {c} other own admin_role =
      count-pos_of_filter (is_active_of hid cur) (is_active_admin_in hid) after
        (others_stay cur other ∙ own)
        (let w = filter_found (is_active_of hid cur) ms own in ground arith)

  -- A member without the admin role counts nowhere.
  pub count_without_admin :
      (k : ℕ)
      → ((m : HouseholdMembership) → is_active_admin_in k (f m) ≡ false)
      → is_admin t.role ≡ false
      → count (is_active_admin_in k) after ≡ count (is_active_admin_in k) ms
  count_without_admin k demotes plain =
      count-update_same (is_active_admin_in k) (λ m. m.id == t.id) f ms
        (All-map₂ (λ m h only e. rw (demotes m, only (h e)) (ground arith)) ms owned
          (filter_only (is_active_of hid uid) ms found))

  -- What the handlers check before they take an admin away is enough in every household.
  pub keeps_admin :
      (k : ℕ)
      → ((m : HouseholdMembership) → is_active_admin_in k (f m) ≡ false)
      → (1 ≤ count (is_active_admin_in hid) after) ⊎ (2 ≤ count (is_active_admin_in hid) ms)
      → 1 ≤ count (is_active_admin_in k) ms
      → 1 ≤ count (is_active_admin_in k) after
  keeps_admin k demotes safe h = elim (Bool-cases (k == hid)) [
    | inr other ↦ rw (count-other k (λ e. cc (rw e at other, ==_refl hid))) h
    | inl same ↦
        let e : k ≡ hid = ==→eq k hid same in
        elim safe [
          | inl stays ↦ rw e stays
          | inr two ↦ omega (arith, count-le-after k demotes, rw (← e) at two)
        ]
  ]

-- The end of a request whose last part touches no membership.
pub finish_keeps :
    {A : Type 0} (k : ℕ) (m : Action A) (s : Session)
    → Preserves members_view m
    → IsGuarded k s.working
    → IsGuarded k s.committed
    → let (r, s') = m s in IsGuarded k (finish r s').1
finish_keeps {A} k m s keeps w c = go (m s).0 (m s).1 (keeps.at s)
  where
    go :
        (r : Result A) (s' : Session)
        → members_view s' ≡ members_view s
        → IsGuarded k (finish r s').1
    go (ok a) s' e = rw (ap (λ v. v.0) e) w
    go (err x) s' e = rw (ap (λ v. v.1) e) c

pub deactivate-KeepsOwner : KeepsOwner deactivate
deactivate-KeepsOwner = record { same_household = λ m. refl; same_user = λ m. refl }

pub set_role-KeepsOwner : (role : Role) → KeepsOwner (set_role role)
set_role-KeepsOwner role = record { same_household = λ m. refl; same_user = λ m. refl }

pub deactivate_demotes :
    (k : ℕ) (m : HouseholdMembership) → is_active_admin_in k (deactivate m) ≡ false
deactivate_demotes k m = ground arith

pub set_role_demotes :
    (k : ℕ) (m : HouseholdMembership) → is_active_admin_in k (set_role member m) ≡ false
set_role_demotes k m = ground arith

pub own_user :
    (hid cur : ℕ) (s : Session) {c : HouseholdMembership}
    → own_rows hid cur s ≡ c ∷ []
    → c.user_id ≡ cur
own_user hid cur s own =
    let w = filter_found (is_active_of hid cur) s.working.memberships own in ground arith

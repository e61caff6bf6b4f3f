-- ===== src/Redistribution/Placed.antt =====
-- backend/app/services/redistribution.py: whom the chores of a removed member go to.
use native.Mathlib.Nat.{le_trans}
use chore_app.Base.{
  ℕ, zero, suc, count_mono, ◌+◌, ◌≤◌, ◌≡◌, ◌≢◌, refl, sym, ◌∙◌, ◌⊎◌, true, false, ◌&&◌, Option,
  none, some, List, [], ◌∷◌, map, arith, ◌==◌, any, filter, count, get_elem?, All, All₂, All-map,
  IsKeyed, key_found,
}
use chore_app.Models.{HouseholdMembership, ChoreInstance, Database, is_active_in, is_active_of}
use chore_app.Session.{Session}
use chore_app.Engine.{Engine}
use chore_app.Engine.Orders.{any-perm, count-perm, any-map, count-filter, count_of_any}
use chore_app.Assignment.{member_ids}
use chore_app.Redistribution.{is_open_of, is_remaining, open_chores}
use chore_app.Redistribution.Writes.{contains}
use chore_app.Redistribution.Rows.{IsMoved}

-- The assignee that a chore of a removed member gets: an active member of the household, or nobody
-- where it has none.
abbrev pub IsNewAssignee : ℕ → Database → Option ℕ → Type 0
IsNewAssignee hid db a =
    ((count (is_active_in hid) db.memberships ≡ 0) × (a ≡ none))
    ⊎ ((u : ℕ) × (a ≡ some u) × (1 ≤ count (is_active_of hid u) db.memberships))

pub count_remaining :
    (removed hid : ℕ) (ms : List HouseholdMembership)
    → count (is_active_in hid) ms
      ≡ count (is_remaining removed hid) ms + count (is_active_of hid removed) ms
count_remaining removed hid [] = omega arith
count_remaining removed hid (m ∷ ms) = ground (arith, count_remaining removed hid ms)

pub contains_pick :
    (ids : List ℕ) (i : ℕ) {u : ℕ} → get_elem? ids i ≡ some u → contains u ids ≡ true
contains_pick [] i e = cc
contains_pick (x ∷ ids) zero e = ground arith
contains_pick (x ∷ ids) (suc i) e = ground (arith, contains_pick ids i e)

map_empty :
    (ms : List HouseholdMembership) → map (λ m. m.user_id) ms ≡ [] → count (λ _. true) ms ≡ 0
map_empty [] e = refl
map_empty (m ∷ ms) e = cc

module _ (engine : Engine) (hid : ℕ) (db : Database) where
  -- The users in the rotation are the active members.
  contains-member_ids :
      (u : ℕ)
      → contains u (member_ids engine hid db)
        ≡ any (λ m. m.user_id == u) (filter (is_active_in hid) db.memberships)
  unfolding member_ids
  contains-member_ids u =
      any-map (λ m. m.user_id) u _
      ∙ any-perm (λ m. m.user_id == u) (engine.ascending-perm HouseholdMembership _ _)

  pub contains→active :
      (u : ℕ)
      → contains u (member_ids engine hid db) ≡ true
      → 1 ≤ count (is_active_of hid u) db.memberships
  contains→active u h =
      le_trans
        (rw count-filter at (
          count_of_any (λ m. m.user_id == u) (filter (is_active_in hid) db.memberships)
            (sym (contains-member_ids u) ∙ h)))
        (count_mono _ (is_active_of hid u) db.memberships (λ m p. ground arith))

  pub no_members : member_ids engine hid db ≡ [] → count (is_active_in hid) db.memberships ≡ 0
  unfolding member_ids
  no_members e = omega (
    arith,
    map_empty _ e,
    count-perm (λ _. true)
        (engine.ascending-perm HouseholdMembership (λ m. m.joined_at)
          (filter (is_active_in hid) db.memberships)),
    count-filter (is_active_in hid) (λ _. true) db.memberships,
    count_mono (is_active_in hid) (λ m. is_active_in hid m && true) db.memberships
        (λ m p. ground arith),
  )

  pub chosen_ids :
      (removed : ℕ)
      → IsKeyed (λ c. c.id) db.instances
      → All
          (λ c. contains c.id (open_chores engine removed hid db) ≡ is_open_of removed hid c)
          db.instances
  unfolding open_chores
  chosen_ids removed keyed =
      All-map
        (λ c h.
          any-map (λ c. c.id) c.id _
          ∙ any-perm (λ y. y.id == c.id) (engine.scan-perm ChoreInstance _)
          ∙ h)
        db.instances (key_found (λ c. c.id) (is_open_of removed hid) db.instances keyed)

-- A session in which the chosen rows have moved.
abbrev pub Moved : ℕ → ℕ → Session → Session → Type 0
Moved removed hid s s' =
    All₂ (IsMoved (IsNewAssignee hid s.working) (is_open_of removed hid)) s.working.instances
      s'.working.instances

pub ne_of_test : (n : ℕ) → (n == 0) ≡ false → n ≢ 0
ne_of_test n h = ground arith

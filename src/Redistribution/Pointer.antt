-- ===== src/Redistribution/Pointer.antt =====
-- Step 5 of backend/app/services/redistribution.py: the member who is next after a removal.
use native.Mathlib.Nat.{mod-lt, div-add-mod'}
use chore_app.Base.{
  ℕ, suc, ◌+◌, ◌-◌, ◌/◌, ◌%◌, ◌<◌, ◌≡◌, ◌≢◌, ◌↔◌, refl, sym, ap, ◌∙◌, inl, inr, true, ◌&&◌, some,
  List, [], ◌∷◌, ◌++◌, map, arith, ltb, ◌==◌, if◌then◌else◌, Bool-cases, Distinct, length,
  get_elem?, filter, count, update_where, length-append,
}
use chore_app.Models.{Household, HouseholdMembership, Database, is_active_in, is_active_of}
use chore_app.Session.{Session, ok}
use chore_app.Engine.{Engine}
use chore_app.Engine.Orders.{count-perm, count-filter}
use chore_app.Assignment.{household_rows, member_ids, pick}
use chore_app.Redistribution.{
  is_remaining, open_chores, removed_index, move_chores, adjust_pointer, step_back, back,
  redistribute_chores_for_removed_member,
}
use chore_app.Redistribution.Laps.{shifted, get_elem?-removed, get_elem?-injective, lap, lap_iff}

count_all :
    (ms : List HouseholdMembership) → length (map (λ m. m.user_id) ms) ≡ count (λ _. true) ms
count_all [] = refl
count_all (m ∷ ms) = ap suc (count_all ms)

length-member_ids :
    (engine : Engine) (hid : ℕ) (db : Database)
    → length (member_ids engine hid db) ≡ count (λ m. is_active_in hid m && true) db.memberships
unfolding member_ids
length-member_ids engine hid db =
    count_all _
    ∙ count-perm (λ _. true) (engine.ascending-perm HouseholdMembership (λ m. m.joined_at) _)
    ∙ count-filter (is_active_in hid) (λ _. true) db.memberships

member_ids-same :
    (engine : Engine) (hid : ℕ) (db db' : Database)
    → db'.memberships ≡ db.memberships
    → member_ids engine hid db' ≡ member_ids engine hid db
unfolding member_ids
member_ids-same engine hid db db' e = rw e

count_others :
    (removed hid : ℕ) (ms : List HouseholdMembership)
    → count (λ m. is_active_in hid m && true) ms
      ≡ count (is_remaining removed hid) ms + count (is_active_of hid removed) ms
count_others removed hid [] = omega arith
count_others removed hid (m ∷ ms) = ground (arith, count_others removed hid ms)

rows-step_back :
    (hid : ℕ) (hs : List Household)
    → filter (λ h. h.id == hid) (update_where (λ h. h.id == hid) back hs)
      ≡ map back (filter (λ h. h.id == hid) hs)
rows-step_back hid [] = refl
rows-step_back hid (h ∷ hs) = ground (arith, rows-step_back hid hs)

-- The pointer that step 5 leaves, for a member who was at place `gone` among `n + 1`.
abbrev stepped : ℕ → ℕ → ℕ → ℕ
stepped n gone p = if ltb gone (p % (n + 1)) then p - 1 else p

adjust_pointer-stepped :
    (engine : Engine) (hid gone n : ℕ) (h : Household) (s : Session)
    → household_rows hid s.working ≡ h ∷ []
    → (s' : Session) × (adjust_pointer engine hid (some h) (some gone) n s ≡ (ok tt, s'))
      × (household_rows hid s'.working
          ≡ record h { rotation_pointer = stepped n gone h.rotation_pointer } ∷ [])
      × (s'.working.memberships ≡ s.working.memberships)
unfolding adjust_pointer
adjust_pointer-stepped engine hid gone n h s found =
    elim (Bool-cases (ltb gone (h.rotation_pointer % (n + 1)))) [
      | inl before ↦ (
        record s { working = step_back hid s.working },
        rw before,
        rw before (rows-step_back hid s.working.households ∙ ap (map back) found),
        refl,
      )
      | inr after ↦ (s, rw after, rw after found, refl)
    ]

-- Which place the stepped pointer selects.
stepped_iff :
    (pre suf : List ℕ) (x p : ℕ)
    → Distinct (pre ++ suf)
    → 0 < length (pre ++ suf)
    → p % (length (pre ++ suf) + 1) ≢ length pre
    → (pick (pre ++ suf) (stepped (length (pre ++ suf)) (length pre) p) ≡ pick (pre ++ x ∷ suf) p)
      ↔ (p / (length (pre ++ suf) + 1) % length (pre ++ suf) ≡ 0)
unfolding pick
stepped_iff pre suf x p d pos ne = (
  λ e.
      (lap_iff n q j j-lt).0
        (get_elem?-injective l ((q + j) % n) j d (mod-lt (q + j) pos) j-lt (sym left ∙ e ∙ right)),
  λ e. left ∙ ap (get_elem? l) ((lap_iff n q j j-lt).1 e) ∙ sym right,
)
  where
    l : List ℕ
    l = pre ++ suf

    n : ℕ
    n = length l

    q : ℕ
    q = p / (n + 1)

    j : ℕ
    j = shifted (length pre) (p % (n + 1))

    j-lt : j < n
    j-lt = let m = mod-lt p {m = n + 1} (omega arith) in ground (arith, m, length-append pre suf)

    left : pick l (stepped n (length pre) p) ≡ get_elem? l ((q + j) % n)
    left = ap (get_elem? l) (rw (div-add-mod' p (n + 1)) at (lap n q (p % (n + 1)) (length pre)))

    longer : length (pre ++ x ∷ suf) ≡ n + 1
    longer = omega (arith, length-append pre suf, length-append pre (x ∷ suf))

    right : pick (pre ++ x ∷ suf) p ≡ get_elem? l j
    right = rw longer (get_elem?-removed pre x suf (p % (n + 1)) ne)

-- When a member without open chores has left a household in which others remain, and was not the
-- next in the rotation, the next member is the same as before the removal exactly when the number
-- of full laps that the pointer has made over the old rotation is a multiple of the number of
-- members that remain. The old rotation is `pre`, the removed member, `suf`; the new one, of
-- distinct members, is `pre`, `suf`; and the query for the removed member's index finds `length
-- pre`.
pub redistribute-next_iff :
    (engine : Engine) (removed hid : ℕ) (s : Session) (h : Household) (pre suf : List ℕ)
    → household_rows hid s.working ≡ h ∷ []
    → count (is_active_of hid removed) s.working.memberships ≡ 0
    → open_chores engine removed hid s.working ≡ []
    → removed_index engine removed hid (some h) s.working ≡ some (length pre)
    → member_ids engine hid s.working ≡ pre ++ suf
    → Distinct (pre ++ suf)
    → 0 < length (pre ++ suf)
    → h.rotation_pointer % (length (pre ++ suf) + 1) ≢ length pre
    → (s' : Session) × (h' : Household) × (redistribute_chores_for_removed_member engine removed hid
          s
        ≡ (ok tt, s'))
      × (household_rows hid s'.working ≡ h' ∷ [])
      × ((pick (member_ids engine hid s'.working) h'.rotation_pointer
            ≡ pick (pre ++ removed ∷ suf) h.rotation_pointer)
          ↔ (h.rotation_pointer / (length (pre ++ suf) + 1) % length (pre ++ suf) ≡ 0))
unfolding redistribute_chores_for_removed_member move_chores
redistribute-next_iff engine removed hid s h pre suf found gone none_open index members d pos ne =
    let n = count (is_remaining removed hid) s.working.memberships in
    let (s', e, row, same) = adjust_pointer-stepped engine hid (length pre) n h s found in
    (
      s',
      record h { rotation_pointer = stepped n (length pre) h.rotation_pointer },
      rw (none_open, found, index, e),
      row,
      rw (member_ids-same engine hid s.working s'.working same ∙ members, size)
          (stepped_iff pre suf removed h.rotation_pointer d pos ne),
    )
  where
    size : count (is_remaining removed hid) s.working.memberships ≡ length (pre ++ suf)
    size = omega (
      arith,
      ap length members,
      length-member_ids engine hid s.working,
      count_others removed hid s.working.memberships,
    )

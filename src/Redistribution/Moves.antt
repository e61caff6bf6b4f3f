-- ===== src/Redistribution/Moves.antt =====
-- backend/app/services/redistribution.py: where the open chores of a removed member go (FR-042,
-- BR-002, BR-003).
use chore_app.Base.{
  ℕ, ◌+◌, ◌%◌, ltb, ◌≡◌, refl, ==→eq, ◌∙◌, inl, inr, false, Option, none, some, List, [], ◌∷◌,
  arith, ◌==◌, Bool-cases, count, All₂, IsKeyed,
}
use chore_app.Models.{Household, is_active_in, is_active_of}
use chore_app.Session.{Session, ok}
use chore_app.Engine.{Engine}
use chore_app.Assignment.{household_rows, member_ids, pick, cycle}
use chore_app.Assignment.Picks.{pick-some}
use chore_app.Assignment.Rotation.{pointed, bulk_lem}
use chore_app.Redistribution.{
  is_open_of, is_remaining, open_chores, removed_index, move_chores, adjust_pointer, step_back,
  with_instances, write_assignees, clear_assignees, redistribute_chores_for_removed_member,
}
use chore_app.Redistribution.Writes.{has_key-cycle, Values-cycle}
use chore_app.Redistribution.Rows.{
  IsMoved, write_assignees-IsMoved, clear_assignees-IsMoved, IsMoved-weaken,
}
use chore_app.Redistribution.Placed.{
  IsNewAssignee, count_remaining, contains_pick, contains→active, no_members, chosen_ids, Moved,
  ne_of_test,
}

module _ (engine : Engine) (removed hid : ℕ) (s : Session)
    (keyed : IsKeyed (λ c. c.id) s.working.instances)
    (gone : count (is_active_of hid removed) s.working.memberships ≡ 0) {h : Household}
    (found : household_rows hid s.working ≡ h ∷ []) where
  abbrev remaining : ℕ
  remaining = count (is_remaining removed hid) s.working.memberships

  -- Where somebody remains, the bulk assignment finds members and moves each chore to one.
  moves_to_members :
      (cid : ℕ) (cids : List ℕ)
      → open_chores engine removed hid s.working ≡ cid ∷ cids
      → (m : ℕ) (ms : List ℕ) → member_ids engine hid s.working ≡ m ∷ ms
      → All₂ (IsMoved (IsNewAssignee hid s.working) (is_open_of removed hid)) s.working.instances (
          write_assignees
            (cid ∷ cids)
            (cycle (m ∷ ms) [] h.rotation_pointer (cid ∷ cids)).0
            s.working.instances)
  unfolding pick
  moves_to_members cid cids e m ms f =
      write_assignees-IsMoved (IsNewAssignee hid s.working) (is_open_of removed hid) (cid ∷ cids)
        (cycle (m ∷ ms) [] h.rotation_pointer (cid ∷ cids)).0
        (Values-cycle (IsNewAssignee hid s.working) (m ∷ ms) [] h.rotation_pointer (cid ∷ cids)
          picked tt)
        (λ i known. has_key-cycle i (m ∷ ms) [] h.rotation_pointer (cid ∷ cids) ∙ (rw known))
        s.working.instances (rw e at (chosen_ids engine hid s.working removed keyed))
    where
      picked : (q : ℕ) → IsNewAssignee hid s.working (pick (m ∷ ms) q)
      picked q =
          let (u, e) = pick-some m ms q in
          inr (u, e, contains→active engine hid s.working u (rw f (contains_pick (m ∷ ms) _ e)))

  none_remain : remaining ≡ 0 → count (is_active_in hid) s.working.memberships ≡ 0
  none_remain e = omega (arith, count_remaining removed hid s.working.memberships)

  move_chores_lem :
      (cids : List ℕ)
      → open_chores engine removed hid s.working ≡ cids
      → (s' : Session) × (move_chores engine hid cids remaining s ≡ (ok tt, s'))
        × Moved removed hid s s'
  unfolding move_chores
  move_chores_lem [] e = (
    s,
    refl,
    unfold write_assignees in
        write_assignees-IsMoved (IsNewAssignee hid s.working) (is_open_of removed hid) [] [] tt
          (λ i known. cc) s.working.instances
          (rw e at (chosen_ids engine hid s.working removed keyed)),
  )
  move_chores_lem (cid ∷ cids) e = elim (Bool-cases (remaining == 0)) [
    | inl nobody ↦ (
      record s { working = with_instances (clear_assignees (cid ∷ cids)) s.working },
      rw nobody,
      IsMoved-weaken (is_open_of removed hid)
          (λ a q. inl (none_remain (==→eq remaining 0 nobody), q)) s.working.instances
          (clear_assignees (cid ∷ cids) s.working.instances)
          (clear_assignees-IsMoved (is_open_of removed hid) (cid ∷ cids) s.working.instances
            (rw e at (chosen_ids engine hid s.working removed keyed))),
    )
    | inr somebody ↦ go somebody (member_ids engine hid s.working) refl
  ]
    where
      go :
          (remaining == 0) ≡ false
          → (ids : List ℕ) → member_ids engine hid s.working ≡ ids
          → (s' : Session) × (move_chores engine hid (cid ∷ cids) remaining s ≡ (ok tt, s'))
            × Moved removed hid s s'
      go somebody [] f = absurd (
          omega (
            arith,
            no_members engine hid s.working f,
            count_remaining removed hid s.working.memberships,
            ne_of_test remaining somebody,
          ))
      go somebody (m ∷ ms) f =
          let (d, p) = cycle (m ∷ ms) [] h.rotation_pointer (cid ∷ cids) in
          (
            record (pointed hid p s) {
              working = with_instances (write_assignees (cid ∷ cids) d) (pointed hid p s).working;
            },
            rw (somebody, bulk_lem engine hid cid cids s h m ms found f),
            moves_to_members cid cids e m ms f,
          )

-- What the adjustment of the pointer leaves alone.
adjust_pointer_lem :
    (engine : Engine) (hid : ℕ) (h : Option Household) (index : Option ℕ) (remaining : ℕ)
    (s : Session)
    → (s' : Session) × (adjust_pointer engine hid h index remaining s ≡ (ok tt, s'))
      × (s'.working.instances ≡ s.working.instances)
unfolding adjust_pointer
adjust_pointer_lem engine hid none index remaining s = (s, refl, refl)
adjust_pointer_lem engine hid (some h) none remaining s = (s, refl, refl)
adjust_pointer_lem engine hid (some h) (some index) remaining s =
    elim (Bool-cases (ltb index (h.rotation_pointer % (remaining + 1)))) [
      | inl before ↦ (record s { working = step_back hid s.working }, rw before, refl)
      | inr after ↦ (s, rw after, refl)
    ]

-- When a member has left, the redistribution succeeds and moves exactly the member's open chores:
-- each of them goes to an active member of the household, or to nobody where the household has
-- none, and nothing but its assignee changes; every other chore stays as it was. This holds for a
-- household that exists, once the member has no active membership there, and with distinct keys.
pub redistribute-moves :
    (engine : Engine) (removed hid : ℕ) (s : Session) (h : Household)
    → IsKeyed (λ c. c.id) s.working.instances
    → count (is_active_of hid removed) s.working.memberships ≡ 0
    → household_rows hid s.working ≡ h ∷ []
    → (s' : Session) × (redistribute_chores_for_removed_member engine removed hid s ≡ (ok tt, s'))
      × All₂
          (IsMoved (IsNewAssignee hid s.working) (is_open_of removed hid))
          s.working.instances
          s'.working.instances
unfolding redistribute_chores_for_removed_member
redistribute-moves engine removed hid s h keyed gone found =
    let n = count (is_remaining removed hid) s.working.memberships in
    let index = removed_index engine removed hid (some h) s.working in
    let (s1, e1, moved) =
      move_chores_lem engine removed hid s keyed gone found
        (open_chores engine removed hid s.working) refl in
    let (s2, e2, same) = adjust_pointer_lem engine hid (some h) index n s1 in
    (s2, rw (found, e1, e2), rw same moved)

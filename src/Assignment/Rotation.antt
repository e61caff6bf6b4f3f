-- ===== src/Assignment/Rotation.antt =====
-- `redistribute_chores_bulk` of backend/app/services/assignment.py beside one `assign` for each
-- chore.
use mathlib.Core.List.{append_assoc, append-nil}
use chore_app.Base.{
  ℕ, suc, ◌+◌, ◌≡◌, refl, sym, ap, ◌∙◌, ◌≢◌, Option, none, List, [], ◌∷◌, ◌++◌, map, arith, ◌==◌,
  length, filter, update_where, All, Distinct, Dict, lookup, insert,
}
use chore_app.Models.{Household}
use chore_app.Session.{Session, ok, err, multiple_results}
use chore_app.Engine.{Engine}
use chore_app.Assignment.{
  household_rows, set_pointer, with_pointer, pick, all_none, cycle, member_ids, assign,
  redistribute_from, redistribute_chores, redistribute_chores_bulk,
}

-- The dict that the loop builds for distinct chores: their identifiers in order, each with the
-- member that the pointer selects.
abbrev pub assigned : List ℕ → ℕ → List ℕ → Dict (Option ℕ)
assigned ids p [] = []
assigned ids p (cid ∷ cids) = (cid, pick ids p) ∷ assigned ids (p + 1) cids

insert_fresh {ℓ} :
    {V : Type ℓ} (k : ℕ) (v : V) (d : Dict V) → lookup k d ≡ none → insert k v d ≡ d ++ (k, v) ∷ []
insert_fresh k v [] h = refl
insert_fresh k v (e ∷ d) h = ground (arith, insert_fresh k v d)

lookup-append_fresh {ℓ} :
    {V : Type ℓ} (j k : ℕ) (v : V) (d : Dict V)
    → lookup j d ≡ none
    → j ≢ k
    → lookup j (d ++ (k, v) ∷ []) ≡ none
lookup-append_fresh j k v [] h ne = ground arith
lookup-append_fresh j k v (e ∷ d) h ne = ground (arith, lookup-append_fresh j k v d)

fresh_after :
    (k : ℕ) (v : Option ℕ) (d : Dict (Option ℕ)) (cids : List ℕ)
    → All (λ c. lookup c d ≡ none) cids
    → All (λ c. c ≢ k) cids
    → All (λ c. lookup c (d ++ (k, v) ∷ []) ≡ none) cids
fresh_after k v d [] h ne = tt
fresh_after k v d (c ∷ cids) h ne =
    (lookup-append_fresh c k v d h.0 ne.0, fresh_after k v d cids h.1 ne.1)

pub cycle_lem :
    (ids : List ℕ) (d : Dict (Option ℕ)) (p : ℕ) (cids : List ℕ)
    → Distinct cids
    → All (λ c. lookup c d ≡ none) cids
    → cycle ids d p cids ≡ (d ++ assigned ids p cids, p + length cids)
unfolding cycle
cycle_lem ids d p [] h f = λ i. (sym (append-nil d) i, (let e : p ≡ p + 0 = omega arith in e) i)
cycle_lem ids d p (cid ∷ cids) h f =
    let e : p + 1 + length cids ≡ p + suc (length cids) = omega arith in
    let a = pick ids p in
    rw (insert_fresh cid a d f.0) (
      rw (e, append_assoc) at
        (cycle_lem ids (d ++ (cid, a) ∷ []) (p + 1) cids h.1 (fresh_after cid a d cids f.1 h.0)))

-- The identity of the household row does not depend on its pointer.
rows-with_pointer :
    (hid p : ℕ) (hs : List Household)
    → filter (λ h. h.id == hid) (update_where (λ h. h.id == hid) (set_pointer p) hs)
      ≡ map (set_pointer p) (filter (λ h. h.id == hid) hs)
rows-with_pointer hid p [] = refl
rows-with_pointer hid p (h ∷ hs) = ground (arith, rows-with_pointer hid p hs)

-- A later write of the pointer replaces an earlier one.
with_pointer_again :
    (hid p q : ℕ) (hs : List Household)
    → update_where
        (λ h. h.id == hid)
        (set_pointer q)
        (update_where (λ h. h.id == hid) (set_pointer p) hs)
      ≡ update_where (λ h. h.id == hid) (set_pointer q) hs
with_pointer_again hid p q [] = refl
with_pointer_again hid p q (h ∷ hs) = ground (arith, with_pointer_again hid p q hs)

-- The session with the pointer of one household written.
abbrev pub pointed : ℕ → ℕ → Session → Session
pointed hid p s = record s { working = with_pointer hid p s.working }

pointed_again : (hid p q : ℕ) (s : Session) → pointed hid q (pointed hid p s) ≡ pointed hid q s
pointed_again hid p q s = λ i. record s {
  working = record (s.working) { households = with_pointer_again hid p q s.working.households i };
}

module _ (engine : Engine) (hid : ℕ) where
  -- `assign` in a household with members.
  pub assign_lem :
      (s : Session) (h : Household) (m : ℕ) (ms : List ℕ)
      → household_rows hid s.working ≡ h ∷ []
      → member_ids engine hid s.working ≡ m ∷ ms
      → assign engine hid s
        ≡ (ok (pick (m ∷ ms) h.rotation_pointer), pointed hid (h.rotation_pointer + 1) s)
  unfolding assign
  assign_lem s h m ms rows members = rw (rows, members)

  assign_no_members :
      (s : Session) (h : Household)
      → household_rows hid s.working ≡ h ∷ []
      → member_ids engine hid s.working ≡ []
      → assign engine hid s ≡ (ok none, s)
  unfolding assign
  assign_no_members s h rows members = rw (rows, members)

  assign_no_household :
      (s : Session) → household_rows hid s.working ≡ [] → assign engine hid s ≡ (ok none, s)
  unfolding assign
  assign_no_household s rows = rw rows

  assign_ambiguous :
      (s : Session) (h k : Household) (l : List Household)
      → household_rows hid s.working ≡ h ∷ k ∷ l
      → assign engine hid s ≡ (err multiple_results, s)
  unfolding assign
  assign_ambiguous s h k l rows = rw rows

  -- A pointer write leaves the rotation order alone.
  member_ids-pointed :
      (q : ℕ) (s : Session)
      → member_ids engine hid (pointed hid q s).working ≡ member_ids engine hid s.working
  unfolding member_ids
  member_ids-pointed q s = refl

  -- Each `assign` after the first finds the pointer that the one before has written.
  redistribute_from_lem :
      (s : Session) (h : Household) (m : ℕ) (ms : List ℕ)
      → household_rows hid s.working ≡ h ∷ []
      → member_ids engine hid s.working ≡ m ∷ ms
      → (q : ℕ) (d : Dict (Option ℕ)) (cids : List ℕ)
      → redistribute_from engine d cids hid (pointed hid q s)
        ≡ (ok (cycle (m ∷ ms) d q cids).0, pointed hid (cycle (m ∷ ms) d q cids).1 s)
  unfolding redistribute_from cycle
  redistribute_from_lem s h m ms rows members q d [] = refl
  redistribute_from_lem s h m ms rows members q d (cid ∷ cids) =
      rw (step, pointed_again hid q (q + 1) s)
        (redistribute_from_lem s h m ms rows members (q + 1) (insert cid (pick (m ∷ ms) q) d) cids)
    where
      found : household_rows hid (pointed hid q s).working ≡ set_pointer q h ∷ []
      found = rows-with_pointer hid q s.working.households ∙ ap (map (set_pointer q)) rows

      step :
          assign engine hid (pointed hid q s)
          ≡ (ok (pick (m ∷ ms) q), pointed hid (q + 1) (pointed hid q s))
      step =
          assign_lem (pointed hid q s) (set_pointer q h) m ms found
            (member_ids-pointed q s ∙ members)

  -- Where every `assign` answers None and writes nothing, so does the loop over the chores.
  redistribute_from-none :
      (s : Session)
      → assign engine hid s ≡ (ok none, s)
      → (d : Dict (Option ℕ)) (cids : List ℕ)
      → redistribute_from engine d cids hid s ≡ (ok (all_none d cids), s)
  unfolding redistribute_from all_none
  redistribute_from-none s e d [] = refl
  redistribute_from-none s e d (cid ∷ cids) =
      rw e (redistribute_from-none s e (insert cid none d) cids)

  pub bulk_lem :
      (cid : ℕ) (cids : List ℕ) (s : Session) (h : Household) (m : ℕ) (ms : List ℕ)
      → household_rows hid s.working ≡ h ∷ []
      → member_ids engine hid s.working ≡ m ∷ ms
      → redistribute_chores_bulk engine (cid ∷ cids) hid s ≡ (
        ok (cycle (m ∷ ms) [] h.rotation_pointer (cid ∷ cids)).0,
        pointed hid (cycle (m ∷ ms) [] h.rotation_pointer (cid ∷ cids)).1 s,
      )
  unfolding redistribute_chores_bulk
  bulk_lem cid cids s h m ms e f = rw (e, f)

  from_rows :
      (cid : ℕ) (cids : List ℕ) (s : Session) (rows : List Household) (ids : List ℕ)
      → household_rows hid s.working ≡ rows
      → member_ids engine hid s.working ≡ ids
      → redistribute_chores engine (cid ∷ cids) hid s
        ≡ redistribute_chores_bulk engine (cid ∷ cids) hid s
  unfolding redistribute_chores redistribute_chores_bulk cycle
  from_rows cid cids s [] ids e f =
      redistribute_from-none s (assign_no_household s e) [] (cid ∷ cids) ∙ sym (rw e)
  from_rows cid cids s (h ∷ []) [] e f =
      redistribute_from-none s (assign_no_members s h e f) [] (cid ∷ cids) ∙ sym (rw (e, f))
  from_rows cid cids s (h ∷ []) (m ∷ ms) e f =
      rw (assign_lem s h m ms e f) (
        redistribute_from_lem s h m ms e f (h.rotation_pointer + 1)
          (insert cid (pick (m ∷ ms) h.rotation_pointer) []) cids)
      ∙ sym (bulk_lem cid cids s h m ms e f)
  from_rows cid cids s (h ∷ k ∷ l) ids e f = rw (assign_ambiguous s h k l e, e)

-- The bulk reassignment, with one lock and one write of the pointer, answers the same and leaves
-- the same session as one `assign` for each chore: same assignees, same pointer, same exception.
pub redistribute_chores-eq-bulk :
    (engine : Engine) (hid : ℕ) (cids : List ℕ) (s : Session)
    → redistribute_chores engine cids hid s ≡ redistribute_chores_bulk engine cids hid s
unfolding redistribute_chores redistribute_chores_bulk
redistribute_chores-eq-bulk engine hid [] s = refl
redistribute_chores-eq-bulk engine hid (cid ∷ cids) s =
    from_rows engine hid cid cids s (household_rows hid s.working) (member_ids engine hid s.working)
      refl refl

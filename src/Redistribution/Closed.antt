-- ===== src/Redistribution/Closed.antt =====
-- What the redistribution of backend/app/services/redistribution.py may do to the chores, whatever
-- the state of the household and whether it returns or raises (BR-002).
use chore_app.Base.{
  ℕ, ◌≡◌, refl, ap, ◌∙◌, inl, inr, Bool, Option, none, some, List, [], ◌∷◌, arith, ◌==◌, Bool-cases,
  count, All₂, IsKeyed, Dict,
}
use chore_app.Models.{Household, ChoreInstance, PointLedger, Database}
use chore_app.Session.{Session, Result, ok, err, and_then, write}
use chore_app.Engine.{Engine}
use chore_app.Assignment.{household_rows, redistribute_chores_bulk}
use chore_app.Redistribution.{
  is_open_of, is_remaining, open_chores, removed_index, move_chores, adjust_pointer, with_instances,
  write_assignees, clear_assignees, redistribute_chores_for_removed_member,
}
use chore_app.Redistribution.Rows.{
  IsMoved, IsMoved-weaken, write_assignees-Changes, clear_assignees-IsMoved,
}
use chore_app.Redistribution.Placed.{chosen_ids}

-- A chore that is not chosen stays as it is; a chosen one may get another assignee.
abbrev pub Changes : (ChoreInstance → Bool) → List ChoreInstance → List ChoreInstance → Type 0
Changes chosen = All₂ (IsMoved (λ _. Unit {0}) chosen)

pub Changes-refl : (chosen : ChoreInstance → Bool) (l : List ChoreInstance) → Changes chosen l l
Changes-refl chosen [] = tt
Changes-refl chosen (c ∷ l) = ((λ _. refl, λ _. (refl, tt)), Changes-refl chosen l)

-- The chores, and what the redistribution leaves alone.
abbrev pub chores_view : Session → List ChoreInstance × List PointLedger × Database
chores_view s = (s.working.instances, s.working.ledger, s.committed)

pub bulk_keeps :
    (engine : Engine) (cids : List ℕ) (hid : ℕ) (s : Session)
    → chores_view (redistribute_chores_bulk engine cids hid s).1 ≡ chores_view s
unfolding redistribute_chores_bulk
bulk_keeps engine [] hid s = refl
bulk_keeps engine (cid ∷ cids) hid s = ground arith

adjust_keeps :
    (engine : Engine) (hid : ℕ) (h : Option Household) (index : Option ℕ) (remaining : ℕ)
    (r : Result (Unit {0})) (s : Session)
    → chores_view (and_then r (λ _. adjust_pointer engine hid h index remaining) s).1
      ≡ chores_view s
unfolding adjust_pointer
adjust_keeps engine hid h index remaining (err e) s = refl
adjust_keeps engine hid none index remaining (ok u) s = refl
adjust_keeps engine hid (some h) none remaining (ok u) s = refl
adjust_keeps engine hid (some h) (some index) remaining (ok u) s = ground arith

-- The chores after, where the ledger and the committed rows are as before.
pub record Touches (chosen : ChoreInstance → Bool) (s s' : Session) : Type 0 where
  pub rows : Changes chosen s.working.instances s'.working.instances
  pub ledger : s'.working.ledger ≡ s.working.ledger
  pub committed : s'.committed ≡ s.committed

Touches-same :
    (chosen : ChoreInstance → Bool) (s t u : Session)
    → chores_view u ≡ chores_view t
    → Touches chosen s t
    → Touches chosen s u
Touches-same chosen s t u e h = record {
  rows = rw (ap (λ v. v.0) e) h.rows;
  ledger = ap (λ v. v.1) e ∙ h.ledger;
  committed = ap (λ v. v.2) e ∙ h.committed;
}

Touches-refl : (chosen : ChoreInstance → Bool) (s : Session) → Touches chosen s s
Touches-refl chosen s = record {
  rows = Changes-refl chosen s.working.instances;
  ledger = refl;
  committed = refl;
}

module _ (engine : Engine) (removed hid : ℕ) (s : Session)
    (keyed : IsKeyed (λ c. c.id) s.working.instances) where
  abbrev chosen : ChoreInstance → Bool
  chosen = is_open_of removed hid

  written :
      (cid : ℕ) (cids : List ℕ) (r : Result (Dict (Option ℕ))) (t : Session)
      → open_chores engine removed hid s.working ≡ cid ∷ cids
      → chores_view t ≡ chores_view s
      → Touches chosen s
          (and_then r (λ d. write (with_instances (write_assignees (cid ∷ cids) d))) t).1
  written cid cids (err x) t e same = Touches-same chosen s s t same (Touches-refl chosen s)
  written cid cids (ok d) t e same = record {
    rows = rw (ap (λ v. v.0) same) (
        write_assignees-Changes chosen (cid ∷ cids) d s.working.instances
          (rw e at (chosen_ids engine hid s.working removed keyed)));
    ledger = ap (λ v. v.1) same;
    committed = ap (λ v. v.2) same;
  }

  move_chores-Touches :
      (cids : List ℕ) (remaining : ℕ)
      → open_chores engine removed hid s.working ≡ cids
      → Touches chosen s (move_chores engine hid cids remaining s).1
  unfolding move_chores
  move_chores-Touches [] remaining e = Touches-refl chosen s
  move_chores-Touches (cid ∷ cids) remaining e = elim (Bool-cases (remaining == 0)) [
    | inl nobody ↦ rw nobody (record {
      rows =
          IsMoved-weaken chosen (λ a q. tt) s.working.instances
            (clear_assignees (cid ∷ cids) s.working.instances)
            (clear_assignees-IsMoved chosen (cid ∷ cids) s.working.instances
              (rw e at (chosen_ids engine hid s.working removed keyed)));
      ledger = refl;
      committed = refl;
    })
    | inr somebody ↦ rw somebody (
        written cid cids (redistribute_chores_bulk engine (cid ∷ cids) hid s).0
          (redistribute_chores_bulk engine (cid ∷ cids) hid s).1 e
          (bulk_keeps engine (cid ∷ cids) hid s))
  ]

  moved :
      (h : Option Household)
      → Touches chosen s
          (let m =
              move_chores engine hid
                (open_chores engine removed hid s.working)
                (count (is_remaining removed hid) s.working.memberships)
                s in
            and_then m.0
              (λ _.
                adjust_pointer engine hid h
                  (removed_index engine removed hid h s.working)
                  (count (is_remaining removed hid) s.working.memberships))
              m.1).1
  moved h =
      let n = count (is_remaining removed hid) s.working.memberships in
      let m = move_chores engine hid (open_chores engine removed hid s.working) n s in
      Touches-same chosen s m.1 _
        (adjust_keeps engine hid h (removed_index engine removed hid h s.working) n m.0 m.1)
        (move_chores-Touches (open_chores engine removed hid s.working) n refl)

  -- The redistribution touches no chore but the open ones of the removed member in the household,
  -- and of those only the assignee; the ledger and the committed rows stay.
  pub redistribute-Touches :
      Touches chosen s (redistribute_chores_for_removed_member engine removed hid s).1
  unfolding redistribute_chores_for_removed_member
  redistribute-Touches = go (household_rows hid s.working) refl
    where
      go :
          (rows : List Household)
          → household_rows hid s.working ≡ rows
          → Touches chosen s (redistribute_chores_for_removed_member engine removed hid s).1
      go [] e = rw e (moved none)
      go (h ∷ []) e = rw e (moved (some h))
      go (h ∷ k ∷ l) e = rw e (Touches-refl chosen s)

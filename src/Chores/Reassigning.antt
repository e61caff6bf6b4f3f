-- ===== src/Chores/Reassigning.antt =====
-- Changes of the chores that concern the assignee of open rows at most: those of a redistribution
-- and of the daily job of backend/app.
use chore_app.Base.{
  ℕ, ◌≡◌, refl, sym, ap, ◌∙◌, ◌≢◌, inl, inr, true, false, List, [], ◌∷◌, ◌++◌, arith, Bool-cases,
  All, All-map, All-append, All₂, All₂-map, All-across, IsKeyed, map-key-same, is_some_eq,
}
use chore_app.Models.{
  ChoreStatus, pending, complete, overdue, cancelled, dismissed, ChoreInstance, PointLedger,
  is_terminal, is_open,
}
use chore_app.Redistribution.{set_assignee, is_open_of}
use chore_app.Redistribution.Closed.{Changes}
use chore_app.Scheduler.Issued.{IsIssued}
use chore_app.Scheduler.Assigning.{IsAssigned}
use chore_app.Chores.Accounting.{payments, Settles, owed_open, payments-fresh}

-- The new row differs from the old one in its assignee at most, and not at all if it is closed.
abbrev pub IsReassigned : ChoreInstance → ChoreInstance → Type 0
IsReassigned x y = (y ≡ set_assignee y.assignee_id x) × (is_terminal x.status ≡ true → y ≡ x)

open_live : (st : ChoreStatus) → is_open st ≡ true → is_terminal st ≡ false
open_live pending h = refl
open_live complete h = cc
open_live overdue h = refl
open_live cancelled h = cc
open_live dismissed h = cc

chosen_live :
    (removed hid : ℕ) (c : ChoreInstance)
    → is_open_of removed hid c ≡ true
    → is_terminal c.status ≡ false
chosen_live removed hid c h = open_live c.status (ground arith)

-- A redistribution is such a change.
pub Changes-IsReassigned :
    (removed hid : ℕ) (l m : List ChoreInstance)
    → Changes (is_open_of removed hid) l m
    → All₂ IsReassigned l m
Changes-IsReassigned removed hid [] [] h = tt
Changes-IsReassigned removed hid [] (y ∷ m) h = h
Changes-IsReassigned removed hid (x ∷ l) [] h = h
Changes-IsReassigned removed hid (x ∷ l) (y ∷ m) h = (
  elim (Bool-cases (is_open_of removed hid x)) [
    | inr kept ↦ let e = h.0.0 kept in (rw e refl, λ _. e)
    | inl chosen ↦ ((h.0.1 chosen).0, λ closed. let live = chosen_live removed hid x chosen in cc)
  ],
  Changes-IsReassigned removed hid l m h.1,
)

-- So is the assignment of new instances by the daily job.
pub IsAssigned-IsReassigned :
    (new_id : ℕ → ℕ) (n : ℕ) (old added middle : List ChoreInstance)
    → ((k : ℕ) → All (λ c. c.id ≢ new_id k) old)
    → All (IsIssued new_id n) added
    → All₂ (IsAssigned new_id) (old ++ added) middle
    → All₂ IsReassigned (old ++ added) middle
IsAssigned-IsReassigned new_id n old added middle unused issued h =
    All₂-map {P = λ x. is_terminal x.status ≡ true → (k : ℕ) → x.id ≢ new_id k}
      (λ x y apart a. (a.0, λ closed. a.1 (apart closed))) (old ++ added) middle
      (All-append (λ x. is_terminal x.status ≡ true → (k : ℕ) → x.id ≢ new_id k) old added
        (never old unused) (All-map (λ c i closed k e. cc (i.3, closed)) added issued))
      h
  where
    never :
        (l : List ChoreInstance)
        → ((k : ℕ) → All (λ c. c.id ≢ new_id k) l)
        → All (λ x. is_terminal x.status ≡ true → (k : ℕ) → x.id ≢ new_id k) l
    never [] u = tt
    never (c ∷ l) u = (λ closed k. (u k).0, never l (λ k. (u k).1))

-- Such a change keeps the ledger settled.
pub IsReassigned-Settles :
    (L : List PointLedger) (l m : List ChoreInstance)
    → IsKeyed (λ c. c.id) l × All (Settles L) l
    → All₂ IsReassigned l m
    → IsKeyed (λ c. c.id) m × All (Settles L) m
IsReassigned-Settles L l m h r = (
  rw (map-key-same (λ c. c.id) (λ x y e. ap (λ c. c.id) e.0) l m r) h.0,
  All-across settles l m h.1 r,
)
  where
    settles : (x y : ChoreInstance) → Settles L x → IsReassigned x y → Settles L y
    settles x y s e = elim (Bool-cases (is_terminal x.status)) [
      | inl closed ↦ rw (e.1 closed) s
      | inr live ↦
          ap (λ c. payments c.id L) e.0
          ∙ s
          ∙ owed_open x live
          ∙ sym (owed_open y (ap (λ c. is_terminal c.status) e.0 ∙ live))
    ]

-- New instances that nothing has paid for keep it settled too.
pub issued-Settles :
    (new_id : ℕ → ℕ) (n : ℕ) (L : List PointLedger) (old added : List ChoreInstance)
    → ((k : ℕ) → All (λ e. is_some_eq e.chore_instance_id (new_id k) ≡ false) L)
    → All (IsIssued new_id n) added
    → All (Settles L) old
    → All (Settles L) (old ++ added)
issued-Settles new_id n L old added unpaid issued h = All-append (Settles L) old added h (
    All-map
      (λ c (k, lt, e, p).
        rw e (payments-fresh (new_id k) L (unpaid k)) ∙ sym (owed_open c (rw p refl)))
      added issued)

-- ===== src/Chores/Accounting.antt =====
-- The points of backend/app/api/chores.py: what the ledger holds for an instance.
use chore_app.Base.{
  ℕ, ◌≡◌, refl, ap, ◌∙◌, inl, inr, Bool, true, false, ◌&&◌, Option, none, some, List, [], ◌∷◌, ◌++◌,
  arith, ◌==◌, ==_refl, if◌then◌else◌, is_some_eq, Bool-cases, update_where, All, All-map₂, IsKeyed,
  filter_only, filter_found, same_key_passes,
}
use chore_app.Models.{
  ChoreStatus, pending, complete, overdue, cancelled, dismissed, ChoreDefinition, ChoreInstance,
  PointLedger, Database, effort_points, is_terminal, is_complete,
}
use chore_app.Chores.Responses.{instance_rows}
use chore_app.Chores.Transitions.{points_for, credited}

-- Who was paid how much for an instance, oldest entry first.
abbrev pub payments : ℕ → List PointLedger → List (ℕ × ℕ)
payments iid [] = []
payments iid (e ∷ l) =
    if is_some_eq e.chore_instance_id iid
    then (e.user_id, e.points) ∷ payments iid l
    else payments iid l

abbrev pub paid : Option ℕ → Option ℕ → List (ℕ × ℕ)
paid none p = []
paid (some a) none = []
paid (some a) (some p) = (a, p) ∷ []

-- What an instance's row promises: one payment of `points_awarded` to its assignee, once complete.
abbrev pub owed : ChoreInstance → List (ℕ × ℕ)
owed c = if is_complete c.status then paid c.assignee_id c.points_awarded else []

-- The ledger pays for every instance what its row promises, and the instances' keys are distinct.
abbrev pub Settles : List PointLedger → ChoreInstance → Type 0
Settles ledger c = payments c.id ledger ≡ owed c

abbrev pub IsSettled : Database → Type 0
IsSettled db = IsKeyed (λ c. c.id) db.instances × All (Settles db.ledger) db.instances

-- One more entry.
payments-other :
    (i : ℕ) (xs : List PointLedger) (e : PointLedger)
    → is_some_eq e.chore_instance_id i ≡ false
    → payments i (xs ++ e ∷ []) ≡ payments i xs
payments-other i [] e h = rw h refl
payments-other i (x ∷ xs) e h = ground (arith, payments-other i xs e h)

payments-own :
    (i : ℕ) (xs : List PointLedger) (e : PointLedger)
    → is_some_eq e.chore_instance_id i ≡ true
    → payments i (xs ++ e ∷ []) ≡ payments i xs ++ (e.user_id, e.points) ∷ []
payments-own i [] e h = rw h refl
payments-own i (x ∷ xs) e h = ground (arith, payments-own i xs e h)

pub payments-fresh :
    (i : ℕ) (xs : List PointLedger)
    → All (λ e. is_some_eq e.chore_instance_id i ≡ false) xs
    → payments i xs ≡ []
payments-fresh i [] h = refl
payments-fresh i (x ∷ xs) h = ground (arith, h.0, payments-fresh i xs h.1)

pub owed_open : (c : ChoreInstance) → is_terminal c.status ≡ false → owed c ≡ []
owed_open c h = go c.status h
  where
    go :
        (st : ChoreStatus)
        → is_terminal st ≡ false
        → (if is_complete st then paid c.assignee_id c.points_awarded else []) ≡ []
    go pending h = refl
    go complete h = cc
    go overdue h = refl
    go cancelled h = refl
    go dismissed h = refl

module _ {A : Type 0} {P Q : A → Type 0} where
  pub All-updated :
      (p : A → Bool) (f : A → A) (l : List A)
      → ((x : A) → p x ≡ true → P x → Q (f x))
      → ((x : A) → p x ≡ false → P x → Q x)
      → All P l
      → All Q (update_where p f l)
  All-updated p f [] hit miss h = tt
  All-updated p f (x ∷ l) hit miss h = elim (Bool-cases (p x)) [
    | inl t ↦ rw t (hit x t h.0, All-updated p f l hit miss h.1)
    | inr e ↦ rw e (miss x e h.0, All-updated p f l hit miss h.1)
  ]

-- The row that a handler has loaded.
module _ (hid iid : ℕ) (db : Database) {c : ChoreInstance}
    (found : instance_rows hid iid db ≡ c ∷ []) where
  pub found_id : c.id ≡ iid
  found_id =
      let w = filter_found (λ r. r.id == iid && r.household_id == hid) db.instances found in
      ground arith

  pub found_only :
      IsKeyed (λ r. r.id) db.instances → All (λ x. (x.id == iid) ≡ true → x ≡ c) db.instances
  found_only keyed =
      All-map₂ (λ x same only e. only (same (rw found_id e))) db.instances
        (same_key_passes (λ r. r.id) (λ r. r.id == iid && r.household_id == hid) db.instances keyed
          found)
        (filter_only (λ r. r.id == iid && r.household_id == hid) db.instances found)

-- The entry that a completion adds pays the assignee of that instance, and no other.
pub credited_other :
    (o : Option ℕ) (entry hid iid now i : ℕ) (d : ChoreDefinition) (l : List PointLedger)
    → (i == iid) ≡ false
    → payments i (credited o entry hid iid d now l) ≡ payments i l
credited_other none entry hid iid now i d l h = refl
credited_other (some a) entry hid iid now i d l h = payments-other i l _ (ground arith)

pub credited_own :
    (o : Option ℕ) (entry hid iid now : ℕ) (d : ChoreDefinition) (l : List PointLedger)
    → payments iid l ≡ []
    → payments iid (credited o entry hid iid d now l) ≡ paid o (points_for o d)
credited_own none entry hid iid now d l h = h
credited_own (some a) entry hid iid now d l h =
    payments-own iid l _ (==_refl iid) ∙ ap (λ v. v ++ (a, effort_points d.effort_level) ∷ []) h

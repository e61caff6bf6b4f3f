-- ===== src/Chores/Evolution.antt =====
-- backend/app/api/chores.py and backend/app/tasks/scheduler.py: how the row of an instance may
-- change.
use chore_app.Base.{
  ◌++◌, ◌≡◌, refl, ◌∙◌, inl, inr, Bool, true, false, List, [], ◌∷◌, ◌++◌, Bool-cases, update_where,
  All,
}
use chore_app.Models.{ChoreInstance, is_terminal, is_pending}

-- What may become of an instance: it keeps its key, series, household and due date; a closed one
-- stays as it is; none goes back to pending.
pub record Evolves (old new : ChoreInstance) : Type 0 where
  pub same_id : new.id ≡ old.id
  pub same_series : new.definition_id ≡ old.definition_id
  pub same_household : new.household_id ≡ old.household_id
  pub same_due_date : new.due_date ≡ old.due_date
  pub frozen : is_terminal old.status ≡ true → new ≡ old
  pub no_return : is_pending old.status ≡ false → is_pending new.status ≡ false

pub Evolves-refl : (c : ChoreInstance) → Evolves c c
Evolves-refl c = record {
  same_id = refl;
  same_series = refl;
  same_household = refl;
  same_due_date = refl;
  frozen = λ _. refl;
  no_return = λ h. h;
}

Evolves-trans : {c d e : ChoreInstance} → Evolves c d → Evolves d e → Evolves c e
Evolves-trans f g = record {
  same_id = g.same_id ∙ f.same_id;
  same_series = g.same_series ∙ f.same_series;
  same_household = g.same_household ∙ f.same_household;
  same_due_date = g.same_due_date ∙ f.same_due_date;
  frozen = λ h. g.frozen (rw (f.frozen h) h) ∙ f.frozen h;
  no_return = λ h. g.no_return (f.no_return h);
}

-- The rows of a table that loses none: the old ones in place, each changed as allowed, and then
-- the new ones.
abbrev pub Grows : List ChoreInstance → List ChoreInstance → Type 0
Grows [] new = Unit
Grows (x ∷ old) [] = ⊥
Grows (x ∷ old) (y ∷ new) = Evolves x y × Grows old new

pub Grows-refl : (l : List ChoreInstance) → Grows l l
Grows-refl [] = tt
Grows-refl (x ∷ l) = (Evolves-refl x, Grows-refl l)

pub Grows-trans : (l m n : List ChoreInstance) → Grows l m → Grows m n → Grows l n
Grows-trans [] m n g h = tt
Grows-trans (x ∷ l) [] n g h = absurd g
Grows-trans (x ∷ l) (y ∷ m) [] g h = absurd h
Grows-trans (x ∷ l) (y ∷ m) (z ∷ n) g h = (Evolves-trans g.0 h.0, Grows-trans l m n g.1 h.1)

pub Grows-snoc : (l k : List ChoreInstance) → Grows l (l ++ k)
Grows-snoc [] k = tt
Grows-snoc (x ∷ l) k = (Evolves-refl x, Grows-snoc l k)

-- An update of open rows.
pub Grows-update_where :
    (p : ChoreInstance → Bool) (f : ChoreInstance → ChoreInstance) (l : List ChoreInstance)
    → ((c : ChoreInstance) → is_terminal c.status ≡ false → Evolves c (f c))
    → All (λ c. p c ≡ true → is_terminal c.status ≡ false) l
    → Grows l (update_where p f l)
Grows-update_where p f [] allowed live = tt
Grows-update_where p f (x ∷ l) allowed live = elim (Bool-cases (p x)) [
  | inl t ↦ rw t (allowed x (live.0 t), Grows-update_where p f l allowed live.1)
  | inr e ↦ rw e (Evolves-refl x, Grows-update_where p f l allowed live.1)
]

-- A change of an open row that keeps its identity and does not make it pending.
module _ (f : ChoreInstance → ChoreInstance) (c : ChoreInstance)
    (live : is_terminal c.status ≡ false) where
  pub closing-Evolves :
      ((f c).id ≡ c.id)
        × ((f c).definition_id ≡ c.definition_id)
        × ((f c).household_id ≡ c.household_id)
        × ((f c).due_date ≡ c.due_date)
      → (is_pending c.status ≡ false → is_pending (f c).status ≡ false)
      → Evolves c (f c)
  closing-Evolves same closes = record {
    same_id = same.0;
    same_series = same.1;
    same_household = same.2;
    same_due_date = same.3;
    frozen = λ h. cc;
    no_return = closes;
  }

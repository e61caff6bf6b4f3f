-- ===== src/Redistribution/Rows.antt =====
-- The loops of backend/app/services/redistribution.py that write new assignees, row by row.
use chore_app.Base.{
  ℕ, ◌≡◌, refl, ◌∙◌, Bool, true, false, ◌&&◌, Option, none, List, [], ◌∷◌, arith, ◌==◌, Bool-cases,
  inl, inr, ==→eq, ==_refl, All₂, Dict, All,
}
use chore_app.Models.{ChoreInstance}
use chore_app.Redistribution.{set_assignee, write_assignees, clear_assignees}
use chore_app.Redistribution.Writes.{
  has_key, contains, Values, row_writes, write-nil, write-cons, row_clears, clear-nil, clear-cons,
}

-- A row that is left out is as before; a chosen row differs in its assignee at most, which
-- satisfies `P`.
abbrev pub IsMoved :
    (Option ℕ → Type 0) → (ChoreInstance → Bool) → ChoreInstance → ChoreInstance → Type 0
IsMoved P chosen x y =
    (chosen x ≡ false → y ≡ x)
    × (chosen x ≡ true → (y ≡ set_assignee y.assignee_id x) × P y.assignee_id)

-- Does an entry concern a row?
abbrev hits : List ℕ → ℕ × Option ℕ → ChoreInstance → Bool
hits ids e c = contains e.0 ids && c.id == e.0

hits-eq :
    (ids : List ℕ) (e : ℕ × Option ℕ) (c : ChoreInstance)
    → hits ids e c ≡ true
    → (c.id ≡ e.0) × (contains e.0 ids ≡ true)
hits-eq ids e c h = elim (Bool-cases (contains e.0 ids)) [
  | inl known ↦ (==→eq c.id e.0 (rw known at h), known)
  | inr unknown ↦ cc (rw unknown at h)
]

row_writes_same :
    (ids : List ℕ) (d : Dict (Option ℕ)) (c : ChoreInstance)
    → contains c.id ids ≡ false
    → row_writes ids d c ≡ c
unfolding row_writes
row_writes_same ids [] c h = refl
row_writes_same ids (e ∷ d) c h = elim (Bool-cases (hits ids e c)) [
  | inl hit ↦ let (same, known) = hits-eq ids e c hit in cc (known, rw same at h)
  | inr miss ↦ rw miss (row_writes_same ids d c h)
]

row_writes_fields :
    (ids : List ℕ) (d : Dict (Option ℕ)) (c : ChoreInstance)
    → row_writes ids d c ≡ set_assignee (row_writes ids d c).assignee_id c
unfolding row_writes
row_writes_fields ids [] c = refl
row_writes_fields ids (e ∷ d) c = elim (Bool-cases (hits ids e c)) [
  | inl hit ↦ rw (hit, row_writes) (row_writes_fields ids d (set_assignee e.1 c))
  | inr miss ↦ rw (miss, row_writes) (row_writes_fields ids d c)
]

row_writes_keeps :
    (P : Option ℕ → Type 0) (ids : List ℕ) (d : Dict (Option ℕ)) (c : ChoreInstance)
    → Values P d
    → P c.assignee_id
    → P (row_writes ids d c).assignee_id
unfolding row_writes
row_writes_keeps P ids [] c h p = p
row_writes_keeps P ids (e ∷ d) c h p = elim (Bool-cases (hits ids e c)) [
  | inl hit ↦ rw (hit, row_writes) (row_writes_keeps P ids d (set_assignee e.1 c) h.1 h.0)
  | inr miss ↦ rw (miss, row_writes) (row_writes_keeps P ids d c h.1 p)
]

row_writes_new :
    (P : Option ℕ → Type 0) (ids : List ℕ) (d : Dict (Option ℕ)) (c : ChoreInstance)
    → contains c.id ids ≡ true
    → has_key c.id d ≡ true
    → Values P d
    → P (row_writes ids d c).assignee_id
unfolding row_writes
row_writes_new P ids [] c known entered h = cc
row_writes_new P ids (e ∷ d) c known entered h = elim (Bool-cases (hits ids e c)) [
  | inl hit ↦ rw (hit, row_writes) (row_writes_keeps P ids d (set_assignee e.1 c) h.1 h.0)
  | inr miss ↦ rw (miss, row_writes) (row_writes_new P ids d c known (later miss) h.1)
]
  where
    later : hits ids e c ≡ false → has_key c.id d ≡ true
    later miss = elim (Bool-cases (e.0 == c.id)) [
      | inl same ↦ let q = ==→eq e.0 c.id same in cc (rw (q, known, ==_refl c.id) at miss)
      | inr other ↦ rw other at entered
    ]

-- Writing the assignments moves the chosen rows.
pub write_assignees-IsMoved :
    (P : Option ℕ → Type 0) (chosen : ChoreInstance → Bool) (ids : List ℕ) (d : Dict (Option ℕ))
    → Values P d
    → ((i : ℕ) → contains i ids ≡ true → has_key i d ≡ true)
    → (l : List ChoreInstance) → All (λ c. contains c.id ids ≡ chosen c) l
    → All₂ (IsMoved P chosen) l (write_assignees ids d l)
write_assignees-IsMoved P chosen ids d h entered [] k = rw (write-nil ids d) tt
write_assignees-IsMoved P chosen ids d h entered (c ∷ l) k = rw (write-cons ids d c l) (
  (
    (λ left. row_writes_same ids d c (k.0 ∙ left)),
    λ is_chosen. (
      row_writes_fields ids d c,
      row_writes_new P ids d c (k.0 ∙ is_chosen) (entered c.id (k.0 ∙ is_chosen)) h,
    ),
  ),
  write_assignees-IsMoved P chosen ids d h entered l k.1,
)

-- Writing assignments, whatever they are, changes the assignees of the chosen rows at most.
pub write_assignees-Changes :
    (chosen : ChoreInstance → Bool) (ids : List ℕ) (d : Dict (Option ℕ)) (l : List ChoreInstance)
    → All (λ c. contains c.id ids ≡ chosen c) l
    → All₂ (IsMoved (λ _. Unit {0}) chosen) l (write_assignees ids d l)
write_assignees-Changes chosen ids d [] k = rw (write-nil ids d) tt
write_assignees-Changes chosen ids d (c ∷ l) k = rw (write-cons ids d c l) (
  (λ left. row_writes_same ids d c (k.0 ∙ left), λ is_chosen. (row_writes_fields ids d c, tt)),
  write_assignees-Changes chosen ids d l k.1,
)

row_clears_same :
    (ids : List ℕ) (c : ChoreInstance) → contains c.id ids ≡ false → row_clears ids c ≡ c
unfolding row_clears
row_clears_same [] c h = refl
row_clears_same (i ∷ ids) c h = elim (Bool-cases (c.id == i)) [
  | inl hit ↦ let q = ==→eq c.id i hit in cc (rw (q, ==_refl i) at h)
  | inr miss ↦ rw miss (row_clears_same ids c (ground arith))
]

row_clears_cleared :
    (ids : List ℕ) (c : ChoreInstance) → row_clears ids (set_assignee none c) ≡ set_assignee none c
unfolding row_clears
row_clears_cleared [] c = refl
row_clears_cleared (i ∷ ids) c = elim (Bool-cases (c.id == i)) [
  | inl hit ↦ rw hit (row_clears_cleared ids c)
  | inr miss ↦ rw miss (row_clears_cleared ids c)
]

row_clears_new :
    (ids : List ℕ) (c : ChoreInstance)
    → contains c.id ids ≡ true
    → row_clears ids c ≡ set_assignee none c
unfolding row_clears
row_clears_new [] c h = cc
row_clears_new (i ∷ ids) c h = elim (Bool-cases (c.id == i)) [
  | inl hit ↦ rw hit (row_clears_cleared ids c)
  | inr miss ↦ rw miss (row_clears_new ids c (ground arith))
]

-- Clearing moves the chosen rows to nobody.
pub clear_assignees-IsMoved :
    (chosen : ChoreInstance → Bool) (ids : List ℕ) (l : List ChoreInstance)
    → All (λ c. contains c.id ids ≡ chosen c) l
    → All₂ (IsMoved (λ a. a ≡ none) chosen) l (clear_assignees ids l)
clear_assignees-IsMoved chosen ids [] k = rw (clear-nil ids) tt
clear_assignees-IsMoved chosen ids (c ∷ l) k = rw (clear-cons ids c l) (
  (
    (λ left. row_clears_same ids c (k.0 ∙ left)),
    λ is_chosen. let e = row_clears_new ids c (k.0 ∙ is_chosen) in rw e (refl, refl),
  ),
  clear_assignees-IsMoved chosen ids l k.1,
)

pub IsMoved-weaken :
    {P Q : Option ℕ → Type 0} (chosen : ChoreInstance → Bool)
    → ((a : Option ℕ) → P a → Q a)
    → (l m : List ChoreInstance) → All₂ (IsMoved P chosen) l m
    → All₂ (IsMoved Q chosen) l m
IsMoved-weaken chosen g [] [] h = tt
IsMoved-weaken chosen g [] (y ∷ m) h = h
IsMoved-weaken chosen g (x ∷ l) [] h = h
IsMoved-weaken chosen g (x ∷ l) (y ∷ m) h = (
  (h.0.0, λ is_chosen. let (same, p) = h.0.1 is_chosen in (same, g y.assignee_id p)),
  IsMoved-weaken chosen g l m h.1,
)

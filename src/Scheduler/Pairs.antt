-- ===== src/Scheduler/Pairs.antt =====
-- backend/app/tasks/scheduler.py: the guard of `generate_chore_instances` on the pairs of a
-- definition and a due date.
use chore_app.Base.{
  ℕ, ◌≡◌, refl, inl, inr, Bool, true, ◌&&◌, ◌||◌, List, [], ◌∷◌, ◌++◌, arith, ◌==◌, ==→eq, ==_refl,
  is_some_eq, Bool-cases, Option-cases, any, All, All-map,
}
use chore_app.Models.{ChoreDefinition, ChoreInstance}
use chore_app.Scheduler.{Batch, has_pair, pairs_of, add_due, add_dues, dates_of, add_definitions}

-- Some instance has that definition and that due date.
abbrev pub has_instance : ℕ → ℕ → List ChoreInstance → Bool
has_instance i t = any (λ c. is_some_eq c.definition_id i && c.due_date == t)

pub has_instance-append :
    (i t : ℕ) (xs ys : List ChoreInstance)
    → has_instance i t (xs ++ ys) ≡ (has_instance i t xs || has_instance i t ys)
has_instance-append i t [] ys = refl
has_instance-append i t (x ∷ xs) ys = ground (arith, has_instance-append i t xs ys)

-- What the bulk query answers.
pub has_pair-pairs_of :
    (ids : List ℕ) (i t : ℕ) (rows : List ChoreInstance)
    → any (λ j. j == i) ids ≡ true
    → has_pair i t (pairs_of ids rows) ≡ has_instance i t rows
unfolding pairs_of
has_pair-pairs_of ids i t [] h = refl
has_pair-pairs_of ids i t (c ∷ cs) h = elim (Option-cases c.definition_id) [
  | inl none_given ↦ rw none_given (has_pair-pairs_of ids i t cs h)
  | inr (j, given) ↦ elim (Bool-cases (j == i)) [
    | inl same ↦ rw (given, ==→eq j i same) (ground (arith, h, has_pair-pairs_of ids i t cs h))
    | inr other ↦ rw given (ground (arith, h, other, has_pair-pairs_of ids i t cs h))
  ]
]

-- The pairs are those at the start and those of the new instances.
abbrev pub IsExact : List (ℕ × ℕ) → Batch → Type 0
IsExact start b =
    (i t : ℕ) → has_pair i t b.existing_pairs ≡ (has_pair i t start || has_instance i t b.added)

module _ (new_id : ℕ → ℕ) (now : ℕ) where
  pub add_due-IsExact :
      (start : List (ℕ × ℕ)) (d : ChoreDefinition) (x : ℕ) (b : Batch)
      → IsExact start b
      → IsExact start (add_due new_id now d x b)
  unfolding add_due
  add_due-IsExact start d x b h i t = elim (Bool-cases (has_pair d.id x b.existing_pairs)) [
    | inl old ↦ rw old (h i t)
    | inr fresh ↦ rw (fresh, has_instance-append i t b.added _) (ground (arith, h i t))
  ]

  pub add_dues-IsExact :
      (start : List (ℕ × ℕ)) (d : ChoreDefinition) (xs : List ℕ) (b : Batch)
      → IsExact start b
      → IsExact start (add_dues new_id now d xs b)
  unfolding add_dues
  add_dues-IsExact start d [] b h = h
  add_dues-IsExact start d (x ∷ xs) b h =
      add_dues-IsExact start d xs (add_due new_id now d x b) (add_due-IsExact start d x b h)

  -- A pair stays, and the pair that was asked for is there.
  add_due-keeps :
      (d : ChoreDefinition) (x : ℕ) (b : Batch) (i t : ℕ)
      → has_pair i t b.existing_pairs ≡ true
      → has_pair i t (add_due new_id now d x b).existing_pairs ≡ true
  unfolding add_due
  add_due-keeps d x b i t h = elim (Bool-cases (has_pair d.id x b.existing_pairs)) [
    | inl old ↦ rw old h
    | inr fresh ↦ rw fresh (ground (arith, h))
  ]

  add_due-has :
      (d : ChoreDefinition) (x : ℕ) (b : Batch)
      → has_pair d.id x (add_due new_id now d x b).existing_pairs ≡ true
  unfolding add_due
  add_due-has d x b = elim (Bool-cases (has_pair d.id x b.existing_pairs)) [
    | inl old ↦ rw old old
    | inr fresh ↦ rw fresh (ground (arith, ==_refl d.id, ==_refl x))
  ]

  add_dues-keeps :
      (d : ChoreDefinition) (xs : List ℕ) (b : Batch) (i t : ℕ)
      → has_pair i t b.existing_pairs ≡ true
      → has_pair i t (add_dues new_id now d xs b).existing_pairs ≡ true
  unfolding add_dues
  add_dues-keeps d [] b i t h = h
  add_dues-keeps d (x ∷ xs) b i t h =
      add_dues-keeps d xs (add_due new_id now d x b) i t (add_due-keeps d x b i t h)

  add_dues-has :
      (d : ChoreDefinition) (xs : List ℕ) (b : Batch)
      → All (λ x. has_pair d.id x (add_dues new_id now d xs b).existing_pairs ≡ true) xs
  unfolding add_dues
  add_dues-has d [] b = tt
  add_dues-has d (x ∷ xs) b = (
    add_dues-keeps d xs (add_due new_id now d x b) d.id x (add_due-has d x b),
    add_dues-has d xs (add_due new_id now d x b),
  )

  -- Where every pair is there already, nothing is added.
  add_dues-idle :
      (d : ChoreDefinition) (xs : List ℕ) (b : Batch)
      → All (λ x. has_pair d.id x b.existing_pairs ≡ true) xs
      → add_dues new_id now d xs b ≡ b
  unfolding add_dues add_due
  add_dues-idle d [] b h = refl
  add_dues-idle d (x ∷ xs) b h = rw (h.0) (add_dues-idle d xs b h.1)

  module _ (add_months : ℕ → ℕ → ℕ) (horizon floor : ℕ) where
    abbrev pub dates : ChoreDefinition → List ℕ
    dates d = dates_of new_id now add_months horizon floor d d.recurrence_rule

    -- Every date of every definition has its pair.
    abbrev pub Covers : List (ℕ × ℕ) → List ChoreDefinition → Type 0
    Covers pairs ds = All (λ d. All (λ x. has_pair d.id x pairs ≡ true) (dates d)) ds

    pub add_definitions-IsExact :
        (start : List (ℕ × ℕ)) (ds : List ChoreDefinition) (b : Batch)
        → IsExact start b
        → IsExact start (add_definitions new_id now add_months horizon floor ds b)
    unfolding add_definitions
    add_definitions-IsExact start [] b h = h
    add_definitions-IsExact start (d ∷ ds) b h =
        add_definitions-IsExact start ds (add_dues new_id now d (dates d) b)
          (add_dues-IsExact start d (dates d) b h)

    add_definitions-keeps :
        (ds : List ChoreDefinition) (b : Batch) (i t : ℕ)
        → has_pair i t b.existing_pairs ≡ true
        → has_pair i t (add_definitions new_id now add_months horizon floor ds b).existing_pairs
          ≡ true
    unfolding add_definitions
    add_definitions-keeps [] b i t h = h
    add_definitions-keeps (d ∷ ds) b i t h =
        add_definitions-keeps ds (add_dues new_id now d (dates d) b) i t
          (add_dues-keeps d (dates d) b i t h)

    pub add_definitions-Covers :
        (ds : List ChoreDefinition) (b : Batch)
        → Covers (add_definitions new_id now add_months horizon floor ds b).existing_pairs ds
    unfolding add_definitions
    add_definitions-Covers [] b = tt
    add_definitions-Covers (d ∷ ds) b = (
      All-map (λ x h. add_definitions-keeps ds (add_dues new_id now d (dates d) b) d.id x h)
          (dates d) (add_dues-has d (dates d) b),
      add_definitions-Covers ds (add_dues new_id now d (dates d) b),
    )

    pub add_definitions-idle :
        (ds : List ChoreDefinition) (b : Batch)
        → Covers b.existing_pairs ds
        → add_definitions new_id now add_months horizon floor ds b ≡ b
    unfolding add_definitions
    add_definitions-idle [] b h = refl
    add_definitions-idle (d ∷ ds) b h =
        rw (add_dues-idle d (dates d) b h.0) (add_definitions-idle ds b h.1)

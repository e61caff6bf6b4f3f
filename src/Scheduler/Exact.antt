-- ===== src/Scheduler/Exact.antt =====
-- backend/app/tasks/scheduler.py: which pairs of a definition and a due date have an instance after
-- a run of `generate_chore_instances`, and how many.
use chore_app.Base.{
  ℕ, ◌≡◌, refl, sym, ap, ◌∙◌, inl, inr, Bool, false, ◌&&◌, ◌||◌, List, [], ◌∷◌, ◌++◌, map, arith,
  ◌==◌, ==→eq, Bool-cases, Option-cases, any,
}
use chore_app.Models.{ChoreDefinition, ChoreInstance}
use chore_app.Scheduler.{Batch, has_pair, pairs_of, add_due, add_dues, add_definitions}
use chore_app.Scheduler.Pairs.{
  has_instance, has_instance-append, has_pair-pairs_of, IsExact, dates, add_definitions-IsExact,
}

-- A pair of an unknown definition is not among those of the bulk query.
has_pair-pairs_of_other :
    (ids : List ℕ) (i t : ℕ) (rows : List ChoreInstance)
    → any (λ j. j == i) ids ≡ false
    → has_pair i t (pairs_of ids rows) ≡ false
unfolding pairs_of
has_pair-pairs_of_other ids i t [] h = refl
has_pair-pairs_of_other ids i t (c ∷ cs) h = elim (Option-cases c.definition_id) [
  | inl none_given ↦ rw none_given (has_pair-pairs_of_other ids i t cs h)
  | inr (j, given) ↦ elim (Bool-cases (j == i)) [
    | inl same ↦
        rw (given, ==→eq j i same) (ground (arith, h, has_pair-pairs_of_other ids i t cs h))
    | inr other ↦ rw given (ground (arith, h, other, has_pair-pairs_of_other ids i t cs h))
  ]
]

module _ (new_id : ℕ → ℕ) (now : ℕ) where
  due_pair :
      (d : ChoreDefinition) (x : ℕ) (b : Batch) (i t : ℕ)
      → has_pair i t (add_due new_id now d x b).existing_pairs
        ≡ (has_pair i t b.existing_pairs || (d.id == i && x == t))
  unfolding add_due
  due_pair d x b i t = elim (Bool-cases (has_pair d.id x b.existing_pairs)) [
    | inl old ↦ elim (Bool-cases (d.id == i && x == t)) [
      | inl asked ↦
          let e : d.id ≡ i = ground arith in
          let f : x ≡ t = ground arith in
          rw (old, asked) (let known = rw (e, f) at old in ground (arith, known))
      | inr other ↦ rw (old, other) (ground arith)
    ]
    | inr fresh ↦ rw fresh (ground arith)
  ]

  dues_pair :
      (d : ChoreDefinition) (xs : List ℕ) (b : Batch) (i t : ℕ)
      → has_pair i t (add_dues new_id now d xs b).existing_pairs
        ≡ (has_pair i t b.existing_pairs || (d.id == i && any (λ x. x == t) xs))
  unfolding add_dues
  dues_pair d [] b i t = ground arith
  dues_pair d (x ∷ xs) b i t =
      ground (arith, dues_pair d xs (add_due new_id now d x b) i t, due_pair d x b i t)

  module _ (add_months : ℕ → ℕ → ℕ) (horizon floor : ℕ) where
    -- One of the definitions has that identifier and is due on that date.
    abbrev pub is_scheduled : ℕ → ℕ → List ChoreDefinition → Bool
    is_scheduled i t =
        any (λ d. d.id == i && any (λ x. x == t) (dates new_id now add_months horizon floor d))

    definitions_pair :
        (ds : List ChoreDefinition) (b : Batch) (i t : ℕ)
        → has_pair i t (add_definitions new_id now add_months horizon floor ds b).existing_pairs
          ≡ (has_pair i t b.existing_pairs || is_scheduled i t ds)
    unfolding add_definitions
    definitions_pair [] b i t = ground arith
    definitions_pair (d ∷ ds) b i t =
        let xs = dates new_id now add_months horizon floor d in
        ground (arith, definitions_pair ds (add_dues new_id now d xs b) i t, dues_pair d xs b i t)

    unscheduled :
        (ds : List ChoreDefinition) (i t : ℕ)
        → any (λ j. j == i) (map (λ d. d.id) ds) ≡ false
        → is_scheduled i t ds ≡ false
    unscheduled [] i t h = refl
    unscheduled (d ∷ ds) i t h = ground (arith, unscheduled ds i t)

    module _ (ds : List ChoreDefinition) (rows : List ChoreInstance) where
      abbrev start : Batch
      start = record {
        existing_pairs = pairs_of (map (λ d. d.id) ds) rows;
        added = [];
        new_by_household = [];
      }

      abbrev batch : Batch
      batch = add_definitions new_id now add_months horizon floor ds start

      exact : IsExact start.existing_pairs batch
      exact =
          add_definitions-IsExact new_id now add_months horizon floor start.existing_pairs ds start
            (λ i t. ground arith)

      -- The loops add exactly what is scheduled and missing.
      pub has_instance-added :
          (i t : ℕ)
          → has_instance i t (rows ++ batch.added) ≡ (has_instance i t rows || is_scheduled i t ds)
      has_instance-added i t =
          let all = has_instance-append i t rows batch.added in
          let e = exact i t in
          let f = definitions_pair ds start i t in
          elim (Bool-cases (any (λ j. j == i) (map (λ d. d.id) ds))) [
            | inl known ↦
                let p = has_pair-pairs_of (map (λ d. d.id) ds) i t rows known in
                all
                ∙ ap (λ b. b || has_instance i t batch.added) (sym p)
                ∙ sym e
                ∙ f
                ∙ ap (λ b. b || is_scheduled i t ds) p
            | inr unknown ↦
                let p = has_pair-pairs_of_other (map (λ d. d.id) ds) i t rows unknown in
                all
                ∙ ap (λ b. has_instance i t rows || b)
                    (sym (ap (λ b. b || has_instance i t batch.added) p)
                      ∙ sym e
                      ∙ f
                      ∙ ap (λ b. b || is_scheduled i t ds) p)
          ]

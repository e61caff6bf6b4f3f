-- ===== src/Scheduler/Single.antt =====
-- backend/app/tasks/scheduler.py: how many instances of a definition and a due date
-- `generate_chore_instances` adds.
use chore_app.Base.{
  ℕ, ◌+◌, ◌-◌, ◌≡◌, refl, sym, ap, ◌∙◌, ◌⊎◌, inl, inr, true, false, ◌&&◌, List, [], ◌∷◌, ◌++◌, map,
  arith, ◌==◌, ==→eq, ==_refl, is_some_eq, Bool-cases, any, count, count-append, All, All-map,
}
use chore_app.Models.{ChoreDefinition, ChoreInstance}
use chore_app.Session.{Session, ok}
use chore_app.Engine.{Engine}
use chore_app.Scheduler.{
  Batch, has_pair, pairs_of, add_due, add_dues, add_definitions, recurring_definitions,
  generate_chore_instances,
}
use chore_app.Scheduler.Pairs.{
  has_instance, has_pair-pairs_of, IsExact, dates, add_due-IsExact, add_dues-IsExact,
}
use chore_app.Scheduler.Idempotent.{pair, is_pair, own_ids, filled, run_pairs}

-- The instances with that definition and that due date.
abbrev pub instance_count : ℕ → ℕ → List ChoreInstance → ℕ
instance_count i t = count (λ c. is_some_eq c.definition_id i && c.due_date == t)

none_counted :
    (i t : ℕ) (rows : List ChoreInstance)
    → has_instance i t rows ≡ false
    → instance_count i t rows ≡ 0
none_counted i t [] h = refl
none_counted i t (c ∷ cs) h = ground (arith, h, none_counted i t cs)

instance_count-map :
    (i t : ℕ) (rows : List ChoreInstance)
    → instance_count i t rows ≡ count (is_pair i t) (map pair rows)
instance_count-map i t [] = refl
instance_count-map i t (c ∷ cs) = ground (arith, instance_count-map i t cs)

-- Nothing is added, or one instance where there was none.
abbrev IsSingle : ℕ → ℕ → List ChoreInstance → List ChoreInstance → Type 0
IsSingle i t rows added =
    (instance_count i t added ≡ 0)
    ⊎ ((instance_count i t rows ≡ 0) × (instance_count i t added ≡ 1))

module _ (new_id : ℕ → ℕ) (now i t : ℕ) (rows : List ChoreInstance) (start : List (ℕ × ℕ)) where
  -- The definition is one that the query asked for.
  abbrev IsKnown : ChoreDefinition → Type 0
  IsKnown d = (x : ℕ) → has_pair d.id x start ≡ has_instance d.id x rows

  add_due-IsSingle :
      (d : ChoreDefinition) (x : ℕ) (b : Batch)
      → IsKnown d
      → IsExact start b
      → IsSingle i t rows b.added
      → IsSingle i t rows (add_due new_id now d x b).added
  unfolding add_due
  add_due-IsSingle d x b known exact h = elim (Bool-cases (has_pair d.id x b.existing_pairs)) [
    | inl old ↦ rw old h
    | inr fresh ↦
        rw (fresh, count-append _ b.added _)
          (elim (Bool-cases (d.id == i && x == t)) [
            | inl hit ↦
                let same_definition : d.id ≡ i = ==→eq d.id i (ground arith) in
                let same_date : x ≡ t = ==→eq x t (ground arith) in
                let none = new_pair fresh in
                rw (← same_definition, ← same_date)
                  (inr (none.0, rw (none.1, ==_refl d.id, ==_refl x) refl))
            | inr miss ↦ rw miss (elim h [
              | inl zero ↦ inl (omega (arith, zero))
              | inr (absent, one) ↦ inr (absent, omega (arith, one))
            ])
          ])
  ]
    where
      new_pair :
          has_pair d.id x b.existing_pairs ≡ false
          → (instance_count d.id x rows ≡ 0) × (instance_count d.id x b.added ≡ 0)
      new_pair fresh =
          let e = exact d.id x in
          (
            none_counted d.id x rows (sym (known x) ∙ ground (arith, e, fresh)),
            none_counted d.id x b.added (ground (arith, e, fresh)),
          )

  add_dues-IsSingle :
      (d : ChoreDefinition) (xs : List ℕ) (b : Batch)
      → IsKnown d
      → IsExact start b
      → IsSingle i t rows b.added
      → IsSingle i t rows (add_dues new_id now d xs b).added
  unfolding add_dues
  add_dues-IsSingle d [] b known exact h = h
  add_dues-IsSingle d (x ∷ xs) b known exact h =
      add_dues-IsSingle d xs (add_due new_id now d x b) known
        (add_due-IsExact new_id now start d x b exact) (add_due-IsSingle d x b known exact h)

  add_definitions-IsSingle :
      (add_months : ℕ → ℕ → ℕ) (horizon floor : ℕ) (ds : List ChoreDefinition) (b : Batch)
      → All IsKnown ds
      → IsExact start b
      → IsSingle i t rows b.added
      → IsSingle i t rows (add_definitions new_id now add_months horizon floor ds b).added
  unfolding add_definitions
  add_definitions-IsSingle add_months horizon floor [] b known exact h = h
  add_definitions-IsSingle add_months horizon floor (d ∷ ds) b known exact h =
      let xs = dates new_id now add_months horizon floor d in
      add_definitions-IsSingle add_months horizon floor ds (add_dues new_id now d xs b) known.1
        (add_dues-IsExact new_id now start d xs b exact) (add_dues-IsSingle d xs b known.0 exact h)

-- The bulk query knows the pairs of the definitions whose keys it is given.
all_known :
    (ds : List ChoreDefinition) (ids : List ℕ) (rows : List ChoreInstance)
    → All (λ d. any (λ j. j == d.id) ids ≡ true) ds
    → All (λ d. (x : ℕ) → has_pair d.id x (pairs_of ids rows) ≡ has_instance d.id x rows) ds
all_known ds ids rows h = All-map (λ d known x. has_pair-pairs_of ids d.id x rows known) ds h

-- A run of `generate_chore_instances` that succeeds adds at most one instance of a definition on a
-- due date, and only where there was none: the number of instances with that definition and that
-- due date stays, or it was 0 and is 1.
pub generate_chore_instances_once :
    (engine : Engine) (add_months : ℕ → ℕ → ℕ) (new_id : ℕ → ℕ)
    (days_ahead grace_days today now : ℕ) (s after : Session)
    → generate_chore_instances engine add_months new_id days_ahead grace_days today now s
      ≡ (ok tt, after)
    → (i t : ℕ)
    → (instance_count i t after.working.instances ≡ instance_count i t s.working.instances)
      ⊎ ((instance_count i t s.working.instances ≡ 0)
          × (instance_count i t after.working.instances ≡ 1))
generate_chore_instances_once engine add_months new_id days_ahead grace_days today now s after h i
      t =
    elim added [
      | inl none_added ↦ inl (counted ∙ omega (arith, none_added))
      | inr (absent, one) ↦ inr (absent, counted ∙ omega (arith, absent, one))
    ]
  where
    ds : List ChoreDefinition
    ds = recurring_definitions engine s.working

    rows : List ChoreInstance
    rows = s.working.instances

    ids : List ℕ
    ids = map (λ d. d.id) ds

    batch : Batch
    batch = filled new_id now add_months (today + days_ahead) (today - grace_days) ds rows

    added : IsSingle i t rows batch.added
    added =
        add_definitions-IsSingle new_id now i t rows (pairs_of ids rows) add_months
          (today + days_ahead) (today - grace_days) ds
          (record { existing_pairs = pairs_of ids rows; added = []; new_by_household = [] })
          (all_known ds ids rows (own_ids ds (λ i. any (λ j. j == i) ids) (λ i h. h)))
          (λ i t. ground arith) (inl refl)

    counted :
        instance_count i t after.working.instances
        ≡ instance_count i t rows + instance_count i t batch.added
    counted =
        instance_count-map i t after.working.instances
        ∙ ap (λ v. count (is_pair i t) v.0)
            (run_pairs engine add_months days_ahead grace_days today new_id now s after h)
        ∙ sym (instance_count-map i t (rows ++ batch.added))
        ∙ count-append _ rows batch.added

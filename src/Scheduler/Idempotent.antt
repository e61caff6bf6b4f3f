-- ===== src/Scheduler/Idempotent.antt =====
-- backend/app/tasks/scheduler.py: a second run of `generate_chore_instances` on the same day.
use chore_app.Base.{
  ℕ, ◌+◌, ◌-◌, ◌≡◌, refl, sym, ap, ◌∙◌, Bool, true, ◌&&◌, ◌||◌, Option, List, [], ◌∷◌, ◌++◌, map,
  arith, ◌==◌, ==_refl, is_some_eq, any, All, All-map, All-map₂, Dict,
}
use mathlib.Core.List.{append-nil}
use chore_app.Models.{ChoreDefinition, ChoreInstance}
use chore_app.Session.{Session, ok, write}
use chore_app.Session.Preserves.{Preserves, Preserves-bind}
use chore_app.Engine.{Engine}
use chore_app.Assignment.{redistribute_chores_bulk}
use chore_app.Redistribution.{with_instances, with_assignee}
use chore_app.Scheduler.{
  Batch, has_pair, pairs_of, add_definitions, write_assignments, assign_groups,
  recurring_definitions, generate_chore_instances,
}
use chore_app.Scheduler.Pairs.{
  has_instance, has_instance-append, has_pair-pairs_of, IsExact, Covers, dates,
  add_definitions-IsExact, add_definitions-Covers, add_definitions-idle,
}

abbrev pub pair : ChoreInstance → Option ℕ × ℕ
pair c = (c.definition_id, c.due_date)

abbrev pub is_pair : ℕ → ℕ → Option ℕ × ℕ → Bool
is_pair i t p = is_some_eq p.0 i && p.1 == t

-- The pairs of the instances, and the definitions.
abbrev pub pairs_view : Session → List (Option ℕ × ℕ) × List ChoreDefinition
pairs_view s = (map pair s.working.instances, s.working.definitions)

with_assignee-pairs :
    (i : ℕ) (o : Option ℕ) (rows : List ChoreInstance)
    → map pair (with_assignee i o rows) ≡ map pair rows
with_assignee-pairs i o [] = refl
with_assignee-pairs i o (c ∷ cs) = ground (arith, with_assignee-pairs i o cs)

write_assignments-pairs :
    (d : Dict (Option ℕ)) (cs rows : List ChoreInstance)
    → map pair (write_assignments d cs rows) ≡ map pair rows
unfolding write_assignments
write_assignments-pairs d [] rows = refl
write_assignments-pairs d (c ∷ cs) rows =
    write_assignments-pairs d cs (with_assignee c.id _ rows) ∙ with_assignee-pairs c.id _ rows

bulk-pairs :
    (engine : Engine) (cids : List ℕ) (hid : ℕ)
    → Preserves pairs_view (redistribute_chores_bulk engine cids hid)
unfolding redistribute_chores_bulk
bulk-pairs engine [] hid = record { at = λ s. refl }
bulk-pairs engine (cid ∷ cids) hid = record { at = λ s. ground arith }

assign_groups-pairs :
    (engine : Engine) (groups : Dict (List ChoreInstance))
    → Preserves pairs_view (assign_groups engine groups)
unfolding assign_groups
assign_groups-pairs engine [] = record { at = λ s. refl }
assign_groups-pairs engine (g ∷ groups) =
    Preserves-bind _ _ (bulk-pairs engine (map (λ c. c.id) g.1) g.0)
      (λ d. Preserves-bind _ _ (writes d) (λ _. assign_groups-pairs engine groups))
  where
    writes :
        (d : Dict (Option ℕ))
        → Preserves pairs_view (write (with_instances (write_assignments d g.1)))
    writes d = record {
      at = λ s.
          ap (λ v. (v, s.working.definitions)) (write_assignments-pairs d g.1 s.working.instances);
    }

-- Whether an instance has a pair depends on the pairs only.
pub has_instance-map :
    (i t : ℕ) (rows : List ChoreInstance)
    → has_instance i t rows ≡ any (is_pair i t) (map pair rows)
has_instance-map i t [] = refl
has_instance-map i t (c ∷ cs) = ground (arith, has_instance-map i t cs)

-- A definition's key is among the keys.
pub own_ids :
    (ds : List ChoreDefinition) (is_key : ℕ → Bool)
    → ((i : ℕ) → any (λ j. j == i) (map (λ e. e.id) ds) ≡ true → is_key i ≡ true)
    → All (λ d. is_key d.id ≡ true) ds
own_ids [] is_key h = tt
own_ids (d ∷ ds) is_key h =
    (h d.id (ground (arith, ==_refl d.id)), own_ids ds is_key (λ i e. h i (ground (arith, e))))

module _ (new_id : ℕ → ℕ) (now : ℕ) (add_months : ℕ → ℕ → ℕ) (horizon floor : ℕ)
    (ds : List ChoreDefinition) (rows : List ChoreInstance) where
  abbrev ids : List ℕ
  ids = map (λ d. d.id) ds

  abbrev pub filled : Batch
  filled =
      add_definitions new_id now add_months horizon floor ds
        (record { existing_pairs = pairs_of ids rows; added = []; new_by_household = [] })

  -- Once the new instances are there, whoever they are assigned to, the pairs cover every date.
  Covers-after :
      (after : List ChoreInstance)
      → map pair after ≡ map pair (rows ++ filled.added)
      → Covers new_id now add_months horizon floor (pairs_of ids after) ds
  Covers-after after same =
      All-map₂
        (λ d covered known.
          All-map (λ x h. here d x known h) (dates new_id now add_months horizon floor d) covered)
        ds
        (add_definitions-Covers new_id now add_months horizon floor ds
          (record { existing_pairs = pairs_of ids rows; added = []; new_by_household = [] }))
        (own_ids ds (λ i. any (λ j. j == i) ids) (λ i h. h))
    where
      exact : IsExact (pairs_of ids rows) filled
      exact =
          add_definitions-IsExact new_id now add_months horizon floor (pairs_of ids rows) ds
            (record { existing_pairs = pairs_of ids rows; added = []; new_by_household = [] })
            (λ i t. ground arith)

      here :
          (d : ChoreDefinition) (x : ℕ)
          → any (λ j. j == d.id) ids ≡ true
          → has_pair d.id x filled.existing_pairs ≡ true
          → has_pair d.id x (pairs_of ids after) ≡ true
      here d x known h =
          has_pair-pairs_of ids d.id x after known
          ∙ has_instance-map d.id x after
          ∙ ap (any (is_pair d.id x)) same
          ∙ sym (has_instance-map d.id x (rows ++ filled.added))
          ∙ has_instance-append d.id x rows filled.added
          ∙ ap (λ b. b || has_instance d.id x filled.added)
              (sym (has_pair-pairs_of ids d.id x rows known))
          ∙ sym (exact d.id x)
          ∙ h

module _ (engine : Engine) (add_months : ℕ → ℕ → ℕ) (days_ahead grace_days today : ℕ) where
  -- Where the pairs cover every date, a run adds and assigns nothing.
  idle_run :
      (new_id : ℕ → ℕ) (now : ℕ) (s : Session)
      → Covers new_id now add_months
          (today + days_ahead)
          (today - grace_days)
          (pairs_of (map (λ d. d.id) (recurring_definitions engine s.working)) s.working.instances)
          (recurring_definitions engine s.working)
      → generate_chore_instances engine add_months new_id days_ahead grace_days today now s
        ≡ (ok tt, s)
  unfolding generate_chore_instances assign_groups
  idle_run new_id now s covered = rw (
    add_definitions-idle new_id now add_months (today + days_ahead) (today - grace_days)
        (recurring_definitions engine s.working)
        (record {
          existing_pairs =
              pairs_of (map (λ d. d.id) (recurring_definitions engine s.working))
                s.working.instances;
          added = [];
          new_by_household = [];
        })
        covered,
    append-nil,
  )

  -- What a run that succeeded leaves: the pairs of the rows and of the new instances, and the
  -- definitions.
  pub run_pairs :
      (new_id : ℕ → ℕ) (now : ℕ) (s s' : Session)
      → generate_chore_instances engine add_months new_id days_ahead grace_days today now s
        ≡ (ok tt, s')
      → pairs_view s' ≡ (
        map pair (
            s.working.instances
            ++ (filled new_id now add_months
                (today + days_ahead)
                (today - grace_days)
                (recurring_definitions engine s.working)
                s.working.instances).added),
        s.working.definitions,
      )
  unfolding generate_chore_instances
  run_pairs new_id now s s' h =
      ap (λ r. pairs_view r.1) (sym h) ∙ (assign_groups-pairs engine _).at _

-- A run on the same day of `generate_chore_instances` that follows one that succeeded, with other
-- fresh identifiers and at another time, succeeds and changes nothing.
pub generate_chore_instances_idem :
    (engine : Engine) (add_months : ℕ → ℕ → ℕ) (new_id new_id' : ℕ → ℕ)
    (days_ahead grace_days today now now' : ℕ) (s s' : Session)
    → generate_chore_instances engine add_months new_id days_ahead grace_days today now s
      ≡ (ok tt, s')
    → generate_chore_instances engine add_months new_id' days_ahead grace_days today now' s'
      ≡ (ok tt, s')
unfolding recurring_definitions
generate_chore_instances_idem engine add_months new_id new_id' days_ahead grace_days today now now'
      s s' h =
    let e = run_pairs engine add_months days_ahead grace_days today new_id now s s' h in
    idle_run engine add_months days_ahead grace_days today new_id' now' s' (
      rw (ap (λ v. v.1) e) (
        Covers-after new_id now add_months (today + days_ahead) (today - grace_days)
          (recurring_definitions engine s.working) s.working.instances s'.working.instances
          (ap (λ v. v.0) e)))

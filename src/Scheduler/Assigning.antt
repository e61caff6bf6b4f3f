-- ===== src/Scheduler/Assigning.antt =====
-- backend/app/tasks/scheduler.py: the loop of `generate_chore_instances` that assigns the new
-- instances, and the rows it writes.
use chore_app.Base.{
  ℕ, ◌≡◌, refl, sym, ap, ◌∙◌, ◌≢◌, inl, inr, Option, List, [], ◌∷◌, map, ◌==◌, ==→eq, Bool-cases,
  All, All₂, All₂-trans, Dict,
}
use chore_app.Models.{ChoreInstance}
use chore_app.Session.{Session, Result, ok, err, and_then, write, ◌>>◌}
use chore_app.Engine.{Engine}
use chore_app.Assignment.{redistribute_chores_bulk}
use chore_app.Redistribution.{set_assignee, with_assignee, with_instances}
use chore_app.Redistribution.Closed.{chores_view, bulk_keeps}
use chore_app.Scheduler.{write_assignments, assign_groups}
use chore_app.Scheduler.Issued.{IsDrawn}

module _ (new_id : ℕ → ℕ) where
  -- A row may get another assignee only if its identifier is one of the run's.
  abbrev pub IsAssigned : ChoreInstance → ChoreInstance → Type 0
  IsAssigned x y = (y ≡ set_assignee y.assignee_id x) × (((k : ℕ) → x.id ≢ new_id k) → y ≡ x)

  IsAssigned-trans : (x y z : ChoreInstance) → IsAssigned x y → IsAssigned y z → IsAssigned x z
  IsAssigned-trans x y z f g = (
    g.0 ∙ ap (set_assignee z.assignee_id) f.0,
    λ other. g.1 (λ k e. other k (sym (ap (λ c. c.id) f.0) ∙ e)) ∙ f.1 other,
  )

  IsAssigned-refl : (l : List ChoreInstance) → All₂ IsAssigned l l
  IsAssigned-refl [] = tt
  IsAssigned-refl (c ∷ l) = ((refl, λ _. refl), IsAssigned-refl l)

  with_assignee-IsAssigned :
      (i k : ℕ) (o : Option ℕ) (l : List ChoreInstance)
      → i ≡ new_id k
      → All₂ IsAssigned l (with_assignee i o l)
  with_assignee-IsAssigned i k o [] e = tt
  with_assignee-IsAssigned i k o (c ∷ l) e = elim (Bool-cases (c.id == i)) [
    | inl hit ↦ rw hit (
      (refl, λ other. absurd (other k (==→eq c.id i hit ∙ e))),
      with_assignee-IsAssigned i k o l e,
    )
    | inr miss ↦ rw miss ((refl, λ _. refl), with_assignee-IsAssigned i k o l e)
  ]

  write_assignments-IsAssigned :
      (d : Dict (Option ℕ)) (cs l : List ChoreInstance)
      → All (IsDrawn new_id) cs
      → All₂ IsAssigned l (write_assignments d cs l)
  unfolding write_assignments
  write_assignments-IsAssigned d [] l h = IsAssigned-refl l
  write_assignments-IsAssigned d (c ∷ cs) l h =
      All₂-trans IsAssigned IsAssigned-trans l _ _ (with_assignee-IsAssigned c.id h.0.0 _ l h.0.1)
        (write_assignments-IsAssigned d cs (with_assignee c.id _ l) h.1)

  -- The rows of the run are assigned; the ledger and the committed rows stay.
  pub record Assigns (s s' : Session) : Type 0 where
    pub rows : All₂ IsAssigned s.working.instances s'.working.instances
    pub ledger : s'.working.ledger ≡ s.working.ledger
    pub committed : s'.committed ≡ s.committed

  Assigns-same : (s t u : Session) → chores_view t ≡ chores_view s → Assigns t u → Assigns s u
  Assigns-same s t u e h = record {
    rows = rw (ap (λ v. v.0) e) at h.rows;
    ledger = h.ledger ∙ ap (λ v. v.1) e;
    committed = h.committed ∙ ap (λ v. v.2) e;
  }

  Assigns-refl : (s : Session) → Assigns s s
  Assigns-refl s = record {
    rows = IsAssigned-refl s.working.instances;
    ledger = refl;
    committed = refl;
  }

  Assigns-trans : (s t u : Session) → Assigns s t → Assigns t u → Assigns s u
  Assigns-trans s t u f g = record {
    rows =
        All₂-trans IsAssigned IsAssigned-trans s.working.instances t.working.instances
          u.working.instances f.rows g.rows;
    ledger = g.ledger ∙ f.ledger;
    committed = g.committed ∙ f.committed;
  }

  pub assign_groups-Assigns :
      (engine : Engine) (groups : Dict (List ChoreInstance)) (s : Session)
      → All (λ g. All (IsDrawn new_id) g.1) groups
      → Assigns s (assign_groups engine groups s).1
  unfolding assign_groups
  assign_groups-Assigns engine [] s h = Assigns-refl s
  assign_groups-Assigns engine (g ∷ groups) s h =
      let m = redistribute_chores_bulk engine (map (λ c. c.id) g.1) g.0 s in
      go m.0 m.1 (bulk_keeps engine (map (λ c. c.id) g.1) g.0 s)
        (λ t. assign_groups-Assigns engine groups t h.1)
    where
      go :
          (r : Result (Dict (Option ℕ))) (t : Session)
          → chores_view t ≡ chores_view s
          → ((t : Session) → Assigns t (assign_groups engine groups t).1)
          → Assigns s
              (and_then r
                (λ d.
                  write (with_instances (write_assignments d g.1)) >> assign_groups engine groups)
                t).1
      go (err x) t e rest = Assigns-same s t t e (Assigns-refl t)
      go (ok d) t e rest = Assigns-same s t _ e (
          Assigns-trans t
            (record t { working = with_instances (write_assignments d g.1) t.working }) _
            (record {
              rows = write_assignments-IsAssigned d g.1 t.working.instances h.0;
              ledger = refl;
              committed = refl;
            })
            (rest _))

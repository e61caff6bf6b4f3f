-- ===== src/Scheduler/Scheduled.antt =====
-- backend/app/tasks/scheduler.py: what it means that an instance is due to be generated.
use chore_app.Base.{
  ℕ, ◌≤◌, ◌<◌, ◌≡◌, refl, sym, ◌∙◌, ◌↔◌, Bool, true, ◌&&◌, Option, none, some, arith, leb, ◌==◌,
  ==→eq, ==_refl, any, filter, Any, any_iff,
}
use chore_app.Models.{
  RecurrenceRule, ChoreType, one_off, recurring, ChoreDefinition, Database, is_recurring,
}
use chore_app.Engine.{Engine}
use chore_app.Engine.Orders.{any-perm, any-filter}
use chore_app.Scheduler.{dates_of, recurring_definitions}
use chore_app.Scheduler.DueDates.{
  occurrence, step_advances, compute_due_dates, compute_due_dates_iff,
}
use chore_app.Scheduler.Exact.{is_scheduled}

-- The definition `i` is recurring and active, and a date of its cadence, which starts at its first
-- due date, is `t`, not after the horizon and not before the floor.
pub record IsScheduled (add_months : ℕ → ℕ → ℕ) (horizon floor i t : ℕ) (d : ChoreDefinition)
    : Type 0 where
  pub same : d.id ≡ i
  pub is_series : d.chore_type ≡ recurring
  pub active : d.is_active ≡ true
  pub rule : RecurrenceRule
  pub has_rule : d.recurrence_rule ≡ some rule
  pub k : ℕ
  pub on_cadence : occurrence add_months rule k d.first_due_date ≡ t
  pub early : t ≤ horizon
  pub late : floor ≤ t

recurring_type : (c : ChoreType) → is_recurring c ≡ true → c ≡ recurring
recurring_type one_off h = cc
recurring_type recurring h = refl

module _ (add_months : ℕ → ℕ → ℕ)
    (advances : (n current : ℕ) → 1 ≤ n → current < add_months n current) (new_id : ℕ → ℕ)
    (now horizon floor i t : ℕ) where
  abbrev is_due : ChoreDefinition → Bool
  is_due d =
      (is_recurring d.chore_type && d.is_active)
      && (d.id == i
          && any (λ x. x == t) (dates_of new_id now add_months horizon floor d d.recurrence_rule))

  is_due_iff : (d : ChoreDefinition) → is_due d ≡ true ↔ IsScheduled add_months horizon floor i t d
  is_due_iff d = (there d.recurrence_rule refl, back)
    where
      there :
          (o : Option RecurrenceRule)
          → d.recurrence_rule ≡ o
          → is_due d ≡ true
          → IsScheduled add_months horizon floor i t d
      there none e h = absurd (let w = rw e at h in ground (arith, w))
      there (some rule) e h =
          let w = rw e at h in
          let hit : any (λ x. x == t)
                (compute_due_dates add_months d.first_due_date rule horizon (some floor))
              ≡ true =
            ground (arith, w) in
          let (k, on, early, late) =
            (compute_due_dates_iff add_months rule horizon (some floor)
                (step_advances add_months advances rule) d.first_due_date t).0
              hit in
          record {
            same = ==→eq d.id i (ground (arith, w));
            is_series = recurring_type d.chore_type (ground (arith, w));
            active = ground (arith, w);
            rule = rule;
            has_rule = e;
            k = k;
            on_cadence = on;
            early = early;
            late = ground (arith, late);
          }

      back : IsScheduled add_months horizon floor i t d → is_due d ≡ true
      back s =
          let floored : leb floor t ≡ true = ground (arith, s.late) in
          let hit =
            (compute_due_dates_iff add_months s.rule horizon (some floor)
                (step_advances add_months advances s.rule) d.first_due_date t).1
              (s.k, s.on_cadence, s.early, floored) in
          rw (s.is_series, s.active, s.same, ==_refl i, s.has_rule) hit

  -- The dates of the definitions that the query finds.
  pub is_scheduled_iff :
      (engine : Engine) (db : Database)
      → is_scheduled new_id now add_months horizon floor i t (recurring_definitions engine db)
          ≡ true
        ↔ Any (IsScheduled add_months horizon floor i t) db.definitions
  unfolding recurring_definitions
  is_scheduled_iff engine db =
      let e =
        any-perm _ (
          engine.scan-perm ChoreDefinition
            (filter (λ d. is_recurring d.chore_type && d.is_active) db.definitions))
        ∙ any-filter (λ d. is_recurring d.chore_type && d.is_active) _ db.definitions in
      let f = any_iff is_due (IsScheduled add_months horizon floor i t) is_due_iff db.definitions in
      (λ h. f.0 (sym e ∙ h), λ h. e ∙ f.1 h)

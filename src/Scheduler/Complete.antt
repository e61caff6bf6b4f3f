-- ===== src/Scheduler/Complete.antt =====
-- backend/app/tasks/scheduler.py: the pairs of a definition and a due date that have an instance
-- after `generate_chore_instances`.
use chore_app.Base.{
  count-key-le, ◌≤◌, ◌<◌, ◌⊎◌, ◌↔◌, Any, ℕ, ◌+◌, ◌-◌, ◌≡◌, refl, sym, ap, subst, ◌∙◌, Bool, true,
  false, inl, inr, ◌||◌, List, [], ◌∷◌, ◌++◌, map, arith, length, ◌==◌, any, Distinct, IsKeyed,
  Dict,
}
use chore_app.Models.{Household, ChoreInstance}
use chore_app.Session.{Session, Result, ok, err}
use chore_app.Session.Outcomes.{Result-cases}
use chore_app.Redistribution.Frame.{household_keys, bulk-household_keys}
use chore_app.Engine.{Engine}
use chore_app.Engine.Orders.{length-filter}
use chore_app.Assignment.{household_rows, member_ids, redistribute_chores_bulk}
use chore_app.Scheduler.{assign_groups, recurring_definitions, generate_chore_instances}
use chore_app.Scheduler.Pairs.{has_instance}
use chore_app.Scheduler.Idempotent.{run_pairs, has_instance-map, is_pair}
use chore_app.Scheduler.Exact.{has_instance-added}
use chore_app.Scheduler.Scheduled.{IsScheduled, is_scheduled_iff}

abbrev is_ok : {A : Type 0} → Result A → Bool
is_ok (ok a) = true
is_ok (err e) = false

or_true : (a b : Bool) → (a || b) ≡ true → (a ≡ true) ⊎ (b ≡ true)
or_true true b h = inl refl
or_true false b h = inr h

or_right : (a : Bool) → (a || true) ≡ true
or_right true = refl
or_right false = refl

module _ (engine : Engine) where
  -- No two households share an identifier, so that the query for one finds one at most.
  bulk_total :
      (cids : List ℕ) (hid : ℕ) (s : Session)
      → Distinct (household_keys s)
      → is_ok (redistribute_chores_bulk engine cids hid s).0 ≡ true
  unfolding redistribute_chores_bulk
  bulk_total [] hid s keyed = refl
  bulk_total (cid ∷ cids) hid s keyed =
      go (household_rows hid s.working) (member_ids engine hid s.working) refl refl
    where
      go :
          (rows : List Household) (ids : List ℕ)
          → household_rows hid s.working ≡ rows
          → member_ids engine hid s.working ≡ ids
          → is_ok (redistribute_chores_bulk engine (cid ∷ cids) hid s).0 ≡ true
      go [] ids e f = rw e refl
      go (h ∷ []) [] e f = rw (e, f) refl
      go (h ∷ []) (m ∷ ms) e f = rw (e, f) refl
      go (h ∷ k ∷ l) ids e f =
          let two = ap length (sym e) ∙ length-filter (λ x. x.id == hid) s.working.households in
          let one = count-key-le (λ x. x.id) hid s.working.households keyed in absurd (omega arith)

  assign_groups_total :
      (groups : Dict (List ChoreInstance)) (s : Session)
      → Distinct (household_keys s)
      → assign_groups engine groups s ≡ (ok tt, (assign_groups engine groups s).1)
  unfolding assign_groups
  assign_groups_total [] s keyed = refl
  assign_groups_total (g ∷ groups) s keyed =
      let cids = map (λ c. c.id) g.1 in
      elim (Result-cases (redistribute_chores_bulk engine cids g.0) s) [
        | inl (x, failed) ↦ cc (rw failed at (bulk_total cids g.0 s keyed))
        | inr (d, done) ↦
            let keys = (bulk-household_keys engine cids g.0).at s in
            rw done (assign_groups_total groups _ (subst Distinct (sym keys) keyed))
      ]

module _ (engine : Engine) (add_months : ℕ → ℕ → ℕ) (new_id : ℕ → ℕ)
    (days_ahead grace_days today now : ℕ) where
  pub generate_total :
      (s : Session)
      → Distinct (household_keys s)
      → let run =
          generate_chore_instances engine add_months new_id days_ahead grace_days today now in
        run s ≡ (ok tt, (run s).1)
  unfolding generate_chore_instances
  generate_total s keyed = assign_groups_total engine _ _ keyed

  -- Where adding a month or more to a date gives a later one, and no two households share an
  -- identifier, `generate_chore_instances` succeeds, and afterwards a definition has an instance
  -- due on a date exactly if it had one before, or it is an active recurring definition with a rule
  -- whose cadence from the first due date meets that date, not before the backfill floor and not
  -- after the horizon.
  pub generate_chore_instances_complete :
      (s : Session)
      → ((n current : ℕ) → 1 ≤ n → current < add_months n current)
      → IsKeyed (λ h. h.id) s.working.households
      → (after : Session) × (generate_chore_instances engine add_months new_id days_ahead grace_days
            today now s
          ≡ (ok tt, after))
        × ((i t : ℕ)
            → has_instance i t after.working.instances ≡ true ↔ (
                (has_instance i t s.working.instances ≡ true)
                ⊎ Any
                    (IsScheduled add_months (today + days_ahead) (today - grace_days) i t)
                    s.working.definitions))
  generate_chore_instances_complete s advances keyed =
      let run = generate_chore_instances engine add_months new_id days_ahead grace_days today now in
      let done = generate_total s keyed in
      let ds = recurring_definitions engine s.working in
      let pairs =
        ap (λ v. v.0)
          (run_pairs engine add_months days_ahead grace_days today new_id now s (run s).1 done) in
      (
        (run s).1,
        done,
        λ i t.
            let scheduled =
              is_scheduled_iff add_months advances new_id now (today + days_ahead)
                (today - grace_days) i t engine s.working in
            let e =
              has_instance-map i t (run s).1.working.instances
              ∙ ap (any (is_pair i t)) pairs
              ∙ sym (has_instance-map i t (s.working.instances ++ _))
              ∙ has_instance-added new_id now add_months (today + days_ahead) (today - grace_days)
                  ds s.working.instances i t in
            (
              λ h. elim (or_true _ _ (sym e ∙ h)) [
                | inl old ↦ inl old
                | inr new ↦ inr (scheduled.0 new)
              ],
              λ h. e ∙ (elim h [
                | inl old ↦ rw old refl
                | inr new ↦ rw (scheduled.1 new) (or_right _)
              ]),
            ),
      )

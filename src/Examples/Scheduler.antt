-- ===== src/Examples/Scheduler.antt =====
-- The theorems on the daily job of backend/app/tasks/scheduler.py at concrete inputs.
use chore_app.Base.{Any, ◌≤◌, ℕ, ◌+◌, ◌≡◌, refl, ◌↔◌, ◌⊎◌, true, some, [], ◌∷◌, arith, ◌==◌, any}
use chore_app.Session.{Session, ok}
use chore_app.Scheduler.{generate_chore_instances}
use chore_app.Scheduler.DueDates.{
  due_loop, compute_due_dates, occurrence, from_floor, compute_due_dates_iff,
  compute_due_dates_terminates,
}
use chore_app.Scheduler.Pairs.{has_instance}
use chore_app.Scheduler.Scheduled.{IsScheduled}
use chore_app.Scheduler.Complete.{generate_total, generate_chore_instances_complete}
use chore_app.Scheduler.Single.{instance_count, generate_chore_instances_once}
use chore_app.Scheduler.Idempotent.{generate_chore_instances_idem}
use chore_app.Examples.Sorting.{sorting}
use chore_app.Examples.Samples.{home, weekly}
use chore_app.Examples.Chores.{add_thirty, drawn}

-- The weekly hedge, due since day 10, between the days 13 and 34.
hedge_dates : compute_due_dates add_thirty 10 weekly 34 (some 13) ≡ 17 ∷ 24 ∷ 31 ∷ []
unfolding compute_due_dates due_loop
hedge_dates = refl

compute_due_dates_iff_example :
    any (λ x. x == 24) (compute_due_dates add_thirty 10 weekly 34 (some 13)) ≡ true ↔ (
      (k : ℕ) × (occurrence add_thirty weekly k 10 ≡ 24)
      × (24 ≤ 34)
      × (from_floor (some 13) 24 ≡ true))
compute_due_dates_iff_example =
    compute_due_dates_iff add_thirty weekly 34 (some 13) (λ current. omega arith) 10 24

abbrev now : Session
now = record { working = home; committed = home }

generate_chore_instances_complete_example :
    (after : Session) × (generate_chore_instances sorting add_thirty drawn 14 7 20 900 now
      ≡ (ok tt, after))
    × ((i t : ℕ)
        → has_instance i t after.working.instances ≡ true ↔ (
            (has_instance i t home.instances ≡ true)
            ⊎ Any (IsScheduled add_thirty 34 13 i t) home.definitions))
generate_chore_instances_complete_example =
    generate_chore_instances_complete sorting add_thirty drawn 14 7 20 900 now
      (λ n current h. omega arith) ((omega arith, tt), (tt, tt))

abbrev filled : Session
filled = (generate_chore_instances sorting add_thirty drawn 14 7 20 900 now).1

went_through : generate_chore_instances sorting add_thirty drawn 14 7 20 900 now ≡ (ok tt, filled)
went_through = generate_total sorting add_thirty drawn 14 7 20 900 now ((omega arith, tt), (tt, tt))

generate_chore_instances_idem_example :
    generate_chore_instances sorting add_thirty (λ k. 200 + k) 14 7 20 950 filled ≡ (ok tt, filled)
generate_chore_instances_idem_example =
    generate_chore_instances_idem sorting add_thirty drawn (λ k. 200 + k) 14 7 20 900 950 now filled
      went_through

compute_due_dates_terminates_example :
    due_loop add_thirty weekly 34 (some 13) 100 10
    ≡ compute_due_dates add_thirty 10 weekly 34 (some 13)
compute_due_dates_terminates_example =
    compute_due_dates_terminates add_thirty weekly 34 (some 13) (λ current. omega arith) 10 100
      (omega arith)

generate_chore_instances_once_example :
    (instance_count 8 24 filled.working.instances ≡ instance_count 8 24 home.instances)
    ⊎ ((instance_count 8 24 home.instances ≡ 0)
        × (instance_count 8 24 filled.working.instances ≡ 1))
generate_chore_instances_once_example =
    generate_chore_instances_once sorting add_thirty drawn 14 7 20 900 now filled went_through 8 24

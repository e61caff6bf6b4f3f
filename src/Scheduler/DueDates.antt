-- ===== src/Scheduler/DueDates.antt =====
-- `_compute_due_dates` of backend/app/tasks/scheduler.py. Dates are days since a fixed one;
-- `relativedelta(months=n)` is a parameter.
use chore_app.Base.{
  ℕ, zero, suc, ◌+◌, ◌-◌, ◌*◌, ◌≤◌, ◌<◌, ◌≡◌, inl, inr, Bool, true, false, refl, ◌↔◌, Option, none,
  some, List, [], ◌∷◌, arith, leb, ◌==◌, ==→eq, Bool-cases, if◌then◌else◌, any,
}
use chore_app.Models.{IntervalUnit, days, weeks, months, RecurrenceRule}

-- `floor is None or current >= floor`
abbrev pub from_floor : Option ℕ → ℕ → Bool
from_floor none current = true
from_floor (some floor) current = leb floor current

module _ (add_months : ℕ → ℕ → ℕ) where
  -- `current + delta`
  abbrev pub step : RecurrenceRule → ℕ → ℕ
  step rule current = elim rule.interval_unit [
    | days ↦ current + rule.interval_n
    | weeks ↦ current + 7 * rule.interval_n
    | months ↦ add_months rule.interval_n current
  ]

  -- The `while` loop, on fuel.
  unfoldable pub due_loop : RecurrenceRule → ℕ → Option ℕ → ℕ → ℕ → List ℕ
  due_loop rule horizon floor zero current = []
  due_loop rule horizon floor (suc fuel) current =
      let rest = due_loop rule horizon floor fuel (step rule current) in
      if leb current horizon
      then (if from_floor floor current then current ∷ rest else rest)
      else []

  -- `_compute_due_dates`. A rule has an interval of at least 1, so a step takes at least a day
  -- where `add_months` advances, and the days up to the horizon are enough fuel.
  unfoldable pub compute_due_dates : ℕ → RecurrenceRule → ℕ → Option ℕ → List ℕ
  compute_due_dates first_due_date rule horizon floor =
      due_loop rule horizon floor (suc horizon - first_due_date) first_due_date

  -- The cadence: the date `k` steps after a date.
  abbrev pub occurrence : RecurrenceRule → ℕ → ℕ → ℕ
  occurrence rule zero current = current
  occurrence rule (suc k) current = occurrence rule k (step rule current)

  -- A step takes at least a day, where adding a month or more does.
  pub step_advances :
      ((n current : ℕ) → 1 ≤ n → current < add_months n current)
      → (rule : RecurrenceRule) (current : ℕ) → current < step rule current
  step_advances later rule current =
      go rule.interval_unit rule.interval_n rule.interval_n_ge rule refl refl
    where
      go :
          (u : IntervalUnit) (n : ℕ)
          → 1 ≤ n
          → (r : RecurrenceRule) → r.interval_unit ≡ u
          → r.interval_n ≡ n
          → current < step r current
      go days n h r e f = rw (e, f) (omega arith)
      go weeks n h r e f = rw (e, f) (omega arith)
      go months n h r e f = rw (e, f) (later n current h)

  module _ (rule : RecurrenceRule) (horizon : ℕ) (floor : Option ℕ)
      (advances : (current : ℕ) → current < step rule current) where
    le-occurrence : (k current : ℕ) → current ≤ occurrence rule k current
    le-occurrence zero current = omega arith
    le-occurrence (suc k) current =
        omega (arith, advances current, le-occurrence k (step rule current))

    loop_sound :
        (fuel current d : ℕ)
        → any (λ x. x == d) (due_loop rule horizon floor fuel current) ≡ true
        → (k : ℕ) × (occurrence rule k current ≡ d) × (d ≤ horizon) × (from_floor floor d ≡ true)
    unfolding due_loop
    loop_sound zero current d h = cc
    loop_sound (suc fuel) current d h = elim (Bool-cases (leb current horizon)) [
      | inr late ↦ cc (rw late at h)
      | inl early ↦ elim (Bool-cases (from_floor floor current)) [
        | inr below ↦ later (loop_sound fuel (step rule current) d (rw (early, below) at h))
        | inl above ↦ elim (Bool-cases (current == d)) [
          | inl here ↦ let e = ==→eq current d here in (0, e, ground arith, rw (← e) above)
          | inr other ↦
              later (loop_sound fuel (step rule current) d (rw (early, above, other) at h))
        ]
      ]
    ]
      where
        later :
            ((k : ℕ) × (occurrence rule k (step rule current) ≡ d)
              × (d ≤ horizon)
              × (from_floor floor d ≡ true))
            → (k : ℕ) × (occurrence rule k current ≡ d)
              × (d ≤ horizon)
              × (from_floor floor d ≡ true)
        later (k, e, early, late) = (suc k, e, early, late)

    loop_complete :
        (fuel current k : ℕ)
        → horizon < current + fuel
        → occurrence rule k current ≤ horizon
        → from_floor floor (occurrence rule k current) ≡ true
        → any (λ x. x == occurrence rule k current) (due_loop rule horizon floor fuel current)
          ≡ true
    unfolding due_loop
    loop_complete zero current k enough early late = absurd (omega (arith, le-occurrence k current))
    loop_complete (suc fuel) current zero enough early late = rw late (ground arith)
    loop_complete (suc fuel) current (suc k) enough early late =
        let rest =
          loop_complete fuel (step rule current) k (omega (arith, enough, advances current)) early
            late in
        elim (Bool-cases (from_floor floor current)) [
          | inl above ↦ rw above (ground (arith, rest, reached))
          | inr below ↦ rw below (ground (arith, rest, reached))
        ]
      where
        reached : current ≤ horizon
        reached = omega (arith, early, advances current, le-occurrence k (step rule current))

    -- A date is returned exactly if it lies on the cadence that starts at the first due date, not
    -- after the horizon and not before the floor, if there is one. The condition is that a step
    -- advances: then the loop's fuel is enough, so no such date is missed.
    pub compute_due_dates_iff :
        (first d : ℕ)
        → any (λ x. x == d) (compute_due_dates first rule horizon floor) ≡ true
          ↔ ((k : ℕ) × (occurrence rule k first ≡ d) × (d ≤ horizon) × (from_floor floor d ≡ true))
    unfolding compute_due_dates
    compute_due_dates_iff first d = (
      loop_sound (suc horizon - first) first d,
      λ (k, e, early, late).
          rw (← e)
            (loop_complete (suc horizon - first) first k (omega arith) (rw e early) (rw e late)),
    )

    past_horizon :
        (fuel current : ℕ) → horizon < current → due_loop rule horizon floor fuel current ≡ []
    unfolding due_loop
    past_horizon zero current late = refl
    past_horizon (suc fuel) current late =
        let past : leb current horizon ≡ false = ground arith in rw past refl

    more_fuel :
        (more fuel current : ℕ)
        → horizon < current + fuel
        → fuel ≤ more
        → due_loop rule horizon floor more current ≡ due_loop rule horizon floor fuel current
    unfolding due_loop
    more_fuel more zero current enough h = past_horizon more current (omega (arith, enough))
    more_fuel zero (suc fuel) current enough h = absurd (omega (arith, h))
    more_fuel (suc more) (suc fuel) current enough h =
        rw
          (more_fuel more fuel (step rule current) (omega (arith, enough, advances current))
            (omega (arith, h)))
          refl

    -- The loop ends by its condition, never for lack of fuel: with more fuel than the days up to
    -- the horizon it returns the same dates. The condition is that a step advances.
    pub compute_due_dates_terminates :
        (first more : ℕ)
        → suc horizon - first ≤ more
        → due_loop rule horizon floor more first ≡ compute_due_dates first rule horizon floor
    unfolding compute_due_dates
    compute_due_dates_terminates first more h =
        more_fuel more (suc horizon - first) first (omega arith) h

-- ===== src/Leaderboard/Periods.antt =====
-- backend/app/api/leaderboard.py: the members, the periods and the sums that a leaderboard shows.
use mathlib.Core.List.{map-append}
use chore_app.Base.{
  ℕ, ◌+◌, ◌-◌, ◌*◌, ◌%◌, ◌≤◌, ◌<◌, ◌≡◌, refl, inl, inr, Bool, true, false, ◌&&◌, String, Option,
  none, some, List, [], ◌∷◌, map, arith, leb, ltb, ◌==◌, ==→eq, is_some_eq, if◌then◌else◌,
  Bool-cases, filter, filter_found, count,
}
use chore_app.Models.{User, HouseholdMembership, ChoreInstance, PointLedger, Database, is_complete}
use chore_app.Members.Listing.{names_of, HasUsers}
use chore_app.Leaderboard.{
  Scope, all_time, this_week, this_month, Window, compute_window, is_within, is_completed_within,
  sum_points, user_points, user_chores, members_of,
}

-- From an instant on, up to another that is left out; without one, all time.
abbrev pub Period : Type 0
Period = Option (ℕ × ℕ)

abbrev day : ℕ
day = 86400000000

-- The week is that of the date, from Monday (the ordinals of Mondays are 1 modulo 7) to Sunday.
pub IsPeriod : (ℕ → ℕ) → (ℕ → ℕ) → Scope → ℕ → Period → Type 0
IsPeriod first_day last_day all_time today p = p ≡ none
IsPeriod first_day last_day this_week today p =
    (monday : ℕ) × (monday % 7 ≡ 1)
    × (monday ≤ today)
    × (today < monday + 7)
    × (p ≡ some (monday * day, (monday + 7) * day))
IsPeriod first_day last_day this_month today p =
    p ≡ some (first_day today * day, (last_day today + 1) * day)

abbrev pub is_during : Period → ℕ → Bool
is_during none t = true
is_during (some p) t = leb p.0 t && ltb t p.1

-- A chore without a time of completion counts for all time only.
abbrev pub finished_during : Period → Option ℕ → Bool
finished_during none o = true
finished_during (some p) none = false
finished_during (some p) (some t) = is_during (some p) t

-- The points of the entries that pass a test.
abbrev pub total_points : (PointLedger → Bool) → List PointLedger → ℕ
total_points test [] = 0
total_points test (e ∷ l) = if test e then e.points + total_points test l else total_points test l

abbrev pub points_during : ℕ → Period → Database → ℕ → ℕ
points_during hid p db uid =
    total_points (λ e. e.household_id == hid && e.user_id == uid && is_during p e.awarded_at)
      db.ledger

abbrev pub chores_during : ℕ → Period → Database → ℕ → ℕ
chores_during hid p db uid =
    count
      (λ c.
        c.household_id == hid
        && is_complete c.status
        && is_some_eq c.assignee_id uid
        && finished_during p c.completed_at)
      db.instances

-- The window that the code compares with, and the period.
pub record IsWindowOf (w : Window) (p : Period) : Type 0 where
  pub within : (t : ℕ) → is_within w t ≡ is_during p t
  pub completed : (o : Option ℕ) → is_completed_within w o ≡ finished_during p o

pub compute_window-IsPeriod :
    (first_day last_day : ℕ → ℕ) (scope : Scope) (today : ℕ)
    → 1 ≤ today
    → (p : Period) × IsPeriod first_day last_day scope today p
      × IsWindowOf (compute_window first_day last_day scope today) p
unfolding compute_window IsPeriod
compute_window-IsPeriod first_day last_day all_time today h =
    (none, refl, record { within = λ t. refl; completed = whole })
  where
    whole :
        (o : Option ℕ)
        → is_completed_within (compute_window first_day last_day all_time today) o
          ≡ finished_during none o
    whole none = refl
    whole (some t) = refl
compute_window-IsPeriod first_day last_day this_week today h = (
  some (monday * day, (monday + 7) * day),
  (monday, omega arith, omega arith, omega arith, refl),
  record { within = λ t. refl; completed = of_week },
)
  where
    monday : ℕ
    monday = today - (today + 6) % 7

    of_week :
        (o : Option ℕ)
        → is_completed_within (compute_window first_day last_day this_week today) o
          ≡ finished_during (some (monday * day, (monday + 7) * day)) o
    of_week none = refl
    of_week (some t) = refl
compute_window-IsPeriod first_day last_day this_month today h = (
  some (first_day today * day, (last_day today + 1) * day),
  refl,
  record { within = λ t. refl; completed = of_month },
)
  where
    of_month :
        (o : Option ℕ)
        → is_completed_within (compute_window first_day last_day this_month today) o
          ≡ finished_during (some (first_day today * day, (last_day today + 1) * day)) o
    of_month none = refl
    of_month (some t) = refl

module _ (hid : ℕ) (w : Window) (p : Period) (same : IsWindowOf w p) (db : Database) (uid : ℕ) where
  pub user_points_lem : user_points hid w db uid ≡ points_during hid p db uid
  unfolding user_points
  user_points_lem = go db.ledger
    where
      go :
          (l : List PointLedger)
          → sum_points (
              filter (λ e. e.household_id == hid && is_within w e.awarded_at && e.user_id == uid) l)
            ≡ total_points
                (λ e. e.household_id == hid && e.user_id == uid && is_during p e.awarded_at)
                l
      go [] = refl
      go (e ∷ l) = ground (arith, same.within e.awarded_at, go l)

  pub user_chores_lem : user_chores hid w db uid ≡ chores_during hid p db uid
  unfolding user_chores
  user_chores_lem = go db.instances
    where
      go :
          (l : List ChoreInstance)
          → count
              (λ c.
                c.household_id == hid
                && is_complete c.status
                && is_completed_within w c.completed_at
                && is_some_eq c.assignee_id uid)
              l
            ≡ count
                (λ c.
                  c.household_id == hid
                  && is_complete c.status
                  && is_some_eq c.assignee_id uid
                  && finished_during p c.completed_at)
                l
      go [] = refl
      go (c ∷ l) = ground (arith, same.completed c.completed_at, go l)

-- A user, with the name.
abbrev pub named : User → ℕ × List String
named u = (u.id, u.display_name ∷ [])

abbrev pub named_member : Database → HouseholdMembership → ℕ × List String
named_member db m = (m.user_id, names_of db m.user_id)

the_user :
    (i : ℕ) (name : String) (us found : List User)
    → filter (λ u. u.id == i) us ≡ found
    → map (λ u. u.display_name) found ≡ name ∷ []
    → map named found ≡ (i, map (λ u. u.display_name) found) ∷ []
the_user i name us [] e h = cc
the_user i name us (u ∷ []) e h = rw (==→eq u.id i (filter_found (λ x. x.id == i) us e)) refl
the_user i name us (u ∷ v ∷ l) e h = cc

pub members_of_lem :
    (hid : ℕ) (db : Database) (ms : List HouseholdMembership)
    → HasUsers db ms
    → map named (members_of hid ms db)
      ≡ map (named_member db) (filter (λ m. m.household_id == hid && m.is_active) ms)
unfolding members_of
members_of_lem hid db [] h = refl
members_of_lem hid db (m ∷ ms) h = elim (Bool-cases (m.household_id == hid && m.is_active)) [
  | inl here ↦
      rw
        (
          here,
          map-append named (filter (λ u. u.id == m.user_id) db.users) (members_of hid ms db),
          the_user m.user_id h.0.0 db.users (filter (λ u. u.id == m.user_id) db.users) refl h.0.1,
          members_of_lem hid db ms h.1,
        )
        refl
  | inr away ↦ rw away (members_of_lem hid db ms h.1)
]

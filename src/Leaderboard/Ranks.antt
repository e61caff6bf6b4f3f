-- ===== src/Leaderboard/Ranks.antt =====
-- backend/app/api/leaderboard.py: the order and the ranks of the entries.
use mathlib.Core.List.{Perm}
use mathlib.Core.List.Perm
use chore_app.Base.{
  ℕ, ◌+◌, ◌≤◌, ◌≡◌, refl, ap, ◌∙◌, inl, inr, Option, none, some, List, [], ◌∷◌, map, arith, ◌==◌,
  ◌&&◌, String, filter, All, All-map,
}
use chore_app.Models.{User, Database}
use chore_app.Session.{Session}
use chore_app.Engine.{Engine, IsSortedBy}
use chore_app.Engine.Sorting.{sort_by, sort_by-perm, down, down_sorted}
use chore_app.Deps.Outcomes.{Checks, require_household_member-Checks}
use chore_app.Members.Listing.{HasUsers}
use chore_app.Leaderboard.Periods.{
  Period, IsPeriod, IsWindowOf, compute_window-IsPeriod, points_during, chores_during,
  user_points_lem, user_chores_lem, named, named_member, members_of_lem,
}
use chore_app.Leaderboard.{
  Scope, Window, compute_window, user_points, user_chores, members_of, LeaderboardEntry, next_rank,
  rank_members, rank_of, get_leaderboard,
}

-- An entry and a later one: the ranks go the other way than the points, and agree where they do.
abbrev pub IsRankedBefore : LeaderboardEntry → LeaderboardEntry → Type 0
IsRankedBefore e f =
    (f.points ≤ e.points) × (e.rank ≤ f.rank) × ((e.rank == f.rank) ≡ (e.points == f.points))

-- The ranks start with `r` or less than one above it, and no rank is skipped.
abbrev pub HasNoGap : ℕ → List LeaderboardEntry → Type 0
HasNoGap r [] = Unit
HasNoGap r (e ∷ l) = (r ≤ e.rank) × (e.rank ≤ r + 1) × HasNoGap e.rank l

-- The user of an entry, with the name.
abbrev pub listed : LeaderboardEntry → ℕ × List String
listed e = (e.user_id, e.display_name ∷ [])

module _ (points chores : ℕ → ℕ) where
  -- What holds of the entries of members who come after one with `p` points and rank `r`.
  after_one :
      (p r : ℕ) (ms : List User)
      → All (λ m. points m.id ≤ p) ms
      → IsSortedBy (λ x y. points y.id ≤ points x.id) ms
      → All
          (λ e. (e.points ≤ p) × (r ≤ e.rank) × ((r == e.rank) ≡ (p == e.points)))
          (rank_members points chores (some p) r ms)
  unfolding rank_members
  after_one p r [] h sorted = tt
  after_one p r (m ∷ ms) h sorted =
      let q = points m.id in
      let s = next_rank (some p) r q in
      let le : q ≤ p = h.0 in
      (
        (le, ground arith, ground arith),
        All-map
            (λ e (below, later, same). (
              omega (arith, below, le),
              ground (arith, later),
              ground (arith, below, later, same, le),
            ))
            (rank_members points chores (some q) s ms) (after_one q s ms sorted.0 sorted.1),
      )

  ranked :
      (before : Option ℕ) (r : ℕ) (ms : List User)
      → IsSortedBy (λ x y. points y.id ≤ points x.id) ms
      → IsSortedBy IsRankedBefore (rank_members points chores before r ms)
  unfolding rank_members
  ranked before r [] sorted = tt
  ranked before r (m ∷ ms) sorted =
      let s = next_rank before r (points m.id) in
      (after_one (points m.id) s ms sorted.0 sorted.1, ranked (some (points m.id)) s ms sorted.1)

  no_gap : (p r : ℕ) (ms : List User) → HasNoGap r (rank_members points chores (some p) r ms)
  unfolding rank_members
  no_gap p r [] = tt
  no_gap p r (m ∷ ms) =
      (ground arith, ground arith, no_gap (points m.id) (next_rank (some p) r (points m.id)) ms)

  users_of_entries :
      (before : Option ℕ) (r : ℕ) (ms : List User)
      → map listed (rank_members points chores before r ms) ≡ map named ms
  unfolding rank_members
  users_of_entries before r [] = refl
  users_of_entries before r (m ∷ ms) =
      ap (◌∷◌ (named m))
        (users_of_entries (some (points m.id)) (next_rank before r (points m.id)) ms)

  points_of_entries :
      (before : Option ℕ) (r : ℕ) (ms : List User)
      → All
          (λ e. (e.points ≡ points e.user_id) × (e.chores_completed ≡ chores e.user_id))
          (rank_members points chores before r ms)
  unfolding rank_members
  points_of_entries before r [] = tt
  points_of_entries before r (m ∷ ms) =
      ((refl, refl), points_of_entries (some (points m.id)) (next_rank before r (points m.id)) ms)

-- The first rank is 1 and none is skipped.
abbrev pub IsDense : List LeaderboardEntry → Type 0
IsDense [] = Unit
IsDense (e ∷ l) = (e.rank ≡ 1) × HasNoGap 1 l

-- What a leaderboard shows.
pub record IsLeaderboard (db : Database) (hid : ℕ) (p : Period) (l : List LeaderboardEntry)
    : Type 0 where
  pub ranked : IsSortedBy IsRankedBefore l
  pub dense : IsDense l
  pub everyone :
      Perm
        (map listed l)
        (map (named_member db) (filter (λ m. m.household_id == hid && m.is_active) db.memberships))
  pub counted :
      All
        (λ e.
          (e.points ≡ points_during hid p db e.user_id)
          × (e.chores_completed ≡ chores_during hid p db e.user_id))
        l

dense : (points chores : ℕ → ℕ) (ms : List User) → IsDense (rank_members points chores none 1 ms)
unfolding rank_members
dense points chores [] = tt
dense points chores (m ∷ ms) = (refl, no_gap points chores (points m.id) 1 ms)

-- Where each membership is that of one user, a request for the leaderboard changes nothing, and it
-- is refused or lists the user and the name of each active membership of the household, once each
-- and of no other, with the sum of the points and the number of the completed chores of the user in
-- the household during the period: all time, the seven days from the Monday of the date's week, or
-- the days of its month. Of two entries the later has no more points; they have the same rank
-- exactly if they have the same points, else the later has the greater rank. The ranks start with 1
-- and none is skipped. Dates are ordinals, from 1 on.
pub get_leaderboard_outcome :
    (engine : Engine) (first_day last_day : ℕ → ℕ) (hid : ℕ) (scope : Scope) (uid today : ℕ)
    (s : Session)
    → 1 ≤ today
    → HasUsers s.working s.working.memberships
    → Checks (get_leaderboard engine first_day last_day hid scope uid today) s (λ r.
      (p : Period) × IsPeriod first_day last_day scope today p
      × IsLeaderboard s.working hid p r.entries)
unfolding get_leaderboard
get_leaderboard_outcome engine first_day last_day hid scope uid today s dated users =
    elim (require_household_member-Checks hid uid s) [
      | inl (x, refused) ↦ inl (x, rw refused refl)
      | inr (m, granted, _) ↦ inr (
        record {
          scope = scope;
          week_start = w.week_start;
          week_end = w.week_end;
          month_start = w.month_start;
          month_end = w.month_end;
          entries = entries;
          requesting_user_rank = rank_of uid entries;
        },
        rw granted refl,
        (period.0, period.1, shown),
      )
    ]
  where
    w : Window
    w = compute_window first_day last_day scope today

    period :
        (p : Period) × IsPeriod first_day last_day scope today p
        × IsWindowOf (compute_window first_day last_day scope today) p
    period = compute_window-IsPeriod first_day last_day scope today dated

    points : ℕ → ℕ
    points = user_points hid w s.working

    chores : ℕ → ℕ
    chores = user_chores hid w s.working

    members : List User
    members = engine.scan User (members_of hid s.working.memberships s.working)

    sorted : List User
    sorted = sort_by (down User (λ u. points u.id)) members

    entries : List LeaderboardEntry
    entries = rank_members points chores none 1 sorted

    everyone : Perm (map named sorted) (map named (members_of hid s.working.memberships s.working))
    everyone = Perm.map named (
        Perm.trans (sort_by-perm (down User (λ u. points u.id)) members)
          (engine.scan-perm User (members_of hid s.working.memberships s.working)))

    shown : IsLeaderboard s.working hid period.0 entries
    shown = record {
      ranked = ranked points chores none 1 sorted (down_sorted User (λ u. points u.id) members);
      dense = dense points chores sorted;
      everyone =
          rw
            (
              users_of_entries points chores none 1 sorted,
              ← members_of_lem hid s.working s.working.memberships users,
            )
            everyone;
      counted =
          All-map
            (λ e (p, c). (
              p ∙ user_points_lem hid w period.0 period.2 s.working e.user_id,
              c ∙ user_chores_lem hid w period.0 period.2 s.working e.user_id,
            ))
            entries (points_of_entries points chores none 1 sorted);
    }

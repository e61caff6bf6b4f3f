-- ===== src/Assignment/Bulk.antt =====
-- `redistribute_chores_bulk` of backend/app/services/assignment.py: the load of each member.
use chore_app.Base.{
  ℕ, ◌+◌, ◌/◌, ◌≤◌, ◌≡◌, refl, ap, ◌∙◌, ◌≢◌, Option, none, List, [], ◌∷◌, map, arith, ◌==◌,
  is_some_eq, length, count, All, Distinct, Dict, lookup,
}
use chore_app.Models.{Household}
use chore_app.Session.{Session, ok}
use chore_app.Engine.{Engine}
use chore_app.Assignment.{household_rows, member_ids, redistribute_chores_bulk}
use chore_app.Assignment.Picks.{picks, load, load_balanced}
use chore_app.Assignment.Rotation.{assigned, cycle_lem, pointed, bulk_lem}

all_fresh : (cids : List ℕ) → All (λ c. lookup {A = Option ℕ} c [] ≡ none) cids
all_fresh [] = tt
all_fresh (c ∷ cids) = (refl, all_fresh cids)

-- The number of entries of a dict whose value is a given member.
abbrev pub load_of : ℕ → Dict (Option ℕ) → ℕ
load_of u = count (λ e. is_some_eq e.1 u)

load-assigned :
    (u : ℕ) (ids : List ℕ) (p : ℕ) (cids : List ℕ)
    → load_of u (assigned ids p cids) ≡ load u (picks ids p (length cids))
unfolding picks
load-assigned u ids p [] = refl
load-assigned u ids p (cid ∷ cids) = ground (arith, load-assigned u ids (p + 1) cids)

keys-assigned : (ids : List ℕ) (p : ℕ) (cids : List ℕ) → map (λ e. e.0) (assigned ids p cids) ≡ cids
keys-assigned ids p [] = refl
keys-assigned ids p (cid ∷ cids) = ap (◌∷◌ cid) (keys-assigned ids (p + 1) cids)

module _ (engine : Engine) (hid : ℕ) where
  -- The result of the bulk reassignment of distinct chores in a household with members.
  pub bulk_assigns :
      (cid : ℕ) (cids : List ℕ) (s : Session) (h : Household) (m : ℕ) (ms : List ℕ)
      → household_rows hid s.working ≡ h ∷ []
      → member_ids engine hid s.working ≡ m ∷ ms
      → Distinct (cid ∷ cids)
      → redistribute_chores_bulk engine (cid ∷ cids) hid s ≡ (
        ok (assigned (m ∷ ms) h.rotation_pointer (cid ∷ cids)),
        pointed hid (h.rotation_pointer + length (cid ∷ cids)) s,
      )
  bulk_assigns cid cids s h m ms e f d =
      bulk_lem engine hid cid cids s h m ms e f
      ∙ rw (cycle_lem (m ∷ ms) [] h.rotation_pointer (cid ∷ cids) d (all_fresh (cid ∷ cids)))

-- In a household that exists and where a user `u` has exactly one active membership, reassigning
-- `n` distinct chores, one at least, answers with one entry for each of them, in order, and
-- advances the pointer by `n`; and `u` gets `n / k` of them, or one more, where `k` is the number
-- of active memberships.
pub bulk_balanced :
    (engine : Engine) (hid u : ℕ) (cids : List ℕ) (s : Session) (h : Household)
    → household_rows hid s.working ≡ h ∷ []
    → count (λ m. m == u) (member_ids engine hid s.working) ≡ 1
    → Distinct cids
    → cids ≢ []
    → let k = length (member_ids engine hid s.working) in
      (a : Dict (Option ℕ)) × (redistribute_chores_bulk engine cids hid s
        ≡ (ok a, pointed hid (h.rotation_pointer + length cids) s))
      × (map (λ e. e.0) a ≡ cids)
      × (length cids / k ≤ load_of u a)
      × (load_of u a ≤ length cids / k + 1)
bulk_balanced engine hid u [] s h e once d ne = absurd (ne refl)
bulk_balanced engine hid u (cid ∷ cids) s h e once d ne =
    go (member_ids engine hid s.working) refl once
  where
    go :
        (ids : List ℕ)
        → member_ids engine hid s.working ≡ ids
        → count (λ m. m == u) ids ≡ 1
        → (a : Dict (Option ℕ)) × (redistribute_chores_bulk engine (cid ∷ cids) hid s
            ≡ (ok a, pointed hid (h.rotation_pointer + length (cid ∷ cids)) s))
          × (map (λ e. e.0) a ≡ cid ∷ cids)
          × (length (cid ∷ cids) / length ids ≤ load_of u a)
          × (load_of u a ≤ length (cid ∷ cids) / length ids + 1)
    go [] f once = absurd (omega arith)
    go (m ∷ ms) f once =
        let bounds = load_balanced u (m ∷ ms) h.rotation_pointer (length (cid ∷ cids)) once in
        let same = load-assigned u (m ∷ ms) h.rotation_pointer (cid ∷ cids) in
        (
          assigned (m ∷ ms) h.rotation_pointer (cid ∷ cids),
          bulk_assigns engine hid cid cids s h m ms e f d,
          keys-assigned (m ∷ ms) h.rotation_pointer (cid ∷ cids),
          rw same bounds.0,
          rw same bounds.1,
        )

-- ===== src/Redistribution/Frame.antt =====
-- What the redistribution of backend/app/services/redistribution.py leaves alone: it writes chore
-- instances and the pointers of households, and commits nothing.
use chore_app.Base.{
  ℕ, ◌≡◌, ◌+◌, ◌%◌, ltb, ◌==◌, map, map-key-update_where, refl, Option, none, some, List, [], ◌∷◌,
  arith,
}
use chore_app.Models.{Household, HouseholdMembership, Database}
use chore_app.Session.{Session}
use chore_app.Session.Preserves.{Preserves, preserves_rules, Preserves-if, Preserves-bind}
use chore_app.Engine.{Engine}
use chore_app.Assignment.{household_rows, member_ids, set_pointer, redistribute_chores_bulk}
use chore_app.Redistribution.{
  back, move_chores, adjust_pointer, redistribute_chores_for_removed_member,
}

-- The memberships, and what is committed.
abbrev pub members_view : Session → List HouseholdMembership × Database
members_view s = (s.working.memberships, s.committed)

module _ (engine : Engine) (hid : ℕ) where
  pub bulk_keeps_members :
      (cids : List ℕ) → Preserves members_view (redistribute_chores_bulk engine cids hid)
  unfolding redistribute_chores_bulk
  bulk_keeps_members [] = record { at = λ s. refl }
  bulk_keeps_members (cid ∷ cids) = record { at = λ s. ground arith }

  move_chores_keeps_members :
      (cids : List ℕ) (remaining : ℕ)
      → Preserves members_view (move_chores engine hid cids remaining)
  unfolding move_chores
  move_chores_keeps_members [] remaining = record { at = λ s. refl }
  move_chores_keeps_members (cid ∷ cids) remaining = record {
    at = λ s. ground (arith, (bulk_keeps_members (cid ∷ cids)).at s);
  }

  adjust_pointer_keeps_members :
      (h : Option Household) (index : Option ℕ) (remaining : ℕ)
      → Preserves members_view (adjust_pointer engine hid h index remaining)
  unfolding adjust_pointer
  adjust_pointer_keeps_members none index remaining = record { at = λ s. refl }
  adjust_pointer_keeps_members (some h) none remaining = record { at = λ s. refl }
  adjust_pointer_keeps_members (some h) (some index) remaining = record { at = λ s. ground arith }

  -- The redistribution touches no membership and commits nothing, whether it returns or raises.
  pub redistribute_keeps_members :
      (removed : ℕ)
      → Preserves members_view (redistribute_chores_for_removed_member engine removed hid)
  unfolding redistribute_chores_for_removed_member
  redistribute_keeps_members removed =
      search (preserves_rules, move_chores_keeps_members, adjust_pointer_keeps_members) depth 12

-- The keys of the households.
abbrev pub household_keys : Session → List ℕ
household_keys s = map (λ h. h.id) s.working.households

module _ (engine : Engine) where
  pub bulk-household_keys :
      (cids : List ℕ) (hid : ℕ)
      → Preserves household_keys (redistribute_chores_bulk engine cids hid)
  unfolding redistribute_chores_bulk
  bulk-household_keys [] hid = record { at = λ s. refl }
  bulk-household_keys (cid ∷ cids) hid = record {
    at = λ s. go s (household_rows hid s.working) (member_ids engine hid s.working) refl refl;
  }
    where
      go :
          (s : Session) (rows : List Household) (ids : List ℕ)
          → household_rows hid s.working ≡ rows
          → member_ids engine hid s.working ≡ ids
          → household_keys (redistribute_chores_bulk engine (cid ∷ cids) hid s).1 ≡ household_keys s
      go s [] ids e f = rw e refl
      go s (h ∷ []) [] e f = rw (e, f) refl
      go s (h ∷ []) (m ∷ ms) e f =
          rw (e, f)
            (map-key-update_where (λ x. x.id) (λ x. x.id == hid) (set_pointer _)
              s.working.households (λ x. refl))
      go s (h ∷ k ∷ l) ids e f = rw e refl

  move_chores-household_keys :
      (hid : ℕ) (cids : List ℕ) (remaining : ℕ)
      → Preserves household_keys (move_chores engine hid cids remaining)
  unfolding move_chores
  move_chores-household_keys hid [] remaining = record { at = λ s. refl }
  move_chores-household_keys hid (cid ∷ cids) remaining =
      Preserves-if (remaining == 0) _ _ (record { at = λ s. refl })
        (Preserves-bind (redistribute_chores_bulk engine (cid ∷ cids) hid) _
          (bulk-household_keys (cid ∷ cids) hid) (λ d. record { at = λ s. refl }))

  adjust_pointer-household_keys :
      (hid : ℕ) (h : Option Household) (index : Option ℕ) (remaining : ℕ)
      → Preserves household_keys (adjust_pointer engine hid h index remaining)
  unfolding adjust_pointer
  adjust_pointer-household_keys hid none index remaining = record { at = λ s. refl }
  adjust_pointer-household_keys hid (some h) none remaining = record { at = λ s. refl }
  adjust_pointer-household_keys hid (some h) (some index) remaining =
      Preserves-if (ltb index (h.rotation_pointer % (remaining + 1))) _ _
        (record {
          at = λ s.
              map-key-update_where (λ x. x.id) (λ x. x.id == hid) back s.working.households
                (λ x. refl);
        })
        (record { at = λ s. refl })

  -- The redistribution keeps the keys of the households.
  pub redistribute-household_keys :
      (hid removed : ℕ)
      → Preserves household_keys (redistribute_chores_for_removed_member engine removed hid)
  unfolding redistribute_chores_for_removed_member
  redistribute-household_keys hid removed =
      search (preserves_rules, move_chores-household_keys, adjust_pointer-household_keys) depth 12

-- ===== src/Chores/Once.antt =====
-- backend/app/api/chores.py: a second request to close an instance.
use chore_app.Base.{
  ℕ, ◌≡◌, refl, sym, ap, ◌∙◌, inl, inr, ◌&&◌, [], ◌∷◌, ◌==◌, ==_refl, filter-updated,
}
use chore_app.Models.{HouseholdMembership, ChoreDefinition, ChoreInstance, Database}
use chore_app.Session.{ok, err, conflict, get_db}
use chore_app.Deps.{require_household_member}
use chore_app.Chores.Responses.{ChoreInstanceResponse, instance_rows}
use chore_app.Chores.Transitions.{
  load_instance_for_terminal_transition, completed, complete_chore_instance, dismiss_chore_instance,
}
use chore_app.Session.Outcomes.{begin}
use chore_app.Chores.Closings.{after_completion, Closes, complete_outcome}
use chore_app.Chores.Accounting.{found_id}

module _ (hid iid uid : ℕ) (entry now : ℕ) (db : Database) (m : HouseholdMembership)
    (c : ChoreInstance) (d : ChoreDefinition) (closes : Closes hid iid uid db m c d) where
  abbrev after : Database
  after = after_completion hid iid entry now c d db

  completed_row : instance_rows hid iid after ≡ completed d now c ∷ []
  completed_row =
      filter-updated (λ r. r.id == iid && r.household_id == hid) (λ r. r.id == iid)
        (completed d now) db.instances (λ r. refl)
      ∙ rw (closes.found, found_id hid iid db closes.found, ==_refl iid) refl

  granted : require_household_member hid uid (begin after) ≡ (ok m, begin after)
  unfolding require_household_member
  granted = rw (closes.is_member) refl

  refused :
      load_instance_for_terminal_transition hid iid uid m (begin after)
      ≡ (err conflict, begin after)
  unfolding load_instance_for_terminal_transition
  refused = rw (completed_row, closes.allowed) refl

  complete-again :
      (entry' now' : ℕ)
      → get_db (complete_chore_instance hid iid uid entry' now') after ≡ (err conflict, after)
  unfolding get_db complete_chore_instance
  complete-again entry' now' = rw (granted, refused) refl

  dismiss-again :
      (now' : ℕ) → get_db (dismiss_chore_instance hid iid uid now') after ≡ (err conflict, after)
  unfolding get_db dismiss_chore_instance
  dismiss-again now' = rw (granted, refused) refl

-- After a completion that succeeded, the same caller's next completion or dismissal of the instance
-- is refused with a conflict and changes nothing: no second ledger entry, no lost points.
pub complete-conflict :
    (hid iid uid entry now entry' now' : ℕ) (db db' : Database) (a : ChoreInstanceResponse)
    → get_db (complete_chore_instance hid iid uid entry now) db ≡ (ok a, db')
    → (get_db (complete_chore_instance hid iid uid entry' now') db' ≡ (err conflict, db'))
      × (get_db (dismiss_chore_instance hid iid uid now') db' ≡ (err conflict, db'))
complete-conflict hid iid uid entry now entry' now' db db' a h =
    elim (complete_outcome hid iid uid entry now db) [
      | inl (x, e) ↦ cc
      | inr (b, after, e, (m, c, d, closes, result)) ↦
          let same : db' ≡ after_completion hid iid entry now c d db =
            ap (λ r. r.1) (sym h ∙ e) ∙ result in
          rw same (
            complete-again hid iid uid entry now db m c d closes entry' now',
            dismiss-again hid iid uid entry now db m c d closes now',
          )
    ]

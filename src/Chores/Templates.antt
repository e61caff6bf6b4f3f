-- ===== src/Chores/Templates.antt =====
-- backend/app/api/chores.py: the templates after one of them is hidden.
use mathlib.Core.List.{Perm}
use mathlib.Core.List.Perm
use chore_app.Base.{
  ℕ, ◌≡◌, refl, inl, inr, true, ◌&&◌, not, List, [], ◌∷◌, map, arith, filter, ◌==◌, Bool-cases,
  update_where, filter_found,
}
use chore_app.Models.{ChoreDefinition, Database}
use chore_app.Session.{get_db}
use chore_app.Session.Outcomes.{Serves, begin}
use chore_app.Engine.{Engine}
use chore_app.Deps.Outcomes.{Checks, require_admin-Checks}
use chore_app.Chores.Definitions.{hide_chore_template, with_definition, definitions_of}
use chore_app.Chores.Series.{load_definition-Checks}
use chore_app.Chores.Listing.{is_template, template_response, list_chore_templates}

abbrev hidden : ChoreDefinition → ChoreDefinition
hidden d = record d { hidden_from_suggestions = true }

-- The identifiers of the templates that are left.
shown :
    (hid did : ℕ) (l : List ChoreDefinition)
    → map (λ d. d.id) (filter (is_template hid) (update_where (λ d. d.id == did) hidden l))
      ≡ map (λ d. d.id) (filter (λ d. is_template hid d && not (d.id == did)) l)
shown hid did [] = refl
shown hid did (d ∷ l) = elim (Bool-cases (d.id == did)) [
  | inl here ↦ rw here (ground (arith, shown hid did l))
  | inr other ↦ rw other (ground (arith, shown hid did l))
]

ids_of_templates :
    (l : List ChoreDefinition) → map (λ t. t.id) (map template_response l) ≡ map (λ d. d.id) l
ids_of_templates [] = refl
ids_of_templates (d ∷ l) = rw (ids_of_templates l) refl

module _ (engine : Engine) (hid did : ℕ) (db : Database) (d : ChoreDefinition)
    (found : definitions_of hid did true db ≡ d ∷ []) where
  same_id : d.id ≡ did
  same_id =
      named (
        filter_found (λ r. r.id == did && r.household_id == hid && r.is_active) db.definitions
          found)
    where
      named : (d.id == did && d.household_id == hid && d.is_active) ≡ true → d.id ≡ did
      named e = ground arith

  abbrev after : Database
  after = with_definition d.id hidden db

  listing :
      (admin_id : ℕ)
      → Checks (list_chore_templates engine hid admin_id) (begin after) (λ ts.
        Perm
          (map (λ t. t.id) ts)
          (map (λ r. r.id) (filter (λ r. is_template hid r && not (r.id == did)) db.definitions)))
  unfolding list_chore_templates
  listing admin_id = elim (require_admin-Checks hid admin_id (begin after)) [
    | inl (x, refused) ↦ inl (x, rw refused refl)
    | inr (m, granted, _) ↦ inr (
      map template_response rows,
      rw granted refl,
      rw (ids_of_templates rows, ← shown hid did db.definitions, ← same_id)
          (Perm.map (λ r. r.id)
            (engine.descending-perm ChoreDefinition (λ r. r.created_at)
              (filter (is_template hid) after.definitions))),
    )
  ]
    where
      rows : List ChoreDefinition
      rows =
          engine.descending ChoreDefinition (λ r. r.created_at)
            (filter (is_template hid) after.definitions)

-- A request to hide a template fails and changes nothing, or afterwards every request for the
-- templates of the household is refused or lists, each once, those that there were but for the
-- hidden one.
pub hide-list_chore_templates :
    (engine : Engine) (hid did uid : ℕ) (db : Database)
    → Serves (hide_chore_template hid did uid) db (λ after.
      (admin_id : ℕ)
      → Checks (list_chore_templates engine hid admin_id) (begin after) (λ ts.
        Perm
          (map (λ t. t.id) ts)
          (map (λ d. d.id) (filter (λ d. is_template hid d && not (d.id == did)) db.definitions))))
unfolding get_db hide_chore_template
hide-list_chore_templates engine hid did uid db = elim (require_admin-Checks hid uid (begin db)) [
  | inl (x, refused) ↦ inl (x, rw refused)
  | inr (m, granted, _) ↦ elim (load_definition-Checks hid did true (begin db)) [
    | inl (x, missing) ↦ inl (x, rw (granted, missing))
    | inr (d, loaded, found) ↦ inr (
      tt,
      with_definition d.id hidden db,
      rw (granted, loaded),
      listing engine hid did db d found,
    )
  ]
]

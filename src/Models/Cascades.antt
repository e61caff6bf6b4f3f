-- ===== src/Models/Cascades.antt =====
-- What the ON DELETE rules of backend/app/models/*.py do where a household or a user is deleted:
-- rows that refer to it go (CASCADE), or the column is cleared (SET NULL); the rows that go take
-- theirs along.
use chore_app.Base.{ℕ, Bool, ◌&&◌, not, Option, none, some, map, ◌==◌, if◌then◌else◌, filter, any}
use chore_app.Models.Rows.{
  ChoreDefinition, ChoreInstance, PointLedger, InviteToken, GroceryItem, Database,
}

-- SET NULL of a reference to a row that goes.
abbrev pub clear_if : (ℕ → Bool) → Option ℕ → Option ℕ
clear_if gone none = none
clear_if gone (some i) = if gone i then none else some i

abbrev pub forget_definitions : (ℕ → Bool) → ChoreInstance → ChoreInstance
forget_definitions gone c = record c { definition_id = clear_if gone c.definition_id }

abbrev pub forget_instances : (ℕ → Bool) → PointLedger → PointLedger
forget_instances gone e = record e { chore_instance_id = clear_if gone e.chore_instance_id }

-- The definitions and the instances that go with their households.
abbrev pub is_doomed_definition : (ℕ → Bool) → Database → ℕ → Bool
is_doomed_definition doomed db i = any (λ d. d.id == i && doomed d.household_id) db.definitions

abbrev pub is_doomed_instance : (ℕ → Bool) → Database → ℕ → Bool
is_doomed_instance doomed db i = any (λ c. c.id == i && doomed c.household_id) db.instances

-- `DELETE FROM households` for the identifiers that `doomed` has.
unfoldable pub delete_households : (ℕ → Bool) → Database → Database
delete_households doomed db = record db {
  households = filter (λ h. not (doomed h.id)) db.households;
  memberships = filter (λ m. not (doomed m.household_id)) db.memberships;
  definitions = filter (λ d. not (doomed d.household_id)) db.definitions;
  instances =
      map (forget_definitions (is_doomed_definition doomed db))
        (filter (λ c. not (doomed c.household_id)) db.instances);
  ledger =
      map (forget_instances (is_doomed_instance doomed db))
        (filter (λ e. not (doomed e.household_id)) db.ledger);
  invites = filter (λ i. not (doomed i.household_id)) db.invites;
  groceries = filter (λ g. not (doomed g.household_id)) db.groceries;
}

abbrev pub forget_creator : ℕ → ChoreDefinition → ChoreDefinition
forget_creator user_id d = record d { created_by_id = clear_if (λ i. i == user_id) d.created_by_id }

abbrev pub forget_assignee : ℕ → ChoreInstance → ChoreInstance
forget_assignee user_id c = record c { assignee_id = clear_if (λ i. i == user_id) c.assignee_id }

abbrev pub forget_inviter : ℕ → InviteToken → InviteToken
forget_inviter user_id i = record i { created_by_id = clear_if (λ j. j == user_id) i.created_by_id }

abbrev pub forget_shopper : ℕ → GroceryItem → GroceryItem
forget_shopper user_id g = record g {
  added_by_id = clear_if (λ i. i == user_id) g.added_by_id;
  purchased_by_id = clear_if (λ i. i == user_id) g.purchased_by_id;
}

-- `DELETE FROM users WHERE id = user_id`
unfoldable pub delete_user : ℕ → Database → Database
delete_user user_id db = record db {
  users = filter (λ u. not (u.id == user_id)) db.users;
  memberships = filter (λ m. not (m.user_id == user_id)) db.memberships;
  definitions = map (forget_creator user_id) db.definitions;
  instances = map (forget_assignee user_id) db.instances;
  ledger = filter (λ e. not (e.user_id == user_id)) db.ledger;
  invites = map (forget_inviter user_id) db.invites;
  refresh_tokens = filter (λ t. not (t.user_id == user_id)) db.refresh_tokens;
  groceries = map (forget_shopper user_id) db.groceries;
}

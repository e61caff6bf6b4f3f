-- ===== src/Households/References.antt =====
-- The foreign keys of backend/app/models/*.py when a household or a user is deleted.
use chore_app.Base.{
  ℕ, ◌≡◌, refl, ◌∙◌, Bool, true, false, not, Option, none, some, ◌==◌, filter, All-filter,
  All-changed, any-changed,
}
use chore_app.Models.{
  Database, clear_if, delete_households, delete_user, forget_assignee, forget_creator,
  forget_definitions, forget_instances, forget_inviter, forget_shopper, is_doomed_definition,
  is_doomed_instance,
}
use chore_app.Households.Keys.{
  has_user, has_household, has_definition, has_row, Refers, InstanceRefers, EntryRefers,
  IsReferential, Refers-cleared, key_stays, row_stays, alive,
}

-- Deleting households, with all that the ON DELETE rules take along or clear, leaves every foreign
-- key of every table with a row to refer to, if that was so before.
pub delete_households-IsReferential :
    (doomed : ℕ → Bool) (db : Database)
    → IsReferential db
    → IsReferential (delete_households doomed db)
unfolding delete_households
delete_households-IsReferential doomed db h = record {
  memberships =
      All-filter (λ m. not (doomed m.household_id))
        (λ m (a, b) k. (house m.household_id (alive _ k) a, b)) db.memberships h.memberships;
  definitions =
      All-filter (λ d. not (doomed d.household_id))
        (λ d (a, b) k. (house d.household_id (alive _ k) a, b)) db.definitions h.definitions;
  instances =
      All-changed (InstanceRefers (has_household next) (has_definition db) (has_user db))
        (InstanceRefers (has_household next) (has_definition next) (has_user db))
        (forget_definitions (is_doomed_definition doomed db))
        (λ c (a, b, u). (
          a,
          Refers-cleared (has_definition db) (has_definition next) (is_doomed_definition doomed db)
              (λ i k e. row_stays (λ d. d.id == i) (λ d. doomed d.household_id) db.definitions k e)
              c.definition_id b,
          u,
        ))
        (filter (λ c. not (doomed c.household_id)) db.instances)
        (All-filter (λ c. not (doomed c.household_id))
          (λ c (a, b, u) k. (house c.household_id (alive _ k) a, b, u)) db.instances h.instances);
  ledger =
      All-changed (EntryRefers (has_household next) (has_user db) (has_row db))
        (EntryRefers (has_household next) (has_user db) (has_row next))
        (forget_instances (is_doomed_instance doomed db))
        (λ e (a, u, b). (
          a,
          u,
          Refers-cleared (has_row db) (has_row next) (is_doomed_instance doomed db) rows
              e.chore_instance_id b,
        ))
        (filter (λ e. not (doomed e.household_id)) db.ledger)
        (All-filter (λ e. not (doomed e.household_id))
          (λ e (a, u, b) k. (house e.household_id (alive _ k) a, u, b)) db.ledger h.ledger);
  invites =
      All-filter (λ i. not (doomed i.household_id))
        (λ i (a, b) k. (house i.household_id (alive _ k) a, b)) db.invites h.invites;
  refresh_tokens = h.refresh_tokens;
  groceries =
      All-filter (λ g. not (doomed g.household_id))
        (λ g (a, b, c) k. (house g.household_id (alive _ k) a, b, c)) db.groceries h.groceries;
}
  where
    next : Database
    next = delete_households doomed db

    house : (i : ℕ) → doomed i ≡ false → has_household db i ≡ true → has_household next i ≡ true
    house i k e = key_stays (λ x. x.id) doomed i db.households k e

    rows :
        (i : ℕ)
        → is_doomed_instance doomed db i ≡ false
        → has_row db i ≡ true
        → has_row next i ≡ true
    rows i k e =
        any-changed (λ c. c.id == i) (forget_definitions (is_doomed_definition doomed db))
          (filter (λ c. not (doomed c.household_id)) db.instances) (λ c. refl)
        ∙ row_stays (λ c. c.id == i) (λ c. doomed c.household_id) db.instances k e

-- Deleting a user, with all that the ON DELETE rules take along or clear, leaves every foreign key
-- of every table with a row to refer to, if that was so before.
pub delete_user-IsReferential :
    (uid : ℕ) (db : Database) → IsReferential db → IsReferential (delete_user uid db)
unfolding delete_user
delete_user-IsReferential uid db h = record {
  memberships =
      All-filter (λ m. not (m.user_id == uid)) (λ m (a, b) k. (a, user m.user_id (alive _ k) b))
        db.memberships h.memberships;
  definitions =
      All-changed
        (λ d. (has_household db d.household_id ≡ true) × Refers (has_user db) d.created_by_id)
        (λ d. (has_household db d.household_id ≡ true) × Refers (has_user next) d.created_by_id)
        (forget_creator uid) (λ d (a, b). (a, cleared d.created_by_id b)) db.definitions
        h.definitions;
  instances =
      All-changed (InstanceRefers (has_household db) (has_definition db) (has_user db))
        (InstanceRefers (has_household db) (has_definition next) (has_user next))
        (forget_assignee uid)
        (λ c (a, d, u). (a, definition c.definition_id d, cleared c.assignee_id u)) db.instances
        h.instances;
  ledger =
      All-filter (λ e. not (e.user_id == uid))
        (λ e (a, b, r) k. (a, user e.user_id (alive _ k) b, row e.chore_instance_id r)) db.ledger
        h.ledger;
  invites =
      All-changed
        (λ i. (has_household db i.household_id ≡ true) × Refers (has_user db) i.created_by_id)
        (λ i. (has_household db i.household_id ≡ true) × Refers (has_user next) i.created_by_id)
        (forget_inviter uid) (λ i (a, b). (a, cleared i.created_by_id b)) db.invites h.invites;
  refresh_tokens =
      All-filter (λ t. not (t.user_id == uid)) (λ t a k. user t.user_id (alive _ k) a)
        db.refresh_tokens h.refresh_tokens;
  groceries =
      All-changed
        (λ g.
          (has_household db g.household_id ≡ true)
          × Refers (has_user db) g.added_by_id
          × Refers (has_user db) g.purchased_by_id)
        (λ g.
          (has_household db g.household_id ≡ true)
          × Refers (has_user next) g.added_by_id
          × Refers (has_user next) g.purchased_by_id)
        (forget_shopper uid)
        (λ g (a, b, c). (a, cleared g.added_by_id b, cleared g.purchased_by_id c)) db.groceries
        h.groceries;
}
  where
    next : Database
    next = delete_user uid db

    user : (i : ℕ) → (i == uid) ≡ false → has_user db i ≡ true → has_user next i ≡ true
    user i k e = key_stays (λ x. x.id) (λ j. j == uid) i db.users k e

    cleared :
        (o : Option ℕ)
        → Refers (has_user db) o
        → Refers (has_user next) (clear_if (λ i. i == uid) o)
    cleared = Refers-cleared (has_user db) (has_user next) (λ i. i == uid) user

    definition : (o : Option ℕ) → Refers (has_definition db) o → Refers (has_definition next) o
    definition none r = tt
    definition (some i) r =
        any-changed (λ d. d.id == i) (forget_creator uid) db.definitions (λ d. refl) ∙ r

    row : (o : Option ℕ) → Refers (has_row db) o → Refers (has_row next) o
    row none r = tt
    row (some i) r = any-changed (λ c. c.id == i) (forget_assignee uid) db.instances (λ c. refl) ∙ r

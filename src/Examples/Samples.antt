-- ===== src/Examples/Samples.antt =====
-- A small database for the examples of backend/app: household 1 with the admins 1 and 2 and the
-- member 3, household 2 with the admin 3, two chores and their instances.
use chore_app.Base.{ℕ, arith, true, false, none, some, [], ◌∷◌}
use chore_app.Models.{
  User, Household, Role, admin, member, HouseholdMembership, kitchen, garden_outdoor, easy, hard,
  one_off, recurring, weeks, RecurrenceRule, ChoreDefinition, ChoreStatus, pending, complete,
  overdue, ChoreInstance, PointLedger, InviteToken, Database,
}

abbrev pub ann : User
ann = record {
  id = 1;
  email = "ann@example.com";
  display_name = "Ann";
  password_hash = "a";
  created_at = 100;
}

abbrev pub bob : User
bob = record {
  id = 2;
  email = "bob@example.com";
  display_name = "Bob";
  password_hash = "b";
  created_at = 200;
}

abbrev pub cid : User
cid = record {
  id = 3;
  email = "cid@example.com";
  display_name = "Cid";
  password_hash = "c";
  created_at = 300;
}

abbrev pub flat : Household
flat = record { id = 1; name = "Flat"; rotation_pointer = 4; created_at = 150 }

abbrev pub barn : Household
barn = record { id = 2; name = "Barn"; rotation_pointer = 0; created_at = 350 }

abbrev pub membership : ℕ → ℕ → ℕ → Role → ℕ → HouseholdMembership
membership id household_id user_id role joined_at = record {
  id = id;
  household_id = household_id;
  user_id = user_id;
  role = role;
  joined_at = joined_at;
  is_active = true;
  created_at = joined_at;
}

abbrev pub dishes : ChoreDefinition
dishes = record {
  id = 7;
  household_id = 1;
  created_by_id = some 1;
  title = "Dishes";
  description = none;
  category = kitchen;
  effort_level = easy;
  chore_type = one_off;
  recurrence_rule = none;
  first_due_date = 20;
  is_active = true;
  hidden_from_suggestions = false;
  created_at = 400;
}

abbrev pub weekly : RecurrenceRule
weekly = record { interval_unit = weeks; interval_n = 1; interval_n_ge = omega arith }

abbrev pub hedge : ChoreDefinition
hedge = record {
  id = 8;
  household_id = 1;
  created_by_id = some 2;
  title = "Hedge";
  description = some "the long one";
  category = garden_outdoor;
  effort_level = hard;
  chore_type = recurring;
  recurrence_rule = some weekly;
  first_due_date = 10;
  is_active = true;
  hidden_from_suggestions = false;
  created_at = 410;
}

abbrev pub instance_of : ℕ → ℕ → ℕ → ℕ → ChoreStatus → ChoreInstance
instance_of id definition_id assignee_id due_date status = record {
  id = id;
  definition_id = some definition_id;
  household_id = 1;
  assignee_id = some assignee_id;
  assigned_manually = false;
  due_date = due_date;
  status = status;
  completed_at = none;
  points_awarded = none;
  created_at = 420;
}

-- The hedge was cut once, by Bob.
abbrev pub cut : ChoreInstance
cut = record (instance_of 30 8 2 10 complete) { completed_at = some 500; points_awarded = some 50 }

abbrev pub cut_entry : PointLedger
cut_entry = record {
  id = 60;
  household_id = 1;
  user_id = 2;
  chore_instance_id = some 30;
  points = 50;
  awarded_at = 500;
}

abbrev pub invite : InviteToken
invite = record {
  id = 40;
  household_id = 2;
  created_by_id = some 3;
  token = "abcdefghij";
  expires_at = 2000;
  used_at = none;
  created_at = 1000;
}

abbrev pub home : Database
home = record {
  users = ann ∷ bob ∷ cid ∷ [];
  households = flat ∷ barn ∷ [];
  memberships =
      membership 11 1 1 admin 100
      ∷ membership 12 1 2 admin 200
      ∷ membership 13 1 3 member 300
      ∷ membership 14 2 3 admin 350
      ∷ [];
  definitions = dishes ∷ hedge ∷ [];
  instances = cut ∷ instance_of 31 7 3 20 pending ∷ instance_of 32 8 3 17 overdue ∷ [];
  ledger = cut_entry ∷ [];
  invites = invite ∷ [];
  refresh_tokens = [];
  revoked_tokens = [];
  groceries = [];
}

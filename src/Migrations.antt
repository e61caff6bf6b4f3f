-- ===== src/Migrations.antt =====
-- backend/alembic/versions/b7c1d4e9f2a3_normalize_email_case.py: the migration that lower-cases the
-- emails of the users. PostgreSQL's lower() is a parameter.
pub mod Emails
use chore_app.Base.{
  ℕ, String, Bool, not, List, [], ◌∷◌, ltb, same_text, if◌then◌else◌, any, filter, count,
  update_where,
}
use chore_app.Models.{User, Database}

-- How the migration ends: RuntimeError with the emails that collide, an error of the unique index,
-- or the tables that stay.
pub data Upgrade : Type 0 where
  collided : List String → Upgrade
  duplicate_key : Upgrade
  upgraded : Database → Upgrade

module _ (lower : String → String) where
  abbrev pub in_group : String → User → Bool
  in_group normalized u = same_text (lower u.email) normalized

  -- The keys of `GROUP BY lower(email)`.
  unfoldable pub group_keys : List User → List String
  group_keys [] = []
  group_keys (u ∷ us) =
      let rest = group_keys us in
      if any (same_text (lower u.email)) rest then rest else lower u.email ∷ rest

  -- `HAVING count(*) > 1`; the text of the error, which lists the variants, is left out.
  unfoldable pub collisions : List User → List String
  collisions users = filter (λ e. ltb 1 (count (in_group e) users)) (group_keys users)

  abbrev pub lower_email : User → User
  lower_email u = record u { email = lower u.email }

  -- `UPDATE users SET email = lower(email) WHERE email <> lower(email)`
  abbrev pub lower_emails : Database → Database
  lower_emails db = record db {
    users = update_where (λ u. not (same_text u.email (lower u.email))) lower_email db.users;
  }

  -- `CREATE UNIQUE INDEX ... ON users (lower(email))` fails where rows share a key.
  unfoldable pub create_index : List String → Database → Upgrade
  create_index [] db = upgraded db
  create_index (e ∷ es) db = duplicate_key

  abbrev pub raise_collisions : List String → Database → Upgrade
  raise_collisions [] db =
      let after = lower_emails db in create_index (collisions after.users) after
  raise_collisions (e ∷ es) db = collided (e ∷ es)

  -- `upgrade`
  unfoldable pub upgrade : Database → Upgrade
  upgrade db = raise_collisions (collisions db.users) db

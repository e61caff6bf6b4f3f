-- ===== src/Examples/Emails.antt =====
-- The theorem on the migration of the emails of backend/alembic at a concrete input, with the
-- letters of ASCII.
use Prim.Native.Char.{Char, code}
use Prim.Native.String.{String}
use chore_app.Base.{
  ◌≤◌, ◌<◌, ◌≡◌, refl, ◌⊎◌, inl, inr, List, [], ◌∷◌, map, ◌==◌, Bool-cases, count, filter,
}
use chore_app.Models.{Database}
use chore_app.Texts.{translated, lower}
use chore_app.Auth.{users_by_email}
use chore_app.Migrations.{collided, upgraded, in_group, lower_email, upgrade}
use chore_app.Migrations.Emails.{upgrade_outcome}
use chore_app.Examples.Samples.{ann, bob, home}

abbrev capitals : String
capitals = "ABCDEFGHIJKLMNOPQRSTUVWXYZ"

abbrev smalls : String
smalls = "abcdefghijklmnopqrstuvwxyz"

-- Small letters stay, and capitals become small ones.
translated_twice :
    (from to : String) (c : Char)
    → lower to ≡ to
    → translated capitals smalls c ≡ translated from to c
    → translated capitals smalls (translated from to c) ≡ translated from to c
unfolding translated lower
translated_twice String.[] to c small e = e
translated_twice (String.◌∷◌ a from) String.[] c small e = e
translated_twice (String.◌∷◌ a from) (String.◌∷◌ b to) c small e =
    elim (Bool-cases (code a == code c)) [
      | inl same ↦ rw same cc
      | inr other ↦
          let tail : lower to ≡ to = cc in
          rw other (translated_twice from to c tail (rw other at e))
    ]

lower_idem : (s : String) → lower (lower s) ≡ lower s
unfolding lower translated
lower_idem String.[] = refl
lower_idem (String.◌∷◌ c s) = rw (translated_twice capitals smalls c refl refl, lower_idem s) refl

-- Bob's email has capitals.
abbrev mixed : Database
mixed = record home { users = ann ∷ record bob { email = "Bob@Example.com" } ∷ [] }

upgrade_outcome_example :
    ((e : String) × (es : List String) × (upgrade lower mixed ≡ collided (e ∷ es))
      × (1 < count (in_group lower e) mixed.users))
    ⊎ ((after : Database) × (upgrade lower mixed ≡ upgraded after)
        × ((e : String) → count (in_group lower e) mixed.users ≤ 1)
        × ((e : String)
            → users_by_email (lower e) after
              ≡ map (lower_email lower) (filter (in_group lower (lower e)) mixed.users)))
upgrade_outcome_example = upgrade_outcome lower lower_idem mixed

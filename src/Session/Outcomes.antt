-- ===== src/Session/Outcomes.antt =====
-- The outcomes of an action, and of a request that backend/app/db/session.py wraps in a
-- transaction.
use chore_app.Base.{◌≡◌, refl, ap, ◌⊎◌, inl, inr}
use chore_app.Models.{Database}
use chore_app.Session.{Session, Error, Result, ok, err, Action, get_db}

-- A request fails and leaves the database as it was, or it answers and `Q` holds of the database
-- that stays.
abbrev pub Serves : {A : Type 0} → Action A → Database → (Database → Type 0) → Type 0
Serves {A} m db Q =
    ((e : Error) × (get_db m db ≡ (err e, db)))
    ⊎ ((a : A) × (after : Database) × (get_db m db ≡ (ok a, after)) × Q after)

abbrev pub begin : Database → Session
begin db = record { working = db; committed = db }

-- The outcome of an action, with the session at its end.
pub Result-cases :
    {A : Type 0} (m : Action A) (s : Session)
    → ((e : Error) × (m s ≡ (err e, (m s).1))) ⊎ ((a : A) × (m s ≡ (ok a, (m s).1)))
Result-cases {A} m s = go (m s).0 refl
  where
    go :
        (r : Result A)
        → (m s).0 ≡ r
        → ((e : Error) × (m s ≡ (err e, (m s).1))) ⊎ ((a : A) × (m s ≡ (ok a, (m s).1)))
    go (ok a) e = inr (a, ap (λ r. (r, (m s).1)) e)
    go (err x) e = inl (x, ap (λ r. (r, (m s).1)) e)

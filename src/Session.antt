-- ===== src/Session.antt =====
-- The session of backend/app/db/session.py and the effects of a handler: it reads and writes the
-- rows that its transaction sees, may raise, and may commit before it ends.
pub mod Preserves
pub mod Outcomes
use chore_app.Base.{Bool, true, false, Option, none, some, List, [], ◌∷◌}
use chore_app.Models.{Database}

-- The status code of an `HTTPException`, or the exception of a query for one row that finds more
-- (`MultipleResultsFound`) or none (`NoResultFound`), or another exception, answered with 500.
pub data Error : Type 0 where
  bad_request unauthorized forbidden not_found conflict gone unprocessable : Error
  multiple_results no_result internal_error : Error

pub data Result {ℓ} (A : Type ℓ) : Type ℓ where
  ok : A → Result A
  err : Error → Result A

-- `working` is what the transaction sees, with its own pending changes flushed; `committed` is what
-- the others see, and what a rollback goes back to.
pub record Session : Type 0 where
  pub working : Database
  pub committed : Database

abbrev pub Action : Type 0 → Type 0
Action A = Session → Result A × Session

module _ {A : Type 0} where
  abbrev pub pure : A → Action A
  pure a s = (ok a, s)

  abbrev pub raise : Error → Action A
  raise e s = (err e, s)

  abbrev pub raise_if_none : Error → Option A → Action A
  raise_if_none e none = raise e
  raise_if_none e (some a) = pure a

module _ {A B : Type 0} where
  abbrev pub and_then : Result A → (A → Action B) → Action B
  and_then (ok a) f = f a
  and_then (err e) f = raise e

  infixl 5 ◌>>=◌ ◌>>◌
  abbrev pub ◌>>=◌ : Action A → (A → Action B) → Action B
  ◌>>=◌ m f s = let (r, s') = m s in and_then r f s'

  abbrev pub ◌>>◌ : Action A → Action B → Action B
  m >> n = m >>= λ _. n

-- `if test: raise HTTPException(...)`
abbrev pub raise_if : Bool → Error → Action (Unit {0})
raise_if true e = raise e
raise_if false e = pure tt

-- A query over the rows that the transaction sees.
module _ {A : Type 0} where
  abbrev pub query : (Database → A) → Action A
  query f s = (ok (f s.working), s)

  -- `scalar_one_or_none()` on the rows of a query.
  abbrev pub scalar_one_or_none : List A → Action (Option A)
  scalar_one_or_none [] = pure none
  scalar_one_or_none (x ∷ []) = pure (some x)
  scalar_one_or_none (x ∷ y ∷ l) = raise multiple_results

  -- `scalar_one()`
  abbrev pub scalar_one : List A → Action A
  scalar_one [] = raise no_result
  scalar_one (x ∷ []) = pure x
  scalar_one (x ∷ y ∷ l) = raise multiple_results

-- A write, flushed: the later queries of the transaction see it.
abbrev pub write : (Database → Database) → Action (Unit {0})
write f s = (ok tt, record s { working = f s.working })

-- `await session.commit()`
abbrev pub commit : Action (Unit {0})
commit s = (ok tt, record s { committed = s.working })

-- The end of `get_db`: commit when the handler returns, roll back when it raises.
module _ {A : Type 0} where
  abbrev pub finish : Result A → Session → Result A × Database
  finish (ok a) s = (ok a, s.working)
  finish (err e) s = (err e, s.committed)

  -- `get_db` around a handler: what the client gets, and the database that stays.
  unfoldable pub get_db : Action A → Database → Result A × Database
  get_db handler db = let (r, s) = handler (record { working = db; committed = db }) in finish r s

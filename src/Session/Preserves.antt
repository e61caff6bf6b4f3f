-- ===== src/Session/Preserves.antt =====
-- Parts of the session that an action leaves alone, with a rule for each way to build an action.
use chore_app.Base.{
  ◌≡◌, refl, ◌∙◌, Bool, true, false, Option, none, some, List, [], ◌∷◌, if◌then◌else◌,
}
use chore_app.Models.{Database}
use chore_app.Session.{
  Session, Error, Result, ok, err, Action, pure, raise, raise_if_none, and_then, ◌>>=◌, raise_if,
  query, scalar_one_or_none, scalar_one,
}

-- `view` reads the same before and after `m`, whether it returns or raises.
pub record Preserves {V A : Type 0} (view : Session → V) (m : Action A) : Type 0 where
  pub at : (s : Session) → view (m s).1 ≡ view s

module _ {V A : Type 0} {view : Session → V} where
  pub Preserves-pure : (a : A) → Preserves view (pure a)
  Preserves-pure a = record { at = λ s. refl }

  pub Preserves-raise : (e : Error) → Preserves view (raise {A = A} e)
  Preserves-raise e = record { at = λ s. refl }

  pub Preserves-raise_if_none : (e : Error) (o : Option A) → Preserves view (raise_if_none e o)
  Preserves-raise_if_none e none = record { at = λ s. refl }
  Preserves-raise_if_none e (some a) = record { at = λ s. refl }

  pub Preserves-query : (f : Database → A) → Preserves view (query f)
  Preserves-query f = record { at = λ s. refl }

  pub Preserves-scalar_one_or_none : (l : List A) → Preserves view (scalar_one_or_none l)
  Preserves-scalar_one_or_none [] = record { at = λ s. refl }
  Preserves-scalar_one_or_none (x ∷ []) = record { at = λ s. refl }
  Preserves-scalar_one_or_none (x ∷ y ∷ l) = record { at = λ s. refl }

  pub Preserves-scalar_one : (l : List A) → Preserves view (scalar_one l)
  Preserves-scalar_one [] = record { at = λ s. refl }
  Preserves-scalar_one (x ∷ []) = record { at = λ s. refl }
  Preserves-scalar_one (x ∷ y ∷ l) = record { at = λ s. refl }

  pub Preserves-if :
      (b : Bool) (m n : Action A)
      → Preserves view m
      → Preserves view n
      → Preserves view (if b then m else n)
  Preserves-if true m n km kn = km
  Preserves-if false m n km kn = kn

module _ {V : Type 0} {view : Session → V} where
  pub Preserves-raise_if : (b : Bool) (e : Error) → Preserves view (raise_if b e)
  Preserves-raise_if true e = record { at = λ s. refl }
  Preserves-raise_if false e = record { at = λ s. refl }

module _ {V A B : Type 0} {view : Session → V} where
  Preserves-and_then :
      (r : Result A) (f : A → Action B)
      → ((a : A) → Preserves view (f a))
      → Preserves view (and_then r f)
  Preserves-and_then (ok a) f kf = kf a
  Preserves-and_then (err e) f kf = record { at = λ s. refl }

  pub Preserves-bind :
      (m : Action A) (f : A → Action B)
      → Preserves view m
      → ((a : A) → Preserves view (f a))
      → Preserves view (m >>= f)
  Preserves-bind m f km kf = record {
    at = λ s. let (r, s') = m s in (Preserves-and_then r f kf).at s' ∙ km.at s;
  }

pub ruleset preserves_rules = (
  Preserves-pure, Preserves-raise, Preserves-raise_if_none, Preserves-raise_if, Preserves-query,
  Preserves-scalar_one_or_none, Preserves-scalar_one, Preserves-if, Preserves-bind,
)

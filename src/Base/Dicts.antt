-- ===== src/Base/Dicts.antt =====
-- A Python dict keyed by identifiers, in insertion order.
use Prim.Native.Nat.{ℕ}
use mathlib.Core.Path.{◌≡◌, refl}
use native.Mathlib.Omega.{arith}
use mathlib.Core.Option.{Option, none, some}
use mathlib.Core.List.{List, [], ◌∷◌}
use chore_app.Base.Tests.{◌==◌, if◌then◌else◌}

abbrev pub Dict {ℓ} : Type ℓ → Type ℓ
Dict A = List (ℕ × A)

-- `entries[key] = value`: the entry with that key keeps its place.
abbrev pub insert {ℓ} : {A : Type ℓ} → ℕ → A → Dict A → Dict A
insert key value [] = (key, value) ∷ []
insert key value (entry ∷ entries) =
    if key == entry.0 then (key, value) ∷ entries else entry ∷ insert key value entries

-- `entries.get(key)`
abbrev pub lookup {ℓ} : {A : Type ℓ} → ℕ → Dict A → Option A
lookup key [] = none
lookup key (entry ∷ entries) = if key == entry.0 then some entry.1 else lookup key entries

-- `entries.get(key, default)`
abbrev pub get_or {ℓ} : {A : Type ℓ} → A → Option A → A
get_or default none = default
get_or default (some value) = value

pub lookup-insert {ℓ} :
    {V : Type ℓ} (j k : ℕ) (v : V) (m : Dict V)
    → lookup j (insert k v m) ≡ (if j == k then some v else lookup j m)
lookup-insert j k v [] = refl
lookup-insert j k v (e ∷ m) = ground (arith, lookup-insert j k v m)

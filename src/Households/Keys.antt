-- ===== src/Households/Keys.antt =====
-- The foreign keys of backend/app/models/*.py, and the rows that stay where others go.
use chore_app.Base.{
  ℕ, ◌≡◌, refl, ap, ◌∙◌, map, inl, inr, Bool, true, false, ◌&&◌, not, Option, none, some, List, [],
  ◌∷◌, arith, ◌==◌, ==→eq, Bool-cases, filter, any, All, any-kept,
}
use chore_app.Models.{Household, ChoreInstance, PointLedger, Database, clear_if}

abbrev pub has_user : Database → ℕ → Bool
has_user db i = any (λ u. u.id == i) db.users

abbrev pub has_household : Database → ℕ → Bool
has_household db i = any (λ h. h.id == i) db.households

abbrev pub has_definition : Database → ℕ → Bool
has_definition db i = any (λ d. d.id == i) db.definitions

abbrev pub has_row : Database → ℕ → Bool
has_row db i = any (λ c. c.id == i) db.instances

-- A nullable reference.
abbrev pub Refers : (ℕ → Bool) → Option ℕ → Type 0
Refers has none = Unit
Refers has (some i) = has i ≡ true

-- The references of an instance, and those of a ledger entry, with the rows that there are.
abbrev pub InstanceRefers : (ℕ → Bool) → (ℕ → Bool) → (ℕ → Bool) → ChoreInstance → Type 0
InstanceRefers household definition user c =
    (household c.household_id ≡ true)
    × Refers definition c.definition_id
    × Refers user c.assignee_id

abbrev pub EntryRefers : (ℕ → Bool) → (ℕ → Bool) → (ℕ → Bool) → PointLedger → Type 0
EntryRefers household user row e =
    (household e.household_id ≡ true) × (user e.user_id ≡ true) × Refers row e.chore_instance_id

-- Every foreign key refers to a row.
pub record IsReferential (db : Database) : Type 0 where
  pub memberships :
      All
        (λ m. (has_household db m.household_id ≡ true) × (has_user db m.user_id ≡ true))
        db.memberships
  pub definitions :
      All
        (λ d. (has_household db d.household_id ≡ true) × Refers (has_user db) d.created_by_id)
        db.definitions
  pub instances :
      All (InstanceRefers (has_household db) (has_definition db) (has_user db)) db.instances
  pub ledger : All (EntryRefers (has_household db) (has_user db) (has_row db)) db.ledger
  pub invites :
      All
        (λ i. (has_household db i.household_id ≡ true) × Refers (has_user db) i.created_by_id)
        db.invites
  pub refresh_tokens : All (λ t. has_user db t.user_id ≡ true) db.refresh_tokens
  pub groceries :
      All
        (λ g.
          (has_household db g.household_id ≡ true)
          × Refers (has_user db) g.added_by_id
          × Refers (has_user db) g.purchased_by_id)
        db.groceries

-- A reference after its target table has changed.
pub Refers-cleared :
    (has has' gone : ℕ → Bool)
    → ((i : ℕ) → gone i ≡ false → has i ≡ true → has' i ≡ true)
    → (o : Option ℕ) → Refers has o
    → Refers has' (clear_if gone o)
Refers-cleared has has' gone keeps none h = tt
Refers-cleared has has' gone keeps (some i) h = elim (Bool-cases (gone i)) [
  | inl dead ↦ rw dead tt
  | inr alive ↦ rw alive (keeps i alive h)
]

module _ {A : Type 0} (key : A → ℕ) where
  -- The rows with a key that stays, where the rows with some keys go.
  pub key_stays :
      (gone : ℕ → Bool) (i : ℕ) (l : List A)
      → gone i ≡ false
      → any (λ x. key x == i) l ≡ true
      → any (λ x. key x == i) (filter (λ x. not (gone (key x))) l) ≡ true
  key_stays gone i l alive h =
      any-kept (λ x. key x == i) (λ x. not (gone (key x))) l (none_lost l) h
    where
      none_lost : (l : List A) → any (λ x. key x == i && not (not (gone (key x)))) l ≡ false
      none_lost [] = refl
      none_lost (x ∷ l) = elim (Bool-cases (key x == i)) [
        | inl same ↦ rw (same, ==→eq (key x) i same, alive) (none_lost l)
        | inr other ↦ rw other (none_lost l)
      ]

-- The rows that a test on another column keeps.
pub row_stays :
    {A : Type 0} (p doomed : A → Bool) (l : List A)
    → any (λ x. p x && doomed x) l ≡ false
    → any p l ≡ true
    → any p (filter (λ x. not (doomed x)) l) ≡ true
row_stays p doomed [] h k = k
row_stays p doomed (x ∷ l) h k = ground (arith, row_stays p doomed l)

-- A household that goes is not there.
pub doomed_gone :
    (doomed : ℕ → Bool) (k : ℕ) (hs : List Household)
    → doomed k ≡ true
    → any (λ i. i == k) (map (λ x. x.id) (filter (λ x. not (doomed x.id)) hs)) ≡ false
doomed_gone doomed k [] e = refl
doomed_gone doomed k (x ∷ hs) e = elim (Bool-cases (x.id == k)) [
  | inl same ↦ let gone = ap doomed (==→eq x.id k same) ∙ e in rw gone (doomed_gone doomed k hs e)
  | inr other ↦ ground (arith, other, doomed_gone doomed k hs e)
]

pub alive : (b : Bool) → not b ≡ true → b ≡ false
alive true h = cc
alive false h = refl

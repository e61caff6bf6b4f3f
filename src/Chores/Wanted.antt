-- ===== src/Chores/Wanted.antt =====
-- backend/app/api/chores.py: the rows that the queries of `list_chores` join.
use mathlib.Core.List.{map-append}
use chore_app.Base.{
  ℕ, ◌≤◌, ◌≡◌, refl, ap, ◌∙◌, inl, inr, Bool, ◌&&◌, Option, List, [], ◌∷◌, map, arith, length,
  filter, any, count, ◌==◌, is_some_eq, none, some, true, if◌then◌else◌, Bool-cases, All, for_each,
  outer, outer_one, length-append,
}
use chore_app.Engine.Orders.{any-filter}
use chore_app.Models.{
  same_status, same_category, User, ChoreStatus, ChoreCategory, ChoreDefinition, ChoreInstance,
  Database,
}
use chore_app.Chores.Responses.{definition_rows, user_rows}
use chore_app.Chores.Listing.{
  ChoreFilters, has_status, has_category, has_assignee, fits_instance, fits_definition, ChoreRow,
  counted_rows, data_rows,
}

-- The references of each instance are to at most one row.
abbrev pub IsUnambiguous : Database → List ChoreInstance → Type 0
IsUnambiguous db =
    All (λ c. (length (definition_rows c db) ≤ 1) × (length (user_rows c.assignee_id db) ≤ 1))

-- What the queries keep.
abbrev is_fit : ℕ → ChoreFilters → Database → ChoreInstance → Bool
is_fit hid q db c = fits_instance hid q c && any (fits_definition q) (definition_rows c db)

abbrev row_with : ChoreInstance → ChoreDefinition → Option User → ChoreRow
row_with c d u = record { chore = c; definition = d; assignee = u }

data_row :
    (q : ChoreFilters) (c : ChoreInstance) (ds : List ChoreDefinition) (us : List User)
    → length ds ≤ 1
    → length us ≤ 1
    → map
        (λ r. (r.chore).id)
        (for_each (filter (fits_definition q) ds) (λ d. map (row_with c d) (outer us)))
      ≡ (if any (fits_definition q) ds then c.id ∷ [] else [])
data_row q c [] us few_definitions few_users = refl
data_row q c (d ∷ []) us few_definitions few_users = elim (Bool-cases (fits_definition q d)) [
  | inl fits ↦ rw (fits, outer_one us few_users) refl
  | inr other ↦ rw other refl
]
data_row q c (d ∷ e ∷ ds) us few_definitions few_users = absurd (omega arith)

counted_row :
    (q : ChoreFilters) (ds : List ChoreDefinition)
    → length ds ≤ 1
    → length (filter (fits_definition q) ds) ≡ (if any (fits_definition q) ds then 1 else 0)
counted_row q [] few = refl
counted_row q (d ∷ []) few = elim (Bool-cases (fits_definition q d)) [
  | inl fits ↦ rw fits refl
  | inr other ↦ rw other refl
]
counted_row q (d ∷ e ∷ ds) few = absurd (omega arith)

module _ (hid : ℕ) (q : ChoreFilters) (db : Database) where
  ids_of_fit :
      (l : List ChoreInstance)
      → IsUnambiguous db l
      → map (λ r. (r.chore).id) (for_each (filter (fits_instance hid q) l) (data_rows q db))
        ≡ map (λ c. c.id) (filter (is_fit hid q db) l)
  unfolding data_rows
  ids_of_fit [] h = refl
  ids_of_fit (c ∷ l) h = elim (Bool-cases (fits_instance hid q c)) [
    | inr other ↦ rw other (ids_of_fit l h.1)
    | inl fits ↦ rw fits (
        map-append (λ r. (r.chore).id) (data_rows q db c)
          (for_each (filter (fits_instance hid q) l) (data_rows q db))
        ∙ rw
            (
              ids_of_fit l h.1,
              data_rows,
              data_row q c (definition_rows c db) (user_rows c.assignee_id db) h.0.0 h.0.1,
            )
            (ground arith))
  ]

  counted_fit :
      (l : List ChoreInstance)
      → IsUnambiguous db l
      → length (for_each (filter (fits_instance hid q) l) (counted_rows q db))
        ≡ count (is_fit hid q db) l
  unfolding counted_rows
  counted_fit [] h = refl
  counted_fit (c ∷ l) h = elim (Bool-cases (fits_instance hid q c)) [
    | inr other ↦ rw other (counted_fit l h.1)
    | inl fits ↦ rw fits (
        length-append (counted_rows q db c)
          (for_each (filter (fits_instance hid q) l) (counted_rows q db))
        ∙ rw (counted_fit l h.1, counted_rows, counted_row q (definition_rows c db) h.0.0)
            (ground arith))
  ]

-- A filter that is not given lets everything pass.
abbrev if_given : {A : Type 0} → Option A → (A → Bool) → Bool
if_given none test = true
if_given (some a) test = test a

-- An instance of the household that has the status and the assignee that are asked for, if any, and
-- whose definition is active and has the category that is asked for, if any.
abbrev pub is_wanted : ℕ → ChoreFilters → Database → ChoreInstance → Bool
is_wanted hid q db c =
    c.household_id == hid
    && if_given q.status_filter (same_status c.status)
    && if_given q.assignee_id (is_some_eq c.assignee_id)
    && any
        (λ d.
          is_some_eq c.definition_id d.id
          && d.is_active
          && if_given q.category (same_category d.category))
        db.definitions

if_given-status :
    (o : Option ChoreStatus) (x : ChoreStatus) → if_given o (same_status x) ≡ has_status o x
if_given-status none x = refl
if_given-status (some w) x = refl

if_given-category :
    (o : Option ChoreCategory) (x : ChoreCategory) → if_given o (same_category x) ≡ has_category o x
if_given-category none x = refl
if_given-category (some w) x = refl

if_given-assignee : (o a : Option ℕ) → if_given o (is_some_eq a) ≡ has_assignee o a
if_given-assignee none a = refl
if_given-assignee (some w) a = refl

is_wanted_lem :
    (hid : ℕ) (q : ChoreFilters) (db : Database) (c : ChoreInstance)
    → is_fit hid q db c ≡ is_wanted hid q db c
is_wanted_lem hid q db c =
    rw
      (
        any-filter (λ d. is_some_eq c.definition_id d.id) (fits_definition q) db.definitions,
        if_given-status q.status_filter c.status,
        if_given-assignee q.assignee_id c.assignee_id,
        ap (λ p. any p db.definitions) (λ i d. same d i),
      )
      (ground arith)
  where
    same :
        (d : ChoreDefinition)
        → (is_some_eq c.definition_id d.id
            && d.is_active
            && if_given q.category (same_category d.category))
          ≡ (is_some_eq c.definition_id d.id && fits_definition q d)
    same d = rw (if_given-category q.category d.category) (ground arith)

module _ (hid : ℕ) (q : ChoreFilters) (db : Database) (l : List ChoreInstance)
    (clear : IsUnambiguous db l) where
  pub ids_of_rows :
      map (λ r. (r.chore).id) (for_each (filter (fits_instance hid q) l) (data_rows q db))
      ≡ map (λ c. c.id) (filter (is_wanted hid q db) l)
  ids_of_rows =
      ids_of_fit hid q db l clear
      ∙ ap (λ p. map (λ c. c.id) (filter p l)) (λ i c. is_wanted_lem hid q db c i)

  pub counted_rows_lem :
      length (for_each (filter (fits_instance hid q) l) (counted_rows q db))
      ≡ count (is_wanted hid q db) l
  counted_rows_lem =
      counted_fit hid q db l clear ∙ ap (λ p. count p l) (λ i c. is_wanted_lem hid q db c i)

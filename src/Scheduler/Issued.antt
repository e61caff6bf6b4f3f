-- ===== src/Scheduler/Issued.antt =====
-- backend/app/tasks/scheduler.py: the identifiers of a run's new instances, and the rows that the
-- assignment writes.
use mathlib.Core.List.{append_assoc}
use chore_app.Base.{
  ℕ, ◌+◌, ◌<◌, ◌≡◌, refl, sym, ◌∙◌, ◌≢◌, inl, inr, Option, none, some, List, [], ◌∷◌, ◌++◌, arith,
  length, length-append, ◌==◌, Bool-cases, All, All-map, All-snoc, All-append, IsKeyed,
  IsKeyed-snoc, Dict, lookup, insert,
}
use chore_app.Models.{ChoreDefinition, pending, ChoreInstance}
use chore_app.Scheduler.{
  Batch, generated, has_pair, append_to, add_to_household, add_due, add_dues, dates_of,
  add_definitions,
}

-- The identifiers of a run differ from one another.
abbrev pub IsFreshSource : (ℕ → ℕ) → Type 0
IsFreshSource new_id = (j k : ℕ) → new_id j ≡ new_id k → j ≡ k

module _ {V : Type 0} (P : V → Type 0) where
  abbrev Values : Dict V → Type 0
  Values = All (λ e. P e.1)

  Values-lookup : (k : ℕ) (d : Dict V) {v : V} → Values d → lookup k d ≡ some v → P v
  Values-lookup k [] h e = cc
  Values-lookup k (x ∷ d) h e = elim (Bool-cases (k == x.0)) [
    | inl same ↦ found (rw same at e)
    | inr other ↦ Values-lookup k d h.1 (rw other at e)
  ]
    where
      found : {v : V} → some x.1 ≡ some v → P v
      found {v} q = let r : x.1 ≡ v = cc in rw (← r) h.0

  Values-insert : (k : ℕ) (v : V) (d : Dict V) → P v → Values d → Values (insert k v d)
  Values-insert k v [] p h = (p, tt)
  Values-insert k v (x ∷ d) p h = elim (Bool-cases (k == x.0)) [
    | inl same ↦ rw same (p, h.1)
    | inr other ↦ rw other (h.0, Values-insert k v d p h.1)
  ]

module _ (new_id : ℕ → ℕ) where
  -- A new instance: its identifier is among the first `n` of the run, and it is pending.
  abbrev pub IsIssued : ℕ → ChoreInstance → Type 0
  IsIssued n c = (k : ℕ) × (k < n) × (c.id ≡ new_id k) × (c.status ≡ pending)

  abbrev pub IsDrawn : ChoreInstance → Type 0
  IsDrawn c = (k : ℕ) × (c.id ≡ new_id k)

  -- What the loops keep of the new instances, beside the rows that are there.
  pub record IsTracked (rows : List ChoreInstance) (b : Batch) : Type 0 where
    pub keyed : IsKeyed (λ c. c.id) (rows ++ b.added)
    pub issued : All (IsIssued (length b.added)) b.added
    pub drawn : All (λ g. All IsDrawn g.1) b.new_by_household

  IsIssued-later : (n : ℕ) (c : ChoreInstance) → IsIssued n c → IsIssued (n + 1) c
  IsIssued-later n c (k, lt, e, p) = (k, omega arith, e, p)

  append_to-drawn :
      (c : ChoreInstance) (o : Option (List ChoreInstance))
      → IsDrawn c
      → ((cs : List ChoreInstance) → o ≡ some cs → All IsDrawn cs)
      → All IsDrawn (append_to c o)
  append_to-drawn c none d h = (d, tt)
  append_to-drawn c (some cs) d h = All-snoc IsDrawn cs c (h cs refl) d

  module _ (now : ℕ) (distinct : IsFreshSource new_id) (rows : List ChoreInstance)
      (unused : (k : ℕ) → All (λ c. c.id ≢ new_id k) rows) where
    add_due-IsTracked :
        (d : ChoreDefinition) (x : ℕ) (b : Batch)
        → IsTracked rows b
        → IsTracked rows (add_due new_id now d x b)
    unfolding add_due
    add_due-IsTracked d x b h = elim (Bool-cases (has_pair d.id x b.existing_pairs)) [
      | inl old ↦ rw old h
      | inr fresh ↦ rw fresh grown
    ]
      where
        n : ℕ
        n = length b.added

        c : ChoreInstance
        c = generated d x (new_id n) now

        others : All (λ r. r.id ≢ new_id n) (rows ++ b.added)
        others =
            All-append (λ r. r.id ≢ new_id n) rows b.added (unused n)
              (All-map
                (λ r (k, lt, e, p) same.
                  let q = distinct k n (sym e ∙ same) in absurd (omega arith))
                b.added h.issued)

        longer : length (b.added ++ c ∷ []) ≡ n + 1
        longer = length-append b.added (c ∷ [])

        grown : IsTracked rows (record {
          existing_pairs = (d.id, x) ∷ b.existing_pairs;
          added = b.added ++ c ∷ [];
          new_by_household = add_to_household d.household_id c b.new_by_household;
        })
        grown = record {
          keyed = rw append_assoc at (IsKeyed-snoc (λ r. r.id) (rows ++ b.added) c h.keyed others);
          issued = rw longer (
              All-snoc (IsIssued (n + 1)) b.added c
                (All-map (λ r i. IsIssued-later n r i) b.added h.issued)
                (n, omega arith, refl, refl));
          drawn =
              Values-insert (All IsDrawn) d.household_id
                (append_to c (lookup d.household_id b.new_by_household)) b.new_by_household
                (append_to-drawn c (lookup d.household_id b.new_by_household) (n, refl)
                  (λ cs e. Values-lookup (All IsDrawn) d.household_id b.new_by_household h.drawn e))
                h.drawn;
        }

    add_dues-IsTracked :
        (d : ChoreDefinition) (xs : List ℕ) (b : Batch)
        → IsTracked rows b
        → IsTracked rows (add_dues new_id now d xs b)
    unfolding add_dues
    add_dues-IsTracked d [] b h = h
    add_dues-IsTracked d (x ∷ xs) b h =
        add_dues-IsTracked d xs (add_due new_id now d x b) (add_due-IsTracked d x b h)

    pub add_definitions-IsTracked :
        (add_months : ℕ → ℕ → ℕ) (horizon floor : ℕ) (ds : List ChoreDefinition) (b : Batch)
        → IsTracked rows b
        → IsTracked rows (add_definitions new_id now add_months horizon floor ds b)
    unfolding add_definitions
    add_definitions-IsTracked add_months horizon floor [] b h = h
    add_definitions-IsTracked add_months horizon floor (d ∷ ds) b h =
        let dates = dates_of new_id now add_months horizon floor d d.recurrence_rule in
        add_definitions-IsTracked add_months horizon floor ds (add_dues new_id now d dates b)
          (add_dues-IsTracked d dates b h)

-- ===== src/Redistribution/Writes.antt =====
-- backend/app/services/redistribution.py: what the loops over the assignments write on one row.
use chore_app.Base.{
  ℕ, ◌+◌, ◌≡◌, refl, ap, Bool, true, false, ◌&&◌, ◌||◌, Option, none, List, [], ◌∷◌, map, arith,
  ◌==◌, if◌then◌else◌, Bool-cases, inl, inr, any, update_where, Dict, insert, All,
}
use chore_app.Models.{ChoreInstance}
use chore_app.Assignment.{pick, cycle}
use chore_app.Redistribution.{set_assignee, with_assignee, write_assignees, clear_assignees}

-- Is there an entry with this key?
abbrev pub has_key : ℕ → Dict (Option ℕ) → Bool
has_key i = any (λ e. e.0 == i)

abbrev pub contains : ℕ → List ℕ → Bool
contains i = any (λ c. c == i)

-- The entries of a dict satisfy `P`, whatever their keys.
abbrev pub Values : (Option ℕ → Type 0) → Dict (Option ℕ) → Type 0
Values P = All (λ e. P e.1)

has_key-insert :
    (i k : ℕ) (v : Option ℕ) (d : Dict (Option ℕ))
    → has_key i (insert k v d) ≡ (k == i || has_key i d)
has_key-insert i k v [] = ground arith
has_key-insert i k v (e ∷ d) = ground (arith, has_key-insert i k v d)

Values-insert :
    (P : Option ℕ → Type 0) (k : ℕ) (v : Option ℕ) (d : Dict (Option ℕ))
    → P v
    → Values P d
    → Values P (insert k v d)
Values-insert P k v [] pv h = (pv, tt)
Values-insert P k v (e ∷ d) pv h =
    elim (k == e.0) as (λ b. Values P (if b then (k, v) ∷ d else e ∷ insert k v d)) [
      | true ↦ (pv, h.1)
      | false ↦ (h.0, Values-insert P k v d pv h.1)
    ]

-- The loop of the bulk assignment enters every chore.
pub has_key-cycle :
    (i : ℕ) (ids : List ℕ) (d : Dict (Option ℕ)) (p : ℕ) (cids : List ℕ)
    → has_key i (cycle ids d p cids).0 ≡ (contains i cids || has_key i d)
unfolding cycle
has_key-cycle i ids d p [] = refl
has_key-cycle i ids d p (cid ∷ cids) = ground (
  arith,
  has_key-cycle i ids (insert cid (pick ids p) d) (p + 1) cids,
  has_key-insert i cid (pick ids p) d,
)

pub Values-cycle :
    (P : Option ℕ → Type 0) (ids : List ℕ) (d : Dict (Option ℕ)) (p : ℕ) (cids : List ℕ)
    → ((q : ℕ) → P (pick ids q))
    → Values P d
    → Values P (cycle ids d p cids).0
unfolding cycle
Values-cycle P ids d p [] picked h = h
Values-cycle P ids d p (cid ∷ cids) picked h =
    Values-cycle P ids (insert cid (pick ids p) d) (p + 1) cids picked
      (Values-insert P cid (pick ids p) d (picked p) h)

-- What the loop over the assignments makes of one row.
unfoldable pub row_writes : List ℕ → Dict (Option ℕ) → ChoreInstance → ChoreInstance
row_writes ids [] c = c
row_writes ids (e ∷ d) c =
    row_writes ids d (if contains e.0 ids && c.id == e.0 then set_assignee e.1 c else c)

update-map :
    (p : ChoreInstance → Bool) (f : ChoreInstance → ChoreInstance) (l : List ChoreInstance)
    → update_where p f l ≡ map (λ c. if p c then f c else c) l
update-map p f [] = refl
update-map p f (c ∷ l) = ap (◌∷◌ (if p c then f c else c)) (update-map p f l)

pub write-nil : (ids : List ℕ) (d : Dict (Option ℕ)) → write_assignees ids d [] ≡ []
unfolding write_assignees
write-nil ids [] = refl
write-nil ids (e ∷ d) = ground (arith, write-nil ids d)

pub write-cons :
    (ids : List ℕ) (d : Dict (Option ℕ)) (c : ChoreInstance) (l : List ChoreInstance)
    → write_assignees ids d (c ∷ l) ≡ row_writes ids d c ∷ write_assignees ids d l
unfolding write_assignees row_writes
write-cons ids [] c l = refl
write-cons ids (e ∷ d) c l = elim (Bool-cases (contains e.0 ids)) [
  | inl known ↦
      rw known
        (write-cons ids d (if c.id == e.0 then set_assignee e.1 c else c) (with_assignee e.0 e.1 l))
  | inr unknown ↦ rw unknown (write-cons ids d c l)
]

-- What the loop that clears makes of one row.
unfoldable pub row_clears : List ℕ → ChoreInstance → ChoreInstance
row_clears [] c = c
row_clears (cid ∷ cids) c = row_clears cids (if c.id == cid then set_assignee none c else c)

pub clear-nil : (cids : List ℕ) → clear_assignees cids [] ≡ []
unfolding clear_assignees
clear-nil [] = refl
clear-nil (cid ∷ cids) = clear-nil cids

pub clear-cons :
    (cids : List ℕ) (c : ChoreInstance) (l : List ChoreInstance)
    → clear_assignees cids (c ∷ l) ≡ row_clears cids c ∷ clear_assignees cids l
unfolding clear_assignees row_clears
clear-cons [] c l = refl
clear-cons (cid ∷ cids) c l =
    clear-cons cids (if c.id == cid then set_assignee none c else c) (with_assignee cid none l)

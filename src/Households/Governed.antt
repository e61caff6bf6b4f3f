-- ===== src/Households/Governed.antt =====
-- The requests to backend/app/api that make, change or end memberships, and the admins of a
-- household.
use chore_app.Base.{
  ℕ, ◌≤◌, ◌≡◌, refl, ◌∙◌, ◌≢◌, ◌⊎◌, inl, inr, Bool, true, false, ◌||◌, List, [], ◌∷◌, ◌++◌, map,
  arith, ◌==◌, Bool-cases, filter, count, any, update_where, All, IsKeyed, map-key-update_where,
  count-append, IsKeyed-snoc,
}
use chore_app.Models.{HouseholdMembership, Database, is_active_of, is_active_admin_in}
use chore_app.Households.Seats.{IsStepDown, Reseats}

-- The household is gone, or has an active admin.
abbrev pub IsLed : ℕ → List HouseholdMembership → List ℕ → Type 0
IsLed k ms hs = (any (λ i. i == k) hs ≡ false) ⊎ (1 ≤ count (is_active_admin_in k) ms)

-- The memberships and the identifiers of the households: the keys are distinct, nobody is an active
-- member of the household twice, and the household is gone or has an active admin.
pub record IsGoverned (k : ℕ) (ms : List HouseholdMembership) (hs : List ℕ) : Type 0 where
  pub keyed : IsKeyed (λ m. m.id) ms
  pub single : (uid : ℕ) → count (is_active_of k uid) ms ≤ 1
  pub led : IsLed k ms hs

abbrev pub Governed : ℕ → Database → Type 0
Governed k db = IsGoverned k db.memberships (map (λ h. h.id) db.households)

count-le-update :
    {A : Type 0} (q p : A → Bool) (f : A → A) (l : List A)
    → ((x : A) → q (f x) ≡ true → q x ≡ true)
    → count q (update_where p f l) ≤ count q l
count-le-update q p f [] h = omega arith
count-le-update q p f (x ∷ l) h = ground (arith, h x, count-le-update q p f l h)

count-filter-le : {A : Type 0} (q p : A → Bool) (l : List A) → count q (filter p l) ≤ count q l
count-filter-le q p [] = omega arith
count-filter-le q p (x ∷ l) = ground (arith, count-filter-le q p l)

absent-filter :
    (p : HouseholdMembership → Bool) (i : ℕ) (l : List HouseholdMembership)
    → All (λ j. j ≢ i) (map (λ m. m.id) l)
    → All (λ j. j ≢ i) (map (λ m. m.id) (filter p l))
absent-filter p i [] h = tt
absent-filter p i (x ∷ l) h = elim (Bool-cases (p x)) [
  | inl kept ↦ rw kept (h.0, absent-filter p i l h.1)
  | inr left ↦ rw left (absent-filter p i l h.1)
]

IsKeyed-filter :
    (p : HouseholdMembership → Bool) (l : List HouseholdMembership)
    → IsKeyed (λ m. m.id) l
    → IsKeyed (λ m. m.id) (filter p l)
IsKeyed-filter p [] h = tt
IsKeyed-filter p (x ∷ l) h = elim (Bool-cases (p x)) [
  | inl kept ↦ rw kept (absent-filter p x.id l h.0, IsKeyed-filter p l h.1)
  | inr left ↦ rw left (IsKeyed-filter p l h.1)
]

-- The memberships after requests that make nobody a member.
pub record Thins (ms after : List HouseholdMembership) : Type 0 where
  pub keyed : IsKeyed (λ m. m.id) ms → IsKeyed (λ m. m.id) after
  pub fewer : (k uid : ℕ) → count (is_active_of k uid) after ≤ count (is_active_of k uid) ms

pub Thins-refl : (ms : List HouseholdMembership) → Thins ms ms
Thins-refl ms = record { keyed = λ h. h; fewer = λ k uid. omega arith }

pub Thins-trans : {l m n : List HouseholdMembership} → Thins l m → Thins m n → Thins l n
Thins-trans a b = record {
  keyed = λ h. b.keyed (a.keyed h);
  fewer = λ k uid. omega (arith, a.fewer k uid, b.fewer k uid);
}

pub Thins-filter :
    (p : HouseholdMembership → Bool) (ms : List HouseholdMembership) → Thins ms (filter p ms)
Thins-filter p ms = record {
  keyed = IsKeyed-filter p ms;
  fewer = λ k uid. count-filter-le (is_active_of k uid) p ms;
}

pub Thins-update :
    (t : ℕ) (f : HouseholdMembership → HouseholdMembership) (ms : List HouseholdMembership)
    → IsStepDown f
    → Thins ms (update_where (λ m. m.id == t) f ms)
Thins-update t f ms down = record {
  keyed = λ h. rw (map-key-update_where (λ m. m.id) (λ m. m.id == t) f ms down.same_key) h;
  fewer = λ k uid. count-le-update (is_active_of k uid) (λ m. m.id == t) f ms (down.no_new k uid);
}

pub thinned-IsGoverned :
    (k : ℕ) {ms left : List HouseholdMembership} {hs after : List ℕ}
    → Thins ms left
    → IsLed k left after
    → IsGoverned k ms hs
    → IsGoverned k left after
thinned-IsGoverned k thins led g = record {
  keyed = thins.keyed g.keyed;
  single = λ uid. omega (arith, g.single uid, thins.fewer k uid);
  led = led;
}

-- What a change of one membership, or none, leaves, if it leaves an admin where there was one.
pub Reseats-Governed :
    (k : ℕ) (db after : Database)
    → Reseats db after
    → (1 ≤ count (is_active_admin_in k) db.memberships
        → 1 ≤ count (is_active_admin_in k) after.memberships)
    → Governed k db
    → Governed k after
Reseats-Governed k db after r admins g = thinned-IsGoverned k thins led g
  where
    thins : Thins db.memberships after.memberships
    thins = elim r.memberships [
      | inl same ↦ rw same (Thins-refl db.memberships)
      | inr (t, f, down, changed) ↦ rw changed (Thins-update t f db.memberships down)
    ]

    led : IsLed k after.memberships (map (λ h. h.id) after.households)
    led = elim g.led [
      | inl gone ↦ inl (rw r.households gone)
      | inr some_admin ↦ inr (admins some_admin)
    ]

any-append :
    (k : ℕ) (l m : List ℕ)
    → any (λ i. i == k) (l ++ m) ≡ (any (λ i. i == k) l || any (λ i. i == k) m)
any-append k [] m = refl
any-append k (x ∷ l) m = ground (arith, any-append k l m)

-- A membership that is added, by someone who is no active member of its household; a household that
-- is added comes with an admin.
module _ (k : ℕ) (ms : List HouseholdMembership) (hs new : List ℕ) (m : HouseholdMembership)
    (fresh : All (λ x. x.id ≢ m.id) ms)
    (first : count (is_active_of m.household_id m.user_id) ms ≡ 0)
    (arrives : (any (λ i. i == k) new ≡ false) ⊎ (is_active_admin_in k m ≡ true))
    (g : IsGoverned k ms hs) where
  added-single : (uid : ℕ) → count (is_active_of k uid) (ms ++ m ∷ []) ≤ 1
  added-single uid = elim (Bool-cases (is_active_of k uid m)) [
    | inl theirs ↦
        let e : m.household_id ≡ k = ground arith in
        let f : m.user_id ≡ uid = ground arith in
        omega (arith, count-append (is_active_of k uid) ms (m ∷ []), rw (e, f) at first, one)
    | inr other ↦
        rw (count-append (is_active_of k uid) ms (m ∷ []), other) (omega (arith, g.single uid))
  ]
    where
      one : count (is_active_of k uid) (m ∷ []) ≤ 1
      one = ground arith

  added-IsLed : IsLed k (ms ++ m ∷ []) (hs ++ new)
  added-IsLed =
      let c = count-append (is_active_admin_in k) ms (m ∷ []) in
      elim arrives [
        | inr leader ↦ inr (rw (c, leader) (omega arith))
        | inl elsewhere ↦ elim g.led [
          | inl gone ↦ inl (any-append k hs new ∙ rw (gone, elsewhere) refl)
          | inr some_admin ↦ inr (omega (arith, c, some_admin))
        ]
      ]

  pub added-IsGoverned : IsGoverned k (ms ++ m ∷ []) (hs ++ new)
  added-IsGoverned = record {
    keyed = IsKeyed-snoc (λ x. x.id) ms m g.keyed fresh;
    single = added-single;
    led = added-IsLed;
  }

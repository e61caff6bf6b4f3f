-- ===== src/Invites/Single.antt =====
-- backend/app/api/invites.py: the live invites of a household, and an invite that was accepted.
use chore_app.Base.{
  ℕ, ◌+◌, ◌≤◌, ◌<◌, String, ◌≡◌, refl, sym, ap, ◌∙◌, ◌⊎◌, inl, inr, true, false, some, List, [],
  ◌∷◌, ◌++◌, arith, ◌==◌, ==_refl, same_text, Bool-cases, if◌then◌else◌, filter, count,
  update_where, All, count-append, count-zero, filter-updated,
}
use chore_app.Models.{Household, HouseholdMembership, InviteToken, Database, is_active_of}
use chore_app.Session.{Session, Error, ok, err, conflict, gone, multiple_results, no_result, get_db}
use chore_app.Session.Outcomes.{begin}
use chore_app.Deps.Outcomes.{require_admin-Checks}
use chore_app.Households.{HouseholdResponse}
use chore_app.Invites.{
  is_live, expire, InviteResponse, new_invite, create_invite, is_refused, invite_rows, joined,
  use_invite, join_household, accept_invite,
}

none_live :
    (hid checked expired t : ℕ) (l : List InviteToken)
    → checked ≤ t
    → expired ≤ t
    → All (λ i. is_live hid t i ≡ false) (update_where (is_live hid checked) (expire expired) l)
none_live hid checked expired t [] h k = tt
none_live hid checked expired t (i ∷ l) h k = (dead, none_live hid checked expired t l h k)
  where
    dead : is_live hid t (if is_live hid checked i then expire expired i else i) ≡ false
    dead = elim (Bool-cases (is_live hid checked i)) [
      | inl live ↦ rw live (ground arith)
      | inr e ↦ rw e (ground arith)
    ]

-- After an admin has created an invite, exactly one invite of the household is live at every time
-- from the readings of the clock in the request until the new one expires, `ttl` after the first:
-- the earlier ones are expired.
pub create_invite-one_live :
    (base : String) (hid uid : ℕ) (token : String) (iid ttl start checked expired now t : ℕ)
    (db after : Database) (a : InviteResponse)
    → get_db (create_invite base hid uid token iid ttl start checked expired now) db ≡ (ok a, after)
    → checked ≤ t
    → expired ≤ t
    → t < start + ttl
    → count (is_live hid t) after.invites ≡ 1
unfolding get_db create_invite
create_invite-one_live base hid uid token iid ttl start checked expired now t db after a h c e u =
    elim (require_admin-Checks hid uid (begin db)) [
      | inl (x, refused) ↦ cc (rw refused at h)
      | inr (m, granted, _) ↦
          let w : after.invites
              ≡ update_where (is_live hid checked) (expire expired) db.invites
                ++ new_invite hid uid token iid (start + ttl) now ∷ [] =
            ap (λ r. r.1.invites) (sym (rw granted at h)) in
          rw w (
            count-append (is_live hid t)
              (update_where (is_live hid checked) (expire expired) db.invites)
              (new_invite hid uid token iid (start + ttl) now ∷ [])
            ∙ rw
                (count-zero (is_live hid t)
                  (update_where (is_live hid checked) (expire expired) db.invites)
                  (none_live hid checked expired t db.invites c e))
                (ground (arith, ==_refl hid)))
    ]

-- The rows after an invite is used.
abbrev pub after_joining : InviteToken → ℕ → ℕ → ℕ → ℕ → Database → Database
after_joining i uid mid now made db = record db {
  memberships = db.memberships ++ joined i.household_id uid mid now made ∷ [];
  invites = update_where (λ r. r.id == i.id) (use_invite now) db.invites;
}

-- What the rest of the request does: it fails, with what was committed untouched, or the user, who
-- had no active membership of the household, has one.
abbrev JoinResult : InviteToken → ℕ → ℕ → ℕ → ℕ → Session → Type 0
JoinResult i uid mid now made s =
    ((e : Error) × ((join_household i uid mid now made s).0 ≡ err e)
      × ((join_household i uid mid now made s).1.committed ≡ s.committed))
    ⊎ ((a : HouseholdResponse) × (join_household i uid mid now made s
          ≡ (ok a, record s { working = after_joining i uid mid now made s.working }))
        × (filter (is_active_of i.household_id uid) s.working.memberships ≡ []))

join_outcome :
    (i : InviteToken) (uid mid now made : ℕ) (s : Session) → JoinResult i uid mid now made s
unfolding join_household
join_outcome i uid mid now made s =
    go (filter (is_active_of i.household_id uid) s.working.memberships) refl
      (filter (λ h. h.id == i.household_id) s.working.households) refl
  where
    go :
        (ms : List HouseholdMembership)
        → filter (is_active_of i.household_id uid) s.working.memberships ≡ ms
        → (hs : List Household) → filter (λ h. h.id == i.household_id) s.working.households ≡ hs
        → JoinResult i uid mid now made s
    go (m ∷ []) e hs e' = inl (conflict, rw e refl, rw e refl)
    go (m ∷ k ∷ l) e hs e' = inl (multiple_results, rw e refl, rw e refl)
    go [] e [] e' = inl (no_result, rw (e, e') refl, rw (e, e') refl)
    go [] e (h ∷ []) e' =
        inr (record { id = h.id; name = h.name; created_at = h.created_at }, rw (e, e') refl, e)
    go [] e (h ∷ k ∷ l) e' = inl (multiple_results, rw (e, e') refl, rw (e, e') refl)

-- What an accepted request has found and written.
record Accepted (token : String) (uid mid now made : ℕ) (db after : Database) : Type 0 where
  invite : InviteToken
  found : invite_rows token db ≡ invite ∷ []
  good : is_refused now (some invite) ≡ false
  result : after ≡ after_joining invite uid mid now made db

accept_outcome :
    (token : String) (uid mid now made : ℕ) (db after : Database) (a : HouseholdResponse)
    → get_db (accept_invite token uid mid now made) db ≡ (ok a, after)
    → Accepted token uid mid now made db after
unfolding get_db accept_invite
accept_outcome token uid mid now made db after a h = go (invite_rows token db) refl
  where
    go :
        (rows : List InviteToken)
        → invite_rows token db ≡ rows
        → Accepted token uid mid now made db after
    go [] e = absurd (cc (rw e at h))
    go (i ∷ k ∷ l) e = absurd (cc (rw e at h))
    go (i ∷ []) e = elim (Bool-cases (is_refused now (some i))) [
      | inl bad ↦ absurd (cc (rw (e, bad) at h))
      | inr good ↦ elim (join_outcome i uid mid now made (begin db)) [
        | inl (x, failed, _) ↦ absurd (cc (rw (e, good, failed) at h))
        | inr (b, done, _) ↦ record {
          invite = i;
          found = e;
          good = good;
          result = ap (λ r. r.1) (sym (rw (e, good, done) at h));
        }
      ]
    ]

-- A request with a token leaves the rows as they are, or the user, who had no active membership of
-- the invite's household, has a fresh one.
pub accept_invite-Joins :
    (token : String) (uid mid now made : ℕ) (db : Database)
    → ((get_db (accept_invite token uid mid now made) db).1 ≡ db)
      ⊎ ((i : InviteToken) × ((get_db (accept_invite token uid mid now made) db).1
            ≡ after_joining i uid mid now made db)
          × (filter (is_active_of i.household_id uid) db.memberships ≡ []))
unfolding get_db accept_invite
accept_invite-Joins token uid mid now made db = go (invite_rows token db) refl
  where
    go :
        (rows : List InviteToken)
        → invite_rows token db ≡ rows
        → ((get_db (accept_invite token uid mid now made) db).1 ≡ db)
          ⊎ ((i : InviteToken) × ((get_db (accept_invite token uid mid now made) db).1
                ≡ after_joining i uid mid now made db)
              × (filter (is_active_of i.household_id uid) db.memberships ≡ []))
    go [] e = inl (rw e refl)
    go (i ∷ k ∷ l) e = inl (rw e refl)
    go (i ∷ []) e = elim (Bool-cases (is_refused now (some i))) [
      | inl bad ↦ inl (rw (e, bad) refl)
      | inr good ↦ elim (join_outcome i uid mid now made (begin db)) [
        | inl (x, failed, same) ↦ inl (rw (e, good, failed) same)
        | inr (b, done, first) ↦ inr (i, rw (e, good, done) refl, first)
      ]
    ]

-- An invite that was accepted admits nobody else: a later request with the token, by any user and
-- at any time, is answered with 410 and changes nothing.
pub accept_invite-once :
    (token : String) (uid mid now made uid' mid' now' made' : ℕ) (db after : Database)
    (a : HouseholdResponse)
    → get_db (accept_invite token uid mid now made) db ≡ (ok a, after)
    → get_db (accept_invite token uid' mid' now' made') after ≡ (err gone, after)
unfolding get_db accept_invite
accept_invite-once token uid mid now made uid' mid' now' made' db after a h =
    let o = accept_outcome token uid mid now made db after a h in
    let used : invite_rows token after ≡ use_invite now o.invite ∷ [] = rw (o.result) (
      filter-updated (λ i. same_text i.token token) (λ i. i.id == o.invite.id) (use_invite now)
        db.invites (λ i. refl)
      ∙ rw (o.found, ==_refl o.invite.id) refl) in
    rw (used, late o.invite) refl
  where
    late : (i : InviteToken) → is_refused now' (some (use_invite now i)) ≡ true
    late i = ground arith

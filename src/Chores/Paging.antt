-- ===== src/Chores/Paging.antt =====
-- backend/app/api/chores.py: the pages of `list_chores`.
use mathlib.Core.List.{Perm, map-append}
use mathlib.Core.List.Perm
use chore_app.Base.{
  ℕ, ◌+◌, ◌*◌, ◌-◌, zero, suc, ◌≤◌, ◌≡◌, refl, sym, ap, ◌∙◌, inl, inr, List, [], ◌∷◌, ◌++◌, map,
  length, filter, count, leb, if◌then◌else◌, for_each, page, pages, pages_all, length-page,
  length-map,
}
use chore_app.Models.{HouseholdMembership, Database}
use chore_app.Session.{Session, Result, ok, err}
use chore_app.Engine.{Engine, IsNewestFirst}
use chore_app.Engine.Orders.{IsSortedBy-map, length-perm, length-filter}
use chore_app.Deps.{require_household_member}
use chore_app.Deps.Outcomes.{Checks, own_rows, require_household_member-Checks}
use chore_app.Chores.Responses.{ChoreInstanceResponse, instance_response_from_row}
use chore_app.Chores.Wanted.{IsUnambiguous, is_wanted, ids_of_rows, counted_rows_lem}
use chore_app.Chores.Listing.{
  ChoreFilters, fits_instance, ChoreRow, counted_rows, data_rows, row_response,
  PaginatedChoreResponse, ordered_rows, list_chores,
}

-- The items of an answer.
abbrev pub items_of : Result PaginatedChoreResponse → List ChoreInstanceResponse
items_of (ok r) = r.items
items_of (err e) = []

module _ (engine : Engine) (hid : ℕ) (q : ChoreFilters) (limit uid : ℕ) (s : Session) where
  -- The items of `number` requests, the offset of each the end of the page before.
  abbrev pub pages_from : ℕ → ℕ → List ChoreInstanceResponse
  pages_from zero offset = []
  pages_from (suc number) offset =
      items_of (list_chores engine hid q limit offset uid s).0 ++ pages_from number (offset + limit)

  module _ (m : HouseholdMembership)
      (granted : require_household_member hid uid s ≡ (ok m, s)) where
    pages_from_lem :
        (number offset : ℕ)
        → pages_from number offset
          ≡ map row_response (pages limit number offset (ordered_rows engine hid q s.working))
    unfolding list_chores
    pages_from_lem zero offset = refl
    pages_from_lem (suc number) offset =
        rw (granted, pages_from_lem number (offset + limit))
          (sym (
            map-append row_response (page limit offset (ordered_rows engine hid q s.working))
              (pages limit number (offset + limit) (ordered_rows engine hid q s.working))))

granted :
    (hid uid : ℕ) (s : Session) {m : HouseholdMembership}
    → own_rows hid uid s ≡ m ∷ []
    → require_household_member hid uid s ≡ (ok m, s)
unfolding require_household_member
granted hid uid s own = rw own refl

module _ (engine : Engine) (hid : ℕ) (q : ChoreFilters) (db : Database)
    (clear : IsUnambiguous db db.instances) where
  abbrev joined : List ChoreRow
  joined = for_each (filter (fits_instance hid q) db.instances) (data_rows q db)

  ordered-perm : Perm (ordered_rows engine hid q db) joined
  unfolding ordered_rows
  ordered-perm = engine.newest-perm ChoreRow (λ r. (r.chore).created_at) (λ r. (r.chore).id) joined

  length-ordered : length (ordered_rows engine hid q db) ≡ count (is_wanted hid q db) db.instances
  length-ordered =
      length-perm ordered-perm
      ∙ sym (length-map (λ r. (r.chore).id) joined)
      ∙ ap length (ids_of_rows hid q db db.instances clear)
      ∙ length-map (λ c. c.id) (filter (is_wanted hid q db) db.instances)
      ∙ length-filter (is_wanted hid q db) db.instances

  ids_of_responses :
      (l : List ChoreRow) → map (λ r. r.id) (map row_response l) ≡ map (λ r. (r.chore).id) l
  unfolding instance_response_from_row
  ids_of_responses [] = refl
  ids_of_responses (r ∷ l) = ap (λ x. (r.chore).id ∷ x) (ids_of_responses l)

  -- All the responses, in the order of the rows.
  abbrev responses : List ChoreInstanceResponse
  responses = map row_response (ordered_rows engine hid q db)

  responses-perm :
      Perm (map (λ r. r.id) responses) (map (λ c. c.id) (filter (is_wanted hid q db) db.instances))
  responses-perm =
      rw
        (ids_of_responses (ordered_rows engine hid q db), ← ids_of_rows hid q db db.instances clear)
        (Perm.map (λ r. (r.chore).id) ordered-perm)

  responses-IsNewestFirst : IsNewestFirst (λ r. r.created_at) (λ r. r.id) responses
  unfolding instance_response_from_row ordered_rows
  responses-IsNewestFirst =
      IsSortedBy-map row_response _ (ordered_rows engine hid q db) (
        engine.newest-IsNewestFirst ChoreRow (λ r. (r.chore).created_at) (λ r. (r.chore).id) joined)

-- Where the references of each instance are to at most one row, a member who asks for pages of one
-- size, one after the other with the same filters, and for enough of them, gets each instance of
-- the household that has the status and the assignee asked for, if any, and an active definition,
-- of the category asked for, if any, once, and no other, the newest first over all the pages;
-- instances created at the same time stand by descending identifier.
pub list_chores_pages :
    (engine : Engine) (hid : ℕ) (q : ChoreFilters) (limit uid number : ℕ) (s : Session)
    {m : HouseholdMembership}
    → own_rows hid uid s ≡ m ∷ []
    → IsUnambiguous s.working s.working.instances
    → count (is_wanted hid q s.working) s.working.instances ≤ number * limit
    → let answered = pages_from engine hid q limit uid s number 0 in
      IsNewestFirst (λ r. r.created_at) (λ r. r.id) answered
      × Perm
          (map (λ r. r.id) answered)
          (map (λ c. c.id) (filter (is_wanted hid q s.working) s.working.instances))
list_chores_pages engine hid q limit uid number s {m} own clear enough = rw whole (
  responses-IsNewestFirst engine hid q s.working clear,
  responses-perm engine hid q s.working clear,
)
  where
    whole :
        pages_from engine hid q limit uid s number 0
        ≡ map row_response (ordered_rows engine hid q s.working)
    whole =
        pages_from_lem engine hid q limit uid s m (granted hid uid s own) number 0
        ∙ ap (map row_response) (
            pages_all limit number (ordered_rows engine hid q s.working)
              (rw (length-ordered engine hid q s.working clear) enough))

-- Where the references of each instance are to at most one row, a request for a page changes
-- nothing, and it is refused or counts in `total` the instances of the household that have the
-- status and the assignee asked for, if any, and an active definition, of the category asked for,
-- if any, and answers `limit` items, or as many as are left after the offset.
pub list_chores_bounds :
    (engine : Engine) (hid : ℕ) (q : ChoreFilters) (limit offset uid : ℕ) (s : Session)
    → IsUnambiguous s.working s.working.instances
    → Checks (list_chores engine hid q limit offset uid) s (λ r.
      (r.total ≡ count (is_wanted hid q s.working) s.working.instances)
      × (length r.items ≡ (if leb limit (r.total - offset) then limit else r.total - offset)))
unfolding list_chores
list_chores_bounds engine hid q limit offset uid s clear =
    elim (require_household_member-Checks hid uid s) [
      | inl (x, refused) ↦ inl (x, rw refused refl)
      | inr (m, allowed, _) ↦ inr (
        record {
          items = map row_response (page limit offset (ordered_rows engine hid q s.working));
          total = length (
              for_each (filter (fits_instance hid q) s.working.instances)
                (counted_rows q s.working));
          limit = limit;
          offset = offset;
        },
        rw allowed refl,
        (
          counted_rows_lem hid q s.working s.working.instances clear,
          length-map row_response (page limit offset (ordered_rows engine hid q s.working))
              ∙ length-page limit offset (ordered_rows engine hid q s.working)
              ∙ rw
                  (
                    length-ordered engine hid q s.working clear,
                    counted_rows_lem hid q s.working s.working.instances clear,
                  )
                  refl,
        ),
      )
    ]

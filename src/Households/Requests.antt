-- ===== src/Households/Requests.antt =====
-- The requests to backend/app/api that make, change or end memberships, served one after the other.
use chore_app.Base.{ℕ, ◌≢◌, String, All}
use chore_app.Models.{Role, User, Database}
use chore_app.Session.{get_db}
use chore_app.Engine.{Engine}
use chore_app.Security.{Crypto}
use chore_app.Households.{create_household, delete_household}
use chore_app.Households.Seats.{
  remove_member-Reseats, leave_household-Reseats, update_member_role-Reseats,
}
use chore_app.Households.Governed.{Governed, Reseats-Governed}
use chore_app.Invites.{accept_invite}
use chore_app.Members.{remove_member, update_member_role, leave_household}
use chore_app.Members.Admins.{
  remove_member-IsGuarded, leave_household-IsGuarded, update_member_role-IsGuarded,
}
use chore_app.Accounts.{delete_account}
use chore_app.Households.Entries.{create-Governed, accept-Governed}
use chore_app.Households.Departures.{delete-Governed, delete_me-Governed}

-- A request, with the caller's identity, the identifiers that are drawn, and what the clock shows.
pub data Call : Type 0 where
  create : (name : String) (cur hid mid joined_at now : ℕ) → Call
  delete : (hid : ℕ) (confirm : String) (cur : ℕ) → Call
  accept : (token : String) (cur mid now made : ℕ) → Call
  remove : (hid uid cur : ℕ) → Call
  update_role : (hid uid : ℕ) (role : Role) (cur : ℕ) → Call
  leave : (hid cur : ℕ) → Call
  delete_me : (password : String) (user : User) (now : ℕ) → Call

-- The identifiers that are drawn are on no row, and no membership is in the new household.
unfoldable pub IsFresh : Call → Database → Type 0
IsFresh (create name cur hid mid joined_at now) db =
    All (λ m. m.id ≢ mid) db.memberships × All (λ m. m.household_id ≢ hid) db.memberships
IsFresh (accept token cur mid now made) db = All (λ m. m.id ≢ mid) db.memberships
IsFresh (delete hid confirm cur) db = Unit
IsFresh (remove hid uid cur) db = Unit
IsFresh (update_role hid uid role cur) db = Unit
IsFresh (leave hid cur) db = Unit
IsFresh (delete_me password user now) db = Unit

module _ (engine : Engine) (crypto : Crypto) where
  -- The database after one request.
  unfoldable pub serve : Call → Database → Database
  serve (create name cur hid mid joined_at now) db =
      (get_db (create_household name cur hid mid joined_at now) db).1
  serve (delete hid confirm cur) db = (get_db (delete_household hid confirm cur) db).1
  serve (accept token cur mid now made) db = (get_db (accept_invite token cur mid now made) db).1
  serve (remove hid uid cur) db = (get_db (remove_member engine hid uid cur) db).1
  serve (update_role hid uid role cur) db = (get_db (update_member_role hid uid role cur) db).1
  serve (leave hid cur) db = (get_db (leave_household engine hid cur) db).1
  serve (delete_me password user now) db =
      (get_db (delete_account engine crypto password user now) db).1

  -- The databases that requests lead to, each in its own transaction.
  pub data Run : Database → Database → Type 0 where
    done : {db : Database} → Run db db
    next :
        {db after : Database} (call : Call)
        → IsFresh call db
        → Run (serve call db) after
        → Run db after

serve-Governed :
    (engine : Engine) (crypto : Crypto) (call : Call) (k : ℕ) (db : Database)
    → IsFresh call db
    → Governed k db
    → Governed k (serve engine crypto call db)
unfolding serve IsFresh
serve-Governed engine crypto (create name cur hid mid joined_at now) k db fresh g =
    create-Governed name cur hid mid joined_at now k db fresh.0 fresh.1 g
serve-Governed engine crypto (delete hid confirm cur) k db fresh g =
    delete-Governed hid confirm cur k db g
serve-Governed engine crypto (accept token cur mid now made) k db fresh g =
    accept-Governed token cur mid now made k db fresh g
serve-Governed engine crypto (remove hid uid cur) k db fresh g =
    Reseats-Governed k db _ (remove_member-Reseats engine hid uid cur db)
      (λ a. (remove_member-IsGuarded engine hid uid cur k db (g.keyed, a)).1) g
serve-Governed engine crypto (update_role hid uid role cur) k db fresh g =
    Reseats-Governed k db _ (update_member_role-Reseats hid uid role cur db)
      (λ a. (update_member_role-IsGuarded engine hid uid role cur k db (g.keyed, a)).1) g
serve-Governed engine crypto (leave hid cur) k db fresh g =
    Reseats-Governed k db _ (leave_household-Reseats engine hid cur db)
      (λ a. (leave_household-IsGuarded engine hid cur k db (g.keyed, a)).1) g
serve-Governed engine crypto (delete_me password user now) k db fresh g =
    delete_me-Governed engine crypto password user now k db g

-- Requests that are served one after the other, which make households, join them by an invite,
-- remove members, change roles, leave, delete households and delete accounts, by any caller and
-- with any outcome, and which draw fresh identifiers, lead from a database where the keys of the
-- memberships are distinct, nobody is an active member of the household twice, and the household is
-- gone or has an active admin, to one where the same holds.
pub Run-Governed :
    (engine : Engine) (crypto : Crypto) (k : ℕ) {db after : Database}
    → Run engine crypto db after
    → Governed k db
    → Governed k after
Run-Governed engine crypto k done g = g
Run-Governed engine crypto k (next call fresh run) g =
    Run-Governed engine crypto k run (serve-Governed engine crypto call k _ fresh g)

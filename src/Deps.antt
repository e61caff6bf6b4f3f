-- ===== src/Deps.antt =====
-- backend/app/api/deps.py: the permission checks that run before a handler.
pub mod Outcomes
use chore_app.Base.{
  ℕ, String, Option, none, some, same_text, is_none, if◌then◌else◌, ◌==◌, not, filter, List,
}
use chore_app.Security.{Crypto, decode_access_token}
use chore_app.Models.{
  User, RevokedToken, Role, HouseholdMembership, Database, is_admin, is_active_of,
}
use chore_app.Session.{
  Action, unauthorized, forbidden, pure, raise_if, raise_if_none, ◌>>=◌, ◌>>◌, query,
  scalar_one_or_none,
}

-- `if jti:` and `if not user_id_str:` test for a text that is not empty.
abbrev pub non_empty : Option String → Option String
non_empty none = none
non_empty (some s) = if same_text s "" then none else some s

abbrev pub revoked_rows : String → Database → List RevokedToken
revoked_rows jti db = filter (λ t. same_text t.jti jti) db.revoked_tokens

-- The query for a revoked `jti`.
unfoldable pub refuse_revoked : Option String → Action (Unit {0})
refuse_revoked none = pure tt
refuse_revoked (some jti) = do
  rows ← query (revoked_rows jti)
  revoked ← scalar_one_or_none rows
  raise_if (not (is_none revoked)) unauthorized

-- `get_current_user`, at the time of decoding.
unfoldable pub get_current_user : (crypto : Crypto) → Option crypto.Jwt → ℕ → Action User
get_current_user crypto credentials now = do
  token ← raise_if_none unauthorized credentials
  payload ← raise_if_none unauthorized (decode_access_token crypto now token)
  refuse_revoked (non_empty payload.jti)
  user_id_str ← raise_if_none unauthorized (non_empty payload.sub)
  user_id ← raise_if_none unauthorized (crypto.uuid user_id_str)
  rows ← query (λ db. filter (λ u. u.id == user_id) db.users)
  user ← scalar_one_or_none rows
  raise_if_none unauthorized user

-- `require_household_member`, for the authenticated user.
unfoldable pub require_household_member : ℕ → ℕ → Action HouseholdMembership
require_household_member household_id current_user_id = do
  rows ← query (λ db. filter (is_active_of household_id current_user_id) db.memberships)
  membership ← scalar_one_or_none rows
  raise_if_none forbidden membership

-- `require_admin`, after `require_household_member`.
unfoldable pub require_admin : ℕ → ℕ → Action HouseholdMembership
require_admin household_id current_user_id = do
  membership ← require_household_member household_id current_user_id
  raise_if (not (is_admin membership.role)) forbidden
  pure membership

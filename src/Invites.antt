-- ===== src/Invites.antt =====
-- backend/app/api/invites.py: invite tokens and joining a household by one.
pub mod Single
use Prim.Native.String.{◌++◌ as append_text, slice}
use chore_app.Base.{
  ℕ, ◌+◌, String, Bool, true, false, ◌&&◌, ◌||◌, Option, none, some, List, [], ◌∷◌, ◌++◌, map, ltb,
  ◌==◌, same_text, is_none, not, filter, update_where,
}
use chore_app.Models.{Household, member, HouseholdMembership, InviteToken, Database, is_active_of}
use chore_app.Session.{
  Action, not_found, conflict, gone, pure, raise_if, raise_if_none, ◌>>=◌, ◌>>◌, query,
  scalar_one_or_none, scalar_one, write,
}
use chore_app.Engine.{Engine}
use chore_app.Households.{HouseholdResponse, household_response}
use chore_app.Deps.{require_admin}

-- An invite of the household that is neither used nor expired.
abbrev pub is_live : ℕ → ℕ → InviteToken → Bool
is_live household_id now i =
    i.household_id == household_id && is_none i.used_at && ltb now i.expires_at

abbrev pub expire : ℕ → InviteToken → InviteToken
expire now i = record i { expires_at = now }

-- `InviteResponse`
pub record InviteResponse : Type 0 where
  pub token : String
  pub invite_url : String
  pub expires_at : ℕ

-- `InviteTokenResponse`
pub record InviteTokenResponse : Type 0 where
  pub id : ℕ
  pub token_preview : String
  pub created_at : ℕ
  pub expires_at : ℕ

abbrev pub new_invite : ℕ → ℕ → String → ℕ → ℕ → ℕ → InviteToken
new_invite household_id current_user_id token invite_id expires_at created_at = record {
  id = invite_id;
  household_id = household_id;
  created_by_id = some current_user_id;
  token = token;
  expires_at = expires_at;
  used_at = none;
  created_at = created_at;
}

-- POST /households/{household_id}/invites. The base of the URL, the random token, the identifier,
-- the time to live and what the clock shows at each of its readings are arguments; `now` is the
-- time of the transaction, the database's own.
unfoldable pub create_invite :
    String → ℕ → ℕ → String → ℕ → ℕ → ℕ → ℕ → ℕ → ℕ → Action InviteResponse
create_invite app_base_url household_id current_user_id token invite_id ttl start checked expired
      now =
    do
      require_admin household_id current_user_id
      let expires_at = start + ttl
      write (λ db. record db {
        invites = update_where (is_live household_id checked) (expire expired) db.invites;
      })
      write (λ db. record db {
        invites =
            db.invites
            ++ new_invite household_id current_user_id token invite_id expires_at now ∷ [];
      })
      pure (record {
        token = token;
        invite_url = append_text app_base_url (append_text "/join/" token);
        expires_at = expires_at;
      })

-- The condition of the 410 answer.
abbrev pub is_refused : ℕ → Option InviteToken → Bool
is_refused now none = true
is_refused now (some invite) = ltb invite.expires_at now || not (is_none invite.used_at)

abbrev pub invite_rows : String → Database → List InviteToken
invite_rows token db = filter (λ i. same_text i.token token) db.invites

abbrev pub joined : ℕ → ℕ → ℕ → ℕ → ℕ → HouseholdMembership
joined household_id current_user_id membership_id now created_at = record {
  id = membership_id;
  household_id = household_id;
  user_id = current_user_id;
  role = member;
  joined_at = now;
  is_active = true;
  created_at = created_at;
}

abbrev pub use_invite : ℕ → InviteToken → InviteToken
use_invite now i = record i { used_at = some now }

-- The rest of `accept_invite` once the invite is good.
unfoldable pub join_household : InviteToken → ℕ → ℕ → ℕ → ℕ → Action HouseholdResponse
join_household invite current_user_id membership_id now created_at = do
  existing ← query (λ db. filter (is_active_of invite.household_id current_user_id) db.memberships)
  membership ← scalar_one_or_none existing
  raise_if (not (is_none membership)) conflict
  write (λ db. record db {
    memberships =
        db.memberships
        ++ joined invite.household_id current_user_id membership_id now created_at ∷ [];
  })
  write (λ db. record db {
    invites = update_where (λ i. i.id == invite.id) (use_invite now) db.invites;
  })
  rows ← query (λ db. filter (λ h. h.id == invite.household_id) db.households)
  household ← scalar_one rows
  pure (household_response household)

-- POST /invites/{token}/accept; `membership_id` is fresh, `created_at` the database's time.
unfoldable pub accept_invite : String → ℕ → ℕ → ℕ → ℕ → Action HouseholdResponse
accept_invite token current_user_id membership_id now created_at = do
  rows ← query (invite_rows token)
  found ← scalar_one_or_none rows
  raise_if (is_refused now found) gone
  invite ← raise_if_none gone found
  join_household invite current_user_id membership_id now created_at

preview : InviteToken → InviteTokenResponse
preview i = record {
  id = i.id;
  token_preview = append_text (slice i.token 0 8) "***";
  created_at = i.created_at;
  expires_at = i.expires_at;
}

module _ (engine : Engine) where
  -- GET /households/{household_id}/invites
  unfoldable pub list_invites : ℕ → ℕ → ℕ → Action (List InviteTokenResponse)
  unfolding preview
  list_invites household_id current_user_id now = do
    require_admin household_id current_user_id
    tokens ← query (λ db.
        engine.descending InviteToken (λ i. i.created_at)
          (filter (is_live household_id now) db.invites))
    pure (map preview tokens)

-- DELETE /households/{household_id}/invites/{invite_id}
unfoldable pub revoke_invite : ℕ → ℕ → ℕ → ℕ → Action (Unit {0})
revoke_invite household_id invite_id current_user_id now = do
  require_admin household_id current_user_id
  rows ← query (λ db. filter (λ i. i.id == invite_id && i.household_id == household_id) db.invites)
  found ← scalar_one_or_none rows
  token ← raise_if_none not_found found
  write (λ db. record db { invites = update_where (λ i. i.id == token.id) (expire now) db.invites })

-- ===== src/Authorize/Social.antt =====
-- The callback of a social provider in apps/server/src/oauth/authorization.ts, from where the
-- logins of administrators and of the portal, which are tried first, have not taken it. The exchange
-- of the provider's code for a profile (lib/social.ts, a call over the network) is an argument.
pub mod Laws
use authometry.Common.{
  ◌+◌, String, Bool, false, Option, none, some, [], ◌∷◌, ◌++◌, ◌&&◌, not, ◌==◌, ltb, str_eq, truthy,
  is_some, find, update_where,
}
use authometry.Common.Text.{lower_case}
use authometry.Json.{end}
use authometry.Database.{
  Uuid, Status, is_active, OAuthApplicationRow, IdentityUserRow, LinkTokenRow, SocialIdentityRow,
  SocialStateRow, Tables, Runtime, ApiError, api_error, M, ◌>>=◌, ◌>>◌, pure, or_throw, throw_if,
  transaction, pool_read, client_read, client_write, draw,
}
use authometry.Signing.{random_token, hash_token, or_panic}
use authometry.Grant.{user_by_id}
use authometry.Authorize.{Next, Opened, load_pending}
use authometry.Authorize.Continue.{continue_after_authentication}
use authometry.Authorize.Login.{is_identity, insert_identity, update_identity}

pub record SocialProfile : Type 0 where
  pub subject : String
  pub email : String
  pub name : String
  pub email_verified : Bool

abbrev pub state_invalid : ApiError
state_invalid = api_error 401 "invalid_social_state" "The social login state is invalid or expired."

abbrev pub no_request : ApiError
no_request =
    api_error 404 "authorization_request_not_found" "This authorization request no longer exists."

abbrev pub email_unverified : ApiError
email_unverified =
    api_error 401 "unverified_social_email" "The provider email address is not verified."

abbrev pub user_disabled : ApiError
user_disabled = api_error 403 "user_disabled" "This user account is disabled."

abbrev pub link_unavailable : ApiError
link_unavailable =
    api_error 409 "account_link_unavailable"
      "Sign in with the social provider already connected to this account."

-- The user is known, or must enter a password to link the account.
pub data Resolution : Type 0 where
  authenticated : IdentityUserRow → Resolution
  link_required : Resolution

-- To the client or a page, or to the login page with the token of the link and the provider.
pub data Landing : Type 0 where
  onward : Next → Landing
  link_page : String → String → String → Landing

module _ (r : Runtime) where
  unfoldable pub find_state : String → String → Tables → Option SocialStateRow
  find_state provider hash t =
      find
        (λ s.
          str_eq s.state_hash hash
          && str_eq s.provider provider
          && not (is_some s.consumed_at)
          && ltb r.sql_now s.expires_at)
        t.social_states

  unfoldable pub consume_state : Uuid → Tables → Tables
  consume_state id t = record t {
    social_states =
        update_where (λ s. s.id == id) (λ s. record s { consumed_at = some r.sql_now })
          t.social_states;
  }

  unfoldable pub take_state : String → String → M SocialStateRow
  take_state provider state = do
    found ← client_read (find_state provider (hash_token r state))
    s ← or_throw found state_invalid
    client_write (consume_state s.id)
    pure s

  -- `social_identities s JOIN identity_users u ON u.id = s.user_id`.
  unfoldable pub linked_identity : Uuid → String → String → Tables → Option SocialIdentityRow
  linked_identity workspace_id provider subject t =
      find (λ s. is_identity workspace_id provider subject s && is_some (user_by_id s.user_id t))
        t.social_identities

  abbrev pub user_linked : Option SocialIdentityRow → Tables → Option IdentityUserRow
  user_linked none t = none
  user_linked (some s) t = user_by_id s.user_id t

  unfoldable pub new_user : OAuthApplicationRow → SocialProfile → Uuid → IdentityUserRow
  new_user a profile id = record {
    id = id;
    workspace_id = a.workspace_id;
    email = profile.email;
    name = profile.name;
    password_hash = none;
    status = Status.active;
    groups = [];
    custom_claims = end;
    email_verified_at = some r.sql_now;
    last_authenticated_at = none;
    mfa_enabled = false;
    mfa_totp_secret_encrypted = none;
  }

  unfoldable pub new_link :
      Opened → String → SocialProfile → IdentityUserRow → Uuid → String → LinkTokenRow
  new_link opened provider profile user id token = record {
    id = id;
    workspace_id = opened.application.workspace_id;
    authorization_request_id = opened.pending.id;
    user_id = user.id;
    provider = provider;
    provider_subject = profile.subject;
    provider_email = profile.email;
    token_hash = hash_token r token;
    consumed_at = none;
    expires_at = r.sql_now + 600000;
  }

  unfoldable pub insert_link : LinkTokenRow → Tables → Tables
  insert_link l t = record t { link_tokens = t.link_tokens ++ l ∷ [] }

  unfoldable pub insert_user : IdentityUserRow → Tables → Tables
  insert_user u t = record t { users = t.users ++ u ∷ [] }

  unfoldable pub as_linked : Opened → String → SocialProfile → IdentityUserRow → M Resolution
  as_linked opened provider profile user = do
    throw_if (not (is_active user.status)) user_disabled
    client_write
        (update_identity opened.application.workspace_id provider profile.subject profile.email)
    pure (authenticated user)

  abbrev pub has_password : Option String → Bool
  has_password none = false
  has_password (some s) = truthy s

  unfoldable pub as_existing :
      Opened → String → SocialProfile → String → IdentityUserRow → M Resolution
  as_existing opened provider profile token user = do
    throw_if (not (is_active user.status)) user_disabled
    throw_if (not (has_password user.password_hash)) link_unavailable
    n ← draw
    client_write (insert_link (new_link opened provider profile user (r.random_uuid n) token))
    pure link_required

  unfoldable pub as_new : Opened → String → SocialProfile → M Resolution
  as_new opened provider profile = do
    n ← draw
    let user = new_user opened.application profile (r.random_uuid n)
    client_write (insert_user user)
    client_write (
        insert_identity (record {
          workspace_id = opened.application.workspace_id;
          user_id = user.id;
          provider = provider;
          provider_subject = profile.subject;
          provider_email = profile.email;
        }))
    pure (authenticated user)

  unfoldable pub user_by_email : Uuid → String → Tables → Option IdentityUserRow
  user_by_email workspace_id email t =
      find (λ u. u.workspace_id == workspace_id && str_eq (lower_case u.email) email) t.users

  unfoldable pub unlinked :
      Opened → String → SocialProfile → String → Option IdentityUserRow → M Resolution
  unlinked opened provider profile token none = as_new opened provider profile
  unlinked opened provider profile token (some user) =
      as_existing opened provider profile token user

  unfoldable pub settled :
      Opened → String → SocialProfile → String → Option IdentityUserRow → M Resolution
  settled opened provider profile token none = do
    existing ← client_read (user_by_email opened.application.workspace_id profile.email)
    unlinked opened provider profile token existing
  settled opened provider profile token (some user) = as_linked opened provider profile user

  unfoldable pub resolve_profile : Opened → String → SocialProfile → String → M Resolution
  resolve_profile opened provider profile token = do
    let workspace_id = opened.application.workspace_id
    linked ←
        client_read (λ t. user_linked (linked_identity workspace_id provider profile.subject t) t)
    settled opened provider profile token linked

  unfoldable pub land : Opened → String → String → Resolution → M Landing
  land opened provider token (authenticated user) = do
    next ← continue_after_authentication r opened.pending opened.application user
    pure (onward next)
  land opened provider token link_required =
      pure (link_page opened.pending.request_id token provider)

  unfoldable pub with_profile : Opened → String → SocialProfile → M Landing
  with_profile opened provider profile = do
    throw_if (not profile.email_verified) email_unverified
    token ← random_token r 40
    resolution ← transaction (resolve_profile opened provider profile token)
    land opened provider token resolution

  -- The handler from where neither an administrator's nor a portal's login took the state.
  -- `exchange` is `exchangeSocialCode` of the callback's code: the redirect URI, the verifier and
  -- the nonce that were stored; `none` where it throws.
  unfoldable pub callback_for_user :
      (String → String → String → Option SocialProfile) → String → String → M Landing
  callback_for_user exchange provider state = do
    s ← transaction (take_state provider state)
    row ← pool_read (λ t. find (λ p. p.id == s.authorization_request_id) t.pending)
    pending ← or_throw row no_request
    opened ← load_pending r pending.request_id
    verifier ← or_panic r (r.decrypt s.code_verifier_encrypted) "Encrypted value is malformed."
    nonce ← or_panic r (r.decrypt s.nonce_encrypted) "Encrypted value is malformed."
    profile ← or_panic r (exchange s.redirect_uri verifier nonce) "The provider refused the code."
    with_profile (record { pending = pending; application = opened.application }) provider profile

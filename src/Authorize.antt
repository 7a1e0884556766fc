-- ===== src/Authorize.antt =====
-- apps/server/src/oauth/authorization.ts: what the handlers of the authorization endpoint share.
pub mod Issue
pub mod Requests
pub mod Closing
pub mod Continue
pub mod Start
pub mod PushedRequest
pub mod Push
pub mod Login
pub mod Decide
pub mod Social
use authometry.Common.{
  ℕ, ◌+◌, String, Bool, true, false, Option, none, some, List, [], ◌∷◌, ◌++◌, ◌&&◌, ◌||◌, not, ◌==◌,
  ltb, if◌then◌else◌, str_eq, truthy, is_some, find, includes, every, update_where,
}
use authometry.Common.Text.{words}
use authometry.Database.{
  Uuid, Status, is_active, OAuthApplicationRow, IdentityUserRow, AuthorizationParameters,
  PendingStatus, PendingAuthorizationRow, UserSessionRow, SessionStatus, ConsentRow,
  AdminConsentRow, AdminRow, Tables, Runtime, ApiError, api_error, M, ◌>>=◌, ◌>>◌, pure, or_throw,
  pool_read,
}
use authometry.Signing.{hash_token}
use authometry.Client.{find_application_by_client_id}
use authometry.Grant.{holds, resource_indicators_match, mcp_resource_for_issuer, user_by_id}

-- Where the browser is sent: back to the client, with an error, its description and the state or
-- with a code, the state and the issuer; or to a page of the server for the request.
-- Building the address throws where the redirect URI is no URL, which no parse lets through.
pub data Next : Type 0 where
  with_error : String → String → Option String → Option String → Next
  with_code : String → String → Option String → String → Next
  login_page consent_page admin_login_page : String → Next

abbrev pub request_gone : ApiError
request_gone =
    api_error 404 "authorization_request_not_found"
      "This authorization request is invalid or expired."

abbrev pub application_gone : ApiError
application_gone = api_error 404 "application_not_found" "The application no longer exists."

-- `if (parameters.state)`, and the truth of the other optional texts.
abbrev pub filled : Option String → Option String
filled none = none
filled (some s) = if truthy s then some s else none

-- `parameters.prompt === prompt`.
abbrev pub option_is : Option String → String → Bool
option_is none s = false
option_is (some t) s = str_eq t s

-- `oauthRedirect`.
unfoldable pub oauth_redirect : AuthorizationParameters → String → Option String → Next
oauth_redirect p error description = with_error p.redirect_uri error description (filled p.state)

abbrev pub mcp_identity_scopes : List String
mcp_identity_scopes = "openid" ∷ "email" ∷ "profile" ∷ "phone" ∷ "address" ∷ []

abbrev pub mcp_scopes : List String
mcp_scopes = "mcp:read" ∷ "mcp:write" ∷ "offline_access" ∷ mcp_identity_scopes

-- `["completed", "denied", "expired"].includes(status)`.
unfoldable pub is_closed : PendingStatus → Bool
is_closed PendingStatus.pending = false
is_closed PendingStatus.awaiting_consent = false
is_closed PendingStatus.approved = false
is_closed PendingStatus.denied = true
is_closed PendingStatus.completed = true
is_closed PendingStatus.expired = true

-- `consent?.scopes.includes(scope)` for every requested scope.
unfoldable pub covers : Option (List String) → List String → Bool
covers none scopes = every (λ s. false) scopes
covers (some granted) scopes = every (includes granted) scopes

-- `consent_grants` by application and user.
unfoldable pub consent_of : OAuthApplicationRow → Uuid → Tables → Option (List String)
consent_of a user_id t = scopes (
    find
      (λ c.
        c.environment_id == a.environment_id
        && c.application_id == a.id
        && c.user_id == user_id
        && not (is_some c.revoked_at))
      t.consents)
  where
    scopes : Option ConsentRow → Option (List String)
    scopes none = none
    scopes (some c) = some c.scopes

-- `mcp_admin_consent_grants` by application, administrator and resource.
unfoldable pub admin_consent_of :
    OAuthApplicationRow → Uuid → String → Tables → Option (List String)
admin_consent_of a admin_id resource t = scopes (
    find
      (λ c.
        c.environment_id == a.environment_id
        && c.application_id == a.id
        && c.admin_user_id == admin_id
        && str_eq c.resource resource
        && not (is_some c.revoked_at))
      t.admin_consents)
  where
    scopes : Option AdminConsentRow → Option (List String)
    scopes none = none
    scopes (some c) = some c.scopes

-- `UPDATE pending_authorization_requests SET … WHERE id = $1`.
unfoldable pub update_request :
    Uuid → (PendingAuthorizationRow → PendingAuthorizationRow) → Tables → Tables
update_request id f t = record t { pending = update_where (λ p. p.id == id) f t.pending }

unfoldable pub request_by_id : String → Tables → Option PendingAuthorizationRow
request_by_id request_id t = find (λ p. str_eq p.request_id request_id) t.pending

-- An open request with its application.
pub record Opened : Type 0 where
  pub pending : PendingAuthorizationRow
  pub application : OAuthApplicationRow

module _ (r : Runtime) where
  -- `none` where the issuer is no URL and the resource is compared with it.
  unfoldable pub is_mcp_authorization : AuthorizationParameters → OAuthApplicationRow → Option Bool
  is_mcp_authorization p a =
      let scopes = words p.scope in
      if includes scopes "mcp:read" && every (includes mcp_scopes) scopes
      then elim (filled p.resource) [
        | none ↦ some false
        | some resource ↦ elim (mcp_resource_for_issuer r a.issuer) [
          | none ↦ none
          | some expected ↦ some (resource_indicators_match r resource expected)
        ]
      ]
      else some false

  abbrev pub open_request : Option PendingAuthorizationRow → Option PendingAuthorizationRow
  open_request none = none
  open_request (some p) = if ltb p.expires_at r.date_now || is_closed p.status then none else some p

  unfoldable pub load_pending : String → M Opened
  load_pending request_id = do
    row ← pool_read (request_by_id request_id)
    pending ← or_throw (open_request row) request_gone
    found ← find_application_by_client_id pending.parameters.client_id
    application ← or_throw found application_gone
    pure (record { pending = pending; application = application })

  abbrev pub is_live : SessionStatus → Bool
  is_live SessionStatus.active = true
  is_live SessionStatus.expired = false
  is_live SessionStatus.revoked = false

  -- `u.id = s.user_id AND u.status = 'active'`.
  unfoldable pub active_user_by_id : Uuid → Tables → Option IdentityUserRow
  active_user_by_id id t = find (λ u. u.id == id && is_active u.status) t.users

  unfoldable pub session_for : String → Uuid → Tables → Option UserSessionRow
  session_for hash workspace_id t =
      find
        (λ s.
          holds (λ h. str_eq h hash) s.session_token_hash
          && s.workspace_id == workspace_id
          && is_live s.status
          && ltb r.sql_now s.expires_at
          && is_some (active_user_by_id s.user_id t))
        t.sessions

  abbrev pub user_of : Option UserSessionRow → Tables → Option IdentityUserRow
  user_of none t = none
  user_of (some s) t = active_user_by_id s.user_id t

  unfoldable pub existing_user_session : Option String → Uuid → M (Option IdentityUserRow)
  existing_user_session cookie workspace_id = elim (filled cookie) [
    | none ↦ pure none
    | some token ↦ pool_read (λ t. user_of (session_for (hash_token r token) workspace_id t) t)
  ]

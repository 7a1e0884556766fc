-- ===== src/Authorize/Continue.antt =====
-- `continueAfterAuthentication` and `continueMcpAuthorization` of
-- apps/server/src/oauth/authorization.ts: what follows once the person is known.
use authometry.Common.{
  ◌+◌, String, Option, none, some, [], ◌∷◌, ◌++◌, ◌&&◌, ◌||◌, not, ◌==◌, if◌then◌else◌, is_some,
  update_where,
}
use authometry.Common.Text.{split, words}
use authometry.Database.{
  Uuid, OAuthApplicationRow, IdentityUserRow, AdminRow, PendingStatus, PendingAuthorizationRow,
  UserSessionRow, SessionStatus, Tables, Runtime, M, ◌>>=◌, ◌>>◌, pure, transaction, pool_read,
  pool_write, client_write, draw,
}
use authometry.Signing.{random_token, hash_token, or_panic}
use authometry.Grant.{mcp_resource_for_issuer, admin_by_id}
use authometry.Admin.{Browser, Principal, optional_admin}
use authometry.Authorize.{
  Next, consent_page, admin_login_page, filled, option_is, oauth_redirect, covers, consent_of,
  admin_consent_of, update_request,
}
use authometry.Authorize.Issue.{authorization_redirect, mcp_authorization_redirect}

module _ (r : Runtime) where
  unfoldable pub touch_user : Uuid → Tables → Tables
  touch_user id t = record t {
    users =
        update_where (λ u. u.id == id) (λ u. record u { last_authenticated_at = some r.sql_now })
          t.users;
  }

  unfoldable pub new_session :
      PendingAuthorizationRow
      → OAuthApplicationRow
      → IdentityUserRow
      → Uuid
      → String
      → UserSessionRow
  new_session pending a user id token = record {
    id = id;
    workspace_id = a.workspace_id;
    environment_id = a.environment_id;
    user_id = user.id;
    application_id = some a.id;
    session_token_hash = some (hash_token r token);
    refresh_family_id = none;
    status = SessionStatus.active;
    scopes = split b' ' pending.parameters.scope;
    expires_at = r.sql_now + 604800000;
    revoked_at = none;
  }

  unfoldable pub insert_session : UserSessionRow → Tables → Tables
  insert_session s t = record t { sessions = t.sessions ++ s ∷ [] }

  unfoldable pub start_session :
      PendingAuthorizationRow → OAuthApplicationRow → IdentityUserRow → String → M (Unit {0})
  start_session pending a user token = do
    client_write (touch_user user.id)
    n ← draw
    client_write (insert_session (new_session pending a user (r.random_uuid n) token))
    client_write (update_request pending.id (λ p. record p { user_id = some user.id }))

  unfoldable pub await_consent : PendingAuthorizationRow → M Next
  await_consent pending = do
    pool_write
        (update_request pending.id (λ p. record p { status = PendingStatus.awaiting_consent }))
    pure (consent_page pending.request_id)

  unfoldable pub continue_after_authentication :
      PendingAuthorizationRow → OAuthApplicationRow → IdentityUserRow → M Next
  continue_after_authentication pending a user = do
    token ← random_token r 40
    transaction (start_session pending a user token)
    consent ← pool_read (consent_of a user.id)
    if is_some (filled pending.parameters.agent_id)
          || a.require_consent && not (covers consent (split b' ' pending.parameters.scope))
        then await_consent pending
        else authorization_redirect r pending a
            (record user { last_authenticated_at = some r.date_now })

  -- The consent of an administrator who is signed in.
  unfoldable pub continue_as_admin :
      PendingAuthorizationRow → OAuthApplicationRow → AdminRow → M Next
  continue_as_admin pending a admin = do
    resource ← or_panic r (mcp_resource_for_issuer r a.issuer) "Invalid URL"
    consent ← pool_read (admin_consent_of a admin.id resource)
    let p = pending.parameters
    if not (option_is p.prompt "consent") && covers consent (words p.scope)
        then mcp_authorization_redirect r pending a admin
        else if option_is p.prompt "none"
        then pure (oauth_redirect p "consent_required" none)
        else (do
          pool_write (
              update_request pending.id (λ q. record q {
                status = PendingStatus.awaiting_consent;
                admin_user_id = some admin.id;
              }))
          pure (consent_page pending.request_id))

  abbrev pub principal_in : Uuid → Option Principal → Option Principal
  principal_in workspace_id none = none
  principal_in workspace_id (some p) = if p.workspace_id == workspace_id then some p else none

  unfoldable pub continue_mcp_authorization :
      Browser → PendingAuthorizationRow → OAuthApplicationRow → M Next
  continue_mcp_authorization b pending a = do
    found ← optional_admin r b
    elim (principal_in a.workspace_id found) [
      | none ↦ pure (
          if option_is pending.parameters.prompt "none"
          then oauth_redirect pending.parameters "login_required" none
          else admin_login_page pending.request_id)
      | some principal ↦ do
        row ← pool_read (admin_by_id principal.user_id a.workspace_id)
        elim row [
          | none ↦ pure (oauth_redirect pending.parameters "login_required" none)
          | some admin ↦ continue_as_admin pending a admin
        ]
    ]

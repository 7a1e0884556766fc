-- ===== src/Authorize/Decide.antt =====
-- `POST /authorize/consent` of apps/server/src/oauth/authorization.ts: the decision on a request.
pub mod Laws
use authometry.Common.{
  ℕ, ◌+◌, String, Bool, true, false, Option, none, some, List, [], ◌∷◌, ◌++◌, ◌&&◌, ◌||◌, not, ◌==◌,
  if◌then◌else◌, str_eq, is_some, any, update_where,
}
use authometry.Common.Text.{split, words}
use authometry.Database.{
  Uuid, OAuthApplicationRow, IdentityUserRow, AdminRow, PendingStatus, PendingAuthorizationRow,
  ConsentRow, AdminConsentRow, Tables, Runtime, ApiError, api_error, M, ◌>>=◌, ◌>>◌, pure, throw,
  or_throw, transaction, pool_read, pool_write, client_write,
}
use authometry.Signing.{or_panic}
use authometry.Grant.{mcp_resource_for_issuer, admin_by_id, user_by_id}
use authometry.Admin.{Browser, Principal, require_csrf, optional_admin}
use authometry.Authorize.{
  Next, Opened, oauth_redirect, is_mcp_authorization, load_pending, update_request,
}
use authometry.Authorize.Issue.{authorization_redirect, mcp_authorization_redirect}
use authometry.Authorize.Continue.{principal_in}

abbrev pub login_required : String → ApiError
login_required message = api_error 401 "login_required" message

-- `INSERT … ON CONFLICT … DO UPDATE`: the row that is there, or a new one.
unfoldable pub upsert {ℓ} : {A : Type ℓ} → (A → Bool) → (A → A) → A → List A → List A
upsert p f a xs = if any p xs then update_where p f xs else xs ++ a ∷ []

unfoldable pub grant_consent : OAuthApplicationRow → IdentityUserRow → List String → Tables → Tables
grant_consent a user scopes t = record t {
  consents =
      upsert
        (λ c.
          c.environment_id == a.environment_id && c.application_id == a.id && c.user_id == user.id)
        (λ c. record c { scopes = scopes; revoked_at = none })
        (record {
          environment_id = a.environment_id;
          application_id = a.id;
          user_id = user.id;
          scopes = scopes;
          revoked_at = none;
        })
        t.consents;
}

unfoldable pub grant_admin_consent :
    OAuthApplicationRow → AdminRow → String → List String → Tables → Tables
grant_admin_consent a admin resource scopes t = record t {
  admin_consents =
      upsert
        (λ c.
          c.environment_id == a.environment_id
          && c.application_id == a.id
          && c.admin_user_id == admin.id
          && str_eq c.resource resource)
        (λ c. record c { scopes = scopes; revoked_at = none })
        (record {
          environment_id = a.environment_id;
          application_id = a.id;
          admin_user_id = admin.id;
          resource = resource;
          scopes = scopes;
          revoked_at = none;
        })
        t.admin_consents;
}

module _ (r : Runtime) where
  -- Not another administrator than the one that the request names.
  abbrev pub named_admin : Option Uuid → Option Principal → Option Principal
  named_admin named none = none
  named_admin none (some p) = some p
  named_admin (some id) (some p) = if p.user_id == id then some p else none

  -- Who reviews a request for MCP.
  unfoldable pub reviewing_admin : Browser → Opened → M AdminRow
  reviewing_admin b opened = do
    require_csrf r b
    found ← optional_admin r b
    principal ←
        or_throw
          (named_admin opened.pending.admin_user_id
            (principal_in r opened.application.workspace_id found))
          (login_required "Sign in before reviewing MCP access.")
    row ← pool_read (admin_by_id principal.user_id opened.application.workspace_id)
    or_throw row (login_required "The admin session is unavailable.")

  unfoldable pub reviewer : Browser → Opened → Bool → M (Option AdminRow)
  reviewer b opened mcp =
      if mcp then (do admin ← reviewing_admin b opened; pure (some admin)) else pure none

  unfoldable pub refuse : PendingAuthorizationRow → M Next
  refuse pending = do
    transaction
        (client_write (update_request pending.id (λ p. record p { status = PendingStatus.denied })))
    pure (oauth_redirect pending.parameters "access_denied" none)

  unfoldable pub approve_as_admin : Opened → AdminRow → M Next
  approve_as_admin opened admin = do
    resource ← or_panic r (mcp_resource_for_issuer r opened.application.issuer) "Invalid URL"
    pool_write (
        grant_admin_consent opened.application admin resource
          (words opened.pending.parameters.scope))
    mcp_authorization_redirect r opened.pending opened.application admin

  abbrev pub named_user : Option Uuid → M (Option IdentityUserRow)
  named_user none = throw (login_required "Sign in before reviewing consent.")
  named_user (some id) = pool_read (user_by_id id)

  unfoldable pub approve : Opened → M Next
  approve opened = do
    row ← named_user opened.pending.user_id
    user ← or_throw row (login_required "The user session is no longer available.")
    pool_write (grant_consent opened.application user (split b' ' opened.pending.parameters.scope))
    authorization_redirect r opened.pending opened.application user

  unfoldable pub decide : Opened → Option AdminRow → Bool → M Next
  decide opened admin approved =
      if approved
      then elim admin [ some a ↦ approve_as_admin opened a | none ↦ approve opened ]
      else refuse opened.pending

  unfoldable pub consent : Browser → String → Bool → M Next
  consent b request_id approved = do
    opened ← load_pending r request_id
    mcp ←
        or_panic r (is_mcp_authorization r opened.pending.parameters opened.application)
          "Invalid URL"
    admin ← reviewer b opened mcp
    decide opened admin approved

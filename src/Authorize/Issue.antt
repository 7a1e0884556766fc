-- ===== src/Authorize/Issue.antt =====
-- `authorizationRedirect` and `mcpAuthorizationRedirect` of
-- apps/server/src/oauth/authorization.ts: policies, delegation grants and authorization codes.
pub mod Laws
pub mod Policies
pub mod Redemption
use authometry.Common.{
  ℕ, ◌+◌, ◌*◌, String, Bool, true, false, Option, none, some, List, [], ◌∷◌, ◌++◌, ◌&&◌, ◌||◌, not,
  ◌==◌, if◌then◌else◌, str_eq, is_some, get_or, find, keep, any, min, length, update_where,
}
use authometry.Common.Text.{split, words}
use authometry.Database.{
  Uuid, is_active, ApplicationType, OAuthApplicationRow, IdentityUserRow, AdminRow,
  AuthorizationParameters, PendingStatus, PendingAuthorizationRow, AuthorizationCodeRow,
  AgentIdentityRow, AgentAuthorizationDetails, DelegationGrantRow, GrantStatus, PolicyRow, Tables,
  Runtime, ApiError, api_error, M, ◌>>=◌, ◌>>◌, pure, or_throw, transaction, pool_read,
  client_write, draw,
}
use authometry.Signing.{random_token, hash_token, or_panic}
use authometry.Agents.{find_agent_for_client, maximum_usage}
use authometry.Grant.{mcp_resource_for_issuer}
use authometry.Policy.{PolicyContext, evaluate_all}
use authometry.Endpoint.Token.{record_application_usage}
use authometry.Authorize.{Next, with_error, with_code, filled, update_request}

abbrev pub agent_gone : ApiError
agent_gone = api_error 400 "invalid_client" "The registered agent is no longer active."

abbrev pub type_name : ApplicationType → String
type_name ApplicationType.web = "web"
type_name ApplicationType.spa = "spa"
type_name ApplicationType.native = "native"
type_name ApplicationType.machine = "machine"
type_name ApplicationType.device = "device"

insert_policy : Runtime → PolicyRow → List PolicyRow → List PolicyRow
insert_policy r p [] = p ∷ []
insert_policy r p (q ∷ qs) =
    let rest = insert_policy r p qs in if r.collate_le p.name q.name then p ∷ q ∷ qs else q ∷ rest

-- `ORDER BY name`.
unfoldable pub sorted : Runtime → List PolicyRow → List PolicyRow
unfolding insert_policy
sorted r [] = []
sorted r (p ∷ ps) = insert_policy r p (sorted r ps)

-- `enabled = true AND (cardinality(application_ids) = 0 OR $2 = ANY(application_ids))`.
unfoldable pub applies : OAuthApplicationRow → PolicyRow → Bool
applies a p =
    p.environment_id == a.environment_id
    && p.enabled
    && (length p.application_ids == 0 || any (λ id. id == a.id) p.application_ids)

module _ (r : Runtime) where
  unfoldable pub policy_context :
      OAuthApplicationRow → IdentityUserRow → AuthorizationParameters → PolicyContext
  policy_context a user p = record {
    environment = a.environment_slug;
    user_groups = user.groups;
    user_email = user.email;
    application_id = r.uuid_text a.id;
    application_slug = a.slug;
    application_type = type_name a.type;
    request_scopes = split b' ' p.scope;
  }

  -- The first policy, by name, that does not allow the request.
  unfoldable pub denying_policy :
      OAuthApplicationRow → IdentityUserRow → AuthorizationParameters → Tables → Option PolicyRow
  denying_policy a user p t =
      find (λ q. not (evaluate_all q.conditions (policy_context a user p)))
        (sorted r (keep (applies a) t.policies))

  unfoldable pub deny : PendingAuthorizationRow → PolicyRow → M Next
  deny pending policy = do
    transaction
        (client_write (update_request pending.id (λ p. record p { status = PendingStatus.denied })))
    pure (
        with_error pending.parameters.redirect_uri "access_denied"
          (some (get_or policy.message "Authorization policy denied the request."))
          (filled pending.parameters.state))

  -- The request's agent, if it is registered and active.
  abbrev pub same_agent : String → Option AgentIdentityRow → Option AgentIdentityRow
  same_agent id none = none
  same_agent id (some g) = if str_eq g.agent_id id && is_active g.status then some g else none

  abbrev pub first_purpose : List AgentAuthorizationDetails → Option String
  first_purpose [] = none
  first_purpose (d ∷ ds) = d.purpose

  abbrev pub either : Option String → Option String → Option String
  either none s = s
  either (some t) s = some t

  unfoldable pub delegation_grant :
      OAuthApplicationRow
      → IdentityUserRow
      → AuthorizationParameters
      → Uuid
      → AgentIdentityRow
      → String
      → List AgentAuthorizationDetails
      → DelegationGrantRow
  delegation_grant a user p id agent resource details = record {
    id = id;
    workspace_id = a.workspace_id;
    environment_id = a.environment_id;
    application_id = a.id;
    subject_user_id = user.id;
    actor_agent_id = agent.id;
    parent_grant_id = none;
    resource = resource;
    scopes = words p.scope;
    authorization_details = details;
    purpose = get_or (either p.purpose (first_purpose details)) "Approved agent task";
    task_id = p.task_id;
    dpop_jkt = none;
    delegation_depth = 0;
    maximum_usage = maximum_usage details;
    status = GrantStatus.active;
    expires_at =
        r.sql_now + min agent.maximum_authorization_seconds a.access_token_lifetime_seconds * 1000;
  }

  unfoldable pub insert_grant : DelegationGrantRow → Tables → Tables
  insert_grant g t = record t { grants = t.grants ++ g ∷ [] }

  unfoldable pub create_delegation :
      OAuthApplicationRow
      → IdentityUserRow
      → AuthorizationParameters
      → String
      → String
      → List AgentAuthorizationDetails
      → M (Option Uuid)
  create_delegation a user p agent_id resource details = do
    found ← find_agent_for_client p.client_id
    agent ← or_throw (same_agent agent_id found) agent_gone
    n ← draw
    client_write (insert_grant (delegation_grant a user p (r.random_uuid n) agent resource details))
    pure (some (r.random_uuid n))

  -- Only a request with an agent, a resource and authorization details is delegated.
  unfoldable pub delegate :
      OAuthApplicationRow
      → IdentityUserRow
      → AuthorizationParameters
      → Option String
      → Option String
      → Option (List AgentAuthorizationDetails)
      → M (Option Uuid)
  delegate a user p (some agent_id) (some resource) (some details) =
      create_delegation a user p agent_id resource details
  delegate a user p none resource details = pure none
  delegate a user p (some agent_id) none details = pure none
  delegate a user p (some agent_id) (some resource) none = pure none

  unfoldable pub user_code :
      OAuthApplicationRow
      → IdentityUserRow
      → AuthorizationParameters
      → Uuid
      → String
      → Option Uuid
      → AuthorizationCodeRow
  user_code a user p id code grant_id = record {
    id = id;
    code_hash = hash_token r code;
    application_id = a.id;
    user_id = some user.id;
    admin_user_id = none;
    redirect_uri = p.redirect_uri;
    scope = split b' ' p.scope;
    code_challenge = p.code_challenge;
    code_challenge_method = p.code_challenge_method;
    nonce = p.nonce;
    auth_time = get_or user.last_authenticated_at r.date_now;
    expires_at = r.sql_now + a.authorization_code_lifetime_seconds * 1000;
    consumed_at = none;
    delegation_grant_id = grant_id;
    resource = p.resource;
  }

  unfoldable pub insert_code : AuthorizationCodeRow → Tables → Tables
  insert_code c t = record t { codes = t.codes ++ c ∷ [] }

  unfoldable pub store_code :
      PendingAuthorizationRow
      → OAuthApplicationRow
      → IdentityUserRow
      → String
      → Option Uuid
      → M (Unit {0})
  store_code pending a user code grant_id = do
    n ← draw
    client_write (insert_code (user_code a user pending.parameters (r.random_uuid n) code grant_id))
    client_write (
        update_request pending.id
          (λ q. record q { status = PendingStatus.completed; user_id = some user.id }))
    client_write (record_application_usage r a.id)

  unfoldable pub issue_code :
      PendingAuthorizationRow → OAuthApplicationRow → IdentityUserRow → String → M (Unit {0})
  issue_code pending a user code = do
    let p = pending.parameters
    grant_id ← delegate a user p (filled p.agent_id) (filled p.resource) p.authorization_details
    store_code pending a user code grant_id

  unfoldable pub with_new_code :
      PendingAuthorizationRow → OAuthApplicationRow → IdentityUserRow → M Next
  with_new_code pending a user = do
    code ← random_token r 32
    transaction (issue_code pending a user code)
    pure (with_code pending.parameters.redirect_uri code (filled pending.parameters.state) a.issuer)

  unfoldable pub answer_by :
      PendingAuthorizationRow → OAuthApplicationRow → IdentityUserRow → Option PolicyRow → M Next
  answer_by pending a user (some policy) = deny pending policy
  answer_by pending a user none = with_new_code pending a user

  unfoldable pub authorization_redirect :
      PendingAuthorizationRow → OAuthApplicationRow → IdentityUserRow → M Next
  authorization_redirect pending a user = do
    denying ← pool_read (denying_policy a user pending.parameters)
    answer_by pending a user denying

  unfoldable pub admin_code :
      OAuthApplicationRow
      → AdminRow
      → AuthorizationParameters
      → Uuid
      → String
      → String
      → AuthorizationCodeRow
  admin_code a admin p id code resource = record {
    id = id;
    code_hash = hash_token r code;
    application_id = a.id;
    user_id = none;
    admin_user_id = some admin.id;
    redirect_uri = p.redirect_uri;
    scope = words p.scope;
    code_challenge = p.code_challenge;
    code_challenge_method = p.code_challenge_method;
    nonce = p.nonce;
    auth_time = r.sql_now;
    expires_at = r.sql_now + a.authorization_code_lifetime_seconds * 1000;
    consumed_at = none;
    delegation_grant_id = none;
    resource = some resource;
  }

  unfoldable pub issue_admin_code :
      PendingAuthorizationRow → OAuthApplicationRow → AdminRow → String → String → M (Unit {0})
  issue_admin_code pending a admin code resource = do
    n ← draw
    client_write
        (insert_code (admin_code a admin pending.parameters (r.random_uuid n) code resource))
    client_write (
        update_request pending.id
          (λ q. record q { status = PendingStatus.completed; admin_user_id = some admin.id }))
    client_write (record_application_usage r a.id)

  unfoldable pub mcp_authorization_redirect :
      PendingAuthorizationRow → OAuthApplicationRow → AdminRow → M Next
  mcp_authorization_redirect pending a admin = do
    code ← random_token r 32
    resource ← or_panic r (mcp_resource_for_issuer r a.issuer) "Invalid URL"
    transaction (issue_admin_code pending a admin code resource)
    pure (with_code pending.parameters.redirect_uri code (filled pending.parameters.state) a.issuer)

-- ===== src/Endpoint/Token.antt =====
-- `POST /oauth/token` of apps/server/src/oauth/tokens.ts: the dispatch to the grants.
pub mod Laws
use authometry.Common.{
  ℕ, String, Bool, true, false, Option, none, some, List, [], ◌∷◌, ◌&&◌, ◌||◌, not, ◌==◌,
  if◌then◌else◌, str_eq, truthy, keep, every, includes, update_where, length, ltb,
}
use authometry.Common.Text.{words}
use authometry.Json.{str, Claims}
use authometry.Database.{
  Uuid, OAuthApplicationRow, AgentIdentityRow, Tables, Runtime, ApiError, api_error, M, ◌>>=◌, ◌>>◌,
  pure, throw, throw_if, pool_write, rescue,
}
use authometry.Issue.{TokenSet, IssueInput, bearer, issue_token_set}
use authometry.Agents.{find_agent_for_client}
use authometry.Client.{Request, param, optional_param, authenticate_client}
use authometry.Grant.Refresh.{refresh_token_grant}
use authometry.Grant.Device.{device_code_grant}
use authometry.Grant.Code.{CodeRequest, authorization_code_grant}
use authometry.Grant.Exchange.{ExchangeRequest, token_exchange_grant}

abbrev pub grant_not_enabled : ApiError
grant_not_enabled = api_error 400 "unauthorized_client" "This grant is not enabled for the client."

abbrev pub unassigned_scope : ApiError
unassigned_scope = api_error 400 "invalid_scope" "The client requested an unassigned scope."

abbrev pub unassigned_resource : ApiError
unassigned_resource =
    api_error 400 "invalid_target" "Registered agents must request an assigned resource audience."

abbrev pub unsupported_grant : ApiError
unsupported_grant =
    api_error 400 "unsupported_grant_type" "The requested grant type is not supported."

abbrev pub code_request : Request → CodeRequest
code_request request = record {
  code = param "code" request;
  redirect_uri = param "redirect_uri" request;
  code_verifier = param "code_verifier" request;
  resource = param "resource" request;
  dpop = request.dpop;
}

abbrev pub exchange_request : Request → ExchangeRequest
exchange_request request = record {
  subject_token = param "subject_token" request;
  subject_token_type = param "subject_token_type" request;
  actor_token = param "actor_token" request;
  actor_token_type = param "actor_token_type" request;
  resource = param "resource" request;
  scopes = words (param "scope" request);
  dpop = request.dpop;
}

-- `response.json(tokens)`, or `oauthError` of oauth/common.ts with its status.
pub data Answer : Type 0 where
  tokens : TokenSet → Answer
  refused : ℕ → String → String → Answer

abbrev pub oauth_error : ApiError → Answer
oauth_error e = refused (if e.status == 401 then 401 else 400) e.code e.message

module _ (r : Runtime) where
  -- The scopes asked for, or all that the client has but `openid`.
  unfoldable pub credential_scopes : OAuthApplicationRow → Request → List String
  credential_scopes application request =
      let requested = words (param "scope" request) in
      if ltb 0 (length requested)
      then requested
      else keep (λ scope. not (str_eq scope "openid")) application.allowed_scopes

  abbrev pub agent_refused : Option AgentIdentityRow → String → Bool
  agent_refused none resource = false
  agent_refused (some agent) resource =
      not (truthy resource) || not (includes agent.allowed_resources resource)

  abbrev pub agent_subject : Option AgentIdentityRow → Option String
  agent_subject none = none
  agent_subject (some agent) = some agent.agent_id

  abbrev pub agent_audience : Option AgentIdentityRow → String → Option String
  agent_audience none resource = none
  agent_audience (some agent) resource = some resource

  abbrev pub agent_claims : Option AgentIdentityRow → Claims
  agent_claims none = []
  agent_claims (some agent) = ("agent_operator", some (str agent.operator_id)) ∷ []

  unfoldable pub credential_issue_input :
      List String → Option AgentIdentityRow → String → IssueInput
  credential_issue_input scopes agent resource = record {
    user = none;
    auth_time = r.date_now;
    scopes = scopes;
    nonce = none;
    include_refresh_token = false;
    audience = agent_audience agent resource;
    access_token_lifetime_seconds = none;
    access_token_claims = agent_claims agent;
    token_type = bearer;
    subject = agent_subject agent;
    admin_user_id = none;
    admin_identity = none;
    resource = none;
  }

  unfoldable pub client_credentials_grant : OAuthApplicationRow → Request → M TokenSet
  client_credentials_grant application request = do
    let scopes = credential_scopes application request
    throw_if (not (every (includes application.allowed_scopes) scopes)) unassigned_scope
    agent ← find_agent_for_client application.client_id
    throw_if (agent_refused agent (param "resource" request)) unassigned_resource
    issue_token_set r application (credential_issue_input scopes agent (param "resource" request))

  -- The `switch` on the grant type.
  unfoldable pub grant_by : String → OAuthApplicationRow → Request → M TokenSet
  grant_by grant_type application request =
      if str_eq grant_type "authorization_code"
      then authorization_code_grant r application (code_request request)
      else if str_eq grant_type "refresh_token"
      then refresh_token_grant r application (param "refresh_token" request)
          (optional_param "scope" request) (param "resource" request)
      else if str_eq grant_type "client_credentials"
      then client_credentials_grant application request
      else if str_eq grant_type "urn:ietf:params:oauth:grant-type:device_code"
      then device_code_grant r application (param "device_code" request)
      else if str_eq grant_type "urn:ietf:params:oauth:grant-type:token-exchange"
      then token_exchange_grant r application (exchange_request request)
      else throw unsupported_grant

  -- `recordApplicationUsage` of lib/application-usage.ts.
  unfoldable pub record_application_usage : Uuid → Tables → Tables
  record_application_usage id t = record t {
    applications =
        update_where (λ a. a.id == id) (λ a. record a { last_used_at = some r.sql_now })
          t.applications;
  }

  unfoldable pub granted : Request → M TokenSet
  granted request = do
    application ← authenticate_client r request
    throw_if (not (includes application.grant_types (param "grant_type" request))) grant_not_enabled
    issued ← grant_by (param "grant_type" request) application request
    pool_write (record_application_usage application.id)
    pure issued

  unfoldable pub token_route : Request → M Answer
  token_route request =
      rescue (granted request >>= λ issued. pure (tokens issued)) (λ e. pure (oauth_error e))

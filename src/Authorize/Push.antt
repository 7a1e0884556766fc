-- ===== src/Authorize/Push.antt =====
-- `POST /oauth/par` of apps/server/src/oauth/authorization.ts: an agent pushes a request.
pub mod Laws
use authometry.Common.{
  ℕ, ◌+◌, String, Bool, true, false, Option, none, some, List, [], ◌∷◌, ◌++◌, ◌&&◌, ◌||◌, not, ltb,
  leb, if◌then◌else◌, str_eq, truthy, is_some, find, includes, any, every, keep, length,
}
use authometry.Common.Text.{◌+s◌, words, join, text_length, strip_prefix}
use authometry.Json.{Json, str, arr, obj, Items, nil, cons, Fields, get_field, claim_is}
use authometry.Database.{
  Uuid, OAuthApplicationRow, AuthorizationParameters, AgentIdentityRow, AgentAuthorizationDetails,
  PushedRow, Tables, Runtime, ApiError, api_error, M, ◌>>=◌, ◌>>◌, pure, or_throw, throw_if,
  pool_write,
}
use authometry.Signing.{random_id, or_panic}
use authometry.Client.{
  Request, invalid_client, find_application_by_client_id, active_application,
  assert_application_route,
}
use authometry.Agents.{
  verify_agent_assertion, is_location_within_resource, action_covered_by_scopes,
}
use authometry.Authorize.{filled, option_is}
use authometry.Authorize.Start.{query_value, if_given, is_url, parse_authorization}
use authometry.Authorize.PushedRequest.{parse_pushed}

abbrev pub par_unavailable : ApiError
par_unavailable = invalid_client "The requested OAuth client is not available."

abbrev pub assertion_missing : ApiError
assertion_missing = invalid_client "A signed agent assertion is required."

abbrev pub no_delegation : ApiError
no_delegation = api_error 400 "unauthorized_client" "This agent cannot receive user delegation."

abbrev pub beyond_capabilities : ApiError
beyond_capabilities =
    api_error 400 "invalid_scope" "The request exceeds the agent's registered capabilities."

abbrev pub ambiguous_action : String → ApiError
ambiguous_action action =
    api_error 400 "invalid_authorization_details"
      ("Action " +s action +s " must map to exactly one requested agent capability.")

abbrev pub no_capability : ApiError
no_capability =
    api_error 400 "invalid_scope"
      "The structured request does not map to a registered agent capability."

abbrev pub resource_unassigned : ApiError
resource_unassigned =
    api_error 400 "invalid_target" "The requested resource is not assigned to this agent."

abbrev pub details_uncovered : ApiError
details_uncovered =
    api_error 400 "invalid_authorization_details"
      "Agent actions and locations must be covered by the requested scope and resource."

abbrev pub redirect_unregistered : ApiError
redirect_unregistered =
    api_error 400 "invalid_request" "The redirect URI is not registered for this agent."

abbrev pub pkce_required : ApiError
pkce_required = api_error 400 "invalid_request" "Agent authorization requires S256 PKCE."

pub record PushAnswer : Type 0 where
  pub request_uri : String
  pub expires_in : ℕ

module _ (r : Runtime) where
  -- `match(/^AgentAssertion (.+)$/)?.[1]`.
  unfoldable pub agent_assertion : Request → Option String
  agent_assertion request = header request.authorization
    where
      header : Option String → Option String
      header none = none
      header (some value) = filled (strip_prefix "AgentAssertion " value)

  unfoldable pub within_capabilities : AgentIdentityRow → List String → Bool
  within_capabilities g scopes =
      every (λ s. str_eq s "openid" || str_eq s "agent:delegate" || includes g.capabilities s)
        scopes

  abbrev pub only : List String → Option String
  only [] = none
  only (s ∷ []) = some s
  only (s ∷ (t ∷ ss)) = none

  -- The one capability that covers the action: among the requested ones, if there are any.
  unfoldable pub capability_for : AgentIdentityRow → List String → String → Option String
  capability_for g asked action =
      let matches = keep (λ s. action_covered_by_scopes action (s ∷ [])) g.capabilities in
      only (if ltb 0 (length asked) then keep (includes asked) matches else matches)

  unfoldable pub capabilities_for : AgentIdentityRow → List String → List String → M (List String)
  capabilities_for g asked [] = pure []
  capabilities_for g asked (action ∷ actions) = do
    s ← or_throw (capability_for g asked action) (ambiguous_action action)
    ss ← capabilities_for g asked actions
    pure (s ∷ ss)

  abbrev pub actions_of : List AgentAuthorizationDetails → List String
  actions_of [] = []
  actions_of (d ∷ ds) = d.actions ++ actions_of ds

  -- `[...new Set(xs)]`.
  unfoldable pub distinct : List String → List String
  distinct [] = []
  distinct (s ∷ ss) = s ∷ keep (λ t. not (str_eq t s)) (distinct ss)

  unfoldable pub every_within : List String → String → Option Bool
  every_within [] resource = some true
  every_within (l ∷ ls) resource = elim (is_location_within_resource r l resource) [
    | none ↦ none
    | some within ↦ let rest = every_within ls resource in if within then rest else some false
  ]

  -- Every location lies within the resource and every action is covered; `none` where a comparison
  -- of URLs throws.
  unfoldable pub all_covered : List AgentAuthorizationDetails → String → List String → Option Bool
  all_covered [] resource scopes = some true
  all_covered (d ∷ ds) resource scopes = elim (every_within d.locations resource) [
    | none ↦ none
    | some within ↦
        let rest = all_covered ds resource scopes in
        if within && every (λ a. action_covered_by_scopes a scopes) d.actions
        then rest
        else some false
  ]

  abbrev pub details_given : AuthorizationParameters → List AgentAuthorizationDetails
  details_given p = given p.authorization_details
    where
      given : Option (List AgentAuthorizationDetails) → List AgentAuthorizationDetails
      given none = []
      given (some ds) = ds

  unfoldable pub granted_parameters :
      AuthorizationParameters → AgentIdentityRow → List String → AuthorizationParameters
  granted_parameters p g scopes = record p { scope = join scopes; agent_id = some g.agent_id }

  unfoldable pub insert_pushed : PushedRow → Tables → Tables
  insert_pushed p t = record t { pushed = t.pushed ++ p ∷ [] }

  unfoldable pub pushed_row : OAuthApplicationRow → String → AuthorizationParameters → PushedRow
  pushed_row a request_uri p = record {
    application_id = a.id;
    request_uri = request_uri;
    parameters = p;
    consumed_at = none;
    expires_at = r.sql_now + 90000;
  }

  unfoldable pub store_pushed : OAuthApplicationRow → AuthorizationParameters → M PushAnswer
  store_pushed a p = do
    id ← random_id r "par" 18
    let uri = "urn:ietf:params:oauth:request_uri:" +s id
    pool_write (insert_pushed (pushed_row a uri p))
    pure (record { request_uri = uri; expires_in = 90 })

  abbrev pub assigned : AgentIdentityRow → Option String → Option String
  assigned g none = none
  assigned g (some s) = if includes g.allowed_resources s then some s else none

  -- What an agent may push, from the scopes that its actions need.
  unfoldable pub push_scopes :
      OAuthApplicationRow → AuthorizationParameters → AgentIdentityRow → List String → M PushAnswer
  push_scopes a p g scopes = do
    throw_if (not (ltb 0 (length scopes))) no_capability
    resource ← or_throw (assigned g (filled p.resource)) resource_unassigned
    covered ← or_panic r (all_covered (details_given p) resource scopes) "Invalid URL"
    throw_if (not covered) details_uncovered
    throw_if (not (includes a.redirect_uris p.redirect_uri)) redirect_unregistered
    throw_if
        (not (is_some (filled p.code_challenge)) || not (option_is p.code_challenge_method "S256"))
        pkce_required
    store_pushed a (granted_parameters p g scopes)

  unfoldable pub push_for :
      OAuthApplicationRow → AuthorizationParameters → AgentIdentityRow → M PushAnswer
  push_for a p g = do
    throw_if (not g.may_receive_delegation) no_delegation
    let asked = words p.scope
    throw_if (not (within_capabilities g asked)) beyond_capabilities
    capabilities ←
        capabilities_for g (keep (includes g.capabilities) asked) (actions_of (details_given p))
    push_scopes a p g (distinct capabilities)

  unfoldable pub push_request : Request → M PushAnswer
  push_request request = do
    p ← or_panic r (parse_pushed r request) "ZodError"
    found ← find_application_by_client_id p.client_id
    a ← or_throw (active_application found) par_unavailable
    assert_application_route r a request
    assertion ← or_throw (agent_assertion request) assertion_missing
    g ← verify_agent_assertion r assertion p.client_id (a.issuer +s "/oauth/par")
    push_for a p g

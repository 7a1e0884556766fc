-- ===== src/Grant/Code.antt =====
-- `authorizationCodeGrant` of apps/server/src/oauth/tokens.ts.
pub mod Laws
pub mod Redemption
use mathlib.Core.Option
use authometry.Common.{
  ℕ, ◌+◌, ◌-◌, ◌/◌, min, max, String, Bool, true, false, Option, none, some, List, [], ◌∷◌, ◌++◌,
  ◌&&◌, ◌||◌, not, ◌==◌, ltb, if◌then◌else◌, str_eq, truthy, is_some, get_or, find, includes,
  update_where,
}
use authometry.Common.Text.{◌+s◌}
use authometry.Json.{Json, str, obj, end, field, arr, Claims}
use authometry.Database.{
  Uuid, is_active, OAuthApplicationRow, IdentityUserRow, AdminRow, AuthorizationCodeRow,
  AgentIdentityRow, AgentAuthorizationDetails, DelegationGrantRow, GrantStatus, Tables, Runtime,
  ApiError, api_error, M, ◌>>=◌, ◌>>◌, pure, throw, or_throw, throw_if, panic, transaction,
  client_read, client_write,
}
use authometry.Signing.{hash_token}
use authometry.Issue.{
  TokenSet, IssueInput, AdminIdentity, bearer, dpop, verify_pkce, issue_token_set,
}
use authometry.Agents.{find_agent_for_client, verify_dpop_proof}
use authometry.Grant.{
  invalid_grant, resource_refused, resource_indicators_match, mcp_resource_for_issuer, claim_user,
  identify_user, identify_admin, admin_claims, user_by_id, admin_by_id, holds,
}

-- The parameters of the request that the grant reads, after `String(… ?? "")`.
pub record CodeRequest : Type 0 where
  pub code : String
  pub redirect_uri : String
  pub code_verifier : String
  pub resource : String
  pub dpop : Option String

abbrev pub code_invalid : ApiError
code_invalid = invalid_grant "The authorization code is invalid."

abbrev pub code_used : ApiError
code_used = invalid_grant "The authorization code has already been used."

abbrev pub code_expired : ApiError
code_expired = invalid_grant "The authorization code has expired."

abbrev pub redirect_mismatch : ApiError
redirect_mismatch = invalid_grant "The redirect URI does not match the authorization request."

abbrev pub pkce_mismatch : ApiError
pkce_mismatch = invalid_grant "The PKCE code verifier does not match the original challenge."

abbrev pub resource_mismatch : ApiError
resource_mismatch =
    api_error 400 "invalid_target"
      "The token request resource does not match the authorization request."

abbrev pub user_inactive : ApiError
user_inactive = invalid_grant "The user is not active."

abbrev pub admin_inactive : ApiError
admin_inactive = invalid_grant "The Authometry admin is not active."

abbrev pub resource_invalid : ApiError
resource_invalid = invalid_grant "The authorization code has an invalid resource."

abbrev pub delegation_inactive : ApiError
delegation_inactive = invalid_grant "The agent delegation grant is inactive or expired."

unfoldable pub find_code : String → Tables → Option AuthorizationCodeRow
find_code hash t = find (λ c. str_eq c.code_hash hash) t.codes

abbrev pub active_user : Option IdentityUserRow → Option IdentityUserRow
active_user none = none
active_user (some u) = if is_active u.status then some u else none

abbrev pub is_live_grant : GrantStatus → Bool
is_live_grant GrantStatus.active = true
is_live_grant GrantStatus.completed = false
is_live_grant GrantStatus.revoked = false
is_live_grant GrantStatus.expired = false

module _ (r : Runtime) (application : OAuthApplicationRow) where
  abbrev pub own_code : Option AuthorizationCodeRow → Option AuthorizationCodeRow
  own_code none = none
  own_code (some c) = if c.application_id == application.id then some c else none

  -- `require_pkce && (!code_challenge || !verifyPkce(…))`.
  unfoldable pub pkce_refused : AuthorizationCodeRow → String → Bool
  pkce_refused c verifier =
      application.require_pkce
      && not (
          holds
            (λ challenge.
              truthy challenge
              && verify_pkce r verifier challenge (get_or c.code_challenge_method ""))
            c.code_challenge)

  -- The checks before the code is used up, in their order.
  unfoldable pub check_code : AuthorizationCodeRow → CodeRequest → M (Unit {0})
  check_code c request = do
    throw_if (is_some c.consumed_at) code_used
    throw_if (ltb c.expires_at r.date_now) code_expired
    throw_if (not (str_eq c.redirect_uri request.redirect_uri)) redirect_mismatch
    throw_if (pkce_refused c request.code_verifier) pkce_mismatch
    throw_if (resource_refused r (is_some c.admin_user_id) request.resource c.resource)
        resource_mismatch

  unfoldable pub consume_code : Uuid → Tables → Tables
  consume_code id t = record t {
    codes = update_where (λ c. c.id == id) (λ c. record c { consumed_at = some r.sql_now }) t.codes;
  }

  -- The code's resource, if it is the MCP server of this issuer; an issuer that is no URL throws.
  unfoldable pub admin_resource : Option String → M String
  admin_resource none = throw resource_invalid
  admin_resource (some resource) =
      if truthy resource
      then elim (mcp_resource_for_issuer r application.issuer) [
        | none ↦ panic "Invalid URL"
        | some expected ↦
            if resource_indicators_match r resource expected
            then pure resource
            else throw resource_invalid
      ]
      else throw resource_invalid

  unfoldable pub admin_issue_input : AuthorizationCodeRow → String → AdminRow → IssueInput
  admin_issue_input c resource admin = record {
    user = none;
    auth_time = 0;
    scopes = c.scope;
    nonce = c.nonce;
    include_refresh_token = includes c.scope "offline_access";
    audience = some resource;
    access_token_lifetime_seconds = none;
    access_token_claims = admin_claims r admin;
    token_type = bearer;
    subject = some (r.uuid_text admin.id);
    admin_user_id = some admin.id;
    admin_identity = some (record {
      id_text = r.uuid_text admin.id;
      email = admin.email;
      name = admin.name;
      email_verified = is_some admin.email_verified_at;
      auth_time = c.auth_time;
    });
    resource = some resource;
  }

  unfoldable pub issue_for_admin : AuthorizationCodeRow → Uuid → M TokenSet
  issue_for_admin c admin_id = do
    row ← client_read (admin_by_id admin_id application.workspace_id)
    admin ← or_throw row admin_inactive
    resource ← admin_resource c.resource
    identify_admin admin
    issue_token_set r application (admin_issue_input c resource admin)

  -- A delegation grant with the agent that acts on it and the key of its DPoP proof.
  pub record Delegation : Type 0 where
    pub grant : DelegationGrantRow
    pub agent : AgentIdentityRow
    pub jkt : String

  -- The pair, if both are active, the grant has not expired and the agent is its actor.
  abbrev pub acting :
      Option DelegationGrantRow
      → Option AgentIdentityRow
      → Option (DelegationGrantRow × AgentIdentityRow)
  acting none agent = none
  acting (some g) none = none
  acting (some g) (some a) =
      if is_live_grant g.status
        && not (ltb g.expires_at r.date_now)
        && is_active a.status
        && g.actor_agent_id == a.id
      then some (g, a)
      else none

  unfoldable pub bind_key : Uuid → String → Tables → Tables
  bind_key id jkt t = record t {
    grants = update_where (λ g. g.id == id) (λ g. record g { dpop_jkt = some jkt }) t.grants;
  }

  unfoldable pub delegation : CodeRequest → Option Uuid → M (Option Delegation)
  delegation request none = pure none
  delegation request (some grant_id) = do
    grant ← client_read (λ t. find (λ g. g.id == grant_id) t.grants)
    agent ← find_agent_for_client application.client_id
    pair ← or_throw (acting grant agent) delegation_inactive
    jkt ← verify_dpop_proof r request.dpop "POST" (application.issuer +s "/oauth/token")
    client_write (bind_key pair.0.id jkt)
    pure (some (record { grant = pair.0; agent = pair.1; jkt = jkt }))

  -- `Math.max(1, Math.min(lifetime, Math.floor((expires_at - now) / 1000)))`; past instants give 1.
  unfoldable pub remaining_lifetime : ℕ → ℕ → ℕ
  remaining_lifetime lifetime_seconds expires_at =
      max 1 (min lifetime_seconds ((expires_at - r.date_now) / 1000))

  abbrev pub actor_claim : AgentIdentityRow → Json
  actor_claim a = obj (field "sub" (str a.agent_id) (field "operator" (str a.operator_id) end))

  -- `...(task_id ? { authometry_task_id } : {})`.
  abbrev pub task_claims : Option String → Claims
  task_claims none = []
  task_claims (some id) = if truthy id then ("authometry_task_id", some (str id)) ∷ [] else []

  unfoldable pub delegation_claims : Delegation → Claims
  delegation_claims d =
      ("act", some (actor_claim d.agent))
        ∷ ("authorization_details", some (r.details_json d.grant.authorization_details))
        ∷ ("authometry_grant_id", some (str (r.uuid_text d.grant.id)))
        ∷ task_claims d.grant.task_id
      ++ ("cnf", some (obj (field "jkt" (str d.jkt) end))) ∷ []

  -- `resource ? { audience: resource, resource } : {}`.
  abbrev pub own_resource : Option String → Option String
  own_resource none = none
  own_resource (some s) = if truthy s then some s else none

  unfoldable pub user_issue_input :
      AuthorizationCodeRow → IdentityUserRow → Option Delegation → IssueInput
  unfolding claim_user
  user_issue_input c user none = record {
    user = some (claim_user r user);
    auth_time = c.auth_time;
    scopes = c.scope;
    nonce = c.nonce;
    include_refresh_token = includes c.scope "offline_access";
    audience = own_resource c.resource;
    access_token_lifetime_seconds = none;
    access_token_claims = [];
    token_type = bearer;
    subject = none;
    admin_user_id = none;
    admin_identity = none;
    resource = own_resource c.resource;
  }
  user_issue_input c user (some d) = record {
    user = some (claim_user r user);
    auth_time = c.auth_time;
    scopes = c.scope;
    nonce = c.nonce;
    include_refresh_token = false;
    audience = some d.grant.resource;
    access_token_lifetime_seconds =
        some (remaining_lifetime application.access_token_lifetime_seconds d.grant.expires_at);
    access_token_claims = delegation_claims d;
    token_type = dpop;
    subject = none;
    admin_user_id = none;
    admin_identity = none;
    resource = own_resource c.resource;
  }

  abbrev pub find_user : Option Uuid → M (Option IdentityUserRow)
  find_user none = pure none
  find_user (some id) = client_read (user_by_id id)

  unfoldable pub issue_for_user : AuthorizationCodeRow → CodeRequest → M TokenSet
  issue_for_user c request = do
    row ← find_user c.user_id
    user ← or_throw (active_user row) user_inactive
    identify_user user
    delegated ← delegation request c.delegation_grant_id
    issue_token_set r application (user_issue_input c user delegated)

  unfoldable pub issue_for : Option Uuid → AuthorizationCodeRow → CodeRequest → M TokenSet
  issue_for (some admin_id) c request = issue_for_admin c admin_id
  issue_for none c request = issue_for_user c request

  unfoldable pub code_work : CodeRequest → M TokenSet
  code_work request = do
    row ← client_read (find_code (hash_token r request.code))
    c ← or_throw (own_code row) code_invalid
    check_code c request
    client_write (consume_code c.id)
    issue_for c.admin_user_id c request

  unfoldable pub authorization_code_grant : CodeRequest → M TokenSet
  authorization_code_grant request = transaction (code_work request)

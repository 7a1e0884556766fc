-- ===== src/Grant/Exchange.antt =====
-- `tokenExchangeGrant` of apps/server/src/oauth/tokens.ts: one agent delegates to another.
pub mod Laws
use authometry.Common.{
  ℕ, ◌+◌, String, Bool, true, false, Option, none, some, List, [], ◌∷◌, ◌++◌, ◌&&◌, ◌||◌, not, ◌==◌,
  ltb, leb, if◌then◌else◌, str_eq, truthy, is_some, find, every, includes, length,
}
use authometry.Common.Text.{◌+s◌}
use authometry.Json.{
  Json, str, arr, obj, Items, nil, cons, Fields, end, field, Claims, get_claim, truthy_claim,
  claim_is, string_claim,
}
use authometry.Database.{
  Uuid, is_active, OAuthApplicationRow, IdentityUserRow, AgentIdentityRow,
  AgentAuthorizationDetails, DelegationGrantRow, GrantStatus, Tables, Runtime, ApiError, api_error,
  M, ◌>>=◌, ◌>>◌, pure, or_throw, throw_if, transaction, client_read, client_write, pool_read, draw,
}
use authometry.Signing.{verify_oauth_jwt}
use authometry.Issue.{TokenSet, IssueInput, dpop, issue_token_set}
use authometry.Agents.{
  active_agent, find_agent_for_client, find_agent_by_id, verify_agent_assertion, verify_dpop_proof,
  reduce_authorization_details,
}
use authometry.Grant.{invalid_grant, claim_user, auth_time_of, identify_user}
use authometry.Grant.Code.{active_user, is_live_grant, remaining_lifetime, task_claims}

-- The parameters of the request that the grant reads; `scopes` is split already.
pub record ExchangeRequest : Type 0 where
  pub subject_token : String
  pub subject_token_type : String
  pub actor_token : String
  pub actor_token_type : String
  pub resource : String
  pub scopes : List String
  pub dpop : Option String

abbrev pub exchange_incomplete : ApiError
exchange_incomplete =
    api_error 400 "invalid_request"
      "Token exchange requires subject, actor, resource, and scope inputs."

abbrev pub invalid_actor : String → ApiError
invalid_actor message = api_error 400 "invalid_actor" message

abbrev pub not_delegated : ApiError
not_delegated = invalid_grant "The subject token is not an agent delegation token."

abbrev pub parent_refused : ApiError
parent_refused = invalid_grant "The parent grant cannot be delegated."

abbrev pub not_a_subset : ApiError
not_a_subset = api_error 400 "invalid_scope" "A child grant must be a strict subset of its parent."

abbrev pub not_registered : ApiError
not_registered =
    api_error 400 "invalid_target"
      "The receiving agent is not registered for the requested authority."

abbrev pub no_action_left : ApiError
no_action_left =
    api_error 400 "invalid_scope" "The reduced scope does not authorize any parent action."

abbrev pub is_empty {ℓ} : {A : Type ℓ} → List A → Bool
is_empty [] = true
is_empty (x ∷ xs) = false

-- `aud` as a text or a list of texts.
abbrev pub items_include : Items → String → Bool
items_include nil s = false
items_include (cons j js) s = claim_is (some j) s || items_include js s

abbrev pub audience_includes : Option Json → String → Bool
audience_includes none s = false
audience_includes (some (arr xs)) s = items_include xs s
audience_includes (some (str t)) s = str_eq t s
audience_includes (some Json.null) s = false
audience_includes (some (Json.bool b)) s = false
audience_includes (some (Json.num n)) s = false
audience_includes (some (obj fs)) s = false

-- `...(parentAct ? { act: parentAct } : {})`, for an object or an array.
abbrev pub nested_act : Option Json → Fields
nested_act none = end
nested_act (some (obj fs)) = field "act" (obj fs) end
nested_act (some (arr xs)) = field "act" (arr xs) end
nested_act (some Json.null) = end
nested_act (some (Json.bool b)) = end
nested_act (some (Json.num n)) = end
nested_act (some (str s)) = end

unfoldable pub request_incomplete : ExchangeRequest → Bool
request_incomplete q =
    not (str_eq q.subject_token_type "urn:ietf:params:oauth:token-type:access_token")
    || not (str_eq q.actor_token_type "urn:ietf:params:oauth:token-type:jwt")
    || not (truthy q.subject_token)
    || not (truthy q.actor_token)
    || not (truthy q.resource)
    || is_empty q.scopes

abbrev pub receiver : Option AgentIdentityRow → Option AgentIdentityRow
receiver none = none
receiver (some g) = if is_active g.status && g.may_receive_delegation then some g else none

-- Who delegates, who receives, the receiver's client, the subject token and the proof's key.
pub record Exchange : Type 0 where
  pub requester : AgentIdentityRow
  pub agent : AgentIdentityRow
  pub target : OAuthApplicationRow
  pub payload : Claims
  pub jkt : String

-- The new grant with its parent.
pub record Child : Type 0 where
  pub parent : DelegationGrantRow
  pub grant : DelegationGrantRow

-- A stored grant with the agent that acts on it.
abbrev pub find_parent : Runtime → String → Tables → Option (DelegationGrantRow × AgentIdentityRow)
find_parent r id t = elim (find (λ g. str_eq (r.uuid_text g.id) id) t.grants) [
  | none ↦ none
  | some g ↦ elim (find (λ a. a.id == g.actor_agent_id) t.agents) [
    | none ↦ none
    | some a ↦ some (g, a)
  ]
]

module _ (r : Runtime) (application : OAuthApplicationRow) (q : ExchangeRequest) where
  abbrev token_url : String
  token_url = application.issuer +s "/oauth/token"

  unfoldable pub exchange_inputs : M Exchange
  exchange_inputs = do
    throw_if (request_incomplete q) exchange_incomplete
    requester_row ← find_agent_for_client application.client_id
    requester ←
        or_throw (active_agent requester_row) (invalid_actor "The delegating agent is not active.")
    actor ← or_throw (r.decode_jwt q.actor_token) (invalid_actor "The actor token is malformed.")
    agent_row ← find_agent_by_id application.environment_id (string_claim (get_claim "iss" actor))
    agent ←
        or_throw (receiver agent_row)
          (invalid_actor "The receiving agent cannot accept delegated grants.")
    target_row ←
        pool_read
          (λ t. find (λ a. a.id == agent.application_id && is_active a.status) t.applications)
    target ← or_throw target_row (invalid_actor "The receiving agent client is disabled.")
    verify_agent_assertion r q.actor_token target.client_id token_url
    payload ← verify_oauth_jwt r q.subject_token (some application.issuer)
    throw_if
        (not (claim_is (get_claim "token_use" payload) "access")
          || not (truthy_claim (get_claim "sub" payload))
          || not (truthy (string_claim (get_claim "authometry_grant_id" payload))))
        not_delegated
    jkt ← verify_dpop_proof r q.dpop "POST" token_url
    pure (record {
      requester = requester;
      agent = agent;
      target = target;
      payload = payload;
      jkt = jkt;
    })

  -- The parent, if its agent may delegate it further to this depth and the subject token is of it.
  abbrev pub delegable :
      Exchange → Option (DelegationGrantRow × AgentIdentityRow) → Option DelegationGrantRow
  delegable x none = none
  delegable x (some (g, a)) =
      if is_live_grant g.status
        && not (ltb g.expires_at r.date_now)
        && a.may_delegate
        && ltb g.delegation_depth a.maximum_delegation_depth
        && g.actor_agent_id == x.requester.id
        && claim_is (get_claim "sub" x.payload) (r.uuid_text g.subject_user_id)
        && audience_includes (get_claim "aud" x.payload) g.resource
      then some g
      else none

  unfoldable pub child_grant :
      Exchange → DelegationGrantRow → List AgentAuthorizationDetails → Uuid → DelegationGrantRow
  child_grant x parent details id = record {
    id = id;
    workspace_id = application.workspace_id;
    environment_id = application.environment_id;
    application_id = x.target.id;
    subject_user_id = parent.subject_user_id;
    actor_agent_id = x.agent.id;
    parent_grant_id = some parent.id;
    resource = q.resource;
    scopes = q.scopes;
    authorization_details = details;
    purpose = parent.purpose;
    task_id = parent.task_id;
    dpop_jkt = some x.jkt;
    delegation_depth = parent.delegation_depth + 1;
    maximum_usage = parent.maximum_usage;
    status = GrantStatus.active;
    expires_at = parent.expires_at;
  }

  -- The work of the transaction.
  unfoldable pub delegate : Exchange → M Child
  delegate x = do
    row ← client_read (find_parent r (string_claim (get_claim "authometry_grant_id" x.payload)))
    parent ← or_throw (delegable x row) parent_refused
    throw_if
        (not (str_eq q.resource parent.resource) || not (every (includes parent.scopes) q.scopes))
        not_a_subset
    throw_if
        (not (includes x.agent.allowed_resources q.resource)
          || not (every (includes x.agent.capabilities) q.scopes))
        not_registered
    let details = reduce_authorization_details parent.authorization_details q.scopes
    throw_if (is_empty details) no_action_left
    id ← draw
    let child = child_grant x parent details (r.random_uuid id)
    client_write (λ t. record t { grants = t.grants ++ child ∷ [] })
    pure (record { parent = parent; grant = child })

  unfoldable pub exchange_claims : Exchange → Child → Claims
  exchange_claims x child =
      (
        "act",
        some (
            obj (
              field "sub" (str x.agent.agent_id) (
                field "operator" (str x.agent.operator_id)
                  (nested_act (get_claim "act" x.payload))))),
      )
        ∷ ("authorization_details", some (r.details_json child.grant.authorization_details))
        ∷ ("authometry_grant_id", some (str (r.uuid_text child.grant.id)))
        ∷ ("authometry_parent_grant", some (str (r.uuid_text child.parent.id)))
        ∷ task_claims r application child.parent.task_id
      ++ ("cnf", some (obj (field "jkt" (str x.jkt) end))) ∷ []

  unfoldable pub exchange_issue_input : Exchange → Child → IdentityUserRow → IssueInput
  unfolding claim_user
  exchange_issue_input x child user = record {
    user = some (claim_user r user);
    auth_time = auth_time_of r (some user);
    scopes = q.scopes;
    nonce = none;
    include_refresh_token = false;
    audience = some q.resource;
    access_token_lifetime_seconds = some (
        remaining_lifetime r application x.target.access_token_lifetime_seconds
          child.parent.expires_at);
    access_token_claims = exchange_claims x child;
    token_type = dpop;
    subject = none;
    admin_user_id = none;
    admin_identity = none;
    resource = none;
  }

  unfoldable pub issue_child : Exchange → Child → M TokenSet
  issue_child x child = do
    row ←
        pool_read (λ t. find (λ u. claim_is (get_claim "sub" x.payload) (r.uuid_text u.id)) t.users)
    user ← or_throw (active_user row) (invalid_grant "The subject is inactive.")
    identify_user user
    issued ← issue_token_set r x.target (exchange_issue_input x child user)
    pure
        (record issued { issued_token_type = some "urn:ietf:params:oauth:token-type:access_token" })

  unfoldable pub token_exchange_grant : M TokenSet
  token_exchange_grant = do
    x ← exchange_inputs
    child ← transaction (delegate x)
    issue_child x child

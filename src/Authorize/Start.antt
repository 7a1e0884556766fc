-- ===== src/Authorize/Start.antt =====
-- `GET /oauth/authorize` of apps/server/src/oauth/authorization.ts. The parameters are those of the
-- query, none given twice: a repeated one is an array, which the schema refuses.
pub mod Laws
use authometry.Common.{
  ℕ, ◌+◌, ◌-◌, ◌*◌, String, Bool, true, false, Option, none, some, List, [], ◌∷◌, ◌++◌, ◌&&◌, ◌||◌,
  not, ◌==◌, ltb, leb, if◌then◌else◌, str_eq, truthy, is_some, find, includes, any, every,
  update_where,
}
use authometry.Common.Text.{◌+s◌, words, number_of, text_length}
use authometry.Database.{
  Uuid, OAuthApplicationRow, IdentityUserRow, AuthorizationParameters, PendingStatus,
  PendingAuthorizationRow, PushedRow, Tables, Runtime, ApiError, api_error, Outcome, ok, fail,
  crash, M, ◌>>=◌, ◌>>◌, pure, or_throw, throw_if, pool_read, pool_write, draw,
}
use authometry.Signing.{random_id, or_panic}
use authometry.Client.{
  Request, find_application_by_client_id, active_application, assert_application_route,
}
use authometry.Grant.{holds, resource_indicators_match, mcp_resource_for_issuer}
use authometry.Admin.{Browser}
use authometry.Authorize.{
  Next, with_error, login_page, consent_page, filled, option_is, oauth_redirect, covers, consent_of,
  is_mcp_authorization, load_pending, existing_user_session,
}
use authometry.Authorize.Issue.{authorization_redirect}
use authometry.Authorize.Continue.{continue_mcp_authorization}

abbrev pub Query : Type 0
Query = List (String × String)

abbrev pub second : Option (String × String) → Option String
second none = none
second (some p) = some p.1

abbrev pub query_value : String → Query → Option String
query_value name q = second (find (λ p. str_eq p.0 name) q)

abbrev pub malformed : ApiError
malformed = api_error 400 "invalid_request" "The authorization request is malformed."

abbrev pub request_uri_invalid : ApiError
request_uri_invalid =
    api_error 400 "invalid_request_uri"
      "The pushed authorization request is invalid, expired, or already used."

abbrev pub client_unavailable : ApiError
client_unavailable = api_error 400 "invalid_client" "The requested OAuth client is not available."

abbrev pub redirect_uri_mismatch : ApiError
redirect_uri_mismatch =
    api_error 400 "redirect_uri_mismatch" "The redirect URI is not registered for this application."

-- An optional value that is missing or passes the test.
abbrev pub if_given : (String → Bool) → Option String → Bool
if_given p none = true
if_given p (some s) = p s

abbrev pub prompts : List String
prompts = "none" ∷ "login" ∷ "consent" ∷ "select_account" ∷ []

abbrev pub number_in : Option String → Option ℕ
number_in none = none
number_in (some s) = number_of s

module _ (r : Runtime) where
  abbrev pub is_url : String → Bool
  is_url s = is_some (r.parse_url s)

  -- The tests of `authorizationSchema` on the optional parameters.
  unfoldable pub optional_valid : Query → Bool
  optional_valid q =
      if_given (λ s. leb (text_length s) 2048) (query_value "state" q)
      && if_given (λ s. leb (text_length s) 2048) (query_value "nonce" q)
      && if_given (λ s. leb 43 (text_length s) && leb (text_length s) 128)
          (query_value "code_challenge" q)
      && if_given (λ s. str_eq s "S256") (query_value "code_challenge_method" q)
      && if_given (includes prompts) (query_value "prompt" q)
      && if_given (λ s. is_some (number_of s)) (query_value "max_age" q)
      && if_given is_url (query_value "resource" q)

  abbrev pub required :
      Query → Option String → Option String → Option String → Option AuthorizationParameters
  required q (some client_id) (some redirect_uri) (some scope) =
      if truthy client_id
        && is_url redirect_uri
        && option_is (query_value "response_type" q) "code"
        && truthy scope
        && optional_valid q
      then some (record {
        client_id = client_id;
        redirect_uri = redirect_uri;
        scope = scope;
        state = query_value "state" q;
        nonce = query_value "nonce" q;
        code_challenge = query_value "code_challenge" q;
        code_challenge_method = query_value "code_challenge_method" q;
        prompt = query_value "prompt" q;
        max_age = number_in (query_value "max_age" q);
        resource = query_value "resource" q;
        authorization_details = none;
        purpose = none;
        task_id = none;
        agent_id = none;
      })
      else none
  required q none redirect_uri scope = none
  required q (some client_id) none scope = none
  required q (some client_id) (some redirect_uri) none = none

  -- `authorizationSchema.parse`.
  unfoldable pub parse_authorization : Query → Option AuthorizationParameters
  parse_authorization q =
      required q (query_value "client_id" q) (query_value "redirect_uri" q) (query_value "scope" q)

  unfoldable pub is_pushed : String → String → Tables → PushedRow → Bool
  is_pushed client_id request_uri t p =
      str_eq p.request_uri request_uri
      && any (λ a. a.id == p.application_id && str_eq a.client_id client_id) t.applications
      && not (is_some p.consumed_at)
      && ltb r.sql_now p.expires_at

  unfoldable pub consume_pushed : String → String → Tables → Tables
  consume_pushed client_id request_uri t = record t {
    pushed =
        update_where (is_pushed client_id request_uri t)
          (λ p. record p { consumed_at = some r.sql_now }) t.pushed;
  }

  abbrev pub parameters_of : Option PushedRow → Option AuthorizationParameters
  parameters_of none = none
  parameters_of (some p) = some p.parameters

  -- `UPDATE … RETURNING`: the rows updated are those found before.
  unfoldable pub take_pushed : String → String → M AuthorizationParameters
  take_pushed client_id request_uri = do
    found ← pool_read (λ t. find (is_pushed client_id request_uri t) t.pushed)
    pool_write (consume_pushed client_id request_uri)
    or_throw (parameters_of found) request_uri_invalid

  abbrev pub by_reference : Query → Option String → Option String → M AuthorizationParameters
  by_reference q (some client_id) (some request_uri) = take_pushed client_id request_uri
  by_reference q none request_uri = or_throw (parse_authorization q) malformed
  by_reference q (some client_id) none = or_throw (parse_authorization q) malformed

  -- A query that the schema refuses is malformed: `GET /authorize` turns the error of zod into this
  -- one.
  unfoldable pub resolve_authorization_parameters : Query → M AuthorizationParameters
  resolve_authorization_parameters q =
      by_reference q (filled (query_value "client_id" q)) (filled (query_value "request_uri" q))

  unfoldable pub new_request :
      AuthorizationParameters → OAuthApplicationRow → Uuid → String → PendingAuthorizationRow
  new_request p a id request_id = record {
    id = id;
    workspace_id = a.workspace_id;
    environment_id = a.environment_id;
    application_id = a.id;
    request_id = request_id;
    parameters = p;
    user_id = none;
    admin_user_id = none;
    status = PendingStatus.pending;
    expires_at = r.sql_now + 600000;
  }

  unfoldable pub insert_request : PendingAuthorizationRow → Tables → Tables
  insert_request p t = record t { pending = t.pending ++ p ∷ [] }

  -- `Date.now() - last_authenticated_at > Number(max_age) * 1000`, or never authenticated.
  unfoldable pub is_stale : Option ℕ → Option ℕ → Bool
  is_stale none last = false
  is_stale (some max_age) none = true
  is_stale (some max_age) (some instant) = ltb (max_age * 1000) (r.date_now - instant)

  abbrev pub fresh : Option ℕ → Option IdentityUserRow → Option IdentityUserRow
  fresh max_age none = none
  fresh max_age (some u) = if is_stale max_age u.last_authenticated_at then none else some u

  unfoldable pub current_user :
      Browser → AuthorizationParameters → OAuthApplicationRow → M (Option IdentityUserRow)
  current_user b p a =
      if holds (includes ("login" ∷ "select_account" ∷ [])) p.prompt then pure none else (do
        found ← existing_user_session r b.user_session a.workspace_id
        pure (fresh p.max_age found))

  unfoldable pub ask_consent : String → Uuid → M Next
  ask_consent request_id user_id = do
    pool_write (λ t. record t {
      pending =
          update_where (λ q. str_eq q.request_id request_id)
            (λ q. record q { status = PendingStatus.awaiting_consent; user_id = some user_id })
            t.pending;
    })
    pure (consent_page request_id)

  unfoldable pub continue_as :
      AuthorizationParameters → OAuthApplicationRow → String → Option IdentityUserRow → M Next
  continue_as p a request_id none = pure (
      if option_is p.prompt "none"
      then oauth_redirect p "login_required" none
      else login_page request_id)
  continue_as p a request_id (some user) = do
    consent ← pool_read (consent_of a user.id)
    if not (is_some (filled p.agent_id))
          && (not a.require_consent
              || not (option_is p.prompt "consent") && covers consent (words p.scope))
        then (do opened ← load_pending r request_id; authorization_redirect r opened.pending a user)
        else if option_is p.prompt "none"
        then pure (oauth_redirect p "consent_required" none)
        else ask_consent request_id user.id

  unfoldable pub continue_by :
      Browser → AuthorizationParameters → OAuthApplicationRow → String → Bool → M Next
  continue_by b p a request_id mcp =
      if mcp
      then (do opened ← load_pending r request_id; continue_mcp_authorization r b opened.pending a)
      else (do user ← current_user b p a; continue_as p a request_id user)

  unfoldable pub accept :
      Browser → AuthorizationParameters → OAuthApplicationRow → String → Bool → M Next
  accept b p a request_id mcp = do
    n ← draw
    pool_write (insert_request (new_request p a (r.random_uuid n) request_id))
    continue_by b p a request_id mcp

  -- Scopes of the MCP server, or its resource, asked for by what is no request for MCP.
  unfoldable pub wrong_target : AuthorizationParameters → String → Bool → Bool
  wrong_target p expected mcp =
      (any (includes ("mcp:read" ∷ "mcp:write" ∷ [])) (words p.scope)
        || holds (λ s. resource_indicators_match r s expected) (filled p.resource))
      && not mcp

  unfoldable pub lacks_pkce : AuthorizationParameters → OAuthApplicationRow → Bool
  lacks_pkce p a =
      a.require_pkce
      && (not (is_some (filled p.code_challenge)) || not (option_is p.code_challenge_method "S256"))

  unfoldable pub check_target :
      Browser → AuthorizationParameters → OAuthApplicationRow → String → M Next
  check_target b p a request_id = do
    expected ← or_panic r (mcp_resource_for_issuer r a.issuer) "Invalid URL"
    mcp ← or_panic r (is_mcp_authorization r p a) "Invalid URL"
    if wrong_target p expected mcp
        then pure
            (oauth_redirect p "invalid_target" (some ("The resource must be " +s expected +s ".")))
        else if lacks_pkce p a
        then pure (oauth_redirect p "invalid_request" (some "S256 PKCE is required."))
        else accept b p a request_id mcp

  unfoldable pub authorize : Request → Browser → Query → M Next
  authorize request b q = do
    p ← resolve_authorization_parameters q
    found ← find_application_by_client_id p.client_id
    a ← or_throw (active_application found) client_unavailable
    assert_application_route r a request
    request_id ← random_id r "req" 7
    throw_if (not (includes a.redirect_uris p.redirect_uri)) redirect_uri_mismatch
    if not (every (includes a.allowed_scopes) (words p.scope))
        then pure (oauth_redirect p "invalid_scope" none)
        else check_target b p a request_id

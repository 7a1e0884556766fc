-- ===== src/Client.antt =====
-- apps/server/src/oauth/common.ts: how a client authenticates at the OAuth endpoints.
pub mod Authentication
use authometry.Common.{
  ℕ, String, Bool, true, false, Option, none, some, List, [], ◌∷◌, ◌&&◌, ◌||◌, not, ◌==◌, ltb,
  if◌then◌else◌, str_eq, truthy, is_some, get_or, find, any, update_where,
}
use authometry.Common.Text.{◌+s◌, strip_prefix, strip_slash, cut, before_marker}
use authometry.Database.{
  Uuid, OAuthApplicationRow, AuthMethod, CredentialRow, Tables, Url, Runtime, ApiError, api_error,
  is_active, M, ◌>>=◌, ◌>>◌, pure, throw, or_throw, throw_if, pool_read, pool_write,
}
use authometry.Signing.{hash_token, or_panic}
use authometry.Agents.{verify_agent_assertion}

-- What the handlers read of a request; the parameters of the body as `String` gives them.
pub record Request : Type 0 where
  pub authorization : Option String
  pub dpop : Option String
  pub original_url : String
  pub body : List (String × String)

-- `String(request.body[name] ?? "")`.
abbrev pub param : String → Request → String
param name request = value (find (λ p. str_eq p.0 name) request.body)
  where
    value : Option (String × String) → String
    value none = ""
    value (some p) = p.1

-- `request.body[name] ? String(request.body[name]) : undefined`.
abbrev pub optional_param : String → Request → Option String
optional_param name request =
    if truthy (param name request) then some (param name request) else none

abbrev pub invalid_client : String → ApiError
invalid_client message = api_error 401 "invalid_client" message

abbrev pub failed : ApiError
failed = invalid_client "Client authentication failed."

abbrev pub no_secret_expected : ApiError
no_secret_expected = invalid_client "This public client does not use a client secret."

abbrev pub assertion_required : ApiError
assertion_required = invalid_client "A private_key_jwt client assertion is required."

abbrev pub basic_required : ApiError
basic_required = invalid_client "This client must authenticate with HTTP Basic."

abbrev pub body_required : ApiError
body_required = invalid_client "This client must authenticate in the request body."

abbrev pub other_issuer : ApiError
other_issuer = api_error 400 "invalid_client" "The OAuth client is not available at this issuer."

-- `oauth_applications a JOIN environments e … WHERE a.client_id = $1 AND e.status = 'active'`.
unfoldable pub application_of : String → Tables → Option OAuthApplicationRow
application_of client_id t =
    find (λ a. str_eq a.client_id client_id && a.environment_active) t.applications

unfoldable pub find_application_by_client_id : String → M (Option OAuthApplicationRow)
find_application_by_client_id client_id = pool_read (application_of client_id)

abbrev pub active_application : Option OAuthApplicationRow → Option OAuthApplicationRow
active_application none = none
active_application (some a) = if is_active a.status then some a else none

module _ (r : Runtime) where
  -- `none` where the issuer is no URL.
  abbrev pub normalized_issuer_path : String → Option String
  normalized_issuer_path issuer = elim (r.parse_url issuer) [
    | none ↦ none
    | some url ↦ let path = strip_slash url.pathname in some (if str_eq path "/" then "" else path)
  ]

  abbrev pub same_path : Option String → String → Bool
  same_path none path = false
  same_path (some before) path = str_eq before path

  unfoldable pub assert_application_route : OAuthApplicationRow → Request → M (Unit {0})
  assert_application_route application request = do
    url ← or_panic r (r.resolve_url request.original_url application.issuer) "Invalid URL"
    path ← or_panic r (normalized_issuer_path application.issuer) "Invalid URL"
    throw_if (not (same_path (before_marker "/oauth/" url.pathname) path)) other_issuer

  -- The client and its secret of an `Authorization: Basic` header.
  unfoldable pub parse_basic_authorization : Request → Option (String × String)
  parse_basic_authorization request = header request.authorization
    where
      decoded : Option (String × String) → Option (String × String)
      decoded none = none
      decoded (some (client_id, secret)) = elim (r.decode_uri client_id) [
        | none ↦ none
        | some i ↦ elim (r.decode_uri secret) [ none ↦ none | some s ↦ some (i, s) ]
      ]

      header : Option String → Option (String × String)
      header none = none
      header (some value) = elim (strip_prefix "Basic " value) [
        | none ↦ none
        | some encoded ↦ decoded (cut b':' (r.base64_text encoded))
      ]

  -- `revoked_at IS NULL AND (expires_at IS NULL OR expires_at > now())`.
  unfoldable pub is_live_credential : Uuid → CredentialRow → Bool
  is_live_credential application_id c =
      c.application_id == application_id && not (is_some c.revoked_at) && expires c.expires_at
    where
      expires : Option ℕ → Bool
      expires none = true
      expires (some instant) = ltb r.sql_now instant

  unfoldable pub has_secret : Uuid → String → Tables → Bool
  has_secret application_id hash t =
      any (λ c. is_live_credential application_id c && str_eq c.secret_hash hash) t.credentials

  unfoldable pub touch_credential : Uuid → String → Tables → Tables
  touch_credential application_id hash t = record t {
    credentials =
        update_where (λ c. c.application_id == application_id && str_eq c.secret_hash hash)
          (λ c. record c { last_used_at = some r.sql_now }) t.credentials;
  }

  -- The secret of a confidential client.
  unfoldable pub check_secret : OAuthApplicationRow → String → M OAuthApplicationRow
  check_secret application secret = do
    throw_if (not (truthy secret)) failed
    known ← pool_read (has_secret application.id (hash_token r secret))
    throw_if (not known) failed
    pool_write (touch_credential application.id (hash_token r secret))
    pure application

  -- What `token_endpoint_auth_method` asks for; the flag says that HTTP Basic was used.
  unfoldable pub authenticate_by :
      AuthMethod → Bool → String → Request → OAuthApplicationRow → M OAuthApplicationRow
  authenticate_by AuthMethod.public_client basic secret request application = do
    throw_if (truthy secret) no_secret_expected
    pure application
  authenticate_by AuthMethod.private_key_jwt basic secret request application = do
    throw_if
        (not (
            str_eq (param "client_assertion_type" request)
              "urn:ietf:params:oauth:client-assertion-type:jwt-bearer")
          || not (truthy (param "client_assertion" request)))
        assertion_required
    verify_agent_assertion r (param "client_assertion" request) application.client_id
        (application.issuer +s "/oauth/token")
    pure application
  authenticate_by AuthMethod.client_secret_basic basic secret request application = do
    throw_if (not basic) basic_required
    check_secret application secret
  authenticate_by AuthMethod.client_secret_post basic secret request application = do
    throw_if basic body_required
    check_secret application secret

  abbrev pub client_id_of : Request → String
  client_id_of request = name (parse_basic_authorization request)
    where
      name : Option (String × String) → String
      name none = param "client_id" request
      name (some p) = p.0

  abbrev pub secret_of : Request → String
  secret_of request = secret (parse_basic_authorization request)
    where
      secret : Option (String × String) → String
      secret none = param "client_secret" request
      secret (some p) = p.1

  unfoldable pub authenticate_client : Request → M OAuthApplicationRow
  authenticate_client request = do
    found ← find_application_by_client_id (client_id_of request)
    application ← or_throw (active_application found) failed
    assert_application_route application request
    authenticate_by application.token_endpoint_auth_method
        (is_some (parse_basic_authorization request)) (secret_of request) request application

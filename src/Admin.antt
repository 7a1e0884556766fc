-- ===== src/Admin.antt =====
-- apps/server/src/auth/admin.ts and lib/security.ts: who an administrator's request comes from.
-- The cookies that a response sets or clears are not modelled.
pub mod Laws
pub mod Effects
use authometry.Common.{
  ℕ, ◌+◌, String, Bool, true, false, Option, none, some, List, [], ◌∷◌, ◌&&◌, ◌||◌, not, ◌==◌, ltb,
  if◌then◌else◌, str_eq, truthy, is_some, find, includes, update_where,
}
use authometry.Common.Text.{◌+s◌, split, strip_prefix, starts}
use authometry.Json.{str, Claims, get_claim, claim_is, string_claim}
use authometry.Database.{
  Uuid, AdminRow, AdminSessionRow, PersonalTokenRow, Tables, Runtime, ApiError, api_error, M, ◌>>=◌,
  ◌>>◌, pure, throw, or_throw, throw_if, pool_read, pool_write, rescue,
}
use authometry.Signing.{random_token, hash_token}

-- What the handlers read of a browser: its cookies, the method and two headers.
pub record Browser : Type 0 where
  pub method : String
  pub authorization : Option String
  pub user_session : Option String
  pub admin_access : Option String
  pub admin_refresh : Option String
  pub csrf_cookie : Option String
  pub csrf_header : Option String

-- `request.admin`; the scopes are those of a personal access token.
pub record Principal : Type 0 where
  pub user_id : Uuid
  pub email : String
  pub workspace_id : Uuid
  pub role : String
  pub token_scopes : Option (List String)

abbrev pub token_refused : ApiError
token_refused = api_error 401 "invalid_token" "The access token is invalid or expired."

abbrev pub sign_in : ApiError
sign_in = api_error 401 "authentication_required" "Sign in to continue."

abbrev pub csrf_failed : ApiError
csrf_failed = api_error 403 "csrf_failed" "Refresh the page and try again."

-- `admin_users u JOIN workspace_memberships m`, with no test of `disabled_at`.
unfoldable pub member : Uuid → Uuid → Tables → Option AdminRow
member id workspace_id t = find (λ a. a.id == id && a.workspace_id == workspace_id) t.admins

unfoldable pub principal_of : AdminRow → Option (List String) → Principal
principal_of a scopes = record {
  user_id = a.id;
  email = a.email;
  workspace_id = a.workspace_id;
  role = a.role;
  token_scopes = scopes;
}

module _ (r : Runtime) where
  unfoldable pub csrf_signature : String → String
  csrf_signature nonce = r.hmac_sha256 r.csrf_secret nonce

  unfoldable pub create_csrf_token : M String
  create_csrf_token = do nonce ← random_token r 24; pure (nonce +s "." +s csrf_signature nonce)

  unfoldable pub valid_csrf_token : String → Bool
  valid_csrf_token value = parts (split b'.' value)
    where
      parts : List String → Bool
      parts [] = false
      parts (nonce ∷ []) = false
      parts (nonce ∷ (signature ∷ rest)) =
          truthy nonce && truthy signature && str_eq signature (csrf_signature nonce)

  -- `!cookie || !header || !constantTimeEqual(cookie, header) || !validCsrfToken(cookie)`.
  abbrev pub csrf_mismatch : Option String → Option String → Bool
  csrf_mismatch none header = true
  csrf_mismatch (some cookie) none = true
  csrf_mismatch (some cookie) (some header) =
      not (truthy cookie)
      || not (truthy header)
      || not (str_eq cookie header)
      || not (valid_csrf_token cookie)

  abbrev pub has_prefix : String → Option String → Bool
  has_prefix prefix none = false
  has_prefix prefix (some s) = starts prefix s

  unfoldable pub require_csrf : Browser → M (Unit {0})
  require_csrf b =
      throw_if
        (not (includes ("GET" ∷ "HEAD" ∷ "OPTIONS" ∷ []) b.method)
          && not (has_prefix "Bearer amt_" b.authorization)
          && csrf_mismatch b.csrf_cookie b.csrf_header)
        csrf_failed

  -- `match(/^Bearer (.+)$/)?.[1]`, if it starts with `amt_`.
  unfoldable pub personal_token : Browser → Option String
  personal_token b = header b.authorization
    where
      bearer : Option String → Option String
      bearer none = none
      bearer (some token) = if starts "amt_" token then some token else none

      header : Option String → Option String
      header none = none
      header (some value) = bearer (strip_prefix "Bearer " value)

  -- `revoked_at IS NULL AND (expires_at IS NULL OR expires_at > now())`.
  unfoldable pub is_live_token : PersonalTokenRow → Bool
  is_live_token p = not (is_some p.revoked_at) && lasts p.expires_at
    where
      lasts : Option ℕ → Bool
      lasts none = true
      lasts (some instant) = ltb r.sql_now instant

  unfoldable pub find_personal_token : String → Tables → Option PersonalTokenRow
  find_personal_token hash t =
      find
        (λ p.
          str_eq p.token_hash hash
          && is_live_token p
          && is_some (member p.admin_user_id p.workspace_id t))
        t.personal_tokens

  unfoldable pub touch_personal_token : String → Tables → Tables
  touch_personal_token hash t = record t {
    personal_tokens =
        update_where (λ p. str_eq p.token_hash hash)
          (λ p. record p { last_used_at = some r.sql_now }) t.personal_tokens;
  }

  -- The row that the query returns: the token's, joined with its administrator.
  abbrev pub named_in : Option AdminRow → List String → Option Principal
  named_in none scopes = none
  named_in (some a) scopes = some (principal_of a (some scopes))

  abbrev pub token_principal : Tables → Option PersonalTokenRow → Option Principal
  token_principal t none = none
  token_principal t (some p) = named_in (member p.admin_user_id p.workspace_id t) p.scopes

  unfoldable pub admin_by_token : String → M Principal
  admin_by_token token = do
    found ← pool_read (λ t. token_principal t (find_personal_token (hash_token r token) t))
    principal ← or_throw found token_refused
    pool_write (touch_personal_token (hash_token r token))
    pure principal

  -- `verifyAdminAccessToken`, and the principal if the token has a subject.
  unfoldable pub access_principal : Claims → Option Principal
  access_principal claims =
      if claim_is (get_claim "type" claims) "admin_access"
        && truthy (string_claim (get_claim "sub" claims))
      then some (record {
        user_id = r.uuid_of (string_claim (get_claim "sub" claims));
        email = string_claim (get_claim "email" claims);
        workspace_id = r.uuid_of (string_claim (get_claim "workspaceId" claims));
        role = string_claim (get_claim "role" claims);
        token_scopes = none;
      })
      else none

  -- A cookie that is missing, empty, not verified or of another type gives none.
  unfoldable pub admin_by_access : Option String → Option Principal
  admin_by_access none = none
  admin_by_access (some cookie) =
      if truthy cookie
      then elim (r.verify_admin_access cookie) [
        | none ↦ none
        | some claims ↦ access_principal claims
      ]
      else none

  pub record RefreshSession : Type 0 where
    pub session_id : Uuid
    pub token : String
    pub principal : Principal

  -- `verifyAdminRefreshEnvelope`.
  unfoldable pub envelope : Claims → Option (Uuid × String)
  envelope claims =
      if claim_is (get_claim "type" claims) "admin_refresh"
        && truthy (string_claim (get_claim "sub" claims))
      then elim (get_claim "token" claims) [
        | some (str token) ↦ some (r.uuid_of (string_claim (get_claim "sub" claims)), token)
        | _ ↦ none
      ]
      else none

  unfoldable pub opened_envelope : Option String → Option (Uuid × String)
  opened_envelope none = none
  opened_envelope (some cookie) =
      if truthy cookie
      then elim (r.verify_admin_refresh cookie) [ none ↦ none | some claims ↦ envelope claims ]
      else none

  -- `rotated_at IS NULL AND revoked_at IS NULL AND expires_at > now()`.
  unfoldable pub is_live_session : AdminSessionRow → Bool
  is_live_session s =
      not (is_some s.rotated_at) && not (is_some s.revoked_at) && ltb r.sql_now s.expires_at

  -- The membership of an administrator who is not disabled.
  abbrev pub enabled : Option AdminRow → Option AdminRow
  enabled none = none
  enabled (some a) = if is_some a.disabled_at then none else some a

  abbrev pub session_with :
      Uuid → String → AdminSessionRow → Option AdminRow → Option RefreshSession
  session_with id token s none = none
  session_with id token s (some a) =
      if str_eq s.token_hash (hash_token r token)
      then some (record { session_id = id; token = token; principal = principal_of a none })
      else none

  abbrev pub session_of : Uuid → String → Option AdminSessionRow → Tables → Option RefreshSession
  session_of id token none t = none
  session_of id token (some s) t =
      session_with id token s (enabled (member s.admin_user_id s.workspace_id t))

  unfoldable pub find_session : Uuid → Tables → Option AdminSessionRow
  find_session id t = find (λ s. s.id == id && is_live_session s) t.admin_sessions

  unfoldable pub session_in : Option (Uuid × String) → M (Option RefreshSession)
  session_in none = pure none
  session_in (some (id, token)) = pool_read (λ t. session_of id token (find_session id t) t)

  unfoldable pub read_admin_refresh_session : Option String → M (Option RefreshSession)
  read_admin_refresh_session cookie = session_in (opened_envelope cookie)

  unfoldable pub renew_admin_session : Uuid → Tables → Tables
  renew_admin_session id t = record t {
    admin_sessions =
        update_where (λ s. s.id == id) (λ s. record s { expires_at = r.sql_now + 2592000000 })
          t.admin_sessions;
  }

  unfoldable pub renewed : Option RefreshSession → M Principal
  renewed found = do
    session ← or_throw found sign_in
    pool_write (renew_admin_session session.session_id)
    pure session.principal

  unfoldable pub admin_by_session : Browser → M Principal
  admin_by_session b = do found ← read_admin_refresh_session b.admin_refresh; renewed found

  unfoldable pub admin_by_cookies : Browser → Option Principal → M Principal
  admin_by_cookies b (some principal) = pure principal
  admin_by_cookies b none = admin_by_session b

  unfoldable pub admin_by : Browser → Option String → M Principal
  admin_by b (some token) = admin_by_token token
  admin_by b none = admin_by_cookies b (admin_by_access b.admin_access)

  unfoldable pub require_admin : Browser → M Principal
  require_admin b = admin_by b (personal_token b)

  -- `none` where no one is signed in; other errors are thrown again.
  unfoldable pub nobody_if : ApiError → M (Option Principal)
  nobody_if e =
      if includes ("authentication_required" ∷ "invalid_session" ∷ []) e.code
      then pure none
      else throw e

  unfoldable pub optional_admin : Browser → M (Option Principal)
  optional_admin b = rescue (require_admin b >>= λ principal. pure (some principal)) nobody_if

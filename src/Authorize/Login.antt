-- ===== src/Authorize/Login.antt =====
-- `POST /authorize/login` of apps/server/src/oauth/authorization.ts: a password, a second factor
-- and the link of a social account.
pub mod Laws
use authometry.Common.{
  ℕ, ◌+◌, String, Bool, true, false, Option, none, some, List, [], ◌∷◌, ◌++◌, ◌&&◌, ◌||◌, not, ◌==◌,
  ltb, if◌then◌else◌, str_eq, truthy, is_some, find, update_where,
}
use authometry.Common.Text.{◌+s◌, lower_case}
use authometry.Database.{
  Uuid, is_active, OAuthApplicationRow, IdentityUserRow, PendingAuthorizationRow, LinkTokenRow,
  SocialIdentityRow, Tables, Runtime, ApiError, api_error, M, ◌>>=◌, ◌>>◌, pure, throw, or_throw,
  throw_if, transaction, pool_read, client_read, client_write,
}
use authometry.Signing.{hash_token, or_panic}
use authometry.Mfa.{verify_identity_mfa}
use authometry.Admin.{Browser, require_csrf}
use authometry.Authorize.{Next, Opened, filled, is_mcp_authorization, load_pending}
use authometry.Authorize.Continue.{continue_after_authentication}

-- The body, as its schema lets it through, with `mfaCode` trimmed.
pub record LoginInput : Type 0 where
  pub request_id : String
  pub email : String
  pub password : String
  pub mfa_code : Option String
  pub link_token : Option String

abbrev pub invalid_credentials : ApiError
invalid_credentials = api_error 401 "invalid_credentials" "The email or password is incorrect."

abbrev pub mfa_required : ApiError
mfa_required =
    api_error 401 "mfa_required" "Enter a code from your authenticator app or a recovery code."

abbrev pub invalid_mfa_code : ApiError
invalid_mfa_code =
    api_error 401 "invalid_mfa_code" "The authentication code is invalid or has already been used."

abbrev pub invalid_account_link : ApiError
invalid_account_link =
    api_error 400 "invalid_account_link"
      "The social account link is invalid or expired. Start again with the social provider."

abbrev pub identity_in_use : String → ApiError
identity_in_use provider =
    api_error 409 "social_identity_in_use"
      ("This " +s provider +s " account is already linked to another user.")

abbrev pub provider_linked : String → ApiError
provider_linked provider =
    api_error 409 "social_provider_already_linked"
      ("A different " +s provider +s " account is already linked to this user.")

-- `workspace_id = $1 AND provider = $2 AND provider_subject = $3`.
unfoldable pub is_identity : Uuid → String → String → SocialIdentityRow → Bool
is_identity workspace_id provider subject s =
    s.workspace_id == workspace_id
    && str_eq s.provider provider
    && str_eq s.provider_subject subject

unfoldable pub insert_identity : SocialIdentityRow → Tables → Tables
insert_identity s t = record t { social_identities = t.social_identities ++ s ∷ [] }

unfoldable pub update_identity : Uuid → String → String → String → Tables → Tables
update_identity workspace_id provider subject email t = record t {
  social_identities =
      update_where (is_identity workspace_id provider subject)
        (λ s. record s { provider_email = email }) t.social_identities;
}

module _ (r : Runtime) where
  -- An active user of the workspace with the email address.
  unfoldable pub login_user : Uuid → String → Tables → Option IdentityUserRow
  login_user workspace_id email t =
      find
        (λ u.
          u.workspace_id == workspace_id
          && str_eq (lower_case u.email) (lower_case email)
          && is_active u.status)
        t.users

  abbrev pub matches : String → Option String → Bool
  matches password none = false
  matches password (some hash) = truthy hash && r.password_matches password hash

  abbrev pub by_password : String → Option IdentityUserRow → Option IdentityUserRow
  by_password password none = none
  by_password password (some u) = if matches password u.password_hash then some u else none

  unfoldable pub check_factor : IdentityUserRow → Option String → M (Unit {0})
  check_factor user none = throw mfa_required
  check_factor user (some value) = do
    valid ← verify_identity_mfa r user.id user.mfa_totp_secret_encrypted value
    throw_if (not valid) invalid_mfa_code

  unfoldable pub check_second_factor : IdentityUserRow → Option String → M (Unit {0})
  check_second_factor user value =
      if user.mfa_enabled then check_factor user (filled value) else pure tt

  -- The stored link of the request, unused and in time.
  unfoldable pub find_link : String → Uuid → Uuid → Tables → Option LinkTokenRow
  find_link hash pending_id workspace_id t =
      find
        (λ l.
          str_eq l.token_hash hash
          && l.authorization_request_id == pending_id
          && l.workspace_id == workspace_id
          && not (is_some l.consumed_at)
          && ltb r.sql_now l.expires_at)
        t.link_tokens

  unfoldable pub consume_link : Uuid → Tables → Tables
  consume_link id t = record t {
    link_tokens =
        update_where (λ l. l.id == id) (λ l. record l { consumed_at = some r.sql_now })
          t.link_tokens;
  }

  abbrev pub own_link : Uuid → Option LinkTokenRow → Option LinkTokenRow
  own_link user_id none = none
  own_link user_id (some l) = if l.user_id == user_id then some l else none

  abbrev pub other_user : Uuid → Option SocialIdentityRow → Bool
  other_user user_id none = false
  other_user user_id (some s) = not (s.user_id == user_id)

  abbrev pub other_subject : String → Option SocialIdentityRow → Bool
  other_subject subject none = false
  other_subject subject (some s) = not (str_eq s.provider_subject subject)

  unfoldable pub identity_for : Uuid → IdentityUserRow → LinkTokenRow → SocialIdentityRow
  identity_for workspace_id user l = record {
    workspace_id = workspace_id;
    user_id = user.id;
    provider = l.provider;
    provider_subject = l.provider_subject;
    provider_email = l.provider_email;
  }

  -- The rows of `social_identities` stand in the order of their creation.
  unfoldable pub link_account : Uuid → Uuid → IdentityUserRow → String → M (Unit {0})
  link_account workspace_id pending_id user token = do
    found ← client_read (find_link (hash_token r token) pending_id workspace_id)
    l ← or_throw (own_link user.id found) invalid_account_link
    subject ←
        client_read
          (λ t. find (is_identity workspace_id l.provider l.provider_subject) t.social_identities)
    throw_if (other_user user.id subject) (identity_in_use l.provider)
    linked ← client_read (λ t.
        find
          (λ s.
            s.workspace_id == workspace_id && s.user_id == user.id && str_eq s.provider l.provider)
          t.social_identities)
    throw_if (other_subject l.provider_subject linked) (provider_linked l.provider)
    client_write (
        if is_some subject
        then update_identity workspace_id l.provider l.provider_subject l.provider_email
        else insert_identity (identity_for workspace_id user l))
    client_write (consume_link l.id)

  unfoldable pub link_if_asked : Uuid → Uuid → IdentityUserRow → Option String → M (Unit {0})
  link_if_asked workspace_id pending_id user none = pure tt
  link_if_asked workspace_id pending_id user (some token) =
      transaction (link_account workspace_id pending_id user token)

  unfoldable pub csrf_if : Bool → Browser → M (Unit {0})
  csrf_if mcp b = if mcp then require_csrf r b else pure tt

  unfoldable pub login_as : LoginInput → Opened → M Next
  login_as input opened = do
    found ← pool_read (login_user opened.application.workspace_id input.email)
    user ← or_throw (by_password input.password found) invalid_credentials
    check_second_factor user input.mfa_code
    link_if_asked opened.application.workspace_id opened.pending.id user (filled input.link_token)
    continue_after_authentication r opened.pending opened.application user

  unfoldable pub login : Browser → LoginInput → M Next
  login b input = do
    opened ← load_pending r input.request_id
    mcp ←
        or_panic r (is_mcp_authorization r opened.pending.parameters opened.application)
          "Invalid URL"
    csrf_if mcp b
    login_as input opened

-- ===== src/Grant/Refresh.antt =====
-- `refreshTokenGrant` of apps/server/src/oauth/tokens.ts.
pub mod Rotation
pub mod Success
pub mod Replay
use mathlib.Core.Option
use authometry.Common.{
  ℕ, ◌+◌, ◌*◌, min, String, Bool, true, false, Option, none, some, List, [], ◌∷◌, ◌++◌, ◌&&◌, ◌||◌,
  not, ◌==◌, ltb, if◌then◌else◌, str_eq, truthy, is_some, get_or, find, every, includes,
  update_where,
}
use authometry.Common.Text.{words}
use authometry.Json.{Claims}
use authometry.Database.{
  Uuid, OAuthApplicationRow, IdentityUserRow, AdminRow, RefreshFamilyRow, RefreshTokenRow,
  FamilyStatus, AuditEventRow, Tables, Runtime, ApiError, api_error, M, ◌>>=◌, ◌>>◌, pure, throw,
  or_throw, throw_if, transaction, client_read, client_write, draw,
}
use authometry.Signing.{random_token, hash_token}
use authometry.Issue.{TokenSet, IssueInput, bearer, issue_token_set}
use authometry.Grant.{
  invalid_grant, resource_refused, claim_user, auth_time_of, identify_user, identify_admin,
  admin_claims, user_by_id, admin_by_id,
}

abbrev pub invalid_token : ApiError
invalid_token = invalid_grant "The refresh token is invalid or revoked."

abbrev pub reuse_detected : ApiError
reuse_detected =
    invalid_grant "Refresh token reuse was detected. The token family has been revoked."

abbrev pub token_expired : ApiError
token_expired = invalid_grant "The refresh token has expired."

abbrev pub scope_expanded : ApiError
scope_expanded = api_error 400 "invalid_scope" "A refresh request cannot expand the original scope."

abbrev pub other_resource : ApiError
other_resource = api_error 400 "invalid_target" "The refresh token is bound to another resource."

abbrev pub admin_inactive : ApiError
admin_inactive = invalid_grant "The Authometry admin is not active."

-- `refresh_tokens t JOIN refresh_token_families f … WHERE t.token_hash = $1`.
unfoldable pub find_current : String → Tables → Option (RefreshTokenRow × RefreshFamilyRow)
find_current hash t = elim (find (λ k. str_eq k.token_hash hash) t.tokens) [
  | none ↦ none
  | some k ↦ elim (find (λ f. f.id == k.family_id) t.families) [
    | none ↦ none
    | some f ↦ some (k, f)
  ]
]

abbrev pub is_live_family : FamilyStatus → Bool
is_live_family FamilyStatus.active = true
is_live_family FamilyStatus.revoked = false
is_live_family FamilyStatus.reused = false
is_live_family FamilyStatus.expired = false

-- The row that passes the first test, if there is one.
abbrev pub usable :
    OAuthApplicationRow
    → Option (RefreshTokenRow × RefreshFamilyRow)
    → Option (RefreshTokenRow × RefreshFamilyRow)
usable application none = none
usable application (some (k, f)) =
    if f.application_id == application.id && not (is_some k.revoked_at) && is_live_family f.status
    then some (k, f)
    else none

module _ (r : Runtime) (application : OAuthApplicationRow) where
  -- The three writes of a reuse: the family, its tokens, and the audit event.
  unfoldable pub mark_reused : Uuid → Tables → Tables
  mark_reused family_id t = record t {
    families =
        update_where (λ f. f.id == family_id)
          (λ f. record f {
            status = FamilyStatus.reused;
            revoked_reason = some "refresh_token_reuse";
          })
          t.families;
    tokens =
        update_where (λ k. k.family_id == family_id) (λ k. record k { revoked_at = some r.sql_now })
          t.tokens;
    audit_events =
        t.audit_events
        ++ record {
          workspace_id = application.workspace_id;
          environment_id = application.environment_id;
          severity = "high";
          event_type = "refresh_token_reuse";
          resource_id = family_id;
        }
          ∷ [];
  }

  unfoldable pub mark_expired : Uuid → Tables → Tables
  mark_expired family_id t = record t {
    families =
        update_where (λ f. f.id == family_id) (λ f. record f { status = FamilyStatus.expired })
          t.families;
  }

  -- `UPDATE refresh_tokens SET consumed_at` and the `INSERT` of the next token.
  unfoldable pub consume_token : Uuid → Tables → Tables
  consume_token id t = record t {
    tokens =
        update_where (λ k. k.id == id) (λ k. record k { consumed_at = some r.sql_now }) t.tokens;
  }

  unfoldable pub insert_next : RefreshTokenRow → RefreshFamilyRow → Uuid → String → Tables → Tables
  insert_next k f id hash t = record t {
    tokens =
        t.tokens
        ++ record {
          id = id;
          family_id = f.id;
          token_hash = hash;
          parent_id = some k.id;
          expires_at =
              min f.expires_at (r.sql_now + application.refresh_token_lifetime_seconds * 1000);
          consumed_at = none;
          revoked_at = none;
        }
          ∷ [];
  }

  abbrev pub is_due : RefreshTokenRow → RefreshFamilyRow → Bool
  is_due k f = ltb k.expires_at r.date_now || ltb f.expires_at r.date_now

  -- `requestedScope ? requestedScope.split(" ").filter(Boolean) : current.scopes`.
  abbrev pub granted_scopes : Option String → RefreshFamilyRow → List String
  granted_scopes none f = f.scopes
  granted_scopes (some s) f = if truthy s then words s else f.scopes

  abbrev pub find_user : Option Uuid → M (Option IdentityUserRow)
  find_user none = pure none
  find_user (some id) = client_read (user_by_id id)

  abbrev pub find_admin : Option Uuid → M (Option AdminRow)
  find_admin none = pure none
  find_admin (some id) = do
    admin ← client_read (admin_by_id id application.workspace_id)
    found ← or_throw admin admin_inactive
    pure (some found)

  abbrev pub identify_subject : Option AdminRow → Option IdentityUserRow → M (Unit {0})
  identify_subject (some admin) user = identify_admin admin
  identify_subject none (some user) = identify_user user
  identify_subject none none = pure tt

  -- `current.resource ? { audience: current.resource, resource: current.resource } : {}`.
  abbrev pub bound_resource : Option String → Option String
  bound_resource none = none
  bound_resource (some s) = if truthy s then some s else none

  -- The argument of `issueTokenSet`.
  unfoldable pub refresh_issue_input :
      RefreshFamilyRow → List String → Option IdentityUserRow → Option AdminRow → IssueInput
  unfolding claim_user
  refresh_issue_input f scopes user admin = record {
    user = Option.map (claim_user r) user;
    auth_time = auth_time_of r user;
    scopes = scopes;
    nonce = none;
    include_refresh_token = false;
    audience = bound_resource f.resource;
    access_token_lifetime_seconds = none;
    access_token_claims = elim admin [ none ↦ [] | some a ↦ admin_claims r a ];
    token_type = bearer;
    subject = Option.map (λ a. r.uuid_text a.id) admin;
    admin_user_id = Option.map (λ a. a.id) admin;
    admin_identity = none;
    resource = bound_resource f.resource;
  }

  -- Who the new tokens are for, and the tokens.
  unfoldable pub refresh_issue : RefreshFamilyRow → List String → M TokenSet
  refresh_issue f scopes = do
    user ← find_user f.user_id
    admin ← find_admin f.admin_user_id
    identify_subject admin user
    issue_token_set r application (refresh_issue_input f scopes user admin)

  -- What follows once the token is known to be live and unused.
  unfoldable pub rotate : RefreshTokenRow → RefreshFamilyRow → Option String → String → M TokenSet
  rotate k f requested_scope requested_resource = do
    if is_due k f then (client_write (mark_expired f.id) >> throw token_expired) else pure tt
    let scopes = granted_scopes requested_scope f
    throw_if (not (every (includes f.scopes) scopes)) scope_expanded
    throw_if (resource_refused r (is_some f.admin_user_id) requested_resource f.resource)
        other_resource
    next ← random_token r 48
    client_write (consume_token k.id)
    id ← draw
    client_write (insert_next k f (r.random_uuid id) (hash_token r next))
    tokens ← refresh_issue f scopes
    pure (record tokens { refresh_token = some next })

  -- A used token closes its family; the result `none` is `{}` with `reuseDetected` set.
  unfoldable pub used_or_rotated :
      RefreshTokenRow → RefreshFamilyRow → Option String → String → M (Option TokenSet)
  used_or_rotated k f requested_scope requested_resource =
      if is_some k.consumed_at
      then client_write (mark_reused f.id) >> pure none
      else (rotate k f requested_scope requested_resource >>= λ t. pure (some t))

  -- The work of the transaction.
  unfoldable pub refresh_work : String → Option String → String → M (Option TokenSet)
  refresh_work raw_token requested_scope requested_resource = do
    current ← client_read (find_current (hash_token r raw_token))
    row ← or_throw (usable application current) invalid_token
    used_or_rotated row.0 row.1 requested_scope requested_resource

  unfoldable pub refresh_token_grant : String → Option String → String → M TokenSet
  refresh_token_grant raw_token requested_scope requested_resource = do
    result ← transaction (refresh_work raw_token requested_scope requested_resource)
    or_throw result reuse_detected

-- ===== src/Database/Rows.antt =====
-- The rows of apps/server/src/oauth/types.ts, agents.ts and tokens.ts.
-- Instants are milliseconds; `null` is `none`; a uuid is a number that is only compared.
use authometry.Common.{ℤ, ℕ, String, Bool, true, false, Option, List}
use authometry.Json.{Fields}

abbrev pub Uuid : Type 0
Uuid = ℕ

-- `status` of an application, a user or an agent.
pub data Status : Type 0 where
  active disabled : Status

abbrev pub is_active : Status → Bool
is_active Status.active = true
is_active Status.disabled = false

pub data ApplicationType : Type 0 where
  web spa native machine device : ApplicationType

pub data AuthMethod : Type 0 where
  public_client client_secret_basic client_secret_post private_key_jwt : AuthMethod

pub data ClientIdSource : Type 0 where
  auto manifest dynamic : ClientIdSource

-- Joined with the environment's issuer; `environment_active` is the environment's status.
pub record OAuthApplicationRow : Type 0 where
  pub id : Uuid
  pub workspace_id : Uuid
  pub environment_id : Uuid
  pub environment_slug : String
  pub environment_active : Bool
  pub issuer : String
  pub name : String
  pub slug : String
  pub client_id : String
  pub client_id_source : ClientIdSource
  pub type : ApplicationType
  pub status : Status
  pub redirect_uris : List String
  pub post_logout_redirect_uris : List String
  pub grant_types : List String
  pub response_types : List String
  pub token_endpoint_auth_method : AuthMethod
  pub require_pkce : Bool
  pub require_consent : Bool
  pub allowed_scopes : List String
  pub access_token_lifetime_seconds : ℕ
  pub refresh_token_lifetime_seconds : ℕ
  pub authorization_code_lifetime_seconds : ℕ
  pub rotate_refresh_tokens : Bool
  pub last_used_at : Option ℕ

pub record IdentityUserRow : Type 0 where
  pub id : Uuid
  pub workspace_id : Uuid
  pub email : String
  pub name : String
  pub password_hash : Option String
  pub status : Status
  pub groups : List String
  pub custom_claims : Fields
  pub email_verified_at : Option ℕ
  pub last_authenticated_at : Option ℕ
  pub mfa_enabled : Bool
  pub mfa_totp_secret_encrypted : Option String

-- `admin_users` joined with one of its `workspace_memberships`.
pub record AdminRow : Type 0 where
  pub id : Uuid
  pub email : String
  pub name : String
  pub email_verified_at : Option ℕ
  pub disabled_at : Option ℕ
  pub workspace_id : Uuid
  pub role : String

pub record AuthorizationCodeRow : Type 0 where
  pub id : Uuid
  pub code_hash : String
  pub application_id : Uuid
  pub user_id : Option Uuid
  pub admin_user_id : Option Uuid
  pub redirect_uri : String
  pub scope : List String
  pub code_challenge : Option String
  pub code_challenge_method : Option String
  pub nonce : Option String
  pub auth_time : ℕ
  pub expires_at : ℕ
  pub consumed_at : Option ℕ
  pub delegation_grant_id : Option Uuid
  pub resource : Option String

pub data FamilyStatus : Type 0 where
  active revoked reused expired : FamilyStatus

pub record RefreshFamilyRow : Type 0 where
  pub id : Uuid
  pub workspace_id : Uuid
  pub environment_id : Uuid
  pub application_id : Uuid
  pub user_id : Option Uuid
  pub admin_user_id : Option Uuid
  pub resource : Option String
  pub scopes : List String
  pub status : FamilyStatus
  pub revoked_reason : Option String
  pub expires_at : ℕ

pub record RefreshTokenRow : Type 0 where
  pub id : Uuid
  pub family_id : Uuid
  pub token_hash : String
  pub parent_id : Option Uuid
  pub expires_at : ℕ
  pub consumed_at : Option ℕ
  pub revoked_at : Option ℕ

pub data DeviceStatus : Type 0 where
  pending approved denied consumed expired : DeviceStatus

pub record DeviceRow : Type 0 where
  pub id : Uuid
  pub workspace_id : Uuid
  pub environment_id : Uuid
  pub application_id : Uuid
  pub device_code_hash : String
  pub user_code : String
  pub user_id : Option Uuid
  pub scopes : List String
  pub status : DeviceStatus
  pub interval_seconds : ℕ
  pub last_polled_at : Option ℕ
  pub expires_at : ℕ

pub record AgentIdentityRow : Type 0 where
  pub id : Uuid
  pub environment_id : Uuid
  pub application_id : Uuid
  pub agent_id : String
  pub operator_id : String
  pub public_jwk : String
  pub capabilities : List String
  pub allowed_resources : List String
  pub may_receive_delegation : Bool
  pub may_delegate : Bool
  pub maximum_delegation_depth : ℕ
  pub maximum_authorization_seconds : ℕ
  pub status : Status

pub record AgentAuthorizationDetails : Type 0 where
  pub actions : List String
  pub locations : List String
  pub resource : String
  pub constraints : Option Fields
  pub purpose : Option String

pub data GrantStatus : Type 0 where
  active completed revoked expired : GrantStatus

pub record DelegationGrantRow : Type 0 where
  pub id : Uuid
  pub workspace_id : Uuid
  pub environment_id : Uuid
  pub application_id : Uuid
  pub subject_user_id : Uuid
  pub actor_agent_id : Uuid
  pub parent_grant_id : Option Uuid
  pub resource : String
  pub scopes : List String
  pub authorization_details : List AgentAuthorizationDetails
  pub purpose : String
  pub task_id : Option String
  pub dpop_jkt : Option String
  pub delegation_depth : ℕ
  pub maximum_usage : Option ℤ
  pub status : GrantStatus
  pub expires_at : ℕ

pub record SigningKeyRow : Type 0 where
  pub environment_id : Uuid
  pub kid : String
  pub algorithm : String
  pub public_jwk : String
  pub encrypted_private_jwk : String
  pub signs : Bool  -- status 'active'
  pub verifies : Bool  -- status 'active' or 'retiring'

pub record ClaimMappingRow : Type 0 where
  pub environment_id : Uuid
  pub name : String
  pub source_field : String
  pub target_claim : String
  pub include_in : List String

pub record CredentialRow : Type 0 where
  pub application_id : Uuid
  pub secret_hash : String
  pub expires_at : Option ℕ
  pub last_used_at : Option ℕ
  pub revoked_at : Option ℕ

-- What an `audit_events` row of the token endpoint says.
pub record AuditEventRow : Type 0 where
  pub workspace_id : Uuid
  pub environment_id : Uuid
  pub severity : String
  pub event_type : String
  pub resource_id : Uuid

pub record RevokedAccessTokenRow : Type 0 where
  pub jti : String
  pub application_id : Uuid
  pub expires_at : ℕ

-- The used identifiers of an agent's assertions, and of the DPoP proofs of a key.
pub record AssertionJtiRow : Type 0 where
  pub agent_identity_id : Uuid
  pub jti : String
  pub expires_at : ℕ

pub record DpopJtiRow : Type 0 where
  pub jkt : String
  pub jti : String
  pub expires_at : ℕ

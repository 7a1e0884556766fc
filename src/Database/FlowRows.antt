-- ===== src/Database/FlowRows.antt =====
-- The rows of the authorization endpoint, of sessions and of consent (oauth/authorization.ts,
-- oauth/types.ts, auth/admin.ts, lib/identity-mfa.ts).
use authometry.Common.{ℕ, String, Bool, Option, List}
use authometry.Json.{Json}
use authometry.Database.Rows.{Uuid, AgentAuthorizationDetails}

-- A parameter that the request left out is `none`.
pub record AuthorizationParameters : Type 0 where
  pub client_id : String
  pub redirect_uri : String
  pub scope : String
  pub state : Option String
  pub nonce : Option String
  pub code_challenge : Option String
  pub code_challenge_method : Option String
  pub prompt : Option String
  pub max_age : Option ℕ
  pub resource : Option String
  pub authorization_details : Option (List AgentAuthorizationDetails)
  pub purpose : Option String
  pub task_id : Option String
  pub agent_id : Option String

pub data PendingStatus : Type 0 where
  pending awaiting_consent approved denied completed expired : PendingStatus

pub record PendingAuthorizationRow : Type 0 where
  pub id : Uuid
  pub workspace_id : Uuid
  pub environment_id : Uuid
  pub application_id : Uuid
  pub request_id : String
  pub parameters : AuthorizationParameters
  pub user_id : Option Uuid
  pub admin_user_id : Option Uuid
  pub status : PendingStatus
  pub expires_at : ℕ

pub record PushedRow : Type 0 where
  pub application_id : Uuid
  pub request_uri : String
  pub parameters : AuthorizationParameters
  pub consumed_at : Option ℕ
  pub expires_at : ℕ

pub data SessionStatus : Type 0 where
  active expired revoked : SessionStatus

pub record UserSessionRow : Type 0 where
  pub id : Uuid
  pub workspace_id : Uuid
  pub environment_id : Uuid
  pub user_id : Uuid
  pub application_id : Option Uuid
  pub session_token_hash : Option String
  pub refresh_family_id : Option Uuid
  pub status : SessionStatus
  pub scopes : List String
  pub expires_at : ℕ
  pub revoked_at : Option ℕ

pub record ConsentRow : Type 0 where
  pub environment_id : Uuid
  pub application_id : Uuid
  pub user_id : Uuid
  pub scopes : List String
  pub revoked_at : Option ℕ

pub record AdminConsentRow : Type 0 where
  pub environment_id : Uuid
  pub application_id : Uuid
  pub admin_user_id : Uuid
  pub resource : String
  pub scopes : List String
  pub revoked_at : Option ℕ

pub data Operator : Type 0 where
  equals not_equals contains in_list : Operator

pub record PolicyCondition : Type 0 where
  pub field : String
  pub operator : Operator
  pub value : Json

-- `message` is that of `decision.otherwise?.deny`.
pub record PolicyRow : Type 0 where
  pub environment_id : Uuid
  pub name : String
  pub enabled : Bool
  pub application_ids : List Uuid
  pub conditions : List PolicyCondition
  pub message : Option String

pub record RecoveryCodeRow : Type 0 where
  pub id : Uuid
  pub user_id : Uuid
  pub code_hash : String
  pub used_at : Option ℕ

pub record AdminSessionRow : Type 0 where
  pub id : Uuid
  pub admin_user_id : Uuid
  pub workspace_id : Uuid
  pub token_hash : String
  pub rotated_at : Option ℕ
  pub revoked_at : Option ℕ
  pub expires_at : ℕ

pub record PersonalTokenRow : Type 0 where
  pub admin_user_id : Uuid
  pub workspace_id : Uuid
  pub token_hash : String
  pub scopes : List String
  pub revoked_at : Option ℕ
  pub expires_at : Option ℕ
  pub last_used_at : Option ℕ

pub record SocialIdentityRow : Type 0 where
  pub workspace_id : Uuid
  pub user_id : Uuid
  pub provider : String
  pub provider_subject : String
  pub provider_email : String

pub record LinkTokenRow : Type 0 where
  pub id : Uuid
  pub workspace_id : Uuid
  pub authorization_request_id : Uuid
  pub user_id : Uuid
  pub provider : String
  pub provider_subject : String
  pub provider_email : String
  pub token_hash : String
  pub consumed_at : Option ℕ
  pub expires_at : ℕ

pub record SocialStateRow : Type 0 where
  pub id : Uuid
  pub authorization_request_id : Uuid
  pub provider : String
  pub state_hash : String
  pub nonce_encrypted : String
  pub code_verifier_encrypted : String
  pub redirect_uri : String
  pub consumed_at : Option ℕ
  pub expires_at : ℕ

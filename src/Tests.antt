-- ===== src/Tests.antt =====
-- A small instance of the server for the examples: one client with a user, a code, a device code
-- and a refresh token, over crypto and URL functions that are easy to follow.
pub mod RefreshTests
pub mod CodeTests
pub mod DeviceTests
pub mod ClaimsTests
pub mod ExchangeTests
pub mod EndpointTests
pub mod AuthorizeTests
pub mod AgentTests
pub mod FactorTests
pub mod SocialTests
use authometry.Common.{ℕ, ◌+◌, true, false, none, some, List, [], ◌∷◌, String, str_eq}
use authometry.Json.{null, end}
use authometry.Database.{
  OAuthApplicationRow, ClientIdSource, ApplicationType, AuthMethod, Status, IdentityUserRow,
  AuthorizationCodeRow, RefreshFamilyRow, FamilyStatus, RefreshTokenRow, DeviceRow, DeviceStatus,
  SigningKeyRow, Tables, Runtime, World, Url,
}

abbrev pub runtime_at : ℕ → Runtime
runtime_at instant = record {
  token_hmac_key = "key";
  hmac_sha256 = λ key value. value;
  sha256 = λ value. value;
  random_bytes = λ n bytes. "fresh";
  random_uuid = λ n. n + 100;
  uuid_text = λ id. "uuid";
  date_now = instant;
  sql_now = instant;
  parse_url = λ s. some (record { href = s; origin = s; pathname = "/" });
  resolve_url = λ s base. some (record { href = s; origin = s; pathname = s });
  base64_text = λ s. s;
  decode_uri = λ s. some s;
  encode_uri = λ s. s;
  url_with_path = λ url path. path;
  collate_le = λ a b. true;
  sign = λ key request. some "jwt";
  claim_text = λ claim. "text";
  details_json = λ details. null;
  decode_jwt = λ token. none;
  decode_kid = λ token. none;
  verify = λ key token issuer. none;
  verify_assertion = λ jwk agent assertion audience. none;
  dpop_header = λ proof. none;
  dpop_verify = λ proof. none;
  parse_json = λ s. none;
  decrypt = λ s. some s;
  password_matches = λ password hash. str_eq password hash;
  hmac_sha1 = λ key message. key;
  csrf_secret = "csrf";
  verify_admin_access = λ token. none;
  verify_admin_refresh = λ token. none;
  uuid_of = λ s. 5;
}

abbrev pub client : OAuthApplicationRow
client = record {
  id = 1;
  workspace_id = 9;
  environment_id = 8;
  environment_slug = "production";
  environment_active = true;
  issuer = "https://issuer";
  name = "Client";
  slug = "client";
  client_id = "client-1";
  client_id_source = ClientIdSource.auto;
  type = ApplicationType.web;
  status = Status.active;
  redirect_uris = "https://app/callback" ∷ [];
  post_logout_redirect_uris = [];
  grant_types = "authorization_code" ∷ "refresh_token" ∷ [];
  response_types = "code" ∷ [];
  token_endpoint_auth_method = AuthMethod.public_client;
  require_pkce = true;
  require_consent = true;
  allowed_scopes = "read" ∷ "write" ∷ [];
  access_token_lifetime_seconds = 900;
  refresh_token_lifetime_seconds = 3600;
  authorization_code_lifetime_seconds = 60;
  rotate_refresh_tokens = true;
  last_used_at = none;
}

abbrev pub other_client : OAuthApplicationRow
other_client = record client { id = 2; client_id = "client-2" }

abbrev pub user : IdentityUserRow
user = record {
  id = 5;
  workspace_id = 9;
  email = "ada@example.com";
  name = "Ada";
  password_hash = none;
  status = Status.active;
  groups = [];
  custom_claims = end;
  email_verified_at = none;
  last_authenticated_at = none;
  mfa_enabled = false;
  mfa_totp_secret_encrypted = none;
}

abbrev pub family : RefreshFamilyRow
family = record {
  id = 40;
  workspace_id = 9;
  environment_id = 8;
  application_id = 1;
  user_id = some 5;
  admin_user_id = none;
  resource = none;
  scopes = "read" ∷ "write" ∷ [];
  status = FamilyStatus.active;
  revoked_reason = none;
  expires_at = 9000000;
}

abbrev pub token : RefreshTokenRow
token = record {
  id = 41;
  family_id = 40;
  token_hash = "old";
  parent_id = none;
  expires_at = 9000000;
  consumed_at = none;
  revoked_at = none;
}

abbrev pub used_token : RefreshTokenRow
used_token = record token { id = 42; token_hash = "used"; consumed_at = some 500 }

abbrev pub code : AuthorizationCodeRow
code = record {
  id = 60;
  code_hash = "code";
  application_id = 1;
  user_id = some 5;
  admin_user_id = none;
  redirect_uri = "https://app/callback";
  scope = "read" ∷ [];
  code_challenge = some "verifier";
  code_challenge_method = some "S256";
  nonce = none;
  auth_time = 1000;
  expires_at = 2000000;
  consumed_at = none;
  delegation_grant_id = none;
  resource = none;
}

abbrev pub device : DeviceRow
device = record {
  id = 70;
  workspace_id = 9;
  environment_id = 8;
  application_id = 1;
  device_code_hash = "device";
  user_code = "ABCD-EFGH";
  user_id = some 5;
  scopes = "read" ∷ [];
  status = DeviceStatus.approved;
  interval_seconds = 5;
  last_polled_at = none;
  expires_at = 2000000;
}

abbrev pub signing_key : SigningKeyRow
signing_key = record {
  environment_id = 8;
  kid = "kid";
  algorithm = "RS256";
  public_jwk = "public";
  encrypted_private_jwk = "private";
  signs = true;
  verifies = true;
}

abbrev pub tables_with : List DeviceRow → List SigningKeyRow → Tables
tables_with devices keys = record {
  applications = client ∷ [];
  users = user ∷ [];
  admins = [];
  codes = code ∷ [];
  families = family ∷ [];
  tokens = token ∷ used_token ∷ [];
  devices = devices;
  agents = [];
  grants = [];
  signing_keys = keys;
  claim_mappings = [];
  credentials = [];
  audit_events = [];
  revoked_tokens = [];
  assertion_jtis = [];
  dpop_jtis = [];
  pending = [];
  pushed = [];
  sessions = [];
  consents = [];
  admin_consents = [];
  policies = [];
  recovery_codes = [];
  admin_sessions = [];
  personal_tokens = [];
  social_identities = [];
  link_tokens = [];
  social_states = [];
}

abbrev pub world_of : Tables → World
world_of t = record { committed = t; draft = t; draws = 0; subject = none }

abbrev pub tables : Tables
tables = tables_with (device ∷ []) (signing_key ∷ [])

abbrev pub world : World
world = world_of tables

abbrev pub now : Runtime
now = runtime_at 1000000

abbrev pub later : Runtime
later = runtime_at 1050000

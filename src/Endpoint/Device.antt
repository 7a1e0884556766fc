-- ===== src/Endpoint/Device.antt =====
-- `POST /oauth/device/authorization` of apps/server/src/oauth/tokens.ts.
use authometry.Common.{
  ℕ, str_eq, String, Option, none, some, List, [], ◌∷◌, ◌++◌, ◌+◌, not, every, includes, find,
}
use authometry.Common.Text.{◌+s◌, words, first, upper_case}
use authometry.Database.{
  Uuid, OAuthApplicationRow, DeviceRow, DeviceStatus, Runtime, ApiError, api_error, M, ◌>>=◌, ◌>>◌,
  pure, throw_if, pool_write, draw,
}
use authometry.Signing.{random_token, hash_token}
use authometry.Client.{Request, authenticate_client}
use authometry.Endpoint.Token.{unassigned_scope}

abbrev pub device_not_enabled : ApiError
device_not_enabled =
    api_error 400 "unauthorized_client" "Device authorization is not enabled for this client."

pub record DeviceAnswer : Type 0 where
  pub device_code : String
  pub user_code : String
  pub verification_uri : String
  pub verification_uri_complete : String
  pub expires_in : ℕ
  pub interval : ℕ

module _ (r : Runtime) where
  -- `String(request.body.scope ?? "openid").split(" ").filter(Boolean)`.
  abbrev pub device_scopes : Request → List String
  device_scopes request = asked (find (λ p. str_eq p.0 "scope") request.body)
    where
      asked : Option (String × String) → List String
      asked none = words "openid"
      asked (some p) = words p.1

  unfoldable pub pending_device :
      OAuthApplicationRow → List String → Uuid → String → String → DeviceRow
  pending_device application scopes id device_code user_code = record {
    id = id;
    workspace_id = application.workspace_id;
    environment_id = application.environment_id;
    application_id = application.id;
    device_code_hash = hash_token r device_code;
    user_code = user_code;
    user_id = none;
    scopes = scopes;
    status = DeviceStatus.pending;
    interval_seconds = 5;
    last_polled_at = none;
    expires_at = r.sql_now + 600000;
  }

  unfoldable pub device_authorization : Request → M DeviceAnswer
  device_authorization request = do
    application ← authenticate_client r request
    throw_if (not (includes application.grant_types "urn:ietf:params:oauth:grant-type:device_code"))
        device_not_enabled
    let scopes = device_scopes request
    throw_if (not (every (includes application.allowed_scopes) scopes)) unassigned_scope
    device_code ← random_token r 40
    left ← random_token r 4
    right ← random_token r 4
    let user_code = upper_case (first 4 left +s "-" +s first 4 right)
    id ← draw
    pool_write (λ t. record t {
      devices =
          t.devices
          ++ pending_device application scopes (r.random_uuid id) device_code user_code ∷ [];
    })
    pure (record {
      device_code = device_code;
      user_code = user_code;
      verification_uri = application.issuer +s "/oauth/device";
      verification_uri_complete =
          application.issuer +s "/oauth/device?user_code=" +s r.encode_uri user_code;
      expires_in = 600;
      interval = 5;
    })

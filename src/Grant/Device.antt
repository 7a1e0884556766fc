-- ===== src/Grant/Device.antt =====
-- `deviceCodeGrant` of apps/server/src/oauth/tokens.ts.
pub mod Laws
pub mod Redemption
use authometry.Common.{
  ℕ, ◌+◌, ◌*◌, String, Bool, true, false, Option, none, some, List, [], ◌∷◌, ◌==◌, ltb, not,
  if◌then◌else◌, str_eq, is_some, get_or, find, includes, update_where,
}
use authometry.Database.{
  Uuid, OAuthApplicationRow, IdentityUserRow, DeviceRow, DeviceStatus, Tables, Runtime, ApiError,
  api_error, M, ◌>>=◌, ◌>>◌, pure, throw, or_throw, throw_if, transaction, client_read,
  client_write,
}
use authometry.Signing.{hash_token}
use authometry.Issue.{TokenSet, IssueInput, bearer, issue_token_set}
use authometry.Grant.{invalid_grant, claim_user, auth_time_of, identify_user, user_by_id, holds}

abbrev pub expired_token : ApiError
expired_token = api_error 400 "expired_token" "The device code has expired."

abbrev pub slow_down : ApiError
slow_down = api_error 400 "slow_down" "Poll less frequently."

abbrev pub authorization_pending : ApiError
authorization_pending =
    api_error 400 "authorization_pending" "The user has not completed verification."

abbrev pub access_denied : ApiError
access_denied = api_error 400 "access_denied" "The user denied the device request."

abbrev pub no_longer_valid : ApiError
no_longer_valid = invalid_grant "The device code is no longer valid."

abbrev pub user_gone : ApiError
user_gone = invalid_grant "The user is no longer available."

-- What the work of the transaction returns: tokens, or `{}` with `protocolError` set, whose
-- writes are committed before the error is thrown.
pub data Polled : Type 0 where
  tokens : TokenSet → Polled
  protocol_error : ApiError → Polled

unfoldable pub find_device : String → Tables → Option DeviceRow
find_device hash t = find (λ d. str_eq d.device_code_hash hash) t.devices

-- `UPDATE device_authorizations SET … WHERE id = $1`.
unfoldable pub update_device : Uuid → (DeviceRow → DeviceRow) → Tables → Tables
update_device id f t = record t { devices = update_where (λ d. d.id == id) f t.devices }

module _ (r : Runtime) (application : OAuthApplicationRow) where
  -- The row, if it has not expired.
  abbrev pub unexpired : Option DeviceRow → Option DeviceRow
  unexpired none = none
  unexpired (some d) = if ltb d.expires_at r.date_now then none else some d

  -- `Date.now() - last_polled_at < interval_seconds * 1000`, for instants in either order.
  unfoldable pub polled_too_soon : DeviceRow → Bool
  polled_too_soon d =
      holds (λ last. ltb r.date_now (last + d.interval_seconds * 1000)) d.last_polled_at

  unfoldable pub device_issue_input : DeviceRow → IdentityUserRow → IssueInput
  unfolding claim_user
  device_issue_input d user = record {
    user = some (claim_user r user);
    auth_time = auth_time_of r (some user);
    scopes = d.scopes;
    nonce = none;
    include_refresh_token = includes d.scopes "offline_access";
    audience = none;
    access_token_lifetime_seconds = none;
    access_token_claims = [];
    token_type = bearer;
    subject = none;
    admin_user_id = none;
    admin_identity = none;
    resource = none;
  }

  -- The approval is used up, and the tokens are issued.
  unfoldable pub redeem : DeviceRow → Uuid → M Polled
  redeem d user_id = do
    row ← client_read (user_by_id user_id)
    user ← or_throw row user_gone
    identify_user user
    client_write (update_device d.id (λ x. record x { status = DeviceStatus.consumed }))
    issued ← issue_token_set r application (device_issue_input d user)
    pure (tokens issued)

  -- The tests of the status after a poll in time.
  unfoldable pub by_status : DeviceStatus → Option Uuid → DeviceRow → M Polled
  by_status DeviceStatus.pending user_id d = pure (protocol_error authorization_pending)
  by_status DeviceStatus.denied user_id d = pure (protocol_error access_denied)
  by_status DeviceStatus.approved (some user_id) d = redeem d user_id
  by_status DeviceStatus.approved none d = throw no_longer_valid
  by_status DeviceStatus.consumed user_id d = throw no_longer_valid
  by_status DeviceStatus.expired user_id d = throw no_longer_valid

  unfoldable pub poll : DeviceRow → M Polled
  poll d =
      if polled_too_soon d
      then client_write
          (update_device d.id (λ x. record x { interval_seconds = x.interval_seconds + 5 }))
        >> pure (protocol_error slow_down)
      else (client_write (update_device d.id (λ x. record x { last_polled_at = some r.sql_now }))
          >> by_status d.status d.user_id d)

  unfoldable pub device_work : String → M Polled
  device_work raw_device_code = do
    row ← client_read (find_device (hash_token r raw_device_code))
    d ← or_throw (unexpired row) expired_token
    poll d

  abbrev pub finish : Polled → M TokenSet
  finish (tokens t) = pure t
  finish (protocol_error e) = throw e

  unfoldable pub device_code_grant : String → M TokenSet
  device_code_grant raw_device_code = do
    polled ← transaction (device_work raw_device_code)
    finish polled

-- ===== src/Tests/DeviceTests.antt =====
-- Polling a device code at concrete tables.
use authometry.Common.{◌+◌, ◌≡◌, ◌≢◌, inl, refl, true, false, none, some, [], ◌∷◌}
use authometry.Database.{DeviceRow, DeviceStatus, World, ok, fail, ◌>>=◌, transaction}
use authometry.Signing.{hash_token, random_id, sign_oauth_jwt}
use authometry.Claims.{mapped_claims}
use authometry.Common.Text.{join}
use authometry.Issue.{
  TokenSet, bearer, issue_token_set, user_id_token, admin_id_token, new_refresh_token,
}
use authometry.Grant.{claim_user}
use authometry.Grant.Device.{
  slow_down, find_device, update_device, polled_too_soon, device_issue_input, redeem, by_status,
  poll, device_work, device_code_grant,
}
use authometry.Grant.Device.Laws.{Polls, Refused, poll-slow_down, poll-Refused, poll-poll}
use authometry.Grant.Device.Redemption.{Redeems, device-Redeems, device-device}
use authometry.Tests.{
  runtime_at, client, other_client, device, signing_key, tables_with, world_of, world, now, later,
}

abbrev issued : TokenSet
issued = record {
  access_token = "jwt";
  token_type = bearer;
  expires_in = 900;
  scope = "read";
  id_token = none;
  refresh_token = none;
  issued_token_type = none;
}

redeemed : (device_code_grant now client "device" world).0 ≡ ok issued
unfolding device_code_grant device_work poll by_status redeem find_device update_device
    polled_too_soon device_issue_input transaction ◌>>=◌ hash_token claim_user join issue_token_set
    sign_oauth_jwt random_id mapped_claims user_id_token admin_id_token new_refresh_token
redeemed = refl

abbrev hasty : DeviceRow
hasty = record device { last_polled_at = some 998000 }

abbrev hasty_world : World
hasty_world = world_of (tables_with (hasty ∷ []) (signing_key ∷ []))

abbrev waiting : DeviceRow
waiting = record device { status = DeviceStatus.pending; user_id = none }

abbrev waiting_world : World
waiting_world = world_of (tables_with (waiting ∷ []) (signing_key ∷ []))

hasty-Polls : Polls now client "device" hasty_world.committed hasty true
unfolding find_device hash_token polled_too_soon
hasty-Polls = record { found = refl; in_time = refl; pace = refl }

waiting-Polls : Polls now client "device" waiting_world.committed waiting false
unfolding find_device hash_token polled_too_soon
waiting-Polls = record { found = refl; in_time = refl; pace = refl }

poll-slow_down_example :
    let (o, w') = device_code_grant now client "device" hasty_world in
    (o ≡ fail slow_down)
    × (find_device (hash_token now "device") w'.committed
        ≡ some (record hasty { interval_seconds = 5 + 5 }))
poll-slow_down_example = poll-slow_down now client "device" hasty_world hasty hasty-Polls

poll-Refused_example :
    Refused now client waiting "device" waiting_world
      (device_code_grant now client "device" waiting_world)
poll-Refused_example =
    poll-Refused now client "device" waiting_world waiting waiting-Polls (λ e. absurd (cc))

-- Two seconds later, from another client.
poll-poll_example :
    let w' = (device_code_grant now client "device" waiting_world).1 in
    let (o, w'') = device_code_grant (runtime_at 1002000) other_client "device" w' in
    (o ≡ fail slow_down)
    × (find_device (hash_token now "device") w''.committed
        ≡ some (record waiting { last_polled_at = some now.sql_now; interval_seconds = 5 + 5 }))
unfolding hash_token
poll-poll_example =
    poll-poll now client (runtime_at 1002000) other_client "device" waiting_world waiting refl
      waiting-Polls (inl refl) refl refl

device-Redeems_example :
    Redeems now client "device" world.committed
      (device_code_grant now client "device" world).1.committed
device-Redeems_example = device-Redeems now client "device" world issued redeemed

device-device_example :
    (device_code_grant later other_client "device"
      (device_code_grant now client "device" world).1).0
    ≢ ok issued
unfolding hash_token
device-device_example =
    device-device now client later other_client "device" world issued issued refl redeemed

-- The code was issued to `client`: its row's `application_id` is not read.
redeemed_elsewhere : (device_code_grant now other_client "device" world).0 ≡ ok issued
unfolding device_code_grant device_work poll by_status redeem find_device update_device
    polled_too_soon device_issue_input transaction ◌>>=◌ hash_token claim_user join issue_token_set
    sign_oauth_jwt random_id mapped_claims user_id_token admin_id_token new_refresh_token
redeemed_elsewhere = refl

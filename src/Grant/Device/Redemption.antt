-- ===== src/Grant/Device/Redemption.antt =====
-- An approved device code is redeemed once.
use mathlib.Core.Path.{subst}
use authometry.Common.{
  ◌≡◌, ◌≢◌, refl, ap, ◌∙◌, String, true, false, Option, none, some, arith, Option-cases, inl, inr,
}
use authometry.Database.{
  Uuid, OAuthApplicationRow, IdentityUserRow, DeviceRow, DeviceStatus, Tables, Runtime, World, ok,
  ◌>>=◌, transaction,
}
use authometry.Signing.{hash_token}
use authometry.Issue.{TokenSet}
use authometry.Issue.Laws.{issue_token_set-Steady}
use authometry.Grant.{user_by_id}
use authometry.Grant.Device.{
  Polled, tokens, find_device, update_device, device_issue_input, redeem, by_status, poll,
  device_work, device_code_grant,
}
use authometry.Grant.Device.Laws.{Polls, polled_now, find_device-update_device, find_device-devices}

abbrev consumed : DeviceRow → DeviceRow
consumed d = record d { status = DeviceStatus.consumed }

module _ (r : Runtime) (application : OAuthApplicationRow) where
  -- The state in which the tokens of an approved code are issued.
  abbrev pub redeeming : DeviceRow → IdentityUserRow → World → World
  redeeming d user w = record w {
    draft = update_device d.id consumed w.draft;
    subject =
        some
          (record { id = user.id; email = user.email; name = user.name; is_identity_user = true });
  }

  redeem-devices :
      (d : DeviceRow) (user_id : Uuid) (w : World) (p : Polled)
      → (redeem r application d user_id w).0 ≡ ok p
      → (redeem r application d user_id w).1.draft.devices
        ≡ (update_device d.id consumed w.draft).devices
  unfolding redeem ◌>>=◌
  redeem-devices d user_id w p h = elim (Option-cases (user_by_id user_id w.draft)) [
    | inl missing ↦ absurd (ground arith)
    | inr (user, found) ↦
        let stays =
          (issue_token_set-Steady r application (device_issue_input r application d user)
              (λ t. t.devices) (λ t fs ks. refl)).stays
            (redeeming d user w) in
        ground (arith, stays.draft, found)
  ]

  -- What a request that got tokens has met and stored.
  pub record Redeems (raw : String) (before after : Tables) : Type 0 where
    pub device : DeviceRow
    pub polls : Polls r application raw before device false
    pub approved : device.status ≡ DeviceStatus.approved
    pub stored :
        find_device (hash_token r raw) after ≡ some (consumed (polled_now r application device))

  by_status-approved :
      (s : DeviceStatus) (user_id : Option Uuid) (d : DeviceRow) (w : World) (t : TokenSet)
      → (by_status r application s user_id d w).0 ≡ ok (tokens t)
      → (s ≡ DeviceStatus.approved)
        × ((by_status r application s user_id d w).1.draft.devices
            ≡ (update_device d.id consumed w.draft).devices)
  unfolding by_status
  by_status-approved DeviceStatus.approved (some user_id) d w t h =
      (refl, redeem-devices d user_id w (tokens t) h)
  by_status-approved DeviceStatus.approved none d w t h = absurd (cc)
  by_status-approved DeviceStatus.pending user_id d w t h = absurd (ground arith)
  by_status-approved DeviceStatus.denied user_id d w t h = absurd (ground arith)
  by_status-approved DeviceStatus.consumed user_id d w t h = absurd (cc)
  by_status-approved DeviceStatus.expired user_id d w t h = absurd (cc)

  -- A request that gets tokens met an approved code that has not expired, and leaves it consumed.
  pub device-Redeems :
      (raw : String) (w : World) (t : TokenSet)
      → (device_code_grant r application raw w).0 ≡ ok t
      → Redeems raw w.committed (device_code_grant r application raw w).1.committed
  unfolding device_code_grant device_work poll transaction ◌>>=◌
  device-Redeems raw w t h = elim (Option-cases (find_device (hash_token r raw) w.committed)) [
    | inl missing ↦ absurd (ground arith)
    | inr (d, found) ↦
        let polled : World = record w {
          draft = update_device d.id (polled_now r application) w.committed;
        } in
        let answer : (by_status r application d.status d.user_id d polled).0 ≡ ok (tokens t) =
          ground arith in
        let (approved, devices) = by_status-approved d.status d.user_id d polled t answer in
        let once =
          find_device-update_device (hash_token r raw) (polled_now r application) w.committed d
            (λ x. refl) found in
        let twice =
          find_device-update_device (hash_token r raw) consumed _ (polled_now r application d)
            (λ x. refl) once in
        let same : (device_code_grant r application raw w).1.committed
            ≡ (by_status r application d.status d.user_id d polled).1.draft =
          ground arith in
        record {
          device = d;
          polls = record { found = found; in_time = ground arith; pace = ground arith };
          approved = approved;
          stored =
              ap (find_device (hash_token r raw)) same
              ∙ find_device-devices (hash_token r raw) _ _ devices
              ∙ twice;
        }
  ]

module _ (r : Runtime) (application : OAuthApplicationRow) where
  -- Once a request got tokens for a device code, no later request with that code gets any,
  -- whichever client sends it and whenever. Both requests hash the code alike.
  pub device-device :
      (later : Runtime) (other : OAuthApplicationRow) (raw : String) (w : World) (t t' : TokenSet)
      → hash_token later raw ≡ hash_token r raw
      → (device_code_grant r application raw w).0 ≡ ok t
      → (device_code_grant later other raw (device_code_grant r application raw w).1).0 ≢ ok t'
  device-device later other raw w t t' same h h' =
      let first = device-Redeems r application raw w t h in
      let w' = (device_code_grant r application raw w).1 in
      let second = device-Redeems later other raw w' t' h' in
      let found : find_device (hash_token r raw) w'.committed ≡ some second.device =
        subst (λ hash. find_device hash w'.committed ≡ some second.device) same
          second.polls.found in
      let status : DeviceStatus.approved ≡ DeviceStatus.consumed =
        ground (arith, second.approved, first.stored, found) in
      absurd (cc)

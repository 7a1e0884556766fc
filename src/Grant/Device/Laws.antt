-- ===== src/Grant/Device/Laws.antt =====
-- Polling a device code: what each poll answers and stores, and that a code is redeemed once.
use mathlib.Core.Path.{subst}
use authometry.Common.{
  ◌*◌, ◌≢◌, sym, inl, inr, ◌+◌, ◌≡◌, refl, ap, String, Bool, true, false, some, arith, ◌==◌, ltb,
  ◌⊎◌, str_eq, find, find-update_where,
}
use authometry.Database.{
  OAuthApplicationRow, DeviceRow, DeviceStatus, Tables, Runtime, World, Outcome, fail, ◌>>=◌,
  transaction,
}
use authometry.Signing.{hash_token}
use authometry.Issue.{TokenSet}
use authometry.Grant.Device.{
  no_longer_valid, slow_down, authorization_pending, access_denied, find_device, update_device,
  polled_too_soon, by_status, poll, device_work, device_code_grant,
}

-- An update of the row by its id shows in the row that the code finds.
pub find_device-update_device :
    (hash : String) (f : DeviceRow → DeviceRow) (t : Tables) (d : DeviceRow)
    → ((x : DeviceRow) → (f x).device_code_hash ≡ x.device_code_hash)
    → find_device hash t ≡ some d
    → find_device hash (update_device d.id f t) ≡ some (f d)
unfolding find_device update_device
find_device-update_device hash f t d keeps h =
    let moved =
      find-update_where (λ x. str_eq x.device_code_hash hash) (λ x. x.id == d.id) f
        (λ x. ap (λ s. str_eq s hash) (keeps x)) t.devices in
    ground (arith, moved)

-- The search looks at the table of devices alone.
pub find_device-devices :
    (hash : String) (s t : Tables) → s.devices ≡ t.devices → find_device hash s ≡ find_device hash t
unfolding find_device
find_device-devices hash s t h = ap (find (λ d. str_eq d.device_code_hash hash)) h

module _ (r : Runtime) (application : OAuthApplicationRow) where
  -- The row that a poll in time, or too soon, meets.
  pub record Polls (raw : String) (t : Tables) (d : DeviceRow) (too_soon : Bool) : Type 0 where
    pub found : find_device (hash_token r raw) t ≡ some d
    pub in_time : ltb d.expires_at r.date_now ≡ false
    pub pace : polled_too_soon r application d ≡ too_soon

  abbrev pub polled_now : DeviceRow → DeviceRow
  polled_now d = record d { last_polled_at = some r.sql_now }

  -- A poll before the interval has passed is told to slow down, whatever the user has decided, and
  -- the interval of the code is five seconds longer from then on; nothing else of the code changes.
  pub poll-slow_down :
      (raw : String) (w : World) (d : DeviceRow)
      → Polls raw w.committed d true
      → let (o, w') = device_code_grant r application raw w in
        (o ≡ fail slow_down)
        × (find_device (hash_token r raw) w'.committed
            ≡ some (record d { interval_seconds = d.interval_seconds + 5 }))
  unfolding device_code_grant device_work poll transaction ◌>>=◌
  poll-slow_down raw w d p = (
    ground (arith, p.found, p.in_time, p.pace),
    let stored =
          find_device-update_device (hash_token r raw)
            (λ x. record x { interval_seconds = x.interval_seconds + 5 }) w.committed d (λ x. refl)
            p.found in
        ground (arith, stored, p.found, p.in_time, p.pace),
  )

  -- What a poll in time of a code with this status is answered and leaves, where it is not approved.
  abbrev pub Refused : DeviceRow → String → World → Outcome TokenSet × World → Type 0
  Refused d raw w x =
      ((d.status ≡ DeviceStatus.pending)
        × (x.0 ≡ fail authorization_pending)
        × (find_device (hash_token r raw) x.1.committed ≡ some (polled_now d)))
      ⊎ (((d.status ≡ DeviceStatus.denied)
            × (x.0 ≡ fail access_denied)
            × (find_device (hash_token r raw) x.1.committed ≡ some (polled_now d)))
          ⊎ (((d.status ≡ DeviceStatus.consumed) ⊎ (d.status ≡ DeviceStatus.expired))
              × (x.0 ≡ fail no_longer_valid)
              × (x.1.committed ≡ w.committed)))

  status-cases :
      (s : DeviceStatus)
      → s ≢ DeviceStatus.approved
      → (s ≡ DeviceStatus.pending)
        ⊎ ((s ≡ DeviceStatus.denied) ⊎ ((s ≡ DeviceStatus.consumed) ⊎ (s ≡ DeviceStatus.expired)))
  status-cases DeviceStatus.pending h = inl refl
  status-cases DeviceStatus.approved h = absurd (h refl)
  status-cases DeviceStatus.denied h = inr (inl refl)
  status-cases DeviceStatus.consumed h = inr (inr (inl refl))
  status-cases DeviceStatus.expired h = inr (inr (inr refl))

  -- A poll in time of a code that is not approved: one that is pending or denied is told so, and the
  -- time of the poll is stored although the request fails; one that is consumed or expired is no
  -- longer valid, and no table changes, the time of the poll included.
  pub poll-Refused :
      (raw : String) (w : World) (d : DeviceRow)
      → Polls raw w.committed d false
      → d.status ≢ DeviceStatus.approved
      → Refused d raw w (device_code_grant r application raw w)
  unfolding device_code_grant device_work poll by_status transaction ◌>>=◌
  poll-Refused raw w d p status =
      let stored =
        find_device-update_device (hash_token r raw) polled_now w.committed d (λ x. refl) p.found in
      elim (status-cases d.status status) [
        | inl s ↦ inl (
          s,
          ground (arith, s, p.found, p.in_time, p.pace),
          ground (arith, s, stored, p.found, p.in_time, p.pace),
        )
        | inr (inl s) ↦ inr (
            inl (
              s,
              ground (arith, s, p.found, p.in_time, p.pace),
              ground (arith, s, stored, p.found, p.in_time, p.pace),
            ))
        | inr (inr (inl s)) ↦ inr (
            inr (
              inl s,
              ground (arith, s, p.found, p.in_time, p.pace),
              ground (arith, s, p.found, p.in_time, p.pace),
            ))
        | inr (inr (inr s)) ↦ inr (
            inr (
              inr s,
              ground (arith, s, p.found, p.in_time, p.pace),
              ground (arith, s, p.found, p.in_time, p.pace),
            ))
      ]

  -- A pending or denied poll has stored its time.
  Refused-polled :
      (d : DeviceRow) (raw : String) (w : World) (x : Outcome TokenSet × World)
      → (d.status ≡ DeviceStatus.pending) ⊎ (d.status ≡ DeviceStatus.denied)
      → Refused d raw w x
      → find_device (hash_token r raw) x.1.committed ≡ some (polled_now d)
  Refused-polled d raw w x s (inl h) = h.2
  Refused-polled d raw w x s (inr (inl h)) = h.2
  Refused-polled d raw w x (inl s) (inr (inr (inl c, h, k))) = absurd (cc)
  Refused-polled d raw w x (inl s) (inr (inr (inr c, h, k))) = absurd (cc)
  Refused-polled d raw w x (inr s) (inr (inr (inl c, h, k))) = absurd (cc)
  Refused-polled d raw w x (inr s) (inr (inr (inr c, h, k))) = absurd (cc)

module _ (r : Runtime) (application : OAuthApplicationRow) where
  open_status :
      (s : DeviceStatus)
      → (s ≡ DeviceStatus.pending) ⊎ (s ≡ DeviceStatus.denied)
      → s ≢ DeviceStatus.approved
  open_status s (inl h) a = absurd (cc)
  open_status s (inr h) a = absurd (cc)

  -- After a poll in time of a pending or denied code, the next poll within the interval of the code
  -- is told to slow down, whichever client sends it, and the interval is five seconds longer from
  -- then on; both requests hash the code alike, and the code has not expired at the second.
  pub poll-poll :
      (later : Runtime) (other : OAuthApplicationRow) (raw : String) (w : World) (d : DeviceRow)
      → hash_token later raw ≡ hash_token r raw
      → Polls r application raw w.committed d false
      → (d.status ≡ DeviceStatus.pending) ⊎ (d.status ≡ DeviceStatus.denied)
      → ltb d.expires_at later.date_now ≡ false
      → ltb later.date_now (r.sql_now + d.interval_seconds * 1000) ≡ true
      → let w' = (device_code_grant r application raw w).1 in
        let (o, w'') = device_code_grant later other raw w' in
        (o ≡ fail slow_down)
        × (find_device (hash_token r raw) w''.committed
            ≡ some (record d {
              last_polled_at = some r.sql_now;
              interval_seconds = d.interval_seconds + 5;
            }))
  unfolding polled_too_soon
  poll-poll later other raw w d same p status in_time soon =
      let w' = (device_code_grant r application raw w).1 in
      let stored =
        Refused-polled r application d raw w (device_code_grant r application raw w) status
          (poll-Refused r application raw w d p (open_status d.status status)) in
      let again : Polls later other raw w'.committed (polled_now r application d) true = record {
        found =
            subst (λ hash. find_device hash w'.committed ≡ some (polled_now r application d))
              (sym same) stored;
        in_time = in_time;
        pace = soon;
      } in
      let (told, longer) = poll-slow_down later other raw w' (polled_now r application d) again in
      (
        told,
        subst
            (λ hash.
              find_device hash (device_code_grant later other raw w').1.committed
              ≡ some (record d {
                last_polled_at = some r.sql_now;
                interval_seconds = d.interval_seconds + 5;
              }))
            same longer,
      )

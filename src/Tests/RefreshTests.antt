-- ===== src/Tests/RefreshTests.antt =====
-- Refreshing at concrete tables.
use authometry.Common.{is_some, ◌≡◌, refl, false, none, some}
use authometry.Database.{
  FamilyStatus, RefreshTokenRow, RefreshFamilyRow, World, ok, fail, ◌>>=◌, transaction,
}
use authometry.Signing.{hash_token, random_token, random_id, sign_oauth_jwt}
use authometry.Claims.{mapped_claims}
use authometry.Common.Text.{join, words}
use authometry.Issue.{
  TokenSet, bearer, issue_token_set, user_id_token, admin_id_token, new_refresh_token,
}
use authometry.Grant.{claim_user, resource_refused}
use authometry.Grant.Refresh.{
  invalid_token, reuse_detected, token_expired, find_current, refresh_token_grant, refresh_work,
  used_or_rotated, rotate, refresh_issue, refresh_issue_input, consume_token, insert_next,
  mark_reused,
}
use authometry.Grant.Refresh.Rotation.{Meets, IsClosed, refresh-reuse, refresh-expired}
use authometry.Grant.Refresh.Success.{Rotates, refresh-Rotates}
use authometry.Grant.Refresh.Replay.{refresh-refresh, refresh-IsClosed}
use authometry.Tests.{client, family, token, used_token, world, now, later, runtime_at}

abbrev narrowed : TokenSet
narrowed = record {
  access_token = "jwt";
  token_type = bearer;
  expires_in = 900;
  scope = "read";
  id_token = none;
  refresh_token = some "fresh";
  issued_token_type = none;
}

refreshed : (refresh_token_grant now client "old" (some "read") "" world).0 ≡ ok narrowed
unfolding refresh_token_grant refresh_work used_or_rotated rotate refresh_issue refresh_issue_input
    transaction ◌>>=◌ hash_token random_token find_current consume_token insert_next
    resource_refused claim_user words join issue_token_set sign_oauth_jwt random_id mapped_claims
    user_id_token admin_id_token new_refresh_token
refreshed = refl

meets : Meets now client "used" world.committed used_token family
unfolding find_current hash_token
meets = record { found = refl; same_client = refl; not_revoked = refl; live = refl }

refresh-reuse_example :
    let (o, w') = refresh_token_grant now client "used" none "" world in
    (o ≡ fail reuse_detected) × IsClosed 1000000 40 w'.committed
refresh-reuse_example = refresh-reuse now client "used" none "" world meets refl

abbrev used_up : World
used_up = (refresh_token_grant now client "used" none "" world).1

closed_token :
    find_current (hash_token later "old") used_up.committed
    ≡ some (
      record token { revoked_at = some 1000000 },
      record family { status = FamilyStatus.reused; revoked_reason = some "refresh_token_reuse" },
    )
unfolding refresh_token_grant refresh_work used_or_rotated transaction ◌>>=◌ hash_token find_current
    mark_reused
closed_token = refl

closed : IsClosed 1000000 40 used_up.committed
closed = (refresh-reuse now client "used" none "" world meets refl).1

refresh-IsClosed_example :
    let (o, w') = refresh_token_grant later client "old" none "" used_up in
    (o ≡ fail invalid_token) × (w'.committed ≡ used_up.committed)
refresh-IsClosed_example =
    refresh-IsClosed client later 1000000 "old" none "" used_up _ _ closed_token closed

Meets-late : Meets (runtime_at 9500000) client "old" world.committed token family
unfolding find_current hash_token
Meets-late = record { found = refl; same_client = refl; not_revoked = refl; live = refl }

refresh-expired_example :
    let (o, w') = refresh_token_grant (runtime_at 9500000) client "old" none "" world in
    (o ≡ fail token_expired) × (w'.committed ≡ world.committed)
refresh-expired_example =
    refresh-expired (runtime_at 9500000) client "old" none "" world Meets-late refl refl

refresh-Rotates_example :
    (k : RefreshTokenRow) × (f : RefreshFamilyRow) × Meets now client "old" world.committed k f
    × (is_some k.consumed_at ≡ false)
    × Rotates now client k f
        (some "read")
        ""
        world.committed
        (refresh_token_grant now client "old" (some "read") "" world).1.committed
        narrowed
refresh-Rotates_example = refresh-Rotates now client "old" (some "read") "" world narrowed refreshed

refresh-refresh_example :
    let w' = (refresh_token_grant now client "old" (some "read") "" world).1 in
    let (o, w'') = refresh_token_grant later client "old" none "" w' in
    (k : RefreshTokenRow) × (f : RefreshFamilyRow) × (find_current
        (hash_token now "old")
        world.committed
      ≡ some (k, f))
    × (o ≡ fail reuse_detected)
    × IsClosed later.sql_now f.id w''.committed
unfolding hash_token
refresh-refresh_example =
    refresh-refresh now client later "old" (some "read") none "" "" world narrowed refl refreshed

-- ===== src/Grant/Refresh/Rotation.antt =====
-- What a refresh does to the family, and to a token that is shown twice.
use authometry.Common.{
  ℕ, ◌≡◌, String, true, false, Option, none, some, List, [], ◌∷◌, arith, ◌==◌, is_some,
  update_where, All,
}
use authometry.Database.{
  Uuid, OAuthApplicationRow, RefreshFamilyRow, RefreshTokenRow, FamilyStatus, Tables, Runtime,
  World, fail, ◌>>=◌, transaction,
}
use authometry.Signing.{hash_token}
use authometry.Grant.Refresh.{
  reuse_detected, token_expired, find_current, mark_reused, is_due, rotate, used_or_rotated,
  refresh_work, refresh_token_grant,
}

-- A family that was closed at that instant: no token is left in it that could be used.
pub record IsClosed (instant : ℕ) (family_id : Uuid) (t : Tables) : Type 0 where
  pub families : All (λ f. f.id ≡ family_id → f.status ≡ FamilyStatus.reused) t.families
  pub tokens : All (λ k. k.family_id ≡ family_id → k.revoked_at ≡ some instant) t.tokens

module _ (r : Runtime) (application : OAuthApplicationRow) where
  -- The row that a live refresh request of this client meets.
  pub record Meets (raw_token : String) (t : Tables) (k : RefreshTokenRow) (f : RefreshFamilyRow)
      : Type 0 where
    pub found : find_current (hash_token r raw_token) t ≡ some (k, f)
    pub same_client : f.application_id ≡ application.id
    pub not_revoked : k.revoked_at ≡ none
    pub live : f.status ≡ FamilyStatus.active

  families-IsClosed :
      (id : Uuid) (fs : List RefreshFamilyRow)
      → All
          (λ f. f.id ≡ id → f.status ≡ FamilyStatus.reused)
          (update_where
            (λ f. f.id == id)
            (λ f. record f {
              status = FamilyStatus.reused;
              revoked_reason = some "refresh_token_reuse";
            })
            fs)
  families-IsClosed id [] = tt
  families-IsClosed id (f ∷ fs) = (ground arith, families-IsClosed id fs)

  tokens-IsClosed :
      (id : Uuid) (ks : List RefreshTokenRow)
      → All
          (λ k. k.family_id ≡ id → k.revoked_at ≡ some r.sql_now)
          (update_where (λ k. k.family_id == id) (λ k. record k { revoked_at = some r.sql_now }) ks)
  tokens-IsClosed id [] = tt
  tokens-IsClosed id (k ∷ ks) = (ground arith, tokens-IsClosed id ks)

  mark_reused-IsClosed :
      (id : Uuid) (t : Tables) → IsClosed r.sql_now id (mark_reused r application id t)
  unfolding mark_reused
  mark_reused-IsClosed id t = record {
    families = families-IsClosed id t.families;
    tokens = tokens-IsClosed id t.tokens;
  }

  reuse_closes :
      (raw_token : String) (scope : Option String) (resource : String) (w : World)
      {k : RefreshTokenRow} {f : RefreshFamilyRow}
      → Meets raw_token w.committed k f
      → is_some k.consumed_at ≡ true
      → let (o, w') = refresh_token_grant r application raw_token scope resource w in
        (o ≡ fail reuse_detected) × (w'.committed ≡ mark_reused r application f.id w.committed)
  unfolding refresh_token_grant refresh_work used_or_rotated transaction ◌>>=◌
  reuse_closes raw_token scope resource w m used = ground arith

  -- A token that was rotated before is refused when it comes again, and takes its family down:
  -- the committed family is `reused` and each of its tokens is revoked.
  pub refresh-reuse :
      (raw_token : String) (scope : Option String) (resource : String) (w : World)
      {k : RefreshTokenRow} {f : RefreshFamilyRow}
      → Meets raw_token w.committed k f
      → is_some k.consumed_at ≡ true
      → let (o, w') = refresh_token_grant r application raw_token scope resource w in
        (o ≡ fail reuse_detected) × IsClosed r.sql_now f.id w'.committed
  refresh-reuse raw_token scope resource w m used =
      let (refused, closed) = reuse_closes raw_token scope resource w m used in
      (refused, rw closed (mark_reused-IsClosed _ w.committed))

  -- A live token that has expired is refused, and no table changes: the update that marks the
  -- family `expired` is rolled back by the error thrown after it.
  pub refresh-expired :
      (raw_token : String) (scope : Option String) (resource : String) (w : World)
      {k : RefreshTokenRow} {f : RefreshFamilyRow}
      → Meets raw_token w.committed k f
      → is_some k.consumed_at ≡ false
      → is_due r application k f ≡ true
      → let (o, w') = refresh_token_grant r application raw_token scope resource w in
        (o ≡ fail token_expired) × (w'.committed ≡ w.committed)
  unfolding refresh_token_grant refresh_work used_or_rotated rotate transaction ◌>>=◌
  refresh-expired raw_token scope resource w m unused due = ground arith

-- ===== src/Grant/Refresh/Replay.antt =====
-- Refresh tokens over several requests: a second use, and every use after it.
use mathlib.Core.Path.{subst}
use authometry.Common.{
  ℕ, ◌≡◌, refl, sym, String, Option, some, arith, [], ◌==◌, str_eq, find, find-update_where,
  find-append, All-find,
}
use authometry.Database.{
  Uuid, OAuthApplicationRow, RefreshFamilyRow, RefreshTokenRow, Tables, Runtime, World, ok, fail,
  ◌>>=◌, transaction,
}
use authometry.Signing.{hash_token}
use authometry.Issue.{TokenSet}
use authometry.Grant.Refresh.{
  invalid_token, reuse_detected, find_current, consume_token, insert_next, refresh_work,
  refresh_token_grant,
}
use authometry.Grant.Refresh.Rotation.{Meets, IsClosed, refresh-reuse}
use authometry.Grant.Refresh.Success.{refresh-Rotates}

-- The first row of the join, from the first token with the hash.
find_current-some :
    (hash : String) (t : Tables) (k : RefreshTokenRow) (f : RefreshFamilyRow)
    → find_current hash t ≡ some (k, f)
    → (find (λ k'. str_eq k'.token_hash hash) t.tokens ≡ some k)
      × (find (λ f'. f'.id == k.family_id) t.families ≡ some f)
unfolding find_current
find_current-some hash t k f h = (ground arith, ground arith)

module _ (r : Runtime) (application : OAuthApplicationRow) where
  abbrev consumed : RefreshTokenRow → RefreshTokenRow
  consumed k = record k { consumed_at = some r.sql_now }

  -- After a rotation the old hash still finds the old row, now consumed.
  find_current-rotated :
      (hash : String) (t : Tables) (k : RefreshTokenRow) (f : RefreshFamilyRow) (id : Uuid)
      (next : String)
      → find_current hash t ≡ some (k, f)
      → find_current hash
          (insert_next r application k f id next (consume_token r application k.id t))
        ≡ some (consumed k, f)
  unfolding find_current insert_next consume_token
  find_current-rotated hash t k f id next h =
      let (token, family) = find_current-some hash t k f h in
      let still =
        find-update_where (λ k'. str_eq k'.token_hash hash) (λ k'. k'.id == k.id) consumed
          (λ x. refl) t.tokens in
      let found_old : find (λ k'. str_eq k'.token_hash hash)
            (consume_token r application k.id t).tokens
          ≡ some (consumed k) =
        ground (arith, still) in
      let found_new =
        find-append (λ k'. str_eq k'.token_hash hash) _
          (insert_next r application k f id next (record t { tokens = [] })).tokens _ found_old in
      ground (arith, found_new)

  -- After a refresh that succeeded, the same token is refused when the next request of the same
  -- client brings it again, whatever that request's scope, resource and time, and the token's family
  -- is closed. Both requests hash the token alike.
  pub refresh-refresh :
      (later : Runtime) (raw_token : String) (scope scope' : Option String)
      (resource resource' : String) (w : World) (t : TokenSet)
      → hash_token later raw_token ≡ hash_token r raw_token
      → (refresh_token_grant r application raw_token scope resource w).0 ≡ ok t
      → let w' = (refresh_token_grant r application raw_token scope resource w).1 in
        let (o, w'') = refresh_token_grant later application raw_token scope' resource' w' in
        (k : RefreshTokenRow) × (f : RefreshFamilyRow) × (find_current
            (hash_token r raw_token)
            w.committed
          ≡ some (k, f))
        × (o ≡ fail reuse_detected)
        × IsClosed later.sql_now f.id w''.committed
  refresh-refresh later raw_token scope scope' resource resource' w t same h =
      let (k, f, met, unused, rotates) =
        refresh-Rotates r application raw_token scope resource w t h in
      let w' = (refresh_token_grant r application raw_token scope resource w).1 in
      let met' : Meets later application raw_token w'.committed (consumed k) f = record {
        found =
            subst (λ hash. find_current hash w'.committed ≡ some (consumed k, f)) (sym same)
              (subst (λ after. find_current (hash_token r raw_token) after ≡ some (consumed k, f))
                (sym rotates.stored)
                (find_current-rotated (hash_token r raw_token) w.committed k f rotates.id _
                  met.found));
        same_client = met.same_client;
        not_revoked = met.not_revoked;
        live = met.live;
      } in
      let (refused, closed) =
        refresh-reuse later application raw_token scope' resource' w' met' refl in
      (k, f, met.found, refused, closed)

module _ (application : OAuthApplicationRow) where
  -- In a closed family every token is refused, and the request changes no table.
  pub refresh-IsClosed :
      (later : Runtime) (instant : ℕ) (raw_token : String) (scope : Option String)
      (resource : String) (w : World) (k : RefreshTokenRow) (f : RefreshFamilyRow)
      → find_current (hash_token later raw_token) w.committed ≡ some (k, f)
      → IsClosed instant f.id w.committed
      → let (o, w') = refresh_token_grant later application raw_token scope resource w in
        (o ≡ fail invalid_token) × (w'.committed ≡ w.committed)
  unfolding refresh_token_grant refresh_work transaction ◌>>=◌
  refresh-IsClosed later instant raw_token scope resource w k f found closed =
      let (token, family) = find_current-some _ w.committed k f found in
      let reused =
        All-find _ (λ f'. f'.id == k.family_id) w.committed.families f closed.families family
          refl in
      ground (arith, reused)

-- ===== src/Endpoint/Revocation/Laws.antt =====
-- What revoking a token does to it.
use authometry.Common.{
  ◌≡◌, refl, ap, ◌∙◌, String, Bool, true, Option, some, List, arith, ◌==◌, str_eq, is_some, find,
  find-update_where, Option-cases, inl, inr,
}
use authometry.Database.{
  Uuid, OAuthApplicationRow, AuthMethod, RefreshTokenRow, RefreshFamilyRow, Tables, Runtime, World,
  ok, fail, ◌>>=◌, Steady, Any, pure-Steady, throw_if-Steady, or_throw-Steady, pool_read-Steady,
  pool_write-Steady, >>=-Steady, >>=-ok, read_step, transaction,
}
use authometry.Signing.{hash_token}
use authometry.Agents.Effects.{verify_agent_assertion-Steady}
use authometry.Client.{
  Request, param, find_application_by_client_id, check_secret, touch_credential, authenticate_by,
  authenticate_client,
}
use authometry.Client.Authentication.{route-Steady}
use authometry.Grant.Refresh.{invalid_token, find_current, refresh_work, refresh_token_grant}
use authometry.Endpoint.Revocation.{family_of, revoke_family, revoke_by, revoke}

module _ (r : Runtime) where
  abbrev token_rows : Tables → List RefreshTokenRow
  token_rows t = t.tokens

  check_secret-Steady :
      (a : OAuthApplicationRow) (secret : String) → Steady token_rows Any (check_secret r a secret)
  unfolding check_secret touch_credential
  check_secret-Steady a secret =
      >>=-Steady token_rows _ Any _ _ (throw_if-Steady token_rows _ _) λ u _.
        >>=-Steady token_rows Any Any _ _ (pool_read-Steady token_rows Any _ (λ t. tt)) λ known _.
          >>=-Steady token_rows _ Any _ _ (throw_if-Steady token_rows _ _) λ v _.
            >>=-Steady token_rows Any Any _ _ (pool_write-Steady token_rows _ (λ t. refl))
              λ z _. pure-Steady token_rows Any _ tt

  authenticate_by-Steady :
      (method : AuthMethod) (basic : Bool) (secret : String) (request : Request)
      (a : OAuthApplicationRow)
      → Steady token_rows Any (authenticate_by r method basic secret request a)
  unfolding authenticate_by
  authenticate_by-Steady AuthMethod.public_client basic secret request a =
      >>=-Steady token_rows _ Any _ _ (throw_if-Steady token_rows _ _)
        λ u _. pure-Steady token_rows Any _ tt
  authenticate_by-Steady AuthMethod.private_key_jwt basic secret request a =
      >>=-Steady token_rows _ Any _ _ (throw_if-Steady token_rows _ _) λ u _.
        >>=-Steady token_rows Any Any _ _
          (verify_agent_assertion-Steady r token_rows (λ t used proofs. refl) _ _ _)
          λ g _. pure-Steady token_rows Any _ tt
  authenticate_by-Steady AuthMethod.client_secret_basic basic secret request a =
      >>=-Steady token_rows _ Any _ _ (throw_if-Steady token_rows _ _)
        λ u _. check_secret-Steady a secret
  authenticate_by-Steady AuthMethod.client_secret_post basic secret request a =
      >>=-Steady token_rows _ Any _ _ (throw_if-Steady token_rows _ _)
        λ u _. check_secret-Steady a secret

  authenticate_client-Steady :
      (request : Request) → Steady token_rows Any (authenticate_client r request)
  unfolding authenticate_client find_application_by_client_id
  authenticate_client-Steady request =
      >>=-Steady token_rows Any Any _ _ (pool_read-Steady token_rows Any _ (λ t. tt)) λ found _.
        >>=-Steady token_rows Any Any _ _ (or_throw-Steady token_rows Any _ _ (λ a e. tt)) λ a _.
          >>=-Steady token_rows Any Any _ _ (route-Steady r token_rows a request)
            λ u _. authenticate_by-Steady _ _ _ request a

  -- The search for a token of this hash after its family was revoked.
  found_revoked :
      (hash : String) (t : Tables) (id : Uuid)
      → family_of hash t ≡ some id
      → (k : RefreshTokenRow) × (find (λ k. str_eq k.token_hash hash) (revoke_family r id t).tokens
          ≡ some k)
        × (is_some k.revoked_at ≡ true)
  unfolding family_of revoke_family
  found_revoked hash t id h = elim (Option-cases (find (λ k. str_eq k.token_hash hash) t.tokens)) [
    | inl missing ↦ absurd (ground arith)
    | inr (k, found) ↦
        let moved =
          find-update_where (λ k. str_eq k.token_hash hash) (λ k. k.family_id == id)
            (λ k. record k { revoked_at = some r.sql_now }) (λ k. refl) t.tokens in
        (record k { revoked_at = some r.sql_now }, ground (arith, moved), refl)
  ]

  refused_lem :
      (application : OAuthApplicationRow) (raw_token : String) (scope : Option String)
      (resource : String) (w : World) (k : RefreshTokenRow)
      → find (λ k. str_eq k.token_hash (hash_token r raw_token)) w.committed.tokens ≡ some k
      → is_some k.revoked_at ≡ true
      → let (o, w') = refresh_token_grant r application raw_token scope resource w in
        (o ≡ fail invalid_token) × (w'.committed ≡ w.committed)
  unfolding refresh_token_grant refresh_work find_current transaction ◌>>=◌
  refused_lem application raw_token scope resource w k found revoked =
      elim (Option-cases
        (find (λ (f : RefreshFamilyRow). f.id == k.family_id) w.committed.families)) [
          | inl missing ↦ ground arith
          | inr (f, met) ↦ ground arith
        ]

  family_of-tokens :
      (hash : String) (s t : Tables) → s.tokens ≡ t.tokens → family_of hash s ≡ family_of hash t
  unfolding family_of
  family_of-tokens hash s t h =
      ap (λ (ks : List RefreshTokenRow). family_of hash (record s { tokens = ks })) h

  -- What is committed after a revocation of a stored refresh token.
  revokes :
      (request : Request) (w : World) (id : Uuid)
      → family_of (hash_token r (param "token" request)) w.committed ≡ some id
      → (revoke r request w).0 ≡ ok tt
      → (t : Tables) × (t.tokens ≡ w.committed.tokens)
        × ((revoke r request w).1.committed ≡ revoke_family r id t)
  unfolding revoke revoke_by transaction
  revokes request w id stored h =
      let hash = hash_token r (param "token" request) in
      let (a, known, rest, end) = >>=-ok (authenticate_client r request) _ w tt h in
      let w1 = (authenticate_client r request w).1 in
      let same = ((authenticate_client-Steady request).stays w).committed in
      let family : family_of hash w1.committed ≡ some id =
        family_of-tokens hash w1.committed w.committed same ∙ stored in
      (
        w1.committed,
        same,
        ap (λ (v : World). v.committed) (end ∙ ap (λ p. p.1) (read_step _ w1 tt (family_of hash)))
            ∙ ap (λ o. (revoke_by r o a (param "token" request) w1).1.committed) family,
      )

module _ (r : Runtime) where
  -- Once a client has revoked a stored refresh token, a refresh by any token of the same family is
  -- refused, for every client and whatever else it asks, whenever it comes; it changes no table.
  -- The later request hashes the token as it was stored.
  pub revoke-refresh :
      (later : Runtime) (application : OAuthApplicationRow) (request : Request) (w : World)
      (id : Uuid) (raw_token : String) (scope : Option String) (resource : String)
      → family_of (hash_token r (param "token" request)) w.committed ≡ some id
      → family_of (hash_token later raw_token) w.committed ≡ some id
      → (revoke r request w).0 ≡ ok tt
      → let w' = (revoke r request w).1 in
        let (o, w'') = refresh_token_grant later application raw_token scope resource w' in
        (o ≡ fail invalid_token) × (w''.committed ≡ w'.committed)
  revoke-refresh later application request w id raw_token scope resource stored sibling h =
      let hash = hash_token later raw_token in
      let (t, same, closed) = revokes r request w id stored h in
      let (k, found, revoked) =
        found_revoked r hash t id (family_of-tokens r hash t w.committed same ∙ sibling) in
      let there : find (λ k. str_eq k.token_hash hash) (revoke r request w).1.committed.tokens
          ≡ some k =
        ap (λ (s : Tables). find (λ (k : RefreshTokenRow). str_eq k.token_hash hash) s.tokens)
          closed
        ∙ found in
      refused_lem later application raw_token scope resource (revoke r request w).1 k there revoked

-- ===== src/Issue/Laws.antt =====
-- What issuing a token set reports and stores.
use authometry.Common.{ℕ, ◌≡◌, refl, String, false, Option, none, some, List, []}
use authometry.Common.Text.{join}
use authometry.Json.{Claims}
use authometry.Database.{
  Uuid, OAuthApplicationRow, Runtime, Any, Quiet, pure-Quiet, panic-Quiet, pool_read-Quiet,
  if-Quiet, draw-Quiet, >>=-Quiet, Tables, RefreshFamilyRow, RefreshTokenRow, Steady, if-Steady,
  >>=-Steady, Quiet-Steady, pool_write-Steady, pure-Steady,
}
use authometry.Claims.{ClaimUser, ClaimDestination, mapped_claims}
use authometry.Signing.{or_panic, random_token, random_id, sign_oauth_jwt}
use authometry.Issue.{
  IssueInput, AdminIdentity, TokenSet, access_claims, signed_user_token, user_id_token,
  signed_admin_token, admin_id_token, new_refresh_token, issue_token_set, lifetime,
  stored_refresh_token, insert_family,
}

module _ (r : Runtime) where
  or_panic-Quiet : {A : Type 0} (o : Option A) (e : String) → Quiet Any (or_panic r o e)
  or_panic-Quiet none e = panic-Quiet Any e
  or_panic-Quiet (some a) e = pure-Quiet Any a tt

  pub random_token-Quiet : (n : ℕ) → Quiet Any (random_token r n)
  unfolding random_token
  random_token-Quiet n = >>=-Quiet Any Any _ _ draw-Quiet (λ k _. pure-Quiet Any _ tt)

  random_id-Quiet : (p : String) (n : ℕ) → Quiet Any (random_id r p n)
  unfolding random_id
  random_id-Quiet p n = >>=-Quiet Any Any _ _ draw-Quiet (λ k _. pure-Quiet Any _ tt)

  pub sign_oauth_jwt-Quiet :
      (e : Uuid) (i a s : String) (cs : Claims) (l : ℕ) → Quiet Any (sign_oauth_jwt r e i a s cs l)
  unfolding sign_oauth_jwt random_id
  sign_oauth_jwt-Quiet e i a s cs l =
      >>=-Quiet Any Any _ _ (pool_read-Quiet Any _ (λ t. tt)) λ found _.
        >>=-Quiet Any Any _ _ (or_panic-Quiet found _)
          λ row _. >>=-Quiet Any Any _ _ (random_id-Quiet "jti" 12) λ jti _. or_panic-Quiet _ _

  pub mapped_claims-Quiet :
      (e : Uuid) (u : ClaimUser) (d : ClaimDestination) → Quiet Any (mapped_claims r e u d)
  unfolding mapped_claims
  mapped_claims-Quiet e u d = pool_read-Quiet Any _ (λ t. tt)

  module _ (application : OAuthApplicationRow) (input : IssueInput) where
    access_claims-Quiet : (u : Option ClaimUser) → Quiet Any (access_claims r application input u)
    access_claims-Quiet none = pure-Quiet Any [] tt
    access_claims-Quiet (some u) = mapped_claims-Quiet _ u _

    user_id_token-Quiet : (u : Option ClaimUser) → Quiet Any (user_id_token r application input u)
    unfolding user_id_token signed_user_token
    user_id_token-Quiet none = pure-Quiet Any none tt
    user_id_token-Quiet (some u) =
        if-Quiet Any _ _ _
          (>>=-Quiet Any Any _ _ (mapped_claims-Quiet _ u _) λ cs _.
            >>=-Quiet Any Any _ _ (sign_oauth_jwt-Quiet _ _ _ _ _ _) λ t _. pure-Quiet Any _ tt)
          (pure-Quiet Any none tt)

    admin_id_token-Quiet :
        (i : Option AdminIdentity) (already : Option String)
        → Quiet Any (admin_id_token r application input i already)
    unfolding admin_id_token signed_admin_token
    admin_id_token-Quiet none already = pure-Quiet Any already tt
    admin_id_token-Quiet (some i) already =
        if-Quiet Any _ _ _
          (>>=-Quiet Any Any _ _ (sign_oauth_jwt-Quiet _ _ _ _ _ _) λ t _. pure-Quiet Any _ tt)
          (pure-Quiet Any already tt)

    -- What the response says of an input without a refresh token.
    pub record Reports (t : TokenSet) : Type 0 where
      pub scope : t.scope ≡ join input.scopes
      pub expires_in : t.expires_in ≡ lifetime r application input
      pub token_type : t.token_type ≡ input.token_type
      pub refresh_token : t.refresh_token ≡ none

    new_refresh_token-Quiet :
        input.include_refresh_token ≡ false
        → Quiet (λ o. o ≡ none) (new_refresh_token r application input)
    unfolding new_refresh_token
    new_refresh_token-Quiet h = rw h (pure-Quiet (λ o. o ≡ none) none refl)

    pub issue_token_set-Quiet :
        input.include_refresh_token ≡ false → Quiet Reports (issue_token_set r application input)
    unfolding issue_token_set
    issue_token_set-Quiet h = >>=-Quiet Any Reports _ _ (access_claims-Quiet input.user) λ cs _.
        >>=-Quiet Any Reports _ _ (sign_oauth_jwt-Quiet _ _ _ _ _ _) λ access _.
          >>=-Quiet Any Reports _ _ (user_id_token-Quiet input.user) λ user_token _.
            >>=-Quiet Any Reports _ _ (admin_id_token-Quiet input.admin_identity user_token)
              λ id_token _.
                >>=-Quiet (λ o. o ≡ none) Reports _ _ (new_refresh_token-Quiet h)
                  λ refresh e. pure-Quiet Reports _ (record {
                    scope = refl;
                    expires_in = refl;
                    token_type = refl;
                    refresh_token = e;
                  })

    -- A view of the tables that the insertion of a refresh token leaves alone.
    abbrev pub IgnoresTokens : {X : Type 0} → (Tables → X) → Type 0
    IgnoresTokens view =
        (t : Tables) (fs : List RefreshFamilyRow) (ks : List RefreshTokenRow)
        → view (record t { families = fs; tokens = ks }) ≡ view t

    module _ {X : Type 0} (view : Tables → X) (ignores : IgnoresTokens view) where
      new_refresh_token-Steady : Steady view Any (new_refresh_token r application input)
      unfolding new_refresh_token stored_refresh_token insert_family
      new_refresh_token-Steady =
          if-Steady view Any _ _ _
            (>>=-Steady view Any Any _ _ (Quiet-Steady view Any (random_token-Quiet 48))
              λ refresh _. >>=-Steady view Any Any _ _ (Quiet-Steady view Any draw-Quiet) λ i _.
                >>=-Steady view Any Any _ _ (Quiet-Steady view Any draw-Quiet) λ j _.
                  >>=-Steady view Any Any _ _ (pool_write-Steady view _ (λ t. ignores t _ _))
                    λ u _. pure-Steady view Any _ tt)
            (pure-Steady view Any _ tt)

      -- Issuing tokens writes to no table but the refresh tokens and their families.
      pub issue_token_set-Steady : Steady view Any (issue_token_set r application input)
      unfolding issue_token_set
      issue_token_set-Steady =
          >>=-Steady view Any Any _ _ (Quiet-Steady view Any (access_claims-Quiet input.user))
            λ cs _.
              >>=-Steady view Any Any _ _ (Quiet-Steady view Any (sign_oauth_jwt-Quiet _ _ _ _ _ _))
                λ access _.
                  >>=-Steady view Any Any _ _
                    (Quiet-Steady view Any (user_id_token-Quiet input.user))
                    λ user_token _.
                      >>=-Steady view Any Any _ _
                        (Quiet-Steady view Any
                          (admin_id_token-Quiet input.admin_identity user_token))
                        λ id_token _.
                          >>=-Steady view Any Any _ _ new_refresh_token-Steady
                            λ refresh e. pure-Steady view Any _ tt

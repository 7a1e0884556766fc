-- ===== src/Grant/Code/Redemption.antt =====
-- Authorization codes over several requests: what a success has checked, a second use, and errors.
use mathlib.Core.Path.{subst}
use authometry.Common.{
  Bool, Option, truthy, Bool-cases, ◌≡◌, refl, sym, ap, ◌∙◌, String, true, false, none, some, arith,
  ◌==◌, ltb, str_eq, eq_iff, is_some, get_or, find, find-update_where, Option-cases, inl, inr, ◌⊎◌,
}
use authometry.Database.{
  OAuthApplicationRow, AuthorizationCodeRow, Tables, Runtime, World, ApiError, ok, fail, crash,
  ◌>>=◌, transaction,
}
use authometry.Signing.{hash_token, sha256_base64url}
use authometry.Issue.{TokenSet, verify_pkce}
use authometry.Grant.{resource_refused, resource_indicators_match}
use authometry.Grant.Code.{
  CodeRequest, code_used, find_code, pkce_refused, check_code, consume_code, issue_for, code_work,
  authorization_code_grant,
}
use authometry.Grant.Code.Laws.{issue_for-Steady}

-- The search looks at the table of codes alone.
find_code-codes :
    (hash : String) (s t : Tables) → s.codes ≡ t.codes → find_code hash s ≡ find_code hash t
unfolding find_code
find_code-codes hash s t h = ap (find (λ c. str_eq c.code_hash hash)) h

module _ (r : Runtime) (application : OAuthApplicationRow) where
  abbrev consumed : AuthorizationCodeRow → AuthorizationCodeRow
  consumed c = record c { consumed_at = some r.sql_now }

  find_code-consume_code :
      (hash : String) (t : Tables) (c : AuthorizationCodeRow)
      → find_code hash t ≡ some c
      → find_code hash (consume_code r application c.id t) ≡ some (consumed c)
  unfolding find_code consume_code
  find_code-consume_code hash t c h =
      let moved =
        find-update_where (λ x. str_eq x.code_hash hash) (λ x. x.id == c.id) consumed (λ x. refl)
          t.codes in
      ground (arith, moved)

  proven_lem :
      (c : AuthorizationCodeRow) (verifier : String)
      → application.require_pkce ≡ true
      → pkce_refused r application c verifier ≡ false
      → (c.code_challenge ≡ some (sha256_base64url r verifier))
        × (c.code_challenge_method ≡ some "S256")
  unfolding pkce_refused verify_pkce
  proven_lem c verifier required h = elim (Option-cases c.code_challenge) [
    | inl missing ↦ absurd (ground arith)
    | inr (challenge, has) ↦ elim (Option-cases c.code_challenge_method) [
      | inl plain ↦
          let method : str_eq (get_or c.code_challenge_method "") "S256" ≡ true = ground arith in
          let none_is : str_eq "" "S256" ≡ true =
            subst (λ m. str_eq (get_or m "") "S256" ≡ true) plain method in
          absurd (cc)
      | inr (method, named) ↦
          ground (arith, eq_iff method "S256", eq_iff (sha256_base64url r verifier) challenge)
    ]
  ]

  shows_lem :
      (c : AuthorizationCodeRow) (verifier : String)
      → pkce_refused r application c verifier ≡ false
      → (application.require_pkce ≡ false)
        ⊎ ((c.code_challenge ≡ some (sha256_base64url r verifier))
            × (c.code_challenge_method ≡ some "S256"))
  shows_lem c verifier h = elim (Bool-cases application.require_pkce) [
    | inl required ↦ inr (proven_lem c verifier required h)
    | inr free ↦ inl free
  ]

  names_lem :
      (required : Bool) (requested : String) (bound : Option String)
      → resource_refused r required requested bound ≡ false
      → ((required ≡ false) × (truthy requested ≡ false))
        ⊎ ((b : String) × (bound ≡ some b) × (resource_indicators_match r requested b ≡ true))
  unfolding resource_refused
  names_lem required requested none h = inl (ground arith, ground arith)
  names_lem required requested (some b) h = elim (Bool-cases (truthy requested)) [
    | inl asked ↦ inr (b, refl, ground arith)
    | inr silent ↦ inl (ground arith, silent)
  ]

  -- What a request that got tokens has met, and the code it leaves.
  pub record Redeems (request : CodeRequest) (before after : Tables) : Type 0 where
    pub code : AuthorizationCodeRow
    pub found : find_code (hash_token r request.code) before ≡ some code
    pub same_client : code.application_id ≡ application.id
    pub unused : code.consumed_at ≡ none
    pub in_time : ltb code.expires_at r.date_now ≡ false
    pub same_redirect : code.redirect_uri ≡ request.redirect_uri
    pub proven : pkce_refused r application code request.code_verifier ≡ false
    pub bound :
        resource_refused r (is_some code.admin_user_id) request.resource code.resource ≡ false
    pub shows :
        (application.require_pkce ≡ false)
        ⊎ ((code.code_challenge ≡ some (sha256_base64url r request.code_verifier))
            × (code.code_challenge_method ≡ some "S256"))
    pub names :
        ((is_some code.admin_user_id ≡ false) × (truthy request.resource ≡ false))
        ⊎ ((b : String) × (code.resource ≡ some b)
            × (resource_indicators_match r request.resource b ≡ true))
    pub stored : find_code (hash_token r request.code) after ≡ some (consumed code)

  -- A request that gets tokens met an unused code of the same client in time, with the redirect URI
  -- of the authorization request, and leaves it consumed. Unless the client may do without PKCE, the
  -- S256 challenge of the code is the verifier's hash. The request names the code's resource, or
  -- none if the code is a user's.
  pub code-Redeems :
      (request : CodeRequest) (w : World) (t : TokenSet)
      → (authorization_code_grant r application request w).0 ≡ ok t
      → Redeems request w.committed (authorization_code_grant r application request w).1.committed
  unfolding authorization_code_grant code_work check_code transaction ◌>>=◌
  code-Redeems request w t h =
      elim (Option-cases (find_code (hash_token r request.code) w.committed)) [
        | inl missing ↦ absurd (ground arith)
        | inr (c, found) ↦
            let used : World = record w { draft = consume_code r application c.id w.committed } in
            let stays = (issue_for-Steady r application c.admin_user_id c request).stays used in
            let same : (authorization_code_grant r application request w).1.committed
                ≡ (issue_for r application c.admin_user_id c request used).1.draft =
              ground arith in
            let once = find_code-consume_code (hash_token r request.code) w.committed c found in
            let proven : pkce_refused r application c request.code_verifier ≡ false =
              ground arith in
            let bound : resource_refused r (is_some c.admin_user_id) request.resource c.resource
                ≡ false =
              ground arith in
            record {
              code = c;
              found = found;
              same_client = ground arith;
              unused = ground arith;
              in_time = ground arith;
              same_redirect = ground (arith, eq_iff c.redirect_uri request.redirect_uri);
              proven = proven;
              bound = bound;
              shows = shows_lem c request.code_verifier proven;
              names = names_lem (is_some c.admin_user_id) request.resource c.resource bound;
              stored =
                  ap (find_code (hash_token r request.code)) same
                  ∙ find_code-codes (hash_token r request.code) _ _ stays.draft
                  ∙ once;
            }
      ]

  -- A request that throws, by a refusal or by a failure to sign, leaves every code as it was:
  -- the code can be used again.
  pub code_error-restores :
      (request : CodeRequest) (w : World)
      → ((e : ApiError) × ((authorization_code_grant r application request w).0 ≡ fail e))
        ⊎ ((e : String) × ((authorization_code_grant r application request w).0 ≡ crash e))
      → (authorization_code_grant r application request w).1.committed.codes ≡ w.committed.codes
  unfolding authorization_code_grant code_work check_code transaction ◌>>=◌
  code_error-restores request w h =
      elim (Option-cases (find_code (hash_token r request.code) w.committed)) [
        | inl missing ↦ ground arith
        | inr (c, found) ↦
            let used : World = record w { draft = consume_code r application c.id w.committed } in
            let stays = (issue_for-Steady r application c.admin_user_id c request).stays used in
            ground (arith, stays.committed)
      ]

  reads_used :
      (request : CodeRequest) (w : World) (c : AuthorizationCodeRow)
      → find_code (hash_token r request.code) w.committed ≡ some c
      → c.application_id ≡ application.id
      → is_some c.consumed_at ≡ true
      → let (o, w') = authorization_code_grant r application request w in
        (o ≡ fail code_used) × (w'.committed ≡ w.committed)
  unfolding authorization_code_grant code_work check_code transaction ◌>>=◌
  reads_used request w c found own used = ground arith

module _ (r : Runtime) (application : OAuthApplicationRow) where
  -- After a request that got tokens for a code, the next request of that client with the same code
  -- is refused as a second use, whatever else it says and whenever, and changes no table. Both
  -- requests hash the code alike.
  pub code-code :
      (later : Runtime) (request again : CodeRequest) (w : World) (t : TokenSet)
      → hash_token later again.code ≡ hash_token r request.code
      → (authorization_code_grant r application request w).0 ≡ ok t
      → let w' = (authorization_code_grant r application request w).1 in
        let (o, w'') = authorization_code_grant later application again w' in
        (o ≡ fail code_used) × (w''.committed ≡ w'.committed)
  code-code later request again w t same h =
      let first = code-Redeems r application request w t h in
      let w' = (authorization_code_grant r application request w).1 in
      let met : find_code (hash_token later again.code) w'.committed
          ≡ some (consumed r application first.code) =
        subst (λ hash. find_code hash w'.committed ≡ some (consumed r application first.code))
          (sym same) first.stored in
      reads_used later application again w' (consumed r application first.code) met
        first.same_client refl

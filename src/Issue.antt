-- ===== src/Issue.antt =====
-- apps/server/src/lib/oauth.ts: PKCE and the issuing of a token set.
pub mod Laws
pub mod Payload
use authometry.Common.{
  pos, ℕ, ◌+◌, ◌*◌, ◌/◌, String, Bool, true, false, Option, none, some, List, [], ◌∷◌, ◌++◌, ◌&&◌,
  if◌then◌else◌, str_eq, truthy, is_some, get_or, includes,
}
use authometry.Common.Text.{join}
use authometry.Json.{Json, str, num, bool, arr, items, Claims, set_claim, spread}
use authometry.Database.{
  Uuid, OAuthApplicationRow, RefreshFamilyRow, RefreshTokenRow, FamilyStatus, Tables, Runtime,
  World, M, ◌>>=◌, ◌>>◌, pure, pool_read, pool_write, draw,
}
use authometry.Claims.{ClaimUser, access_token, id_token, mapped_claims}
use authometry.Signing.{random_token, hash_token, sha256_base64url, sign_oauth_jwt}

unfoldable pub verify_pkce : Runtime → String → String → String → Bool
unfolding sha256_base64url
verify_pkce r verifier challenge method =
    str_eq method "S256" && str_eq (sha256_base64url r verifier) challenge

pub record AdminIdentity : Type 0 where
  pub id_text : String
  pub email : String
  pub name : String
  pub email_verified : Bool
  pub auth_time : ℕ

-- `condition ? value : undefined`.
abbrev pub only_if {ℓ} : {A : Type ℓ} → Bool → A → Option A
only_if b a = if b then some a else none

-- `...(nonce ? { nonce } : {})`.
abbrev pub nonce_claims : Option String → Claims
nonce_claims none = []
nonce_claims (some n) = if truthy n then ("nonce", some (str n)) ∷ [] else []

unfoldable pub admin_id_token_claims : AdminIdentity → List String → Option String → Claims
admin_id_token_claims identity scopes nonce =
    ("token_use", some (str "id"))
    ∷ ("authometry_principal", some (str "admin"))
    ∷ ("email", only_if (includes scopes "email") (str identity.email))
    ∷ ("email_verified", only_if (includes scopes "email") (bool identity.email_verified))
    ∷ ("name", only_if (includes scopes "profile") (str identity.name))
    ∷ ("auth_time", some (num (pos (identity.auth_time / 1000))))
    ∷ nonce_claims nonce

pub data TokenType : Type 0 where
  bearer dpop : TokenType

-- The argument of `issueTokenSet`, less the application and its issuer.
pub record IssueInput : Type 0 where
  pub user : Option ClaimUser
  pub auth_time : ℕ  -- of the user
  pub scopes : List String
  pub nonce : Option String
  pub include_refresh_token : Bool
  pub audience : Option String
  pub access_token_lifetime_seconds : Option ℕ
  pub access_token_claims : Claims
  pub token_type : TokenType
  pub subject : Option String
  pub admin_user_id : Option Uuid
  pub admin_identity : Option AdminIdentity
  pub resource : Option String

-- The token response.
pub record TokenSet : Type 0 where
  pub access_token : String
  pub token_type : TokenType
  pub expires_in : ℕ
  pub scope : String
  pub id_token : Option String
  pub refresh_token : Option String
  pub issued_token_type : Option String

-- The claims that the granted scopes release to the access token.
abbrev pub released_claims : Option ClaimUser → List String → Claims
released_claims none scopes = []
released_claims (some user) scopes =
    (if includes scopes "email" then ("email", some (str user.email)) ∷ [] else [])
    ++ (if includes scopes "profile"
        then ("name", some (str user.name)) ∷ ("groups", some (arr (items user.groups))) ∷ []
        else [])

-- The fixed claims, the mapped ones over them, those of the scopes, and the caller's own.
unfoldable pub access_token_payload : OAuthApplicationRow → IssueInput → Claims → Claims
access_token_payload application input mapped =
    let base : Claims =
      ("scope", some (str (join input.scopes)))
      ∷ ("client_id", some (str application.client_id))
      ∷ ("token_use", some (str "access"))
      ∷ [] in
    spread (spread (spread base mapped) (released_claims input.user input.scopes))
      input.access_token_claims

unfoldable pub user_id_token_payload : ClaimUser → IssueInput → Claims → Claims
user_id_token_payload user input mapped =
    let base : Claims = ("token_use", some (str "id")) ∷ [] in
    spread (spread base mapped) (
      ("email", only_if (includes input.scopes "email") (str user.email))
      ∷ ("email_verified", only_if (includes input.scopes "email") (bool user.email_verified))
      ∷ ("name", only_if (includes input.scopes "profile") (str user.name))
      ∷ ("auth_time", some (num (pos (input.auth_time / 1000))))
      ∷ nonce_claims input.nonce)

abbrev pub user_id : Option ClaimUser → Option Uuid
user_id none = none
user_id (some user) = some user.id

abbrev pub user_subject : Option ClaimUser → String → String
user_subject none client_id = client_id
user_subject (some user) client_id = user.id_text

module _ (r : Runtime) (application : OAuthApplicationRow) (input : IssueInput) where
  -- `accessTokenLifetimeSeconds ?? application.access_token_lifetime_seconds`.
  abbrev pub lifetime : ℕ
  lifetime = get_or input.access_token_lifetime_seconds application.access_token_lifetime_seconds

  abbrev pub access_claims : Option ClaimUser → M Claims
  access_claims none = pure []
  access_claims (some user) = mapped_claims r application.environment_id user access_token

  unfoldable pub signed_user_token : ClaimUser → M (Option String)
  signed_user_token user = do
    claims ← mapped_claims r application.environment_id user id_token
    token ←
        sign_oauth_jwt r application.environment_id application.issuer application.client_id
          user.id_text (user_id_token_payload user input claims)
          application.access_token_lifetime_seconds
    pure (some token)

  -- `if (user && scopes.includes("openid"))`.
  unfoldable pub user_id_token : Option ClaimUser → M (Option String)
  user_id_token none = pure none
  user_id_token (some user) =
      if includes input.scopes "openid" then signed_user_token user else pure none

  unfoldable pub signed_admin_token : AdminIdentity → M (Option String)
  signed_admin_token identity = do
    token ←
        sign_oauth_jwt r application.environment_id application.issuer application.client_id
          identity.id_text (admin_id_token_claims identity input.scopes input.nonce)
          application.access_token_lifetime_seconds
    pure (some token)

  -- `if (adminIdentity && scopes.includes("openid"))`, else what there is already.
  unfoldable pub admin_id_token : Option AdminIdentity → Option String → M (Option String)
  admin_id_token none already = pure already
  admin_id_token (some identity) already =
      if includes input.scopes "openid" then signed_admin_token identity else pure already

  -- The two inserts of a new refresh token's own transaction.
  unfoldable pub insert_family : Uuid → Uuid → String → Tables → Tables
  insert_family family_id token_id hash t = record t {
    families =
        t.families
        ++ record {
          id = family_id;
          workspace_id = application.workspace_id;
          environment_id = application.environment_id;
          application_id = application.id;
          user_id = user_id input.user;
          admin_user_id = input.admin_user_id;
          resource = input.resource;
          scopes = input.scopes;
          status = FamilyStatus.active;
          revoked_reason = none;
          expires_at = r.sql_now + application.refresh_token_lifetime_seconds * 1000;
        }
          ∷ [];
    tokens =
        t.tokens
        ++ record {
          id = token_id;
          family_id = family_id;
          token_hash = hash;
          parent_id = none;
          expires_at = r.sql_now + application.refresh_token_lifetime_seconds * 1000;
          consumed_at = none;
          revoked_at = none;
        }
          ∷ [];
  }

  unfoldable pub stored_refresh_token : M (Option String)
  unfolding random_token
  stored_refresh_token = do
    refresh ← random_token r 48
    family_draw ← draw
    token_draw ← draw
    pool_write (
        insert_family (r.random_uuid family_draw) (r.random_uuid token_draw) (hash_token r refresh))
    pure (some refresh)

  -- `if (includeRefreshToken)`.
  unfoldable pub new_refresh_token : M (Option String)
  new_refresh_token = if input.include_refresh_token then stored_refresh_token else pure none

  unfoldable pub issue_token_set : M TokenSet
  issue_token_set = do
    claims ← access_claims input.user
    access ←
        sign_oauth_jwt r application.environment_id application.issuer
          (get_or input.audience application.client_id)
          (get_or input.subject (user_subject input.user application.client_id))
          (access_token_payload application input claims) lifetime
    user_token ← user_id_token input.user
    identity_token ← admin_id_token input.admin_identity user_token
    refresh ← new_refresh_token
    pure (record {
      access_token = access;
      token_type = input.token_type;
      expires_in = lifetime;
      scope = join input.scopes;
      id_token = identity_token;
      refresh_token = refresh;
      issued_token_type = none;
    })

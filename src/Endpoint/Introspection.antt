-- ===== src/Endpoint/Introspection.antt =====
-- `POST /oauth/introspect` of apps/server/src/oauth/tokens.ts.
pub mod Laws
pub mod Graded
use authometry.Common.{
  pos, ℕ, zero, suc, String, Bool, true, false, Option, none, some, List, [], ◌∷◌, ◌++◌, ◌&&◌, ◌||◌,
  not, ◌==◌, ◌/◌, ltb, if◌then◌else◌, str_eq, truthy, is_some, find, any, every, keep,
}
use authometry.Common.Text.{join}
use authometry.Json.{Json, null, bool, num, str, Claims, get_claim, truthy_claim}
use authometry.Database.{
  Uuid, is_active, OAuthApplicationRow, DelegationGrantRow, RefreshTokenRow, RefreshFamilyRow,
  Tables, Runtime, M, ◌>>=◌, ◌>>◌, pure, panic_if, pool_read, recover,
}
use authometry.Signing.{hash_token, or_panic, verify_oauth_jwt}
use authometry.Client.{Request, param, application_of, authenticate_client}
use authometry.Grant.Refresh.{is_live_family}
use authometry.Grant.Code.{is_live_grant}
use authometry.Grant.Exchange.{is_empty, audience_includes}
use authometry.Endpoint.Revocation.{jti_text}

-- `{ active: false }`, or an object with `active: true` and these fields.
pub data Introspection : Type 0 where
  inactive : Introspection
  active : Claims → Introspection

-- `WITH RECURSIVE lineage`: a grant, its parent, and so on.
unfoldable pub lineage_from : ℕ → Uuid → Tables → List DelegationGrantRow
lineage_from zero id t = []
lineage_from (suc fuel) id t = elim (find (λ g. g.id == id) t.grants) [
  | none ↦ []
  | some g ↦ g ∷ (elim g.parent_grant_id [ none ↦ [] | some parent ↦ lineage_from fuel parent t ])
]

-- A grant is as many steps below the first of its line as its depth says.
unfoldable pub lineage : DelegationGrantRow → Tables → List DelegationGrantRow
unfolding lineage_from
lineage g t = lineage_from (suc g.delegation_depth) g.id t

-- `if (value) { key: value }`.
abbrev pub given : String → Claims → Claims
given k verified =
    if truthy_claim (get_claim k verified) then (k, get_claim k verified) ∷ [] else []

module _ (r : Runtime) where
  abbrev pub agent_active : Uuid → Tables → Bool
  agent_active id t = any (λ a. a.id == id && is_active a.status) t.agents

  -- Neither inactive nor expired, and its agent active.
  unfoldable pub grant_holds : Tables → DelegationGrantRow → Bool
  grant_holds t g =
      is_live_grant g.status && agent_active g.actor_agent_id t && not (ltb g.expires_at r.date_now)

  -- The grant of that identifier is there, and it and all above it hold.
  unfoldable pub lineage_holds : String → Tables → Bool
  lineage_holds id t = elim (find (λ g. str_eq (r.uuid_text g.id) id) t.grants) [
    | none ↦ false
    | some g ↦ every (grant_holds t) (lineage g t)
  ]

  abbrev pub client_of : Option Json → Tables → Option OAuthApplicationRow
  client_of (some (str client_id)) t = application_of client_id t
  client_of none t = none
  client_of (some null) t = none
  client_of (some (bool b)) t = none
  client_of (some (num n)) t = none
  client_of (some (Json.arr xs)) t = none
  client_of (some (Json.obj fs)) t = none

  abbrev pub same_environment : Option OAuthApplicationRow → OAuthApplicationRow → Bool
  same_environment none application = false
  same_environment (some a) application = a.environment_id == application.environment_id

  -- The delegation of a token that has one; else its audience.
  abbrev pub bound_holds : OAuthApplicationRow → Claims → Option Json → Tables → Bool
  bound_holds application verified (some (str id)) t = lineage_holds id t
  bound_holds application verified none t =
      audience_includes (get_claim "aud" verified) application.client_id
  bound_holds application verified (some null) t =
      audience_includes (get_claim "aud" verified) application.client_id
  bound_holds application verified (some (bool b)) t =
      audience_includes (get_claim "aud" verified) application.client_id
  bound_holds application verified (some (num n)) t =
      audience_includes (get_claim "aud" verified) application.client_id
  bound_holds application verified (some (Json.arr xs)) t =
      audience_includes (get_claim "aud" verified) application.client_id
  bound_holds application verified (some (Json.obj fs)) t =
      audience_includes (get_claim "aud" verified) application.client_id

  unfoldable pub is_revoked : Claims → Tables → Bool
  is_revoked verified t =
      truthy_claim (get_claim "jti" verified)
      && any (λ x. str_eq x.jti (jti_text r verified)) t.revoked_tokens

  unfoldable pub access_fields : Claims → Claims → Claims
  access_fields payload verified =
      ("scope", get_claim "scope" verified)
        ∷ ("client_id", get_claim "client_id" verified)
        ∷ ("sub", get_claim "sub" verified)
        ∷ (
          "token_type",
          some (str (if truthy_claim (get_claim "cnf" verified) then "DPoP" else "Bearer")),
        )
        ∷ ("exp", get_claim "exp" verified)
        ∷ ("iat", get_claim "iat" verified)
        ∷ ("iss", get_claim "iss" verified)
        ∷ ("aud", get_claim "aud" payload)
        ∷ given "act" verified
      ++ given "authorization_details" verified
      ++ given "authometry_grant_id" verified
      ++ given "cnf" verified

  -- The body of the `try`.
  unfoldable pub introspect_access : OAuthApplicationRow → String → M Introspection
  introspect_access application token = do
    payload ← or_panic r (r.decode_jwt token) "Invalid JWT"
    verified ← verify_oauth_jwt r token (some application.issuer)
    token_client ← pool_read (client_of (get_claim "client_id" verified))
    panic_if (not (same_environment token_client application)) "wrong environment"
    revoked ← pool_read (is_revoked verified)
    panic_if revoked "revoked"
    bound ← pool_read (bound_holds application verified (get_claim "authometry_grant_id" verified))
    panic_if (not bound) "inactive grant or wrong audience"
    pure (active (access_fields payload verified))

  -- A token that was neither revoked nor consumed, with its family.
  unfoldable pub unused_refresh : String → Tables → Option (RefreshTokenRow × RefreshFamilyRow)
  unused_refresh hash t =
      elim (find
        (λ k. str_eq k.token_hash hash && not (is_some k.revoked_at) && not (is_some k.consumed_at))
        t.tokens) [
          | none ↦ none
          | some k ↦ elim (find (λ f. f.id == k.family_id) t.families) [
            | none ↦ none
            | some f ↦ some (k, f)
          ]
        ]

  abbrev pub subject_of : Option Uuid → Json
  subject_of none = null
  subject_of (some id) = str (r.uuid_text id)

  unfoldable pub refresh_introspection :
      OAuthApplicationRow → Option (RefreshTokenRow × RefreshFamilyRow) → Introspection
  refresh_introspection application none = inactive
  refresh_introspection application (some (k, f)) =
      if f.application_id == application.id
        && is_live_family f.status
        && ltb r.date_now k.expires_at
      then active (
          ("scope", some (str (join f.scopes)))
          ∷ ("client_id", some (str application.client_id))
          ∷ ("sub", some (subject_of f.user_id))
          ∷ ("token_type", some (str "refresh_token"))
          ∷ ("exp", some (num (pos (k.expires_at / 1000))))
          ∷ [])
      else inactive

  unfoldable pub introspect_refresh : OAuthApplicationRow → String → M Introspection
  introspect_refresh application token = do
    refresh ← pool_read (unused_refresh (hash_token r token))
    pure (refresh_introspection application refresh)

  unfoldable pub introspect : Request → M Introspection
  introspect request = do
    application ← authenticate_client r request
    recover (introspect_access application (param "token" request))
        (introspect_refresh application (param "token" request))

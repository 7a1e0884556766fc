-- ===== src/Endpoint/Revocation.antt =====
-- `POST /oauth/revoke` of apps/server/src/oauth/tokens.ts.
pub mod Laws
use authometry.Common.{
  ℕ, String, Bool, Option, none, some, List, [], ◌∷◌, ◌++◌, ◌*◌, ◌&&◌, ◌==◌, if◌then◌else◌, str_eq,
  find, any, update_where, get_or,
}
use authometry.Json.{Json, Claims, get_claim, truthy_claim, claim_is, number_claim}
use authometry.Database.{
  Uuid, OAuthApplicationRow, FamilyStatus, Tables, Runtime, M, ◌>>=◌, ◌>>◌, pure, transaction,
  client_write, pool_read, pool_write, recover,
}
use authometry.Signing.{hash_token, verify_oauth_jwt}
use authometry.Client.{Request, param, authenticate_client}

-- `SELECT family_id FROM refresh_tokens WHERE token_hash = $1`.
unfoldable pub family_of : String → Tables → Option Uuid
family_of hash t = elim (find (λ k. str_eq k.token_hash hash) t.tokens) [
  | none ↦ none
  | some k ↦ some k.family_id
]

module _ (r : Runtime) where
  -- The two updates of the transaction.
  unfoldable pub revoke_family : Uuid → Tables → Tables
  revoke_family family_id t = record t {
    families =
        update_where (λ f. f.id == family_id)
          (λ f. record f {
            status = FamilyStatus.revoked;
            revoked_reason = some "client_revocation";
          })
          t.families;
    tokens =
        update_where (λ k. k.family_id == family_id) (λ k. record k { revoked_at = some r.sql_now })
          t.tokens;
  }

  abbrev pub jti_text : Claims → String
  jti_text payload = text (get_claim "jti" payload)
    where
      text : Option Json → String
      text none = ""
      text (some jti) = r.claim_text jti

  -- `INSERT INTO revoked_access_tokens … ON CONFLICT (jti) DO NOTHING`.
  unfoldable pub insert_revoked : OAuthApplicationRow → String → ℕ → Tables → Tables
  insert_revoked application jti exp t =
      if any (λ x. str_eq x.jti jti) t.revoked_tokens then t else record t {
        revoked_tokens =
            t.revoked_tokens
            ++ record { jti = jti; application_id = application.id; expires_at = exp * 1000 } ∷ [];
      }

  -- A token with an identifier and an expiry that was issued to this client.
  unfoldable pub revocable : OAuthApplicationRow → Claims → Bool
  revocable application payload =
      truthy_claim (get_claim "jti" payload)
      && truthy_claim (get_claim "exp" payload)
      && claim_is (get_claim "client_id" payload) application.client_id

  unfoldable pub revoke_access : OAuthApplicationRow → String → M (Unit {0})
  revoke_access application token = do
    payload ← verify_oauth_jwt r token (some application.issuer)
    pool_write (λ t.
        if revocable application payload
        then insert_revoked application (jti_text payload)
            (get_or (number_claim (get_claim "exp" payload)) 0) t
        else t)

  unfoldable pub revoke_by : Option Uuid → OAuthApplicationRow → String → M (Unit {0})
  revoke_by (some family_id) application token =
      transaction (client_write (revoke_family family_id))
  revoke_by none application token = recover (revoke_access application token) (pure tt)

  unfoldable pub revoke : Request → M (Unit {0})
  revoke request = do
    application ← authenticate_client r request
    family ← pool_read (family_of (hash_token r (param "token" request)))
    revoke_by family application (param "token" request)

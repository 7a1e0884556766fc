-- ===== src/Signing.antt =====
-- apps/server/src/lib/crypto.ts and signing.ts: token hashes, and access tokens by the stored keys.
pub mod Effects
use authometry.Common.{ℕ, String, Option, none, some, ◌&&◌, ◌==◌, str_eq, find}
use authometry.Common.Text.{◌+s◌}
use authometry.Json.{Claims}
use authometry.Database.{Uuid, SignRequest, Runtime, M, ◌>>=◌, pure, panic, pool_read, draw}

module _ (r : Runtime) where
  unfoldable pub random_token : ℕ → M String
  random_token bytes = do n ← draw; pure (r.random_bytes n bytes)

  unfoldable pub random_id : String → ℕ → M String
  random_id prefix bytes = do n ← draw; pure (prefix +s "_" +s r.random_bytes n bytes)

  unfoldable pub hash_token : String → String
  hash_token value = r.hmac_sha256 r.token_hmac_key value

  unfoldable pub sha256_base64url : String → String
  sha256_base64url value = r.sha256 value

  -- `importJWK`, `decrypt` and `sign` throw no `ApiError`.
  abbrev pub or_panic : {A : Type 0} → Option A → String → M A
  or_panic none e = panic e
  or_panic (some a) e = pure a

  unfoldable pub sign_oauth_jwt : Uuid → String → String → String → Claims → ℕ → M String
  unfolding random_id
  sign_oauth_jwt environment_id issuer audience subject claims lifetime = do
    found ←
        pool_read (λ t. find (λ k. k.environment_id == environment_id && k.signs) t.signing_keys)
    row ← or_panic found "No active signing key is configured."
    jti ← random_id "jti" 12
    let request : SignRequest = record {
      issuer = issuer;
      audience = audience;
      subject = subject;
      claims = claims;
      jti = jti;
      lifetime_seconds = lifetime;
    }
    or_panic (r.sign row request) "The token could not be signed."

  -- With an issuer, or with none to expect; no caller here expects an audience.
  unfoldable pub verify_oauth_jwt : String → Option String → M Claims
  verify_oauth_jwt token issuer = do
    header ← or_panic (r.decode_kid token) "Invalid Token or Protected Header formatting"
    kid ← or_panic header "The token does not identify a signing key."
    found ← pool_read (λ t. find (λ k. str_eq k.kid kid && k.verifies) t.signing_keys)
    row ← or_panic found "The signing key is not available."
    or_panic (r.verify row token issuer) "signature verification failed"

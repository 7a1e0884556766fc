-- ===== src/Database/Externals.antt =====
-- What the server takes from Node, jose and the environment: parameters of the model.
use authometry.Common.{ℕ, String, Bool, Option, List}
use authometry.Json.{Json, Claims}
use authometry.Database.Rows.{Uuid, SigningKeyRow, AgentAuthorizationDetails}

-- The arguments of jose's `SignJWT` chain in lib/signing.ts.
pub record SignRequest : Type 0 where
  pub issuer : String
  pub audience : String
  pub subject : String
  pub claims : Claims
  pub jti : String
  pub lifetime_seconds : ℕ

-- The properties of a parsed `URL` that the source reads.
pub record Url : Type 0 where
  pub href : String
  pub origin : String
  pub pathname : String

-- The header of a DPoP proof, as jose decodes it.
pub record DpopHeader : Type 0 where
  pub typ_lower : Option String
  pub alg : String
  pub jwk_kty : Option String  -- `none`: no `jwk` in the header
  pub has_private_member : Bool
  pub thumbprint : String

pub record Runtime : Type 0 where
  -- env.ts
  pub token_hmac_key : String
  -- node:crypto, the results in base64url
  pub hmac_sha256 : String → String → String
  pub sha256 : String → String
  -- the `n`-th draw of that many random bytes, and of a uuid by PostgreSQL
  pub random_bytes : ℕ → ℕ → String
  pub random_uuid : ℕ → Uuid
  -- a uuid as PostgreSQL and the JSON of a response print it
  pub uuid_text : Uuid → String
  -- `new Date()` in Node and `now()` in PostgreSQL, in one request
  pub date_now : ℕ
  pub sql_now : ℕ
  -- `new URL(s)`; `none` where the constructor throws
  pub parse_url : String → Option Url
  -- `new URL(s, base)`
  pub resolve_url : String → String → Option Url
  -- `Buffer.from(s, "base64").toString("utf8")`, and `decodeURIComponent`, `none` where it throws
  pub base64_text : String → String
  pub decode_uri : String → Option String
  pub encode_uri : String → String
  -- `toString()` after `pathname` was assigned and `search` and `hash` were cleared
  pub url_with_path : Url → String → String
  -- the order of the database's collation
  pub collate_le : String → String → Bool
  -- decryption of the private key and signing; `none` where they throw
  pub sign : SigningKeyRow → SignRequest → Option String
  -- the text that a claim which is no string becomes as a query parameter
  pub claim_text : Json → String
  -- the JSON of a list of authorization details
  pub details_json : List AgentAuthorizationDetails → Json
  -- jose's `decodeJwt`, and the `kid` of `decodeProtectedHeader`; `none` where they throw
  pub decode_jwt : String → Option Claims
  pub decode_kid : String → Option (Option String)
  -- jose's `jwtVerify` with a stored key and an expected issuer
  pub verify : SigningKeyRow → String → Option String → Option Claims
  -- `jwtVerify` of an agent's assertion by its key, with issuer and subject the agent, an audience
  -- and the maximum age of five minutes
  pub verify_assertion : String → String → String → String → Option Claims
  -- `decodeProtectedHeader` of a DPoP proof, and `jwtVerify` by the key in it
  pub dpop_header : String → Option DpopHeader
  pub dpop_verify : String → Option Claims
  -- `JSON.parse`; `none` where it throws
  pub parse_json : String → Option Json
  -- `decrypt` of lib/crypto.ts, AES-256-GCM under the installation's key; `none` where it throws
  pub decrypt : String → Option String
  -- bcrypt's `compare`
  pub password_matches : String → String → Bool
  -- HMAC-SHA-1 of a key and a message, as bytes
  pub hmac_sha1 : List ℕ → List ℕ → List ℕ
  -- `CSRF_SECRET` of env.ts
  pub csrf_secret : String
  -- `jwtVerify` by the key of the admins' access tokens and by that of their refresh envelopes, each
  -- with the server's origin as issuer and its own audience
  pub verify_admin_access : String → Option Claims
  pub verify_admin_refresh : String → Option Claims
  -- the uuid that a text writes; any other text gives one that no row has
  pub uuid_of : String → Uuid

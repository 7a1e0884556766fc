-- ===== src/Agents.antt =====
-- apps/server/src/oauth/agents.ts: registered agents, their assertions, DPoP proofs, and the
-- authority that a delegation carries.
pub mod Laws
pub mod Effects
use authometry.Common.{
  ℤ, int_min, ℕ, ◌+◌, ◌*◌, String, Bool, true, false, Option, none, some, List, [], ◌∷◌, ◌++◌, ◌&&◌,
  ◌||◌, not, ◌==◌, ltb, if◌then◌else◌, str_eq, truthy, is_some, min, find, any, keep, map, includes,
  length,
}
use authometry.Common.Text.{◌+s◌, ends_with, starts}
use authometry.Json.{
  Json, num, Fields, Claims, get_field, get_claim, truthy_claim, claim_is, number_claim,
  integer_claim,
}
use authometry.Database.{
  Uuid, is_active, AgentIdentityRow, AgentAuthorizationDetails, Tables, Url, DpopHeader, Runtime,
  ApiError, api_error, M, ◌>>=◌, ◌>>◌, pure, or_throw, throw_if, pool_read, pool_write,
}

-- `agent_identities g JOIN oauth_applications a ON a.id = g.application_id WHERE a.client_id = $1`.
unfoldable pub agent_for_client : String → Tables → Option AgentIdentityRow
agent_for_client client_id t =
    find (λ g. any (λ a. a.id == g.application_id && str_eq a.client_id client_id) t.applications)
      t.agents

unfoldable pub find_agent_for_client : String → M (Option AgentIdentityRow)
find_agent_for_client client_id = pool_read (agent_for_client client_id)

unfoldable pub find_agent_by_id : Uuid → String → M (Option AgentIdentityRow)
find_agent_by_id environment_id agent_id =
    pool_read
      (λ t. find (λ g. g.environment_id == environment_id && str_eq g.agent_id agent_id) t.agents)

abbrev pub active_agent : Option AgentIdentityRow → Option AgentIdentityRow
active_agent none = none
active_agent (some g) = if is_active g.status then some g else none

abbrev pub agent_disabled : ApiError
agent_disabled = api_error 401 "invalid_client" "The agent is not registered or is disabled."

abbrev pub assertion_invalid : ApiError
assertion_invalid = api_error 401 "invalid_client" "The agent assertion is invalid."

abbrev pub dpop_missing : ApiError
dpop_missing = api_error 400 "invalid_dpop_proof" "A DPoP proof is required."

abbrev pub dpop_invalid : ApiError
dpop_invalid = api_error 400 "invalid_dpop_proof" "The DPoP proof is invalid."

-- The two instants, if both are there and not 0, and `exp` is at most five minutes after `iat`;
-- `jwtVerify` has refused a negative `exp` as expired, so a negative `iat` would be refused too.
abbrev pub short_lived : Option ℕ → Option ℕ → Option ℕ
short_lived none exp = none
short_lived (some iat) none = none
short_lived (some iat) (some exp) =
    if iat == 0 || exp == 0 || ltb (iat + 300) exp then none else some exp

module _ (r : Runtime) where
  -- The identifier and the expiry of an assertion whose signature and claims hold.
  unfoldable pub checked_assertion : AgentIdentityRow → String → String → Option (String × ℕ)
  checked_assertion agent assertion audience =
      elim (r.verify_assertion agent.public_jwk agent.agent_id assertion audience) [
        | none ↦ none
        | some payload ↦ elim (get_claim "jti" payload) [
          | none ↦ none
          | some jti ↦
              if truthy_claim (some jti)
              then elim (short_lived (number_claim (get_claim "iat" payload))
                  (number_claim (get_claim "exp" payload))) [
                    | none ↦ none
                    | some exp ↦ some (r.claim_text jti, exp)
                  ]
              else none
        ]
      ]

  -- `INSERT … ON CONFLICT DO NOTHING RETURNING jti`: a row that is there already is a replay.
  unfoldable pub verify_agent_assertion : String → String → String → M AgentIdentityRow
  verify_agent_assertion assertion client_id audience = do
    row ← find_agent_for_client client_id
    agent ← or_throw (active_agent row) agent_disabled
    checked ← or_throw (checked_assertion agent assertion audience) assertion_invalid
    used ←
        pool_read (λ t.
          any (λ j. j.agent_identity_id == agent.id && str_eq j.jti checked.0) t.assertion_jtis)
    throw_if used assertion_invalid
    pool_write (λ t. record t {
      assertion_jtis =
          t.assertion_jtis
          ++ record { agent_identity_id = agent.id; jti = checked.0; expires_at = checked.1 * 1000 }
            ∷ [];
    })
    pure agent

  abbrev pub dpop_header_valid : DpopHeader → Bool
  dpop_header_valid header =
      has header.typ_lower "dpop+jwt"
      && includes ("RS256" ∷ "ES256" ∷ []) header.alg
      && (has header.jwk_kty "RSA" || has header.jwk_kty "EC")
      && not header.has_private_member
    where
      has : Option String → String → Bool
      has none s = false
      has (some t) s = str_eq t s

  -- The claims of a proof, if it is bound to the method and the URL.
  unfoldable pub bound_to : String → String → Claims → Option String
  bound_to method url payload = elim (get_claim "jti" payload) [
    | none ↦ none
    | some jti ↦
        if claim_is (get_claim "htm" payload) method
          && claim_is (get_claim "htu" payload) url
          && truthy_claim (some jti)
          && is_some (integer_claim (get_claim "iat" payload))
        then some (r.claim_text jti)
        else none
  ]

  -- The thumbprint of the key and the identifier of a proof that holds.
  unfoldable pub checked_proof : String → String → String → Option (String × String)
  checked_proof proof method url = elim (r.dpop_header proof) [
    | none ↦ none
    | some header ↦
        if dpop_header_valid header
        then elim (r.dpop_verify proof) [
          | none ↦ none
          | some payload ↦ elim (bound_to method url payload) [
            | none ↦ none
            | some jti ↦ some (header.thumbprint, jti)
          ]
        ]
        else none
  ]

  abbrev pub present : Option String → Option String
  present none = none
  present (some s) = if truthy s then some s else none

  -- The thumbprint of the proof's key; the proof is used up.
  unfoldable pub verify_dpop_proof : Option String → String → String → M String
  verify_dpop_proof header method url = do
    proof ← or_throw (present header) dpop_missing
    checked ← or_throw (checked_proof proof method url) dpop_invalid
    used ← pool_read (λ t. any (λ j. str_eq j.jkt checked.0 && str_eq j.jti checked.1) t.dpop_jtis)
    throw_if used dpop_invalid
    pool_write (λ t. record t {
      dpop_jtis =
          t.dpop_jtis
          ++ record { jkt = checked.0; jti = checked.1; expires_at = r.sql_now + 300000 } ∷ [];
    })
    pure checked.0

  -- `none` where one of the two is no URL.
  unfoldable pub is_location_within_resource : String → String → Option Bool
  is_location_within_resource location resource = elim (r.parse_url location) [
    | none ↦ none
    | some target ↦ elim (r.parse_url resource) [
      | none ↦ none
      | some boundary ↦ some (
          str_eq target.origin boundary.origin
          && (str_eq target.pathname boundary.pathname
              || starts
                  (if ends_with boundary.pathname "/"
                    then boundary.pathname
                    else boundary.pathname +s "/")
                  target.pathname))
    ]
  ]

-- `detail.constraints?.maximum_events ?? detail.constraints?.maximum_usage`, if it is a number.
abbrev pub usage_limit : Option Fields → Option ℤ
usage_limit none = none
usage_limit (some fields) = elim (get_field "maximum_events" fields) [
  | none ↦ integer_claim (get_field "maximum_usage" fields)
  | some v ↦ either v (get_field "maximum_usage" fields)
]
  where
    either : Json → Option Json → Option ℤ
    either Json.null other = integer_claim other
    either (Json.bool b) other = none
    either (num n) other = some n
    either (Json.str s) other = none
    either (Json.arr xs) other = none
    either (Json.obj fs) other = none

-- `values.length ? Math.min(...values) : null`.
unfoldable pub maximum_usage : List AgentAuthorizationDetails → Option ℤ
maximum_usage [] = none
maximum_usage (d ∷ ds) = least (usage_limit d.constraints) (maximum_usage ds)
  where
    least : Option ℤ → Option ℤ → Option ℤ
    least none rest = rest
    least (some n) none = some n
    least (some n) (some m) = some (int_min n m)

unfoldable pub action_covered_by_scopes : String → List String → Bool
action_covered_by_scopes action scopes =
    any (λ scope. str_eq scope action || ends_with scope (":" +s action)) scopes

abbrev pub reduced_detail : List String → AgentAuthorizationDetails → AgentAuthorizationDetails
reduced_detail scopes detail = record detail {
  actions = keep (λ action. action_covered_by_scopes action scopes) detail.actions;
}

abbrev pub has_actions : AgentAuthorizationDetails → Bool
has_actions detail = ltb 0 (length detail.actions)

unfoldable pub reduce_authorization_details :
    List AgentAuthorizationDetails → List String → List AgentAuthorizationDetails
reduce_authorization_details details scopes = keep has_actions (map (reduced_detail scopes) details)

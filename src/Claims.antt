-- ===== src/Claims.antt =====
-- apps/server/src/lib/claims.ts: claims taken from a user by the environment's mappings.
pub mod Laws
use authometry.Common.{
  ℕ, String, Bool, Option, none, some, List, [], ◌∷◌, ◌&&◌, ◌==◌, if◌then◌else◌, str_eq, is_some,
  includes, keep,
}
use authometry.Common.Text.{split, strip_prefix}
use authometry.Json.{
  Json, null, bool, num, str, arr, obj, end, Fields, Claims, get_field, items, set_claim,
}
use authometry.Database.{Uuid, ClaimMappingRow, Tables, Runtime, M, pool_read}

pub record ClaimUser : Type 0 where
  pub id : Uuid
  pub id_text : String  -- the uuid as the string that the claims hold
  pub email : String
  pub name : String
  pub groups : List String
  pub email_verified : Bool
  pub custom_claims : Fields

pub data ClaimDestination : Type 0 where
  access_token id_token userinfo : ClaimDestination

abbrev pub destination_name : ClaimDestination → String
destination_name access_token = "access_token"
destination_name id_token = "id_token"
destination_name userinfo = "userinfo"

abbrev pub reserved_claims : List String
reserved_claims =
    "iss" ∷ "sub" ∷ "aud" ∷ "exp" ∷ "nbf" ∷ "iat" ∷ "jti" ∷ "nonce" ∷ "auth_time" ∷ "azp" ∷ "acr"
    ∷ "amr" ∷ "scope" ∷ "client_id" ∷ "token_use" ∷ []

-- `reservedClaims.has`.
unfoldable pub is_reserved : String → Bool
is_reserved claim = includes reserved_claims claim

-- What a property of an object can be, besides `undefined`: a value of JSON, `Object.prototype`, or
-- one of its methods.
pub data Value : Type 0 where
  given : Json → Value
  prototype method : Value

-- The methods that every object has.
abbrev pub methods : List String
methods =
    "constructor" ∷ "hasOwnProperty" ∷ "isPrototypeOf" ∷ "propertyIsEnumerable" ∷ "toLocaleString"
    ∷ "toString" ∷ "valueOf" ∷ "__defineGetter__" ∷ "__defineSetter__" ∷ "__lookupGetter__"
    ∷ "__lookupSetter__" ∷ []

-- A property of `Object.prototype`, where the prototype of the object is `above`.
unfoldable pub inherited : Value → String → Option Value
inherited above key =
    if str_eq key "__proto__"
    then some above
    else if includes methods key
    then some method
    else none

-- What JSON writes of a value: nothing of a method.
abbrev pub json_of : Option Value → Option Json
json_of none = none
json_of (some (given v)) = some v
json_of (some prototype) = some (obj end)
json_of (some method) = none

-- One step of the `reduce` over the path: only an object has properties.
abbrev pub descend : Option Value → String → Option Value
descend (some (given (obj fields))) key = elim (get_field key fields) [
  | none ↦ inherited prototype key
  | some v ↦ some (given v)
]
descend (some (given null)) key = none
descend (some (given (bool b))) key = none
descend (some (given (num n))) key = none
descend (some (given (str s))) key = none
descend (some (given (arr xs))) key = none
descend (some prototype) key = inherited (given null) key
descend (some method) key = none
descend none key = none

unfoldable pub walk : Option Value → List String → Option Value
walk value [] = value
walk value (key ∷ path) = walk (descend value key) path

unfoldable pub read_user_claim : ClaimUser → String → Option Value
unfolding walk strip_prefix split
read_user_claim user source_field =
    if str_eq source_field "user.id"
    then some (given (str user.id_text))
    else if str_eq source_field "user.email"
    then some (given (str user.email))
    else if str_eq source_field "user.name"
    then some (given (str user.name))
    else if str_eq source_field "user.groups"
    then some (given (arr (items user.groups)))
    else if str_eq source_field "user.email_verified"
    then some (given (bool user.email_verified))
    else elim (inherited prototype source_field) [
      | some value ↦ some value
      | none ↦ elim (strip_prefix "user.custom_claims." source_field) [
        | none ↦ none
        | some path ↦ walk (some (given (obj user.custom_claims))) (split b'.' path)
      ]
    ]

-- `ORDER BY name`: a row goes before the first that does not come before it.
unfoldable pub insert_by_name :
    (String → String → Bool) → ClaimMappingRow → List ClaimMappingRow → List ClaimMappingRow
insert_by_name le m [] = m ∷ []
insert_by_name le m (n ∷ ns) =
    let later = n ∷ insert_by_name le m ns in if le m.name n.name then m ∷ n ∷ ns else later

unfoldable pub order_by_name :
    (String → String → Bool) → List ClaimMappingRow → List ClaimMappingRow
order_by_name le [] = []
order_by_name le (m ∷ ms) = insert_by_name le m (order_by_name le ms)

-- The `flatMap` and `Object.fromEntries`, row after row.
unfoldable pub claims_of : ClaimUser → List ClaimMappingRow → Claims → Claims
claims_of user [] claims = claims
claims_of user (m ∷ ms) claims =
    let value = read_user_claim user m.source_field in
    claims_of user ms (
      if is_reserved m.target_claim
      then claims
      else if is_some value
      then set_claim m.target_claim (json_of value) claims
      else claims)

-- The query of `mappedClaims`, and the claims of the rows that it returns.
unfoldable pub mapped_claims : Runtime → Uuid → ClaimUser → ClaimDestination → M Claims
mapped_claims r environment_id user destination = pool_read (λ t.
    claims_of user
      (order_by_name r.collate_le (
        keep
          (λ m.
            m.environment_id == environment_id
            && includes m.include_in (destination_name destination))
          t.claim_mappings))
      [])

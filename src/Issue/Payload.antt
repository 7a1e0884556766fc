-- ===== src/Issue/Payload.antt =====
-- What an access token says, whatever claims are mapped into it.
use authometry.Common.{
  ◌≡◌, refl, sym, ap, ◌∙◌, String, Bool, true, false, Option, none, some, List, [], ◌∷◌, arith,
  if◌then◌else◌, str_eq, eq_iff, is_some, any,
}
use authometry.Common.Text.{join}
use authometry.Json.{Json, str, Claims, get_claim, set_claim, spread}
use authometry.Database.{
  OAuthApplicationRow, ClaimMappingRow, Runtime, World, Uuid, ok, ok-injective,
}
use authometry.Claims.{
  Value, json_of, ClaimUser, ClaimDestination, access_token, is_reserved, claims_of,
  read_user_claim, mapped_claims,
}
use authometry.Claims.Laws.{get_claim-set_claim}
use authometry.Issue.{IssueInput, released_claims, access_token_payload, access_claims}

-- A field is there, though it may be `undefined`.
abbrev pub has_key : String → Claims → Bool
has_key k cs = any (λ p. str_eq p.0 k) cs

has_key-set_claim :
    (k j : String) (v : Option Json) (cs : Claims)
    → str_eq j k ≡ false
    → has_key k (set_claim j v cs) ≡ has_key k cs
unfolding set_claim
has_key-set_claim k j v [] h = ground arith
has_key-set_claim k j v ((i, w) ∷ cs) h = ground (arith, eq_iff i j, has_key-set_claim k j v cs)

step-has_key :
    (k target : String) (value : Option Value) (cs : Claims)
    → is_reserved k ≡ true
    → has_key k (
        if is_reserved target
        then cs
        else if is_some value
        then set_claim target (json_of value) cs
        else cs)
      ≡ has_key k cs
step-has_key k target value cs h =
    ground (arith, has_key-set_claim k target (json_of value) cs, eq_iff target k)

has_key-claims_of :
    (user : ClaimUser) (k : String) (ms : List ClaimMappingRow) (cs : Claims)
    → is_reserved k ≡ true
    → has_key k (claims_of user ms cs) ≡ has_key k cs
unfolding claims_of
has_key-claims_of user k [] cs h = refl
has_key-claims_of user k (m ∷ ms) cs h =
    has_key-claims_of user k ms _ h
    ∙ step-has_key k m.target_claim (read_user_claim user m.source_field) cs h

get_claim-spread :
    (k : String) (cs others : Claims)
    → has_key k others ≡ false
    → get_claim k (spread cs others) ≡ get_claim k cs
unfolding spread
get_claim-spread k cs [] h = refl
get_claim-spread k cs ((j, v) ∷ others) h =
    ground (arith, get_claim-spread k (set_claim j v cs) others, get_claim-set_claim k j v cs)

released-has_key :
    (user : Option ClaimUser) (scopes : List String) (k : String)
    → str_eq "email" k ≡ false
    → str_eq "name" k ≡ false
    → str_eq "groups" k ≡ false
    → has_key k (released_claims user scopes) ≡ false
released-has_key none scopes k e n g = refl
released-has_key (some user) scopes k e n g = ground arith

module _ (application : OAuthApplicationRow) (input : IssueInput) where
  -- A claim set that sets none of the reserved claims.
  abbrev pub SparesReserved : Claims → Type 0
  SparesReserved cs = (k : String) → is_reserved k ≡ true → has_key k cs ≡ false

  mapped-SparesReserved :
      (r : Runtime) (environment_id : Uuid) (user : ClaimUser) (destination : ClaimDestination)
      (w : World) (cs : Claims)
      → (mapped_claims r environment_id user destination w).0 ≡ ok cs
      → SparesReserved cs
  unfolding mapped_claims
  mapped-SparesReserved r environment_id user destination w cs h k reserved =
      ap (has_key k) (sym (ok-injective _ cs h)) ∙ has_key-claims_of user k _ [] reserved

  access_claims-SparesReserved :
      (r : Runtime) (user : Option ClaimUser) (w : World) (cs : Claims)
      → (access_claims r application input user w).0 ≡ ok cs
      → SparesReserved cs
  access_claims-SparesReserved r none w cs h k reserved =
      ap (has_key k) (sym (ok-injective [] cs h))
  access_claims-SparesReserved r (some user) w cs h k reserved =
      mapped-SparesReserved r application.environment_id user access_token w cs h k reserved

  unspread :
      (k : String) (mapped : Claims)
      → has_key k mapped ≡ false
      → has_key k (released_claims input.user input.scopes) ≡ false
      → has_key k input.access_token_claims ≡ false
      → get_claim k (access_token_payload application input mapped)
        ≡ get_claim k (
            ("scope", some (str (join input.scopes)))
            ∷ ("client_id", some (str application.client_id))
            ∷ ("token_use", some (str "access"))
            ∷ [])
  unfolding access_token_payload
  unspread k mapped m s o =
      get_claim-spread k _ input.access_token_claims o
      ∙ get_claim-spread k _ (released_claims input.user input.scopes) s
      ∙ get_claim-spread k _ mapped m

  -- Whatever claims are mapped for the user, an access token says that it is one, of this client
  -- and these scopes, if the claims that the grant itself adds set no reserved one.
  pub access_token_payload-fixed :
      (r : Runtime) (w : World) (mapped : Claims)
      → (access_claims r application input input.user w).0 ≡ ok mapped
      → SparesReserved input.access_token_claims
      → let payload = access_token_payload application input mapped in
        (get_claim "token_use" payload ≡ some (str "access"))
        × (get_claim "client_id" payload ≡ some (str application.client_id))
        × (get_claim "scope" payload ≡ some (str (join input.scopes)))
  unfolding is_reserved get_claim
  access_token_payload-fixed r w mapped h spared =
      let spares = access_claims-SparesReserved r input.user w mapped h in
      let released = released-has_key input.user input.scopes in
      (
        unspread "token_use" mapped (spares "token_use" refl) (released "token_use" refl refl refl)
            (spared "token_use" refl),
        unspread "client_id" mapped (spares "client_id" refl) (released "client_id" refl refl refl)
            (spared "client_id" refl),
        unspread "scope" mapped (spares "scope" refl) (released "scope" refl refl refl)
            (spared "scope" refl),
      )

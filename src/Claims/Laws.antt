-- ===== src/Claims/Laws.antt =====
-- What the claims mapped for a user can and cannot set.
use authometry.Common.{
  String, ◌≡◌, refl, true, Option, none, List, [], ◌∷◌, arith, ◌∙◌, if◌then◌else◌, str_eq, eq_iff,
  is_some,
}
use authometry.Json.{Json, Claims, get_claim, set_claim}
use authometry.Database.{Uuid, ClaimMappingRow, Runtime, World, ok}
use authometry.Claims.{
  Value, json_of, ClaimUser, ClaimDestination, is_reserved, claims_of, read_user_claim,
  mapped_claims,
}

-- A field that was written is read back, and no other field changes.
pub get_claim-set_claim :
    (j k : String) (v : Option Json) (cs : Claims)
    → get_claim j (set_claim k v cs) ≡ (if str_eq k j then v else get_claim j cs)
unfolding get_claim set_claim
get_claim-set_claim j k v [] = refl
get_claim-set_claim j k v ((i, w) ∷ cs) =
    ground (arith, eq_iff k j, eq_iff i k, eq_iff i j, get_claim-set_claim j k v cs)

step-reserved :
    (k target : String) (value : Option Value) (cs : Claims)
    → is_reserved k ≡ true
    → get_claim k (
        if is_reserved target
        then cs
        else if is_some value
        then set_claim target (json_of value) cs
        else cs)
      ≡ get_claim k cs
step-reserved k target value cs h =
    ground (arith, get_claim-set_claim k target (json_of value) cs, eq_iff target k)

-- Mapped rows leave a reserved claim as it was.
pub get_claim-claims_of :
    (user : ClaimUser) (k : String) (ms : List ClaimMappingRow) (cs : Claims)
    → is_reserved k ≡ true
    → get_claim k (claims_of user ms cs) ≡ get_claim k cs
unfolding claims_of
get_claim-claims_of user k [] cs h = refl
get_claim-claims_of user k (m ∷ ms) cs h =
    get_claim-claims_of user k ms _ h
    ∙ step-reserved k m.target_claim (read_user_claim user m.source_field) cs h

-- Whatever mappings the environment has, no mapped claim set holds a reserved claim.
pub mapped_claims-reserved :
    (r : Runtime) (environment_id : Uuid) (user : ClaimUser) (destination : ClaimDestination)
    (w : World) (k : String)
    → is_reserved k ≡ true
    → (cs : Claims) × ((mapped_claims r environment_id user destination w).0 ≡ ok cs)
      × (get_claim k cs ≡ none)
unfolding mapped_claims get_claim
mapped_claims-reserved r environment_id user destination w k h =
    (_, refl, get_claim-claims_of user k _ [] h)

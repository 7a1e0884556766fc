-- ===== src/Tests/ClaimsTests.antt =====
-- Mapped claims and reduced authority at concrete values.
use mathlib.Core.Path.{subst}
use authometry.Common.Text.{join}
use authometry.Json.{str}
use authometry.Issue.{IssueInput, bearer, access_claims, access_token_payload}
use authometry.Issue.Payload.{SparesReserved, access_token_payload-fixed}
use authometry.Common.{
  some, false, true, arith, eq_iff, str_eq, sym, Bool-cases, inl, inr, ◌≡◌, refl, String, none,
  List, [], ◌∷◌, All,
}
use authometry.Json.{Claims, get_claim}
use authometry.Database.{AgentAuthorizationDetails, ok}
use authometry.Claims.{claims_of, order_by_name, id_token, is_reserved, mapped_claims}
use authometry.Claims.Laws.{mapped_claims-reserved}
use authometry.Agents.{reduce_authorization_details}
use authometry.Agents.Laws.{IsCovered, reduce_authorization_details-IsCovered}
use authometry.Grant.{claim_user}
use authometry.Tests.{client, user, world, now}

mapped_claims-reserved_example :
    (cs : Claims) × ((mapped_claims now 8 (claim_user now user) id_token world).0 ≡ ok cs)
    × (get_claim "sub" cs ≡ none)
unfolding is_reserved
mapped_claims-reserved_example =
    mapped_claims-reserved now 8 (claim_user now user) id_token world "sub" refl

abbrev detail : AgentAuthorizationDetails
detail = record {
  actions = "read" ∷ "delete" ∷ [];
  locations = [];
  resource = "https://api";
  constraints = none;
  purpose = none;
}

abbrev scopes : List String
scopes = "files:read" ∷ []

reduce_authorization_details-IsCovered_example :
    All (IsCovered scopes) (reduce_authorization_details (detail ∷ []) scopes)
reduce_authorization_details-IsCovered_example =
    reduce_authorization_details-IsCovered (detail ∷ []) scopes

abbrev sending : IssueInput
sending = record {
  user = some (claim_user now user);
  auth_time = 1000;
  scopes = "openid" ∷ "email" ∷ [];
  nonce = none;
  include_refresh_token = false;
  audience = none;
  access_token_lifetime_seconds = none;
  access_token_claims = ("agent_operator", some (str "operator")) ∷ [];
  token_type = bearer;
  subject = none;
  admin_user_id = none;
  admin_identity = none;
  resource = none;
}

nothing_mapped : (access_claims now client sending sending.user world).0 ≡ ok []
unfolding mapped_claims claim_user claims_of order_by_name
nothing_mapped = refl

operator-SparesReserved : SparesReserved client sending sending.access_token_claims
unfolding is_reserved
operator-SparesReserved k reserved = elim (Bool-cases (str_eq "agent_operator" k)) [
  | inl same ↦
      let it : "agent_operator" ≡ k = ground (arith, eq_iff "agent_operator" k) in
      let wrong = subst (λ c. is_reserved c ≡ true) (sym it) reserved in absurd (cc)
  | inr other ↦ ground arith
]

access_token_payload-fixed_example :
    let payload = access_token_payload client sending [] in
    (get_claim "token_use" payload ≡ some (str "access"))
    × (get_claim "client_id" payload ≡ some (str "client-1"))
    × (get_claim "scope" payload ≡ some (str (join ("openid" ∷ "email" ∷ []))))
access_token_payload-fixed_example =
    access_token_payload-fixed client sending now world [] nothing_mapped operator-SparesReserved

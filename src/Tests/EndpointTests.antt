-- ===== src/Tests/EndpointTests.antt =====
-- The endpoints at concrete requests.
use authometry.Common.{
  ◌≡◌, refl, true, false, none, some, [], ◌∷◌, every, includes, find, str_eq, arith,
}
use authometry.Common.Text.{join, words, split, before_marker, strip_slash, strip_prefix}
use authometry.Json.{Claims, str, get_claim}
use authometry.Database.{DelegationGrantRow, ok, fail, ◌>>=◌, transaction}
use authometry.Signing.{hash_token, random_id, sign_oauth_jwt, verify_oauth_jwt}
use authometry.Issue.{
  TokenSet, bearer, issue_token_set, user_id_token, admin_id_token, new_refresh_token,
}
use authometry.Agents.{agent_for_client, find_agent_for_client}
use authometry.Client.{
  Request, param, application_of, find_application_by_client_id, assert_application_route,
  parse_basic_authorization, authenticate_by, authenticate_client,
}
use authometry.Client.Authentication.{Authentic, authenticate_client-Authentic}
use authometry.Grant.Refresh.{invalid_token, refresh_token_grant}
use authometry.Endpoint.Token.{
  agent_refused, credential_scopes, credential_issue_input, client_credentials_grant, token_route,
}
use authometry.Endpoint.Token.Laws.{IsAnswer, token_route-IsAnswer, client_credentials-limited}
use authometry.Endpoint.Revocation.{family_of, revoke_by, revoke}
use authometry.Endpoint.Revocation.Laws.{revoke-refresh}
use authometry.Endpoint.Introspection.{
  active, lineage, lineage_from, grant_holds, lineage_holds, is_revoked, access_fields,
  introspect_access,
}
use authometry.Endpoint.Introspection.Laws.{Above, IsGraded, introspect-Above}
use authometry.Tests.{client, world, now, later}
use authometry.Endpoint.Introspection.Graded.{exchange-IsGraded}
use authometry.Grant.Exchange.{token_exchange_grant}
use authometry.Tests.ExchangeTests.{exchange, exchanged, exchanges, trusting, delegated}

abbrev request : Request
request = record {
  authorization = none;
  dpop = none;
  original_url = "/oauth/token";
  body = ("client_id", "client-1") ∷ ("grant_type", "refresh_token") ∷ ("token", "old") ∷ [];
}

authenticates : (authenticate_client now request world).0 ≡ ok client
unfolding authenticate_client find_application_by_client_id application_of assert_application_route
    parse_basic_authorization authenticate_by before_marker strip_slash strip_prefix ◌>>=◌
authenticates = refl

authenticate_client-Authentic_example : Authentic now request world.committed client
authenticate_client-Authentic_example =
    authenticate_client-Authentic now request world client authenticates

token_route-IsAnswer_example :
    IsAnswer now request world.committed (token_route now request world).0
token_route-IsAnswer_example = token_route-IsAnswer now request world

abbrev issued : TokenSet
issued = record {
  access_token = "jwt";
  token_type = bearer;
  expires_in = 900;
  scope = "read write";
  id_token = none;
  refresh_token = none;
  issued_token_type = none;
}

credentials : (client_credentials_grant now client request world).0 ≡ ok issued
unfolding client_credentials_grant credential_scopes credential_issue_input agent_for_client
    find_agent_for_client words split ◌>>=◌ join issue_token_set sign_oauth_jwt random_id
    user_id_token admin_id_token new_refresh_token
credentials = refl

client_credentials-limited_example :
    let scopes = credential_scopes now client request in
    (every (includes client.allowed_scopes) scopes ≡ true)
    × (agent_refused now
          (agent_for_client client.client_id world.committed)
          (param "resource" request)
        ≡ false)
    × (issued.scope ≡ join scopes)
    × (issued.refresh_token ≡ none)
    × ((client_credentials_grant now client request world).1.committed ≡ world.committed)
client_credentials-limited_example =
    client_credentials-limited now client request world issued credentials

known : family_of (hash_token now "old") world.committed ≡ some 40
unfolding family_of hash_token
known = refl

sibling : family_of (hash_token later "used") world.committed ≡ some 40
unfolding family_of hash_token
sibling = refl

revokes : (revoke now request world).0 ≡ ok tt
unfolding authenticate_client find_application_by_client_id application_of assert_application_route
    parse_basic_authorization authenticate_by before_marker strip_slash strip_prefix ◌>>=◌ family_of
    hash_token revoke_by revoke transaction
revokes = refl

revoke-refresh_example :
    let w' = (revoke now request world).1 in
    let (o, w'') = refresh_token_grant later client "used" none "" w' in
    (o ≡ fail invalid_token) × (w''.committed ≡ w'.committed)
revoke-refresh_example =
    revoke-refresh now later client request world 40 "used" none "" known sibling revokes

abbrev verified : Claims
verified =
    ("token_use", some (str "access"))
    ∷ ("sub", some (str "uuid"))
    ∷ ("aud", some (str "https://api"))
    ∷ ("client_id", some (str "client-1"))
    ∷ ("authometry_grant_id", some (str "uuid"))
    ∷ []

verifies : (verify_oauth_jwt trusting "jwt" (some client.issuer) delegated).0 ≡ ok verified
unfolding verify_oauth_jwt ◌>>=◌
verifies = refl

named : get_claim "authometry_grant_id" verified ≡ some (str "uuid")
unfolding get_claim
named = refl

introspects :
    (introspect_access trusting client "jwt" delegated).0
    ≡ ok (active (access_fields trusting (("iss", some (str "agent-2")) ∷ []) verified))
unfolding introspect_access verify_oauth_jwt ◌>>=◌ application_of get_claim is_revoked lineage_holds
    lineage lineage_from grant_holds
introspects = refl

graded : IsGraded delegated.committed
graded id p g found up = absurd (ground arith)

introspect-Above_example :
    (is_revoked trusting verified delegated.committed ≡ false)
    × ((g : DelegationGrantRow) × (find
            (λ g. str_eq (trusting.uuid_text g.id) "uuid")
            delegated.committed.grants
          ≡ some g)
        × ((a : DelegationGrantRow)
            → Above delegated.committed g.id a
            → grant_holds trusting delegated.committed a ≡ true))
introspect-Above_example =
    introspect-Above trusting client "jwt" "uuid" delegated verified _ graded verifies named
      introspects

exchange-IsGraded_example :
    IsGraded (token_exchange_grant trusting client exchange delegated).1.committed
exchange-IsGraded_example =
    exchange-IsGraded trusting client exchange delegated exchanged graded exchanges

-- ===== src/Tests/AgentTests.antt =====
-- An agent that pushes a request.
use authometry.Common.{pos, String, ◌≡◌, refl, true, false, none, some, [], ◌∷◌}
use authometry.Common.Text.{◌+s◌, strip_slash, strip_prefix, before_marker, words, split, ends_with}
use authometry.Json.{str, num, obj, arr, field, end, nil, cons, items, get_field, get_claim}
use authometry.Database.{
  ok, World, AgentIdentityRow, Status, AuthorizationParameters, OAuthApplicationRow, Runtime, ◌>>=◌,
}
use authometry.Signing.{random_id}
use authometry.Agents.{
  agent_for_client, find_agent_for_client, checked_assertion, verify_agent_assertion,
  action_covered_by_scopes, is_location_within_resource,
}
use authometry.Client.{
  Request, application_of, find_application_by_client_id, active_application,
  assert_application_route,
}
use authometry.Authorize.Start.{optional_valid, parse_authorization}
use authometry.Authorize.PushedRequest.{texts_in, detail_of, details_of, parse_pushed}
use authometry.Authorize.Push.{
  PushAnswer, agent_assertion, within_capabilities, capability_for, capabilities_for, distinct,
  every_within, all_covered, store_pushed, push_scopes, push_for, push_request,
}
use authometry.Client.Authentication.{Signs}
use authometry.Authorize.Push.Laws.{Bounded, push_request-Bounded}
use authometry.Tests.{tables, world_of, now}

abbrev agent : AgentIdentityRow
agent = record {
  id = 80;
  environment_id = 8;
  application_id = 1;
  agent_id = "agent-1";
  operator_id = "operator";
  public_jwk = "jwk";
  capabilities = "mail:read" ∷ [];
  allowed_resources = "https://api" ∷ [];
  may_receive_delegation = true;
  may_delegate = false;
  maximum_delegation_depth = 0;
  maximum_authorization_seconds = 600;
  status = Status.active;
}

abbrev trusting : Runtime
trusting = record now {
  parse_json = λ s. some (
      arr (
        cons
          (obj (
            field "type" (str "agent_action") (
              field "actions" (arr (items ("read" ∷ []))) (
                field "locations" (arr (items ("https://api" ∷ [])))
                  (field "resource" (str "mail") end)))))
          nil));
  verify_assertion = λ jwk id assertion audience. some (
      ("jti", some (str "jti"))
      ∷ ("iat", some (num (pos 1000)))
      ∷ ("exp", some (num (pos 1100)))
      ∷ []);
}

abbrev request : Request
request = record {
  authorization = some "AgentAssertion jwt";
  dpop = none;
  original_url = "/oauth/par";
  body =
      ("client_id", "client-1")
      ∷ ("redirect_uri", "https://app/callback")
      ∷ ("response_type", "code")
      ∷ ("scope", "mail:read")
      ∷ ("resource", "https://api")
      ∷ ("code_challenge", "a-challenge-of-at-least-forty-three-characters")
      ∷ ("code_challenge_method", "S256")
      ∷ ("authorization_details", "[]")
      ∷ ("purpose", "Reports")
      ∷ [];
}

abbrev served : World
served = world_of (record tables { agents = agent ∷ [] })

abbrev answer : PushAnswer
answer = record { request_uri = "urn:ietf:params:oauth:request_uri:par_fresh"; expires_in = 90 }

pushed : (push_request trusting request served).0 ≡ ok answer
unfolding push_request parse_pushed parse_authorization optional_valid details_of items get_field
    detail_of texts_in find_application_by_client_id application_of assert_application_route
    strip_slash strip_prefix before_marker agent_assertion verify_agent_assertion
    find_agent_for_client agent_for_client checked_assertion push_for words split
    within_capabilities capabilities_for capability_for action_covered_by_scopes ends_with distinct
    push_scopes all_covered every_within is_location_within_resource store_pushed random_id
    get_claim ◌>>=◌
pushed = refl

push_request-Bounded_example :
    (p : AuthorizationParameters) × (a : OAuthApplicationRow) × (g : AgentIdentityRow)
    × (parse_pushed trusting request ≡ some p)
    × (active_application (application_of p.client_id served.committed) ≡ some a)
    × ((assertion : String) × (agent_assertion trusting request ≡ some assertion)
        × Signs trusting assertion p.client_id (a.issuer +s "/oauth/par") served.committed g)
    × (g.may_receive_delegation ≡ true)
    × Bounded trusting a p g answer served.committed.pushed
        (push_request trusting request served).1.committed.pushed
push_request-Bounded_example = push_request-Bounded trusting request served answer pushed

-- ===== src/Tests/AuthorizeTests.antt =====
-- An authorization request from the first redirect to the decision.
use authometry.Common.{◌≡◌, refl, true, false, none, some, [], ◌∷◌}
use authometry.Database.{
  ok, fail, World, AuthorizationParameters, PendingStatus, PendingAuthorizationRow, IdentityUserRow,
  ◌>>=◌, transaction,
}
use authometry.Client.{
  application_of, find_application_by_client_id, assert_application_route, Request,
}
use authometry.Signing.{random_token, random_id}
use authometry.Common.Text.{split, words, strip_slash, strip_prefix, before_marker, lower_case}
use authometry.Grant.{mcp_resource_for_issuer}
use authometry.Grant.Code.{CodeRequest}
use authometry.Admin.{Browser}
use authometry.Authorize.{
  request_gone, consent_page, with_code, login_page, is_closed, covers, consent_of, update_request,
  request_by_id, is_mcp_authorization, load_pending, existing_user_session,
}
use authometry.Authorize.Issue.{
  sorted, denying_policy, delegate, store_code, issue_code, with_new_code, answer_by,
  authorization_redirect,
}
use authometry.Authorize.Issue.Laws.{Answered, authorization_redirect-Answered}
use authometry.Authorize.Continue.{
  touch_user, new_session, insert_session, start_session, await_consent,
  continue_after_authentication,
}
use authometry.Authorize.Start.{
  optional_valid, parse_authorization, resolve_authorization_parameters, new_request,
  insert_request, current_user, continue_as, continue_by, accept, wrong_target, lacks_pkce,
  check_target, authorize, Query,
}
use authometry.Authorize.Start.Laws.{Admitted, authorize-Admitted}
use authometry.Authorize.Requests.{Closed}
use authometry.Authorize.Decide.{upsert, grant_consent, reviewer, approve, decide, consent}
use authometry.Authorize.Decide.Laws.{consent-Closed, consent-consent}
use authometry.Authorize.Login.{
  LoginInput, login_user, check_second_factor, link_if_asked, csrf_if, login_as, login,
}
use authometry.Authorize.Login.Laws.{SignedIn, login-SignedIn, login-consent}
use authometry.Tests.{client, user, tables, world_of, now, later}

abbrev parameters : AuthorizationParameters
parameters = record {
  client_id = "client-1";
  redirect_uri = "https://app/callback";
  scope = "read";
  state = some "state";
  nonce = none;
  code_challenge = some "verifier";
  code_challenge_method = some "S256";
  prompt = none;
  max_age = none;
  resource = none;
  authorization_details = none;
  purpose = none;
  task_id = none;
  agent_id = none;
}

abbrev pub pending : PendingAuthorizationRow
pending = record {
  id = 80;
  workspace_id = 9;
  environment_id = 8;
  application_id = 1;
  request_id = "req-1";
  parameters = parameters;
  user_id = some 5;
  admin_user_id = none;
  status = PendingStatus.awaiting_consent;
  expires_at = 2000000;
}

-- The user of the other examples, with a password.
abbrev pub ada : IdentityUserRow
ada = record user { password_hash = some "password" }

abbrev pub asked : World
asked = world_of (record tables { pending = pending ∷ []; users = ada ∷ [] })

abbrev pub browser : Browser
browser = record {
  method = "POST";
  authorization = none;
  user_session = none;
  admin_access = none;
  admin_refresh = none;
  csrf_cookie = none;
  csrf_header = none;
}

issued :
    (authorization_redirect now pending client ada asked).0
    ≡ ok (with_code "https://app/callback" "fresh" (some "state") "https://issuer")
unfolding authorization_redirect answer_by denying_policy sorted with_new_code random_token
    issue_code delegate store_code transaction ◌>>=◌
issued = refl

authorization_redirect-Answered_example :
    Answered now pending client ada asked.committed
      (authorization_redirect now pending client ada asked).1.committed
      (with_code "https://app/callback" "fresh" (some "state") "https://issuer")
authorization_redirect-Answered_example =
    authorization_redirect-Answered now pending client ada asked
      (with_code "https://app/callback" "fresh" (some "state") "https://issuer") issued

abbrev redemption : CodeRequest
redemption = record {
  code = "fresh";
  redirect_uri = "https://app/callback";
  code_verifier = "verifier";
  resource = "";
  dpop = none;
}

abbrev query : Query
query =
    ("client_id", "client-1")
    ∷ ("redirect_uri", "https://app/callback")
    ∷ ("response_type", "code")
    ∷ ("scope", "read")
    ∷ ("code_challenge", "a-challenge-of-at-least-forty-three-characters")
    ∷ ("code_challenge_method", "S256")
    ∷ []

abbrev redirect : Request
redirect = record {
  authorization = none;
  dpop = none;
  original_url = "/oauth/authorize";
  body = [];
}

admitted : (authorize now redirect browser query asked).0 ≡ ok (login_page "req_fresh")
unfolding authorize resolve_authorization_parameters parse_authorization optional_valid
    find_application_by_client_id application_of assert_application_route strip_slash strip_prefix
    before_marker random_id words split check_target mcp_resource_for_issuer is_mcp_authorization
    wrong_target lacks_pkce accept new_request insert_request continue_by current_user
    existing_user_session continue_as ◌>>=◌
admitted = refl

authorize-Admitted_example : Admitted now query asked
authorize-Admitted_example =
    authorize-Admitted now redirect browser query asked (login_page "req_fresh") refl admitted

approved :
    (consent now browser "req-1" true asked).0
    ≡ ok (with_code "https://app/callback" "fresh" (some "state") "https://issuer")
unfolding consent load_pending request_by_id is_closed find_application_by_client_id application_of
    is_mcp_authorization words split reviewer decide approve grant_consent upsert
    authorization_redirect answer_by denying_policy sorted with_new_code random_token issue_code
    delegate store_code transaction ◌>>=◌
approved = refl

consent-Closed_example : Closed "req-1" (consent now browser "req-1" true asked).1.committed
consent-Closed_example = consent-Closed now browser "req-1" true asked _ approved

consent-consent_example :
    consent later browser "req-1" false (consent now browser "req-1" true asked).1
    ≡ (fail request_gone, (consent now browser "req-1" true asked).1)
consent-consent_example =
    consent-consent now later browser browser "req-1" true false asked _ approved

abbrev input : LoginInput
input = record {
  request_id = "req-1";
  email = "ada@example.com";
  password = "password";
  mfa_code = none;
  link_token = none;
}

signed_in : (login now browser input asked).0 ≡ ok (consent_page "req-1")
unfolding login load_pending request_by_id is_closed find_application_by_client_id application_of
    is_mcp_authorization words split csrf_if login_as login_user lower_case check_second_factor
    link_if_asked continue_after_authentication random_token start_session touch_user new_session
    insert_session update_request consent_of covers transaction ◌>>=◌ await_consent
signed_in = refl

login-SignedIn_example : SignedIn now input asked
login-SignedIn_example = login-SignedIn now browser input asked _ signed_in

login-consent_example :
    login later browser input (consent now browser "req-1" true asked).1
    ≡ (fail request_gone, (consent now browser "req-1" true asked).1)
login-consent_example = login-consent now later browser browser input true asked _ approved

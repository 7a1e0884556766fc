-- ===== src/Tests/ExchangeTests.antt =====
-- A token exchange between two agents at concrete tables.
use authometry.Common.{pos, ◌≡◌, refl, true, false, none, some, [], ◌∷◌}
use authometry.Common.Text.{join, ends_with}
use authometry.Json.{str, num, get_claim}
use authometry.Database.{
  AgentIdentityRow, Status, DelegationGrantRow, GrantStatus, Runtime, World, ok, ◌>>=◌, transaction,
}
use authometry.Signing.{verify_oauth_jwt, sign_oauth_jwt, random_id}
use authometry.Claims.{mapped_claims}
use authometry.Issue.{
  TokenSet, dpop, issue_token_set, user_id_token, admin_id_token, new_refresh_token,
}
use authometry.Agents.{
  find_agent_for_client, agent_for_client, find_agent_by_id, verify_agent_assertion,
  checked_assertion, verify_dpop_proof, checked_proof, bound_to, reduce_authorization_details,
  action_covered_by_scopes,
}
use authometry.Grant.{claim_user}
use authometry.Grant.Code.{remaining_lifetime}
use authometry.Grant.Exchange.{
  ExchangeRequest, request_incomplete, exchange_inputs, child_grant, delegate, exchange_claims,
  exchange_issue_input, issue_child, token_exchange_grant,
}
use authometry.Grant.Exchange.Laws.{Attenuates, Receives, exchange-Attenuates}
use authometry.Tests.{client, other_client, tables, now, world_of}

abbrev sender : AgentIdentityRow
sender = record {
  id = 80;
  environment_id = 8;
  application_id = 1;
  agent_id = "agent-1";
  operator_id = "operator";
  public_jwk = "jwk";
  capabilities = "read" ∷ [];
  allowed_resources = "https://api" ∷ [];
  may_receive_delegation = false;
  may_delegate = true;
  maximum_delegation_depth = 2;
  maximum_authorization_seconds = 600;
  status = Status.active;
}

abbrev target : AgentIdentityRow
target = record sender {
  id = 81;
  application_id = 2;
  agent_id = "agent-2";
  may_receive_delegation = true;
  may_delegate = false;
}

abbrev pub parent : DelegationGrantRow
parent = record {
  id = 90;
  workspace_id = 9;
  environment_id = 8;
  application_id = 1;
  subject_user_id = 5;
  actor_agent_id = 80;
  parent_grant_id = none;
  resource = "https://api";
  scopes = "read" ∷ "write" ∷ [];
  authorization_details =
      record {
        actions = "read" ∷ [];
        locations = [];
        resource = "https://api";
        constraints = none;
        purpose = none;
      }
      ∷ [];
  purpose = "Reports";
  task_id = none;
  dpop_jkt = none;
  delegation_depth = 0;
  maximum_usage = none;
  status = GrantStatus.active;
  expires_at = 9000000;
}

-- Tokens and proofs that always hold.
abbrev pub trusting : Runtime
trusting = record now {
  decode_jwt = λ token. some (("iss", some (str "agent-2")) ∷ []);
  decode_kid = λ token. some (some "kid");
  verify = λ key token issuer. some (
      ("token_use", some (str "access"))
      ∷ ("sub", some (str "uuid"))
      ∷ ("aud", some (str "https://api"))
      ∷ ("client_id", some (str "client-1"))
      ∷ ("authometry_grant_id", some (str "uuid"))
      ∷ []);
  verify_assertion = λ jwk agent assertion audience. some (
      ("jti", some (str "jti"))
      ∷ ("iat", some (num (pos 1000)))
      ∷ ("exp", some (num (pos 1100)))
      ∷ []);
  dpop_header = λ proof. some (record {
    typ_lower = some "dpop+jwt";
    alg = "RS256";
    jwk_kty = some "RSA";
    has_private_member = false;
    thumbprint = "thumb";
  });
  dpop_verify = λ proof. some (
      ("htm", some (str "POST"))
      ∷ ("htu", some (str "https://issuer/oauth/token"))
      ∷ ("jti", some (str "proof"))
      ∷ ("iat", some (num (pos 1000)))
      ∷ []);
}

abbrev pub delegated : World
delegated = world_of (record tables {
  applications = client ∷ other_client ∷ [];
  agents = sender ∷ target ∷ [];
  grants = parent ∷ [];
})

abbrev pub exchange : ExchangeRequest
exchange = record {
  subject_token = "subject";
  subject_token_type = "urn:ietf:params:oauth:token-type:access_token";
  actor_token = "actor";
  actor_token_type = "urn:ietf:params:oauth:token-type:jwt";
  resource = "https://api";
  scopes = "read" ∷ [];
  dpop = some "proof";
}

abbrev pub exchanged : TokenSet
exchanged = record {
  access_token = "jwt";
  token_type = dpop;
  expires_in = 900;
  scope = "read";
  id_token = none;
  refresh_token = none;
  issued_token_type = some "urn:ietf:params:oauth:token-type:access_token";
}

pub exchanges : (token_exchange_grant trusting client exchange delegated).0 ≡ ok exchanged
unfolding token_exchange_grant exchange_inputs request_incomplete find_agent_for_client
    agent_for_client find_agent_by_id verify_agent_assertion checked_assertion verify_dpop_proof
    checked_proof bound_to verify_oauth_jwt delegate child_grant reduce_authorization_details
    action_covered_by_scopes ends_with exchange_claims exchange_issue_input issue_child claim_user
    remaining_lifetime get_claim ◌>>=◌ transaction join issue_token_set sign_oauth_jwt random_id
    mapped_claims user_id_token admin_id_token new_refresh_token
exchanges = refl

exchange-Attenuates_example :
    (agent : AgentIdentityRow) × (from : DelegationGrantRow) × (child : DelegationGrantRow)
    × Receives trusting client exchange delegated.committed agent
    × Attenuates trusting delegated.committed
        (token_exchange_grant trusting client exchange delegated).1.committed
        agent
        from
        child
exchange-Attenuates_example =
    exchange-Attenuates trusting client exchange delegated exchanged exchanges

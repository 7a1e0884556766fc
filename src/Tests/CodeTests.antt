-- ===== src/Tests/CodeTests.antt =====
-- Redeeming an authorization code at concrete tables.
use authometry.Common.{◌≡◌, refl, inr, none, [], ◌∷◌}
use authometry.Database.{World, ok, fail, crash, ◌>>=◌, transaction}
use authometry.Signing.{hash_token, random_id, sign_oauth_jwt, sha256_base64url}
use authometry.Claims.{mapped_claims}
use authometry.Common.Text.{join}
use authometry.Issue.{
  TokenSet, bearer, verify_pkce, issue_token_set, user_id_token, admin_id_token, new_refresh_token,
}
use authometry.Grant.{claim_user, resource_refused}
use authometry.Grant.Code.{
  CodeRequest, code_used, find_code, pkce_refused, check_code, consume_code, delegation,
  user_issue_input, issue_for_user, issue_for, code_work, authorization_code_grant,
}
use authometry.Grant.Code.Redemption.{Redeems, code-Redeems, code_error-restores, code-code}
use authometry.Tests.{client, device, tables_with, world_of, world, now, later}

abbrev request : CodeRequest
request = record {
  code = "code";
  redirect_uri = "https://app/callback";
  code_verifier = "verifier";
  resource = "";
  dpop = none;
}

abbrev issued : TokenSet
issued = record {
  access_token = "jwt";
  token_type = bearer;
  expires_in = 900;
  scope = "read";
  id_token = none;
  refresh_token = none;
  issued_token_type = none;
}

redeemed : (authorization_code_grant now client request world).0 ≡ ok issued
unfolding authorization_code_grant code_work check_code find_code pkce_refused consume_code
    issue_for issue_for_user delegation user_issue_input transaction ◌>>=◌ hash_token
    sha256_base64url resource_refused verify_pkce claim_user join issue_token_set sign_oauth_jwt
    random_id mapped_claims user_id_token admin_id_token new_refresh_token
redeemed = refl

-- No signing key is stored, so the tokens cannot be signed.
abbrev keyless : World
keyless = world_of (tables_with (device ∷ []) [])

unsigned :
    (authorization_code_grant now client request keyless).0
    ≡ crash "No active signing key is configured."
unfolding authorization_code_grant code_work check_code find_code pkce_refused consume_code
    issue_for issue_for_user delegation user_issue_input transaction ◌>>=◌ hash_token
    sha256_base64url resource_refused verify_pkce claim_user join issue_token_set sign_oauth_jwt
    random_id mapped_claims
unsigned = refl

code-Redeems_example :
    Redeems now client request world.committed
      (authorization_code_grant now client request world).1.committed
code-Redeems_example = code-Redeems now client request world issued redeemed

code_error-restores_example :
    (authorization_code_grant now client request keyless).1.committed.codes
    ≡ keyless.committed.codes
code_error-restores_example =
    code_error-restores now client request keyless
      (inr ("No active signing key is configured.", unsigned))

code-code_example :
    let w' = (authorization_code_grant now client request world).1 in
    let (o, w'') =
      authorization_code_grant later client (record request { code_verifier = "" }) w' in
    (o ≡ fail code_used) × (w''.committed ≡ w'.committed)
unfolding hash_token
code-code_example =
    code-code now client later request (record request { code_verifier = "" }) world issued refl
      redeemed

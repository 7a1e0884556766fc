-- ===== src/Authorize/Start/Laws.antt =====
-- What a request that `GET /oauth/authorize` lets through has shown.
use authometry.Common.{
  ◌≡◌, refl, String, Bool, true, false, Option, some, none, arith, includes, every, if◌then◌else◌,
}
use authometry.Common.Text.{words}
use authometry.Database.{
  OAuthApplicationRow, AuthorizationParameters, Runtime, World, is_active, ok, M, >>=-ok, read-ok,
  required-ok, guarded-ok,
}
use authometry.Signing.{random_id}
use authometry.Signing.Effects.{needed-ok}
use authometry.Client.{
  Request, application_of, find_application_by_client_id, active_application,
  assert_application_route,
}
use authometry.Grant.{mcp_resource_for_issuer}
use authometry.Admin.{Browser}
use authometry.Authorize.{
  Next, with_error, with_code, login_page, consent_page, admin_login_page, oauth_redirect,
  is_mcp_authorization,
}
use authometry.Authorize.Start.{
  Query, resolve_authorization_parameters, wrong_target, lacks_pkce, check_target, authorize,
}

-- An answer that sends the browser back to the client with an error.
abbrev pub is_refusal : Next → Bool
is_refusal (with_error uri error description state) = true
is_refusal (with_code uri code state iss) = false
is_refusal (login_page id) = false
is_refusal (consent_page id) = false
is_refusal (admin_login_page id) = false

module _ (r : Runtime) where
  -- The request is of an active client, for a registered redirect URI and assigned scopes, with an
  -- S256 challenge where the client must use PKCE, and names the MCP server as its resource exactly
  -- if it asks for access to it.
  pub record Admitted (q : Query) (w : World) : Type 0 where
    pub parameters : AuthorizationParameters
    pub application : OAuthApplicationRow
    pub resource : String
    pub mcp : Bool
    pub resolved : (resolve_authorization_parameters r q w).0 ≡ ok parameters
    pub known :
        application_of parameters.client_id (resolve_authorization_parameters r q w).1.committed
        ≡ some application
    pub active : is_active application.status ≡ true
    pub registered : includes application.redirect_uris parameters.redirect_uri ≡ true
    pub assigned : every (includes application.allowed_scopes) (words parameters.scope) ≡ true
    pub own_resource : mcp_resource_for_issuer r application.issuer ≡ some resource
    pub target : is_mcp_authorization r parameters application ≡ some mcp
    pub right_target : wrong_target r parameters resource mcp ≡ false
    pub proven : lacks_pkce r parameters application ≡ false

  active_lem :
      (o : Option OAuthApplicationRow) (a : OAuthApplicationRow)
      → active_application o ≡ some a
      → (o ≡ some a) × (is_active a.status ≡ true)
  active_lem none a h = absurd (cc)
  active_lem (some b) a h = ground arith

  branch-ok :
      (c : Bool) (refused : Next) (m : M Next) (w : World) (next : Next)
      → is_refusal refused ≡ true
      → is_refusal next ≡ false
      → ((if c then (λ w'. (ok refused, w')) else m) w).0 ≡ ok next
      → (c ≡ false) × ((m w).0 ≡ ok next)
  branch-ok true refused m w next is_error passed h = absurd (ground arith)
  branch-ok false refused m w next is_error passed h = (refl, h)

  target-ok :
      (b : Browser) (p : AuthorizationParameters) (a : OAuthApplicationRow) (id : String)
      (w : World) (next : Next)
      → is_refusal next ≡ false
      → (check_target r b p a id w).0 ≡ ok next
      → (resource : String) × (mcp : Bool) × (mcp_resource_for_issuer r a.issuer ≡ some resource)
        × (is_mcp_authorization r p a ≡ some mcp)
        × (wrong_target r p resource mcp ≡ false)
        × (lacks_pkce r p a ≡ false)
  unfolding check_target oauth_redirect
  target-ok b p a id w next passed h =
      let (resource, own, rest) = needed-ok r _ w next (mcp_resource_for_issuer r a.issuer) _ h in
      let (mcp, target, rest') = needed-ok r _ w next (is_mcp_authorization r p a) _ rest in
      let (right, rest'') =
        branch-ok (wrong_target r p resource mcp) _ _ w next refl passed rest' in
      let (proven, rest''') = branch-ok (lacks_pkce r p a) _ _ w next refl passed rest'' in
      (resource, mcp, own, target, right, proven)

  -- A request that is answered with anything but an error, that is with a code, a page to sign in
  -- or a page to consent, is of an active client in an active environment, for a redirect URI and
  -- scopes that are registered for it, with an S256 challenge where the client must use PKCE, and
  -- asks for access to the MCP server only under the server's own resource indicator.
  pub authorize-Admitted :
      (request : Request) (b : Browser) (q : Query) (w : World) (next : Next)
      → is_refusal next ≡ false
      → (authorize r request b q w).0 ≡ ok next
      → Admitted q w
  unfolding authorize find_application_by_client_id oauth_redirect
  authorize-Admitted request b q w next passed h =
      let (p, resolved, rest, end) = >>=-ok (resolve_authorization_parameters r q) _ w next h in
      let w1 = (resolve_authorization_parameters r q w).1 in
      let rest1 = read-ok _ w1 next (application_of p.client_id) rest in
      let (a, found, rest2) = required-ok _ w1 next (active_application _) _ rest1 in
      let (known, active) = active_lem _ a found in
      let (u, routed, rest3, end3) =
        >>=-ok (assert_application_route r a request) _ w1 next rest2 in
      let (id, drawn, rest4, end4) = >>=-ok (random_id r "req" 7) _ _ next rest3 in
      let (registered, rest5) = guarded-ok _ _ _ _ next rest4 in
      let (assigned, rest6) = branch-ok _ _ (check_target r b p a id) _ next refl passed rest5 in
      let (resource, mcp, own, target, right, proven) = target-ok b p a id _ next passed rest6 in
      record {
        parameters = p;
        application = a;
        resource = resource;
        mcp = mcp;
        resolved = resolved;
        known = known;
        active = active;
        registered = ground arith;
        assigned = ground arith;
        own_resource = own;
        target = target;
        right_target = right;
        proven = proven;
      }

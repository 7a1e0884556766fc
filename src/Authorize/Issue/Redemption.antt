-- ===== src/Authorize/Issue/Redemption.antt =====
-- The code that the authorization endpoint answers with, at the token endpoint.
use mathlib.Core.Path.{subst}
use authometry.Common.{ℕ, ◌≡◌, ap, String, Option, some}
use authometry.Common.Text.{split}
use authometry.Database.{
  OAuthApplicationRow, IdentityUserRow, PendingAuthorizationRow, AuthorizationCodeRow, Tables,
  Runtime, World, ok,
}
use authometry.Signing.{hash_token}
use authometry.Grant.Code.{CodeRequest, find_code, own_code, check_code}
use authometry.Authorize.{Next, with_error, with_code, login_page, consent_page, admin_login_page}
use authometry.Authorize.Issue.Policies.{Allowed}
use authometry.Authorize.Issue.Laws.{Stored, Answered, refused, issued}

-- The same server at another instant.
abbrev pub at_instant : Runtime → ℕ → Runtime
at_instant r instant = record r { date_now = instant; sql_now = instant }

abbrev code_sent : Next → String
code_sent (with_code uri code state iss) = code
code_sent (with_error uri error description state) = ""
code_sent (login_page id) = ""
code_sent (consent_page id) = ""
code_sent (admin_login_page id) = ""

abbrev uri_sent : Next → String
uri_sent (with_code uri code state iss) = uri
uri_sent (with_error uri error description state) = ""
uri_sent (login_page id) = ""
uri_sent (consent_page id) = ""
uri_sent (admin_login_page id) = ""

module _ (r : Runtime) (pending : PendingAuthorizationRow) (a : OAuthApplicationRow) where
  pub code-Stored :
      (user : IdentityUserRow) (before after : Tables) (next : Next) (uri code iss : String)
      (state : Option String)
      → Answered r pending a user before after next
      → next ≡ with_code uri code state iss
      → (pending.parameters.redirect_uri ≡ uri)
        × Allowed r a user pending.parameters before
        × Stored r pending a user code before after
  code-Stored user before after next uri code iss state (refused q found closed) e = absurd (cc)
  code-Stored user before after next uri code iss state (issued made allowed stored) e = (
    ap uri_sent e,
    allowed,
    subst (λ c. Stored r pending a user c before after) (ap code_sent e) stored,
  )

  -- A code that the token endpoint finds as the client's own, and that passes `check_code` there.
  pub record Redeemable (user : IdentityUserRow) (request : CodeRequest) (instant : ℕ)
      (after : Tables) : Type 0 where
    pub code : AuthorizationCodeRow
    pub found : own_code r a (find_code (hash_token r request.code) after) ≡ some code
    pub own_user : code.user_id ≡ some user.id
    pub own_scope : code.scope ≡ split b' ' pending.parameters.scope
    pub passes : (w : World) → check_code (at_instant r instant) a code request w ≡ (ok tt, w)

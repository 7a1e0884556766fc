-- ===== src/Grant.antt =====
-- What the grants of apps/server/src/oauth/tokens.ts share: the users named in a token, and
-- `resourceIndicatorsMatch` and `mcpResourceForIssuer` of oauth/resources.ts.
pub mod Refresh
pub mod Device
pub mod Code
pub mod Exchange
use authometry.Common.{
  ℕ, String, Bool, true, false, Option, none, some, List, [], ◌∷◌, ◌&&◌, ◌||◌, not, ◌==◌,
  if◌then◌else◌, str_eq, truthy, is_some, get_or, find,
}
use authometry.Common.Text.{◌+s◌, strip_slash}
use authometry.Json.{str, Claims}
use authometry.Database.{
  Uuid, Status, OAuthApplicationRow, IdentityUserRow, AdminRow, Tables, Url, Runtime, ApiError,
  api_error, TraceSubject, M, pure, identify,
}
use authometry.Claims.{ClaimUser}

abbrev pub invalid_grant : String → ApiError
invalid_grant message = api_error 400 "invalid_grant" message

-- A test on a nullable value that `null` fails.
abbrev pub holds {ℓ} : {A : Type ℓ} → (A → Bool) → Option A → Bool
holds p none = false
holds p (some a) = p a

-- Equality of two parsed URLs; a text that is no URL matches nothing.
unfoldable pub resource_indicators_match : Runtime → String → String → Bool
resource_indicators_match r candidate expected =
    holds (λ (a : Url). holds (λ (b : Url). str_eq a.href b.href) (r.parse_url expected))
      (r.parse_url candidate)

-- `none` where the issuer is no URL.
unfoldable pub mcp_resource_for_issuer : Runtime → String → Option String
mcp_resource_for_issuer r issuer = elim (r.parse_url issuer) [
  | none ↦ none
  | some url ↦ some (strip_slash (r.url_with_path url (strip_slash url.pathname +s "/mcp")))
]

-- The test of `resource` against what the code or the family was issued for: an admin's must name
-- one, and one that is named must match.
unfoldable pub resource_refused : Runtime → Bool → String → Option String → Bool
resource_refused r required requested bound =
    (required && not (truthy requested))
    || (truthy requested
        && not (holds (λ b. truthy b && resource_indicators_match r requested b) bound))

unfoldable pub claim_user : Runtime → IdentityUserRow → ClaimUser
claim_user r user = record {
  id = user.id;
  id_text = r.uuid_text user.id;
  email = user.email;
  name = user.name;
  groups = user.groups;
  email_verified = is_some user.email_verified_at;
  custom_claims = user.custom_claims;
}

-- `last_authenticated_at ?? new Date()`.
abbrev pub auth_time_of : Runtime → Option IdentityUserRow → ℕ
auth_time_of r none = r.date_now
auth_time_of r (some user) = get_or user.last_authenticated_at r.date_now

abbrev pub identify_user : IdentityUserRow → M (Unit {0})
identify_user user =
    identify
      (record { id = user.id; email = user.email; name = user.name; is_identity_user = true })

abbrev pub identify_admin : AdminRow → M (Unit {0})
identify_admin admin =
    identify
      (record { id = admin.id; email = admin.email; name = admin.name; is_identity_user = false })

abbrev pub admin_claims : Runtime → AdminRow → Claims
admin_claims r admin =
    ("authometry_principal", some (str "admin"))
    ∷ ("workspace_id", some (str (r.uuid_text admin.workspace_id)))
    ∷ ("role", some (str admin.role))
    ∷ ("email", some (str admin.email))
    ∷ ("name", some (str admin.name))
    ∷ []

-- `SELECT * FROM identity_users WHERE id = $1`.
abbrev pub user_by_id : Uuid → Tables → Option IdentityUserRow
user_by_id id t = find (λ u. u.id == id) t.users

-- An admin that is not disabled, with its membership of the workspace.
abbrev pub admin_by_id : Uuid → Uuid → Tables → Option AdminRow
admin_by_id id workspace_id t =
    find (λ a. a.id == id && a.workspace_id == workspace_id && not (is_some a.disabled_at)) t.admins

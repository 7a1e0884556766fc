-- ===== src/Tests/FactorTests.antt =====
-- Policies, administrators and second factors at concrete values.
use authometry.Common.{
  ◌<◌, ◌≡◌, refl, true, false, not, none, some, [], ◌∷◌, arith, str_eq, includes,
}
use authometry.Common.Text.{upper_case, keep_codes, every_code, index_of, is_space, strip_prefix}
use authometry.Json.{Json, str, items}
use authometry.Database.{ok, World, Operator, PersonalTokenRow, AdminRow, Runtime, ◌>>=◌}
use authometry.Signing.{hash_token, random_token}
use authometry.Policy.{PolicyContext, evaluate_condition}
use authometry.Policy.Laws.{condition, condition-Meaning}
use authometry.Admin.{
  Browser, Principal, member, principal_of, create_csrf_token, csrf_signature, require_csrf,
  personal_token, is_live_token, find_personal_token, touch_personal_token, admin_by_token,
  admin_by, require_admin,
}
use authometry.Admin.Laws.{SignedIn, require_admin-SignedIn, require_csrf-create_csrf_token}
use authometry.Mfa.{
  base32_encode, base32_decode, totp_code, verify_totp, hotp, bits, bits_of, value_of, eights,
  places, normalized_secret, use_recovery_code,
}
use authometry.Mfa.Base32.{base32_decode-base32_encode}
use authometry.Mfa.Laws.{verify_totp-totp_code}
use authometry.Mfa.Recovery.{unused, use_recovery_code-unused}
use authometry.Tests.{tables, world_of, world, now}
use authometry.Tests.AuthorizeTests.{browser}

abbrev context : PolicyContext
context = record {
  environment = "production";
  user_groups = "staff" ∷ [];
  user_email = "ada@example.com";
  application_id = "uuid";
  application_slug = "client";
  application_type = "web";
  request_scopes = "read" ∷ [];
}

condition-Meaning_example :
    (evaluate_condition (condition "user.groups" Operator.contains (str "staff")) context
      ≡ includes context.user_groups "staff")
    × (evaluate_condition
          (condition "user.email" Operator.in_list (Json.arr (items ("ada@example.com" ∷ []))))
          context
        ≡ includes ("ada@example.com" ∷ []) context.user_email)
    × (evaluate_condition (condition "request.scopes" Operator.contains (str "staff")) context
        ≡ includes context.request_scopes "staff")
    × (evaluate_condition (condition "application.type" Operator.not_equals (str "staff")) context
        ≡ not (str_eq context.application_type "staff"))
condition-Meaning_example = condition-Meaning context "staff" ("ada@example.com" ∷ [])

-- The administrator is disabled: the personal access token passes all the same.
abbrev disabled_admin : AdminRow
disabled_admin = record {
  id = 3;
  email = "grace@example.com";
  name = "Grace";
  email_verified_at = none;
  disabled_at = some 500;
  workspace_id = 9;
  role = "owner";
}

abbrev access : PersonalTokenRow
access = record {
  admin_user_id = 3;
  workspace_id = 9;
  token_hash = "amt_1";
  scopes = "read" ∷ [];
  revoked_at = none;
  expires_at = none;
  last_used_at = none;
}

abbrev managed : World
managed = world_of (record tables { admins = disabled_admin ∷ []; personal_tokens = access ∷ [] })

abbrev script : Browser
script = record browser { authorization = some "Bearer amt_1" }

abbrev grace : Principal
grace = record {
  user_id = 3;
  email = "grace@example.com";
  workspace_id = 9;
  role = "owner";
  token_scopes = some ("read" ∷ []);
}

passed : (require_admin now script managed).0 ≡ ok grace
unfolding require_admin admin_by personal_token strip_prefix admin_by_token find_personal_token
    is_live_token member principal_of hash_token touch_personal_token ◌>>=◌
passed = refl

require_admin-SignedIn_example : SignedIn now script managed.committed grace
require_admin-SignedIn_example = require_admin-SignedIn now script managed grace passed

abbrev signing : Runtime
signing = record now { hmac_sha256 = λ key value. "signature" }

made : (create_csrf_token signing world).0 ≡ ok "fresh.signature"
unfolding create_csrf_token csrf_signature random_token ◌>>=◌
made = refl

require_csrf-create_csrf_token_example :
    require_csrf signing
      (record browser {
        csrf_cookie = some "fresh.signature";
        csrf_header = some "fresh.signature";
      })
      world
    ≡ (ok tt, world)
unfolding every_code
require_csrf-create_csrf_token_example =
    require_csrf-create_csrf_token signing browser "fresh.signature" world world refl refl
      (λ nonce. refl) (λ nonce. refl) made

base32_decode-base32_encode_example :
    base32_decode (base32_encode (72 ∷ 105 ∷ [])) ≡ some (72 ∷ 105 ∷ [])
base32_decode-base32_encode_example =
    base32_decode-base32_encode 72 (105 ∷ []) (omega arith) (omega arith, tt)

code_made : totp_code now "ABCDEFGH" 1000000 ≡ some (hotp now (0 ∷ 68 ∷ 50 ∷ 20 ∷ 199 ∷ []) 33)
unfolding totp_code base32_decode normalized_secret upper_case keep_codes is_space places index_of
    bits bits_of eights value_of
code_made = refl

verify_totp-totp_code_example :
    verify_totp now "ABCDEFGH" (hotp now (0 ∷ 68 ∷ 50 ∷ 20 ∷ 199 ∷ []) 33) 1020000 ≡ some true
verify_totp-totp_code_example =
    verify_totp-totp_code now "ABCDEFGH" (hotp now (0 ∷ 68 ∷ 50 ∷ 20 ∷ 199 ∷ []) 33) 1000000 1020000
      (omega arith) (omega arith) (omega arith) code_made

abbrev recoverable : World
recoverable = world_of (record tables {
  recovery_codes = record { id = 7; user_id = 5; code_hash = "aaaaa-bbbbb"; used_at = none } ∷ [];
})

use_recovery_code-unused_example :
    ((use_recovery_code now 5 "aaaaa-bbbbb" recoverable).0 ≡ ok true
      → unused now 5 "aaaaa-bbbbb" (use_recovery_code now 5 "aaaaa-bbbbb" recoverable).1.committed
        < unused now 5 "aaaaa-bbbbb" recoverable.committed)
    × (unused now 5 "aaaaa-bbbbb" recoverable.committed ≡ 0
        → use_recovery_code now 5 "aaaaa-bbbbb" recoverable ≡ (ok false, recoverable))
use_recovery_code-unused_example = use_recovery_code-unused now 5 "aaaaa-bbbbb" recoverable

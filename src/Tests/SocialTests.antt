-- ===== src/Tests/SocialTests.antt =====
-- A person who comes back from a social provider.
use authometry.Common.{◌≡◌, refl, true}
use authometry.Database.{ok, ◌>>=◌, transaction}
use authometry.Signing.{random_token}
use authometry.Common.Text.{lower_case, words, split}
use authometry.Authorize.{
  Opened, consent_page, consent_of, covers, update_request, is_mcp_authorization,
}
use authometry.Authorize.Login.{insert_identity}
use authometry.Authorize.Continue.{
  touch_user, new_session, insert_session, start_session, await_consent,
  continue_after_authentication,
}
use authometry.Authorize.Social.{
  SocialProfile, onward, link_page, linked_identity, new_user, new_link, insert_user, insert_link,
  user_by_email, as_existing, as_new, unlinked, settled, resolve_profile, land, with_profile,
}
use authometry.Authorize.Social.Laws.{Welcomed, with_profile-Welcomed}
use authometry.Tests.{client, now}
use authometry.Tests.AuthorizeTests.{pending, asked}

abbrev opened : Opened
opened = record { pending = pending; application = client }

abbrev newcomer : SocialProfile
newcomer = record {
  subject = "subject-7";
  email = "grace@example.com";
  name = "Grace";
  email_verified = true;
}

welcomed : (with_profile now opened "github" newcomer asked).0 ≡ ok (onward (consent_page "req-1"))
unfolding with_profile resolve_profile settled unlinked as_new linked_identity user_by_email
    lower_case new_user insert_user insert_identity land continue_after_authentication random_token
    start_session touch_user new_session insert_session update_request consent_of covers transaction
    is_mcp_authorization words split ◌>>=◌ await_consent
welcomed = refl

-- The account that has the email address and a password is not entered, but offered to be linked.
offered :
    (with_profile now opened "github" (record newcomer { email = "ada@example.com" }) asked).0
    ≡ ok (link_page "req-1" "fresh" "github")
unfolding with_profile resolve_profile settled unlinked as_existing linked_identity user_by_email
    lower_case new_link insert_link land random_token transaction ◌>>=◌
offered = refl

with_profile-Welcomed_example : Welcomed now opened "github" newcomer asked (consent_page "req-1")
with_profile-Welcomed_example =
    with_profile-Welcomed now opened "github" newcomer asked (consent_page "req-1") welcomed

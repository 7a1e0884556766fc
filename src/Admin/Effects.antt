-- ===== src/Admin/Effects.antt =====
-- What finding the administrator of a request writes.
use authometry.Common.{◌≡◌, String, Option, none, some, List}
use authometry.Database.{
  Uuid, AdminSessionRow, PersonalTokenRow, Tables, Runtime, Steady, Any, pure-Steady, throw-Steady,
  or_throw-Steady, pool_read-Steady, pool_write-Steady, throw_if-Steady, >>=-Steady, weaken-Steady,
  rescue-Steady, if-Steady,
}
use authometry.Admin.{
  renewed, Browser, Principal, require_csrf, touch_personal_token, admin_by_token, session_in,
  read_admin_refresh_session, renew_admin_session, admin_by_session, admin_by_cookies, admin_by,
  require_admin, nobody_if, optional_admin,
}

module _ (r : Runtime) {X : Type 0} (view : Tables → X) where
  -- A view of the tables that leaves the administrators' sessions and tokens out.
  abbrev pub IgnoresSessions : Type 0
  IgnoresSessions =
      (t : Tables) (sessions : List AdminSessionRow) (tokens : List PersonalTokenRow)
      → view (record t { admin_sessions = sessions; personal_tokens = tokens }) ≡ view t

  pub require_csrf-Steady : (b : Browser) → Steady view Any (require_csrf r b)
  unfolding require_csrf
  require_csrf-Steady b = weaken-Steady view Any _ (λ u h. tt) (throw_if-Steady view _ _)

  module _ (ignores : IgnoresSessions) where
    admin_by_token-Steady : (token : String) → Steady view Any (admin_by_token r token)
    unfolding admin_by_token touch_personal_token
    admin_by_token-Steady token =
        >>=-Steady view Any Any _ _ (pool_read-Steady view Any _ (λ t. tt)) λ found _.
          >>=-Steady view Any Any _ _ (or_throw-Steady view Any _ _ (λ p e. tt)) λ p _.
            >>=-Steady view Any Any _ _
              (pool_write-Steady view _ (λ t. ignores t t.admin_sessions _))
              λ u _. pure-Steady view Any _ tt

    session_in-Steady : (o : Option (Uuid × String)) → Steady view Any (session_in r o)
    unfolding session_in
    session_in-Steady none = pure-Steady view Any _ tt
    session_in-Steady (some (id, token)) = pool_read-Steady view Any _ (λ t. tt)

    admin_by_session-Steady : (b : Browser) → Steady view Any (admin_by_session r b)
    unfolding admin_by_session renewed read_admin_refresh_session renew_admin_session
    admin_by_session-Steady b = >>=-Steady view Any Any _ _ (session_in-Steady _) λ found _.
        >>=-Steady view Any Any _ _ (or_throw-Steady view Any _ _ (λ p e. tt)) λ session _.
          >>=-Steady view Any Any _ _
            (pool_write-Steady view _ (λ t. ignores t _ t.personal_tokens))
            λ u _. pure-Steady view Any _ tt

    admin_by_cookies-Steady :
        (b : Browser) (o : Option Principal) → Steady view Any (admin_by_cookies r b o)
    unfolding admin_by_cookies
    admin_by_cookies-Steady b (some principal) = pure-Steady view Any _ tt
    admin_by_cookies-Steady b none = admin_by_session-Steady b

    admin_by-Steady : (b : Browser) (o : Option String) → Steady view Any (admin_by r b o)
    unfolding admin_by
    admin_by-Steady b (some token) = admin_by_token-Steady token
    admin_by-Steady b none = admin_by_cookies-Steady b _

    -- Only sessions are renewed, and the last use of a personal access token is noted.
    pub optional_admin-Steady : (b : Browser) → Steady view Any (optional_admin r b)
    unfolding optional_admin require_admin nobody_if
    optional_admin-Steady b =
        rescue-Steady view Any _ _
          (>>=-Steady view Any Any _ _ (admin_by-Steady b _) λ p _. pure-Steady view Any _ tt)
          λ e. if-Steady view Any _ _ _ (pure-Steady view Any _ tt) (throw-Steady view Any e)

-- ===== src/Authorize/Login/Laws.antt =====
-- What a person who is signed in at `POST /authorize/login` has shown, and what a link changes.
use mathlib.Core.Path.{subst}
use authometry.Common.{
  filter_lem, ◌≡◌, refl, sym, ap, ◌∙◌, String, Option, none, some, Bool, true, not, arith,
  if◌then◌else◌,
}
use authometry.Database.{
  >>=-fail, pure, throw_if-ok, if-Steady, pure-Steady, IdentityUserRow, Tables, Runtime, World, ok,
  fail, >>=-ok, read-ok, required-ok, all_tables, Steady, Any,
}
use authometry.Signing.Effects.{needed-ok}
use authometry.Mfa.{verify_identity_mfa}
use authometry.Admin.{Browser}
use authometry.Admin.Effects.{require_csrf-Steady}
use authometry.Authorize.{Next, Opened, request_gone, filled, load_pending}
use authometry.Authorize.Requests.{
  Closed, Loaded, load_pending-Loaded, load_pending-Steady, Closed-load_pending,
}
use authometry.Authorize.Decide.{consent}
use authometry.Authorize.Decide.Laws.{consent-Closed}
use authometry.Authorize.Login.{
  invalid_credentials, LoginInput, login_user, matches, by_password, check_factor,
  check_second_factor, csrf_if, login_as, login,
}

module _ (r : Runtime) where
  -- The second factor of a user who has one, verified on these tables.
  abbrev pub FactorShown : IdentityUserRow → Option String → Tables → Type 0
  FactorShown user value t =
      user.mfa_enabled ≡ true
      → (code : String) × (w : World) × (filled value ≡ some code)
        × (w.committed ≡ t)
        × ((verify_identity_mfa r user.id user.mfa_totp_secret_encrypted code w).0 ≡ ok true)

  pub record SignedIn (input : LoginInput) (w : World) : Type 0 where
    pub opened : Opened
    pub user : IdentityUserRow
    pub loaded : Loaded r input.request_id w.committed opened
    pub known : login_user r opened.application.workspace_id input.email w.committed ≡ some user
    pub password : matches r input.password user.password_hash ≡ true
    pub factor : FactorShown user input.mfa_code w.committed

  by_password_lem :
      (password : String) (o : Option IdentityUserRow) (u : IdentityUserRow)
      → by_password r password o ≡ some u
      → (o ≡ some u) × (matches r password u.password_hash ≡ true)
  by_password_lem password none u h = absurd (cc)
  by_password_lem password (some v) u h =
      let (right, same) = filter_lem (matches r password v.password_hash) v u h in
      (ap some same, subst (λ x. matches r password x.password_hash ≡ true) same right)

  checked_lem :
      (user : IdentityUserRow) (o : Option String) (w : World) (u : Unit {0})
      → (check_factor r user o w).0 ≡ ok u
      → (code : String) × (o ≡ some code)
        × ((verify_identity_mfa r user.id user.mfa_totp_secret_encrypted code w).0 ≡ ok true)
  unfolding check_factor
  checked_lem user none w u h = absurd (cc)
  checked_lem user (some code) w u h =
      let m = verify_identity_mfa r user.id user.mfa_totp_secret_encrypted code in
      let (valid, verified, rest, end) = >>=-ok m _ w u h in
      let passed = throw_if-ok (not valid) _ (m w).1 u rest in
      (code, refl, subst (λ v. (m w).0 ≡ ok v) (ground arith) verified)

  factor_lem :
      (user : IdentityUserRow) (value : Option String) (w : World) (u : Unit {0})
      → (check_second_factor r user value w).0 ≡ ok u
      → FactorShown user value w.committed
  unfolding check_second_factor
  factor_lem user value w u h enabled =
      let (code, given, verified) = checked_lem user (filled value) w u (
        subst (λ b. ((if b then check_factor r user (filled value) else pure tt) w).0 ≡ ok u)
          enabled h) in
      (code, w, given, refl, verified)

  csrf_if-Steady : (mcp : Bool) (b : Browser) → Steady all_tables Any (csrf_if r mcp b)
  unfolding csrf_if
  csrf_if-Steady mcp b =
      if-Steady all_tables Any mcp _ _ (require_csrf-Steady r all_tables b)
        (pure-Steady all_tables Any _ tt)

  -- A login that is answered is on an open request, by an active user of the client's workspace with
  -- the email address and the password given, and, where the user has turned the second factor on,
  -- with a code that was verified for this user.
  pub login-SignedIn :
      (b : Browser) (input : LoginInput) (w : World) (next : Next)
      → (login r b input w).0 ≡ ok next
      → SignedIn input w
  unfolding login login_as
  login-SignedIn b input w next h =
      let (opened, loaded, rest, end) = >>=-ok (load_pending r input.request_id) _ w next h in
      let w1 = (load_pending r input.request_id w).1 in
      let (mcp, target, rest1) = needed-ok r _ w1 next _ _ rest in
      let (u, fine, rest2, end2) = >>=-ok (csrf_if r mcp b) _ w1 next rest1 in
      let w2 = (csrf_if r mcp b w1).1 in
      let rest3 =
        read-ok _ w2 next (login_user r opened.application.workspace_id input.email) rest2 in
      let (user, found, rest4) =
        required-ok _ w2 next
          (by_password r input.password
            (login_user r opened.application.workspace_id input.email w2.committed))
          invalid_credentials rest3 in
      let (known, password) = by_password_lem input.password _ user found in
      let (v, factor, rest5, end5) =
        >>=-ok (check_second_factor r user input.mfa_code) _ w2 next rest4 in
      let kept1 = ((load_pending-Steady r all_tables input.request_id).stays w).committed in
      let kept2 = ((csrf_if-Steady mcp b).stays w1).committed in
      let same : w2.committed ≡ w.committed = kept2 ∙ kept1 in
      record {
        opened = opened;
        user = user;
        loaded = load_pending-Loaded r input.request_id w opened loaded;
        known = ap (login_user r opened.application.workspace_id input.email) (sym same) ∙ known;
        password = password;
        factor =
            subst (FactorShown user input.mfa_code) same
              (factor_lem user input.mfa_code w2 v factor);
      }

  Closed-login :
      (b : Browser) (input : LoginInput) (w : World)
      → Closed input.request_id w.committed
      → login r b input w ≡ (fail request_gone, w)
  unfolding login
  Closed-login b input w c =
      >>=-fail (load_pending r input.request_id) _ w w request_gone
        (Closed-load_pending r input.request_id w c)

-- After a decision that was answered, no login on the request is answered either: it is refused,
-- and writes nothing.
pub login-consent :
    (r later : Runtime) (b b' : Browser) (input : LoginInput) (approved : Bool) (w : World)
    (next : Next)
    → (consent r b input.request_id approved w).0 ≡ ok next
    → let w' = (consent r b input.request_id approved w).1 in
      login later b' input w' ≡ (fail request_gone, w')
login-consent r later b b' input approved w next h =
    Closed-login later b' input _ (consent-Closed r b input.request_id approved w next h)

-- ===== src/Admin/Laws.antt =====
-- Who passes as an administrator, and which requests pass the check against forgery.
use mathlib.Core.Path.{subst}
use authometry.Common.{
  ◌≡◌, refl, sym, ap, ◌∙◌, String, Option, none, some, true, false, List, arith, Option-cases,
  Bool-cases, eq_iff, inl, inr, str_eq, eq_refl, truthy, is_some, filter_lem,
}
use authometry.Common.Text.{◌+s◌, split}
use authometry.Common.Text.Splitting.{Free, split-marker}
use authometry.Json.{Claims}
use authometry.Database.{
  Uuid, AdminRow, AdminSessionRow, PersonalTokenRow, Tables, Runtime, World, ok, ◌>>=◌, read-ok,
  required-ok, ok-injective, pool_write, >>=-ok,
}
use authometry.Signing.{hash_token, random_token}
use authometry.Admin.{
  renewed, named_in, session_with, touch_personal_token, Browser, Principal, member, principal_of,
  csrf_signature, create_csrf_token, valid_csrf_token, csrf_mismatch, require_csrf, personal_token,
  find_personal_token, token_principal, admin_by_token, access_principal, admin_by_access,
  RefreshSession, opened_envelope, enabled, session_of, find_session, session_in,
  read_admin_refresh_session, admin_by_session, admin_by_cookies, admin_by, require_admin,
  token_refused,
}

module _ (r : Runtime) where
  valid_csrf_token_lem :
      (nonce : String)
      → Free b'.' nonce
      → truthy nonce ≡ true
      → Free b'.' (csrf_signature r nonce)
      → truthy (csrf_signature r nonce) ≡ true
      → valid_csrf_token r (nonce +s "." +s csrf_signature r nonce) ≡ true
  unfolding valid_csrf_token
  valid_csrf_token_lem nonce free filled free_signature signed =
      let pieces = split-marker b'.' nonce "." (csrf_signature r nonce) free free_signature refl in
      rw pieces (ground (arith, filled, signed, eq_refl (csrf_signature r nonce)))

  valid_csrf_token-truthy : (v : String) → valid_csrf_token r v ≡ true → truthy v ≡ true
  unfolding valid_csrf_token split
  valid_csrf_token-truthy v h = elim (Bool-cases (truthy v)) [
    | inl filled ↦ filled
    | inr blank ↦
        let same : v ≡ "" = ground (arith, eq_iff v "") in
        let refused : valid_csrf_token r "" ≡ true =
          subst (λ s. valid_csrf_token r s ≡ true) same h in
        absurd (cc)
  ]

  accepted_lem :
      (v : String) → valid_csrf_token r v ≡ true → csrf_mismatch r (some v) (some v) ≡ false
  accepted_lem v h = ground (arith, h, valid_csrf_token-truthy v h, eq_refl v)

  -- A token that the server makes passes the check when the page sends it back, in its cookie and
  -- in the header. The nonce and the signature are texts in base64url: not empty, and without a dot.
  pub require_csrf-create_csrf_token :
      (b : Browser) (token : String) (w w' : World)
      → Free b'.' (r.random_bytes w.draws 24)
      → truthy (r.random_bytes w.draws 24) ≡ true
      → ((nonce : String) → Free b'.' (r.hmac_sha256 r.csrf_secret nonce))
      → ((nonce : String) → truthy (r.hmac_sha256 r.csrf_secret nonce) ≡ true)
      → (create_csrf_token r w).0 ≡ ok token
      → require_csrf r (record b { csrf_cookie = some token; csrf_header = some token }) w'
        ≡ (ok tt, w')
  unfolding create_csrf_token random_token require_csrf csrf_signature ◌>>=◌
  require_csrf-create_csrf_token b token w w' free filled free_signature signed h =
      let nonce = r.random_bytes w.draws 24 in
      let valid = valid_csrf_token_lem nonce free filled (free_signature nonce) (signed nonce) in
      let fits =
        accepted_lem token
          (subst (λ v. valid_csrf_token r v ≡ true) (ok-injective _ token h) valid) in
      ground (arith, fits)

  -- Who a personal access token, an access cookie or a refresh session names.
  pub data SignedIn (b : Browser) (t : Tables) (p : Principal) : Type 0 where
    by_token :
        (token : String) (row : PersonalTokenRow) (a : AdminRow)
        → personal_token r b ≡ some token
        → find_personal_token r (hash_token r token) t ≡ some row
        → member row.admin_user_id row.workspace_id t ≡ some a
        → p ≡ principal_of a (some row.scopes)
        → SignedIn b t p
    by_access :
        (cookie : String) (claims : Claims)
        → b.admin_access ≡ some cookie
        → r.verify_admin_access cookie ≡ some claims
        → access_principal r claims ≡ some p
        → SignedIn b t p
    by_session :
        (id : Uuid) (token : String) (row : AdminSessionRow) (a : AdminRow)
        → opened_envelope r b.admin_refresh ≡ some (id, token)
        → find_session r id t ≡ some row
        → str_eq row.token_hash (hash_token r token) ≡ true
        → member row.admin_user_id row.workspace_id t ≡ some a
        → is_some a.disabled_at ≡ false
        → p ≡ principal_of a none
        → SignedIn b t p

  named_lem :
      (o : Option AdminRow) (scopes : List String) (p : Principal)
      → named_in r o scopes ≡ some p
      → (a : AdminRow) × (o ≡ some a) × (p ≡ principal_of a (some scopes))
  named_lem none scopes p h = absurd (cc)
  named_lem (some a) scopes p h = (a, refl, sym (filter_lem true _ p h).1)

  enabled_lem :
      (o : Option AdminRow) (a : AdminRow)
      → enabled r o ≡ some a
      → (o ≡ some a) × (is_some a.disabled_at ≡ false)
  enabled_lem none a h = absurd (cc)
  enabled_lem (some b) a h = ground arith

  session_lem :
      (id : Uuid) (token : String) (row : AdminSessionRow) (o : Option AdminRow)
      (s : RefreshSession r)
      → session_with r id token row o ≡ some s
      → (a : AdminRow) × (o ≡ some a)
        × (str_eq row.token_hash (hash_token r token) ≡ true)
        × (s.principal ≡ principal_of a none)
  session_lem id token row none s h = absurd (cc)
  session_lem id token row (some a) s h =
      let (same, made) = filter_lem (str_eq row.token_hash (hash_token r token)) _ s h in
      (a, refl, same, sym (ap (λ (x : RefreshSession r). x.principal) made))

  module _ (b : Browser) (t : Tables) where
    token-SignedIn :
        (token : String) (o : Option PersonalTokenRow) (p : Principal)
        → personal_token r b ≡ some token
        → find_personal_token r (hash_token r token) t ≡ o
        → token_principal r t o ≡ some p
        → SignedIn b t p
    token-SignedIn token none p given found h = absurd (cc)
    token-SignedIn token (some row) p given found h =
        let (a, joined, named) =
          named_lem (member row.admin_user_id row.workspace_id t) row.scopes p h in
        by_token token row a given found joined named

    session-SignedIn :
        (id : Uuid) (token : String) (o : Option AdminSessionRow) (s : RefreshSession r)
        → opened_envelope r b.admin_refresh ≡ some (id, token)
        → find_session r id t ≡ o
        → session_of r id token o t ≡ some s
        → SignedIn b t s.principal
    session-SignedIn id token none s given found h = absurd (cc)
    session-SignedIn id token (some row) s given found h =
        let (a, on, same, named) = session_lem id token row _ s h in
        let (joined, active) = enabled_lem (member row.admin_user_id row.workspace_id t) a on in
        by_session id token row a given found same joined active named

    access-SignedIn :
        (o : Option String) (p : Principal)
        → b.admin_access ≡ o
        → admin_by_access r o ≡ some p
        → SignedIn b t p
    unfolding admin_by_access
    access-SignedIn none p given h = absurd (cc)
    access-SignedIn (some cookie) p given h = elim (Option-cases (r.verify_admin_access cookie)) [
      | inl invalid ↦ absurd (ground arith)
      | inr (claims, verified) ↦ by_access cookie claims given verified (ground arith)
    ]

  admin_by_token-SignedIn :
      (b : Browser) (token : String) (w : World) (p : Principal)
      → personal_token r b ≡ some token
      → (admin_by_token r token w).0 ≡ ok p
      → SignedIn b w.committed p
  unfolding admin_by_token
  admin_by_token-SignedIn b token w p given h =
      let t = w.committed in
      let found = find_personal_token r (hash_token r token) t in
      let rest = read-ok _ w p _ h in
      let (q, known, rest') = required-ok _ w p (token_principal r t found) token_refused rest in
      let (u, written, done, end) =
        >>=-ok (pool_write (touch_personal_token r (hash_token r token))) _ w p rest' in
      subst (SignedIn b t) (ok-injective q p done)
        (token-SignedIn b t token found q given refl known)

  renewed-ok :
      (o : Option (RefreshSession r)) (w : World) (p : Principal)
      → (renewed r o w).0 ≡ ok p
      → (s : RefreshSession r) × (o ≡ some s) × (s.principal ≡ p)
  unfolding renewed ◌>>=◌
  renewed-ok none w p h = absurd (cc)
  renewed-ok (some s) w p h = (s, refl, ok-injective s.principal p h)

  session_in-SignedIn :
      (b : Browser) (o : Option (Uuid × String)) (w : World) (p : Principal)
      → opened_envelope r b.admin_refresh ≡ o
      → ((session_in r o >>= renewed r) w).0 ≡ ok p
      → SignedIn b w.committed p
  unfolding session_in ◌>>=◌
  session_in-SignedIn b none w p given h =
      let (s, missing, named) = renewed-ok none w p h in absurd (cc)
  session_in-SignedIn b (some (id, token)) w p given h =
      let t = w.committed in
      let (s, found, named) = renewed-ok (session_of r id token (find_session r id t) t) w p h in
      subst (SignedIn b t) named
        (session-SignedIn b t id token (find_session r id t) s given refl found)

  admin_by_session-SignedIn :
      (b : Browser) (w : World) (p : Principal)
      → (admin_by_session r b w).0 ≡ ok p
      → SignedIn b w.committed p
  unfolding admin_by_session read_admin_refresh_session
  admin_by_session-SignedIn b w p h =
      session_in-SignedIn b (opened_envelope r b.admin_refresh) w p refl h

  cookies-SignedIn :
      (b : Browser) (o : Option Principal) (w : World) (p : Principal)
      → admin_by_access r b.admin_access ≡ o
      → (admin_by_cookies r b o w).0 ≡ ok p
      → SignedIn b w.committed p
  unfolding admin_by_cookies
  cookies-SignedIn b (some q) w p given h =
      access-SignedIn b w.committed b.admin_access p refl (given ∙ ap some (ok-injective q p h))
  cookies-SignedIn b none w p given h = admin_by_session-SignedIn b w p h

  admin-SignedIn :
      (b : Browser) (o : Option String) (w : World) (p : Principal)
      → personal_token r b ≡ o
      → (admin_by r b o w).0 ≡ ok p
      → SignedIn b w.committed p
  unfolding admin_by
  admin-SignedIn b (some token) w p given h = admin_by_token-SignedIn b token w p given h
  admin-SignedIn b none w p given h = cookies-SignedIn b _ w p refl h

  -- Whoever passes as an administrator holds a personal access token that is neither revoked nor
  -- expired, of a member of its workspace; or an access cookie that was verified, of the right type
  -- and with a subject; or the token of a refresh session that is neither rotated, revoked nor
  -- expired, of a member who is not disabled.
  pub require_admin-SignedIn :
      (b : Browser) (w : World) (p : Principal)
      → (require_admin r b w).0 ≡ ok p
      → SignedIn b w.committed p
  unfolding require_admin
  require_admin-SignedIn b w p h = admin-SignedIn b (personal_token r b) w p refl h

-- ===== src/Authorize/Decide/Laws.antt =====
-- A decision closes its request.
use mathlib.Core.Path.{subst}
use authometry.Common.{◌≡◌, refl, sym, ap, ◌∙◌, String, Option, none, some, Bool, true, false, List}
use authometry.Database.{
  Uuid, AdminRow, PendingAuthorizationRow, Tables, Runtime, World, ok, fail, Steady, Any,
  pure-Steady, throw-Steady, or_throw-Steady, pool_read-Steady, pool_write-Steady, >>=-Steady,
  if-Steady, >>=-ok, >>=-fail, all_tables,
}
use authometry.Signing.Effects.{or_panic-Steady}
use authometry.Admin.{Browser}
use authometry.Admin.Effects.{require_csrf-Steady, optional_admin-Steady}
use authometry.Authorize.{Next, Opened, request_gone, load_pending, request_by_id}
use authometry.Authorize.Requests.{
  Closed, load_pending-Steady, load_pending-Loaded, Closed-load_pending,
}
use authometry.Authorize.Closing.{
  Closing, >>=-Closing, Closes-Closed, refuse-Closing, redirect-Closing, mcp-Closing,
}
use authometry.Authorize.Decide.{
  grant_consent, grant_admin_consent, reviewing_admin, reviewer, approve_as_admin, named_user,
  approve, decide, consent,
}

module _ (r : Runtime) where
  abbrev requests : Tables → List PendingAuthorizationRow
  requests t = t.pending

  reviewing_admin-Steady :
      (b : Browser) (opened : Opened) → Steady requests Any (reviewing_admin r b opened)
  unfolding reviewing_admin
  reviewing_admin-Steady b opened =
      >>=-Steady requests Any Any _ _ (require_csrf-Steady r requests b) λ u _.
        >>=-Steady requests Any Any _ _
          (optional_admin-Steady r requests (λ t sessions tokens. refl) b)
          λ found _.
            >>=-Steady requests Any Any _ _ (or_throw-Steady requests Any _ _ (λ p e. tt)) λ p _.
              >>=-Steady requests Any Any _ _ (pool_read-Steady requests Any _ (λ t. tt))
                λ row _. or_throw-Steady requests Any _ _ (λ a e. tt)

  reviewer-Steady :
      (b : Browser) (opened : Opened) (mcp : Bool) → Steady requests Any (reviewer r b opened mcp)
  unfolding reviewer
  reviewer-Steady b opened mcp =
      if-Steady requests Any mcp _ _
        (>>=-Steady requests Any Any _ _ (reviewing_admin-Steady b opened)
          λ a _. pure-Steady requests Any _ tt)
        (pure-Steady requests Any _ tt)

  named_user-Steady : (o : Option Uuid) → Steady requests Any (named_user r o)
  named_user-Steady none = throw-Steady requests Any _
  named_user-Steady (some id) = pool_read-Steady requests Any _ (λ t. tt)

  approve-Closing : (opened : Opened) → Closing opened.pending (approve r opened)
  unfolding approve grant_consent
  approve-Closing opened = >>=-Closing opened.pending _ _ (named_user-Steady _) λ row.
      >>=-Closing opened.pending _ _ (or_throw-Steady requests Any _ _ (λ u e. tt)) λ user.
        >>=-Closing opened.pending _ _ (pool_write-Steady requests _ (λ t. refl))
          λ u. redirect-Closing opened.pending r opened.application user

  approve_as_admin-Closing :
      (opened : Opened) (a : AdminRow) → Closing opened.pending (approve_as_admin r opened a)
  unfolding approve_as_admin grant_admin_consent
  approve_as_admin-Closing opened a =
      >>=-Closing opened.pending _ _ (or_panic-Steady r requests _ _) λ resource.
        >>=-Closing opened.pending _ _ (pool_write-Steady requests _ (λ t. refl))
          λ u. mcp-Closing opened.pending r opened.application a

  decide-Closing :
      (opened : Opened) (admin : Option AdminRow) (approved : Bool)
      → Closing opened.pending (decide r opened admin approved)
  unfolding decide
  decide-Closing opened (some a) true = approve_as_admin-Closing opened a
  decide-Closing opened none true = approve-Closing opened
  decide-Closing opened (some a) false = refuse-Closing opened.pending r
  decide-Closing opened none false = refuse-Closing opened.pending r

  -- A decision that is answered, for or against, by a user or by an administrator, leaves the
  -- request closed: completed, or denied by the person or by a policy.
  pub consent-Closed :
      (b : Browser) (id : String) (approved : Bool) (w : World) (next : Next)
      → (consent r b id approved w).0 ≡ ok next
      → Closed id (consent r b id approved w).1.committed
  unfolding consent
  consent-Closed b id approved w next h =
      let (opened, loaded, rest, end) = >>=-ok (load_pending r id) _ w next h in
      let w1 = (load_pending r id w).1 in
      let found = (load_pending-Loaded r id w opened loaded).found in
      let closing = >>=-Closing opened.pending _ _ (or_panic-Steady r requests _ _) λ mcp.
        >>=-Closing opened.pending _ _ (reviewer-Steady b opened mcp)
          λ admin. decide-Closing opened admin approved in
      let c = closing w1 next rest in
      let kept = ((load_pending-Steady r all_tables id).stays w).committed in
      subst (Closed id) (sym (ap (λ w'. w'.committed) end))
        (Closes-Closed opened.pending id w1.committed _ (ap (request_by_id id) kept ∙ found) c)

  Closed-consent :
      (b : Browser) (id : String) (approved : Bool) (w : World)
      → Closed id w.committed
      → consent r b id approved w ≡ (fail request_gone, w)
  unfolding consent
  Closed-consent b id approved w c =
      >>=-fail (load_pending r id) _ w w request_gone (Closed-load_pending r id w c)

-- After a decision that was answered, another decision on the same request, whoever sends it,
-- whatever it says and whenever, is refused and writes nothing.
pub consent-consent :
    (r later : Runtime) (b b' : Browser) (id : String) (approved approved' : Bool) (w : World)
    (next : Next)
    → (consent r b id approved w).0 ≡ ok next
    → let w' = (consent r b id approved w).1 in
      consent later b' id approved' w' ≡ (fail request_gone, w')
consent-consent r later b b' id approved approved' w next h =
    Closed-consent later b' id approved' _ (consent-Closed r b id approved w next h)

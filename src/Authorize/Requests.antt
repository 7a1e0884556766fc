-- ===== src/Authorize/Requests.antt =====
-- Authorization requests that are open, and those that are closed for good.
use mathlib.Core.Path.{subst}
use authometry.Common.{
  ◌≡◌, ap, String, Option, none, some, true, false, arith, ◌==◌, str_eq, ltb, find-update_where,
}
use authometry.Database.{
  PendingAuthorizationRow, Tables, Runtime, World, ok, fail, ◌>>=◌, Steady, Any, pool_read-Steady,
  or_throw-Steady, pure-Steady, >>=-Steady, read-ok, required-ok, ok-injective,
}
use authometry.Client.{application_of, find_application_by_client_id}
use authometry.Authorize.{
  Opened, request_gone, is_closed, open_request, load_pending, request_by_id, update_request,
}

-- The request that the table knows by this identifier was completed or denied, or has expired.
pub record Closed (id : String) (t : Tables) : Type 0 where
  pub row : PendingAuthorizationRow
  pub found : request_by_id id t ≡ some row
  pub closed : is_closed row.status ≡ true

module _ (r : Runtime) where
  pub load_pending-Steady :
      {X : Type 0} (view : Tables → X) (id : String) → Steady view Any (load_pending r id)
  unfolding load_pending find_application_by_client_id
  load_pending-Steady view id =
      >>=-Steady view Any Any _ _ (pool_read-Steady view Any _ (λ t. tt)) λ row _.
        >>=-Steady view Any Any _ _ (or_throw-Steady view Any _ _ (λ p e. tt)) λ p _.
          >>=-Steady view Any Any _ _ (pool_read-Steady view Any _ (λ t. tt)) λ found _.
            >>=-Steady view Any Any _ _ (or_throw-Steady view Any _ _ (λ a e. tt))
              λ a _. pure-Steady view Any _ tt

  -- What a request that is loaded is.
  pub record Loaded (id : String) (t : Tables) (opened : Opened) : Type 0 where
    pub found : request_by_id id t ≡ some opened.pending
    pub still_open : is_closed opened.pending.status ≡ false
    pub in_time : ltb opened.pending.expires_at r.date_now ≡ false
    pub known : application_of opened.pending.parameters.client_id t ≡ some opened.application

  open_request_lem :
      (o : Option PendingAuthorizationRow) (p : PendingAuthorizationRow)
      → open_request r o ≡ some p
      → (o ≡ some p) × (is_closed p.status ≡ false) × (ltb p.expires_at r.date_now ≡ false)
  open_request_lem none p h = absurd (cc)
  open_request_lem (some q) p h = ground arith

  pub load_pending-Loaded :
      (id : String) (w : World) (opened : Opened)
      → (load_pending r id w).0 ≡ ok opened
      → Loaded id w.committed opened
  unfolding load_pending find_application_by_client_id
  load_pending-Loaded id w opened h =
      let rest = read-ok _ w opened (request_by_id id) h in
      let (p, known, rest') = required-ok _ w opened (open_request r _) _ rest in
      let (found, unclosed, in_time) = open_request_lem _ p known in
      let rest'' = read-ok _ w opened (application_of p.parameters.client_id) rest' in
      let (a, registered, made) = required-ok _ w opened _ _ rest'' in
      let same = ok-injective (record { pending = p; application = a }) opened made in
      subst (Loaded id w.committed) same
        (record { found = found; still_open = unclosed; in_time = in_time; known = registered })

  -- A closed request is not found again, and nothing is written.
  pub Closed-load_pending :
      (id : String) (w : World)
      → Closed id w.committed
      → load_pending r id w ≡ (fail request_gone, w)
  unfolding load_pending ◌>>=◌
  Closed-load_pending id w c = ground (arith, c.found, c.closed)

-- The request that was found is still found after an update by its key that keeps its identifier.
pub update_request-found :
    (id : String) (t : Tables) (p : PendingAuthorizationRow)
    (f : PendingAuthorizationRow → PendingAuthorizationRow)
    → ((q : PendingAuthorizationRow) → (f q).request_id ≡ q.request_id)
    → request_by_id id t ≡ some p
    → request_by_id id (update_request p.id f t) ≡ some (f p)
unfolding request_by_id update_request
update_request-found id t p f keeps h =
    let moved =
      find-update_where (λ q. str_eq q.request_id id) (λ q. q.id == p.id) f
        (λ q. ap (λ s. str_eq s id) (keeps q)) t.pending in
    ground (arith, moved)

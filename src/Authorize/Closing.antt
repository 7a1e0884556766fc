-- ===== src/Authorize/Closing.antt =====
-- Actions that close the authorization request that they answer.
use authometry.Common.{◌≡◌, refl, ap, ◌∙◌, String, some, true, List, ◌==◌, update_where}
use authometry.Database.{
  PendingStatus, OAuthApplicationRow, IdentityUserRow, AdminRow, PendingAuthorizationRow, Tables,
  Runtime, World, M, ◌>>=◌, ok, Steady, Any, transaction, >>=-ok,
}
use authometry.Signing.Effects.{random_token-Steady, or_panic-Steady}
use authometry.Endpoint.Token.{record_application_usage}
use authometry.Authorize.{Next, is_closed, request_by_id, update_request}
use authometry.Authorize.Issue.{
  authorization_redirect, insert_code, issue_admin_code, mcp_authorization_redirect,
}
use authometry.Authorize.Issue.Laws.{
  Answered, refused, issued, completed_by, authorization_redirect-Answered,
}
use authometry.Authorize.Requests.{Closed, update_request-found}
use authometry.Authorize.Decide.{refuse}

-- The rows of the request were updated, and are closed.
pub record Closes (pending : PendingAuthorizationRow) (before after : List PendingAuthorizationRow)
    : Type 0 where
  pub change : PendingAuthorizationRow → PendingAuthorizationRow
  pub keeps : (q : PendingAuthorizationRow) → (change q).request_id ≡ q.request_id
  pub closes : (q : PendingAuthorizationRow) → is_closed (change q).status ≡ true
  pub rows : after ≡ update_where (λ q. q.id == pending.id) change before

-- Every result of the action comes after closing the request.
abbrev pub Closing : PendingAuthorizationRow → M Next → Type 0
Closing pending m =
    (w : World) (next : Next)
    → (m w).0 ≡ ok next
    → Closes pending w.committed.pending (m w).1.committed.pending

module _ (pending : PendingAuthorizationRow) where
  -- What comes before may not touch the requests.
  pub >>=-Closing :
      {A : Type 0} (m : M A) (f : A → M Next)
      → Steady (λ t. t.pending) Any m
      → ((a : A) → Closing pending (f a))
      → Closing pending (m >>= f)
  >>=-Closing m f steady closing w next h =
      let (a, done, rest, end) = >>=-ok m f w next h in
      let c = closing a (m w).1 next rest in
      record {
        change = c.change;
        keeps = c.keeps;
        closes = c.closes;
        rows =
            ap (λ w'. w'.committed.pending) end
            ∙ c.rows
            ∙ ap (update_where (λ q. q.id == pending.id) c.change) (steady.stays w).committed;
      }

  -- The request that was found by its identifier is found closed.
  pub Closes-Closed :
      (id : String) (before after : Tables)
      → request_by_id id before ≡ some pending
      → Closes pending before.pending after.pending
      → Closed id after
  unfolding request_by_id update_request is_closed
  Closes-Closed id before after found c = record {
    row = c.change pending;
    found =
        ap (λ ps. request_by_id id (record after { pending = ps })) c.rows
        ∙ update_request-found id before pending c.change c.keeps found;
    closed = c.closes pending;
  }

  pub refuse-Closing : (r : Runtime) → Closing pending (refuse r pending)
  unfolding refuse transaction ◌>>=◌ update_request is_closed
  refuse-Closing r w next h = record {
    change = λ q. record q { status = PendingStatus.denied };
    keeps = λ q. refl;
    closes = λ q. refl;
    rows = refl;
  }

  Answered-Closes :
      (r : Runtime) (a : OAuthApplicationRow) (user : IdentityUserRow) (before after : Tables)
      (next : Next)
      → Answered r pending a user before after next
      → Closes pending before.pending after.pending
  unfolding is_closed update_request
  Answered-Closes r a user before after next (refused q found closed) = record {
    change = λ q'. record q' { status = PendingStatus.denied };
    keeps = λ q'. refl;
    closes = λ q'. refl;
    rows = ap (λ t. t.pending) closed;
  }
  Answered-Closes r a user before after next (issued code allowed stored) = record {
    change = completed_by r pending a user.id;
    keeps = λ q. refl;
    closes = λ q. refl;
    rows = stored.requests;
  }

  pub redirect-Closing :
      (r : Runtime) (a : OAuthApplicationRow) (user : IdentityUserRow)
      → Closing pending (authorization_redirect r pending a user)
  redirect-Closing r a user w next h =
      Answered-Closes r a user w.committed _ next
        (authorization_redirect-Answered r pending a user w next h)

  admin_code-Closes :
      (r : Runtime) (a : OAuthApplicationRow) (admin : AdminRow) (code resource : String)
      (next : Next)
      → Closing pending (
          transaction (issue_admin_code r pending a admin code resource) >>= λ _.
          (λ w. (ok next, w)))
  unfolding transaction ◌>>=◌ issue_admin_code insert_code update_request is_closed
      record_application_usage
  admin_code-Closes r a admin code resource next w next' h = record {
    change = λ q. record q { status = PendingStatus.completed; admin_user_id = some admin.id };
    keeps = λ q. refl;
    closes = λ q. refl;
    rows = refl;
  }

  pub mcp-Closing :
      (r : Runtime) (a : OAuthApplicationRow) (admin : AdminRow)
      → Closing pending (mcp_authorization_redirect r pending a admin)
  unfolding mcp_authorization_redirect
  mcp-Closing r a admin = >>=-Closing _ _ (random_token-Steady r _ 32) λ code.
      >>=-Closing _ _ (or_panic-Steady r _ _ _)
        λ resource. admin_code-Closes r a admin code resource _

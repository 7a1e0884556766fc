-- ===== src/Authorize/Issue/Laws.antt =====
-- What an authorization request that is answered with a code has stored.
use mathlib.Core.Path.{subst}
use authometry.Common.{
  ◌≡◌, refl, sym, ap, ◌∙◌, String, Option, none, some, List, [], ◌∷◌, ◌++◌, ◌==◌, ◌+◌, get_or,
  update_where,
}
use authometry.Database.{
  Uuid, OAuthApplicationRow, IdentityUserRow, AuthorizationParameters, PendingStatus,
  PendingAuthorizationRow, AuthorizationCodeRow, AgentAuthorizationDetails, DelegationGrantRow,
  Tables, Runtime, World, ok, ◌>>=◌, ◌>>◌, pure, transaction, Steady, Any, pure-Steady,
  or_throw-Steady, client_write-Steady, Quiet-Steady, draw-Quiet, >>=-Steady, >>=-ok,
  transaction-ok, ok-injective, PolicyRow,
}
use authometry.Signing.{random_token}
use authometry.Agents.Effects.{find_agent_for_client-Steady}
use authometry.Endpoint.Token.{record_application_usage}
use authometry.Authorize.{Next, with_error, with_code, filled, update_request}
use authometry.Authorize.Issue.Policies.{Allowed, denying_policy-Allowed}
use authometry.Authorize.Issue.{
  deny, denying_policy, insert_grant, create_delegation, delegate, user_code, insert_code,
  store_code, issue_code, with_new_code, answer_by, authorization_redirect,
}

module _ (r : Runtime) {X : Type 0} (view : Tables → X)
    (ignores : (t : Tables) (gs : List DelegationGrantRow)
      → view (record t { grants = gs }) ≡ view t)
    (a : OAuthApplicationRow) (user : IdentityUserRow) (p : AuthorizationParameters) where
  create_delegation-Steady :
      (agent_id resource : String) (details : List AgentAuthorizationDetails)
      → Steady view Any (create_delegation r a user p agent_id resource details)
  unfolding create_delegation insert_grant
  create_delegation-Steady agent_id resource details =
      >>=-Steady view Any Any _ _ (find_agent_for_client-Steady r view p.client_id) λ found _.
        >>=-Steady view Any Any _ _ (or_throw-Steady view Any _ _ (λ g e. tt)) λ agent _.
          >>=-Steady view Any Any _ _ (Quiet-Steady view Any draw-Quiet) λ n _.
            >>=-Steady view Any Any _ _ (client_write-Steady view _ (λ t. ignores t _))
              λ u _. pure-Steady view Any _ tt

  pub delegate-Steady :
      (agent_id resource : Option String) (details : Option (List AgentAuthorizationDetails))
      → Steady view Any (delegate r a user p agent_id resource details)
  unfolding delegate
  delegate-Steady none resource details = pure-Steady view Any _ tt
  delegate-Steady (some agent_id) none details = pure-Steady view Any _ tt
  delegate-Steady (some agent_id) (some resource) none = pure-Steady view Any _ tt
  delegate-Steady (some agent_id) (some resource) (some details) =
      create_delegation-Steady agent_id resource details

abbrev pub refusal : PendingAuthorizationRow → PolicyRow → Next
refusal pending q =
    with_error pending.parameters.redirect_uri "access_denied"
      (some (get_or q.message "Authorization policy denied the request."))
      (filled pending.parameters.state)

module _ (r : Runtime) (pending : PendingAuthorizationRow) (a : OAuthApplicationRow) where
  abbrev pub completed_by : Uuid → PendingAuthorizationRow → PendingAuthorizationRow
  completed_by user_id q = record q { status = PendingStatus.completed; user_id = some user_id }

  -- The tables after a code was issued: one new code, and the request completed.
  pub record Stored (user : IdentityUserRow) (code : String) (before after : Tables) : Type 0 where
    pub id : Uuid
    pub grant_id : Option Uuid
    pub codes :
        after.codes ≡ before.codes ++ user_code r a user pending.parameters id code grant_id ∷ []
    pub requests :
        after.pending ≡ update_where (λ q. q.id == pending.id) (completed_by user.id) before.pending

  store_code_lem :
      (user : IdentityUserRow) (code : String) (grant_id : Option Uuid) (w : World)
      → let made = (store_code r pending a user code grant_id w).1.draft in
        (made.codes
          ≡ w.draft.codes
            ++ user_code r a user pending.parameters (r.random_uuid w.draws) code grant_id ∷ [])
        × (made.pending
            ≡ update_where (λ q. q.id == pending.id) (completed_by user.id) w.draft.pending)
  unfolding ◌>>=◌ store_code insert_code update_request record_application_usage
  store_code_lem user code grant_id w = (refl, refl)

  issue_code-Stored :
      (user : IdentityUserRow) (code : String) (w : World)
      → (issue_code r pending a user code w).0 ≡ ok tt
      → Stored user code w.draft (issue_code r pending a user code w).1.draft
  unfolding issue_code
  issue_code-Stored user code w h =
      let p = pending.parameters in
      let m = delegate r a user p (filled p.agent_id) (filled p.resource) p.authorization_details in
      let (grant_id, delegated, rest, end) = >>=-ok m (store_code r pending a user code) w tt h in
      let stays =
        (delegate-Steady r (λ t. (t.codes, t.pending)) (λ t gs. refl) a user p (filled p.agent_id)
            (filled p.resource) p.authorization_details).stays
          w in
      let (codes, requests) = store_code_lem user code grant_id (m w).1 in
      let made = λ (ts : List AuthorizationCodeRow × List PendingAuthorizationRow).
        ts.0 ++ user_code r a user p (r.random_uuid (m w).1.draws) code grant_id ∷ [] in
      let moved = λ (ts : List AuthorizationCodeRow × List PendingAuthorizationRow).
        update_where (λ q. q.id == pending.id) (completed_by user.id) ts.1 in
      record {
        id = r.random_uuid (m w).1.draws;
        grant_id = grant_id;
        codes = ap (λ w'. w'.draft.codes) end ∙ codes ∙ ap made stays.draft;
        requests = ap (λ w'. w'.draft.pending) end ∙ requests ∙ ap moved stays.draft;
      }

  abbrev pub answer : String → Next
  answer code =
      with_code pending.parameters.redirect_uri code (filled pending.parameters.state) a.issuer

  -- The answer is made from the first random value, after the transaction.
  new_code_step :
      (user : IdentityUserRow) (w : World)
      → let code = r.random_bytes w.draws 32 in
        with_new_code r pending a user w
        ≡ (transaction (issue_code r pending a user code) >> pure (answer code))
            (record w { draws = w.draws + 1 })
  unfolding with_new_code random_token ◌>>=◌
  new_code_step user w = refl

  new_code-Stored :
      (user : IdentityUserRow) (w : World) (next : Next)
      → (with_new_code r pending a user w).0 ≡ ok next
      → let code = r.random_bytes w.draws 32 in
        (answer code ≡ next)
        × Stored user code w.committed (with_new_code r pending a user w).1.committed
  new_code-Stored user w next h =
      let code = r.random_bytes w.draws 32 in
      let step = new_code_step user w in
      let (u, done, sent, end) =
        >>=-ok (transaction (issue_code r pending a user code)) (λ _. pure (answer code))
          (record w { draws = w.draws + 1 }) next (sym (ap (λ p. p.0) step) ∙ h) in
      let (issued, kept) = transaction-ok (issue_code r pending a user code) _ u done in
      (
        ok-injective (answer code) next sent,
        subst (Stored user code w.committed)
            (sym (ap (λ p. p.1.committed) step ∙ ap (λ w'. w'.committed) end ∙ kept))
            (issue_code-Stored user code _ issued),
      )

  -- What an answer says of the tables before and after.
  pub data Answered (user : IdentityUserRow) (before after : Tables) : Next → Type 0 where
    refused :
        (q : PolicyRow)
        → denying_policy r a user pending.parameters before ≡ some q
        → after ≡ update_request pending.id (λ p. record p { status = PendingStatus.denied }) before
        → Answered user before after (refusal pending q)
    issued :
        (code : String)
        → Allowed r a user pending.parameters before
        → Stored user code before after
        → Answered user before after (answer code)

  deny_lem :
      (q : PolicyRow) (w : World) (next : Next)
      → (deny r pending q w).0 ≡ ok next
      → (refusal pending q ≡ next)
        × ((deny r pending q w).1.committed
            ≡ update_request pending.id
                (λ p. record p { status = PendingStatus.denied })
                w.committed)
  unfolding deny transaction ◌>>=◌
  deny_lem q w next h = (ok-injective (refusal pending q) next h, refl)

  redirect_step :
      (user : IdentityUserRow) (w : World)
      → authorization_redirect r pending a user w
        ≡ answer_by r pending a user (denying_policy r a user pending.parameters w.committed) w
  unfolding authorization_redirect ◌>>=◌
  redirect_step user w = refl

  answer_by-Answered :
      (user : IdentityUserRow) (w : World) (next : Next) (o : Option PolicyRow)
      → denying_policy r a user pending.parameters w.committed ≡ o
      → (answer_by r pending a user o w).0 ≡ ok next
      → Answered user w.committed (answer_by r pending a user o w).1.committed next
  unfolding answer_by
  answer_by-Answered user w next (some q) found h =
      let (sent, after) = deny_lem q w next h in
      subst (Answered user w.committed (deny r pending q w).1.committed) sent
        (refused q found after)
  answer_by-Answered user w next none found h =
      let (sent, stored) = new_code-Stored user w next h in
      subst (Answered user w.committed (with_new_code r pending a user w).1.committed) sent (
        issued (r.random_bytes w.draws 32)
          (denying_policy-Allowed r a user pending.parameters w.committed found) stored)

  -- An authorization that is answered is either refused by a policy that applies and does not
  -- allow it, which closes the request as denied and writes nothing else; or every policy that
  -- applies allows it, one new code of the request's parameters is stored, and the request is
  -- completed.
  pub authorization_redirect-Answered :
      (user : IdentityUserRow) (w : World) (next : Next)
      → (authorization_redirect r pending a user w).0 ≡ ok next
      → Answered user w.committed (authorization_redirect r pending a user w).1.committed next
  authorization_redirect-Answered user w next h =
      let step = redirect_step user w in
      subst (λ t. Answered user w.committed t next) (sym (ap (λ p. p.1.committed) step))
        (answer_by-Answered user w next _ refl (sym (ap (λ p. p.0) step) ∙ h))

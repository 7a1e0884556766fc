-- ===== src/Grant/Exchange/Laws.antt =====
-- What a token exchange checks before it writes the child grant, and what the child may do.
use authometry.Common.{
  ℕ, ◌+◌, ◌≡◌, refl, sym, ap, ◌∙◌, String, true, false, Option, none, some, [], ◌∷◌, ◌++◌, arith,
  ltb, every, ◌==◌, find, includes, All, str_eq, eq_iff, Option-cases, ◌&&◌, inl, inr,
}
use mathlib.Core.Path.{subst}
use authometry.Json.{Claims, string_claim, get_claim}
use authometry.Database.{
  guarded-ok, read-ok, required-ok, is_active, Any, Steady, pure-Steady, pool_read-Steady,
  identify-Steady, or_throw-Steady, throw_if-Steady, >>=-Steady, transaction, >>=-ok,
  transaction-ok, OAuthApplicationRow, AgentIdentityRow, DelegationGrantRow, Tables, Runtime, World,
  ok, ok-injective, ◌>>=◌,
}
use authometry.Agents.{
  agent_for_client, find_agent_for_client, find_agent_by_id, verify_agent_assertion,
  verify_dpop_proof, reduce_authorization_details,
}
use authometry.Signing.{verify_oauth_jwt}
use authometry.Agents.Effects.{
  find_agent_for_client-Steady, find_agent_by_id-Steady, verify_agent_assertion-Steady,
  verify_dpop_proof-Steady,
}
use authometry.Issue.{TokenSet}
use authometry.Issue.Laws.{issue_token_set-Steady}
use authometry.Signing.Effects.{verify_oauth_jwt-Steady}
use authometry.Agents.Laws.{IsCovered, reduce_authorization_details-IsCovered}
use authometry.Grant.Code.{is_live_grant}
use authometry.Grant.Exchange.{
  ExchangeRequest, Exchange, Child, find_parent, delegable, child_grant, delegate, receiver,
  exchange_inputs, issue_child, token_exchange_grant,
}

-- The child of a grant that an agent delegates, before and after in the tables.
pub record Attenuates (r : Runtime) (before after : Tables) (agent : AgentIdentityRow)
    (parent child : DelegationGrantRow) : Type 0 where
  pub delegator : AgentIdentityRow
  pub parent_stored : (id : String) × (find_parent r id before ≡ some (parent, delegator))
  pub live : is_live_grant parent.status ≡ true
  pub in_time : ltb parent.expires_at r.date_now ≡ false
  pub may_delegate : delegator.may_delegate ≡ true
  pub depth_left : ltb parent.delegation_depth delegator.maximum_delegation_depth ≡ true
  pub child_of : child.parent_grant_id ≡ some parent.id
  pub named : (n : ℕ) × (child.id ≡ r.random_uuid n)
  pub received_by : child.actor_agent_id ≡ agent.id
  pub deeper : child.delegation_depth ≡ parent.delegation_depth + 1
  pub same_subject : child.subject_user_id ≡ parent.subject_user_id
  pub same_resource : child.resource ≡ parent.resource
  pub same_expiry : child.expires_at ≡ parent.expires_at
  pub scopes_within : every (includes parent.scopes) child.scopes ≡ true
  pub resource_allowed : includes agent.allowed_resources child.resource ≡ true
  pub capable : every (includes agent.capabilities) child.scopes ≡ true
  pub reduced :
      child.authorization_details
      ≡ reduce_authorization_details parent.authorization_details child.scopes
  pub covered : All (IsCovered child.scopes) child.authorization_details
  pub stored : after.grants ≡ before.grants ++ child ∷ []

module _ (r : Runtime) (application : OAuthApplicationRow) (q : ExchangeRequest) where
  delegable-cases :
      (x : Exchange) (p : DelegationGrantRow × AgentIdentityRow) (parent : DelegationGrantRow)
      → delegable r application q x (some p) ≡ some parent
      → (p.0 ≡ parent)
        × (is_live_grant p.0.status ≡ true)
        × (ltb p.0.expires_at r.date_now ≡ false)
        × (p.1.may_delegate ≡ true)
        × (ltb p.0.delegation_depth p.1.maximum_delegation_depth ≡ true)
  delegable-cases x p parent h = ground arith

  delegate_lem :
      (x : Exchange) (w : World) (c : Child)
      → (delegate r application q x w).0 ≡ ok c
      → Attenuates r w.draft (delegate r application q x w).1.draft x.agent c.parent c.grant
  unfolding delegate child_grant ◌>>=◌
  delegate_lem x w c h =
      let id = string_claim (get_claim "authometry_grant_id" x.payload) in
      elim (Option-cases (find_parent r id w.draft)) [
        | inl missing ↦ absurd (ground arith)
        | inr (pair, found) ↦ elim (Option-cases (delegable r application q x (some pair))) [
          | inl refused ↦ absurd (ground arith)
          | inr (parent, met) ↦
              let checked = delegable-cases x pair parent met in
              let resource : str_eq q.resource parent.resource ≡ true = ground arith in
              let details = reduce_authorization_details parent.authorization_details q.scopes in
              let child = child_grant r application q x parent details (r.random_uuid w.draws) in
              let same : ok c ≡ ok (record { parent = parent; grant = child }) = ground arith in
              let made : Attenuates r w.draft (delegate r application q x w).1.draft x.agent parent
                  child =
                record {
                  delegator = pair.1;
                  parent_stored = (id, ground arith);
                  live = ground arith;
                  in_time = ground arith;
                  may_delegate = ground arith;
                  depth_left = ground arith;
                  child_of = refl;
                  named = (w.draws, refl);
                  received_by = refl;
                  deeper = refl;
                  same_subject = refl;
                  same_resource = ground (arith, eq_iff q.resource parent.resource);
                  same_expiry = refl;
                  scopes_within = ground arith;
                  resource_allowed = ground arith;
                  capable = ground arith;
                  reduced = refl;
                  covered = reduce_authorization_details-IsCovered _ q.scopes;
                  stored = ground arith;
                } in
              subst
                (λ (y : Child).
                  Attenuates r w.draft (delegate r application q x w).1.draft x.agent y.parent
                    y.grant)
                (sym (ok-injective _ _ same)) made
        ]
      ]

-- The tables without those that a token exchange writes besides the grants.
abbrev view : Tables → Tables
view t = record t { assertion_jtis = []; dpop_jtis = []; families = []; tokens = [] }

module _ (r : Runtime) (application : OAuthApplicationRow) (q : ExchangeRequest) where
  -- The agent that the actor token names as its issuer is registered in the client's environment,
  -- is active, and may receive delegations.
  pub record Receives (t : Tables) (agent : AgentIdentityRow) : Type 0 where
    pub actor : Claims
    pub decoded : r.decode_jwt q.actor_token ≡ some actor
    pub registered :
        find
          (λ g.
            g.environment_id == application.environment_id
            && str_eq g.agent_id (string_claim (get_claim "iss" actor)))
          t.agents
        ≡ some agent
    pub active : is_active agent.status ≡ true
    pub accepts : agent.may_receive_delegation ≡ true

  receiver_lem :
      (row : Option AgentIdentityRow) (a : AgentIdentityRow)
      → receiver row ≡ some a
      → (row ≡ some a) × (is_active a.status ≡ true) × (a.may_receive_delegation ≡ true)
  receiver_lem none a h = absurd (cc)
  receiver_lem (some g) a h = ground arith

  exchange_inputs-Receives :
      (w : World) (x : Exchange)
      → (exchange_inputs r application q w).0 ≡ ok x
      → Receives w.committed x.agent
  unfolding exchange_inputs find_agent_for_client find_agent_by_id
  exchange_inputs-Receives w x h =
      let (complete, s1) = guarded-ok _ _ _ w x h in
      let s2 = read-ok _ w x (agent_for_client application.client_id) s1 in
      let (requester, known, s3) = required-ok _ w x _ _ s2 in
      let (actor, decoded, s4) = required-ok _ w x (r.decode_jwt q.actor_token) _ s3 in
      let row =
        find
          (λ g.
            g.environment_id == application.environment_id
            && str_eq g.agent_id (string_claim (get_claim "iss" actor)))
          w.committed.agents in
      let s5 = read-ok _ w x _ s4 in
      let (agent, received, s6) = required-ok _ w x (receiver row) _ s5 in
      let (registered, active, accepts) = receiver_lem row agent received in
      let s7 = read-ok _ w x _ s6 in
      let (target, found, s8) = required-ok _ w x _ _ s7 in
      let (v, verified, s9, e1) = >>=-ok (verify_agent_assertion r _ _ _) _ w x s8 in
      let (payload, read, s10, e2) = >>=-ok (verify_oauth_jwt r _ _) _ _ x s9 in
      let (delegated, s11) = guarded-ok _ _ _ _ x s10 in
      let (jkt, bound, s12, e3) = >>=-ok (verify_dpop_proof r _ _ _) _ _ x s11 in
      subst (Receives w.committed) (ap (λ (y : Exchange). y.agent) (ok-injective _ x s12)) (record {
        actor = actor;
        decoded = decoded;
        registered = registered;
        active = active;
        accepts = accepts;
      })

  exchange_inputs-Steady : Steady view Any (exchange_inputs r application q)
  unfolding exchange_inputs
  exchange_inputs-Steady = >>=-Steady view _ Any _ _ (throw_if-Steady view _ _) λ u _.
      >>=-Steady view Any Any _ _ (find_agent_for_client-Steady r view _) λ requester_row _.
        >>=-Steady view Any Any _ _ (or_throw-Steady view Any _ _ (λ a e. tt)) λ requester _.
          >>=-Steady view Any Any _ _ (or_throw-Steady view Any _ _ (λ a e. tt)) λ actor _.
            >>=-Steady view Any Any _ _ (find_agent_by_id-Steady r view _ _) λ agent_row _.
              >>=-Steady view Any Any _ _ (or_throw-Steady view Any _ _ (λ a e. tt)) λ agent _.
                >>=-Steady view Any Any _ _ (pool_read-Steady view Any _ (λ t. tt)) λ row _.
                  >>=-Steady view Any Any _ _ (or_throw-Steady view Any row _ (λ a e. tt))
                    λ target _.
                      >>=-Steady view Any Any _ _
                        (verify_agent_assertion-Steady r view (λ t used proofs. refl) _ _ _)
                        λ v _.
                          >>=-Steady view Any Any _ _ (verify_oauth_jwt-Steady r view _ _)
                            λ payload _. >>=-Steady view _ Any _ _ (throw_if-Steady view _ _) λ z _.
                              >>=-Steady view Any Any _ _
                                (verify_dpop_proof-Steady r view (λ t used proofs. refl) _ _ _)
                                λ jkt _. pure-Steady view Any _ tt

  issue_child-Steady :
      (x : Exchange) (c : Child) → Steady view Any (issue_child r application q x c)
  unfolding issue_child
  issue_child-Steady x c =
      >>=-Steady view Any Any _ _ (pool_read-Steady view Any _ (λ t. tt)) λ row _.
        >>=-Steady view Any Any _ _ (or_throw-Steady view Any _ _ (λ a e. tt)) λ user _.
          >>=-Steady view Any Any _ _ (identify-Steady view _) λ u _.
            >>=-Steady view Any Any _ _ (issue_token_set-Steady r x.target _ view (λ t fs ks. refl))
              λ issued _. pure-Steady view Any _ tt

  -- A delegation that stays within what is stored of its parent before, read from other tables.
  Attenuates-view :
      (agent : AgentIdentityRow) (parent child : DelegationGrantRow) (before after s t : Tables)
      → view before ≡ view s
      → view after ≡ view t
      → Attenuates r s t agent parent child
      → Attenuates r before after agent parent child
  Attenuates-view agent parent child before after s t h k m =
      let (id, found) = m.parent_stored in
      record {
        delegator = m.delegator;
        parent_stored = (id, ap (find_parent r id) h ∙ found);
        live = m.live;
        in_time = m.in_time;
        may_delegate = m.may_delegate;
        depth_left = m.depth_left;
        child_of = m.child_of;
        named = m.named;
        received_by = m.received_by;
        deeper = m.deeper;
        same_subject = m.same_subject;
        same_resource = m.same_resource;
        same_expiry = m.same_expiry;
        scopes_within = m.scopes_within;
        resource_allowed = m.resource_allowed;
        capable = m.capable;
        reduced = m.reduced;
        covered = m.covered;
        stored =
            ap (λ (v : Tables). v.grants) k
            ∙ m.stored
            ∙ ap (λ (v : Tables). v.grants ++ child ∷ []) (sym h);
      }

  -- A token exchange that gives a token has added one grant, the last of the table, and no other: a
  -- child, for the agent that the actor token names and that is registered in the client's
  -- environment, active and allowed to receive it, of a stored grant that is live and in time and
  -- whose agent may delegate it once more. The child is of the same subject and resource, ends at
  -- the same time and is one level deeper; its resource is one of the agent's, its scopes are those
  -- of the parent and capabilities of the agent, and its details are the parent's, reduced to its
  -- scopes, so that every action they have is covered.
  pub exchange-Attenuates :
      (w : World) (t : TokenSet)
      → (token_exchange_grant r application q w).0 ≡ ok t
      → (agent : AgentIdentityRow) × (parent : DelegationGrantRow) × (child : DelegationGrantRow)
        × Receives w.committed agent
        × Attenuates r w.committed
            (token_exchange_grant r application q w).1.committed
            agent
            parent
            child
  unfolding token_exchange_grant
  exchange-Attenuates w t h =
      let (x, read, rest, end) = >>=-ok (exchange_inputs r application q) _ w t h in
      let inputs = exchange_inputs-Steady.stays w in
      let w1 = (exchange_inputs r application q w).1 in
      let (c, wrote, issued, end') =
        >>=-ok (transaction (delegate r application q x)) _ w1 t rest in
      let (worked, kept) = transaction-ok (delegate r application q x) w1 c wrote in
      let w2 = (transaction (delegate r application q x) w1).1 in
      let child = (issue_child-Steady x c).stays w2 in
      let made = delegate_lem r application q x (record w1 { draft = w1.committed }) c worked in
      (
        x.agent,
        c.parent,
        c.grant,
        exchange_inputs-Receives w x read,
        Attenuates-view x.agent c.parent c.grant _ _ _ _ (sym inputs.committed)
            (ap (λ (v : World). view v.committed) (end ∙ end') ∙ child.committed ∙ ap view kept)
            made,
      )

-- ===== src/Client/Authentication.antt =====
-- What a client that authenticates at the OAuth endpoints has shown.
use mathlib.Core.Path.{subst}
use authometry.Common.{
  ℕ, ◌≡◌, String, Bool, true, false, Option, none, some, arith, ◌&&◌, ◌==◌, str_eq, truthy, is_some,
  any, not, Option-cases, inl, inr,
}
use authometry.Common.Text.{◌+s◌}
use authometry.Database.{
  OAuthApplicationRow, AgentIdentityRow, AuthMethod, Tables, Runtime, World, is_active, ok, ◌>>=◌,
  Steady, Any, all_tables, weaken-Steady, >>=-ok, guarded-ok, required-ok, read-ok, ◌>>◌, pure,
  ok-injective, throw_if-Steady, >>=-Steady,
}
use authometry.Signing.Effects.{or_panic-Steady}
use authometry.Signing.{hash_token}
use authometry.Agents.{
  active_agent, agent_for_client, find_agent_for_client, checked_assertion, verify_agent_assertion,
}
use authometry.Client.{
  Request, param, application_of, find_application_by_client_id, active_application,
  assert_application_route, parse_basic_authorization, has_secret, check_secret, authenticate_by,
  client_id_of, secret_of, authenticate_client,
}

module _ (r : Runtime) where
  -- An assertion of the client's agent, not used before.
  pub record Asserts (assertion : String) (a : OAuthApplicationRow) (t : Tables) : Type 0 where
    pub agent : AgentIdentityRow
    pub jti : String
    pub exp : ℕ
    pub registered : active_agent (agent_for_client a.client_id t) ≡ some agent
    pub verified :
        checked_assertion r agent assertion (a.issuer +s "/oauth/token") ≡ some (jti, exp)
    pub fresh :
        any (λ j. j.agent_identity_id == agent.id && str_eq j.jti jti) t.assertion_jtis ≡ false

  -- What each method asks for; the flag says that HTTP Basic was used.
  abbrev pub Evidence : AuthMethod → Bool → String → Request → OAuthApplicationRow → Tables → Type 0
  Evidence AuthMethod.public_client basic secret request a t = truthy secret ≡ false
  Evidence AuthMethod.private_key_jwt basic secret request a t =
      Asserts (param "client_assertion" request) a t
  Evidence AuthMethod.client_secret_basic basic secret request a t =
      (basic ≡ true) × (has_secret r a.id (hash_token r secret) t ≡ true)
  Evidence AuthMethod.client_secret_post basic secret request a t =
      (basic ≡ false) × (has_secret r a.id (hash_token r secret) t ≡ true)

  -- An assertion of this agent, registered for the client and active, that was not used before.
  pub record Signs (assertion client_id audience : String) (t : Tables) (agent : AgentIdentityRow)
      : Type 0 where
    pub jti : String
    pub exp : ℕ
    pub registered : active_agent (agent_for_client client_id t) ≡ some agent
    pub verified : checked_assertion r agent assertion audience ≡ some (jti, exp)
    pub fresh :
        any (λ j. j.agent_identity_id == agent.id && str_eq j.jti jti) t.assertion_jtis ≡ false

  pub verify_agent_assertion-Signs :
      (assertion client_id audience : String) (w : World) (g : AgentIdentityRow)
      → (verify_agent_assertion r assertion client_id audience w).0 ≡ ok g
      → Signs assertion client_id audience w.committed g
  unfolding verify_agent_assertion find_agent_for_client ◌>>=◌
  verify_agent_assertion-Signs assertion client_id audience w g h =
      elim (Option-cases (active_agent (agent_for_client client_id w.committed))) [
        | inl missing ↦ absurd (ground arith)
        | inr (agent, registered) ↦
            elim (Option-cases (checked_assertion r agent assertion audience)) [
              | inl wrong ↦ absurd (ground arith)
              | inr ((jti, exp), verified) ↦
                  let same : ok agent ≡ ok g = ground arith in
                  let fresh : any (λ j. j.agent_identity_id == agent.id && str_eq j.jti jti)
                        w.committed.assertion_jtis
                      ≡ false =
                    ground arith in
                  subst (Signs assertion client_id audience w.committed) (ok-injective agent g same)
                    (record {
                      jti = jti;
                      exp = exp;
                      registered = registered;
                      verified = verified;
                      fresh = fresh;
                    })
            ]
      ]

  check_secret_lem :
      (a : OAuthApplicationRow) (secret : String) (w : World) (b : OAuthApplicationRow)
      → (check_secret r a secret w).0 ≡ ok b
      → (has_secret r a.id (hash_token r secret) w.committed ≡ true) × (ok a ≡ ok b)
  unfolding check_secret ◌>>=◌
  check_secret_lem a secret w b h = (ground arith, ground arith)

  evidence_lem :
      (method : AuthMethod) (basic : Bool) (secret : String) (request : Request)
      (a : OAuthApplicationRow) (w : World) (b : OAuthApplicationRow)
      → (authenticate_by r method basic secret request a w).0 ≡ ok b
      → Evidence method basic secret request a w.committed × (ok a ≡ ok b)
  unfolding authenticate_by
  evidence_lem AuthMethod.public_client basic secret request a w b h =
      guarded-ok (truthy secret) _ (pure a) w b h
  evidence_lem AuthMethod.private_key_jwt basic secret request a w b h =
      let (passed, rest) = guarded-ok _ _ (verify_agent_assertion r _ _ _ >> pure a) w b h in
      let (g, verified, returned, end) = >>=-ok (verify_agent_assertion r _ _ _) _ w b rest in
      let signs = verify_agent_assertion-Signs _ _ _ w g verified in
      (
        record {
          agent = g;
          jti = signs.jti;
          exp = signs.exp;
          registered = signs.registered;
          verified = signs.verified;
          fresh = signs.fresh;
        },
        returned,
      )
  evidence_lem AuthMethod.client_secret_basic basic secret request a w b h =
      let (passed, rest) = guarded-ok (not basic) _ (check_secret r a secret) w b h in
      let (known, same) = check_secret_lem a secret w b rest in ((ground arith, known), same)
  evidence_lem AuthMethod.client_secret_post basic secret request a w b h =
      let (passed, rest) = guarded-ok basic _ (check_secret r a secret) w b h in
      let (known, same) = check_secret_lem a secret w b rest in ((passed, known), same)

  pub route-Steady :
      {X : Type 0} (view : Tables → X) (a : OAuthApplicationRow) (request : Request)
      → Steady view Any (assert_application_route r a request)
  unfolding assert_application_route
  route-Steady view a request = >>=-Steady view Any Any _ _ (or_panic-Steady r view _ _) λ url _.
      >>=-Steady view Any Any _ _ (or_panic-Steady r view _ _)
        λ path _. weaken-Steady view Any _ (λ u h. tt) (throw_if-Steady view _ _)

  -- A client that the tables know, with what its method asks for.
  pub record Authentic (request : Request) (t : Tables) (a : OAuthApplicationRow) : Type 0 where
    pub registered : application_of (client_id_of r request) t ≡ some a
    pub active : is_active a.status ≡ true
    pub shown :
        Evidence a.token_endpoint_auth_method
          (is_some (parse_basic_authorization r request))
          (secret_of r request)
          request
          a
          t

  active_lem :
      (o : Option OAuthApplicationRow) (a : OAuthApplicationRow)
      → active_application o ≡ some a
      → (o ≡ some a) × (is_active a.status ≡ true)
  active_lem none a h = absurd (cc)
  active_lem (some b) a h = ground arith

  -- A client that authenticates is registered under the identifier it gave, in an active
  -- environment, and active, and has shown what its method asks for: no secret if it is public; a
  -- stored secret that is neither revoked nor expired, in the header or in the body as configured;
  -- or an unused assertion that its registered, active agent signed.
  pub authenticate_client-Authentic :
      (request : Request) (w : World) (a : OAuthApplicationRow)
      → (authenticate_client r request w).0 ≡ ok a
      → Authentic request w.committed a
  unfolding authenticate_client find_application_by_client_id
  authenticate_client-Authentic request w a h =
      let rest = read-ok _ w a (application_of (client_id_of r request)) h in
      let (b, known, rest') =
        required-ok _ w a (active_application (application_of (client_id_of r request) w.committed))
          _ rest in
      let (u, routed, rest'', end) = >>=-ok (assert_application_route r b request) _ w a rest' in
      let (found, active) = active_lem _ b known in
      let (shown, same) = evidence_lem b.token_endpoint_auth_method _ _ request b _ a rest'' in
      let kept = ((route-Steady all_tables b request).stays w).committed in
      subst (Authentic request w.committed) (ok-injective b a same) (record {
        registered = found;
        active = active;
        shown =
            subst
              (Evidence b.token_endpoint_auth_method (is_some (parse_basic_authorization r request))
                (secret_of r request) request b)
              kept shown;
      })

-- ===== src/Authorize/Push/Laws.antt =====
-- The authority of a pushed request.
use mathlib.Core.Path.{subst}
use authometry.Common.{
  ◌≡◌, refl, sym, ap, ◌∙◌, String, Option, none, some, Bool, true, false, not, List, [], ◌∷◌, ◌++◌,
  arith, ◌||◌, is_some, if◌then◌else◌, str_eq, eq_refl, includes, keep, length, ltb, All,
  filter_lem, not-false, or-right,
}
use authometry.Common.Text.{◌+s◌, words}
use authometry.Database.{
  OAuthApplicationRow, AuthorizationParameters, AgentIdentityRow, PushedRow, Tables, Runtime, World,
  ok, ◌>>=◌, Steady, pure-Steady, or_throw-Steady, >>=-Steady, >>=-ok, read-ok, required-ok,
  read_step, required_step, guarded_step, guarded-ok, ok-injective, all_tables,
}
use authometry.Signing.{random_id}
use authometry.Signing.Effects.{needed-ok, needed_step}
use authometry.Agents.{verify_agent_assertion, action_covered_by_scopes}
use authometry.Agents.Effects.{verify_agent_assertion-Steady}
use authometry.Client.{
  Request, application_of, find_application_by_client_id, active_application,
  assert_application_route,
}
use authometry.Client.Authentication.{Signs, verify_agent_assertion-Signs, route-Steady}
use authometry.Authorize.{filled, option_is}
use authometry.Authorize.PushedRequest.{parse_pushed}
use authometry.Authorize.Push.{
  PushAnswer, agent_assertion, only, capability_for, capabilities_for, actions_of, distinct,
  all_covered, details_given, granted_parameters, insert_pushed, pushed_row, store_pushed, assigned,
  push_scopes, push_for, push_request, par_unavailable, assertion_missing, resource_unassigned,
  no_delegation, beyond_capabilities,
}

module _ {ℓ κ} {A : Type ℓ} (P : A → Type κ) where
  All-keep : (p : A → Bool) (xs : List A) → All P xs → All P (keep p xs)
  All-keep p [] h = tt
  All-keep p (x ∷ xs) h = either (p x) x (keep p xs) h.0 (All-keep p xs h.1)
    where
      either :
          (b : Bool) (x : A) (rest : List A)
          → P x
          → All P rest
          → All P (if b then x ∷ rest else rest)
      either true x rest px ps = (px, ps)
      either false x rest px ps = ps

module _ (r : Runtime) where
  All-only :
      (P : String → Type 0) (xs : List String) (s : String) → All P xs → only r xs ≡ some s → P s
  All-only P [] s h e = absurd (cc)
  All-only P (x ∷ []) s h e = subst P (filter_lem true x s e).1 h.0
  All-only P (x ∷ (y ∷ xs)) s h e = absurd (cc)

  All-distinct : (P : String → Type 0) (ss : List String) → All P ss → All P (distinct r ss)
  unfolding distinct
  All-distinct P [] h = tt
  All-distinct P (s ∷ ss) h =
      (h.0, All-keep P (λ t. not (str_eq t s)) (distinct r ss) (All-distinct P ss h.1))

  module _ (g : AgentIdentityRow) where
    abbrev pub IsCapability : String → Type 0
    IsCapability s = includes g.capabilities s ≡ true

    own_members :
        (xs ys : List String)
        → ((s : String) → includes xs s ≡ true → includes ys s ≡ true)
        → All (λ s. includes ys s ≡ true) xs
    own_members [] ys h = tt
    own_members (x ∷ xs) ys h =
        (h x (ground (arith, eq_refl x)), own_members xs ys (λ s m. h s (ground arith)))

    capability_for-IsCapability :
        (asked : List String) (action s : String)
        → capability_for r g asked action ≡ some s
        → IsCapability s
    unfolding capability_for
    capability_for-IsCapability asked action s h =
        let p = λ (t : String). action_covered_by_scopes action (t ∷ []) in
        let matches =
          All-keep IsCapability p g.capabilities
            (own_members g.capabilities g.capabilities (λ t m. m)) in
        All-only IsCapability _ s
          (either (ltb 0 (length asked)) _ _ (All-keep IsCapability (includes asked) _ matches)
            matches)
          h
      where
        either :
            (b : Bool) (xs ys : List String)
            → All IsCapability xs
            → All IsCapability ys
            → All IsCapability (if b then xs else ys)
        either true xs ys p q = p
        either false xs ys p q = q

    capabilities_for-Steady :
        (asked actions : List String)
        → Steady all_tables (All IsCapability) (capabilities_for r g asked actions)
    unfolding capabilities_for
    capabilities_for-Steady asked [] = pure-Steady all_tables _ _ tt
    capabilities_for-Steady asked (action ∷ actions) =
        >>=-Steady all_tables IsCapability _ _ _
          (or_throw-Steady all_tables IsCapability _ _ (capability_for-IsCapability asked action))
          λ s own.
            >>=-Steady all_tables (All IsCapability) _ _ _ (capabilities_for-Steady asked actions)
              λ ss rest. pure-Steady all_tables _ _ (own, rest)

  -- The authority that a pushed request has, and the row that holds it.
  pub record Bounded (a : OAuthApplicationRow) (p : AuthorizationParameters) (g : AgentIdentityRow)
      (answer : PushAnswer) (before after : List PushedRow) : Type 0 where
    pub scopes : List String
    pub resource : String
    pub capabilities : All (IsCapability g) scopes
    pub named : filled p.resource ≡ some resource
    pub own_resource : includes g.allowed_resources resource ≡ true
    pub covered : all_covered r (details_given r p) resource scopes ≡ some true
    pub own_redirect : includes a.redirect_uris p.redirect_uri ≡ true
    pub proven : option_is p.code_challenge_method "S256" ≡ true
    pub stored :
        after ≡ before ++ pushed_row r a answer.request_uri (granted_parameters r p g scopes) ∷ []

  moved_lem :
      (a : OAuthApplicationRow) (p : AuthorizationParameters) (g : AgentIdentityRow)
      (answer : PushAnswer) (before before' after after' : List PushedRow)
      → before ≡ before'
      → after ≡ after'
      → Bounded a p g answer before after
      → Bounded a p g answer before' after'
  moved_lem a p g answer before before' after after' e e' bounded =
      subst (λ xs. Bounded a p g answer before' xs) e'
        (subst (λ xs. Bounded a p g answer xs after) e bounded)

  assigned_lem :
      (g : AgentIdentityRow) (o : Option String) (s : String)
      → assigned r g o ≡ some s
      → (o ≡ some s) × (includes g.allowed_resources s ≡ true)
  assigned_lem g none s h = absurd (cc)
  assigned_lem g (some t) s h =
      let (own, same) = filter_lem (includes g.allowed_resources t) t s h in
      (ap some same, subst (λ x. includes g.allowed_resources x ≡ true) same own)

  store_pushed_lem :
      (a : OAuthApplicationRow) (p : AuthorizationParameters) (w : World) (answer : PushAnswer)
      → (store_pushed r a p w).0 ≡ ok answer
      → (store_pushed r a p w).1.committed.pushed
        ≡ w.committed.pushed ++ pushed_row r a answer.request_uri p ∷ []
  unfolding store_pushed random_id insert_pushed ◌>>=◌
  store_pushed_lem a p w answer h =
      ap (λ (s : PushAnswer). w.committed.pushed ++ pushed_row r a s.request_uri p ∷ [])
        (ok-injective _ answer h)

  scopes_step :
      (a : OAuthApplicationRow) (p : AuthorizationParameters) (g : AgentIdentityRow)
      (scopes : List String) (resource : String) (w : World)
      → not (ltb 0 (length scopes)) ≡ false
      → assigned r g (filled p.resource) ≡ some resource
      → all_covered r (details_given r p) resource scopes ≡ some true
      → not (includes a.redirect_uris p.redirect_uri) ≡ false
      → not (is_some (filled p.code_challenge)) || not (option_is p.code_challenge_method "S256")
        ≡ false
      → push_scopes r a p g scopes w ≡ store_pushed r a (granted_parameters r p g scopes) w
  unfolding push_scopes ◌>>=◌
  scopes_step a p g scopes resource w any found covered redirect challenge =
      rw (any, found, covered, redirect, challenge)

  push_scopes-Bounded :
      (a : OAuthApplicationRow) (p : AuthorizationParameters) (g : AgentIdentityRow)
      (scopes : List String) (w : World) (answer : PushAnswer)
      → All (IsCapability g) scopes
      → (push_scopes r a p g scopes w).0 ≡ ok answer
      → Bounded a p g answer w.committed.pushed (push_scopes r a p g scopes w).1.committed.pushed
  unfolding push_scopes
  push_scopes-Bounded a p g scopes w answer capabilities h =
      let (any, rest1) = guarded-ok _ _ _ w answer h in
      let (resource, found, rest2) =
        required-ok _ w answer (assigned r g (filled p.resource)) resource_unassigned rest1 in
      let (named, own) = assigned_lem g (filled p.resource) resource found in
      let (covered, judged, rest3) =
        needed-ok r _ w answer (all_covered r (details_given r p) resource scopes) _ rest2 in
      let (all, rest4) = guarded-ok (not covered) _ _ w answer rest3 in
      let (redirect, rest5) = guarded-ok _ _ _ w answer rest4 in
      let (challenge, rest6) = guarded-ok _ _ _ w answer rest5 in
      let judged' : all_covered r (details_given r p) resource scopes ≡ some true =
        subst (λ b. all_covered r (details_given r p) resource scopes ≡ some b)
          (not-false covered all) judged in
      let step = scopes_step a p g scopes resource w any found judged' redirect challenge in
      record {
        scopes = scopes;
        resource = resource;
        capabilities = capabilities;
        named = named;
        own_resource = own;
        covered = judged';
        own_redirect = not-false (includes a.redirect_uris p.redirect_uri) redirect;
        proven =
            not-false (option_is p.code_challenge_method "S256")
              (or-right (not (is_some (filled p.code_challenge))) _ challenge);
        stored =
            ap (λ o. o.1.committed.pushed) step
            ∙ store_pushed_lem a (granted_parameters r p g scopes) w answer rest6;
      }

  abbrev pushed_table : Tables → List PushedRow
  pushed_table t = t.pushed

  push_for-Bounded :
      (a : OAuthApplicationRow) (p : AuthorizationParameters) (g : AgentIdentityRow) (w : World)
      (answer : PushAnswer)
      → (push_for r a p g w).0 ≡ ok answer
      → (g.may_receive_delegation ≡ true)
        × Bounded a p g answer w.committed.pushed (push_for r a p g w).1.committed.pushed
  unfolding push_for
  push_for-Bounded a p g w answer h =
      let asked = words p.scope in
      let wanted = keep (includes g.capabilities) asked in
      let m = capabilities_for r g wanted (actions_of r (details_given r p)) in
      let (may, rest1) = guarded-ok _ _ _ w answer h in
      let (within, rest2) = guarded-ok _ _ _ w answer rest1 in
      let (found, mapped, rest3, end) = >>=-ok m _ w answer rest2 in
      let stays = (capabilities_for-Steady g wanted (actions_of r (details_given r p))).stays w in
      let bounded =
        push_scopes-Bounded a p g (distinct r found) (m w).1 answer
          (All-distinct (IsCapability g) found (stays.result found mapped)) rest3 in
      let steps =
        guarded_step _ no_delegation _ w may ∙ guarded_step _ beyond_capabilities _ w within in
      (
        not-false g.may_receive_delegation may,
        moved_lem a p g answer _ _ _ _ (ap (λ t. t.pushed) stays.committed)
            (sym (ap (λ o. o.1.committed.pushed) steps ∙ ap (λ w'. w'.committed.pushed) end))
            bounded,
      )

  -- A request that an agent pushes is stored with the agent's authority only: the agent is the
  -- active one that is registered for the client, it signed the unused assertion of the request for
  -- this endpoint, and it may receive delegation; the scopes are capabilities of the agent, each
  -- action is covered by them, each location lies within the resource, and the resource is assigned
  -- to the agent; the redirect URI is registered and the challenge method is S256.
  pub push_request-Bounded :
      (request : Request) (w : World) (answer : PushAnswer)
      → (push_request r request w).0 ≡ ok answer
      → (p : AuthorizationParameters) × (a : OAuthApplicationRow) × (g : AgentIdentityRow)
        × (parse_pushed r request ≡ some p)
        × (active_application (application_of p.client_id w.committed) ≡ some a)
        × ((assertion : String) × (agent_assertion r request ≡ some assertion)
            × Signs r assertion p.client_id (a.issuer +s "/oauth/par") w.committed g)
        × (g.may_receive_delegation ≡ true)
        × Bounded a p g answer w.committed.pushed (push_request r request w).1.committed.pushed
  unfolding push_request find_application_by_client_id
  push_request-Bounded request w answer h =
      let (p, parsed, rest1) = needed-ok r _ w answer (parse_pushed r request) _ h in
      let rest2 = read-ok _ w answer (application_of p.client_id) rest1 in
      let (a, known, rest3) =
        required-ok _ w answer (active_application (application_of p.client_id w.committed))
          par_unavailable rest2 in
      let (u, routed, rest4, end4) =
        >>=-ok (assert_application_route r a request) _ w answer rest3 in
      let w1 = (assert_application_route r a request w).1 in
      let (assertion, given, rest5) =
        required-ok _ w1 answer (agent_assertion r request) assertion_missing rest4 in
      let m = verify_agent_assertion r assertion p.client_id (a.issuer +s "/oauth/par") in
      let (g, verified, rest6, end6) = >>=-ok m _ w1 answer rest5 in
      let (may, bounded) = push_for-Bounded a p g (m w1).1 answer rest6 in
      let kept1 = ((route-Steady r pushed_table a request).stays w).committed in
      let kept2 =
        ((verify_agent_assertion-Steady r pushed_table (λ t x y. refl) assertion p.client_id
            _).stays
          w1).committed in
      let signs =
        subst (λ t. Signs r assertion p.client_id (a.issuer +s "/oauth/par") t g)
          ((route-Steady r all_tables a request).stays w).committed
          (verify_agent_assertion-Signs r assertion p.client_id _ w1 g verified) in
      let steps =
        needed_step r _ w _ "ZodError" p parsed
        ∙ read_step _ w answer (application_of p.client_id)
        ∙ required_step _ par_unavailable w _ a known in
      let last = required_step _ assertion_missing w1 _ assertion given in
      (
        p,
        a,
        g,
        parsed,
        known,
        (assertion, given, signs),
        may,
        moved_lem a p g answer _ _ _ _ (kept2 ∙ kept1)
            (sym (
              ap (λ o. o.1.committed.pushed) steps
              ∙ ap (λ w'. w'.committed.pushed) end4
              ∙ ap (λ o. o.1.committed.pushed) last
              ∙ ap (λ w'. w'.committed.pushed) end6))
            bounded,
      )

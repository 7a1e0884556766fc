-- ===== src/Endpoint/Token/Laws.antt =====
-- What the token endpoint answers, and to whom it gives tokens.
use mathlib.Core.Path.{subst}
use authometry.Common.{◌≡◌, refl, true, false, ◌==◌, includes, arith, ◌⊎◌, inl, inr, Bool-cases}
use authometry.Database.{
  OAuthApplicationRow, Tables, Runtime, World, Outcome, ApiError, ok, fail, crash, ok-injective, M,
  pure, rescue, >>=-ok, guarded-ok, read-ok, Any, Quiet, Steady, all_tables, >>=-Steady,
  throw_if-Steady, weaken-Steady, Quiet-Steady,
}
use authometry.Common.{every, none}
use authometry.Common.Text.{join}
use authometry.Issue.{TokenSet, IssueInput, issue_token_set}
use authometry.Agents.Effects.{find_agent_for_client-Steady}
use authometry.Issue.Laws.{Reports, issue_token_set-Quiet}
use authometry.Agents.{agent_for_client, find_agent_for_client}
use authometry.Client.{Request, param, authenticate_client}
use authometry.Client.Authentication.{Authentic, authenticate_client-Authentic}
use authometry.Endpoint.Token.{
  client_credentials_grant, credential_scopes, agent_refused, credential_issue_input, Answer,
  tokens, refused, oauth_error, granted, token_route,
}

module _ (r : Runtime) (request : Request) where
  -- A client that authenticated and for which the grant type of the request is enabled.
  pub record Entitled (t : Tables) : Type 0 where
    pub client : OAuthApplicationRow
    pub authentic : Authentic r request t client
    pub enabled : includes client.grant_types (param "grant_type" request) ≡ true

  -- Tokens for an entitled client only; else an OAuth error of status 400 or 401.
  abbrev pub Allowed : Tables → Answer → Type 0
  Allowed t (tokens issued) = Entitled t
  Allowed t (refused status error description) = (status ≡ 400) ⊎ (status ≡ 401)

  abbrev pub IsAnswer : Tables → Outcome Answer → Type 0
  IsAnswer t (ok answer) = Allowed t answer
  IsAnswer t (fail e) = ⊥
  IsAnswer t (crash e) = Unit

  refused-Allowed : (t : Tables) (e : ApiError) → Allowed t (oauth_error e)
  refused-Allowed t e = elim (Bool-cases (e.status == 401)) [
    | inl unauthorized ↦ rw unauthorized (inr refl)
    | inr other ↦ rw other (inl refl)
  ]

  rescue-IsAnswer :
      (t : Tables) (m : M Answer) (w : World)
      → ((a : Answer) → (m w).0 ≡ ok a → Allowed t a)
      → IsAnswer t (rescue m (λ e. pure (oauth_error e)) w).0
  unfolding rescue
  rescue-IsAnswer t m w h = by_outcome (m w).0 (m w).1 h
    where
      by_outcome :
          (o : Outcome Answer) (w' : World)
          → ((a : Answer) → o ≡ ok a → Allowed t a)
          → IsAnswer t
              (elim o as (λ o'. Outcome Answer × World) [
                | ok a ↦ (ok a, w')
                | fail e ↦ (ok (oauth_error e), w')
                | crash e ↦ (crash e, w')
              ]).0
      by_outcome (ok a) w' k = k a refl
      by_outcome (fail e) w' k = refused-Allowed t e
      by_outcome (crash e) w' k = tt

  granted-Entitled :
      (w : World) {issued : _} → (granted r request w).0 ≡ ok issued → Entitled w.committed
  unfolding granted
  granted-Entitled w {issued} h =
      let (a, known, rest, end) = >>=-ok (authenticate_client r request) _ w issued h in
      let (enabled, granted_then) = guarded-ok _ _ _ _ issued rest in
      record {
        client = a;
        authentic = authenticate_client-Authentic r request w a known;
        enabled = ground arith;
      }

  -- The token endpoint never passes an `ApiError` on. It answers with tokens only if the client
  -- authenticated and the grant type is enabled for it, and otherwise with an OAuth error of status
  -- 400 or 401; or another error stops it.
  pub token_route-IsAnswer : (w : World) → IsAnswer w.committed (token_route r request w).0
  unfolding token_route
  token_route-IsAnswer w = rescue-IsAnswer w.committed _ w λ a h.
      let (issued, gave, returned, end) = >>=-ok (granted r request) _ w a h in
      subst (Allowed w.committed) (ok-injective (tokens issued) a returned)
        (granted-Entitled w gave)

module _ (r : Runtime) (application : OAuthApplicationRow) (request : Request) where
  issue-Reports :
      (input : IssueInput)
      → input.include_refresh_token ≡ false
      → Quiet (Reports r application input) (issue_token_set r application input)
  issue-Reports input h = issue_token_set-Quiet r application input h

  client_credentials-Steady : Steady all_tables Any (client_credentials_grant r application request)
  unfolding client_credentials_grant credential_issue_input
  client_credentials-Steady =
      >>=-Steady all_tables _ Any _ _ (throw_if-Steady all_tables _ _) λ u _.
        >>=-Steady all_tables Any Any _ _ (find_agent_for_client-Steady r all_tables _) λ agent _.
          >>=-Steady all_tables _ Any _ _ (throw_if-Steady all_tables _ _) λ v _.
            let input =
              credential_issue_input r (credential_scopes r application request) agent
                (param "resource" request) in
            weaken-Steady all_tables Any (Reports r application input) (λ t h. tt)
              (Quiet-Steady all_tables _ (issue-Reports input refl))

  -- The tokens of the client's own account: for the scopes asked for, each of them assigned to the
  -- client, with an assigned resource if the client is an agent, no refresh token, and no table
  -- written.
  pub client_credentials-limited :
      (w : World) (t : TokenSet)
      → (client_credentials_grant r application request w).0 ≡ ok t
      → let scopes = credential_scopes r application request in
        (every (includes application.allowed_scopes) scopes ≡ true)
        × (agent_refused r
              (agent_for_client application.client_id w.committed)
              (param "resource" request)
            ≡ false)
        × (t.scope ≡ join scopes)
        × (t.refresh_token ≡ none)
        × ((client_credentials_grant r application request w).1.committed ≡ w.committed)
  unfolding client_credentials_grant find_agent_for_client credential_issue_input
  client_credentials-limited w t h =
      let agent = agent_for_client application.client_id w.committed in
      let input =
        credential_issue_input r (credential_scopes r application request) agent
          (param "resource" request) in
      let (assigned, rest) = guarded-ok _ _ _ w t h in
      let (target, issued) =
        guarded-ok _ _ (issue_token_set r application input) w t
          (read-ok _ w t (agent_for_client application.client_id) rest) in
      let report = ((issue-Reports input refl).keeps w).result t issued in
      let kept = (client_credentials-Steady.stays w).committed in
      (ground arith, target, report.scope, report.refresh_token, kept)

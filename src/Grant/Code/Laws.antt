-- ===== src/Grant/Code/Laws.antt =====
-- What an authorization code is redeemed for, and that it is redeemed once.
use authometry.Common.{refl, String, Option, none, some, List, if◌then◌else◌}
use authometry.Database.{
  Uuid, OAuthApplicationRow, AuthorizationCodeRow, Tables, Runtime, M, Any, Steady, if-Steady,
  pure-Steady, panic-Steady, throw-Steady, client_read-Steady, client_write-Steady, identify-Steady,
  or_throw-Steady, >>=-Steady, throw, panic, pure,
}
use authometry.Issue.Laws.{issue_token_set-Steady}
use authometry.Agents.Effects.{find_agent_for_client-Steady, verify_dpop_proof-Steady}
use authometry.Grant.{mcp_resource_for_issuer, resource_indicators_match}
use authometry.Grant.Code.{
  CodeRequest, resource_invalid, admin_resource, issue_for_admin, delegation, bind_key, find_user,
  issue_for_user, issue_for,
}

abbrev pub codes : Tables → List AuthorizationCodeRow
codes t = t.codes

module _ (r : Runtime) (application : OAuthApplicationRow) where
  find_user-Steady : (id : Option Uuid) → Steady codes Any (find_user r application id)
  find_user-Steady none = pure-Steady codes Any none tt
  find_user-Steady (some id) = client_read-Steady codes Any _ (λ t. tt)

  admin_resource-Steady : (o : Option String) → Steady codes Any (admin_resource r application o)
  unfolding admin_resource
  admin_resource-Steady none = throw-Steady codes Any _
  admin_resource-Steady (some resource) =
      if-Steady codes Any _ _ _ (expected-Steady (mcp_resource_for_issuer r application.issuer))
        (throw-Steady codes Any _)
    where
      expected-Steady :
          (o : Option String)
          → Steady codes Any (elim o as (λ o'. M String) [
            | none ↦ panic "Invalid URL"
            | some expected ↦
                if resource_indicators_match r resource expected
                then pure resource
                else throw resource_invalid
          ])
      expected-Steady none = panic-Steady codes Any _
      expected-Steady (some e) =
          if-Steady codes Any _ _ _ (pure-Steady codes Any _ tt) (throw-Steady codes Any _)

  issue_for_admin-Steady :
      (c : AuthorizationCodeRow) (id : Uuid) → Steady codes Any (issue_for_admin r application c id)
  unfolding issue_for_admin
  issue_for_admin-Steady c id =
      >>=-Steady codes Any Any _ _ (client_read-Steady codes Any _ (λ t. tt)) λ row _.
        >>=-Steady codes Any Any _ _ (or_throw-Steady codes Any row _ (λ a e. tt)) λ admin _.
          >>=-Steady codes Any Any _ _ (admin_resource-Steady c.resource) λ resource _.
            >>=-Steady codes Any Any _ _ (identify-Steady codes _)
              λ u _. issue_token_set-Steady r application _ codes (λ t fs ks. refl)

  delegation-Steady :
      (request : CodeRequest) (id : Option Uuid)
      → Steady codes Any (delegation r application request id)
  unfolding delegation bind_key
  delegation-Steady request none = pure-Steady codes Any none tt
  delegation-Steady request (some id) =
      >>=-Steady codes Any Any _ _ (client_read-Steady codes Any _ (λ t. tt)) λ grant _.
        >>=-Steady codes Any Any _ _ (find_agent_for_client-Steady r codes _) λ agent _.
          >>=-Steady codes Any Any _ _ (or_throw-Steady codes Any _ _ (λ a e. tt)) λ pair _.
            >>=-Steady codes Any Any _ _
              (verify_dpop_proof-Steady r codes (λ t assertions proofs. refl) _ _ _)
              λ jkt _.
                >>=-Steady codes Any Any _ _ (client_write-Steady codes _ (λ t. refl))
                  λ u _. pure-Steady codes Any _ tt

  issue_for_user-Steady :
      (c : AuthorizationCodeRow) (request : CodeRequest)
      → Steady codes Any (issue_for_user r application c request)
  unfolding issue_for_user
  issue_for_user-Steady c request =
      >>=-Steady codes Any Any _ _ (find_user-Steady c.user_id) λ row _.
        >>=-Steady codes Any Any _ _ (or_throw-Steady codes Any _ _ (λ a e. tt)) λ user _.
          >>=-Steady codes Any Any _ _ (identify-Steady codes _) λ u _.
            >>=-Steady codes Any Any _ _ (delegation-Steady request c.delegation_grant_id)
              λ d _. issue_token_set-Steady r application _ codes (λ t fs ks. refl)

  -- Whatever is issued for a code, the table of codes is left alone.
  pub issue_for-Steady :
      (admin : Option Uuid) (c : AuthorizationCodeRow) (request : CodeRequest)
      → Steady codes Any (issue_for r application admin c request)
  unfolding issue_for
  issue_for-Steady (some id) c request = issue_for_admin-Steady c id
  issue_for-Steady none c request = issue_for_user-Steady c request

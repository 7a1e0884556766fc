-- ===== src/Agents/Effects.antt =====
-- What checking an agent's assertion or a DPoP proof writes.
use authometry.Common.{◌≡◌, String, Option, List}
use authometry.Database.{
  Uuid, AssertionJtiRow, DpopJtiRow, Tables, Runtime, Any, Steady, pure-Steady, pool_read-Steady,
  pool_write-Steady, or_throw-Steady, throw_if-Steady, >>=-Steady,
}
use authometry.Agents.{
  find_agent_for_client, find_agent_by_id, verify_agent_assertion, verify_dpop_proof,
}

module _ (r : Runtime) {X : Type 0} (view : Tables → X) where
  -- A view of the tables that leaves the used identifiers out.
  abbrev pub IgnoresJtis : Type 0
  IgnoresJtis =
      (t : Tables) (assertions : List AssertionJtiRow) (proofs : List DpopJtiRow)
      → view (record t { assertion_jtis = assertions; dpop_jtis = proofs }) ≡ view t

  pub find_agent_for_client-Steady : (id : String) → Steady view Any (find_agent_for_client id)
  unfolding find_agent_for_client
  find_agent_for_client-Steady id = pool_read-Steady view Any _ (λ t. tt)

  pub find_agent_by_id-Steady :
      (environment_id : Uuid) (id : String) → Steady view Any (find_agent_by_id environment_id id)
  unfolding find_agent_by_id
  find_agent_by_id-Steady environment_id id = pool_read-Steady view Any _ (λ t. tt)

  pub verify_agent_assertion-Steady :
      (ignores : IgnoresJtis) (assertion client_id audience : String)
      → Steady view Any (verify_agent_assertion r assertion client_id audience)
  unfolding verify_agent_assertion
  verify_agent_assertion-Steady ignores assertion client_id audience =
      >>=-Steady view Any Any _ _ (find_agent_for_client-Steady client_id) λ row _.
        >>=-Steady view Any Any _ _ (or_throw-Steady view Any _ _ (λ a e. tt)) λ agent _.
          >>=-Steady view Any Any _ _ (or_throw-Steady view Any _ _ (λ a e. tt)) λ checked _.
            >>=-Steady view Any Any _ _ (pool_read-Steady view Any _ (λ t. tt)) λ used _.
              >>=-Steady view _ Any _ _ (throw_if-Steady view used _) λ u _.
                >>=-Steady view Any Any _ _
                  (pool_write-Steady view _ (λ t. ignores t _ t.dpop_jtis))
                  λ v _. pure-Steady view Any _ tt

  pub verify_dpop_proof-Steady :
      (ignores : IgnoresJtis) (header : Option String) (method url : String)
      → Steady view Any (verify_dpop_proof r header method url)
  unfolding verify_dpop_proof
  verify_dpop_proof-Steady ignores header method url =
      >>=-Steady view Any Any _ _ (or_throw-Steady view Any _ _ (λ a e. tt)) λ proof _.
        >>=-Steady view Any Any _ _ (or_throw-Steady view Any _ _ (λ a e. tt)) λ checked _.
          >>=-Steady view Any Any _ _ (pool_read-Steady view Any _ (λ t. tt)) λ used _.
            >>=-Steady view _ Any _ _ (throw_if-Steady view used _) λ u _.
              >>=-Steady view Any Any _ _
                (pool_write-Steady view _ (λ t. ignores t t.assertion_jtis _))
                λ v _. pure-Steady view Any _ tt

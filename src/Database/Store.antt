-- ===== src/Database/Store.antt =====
-- The tables.
use authometry.Common.{List}
use authometry.Database.Rows.{
  AdminRow, AgentIdentityRow, AssertionJtiRow, AuditEventRow, AuthorizationCodeRow, ClaimMappingRow,
  CredentialRow, DelegationGrantRow, DeviceRow, DpopJtiRow, IdentityUserRow, OAuthApplicationRow,
  RefreshFamilyRow, RefreshTokenRow, RevokedAccessTokenRow, SigningKeyRow,
}
use authometry.Database.FlowRows.{
  PendingAuthorizationRow, PushedRow, UserSessionRow, ConsentRow, AdminConsentRow, PolicyRow,
  RecoveryCodeRow, AdminSessionRow, PersonalTokenRow, SocialIdentityRow, LinkTokenRow,
  SocialStateRow,
}

pub record Tables : Type 0 where
  pub applications : List OAuthApplicationRow
  pub users : List IdentityUserRow
  pub admins : List AdminRow
  pub codes : List AuthorizationCodeRow
  pub families : List RefreshFamilyRow
  pub tokens : List RefreshTokenRow
  pub devices : List DeviceRow
  pub agents : List AgentIdentityRow
  pub grants : List DelegationGrantRow
  pub signing_keys : List SigningKeyRow
  pub claim_mappings : List ClaimMappingRow
  pub credentials : List CredentialRow
  pub audit_events : List AuditEventRow
  pub revoked_tokens : List RevokedAccessTokenRow
  pub assertion_jtis : List AssertionJtiRow
  pub dpop_jtis : List DpopJtiRow
  pub pending : List PendingAuthorizationRow
  pub pushed : List PushedRow
  pub sessions : List UserSessionRow
  pub consents : List ConsentRow
  pub admin_consents : List AdminConsentRow
  pub policies : List PolicyRow
  pub recovery_codes : List RecoveryCodeRow
  pub admin_sessions : List AdminSessionRow
  pub personal_tokens : List PersonalTokenRow
  pub social_identities : List SocialIdentityRow
  pub link_tokens : List LinkTokenRow
  pub social_states : List SocialStateRow

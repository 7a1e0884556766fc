-- ===== src/Endpoint.antt =====
-- The routes of `tokenRouter` in apps/server/src/oauth/tokens.ts.
pub mod Token
pub mod Device
pub mod Revocation
pub mod Introspection

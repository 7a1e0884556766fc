-- ===== src/Lib.antt =====
-- Authometry's authorization server: authorization requests, the token endpoints, and who signs in.
--
-- The server (apps/server) answers OAuth requests over PostgreSQL. A client authenticates
-- (oauth/common.ts), asks the token endpoint (oauth/tokens.ts) for tokens by one of five grants, and
-- later revokes or introspects them. Before a code there is an authorization request
-- (oauth/authorization.ts): it is checked or pushed by an agent, a person signs in by password, second
-- factor or social account (lib/mfa.ts, lib/identity-mfa.ts) or as an administrator (auth/admin.ts),
-- decides, and the policies (lib/policy.ts) allow or deny the code. Every grant ends in `issueTokenSet` (lib/oauth.ts), which maps
-- the user's claims (lib/claims.ts) and signs (lib/signing.ts). Registered agents (oauth/agents.ts)
-- hold delegation grants, bind their tokens to a key by DPoP, and delegate to each other.
--
-- A handler is an action of `M` (Database.Effect): it reads and writes the tables and returns, throws
-- an `ApiError`, or throws another error (`crash`). A world has the committed tables, which pooled
-- queries use, and the draft that an open transaction uses; `transaction` commits or rolls back. A
-- request runs without interleaving: the source locks the row it works on (`FOR UPDATE`), and the
-- theorems on several requests put one whole request after another.
--
--   Common              text, lists and tests on values that JavaScript has built in
--   Json                JSON values, and objects under construction (`Claims`)
--   Database            rows, tables, transactions; Externals: what Node, jose and PostgreSQL give;
--                       Quietness and Steadiness: actions that leave tables alone; Inversion: what a
--                       success has gone through
--   Claims              lib/claims.ts: `readUserClaim`, `mappedClaims`
--   Signing             lib/crypto.ts, lib/signing.ts: `hashToken`, `signOAuthJwt`, `verifyOAuthJwt`
--   Issue               lib/oauth.ts: `issueTokenSet`
--   Agents              oauth/agents.ts
--   Grant               oauth/tokens.ts: Code (`authorizationCodeGrant`), Refresh
--                       (`refreshTokenGrant`), Device (`deviceCodeGrant`), Exchange
--                       (`tokenExchangeGrant`)
--   Client              oauth/common.ts: `authenticateClient`
--   Endpoint            the routes of oauth/tokens.ts: Token (/token), Device
--                       (/device/authorization), Revocation (/revoke), Introspection (/introspect)
--   Policy              lib/policy.ts: `evaluateCondition`, `evaluateAll`
--   Admin               auth/admin.ts, lib/security.ts: `requireAdmin`, `requireCsrf`
--   Mfa                 lib/mfa.ts, lib/identity-mfa.ts: base32, TOTP codes, recovery codes
--   Authorize           oauth/authorization.ts: Start (GET /authorize), PushedRequest and Push
--                       (/par), Login (/login), Decide (/consent), Social (the callback), Continue
--                       and Issue
--                       (`continueAfterAuthentication`, `authorizationRedirect`); Requests and
--                       Closing: open and closed requests
--   Tests               concrete tables and requests
--
-- All paths are below apps/server/src. A TypeScript function `fooBar` is `foo_bar` here, its
-- parts are named for what they do. Instants are milliseconds, a `Date` that is null is `none`, a uuid
-- is a number, and `String(body.x ?? "")` is the parameter's text, "" when it is missing. The
-- numbers of JSON and usage limits are integers (ℤ), fractions are not modelled; other numbers are
-- naturals, and a comparison of a difference is written as one of sums.
--
-- External functions are the fields of `Runtime`: hashes, random values, URL parsing, the clock of one
-- request, signing and verification. Theorems on two requests take two of them, and say where both
-- must hash a token alike. Nothing else is assumed of them.
--
-- Only `lineage_from` runs on fuel: the recursive query of /introspect. Its fuel is the depth of the
-- grant plus one, enough where the parent of each grant is one level above it (`IsGraded`).
--
-- A redirect is a value of `Next` that names the page, or the parameters that the client gets. A
-- social provider's answer (lib/social.ts) is an argument.
--
-- Not modelled: traces, except whom they name; HTTP headers, cookies that a response sets, and
-- caching; the view of a pending request and the redirect to a social provider; the social logins of
-- administrators and of the portal, which the callback tries first; dynamic registration
-- (/register); sign-up and sign-in of administrators, the management and portal APIs, MCP, workers and
-- webhooks, the configuration planner, the CLI and the web application. Those are other parts of the
-- program, or input and output only.
pub mod Admin
pub mod Agents
pub mod Authorize
pub mod Claims
pub mod Client
pub mod Common
pub mod Database
pub mod Endpoint
pub mod Grant
pub mod Issue
pub mod Json
pub mod Mfa
pub mod Policy
pub mod Signing
pub mod Tests

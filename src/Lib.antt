-- ===== src/Lib.antt =====
-- Autentico is an OpenID Connect identity provider. This library models the part of it that decides
-- who gets a code or a token, how long it is good, and how it dies: the authorization endpoint, the
-- login form with its second factor, the consent page, the token endpoint with its five grants, the
-- tables that they read and write, single sign-on sessions with their cascade, bearer tokens,
-- introspection, revocation, the device flow, the links that set a new password and the sweep of old
-- rows.
--
-- Files and code:
--   Schema, Sql     the rows of the tables (the structs of pkg/auth_code/model.go, client, user,
--                   token, session, idpsession, devicecode, consent,
--                   mfa, trusteddevice, and the table of password resets)
--                   and SQL statements on lists of rows
--   Env, Web        what a request runs under (pkg/config, the clock, other packages), the request
--   Exec            Go functions that run statements and may fail, `error` and error responses
--                   (pkg/utils/responses.go); Exec.Within, Exec.Inversion,
--                   Exec.Forward and Exec.Errors reason about them
--   Text            Go's strings package: Fields, Split, Join, HasPrefix, HasSuffix, TrimSpace
--   AuthCode        pkg/auth_code: CreateAuthCode, AuthCodeByCode, MarkAuthCodeAsUsed, ...
--   Client          pkg/client/authenticate.go, read.go: AuthenticateClientFromRequest,
--                   IsValidRedirectURI, FilterScopes, ValidateScopes; GetForClient of pkg/config
--   User            pkg/user/authenticate.go, read.go: AuthenticateUser and the lockout;
--                   Update: UpdateUser of update.go
--   Session         pkg/session/create.go, read.go
--   IdpSession      pkg/idpsession: DeactivateWithCascade, DeactivateIdle, DeactivateExpiredMaxAge,
--                   FinalizeLogin
--   DeviceCode      pkg/devicecode: the table; Authorize: HandleDeviceAuthorization
--   Token           pkg/token/create.go, read.go, revoke.go: the table
--   Token.CodeGrant     UserByAuthorizationCode (authorization_code.go); Pkce: its PKCE tests
--   Token.RefreshGrant  UserByRefreshToken (refresh_token.go) and the rotation of handler.go
--   Token.DeviceGrant   handleDeviceCodeGrant (device_code.go)
--   Token.Generate      the claims and their signing (generate.go); Scopes: its scope helpers
--   Token.Grants        the cases of HandleToken (handler.go) that end in a user
--   Token.Handler       HandleToken: admit, the grants, client_credentials, issue
--   Bearer          pkg/bearer/validate_bearer.go, pkg/jwtutil/validate.go
--   Introspect      pkg/introspect: IntrospectToken, HandleIntrospect
--   Revoke          pkg/revoke/handler.go: HandleRevoke
--   Cleanup         pkg/cleanup/service.go: Run
--   Logout          pkg/session/logout.go: HandleLogout, rpInitiatedLogout
--   Browser         what the browser pages answer; IsValidRedirectURI of pkg/utils/redirect_uri.go
--   Authzsig        pkg/authzsig/authzsig.go: Sign, Verify
--   Consent         pkg/consent: NeedsConsent, UpsertConsent, HandleConsent, and the step that grants
--                   a code, which the handlers share
--   Authorize       pkg/authorize: HandleAuthorize, tryAutoLogin; MaxAge: parseMaxAge
--   TrustedDevice   pkg/trusteddevice: IsDeviceTrusted and the table
--   Mfa             pkg/mfa: the table of challenges; Post: handleMfaPost; Get: handleMfaGet,
--                   handleMethodSwitch
--   Login           pkg/login: HandleLoginUser
--   PasswordReset   pkg/passwordreset: HandleForgotPassword, HandleResetPassword and the table
--   Tests           a concrete server, and each theorem at a concrete request
-- A file's children prove what their names say of it.
--
-- State: the database is a record with a list of rows for each table, newest row first, and a query
-- for one row reads the first that fits; the code relies on its keys and tokens being distinct where
-- it matters which one that is. A handler is
-- a function from the database to a result and a database; what was written before a failure stays
-- written, but for the cascade, which is a transaction. Every statement may fail (`env.fails`, by the
-- statement); a theorem that needs a statement to run has that as a hypothesis, or `Healthy`. The
-- inserts test the primary, unique and foreign keys of the tables. Goroutines interleave at
-- statements; the one interleaving that is written out is that of Token.CodeGrant.Race.
--
-- A browser handler ends with the redirect that carries a code (`Granted`); every other answer is an
-- early return (`Answer`). A redirect keeps its target and its parameters before they are encoded; a
-- page keeps what it is about, and the cookie of the session that an answer sets goes with it. The
-- handlers run one after the other: a challenge is read and counted in one request, without another
-- one in between.
--
-- Time is a number of nanoseconds since Go's zero time, and a request sees one time; durations and
-- times are numbers without a bound, since the code compares and adds times of the present era, far
-- from the limits of int64. Negative numbers in the configuration are not modelled. No function needs
-- fuel: the loops run over lists and over the characters of texts. The one product that the code
-- computes from a request, that of max_age, keeps its wrap-around in int64 (Authorize.MaxAge).
--
-- Parameters, the fields of Env: bcrypt, SHA-256 with base64, JWT parsing (with its test of the
-- expiry) and signing, the acr and azp claims of an unverified token, the claims of an ID token hint,
-- ozzo's is.URL, JSON arrays, TOTP codes, random codes and identifiers, the groups of a user, the
-- parsing of durations and of URLs, ozzo's Length, the HMAC of a text, the JSON text of a login state,
-- TOTP secrets, QR codes the sending of a code by e-mail and strings.ToLower. What a theorem relies on is a hypothesis
-- of it (`Parses`).
--
-- Left out: logging, the audit log, the descriptions of errors, response headers, the attributes of
-- cookies, CSRF tokens (middleware), templates, and the packages for sign-up, e-mail
-- verification, passkeys, magic links, administration, federation, mail and start-up. The
-- `typ` claim and the `name` claim of a token are constant or the copy of another claim and have no
-- field.
pub mod Prelude
pub mod Schema
pub mod Sql
pub mod Exec
pub mod Env
pub mod Text
pub mod Web
pub mod Client
pub mod AuthCode
pub mod Authorize
pub mod TrustedDevice
pub mod Mfa
pub mod Login
pub mod Authzsig
pub mod Browser
pub mod Consent
pub mod User
pub mod Session
pub mod Token
pub mod DeviceCode
pub mod IdpSession
pub mod Bearer
pub mod Introspect
pub mod Revoke
pub mod Cleanup
pub mod Logout
pub mod PasswordReset
pub mod Tests

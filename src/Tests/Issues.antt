-- ===== src/Tests/Issues.antt =====
-- The tokens that the endpoint issues at the concrete server, and what becomes of them.
use autentico.Prelude.{
  ◌≡◌, ◌≢◌, ◌+◌, ◌*◌, refl, true, String, some, none, ◌∷◌, ◌==◌, arith, eq_iff, if◌then◌else◌,
}
use autentico.Schema.{Db, Token, second}
use autentico.Env.{Env, RefreshClaims}
use autentico.Exec.{ok}
use autentico.Web.{Request}
use autentico.Token.{token_by_access_token}
use autentico.Token.CodeGrant.{TokenRequest}
use autentico.Token.Generate.{AuthToken, build_audience}
use autentico.Token.RefreshGrant.{user_by_refresh_token}
use autentico.Token.Grants.{Grant}
use autentico.Token.Handler.{
  issue, TokenResponse, token_row, session_row, client_credentials, client_token,
}
use autentico.Token.Handler.Issue.{row_of, session_of}
use autentico.Token.Handler.RoundTrip.{Parses, issue-refresh}
use autentico.Introspect.{introspect, inactive, active_response}
use autentico.Introspect.Checks.{IsActive, introspect-IsActive}
use autentico.Introspect.Revocation.{revoke-inactive, all_revoked}
use autentico.Revoke.{revoke_for}
use autentico.Tests.World.{env, minute_later, env_at-Healthy, start}
use autentico.Tests.Rows.{db, user, token, app, service, blank, web}

abbrev form : String → String
form name =
    if name == "client_id" then "app" else if name == "grant_type" then "authorization_code" else ""

abbrev request : Request
request = web form

abbrev grant : Grant
grant = record {
  user = user;
  scope = "openid";
  nonce = "n1";
  auth_time = start;
  idp_session_id = "idp0";
}

abbrev tokens : AuthToken
tokens = record {
  user_id = "u1";
  access_token = "at1";
  refresh_token = "rt1";
  session_id = "sid1";
  access_expires_at = start + 900 * second;
  refresh_expires_at = start + 2592000 * second;
}

abbrev answer : TokenResponse
answer = record {
  access_token = "at1";
  token_type = "Bearer";
  expires_in = 900;
  refresh_token = "rt1";
  id_token = "id1";
  scope = "openid";
  refresh_cookie = none;
}

abbrev after : Db
after = record db {
  tokens = row_of env request grant tokens ∷ db.tokens;
  sessions = session_of env request grant tokens ∷ db.sessions;
}

issued : issue env request (some app) grant db ≡ (ok answer, after)
unfolding issue autentico.Token.Generate.generate_tokens autentico.Token.Handler.token_request
    autentico.Token.Handler.client_config autentico.Client.config_for_client
    autentico.Token.create_token autentico.Env.exec_if autentico.Sql.any_row
    autentico.Session.create_session autentico.Token.Scopes.contains_scope autentico.Text.split
    autentico.Token.Generate.generate_id_token
issued = refl

parses : Parses env minute_later
parses k w signed soon = ground (
  arith,
  eq_iff k.user_id "u1",
  eq_iff k.session_id "sid1",
  eq_iff k.client_id "app",
  eq_iff w "rt1",
  eq_iff w "rt0",
  eq_iff "rt1" "rt0",
)

abbrev again : TokenRequest
again = record blank { grant_type = "refresh_token"; refresh_token = "rt1" }

issue-refresh_example : user_by_refresh_token minute_later again after ≡ (ok (some user), after)
unfolding issue autentico.Token.CodeGrant.validate_token_request_refresh
    autentico.Token.Handler.token_request autentico.Token.Handler.client_config
    autentico.Client.config_for_client autentico.Sql.find_row
issue-refresh_example =
    issue-refresh env minute_later request (some app) grant answer db after again user issued refl
      (env_at-Healthy (start + 60 * second)) parses refl refl refl (omega arith) refl refl

abbrev service_request : TokenRequest
service_request = record blank { grant_type = "client_credentials"; client_id = "svc" }

abbrev service_tokens : AuthToken
service_tokens = record {
  user_id = "";
  access_token = "at1";
  refresh_token = "";
  session_id = "sid1";
  access_expires_at = start + 900 * second;
  refresh_expires_at = 0;
}

abbrev service_answer : TokenResponse
service_answer = record {
  access_token = "at1";
  token_type = "Bearer";
  expires_in = 900;
  refresh_token = "";
  id_token = "";
  scope = "read";
  refresh_cookie = none;
}

abbrev after_service : Db
after_service = record db {
  tokens = record (client_token env service_tokens "read") { id = "tok1" } ∷ db.tokens;
}

service_issued :
    client_credentials env (some service) service_request db ≡ (ok service_answer, after_service)
unfolding client_credentials autentico.Token.Scopes.remove_scope autentico.Text.join
    autentico.Text.fields autentico.Text.push autentico.Text.words autentico.Text.is_space
    autentico.Client.validate_scopes autentico.Token.Generate.generate_client_credentials_token
    autentico.Token.create_token autentico.Env.exec_if autentico.Sql.any_row
    autentico.Client.config_for_client
service_issued = refl

introspected : introspect env (some app) "rt0" db ≡ (ok (active_response env token), db)
unfolding introspect autentico.Env.query autentico.Sql.find_row
    autentico.Session.session_by_access_token autentico.User.user_by_id_including_deactivated
introspected = refl

introspect-IsActive_example :
    (t : Token) × IsActive env (some app) "rt0" db t
    × (active_response env token ≡ active_response env t)
    × (db ≡ db)
introspect-IsActive_example =
    introspect-IsActive env (some app) "rt0" (active_response env token) db db introspected refl

revoke-inactive_example :
    (db' : Db) × (revoke_for env (some app) "rt0" db ≡ (ok tt, db'))
    × (all_revoked "rt0" db'.tokens ≡ true)
    × (introspect minute_later none "rt0" db' ≡ (ok inactive, db'))
    × ((token_by_access_token minute_later "rt0" db').0 ≢ ok token)
unfolding revoke_for autentico.Bearer.may_handle
revoke-inactive_example = revoke-inactive env minute_later (some app) none "rt0" token db refl refl

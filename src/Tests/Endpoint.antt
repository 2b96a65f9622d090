-- ===== src/Tests/Endpoint.antt =====
-- One request to the token endpoint of the concrete server, from its form to its answer.
use autentico.Prelude.{◌≡◌, refl, String, Option, none, ◌∷◌, ◌==◌, ◌*◌, ◌+◌, if◌then◌else◌}
use autentico.Schema.{Client, Db, second}
use autentico.Exec.{ok}
use autentico.Web.{Request}
use autentico.AuthCode.{mark_code}
use autentico.Token.Generate.{AuthToken}
use autentico.Token.Grants.{Grant}
use autentico.Token.Handler.{handle_token, TokenResponse}
use autentico.Token.Handler.Issue.{row_of, session_of}
use autentico.Token.Handler.Endpoint.{IsAdmitted, Answered, handle_token-Answered}
use autentico.Tests.World.{env, start}
use autentico.Tests.Rows.{db, user, verifier, web}

abbrev form : String → String
form name =
    if name == "client_id"
    then "app"
    else if name == "grant_type"
    then "authorization_code"
    else if name == "code"
    then "code1"
    else if name == "redirect_uri"
    then "https://app/cb"
    else if name == "code_verifier"
    then verifier
    else ""

abbrev request : Request
request = web form

abbrev grant : Grant
grant = record {
  user = user;
  scope = "openid";
  nonce = "n1";
  auth_time = start;
  idp_session_id = "idp0";
}

abbrev tokens : AuthToken
tokens = record {
  user_id = "u1";
  access_token = "at1";
  refresh_token = "rt1";
  session_id = "sid1";
  access_expires_at = start + 900 * second;
  refresh_expires_at = start + 2592000 * second;
}

abbrev answer : TokenResponse
answer = record {
  access_token = "at1";
  token_type = "Bearer";
  expires_in = 900;
  refresh_token = "rt1";
  id_token = "id1";
  scope = "openid";
  refresh_cookie = none;
}

abbrev marked : Db
marked = mark_code "code1" db

abbrev after : Db
after = record marked {
  tokens = row_of env request grant tokens ∷ marked.tokens;
  sessions = session_of env request grant tokens ∷ marked.sessions;
}

answered : handle_token env request db ≡ (ok answer, after)
unfolding handle_token autentico.Token.CodeGrant.validate_token_request
    autentico.Token.Handler.token_request autentico.Client.authenticate_client_from_request
    autentico.Client.is_grant_type_allowed autentico.Text.split autentico.Token.Grants.grant
    autentico.Token.CodeGrant.user_by_authorization_code
    autentico.Token.CodeGrant.validate_token_request_authorization_code
    autentico.AuthCode.auth_code_by_code_including_used autentico.Token.CodeGrant.check_code
    autentico.Token.Pkce.validate_code_verifier autentico.Token.Pkce.is_unreserved
    autentico.Token.Pkce.verify_code_challenge autentico.AuthCode.mark_auth_code_as_used
    autentico.Env.exec autentico.User.user_by_id autentico.Token.Generate.generate_tokens
    autentico.Env.query autentico.Sql.find_row autentico.Env.exec_if autentico.Sql.any_row
    autentico.Token.create_token autentico.Session.create_session
    autentico.Token.Scopes.contains_scope autentico.Token.Generate.generate_id_token
    autentico.Token.Handler.client_config autentico.Client.config_for_client
answered = refl

handle_token-Answered_example :
    (o : Option Client) × IsAdmitted env request o db × Answered env request o db after answer
handle_token-Answered_example = handle_token-Answered env request answer db after answered

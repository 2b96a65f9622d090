-- ===== src/Introspect.antt =====
-- Token introspection (RFC 7662): pkg/introspect/service.go and handler.go.
pub mod Checks
pub mod Revocation
use autentico.Prelude.{
  ℕ, String, Bool, true, false, not, Option, none, some, ◌==◌, ◌||◌, is_empty, is_none, or_empty,
  ltb, if◌then◌else◌,
}
use autentico.Schema.{User, Session, Client, Token, Db, to_unix}
use autentico.Env.{Env, query, select_token}
use autentico.Exec.{
  Exec, GoError, message, HttpError, http, Result, ok, err, pure, raise, lift, require, on_error,
  optional, ◌>>=◌, ◌>>◌,
}
use autentico.Sql.{find_row}
use autentico.Text.{join, has_prefix}
use autentico.Web.{Request}
use autentico.User.{user_by_id_including_deactivated}
use autentico.Session.{session_by_access_token}
use autentico.Token.{has_value}
use autentico.Bearer.{admit_caller, may_handle}

-- The row is found by its access token or its refresh token; the expiry is the access token's.
unfoldable pub introspect_token : Env → String → Exec GoError Token
introspect_token env token_id = do
  t ← query env select_token (λ db. find_row (has_value token_id) db.tokens)
  require (is_none t.revoked_at) (message "token has been revoked")
  require (not (ltb t.access_token_expires_at env.now)) (message "token has expired")
  pure t

-- The fields that the handler fills; it leaves the others of the RFC's response out.
pub record IntrospectResponse : Type 0 where
  pub active : Bool
  pub scope : String
  pub token_type : String
  pub exp : ℕ
  pub iat : ℕ
  pub sub : String
  pub iss : String
  pub aud : String
  pub jti : String

abbrev pub inactive : IntrospectResponse
inactive = record {
  active = false;
  scope = "";
  token_type = "";
  exp = 0;
  iat = 0;
  sub = "";
  iss = "";
  aud = "";
  jti = "";
}

abbrev pub active_response : Env → Token → IntrospectResponse
active_response env t = record {
  active = true;
  scope = t.scope;
  token_type = t.access_token_type;
  exp = to_unix t.access_token_expires_at;
  iat = to_unix t.issued_at;
  sub = or_empty t.user_id;
  iss = env.issuer;
  aud = join env.config.access_token_audience;
  jti = t.id;
}

-- The token of the form or of the JSON body.
unfoldable pub requested_token : Request → Result HttpError String
requested_token req =
    if not req.has_body
    then err (http 400 "invalid_request")
    else if has_prefix req.content_type "application/x-www-form-urlencoded"
    then if req.parses then ok (req.form "token") else err (http 400 "invalid_request")
    else elim req.json_token [ none ↦ err (http 400 "invalid_request") | some t ↦ ok t ]

abbrev is_live_session : Option Session → Bool
is_live_session none = false
is_live_session (some s) = is_none s.deactivated_at

-- Client-credentials tokens have no session.
unfoldable pub session_lives : Env → Token → Exec HttpError Bool
session_lives env t = if t.grant_type == "client_credentials" then pure true else do
  sess ← optional (session_by_access_token env t.access_token)
  pure (is_live_session sess)

abbrev is_live_user : Option User → Bool
is_live_user none = false
is_live_user (some u) = is_none u.deactivated_at

abbrev live_owner : Env → Option String → Exec HttpError Bool
live_owner env none = pure true
live_owner env (some user_id) = do
  usr ← optional (user_by_id_including_deactivated env user_id)
  pure (is_live_user usr)

unfoldable pub owner_lives : Env → Token → Exec HttpError Bool
owner_lives env t = live_owner env t.user_id

unfoldable pub describe_owner : Env → Token → Exec HttpError IntrospectResponse
unfolding owner_lives
describe_owner env t = do
  owner_ok ← owner_lives env t
  pure (if owner_ok then active_response env t else inactive)

unfoldable pub describe_session : Env → Token → Bool → Exec HttpError IntrospectResponse
unfolding describe_owner
describe_session env t false = pure inactive
describe_session env t true = describe_owner env t

-- The answer about a row that introspect_token has let through.
unfoldable pub describe : Env → Option Client → Token → Exec HttpError IntrospectResponse
unfolding may_handle session_lives describe_session
describe env c t =
    if not (may_handle env c t.access_token)
    then pure inactive
    else do session_ok ← session_lives env t; describe_session env t session_ok

abbrev describe_found : Env → Option Client → Option Token → Exec HttpError IntrospectResponse
describe_found env c none = pure inactive
describe_found env c (some t) = describe env c t

unfoldable pub introspect : Env → Option Client → String → Exec HttpError IntrospectResponse
unfolding introspect_token describe
introspect env c token_id = do t ← optional (introspect_token env token_id); describe_found env c t

unfoldable pub handle_introspect : Env → Request → Exec HttpError IntrospectResponse
unfolding requested_token introspect
handle_introspect env req = do
  c ← admit_caller env req
  token_id ← lift (requested_token req)
  require (not (is_empty token_id)) (http 400 "invalid_request")
  introspect env c token_id

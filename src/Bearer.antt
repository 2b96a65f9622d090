-- ===== src/Bearer.antt =====
-- Bearer tokens: pkg/bearer/validate_bearer.go, ExtractBearerToken of pkg/utils, and the access
-- token tests of pkg/jwtutil.
pub mod Checks
use autentico.Prelude.{
  String, Bool, true, false, not, Option, none, some, List, [], ◌∷◌, ◌==◌, ◌||◌, is_empty, is_none,
  member, if◌then◌else◌,
}
use autentico.Schema.{User, Session, Client, Db}
use autentico.Env.{Env, AccessClaims}
use autentico.Exec.{
  Exec, GoError, message, HttpError, http, Result, ok, err, pure, lift, require, on_error, ◌>>=◌,
  ◌>>◌,
}
use autentico.Web.{Request}
use autentico.Text.{after_fold, trim_space}
use autentico.Client.{authenticate_client_from_request}
use autentico.User.{user_by_id}
use autentico.Session.{session_by_access_token}
use autentico.Token.{token_by_access_token}

-- The scheme name is compared without regard to case.
unfoldable pub extract_bearer_token : String → String
extract_bearer_token auth_header = elim (after_fold "bearer " auth_header) [
  | none ↦ ""
  | some rest ↦ trim_space rest
]

-- Whether one audience of the token is among the required ones.
unfoldable pub any_required : List String → List String → Bool
any_required [] required = false
any_required (aud ∷ auds) required = member aud required || any_required auds required

unfoldable pub validate_audience : List String → List String → Bool
unfolding any_required
validate_audience token_aud [] = true
validate_audience token_aud (r ∷ rs) = any_required token_aud (r ∷ rs)

abbrev audience_checked : Env → Option AccessClaims → Result GoError AccessClaims
audience_checked env none = err (message "invalid token")
audience_checked env (some claims) =
    if validate_audience claims.aud env.config.access_token_audience
    then ok claims
    else err (message "invalid token audience")

unfoldable pub validate_access_token : Env → String → Result GoError AccessClaims
unfolding validate_audience
validate_access_token env token_string = audience_checked env (env.parse_access token_string)

pub record Validated : Type 0 where
  pub token : String
  pub claims : AccessClaims
  pub session : Session

unfoldable pub live_session : Env → String → Exec GoError Session
live_session env bearer_token = do
  sess ← on_error (message "invalid session") (session_by_access_token env bearer_token)
  require (is_none sess.deactivated_at) (message "session has been deactivated")
  pure sess

-- A bearer token behind its claims: its session and its row.
unfoldable pub live_bearer : Env → String → AccessClaims → Exec GoError Validated
unfolding live_session
live_bearer env bearer_token claims = do
  sess ← live_session env bearer_token
  row ← on_error (message "token has been revoked") (token_by_access_token env bearer_token)
  pure (record { token = bearer_token; claims = claims; session = sess })

unfoldable pub validate_bearer_token : Env → String → Exec GoError Validated
unfolding validate_access_token live_bearer
validate_bearer_token env bearer_token = do
  require (not (is_empty bearer_token)) (message "invalid Authorization header")
  claims ← lift (validate_access_token env bearer_token)
  live_bearer env bearer_token claims

unfoldable pub validate_bearer : Env → Request → Exec GoError Validated
unfolding validate_bearer_token
validate_bearer env req = do
  require (not (is_empty req.authorization)) (message "missing Authorization header")
  validate_bearer_token env (extract_bearer_token req.authorization)

unfoldable pub user_from_request : Env → Request → Exec GoError User
user_from_request env req = do
  v ← validate_bearer env req
  on_error (message "user not found") (user_by_id env v.session.user_id)

unfoldable pub admit_admin : Env → Request → Exec HttpError (Option Client)
admit_admin env req = do
  require (not (is_empty req.authorization)) (http 401 "invalid_client")
  v ← on_error (http 401 "invalid_token") (validate_bearer env req)
  usr ← on_error (http 403 "insufficient_scope") (user_by_id env v.claims.sub)
  require (usr.role == "admin") (http 403 "insufficient_scope")
  pure none

abbrev caller : Env → Request → Option Client → Exec HttpError (Option Client)
caller env req (some c) = pure (some c)
caller env req none = admit_admin env req

-- Who may introspect or revoke: an authenticated client, or an admin's bearer token (`none`).
unfoldable pub admit_caller : Env → Request → Exec HttpError (Option Client)
unfolding admit_admin
admit_caller env req = do
  c ← on_error (http 401 "invalid_client") (authenticate_client_from_request env req)
  caller env req c

-- A client may ask about a token that names no client or names this one; an admin about any.
unfoldable pub may_handle : Env → Option Client → String → Bool
may_handle env none token_string = true
may_handle env (some c) token_string =
    is_empty (env.extract_azp token_string) || env.extract_azp token_string == c.client_id

-- ===== src/Token/RefreshGrant.antt =====
-- The refresh token grant: UserByRefreshToken of pkg/token/refresh_token.go, and the case
-- "refresh_token" of HandleToken (pkg/token/handler.go), which rotates the token.
pub mod Checks
pub mod Replay
use autentico.Prelude.{
  ℕ, String, Bool, true, false, not, Option, none, some, List, [], ◌∷◌, ◌==◌, ◌&&◌, ◌||◌, is_empty,
  ltb, or_empty, is_none, nat_eq, if◌then◌else◌,
}
use autentico.Schema.{User, Token, Session, Db, from_unix}
use autentico.Env.{
  Env, RefreshClaims, query, exec, select_revoked_at, revoke_user_tokens, select_access_token,
  select_prior_idp, select_scope, rotate,
}
use autentico.Exec.{
  Exec, GoError, HttpError, http, twice, Result, ok, err, pure, raise, lift, require, attempt,
  on_error, map_error, optional, ◌>>=◌, ◌>>◌,
}
use autentico.Sql.{find_row, update_rows}
use autentico.Text.{split}
use autentico.Session.{session_by_id_including_deactivated}
use autentico.IdpSession.{update_last_activity}
use autentico.User.{user_by_id}
use autentico.Token.{update_tokens, revoke}
use autentico.Token.Scopes.{is_scope_subset}
use autentico.Token.CodeGrant.{TokenRequest, invalid_grant, validate_token_request_refresh}

-- The second part of a token in three parts, decoded.
unfoldable pub extract_acr : Env → String → String
extract_acr env token_string = elim (split b'.' token_string) [
  | [] ↦ ""
  | header ∷ rest ↦ elim rest [ [] ↦ "" | payload ∷ _ ↦ env.payload_acr payload ]
]

abbrev decoded : Option RefreshClaims → Result HttpError RefreshClaims
decoded none = err invalid_grant
decoded (some claims) = ok claims

-- DecodeRefreshToken: the signature and the expiry are tested by the JWT library.
unfoldable pub decode_refresh_token : Env → String → Result HttpError RefreshClaims
decode_refresh_token env token_string = decoded (env.parse_refresh token_string)

-- A token that is bound to a client is presented by that client, where the request names one.
abbrev pub same_client : RefreshClaims → TokenRequest → Bool
same_client claims r = not (
    not (is_empty claims.client_id)
    && not (is_empty r.client_id)
    && not (claims.client_id == r.client_id))

unfoldable pub check_session : Env → TokenRequest → RefreshClaims → Exec HttpError (Unit {0})
check_session env r claims = do
  sess ← on_error invalid_grant (session_by_id_including_deactivated env claims.session_id)
  require (is_none sess.deactivated_at) invalid_grant
  require (same_client claims r) invalid_grant

abbrev pub has_refresh : String → Token → Bool
has_refresh refresh_token t = t.refresh_token == refresh_token

-- `SELECT column FROM tokens WHERE refresh_token = ?`.
abbrev pub column : {A : Type 0} → (Token → A) → Option Token → Option A
column f none = none
column f (some t) = some (f t)

abbrev pub read_column : {A : Type 0} → (Token → A) → String → Db → Option A
read_column f refresh_token db = column f (find_row (has_refresh refresh_token) db.tokens)

abbrev pub is_token_of : String → Token → Bool
is_token_of user_id t = elim t.user_id [
  | none ↦ false
  | some owner ↦ owner == user_id && is_none t.revoked_at
]

-- A token that has been revoked is presented: every token of the user is revoked.
unfoldable pub replay : Env → RefreshClaims → Exec HttpError (Unit {0})
replay env claims = do
  attempt (exec env revoke_user_tokens (update_tokens (is_token_of claims.user_id) (revoke env)))
  raise invalid_grant

-- `err == nil && revokedAt != nil`.
abbrev pub is_revoked : Option (Option ℕ) → Bool
is_revoked none = false
is_revoked (some revoked_at) = not (is_none revoked_at)

unfoldable pub check_revoked : Env → TokenRequest → RefreshClaims → Exec HttpError (Unit {0})
unfolding replay
check_revoked env r claims = do
  revoked ← optional (query env select_revoked_at (read_column (λ t. t.revoked_at) r.refresh_token))
  if is_revoked revoked then replay env claims else pure tt

abbrev is_mfa : Env → Option String → Bool
is_mfa env none = true
is_mfa env (some access_token) = extract_acr env access_token == "2"

-- A user with a second factor refreshes only a token that was issued with it.
unfoldable pub check_mfa : Env → TokenRequest → User → Exec HttpError (Unit {0})
unfolding extract_acr
check_mfa env r usr =
    if (env.config.require_mfa || usr.totp_verified) && usr.totp_verified
    then (do
      stored ←
          optional
            (query env select_access_token (read_column (λ t. t.access_token) r.refresh_token))
      require (is_mfa env stored) (http 403 "mfa_required"))
    else pure tt

unfoldable pub refresh_owner : Env → TokenRequest → RefreshClaims → Exec HttpError User
unfolding check_mfa
refresh_owner env r claims = do
  usr ← on_error (http 500 "server_error") (user_by_id env claims.user_id)
  check_mfa env r usr
  pure usr

-- The tests on a token that has not expired.
unfoldable pub refresh_user : Env → TokenRequest → RefreshClaims → Exec HttpError User
unfolding check_session check_revoked refresh_owner
refresh_user env r claims = do
  check_session env r claims
  check_revoked env r claims
  refresh_owner env r claims

abbrev pub expired : Env → RefreshClaims → Bool
expired env claims = ltb (from_unix claims.expires_at) env.now

-- `none` is the code's `nil, nil`: an expired token is answered with invalid_grant, but the error
-- that is returned with it is nil.
unfoldable pub user_by_refresh_token : Env → TokenRequest → Exec HttpError (Option User)
unfolding decode_refresh_token refresh_user
user_by_refresh_token env r = do
  require (validate_token_request_refresh r) invalid_grant
  claims ← lift (decode_refresh_token env r.refresh_token)
  if expired env claims then pure none else do usr ← refresh_user env r claims; pure (some usr)

-- What a refresh carries on from the token that it replaces.
pub record Carried : Type 0 where
  pub scope : String
  pub auth_time : ℕ
  pub idp_session_id : String

abbrev has_session_refresh : String → Session → Bool
has_session_refresh refresh_token s = s.refresh_token == refresh_token

abbrev prior : Option Session → Option String
prior none = none
prior (some s) = s.idp_session_id

abbrev touch_prior : Env → Option String → Exec HttpError (Unit {0})
touch_prior env none = pure tt
touch_prior env (some id) = attempt (update_last_activity env id)

-- The single sign-on session that the refreshed session stays linked to, "" if there is none.
unfoldable pub carry_idp : Env → TokenRequest → Exec HttpError String
carry_idp env r = do
  row ← optional (
      query env select_prior_idp (λ db. find_row (has_session_refresh r.refresh_token) db.sessions))
  touch_prior env (prior row)
  pure (or_empty (prior row))

abbrev pub is_rotated : String → Token → Bool
is_rotated refresh_token t = t.refresh_token == refresh_token && is_none t.revoked_at

unfoldable pub rotate_token : Env → String → Exec GoError (Unit {0})
rotate_token env refresh_token =
    exec env rotate (update_tokens (is_rotated refresh_token) (revoke env))

-- The scope and the time of the original token, `"", zero` if they cannot be read.
abbrev original : Option (String × ℕ) → String × ℕ
original none = ("", 0)
original (some row) = row

abbrev issued : ℕ → ℕ → ℕ
issued now at = if nat_eq at 0 then now else at

unfoldable pub rescope : TokenRequest → String → Result HttpError String
rescope r token_scope =
    if is_empty r.scope
    then ok token_scope
    else if is_scope_subset r.scope token_scope
    then ok r.scope
    else err (http 400 "invalid_scope")

unfoldable pub original_token : Env → String → Exec HttpError (String × ℕ)
original_token env refresh_token = do
  row ← optional (query env select_scope (read_column (λ t. (t.scope, t.issued_at)) refresh_token))
  pure (original row)

-- The part of the case "refresh_token" behind the rotation.
unfoldable pub carried : Env → TokenRequest → String → Exec HttpError Carried
unfolding rescope original_token
carried env r idp = do
  first ← original_token env r.refresh_token
  scope ← lift (rescope r first.0)
  pure (record { scope = scope; auth_time = issued env.now first.1; idp_session_id = idp })

-- The case "refresh_token" after UserByRefreshToken.
unfoldable pub rotate_grant : Env → TokenRequest → Exec HttpError Carried
unfolding carry_idp rotate_token carried
rotate_grant env r = do
  idp ← carry_idp env r
  on_error (http 500 "server_error") (rotate_token env r.refresh_token)
  carried env r idp
